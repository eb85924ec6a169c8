-- ===== src/Watcher/Reader.antt =====
-- What the web server reads from a connection: readConn of internal/webserver/flow_watcher.go, with
-- the messages of webmessage.go, and what their handlers answer.
pub mod Tests
use jettison_controller.Common.{Bool, List, [], ◌∷◌, ◌++◌, Option, none, some, if◌then◌else◌}
use jettison_controller.Text.{Str, codes, slash, ◌==◌}
use jettison_controller.Json.{Json, is_key, into_string, into_struct}
use jettison_controller.Flow.Decode.{put}
use jettison_controller.Watcher.{
  Resource, ResourceSubscription, Message, pods, new_web_error, Run, done, ◌>>=◌,
}
use jettison_controller.Watcher.Loop.{pod_subscription_type}
use jettison_controller.Watcher.Objects.{Object, pod, with_schema}
use jettison_controller.Watcher.Initial.{error_text}

-- The data that is not there is `none`.
pub record WebMessage : Type 0 where
  pub message_type : Str
  pub message_data : Option Json

pub record ContainerLogData : Type 0 where
  pub namespace : Str
  pub pod_name : Str
  pub container_name : Str

-- The data of the messages that synchronise an application or retry a rollout.
pub record Target : Type 0 where
  pub namespace : Str
  pub name : Str

unfoldable pub store_web_message : Str → Json → WebMessage → Option WebMessage
store_web_message key j m =
    if is_key (codes "messageType") key
    then put (into_string j m.message_type) (λ v. record m { message_type = v })
    else if is_key (codes "messageData") key
    then some (record m { message_data = some j })
    else some m

unfoldable pub store_container_log : Str → Json → ContainerLogData → Option ContainerLogData
store_container_log key j d =
    if is_key (codes "namespace") key
    then put (into_string j d.namespace) (λ v. record d { namespace = v })
    else if is_key (codes "podName") key
    then put (into_string j d.pod_name) (λ v. record d { pod_name = v })
    else if is_key (codes "containerName") key
    then put (into_string j d.container_name) (λ v. record d { container_name = v })
    else some d

unfoldable pub store_subscription : Str → Json → ResourceSubscription → Option ResourceSubscription
store_subscription key j r =
    if is_key (codes "subscriptionType") key
    then put (into_string j r.subscription_type) (λ v. record r { subscription_type = v })
    else if is_key (codes "namespace") key
    then put (into_string j r.namespace) (λ v. record r { namespace = v })
    else if is_key (codes "name") key
    then put (into_string j r.name) (λ v. record r { name = v })
    else some r

unfoldable pub store_target : Str → Json → Target → Option Target
store_target key j t =
    if is_key (codes "namespace") key
    then put (into_string j t.namespace) (λ v. record t { namespace = v })
    else if is_key (codes "name") key
    then put (into_string j t.name) (λ v. record t { name = v })
    else some t

-- What a handler is called with.
pub data Request : Type 0 where
  container_log : ContainerLogData → Request
  subscription : ResourceSubscription → Request
  sync_application_of retry_rollout_of : Target → Request

-- The handler of a subscription panics at any other type.
abbrev pub accept_subscription : ResourceSubscription → Option Request
accept_subscription r =
    if r.subscription_type == pod_subscription_type then some (subscription r) else none

-- `none` where the program panics.
unfoldable pub read_data : Str → Json → Option Request
unfolding into_struct store_container_log store_subscription store_target
read_data type j =
    if type == codes "containerLog"
    then put
        (into_struct store_container_log j
          (record { namespace = []; pod_name = []; container_name = [] }))
        container_log
    else if type == codes "resourceSubscription"
    then elim (into_struct store_subscription j
        (record { subscription_type = []; namespace = []; name = [] })) [
          | none ↦ none
          | some r ↦ accept_subscription r
        ]
    else if type == codes "syncApplication"
    then put (into_struct store_target j (record { namespace = []; name = [] })) sync_application_of
    else if type == codes "retryRollout"
    then put (into_struct store_target j (record { namespace = []; name = [] })) retry_rollout_of
    else none

-- Without data, either the type is unknown or there is nothing to parse: both panic.
unfoldable pub read_message : Json → Option Request
unfolding into_struct store_web_message read_data
read_message j =
    elim (into_struct store_web_message j (record { message_type = []; message_data = none })) [
      | none ↦ none
      | some m ↦ elim m.message_data [ none ↦ none | some d ↦ read_data m.message_type d ]
    ]

-- The results of ReadMessage: a text, which is JSON or not; another type of message; and an error,
-- with the answer of IsUnexpectedCloseError.
pub data Incoming : Type 0 where
  text : Option Json → Incoming
  other_type : Incoming
  read_error : Bool → Incoming

-- How the reader ends. It sends the connection to `unregister` in both cases; a panic then stops the
-- program.
pub data ReadEnd : Type 0 where
  reading exited panicked : ReadEnd

-- The calls of the handlers, in order.
unfoldable pub read_conn : List Incoming → List Request × ReadEnd
unfolding read_message
read_conn [] = ([], reading)
read_conn (text none ∷ rest) = ([], panicked)
read_conn (text (some j) ∷ rest) =
    let (requests, ending) = read_conn rest in
    elim (read_message j) [ none ↦ ([], panicked) | some r ↦ (r ∷ requests, ending) ]
read_conn (other_type ∷ rest) = ([], panicked)
read_conn (read_error unexpected ∷ rest) = ([], if unexpected then panicked else exited)

-- What a goroutine of a handler does with its connection.
pub data Reply (R : Type 0) : Type 0 where
  silent : Reply R
  sends sends_and_closes : Message R → Reply R

-- The answer to a call for one object.
pub data Lookup (A : Type 0) : Type 0 where
  found : A → Lookup A
  not_found : Lookup A
  lookup_failed : Str → Lookup A

-- `fmt.Sprintf("…: %s/%s", …)`
abbrev pub located : Str → Str → Str → Str
located msg namespace name = msg ++ (codes ": " ++ (namespace ++ (slash ∷ name)))

module _ {R : Type 0} (gvk : Object R → Option (Str × Str)) (identifier : Str) where
  abbrev pub reply_error : Str → Str → Str → Str → Str → Reply R
  reply_error namespace name reason msg e =
      sends_and_closes
        (new_web_error identifier namespace name reason (error_text (located msg namespace name) e))

  unfoldable pub send_pod : ContainerLogData → Lookup (Resource R) → Run (Reply R)
  send_pod d (found r) = with_schema gvk identifier pod r >>= λ x. done (sends (pods (x ∷ [])))
  send_pod d not_found = done (
      sends (
        new_web_error identifier d.namespace d.pod_name (codes "PodNotFound")
          (located (codes "pod not found") d.namespace d.pod_name)))
  send_pod d (lookup_failed e) =
      done (reply_error d.namespace d.pod_name (codes "PodGetError") (codes "failed to get pod") e)

  -- What is sent before the loop over the lines; `silent` when the stream is open.
  unfoldable pub open_log_stream : ContainerLogData → Lookup (Unit {0}) → Reply R
  open_log_stream d (found _) = silent
  open_log_stream d not_found = sends (
      new_web_error identifier d.namespace d.pod_name (codes "PodNotFound")
        (located (codes "no pod found for log stream") d.namespace d.pod_name))
  open_log_stream d (lookup_failed e) =
      reply_error d.namespace d.pod_name (codes "PodLogsError")
        (codes "failed to get pod log stream") e

  -- With the error of the call, if there was one.
  unfoldable pub sync_application_reply : Target → Option Str → Reply R
  sync_application_reply t none = silent
  sync_application_reply t (some e) =
      reply_error t.namespace t.name (codes "ApplicationSyncError")
        (codes "failed to sync ArgoCD application") e

  unfoldable pub retry_rollout_reply : Target → Option Str → Reply R
  retry_rollout_reply t none = silent
  retry_rollout_reply t (some e) =
      reply_error t.namespace t.name (codes "RolloutRetryError") (codes "failed to retry rollout") e
