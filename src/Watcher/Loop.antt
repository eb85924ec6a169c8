-- ===== src/Watcher/Loop.antt =====
-- The loop of internal/webserver/flow_watcher.go over its channels, and what it calls. All channels
-- are unbuffered. The loop is the only receiver of `unregister`, so a send to that channel for which
-- it waits itself blocks it for ever. Each connection's writer is taken to be ready to receive.
use mathlib.Core.Logic.{ite}
use jettison_controller.Common.{ℕ, Bool, true, false, List, [], ◌∷◌, ◌++◌, if◌then◌else◌}
use jettison_controller.Text.{Str, codes, ◌==◌}
use jettison_controller.Watcher.{
  Resource, ResourceSubscription, ResourceSubscription-discrete, Message, pods, Watcher, Run, done,
  blocked, panics, ◌>>=◌, update, member, remove, insert,
}

-- The answer to a `List` call of a goroutine that sends initial resources: an error is given as
-- its message.
pub data Initial (R : Type 0) : Type 0 where
  listed : Message R → Initial R
  failed : Message R → Initial R

-- What comes out of the channels.
pub data Event (R : Type 0) : Type 0 where
  register : ℕ → Bool → List (Initial R) → Event R
  unregister : ℕ → Event R
  subscribe : ℕ → ResourceSubscription → Initial R → Event R
  notify_all : Message R → Event R
  notify_subscriptions : Resource R → Event R

abbrev pub set_subscribers :
    (ResourceSubscription → List ℕ) → ResourceSubscription → List ℕ → ResourceSubscription → List ℕ
set_subscribers f r cs q = ite (ResourceSubscription-discrete q r) cs (f q)

-- The value of a key of a map; a key that is not there has the empty value.
abbrev pub label : List (Str × Str) → Str → Str
label [] key = []
label ((k, v) ∷ m) key = if k == key then v else label m key

abbrev pub pod_subscription_type : Str
pod_subscription_type = codes "pod"

abbrev pub jettison_app_label_key : Str
jettison_app_label_key = codes "jettison-app"

module _ {R : Type 0} where
  -- A send to a closed channel panics.
  unfoldable pub send_conn : ℕ → Message R → Watcher R → Run (Watcher R)
  send_conn c m s =
      if s.cancelled c
      then done s
      else if s.closed c
      then panics
      else done (record s { received = update s.received c (s.received c ++ (m ∷ [])) })

  -- From the loop, or while it waits for the caller.
  unfoldable pub send_web_error_and_close : ℕ → Message R → Watcher R → Run (Watcher R)
  unfolding send_conn
  send_web_error_and_close c e s = send_conn c e s >>= λ _. blocked

  -- The goroutines, in the order in which they come to send.
  unfoldable pub send_initial : ℕ → List (Initial R) → Watcher R → Run (Watcher R)
  unfolding send_conn send_web_error_and_close
  send_initial c [] s = done s
  send_initial c (listed m ∷ rest) s = send_conn c m s >>= send_initial c rest
  send_initial c (failed e ∷ rest) s = send_web_error_and_close c e s >>= send_initial c rest

  unfoldable pub register_conn : ℕ → Bool → List (Initial R) → Watcher R → Run (Watcher R)
  unfolding send_initial
  register_conn c aux initial s =
      let known = record s { is_aux = update s.is_aux c aux } in
      (if aux then done known else send_initial c initial known) >>= λ t.
      done (record t { conns = insert c t.conns })

  -- Closing a closed channel panics.
  unfoldable pub unregister_conn : ℕ → Watcher R → Run (Watcher R)
  unregister_conn c s =
      if member c s.conns
      then (if s.closed c
          then panics
          else done (record s {
            cancelled = update s.cancelled c true;
            conns = remove c s.conns;
            closed = update s.closed c true;
          }))
      else done s

  unfoldable pub register_resource_subscription :
      ℕ → ResourceSubscription → Initial R → Watcher R → Run (Watcher R)
  unfolding send_conn send_web_error_and_close
  register_resource_subscription c r answer s =
      if member c (s.subscriptions r) then done s else elim answer [
        | failed e ↦ send_web_error_and_close c e s
        | listed m ↦ send_conn c m s >>= λ t. done (record t {
          subscriptions = set_subscribers t.subscriptions r (insert c (t.subscriptions r));
        })
      ]

  unfoldable pub notify_conns : Message R → List ℕ → Watcher R → Run (Watcher R)
  unfolding send_conn
  notify_conns m [] s = done s
  notify_conns m (c ∷ cs) s = (if s.is_aux c then done s else send_conn c m s) >>= notify_conns m cs

  -- The loop over the subscribers of a resource. The ones that are no longer registered are deleted.
  unfoldable pub notify_subscribers :
      ResourceSubscription → Message R → List ℕ → Watcher R → Run (Watcher R)
  unfolding send_conn
  notify_subscribers r m [] s = done s
  notify_subscribers r m (c ∷ cs) s =
      (if member c s.conns
        then send_conn c m s
        else done (record s {
          subscriptions = set_subscribers s.subscriptions r (remove c (s.subscriptions r));
        }))
      >>= notify_subscribers r m cs

  abbrev pub subscription_of : Resource R → ResourceSubscription
  subscription_of pod = record {
    subscription_type = pod_subscription_type;
    namespace = pod.namespace;
    name = label pod.labels jettison_app_label_key;
  }

  unfoldable pub notify_resource_subscriptions : Resource R → Watcher R → Run (Watcher R)
  unfolding notify_subscribers
  notify_resource_subscriptions pod s =
      let r = subscription_of pod in notify_subscribers r (pods (pod ∷ [])) (s.subscriptions r) s

  -- One round of the loop.
  unfoldable pub round : Event R → Watcher R → Run (Watcher R)
  round (register c aux initial) s = register_conn c aux initial s
  round (unregister c) s = unregister_conn c s
  round (subscribe c r answer) s = register_resource_subscription c r answer s
  round (notify_all m) s = notify_conns m s.conns s
  round (notify_subscriptions pod) s = notify_resource_subscriptions pod s

  unfoldable pub run : List (Event R) → Watcher R → Run (Watcher R)
  run [] s = done s
  run (e ∷ es) s = round e s >>= run es

  -- The watcher as the web server sets it up.
  abbrev pub empty : Watcher R
  empty = record {
    conns = [];
    subscriptions = λ r. [];
    is_aux = λ c. false;
    cancelled = λ c. false;
    closed = λ c. false;
    received = λ c. [];
  }
