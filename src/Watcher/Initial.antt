-- ===== src/Watcher/Initial.antt =====
-- The lists that internal/webserver/flow_watcher.go sends to a connection when it is registered, and
-- when it subscribes.
use jettison_controller.Common.{
  ℕ, true, false, List, [], ◌∷◌, ◌++◌, map, ◌≡◌, refl, sym, ◌∙◌, arith, eqb, append_assoc,
  append-nil,
}
use jettison_controller.Text.{Str, codes, slash}
use jettison_controller.Watcher.{
  Resource, ResourceSubscription, Message, flows, applications, rollouts, workflows, pods,
  new_web_error, Watcher, done, update, member, insert,
}
use jettison_controller.Watcher.Keys.{member-insert}
use jettison_controller.Watcher.Loop.{
  Initial, listed, failed, register, send_conn, send_initial, register_conn, round,
}
use jettison_controller.Watcher.Send.{IsNew}

-- The text of an error of `sendWebErrorAndClose`.
abbrev pub error_text : Str → Str → Str
error_text msg e = msg ++ (codes ": " ++ e)

-- The answer to a `List` call of the Kubernetes client.
pub data Answer (R : Type 0) : Type 0 where
  items : List (Resource R) → Answer R
  list_error : Str → Answer R

-- Errors name the namespace and the pod of the controller.
module _ {R : Type 0} (identifier namespace pod : Str) where
  abbrev list_failed : Str → Str → Str → Initial R
  list_failed reason msg e =
      failed (new_web_error identifier namespace pod reason (error_text msg e))

  unfoldable pub initial_flows : Answer R → Initial R
  initial_flows (items xs) = listed (flows xs)
  initial_flows (list_error e) = list_failed (codes "FlowListError") (codes "failed to get flows") e

  unfoldable pub initial_applications : Answer R → Initial R
  initial_applications (items xs) = listed (applications xs)
  initial_applications (list_error e) =
      list_failed (codes "ApplicationListError") (codes "failed to get applications") e

  unfoldable pub initial_rollouts : Answer R → Initial R
  initial_rollouts (items xs) = listed (rollouts xs)
  initial_rollouts (list_error e) =
      list_failed (codes "RolloutListError") (codes "failed to get rollouts") e

  -- Those of the database come first.
  unfoldable pub initial_workflows : List (Resource R) → Answer R → Initial R
  initial_workflows mysql (items xs) = listed (workflows (mysql ++ xs))
  initial_workflows mysql (list_error e) =
      list_failed (codes "WorkflowListError") (codes "failed to get workflows") e

-- The error names the subscription.
unfoldable pub subscription_pods : {R : Type 0} → Str → ResourceSubscription → Answer R → Initial R
subscription_pods identifier r (items xs) = listed (pods xs)
subscription_pods identifier r (list_error e) = failed (
    new_web_error identifier r.namespace r.name (codes "PodListError") (
      error_text (codes "failed to get subscription pods: " ++ (r.namespace ++ (slash ∷ r.name)))
        e))

module _ {R : Type 0} where
  send_initial-listed :
      (c : ℕ) (ms : List (Message R)) (s : Watcher R)
      → s.cancelled c ≡ false
      → s.closed c ≡ false
      → (t : Watcher R) × (send_initial c (map listed ms) s ≡ done t)
        × (t.received c ≡ s.received c ++ ms)
        × ((d : ℕ) → eqb d c ≡ false → t.received d ≡ s.received d)
  unfolding send_initial send_conn
  send_initial-listed c [] s p q = (s, refl, sym (append-nil (s.received c)), λ d h. refl)
  send_initial-listed c (m ∷ ms) s p q =
      let u : Watcher R = record s { received = update s.received c (s.received c ++ (m ∷ [])) } in
      let (t, e, mine, others) = send_initial-listed c ms u p q in
      (
        t,
        rw (p, q) e,
        mine ∙ ground (arith, append_assoc (s.received c) (m ∷ []) ms),
        λ d h. others d h ∙ ground arith,
      )

  -- A new connection gets all lists, in the order in which they come, and is registered.
  pub register-sends :
      (c : ℕ) (ms : List (Message R)) (s : Watcher R)
      → IsNew s c
      → (t : Watcher R) × (round (register c false (map listed ms)) s ≡ done t)
        × (t.received c ≡ s.received c ++ ms)
        × ((d : ℕ) → eqb d c ≡ false → t.received d ≡ s.received d)
        × (member c t.conns ≡ true)
  unfolding round register_conn
  register-sends c ms s new =
      let known : Watcher R = record s { is_aux = update s.is_aux c false } in
      let (t, e, mine, others) = send_initial-listed c ms known new.1 new.2 in
      (
        record t { conns = insert c t.conns },
        rw e refl,
        mine,
        others,
        ground (arith, member-insert c c t.conns),
      )
