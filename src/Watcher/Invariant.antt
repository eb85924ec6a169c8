-- ===== src/Watcher/Invariant.antt =====
-- The rounds of the flow watcher's loop: what they keep, and when they end.
use jettison_controller.Common.{
  ℕ, Bool, true, false, List, [], ◌∷◌, ◌≡◌, refl, inl, inr, arith, if◌then◌else◌, Bool-cases,
}
use jettison_controller.Watcher.{
  ResourceSubscription, Watcher, done, update, member, remove, insert,
}
use jettison_controller.Watcher.Keys.{
  member-insert, member-remove, Distinct-insert, Distinct-remove,
}
use jettison_controller.Watcher.Loop.{
  Initial, listed, failed, Event, register, unregister, subscribe, notify_all, notify_subscriptions,
  send_conn, send_initial, register_conn, unregister_conn, register_resource_subscription,
  notify_resource_subscriptions, round, subscription_of,
}
use jettison_controller.Watcher.Send.{
  Ends, Ends-bind, Ends-mono, AreOpen, IsValid, IsNew, Keeps, Keeps-refl, Keeps-IsValid,
  Keeps-IsNew, keep, send_conn-Keeps, send_error-Keeps, send_initial-Keeps, notify_conns-Keeps,
  notify_subscribers-Keeps,
}

AreOpen-insert :
    (c : ℕ) (conns : List ℕ) (cancelled closed : ℕ → Bool)
    → cancelled c ≡ false
    → closed c ≡ false
    → AreOpen conns cancelled closed
    → AreOpen (insert c conns) cancelled closed
AreOpen-insert c conns cancelled closed p q v = record {
  open_conns = λ d h. ground (arith, member-insert d c conns, v.open_conns d);
  closed_cancelled = v.closed_cancelled;
  distinct = Distinct-insert c conns v.distinct;
}

AreOpen-remove :
    (c : ℕ) (conns : List ℕ) (cancelled closed : ℕ → Bool)
    → AreOpen conns cancelled closed
    → AreOpen (remove c conns) (update cancelled c true) (update closed c true)
AreOpen-remove c conns cancelled closed v = record {
  open_conns = λ d h. ground (arith, member-remove d c conns, v.open_conns d);
  closed_cancelled = λ d h. ground (arith, v.closed_cancelled d);
  distinct = Distinct-remove c conns v.distinct;
}

module _ {R : Type 0} where
  -- A connection is registered once: it is new when it is.
  abbrev pub IsFresh : Event R → Watcher R → Type 0
  IsFresh (register c aux initial) s = IsNew s c
  IsFresh _ s = Unit

  pub greet-Keeps :
      (c : ℕ) (aux : Bool) (initial : List (Initial R)) (s : Watcher R)
      → IsValid s
      → Ends (Keeps s) (if aux then done s else send_initial c initial s)
  greet-Keeps c true initial s v = Keeps-refl s
  greet-Keeps c false initial s v = send_initial-Keeps c initial s v

  register_conn-IsValid :
      (c : ℕ) (aux : Bool) (initial : List (Initial R)) (s : Watcher R)
      → IsNew s c
      → IsValid s
      → Ends IsValid (register_conn c aux initial s)
  unfolding register_conn
  register_conn-IsValid c aux initial s new v =
      let known : Watcher R = record s { is_aux = update s.is_aux c aux } in
      Ends-bind (Keeps known) IsValid (if aux then done known else send_initial c initial known) _
        (greet-Keeps c aux initial known v)
        λ t p.
          let n = Keeps-IsNew known t c p new in
          AreOpen-insert c t.conns t.cancelled t.closed n.1 n.2 (Keeps-IsValid known t p v)

  unregister_conn-IsValid : (c : ℕ) (s : Watcher R) → IsValid s → Ends IsValid (unregister_conn c s)
  unfolding unregister_conn
  unregister_conn-IsValid c s v = elim (Bool-cases (member c s.conns)) [
    | inl e ↦ rw (e, (v.open_conns c e).1) (AreOpen-remove c s.conns s.cancelled s.closed v)
    | inr e ↦ rw e v
  ]

  pub register_resource_subscription-Keeps :
      (c : ℕ) (r : ResourceSubscription) (answer : Initial R) (s : Watcher R)
      → IsValid s
      → Ends (Keeps s) (register_resource_subscription c r answer s)
  unfolding register_resource_subscription
  register_resource_subscription-Keeps c r (failed m) s v =
      elim (Bool-cases (member c (s.subscriptions r))) [
        | inl e ↦ rw e (Keeps-refl s)
        | inr e ↦ rw e (send_error-Keeps c m s v)
      ]
  register_resource_subscription-Keeps c r (listed m) s v =
      elim (Bool-cases (member c (s.subscriptions r))) [
        | inl e ↦ rw e (Keeps-refl s)
        | inr e ↦ rw e (
            keep s (send_conn c m s) _ v (send_conn-Keeps c m s v)
              λ t w. record { conns = refl; is_aux = refl; cancelled = refl; closed = refl })
      ]

  -- No round stops the program, and one that ends keeps the invariant.
  pub round-IsValid :
      (e : Event R) (s : Watcher R) → IsFresh e s → IsValid s → Ends IsValid (round e s)
  unfolding round notify_resource_subscriptions
  round-IsValid (register c aux initial) s f v = register_conn-IsValid c aux initial s f v
  round-IsValid (unregister c) s f v = unregister_conn-IsValid c s v
  round-IsValid (subscribe c r answer) s f v =
      Ends-mono (Keeps s) IsValid _ (register_resource_subscription-Keeps c r answer s v)
        λ t p. Keeps-IsValid s t p v
  round-IsValid (notify_all m) s f v =
      Ends-mono (Keeps s) IsValid _ (notify_conns-Keeps m s.conns s v) λ t p. Keeps-IsValid s t p v
  round-IsValid (notify_subscriptions pod) s f v =
      Ends-mono (Keeps s) IsValid _
        (notify_subscribers-Keeps (subscription_of pod) _ (s.subscriptions (subscription_of pod)) s
          v)
        λ t p. Keeps-IsValid s t p v

  -- Freshness for the rest of a run: no connection is registered twice.
  abbrev pub registered_by : List (Event R) → List ℕ
  registered_by [] = []
  registered_by (register c aux initial ∷ es) = c ∷ registered_by es
  registered_by (_ ∷ es) = registered_by es
