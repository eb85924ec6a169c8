-- ===== src/Watcher/History.antt =====
-- Runs of the flow watcher's loop over any events.
use jettison_controller.Common.{
  ℕ, Bool, true, false, List, [], ◌∷◌, ◌≡◌, refl, inl, inr, arith, eqb, eqb_iff, if◌then◌else◌,
  Bool-cases,
}
use jettison_controller.Watcher.{Watcher, done, update, member, Distinct}
use jettison_controller.Watcher.Keys.{member-insert, member-remove}
use jettison_controller.Watcher.Loop.{
  Initial, Event, register, unregister, subscribe, notify_all, notify_subscriptions, send_initial,
  register_conn, unregister_conn, notify_resource_subscriptions, round, run, subscription_of, empty,
}
use jettison_controller.Watcher.Send.{
  Ends, Ends-bind, Ends-mono, Ends-each, IsValid, IsNew, Keeps, Keeps-IsNew, notify_conns-Keeps,
  notify_subscribers-Keeps,
}
use jettison_controller.Watcher.Invariant.{
  IsFresh, round-IsValid, registered_by, greet-Keeps, register_resource_subscription-Keeps,
}

module _ {R : Type 0} where
  -- A connection stays new until it is registered.
  register-IsNew :
      (c d : ℕ) (aux : Bool) (initial : List (Initial R)) (s : Watcher R)
      → IsValid s
      → eqb c d ≡ false
      → IsNew s c
      → Ends (λ t. IsNew t c) (register_conn d aux initial s)
  unfolding register_conn
  register-IsNew c d aux initial s v other new =
      let known : Watcher R = record s { is_aux = update s.is_aux d aux } in
      Ends-bind (Keeps known) (λ t. IsNew t c)
        (if aux then done known else send_initial d initial known) _
        (greet-Keeps d aux initial known v)
        λ t p.
          let (a, b, e) = Keeps-IsNew known t c p new in
          (ground (arith, member-insert c d t.conns), b, e)

  unregister-IsNew :
      (c d : ℕ) (s : Watcher R)
      → IsValid s
      → IsNew s c
      → Ends (λ t. IsNew t c) (unregister_conn d s)
  unfolding unregister_conn
  unregister-IsNew c d s v new = elim (Bool-cases (member d s.conns)) [
    | inl e ↦
        rw (e, (v.open_conns d e).1)
          (ground (arith, member-remove c d s.conns), ground arith, ground arith)
    | inr e ↦ rw e new
  ]

  round-IsNew :
      (c : ℕ) (e : Event R) (s : Watcher R)
      → IsValid s
      → member c (registered_by (e ∷ [])) ≡ false
      → IsNew s c
      → Ends (λ t. IsNew t c) (round e s)
  unfolding round notify_resource_subscriptions
  round-IsNew c (register d aux initial) s v other new =
      register-IsNew c d aux initial s v (ground arith) new
  round-IsNew c (unregister d) s v other new = unregister-IsNew c d s v new
  round-IsNew c (subscribe d r answer) s v other new =
      Ends-mono (Keeps s) _ _ (register_resource_subscription-Keeps d r answer s v)
        λ t p. Keeps-IsNew s t c p new
  round-IsNew c (notify_all m) s v other new =
      Ends-mono (Keeps s) _ _ (notify_conns-Keeps m s.conns s v) λ t p. Keeps-IsNew s t c p new
  round-IsNew c (notify_subscriptions pod) s v other new =
      let r = subscription_of pod in
      Ends-mono (Keeps s) _ _ (notify_subscribers-Keeps r _ (s.subscriptions r) s v)
        λ t p. Keeps-IsNew s t c p new

  head-IsFresh :
      (e : Event R) (es : List (Event R)) (s : Watcher R)
      → ((c : ℕ) → member c (registered_by (e ∷ es)) ≡ true → IsNew s c)
      → IsFresh e s
  head-IsFresh (register c aux initial) es s new = new c (ground arith)
  head-IsFresh (unregister c) es s new = tt
  head-IsFresh (subscribe c r answer) es s new = tt
  head-IsFresh (notify_all m) es s new = tt
  head-IsFresh (notify_subscriptions pod) es s new = tt

  -- The connections registered later are other ones.
  later :
      (c : ℕ) (e : Event R) (es : List (Event R))
      → Distinct (registered_by (e ∷ es))
      → member c (registered_by es) ≡ true
      → (member c (registered_by (e ∷ [])) ≡ false) × (member c (registered_by (e ∷ es)) ≡ true)
  later c (register d aux initial) es (lacks, v) h = elim (Bool-cases (eqb c d)) [
    | inl e ↦
        let same : c ≡ d = (eqb_iff c d).0 e in
        let clash : member d (registered_by es) ≡ true = rw (← same) h in cc
    | inr e ↦ ground arith
  ]
  later c (unregister d) es v h = (refl, h)
  later c (subscribe d r answer) es v h = (refl, h)
  later c (notify_all m) es v h = (refl, h)
  later c (notify_subscriptions pod) es v h = (refl, h)

  tail-Distinct :
      (e : Event R) (es : List (Event R))
      → Distinct (registered_by (e ∷ es))
      → Distinct (registered_by es)
  tail-Distinct (register d aux initial) es (_, v) = v
  tail-Distinct (unregister d) es v = v
  tail-Distinct (subscribe d r answer) es v = v
  tail-Distinct (notify_all m) es v = v
  tail-Distinct (notify_subscriptions pod) es v = v

  run_from-IsValid :
      (es : List (Event R)) (s : Watcher R)
      → Distinct (registered_by es)
      → ((c : ℕ) → member c (registered_by es) ≡ true → IsNew s c)
      → IsValid s
      → Ends IsValid (run es s)
  unfolding run
  run_from-IsValid [] s v new w = w
  run_from-IsValid (e ∷ es) s v new w =
      Ends-bind _ IsValid (round e s) (run es)
        (Ends-each IsValid (λ c. member c (registered_by es) ≡ true) (λ c t. IsNew t c) (round e s)
          (round-IsValid e s (head-IsFresh e es s new) w)
          (λ c h. let (other, there) = later c e es v h in round-IsNew c e s w other (new c there)))
        λ t p. run_from-IsValid es t (tail-Distinct e es v) p.1 p.0

  empty-IsValid : (s : Watcher R) → s ≡ empty → IsValid s
  empty-IsValid s e =
      rw e (record { open_conns = λ c h. (refl, refl); closed_cancelled = λ c h. h; distinct = tt })

  -- For every sequence of events that registers each connection at most once, the loop of the
  -- watcher does not panic. If it does not come to wait for ever, each registered connection then
  -- has an open channel and a context that is not cancelled, each connection whose channel is
  -- closed has a cancelled context, and no connection is registered twice.
  pub run-IsValid :
      (es : List (Event R)) → Distinct (registered_by es) → Ends IsValid (run es empty)
  run-IsValid es v =
      run_from-IsValid es empty v (λ c h. (refl, refl, refl)) (empty-IsValid empty refl)
