-- ===== src/Watcher/Silence.antt =====
-- A connection that was unregistered gets no more messages.
use jettison_controller.Common.{
  ℕ, Bool, true, false, List, [], ◌∷◌, ◌≡◌, refl, inl, inr, arith, eqb, eqb_iff, if◌then◌else◌,
  Bool-cases,
}
use jettison_controller.Watcher.{
  ResourceSubscription, Message, Watcher, Run, done, blocked, panics, ◌>>=◌, update, member,
}
use jettison_controller.Watcher.Loop.{
  Initial, listed, failed, Event, register, unregister, subscribe, notify_all, notify_subscriptions,
  send_conn, unregister_conn, notify_conns, notify_subscribers, notify_resource_subscriptions,
  round, run, subscription_of,
}
use jettison_controller.Watcher.Loop.{
  send_initial, register_conn, register_resource_subscription, send_web_error_and_close,
}

-- If the step ends, its result has the property.
abbrev pub Yields : {A : Type 0} → (A → Type 0) → Run A → Type 0
Yields P (done a) = P a
Yields P blocked = Unit
Yields P panics = Unit

Yields-bind :
    {A B : Type 0} (P : A → Type 0) (Q : B → Type 0) (r : Run A) (next : A → Run B)
    → Yields P r
    → ((a : A) → P a → Yields Q (next a))
    → Yields Q (r >>= next)
Yields-bind P Q (done a) next h k = k a h
Yields-bind P Q blocked next h k = tt
Yields-bind P Q panics next h k = tt

Yields-done : {A : Type 0} (P : A → Type 0) {r : Run A} {a : A} → r ≡ done a → Yields P r → P a
Yields-done P e h = rw e at h

-- The connection is cancelled, and its messages are these.
abbrev pub Silent : {R : Type 0} → ℕ → List (Message R) → Watcher R → Type 0
Silent d ms s = (s.cancelled d ≡ true) × (s.received d ≡ ms)

module _ {R : Type 0} (d : ℕ) (ms : List (Message R)) where
  abbrev Quiet : Watcher R → Type 0
  Quiet = Silent d ms

  send_conn-Silent :
      (c : ℕ) (m : Message R) (s : Watcher R) → Quiet s → Yields Quiet (send_conn c m s)
  unfolding send_conn
  send_conn-Silent c m s q = elim (Bool-cases (s.cancelled c)) [
    | inl e ↦ rw e q
    | inr e ↦ elim (Bool-cases (s.closed c)) [
      | inl f ↦ rw (e, f) tt
      | inr f ↦
          rw (e, f)
            (
              q.0,
              elim (Bool-cases (eqb d c)) [
                | inl h ↦
                    let same : d ≡ c = (eqb_iff d c).0 h in
                    let clash : s.cancelled d ≡ false = rw same e in cc
                | inr h ↦ rw h q.1
              ],
            )
    ]
  ]

  choose-Silent :
      (b : Bool) (s : Watcher R) (r t : Run (Watcher R))
      → Yields Quiet r
      → Yields Quiet t
      → Yields Quiet (if b then r else t)
  choose-Silent true s r t h k = h
  choose-Silent false s r t h k = k

  send_initial-Silent :
      (c : ℕ) (initial : List (Initial R)) (s : Watcher R)
      → Quiet s
      → Yields Quiet (send_initial c initial s)
  unfolding send_initial send_web_error_and_close
  send_initial-Silent c [] s q = q
  send_initial-Silent c (listed m ∷ rest) s q =
      Yields-bind Quiet Quiet (send_conn c m s) _ (send_conn-Silent c m s q)
        (send_initial-Silent c rest)
  send_initial-Silent c (failed m ∷ rest) s q =
      Yields-bind Quiet Quiet (send_conn c m s >>= λ _. blocked) _
        (Yields-bind Quiet Quiet (send_conn c m s) _ (send_conn-Silent c m s q) λ t p. tt)
        (send_initial-Silent c rest)

  notify_conns-Silent :
      (m : Message R) (cs : List ℕ) (s : Watcher R) → Quiet s → Yields Quiet (notify_conns m cs s)
  unfolding notify_conns
  notify_conns-Silent m [] s q = q
  notify_conns-Silent m (c ∷ cs) s q =
      Yields-bind Quiet Quiet (if s.is_aux c then done s else send_conn c m s) _
        (choose-Silent (s.is_aux c) s _ _ q (send_conn-Silent c m s q)) (notify_conns-Silent m cs)

  notify_subscribers-Silent :
      (r : ResourceSubscription) (m : Message R) (cs : List ℕ) (s : Watcher R)
      → Quiet s
      → Yields Quiet (notify_subscribers r m cs s)
  unfolding notify_subscribers
  notify_subscribers-Silent r m [] s q = q
  notify_subscribers-Silent r m (c ∷ cs) s q =
      Yields-bind Quiet Quiet _ _
        (choose-Silent (member c s.conns) s (send_conn c m s) _ (send_conn-Silent c m s q) q)
        (notify_subscribers-Silent r m cs)

  unregister_conn-Silent : (c : ℕ) (s : Watcher R) → Quiet s → Yields Quiet (unregister_conn c s)
  unfolding unregister_conn
  unregister_conn-Silent c s q =
      choose-Silent (member c s.conns) s _ _
        (choose-Silent (s.closed c) s panics _ tt (ground arith, q.1)) q

  subscribe-Silent :
      (c : ℕ) (r : ResourceSubscription) (answer : Initial R) (s : Watcher R)
      → Quiet s
      → Yields Quiet (register_resource_subscription c r answer s)
  unfolding register_resource_subscription send_web_error_and_close
  subscribe-Silent c r (listed m) s q =
      choose-Silent (member c (s.subscriptions r)) s _ _ q
        (Yields-bind Quiet Quiet (send_conn c m s) _ (send_conn-Silent c m s q) λ t p. p)
  subscribe-Silent c r (failed m) s q =
      choose-Silent (member c (s.subscriptions r)) s _ _ q
        (Yields-bind Quiet Quiet (send_conn c m s) _ (send_conn-Silent c m s q) λ t p. tt)

  round-Silent : (e : Event R) (s : Watcher R) → Quiet s → Yields Quiet (round e s)
  unfolding round register_conn notify_resource_subscriptions
  round-Silent (register c aux initial) s q =
      let known : Watcher R = record s { is_aux = update s.is_aux c aux } in
      Yields-bind Quiet Quiet _ _
        (choose-Silent aux s (done known) (send_initial c initial known) q
          (send_initial-Silent c initial known q))
        λ t p. p
  round-Silent (unregister c) s q = unregister_conn-Silent c s q
  round-Silent (subscribe c r answer) s q = subscribe-Silent c r answer s q
  round-Silent (notify_all m) s q = notify_conns-Silent m s.conns s q
  round-Silent (notify_subscriptions pod) s q =
      notify_subscribers-Silent (subscription_of pod) _ _ s q

  run-Silent : (es : List (Event R)) (s : Watcher R) → Quiet s → Yields Quiet (run es s)
  unfolding run
  run-Silent [] s q = q
  run-Silent (e ∷ es) s q =
      Yields-bind Quiet Quiet (round e s) (run es) (round-Silent e s q) (run-Silent es)

module _ {R : Type 0} where
  -- After a registered connection is unregistered, no sequence of events that the loop completes
  -- makes it receive a message, even one that registers it or subscribes it.
  pub unregister-silences :
      (c : ℕ) (es : List (Event R)) (s t : Watcher R)
      → member c s.conns ≡ true
      → run (unregister c ∷ es) s ≡ done t
      → t.received c ≡ s.received c
  unfolding run round unregister_conn
  unregister-silences c es s t known h = elim (Bool-cases (s.closed c)) [
    | inl e ↦ let stopped = rw (known, e) at h in cc
    | inr e ↦
        (Yields-done (Silent c (s.received c)) (rw (known, e) at h)
          (run-Silent c (s.received c) es _ (ground arith, refl))).1
  ]
