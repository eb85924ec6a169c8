-- ===== src/Watcher/Send.antt =====
-- What the sends of the flow watcher leave as it is.
use jettison_controller.Common.{
  ℕ, Bool, true, false, List, [], ◌∷◌, ◌≡◌, refl, ◌∙◌, inl, inr, if◌then◌else◌, Bool-cases,
}
use jettison_controller.Watcher.{
  ResourceSubscription, Message, Watcher, Run, done, blocked, panics, ◌>>=◌, member, remove,
  Distinct,
}
use jettison_controller.Watcher.Loop.{
  Initial, listed, failed, send_conn, send_web_error_and_close, send_initial, notify_conns,
  notify_subscribers, set_subscribers,
}

-- The program does not stop, and if the step ends, its result has the property.
abbrev pub Ends : {A : Type 0} → (A → Type 0) → Run A → Type 0
Ends P (done a) = P a
Ends P blocked = Unit
Ends P panics = ⊥

pub Ends-bind :
    {A B : Type 0} (P : A → Type 0) (Q : B → Type 0) (r : Run A) (next : A → Run B)
    → Ends P r
    → ((a : A) → P a → Ends Q (next a))
    → Ends Q (r >>= next)
Ends-bind P Q (done a) next h k = k a h
Ends-bind P Q blocked next h k = tt
Ends-bind P Q panics next h k = h

pub Ends-mono :
    {A : Type 0} (P Q : A → Type 0) (r : Run A) → Ends P r → ((a : A) → P a → Q a) → Ends Q r
Ends-mono P Q (done a) h k = k a h
Ends-mono P Q blocked h k = tt
Ends-mono P Q panics h k = h

pub Ends-each :
    {A C : Type 0} (P : A → Type 0) (Q : C → Type 0) (N : C → A → Type 0) (r : Run A)
    → Ends P r
    → ((c : C) → Q c → Ends (N c) r)
    → Ends (λ a. P a × ((c : C) → Q c → N c a)) r
Ends-each P Q N (done a) h k = (h, k)
Ends-each P Q N blocked h k = tt
Ends-each P Q N panics h k = h

pub Ends-done : {A : Type 0} (P : A → Type 0) {r : Run A} {a : A} → r ≡ done a → Ends P r → P a
Ends-done P e h = rw e at h

-- The connections of the map are open, and only they can be sent to.
pub record AreOpen (conns : List ℕ) (cancelled closed : ℕ → Bool) : Type 0 where
  pub open_conns : (c : ℕ) → member c conns ≡ true → (cancelled c ≡ false) × (closed c ≡ false)
  pub closed_cancelled : (c : ℕ) → closed c ≡ true → cancelled c ≡ true
  pub distinct : Distinct conns

module _ {R : Type 0} where
  abbrev pub IsValid : Watcher R → Type 0
  IsValid s = AreOpen s.conns s.cancelled s.closed

  -- A connection that was not registered yet.
  abbrev pub IsNew : Watcher R → ℕ → Type 0
  IsNew s c = (member c s.conns ≡ false) × (s.cancelled c ≡ false) × (s.closed c ≡ false)

  -- Sends change none of this.
  pub record Keeps (s t : Watcher R) : Type 0 where
    pub conns : t.conns ≡ s.conns
    pub is_aux : t.is_aux ≡ s.is_aux
    pub cancelled : t.cancelled ≡ s.cancelled
    pub closed : t.closed ≡ s.closed

  pub Keeps-refl : (s : Watcher R) → Keeps s s
  Keeps-refl s = record { conns = refl; is_aux = refl; cancelled = refl; closed = refl }

  pub Keeps-trans : (s t u : Watcher R) → Keeps s t → Keeps t u → Keeps s u
  Keeps-trans s t u p q = record {
    conns = q.conns ∙ p.conns;
    is_aux = q.is_aux ∙ p.is_aux;
    cancelled = q.cancelled ∙ p.cancelled;
    closed = q.closed ∙ p.closed;
  }

  pub Keeps-IsValid : (s t : Watcher R) → Keeps s t → IsValid s → IsValid t
  Keeps-IsValid s t p v = rw (p.conns, p.cancelled, p.closed) v

  pub Keeps-IsNew : (s t : Watcher R) (c : ℕ) → Keeps s t → IsNew s c → IsNew t c
  Keeps-IsNew s t c p v = rw (p.conns, p.cancelled, p.closed) v

  -- One step after another.
  pub keep :
      (s : Watcher R) (r : Run (Watcher R)) (next : Watcher R → Run (Watcher R))
      → IsValid s
      → Ends (Keeps s) r
      → ((t : Watcher R) → IsValid t → Ends (Keeps t) (next t))
      → Ends (Keeps s) (r >>= next)
  keep s r next v h k = Ends-bind (Keeps s) (Keeps s) r next h λ t p.
      Ends-mono (Keeps t) (Keeps s) (next t) (k t (Keeps-IsValid s t p v))
        λ u q. Keeps-trans s t u p q

  pub send_conn-Keeps :
      (c : ℕ) (m : Message R) (s : Watcher R) → IsValid s → Ends (Keeps s) (send_conn c m s)
  unfolding send_conn
  send_conn-Keeps c m s v = elim (Bool-cases (s.cancelled c)) [
    | inl e ↦ rw e (Keeps-refl s)
    | inr e ↦ elim (Bool-cases (s.closed c)) [
      | inl f ↦ let g = v.closed_cancelled c f in cc
      | inr f ↦ rw (e, f) (record { conns = refl; is_aux = refl; cancelled = refl; closed = refl })
    ]
  ]

  -- A send that is followed by a wait for ever.
  pub send_error-Keeps :
      (c : ℕ) (e : Message R) (s : Watcher R)
      → IsValid s
      → Ends (Keeps s) (send_web_error_and_close c e s)
  unfolding send_web_error_and_close
  send_error-Keeps c e s v =
      Ends-bind (Keeps s) (Keeps s) (send_conn c e s) (λ _. blocked) (send_conn-Keeps c e s v)
        λ t p. tt

  pub send_initial-Keeps :
      (c : ℕ) (initial : List (Initial R)) (s : Watcher R)
      → IsValid s
      → Ends (Keeps s) (send_initial c initial s)
  unfolding send_initial
  send_initial-Keeps c [] s v = Keeps-refl s
  send_initial-Keeps c (listed m ∷ rest) s v =
      keep s (send_conn c m s) _ v (send_conn-Keeps c m s v) (send_initial-Keeps c rest)
  send_initial-Keeps c (failed e ∷ rest) s v =
      keep s (send_web_error_and_close c e s) _ v (send_error-Keeps c e s v)
        (send_initial-Keeps c rest)

  pub notify_conns-Keeps :
      (m : Message R) (cs : List ℕ) (s : Watcher R)
      → IsValid s
      → Ends (Keeps s) (notify_conns m cs s)
  unfolding notify_conns
  notify_conns-Keeps m [] s v = Keeps-refl s
  notify_conns-Keeps m (c ∷ cs) s v =
      keep s (if s.is_aux c then done s else send_conn c m s) _ v
        (elim (Bool-cases (s.is_aux c)) [
          | inl e ↦ rw e (Keeps-refl s)
          | inr e ↦ rw e (send_conn-Keeps c m s v)
        ])
        (notify_conns-Keeps m cs)

  pub notify_subscribers-Keeps :
      (r : ResourceSubscription) (m : Message R) (cs : List ℕ) (s : Watcher R)
      → IsValid s
      → Ends (Keeps s) (notify_subscribers r m cs s)
  unfolding notify_subscribers
  notify_subscribers-Keeps r m [] s v = Keeps-refl s
  notify_subscribers-Keeps r m (c ∷ cs) s v =
      keep s
        (if member c s.conns
          then send_conn c m s
          else done (record s {
            subscriptions = set_subscribers s.subscriptions r (remove c (s.subscriptions r));
          }))
        _ v
        (elim (Bool-cases (member c s.conns)) [
          | inl e ↦ rw e (send_conn-Keeps c m s v)
          | inr e ↦ rw e (record { conns = refl; is_aux = refl; cancelled = refl; closed = refl })
        ])
        (notify_subscribers-Keeps r m cs)
