-- ===== src/Watcher/Delivery.antt =====
-- Which connections a notification of the flow watcher reaches.
use jettison_controller.Common.{
  ℕ, Bool, true, false, List, [], ◌∷◌, ◌++◌, ◌≡◌, refl, inl, inr, arith, eqb, eqb_iff,
  if◌then◌else◌, Bool-cases,
}
use jettison_controller.Watcher.{Message, Watcher, done, update, member, Distinct}
use jettison_controller.Watcher.Loop.{notify_all, send_conn, notify_conns, round}
use jettison_controller.Watcher.Send.{IsValid}

module _ {R : Type 0} where
  -- Each chosen connection of the list gets one more message.
  unfoldable pub deliver :
      (ℕ → Bool) → Message R → List ℕ → (ℕ → List (Message R)) → ℕ → List (Message R)
  deliver skip m [] f = f
  deliver skip m (c ∷ cs) f = deliver skip m cs (if skip c then f else update f c (f c ++ (m ∷ [])))

  pub deliver_lem :
      (skip : ℕ → Bool) (m : Message R) (cs : List ℕ) (f : ℕ → List (Message R)) (d : ℕ)
      → Distinct cs
      → deliver skip m cs f d
        ≡ (if member d cs then (if skip d then f d else f d ++ (m ∷ [])) else f d)
  unfolding deliver
  deliver_lem skip m [] f d v = refl
  deliver_lem skip m (c ∷ cs) f d (lacks, v) =
      let g : ℕ → List (Message R) = if skip c then f else update f c (f c ++ (m ∷ [])) in
      elim (Bool-cases (eqb d c)) [
        | inl e ↦
            let same : d ≡ c = (eqb_iff d c).0 e in
            rw (deliver_lem skip m cs g d v, same, lacks) (ground arith)
        | inr e ↦ rw (deliver_lem skip m cs g d v) (ground arith)
      ]

  pub notify_conns_lem :
      (m : Message R) (cs : List ℕ) (s : Watcher R)
      → ((c : ℕ) → member c cs ≡ true → (s.cancelled c ≡ false) × (s.closed c ≡ false))
      → notify_conns m cs s ≡ done (record s { received = deliver s.is_aux m cs s.received })
  unfolding notify_conns deliver send_conn
  notify_conns_lem m [] s live = refl
  notify_conns_lem m (c ∷ cs) s live =
      let (p, q) = live c (ground arith) in
      elim (Bool-cases (s.is_aux c)) [
        | inl e ↦ rw e (notify_conns_lem m cs s λ d h. live d (ground arith))
        | inr e ↦
            rw (e, p, q)
              (notify_conns_lem m cs
                (record s { received = update s.received c (s.received c ++ (m ∷ [])) })
                λ d h. live d (ground arith))
      ]

  -- In a valid state, a message for all connections reaches every registered connection that is
  -- not auxiliary, once and as its last message, and no other connection. Registrations and
  -- subscriptions stay.
  pub notify_all-delivers :
      (m : Message R) (s : Watcher R)
      → IsValid s
      → (t : Watcher R) × (round (notify_all m) s ≡ done t)
        × ((c : ℕ)
            → t.received c ≡ (
                if member c s.conns
                then (if s.is_aux c then s.received c else s.received c ++ (m ∷ []))
                else s.received c))
        × (t.conns ≡ s.conns)
        × (t.subscriptions ≡ s.subscriptions)
  unfolding round
  notify_all-delivers m s v = (
    record s { received = deliver s.is_aux m s.conns s.received },
    notify_conns_lem m s.conns s v.open_conns,
    λ c. deliver_lem s.is_aux m s.conns s.received c v.distinct,
    refl,
    refl,
  )
