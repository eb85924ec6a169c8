-- ===== src/Watcher/Subscribers.antt =====
-- Which subscribers a notification of the flow watcher about a pod reaches, and which it drops.
use jettison_controller.Common.{
  ℕ, true, false, not, ◌&&◌, List, [], ◌∷◌, ◌++◌, ◌≡◌, ◌≢◌, refl, ◌∙◌, inl, inr, arith, eqb,
  eqb_iff, if◌then◌else◌, Bool-cases,
}
use jettison_controller.Watcher.{
  Resource, ResourceSubscription, Message, pods, Watcher, done, update, member, remove, Distinct,
}
use jettison_controller.Watcher.Keys.{member-remove}
use jettison_controller.Watcher.Loop.{
  notify_subscriptions, send_conn, notify_subscribers, notify_resource_subscriptions, round,
  set_subscribers, subscription_of,
}
use jettison_controller.Watcher.Send.{IsValid}
use jettison_controller.Watcher.Delivery.{deliver, deliver_lem}

-- The subscribers that are not registered are taken out.
pub drop_stale :
    List ℕ
    → ResourceSubscription
    → List ℕ
    → (ResourceSubscription → List ℕ)
    → ResourceSubscription
    → List ℕ
drop_stale conns r [] f = f
drop_stale conns r (c ∷ cs) f =
    drop_stale conns r cs (if member c conns then f else set_subscribers f r (remove c (f r)))

drop_stale_lem :
    (conns : List ℕ) (r : ResourceSubscription) (cs : List ℕ) (f : ResourceSubscription → List ℕ)
    (d : ℕ)
    → member d (drop_stale conns r cs f r)
      ≡ (if member d cs then member d conns && member d (f r) else member d (f r))
unfolding drop_stale
drop_stale_lem conns r [] f d = refl
drop_stale_lem conns r (c ∷ cs) f d = elim (Bool-cases (member c conns)) [
  | inl e ↦ rw e (elim (Bool-cases (eqb d c)) [
    | inl h ↦
        let same : d ≡ c = (eqb_iff d c).0 h in
        rw (drop_stale_lem conns r cs f d, same, e) (ground arith)
    | inr h ↦ rw (drop_stale_lem conns r cs f d) (ground arith)
  ])
  | inr e ↦ rw e (elim (Bool-cases (eqb d c)) [
    | inl h ↦
        let same : d ≡ c = (eqb_iff d c).0 h in
        rw (drop_stale_lem conns r cs (set_subscribers f r (remove c (f r))) d, same, e)
          (ground (arith, member-remove c c (f r)))
    | inr h ↦
        rw (drop_stale_lem conns r cs (set_subscribers f r (remove c (f r))) d)
          (ground (arith, member-remove d c (f r)))
  ])
]

drop_stale-other :
    (conns : List ℕ) (r : ResourceSubscription) (cs : List ℕ) (f : ResourceSubscription → List ℕ)
    (q : ResourceSubscription)
    → q ≢ r
    → drop_stale conns r cs f q ≡ f q
unfolding drop_stale
drop_stale-other conns r [] f q h = refl
drop_stale-other conns r (c ∷ cs) f q h =
    drop_stale-other conns r cs (if member c conns then f else set_subscribers f r (remove c (f r)))
      q h
    ∙ ground arith

module _ {R : Type 0} where
  pub notify_subscribers_lem :
      (r : ResourceSubscription) (m : Message R) (cs : List ℕ) (s : Watcher R)
      → ((c : ℕ) → member c s.conns ≡ true → (s.cancelled c ≡ false) × (s.closed c ≡ false))
      → notify_subscribers r m cs s
        ≡ done (record s {
          received = deliver (λ c. not (member c s.conns)) m cs s.received;
          subscriptions = drop_stale s.conns r cs s.subscriptions;
        })
  unfolding notify_subscribers deliver drop_stale send_conn
  notify_subscribers_lem r m [] s live = refl
  notify_subscribers_lem r m (c ∷ cs) s live = elim (Bool-cases (member c s.conns)) [
    | inl e ↦
        let (p, q) = live c e in
        rw (e, p, q)
          (notify_subscribers_lem r m cs
            (record s { received = update s.received c (s.received c ++ (m ∷ [])) }) live)
    | inr e ↦ rw e (
        notify_subscribers_lem r m cs
          (record s {
            subscriptions = set_subscribers s.subscriptions r (remove c (s.subscriptions r));
          })
          live)
  ]

  -- In a valid state where no connection is twice among the subscribers of a pod's app, the pod
  -- reaches once each subscriber that is registered, and no other connection. The subscribers
  -- that are left are those that are registered; other subscriptions and the registrations stay.
  pub notify_subscriptions-delivers :
      (pod : Resource R) (s : Watcher R)
      → IsValid s
      → Distinct (s.subscriptions (subscription_of pod))
      → let r = subscription_of pod in
        (t : Watcher R) × (round (notify_subscriptions pod) s ≡ done t)
        × ((c : ℕ)
            → t.received c ≡ (
                if member c (s.subscriptions r)
                then (if not (member c s.conns)
                    then s.received c
                    else s.received c ++ (pods (pod ∷ []) ∷ []))
                else s.received c))
        × ((c : ℕ)
            → member c (t.subscriptions r)
              ≡ (if member c (s.subscriptions r) then member c s.conns else false))
        × ((q : ResourceSubscription) → q ≢ r → t.subscriptions q ≡ s.subscriptions q)
        × (t.conns ≡ s.conns)
  unfolding round notify_resource_subscriptions
  notify_subscriptions-delivers pod s v distinct =
      let r = subscription_of pod in
      let m : Message R = pods (pod ∷ []) in
      let cs = s.subscriptions r in
      (
        record s {
          received = deliver (λ c. not (member c s.conns)) m cs s.received;
          subscriptions = drop_stale s.conns r cs s.subscriptions;
        },
        notify_subscribers_lem r m cs s v.open_conns,
        (λ c. deliver_lem (λ d. not (member d s.conns)) m cs s.received c distinct),
        (λ c. drop_stale_lem s.conns r cs s.subscriptions c ∙ ground arith),
        (λ q h. drop_stale-other s.conns r cs s.subscriptions q h),
        refl,
      )
