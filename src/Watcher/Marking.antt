-- ===== src/Watcher/Marking.antt =====
-- How a client of the web server can tell that an object was deleted.
use mathlib.Core.Path.{subst}
use jettison_controller.Common.{
  ℕ, true, List, [], ◌∷◌, ◌++◌, Option, none, some, if◌then◌else◌, ◌≡◌, ◌≢◌, refl, sym, ap, ◌∙◌,
  arith, inl, inr, Bool-cases, Option-cases,
}
use jettison_controller.Text.{Str, ◌==◌}
use jettison_controller.Watcher.{
  Resource, Message, flows, applications, rollouts, workflows, pods, Watcher, member, Distinct, Run,
  done, blocked, panics, ◌>>=◌,
}
use jettison_controller.Watcher.Loop.{round, notify_subscriptions, subscription_of}
use jettison_controller.Watcher.Objects.{
  Object, flow, application, rollout, workflow, pod, unknown, deleted, event_type_key, annotate,
  with_schema, on_delete, mark_deleted, has_app, on_subscription_resource_delete,
}
use jettison_controller.Watcher.Send.{IsValid}
use jettison_controller.Watcher.Subscribers.{notify_subscriptions-delivers}

abbrev pub annotation : Option (List (Str × Str)) → Str → Option Str
annotation none key = none
annotation (some []) key = none
annotation (some ((k, v) ∷ m)) key = if k == key then some v else annotation (some m) key

module _ {R : Type 0} where
  abbrev pub content : Object R → Option (Resource R)
  content (flow r) = some r
  content (application r) = some r
  content (rollout r) = some r
  content (workflow r) = some r
  content (pod r) = some r
  content unknown = none

  -- The list of the object's kind that has one element.
  abbrev pub singleton : Object R → Resource R → Option (Message R)
  singleton (flow _) x = some (flows (x ∷ []))
  singleton (application _) x = some (applications (x ∷ []))
  singleton (rollout _) x = some (rollouts (x ∷ []))
  singleton (workflow _) x = some (workflows (x ∷ []))
  singleton (pod _) x = some (pods (x ∷ []))
  singleton unknown x = none

  -- `x` is `r` with the mark of a deletion under the key; its version and kind are filled in.
  pub record IsMarked (key : Str) (r x : Resource R) : Type 0 where
    pub mark : annotation x.annotations key ≡ some deleted
    pub others : (k : Str) → k ≢ key → annotation x.annotations k ≡ annotation r.annotations k
    pub namespace : x.namespace ≡ r.namespace
    pub name : x.name ≡ r.name
    pub labels : x.labels ≡ r.labels
    pub rest : x.rest ≡ r.rest
    pub has_version : x.api_version ≢ []
    pub has_kind : x.kind ≢ []

module _ {R : Type 0} (gvk : Object R → Option (Str × Str)) (identifier : Str) where
  -- A version and a kind that the scheme knows have names.
  abbrev pub Names : Type 0
  Names =
      (o : Object R) (version kind : Str)
      → gvk o ≡ some (version, kind)
      → (version ≢ []) × (kind ≢ [])

  annotate-mark :
      (key : Str) (r : Resource R)
      → annotation (annotate key deleted r).annotations key ≡ some deleted
  annotate-mark key r = ground arith

  annotate-others :
      (key k : Str) (r : Resource R)
      → k ≢ key
      → annotation (annotate key deleted r).annotations k ≡ annotation r.annotations k
  annotate-others key k r h = ground arith

  -- The handlers change nothing else, and fill in what is missing.
  with_schema-keeps :
      (type : Resource R → Object R) (r x : Resource R)
      → with_schema gvk identifier type r ≡ done x
      → (x.annotations ≡ r.annotations)
        × (x.namespace ≡ r.namespace)
        × (x.name ≡ r.name)
        × (x.labels ≡ r.labels)
        × (x.rest ≡ r.rest)
  with_schema-keeps type r x h = ground arith

  with_schema-named :
      (type : Resource R → Object R) (r x : Resource R)
      → Names
      → with_schema gvk identifier type r ≡ done x
      → (x.api_version ≢ []) × (x.kind ≢ [])
  with_schema-named type r x names h = elim (Option-cases (gvk (type r))) [
    | inl e ↦ ground arith
    | inr ((version, kind), e) ↦ ground (arith, names (type r) version kind e)
  ]

  with_schema-IsMarked :
      (type : Resource R → Object R) (r x : Resource R)
      → Names
      → with_schema gvk identifier type (mark_deleted gvk identifier r) ≡ done x
      → IsMarked (event_type_key identifier) r x
  with_schema-IsMarked type r x names h =
      let key = event_type_key identifier in
      let marked : Resource R = annotate key deleted r in
      let (annotations, namespace, name, labels, rest) = with_schema-keeps type marked x h in
      let (has_version, has_kind) = with_schema-named type marked x names h in
      record {
        mark = ap (λ m. annotation m key) annotations ∙ annotate-mark key r;
        others = λ k other. ap (λ m. annotation m k) annotations ∙ annotate-others key k r other;
        namespace = namespace;
        name = name;
        labels = labels;
        rest = rest;
        has_version = has_version;
        has_kind = has_kind;
      }

  sent :
      {A : Type 0} (next : Resource R → A) (r : Run (Resource R)) (m : A)
      → (r >>= λ x. done (some (next x))) ≡ done (some m)
      → (x : Resource R) × (r ≡ done x) × (next x ≡ m)
  sent next (done x) m h = (x, refl, cc)
  sent next blocked m h = cc
  sent next panics m h = cc

  -- What the handlers of all four kinds share.
  deleted-IsMarked :
      (type : Resource R → Object R) (next : Resource R → Message R) (r : Resource R)
      (m : Message R)
      → Names
      → (with_schema gvk identifier type (mark_deleted gvk identifier r) >>= λ x.
          done (some (next x)))
        ≡ done (some m)
      → content (type r) ≡ some r
      → ((x : Resource R) → singleton (type r) x ≡ some (next x))
      → (r' x : Resource R) × (content (type r) ≡ some r')
        × (singleton (type r) x ≡ some m)
        × IsMarked (event_type_key identifier) r' x
  deleted-IsMarked type next r m names h has one =
      let (x, e, same) =
        sent next (with_schema gvk identifier type (mark_deleted gvk identifier r)) m h in
      (r, x, has, one x ∙ ap some same, with_schema-IsMarked type r x names e)

  pub on_delete-marks :
      (o : Object R) (m : Message R)
      → Names
      → on_delete gvk identifier o ≡ done (some m)
      → (r x : Resource R) × (content o ≡ some r)
        × (singleton o x ≡ some m)
        × IsMarked (event_type_key identifier) r x
  unfolding on_delete
  on_delete-marks (flow r) m names h = deleted-IsMarked flow _ r m names h refl λ x. refl
  on_delete-marks (application r) m names h =
      deleted-IsMarked application _ r m names h refl λ x. refl
  on_delete-marks (rollout r) m names h = deleted-IsMarked rollout _ r m names h refl λ x. refl
  on_delete-marks (workflow r) m names h = deleted-IsMarked workflow _ r m names h refl λ x. refl
  on_delete-marks (pod r) m names h = cc
  on_delete-marks unknown m names h = cc

  pod_deletion-IsMarked :
      (r x : Resource R)
      → Names
      → on_subscription_resource_delete gvk identifier (pod r) ≡ done (some x)
      → IsMarked (event_type_key identifier) r x
  unfolding on_subscription_resource_delete
  pod_deletion-IsMarked r x names h = elim (Bool-cases (has_app gvk identifier r)) [
    | inl has ↦
        let (y, e, same) =
          sent (λ z. z) (with_schema gvk identifier pod (mark_deleted gvk identifier r)) x
            (rw has at h) in
        subst (IsMarked (event_type_key identifier) r) same (with_schema-IsMarked pod r y names e)
    | inr has ↦ let n = rw has at h in cc
  ]

  marked-subscription :
      (r x : Resource R)
      → IsMarked (event_type_key identifier) r x
      → subscription_of x ≡ subscription_of r
  marked-subscription r x v = ground (arith, v.namespace, v.labels)

  -- If versions and kinds that the scheme knows are not empty, the handler of a pod's deletion
  -- announces a pod, the state is valid, and a registered connection is once among the
  -- subscribers of the pod's app, then the round for the announced pod sends it to that
  -- connection. It is the deleted pod with the mark of a deletion and with a version and a kind;
  -- its other annotations, its namespace, name and labels and the rest are kept.
  pub pod_deletion-reaches :
      (r x : Resource R) (c : ℕ) (s : Watcher R)
      → Names
      → on_subscription_resource_delete gvk identifier (pod r) ≡ done (some x)
      → IsValid s
      → Distinct (s.subscriptions (subscription_of r))
      → member c (s.subscriptions (subscription_of r)) ≡ true
      → member c s.conns ≡ true
      → (t : Watcher R) × (round (notify_subscriptions x) s ≡ done t)
        × (t.received c ≡ s.received c ++ (pods (x ∷ []) ∷ []))
        × IsMarked (event_type_key identifier) r x
  pod_deletion-reaches r x c s names h v distinct subscribed registered =
      let marked = pod_deletion-IsMarked r x names h in
      let same = marked-subscription r x marked in
      let (t, ends, received, _, _, _) =
        notify_subscriptions-delivers x s v
          (subst (λ q. Distinct (s.subscriptions q)) (sym same) distinct) in
      let there : member c (s.subscriptions (subscription_of x)) ≡ true = rw same subscribed in
      (t, ends, received c ∙ rw (there, registered) refl, marked)
