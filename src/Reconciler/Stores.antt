-- ===== src/Reconciler/Stores.antt =====
-- One application of the loop in Reconcile of internal/controller/flow_controller.go, and what is
-- relied on of the Kubernetes client.
use mathlib.Core.Path.{subst}
use jettison_controller.Common.{
  Bool, true, List, [], ◌∷◌, map, Option, none, some, ◌≡◌, ◌≢◌, refl, sym, ap, ◌∙◌, arith, inl, inr,
  Bool-cases, All,
}
use jettison_controller.Common.Results.{Result, ok}
use jettison_controller.Common.Actions.{follow-ok}
use jettison_controller.Text.{Str, contains}
use jettison_controller.Flow.Decode.{VolumeCodec}
use jettison_controller.Apps.{Application}
use jettison_controller.Apps.Laws.Names.{NoRepeats}
use jettison_controller.Sensor.Builder.{Workflow}
use jettison_controller.RepoSettings.{Constants}
use jettison_controller.RepoSettings.Client.{GitHub}
use jettison_controller.Reconciler.{Kind, Cluster}
use jettison_controller.Reconciler.Flows.{adopt_application, write_application}
use jettison_controller.Reconciler.Settled.{InLine}

-- What is relied on of the Kubernetes client at one kind of object, whose specification is what the
-- program compares. Nothing is said of which objects the program writes.
pub record IsStore {W E T S : Type 0} (c : Kind W E T) (namespace name : T → Str) (spec : T → S)
    : Type 0 where
  pub reads : (n m : Str) (w : W) → (c.get n m w).0 ≡ w
  pub named :
      (n m : Str) (w : W) (x : T) → (c.get n m w).1 ≡ ok (some x) → (namespace x ≡ n) × (name x ≡ m)
  pub create-get :
      (x : T) (w w' : W)
      → c.create x w ≡ (w', ok tt)
      → (y : T) × ((c.get (namespace x) (name x) w').1 ≡ ok (some y)) × (spec x ≡ spec y)
  pub update-get :
      (x : T) (w w' : W)
      → c.update x w ≡ (w', ok tt)
      → (y : T) × ((c.get (namespace x) (name x) w').1 ≡ ok (some y)) × (spec x ≡ spec y)
  pub create-others :
      (x : T) (w w' : W) (n m : Str)
      → c.create x w ≡ (w', ok tt)
      → m ≢ name x
      → (c.get n m w').1 ≡ (c.get n m w).1
  pub update-others :
      (x : T) (w w' : W) (n m : Str)
      → c.update x w ≡ (w', ok tt)
      → m ≢ name x
      → (c.get n m w').1 ≡ (c.get n m w).1
  pub derives-same : (a b : T) → spec a ≡ spec b → c.derives a b ≡ true

-- All but the metadata.
abbrev pub application_spec : Application → Application
application_spec a = record a { namespace = []; name = []; finalizers = [] }

abbrev pub IsApplicationStore : {W E : Type 0} → Kind W E Application → Type 0
IsApplicationStore c = IsStore c (λ a. a.namespace) (λ a. a.name) application_spec

pub NoRepeats-differs :
    (seen : List Str) (m : Str) (apps : List Application)
    → contains seen m ≡ true
    → NoRepeats seen (map (λ a. a.name) apps)
    → All (λ a. m ≢ a.name) apps
NoRepeats-differs seen m [] h v = tt
NoRepeats-differs seen m (a ∷ apps) h (new, v) = (
  λ same. (let clash : contains seen a.name ≡ true = rw (sym same) h in cc),
  NoRepeats-differs (a.name ∷ seen) m apps (ground arith) v,
)

module _ {W E M R : Type 0} (codec : VolumeCodec) (marshal : Workflow → Result M Str)
    (c : Cluster W E M) (k : Constants R) (github : Str → Str → GitHub W E R)
    (store : IsApplicationStore c.applications) where
  read-InLine :
      (owned x y : Application) (n m : Str) (w w' : W)
      → (c.applications.get x.namespace x.name w).1 ≡ ok (some y)
      → (x.namespace ≡ n) × (x.name ≡ m)
      → application_spec owned ≡ application_spec x
      → application_spec x ≡ application_spec y
      → w ≡ w'
      → InLine c.applications owned n m w'
  read-InLine owned x y n m w w' got (p, q) e f same =
      subst (InLine c.applications owned n m) same (record {
        existing = y;
        reads = store.reads n m w;
        read = rw (p, q) at got;
        derives = store.derives-same owned y (e ∙ f);
      })

  pub write_application-InLine :
      (owned : Application) (found : Option Application) (n m : Str) (w w' : W) (d : Bool)
      → (owned.namespace ≡ n) × (owned.name ≡ m)
      → (c.applications.get n m w).1 ≡ ok found
      → write_application codec marshal c k github owned found w ≡ (w', ok d)
      → InLine c.applications owned n m w'
  unfolding write_application
  write_application-InLine owned none n m w w' d names got h =
      let (u, _, created, same) = follow-ok (c.applications.create owned w) _ h in
      let (y, read, kept) = store.create-get owned w u created in
      read-InLine owned owned y n m u w' read names refl kept (ap (λ p. p.0) same)
  write_application-InLine owned (some x) n m w w' d names got h =
      elim (Bool-cases (c.applications.derives owned x)) [
        | inl e ↦
            let same : w ≡ w' = ap (λ y. y.0) (rw e at h) in
            subst (InLine c.applications owned n m) same
              (record { existing = x; reads = store.reads n m w; read = got; derives = e })
        | inr e ↦
            let (u, _, updated, same) =
              follow-ok (c.applications.update (adopt_application owned x) w) _ (rw e at h) in
            let (y, read, kept) = store.update-get (adopt_application owned x) w u updated in
            read-InLine owned (adopt_application owned x) y n m u w' read (store.named n m w x got)
              refl kept (ap (λ p. p.0) same)
      ]

  pub write_application-others :
      (owned : Application) (found : Option Application) (n m n' m' : Str) (w w' : W) (d : Bool)
      → (owned.namespace ≡ n) × (owned.name ≡ m)
      → (c.applications.get n m w).1 ≡ ok found
      → m' ≢ m
      → write_application codec marshal c k github owned found w ≡ (w', ok d)
      → (c.applications.get n' m' w').1 ≡ (c.applications.get n' m' w).1
  unfolding write_application
  write_application-others owned none n m n' m' w w' d (p, q) got other h =
      let (u, _, created, same) = follow-ok (c.applications.create owned w) _ h in
      let kept = store.create-others owned w u n' m' created (rw (sym q) at other) in
      rw (ap (λ x. x.0) same) at kept
  write_application-others owned (some x) n m n' m' w w' d names got other h =
      elim (Bool-cases (c.applications.derives owned x)) [
        | inl e ↦
            let same : w ≡ w' = ap (λ y. y.0) (rw e at h) in
            ap (λ v. (c.applications.get n' m' v).1) (sym same)
        | inr e ↦
            let (u, _, updated, same) =
              follow-ok (c.applications.update (adopt_application owned x) w) _ (rw e at h) in
            let (p, q) = store.named n m w x got in
            let kept =
              store.update-others (adopt_application owned x) w u n' m' updated
                (rw (sym q) at other) in
            rw (ap (λ y. y.0) same) at kept
      ]
