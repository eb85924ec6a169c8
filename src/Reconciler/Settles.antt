-- ===== src/Reconciler/Settles.antt =====
-- What the loop over the applications, in Reconcile of internal/controller/flow_controller.go, leaves
-- in the cluster.
pub mod Tests
use mathlib.Core.Path.{subst}
use jettison_controller.Common.{
  Bool, true, false, List, [], ◌∷◌, map, Option, none, some, ◌≡◌, ◌≢◌, refl, sym, ap, ◌∙◌, arith,
  inl, inr, Bool-cases, All,
}
use jettison_controller.Common.Results.{Result, ok}
use jettison_controller.Common.Actions.{Action, follow-ok}
use jettison_controller.Text.{Str, contains}
use jettison_controller.Flow.{Flow, Step}
use jettison_controller.Flow.Decode.{VolumeCodec}
use jettison_controller.Apps.{AppProject, Application, build_argo_apps}
use jettison_controller.Apps.Laws.Names.{NoRepeats, build_argo_apps-names}
use jettison_controller.Sensor.Builder.{Workflow}
use jettison_controller.RepoSettings.{Constants}
use jettison_controller.RepoSettings.Client.{GitHub}
use jettison_controller.Reconciler.{Kind, Cluster}
use jettison_controller.Reconciler.Flows.{
  adopt_application, given, write_application, sync_applications,
}
use jettison_controller.Reconciler.Stores.{
  IsApplicationStore, NoRepeats-differs, write_application-InLine, write_application-others,
}
use jettison_controller.Reconciler.Settled.{InLine, IsDeployed, sync_applications-settled}

module _ {W E M R : Type 0} (codec : VolumeCodec) (marshal : Workflow → Result M Str)
    (c : Cluster W E M) (k : Constants R) (github : Str → Str → GitHub W E R) where
  -- One round of the loop that succeeded.
  record Round (f : Flow) (a : Application) (apps : List Application) (w w' : W) : Type 0 where
    found : Option Application
    owned : Application
    written : W
    drift : Bool
    later : Bool
    got : (c.applications.get a.namespace a.name w).1 ≡ ok found
    own : c.own_application f a ≡ ok owned
    write : write_application codec marshal c k github owned found w ≡ (written, ok drift)
    rest : sync_applications codec marshal c k github f apps written ≡ (w', ok later)

  module _ (store : IsApplicationStore c.applications)
      (owns : (f : Flow) (a owned : Application)
        → c.own_application f a ≡ ok owned
        → (owned.namespace ≡ a.namespace) × (owned.name ≡ a.name)) where
    sync_applications-Round :
        (f : Flow) (a : Application) (apps : List Application) (w w' : W) (d : Bool)
        → sync_applications codec marshal c k github f (a ∷ apps) w ≡ (w', ok d)
        → Round f a apps w w'
    unfolding sync_applications
    sync_applications-Round f a apps w w' d h =
        let (u, found, got, h1) = follow-ok (c.applications.get a.namespace a.name w) _ h in
        let (v, owned, own, h2) = follow-ok (given (c.own_application f a) u) _ h1 in
        let same : w ≡ v =
          sym (store.reads a.namespace a.name w) ∙ ap (λ x. x.0) got ∙ ap (λ x. x.0) own in
        let (written, drift, wrote, h3) =
          follow-ok (write_application codec marshal c k github owned found v) _ h2 in
        let (end, later, ran, last) =
          follow-ok (sync_applications codec marshal c k github f apps written) _ h3 in
        record {
          found = found;
          owned = owned;
          written = written;
          drift = drift;
          later = later;
          got = ap (λ x. x.1) got;
          own = ap (λ x. x.1) own;
          write =
              subst
                (λ x.
                  write_application codec marshal c k github owned found x ≡ (written, ok drift))
                (sym same) wrote;
          rest =
              subst (λ x. sync_applications codec marshal c k github f apps written ≡ (x, ok later))
                (ap (λ x. x.0) last) ran;
        }

    sync_applications-others :
        (f : Flow) (apps : List Application) (n m : Str) (w w' : W) (d : Bool)
        → All (λ a. m ≢ a.name) apps
        → sync_applications codec marshal c k github f apps w ≡ (w', ok d)
        → (c.applications.get n m w').1 ≡ (c.applications.get n m w).1
    unfolding sync_applications
    sync_applications-others f [] n m w w' d v h =
        ap (λ u. (c.applications.get n m u).1) (sym (ap (λ x. x.0) h))
    sync_applications-others f (a ∷ apps) n m w w' d (other, v) h =
        let r = sync_applications-Round f a apps w w' d h in
        sync_applications-others f apps n m r.written w' r.later v r.rest
        ∙ write_application-others codec marshal c k github store r.owned r.found a.namespace a.name
            n m w r.written r.drift (owns f a r.owned r.own) r.got other r.write

    sync_applications-IsDeployed :
        (f : Flow) (apps : List Application) (seen : List Str) (w w' : W) (d : Bool)
        → NoRepeats seen (map (λ a. a.name) apps)
        → sync_applications codec marshal c k github f apps w ≡ (w', ok d)
        → All (IsDeployed codec marshal c k github f w') apps
    sync_applications-IsDeployed f [] seen w w' d v h = tt
    sync_applications-IsDeployed f (a ∷ apps) seen w w' d (new, v) h =
        let r = sync_applications-Round f a apps w w' d h in
        let here =
          write_application-InLine codec marshal c k github store r.owned r.found a.namespace a.name
            w r.written r.drift (owns f a r.owned r.own) r.got r.write in
        let others = NoRepeats-differs (a.name ∷ seen) a.name apps (ground arith) v in
        let kept =
          sync_applications-others f apps a.namespace a.name r.written w' r.later others r.rest in
        (
          (
            r.owned,
            r.own,
            record {
              existing = here.existing;
              reads = store.reads a.namespace a.name w';
              read = kept ∙ here.read;
              derives = here.derives;
            },
          ),
          sync_applications-IsDeployed f apps (a.name ∷ seen) r.written w' r.later v r.rest,
        )

    -- For the applications that are built for a flow's steps: if reads change nothing, an object
    -- that is written is then read under its namespace and name with its specification, and
    -- others stay, equal specifications derive from each other, and an owner reference keeps the
    -- namespace and the name, then after a run of the loop over the applications that succeeds,
    -- each is in the cluster in line with what is wanted, and a second run does nothing and
    -- reports no drift.
    pub sync_applications_settles :
        (f : Flow) (ss : List Step) (projects : List AppProject) (apps : List Application)
        (w w' : W) (d : Bool)
        → build_argo_apps ss ≡ ok (projects, apps)
        → sync_applications codec marshal c k github f apps w ≡ (w', ok d)
        → All (IsDeployed codec marshal c k github f w') apps
          × (sync_applications codec marshal c k github f apps w' ≡ (w', ok false))
    sync_applications_settles f ss projects apps w w' d built h =
        let (_, names, _, _) = build_argo_apps-names ss projects apps built in
        let deployed = sync_applications-IsDeployed f apps [] w w' d names h in
        (deployed, sync_applications-settled codec marshal c k github f apps w' deployed)
