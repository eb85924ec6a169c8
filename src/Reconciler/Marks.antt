-- ===== src/Reconciler/Marks.antt =====
-- What a call of Reconcile of internal/controller/flow_controller.go that succeeds has marked as
-- synchronised.
use mathlib.Core.Path.{subst}
use jettison_controller.Common.{
  Elem, map, Bool, true, false, ◌||◌, List, [], ◌∷◌, ◌≡◌, refl, arith, inl, inr, All,
}
use jettison_controller.Common.Results.{Result, ok}
use jettison_controller.Common.Actions.{Action, ◌>>=◌}
use jettison_controller.Text.{Str, contains}
use jettison_controller.Flow.{Flow, Trigger, Step}
use jettison_controller.Flow.Decode.{VolumeCodec}
use jettison_controller.Flow.Processor.{pre_process_flow}
use jettison_controller.Apps.{AppProject, Application, build_argo_apps}
use jettison_controller.EventSources.{build_event_source, get_trigger_repo_name}
use jettison_controller.Sensor.Builder.{Workflow, Sensor, build_sensor}
use jettison_controller.RepoSettings.{Constants}
use jettison_controller.RepoSettings.Client.{GitHub, sync_settings}
use jettison_controller.Reconciler.{Condition, Cluster, ReconcileError, Manager}
use jettison_controller.Reconciler.Sync.{sync_object}
use jettison_controller.Reconciler.Namespace.{sync_namespace_objects}
use jettison_controller.Reconciler.Flows.{
  write_event_source, write_sensor, adopt_project, on_cluster, on_github, given, mark_project,
  contains_repo, sync_namespace, sync_projects, sync_applications, sync_repo, sync_source,
  sync_sensor, sync_apps, reconcile_flow,
}
use jettison_controller.Reconciler.Monotone.{
  Grows, IsMonotone-bind, return-IsMonotone, cluster-IsMonotone,
}
use jettison_controller.Reconciler.Ensures.{
  AtEnd, Ensures, Ensures-last, Ensures-if, Ensures-first, Ensures-unless,
}
use jettison_controller.Reconciler.Laws.{
  sync_projects-IsMonotone, finish-IsMonotone, sync_sensor-IsMonotone, sync_apps-IsMonotone,
}

module _ {W E M R : Type 0} (codec : VolumeCodec) (marshal : Workflow → Result M Str)
    (c : Cluster W E M) (k : Constants R) (github : Str → Str → GitHub W E R) where
  abbrev HasNamespace : Str → Manager W → Type 0
  HasNamespace n s = contains s.synced_namespaces n ≡ true

  abbrev HasProject : Str → Manager W → Type 0
  HasProject n s = contains s.synced_projects n ≡ true

  abbrev HasRepo : Str → Str → Manager W → Type 0
  HasRepo org name s = contains_repo s.synced_repos org name ≡ true

  sync_namespace-marks :
      (n : Str) → Ensures (HasNamespace n) (sync_namespace codec marshal c k github n)
  unfolding sync_namespace
  sync_namespace-marks n =
      Ensures-unless (HasNamespace n) (λ s t g h. g.namespaces n h) _ _ _ (λ s h. h)
        (return-IsMonotone false)
        (Ensures-last (HasNamespace n) (on_cluster (sync_namespace_objects c n)) _
          λ drift. record { at_end = λ s. ground arith })

  sync_repo-marks :
      (org name : Str) → Ensures (HasRepo org name) (sync_repo codec marshal c k github org name)
  unfolding sync_repo
  sync_repo-marks org name =
      let P = HasRepo org name in
      let source = build_event_source org name in
      Ensures-unless P (λ s t g h. g.repos org name h) (λ s. contains_repo s.synced_repos org name)
        _ _ (λ s h. h) (return-IsMonotone false)
        (Ensures-last P (on_cluster (c.event_sources.get source.namespace source.name)) _ λ found.
          Ensures-last P
            (on_cluster (write_event_source codec marshal c k github org name source found)) _
            λ drift.
              Ensures-last P (on_github (sync_settings k (github org name))) _
                λ _. record { at_end = λ s. ground arith })

  sync_projects-marks :
      (ps : List AppProject) (n : Str)
      → Elem n (map (λ p. p.name) ps)
      → Ensures (HasProject n) (sync_projects codec marshal c k github ps)
  unfolding sync_projects
  sync_projects-marks [] n h = absurd h
  sync_projects-marks (p ∷ ps) n (inl same) =
      let P = HasProject n in
      let stable : (s t : Manager W) → Grows s t → P s → P t = λ s t g h. g.projects n h in
      let here = sync_object c.projects p.namespace p.name (adopt_project p) p in
      let rest = sync_projects-IsMonotone codec marshal c k github ps in
      Ensures-unless P stable (λ s. contains s.synced_projects p.name) _ _ (λ s h. rw same h) rest
        (Ensures-last P (on_cluster here) _ λ drift.
          Ensures-first P stable (mark_project p.name) _ (record { at_end = λ s. ground arith })
            λ _. IsMonotone-bind _ _ rest λ later. return-IsMonotone (drift || later))
  sync_projects-marks (p ∷ ps) n (inr h) =
      let P = HasProject n in
      let stable : (s t : Manager W) → Grows s t → P s → P t = λ s t g v. g.projects n v in
      let here = sync_object c.projects p.namespace p.name (adopt_project p) p in
      let rest = sync_projects-marks ps n h in
      Ensures-if P (λ s. contains s.synced_projects p.name) _ _ rest
        (Ensures-last P (on_cluster here) _ λ drift. Ensures-last P (mark_project p.name) _ λ _.
          Ensures-first P stable (sync_projects codec marshal c k github ps) _ rest
            λ later. return-IsMonotone (drift || later))

  sync_source-marks :
      (f : Flow) (cs : List (Condition M)) (ts : List Trigger) (drift : Bool) (org name : Str)
      → get_trigger_repo_name ts ≡ ok (org, name)
      → Ensures (HasRepo org name) (sync_source codec marshal c k github f cs ts drift)
  unfolding sync_source
  sync_source-marks f cs ts drift org name e =
      rw (e, sync_source)
        (Ensures-first (HasRepo org name) (λ s t g h. g.repos org name h)
          (sync_repo codec marshal c k github org name) _ (sync_repo-marks org name)
          λ later. finish-IsMonotone codec marshal c k github f cs (drift || later))

  sync_sensor-marks :
      (f : Flow) (cs : List (Condition M)) (ts : List Trigger) (ss : List Step) (drift : Bool)
      (sensor : Sensor) (org name : Str)
      → build_sensor marshal f ts ss ≡ ok sensor
      → get_trigger_repo_name ts ≡ ok (org, name)
      → Ensures (HasRepo org name) (sync_sensor codec marshal c k github f cs ts ss drift)
  unfolding sync_sensor
  sync_sensor-marks f cs ts ss drift sensor org name built e =
      let P = HasRepo org name in
      Ensures-last P (on_cluster (c.sensors.get f.namespace f.name)) _ λ found. rw built (
        Ensures-last P (on_cluster (given (c.own_sensor f sensor))) _ λ owned.
          Ensures-last P (on_cluster (write_sensor codec marshal c k github owned found)) _
            λ later. sync_source-marks f cs ts (drift || later) org name e)

  module _ (f : Flow) (cs : List (Condition M)) (ts : List Trigger) (ss : List Step)
      (projects : List AppProject) (applications : List Application) (sensor : Sensor)
      (org name : Str) (apps : build_argo_apps ss ≡ ok (projects, applications))
      (sensor_built : build_sensor marshal f ts ss ≡ ok sensor)
      (repo : get_trigger_repo_name ts ≡ ok (org, name)) where
    sync_apps-marks_repo :
        (drift : Bool)
        → Ensures (HasRepo org name) (sync_apps codec marshal c k github f cs ts ss drift)
    unfolding sync_apps
    sync_apps-marks_repo drift =
        let P = HasRepo org name in
        rw (apps, sync_apps)
          (Ensures-last P (sync_projects codec marshal c k github projects) _ λ d1.
            Ensures-last P (on_cluster (sync_applications codec marshal c k github f applications))
              _
              λ d2.
                sync_sensor-marks f cs ts ss (drift || d1 || d2) sensor org name sensor_built repo)

    sync_apps-marks_project :
        (n : Str) (drift : Bool)
        → Elem n (map (λ p. p.name) projects)
        → Ensures (HasProject n) (sync_apps codec marshal c k github f cs ts ss drift)
    unfolding sync_apps
    sync_apps-marks_project n drift h =
        rw (apps, sync_apps)
          (Ensures-first (HasProject n) (λ s t g v. g.projects n v)
            (sync_projects codec marshal c k github projects) _ (sync_projects-marks projects n h)
            λ d1.
              IsMonotone-bind _ _
                (cluster-IsMonotone (sync_applications codec marshal c k github f applications))
                λ d2.
                  sync_sensor-IsMonotone codec marshal c k github f cs ts ss (drift || d1 || d2))

-- A property of the names of the elements, one by one.
All-names :
    (Q : Str → Type 0) (ps : List AppProject)
    → ((n : Str) → Elem n (map (λ p. p.name) ps) → Q n)
    → All (λ p. Q p.name) ps
All-names Q [] h = tt
All-names Q (p ∷ ps) h = (h p.name (inl refl), All-names Q ps λ n e. h n (inr e))

module _ {W E M R : Type 0} (codec : VolumeCodec) (marshal : Workflow → Result M Str)
    (c : Cluster W E M) (k : Constants R) (github : Str → Str → GitHub W E R) where
  -- If a flow can be preprocessed and its applications, sensor and repository name can be built,
  -- and its reconciliation succeeds, then its namespace, each of its projects and its repository
  -- are marked as synchronised.
  pub reconcile_flow-marks :
      (f f' : Flow) (cs : List (Condition M)) (ts : List Trigger) (ss : List Step)
      (projects : List AppProject) (applications : List Application) (sensor : Sensor)
      (org name : Str) (s t : Manager W)
      → pre_process_flow codec f ≡ (f', ok (ts, ss))
      → build_argo_apps ss ≡ ok (projects, applications)
      → build_sensor marshal f' ts ss ≡ ok sensor
      → get_trigger_repo_name ts ≡ ok (org, name)
      → reconcile_flow codec marshal c k github f cs s ≡ (t, ok tt)
      → (contains t.synced_namespaces f'.namespace ≡ true)
        × All (λ p. contains t.synced_projects p.name ≡ true) projects
        × (contains_repo t.synced_repos org name ≡ true)
  unfolding reconcile_flow
  reconcile_flow-marks f f' cs ts ss projects applications sensor org name s t e apps built repo h =
      let n = f'.namespace in
      let here = sync_namespace codec marshal c k github n in
      let rest : Bool → Action (Manager W) (ReconcileError E) (Unit {0}) =
        sync_apps codec marshal c k github f' cs ts ss in
      let run : (here >>= rest) s ≡ (t, ok tt) = rw (e, reconcile_flow) at h in
      (
        subst (AtEnd (λ x. contains x.synced_namespaces n ≡ true)) run (
            (Ensures-first _ (λ a b g v. g.namespaces n v) here rest
                (sync_namespace-marks codec marshal c k github n)
                (λ d. sync_apps-IsMonotone codec marshal c k github f' cs ts ss d)).at_end
              s),
        All-names (λ m. contains t.synced_projects m ≡ true) projects
            λ m is. subst (AtEnd (λ x. contains x.synced_projects m ≡ true)) run (
              (Ensures-last _ here rest λ d.
                  sync_apps-marks_project codec marshal c k github f' cs ts ss projects applications
                    sensor org name apps built repo m d is).at_end
                s),
        subst (AtEnd (λ x. contains_repo x.synced_repos org name ≡ true)) run (
            (Ensures-last _ here rest λ d.
                sync_apps-marks_repo codec marshal c k github f' cs ts ss projects applications
                  sensor org name apps built repo d).at_end
              s),
      )
