-- ===== src/Reconciler/Laws.antt =====
-- Reconcile of internal/controller/flow_controller.go takes no mark of what was synchronised away.
use jettison_controller.Common.{
  Bool, true, false, ◌||◌, List, [], ◌∷◌, Option, none, some, inl, inr,
}
use jettison_controller.Common.Results.{Result, ok, err, panic, Result-cases}
use jettison_controller.Text.{Str}
use jettison_controller.Flow.{Flow, Trigger, Step}
use jettison_controller.Flow.Decode.{VolumeCodec}
use jettison_controller.Flow.Processor.{ProcessError, pre_process_flow}
use jettison_controller.Apps.{AppProject, build_argo_apps}
use jettison_controller.EventSources.{build_event_source, get_trigger_repo_name}
use jettison_controller.Sensor.Builder.{Workflow, build_sensor}
use jettison_controller.RepoSettings.{Constants}
use jettison_controller.RepoSettings.Client.{GitHub, sync_settings}
use jettison_controller.Reconciler.{
  Condition, pre_process_failed, app_build_failed, sensor_build_failed, event_source_failed,
  flow_synced, Cluster, Manager,
}
use jettison_controller.Reconciler.Sync.{sync_object}
use jettison_controller.Reconciler.Namespace.{sync_namespace_objects}
use jettison_controller.Reconciler.Flows.{
  write_event_source, write_sensor, adopt_project, on_cluster, given, contains_repo, set_condition,
  sync_namespace, sync_projects, sync_applications, sync_repo, finish, sync_source, sync_sensor,
  sync_apps, reconcile_processed, reconcile_flow, reconcile_found, reconcile,
}
use jettison_controller.Reconciler.Monotone.{
  Grows, IsMonotone, IsMonotone-bind, IsMonotone-if, return-IsMonotone, crash-IsMonotone,
  cluster-IsMonotone, github-IsMonotone, mark_namespace-IsMonotone, mark_project-IsMonotone,
  mark_repo-IsMonotone,
}

module _ {W E M R : Type 0} (codec : VolumeCodec) (marshal : Workflow → Result M Str)
    (c : Cluster W E M) (k : Constants R) (github : Str → Str → GitHub W E R) where
  pub sync_namespace-IsMonotone : (n : Str) → IsMonotone (sync_namespace codec marshal c k github n)
  unfolding sync_namespace
  sync_namespace-IsMonotone n = IsMonotone-if _ _ _ (return-IsMonotone false) (
      IsMonotone-bind _ _ (cluster-IsMonotone (sync_namespace_objects c n))
        λ drift. IsMonotone-bind _ _ (mark_namespace-IsMonotone n) λ _. return-IsMonotone drift)

  pub sync_projects-IsMonotone :
      (ps : List AppProject) → IsMonotone (sync_projects codec marshal c k github ps)
  unfolding sync_projects
  sync_projects-IsMonotone [] = return-IsMonotone false
  sync_projects-IsMonotone (p ∷ ps) = IsMonotone-if _ _ _ (sync_projects-IsMonotone ps) (
      IsMonotone-bind _ _
        (cluster-IsMonotone (sync_object c.projects p.namespace p.name (adopt_project p) p))
        λ drift. IsMonotone-bind _ _ (mark_project-IsMonotone p.name) λ _.
          IsMonotone-bind _ _ (sync_projects-IsMonotone ps)
            λ later. return-IsMonotone (drift || later))

  pub sync_repo-IsMonotone :
      (org name : Str) → IsMonotone (sync_repo codec marshal c k github org name)
  unfolding sync_repo
  sync_repo-IsMonotone org name =
      let source = build_event_source org name in
      IsMonotone-if (λ s. contains_repo s.synced_repos org name) _ _ (return-IsMonotone false)
        (IsMonotone-bind _ _ (cluster-IsMonotone (c.event_sources.get source.namespace source.name))
          λ found.
            IsMonotone-bind _ _
              (cluster-IsMonotone
                (write_event_source codec marshal c k github org name source found))
              λ drift.
                IsMonotone-bind _ _ (github-IsMonotone (sync_settings k (github org name))) λ _.
                  IsMonotone-bind _ _ (mark_repo-IsMonotone org name) λ _. return-IsMonotone drift)

  condition-IsMonotone :
      (f : Flow) (cs : List (Condition M)) (x : Condition M)
      → IsMonotone (on_cluster (set_condition codec marshal c k github f cs x))
  condition-IsMonotone f cs x = cluster-IsMonotone (set_condition codec marshal c k github f cs x)

  pub finish-IsMonotone :
      (f : Flow) (cs : List (Condition M)) (drift : Bool)
      → IsMonotone (finish codec marshal c k github f cs drift)
  unfolding finish
  finish-IsMonotone f cs true = condition-IsMonotone f cs flow_synced
  finish-IsMonotone f cs false = return-IsMonotone tt

  pub sync_source-IsMonotone :
      (f : Flow) (cs : List (Condition M)) (ts : List Trigger) (drift : Bool)
      → IsMonotone (sync_source codec marshal c k github f cs ts drift)
  unfolding sync_source
  sync_source-IsMonotone f cs ts drift = elim (Result-cases (get_trigger_repo_name ts)) [
    | inl ((org, name), e) ↦
        rw (e, sync_source)
          (IsMonotone-bind _ _ (sync_repo-IsMonotone org name)
            λ later. finish-IsMonotone f cs (drift || later))
    | inr (inl (why, e)) ↦ rw (e, sync_source) (condition-IsMonotone f cs (event_source_failed why))
    | inr (inr e) ↦ rw (e, sync_source) crash-IsMonotone
  ]

  pub sync_sensor-IsMonotone :
      (f : Flow) (cs : List (Condition M)) (ts : List Trigger) (ss : List Step) (drift : Bool)
      → IsMonotone (sync_sensor codec marshal c k github f cs ts ss drift)
  unfolding sync_sensor
  sync_sensor-IsMonotone f cs ts ss drift =
      IsMonotone-bind _ _ (cluster-IsMonotone (c.sensors.get f.namespace f.name)) λ found.
        elim (Result-cases (build_sensor marshal f ts ss)) [
          | inl (sensor, e) ↦ rw e (
              IsMonotone-bind _ _ (cluster-IsMonotone (given (c.own_sensor f sensor))) λ owned.
                IsMonotone-bind _ _
                  (cluster-IsMonotone (write_sensor codec marshal c k github owned found))
                  λ later. sync_source-IsMonotone f cs ts (drift || later))
          | inr (inl (why, e)) ↦ rw e (condition-IsMonotone f cs (sensor_build_failed why))
          | inr (inr e) ↦ rw e crash-IsMonotone
        ]

  pub sync_apps-IsMonotone :
      (f : Flow) (cs : List (Condition M)) (ts : List Trigger) (ss : List Step) (drift : Bool)
      → IsMonotone (sync_apps codec marshal c k github f cs ts ss drift)
  unfolding sync_apps
  sync_apps-IsMonotone f cs ts ss drift = elim (Result-cases (build_argo_apps ss)) [
    | inl ((projects, applications), e) ↦
        rw (e, sync_apps)
          (IsMonotone-bind _ _ (sync_projects-IsMonotone projects) λ d1.
            IsMonotone-bind _ _
              (cluster-IsMonotone (sync_applications codec marshal c k github f applications))
              λ d2. sync_sensor-IsMonotone f cs ts ss (drift || d1 || d2))
    | inr (inl (why, e)) ↦ rw (e, sync_apps) (condition-IsMonotone f cs (app_build_failed why))
    | inr (inr e) ↦ rw (e, sync_apps) crash-IsMonotone
  ]

  reconcile_processed-IsMonotone :
      (cs : List (Condition M)) (p : Flow × Result ProcessError (List Trigger × List Step))
      → IsMonotone (reconcile_processed codec marshal c k github cs p)
  unfolding reconcile_processed
  reconcile_processed-IsMonotone cs (f, ok (ts, ss)) =
      IsMonotone-bind _ _ (sync_namespace-IsMonotone f.namespace)
        λ drift. sync_apps-IsMonotone f cs ts ss drift
  reconcile_processed-IsMonotone cs (f, err e) = condition-IsMonotone f cs (pre_process_failed e)
  reconcile_processed-IsMonotone cs (f, panic) = crash-IsMonotone

  reconcile_flow-IsMonotone :
      (f : Flow) (cs : List (Condition M))
      → IsMonotone (reconcile_flow codec marshal c k github f cs)
  unfolding reconcile_flow
  reconcile_flow-IsMonotone f cs = reconcile_processed-IsMonotone cs (pre_process_flow codec f)

  reconcile_found-IsMonotone :
      (found : Option (Flow × List (Condition M)))
      → IsMonotone (reconcile_found codec marshal c k github found)
  unfolding reconcile_found
  reconcile_found-IsMonotone none = return-IsMonotone tt
  reconcile_found-IsMonotone (some (f, cs)) = reconcile_flow-IsMonotone f cs

  reconcile-IsMonotone :
      (namespace name : Str) → IsMonotone (reconcile codec marshal c k github namespace name)
  unfolding reconcile
  reconcile-IsMonotone namespace name =
      IsMonotone-bind _ _ (cluster-IsMonotone (c.get_flow namespace name))
        reconcile_found-IsMonotone

  -- However a call of Reconcile ends, what was synchronised before stays so.
  pub reconcile-Grows :
      (namespace name : Str) (s : Manager W)
      → Grows s (reconcile codec marshal c k github namespace name s).0
  reconcile-Grows namespace name s = (reconcile-IsMonotone namespace name).grows s
