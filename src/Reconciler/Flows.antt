-- ===== src/Reconciler/Flows.antt =====
-- Reconcile of internal/controller/flow_controller.go, and setCondition of flow_conditions.go.
use jettison_controller.Common.{
  Bool, true, false, ◌||◌, List, [], ◌∷◌, Option, none, some, if◌then◌else◌,
}
use jettison_controller.Common.Results.{Result, ok, err, panic}
use jettison_controller.Common.Actions.{Action, ◌>>=◌, ◌>>◌, return, fail, crash}
use jettison_controller.Text.{Str, ◌==◌, contains}
use jettison_controller.Flow.{Flow, Trigger, Step}
use jettison_controller.Flow.Decode.{VolumeCodec}
use jettison_controller.Flow.Processor.{ProcessError, pre_process_flow}
use jettison_controller.Apps.{AppProject, Application, build_argo_apps}
use jettison_controller.EventSources.{
  EventSource, build_event_source, merge_owned_repos, get_trigger_repo_name,
}
use jettison_controller.Sensor.Builder.{Workflow, Sensor, build_sensor}
use jettison_controller.RepoSettings.{Constants}
use jettison_controller.RepoSettings.Client.{GitHub, SettingsError, sync_settings}
use jettison_controller.Reconciler.{
  Condition, pre_process_failed, app_build_failed, sensor_build_failed, event_source_failed,
  flow_synced, Cluster, ReconcileError, client_error, settings_error, Manager,
}
use jettison_controller.Reconciler.Sync.{sync_object}
use jettison_controller.Reconciler.Namespace.{sync_namespace_objects}

-- A call that acts on the world, made by the reconciler.
abbrev pub lifted :
    {W E F A : Type 0} → (E → F) → Manager W → W × Result E A → Manager W × Result F A
lifted f s (w, ok a) = (record s { world = w }, ok a)
lifted f s (w, err e) = (record s { world = w }, err (f e))
lifted f s (w, panic) = (record s { world = w }, panic)

abbrev pub on_cluster : {W E A : Type 0} → Action W E A → Action (Manager W) (ReconcileError E) A
on_cluster m s = lifted client_error s (m s.world)

abbrev pub on_github :
    {W E A : Type 0} → Action W (SettingsError E) A → Action (Manager W) (ReconcileError E) A
on_github m s = lifted settings_error s (m s.world)

-- The result of a function that calls no client.
abbrev pub given : {W E A : Type 0} → Result E A → Action W E A
given r w = (w, r)

-- The writes to the maps of synchronised names.
abbrev pub mark_namespace : {W E : Type 0} → Str → Action (Manager W) (ReconcileError E) (Unit {0})
mark_namespace n s = (record s { synced_namespaces = n ∷ s.synced_namespaces }, ok tt)

abbrev pub mark_project : {W E : Type 0} → Str → Action (Manager W) (ReconcileError E) (Unit {0})
mark_project n s = (record s { synced_projects = n ∷ s.synced_projects }, ok tt)

abbrev pub mark_repo : {W E : Type 0} → Str → Str → Action (Manager W) (ReconcileError E) (Unit {0})
mark_repo org name s = (record s { synced_repos = (org, name) ∷ s.synced_repos }, ok tt)

abbrev pub contains_repo : List (Str × Str) → Str → Str → Bool
contains_repo [] org name = false
contains_repo ((o, n) ∷ repos) org name =
    let rest = contains_repo repos org name in
    if org == o then (if name == n then true else rest) else rest

-- `existing.Spec = wanted.Spec`: the metadata stay.
abbrev pub adopt_project : AppProject → AppProject → AppProject
adopt_project wanted existing = record wanted {
  name = existing.name;
  namespace = existing.namespace;
}

abbrev pub adopt_application : Application → Application → Application
adopt_application wanted existing = record wanted {
  name = existing.name;
  namespace = existing.namespace;
  finalizers = existing.finalizers;
}

abbrev pub adopt_sensor : Sensor → Sensor → Sensor
adopt_sensor wanted existing = record wanted {
  name = existing.name;
  namespace = existing.namespace;
}

module _ {W E M R : Type 0} (codec : VolumeCodec) (marshal : Workflow → Result M Str)
    (c : Cluster W E M) (k : Constants R) (github : Str → Str → GitHub W E R) where
  -- A status that changed is stored, and the flow is read again.
  unfoldable pub set_condition : Flow → List (Condition M) → Condition M → Action W E (Unit {0})
  set_condition f conditions condition =
      let (conditions', changed) = c.set_status_condition conditions condition in
      if changed
      then (do
        c.update_status f conditions'
        found ← c.get_flow f.namespace f.name
        elim found [ none ↦ fail c.not_found | some _ ↦ return tt ])
      else return tt

  unfoldable pub sync_namespace : Str → Action (Manager W) (ReconcileError E) Bool
  sync_namespace namespace s =
      if contains s.synced_namespaces namespace
      then (s, ok false)
      else (do
        drift ← on_cluster (sync_namespace_objects c namespace)
        mark_namespace namespace
        return drift)
          s

  -- The loop over the projects of a flow.
  unfoldable pub sync_projects : List AppProject → Action (Manager W) (ReconcileError E) Bool
  sync_projects [] s = (s, ok false)
  sync_projects (p ∷ ps) s =
      let rest = sync_projects ps in
      if contains s.synced_projects p.name
      then rest s
      else (do
        drift ← on_cluster (sync_object c.projects p.namespace p.name (adopt_project p) p)
        mark_project p.name
        later ← rest
        return (drift || later))
          s

  unfoldable pub write_application : Application → Option Application → Action W E Bool
  write_application a none = c.applications.create a >> return true
  write_application a (some existing) =
      if c.applications.derives a existing
      then return false
      else (c.applications.update (adopt_application a existing) >> return true)

  -- The loop over the applications of a flow.
  unfoldable pub sync_applications : Flow → List Application → Action W E Bool
  unfolding write_application
  sync_applications f [] = return false
  sync_applications f (a ∷ rest) = do
    found ← c.applications.get a.namespace a.name
    owned ← given (c.own_application f a)
    drift ← write_application owned found
    later ← sync_applications f rest
    return (drift || later)

  unfoldable pub write_sensor : Sensor → Option Sensor → Action W E Bool
  write_sensor sensor none = c.sensors.create sensor >> return true
  write_sensor sensor (some existing) =
      if c.sensors.derives sensor existing
      then return false
      else (c.sensors.update (adopt_sensor sensor existing) >> return true)

  unfoldable pub write_event_source : Str → Str → EventSource → Option EventSource → Action W E Bool
  write_event_source org name source none = c.event_sources.create source >> return true
  write_event_source org name source (some existing) = do
    merged ← given (merge_owned_repos existing org name)
    if merged.1 then (c.event_sources.update merged.0 >> return true) else return false

  -- The repository's webhook and settings.
  unfoldable pub sync_repo : Str → Str → Action (Manager W) (ReconcileError E) Bool
  unfolding write_event_source
  sync_repo org name s =
      if contains_repo s.synced_repos org name
      then (s, ok false)
      else (do
        let source = build_event_source org name
        found ← on_cluster (c.event_sources.get source.namespace source.name)
        drift ← on_cluster (write_event_source org name source found)
        on_github (sync_settings k (github org name))
        mark_repo org name
        return drift)
          s

  -- The condition is set only when there was drift.
  unfoldable pub finish :
      Flow → List (Condition M) → Bool → Action (Manager W) (ReconcileError E) (Unit {0})
  unfolding set_condition
  finish f conditions drift =
      if drift then on_cluster (set_condition f conditions flow_synced) else return tt

  unfoldable pub sync_source :
      Flow
      → List (Condition M)
      → List Trigger
      → Bool
      → Action (Manager W) (ReconcileError E) (Unit {0})
  unfolding set_condition finish
  sync_source f conditions ts drift = elim (get_trigger_repo_name ts) [
    | err e ↦ on_cluster (set_condition f conditions (event_source_failed e))
    | panic ↦ crash
    | ok (org, name) ↦ sync_repo org name >>= λ later. finish f conditions (drift || later)
  ]

  unfoldable pub sync_sensor :
      Flow
      → List (Condition M)
      → List Trigger
      → List Step
      → Bool
      → Action (Manager W) (ReconcileError E) (Unit {0})
  unfolding set_condition write_sensor
  sync_sensor f conditions ts ss drift = do
    found ← on_cluster (c.sensors.get f.namespace f.name)
    elim (build_sensor marshal f ts ss) [
      | err e ↦ on_cluster (set_condition f conditions (sensor_build_failed e))
      | panic ↦ crash
      | ok sensor ↦ (do
        owned ← on_cluster (given (c.own_sensor f sensor))
        later ← on_cluster (write_sensor owned found)
        sync_source f conditions ts (drift || later))
    ]

  unfoldable pub sync_apps :
      Flow
      → List (Condition M)
      → List Trigger
      → List Step
      → Bool
      → Action (Manager W) (ReconcileError E) (Unit {0})
  unfolding set_condition
  sync_apps f conditions ts ss drift = elim (build_argo_apps ss) [
    | err e ↦ on_cluster (set_condition f conditions (app_build_failed e))
    | panic ↦ crash
    | ok (projects, applications) ↦ (do
      d1 ← sync_projects projects
      d2 ← on_cluster (sync_applications f applications)
      sync_sensor f conditions ts ss (drift || d1 || d2))
  ]

  -- With the flow as the preprocessing leaves it.
  unfoldable pub reconcile_processed :
      List (Condition M)
      → Flow × Result ProcessError (List Trigger × List Step)
      → Action (Manager W) (ReconcileError E) (Unit {0})
  unfolding set_condition
  reconcile_processed conditions (f, err e) =
      on_cluster (set_condition f conditions (pre_process_failed e))
  reconcile_processed conditions (f, panic) = crash
  reconcile_processed conditions (f, ok (ts, ss)) = do
    drift ← sync_namespace f.namespace
    sync_apps f conditions ts ss drift

  unfoldable pub reconcile_flow :
      Flow → List (Condition M) → Action (Manager W) (ReconcileError E) (Unit {0})
  unfolding reconcile_processed
  reconcile_flow f conditions = reconcile_processed conditions (pre_process_flow codec f)

  -- A flow that is not there has been deleted.
  unfoldable pub reconcile_found :
      Option (Flow × List (Condition M)) → Action (Manager W) (ReconcileError E) (Unit {0})
  reconcile_found none = return tt
  reconcile_found (some (f, conditions)) = reconcile_flow f conditions

  unfoldable pub reconcile : Str → Str → Action (Manager W) (ReconcileError E) (Unit {0})
  unfolding reconcile_found
  reconcile namespace name = do
    found ← on_cluster (c.get_flow namespace name)
    reconcile_found found
