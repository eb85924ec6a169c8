-- ===== src/Reconciler/Settled.antt =====
-- When Reconcile of internal/controller/flow_controller.go finds nothing to do.
use jettison_controller.Common.{true, false, List, [], ◌∷◌, some, ◌≡◌, refl, ap, All}
use jettison_controller.Common.Results.{Result, ok}
use jettison_controller.Common.Actions.{Action}
use jettison_controller.Text.{Str, contains}
use jettison_controller.Flow.{Flow, Trigger, Step}
use jettison_controller.Flow.Decode.{VolumeCodec}
use jettison_controller.Flow.Processor.{pre_process_flow}
use jettison_controller.Apps.{AppProject, Application, build_argo_apps}
use jettison_controller.EventSources.{get_trigger_repo_name}
use jettison_controller.Sensor.Builder.{Workflow, Sensor, build_sensor}
use jettison_controller.RepoSettings.{Constants}
use jettison_controller.RepoSettings.Client.{GitHub}
use jettison_controller.Reconciler.{Kind, Condition, Cluster, client_error, Manager}
use jettison_controller.Reconciler.Flows.{
  write_sensor, lifted, on_cluster, given, contains_repo, sync_namespace, sync_projects,
  sync_applications, sync_repo, finish, sync_source, sync_sensor, sync_apps, reconcile_flow,
}
use jettison_controller.Common.Actions.{read-ok, bind-ok}

module _ {W E T : Type 0} (c : Kind W E T) (wanted : T) where
  -- The cluster has the object, and its compared part is as wanted.
  pub record InLine (namespace name : Str) (w : W) : Type 0 where
    pub existing : T
    pub reads : (c.get namespace name w).0 ≡ w
    pub read : (c.get namespace name w).1 ≡ ok (some existing)
    pub derives : c.derives wanted existing ≡ true

  InLine-get :
      (namespace name : Str) (w : W) (v : InLine namespace name w)
      → c.get namespace name w ≡ (w, ok (some v.existing))
  InLine-get namespace name w v = read-ok (c.get namespace name) w (some v.existing) v.reads v.read

on_cluster-ok :
    {W E A : Type 0} (m : Action W E A) (s : Manager W) (a : A)
    → m s.world ≡ (s.world, ok a)
    → on_cluster m s ≡ (s, ok a)
on_cluster-ok m s a e = ap (lifted client_error s) e

module _ {W E M R : Type 0} (codec : VolumeCodec) (marshal : Workflow → Result M Str)
    (c : Cluster W E M) (k : Constants R) (github : Str → Str → GitHub W E R) where
  -- The application, owned by the flow, is in line.
  abbrev pub IsDeployed : Flow → W → Application → Type 0
  IsDeployed f w a =
      (owned : Application) × (c.own_application f a ≡ ok owned)
      × InLine c.applications owned a.namespace a.name w

  abbrev pub HasSensor : Flow → Sensor → W → Type 0
  HasSensor f sensor w =
      (owned : Sensor) × (c.own_sensor f sensor ≡ ok owned)
      × InLine c.sensors owned f.namespace f.name w

  sync_namespace-settled :
      (n : Str) (s : Manager W)
      → contains s.synced_namespaces n ≡ true
      → sync_namespace codec marshal c k github n s ≡ (s, ok false)
  unfolding sync_namespace
  sync_namespace-settled n s e = rw e refl

  sync_projects-settled :
      (ps : List AppProject) (s : Manager W)
      → All (λ p. contains s.synced_projects p.name ≡ true) ps
      → sync_projects codec marshal c k github ps s ≡ (s, ok false)
  unfolding sync_projects
  sync_projects-settled [] s h = refl
  sync_projects-settled (p ∷ ps) s (e, h) = rw e (sync_projects-settled ps s h)

  pub sync_applications-settled :
      (f : Flow) (apps : List Application) (w : W)
      → All (IsDeployed f w) apps
      → sync_applications codec marshal c k github f apps w ≡ (w, ok false)
  unfolding sync_applications
  sync_applications-settled f [] w h = refl
  sync_applications-settled f (a ∷ apps) w ((owned, own, v), h) =
      rw (InLine-get c.applications owned a.namespace a.name w v, own, v.derives)
        (rw (sync_applications-settled f apps w h) refl)

  sync_source-settled :
      (f : Flow) (cs : List (Condition M)) (ts : List Trigger) (org name : Str) (s : Manager W)
      → get_trigger_repo_name ts ≡ ok (org, name)
      → contains_repo s.synced_repos org name ≡ true
      → sync_source codec marshal c k github f cs ts false s ≡ (s, ok tt)
  unfolding sync_source sync_repo finish
  sync_source-settled f cs ts org name s repo r = rw (repo, sync_source, r) refl

  sync_sensor-settled :
      (f : Flow) (cs : List (Condition M)) (ts : List Trigger) (ss : List Step) (sensor : Sensor)
      (org name : Str) (s : Manager W)
      → build_sensor marshal f ts ss ≡ ok sensor
      → get_trigger_repo_name ts ≡ ok (org, name)
      → contains_repo s.synced_repos org name ≡ true
      → HasSensor f sensor s.world
      → sync_sensor codec marshal c k github f cs ts ss false s ≡ (s, ok tt)
  unfolding sync_sensor write_sensor
  sync_sensor-settled f cs ts ss sensor org name s built repo r (owned, own, v) =
      let found =
        on_cluster-ok (c.sensors.get f.namespace f.name) s _
          (InLine-get c.sensors owned f.namespace f.name s.world v) in
      let made = on_cluster-ok (given (c.own_sensor f sensor)) s owned (rw own refl) in
      let kept =
        on_cluster-ok (write_sensor codec marshal c k github owned (some v.existing)) s false
          (rw v.derives refl) in
      bind-ok (on_cluster (c.sensors.get f.namespace f.name)) _ found (
        rw built (
          bind-ok (on_cluster (given (c.own_sensor f sensor))) _ made (
            bind-ok (on_cluster (write_sensor codec marshal c k github owned (some v.existing))) _
              kept (sync_source-settled f cs ts org name s repo r))))

  -- If a flow can be preprocessed and built, its namespace, projects and repository are marked,
  -- and its applications and its sensor are in the cluster as wanted, then its reconciliation
  -- succeeds and changes nothing. The conditions of the flow stay too, whatever they are.
  pub reconcile_flow-settled :
      (f f' : Flow) (cs : List (Condition M)) (ts : List Trigger) (ss : List Step)
      (projects : List AppProject) (apps : List Application) (sensor : Sensor) (org name : Str)
      (s : Manager W)
      → pre_process_flow codec f ≡ (f', ok (ts, ss))
      → build_argo_apps ss ≡ ok (projects, apps)
      → build_sensor marshal f' ts ss ≡ ok sensor
      → get_trigger_repo_name ts ≡ ok (org, name)
      → contains s.synced_namespaces f'.namespace ≡ true
      → All (λ p. contains s.synced_projects p.name ≡ true) projects
      → contains_repo s.synced_repos org name ≡ true
      → All (IsDeployed f' s.world) apps
      → HasSensor f' sensor s.world
      → reconcile_flow codec marshal c k github f cs s ≡ (s, ok tt)
  unfolding reconcile_flow sync_apps
  reconcile_flow-settled f f' cs ts ss projects apps sensor org name s e built_apps built repo n p r
        a h =
      rw (e, reconcile_flow)
        (bind-ok (sync_namespace codec marshal c k github f'.namespace) _
          (sync_namespace-settled f'.namespace s n)
          (rw (built_apps, sync_apps)
            (bind-ok (sync_projects codec marshal c k github projects) _
              (sync_projects-settled projects s p)
              (bind-ok (on_cluster (sync_applications codec marshal c k github f' apps)) _
                (on_cluster-ok (sync_applications codec marshal c k github f' apps) s false
                  (sync_applications-settled f' apps s.world a))
                (sync_sensor-settled f' cs ts ss sensor org name s built repo r h)))))
