-- ===== src/Reconciler.antt =====
-- The objects that the flow reconciler keeps in a namespace (internal/controller/eventbusbuilder,
-- pvcbuilder and rbacbuilder), its state, and the clients it calls: the structure FlowReconciler of
-- internal/controller/flow_controller.go.
pub mod Sync
pub mod Namespace
pub mod Flows
pub mod Monotone
pub mod Laws
pub mod Ensures
pub mod Marks
pub mod Settled
pub mod Stores
pub mod Settles
pub mod Tests
use jettison_controller.Common.{Bool, List, [], ◌∷◌, Option}
use jettison_controller.Common.Results.{Result}
use jettison_controller.Common.Actions.{Action}
use jettison_controller.Text.{Str, codes}
use jettison_controller.Flow.{Flow}
use jettison_controller.Flow.Processor.{ProcessError}
use jettison_controller.GitUtil.{GitError}
use jettison_controller.Apps.{AppProject, Application}
use jettison_controller.EventSources.{EventSource, RepoError}
use jettison_controller.Sensor.Builder.{Sensor, SensorError, sensor_service_account_name}
use jettison_controller.RepoSettings.Client.{SettingsError}

pub record EventBus : Type 0 where
  pub name : Str
  pub namespace : Str
  pub jet_stream_url : Str

abbrev pub build_event_bus : Str → EventBus
build_event_bus namespace = record {
  name = codes "default";
  namespace = namespace;
  jet_stream_url = codes "nats://nats.nats";
}

pub record VolumeClaim : Type 0 where
  pub name : Str
  pub namespace : Str
  pub access_modes : List Str
  -- The storage that is requested, as text.
  pub storage : Str

-- `corev1.ReadWriteOnce` is "ReadWriteOnce".
abbrev pub build_build_kit_cache_pvc : Str → VolumeClaim
build_build_kit_cache_pvc namespace = record {
  name = codes "buildkit-cache-pvc";
  namespace = namespace;
  access_modes = codes "ReadWriteOnce" ∷ [];
  storage = codes "15Gi";
}

pub record ServiceAccount : Type 0 where
  pub name : Str
  pub namespace : Str

abbrev pub build_sensor_service_account : Str → ServiceAccount
build_sensor_service_account namespace = record {
  name = sensor_service_account_name;
  namespace = namespace;
}

pub record PolicyRule : Type 0 where
  pub api_groups : List Str
  pub verbs : List Str
  pub resources : List Str

pub record Role : Type 0 where
  pub name : Str
  pub namespace : Str
  pub rules : List PolicyRule

abbrev pub sensor_role_name : Str
sensor_role_name = codes "operate-workflow-role"

abbrev pub build_sensor_role : Str → Role
build_sensor_role namespace = record {
  name = sensor_role_name;
  namespace = namespace;
  rules =
      record {
        api_groups = codes "argoproj.io" ∷ [];
        verbs =
            codes "create"
            ∷ (codes "delete"
                ∷ (codes "get"
                    ∷ (codes "list" ∷ (codes "patch" ∷ (codes "update" ∷ (codes "watch" ∷ []))))));
        resources = codes "workflows" ∷ [];
      }
      ∷ [];
}

pub record RoleRef : Type 0 where
  pub api_group : Str
  pub kind : Str
  pub name : Str

pub record Subject : Type 0 where
  pub kind : Str
  pub name : Str

pub record RoleBinding : Type 0 where
  pub name : Str
  pub namespace : Str
  pub role_ref : RoleRef
  pub subjects : List Subject

-- `rbacv1.GroupName` is "rbac.authorization.k8s.io", and `rbacv1.ServiceAccountKind` is
-- "ServiceAccount".
abbrev pub build_sensor_role_binding : Str → RoleBinding
build_sensor_role_binding namespace = record {
  name = codes "operate-workflow-role-binding";
  namespace = namespace;
  role_ref = record {
    api_group = codes "rbac.authorization.k8s.io";
    kind = codes "Role";
    name = sensor_role_name;
  };
  subjects = record { kind = codes "ServiceAccount"; name = sensor_service_account_name } ∷ [];
}

-- The Kubernetes client at one kind of object. `get` takes a namespace and a name, and gives `none`
-- where the error is IsNotFound. `derives` is `equality.Semantic.DeepDerivative`, at the part of the
-- two objects that the reconciler compares.
pub record Kind (W E T : Type 0) : Type 0 where
  pub get : Str → Str → Action W E (Option T)
  pub create : T → Action W E (Unit {0})
  pub update : T → Action W E (Unit {0})
  pub delete : T → Action W E (Unit {0})
  pub derives : T → T → Bool

-- What the condition `Ready` is set to.
pub data Condition (M : Type 0) : Type 0 where
  pre_process_failed : ProcessError → Condition M
  app_build_failed : GitError → Condition M
  sensor_build_failed : SensorError M → Condition M
  event_source_failed : RepoError → Condition M
  flow_synced : Condition M

-- `W` is the state of the cluster and of GitHub, `E` the errors of the Kubernetes client, and `M`
-- those of `json.Marshal`.
pub record Cluster (W E M : Type 0) : Type 0 where
  -- A flow with the conditions of its status.
  pub get_flow : Str → Str → Action W E (Option (Flow × List (Condition M)))
  -- The error IsNotFound.
  pub not_found : E
  pub update_status : Flow → List (Condition M) → Action W E (Unit {0})
  -- `meta.SetStatusCondition`: the conditions, and whether they changed.
  pub set_status_condition : List (Condition M) → Condition M → List (Condition M) × Bool
  pub event_buses : Kind W E EventBus
  pub volume_claims : Kind W E VolumeClaim
  pub service_accounts : Kind W E ServiceAccount
  pub roles : Kind W E Role
  pub role_bindings : Kind W E RoleBinding
  pub projects : Kind W E AppProject
  pub applications : Kind W E Application
  pub sensors : Kind W E Sensor
  pub event_sources : Kind W E EventSource
  -- `ctrl.SetControllerReference`, with the flow as the owner.
  pub own_application : Flow → Application → Result E Application
  pub own_sensor : Flow → Sensor → Result E Sensor

pub data ReconcileError (E : Type 0) : Type 0 where
  client_error : E → ReconcileError E
  settings_error : SettingsError E → ReconcileError E

-- The maps of the reconciler, as the lists of their keys, beside what it acts on.
pub record Manager (W : Type 0) : Type 0 where
  pub world : W
  pub synced_namespaces : List Str
  pub synced_projects : List Str
  pub synced_repos : List (Str × Str)
