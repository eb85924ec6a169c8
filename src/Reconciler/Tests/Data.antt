-- ===== src/Reconciler/Tests/Data.antt =====
-- A flow with a step that deploys, and a cluster that has what it wants.
use jettison_controller.Common.{List, [], ◌∷◌, map, none, some, ◌≡◌, refl, true, false}
use Prim.Native.String.{String}
use jettison_controller.Common.Results.{Result, ok}
use jettison_controller.Text.{
  Str, codes, Str-discrete, to_lower, cut_prefix, trim_suffix, split, replace_all,
}
use jettison_controller.Json.{
  Json, nil, cons, string, array, object, field, end, into_elements, into_struct,
}
use jettison_controller.Flow.{Flow, Trigger, push, Step, ArgoCdStep, argo_cd}
use jettison_controller.Flow.Decode.{
  store_base_trigger, store_push, store_base_step, store_docker_build_test_publish, store_argo_cd,
}
use jettison_controller.Flow.Parser.{parse_triggers, parse_steps}
use jettison_controller.Flow.Defaulter.{default_trigger, default_step, get_default_dockerfile_path}
use jettison_controller.Flow.Processor.{pre_process_flow}
use jettison_controller.Flow.Processor.Laws.{pre_process_flow_accepts}
use jettison_controller.Flow.Ready.{with_deadline}
use jettison_controller.Flow.Tests.{codec, publish_step, step}
use jettison_controller.Apps.{
  AppProject, Application, build_project, build_application, build_argo_apps, get_app_name,
}
use jettison_controller.EventSources.{build_event_source, get_trigger_repo_name}
use jettison_controller.GitUtil.{get_repo_org_name}
use jettison_controller.Sensor.{steps_by_name}
use jettison_controller.Sensor.Dependency.{get_dockerfile_path_dependency}
use jettison_controller.Sensor.Events.{get_sensor_dependencies}
use jettison_controller.Sensor.Fields.{get_when}
use jettison_controller.Sensor.Tasks.{get_initial_dag_tasks, join_type}
use jettison_controller.Sensor.Tasks.Steps.{get_workflow_template_dag_tasks}
use jettison_controller.Sensor.Builder.{Workflow, Sensor, get_workflow, build_sensor}
use jettison_controller.RepoSettings.Tests.{Hub}
use jettison_controller.Reconciler.{
  build_event_bus, build_build_kit_cache_pvc, build_sensor_service_account, build_sensor_role,
  build_sensor_role_binding, Kind, Cluster,
}

abbrev text : String → Json
text s = string (codes s)

abbrev pub url : Str
url = codes "https://github.com/jettisonproj/rollouts-demo.git"

abbrev pub flow : Flow
flow = record {
  name = codes "github-push";
  namespace = codes "rollouts-demo";
  spec = record {
    active_deadline_seconds = none;
    triggers =
        object (
          field (codes "triggerName") (text "github-push") (
            field (codes "triggerSource") (text "GitHubPush")
              (field (codes "repoUrl") (string url) end)))
        ∷ [];
    steps =
        publish_step
        ∷ (object (
              field (codes "stepName") (text "deploy") (
                field (codes "stepSource") (text "ArgoCD") (
                  field (codes "dependsOn") (array (cons (text "publish") nil)) (
                    field (codes "repoUrl") (string url)
                      (field (codes "repoPath") (text "dev") end)))))
            ∷ []);
  };
}

abbrev trigger : Trigger
trigger = push (record {
  base = record { trigger_name = codes "github-push"; trigger_source = codes "GitHubPush" };
  repo_url = url;
  base_ref = none;
})

abbrev deploy : ArgoCdStep
deploy = record {
  base = record {
    step_name = some (codes "deploy");
    step_source = codes "ArgoCD";
    depends_on = codes "publish" ∷ [];
    volumes = [];
    volume_mounts = [];
  };
  repo_url = url;
  repo_path = codes "dev";
  base_ref = none;
  pause_reason = none;
}

abbrev pub triggers' : List Trigger
triggers' = map default_trigger (trigger ∷ [])

abbrev pub steps' : List Step
steps' = map default_step (step ∷ (argo_cd deploy ∷ []))

parsed_triggers : parse_triggers flow.spec.triggers ≡ ok (trigger ∷ [])
unfolding parse_triggers into_struct store_base_trigger store_push codes Str-discrete to_lower
parsed_triggers = refl

parsed_steps : parse_steps codec flow.spec.steps ≡ ok (step ∷ (argo_cd deploy ∷ []))
unfolding parse_steps into_struct into_elements store_base_step store_docker_build_test_publish
    store_argo_cd codes Str-discrete to_lower
parsed_steps = refl

abbrev pub marshal : Workflow → Result (Unit {0}) Str
marshal w = ok []

abbrev pub flow' : Flow
flow' = with_deadline flow (trigger ∷ [])

pub processed : pre_process_flow codec flow ≡ (flow', ok (triggers', steps'))
processed =
    pre_process_flow_accepts codec flow (trigger ∷ []) (step ∷ (argo_cd deploy ∷ []))
      parsed_triggers parsed_steps (λ h. cc) (λ h. cc) (tt, tt)

abbrev no_sensor : Sensor
no_sensor = record {
  name = [];
  namespace = [];
  dependencies = [];
  triggers = [];
  service_account_name = [];
}

abbrev pub sensor : Sensor
sensor = elim (build_sensor marshal flow' triggers' steps') [ ok s ↦ s | _ ↦ no_sensor ]

pub built : build_sensor marshal flow' triggers' steps' ≡ ok sensor
unfolding codes Str-discrete default_trigger default_step build_sensor get_sensor_dependencies
    get_workflow get_workflow_template_dag_tasks get_initial_dag_tasks join_type steps_by_name
    get_dockerfile_path_dependency get_default_dockerfile_path get_repo_org_name cut_prefix
    trim_suffix split get_when
built = refl

abbrev pub project : AppProject
project = build_project (codes "jettisonproj")

abbrev pub application : Application
application = build_application (codes "jettisonproj") (codes "rollouts-demo-dev") deploy

pub apps : build_argo_apps steps' ≡ ok (project ∷ [], application ∷ [])
unfolding codes Str-discrete default_step build_argo_apps get_repo_org_name cut_prefix trim_suffix
    split get_app_name replace_all build_project build_application
apps = refl

pub repo : get_trigger_repo_name triggers' ≡ ok (codes "jettisonproj", codes "rollouts-demo")
unfolding codes Str-discrete default_trigger get_trigger_repo_name get_repo_org_name cut_prefix
    trim_suffix split
repo = refl

-- One object, which is as wanted.
abbrev there : {T : Type 0} → T → Kind Hub (Unit {0}) T
there x = record {
  get = λ namespace name w. (w, ok (some x));
  create = λ y w. (w, ok tt);
  update = λ y w. (w, ok tt);
  delete = λ y w. (w, ok tt);
  derives = λ wanted existing. true;
}

abbrev pub demo : Str
demo = codes "rollouts-demo"

abbrev pub org : Str
org = codes "jettisonproj"

-- A cluster in which the flow's objects are, and no status changes.
abbrev pub cluster : Cluster Hub (Unit {0}) (Unit {0})
cluster = record {
  get_flow = λ namespace name w. (w, ok (some (flow, [])));
  not_found = tt;
  update_status = λ f cs w. (w, ok tt);
  set_status_condition = λ cs c. (cs, false);
  event_buses = there (build_event_bus demo);
  volume_claims = there (build_build_kit_cache_pvc demo);
  service_accounts = there (build_sensor_service_account demo);
  roles = there (build_sensor_role demo);
  role_bindings = there (build_sensor_role_binding demo);
  projects = there project;
  applications = there application;
  sensors = there sensor;
  event_sources = there (build_event_source org demo);
  own_application = λ f a. ok a;
  own_sensor = λ f s. ok s;
}
