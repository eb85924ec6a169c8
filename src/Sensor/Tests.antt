-- ===== src/Sensor/Tests.antt =====
-- A build step, a deploy step that depends on it, and the theorems about the sensor at them.
use jettison_controller.Common.{
  ◌↔◌, ◌≤◌, map, ◌++◌, false, some_injective, ◌≡◌, refl, sym, ◌∙◌, ◌≢◌, true, List, [], ◌∷◌, none,
  some, arith, if◌then◌else◌,
}
use jettison_controller.Common.Results.{Result, ok, err, panic}
use jettison_controller.Text.{
  Str, codes, Str-discrete, contains, cut_prefix, trim_suffix, split, join, has_prefix, replace_all,
  to_lower, trim, trim_left, trim_right, split_path,
}
use jettison_controller.GitUtil.{get_repo_org_name}
use jettison_controller.Flow.{
  BaseStepFields, Trigger, push, Step, DockerBuildTestStep, DockerBuildTestPublishStep, ArgoCdStep,
  docker_build_test_publish, argo_cd,
}
use jettison_controller.Flow.Defaulter.{default_step, get_default_dockerfile_path}
use jettison_controller.Flow.Processor.{pre_process_flow}
use jettison_controller.Flow.Tests.{codec, flow, triggers', steps', accepted}
use jettison_controller.Templates.Builds.{
  docker_build_test_template, docker_build_test_publish_template,
}
use jettison_controller.Templates.Deploys.{argo_cd_template}
use jettison_controller.Sensor.{StepMap, lookup, steps_by_name}
use jettison_controller.Sensor.Dependency.{
  DependencyError, get_dockerfile_path_dependency, search, next_path, pending,
}
use jettison_controller.Sensor.Dependency.Reach.{Reach, direct, via, Outcome}
use jettison_controller.Sensor.Dependency.Laws.{
  get_dockerfile_path_dependency-Outcome, get_dockerfile_path_dependency_accepts,
}
use jettison_controller.Sensor.Parameters.{get_trigger_parameters}
use jettison_controller.Sensor.Parameters.Laws.{
  Distinct, count_pull_requests, value_dests, get_trigger_parameters-Distinct,
  get_trigger_parameters-dests,
}
use jettison_controller.Sensor.Fields.{
  get_depends, get_when, when_dependencies, not_skipped, get_dockerfile_dir,
}
use jettison_controller.Sensor.Fields.Laws.{
  image_dir, get_dockerfile_dir-get_default_dockerfile_path,
}
use jettison_controller.Sensor.Tasks.{
  DagTask, commit_trigger_type, cicd_ref, initial_task, join_type, initial_loop,
  get_initial_dag_tasks, mixed_trigger_types,
}
use jettison_controller.Sensor.Tasks.References.{Refers, docker_build_test_task-Refers}
use jettison_controller.Sensor.Tasks.Steps.{
  docker_build_test_arguments, docker_build_test_task, docker_build_test_publish_arguments,
  argo_cd_arguments, get_workflow_template_dag_tasks, steps_loop, step_task,
  docker_build_test_publish_task, argo_cd_task, build_task,
}
use jettison_controller.Sensor.Tasks.Initial.{one_type, get_initial_dag_tasks_lem}
use jettison_controller.Sensor.Tasks.Wiring.{Wired, get_workflow_template_dag_tasks-Wired}
use jettison_controller.Sensor.Builder.{Workflow, build_sensor}
use jettison_controller.Sensor.Builder.Laws.{build_sensor_total}

abbrev base : Str → Str → List Str → BaseStepFields
base name source depends_on = record {
  step_name = some name;
  step_source = source;
  depends_on = depends_on;
  volumes = [];
  volume_mounts = [];
}

abbrev path : Str
path = codes "app/Dockerfile"

abbrev publish : DockerBuildTestPublishStep
publish = record {
  base = base (codes "publish") (codes "DockerBuildTestPublish") [];
  dockerfile_path = some path;
  docker_context_dir = some (codes "app");
  artifacts = [];
}

abbrev deploy : ArgoCdStep
deploy = record {
  base = base (codes "deploy") (codes "ArgoCD") (codes "publish" ∷ []);
  repo_url = codes "https://github.com/acme/demo-argo-configs.git";
  repo_path = codes "dev";
  base_ref = some (codes "main");
  pause_reason = none;
}

abbrev steps : List Step
steps = docker_build_test_publish publish ∷ argo_cd deploy ∷ []

abbrev step_map : StepMap
step_map =
    (codes "deploy", argo_cd deploy) ∷ (codes "publish", docker_build_test_publish publish) ∷ []

abbrev trigger : Trigger
trigger = push record {
  base = record { trigger_name = []; trigger_source = codes "GitHubPush" };
  repo_url = codes "https://github.com/acme/demo.git";
  base_ref = some (codes "main");
}

at_deploy : lookup step_map (codes "deploy") ≡ some (argo_cd deploy)
unfolding codes Str-discrete
at_deploy = refl

at_publish : lookup step_map (codes "publish") ≡ some (docker_build_test_publish publish)
unfolding codes Str-discrete
at_publish = refl

only_publish : (e : Str) → Reach step_map (codes "publish" ∷ []) e → e ≡ codes "publish"
only_publish e (direct h) = ground arith
only_publish e (via {d} {s} r found h) =
    let at_d = only_publish d r in
    let same : docker_build_test_publish publish ≡ s =
      some_injective (sym at_publish ∙ rw at_d at found) in
    let none_left : contains [] e ≡ true = rw (sym same) at h in absurd (ground arith)

publish_listed : contains (codes "publish" ∷ []) (codes "publish") ≡ true
publish_listed = ground arith

path-ne-nil : path ≢ []
unfolding codes
path-ne-nil = λ e. cc

get_dockerfile_path_dependency-Outcome_example :
    Outcome step_map
      (codes "publish" ∷ [])
      (get_dockerfile_path_dependency (codes "deploy") step_map)
get_dockerfile_path_dependency-Outcome_example =
    get_dockerfile_path_dependency-Outcome step_map (codes "deploy") (argo_cd deploy) at_deploy

get_dockerfile_path_dependency_accepts_example :
    get_dockerfile_path_dependency (codes "deploy") step_map ≡ ok path
get_dockerfile_path_dependency_accepts_example =
    get_dockerfile_path_dependency_accepts step_map (codes "deploy") (argo_cd deploy)
      (codes "publish") path at_deploy
      (λ d r. (docker_build_test_publish publish, rw (only_publish d r) at_publish)) path-ne-nil
      (direct publish_listed) (publish, at_publish, refl) (λ e t r _. only_publish e r)

abbrev tasks : List DagTask
tasks =
    initial_task commit_trigger_type
    ∷ record {
      name = codes "publish";
      arguments = docker_build_test_publish_arguments [] path (codes "app");
      template_ref = some (cicd_ref docker_build_test_publish_template);
      template = [];
      depends = [];
      when = [];
    }
    ∷ record {
      name = codes "deploy";
      arguments =
          argo_cd_arguments deploy path (codes "acme", codes "demo-argo-configs") (codes "main");
      template_ref = some (cicd_ref argo_cd_template);
      template = [];
      depends = codes "publish.Succeeded";
      when = not_skipped (codes "publish");
    }
    ∷ []

tasks_built :
    get_workflow_template_dag_tasks (trigger ∷ []) steps ≡ ok (tasks, [], commit_trigger_type)
unfolding codes Str-discrete get_workflow_template_dag_tasks get_initial_dag_tasks initial_loop
    join_type steps_by_name steps_loop step_task docker_build_test_publish_task argo_cd_task
    build_task get_dockerfile_path_dependency search next_path pending get_when when_dependencies
    get_depends join get_repo_org_name cut_prefix trim_suffix split
tasks_built = refl

get_workflow_template_dag_tasks-Wired_example : Wired (trigger ∷ []) steps tasks []
get_workflow_template_dag_tasks-Wired_example =
    get_workflow_template_dag_tasks-Wired (trigger ∷ []) steps tasks [] commit_trigger_type
      tasks_built

get_initial_dag_tasks_lem_example : get_initial_dag_tasks (trigger ∷ trigger ∷ []) ≡ (
    if one_type commit_trigger_type (trigger ∷ [])
    then ok (
      initial_task commit_trigger_type ∷ initial_task commit_trigger_type ∷ [],
      commit_trigger_type,
    )
    else err mixed_trigger_types)
get_initial_dag_tasks_lem_example = get_initial_dag_tasks_lem trigger (trigger ∷ [])

-- A codec that gives an empty text.
abbrev marshal : Workflow → Result (Unit {0}) Str
marshal w = ok []

build_sensor_total_example :
    build_sensor marshal (pre_process_flow codec flow).0 triggers' steps' ≢ panic
unfolding default_step
build_sensor_total_example =
    build_sensor_total marshal (λ w. tt) codec flow triggers' steps' accepted ((λ d h. cc), tt)

get_dockerfile_dir-get_default_dockerfile_path_example :
    get_dockerfile_dir (get_default_dockerfile_path (codes "app/")) ≡ image_dir (codes "app/")
get_dockerfile_dir-get_default_dockerfile_path_example =
    get_dockerfile_dir-get_default_dockerfile_path (codes "app/")

app_dir : image_dir (codes "app/") ≡ codes "/app"
unfolding codes Str-discrete has_prefix trim_right
app_dir = refl

suffixed_dir : get_dockerfile_dir (codes "app/Dockerfile.web") ≡ codes "/app/web"
unfolding get_dockerfile_dir split_path codes Str-discrete has_prefix replace_all to_lower trim
    trim_left trim_right
suffixed_dir = refl

-- The deploy step alone, so that its dependency is not defined.
abbrev lone_map : StepMap
lone_map = (codes "deploy", argo_cd deploy) ∷ []

lone_panic :
    ◌≡◌ {A = Result DependencyError Str}
      (get_dockerfile_path_dependency (codes "deploy") lone_map)
      panic
unfolding codes Str-discrete get_dockerfile_path_dependency search next_path pending
lone_panic = refl

get_trigger_parameters-Distinct_example :
    Distinct (get_trigger_parameters (trigger ∷ (trigger ∷ []))).0
    ↔ (count_pull_requests (trigger ∷ (trigger ∷ [])) ≤ 1)
get_trigger_parameters-Distinct_example = get_trigger_parameters-Distinct (trigger ∷ (trigger ∷ []))

get_trigger_parameters-dests_example :
    let (ps, qs) = get_trigger_parameters (trigger ∷ []) in
    map (λ q. q.dest) qs ≡ value_dests 0 ps ++ (codes "metadata.generateName" ∷ [])
get_trigger_parameters-dests_example = get_trigger_parameters-dests trigger

abbrev check : DockerBuildTestStep
check = record {
  base = base (codes "check") (codes "DockerBuildTest") [];
  dockerfile_path = some path;
  docker_context_dir = some (codes "app");
  artifacts = [];
}

abbrev check_task : DagTask
check_task = record {
  name = codes "check";
  arguments = docker_build_test_arguments [] path (codes "app");
  template_ref = some (cicd_ref docker_build_test_template);
  template = [];
  depends = [];
  when = [];
}

check_built : docker_build_test_task 0 check ≡ ok (check_task, [])
unfolding docker_build_test_task build_task get_depends
check_built = refl

docker_build_test_task-Refers_example :
    Refers (codes "base-revision") check_task
    × (contains
          (map (λ p. p.name) (get_trigger_parameters (trigger ∷ [])).0)
          (codes "base-revision")
        ≡ false)
docker_build_test_task-Refers_example =
    docker_build_test_task-Refers (trigger ∷ []) 0 check check_task [] (tt, tt) check_built
