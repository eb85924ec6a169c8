-- ===== src/Sensor/Tasks/Steps.antt =====
-- The tasks of the steps: `getWorkflowTemplateDAGTasks` of
-- internal/controller/sensorbuilder/sensor_trigger_tasks.go.
use jettison_controller.Common.{ℕ, suc, true, false, List, [], ◌∷◌, ◌++◌, none, some, length}
use jettison_controller.Common.Results.{Result, ok, ◌>>=◌, wrap}
use jettison_controller.Text.{Str, codes, slash, join}
use jettison_controller.GitUtil.{get_repo_org_name}
use jettison_controller.Flow.{
  Trigger, BaseStepFields, DockerBuildArtifact, DockerBuildTestStep, DockerBuildTestPublishStep,
  ArgoCdStep, GitHubCreatePrStep, Step, docker_build_test, docker_build_test_publish, argo_cd,
  github_create_pr, deref,
}
use jettison_controller.Apps.{get_app_name}
use jettison_controller.Templates.{Parameter, number, Template, given}
use jettison_controller.Templates.Builds.{
  docker_build_test_template, docker_build_test_publish_template,
}
use jettison_controller.Templates.Deploys.{argo_cd_template, github_create_pr_template}
use jettison_controller.Sensor.{StepMap, steps_by_name}
use jettison_controller.Sensor.Dependency.{get_dockerfile_path_dependency}
use jettison_controller.Sensor.Fields.{get_dockerfile_dir, get_when, get_depends}
use jettison_controller.Sensor.Tasks.{
  DagTask, TaskError, dockerfile_dependency, step_repo_url, cicd_ref, get_initial_dag_tasks,
}
use jettison_controller.Sensor.Tasks.Inline.{is_plain, inline_template}

-- A task and the templates that it adds.
abbrev pub Added : Type 0
Added = DagTask × List Template

abbrev pub counted : Str → List DockerBuildArtifact → Parameter
counted name artifacts = record { name = name; value = some (number (length artifacts)) }

-- The task of a build step refers to the shared template, or to one for the step at index `i`.
unfoldable pub build_task :
    Template
    → ℕ
    → Str
    → BaseStepFields
    → List DockerBuildArtifact
    → List Parameter
    → Result TaskError Added
build_task t i name base artifacts arguments =
    let task : DagTask = record {
      name = name;
      arguments = arguments;
      template_ref = none;
      template = [];
      depends = get_depends base.depends_on;
      when = [];
    } in
    elim (is_plain base artifacts) [
      | true ↦ ok (record task { template_ref = some (cicd_ref t) }, [])
      | false ↦ inline_template t i base artifacts >>= λ own.
          ok (record task { template = own.name }, own ∷ [])
    ]

abbrev pub docker_build_test_arguments : List DockerBuildArtifact → Str → Str → List Parameter
docker_build_test_arguments artifacts path dir =
    given (codes "repo") (codes "{{inputs.parameters.repo}}")
    ∷ given (codes "revision") (codes "{{inputs.parameters.revision}}")
    ∷ given (codes "dockerfile-path") path
    ∷ given (codes "docker-context-dir") dir
    ∷ given (codes "revision-ref") (codes "{{inputs.parameters.revision-ref}}")
    ∷ given (codes "base-revision") (codes "{{inputs.parameters.base-revision}}")
    ∷ given (codes "base-revision-ref") (codes "{{inputs.parameters.base-revision-ref}}")
    ∷ counted (codes "num-artifacts") artifacts
    ∷ []

unfoldable pub docker_build_test_task : ℕ → DockerBuildTestStep → Result TaskError Added
unfolding build_task
docker_build_test_task i s = deref s.base.step_name >>= λ name. deref s.dockerfile_path >>= λ path.
    deref s.docker_context_dir >>= λ dir.
    build_task docker_build_test_template i name s.base s.artifacts
      (docker_build_test_arguments s.artifacts path dir)

abbrev pub docker_build_test_publish_arguments :
    List DockerBuildArtifact → Str → Str → List Parameter
docker_build_test_publish_arguments artifacts path dir =
    given (codes "repo") (codes "{{inputs.parameters.repo}}")
    ∷ given (codes "revision") (codes "{{inputs.parameters.revision}}")
    ∷ given (codes "revision-ref") (codes "{{inputs.parameters.revision-ref}}")
    ∷ given (codes "dockerfile-path") path
    ∷ given (codes "docker-context-dir") dir
    ∷ given (codes "image-repo") (codes "{{inputs.parameters.repo-short}}")
    ∷ given (codes "dockerfile-dir") (get_dockerfile_dir path)
    ∷ counted (codes "num-artifacts") artifacts
    ∷ []

unfoldable pub docker_build_test_publish_task :
    ℕ → DockerBuildTestPublishStep → Result TaskError Added
unfolding build_task
docker_build_test_publish_task i s = deref s.base.step_name >>= λ name.
    deref s.dockerfile_path >>= λ path. deref s.docker_context_dir >>= λ dir.
    build_task docker_build_test_publish_template i name s.base s.artifacts
      (docker_build_test_publish_arguments s.artifacts path dir)

-- The task of a step that uses an image, with the shared template.
abbrev pub deploy_task :
    StepMap → Template → Str → BaseStepFields → List Parameter → Result TaskError Added
deploy_task m t name base arguments = get_when name m >>= λ when. ok (
  record {
    name = name;
    arguments = arguments;
    template_ref = some (cicd_ref t);
    template = [];
    depends = get_depends base.depends_on;
    when = when;
  },
  [],
)

abbrev pub argo_cd_arguments : ArgoCdStep → Str → Str × Str → Str → List Parameter
argo_cd_arguments s path (repo_org, repo_name) base_ref =
    given (codes "deploy-repo") s.repo_url
    ∷ given (codes "deploy-revision") base_ref
    ∷ given (codes "resource-path") s.repo_path
    ∷ given (codes "image-repo") (codes "{{inputs.parameters.repo-short}}")
    ∷ given (codes "build-revision") (codes "{{inputs.parameters.revision}}")
    ∷ given (codes "dockerfile-dir") (get_dockerfile_dir path)
    ∷ given (codes "argocd-app-namespace") repo_org
    ∷ given (codes "argocd-app-name") (get_app_name repo_name s.repo_path)
    ∷ []

unfoldable pub argo_cd_task : StepMap → ArgoCdStep → Result TaskError Added
argo_cd_task m s = deref s.base.step_name >>= λ name.
    wrap dockerfile_dependency (get_dockerfile_path_dependency name m) >>= λ path.
    wrap step_repo_url (get_repo_org_name s.repo_url) >>= λ repo. deref s.base_ref >>= λ base_ref.
    deploy_task m argo_cd_template name s.base (argo_cd_arguments s path repo base_ref)

abbrev pub github_create_pr_arguments : GitHubCreatePrStep → Str → Str × Str → Str → List Parameter
github_create_pr_arguments s path (repo_org, repo_name) base_ref =
    given (codes "target-repo") s.repo_url
    ∷ given (codes "target-repo-short-name") (repo_org ++ (slash ∷ repo_name))
    ∷ given (codes "target-branch") base_ref
    ∷ given (codes "file-paths") (join s.file_paths (codes " "))
    ∷ given (codes "image-repo") (codes "{{inputs.parameters.repo-short}}")
    ∷ given (codes "build-revision") (codes "{{inputs.parameters.revision}}")
    ∷ given (codes "dockerfile-dir") (get_dockerfile_dir path)
    ∷ []

unfoldable pub github_create_pr_task : StepMap → GitHubCreatePrStep → Result TaskError Added
github_create_pr_task m s = deref s.base.step_name >>= λ name.
    wrap dockerfile_dependency (get_dockerfile_path_dependency name m) >>= λ path.
    wrap step_repo_url (get_repo_org_name s.repo_url) >>= λ repo. deref s.base_ref >>= λ base_ref.
    deploy_task m github_create_pr_template name s.base
      (github_create_pr_arguments s path repo base_ref)

-- The switch on the type of the step at index `i`.
unfoldable pub step_task : StepMap → ℕ → Step → Result TaskError Added
unfolding docker_build_test_task docker_build_test_publish_task argo_cd_task github_create_pr_task
step_task m i (docker_build_test s) = docker_build_test_task i s
step_task m i (docker_build_test_publish s) = docker_build_test_publish_task i s
step_task m i (argo_cd s) = argo_cd_task m s
step_task m i (github_create_pr s) = github_create_pr_task m s

-- The loop over the steps, with the tasks and the templates so far.
unfoldable pub steps_loop :
    StepMap
    → ℕ
    → List Step
    → List DagTask
    → List Template
    → Result TaskError (List DagTask × List Template)
unfolding step_task
steps_loop m i [] tasks templates = ok (tasks, templates)
steps_loop m i (s ∷ ss) tasks templates = step_task m i s >>= λ (task, added).
    steps_loop m (suc i) ss (tasks ++ (task ∷ [])) (templates ++ added)

unfoldable pub get_workflow_template_dag_tasks :
    List Trigger → List Step → Result TaskError (List DagTask × List Template × Str)
unfolding steps_loop
get_workflow_template_dag_tasks ts ss = get_initial_dag_tasks ts >>= λ (initial, trigger_type).
    steps_by_name ss [] >>= λ m.
    steps_loop m 0 ss initial [] >>= λ (tasks, templates). ok (tasks, templates, trigger_type)
