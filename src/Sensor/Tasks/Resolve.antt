-- ===== src/Sensor/Tasks/Resolve.antt =====
-- The tasks of the steps have the steps' names, and refer to templates that get their inputs.
use jettison_controller.Common.{
  ◌≡◌, refl, ◌⊎◌, inl, inr, ℕ, Bool, true, ◌&&◌, List, [], ◌∷◌, map, Option, none, some, Elem,
  Bool-cases, Option-cases, List-cases,
}
use jettison_controller.Common.Results.{
  Result, ok, err, panic, ◌>>=◌, OkWith, OkWith-ok, Result-cases, wrap,
}
use jettison_controller.Text.{Str, codes, Str-discrete, contains}
use jettison_controller.Flow.{
  Step, BaseStepFields, DockerBuildArtifact, docker_build_test, docker_build_test_publish, argo_cd,
  github_create_pr, step_base, deref,
}
use jettison_controller.Templates.{Parameter, Template}
use jettison_controller.Templates.Builds.{
  docker_build_test_template, docker_build_test_publish_template,
}
use jettison_controller.Templates.Deploys.{argo_cd_template, github_create_pr_template}
use jettison_controller.Sensor.Fields.{get_when}
use jettison_controller.Sensor.Dependency.{get_dockerfile_path_dependency}
use jettison_controller.GitUtil.{get_repo_org_name}
use jettison_controller.Templates.Cicd.{cicd_templates}
use jettison_controller.Sensor.{StepMap}
use jettison_controller.Sensor.Tasks.{
  DagTask, TaskError, cicd_ref, dockerfile_dependency, step_repo_url,
}
use jettison_controller.Sensor.Tasks.Inline.{is_plain, inline_template}
use jettison_controller.Sensor.Tasks.Steps.{
  Added, build_task, docker_build_test_task, docker_build_test_publish_task, argo_cd_task,
  github_create_pr_task, deploy_task, docker_build_test_arguments,
  docker_build_test_publish_arguments, argo_cd_arguments, github_create_pr_arguments, step_task,
}

-- Every input without a value is among the arguments.
unfoldable pub supplies : List Parameter → List Parameter → Bool
supplies [] arguments = true
supplies (p ∷ ps) arguments = elim p.value [
  | some _ ↦ supplies ps arguments
  | none ↦ contains (map (λ a. a.name) arguments) p.name && supplies ps arguments
]

-- Every argument is one of the inputs.
unfoldable pub known : List Parameter → List Parameter → Bool
known [] inputs = true
known (a ∷ rest) inputs = contains (map (λ p. p.name) inputs) a.name && known rest inputs

-- The task refers to a template, of the cluster or of the workflow, that takes its arguments.
abbrev pub Resolves : List Template → DagTask → Type 0
Resolves templates task =
    (t : Template) × (supplies t.inputs task.arguments ≡ true)
    × (known task.arguments t.inputs ≡ true)
    × (((task.template_ref ≡ some (cicd_ref t)) × (task.template ≡ []) × Elem t cicd_templates)
        ⊎ ((task.template_ref ≡ none) × (task.template ≡ t.name) × Elem t templates))

-- What holds of the result of a step, given its name.
abbrev pub Good : Option Str → Added → Type 0
Good name (task, added) = (name ≡ some task.name) × Resolves added task

inline_template-inputs :
    (t : Template) (i : ℕ) (base : BaseStepFields) (artifacts : List DockerBuildArtifact)
    → OkWith {E = TaskError} (λ own. own.inputs ≡ t.inputs) (inline_template t i base artifacts)
unfolding inline_template
inline_template-inputs t i base artifacts = elim (Option-cases t.container_set) [
  | inl e ↦ rw e tt
  | inr (set, e) ↦
      rw e (elim (List-cases set.containers) [ inl e' ↦ rw e' tt | inr (c, cs, e') ↦ rw e' refl ])
]

-- The arguments are those that a template of the cluster takes.
abbrev pub Fits : Template → List Parameter → Type 0
Fits t arguments =
    (supplies t.inputs arguments ≡ true) × (known arguments t.inputs ≡ true) × Elem t cicd_templates

module _ (t : Template) (base : BaseStepFields) where
  build_task-Good :
      (i : ℕ) (name : Str) (artifacts : List DockerBuildArtifact) (arguments : List Parameter)
      → Fits t arguments
      → OkWith (Good (some name)) (build_task t i name base artifacts arguments)
  unfolding build_task
  build_task-Good i name artifacts arguments (all_given, all_known, shared) =
      elim (Bool-cases (is_plain base artifacts)) [
        | inl plain ↦
            rw (plain, build_task) (refl, (t, all_given, all_known, inl (refl, refl, shared)))
        | inr special ↦
            rw (special, build_task)
              (elim (Result-cases {E = TaskError} (inline_template t i base artifacts)) [
                | inl (own, e) ↦
                    let same = OkWith-ok _ e (inline_template-inputs t i base artifacts) in
                    rw e (
                      refl,
                      (own, rw same all_given, rw same all_known, inr (refl, refl, inl refl)),
                    )
                | inr (inl (_, e)) ↦ rw e tt
                | inr (inr e) ↦ rw e tt
              ])
      ]

  build_step-Good :
      (i : ℕ) (artifacts : List DockerBuildArtifact) (arguments : Str → Str → List Parameter)
      → ((path dir : Str) → Fits t (arguments path dir))
      → (name path dir : Option Str)
      → OkWith (Good name) (
          deref name >>= λ n.
          deref path >>= λ p. deref dir >>= λ d. build_task t i n base artifacts (arguments p d))
  build_step-Good i artifacts arguments fits none path dir = tt
  build_step-Good i artifacts arguments fits (some n) none dir = tt
  build_step-Good i artifacts arguments fits (some n) (some p) none = tt
  build_step-Good i artifacts arguments fits (some n) (some p) (some d) =
      build_task-Good i n artifacts (arguments p d) (fits p d)

  deploy_task-Good :
      (m : StepMap) (name : Str) (arguments : List Parameter)
      → Fits t arguments
      → OkWith (Good (some name)) (deploy_task m t name base arguments)
  deploy_task-Good m name arguments (all_given, all_known, shared) =
      elim (Result-cases {E = TaskError} (get_when name m)) [
        | inl (when, e) ↦ rw e (refl, (t, all_given, all_known, inl (refl, refl, shared)))
        | inr (inl (_, e)) ↦ rw e tt
        | inr (inr e) ↦ rw e tt
      ]

  module _ (m : StepMap) (arguments : Str → Str × Str → Str → List Parameter) where
    deploy_rest-Good :
        ((path : Str) (repo : Str × Str) (base_ref : Str) → Fits t (arguments path repo base_ref))
        → (name : Str) (path : Result TaskError Str) (repo : Result TaskError (Str × Str))
          (base_ref : Option Str)
        → OkWith (Good (some name)) (
            path >>= λ p.
            repo >>= λ r. deref base_ref >>= λ b. deploy_task m t name base (arguments p r b))
    deploy_rest-Good fits name (ok p) (ok r) (some b) =
        deploy_task-Good m name (arguments p r b) (fits p r b)
    deploy_rest-Good fits name (ok p) (ok r) none = tt
    deploy_rest-Good fits name (ok p) (err e) base_ref = tt
    deploy_rest-Good fits name (ok p) panic base_ref = tt
    deploy_rest-Good fits name (err e) repo base_ref = tt
    deploy_rest-Good fits name panic repo base_ref = tt

    deploy_step-Good :
        ((path : Str) (repo : Str × Str) (base_ref : Str) → Fits t (arguments path repo base_ref))
        → (path : Str → Result TaskError Str) (repo : Result TaskError (Str × Str))
          (base_ref name : Option Str)
        → OkWith (Good name) (
            deref name >>= λ n. path n >>= λ p.
            repo >>= λ r. deref base_ref >>= λ b. deploy_task m t n base (arguments p r b))
    deploy_step-Good fits path repo base_ref none = tt
    deploy_step-Good fits path repo base_ref (some n) =
        deploy_rest-Good fits n (path n) repo base_ref

pub step_task-Good :
    (m : StepMap) (i : ℕ) (s : Step) → OkWith (Good (step_base s).step_name) (step_task m i s)
unfolding step_task docker_build_test_task docker_build_test_publish_task argo_cd_task
    github_create_pr_task supplies known codes Str-discrete
step_task-Good m i (docker_build_test s) =
    build_step-Good docker_build_test_template s.base i s.artifacts
      (docker_build_test_arguments s.artifacts) (λ p d. (refl, refl, inr (inl refl)))
      s.base.step_name s.dockerfile_path s.docker_context_dir
step_task-Good m i (docker_build_test_publish s) =
    build_step-Good docker_build_test_publish_template s.base i s.artifacts
      (docker_build_test_publish_arguments s.artifacts) (λ p d. (refl, refl, inr (inr (inl refl))))
      s.base.step_name s.dockerfile_path s.docker_context_dir
step_task-Good m i (argo_cd s) =
    deploy_step-Good argo_cd_template s.base m (argo_cd_arguments s)
      (λ p r b. (refl, refl, inr (inr (inr (inl refl)))))
      (λ n. wrap dockerfile_dependency (get_dockerfile_path_dependency n m))
      (wrap step_repo_url (get_repo_org_name s.repo_url)) s.base_ref s.base.step_name
step_task-Good m i (github_create_pr s) =
    deploy_step-Good github_create_pr_template s.base m (github_create_pr_arguments s)
      (λ p r b. (refl, refl, inr (inr (inr (inr (inl refl))))))
      (λ n. wrap dockerfile_dependency (get_dockerfile_path_dependency n m))
      (wrap step_repo_url (get_repo_org_name s.repo_url)) s.base_ref s.base.step_name
