-- ===== src/Sensor/Tasks/Total.antt =====
-- The tasks of ready steps that depend on steps: no nil pointer and no nil interface is used.
use jettison_controller.Common.{
  ◌≡◌, refl, inl, inr, ℕ, suc, List, [], ◌∷◌, ◌++◌, Option, none, some, All, Elem, arith,
  Option-cases, Bool-cases,
}
use jettison_controller.Common.Results.{
  Result, ok, err, panic, NoPanic, wrap, wrap-NoPanic, ◌>>=◌, Result-cases,
}
use jettison_controller.Text.{Str}
use jettison_controller.GitUtil.{get_repo_org_name}
use jettison_controller.GitUtil.Laws.{get_repo_org_name-NoPanic}
use jettison_controller.Sensor.Dependency.{get_dockerfile_path_dependency}
use jettison_controller.Templates.Deploys.{argo_cd_template, github_create_pr_template}
use jettison_controller.Flow.{
  Trigger, Step, docker_build_test, docker_build_test_publish, argo_cd, github_create_pr, step_base,
  BaseStepFields, DockerBuildArtifact, deref, get_depends_on,
}
use jettison_controller.Flow.Ready.{StepReady, Present}
use jettison_controller.Templates.{Parameter, Template}
use jettison_controller.Templates.Builds.{
  docker_build_test_template, docker_build_test_publish_template,
}
use jettison_controller.Sensor.{StepMap, lookup}
use jettison_controller.Sensor.Fields.{when_dependency, when_dependencies, get_when}
use jettison_controller.Sensor.Tasks.{
  DagTask, TaskError, dockerfile_dependency, step_repo_url, join_type, own_type, initial_task,
  initial_loop, get_initial_dag_tasks,
}
use jettison_controller.Sensor.Tasks.Inline.{is_plain, inline_template}
use jettison_controller.Sensor.Tasks.Steps.{
  build_task, docker_build_test_task, docker_build_test_publish_task, argo_cd_task,
  github_create_pr_task, deploy_task, docker_build_test_arguments,
  docker_build_test_publish_arguments, argo_cd_arguments, github_create_pr_arguments, step_task,
  steps_loop, get_workflow_template_dag_tasks,
}
use jettison_controller.Sensor.Tasks.Named.{
  Closed, DependsOnSteps, steps_by_name-Closed, search-NoPanic,
}

-- The shared build templates have a container set with a container.
abbrev HasContainer : Template → Type 0
HasContainer t =
    (i : ℕ) (base : BaseStepFields) (artifacts : List DockerBuildArtifact)
    → NoPanic {E = TaskError} (inline_template t i base artifacts)

build_test-HasContainer : HasContainer docker_build_test_template
unfolding inline_template
build_test-HasContainer i base artifacts = tt

publish-HasContainer : HasContainer docker_build_test_publish_template
unfolding inline_template
publish-HasContainer i base artifacts = tt

build_task-NoPanic :
    (t : Template) (i : ℕ) (name : Str) (base : BaseStepFields)
    (artifacts : List DockerBuildArtifact) (arguments : List Parameter)
    → HasContainer t
    → NoPanic (build_task t i name base artifacts arguments)
unfolding build_task
build_task-NoPanic t i name base artifacts arguments has =
    elim (Bool-cases (is_plain base artifacts)) [
      | inl plain ↦ rw (plain, build_task) tt
      | inr special ↦
          rw (special, build_task)
            (let fine = has i base artifacts in
              elim (Result-cases {E = TaskError} (inline_template t i base artifacts)) [
                | inl (own, e) ↦ rw e tt
                | inr (inl (_, e)) ↦ rw e tt
                | inr (inr e) ↦ absurd (rw e at fine)
              ])
    ]

found-NoPanic : (s : Step) → StepReady s → NoPanic {E = TaskError} (when_dependency (some s))
found-NoPanic (docker_build_test s) ready = let (name, e) = ready.0 in rw e tt
found-NoPanic (docker_build_test_publish s) ready = let (name, e) = ready.0 in rw e tt
found-NoPanic (argo_cd s) ready = let (name, e) = ready.0 in rw e tt
found-NoPanic (github_create_pr s) ready = tt

module _ (m : StepMap) (ss : List Step) (c : Closed m ss) where
  when_dependency-NoPanic : (d : Str) → NoPanic {E = TaskError} (when_dependency (lookup m d))
  when_dependency-NoPanic d = elim (Option-cases (lookup m d)) [
    | inl e ↦ rw e tt
    | inr (s, e) ↦ rw e (found-NoPanic s (c.ready d s e))
  ]

  when_dependencies-NoPanic : (ds : List Str) → NoPanic {E = TaskError} (when_dependencies m ds)
  unfolding when_dependencies
  when_dependencies-NoPanic [] = tt
  when_dependencies-NoPanic (d ∷ ds) =
      let first = when_dependency-NoPanic d in
      let rest = when_dependencies-NoPanic ds in
      elim (Result-cases {E = TaskError} (when_dependency (lookup m d))) [
        | inl (w, e) ↦ rw e (elim (Result-cases {E = TaskError} (when_dependencies m ds)) [
          | inl (ws, e') ↦ rw e' tt
          | inr (inl (_, e')) ↦ rw e' tt
          | inr (inr e') ↦ absurd (rw e' at rest)
        ])
        | inr (inl (_, e)) ↦ rw e tt
        | inr (inr e) ↦ absurd (rw e at first)
      ]

  get_when-NoPanic :
      (name : Str) (s : Step) → lookup m name ≡ some s → NoPanic {E = TaskError} (get_when name m)
  unfolding get_when
  get_when-NoPanic name s found =
      let fine = when_dependencies-NoPanic (get_depends_on s) in
      rw (found, get_when)
        (elim (Result-cases {E = TaskError} (when_dependencies m (get_depends_on s))) [
          | inl (ws, e) ↦ rw e tt
          | inr (inl (_, e)) ↦ rw e tt
          | inr (inr e) ↦ absurd (rw e at fine)
        ])

  module _ (t : Template) (base : BaseStepFields) (name : Str) (s : Step)
      (found : lookup m name ≡ some s) where
    deploy_task-NoPanic :
        (arguments : List Parameter) → NoPanic (deploy_task m t name base arguments)
    deploy_task-NoPanic arguments =
        let fine = get_when-NoPanic name s found in
        elim (Result-cases {E = TaskError} (get_when name m)) [
          | inl (when, e) ↦ rw e tt
          | inr (inl (_, e)) ↦ rw e tt
          | inr (inr e) ↦ absurd (rw e at fine)
        ]

    deploy_rest-NoPanic :
        (arguments : Str → Str × Str → Str → List Parameter) (path : Result TaskError Str)
        (repo : Result TaskError (Str × Str)) (base_ref : Option Str)
        → NoPanic path
        → NoPanic repo
        → Present base_ref
        → NoPanic (
            path >>= λ p.
            repo >>= λ r. deref base_ref >>= λ b. deploy_task m t name base (arguments p r b))
    deploy_rest-NoPanic arguments (ok p) (ok r) (some b) hp hr hb =
        deploy_task-NoPanic (arguments p r b)
    deploy_rest-NoPanic arguments (ok p) (ok r) none hp hr (b, e) = cc
    deploy_rest-NoPanic arguments (ok p) (err e) base_ref hp hr hb = tt
    deploy_rest-NoPanic arguments (ok p) panic base_ref hp hr hb = hr
    deploy_rest-NoPanic arguments (err e) repo base_ref hp hr hb = tt
    deploy_rest-NoPanic arguments panic repo base_ref hp hr hb = hp

  step_task-NoPanic :
      (i : ℕ) (s : Step)
      → StepReady s
      → ((d : Str) → (step_base s).step_name ≡ some d → Present (lookup m d))
      → NoPanic (step_task m i s)
  unfolding step_task docker_build_test_task docker_build_test_publish_task argo_cd_task
      github_create_pr_task inline_template
  step_task-NoPanic i (docker_build_test s) ((name, e), (path, e'), (dir, e'')) listed =
      rw (e, e', e'')
        (build_task-NoPanic docker_build_test_template i name s.base s.artifacts
          (docker_build_test_arguments s.artifacts path dir) build_test-HasContainer)
  step_task-NoPanic i (docker_build_test_publish s) ((name, e), (path, e'), (dir, e'')) listed =
      rw (e, e', e'')
        (build_task-NoPanic docker_build_test_publish_template i name s.base s.artifacts
          (docker_build_test_publish_arguments s.artifacts path dir) publish-HasContainer)
  step_task-NoPanic i (argo_cd s) ((name, e), ref) listed =
      let (u, found) = listed name e in
      rw e (
        deploy_rest-NoPanic argo_cd_template s.base name u found (argo_cd_arguments s)
          (wrap dockerfile_dependency (get_dockerfile_path_dependency name m))
          (wrap step_repo_url (get_repo_org_name s.repo_url)) s.base_ref
          (wrap-NoPanic dockerfile_dependency _ (search-NoPanic m ss c name u found))
          (wrap-NoPanic step_repo_url _ (get_repo_org_name-NoPanic s.repo_url)) ref)
  step_task-NoPanic i (github_create_pr s) ((name, e), ref) listed =
      let (u, found) = listed name e in
      rw e (
        deploy_rest-NoPanic github_create_pr_template s.base name u found
          (github_create_pr_arguments s)
          (wrap dockerfile_dependency (get_dockerfile_path_dependency name m))
          (wrap step_repo_url (get_repo_org_name s.repo_url)) s.base_ref
          (wrap-NoPanic dockerfile_dependency _ (search-NoPanic m ss c name u found))
          (wrap-NoPanic step_repo_url _ (get_repo_org_name-NoPanic s.repo_url)) ref)

  steps_loop-NoPanic :
      (i : ℕ) (rest : List Step) (tasks : List DagTask) (templates : List Template)
      → All StepReady rest
      → ((s : Step) → Elem s rest → Elem s ss)
      → NoPanic (steps_loop m i rest tasks templates)
  unfolding steps_loop
  steps_loop-NoPanic i [] tasks templates ready part = tt
  steps_loop-NoPanic i (s ∷ rest) tasks templates (r, ready) part =
      let fine = step_task-NoPanic i s r (λ d named. c.finds s d (part s (inl refl)) named) in
      elim (Result-cases (step_task m i s)) [
        | inl ((task, added), e) ↦
            rw (e, steps_loop)
              (steps_loop-NoPanic (suc i) rest (tasks ++ (task ∷ [])) (templates ++ added) ready
                (λ u here. part u (inr here)))
        | inr (inl (_, e)) ↦ rw (e, steps_loop) tt
        | inr (inr e) ↦ absurd (rw e at fine)
      ]

join_type-NoPanic : (wanted current : Str) → NoPanic (join_type wanted current)
unfolding join_type
join_type-NoPanic wanted current = ground arith

initial_loop-NoPanic :
    (ts : List Trigger) (current : Str) (tasks : List DagTask)
    → NoPanic (initial_loop ts current tasks)
unfolding initial_loop
initial_loop-NoPanic [] current tasks = tt
initial_loop-NoPanic (t ∷ ts) current tasks =
    let fine = join_type-NoPanic (own_type t) current in
    elim (Result-cases (join_type (own_type t) current)) [
      | inl (joined, e) ↦
          rw (e, initial_loop)
            (initial_loop-NoPanic ts joined (tasks ++ (initial_task joined ∷ [])))
      | inr (inl (_, e)) ↦ rw (e, initial_loop) tt
      | inr (inr e) ↦ absurd (rw e at fine)
    ]

pub workflow-NoPanic :
    (ts : List Trigger) (ss : List Step)
    → All StepReady ss
    → All (DependsOnSteps ss) ss
    → NoPanic (get_workflow_template_dag_tasks ts ss)
unfolding get_workflow_template_dag_tasks get_initial_dag_tasks
workflow-NoPanic ts ss ready depends =
    let fine = initial_loop-NoPanic ts [] [] in
    let (m, built, closed) = steps_by_name-Closed TaskError ss ready depends in
    elim (Result-cases (initial_loop ts [] [])) [
      | inl ((initial, joined), e) ↦
          let loop = steps_loop-NoPanic m ss closed 0 ss initial [] ready (λ s here. here) in
          rw (e, get_workflow_template_dag_tasks, built)
            (elim (Result-cases (steps_loop m 0 ss initial [])) [
              | inl ((tasks, templates), e') ↦ rw e' tt
              | inr (inl (_, e')) ↦ rw e' tt
              | inr (inr e') ↦ absurd (rw e' at loop)
            ])
      | inr (inl (_, e)) ↦ rw (e, get_workflow_template_dag_tasks) tt
      | inr (inr e) ↦ absurd (rw e at fine)
    ]
