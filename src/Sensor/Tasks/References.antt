-- ===== src/Sensor/Tasks/References.antt =====
-- The inputs that the task of a DockerBuildTest step refers to, when only pushes trigger the flow.
use jettison_controller.Common.{
  ◌≡◌, refl, ℕ, false, List, [], ◌∷◌, ◌++◌, map, Option, none, some, Elem, inl, inr, All,
  Bool-cases,
}
use jettison_controller.Common.Results.{ok, ◌>>=◌, OkWith, OkWith-ok, Result-cases}
use jettison_controller.Text.{Str, codes, Str-discrete, contains}
use jettison_controller.Flow.{
  Trigger, pull_request, push, BaseStepFields, DockerBuildArtifact, DockerBuildTestStep, deref,
}
use jettison_controller.Templates.{Parameter, Template, text}
use jettison_controller.Templates.Builds.{docker_build_test_template}
use jettison_controller.Sensor.Parameters.{global_workflow_parameters, get_trigger_parameters}
use jettison_controller.Sensor.Parameters.Laws.{
  all_added-none, count_pull_requests, get_trigger_parameters-parameters,
}
use jettison_controller.Sensor.Tasks.{DagTask, TaskError}
use jettison_controller.Sensor.Tasks.Inline.{is_plain, inline_template}
use jettison_controller.Sensor.Tasks.Steps.{
  build_task, docker_build_test_arguments, docker_build_test_task,
}

abbrev pub IsPush : Trigger → Type 0
IsPush (pull_request t) = ⊥
IsPush (push t) = Unit

pushes-count : (ts : List Trigger) → All IsPush ts → count_pull_requests ts ≡ 0
pushes-count [] h = refl
pushes-count (pull_request t ∷ ts) (h, hs) = absurd h
pushes-count (push t ∷ ts) (h, hs) = pushes-count ts hs

-- The task refers to this input of the main template.
abbrev pub Refers : Str → DagTask → Type 0
Refers name task =
    (a : Parameter) × Elem a task.arguments
    × (a.value ≡ some (text (codes "{{inputs.parameters." ++ (name ++ codes "}}"))))

build_task-arguments :
    (t : Template) (i : ℕ) (name : Str) (base : BaseStepFields)
    (artifacts : List DockerBuildArtifact) (arguments : List Parameter)
    → OkWith (λ r. r.0.arguments ≡ arguments) (build_task t i name base artifacts arguments)
unfolding build_task
build_task-arguments t i name base artifacts arguments =
    elim (Bool-cases (is_plain base artifacts)) [
      | inl plain ↦ rw (plain, build_task) refl
      | inr special ↦
          rw (special, build_task)
            (elim (Result-cases {E = TaskError} (inline_template t i base artifacts)) [
              | inl (own, e) ↦ rw e refl
              | inr (inl (_, e)) ↦ rw e tt
              | inr (inr e) ↦ rw e tt
            ])
    ]

module _ (i : ℕ) (base : BaseStepFields) (artifacts : List DockerBuildArtifact) where
  built-Refers :
      (name path dir : Str)
      → OkWith
          (λ r. Refers (codes "base-revision") r.0)
          (build_task docker_build_test_template i name base artifacts
            (docker_build_test_arguments artifacts path dir))
  unfolding codes
  built-Refers name path dir =
      elim (Result-cases (
        build_task docker_build_test_template i name base artifacts
          (docker_build_test_arguments artifacts path dir))) [
            | inl (r, e) ↦
                let same = OkWith-ok _ e (
                  build_task-arguments docker_build_test_template i name base artifacts
                    (docker_build_test_arguments artifacts path dir)) in
                rw (e, same) (_, inr (inr (inr (inr (inr (inl refl))))), refl)
            | inr (inl (_, e)) ↦ rw e tt
            | inr (inr e) ↦ rw e tt
          ]

  task-Refers :
      (name path dir : Option Str)
      → OkWith
          (λ r. Refers (codes "base-revision") r.0)
          (deref name >>= λ n. deref path >>= λ p. deref dir >>= λ d.
            build_task docker_build_test_template i n base artifacts
              (docker_build_test_arguments artifacts p d))
  task-Refers none path dir = tt
  task-Refers (some n) none dir = tt
  task-Refers (some n) (some p) none = tt
  task-Refers (some n) (some p) (some d) = built-Refers n p d

base_revision-missing :
    contains (map (λ p. p.name) global_workflow_parameters) (codes "base-revision") ≡ false
unfolding codes Str-discrete
base_revision-missing = refl

-- If all triggers are pushes and the task of a DockerBuildTest step is built, the task refers to
-- the input "base-revision" of the main template, and the workflow parameters, which are those
-- inputs, have no such name.
pub docker_build_test_task-Refers :
    (ts : List Trigger) (i : ℕ) (s : DockerBuildTestStep) (task : DagTask) (added : List Template)
    → All IsPush ts
    → docker_build_test_task i s ≡ ok (task, added)
    → Refers (codes "base-revision") task
      × (contains (map (λ p. p.name) (get_trigger_parameters ts).0) (codes "base-revision") ≡ false)
unfolding docker_build_test_task
docker_build_test_task-Refers ts i s task added pushes h =
    let refers =
      task-Refers i s.base s.artifacts s.base.step_name s.dockerfile_path s.docker_context_dir in
    (
      OkWith-ok (λ r. Refers (codes "base-revision") r.0) h refers,
      rw (get_trigger_parameters-parameters ts, all_added-none ts (pushes-count ts pushes))
          base_revision-missing,
    )
