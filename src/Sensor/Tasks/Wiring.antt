-- ===== src/Sensor/Tasks/Wiring.antt =====
-- The tasks of the whole workflow: their names, and the templates that they refer to.
use jettison_controller.Common.{
  ◌≡◌, refl, sym, ◌∙◌, ap, inl, inr, ℕ, suc, List, [], ◌∷◌, ◌++◌, map, Option, some, All,
  All-append, Elem-append, append_assoc, append-nil,
}
use jettison_controller.Common.Results.{ok, OkWith, OkWith-ok, Result-cases}
use jettison_controller.Text.{Str, codes, Str-discrete}
use jettison_controller.Flow.{Trigger, Step, step_base}
use jettison_controller.Templates.{Template}
use jettison_controller.Templates.Checks.{github_check_start_template}
use jettison_controller.Sensor.{StepMap, steps_by_name}
use jettison_controller.Sensor.Tasks.{
  DagTask, TaskError, join_type, own_type, initial_task, initial_loop, get_initial_dag_tasks,
}
use jettison_controller.Sensor.Tasks.Steps.{step_task, steps_loop, get_workflow_template_dag_tasks}
use jettison_controller.Sensor.Tasks.Resolve.{supplies, known, Resolves, step_task-Good}

Resolves-more :
    (before templates after : List Template) (task : DagTask)
    → Resolves templates task
    → Resolves (before ++ (templates ++ after)) task
Resolves-more before templates after task (t, all_given, all_known, inl shared) =
    (t, all_given, all_known, inl shared)
Resolves-more before templates after task (t, all_given, all_known, inr (no_ref, own, here)) = (
  t,
  all_given,
  all_known,
  inr (no_ref, own, Elem-append t before _ (inr (Elem-append t templates after (inl here)))),
)

All-more :
    (templates after : List Template) (tasks : List DagTask)
    → All (Resolves templates) tasks
    → All (Resolves (templates ++ after)) tasks
All-more templates after [] h = tt
All-more templates after (t ∷ ts) (h, hs) =
    (Resolves-more [] templates after t h, All-more templates after ts hs)

initial_task-Resolves : (trigger_type : Str) → Resolves [] (initial_task trigger_type)
unfolding initial_task supplies known codes Str-discrete
initial_task-Resolves trigger_type =
    (github_check_start_template, refl, refl, inl (refl, refl, inl refl))

abbrev pub names : List DagTask → List (Option Str)
names = map (λ t. some t.name)

abbrev pub start_name : Trigger → Option Str
start_name t = some (codes "github-check-start")

abbrev pub own_name : Step → Option Str
own_name s = (step_base s).step_name

names-append : (ts us : List DagTask) → names (ts ++ us) ≡ names ts ++ names us
names-append [] us = refl
names-append (t ∷ ts) us = ap (λ r. some t.name ∷ r) (names-append ts us)

-- A task that is added at the end takes its place before the names to come.
names-add :
    (tasks : List DagTask) (t : DagTask) (rest : List (Option Str))
    → names (tasks ++ (t ∷ [])) ++ rest ≡ names tasks ++ (some t.name ∷ rest)
names-add tasks t rest =
    ap (λ ns. ns ++ rest) (names-append tasks (t ∷ []))
    ∙ append_assoc (names tasks) (some t.name ∷ []) rest

initial_loop-Resolves :
    (ts : List Trigger) (current : Str) (tasks : List DagTask)
    → All (Resolves []) tasks
    → OkWith
        (λ r. (names r.0 ≡ names tasks ++ map start_name ts) × All (Resolves []) r.0)
        (initial_loop ts current tasks)
unfolding initial_loop initial_task
initial_loop-Resolves [] current tasks h = (sym (append-nil (names tasks)), h)
initial_loop-Resolves (t ∷ ts) current tasks h =
    elim (Result-cases (join_type (own_type t) current)) [
      | inl (joined, e) ↦
          let more =
            initial_loop-Resolves ts joined (tasks ++ (initial_task joined ∷ []))
              (All-append (Resolves []) tasks _ h (initial_task-Resolves joined, tt)) in
          rw (e, initial_loop)
            (rw (names-add tasks (initial_task joined) (map start_name ts)) at more)
      | inr (inl (_, e)) ↦ rw (e, initial_loop) tt
      | inr (inr e) ↦ rw (e, initial_loop) tt
    ]

steps_loop-Resolves :
    (m : StepMap) (i : ℕ) (ss : List Step) (tasks : List DagTask) (templates : List Template)
    → All (Resolves templates) tasks
    → OkWith
        (λ r. (names r.0 ≡ names tasks ++ map own_name ss) × All (Resolves r.1) r.0)
        (steps_loop m i ss tasks templates)
unfolding steps_loop
steps_loop-Resolves m i [] tasks templates h = (sym (append-nil (names tasks)), h)
steps_loop-Resolves m i (s ∷ ss) tasks templates h = elim (Result-cases (step_task m i s)) [
  | inl ((task, added), e) ↦
      let (named, resolves) = OkWith-ok _ e (step_task-Good m i s) in
      let resolves' = rw (append-nil added) at (Resolves-more templates added [] task resolves) in
      let more = steps_loop-Resolves m (suc i) ss (tasks ++ (task ∷ [])) (templates ++ added) (
        All-append (Resolves (templates ++ added)) tasks _ (All-more templates added tasks h)
          (resolves', tt)) in
      rw (e, steps_loop) (rw (names-add tasks task (map own_name ss), sym named) at more)
  | inr (inl (_, e)) ↦ rw (e, steps_loop) tt
  | inr (inr e) ↦ rw (e, steps_loop) tt
]

-- What the tasks and the templates of a workflow satisfy.
abbrev pub Wired : List Trigger → List Step → List DagTask → List Template → Type 0
Wired ts ss tasks templates =
    (names tasks ≡ map start_name ts ++ map own_name ss) × All (Resolves templates) tasks

workflow-Wired :
    (ts : List Trigger) (ss : List Step)
    → OkWith (λ r. Wired ts ss r.0 r.1) (get_workflow_template_dag_tasks ts ss)
unfolding get_workflow_template_dag_tasks get_initial_dag_tasks
workflow-Wired ts ss = elim (Result-cases (initial_loop ts [] [])) [
  | inl ((initial, joined), e) ↦
      let (named, resolved) = OkWith-ok _ e (initial_loop-Resolves ts [] [] tt) in
      rw (e, get_workflow_template_dag_tasks)
        (elim (Result-cases {E = TaskError} (steps_by_name ss [])) [
          | inl (m, e') ↦ rw e' (elim (Result-cases (steps_loop m 0 ss initial [])) [
            | inl ((tasks, templates), e'') ↦
                let (named', resolved') =
                  OkWith-ok _ e'' (steps_loop-Resolves m 0 ss initial [] resolved) in
                rw e'' (named' ∙ rw named refl, resolved')
            | inr (inl (_, e'')) ↦ rw e'' tt
            | inr (inr e'') ↦ rw e'' tt
          ])
          | inr (inl (_, e')) ↦ rw e' tt
          | inr (inr e') ↦ rw e' tt
        ])
  | inr (inl (_, e)) ↦ rw (e, get_workflow_template_dag_tasks) tt
  | inr (inr e) ↦ rw (e, get_workflow_template_dag_tasks) tt
]

-- If the tasks of a workflow are built, they are one for each trigger, named
-- "github-check-start", and then one for each step, with the step's name, in order. Each refers
-- to a template of the cluster or to one that is added to the workflow, gives every input of it
-- that has no value, and gives nothing that is not an input.
pub get_workflow_template_dag_tasks-Wired :
    (ts : List Trigger) (ss : List Step) (tasks : List DagTask) (templates : List Template)
    (trigger_type : Str)
    → get_workflow_template_dag_tasks ts ss ≡ ok (tasks, templates, trigger_type)
    → Wired ts ss tasks templates
get_workflow_template_dag_tasks-Wired ts ss tasks templates trigger_type h =
    OkWith-ok _ h (workflow-Wired ts ss)
