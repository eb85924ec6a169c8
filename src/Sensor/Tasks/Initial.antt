-- ===== src/Sensor/Tasks/Initial.antt =====
-- The triggers of a flow have one type: the laws of `getInitialDAGTasks`.
use jettison_controller.Common.{
  ◌≡◌, refl, sym, ◌∙◌, ◌≢◌, Bool, true, false, ◌&&◌, if◌then◌else◌, List, [], ◌∷◌, ◌++◌, map,
  append_assoc, append-nil, arith,
}
use jettison_controller.Common.Results.{Result, ok, err}
use jettison_controller.Text.{Str, codes, Str-discrete, ◌==◌}
use jettison_controller.Flow.{Trigger, pull_request, push}
use jettison_controller.Sensor.Tasks.{
  DagTask, TaskError, mixed_trigger_types, join_type, own_type, initial_task, initial_loop,
  get_initial_dag_tasks,
}

own_type-ne-nil : (t : Trigger) → own_type t ≢ []
unfolding codes
own_type-ne-nil (pull_request t) = λ e. cc
own_type-ne-nil (push t) = λ e. cc

join_type-first : (wanted : Str) → join_type wanted [] ≡ ok wanted
unfolding join_type
join_type-first wanted = ground arith

join_type-same :
    (wanted current : Str) → current ≢ [] → current ≡ wanted → join_type wanted current ≡ ok current
unfolding join_type
join_type-same wanted current full same = ground arith

join_type-other :
    (wanted current : Str)
    → current ≢ []
    → current ≢ wanted
    → join_type wanted current ≡ err mixed_trigger_types
unfolding join_type
join_type-other wanted current full other = ground arith

-- Whether all triggers have a type.
unfoldable pub one_type : Str → List Trigger → Bool
one_type wanted [] = true
one_type wanted (t ∷ ts) = own_type t == wanted && one_type wanted ts

-- The tasks of triggers of one type, and the error when there is another.
abbrev pub started : Str → List DagTask → List Trigger → Result TaskError (List DagTask × Str)
started current tasks ts =
    if one_type current ts
    then ok (tasks ++ map (λ _. initial_task current) ts, current)
    else err mixed_trigger_types

module _ (current : Str) (t : Trigger) (ts : List Trigger) where
  one_type-same : own_type t ≡ current → one_type current (t ∷ ts) ≡ one_type current ts
  unfolding one_type
  one_type-same same = ground arith

  one_type-other : own_type t ≢ current → one_type current (t ∷ ts) ≡ false
  unfolding one_type
  one_type-other differ = ground arith

module _ (current : Str) (full : current ≢ []) where
  initial_loop_lem :
      (ts : List Trigger) (tasks : List DagTask)
      → initial_loop ts current tasks ≡ started current tasks ts
  unfolding initial_loop one_type
  initial_loop_lem [] tasks = rw (append-nil tasks) refl
  initial_loop_lem (t ∷ ts) tasks = elim (Str-discrete (own_type t) current) [
    | yes same ↦ rw (join_type-same (own_type t) current full (sym same)) (
        initial_loop_lem ts (tasks ++ (initial_task current ∷ []))
        ∙ rw (append_assoc tasks (initial_task current ∷ []) (map (λ _. initial_task current) ts))
            (rw (one_type-same current t ts same) refl))
    | no differ ↦
        rw (join_type-other (own_type t) current full (λ e. differ (sym e)))
          (rw (one_type-other current t ts differ) refl)
  ]

-- For a list of triggers that is not empty, if all have the type of the first, each gets the task
-- that starts the check of that type, and the type is returned; if not, there is the error of
-- mixed types.
pub get_initial_dag_tasks_lem :
    (t : Trigger) (ts : List Trigger)
    → get_initial_dag_tasks (t ∷ ts) ≡ (
        if one_type (own_type t) ts
        then ok (map (λ _. initial_task (own_type t)) (t ∷ ts), own_type t)
        else err mixed_trigger_types)
unfolding get_initial_dag_tasks initial_loop
get_initial_dag_tasks_lem t ts =
    rw (join_type-first (own_type t)) (initial_loop_lem (own_type t) (own_type-ne-nil t) ts _)
