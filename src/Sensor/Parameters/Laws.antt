-- ===== src/Sensor/Parameters/Laws.antt =====
-- What the parameters of the workflow are, and which of them an event sets.
use jettison_controller.Common.{
  ℕ, zero, suc, ◌≤◌, ◌≡◌, ◌↔◌, refl, ◌∙◌, List, [], ◌∷◌, ◌++◌, map, append_assoc, append-nil, arith,
}
use jettison_controller.Apps.Laws.Names.{NoRepeats}
use jettison_controller.Text.{Str, Str-discrete, codes, decimal}
use jettison_controller.Flow.{Trigger, pull_request, push}
use jettison_controller.Templates.{Parameter}
use jettison_controller.Sensor.Parameters.{
  TriggerParameter, global_workflow_parameters, pr_workflow_parameters, pull_request_parameters,
  push_parameters, trigger_parameters_loop, get_trigger_parameters,
}

-- The workflow parameters that a trigger adds.
abbrev added_parameters : Trigger → List Parameter
added_parameters (pull_request t) = pr_workflow_parameters
added_parameters (push t) = []

pub all_added : List Trigger → List Parameter
all_added [] = []
all_added (t ∷ ts) = added_parameters t ++ all_added ts

trigger_parameters_loop-parameters :
    (ts : List Trigger) (ps : List Parameter) (qs : List TriggerParameter)
    → (trigger_parameters_loop ts ps qs).0 ≡ ps ++ all_added ts
unfolding trigger_parameters_loop all_added
trigger_parameters_loop-parameters [] ps qs = rw (append-nil ps) refl
trigger_parameters_loop-parameters (pull_request t ∷ ts) ps qs =
    trigger_parameters_loop-parameters ts (ps ++ pr_workflow_parameters)
      (qs ++ pull_request_parameters)
    ∙ append_assoc ps pr_workflow_parameters (all_added ts)
trigger_parameters_loop-parameters (push t ∷ ts) ps qs =
    trigger_parameters_loop-parameters ts ps (qs ++ push_parameters)

abbrev pub count_pull_requests : List Trigger → ℕ
count_pull_requests [] = 0
count_pull_requests (pull_request t ∷ ts) = suc (count_pull_requests ts)
count_pull_requests (push t ∷ ts) = count_pull_requests ts

pub all_added-none : (ts : List Trigger) → count_pull_requests ts ≡ 0 → all_added ts ≡ []
unfolding all_added
all_added-none [] e = refl
all_added-none (pull_request t ∷ ts) e = absurd (omega (arith, e))
all_added-none (push t ∷ ts) e = all_added-none ts e

all_added-next :
    (ts : List Trigger) (n : ℕ)
    → count_pull_requests ts ≡ suc n
    → (rest : List Trigger) × (all_added ts ≡ pr_workflow_parameters ++ all_added rest)
      × (count_pull_requests rest ≡ n)
unfolding all_added
all_added-next [] n e = absurd (omega (arith, e))
all_added-next (pull_request t ∷ ts) n e = (ts, refl, omega (arith, e))
all_added-next (push t ∷ ts) n e = all_added-next ts n e

-- No two parameters have one name.
abbrev pub Distinct : List Parameter → Type 0
Distinct ps = NoRepeats [] (map (λ p. p.name) ps)

Distinct-global : Distinct (global_workflow_parameters ++ [])
unfolding codes Str-discrete
Distinct-global = (refl, (refl, (refl, (refl, (refl, (refl, tt))))))

Distinct-pr : Distinct (global_workflow_parameters ++ (pr_workflow_parameters ++ []))
unfolding codes Str-discrete
Distinct-pr = (refl, (refl, (refl, (refl, (refl, (refl, (refl, (refl, (refl, tt)))))))))

repeated_pr :
    (ps : List Parameter)
    → ¬ Distinct
        (global_workflow_parameters ++ (pr_workflow_parameters ++ (pr_workflow_parameters ++ ps)))
unfolding codes Str-discrete
repeated_pr ps h = let clash = h.1.1.1.1.1.1.1.1.1.0 in cc

pub get_trigger_parameters-parameters :
    (ts : List Trigger) → (get_trigger_parameters ts).0 ≡ global_workflow_parameters ++ all_added ts
unfolding get_trigger_parameters
get_trigger_parameters-parameters ts =
    trigger_parameters_loop-parameters ts global_workflow_parameters []

Distinct-rest :
    (ts : List Trigger) (n : ℕ)
    → count_pull_requests ts ≡ n
    → Distinct (global_workflow_parameters ++ (pr_workflow_parameters ++ all_added ts))
      ↔ (suc n ≤ 1)
Distinct-rest ts zero e = rw (all_added-none ts e) (λ h. omega arith, λ h. Distinct-pr)
Distinct-rest ts (suc n) e =
    let (rest, added, _) = all_added-next ts n e in
    rw added (λ h. absurd (repeated_pr (all_added rest) h), λ h. absurd (omega (arith, h)))

Distinct-iff :
    (ts : List Trigger) (n : ℕ)
    → count_pull_requests ts ≡ n
    → Distinct (global_workflow_parameters ++ all_added ts) ↔ (n ≤ 1)
Distinct-iff ts zero e = rw (all_added-none ts e) (λ h. omega arith, λ h. Distinct-global)
Distinct-iff ts (suc n) e =
    let (rest, added, left) = all_added-next ts n e in rw added (Distinct-rest rest n left)

-- No two workflow parameters have one name exactly when at most one of the triggers is a pull
-- request trigger.
pub get_trigger_parameters-Distinct :
    (ts : List Trigger) → Distinct (get_trigger_parameters ts).0 ↔ (count_pull_requests ts ≤ 1)
get_trigger_parameters-Distinct ts =
    rw (get_trigger_parameters-parameters ts) (Distinct-iff ts (count_pull_requests ts) refl)

-- The destinations of the parameters from an index on.
unfoldable pub value_dests : ℕ → List Parameter → List Str
value_dests i [] = []
value_dests i (_ ∷ ps) =
    (codes "spec.arguments.parameters." ++ (decimal i ++ codes ".value")) ∷ value_dests (suc i) ps

-- For one trigger of either type, the destinations of the trigger parameters are the values of
-- all workflow parameters, each once and in the order of their indices, and then the generated
-- name.
pub get_trigger_parameters-dests :
    (t : Trigger)
    → let (ps, qs) = get_trigger_parameters (t ∷ []) in
      map (λ q. q.dest) qs ≡ value_dests 0 ps ++ (codes "metadata.generateName" ∷ [])
unfolding get_trigger_parameters trigger_parameters_loop value_dests
get_trigger_parameters-dests (pull_request t) = refl
get_trigger_parameters-dests (push t) = refl
