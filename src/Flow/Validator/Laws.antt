-- ===== src/Flow/Validator/Laws.antt =====
-- `validate` accepts a flow exactly if it has triggers and steps and no pull request trigger without
-- events.
use jettison_controller.Common.{◌≡◌, ◌≢◌, ◌↔◌, List, [], ◌∷◌, arith, All}
use jettison_controller.Common.Results.{Result, ok, err}
use jettison_controller.Flow.{Trigger, pull_request, push, Step}
use jettison_controller.Flow.Decode.{elements}
use jettison_controller.Flow.Validator.{ValidationError, steps_empty, validate_triggers, validate}

-- A pull request trigger names an event.
abbrev pub HasEvents : Trigger → Type 0
HasEvents (pull_request t) = elements t.pull_request_events ≢ []
HasEvents (push t) = Unit

validate_triggers_iff :
    (ts : List Trigger) (rest : Result ValidationError (Unit {0}))
    → (validate_triggers ts rest ≡ ok tt) ↔ (All HasEvents ts × (rest ≡ ok tt))
unfolding validate_triggers
validate_triggers_iff [] rest = (λ h. (tt, h), λ h. h.1)
validate_triggers_iff (pull_request t ∷ ts) rest = ground (arith, validate_triggers_iff ts rest)
validate_triggers_iff (push t ∷ ts) rest = ground (arith, validate_triggers_iff ts rest)

-- Triggers and steps are valid exactly if there are triggers, each pull request trigger has an
-- event, and there are steps.
pub validate_iff :
    (ts : List Trigger) (ss : List Step)
    → (validate ts ss ≡ ok tt) ↔ ((ts ≢ []) × All HasEvents ts × (ss ≢ []))
unfolding validate
validate_iff [] ss = ground arith
validate_iff (t ∷ ts) [] = ground (arith, validate_triggers_iff (t ∷ ts) (err steps_empty))
validate_iff (t ∷ ts) (s ∷ ss) = ground (arith, validate_triggers_iff (t ∷ ts) (ok tt))
