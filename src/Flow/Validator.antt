-- ===== src/Flow/Validator.antt =====
-- flow_validator.go
pub mod Laws
use jettison_controller.Common.{List, [], ◌∷◌}
use jettison_controller.Common.Results.{Result, ok, err}
use jettison_controller.Flow.{Trigger, pull_request, push, Step}
use jettison_controller.Flow.Decode.{elements}

pub data ValidationError : Type 0 where
  triggers_empty : ValidationError
  pull_request_events_empty : ValidationError
  steps_empty : ValidationError

-- `if len(xs) == 0 { return … }`
abbrev pub check_not_empty {ℓ} :
    {E : Type 0} {A : Type ℓ} → List A → E → Result E (Unit {0}) → Result E (Unit {0})
check_not_empty [] e rest = err e
check_not_empty (_ ∷ _) e rest = rest

-- The loop over the triggers, and what follows it.
validate_triggers :
    List Trigger → Result ValidationError (Unit {0}) → Result ValidationError (Unit {0})
validate_triggers [] rest = rest
validate_triggers (pull_request t ∷ ts) rest =
    check_not_empty (elements t.pull_request_events) pull_request_events_empty
      (validate_triggers ts rest)
validate_triggers (push t ∷ ts) rest = validate_triggers ts rest

unfoldable pub validate : List Trigger → List Step → Result ValidationError (Unit {0})
unfolding validate_triggers
validate triggers steps =
    check_not_empty triggers triggers_empty
      (validate_triggers triggers (check_not_empty steps steps_empty (ok tt)))
