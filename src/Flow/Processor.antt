-- ===== src/Flow/Processor.antt =====
-- flow_processor.go. The flow is changed in place, also where an error is returned.
pub mod Laws
use jettison_controller.Common.{List}
use jettison_controller.Common.Results.{Result, ok, err, panic, ◌>>=◌, wrap}
use jettison_controller.Flow.{Trigger, Step, Flow}
use jettison_controller.Flow.Decode.{VolumeCodec}
use jettison_controller.Flow.Parser.{ParseError, parse_triggers, parse_steps}
use jettison_controller.Flow.Defaulter.{apply_defaults}
use jettison_controller.Flow.Validator.{ValidationError, validate}

pub data ProcessError : Type 0 where
  triggers_failed : ParseError → ProcessError
  steps_failed : ParseError → ProcessError
  validation_failed : ValidationError → ProcessError

module _ (codec : VolumeCodec) where
  -- `applyDefaults` and `validate`, on what was parsed.
  default_and_validate :
      Flow → List Trigger → List Step → Flow × Result ProcessError (List Trigger × List Step)
  default_and_validate f triggers steps =
      let (f', triggers', steps') = apply_defaults f triggers steps in
      (f', wrap validation_failed (validate triggers' steps') >>= λ _. ok (triggers', steps'))

  abbrev parsed : Flow → Result ProcessError (List Trigger × List Step)
  parsed f = do
    triggers ← wrap triggers_failed (parse_triggers f.spec.triggers)
    steps ← wrap steps_failed (parse_steps codec f.spec.steps)
    ok (triggers, steps)

  unfoldable pub pre_process_flow : Flow → Flow × Result ProcessError (List Trigger × List Step)
  unfolding default_and_validate
  pre_process_flow f = elim (parsed f) [
    | ok (triggers, steps) ↦ default_and_validate f triggers steps
    | err e ↦ (f, err e)
    | panic ↦ (f, panic)
  ]
