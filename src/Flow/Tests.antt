-- ===== src/Flow/Tests.antt =====
-- A flow for pushes, and the theorems about preprocessing at it.
use jettison_controller.Common.{◌≡◌, ◌≢◌, refl, ap, List, [], ◌∷◌, map, none, some, All, All₂, ◌↔◌}
use Prim.Native.String.{String}
use jettison_controller.Common.Ints.{pos}
use jettison_controller.Common.Results.{ok}
use jettison_controller.Text.{Str, codes, Str-discrete, to_lower}
use jettison_controller.Json.{Json, string, object, field, end, into_struct}
use jettison_controller.Flow.{
  Trigger, push, Step, docker_build_test_publish, Flow, get_trigger_source, get_step_source,
}
use jettison_controller.Flow.Decode.{
  VolumeCodec, store_base_trigger, store_push, store_base_step, store_docker_build_test_publish,
}
use jettison_controller.Flow.Parser.{parse_triggers, parse_steps}
use jettison_controller.Flow.Parser.Source.{trigger_type_source, step_type_source}
use jettison_controller.Flow.Defaulter.{default_trigger, default_step, apply_defaults}
use jettison_controller.Flow.Ready.{Present, TriggerReady, StepReady, with_deadline}
use jettison_controller.Flow.Defaults.{
  Kept, TriggerKept, StepKept, apply_defaults_keeps, apply_defaults_idem,
}
use jettison_controller.Flow.Validator.{validate}
use jettison_controller.Flow.Validator.Laws.{HasEvents, validate_iff}
use jettison_controller.Flow.Processor.{pre_process_flow}
use jettison_controller.Flow.Processor.Laws.{
  GivesEvents, pre_process_flow_accepts, pre_process_flow-eq-ok, pre_process_flow-IsReady,
  pre_process_flow-source,
}

-- No volumes are read.
abbrev pub codec : VolumeCodec
codec = record { volume = λ j. none; volume_mount = λ j. none }

abbrev text : String → Json
text s = string (codes s)

abbrev url : Str
url = codes "https://github.com/jettisonproj/rollouts-demo.git"

abbrev push_trigger : Json
push_trigger = object (
    field (codes "triggerName") (text "github-push") (
      field (codes "triggerSource") (text "GitHubPush") (field (codes "repoUrl") (string url) end)))

abbrev pub publish_step : Json
publish_step = object (
    field (codes "stepName") (text "publish") (
      field (codes "stepSource") (text "DockerBuildTestPublish")
        (field (codes "dockerContextDir") (text "app") end)))

abbrev pub flow : Flow
flow = record {
  name = codes "github-push";
  namespace = codes "rollouts-demo";
  spec = record {
    active_deadline_seconds = none;
    triggers = push_trigger ∷ [];
    steps = publish_step ∷ [];
  };
}

abbrev pub trigger : Trigger
trigger = push (record {
  base = record { trigger_name = codes "github-push"; trigger_source = codes "GitHubPush" };
  repo_url = url;
  base_ref = none;
})

abbrev pub step : Step
step = docker_build_test_publish (record {
  base = record {
    step_name = some (codes "publish");
    step_source = codes "DockerBuildTestPublish";
    depends_on = [];
    volumes = [];
    volume_mounts = [];
  };
  dockerfile_path = none;
  docker_context_dir = some (codes "app");
  artifacts = [];
})

parsed_triggers : parse_triggers flow.spec.triggers ≡ ok (trigger ∷ [])
unfolding parse_triggers into_struct store_base_trigger store_push codes Str-discrete to_lower
parsed_triggers = refl

parsed_steps : parse_steps codec flow.spec.steps ≡ ok (step ∷ [])
unfolding parse_steps into_struct store_base_step store_docker_build_test_publish codes Str-discrete
    to_lower
parsed_steps = refl

abbrev pub triggers' : List Trigger
triggers' = map default_trigger (trigger ∷ [])

abbrev pub steps' : List Step
steps' = map default_step (step ∷ [])

pre_process_flow_accepts_example :
    pre_process_flow codec flow ≡ (with_deadline flow (trigger ∷ []), ok (triggers', steps'))
pre_process_flow_accepts_example =
    pre_process_flow_accepts codec flow (trigger ∷ []) (step ∷ []) parsed_triggers parsed_steps
      (λ h. cc) (λ h. cc) (tt, tt)

pub processed :
    pre_process_flow codec flow ≡ (with_deadline flow (trigger ∷ []), ok (triggers', steps'))
processed =
    pre_process_flow_accepts codec flow (trigger ∷ []) (step ∷ []) parsed_triggers parsed_steps
      (λ h. cc) (λ h. cc) (tt, tt)

pub accepted : (pre_process_flow codec flow).1 ≡ ok (triggers', steps')
accepted = ap (λ r. r.1) processed

pre_process_flow-eq-ok_example :
    (ts : List Trigger) × (ss : List Step) × (parse_triggers flow.spec.triggers ≡ ok ts)
    × (parse_steps codec flow.spec.steps ≡ ok ss)
    × (ts ≢ [])
    × (ss ≢ [])
    × All GivesEvents ts
    × (triggers' ≡ map default_trigger ts)
    × (steps' ≡ map default_step ss)
pre_process_flow-eq-ok_example = pre_process_flow-eq-ok codec flow triggers' steps' accepted

pre_process_flow-IsReady_example :
    (triggers' ≢ [])
    × (steps' ≢ [])
    × All TriggerReady triggers'
    × All StepReady steps'
    × Present (pre_process_flow codec flow).0.spec.active_deadline_seconds
pre_process_flow-IsReady_example = pre_process_flow-IsReady codec flow triggers' steps' accepted

pre_process_flow-source_example :
    All (λ t. get_trigger_source t ≡ trigger_type_source t) triggers'
    × All (λ s. get_step_source s ≡ step_type_source s) steps'
pre_process_flow-source_example = pre_process_flow-source codec flow triggers' steps' accepted

apply_defaults_keeps_example :
    let (f', ts', ss') = apply_defaults flow (trigger ∷ []) (step ∷ []) in
    All₂ TriggerKept (trigger ∷ []) ts'
    × All₂ StepKept (step ∷ []) ss'
    × Kept flow.spec.active_deadline_seconds f'.spec.active_deadline_seconds
    × (f'.spec.triggers ≡ flow.spec.triggers)
    × (f'.spec.steps ≡ flow.spec.steps)
apply_defaults_keeps_example = apply_defaults_keeps flow (trigger ∷ []) (step ∷ [])

apply_defaults_idem_example :
    let (f', ts', ss') = apply_defaults flow (trigger ∷ []) (step ∷ []) in
    apply_defaults f' ts' ss' ≡ (f', ts', ss')
apply_defaults_idem_example = apply_defaults_idem flow (trigger ∷ []) (step ∷ [])

-- The defaults of the flow of the minimal push example: an hour, "main", and the context directory's
-- Dockerfile.
deadline : (pre_process_flow codec flow).0.spec.active_deadline_seconds ≡ some (pos 3600)
deadline = ap (λ r. r.0.spec.active_deadline_seconds) processed

validate_iff_example :
    (validate triggers' steps' ≡ ok tt)
    ↔ ((triggers' ≢ []) × All HasEvents triggers' × (steps' ≢ []))
validate_iff_example = validate_iff triggers' steps'
