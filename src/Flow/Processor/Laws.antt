-- ===== src/Flow/Processor/Laws.antt =====
-- Which flows `PreProcessFlow` accepts, and what it makes of them.
use jettison_controller.Common.{◌≡◌, ◌≢◌, refl, ap, List, [], ◌∷◌, map, some, arith, All}
use jettison_controller.Common.Results.{ok, wrap, ◌>>=◌}
use jettison_controller.Flow.{
  Trigger, pull_request, push, Step, Flow, get_step_source, get_trigger_source, docker_build_test,
  docker_build_test_publish, argo_cd, github_create_pr,
}
use jettison_controller.Flow.Decode.{VolumeCodec}
use jettison_controller.Flow.Parser.{parse_triggers, parse_steps}
use jettison_controller.Flow.Parser.Source.{
  step_type_source, trigger_type_source, parse_steps-source, parse_triggers-source,
}
use jettison_controller.Flow.Defaulter.{default_trigger, default_step}
use jettison_controller.Flow.Validator.{validate}
use jettison_controller.Flow.Validator.Laws.{HasEvents, validate_iff}
use jettison_controller.Flow.Ready.{
  Present, TriggerReady, StepReady, default_step-StepReady, or_default-Present, with_deadline,
  apply_defaults_lem,
}
use jettison_controller.Flow.Processor.{validation_failed, default_and_validate, pre_process_flow}

-- A pull request trigger does not give an empty list of events.
abbrev pub GivesEvents : Trigger → Type 0
GivesEvents (pull_request t) = t.pull_request_events ≢ some []
GivesEvents (push t) = Unit

default_trigger-HasEvents : (t : Trigger) → GivesEvents t → HasEvents (default_trigger t)
unfolding default_trigger
default_trigger-HasEvents (pull_request t) h = ground arith
default_trigger-HasEvents (push t) h = tt

default_trigger-GivesEvents : (t : Trigger) → HasEvents (default_trigger t) → GivesEvents t
unfolding default_trigger
default_trigger-GivesEvents (pull_request t) h = ground arith
default_trigger-GivesEvents (push t) h = tt

default_trigger-TriggerReady :
    (t : Trigger) → HasEvents (default_trigger t) → TriggerReady (default_trigger t)
unfolding default_trigger
default_trigger-TriggerReady (pull_request t) h = h
default_trigger-TriggerReady (push t) h = or_default-Present t.base_ref _

module _ {ℓ κ} {A : Type ℓ} {B : Type κ} (f : A → B) (P : A → Type 0) (Q : B → Type 0) where
  All-map : ((a : A) → P a → Q (f a)) → (xs : List A) → All P xs → All Q (map f xs)
  All-map h [] _ = tt
  All-map h (x ∷ xs) (p, ps) = (h x p, All-map h xs ps)

  All-of_map : ((a : A) → Q (f a) → P a) → (xs : List A) → All Q (map f xs) → All P xs
  All-of_map h [] _ = tt
  All-of_map h (x ∷ xs) (p, ps) = (h x p, All-of_map h xs ps)

map-ne-nil {ℓ κ} : {A : Type ℓ} {B : Type κ} (f : A → B) (xs : List A) → xs ≢ [] → map f xs ≢ []
map-ne-nil f [] h = absurd (h refl)
map-ne-nil f (x ∷ xs) h = λ e. cc

map-eq-nil {ℓ κ} : {A : Type ℓ} {B : Type κ} (f : A → B) (xs : List A) → map f xs ≢ [] → xs ≢ []
map-eq-nil f [] h = absurd (h refl)
map-eq-nil f (x ∷ xs) h = λ e. cc

All-Unit {ℓ} : {A : Type ℓ} (xs : List A) → All (λ _. Unit {0}) xs
All-Unit [] = tt
All-Unit (x ∷ xs) = (tt, All-Unit xs)

default_trigger-source :
    (t : Trigger)
    → get_trigger_source t ≡ trigger_type_source t
    → get_trigger_source (default_trigger t) ≡ trigger_type_source (default_trigger t)
unfolding default_trigger
default_trigger-source (pull_request t) h = h
default_trigger-source (push t) h = h

default_step-source :
    (s : Step)
    → get_step_source s ≡ step_type_source s
    → get_step_source (default_step s) ≡ step_type_source (default_step s)
unfolding default_step
default_step-source (docker_build_test s) h = h
default_step-source (docker_build_test_publish s) h = h
default_step-source (argo_cd s) h = h
default_step-source (github_create_pr s) h = h

module _ (codec : VolumeCodec) (f : Flow) where
  default_and_validate_lem :
      (ts : List Trigger) (ss : List Step)
      → default_and_validate codec f ts ss ≡ (
        with_deadline f ts,
        wrap validation_failed (validate (map default_trigger ts) (map default_step ss)) >>= λ _.
            ok (map default_trigger ts, map default_step ss),
      )
  unfolding default_and_validate
  default_and_validate_lem ts ss = rw apply_defaults_lem

  -- If the trigger and the step messages of a flow are read, there are triggers and steps, and no
  -- pull request trigger gives an empty list of events, then preprocessing succeeds. It sets the
  -- deadline of the flow when it has none, to the greatest of its triggers' defaults, and it
  -- returns the triggers and the steps with their defaults, in the order of the messages.
  pub pre_process_flow_accepts :
      (ts : List Trigger) (ss : List Step)
      → parse_triggers f.spec.triggers ≡ ok ts
      → parse_steps codec f.spec.steps ≡ ok ss
      → ts ≢ []
      → ss ≢ []
      → All GivesEvents ts
      → pre_process_flow codec f
        ≡ (with_deadline f ts, ok (map default_trigger ts, map default_step ss))
  unfolding pre_process_flow
  pre_process_flow_accepts ts ss parsed_ts parsed_ss some_ts some_ss events =
      let events' =
        All-map default_trigger GivesEvents HasEvents default_trigger-HasEvents ts events in
      let valid =
        (validate_iff (map default_trigger ts) (map default_step ss)).1
          (map-ne-nil default_trigger ts some_ts, events', map-ne-nil default_step ss some_ss) in
      rw (parsed_ts, pre_process_flow, parsed_ss, default_and_validate_lem ts ss, valid)

  validated :
      (ts : List Trigger) (ss : List Step) (result : List Trigger × List Step)
      → (default_and_validate codec f ts ss).1 ≡ ok result
      → (validate (map default_trigger ts) (map default_step ss) ≡ ok tt)
        × (result ≡ (map default_trigger ts, map default_step ss))
  validated ts ss result h = ground (arith, default_and_validate_lem ts ss)

  pre_process_flow-parsed :
      (result : List Trigger × List Step)
      → (pre_process_flow codec f).1 ≡ ok result
      → (ts : List Trigger) × (ss : List Step) × (parse_triggers f.spec.triggers ≡ ok ts)
        × (parse_steps codec f.spec.steps ≡ ok ss)
        × ((default_and_validate codec f ts ss).1 ≡ ok result)
  unfolding pre_process_flow
  pre_process_flow-parsed result h = ground arith

  -- If preprocessing succeeds, then both lists of messages are read, they are not empty, no pull
  -- request trigger among the read ones gives an empty list of events, and the result is the read
  -- triggers and steps with their defaults.
  pub pre_process_flow-eq-ok :
      (ts' : List Trigger) (ss' : List Step)
      → (pre_process_flow codec f).1 ≡ ok (ts', ss')
      → (ts : List Trigger) × (ss : List Step) × (parse_triggers f.spec.triggers ≡ ok ts)
        × (parse_steps codec f.spec.steps ≡ ok ss)
        × (ts ≢ [])
        × (ss ≢ [])
        × All GivesEvents ts
        × (ts' ≡ map default_trigger ts)
        × (ss' ≡ map default_step ss)
  pre_process_flow-eq-ok ts' ss' h =
      let (ts, ss, parsed_ts, parsed_ss, done) = pre_process_flow-parsed (ts', ss') h in
      let (valid, result) = validated ts ss (ts', ss') done in
      let (some_ts, events, some_ss) = (validate_iff _ _).0 valid in
      (
        ts,
        ss,
        parsed_ts,
        parsed_ss,
        map-eq-nil default_trigger ts some_ts,
        map-eq-nil default_step ss some_ss,
        All-of_map default_trigger GivesEvents HasEvents default_trigger-GivesEvents ts events,
        ap (λ r. r.0) result,
        ap (λ r. r.1) result,
      )

  -- If preprocessing succeeds, what the builders rely on holds: there is a trigger and a step,
  -- the pointers that they follow without a test are set, each pull request trigger has events,
  -- and the deadline of the flow is set.
  pub pre_process_flow-IsReady :
      (ts : List Trigger) (ss : List Step)
      → (pre_process_flow codec f).1 ≡ ok (ts, ss)
      → (ts ≢ [])
        × (ss ≢ [])
        × All TriggerReady ts
        × All StepReady ss
        × Present (pre_process_flow codec f).0.spec.active_deadline_seconds
  pre_process_flow-IsReady ts ss h =
      let (ts₀, ss₀, parsed_ts, parsed_ss, some_ts, some_ss, events, same_ts, same_ss) =
        pre_process_flow-eq-ok ts ss h in
      let accepted = pre_process_flow_accepts ts₀ ss₀ parsed_ts parsed_ss some_ts some_ss events in
      rw (accepted, same_ts, same_ss)
        (
          map-ne-nil default_trigger ts₀ some_ts,
          map-ne-nil default_step ss₀ some_ss,
          All-map default_trigger GivesEvents TriggerReady
              (λ t e. default_trigger-TriggerReady t (default_trigger-HasEvents t e)) ts₀ events,
          All-map default_step (λ _. Unit) StepReady (λ s _. default_step-StepReady s) ss₀
              (All-Unit ss₀),
          or_default-Present f.spec.active_deadline_seconds _,
        )

  -- If preprocessing succeeds, the source that each trigger and each step names is that of its
  -- type, so that a switch on the type and one on the source agree.
  pub pre_process_flow-source :
      (ts : List Trigger) (ss : List Step)
      → (pre_process_flow codec f).1 ≡ ok (ts, ss)
      → All (λ t. get_trigger_source t ≡ trigger_type_source t) ts
        × All (λ s. get_step_source s ≡ step_type_source s) ss
  pre_process_flow-source ts ss h =
      let (ts₀, ss₀, parsed_ts, parsed_ss, _, _, _, same_ts, same_ss) =
        pre_process_flow-eq-ok ts ss h in
      rw (same_ts, same_ss)
        (
          All-map default_trigger _ _ default_trigger-source ts₀
              (parse_triggers-source _ ts₀ parsed_ts),
          All-map default_step _ _ default_step-source ss₀
              (parse_steps-source codec _ ss₀ parsed_ss),
        )
