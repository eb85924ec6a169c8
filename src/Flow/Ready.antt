-- ===== src/Flow/Ready.antt =====
-- What `PreProcessFlow` guarantees to the builders, and which flows it accepts.
use Prim.Native.Nat.{max}
use jettison_controller.Common.{
  ℕ, ◌≡◌, ◌≢◌, refl, ap, Bool, true, false, List, [], ◌∷◌, Option, none, some, arith, All, map, ◌≤◌,
  if◌then◌else◌,
}
use jettison_controller.Common.Ints.{pos}
use jettison_controller.Text.{Str}
use jettison_controller.Flow.{
  Trigger, pull_request, push, Step, docker_build_test, docker_build_test_publish, argo_cd,
  github_create_pr, Flow,
}
use jettison_controller.Flow.Decode.{elements}
use jettison_controller.Flow.Defaulter.{
  or_default, dockerfile_default, default_trigger, default_active_deadline_seconds_pr,
  default_active_deadline_seconds_push, default_triggers, default_step, default_steps,
  apply_defaults,
}

-- A pointer that may be followed.
abbrev pub Present {ℓ} : {A : Type ℓ} → Option A → Type ℓ
Present {A} o = (a : A) × (o ≡ some a)

-- The optional fields that the builders read without a test are set.
abbrev pub TriggerReady : Trigger → Type 0
TriggerReady (pull_request t) = elements t.pull_request_events ≢ []
TriggerReady (push t) = Present t.base_ref

abbrev pub StepReady : Step → Type 0
StepReady (docker_build_test s) =
    Present s.base.step_name × Present s.dockerfile_path × Present s.docker_context_dir
StepReady (docker_build_test_publish s) =
    Present s.base.step_name × Present s.dockerfile_path × Present s.docker_context_dir
StepReady (argo_cd s) = Present s.base.step_name × Present s.base_ref
StepReady (github_create_pr s) = Present s.base.step_name × Present s.base_ref

pub or_default-Present {ℓ} : {A : Type ℓ} (o : Option A) (d : A) → Present (or_default o d)
or_default-Present none d = (d, refl)
or_default-Present (some a) d = (a, refl)

dockerfile_default-Present : (path dir : Option Str) → Present (dockerfile_default path dir)
dockerfile_default-Present path none = or_default-Present path _
dockerfile_default-Present path (some dir) = or_default-Present path _

pub default_step-StepReady : (s : Step) → StepReady (default_step s)
unfolding default_step
default_step-StepReady (docker_build_test s) = (
  or_default-Present _ _,
  dockerfile_default-Present _ s.docker_context_dir,
  or_default-Present _ _,
)
default_step-StepReady (docker_build_test_publish s) = (
  or_default-Present _ _,
  dockerfile_default-Present _ s.docker_context_dir,
  or_default-Present _ _,
)
default_step-StepReady (argo_cd s) = (or_default-Present _ _, or_default-Present _ _)
default_step-StepReady (github_create_pr s) = (or_default-Present _ _, or_default-Present _ _)

default_steps-StepReady : (ss : List Step) → All StepReady (default_steps ss)
unfolding default_steps
default_steps-StepReady [] = tt
default_steps-StepReady (s ∷ ss) = (default_step-StepReady s, default_steps-StepReady ss)

-- Whether a flow runs on pushes.
abbrev pub has_push : List Trigger → Bool
has_push [] = false
has_push (pull_request _ ∷ ts) = has_push ts
has_push (push _ ∷ ts) = true

-- The deadline that a flow gets if it gives none.
abbrev pub default_deadline : List Trigger → ℕ
default_deadline ts =
    if has_push ts then default_active_deadline_seconds_push else default_active_deadline_seconds_pr

default_triggers_lem :
    (ts : List Trigger) (d : ℕ)
    → default_active_deadline_seconds_pr ≤ d
    → d ≤ default_active_deadline_seconds_push
    → ((default_triggers ts d).0 ≡ map default_trigger ts)
      × ((default_triggers ts d).1
          ≡ (if has_push ts then default_active_deadline_seconds_push else d))
unfolding default_triggers
default_triggers_lem [] d h k = (refl, refl)
default_triggers_lem (pull_request t ∷ ts) d h k =
    let ih = default_triggers_lem ts (max d 900) (omega arith) (omega arith) in
    (ap (λ r. default_trigger (pull_request t) ∷ r) ih.0, ground (arith, ih.1))
default_triggers_lem (push t ∷ ts) d h k =
    let ih = default_triggers_lem ts (max d 3600) (omega arith) (omega arith) in
    (ap (λ r. default_trigger (push t) ∷ r) ih.0, ground (arith, ih.1))

default_steps-map : (ss : List Step) → default_steps ss ≡ map default_step ss
unfolding default_steps
default_steps-map [] = refl
default_steps-map (s ∷ ss) = ap (λ r. default_step s ∷ r) (default_steps-map ss)

-- The flow with its deadline.
abbrev pub with_deadline : Flow → List Trigger → Flow
with_deadline f ts =
    let spec = record f.spec {
      active_deadline_seconds =
          or_default f.spec.active_deadline_seconds (pos (default_deadline ts));
    } in
    record f { spec = spec }

-- `applyDefaults` sets each trigger, each step and the deadline on its own.
pub apply_defaults_lem :
    (f : Flow) (ts : List Trigger) (ss : List Step)
    → apply_defaults f ts ss ≡ (with_deadline f ts, map default_trigger ts, map default_step ss)
unfolding apply_defaults
apply_defaults_lem f ts ss =
    let (triggers, deadline) = default_triggers_lem ts 900 (omega arith) (omega arith) in
    rw (triggers, deadline, default_steps-map ss)
