-- ===== src/Flow/Defaulter.antt =====
-- flow_defaulter.go, and `ApplyDefaults` of step_types.go. The Go code writes through the pointers;
-- here each function returns the value with its fields set.
use Prim.Native.Nat.{max}
use jettison_controller.Common.{ℕ, List, [], ◌∷◌, ◌++◌, Option, none, some, if◌then◌else◌}
use jettison_controller.Common.Ints.{pos}
use jettison_controller.Text.{Str, codes, slash, ◌==◌}
use jettison_controller.Flow.{
  Trigger, pull_request, push, BaseStepFields, Step, docker_build_test, docker_build_test_publish,
  argo_cd, github_create_pr, Flow,
}

abbrev pub default_active_deadline_seconds_pr : ℕ
default_active_deadline_seconds_pr = 900

abbrev pub default_active_deadline_seconds_push : ℕ
default_active_deadline_seconds_push = 3600

abbrev pub default_base_ref : Str
default_base_ref = codes "main"

abbrev pub default_docker_context_dir : Str
default_docker_context_dir = []

abbrev pub default_dockerfile_path : Str
default_dockerfile_path = codes "Dockerfile"

abbrev pub default_pull_request_events : List Str
default_pull_request_events = codes "opened" ∷ codes "reopened" ∷ codes "synchronize" ∷ []

-- `if p == nil { p = new(d) }`
abbrev pub or_default {ℓ} : {A : Type ℓ} → Option A → A → Option A
or_default none d = some d
or_default (some a) d = some a

-- One round of the loop over the triggers: the trigger, and the deadline that it asks for.
unfoldable pub default_trigger : Trigger → Trigger
default_trigger (pull_request t) = pull_request (record t {
  pull_request_events = or_default t.pull_request_events default_pull_request_events;
})
default_trigger (push t) = push (record t { base_ref = or_default t.base_ref default_base_ref })

pub trigger_deadline : Trigger → ℕ
trigger_deadline (pull_request t) = default_active_deadline_seconds_pr
trigger_deadline (push t) = default_active_deadline_seconds_push

unfoldable pub default_triggers : List Trigger → ℕ → List Trigger × ℕ
unfolding default_trigger trigger_deadline
default_triggers [] deadline = ([], deadline)
default_triggers (t ∷ ts) deadline =
    let (triggers, last) = default_triggers ts (max deadline (trigger_deadline t)) in
    (default_trigger t ∷ triggers, last)

unfoldable pub get_default_dockerfile_path : Str → Str
get_default_dockerfile_path docker_context_dir =
    if docker_context_dir == []
    then default_dockerfile_path
    else docker_context_dir ++ (slash ∷ default_dockerfile_path)

-- `BaseStepFields.ApplyDefaults`
apply_base_defaults : BaseStepFields → BaseStepFields
apply_base_defaults s = record s { step_name = or_default s.step_name s.step_source }

-- The Dockerfile path, from the context directory after its default.
abbrev pub dockerfile_default : Option Str → Option Str → Option Str
dockerfile_default path none =
    or_default path (get_default_dockerfile_path default_docker_context_dir)
dockerfile_default path (some dir) = or_default path (get_default_dockerfile_path dir)

-- One round of the loop over the steps.
unfoldable pub default_step : Step → Step
unfolding apply_base_defaults
default_step (docker_build_test s) = docker_build_test (record s {
  base = apply_base_defaults s.base;
  docker_context_dir = or_default s.docker_context_dir default_docker_context_dir;
  dockerfile_path = dockerfile_default s.dockerfile_path s.docker_context_dir;
})
default_step (docker_build_test_publish s) = docker_build_test_publish (record s {
  base = apply_base_defaults s.base;
  docker_context_dir = or_default s.docker_context_dir default_docker_context_dir;
  dockerfile_path = dockerfile_default s.dockerfile_path s.docker_context_dir;
})
default_step (argo_cd s) = argo_cd (record s {
  base = apply_base_defaults s.base;
  base_ref = or_default s.base_ref default_base_ref;
})
default_step (github_create_pr s) = github_create_pr (record s {
  base = apply_base_defaults s.base;
  base_ref = or_default s.base_ref default_base_ref;
})

unfoldable pub default_steps : List Step → List Step
unfolding default_step
default_steps [] = []
default_steps (s ∷ ss) = default_step s ∷ default_steps ss

-- The flow, its triggers and its steps after `applyDefaults`. Its error branches are for types
-- that no trigger and no step has.
unfoldable pub apply_defaults : Flow → List Trigger → List Step → Flow × List Trigger × List Step
unfolding default_triggers default_steps get_default_dockerfile_path
apply_defaults f triggers steps =
    let (triggers', deadline) = default_triggers triggers default_active_deadline_seconds_pr in
    let spec = record f.spec {
      active_deadline_seconds = or_default f.spec.active_deadline_seconds (pos deadline);
    } in
    (record f { spec = spec }, triggers', default_steps steps)
