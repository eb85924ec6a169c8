-- ===== src/Flow/Defaults.antt =====
-- Defaults fill what is missing, keep what is given, and change nothing the second time.
use jettison_controller.Common.{◌≡◌, refl, ◌∙◌, List, [], ◌∷◌, map, Option, none, some, arith, All₂}
use jettison_controller.Text.{Str}
use jettison_controller.Flow.{
  Trigger, pull_request, push, BaseStepFields, Step, docker_build_test, docker_build_test_publish,
  argo_cd, github_create_pr, Flow,
}
use jettison_controller.Flow.Defaulter.{
  or_default, dockerfile_default, default_trigger, default_step, apply_defaults,
}
use jettison_controller.Flow.Ready.{with_deadline, apply_defaults_lem}

-- A value that is given stays.
abbrev pub Kept {ℓ} : {A : Type ℓ} → Option A → Option A → Type ℓ
Kept {A} old new = (a : A) → old ≡ some a → new ≡ some a

abbrev pub BaseKept : BaseStepFields → BaseStepFields → Type 0
BaseKept s s' =
    Kept s.step_name s'.step_name
    × (s'.step_source ≡ s.step_source)
    × (s'.depends_on ≡ s.depends_on)
    × (s'.volumes ≡ s.volumes)
    × (s'.volume_mounts ≡ s.volume_mounts)

abbrev pub TriggerKept : Trigger → Trigger → Type 0
TriggerKept (pull_request t) (pull_request t') =
    (t'.base ≡ t.base)
    × (t'.repo_url ≡ t.repo_url)
    × Kept t.pull_request_events t'.pull_request_events
TriggerKept (push t) (push t') =
    (t'.base ≡ t.base) × (t'.repo_url ≡ t.repo_url) × Kept t.base_ref t'.base_ref
TriggerKept _ _ = ⊥

abbrev pub StepKept : Step → Step → Type 0
StepKept (docker_build_test s) (docker_build_test s') =
    BaseKept s.base s'.base
    × Kept s.dockerfile_path s'.dockerfile_path
    × Kept s.docker_context_dir s'.docker_context_dir
    × (s'.artifacts ≡ s.artifacts)
StepKept (docker_build_test_publish s) (docker_build_test_publish s') =
    BaseKept s.base s'.base
    × Kept s.dockerfile_path s'.dockerfile_path
    × Kept s.docker_context_dir s'.docker_context_dir
    × (s'.artifacts ≡ s.artifacts)
StepKept (argo_cd s) (argo_cd s') =
    BaseKept s.base s'.base
    × (s'.repo_url ≡ s.repo_url)
    × (s'.repo_path ≡ s.repo_path)
    × Kept s.base_ref s'.base_ref
    × (s'.pause_reason ≡ s.pause_reason)
StepKept (github_create_pr s) (github_create_pr s') =
    BaseKept s.base s'.base
    × (s'.repo_url ≡ s.repo_url)
    × Kept s.base_ref s'.base_ref
    × (s'.file_paths ≡ s.file_paths)
StepKept _ _ = ⊥

or_default-Kept {ℓ} : {A : Type ℓ} (o : Option A) (d : A) → Kept o (or_default o d)
or_default-Kept none d a e = cc
or_default-Kept (some b) d a e = e

dockerfile_default-Kept : (path dir : Option Str) → Kept path (dockerfile_default path dir)
dockerfile_default-Kept path none = or_default-Kept path _
dockerfile_default-Kept path (some dir) = or_default-Kept path _

default_trigger-TriggerKept : (t : Trigger) → TriggerKept t (default_trigger t)
unfolding default_trigger
default_trigger-TriggerKept (pull_request t) = (refl, refl, or_default-Kept t.pull_request_events _)
default_trigger-TriggerKept (push t) = (refl, refl, or_default-Kept t.base_ref _)

default_step-StepKept : (s : Step) → StepKept s (default_step s)
unfolding default_step
default_step-StepKept (docker_build_test s) = (
  (or_default-Kept _ _, refl, refl, refl, refl),
  dockerfile_default-Kept _ s.docker_context_dir,
  or_default-Kept _ _,
  refl,
)
default_step-StepKept (docker_build_test_publish s) = (
  (or_default-Kept _ _, refl, refl, refl, refl),
  dockerfile_default-Kept _ s.docker_context_dir,
  or_default-Kept _ _,
  refl,
)
default_step-StepKept (argo_cd s) =
    ((or_default-Kept _ _, refl, refl, refl, refl), refl, refl, or_default-Kept _ _, refl)
default_step-StepKept (github_create_pr s) =
    ((or_default-Kept _ _, refl, refl, refl, refl), refl, or_default-Kept _ _, refl)

All₂-map {ℓ} :
    {A : Type ℓ} (R : A → A → Type 0) (f : A → A)
    → ((a : A) → R a (f a))
    → (xs : List A) → All₂ R xs (map f xs)
All₂-map R f h [] = tt
All₂-map R f h (x ∷ xs) = (h x, All₂-map R f h xs)

map_idem {ℓ} :
    {A : Type ℓ} (f : A → A)
    → ((a : A) → f (f a) ≡ f a)
    → (xs : List A) → map f (map f xs) ≡ map f xs
map_idem f h [] = refl
map_idem f h (x ∷ xs) = cc (h x, map_idem f h xs)

default_trigger_idem : (t : Trigger) → default_trigger (default_trigger t) ≡ default_trigger t
unfolding default_trigger
default_trigger_idem (pull_request t) = ground arith
default_trigger_idem (push t) = ground arith

default_step_idem : (s : Step) → default_step (default_step s) ≡ default_step s
unfolding default_step
default_step_idem (docker_build_test s) = ground arith
default_step_idem (docker_build_test_publish s) = ground arith
default_step_idem (argo_cd s) = ground arith
default_step_idem (github_create_pr s) = ground arith

with_deadline_idem :
    (f : Flow) (ts ts' : List Trigger) → with_deadline (with_deadline f ts) ts' ≡ with_deadline f ts
with_deadline_idem f ts ts' = ground arith

-- Defaults keep every value that the flow gives, and the order and the type of its triggers and
-- steps.
pub apply_defaults_keeps :
    (f : Flow) (ts : List Trigger) (ss : List Step)
    → let (f', ts', ss') = apply_defaults f ts ss in
      All₂ TriggerKept ts ts'
      × All₂ StepKept ss ss'
      × Kept f.spec.active_deadline_seconds f'.spec.active_deadline_seconds
      × (f'.spec.triggers ≡ f.spec.triggers)
      × (f'.spec.steps ≡ f.spec.steps)
apply_defaults_keeps f ts ss = rw (apply_defaults_lem f ts ss) (
  All₂-map TriggerKept default_trigger default_trigger-TriggerKept ts,
  All₂-map StepKept default_step default_step-StepKept ss,
  or_default-Kept f.spec.active_deadline_seconds _,
  refl,
  refl,
)

-- Applying the defaults to their own result changes nothing.
pub apply_defaults_idem :
    (f : Flow) (ts : List Trigger) (ss : List Step)
    → let (f', ts', ss') = apply_defaults f ts ss in apply_defaults f' ts' ss' ≡ (f', ts', ss')
apply_defaults_idem f ts ss = rw (apply_defaults_lem f ts ss) (
    apply_defaults_lem (with_deadline f ts) (map default_trigger ts) (map default_step ss)
    ∙ rw
        (
          map_idem default_trigger default_trigger_idem ts,
          map_idem default_step default_step_idem ss,
        )
        (cc (with_deadline_idem f ts (map default_trigger ts))))
