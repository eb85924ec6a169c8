-- ===== src/Flow.antt =====
-- api/v1alpha1: the Flow resource, its triggers and its steps, as Go structs. A pointer, and a slice
-- that the code compares with nil, is an Option. A step and a trigger are a Go interface value that
-- holds a pointer to one of the structs.
pub mod Decode
pub mod Parser
pub mod Defaulter
pub mod Validator
pub mod Processor
pub mod Defaults
pub mod Ready
pub mod Tests
use jettison_controller.Common.{Bool, List, Option, none, some}
use jettison_controller.Common.Ints.{ℤ}
use jettison_controller.Common.Results.{Result, ok, panic}
use jettison_controller.Text.{Str}
use jettison_controller.Json.{Json}

-- `corev1.Volume` and `corev1.VolumeMount`, with the fields that the program writes. What else a
-- flow may give is kept as it is.
pub data VolumeSource : Type 0 where
  empty_dir : VolumeSource
  secret : Str → VolumeSource
  persistent_volume_claim : Str → VolumeSource
  other_source : Json → VolumeSource

pub record Volume : Type 0 where
  pub name : Str
  pub source : VolumeSource

pub record VolumeMount : Type 0 where
  pub name : Str
  pub mount_path : Str
  pub options : Option Json

pub record BaseTriggerFields : Type 0 where
  pub trigger_name : Str
  pub trigger_source : Str

pub record GitHubPullRequestTrigger : Type 0 where
  pub base : BaseTriggerFields
  pub repo_url : Str
  pub pull_request_events : Option (List Str)

pub record GitHubPushTrigger : Type 0 where
  pub base : BaseTriggerFields
  pub repo_url : Str
  pub base_ref : Option Str

-- `BaseTrigger`
pub data Trigger : Type 0 where
  pull_request : GitHubPullRequestTrigger → Trigger
  push : GitHubPushTrigger → Trigger

pub record BaseStepFields : Type 0 where
  pub step_name : Option Str
  pub step_source : Str
  pub depends_on : List Str
  pub volumes : List Volume
  pub volume_mounts : List VolumeMount

pub record DockerBuildArtifact : Type 0 where
  pub path : Str
  pub key : Str
  pub optional : Option Bool

pub record DockerBuildTestStep : Type 0 where
  pub base : BaseStepFields
  pub dockerfile_path : Option Str
  pub docker_context_dir : Option Str
  pub artifacts : List DockerBuildArtifact

pub record DockerBuildTestPublishStep : Type 0 where
  pub base : BaseStepFields
  pub dockerfile_path : Option Str
  pub docker_context_dir : Option Str
  pub artifacts : List DockerBuildArtifact

pub record ArgoCdStep : Type 0 where
  pub base : BaseStepFields
  pub repo_url : Str
  pub repo_path : Str
  pub base_ref : Option Str
  pub pause_reason : Option Str

pub record GitHubCreatePrStep : Type 0 where
  pub base : BaseStepFields
  pub repo_url : Str
  pub base_ref : Option Str
  pub file_paths : List Str

-- `BaseStep`
pub data Step : Type 0 where
  docker_build_test : DockerBuildTestStep → Step
  docker_build_test_publish : DockerBuildTestPublishStep → Step
  argo_cd : ArgoCdStep → Step
  github_create_pr : GitHubCreatePrStep → Step

pub record FlowSpec : Type 0 where
  pub active_deadline_seconds : Option ℤ
  pub triggers : List Json
  pub steps : List Json

-- The metadata that the builders read, and the specification.
pub record Flow : Type 0 where
  pub name : Str
  pub namespace : Str
  pub spec : FlowSpec

abbrev pub trigger_base : Trigger → BaseTriggerFields
trigger_base (pull_request t) = t.base
trigger_base (push t) = t.base

abbrev pub step_base : Step → BaseStepFields
step_base (docker_build_test s) = s.base
step_base (docker_build_test_publish s) = s.base
step_base (argo_cd s) = s.base
step_base (github_create_pr s) = s.base

-- `*p` panics on a nil pointer.
abbrev pub deref {ℓ} : {E : Type 0} {A : Type ℓ} → Option A → Result E A
deref none = panic
deref (some a) = ok a

abbrev pub get_step_name : {E : Type 0} → Step → Result E Str
get_step_name s = deref (step_base s).step_name

abbrev pub get_step_source : Step → Str
get_step_source s = (step_base s).step_source

abbrev pub get_depends_on : Step → List Str
get_depends_on s = (step_base s).depends_on

abbrev pub get_trigger_source : Trigger → Str
get_trigger_source t = (trigger_base t).trigger_source
