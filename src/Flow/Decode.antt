-- ===== src/Flow/Decode.antt =====
-- The json tags of step_types.go and trigger_types.go: which key is stored in which field.
use jettison_controller.Common.{List, [], Option, none, some, if◌then◌else◌}
use jettison_controller.Text.{Str, codes}
use jettison_controller.Json.{
  Json, is_key, into_string, into_pointer, into_flag, into_slice, into_struct,
}
use jettison_controller.Flow.{
  Volume, VolumeMount, BaseTriggerFields, GitHubPullRequestTrigger, GitHubPushTrigger,
  BaseStepFields, DockerBuildArtifact, DockerBuildTestStep, DockerBuildTestPublishStep, ArgoCdStep,
  GitHubCreatePrStep,
}

-- A value that was read is put in its field.
abbrev pub put {ℓ} : {A : Type ℓ} {S : Type 0} → Option A → (A → S) → Option S
put none f = none
put (some a) f = some (f a)

-- A nil slice has no elements.
abbrev pub elements {ℓ} : {A : Type ℓ} → Option (List A) → List A
elements none = []
elements (some xs) = xs

abbrev string_element : Json → Option Str
string_element j = into_string j []

abbrev pub zero_base_trigger : BaseTriggerFields
zero_base_trigger = record { trigger_name = []; trigger_source = [] }

unfoldable pub store_base_trigger : Str → Json → BaseTriggerFields → Option BaseTriggerFields
store_base_trigger key j t =
    if is_key (codes "triggerName") key
    then put (into_string j t.trigger_name) (λ v. record t { trigger_name = v })
    else if is_key (codes "triggerSource") key
    then put (into_string j t.trigger_source) (λ v. record t { trigger_source = v })
    else some t

unfoldable pub store_pull_request :
    Str → Json → GitHubPullRequestTrigger → Option GitHubPullRequestTrigger
store_pull_request key j t =
    if is_key (codes "repoUrl") key
    then put (into_string j t.repo_url) (λ v. record t { repo_url = v })
    else if is_key (codes "pullRequestEvents") key
    then put (into_slice string_element j) (λ v. record t { pull_request_events = v })
    else put (store_base_trigger key j t.base) (λ b. record t { base = b })

unfoldable pub store_push : Str → Json → GitHubPushTrigger → Option GitHubPushTrigger
store_push key j t =
    if is_key (codes "repoUrl") key
    then put (into_string j t.repo_url) (λ v. record t { repo_url = v })
    else if is_key (codes "baseRef") key
    then put (into_pointer j) (λ v. record t { base_ref = v })
    else put (store_base_trigger key j t.base) (λ b. record t { base = b })

abbrev zero_artifact : DockerBuildArtifact
zero_artifact = record { path = []; key = []; optional = none }

unfoldable pub store_artifact : Str → Json → DockerBuildArtifact → Option DockerBuildArtifact
store_artifact key j a =
    if is_key (codes "path") key
    then put (into_string j a.path) (λ v. record a { path = v })
    else if is_key (codes "key") key
    then put (into_string j a.key) (λ v. record a { key = v })
    else if is_key (codes "optional") key
    then put (into_flag j) (λ v. record a { optional = v })
    else some a

abbrev artifact_element : Json → Option DockerBuildArtifact
artifact_element j = into_struct store_artifact j zero_artifact

-- How the Kubernetes types are read is not part of the program.
pub record VolumeCodec : Type 0 where
  pub volume : Json → Option Volume
  pub volume_mount : Json → Option VolumeMount

abbrev pub zero_base_step : BaseStepFields
zero_base_step = record {
  step_name = none;
  step_source = [];
  depends_on = [];
  volumes = [];
  volume_mounts = [];
}

module _ (codec : VolumeCodec) where
  unfoldable pub store_base_step : Str → Json → BaseStepFields → Option BaseStepFields
  store_base_step key j s =
      if is_key (codes "stepName") key
      then put (into_pointer j) (λ v. record s { step_name = v })
      else if is_key (codes "stepSource") key
      then put (into_string j s.step_source) (λ v. record s { step_source = v })
      else if is_key (codes "dependsOn") key
      then put (into_slice string_element j) (λ v. record s { depends_on = elements v })
      else if is_key (codes "volumes") key
      then put (into_slice codec.volume j) (λ v. record s { volumes = elements v })
      else if is_key (codes "volumeMounts") key
      then put (into_slice codec.volume_mount j) (λ v. record s { volume_mounts = elements v })
      else some s

  unfoldable pub store_docker_build_test :
      Str → Json → DockerBuildTestStep → Option DockerBuildTestStep
  store_docker_build_test key j s =
      if is_key (codes "dockerfilePath") key
      then put (into_pointer j) (λ v. record s { dockerfile_path = v })
      else if is_key (codes "dockerContextDir") key
      then put (into_pointer j) (λ v. record s { docker_context_dir = v })
      else if is_key (codes "artifacts") key
      then put (into_slice artifact_element j) (λ v. record s { artifacts = elements v })
      else put (store_base_step key j s.base) (λ b. record s { base = b })

  unfoldable pub store_docker_build_test_publish :
      Str → Json → DockerBuildTestPublishStep → Option DockerBuildTestPublishStep
  store_docker_build_test_publish key j s =
      if is_key (codes "dockerfilePath") key
      then put (into_pointer j) (λ v. record s { dockerfile_path = v })
      else if is_key (codes "dockerContextDir") key
      then put (into_pointer j) (λ v. record s { docker_context_dir = v })
      else if is_key (codes "artifacts") key
      then put (into_slice artifact_element j) (λ v. record s { artifacts = elements v })
      else put (store_base_step key j s.base) (λ b. record s { base = b })

  unfoldable pub store_argo_cd : Str → Json → ArgoCdStep → Option ArgoCdStep
  store_argo_cd key j s =
      if is_key (codes "repoUrl") key
      then put (into_string j s.repo_url) (λ v. record s { repo_url = v })
      else if is_key (codes "repoPath") key
      then put (into_string j s.repo_path) (λ v. record s { repo_path = v })
      else if is_key (codes "baseRef") key
      then put (into_pointer j) (λ v. record s { base_ref = v })
      else if is_key (codes "pauseReason") key
      then put (into_pointer j) (λ v. record s { pause_reason = v })
      else put (store_base_step key j s.base) (λ b. record s { base = b })

  unfoldable pub store_github_create_pr :
      Str → Json → GitHubCreatePrStep → Option GitHubCreatePrStep
  store_github_create_pr key j s =
      if is_key (codes "repoUrl") key
      then put (into_string j s.repo_url) (λ v. record s { repo_url = v })
      else if is_key (codes "baseRef") key
      then put (into_pointer j) (λ v. record s { base_ref = v })
      else if is_key (codes "filePaths") key
      then put (into_slice string_element j) (λ v. record s { file_paths = elements v })
      else put (store_base_step key j s.base) (λ b. record s { base = b })
