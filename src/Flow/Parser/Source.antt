-- ===== src/Flow/Parser/Source.antt =====
-- Which struct a message becomes: the source that a parsed step or trigger names is that of its type.
use jettison_controller.Common.{
  ◌≡◌, ◌∙◌, sym, none, ap, List, [], ◌∷◌, Option, some, arith, All, length, length-map, ◌≢◌,
  if◌then◌else◌,
}
use jettison_controller.Text.{Str, codes, to_lower}
use jettison_controller.Json.{Json, is_key, into_string, into_struct}
use jettison_controller.Json.Laws.{into_struct-inner}
use jettison_controller.Common.Results.{ok, >>=-eq-ok, ok-injective}
use jettison_controller.Flow.{
  BaseTriggerFields, GitHubPullRequestTrigger, GitHubPushTrigger, Trigger, pull_request, push,
  BaseStepFields, DockerBuildTestStep, DockerBuildTestPublishStep, ArgoCdStep, GitHubCreatePrStep,
  Step, docker_build_test, docker_build_test_publish, argo_cd, github_create_pr, get_trigger_source,
  get_step_source,
}
use jettison_controller.Flow.Decode.{
  VolumeCodec, zero_base_trigger, zero_base_step, store_base_trigger, store_pull_request,
  store_push, store_base_step, store_docker_build_test, store_docker_build_test_publish,
  store_argo_cd, store_github_create_pr,
}
use jettison_controller.Flow.Parser.{
  github_pull_request_trigger_source, github_push_trigger_source, docker_build_test_step_source,
  docker_build_test_publish_step_source, argo_cd_step_source, github_create_pr_step_source,
  unmarshal_trigger, unmarshal_base_trigger, parse_trigger, unmarshal_step, unmarshal_base_step,
  parse_step, parse_triggers, parse_steps, or_error, base_trigger_failed, base_step_failed,
}

-- The source that goes with the type of a step.
abbrev pub step_type_source : Step → Str
step_type_source (docker_build_test _) = docker_build_test_step_source
step_type_source (docker_build_test_publish _) = docker_build_test_publish_step_source
step_type_source (argo_cd _) = argo_cd_step_source
step_type_source (github_create_pr _) = github_create_pr_step_source

abbrev pub trigger_type_source : Trigger → Str
trigger_type_source (pull_request _) = github_pull_request_trigger_source
trigger_type_source (push _) = github_push_trigger_source

-- What a message stores under one key, and under no other.
abbrev store_source : Str → Str → Json → Str → Option Str
store_source name key j s = if is_key name key then into_string j s else some s

-- Names of different lengths are different keys.
ne_of_length : (name other : Str) → length name ≢ length other → to_lower name ≢ to_lower other
unfolding to_lower
ne_of_length name other h e = h (sym (length-map _ name) ∙ ap length e ∙ length-map _ other)

-- The keys `other` and `name` differ, so what stores the one leaves the other.
module _ (name : Str) where
  abbrev Apart : List Str → Type 0
  Apart [] = Unit
  Apart (other ∷ rest) = (to_lower other ≢ to_lower name) × Apart rest

  apart : (others : List Str) → All (λ o. length o ≢ length name) others → Apart others
  apart [] _ = tt
  apart (o ∷ os) (h, hs) = (ne_of_length o name h, apart os hs)

abbrev trigger_keys : List Str
trigger_keys =
    codes "triggerName" ∷ codes "repoUrl" ∷ codes "pullRequestEvents" ∷ codes "baseRef" ∷ []

abbrev step_keys : List Str
step_keys =
    codes "stepName"
    ∷ codes "dockerfilePath"
    ∷ codes "dockerContextDir"
    ∷ codes "artifacts"
    ∷ codes "repoUrl"
    ∷ codes "repoPath"
    ∷ codes "baseRef"
    ∷ codes "pauseReason"
    ∷ codes "filePaths"
    ∷ []

trigger_keys-Apart : Apart (codes "triggerSource") trigger_keys
unfolding codes
trigger_keys-Apart = apart (codes "triggerSource") trigger_keys (omega arith)

step_keys-Apart : Apart (codes "stepSource") step_keys
unfolding codes
step_keys-Apart = apart (codes "stepSource") step_keys (omega arith)

module _ (key : Str) (j : Json) where
  base_trigger-source :
      (t t' : BaseTriggerFields)
      → store_base_trigger key j t ≡ some t'
      → store_source (codes "triggerSource") key j t.trigger_source ≡ some t'.trigger_source
  unfolding store_base_trigger
  base_trigger-source t t' h = ground (arith, trigger_keys-Apart)

  pull_request-source :
      (t t' : GitHubPullRequestTrigger)
      → store_pull_request key j t ≡ some t'
      → store_source (codes "triggerSource") key j t.base.trigger_source
        ≡ some t'.base.trigger_source
  unfolding store_pull_request
  pull_request-source t t' h =
      ground (arith, trigger_keys-Apart, base_trigger-source t.base t'.base)

  push-source :
      (t t' : GitHubPushTrigger)
      → store_push key j t ≡ some t'
      → store_source (codes "triggerSource") key j t.base.trigger_source
        ≡ some t'.base.trigger_source
  unfolding store_push
  push-source t t' h = ground (arith, trigger_keys-Apart, base_trigger-source t.base t'.base)

module _ (codec : VolumeCodec) (key : Str) (j : Json) where
  base_step-source :
      (s s' : BaseStepFields)
      → store_base_step codec key j s ≡ some s'
      → store_source (codes "stepSource") key j s.step_source ≡ some s'.step_source
  unfolding store_base_step
  base_step-source s s' h = ground (arith, step_keys-Apart)

  docker_build_test-source :
      (s s' : DockerBuildTestStep)
      → store_docker_build_test codec key j s ≡ some s'
      → store_source (codes "stepSource") key j s.base.step_source ≡ some s'.base.step_source
  unfolding store_docker_build_test
  docker_build_test-source s s' h = ground (arith, step_keys-Apart, base_step-source s.base s'.base)

  docker_build_test_publish-source :
      (s s' : DockerBuildTestPublishStep)
      → store_docker_build_test_publish codec key j s ≡ some s'
      → store_source (codes "stepSource") key j s.base.step_source ≡ some s'.base.step_source
  unfolding store_docker_build_test_publish
  docker_build_test_publish-source s s' h =
      ground (arith, step_keys-Apart, base_step-source s.base s'.base)

  argo_cd-source :
      (s s' : ArgoCdStep)
      → store_argo_cd codec key j s ≡ some s'
      → store_source (codes "stepSource") key j s.base.step_source ≡ some s'.base.step_source
  unfolding store_argo_cd
  argo_cd-source s s' h = ground (arith, step_keys-Apart, base_step-source s.base s'.base)

  github_create_pr-source :
      (s s' : GitHubCreatePrStep)
      → store_github_create_pr codec key j s ≡ some s'
      → store_source (codes "stepSource") key j s.base.step_source ≡ some s'.base.step_source
  unfolding store_github_create_pr
  github_create_pr-source s s' h = ground (arith, step_keys-Apart, base_step-source s.base s'.base)

-- The source that a message names, read on its own.
abbrev source_of : Str → Json → Option Str
source_of name j = into_struct (store_source name) j []

module _ {T : Type 0} {E : Type 0} where
  -- A struct that was read keeps the source that the message names.
  or_error-eq-ok : (o : Option T) (e : E) (t : T) → or_error o e ≡ ok t → o ≡ some t
  or_error-eq-ok o e t h = ground arith

base_trigger_source_of :
    (j : Json) (b : BaseTriggerFields)
    → unmarshal_base_trigger j ≡ some b
    → source_of (codes "triggerSource") j ≡ some b.trigger_source
unfolding unmarshal_base_trigger
base_trigger_source_of j b h =
    into_struct-inner (store_source (codes "triggerSource")) store_base_trigger
      (λ t. t.trigger_source) base_trigger-source j _ b h

unmarshal_trigger-source :
    (j : Json) (source : Str) (t : Trigger)
    → source_of (codes "triggerSource") j ≡ some source
    → unmarshal_trigger j source ≡ ok t
    → get_trigger_source t ≡ trigger_type_source t
unfolding unmarshal_trigger
unmarshal_trigger-source j source (pull_request t) named h = ground (
  arith,
  into_struct-inner (store_source (codes "triggerSource")) store_pull_request
      (λ t. t.base.trigger_source) pull_request-source j
      (record { base = zero_base_trigger; repo_url = []; pull_request_events = none }) t,
)
unmarshal_trigger-source j source (push t) named h = ground (
  arith,
  into_struct-inner (store_source (codes "triggerSource")) store_push (λ t. t.base.trigger_source)
      push-source j (record { base = zero_base_trigger; repo_url = []; base_ref = none }) t,
)

-- A parsed trigger names the source of its own type.
pub parse_trigger-source :
    (j : Json) (t : Trigger) → parse_trigger j ≡ ok t → get_trigger_source t ≡ trigger_type_source t
unfolding parse_trigger
parse_trigger-source j t h =
    let (b, base, rest) = >>=-eq-ok (or_error (unmarshal_base_trigger j) base_trigger_failed) _ h in
    unmarshal_trigger-source j b.trigger_source t
      (base_trigger_source_of j b (or_error-eq-ok _ _ b base)) rest

-- So does every trigger of a list.
pub parse_triggers-source :
    (js : List Json) (ts : List Trigger)
    → parse_triggers js ≡ ok ts
    → All (λ t. get_trigger_source t ≡ trigger_type_source t) ts
unfolding parse_triggers
parse_triggers-source [] [] h = tt
parse_triggers-source [] (t ∷ ts) h = cc
parse_triggers-source (j ∷ js) ts h =
    let (t, first, more) = >>=-eq-ok (parse_trigger j) _ h in
    let (rest, others, whole) = >>=-eq-ok (parse_triggers js) _ more in
    rw (← ok-injective whole) (parse_trigger-source j t first, parse_triggers-source js rest others)

module _ (codec : VolumeCodec) where
  base_step_source_of :
      (j : Json) (b : BaseStepFields)
      → unmarshal_base_step codec j ≡ some b
      → source_of (codes "stepSource") j ≡ some b.step_source
  unfolding unmarshal_base_step
  base_step_source_of j b h =
      into_struct-inner (store_source (codes "stepSource")) (store_base_step codec)
        (λ s. s.step_source) (base_step-source codec) j _ b h

  unmarshal_step-source :
      (j : Json) (source : Str) (s : Step)
      → source_of (codes "stepSource") j ≡ some source
      → unmarshal_step codec j source ≡ ok s
      → get_step_source s ≡ step_type_source s
  unfolding unmarshal_step
  unmarshal_step-source j source (docker_build_test s) named h = ground (
    arith,
    into_struct-inner (store_source (codes "stepSource")) (store_docker_build_test codec)
        (λ s. s.base.step_source) (docker_build_test-source codec) j
        (record {
          base = zero_base_step;
          dockerfile_path = none;
          docker_context_dir = none;
          artifacts = [];
        })
        s,
  )
  unmarshal_step-source j source (docker_build_test_publish s) named h = ground (
    arith,
    into_struct-inner (store_source (codes "stepSource")) (store_docker_build_test_publish codec)
        (λ s. s.base.step_source) (docker_build_test_publish-source codec) j
        (record {
          base = zero_base_step;
          dockerfile_path = none;
          docker_context_dir = none;
          artifacts = [];
        })
        s,
  )
  unmarshal_step-source j source (argo_cd s) named h = ground (
    arith,
    into_struct-inner (store_source (codes "stepSource")) (store_argo_cd codec)
        (λ s. s.base.step_source) (argo_cd-source codec) j
        (record {
          base = zero_base_step;
          repo_url = [];
          repo_path = [];
          base_ref = none;
          pause_reason = none;
        })
        s,
  )
  unmarshal_step-source j source (github_create_pr s) named h = ground (
    arith,
    into_struct-inner (store_source (codes "stepSource")) (store_github_create_pr codec)
        (λ s. s.base.step_source) (github_create_pr-source codec) j
        (record { base = zero_base_step; repo_url = []; base_ref = none; file_paths = [] }) s,
  )

  -- A parsed step names the source of its own type.
  pub parse_step-source :
      (j : Json) (s : Step) → parse_step codec j ≡ ok s → get_step_source s ≡ step_type_source s
  unfolding parse_step
  parse_step-source j s h =
      let (b, base, rest) =
        >>=-eq-ok (or_error (unmarshal_base_step codec j) base_step_failed) _ h in
      unmarshal_step-source j b.step_source s (base_step_source_of j b (or_error-eq-ok _ _ b base))
        rest

  -- So does every step of a list.
  pub parse_steps-source :
      (js : List Json) (ss : List Step)
      → parse_steps codec js ≡ ok ss
      → All (λ s. get_step_source s ≡ step_type_source s) ss
  unfolding parse_steps
  parse_steps-source [] [] h = tt
  parse_steps-source [] (s ∷ ss) h = cc
  parse_steps-source (j ∷ js) ss h =
      let (s, first, more) = >>=-eq-ok (parse_step codec j) _ h in
      let (rest, others, whole) = >>=-eq-ok (parse_steps codec js) _ more in
      rw (← ok-injective whole) (parse_step-source j s first, parse_steps-source js rest others)
