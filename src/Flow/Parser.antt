-- ===== src/Flow/Parser.antt =====
-- flow_parser.go: raw messages to triggers and steps, by the source that each names.
pub mod Source
use jettison_controller.Common.{List, [], ◌∷◌, Option, none, some, if◌then◌else◌}
use jettison_controller.Common.Results.{Result, ok, err, ◌>>=◌}
use jettison_controller.Text.{Str, codes, ◌==◌}
use jettison_controller.Json.{Json, into_struct}
use jettison_controller.Flow.{
  BaseTriggerFields, Trigger, pull_request, push, BaseStepFields, Step, docker_build_test,
  docker_build_test_publish, argo_cd, github_create_pr,
}
use jettison_controller.Flow.Decode.{
  VolumeCodec, zero_base_trigger, store_base_trigger, store_pull_request, store_push,
  zero_base_step, store_base_step, store_docker_build_test, store_docker_build_test_publish,
  store_argo_cd, store_github_create_pr,
}

abbrev pub github_pull_request_trigger_source : Str
github_pull_request_trigger_source = codes "GitHubPullRequest"

abbrev pub github_push_trigger_source : Str
github_push_trigger_source = codes "GitHubPush"

abbrev pub docker_build_test_step_source : Str
docker_build_test_step_source = codes "DockerBuildTest"

abbrev pub docker_build_test_publish_step_source : Str
docker_build_test_publish_step_source = codes "DockerBuildTestPublish"

abbrev pub argo_cd_step_source : Str
argo_cd_step_source = codes "ArgoCD"

abbrev pub github_create_pr_step_source : Str
github_create_pr_step_source = codes "GitHubCreatePR"

-- The errors, with what they print of the message. The JSON library's own text is left out.
pub data ParseError : Type 0 where
  base_trigger_failed : ParseError
  pull_request_trigger_failed : ParseError
  push_trigger_failed : ParseError
  unknown_trigger_source : Str → ParseError
  base_step_failed : ParseError
  docker_build_test_step_failed : ParseError
  docker_build_test_publish_step_failed : ParseError
  argo_cd_step_failed : ParseError
  github_create_pr_step_failed : ParseError
  unknown_step_source : Str → ParseError

-- `if err := json.Unmarshal(…); err != nil { return nil, … }`
abbrev pub or_error {ℓ} : {E : Type 0} {A : Type ℓ} → Option A → E → Result E A
or_error none e = err e
or_error (some a) e = ok a

unmarshal_base_trigger : Json → Option BaseTriggerFields
unmarshal_base_trigger j = into_struct store_base_trigger j zero_base_trigger

unmarshal_trigger : Json → Str → Result ParseError Trigger
unmarshal_trigger j source =
    if source == github_pull_request_trigger_source
    then (or_error
          (into_struct store_pull_request j
            (record { base = zero_base_trigger; repo_url = []; pull_request_events = none }))
          pull_request_trigger_failed
        >>= λ t. ok (pull_request t))
    else if source == github_push_trigger_source
    then (or_error
          (into_struct store_push j
            (record { base = zero_base_trigger; repo_url = []; base_ref = none }))
          push_trigger_failed
        >>= λ t. ok (push t))
    else err (unknown_trigger_source source)

pub parse_trigger : Json → Result ParseError Trigger
unfolding unmarshal_base_trigger unmarshal_trigger
parse_trigger j = do
  base ← or_error (unmarshal_base_trigger j) base_trigger_failed
  unmarshal_trigger j base.trigger_source

-- The loop of `parseTriggers` over `f.Spec.Triggers[i:]`.
unfoldable pub parse_triggers : List Json → Result ParseError (List Trigger)
unfolding parse_trigger
parse_triggers [] = ok []
parse_triggers (j ∷ js) = do
  trigger ← parse_trigger j
  triggers ← parse_triggers js
  ok (trigger ∷ triggers)

module _ (codec : VolumeCodec) where
  unmarshal_base_step : Json → Option BaseStepFields
  unmarshal_base_step j = into_struct (store_base_step codec) j zero_base_step

  unmarshal_step : Json → Str → Result ParseError Step
  unmarshal_step j source =
      if source == docker_build_test_step_source
      then (or_error
            (into_struct (store_docker_build_test codec) j (record {
              base = zero_base_step;
              dockerfile_path = none;
              docker_context_dir = none;
              artifacts = [];
            }))
            docker_build_test_step_failed
          >>= λ s. ok (docker_build_test s))
      else if source == docker_build_test_publish_step_source
      then (or_error
            (into_struct (store_docker_build_test_publish codec) j (record {
              base = zero_base_step;
              dockerfile_path = none;
              docker_context_dir = none;
              artifacts = [];
            }))
            docker_build_test_publish_step_failed
          >>= λ s. ok (docker_build_test_publish s))
      else if source == argo_cd_step_source
      then (or_error
            (into_struct (store_argo_cd codec) j (record {
              base = zero_base_step;
              repo_url = [];
              repo_path = [];
              base_ref = none;
              pause_reason = none;
            }))
            argo_cd_step_failed
          >>= λ s. ok (argo_cd s))
      else if source == github_create_pr_step_source
      then (or_error
            (into_struct (store_github_create_pr codec) j
              (record { base = zero_base_step; repo_url = []; base_ref = none; file_paths = [] }))
            github_create_pr_step_failed
          >>= λ s. ok (github_create_pr s))
      else err (unknown_step_source source)

  pub parse_step : Json → Result ParseError Step
  unfolding unmarshal_base_step unmarshal_step
  parse_step j = do
    base ← or_error (unmarshal_base_step j) base_step_failed
    unmarshal_step j base.step_source

  -- The loop of `parseSteps` over `f.Spec.Steps[i:]`.
  unfoldable pub parse_steps : List Json → Result ParseError (List Step)
  unfolding parse_step
  parse_steps [] = ok []
  parse_steps (j ∷ js) = do step ← parse_step j; steps ← parse_steps js; ok (step ∷ steps)
