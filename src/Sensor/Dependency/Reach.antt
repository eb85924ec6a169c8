-- ===== src/Sensor/Dependency/Reach.antt =====
-- What the search for a Dockerfile looks for: the steps that can be reached along dependencies.
use jettison_controller.Common.{◌≡◌, ◌≢◌, ◌⊎◌, true, List, [], none, some}
use jettison_controller.Common.Results.{Result, ok, err, panic}
use jettison_controller.Text.{Str, contains}
use jettison_controller.Flow.{
  Step, DockerBuildTestPublishStep, docker_build_test_publish, get_depends_on,
}
use jettison_controller.Sensor.{StepMap, lookup}
use jettison_controller.Sensor.Dependency.{
  DependencyError, multiple_dockerfile_paths, no_dockerfile_path, out_of_fuel,
}

module _ (m : StepMap) where
  -- The names that dependencies lead to, from a list of them.
  pub data Reach (start : List Str) : Str → Type 0 where
    direct : {d : Str} → contains start d ≡ true → Reach start d
    via :
        {d e : Str} {s : Step}
        → Reach start d
        → lookup m d ≡ some s
        → contains (get_depends_on s) e ≡ true
        → Reach start e

  -- A publish step stands under a name.
  abbrev pub Publish : Str → DockerBuildTestPublishStep → Type 0
  Publish d s = lookup m d ≡ some (docker_build_test_publish s)

  -- It has this Dockerfile.
  abbrev pub PublishWith : Str → Str → Type 0
  PublishWith d path =
      (s : DockerBuildTestPublishStep) × Publish d s × (s.dockerfile_path ≡ some path)

  module _ (start : List Str) where
    abbrev pub AllDefined : Type 0
    AllDefined = (d : Str) → Reach start d → (s : Step) × (lookup m d ≡ some s)

    -- The publish steps that are reached, other than `d`, have empty paths.
    abbrev pub OnlyPublish : Str → Type 0
    OnlyPublish d = (e q : Str) → Reach start e → PublishWith e q → (e ≡ d) ⊎ (q ≡ [])

    -- What each result of the search says about the reachable steps.
    abbrev pub Outcome : Result DependencyError Str → Type 0
    Outcome (ok path) =
        (path ≢ []) × AllDefined × ((d : Str) × Reach start d × PublishWith d path × OnlyPublish d)
    Outcome (err no_dockerfile_path) =
        AllDefined × ((e q : Str) → Reach start e → PublishWith e q → q ≡ [])
    Outcome (err multiple_dockerfile_paths) =
        (d e path : Str) × (s : DockerBuildTestPublishStep) × (d ≢ e)
        × (path ≢ [])
        × Reach start d
        × PublishWith d path
        × Reach start e
        × Publish e s
    Outcome (err out_of_fuel) = ⊥
    Outcome panic =
        (d : Str) × Reach start d
        × ((lookup m d ≡ none)
            ⊎ ((s : DockerBuildTestPublishStep) × Publish d s × (s.dockerfile_path ≡ none)))
