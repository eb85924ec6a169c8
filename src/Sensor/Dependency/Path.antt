-- ===== src/Sensor/Dependency/Path.antt =====
-- What a round of the search for a Dockerfile does to the path found so far.
use jettison_controller.Common.{
  some_injective, ◌≡◌, refl, ap, sym, ◌∙◌, ◌≢◌, inl, inr, true, false, List, [], ◌∷◌, some, arith,
  Option-cases,
}
use jettison_controller.Common.Results.{Result, ok, err}
use jettison_controller.Text.{Str, contains, Str-discrete}
use jettison_controller.Flow.{
  Step, DockerBuildTestPublishStep, docker_build_test, docker_build_test_publish, argo_cd,
  github_create_pr, deref,
}
use jettison_controller.Sensor.{StepMap, lookup}
use jettison_controller.Sensor.Dependency.{DependencyError, next_path, multiple_dockerfile_paths}
use jettison_controller.Sensor.Dependency.Reach.{Reach, Publish, PublishWith, Outcome}
use jettison_controller.Sensor.Dependency.Loop.{PathFound, contains-cons}

pub publish_injective :
    (s t : DockerBuildTestPublishStep)
    → docker_build_test_publish s ≡ docker_build_test_publish t
    → s ≡ t
publish_injective s t h = cc

pub PublishWith-unique :
    (m : StepMap) (d path path' : Str) → PublishWith m d path → PublishWith m d path' → path ≡ path'
PublishWith-unique m d path path' (s, at_d, with_s) (t, at_d', with_t) = some_injective (
    sym with_s
    ∙ ap (λ u. u.dockerfile_path) (publish_injective s t (some_injective (sym at_d ∙ at_d')))
    ∙ with_t)

next_path-first :
    (s : DockerBuildTestPublishStep) (path : Str)
    → path ≡ []
    → next_path path (some (docker_build_test_publish s)) ≡ deref s.dockerfile_path
unfolding next_path
next_path-first s path h = ground arith

next_path-second :
    (s : DockerBuildTestPublishStep) (path : Str)
    → path ≢ []
    → next_path path (some (docker_build_test_publish s)) ≡ err multiple_dockerfile_paths
unfolding next_path
next_path-second s path h = ground arith

module _ (m : StepMap) (d : Str) (visited : List Str) where
  -- A step of another type changes nothing.
  path_kept :
      (path : Str)
      → ((s : DockerBuildTestPublishStep) → lookup m d ≢ some (docker_build_test_publish s))
      → PathFound m visited path
      → PathFound m (d ∷ visited) path
  path_kept path other (inl (empty, all_empty)) = inl (
    empty,
    λ e q h p. elim (contains-cons d visited e h) [
      | inl same ↦ absurd (other p.0 (rw same at p.1))
      | inr old ↦ all_empty e q old p
    ],
  )
  path_kept path other (inr (full, (a, at_a, with_path, only))) = inr (
    full,
    (
      a,
      ground arith,
      with_path,
      λ e q h p. elim (contains-cons d visited e h) [
        | inl same ↦ absurd (other p.0 (rw same at p.1))
        | inr old ↦ only e q old p
      ],
    ),
  )

  -- The first publish step with a path that is not empty gives the path.
  path_set :
      (s : DockerBuildTestPublishStep) (path : Str)
      → Publish m d s
      → s.dockerfile_path ≡ some path
      → PathFound m visited []
      → PathFound m (d ∷ visited) path
  path_set s path at_d with_path (inr (full, _)) = absurd (full refl)
  path_set s path at_d with_path (inl (_, all_empty)) =
      let same_path : (e q : Str) → e ≡ d → PublishWith m e q → q ≡ path = λ e q same p.
        let same_step = publish_injective p.0 s (some_injective (sym p.1 ∙ rw same at_d)) in
        some_injective (sym p.2 ∙ rw same_step with_path) in
      elim (Str-discrete path []) [
        | yes empty ↦ inl (
          empty,
          λ e q h p. elim (contains-cons d visited e h) [
            | inl same ↦ same_path e q same p ∙ empty
            | inr old ↦ all_empty e q old p
          ],
        )
        | no full ↦ inr (
          full,
          (
            d,
            ground arith,
            (s, at_d, with_path),
            λ e q h p. elim (contains-cons d visited e h) [
              | inl same ↦ inl same
              | inr old ↦ inr (all_empty e q old p)
            ],
          ),
        )
      ]

  module _ (start : List Str) (path : Str) where
    -- The switch goes on with the path of the visited names and `d`, or it stops for a reason.
    abbrev pub Switched : Result DependencyError Str → Type 0
    Switched (ok path') = PathFound m (d ∷ visited) path'
    Switched r = Outcome m start r

    pub next_path-Switched :
        (s : Step)
        → lookup m d ≡ some s
        → Reach m start d
        → contains visited d ≡ false
        → ((e : Str) → contains visited e ≡ true → Reach m start e)
        → PathFound m visited path
        → Switched (next_path path (some s))
    unfolding next_path
    next_path-Switched (docker_build_test s) found here new seen i = path_kept path (λ t h. cc) i
    next_path-Switched (argo_cd s) found here new seen i = path_kept path (λ t h. cc) i
    next_path-Switched (github_create_pr s) found here new seen i = path_kept path (λ t h. cc) i
    next_path-Switched (docker_build_test_publish s) found here new seen (inl (empty, all_empty)) =
        rw (next_path-first s path empty) (elim (Option-cases s.dockerfile_path) [
          | inl unset ↦ rw unset (d, here, inr (s, found, unset))
          | inr (path', with_path) ↦
              rw with_path (path_set s path' found with_path (inl (refl, all_empty)))
        ])
    next_path-Switched (docker_build_test_publish s) found here new seen
          (inr (full, (a, at_a, with_path, _))) =
        rw (next_path-second s path full)
          (a, d, path, s, (λ same. ground arith), full, seen a at_a, with_path, here, found)
