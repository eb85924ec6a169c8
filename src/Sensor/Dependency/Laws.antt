-- ===== src/Sensor/Dependency/Laws.antt =====
-- What the search for a Dockerfile returns.
use jettison_controller.Common.{
  some_injective, ◌≡◌, refl, ap, sym, ◌∙◌, ◌≢◌, ◌≤◌, ℕ, zero, suc, ◌+◌, inl, inr, true, false, List,
  [], ◌∷◌, ◌++◌, none, some, length, arith, Option-cases, Bool-cases,
}
use jettison_controller.Common.Results.{Result, ◌>>=◌, ok, err, panic}
use jettison_controller.Text.{Str, contains}
use jettison_controller.Flow.{Step, DockerBuildTestPublishStep, get_depends_on}
use jettison_controller.Sensor.{StepMap, lookup}
use jettison_controller.Sensor.Dependency.{
  DependencyError, multiple_dockerfile_paths, out_of_fuel, no_dockerfile_path, search, pending,
  next_path, get_dockerfile_path_dependency,
}
use jettison_controller.Sensor.Dependency.Reach.{Reach, AllDefined, Publish, PublishWith, Outcome}
use jettison_controller.Sensor.Dependency.Fuel.{fuel_after_visit}
use jettison_controller.Sensor.Dependency.Loop.{
  Frontier, PathFound, Frontier-initial, Frontier-again, Frontier-visit, all_visited,
}
use jettison_controller.Sensor.Dependency.Path.{
  PublishWith-unique, publish_injective, Switched, next_path-Switched,
}

module _ (m : StepMap) (start : List Str) where
  search_empty :
      (fuel : ℕ) (visited : List Str) (path : Str)
      → path ≡ []
      → search m fuel [] visited path ≡ err no_dockerfile_path
  unfolding search
  search_empty fuel visited path h = ground arith

  search_found :
      (fuel : ℕ) (visited : List Str) (path : Str)
      → path ≢ []
      → search m fuel [] visited path ≡ ok path
  unfolding search
  search_found fuel visited path h = ground arith

  -- The end of the loop.
  search_end :
      (fuel : ℕ) (visited : List Str) (path : Str)
      → Frontier m start [] visited
      → PathFound m visited path
      → Outcome m start (search m fuel [] visited path)
  search_end fuel visited path i p =
      let all = all_visited m start visited i in
      let defined : AllDefined m start = λ e r. i.defined e (all e r) in
      elim p [
        | inl (empty, all_empty) ↦
            rw (search_empty fuel visited path empty)
              (defined, λ e q r with_q. all_empty e q (all e r) with_q)
        | inr (full, (d, at_d, with_path, only)) ↦ rw (search_found fuel visited path full) (
          full,
          defined,
          (d, i.seen d at_d, with_path, λ e q r with_q. only e q (all e r) with_q),
        )
      ]

  -- If the switch goes on, so does the loop, and if not, its result is that of the switch.
  visited-Outcome :
      (d path : Str) (visited : List Str) (r : Result DependencyError Str)
      (rest : Str → Result DependencyError Str)
      → Switched m d visited start path r
      → ((path' : Str) → PathFound m (d ∷ visited) path' → Outcome m start (rest path'))
      → Outcome m start (r >>= rest)
  visited-Outcome d path visited (ok path') rest h next = next path' h
  visited-Outcome d path visited (err e) rest h next = h
  visited-Outcome d path visited panic rest h next = h

  module _ (fuel : ℕ) (d : Str) (ds visited : List Str) (path : Str) where
    search_again :
        contains visited d ≡ true
        → search m (suc fuel) (d ∷ ds) visited path ≡ search m fuel ds visited path
    unfolding search
    search_again old = rw (old, search) refl

    search_missing :
        contains visited d ≡ false
        → lookup m d ≡ none
        → search m (suc fuel) (d ∷ ds) visited path ≡ panic
    unfolding search next_path
    search_missing new missing = rw (new, search, missing) refl

    search_visit :
        (s : Step)
        → contains visited d ≡ false
        → lookup m d ≡ some s
        → search m (suc fuel) (d ∷ ds) visited path ≡ (
            next_path path (some s) >>= λ path'.
            search m fuel (ds ++ get_depends_on s) (d ∷ visited) path')
    unfolding search next_path
    search_visit s new found = rw (new, search, found) refl

  search-Outcome :
      (fuel : ℕ) (ds visited : List Str) (path : Str)
      → length ds + pending m visited ≤ fuel
      → Frontier m start ds visited
      → PathFound m visited path
      → Outcome m start (search m fuel ds visited path)
  search-Outcome fuel [] visited path enough i p = search_end fuel visited path i p
  search-Outcome zero (d ∷ ds) visited path enough i p = absurd (omega arith)
  search-Outcome (suc fuel) (d ∷ ds) visited path enough i p =
      let here : Reach m start d = i.queued d (ground arith) in
      elim (Bool-cases (contains visited d)) [
        | inl old ↦ rw (search_again fuel d ds visited path old) (
            search-Outcome fuel ds visited path (omega arith)
              (Frontier-again m start d ds visited old i) p)
        | inr new ↦ elim (Option-cases (lookup m d)) [
          | inl missing ↦
              rw (search_missing fuel d ds visited path new missing) (d, here, inl missing)
          | inr (s, found) ↦
              let switched = next_path-Switched m d visited start path s found here new i.seen p in
              rw (search_visit fuel d ds visited path s new found) (
                visited-Outcome d path visited _ _ switched λ path' q.
                  search-Outcome fuel (ds ++ get_depends_on s) (d ∷ visited) path'
                    (fuel_after_visit m d s ds visited fuel found new enough)
                    (Frontier-visit m start d s ds visited found i) q)
        ]
      ]

-- For a step in the map, whatever the map is, cycles included, the search for the Dockerfile
-- ends, and each result says how the steps reachable along dependencies are. A path is not empty,
-- every reachable name is defined, the path is that of a reachable publish step, and any other
-- reachable publish step has the empty path. The error of no path: every reachable name is
-- defined and no reachable publish step has a path that is not empty. The error of several paths:
-- two different reachable publish steps, one of them with a path that is not empty. A panic: a
-- reachable name is not defined, or a reachable publish step has a nil path. The fuel is enough,
-- so its end is no result.
pub get_dockerfile_path_dependency-Outcome :
    (m : StepMap) (name : Str) (s : Step)
    → lookup m name ≡ some s
    → Outcome m (get_depends_on s) (get_dockerfile_path_dependency name m)
unfolding get_dockerfile_path_dependency
get_dockerfile_path_dependency-Outcome m name s found = rw found (
    search-Outcome m (get_depends_on s) _ (get_depends_on s) [] [] (omega arith)
      (Frontier-initial m (get_depends_on s)) (inl (refl, λ e q h. ground arith)))

module _ (m : StepMap) (start : List Str) (d path : Str) where
  accepted :
      AllDefined m start
      → path ≢ []
      → Reach m start d
      → PublishWith m d path
      → ((e : Str) (t : DockerBuildTestPublishStep) → Reach m start e → Publish m e t → e ≡ d)
      → (r : Result DependencyError Str) → Outcome m start r
      → r ≡ ok path
  accepted defined full here with_path only (ok q) (_, _, (e, there, with_q, _)) =
      let same = only e with_q.0 there with_q.1 in
      ap ok (PublishWith-unique m d q path (rw same at with_q) with_path)
  accepted defined full here with_path only (err no_dockerfile_path) (_, all_empty) =
      absurd (full (all_empty d path here with_path))
  accepted defined full here with_path only (err multiple_dockerfile_paths)
        (a, b, q, t, differ, _, there, with_q, there', at_b) =
      absurd (differ (only a with_q.0 there with_q.1 ∙ sym (only b t there' at_b)))
  accepted defined full here with_path only (err out_of_fuel) o = absurd o
  accepted defined full here with_path only panic (e, there, inl missing) =
      let (t, found) = defined e there in cc
  accepted defined full here with_path only panic (e, there, inr (t, at_e, unset)) =
      let (u, at_d, with_u) = with_path in
      let same =
        publish_injective t u (some_injective (sym (rw (only e t there at_e) at at_e) ∙ at_d)) in
      let unset' = rw same at unset in cc

-- If a step is in the map, every name reachable from it along dependencies is defined, and
-- exactly one reachable name is that of a publish step, with a path that is not empty, then the
-- search for the Dockerfile returns that path.
pub get_dockerfile_path_dependency_accepts :
    (m : StepMap) (name : Str) (s : Step) (d path : Str)
    → lookup m name ≡ some s
    → AllDefined m (get_depends_on s)
    → path ≢ []
    → Reach m (get_depends_on s) d
    → PublishWith m d path
    → ((e : Str) (t : DockerBuildTestPublishStep)
        → Reach m (get_depends_on s) e
        → Publish m e t
        → e ≡ d)
    → get_dockerfile_path_dependency name m ≡ ok path
get_dockerfile_path_dependency_accepts m name s d path found defined full here with_path only =
    accepted m (get_depends_on s) d path defined full here with_path only _
      (get_dockerfile_path_dependency-Outcome m name s found)
