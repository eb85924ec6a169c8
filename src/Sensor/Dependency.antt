-- ===== src/Sensor/Dependency.antt =====
-- The search for the Dockerfile that a deploy step depends on: `getDockerfilePathDependency` of
-- internal/controller/sensorbuilder/sensor_trigger_tasks.go.
pub mod Reach
pub mod Fuel
pub mod Loop
pub mod Path
pub mod Laws
use jettison_controller.Common.{
  ℕ, zero, suc, ◌+◌, true, false, List, [], ◌∷◌, ◌++◌, Option, none, some, length, if◌then◌else◌,
}
use jettison_controller.Common.Results.{Result, ok, err, ◌>>=◌}
use jettison_controller.Text.{Str, ◌==◌, contains}
use jettison_controller.Flow.{Step, docker_build_test_publish, get_depends_on, deref}
use jettison_controller.Sensor.{StepMap, lookup, dependencies_of}

-- The code's errors, and the end of the model's fuel, which the search never meets.
pub data DependencyError : Type 0 where
  multiple_dockerfile_paths : DependencyError
  no_dockerfile_path : DependencyError
  out_of_fuel : DependencyError

-- The switch on the type of a dependency.
unfoldable pub next_path : Str → Option Step → Result DependencyError Str
next_path path (some (docker_build_test_publish s)) =
    if path == [] then deref s.dockerfile_path else err multiple_dockerfile_paths
next_path path _ = ok path

-- The loop: the queue of dependencies, the visited names, and the path found so far.
unfoldable pub search : StepMap → ℕ → List Str → List Str → Str → Result DependencyError Str
unfolding next_path
search m fuel [] visited path = if path == [] then err no_dockerfile_path else ok path
search m zero (d ∷ ds) visited path = err out_of_fuel
search m (suc fuel) (d ∷ ds) visited path = elim (contains visited d) [
  | true ↦ search m fuel ds visited path
  | false ↦ next_path path (lookup m d) >>= λ path'.
      dependencies_of (lookup m d) >>= λ more. search m fuel (ds ++ more) (d ∷ visited) path'
]

-- The dependencies that the steps of a map have in all but the visited names.
unfoldable pub pending : StepMap → List Str → ℕ
pending [] visited = 0
pending ((name, s) ∷ m) visited =
    let rest = pending m visited in
    if contains visited name then rest else length (get_depends_on s) + rest

-- Each round of the loop takes a dependency from the queue, and each name adds its own only once.
unfoldable pub get_dockerfile_path_dependency : Str → StepMap → Result DependencyError Str
unfolding search pending
get_dockerfile_path_dependency name m =
    dependencies_of (lookup m name) >>= λ ds. search m (length ds + pending m []) ds [] []
