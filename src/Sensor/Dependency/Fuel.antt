-- ===== src/Sensor/Dependency/Fuel.antt =====
-- The measure of the search for a Dockerfile goes down in each round.
use jettison_controller.Common.{
  ◌≡◌, ℕ, suc, ◌≤◌, ◌+◌, false, List, [], ◌∷◌, ◌++◌, some, length, length-append, arith,
}
use jettison_controller.Text.{Str, contains}
use jettison_controller.Flow.{Step, get_depends_on}
use jettison_controller.Sensor.{StepMap, lookup}
use jettison_controller.Sensor.Dependency.{pending}

pending-visit :
    (m : StepMap) (d : Str) (visited : List Str) → pending m (d ∷ visited) ≤ pending m visited
unfolding pending
pending-visit [] d visited = omega arith
pending-visit ((name, s) ∷ m) d visited = ground (arith, pending-visit m d visited)

pub pending-lookup :
    (m : StepMap) (d : Str) (s : Step) (visited : List Str)
    → lookup m d ≡ some s
    → contains visited d ≡ false
    → length (get_depends_on s) + pending m (d ∷ visited) ≤ pending m visited
unfolding pending
pending-lookup [] d s visited found new = ground arith
pending-lookup ((name, t) ∷ m) d s visited found new =
    ground (arith, pending-lookup m d s visited, pending-visit m d visited)

-- What is left after a visit fits in the fuel that is left.
pub fuel_after_visit :
    (m : StepMap) (d : Str) (s : Step) (ds visited : List Str) (fuel : ℕ)
    → lookup m d ≡ some s
    → contains visited d ≡ false
    → length (d ∷ ds) + pending m visited ≤ suc fuel
    → length (ds ++ get_depends_on s) + pending m (d ∷ visited) ≤ fuel
fuel_after_visit m d s ds visited fuel found new enough =
    omega (arith, length-append ds (get_depends_on s), pending-lookup m d s visited found new)
