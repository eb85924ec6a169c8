-- ===== src/Sensor.antt =====
-- The builder of the Sensor of a flow: internal/controller/sensorbuilder. Its parts are in the modules
-- below; this one has the errors of the builder and the map of steps that they share.
pub mod Dependency
pub mod Fields
pub mod Events
pub mod Parameters
pub mod Tasks
pub mod Builder
pub mod Tests
use jettison_controller.Common.{List, [], ◌∷◌, Option, none, some, if◌then◌else◌}
use jettison_controller.Common.Results.{Result, ◌>>=◌, ok, panic}
use jettison_controller.Text.{Str, ◌==◌}
use jettison_controller.Flow.{Step, get_step_name, get_depends_on}

-- `map[string]v1alpha1base.BaseStep`: the newest entry of a name is in front of the older ones.
abbrev pub StepMap : Type 0
StepMap = List (Str × Step)

-- `stepsByName[name]`; `none` is the nil interface of a missing name.
abbrev pub lookup : StepMap → Str → Option Step
lookup [] name = none
lookup ((key, s) ∷ m) name = if name == key then some s else lookup m name

-- The loop that fills `stepsByName`.
unfoldable pub steps_by_name : {E : Type 0} → List Step → StepMap → Result E StepMap
steps_by_name [] m = ok m
steps_by_name (s ∷ ss) m = get_step_name s >>= λ name. steps_by_name ss ((name, s) ∷ m)

-- `step.GetDependsOn()` panics on a nil interface.
abbrev pub dependencies_of : {E : Type 0} → Option Step → Result E (List Str)
dependencies_of none = panic
dependencies_of (some s) = ok (get_depends_on s)
