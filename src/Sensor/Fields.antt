-- ===== src/Sensor/Fields.antt =====
-- The texts in the fields of a task: `getDockerfileDir`, `getWhen`, `getDepends` and `getArtifactKey`
-- of internal/controller/sensorbuilder/sensor_trigger_tasks.go.
pub mod Laws
use jettison_controller.Common.{◌&&◌, List, [], ◌∷◌, ◌++◌, Option, none, some, map, if◌then◌else◌}
use jettison_controller.Common.Results.{Result, ok, ◌>>=◌}
use jettison_controller.Text.{
  Str, codes, slash, ◌==◌, has_prefix, replace_all, to_lower, trim, trim_right, split_path, join,
}
use jettison_controller.Flow.{
  Step, docker_build_test, docker_build_test_publish, argo_cd, github_create_pr, deref,
}
use jettison_controller.Sensor.{StepMap, lookup, dependencies_of}

-- The file name without "dockerfile" and the separators around it.
abbrev pub file_suffix : Str → Str
file_suffix file = trim (replace_all (to_lower file) (codes "dockerfile") []) (codes " .-_")

abbrev pub slash_first : Str → Str
slash_first dir = if has_prefix dir (slash ∷ []) then dir else slash ∷ dir

-- The tests on the directory and on what is left of the file name.
unfoldable pub join_dir : Str → Str → Str
join_dir dir file =
    if (file == []) && (dir == [])
    then []
    else if dir == []
    then slash ∷ file
    else if file == []
    then trim_right (slash_first dir) (slash ∷ [])
    else slash_first dir ++ file

unfoldable pub get_dockerfile_dir : Str → Str
unfolding join_dir
get_dockerfile_dir dockerfile_path =
    let (dir, file) = split_path dockerfile_path in join_dir dir (file_suffix file)

abbrev pub not_skipped : Str → Str
not_skipped name =
    codes "{{tasks."
    ++ (name ++ codes ".outputs.parameters.jettison-deploy-step-status}} != Skipped")

-- The condition that a dependency adds.
abbrev pub when_dependency : {E : Type 0} → Option Step → Result E (List Str)
when_dependency (some (docker_build_test_publish s)) =
    deref s.base.step_name >>= λ n. ok (not_skipped n ∷ [])
when_dependency (some (docker_build_test s)) =
    deref s.base.step_name >>= λ n. ok (not_skipped n ∷ [])
when_dependency (some (argo_cd s)) = deref s.base.step_name >>= λ n. ok (not_skipped n ∷ [])
when_dependency (some (github_create_pr s)) = ok []
when_dependency none = ok []

unfoldable pub when_dependencies : {E : Type 0} → StepMap → List Str → Result E (List Str)
when_dependencies m [] = ok []
when_dependencies m (d ∷ ds) =
    when_dependency (lookup m d) >>= λ w. when_dependencies m ds >>= λ ws. ok (w ++ ws)

unfoldable pub get_when : {E : Type 0} → Str → StepMap → Result E Str
unfolding when_dependencies
get_when name m = dependencies_of (lookup m name) >>= λ ds.
    when_dependencies m ds >>= λ ws. ok (join ws (codes " && "))

-- Without dependencies, the early return and the join of no text are the same.
unfoldable pub get_depends : List Str → Str
get_depends [] = []
get_depends (d ∷ ds) = join (map (λ n. n ++ codes ".Succeeded") (d ∷ ds)) (codes " && ")

unfoldable pub get_artifact_key : Str → Str
get_artifact_key key = codes "workflow-artifacts/{{workflow.name}}/{{pod.name}}" ++ (slash ∷ key)
