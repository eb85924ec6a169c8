-- ===== src/Sensor/Tasks/Inline.antt =====
-- The template that a build step with volumes, mounts or artifacts gets for itself, in
-- `getWorkflowTemplateDAGTasks`.
use jettison_controller.Common.{
  ℕ, suc, false, true, Bool, ◌&&◌, List, [], ◌∷◌, ◌++◌, Option, none, some,
}
use jettison_controller.Common.Results.{Result, ok, panic, ◌>>=◌}
use jettison_controller.Text.{codes, decimal}
use jettison_controller.Flow.{BaseStepFields, VolumeMount, DockerBuildArtifact, deref}
use jettison_controller.Templates.{Artifact, Container, Template}
use jettison_controller.Sensor.Fields.{get_artifact_key}

abbrev pub is_nil {ℓ} : {A : Type ℓ} → List A → Bool
is_nil [] = true
is_nil (_ ∷ _) = false

-- Whether the step can use the shared template.
abbrev pub is_plain : BaseStepFields → List DockerBuildArtifact → Bool
is_plain base artifacts = is_nil base.volumes && is_nil base.volume_mounts && is_nil artifacts

abbrev flag : Option Bool → Bool
flag none = false
flag (some b) = b

unfoldable pub step_artifact : ℕ → DockerBuildArtifact → Artifact
step_artifact i a = record {
  name = codes "artifact" ++ decimal i;
  path = codes "/artifacts" ++ a.path;
  s3_key = get_artifact_key a.key;
  optional = flag a.optional;
}

unfoldable pub step_artifacts : ℕ → List DockerBuildArtifact → List Artifact
unfolding step_artifact
step_artifacts i [] = []
step_artifacts i (a ∷ rest) = step_artifact i a ∷ step_artifacts (suc i) rest

-- Only the first container gets the mounts; an index out of range panics.
abbrev pub mount_first :
    {E : Type 0} → List Container → List VolumeMount → Result E (List Container)
mount_first [] mounts = panic
mount_first (c ∷ cs) mounts = ok (record c { volume_mounts = c.volume_mounts ++ mounts } ∷ cs)

unfoldable pub inline_template :
    {E : Type 0} → Template → ℕ → BaseStepFields → List DockerBuildArtifact → Result E Template
inline_template t i base artifacts = deref t.container_set >>= λ set.
    mount_first set.containers base.volume_mounts >>= λ containers. ok (record t {
      name = t.name ++ decimal i;
      volumes = t.volumes ++ base.volumes;
      container_set = some (record set { containers = containers });
      output_artifacts = t.output_artifacts ++ step_artifacts 0 artifacts;
    })
