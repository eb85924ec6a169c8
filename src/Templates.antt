-- ===== src/Templates.antt =====
-- The workflow templates that the tasks of a flow refer to: internal/workflowtemplates. This module
-- has the parts of Argo's types that the program writes, and the constants.
pub mod Checks
pub mod Builds
pub mod Deploys
pub mod Cicd
use jettison_controller.Common.{ℕ, List, Option, none, some, Bool}
use jettison_controller.Text.{Str, codes}
use jettison_controller.Flow.{VolumeSource, Volume, VolumeMount}

-- `workflowsv1.AnyStringPtr(v)` for a text and for a number.
pub data ParameterValue : Type 0 where
  text : Str → ParameterValue
  number : ℕ → ParameterValue

pub record Parameter : Type 0 where
  pub name : Str
  pub value : Option ParameterValue

abbrev pub required : Str → Parameter
required name = record { name = name; value = none }

abbrev pub given : Str → Str → Parameter
given name value = record { name = name; value = some (text value) }

abbrev pub mount : Str → Str → VolumeMount
mount name path = record { name = name; mount_path = path; options = none }

abbrev pub volume : Str → VolumeSource → Volume
volume name source = record { name = name; source = source }

-- `corev1.Container` and `workflowsv1.ContainerNode`. The security context is either not set or the
-- one that BuildKit needs.
pub record Container : Type 0 where
  pub name : Str
  pub image : Str
  pub args : List Str
  pub env : List (Str × Str)
  pub unconfined : Bool
  pub volume_mounts : List VolumeMount
  pub dependencies : List Str

pub record ContainerSet : Type 0 where
  pub containers : List Container
  pub volume_mounts : List VolumeMount

pub record OutputParameter : Type 0 where
  pub name : Str
  pub path : Str
  pub global_name : Str

pub record Artifact : Type 0 where
  pub name : Str
  pub path : Str
  pub s3_key : Str
  pub optional : Bool

-- `workflowsv1.Template`, but for the template with the tasks of a flow.
pub record Template : Type 0 where
  pub name : Str
  pub active_deadline_seconds : Option ℕ
  pub inputs : List Parameter
  pub container : Option Container
  pub container_set : Option ContainerSet
  pub volumes : List Volume
  pub output_parameters : List OutputParameter
  pub output_artifacts : List Artifact
  pub mutexes : List Str

abbrev pub image_registry : Str
image_registry = codes "ghcr.io/"

abbrev pub github_app_id : Str
github_app_id = codes "1682308"

abbrev pub github_app_user_id : Str
github_app_user_id = codes "223206062"

abbrev pub github_app_user_name : Str
github_app_user_name = codes "jettisonproj[bot]"

abbrev pub deploy_steps_github_check_image : Str
deploy_steps_github_check_image =
    codes "ghcr.io/jettisonproj/deploy-steps/github-check:e0d5ee67db38370b45a574df26e4c98fe2b36a5c"

abbrev pub deploy_steps_argo_cd_image : Str
deploy_steps_argo_cd_image =
    codes "ghcr.io/jettisonproj/deploy-steps/argocd:b1bd723eae2a563d92f6593bf571d8b7f6ace363"

abbrev pub deploy_steps_docker_build_diff_check_image : Str
deploy_steps_docker_build_diff_check_image =
    codes
      "ghcr.io/jettisonproj/deploy-steps/docker-build-diff-check:ba8c89a72600d23e81065c8d215ff35524d9aae8"

abbrev pub deploy_steps_docker_build_image : Str
deploy_steps_docker_build_image =
    codes "ghcr.io/jettisonproj/deploy-steps/docker-build:6d13a90de9809f9a122324b7c0407ed33af920fa"

abbrev pub deploy_steps_github_create_pr : Str
deploy_steps_github_create_pr =
    codes "ghcr.io/jettisonproj/deploy-steps/create-pr:636f1db062a7f8fd5b1a8d177a310e1412d525a8"
