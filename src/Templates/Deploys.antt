-- ===== src/Templates/Deploys.antt =====
-- The templates that deploy an image: internal/workflowtemplates.
use jettison_controller.Common.{[], ◌∷◌, none, some, false}
use jettison_controller.Text.{codes}
use jettison_controller.Flow.{secret}
use jettison_controller.Templates.{
  Container, Template, required, given, mount, volume, image_registry, github_app_id,
  github_app_user_id, github_app_user_name, deploy_steps_argo_cd_image,
  deploy_steps_github_create_pr,
}

abbrev argo_cd_container : Container
argo_cd_container = record {
  name = [];
  image = deploy_steps_argo_cd_image;
  args =
      codes "./deploy-step-argocd.sh"
      ∷ codes "{{inputs.parameters.deploy-repo}}"
      ∷ codes "{{inputs.parameters.deploy-revision}}"
      ∷ codes "{{inputs.parameters.github-app-id}}"
      ∷ codes "{{inputs.parameters.github-app-user-id}}"
      ∷ codes "{{inputs.parameters.github-app-user-name}}"
      ∷ codes "/github-key/private-key.pem"
      ∷ codes "{{inputs.parameters.resource-path}}"
      ∷ codes "{{inputs.parameters.image-registry}}"
      ∷ codes "{{inputs.parameters.image-repo}}"
      ∷ codes "{{inputs.parameters.build-revision}}"
      ∷ codes "{{inputs.parameters.dockerfile-dir}}"
      ∷ codes "{{inputs.parameters.argocd-app-namespace}}"
      ∷ codes "{{inputs.parameters.argocd-app-name}}"
      ∷ codes "/tmp/jettison-deploy-step-status.txt"
      ∷ [];
  env = [];
  unconfined = false;
  volume_mounts = mount (codes "github-key") (codes "/github-key") ∷ [];
  dependencies = [];
}

abbrev pub argo_cd_template : Template
argo_cd_template = record {
  name = codes "deploy-step-argocd";
  active_deadline_seconds = none;
  inputs =
      required (codes "deploy-repo")
      ∷ required (codes "deploy-revision")
      ∷ given (codes "github-app-id") github_app_id
      ∷ given (codes "github-app-user-id") github_app_user_id
      ∷ given (codes "github-app-user-name") github_app_user_name
      ∷ required (codes "resource-path")
      ∷ required (codes "image-repo")
      ∷ required (codes "build-revision")
      ∷ required (codes "dockerfile-dir")
      ∷ given (codes "image-registry") image_registry
      ∷ required (codes "argocd-app-namespace")
      ∷ required (codes "argocd-app-name")
      ∷ [];
  container = some argo_cd_container;
  container_set = none;
  volumes = volume (codes "github-key") (secret (codes "github-key")) ∷ [];
  output_parameters =
      record {
        name = codes "jettison-deploy-step-status";
        path = codes "/tmp/jettison-deploy-step-status.txt";
        global_name = [];
      }
      ∷ [];
  output_artifacts = [];
  mutexes = codes "{{inputs.parameters.deploy-repo}}/{{inputs.parameters.resource-path}}" ∷ [];
}

abbrev github_create_pr_container : Container
github_create_pr_container = record {
  name = [];
  image = deploy_steps_github_create_pr;
  args =
      codes "./deploy-step-create-pr.sh"
      ∷ codes "{{inputs.parameters.target-repo}}"
      ∷ codes "{{inputs.parameters.target-repo-short-name}}"
      ∷ codes "{{inputs.parameters.target-branch}}"
      ∷ codes "{{inputs.parameters.github-app-id}}"
      ∷ codes "{{inputs.parameters.github-app-user-id}}"
      ∷ codes "{{inputs.parameters.github-app-user-name}}"
      ∷ codes "/github-key/private-key.pem"
      ∷ codes "{{inputs.parameters.file-paths}}"
      ∷ codes "{{inputs.parameters.image-registry}}"
      ∷ codes "{{inputs.parameters.image-repo}}"
      ∷ codes "{{inputs.parameters.build-revision}}"
      ∷ codes "{{inputs.parameters.dockerfile-dir}}"
      ∷ codes "/tmp/jettison-created-pr-number.txt"
      ∷ [];
  env = [];
  unconfined = false;
  volume_mounts = mount (codes "github-key") (codes "/github-key") ∷ [];
  dependencies = [];
}

abbrev pub github_create_pr_template : Template
github_create_pr_template = record {
  name = codes "deploy-step-create-pr";
  active_deadline_seconds = none;
  inputs =
      required (codes "target-repo")
      ∷ required (codes "target-repo-short-name")
      ∷ required (codes "target-branch")
      ∷ given (codes "github-app-id") github_app_id
      ∷ given (codes "github-app-user-id") github_app_user_id
      ∷ given (codes "github-app-user-name") github_app_user_name
      ∷ required (codes "file-paths")
      ∷ required (codes "image-repo")
      ∷ required (codes "build-revision")
      ∷ required (codes "dockerfile-dir")
      ∷ given (codes "image-registry") image_registry
      ∷ [];
  container = some github_create_pr_container;
  container_set = none;
  volumes = volume (codes "github-key") (secret (codes "github-key")) ∷ [];
  output_parameters =
      record {
        name = codes "jettison-created-pr-number";
        path = codes "/tmp/jettison-created-pr-number.txt";
        global_name = [];
      }
      ∷ [];
  output_artifacts = [];
  mutexes = [];
}
