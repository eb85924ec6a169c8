-- ===== src/Templates/Checks.antt =====
-- The templates that start and complete a GitHub check: internal/workflowtemplates.
use jettison_controller.Common.{[], ◌∷◌, none, some, false}
use jettison_controller.Text.{codes}
use jettison_controller.Flow.{secret}
use jettison_controller.Templates.{
  Container, Template, required, given, mount, volume, github_app_id,
  deploy_steps_github_check_image,
}

abbrev github_check_start_container : Container
github_check_start_container = record {
  name = [];
  image = deploy_steps_github_check_image;
  args =
      codes "./github-check-start.sh"
      ∷ codes "{{inputs.parameters.github-app-id}}"
      ∷ codes "/github-key/private-key.pem"
      ∷ codes "{{inputs.parameters.repo-short}}"
      ∷ codes "{{inputs.parameters.workflow-url}}"
      ∷ codes "{{inputs.parameters.event-type}}"
      ∷ codes "{{inputs.parameters.revision}}"
      ∷ codes "/tmp/check-run-id.txt"
      ∷ [];
  env = [];
  unconfined = false;
  volume_mounts = mount (codes "github-key") (codes "/github-key") ∷ [];
  dependencies = [];
}

abbrev pub github_check_start_template : Template
github_check_start_template = record {
  name = codes "deploy-step-github-check-start";
  active_deadline_seconds = some 300;
  inputs =
      given (codes "github-app-id") github_app_id
      ∷ required (codes "repo-short")
      ∷ given (codes "workflow-url")
          (codes "https://argo.osoriano.com/workflows/{{workflow.namespace}}/{{workflow.name}}")
      ∷ required (codes "event-type")
      ∷ required (codes "revision")
      ∷ [];
  container = some github_check_start_container;
  container_set = none;
  volumes = volume (codes "github-key") (secret (codes "github-key")) ∷ [];
  output_parameters =
      record {
        name = codes "check-run-id";
        path = codes "/tmp/check-run-id.txt";
        global_name = codes "check-run-id";
      }
      ∷ [];
  output_artifacts = [];
  mutexes = [];
}

abbrev github_check_complete_container : Container
github_check_complete_container = record {
  name = [];
  image = deploy_steps_github_check_image;
  args =
      codes "./github-check-complete.sh"
      ∷ codes "{{inputs.parameters.github-app-id}}"
      ∷ codes "/github-key/private-key.pem"
      ∷ codes "{{inputs.parameters.repo-short}}"
      ∷ codes "{{inputs.parameters.workflow-url}}"
      ∷ codes "{{inputs.parameters.event-type}}"
      ∷ codes "{{inputs.parameters.check-run-id}}"
      ∷ codes "{{inputs.parameters.workflow-status}}"
      ∷ [];
  env = [];
  unconfined = false;
  volume_mounts = mount (codes "github-key") (codes "/github-key") ∷ [];
  dependencies = [];
}

abbrev pub github_check_complete_template : Template
github_check_complete_template = record {
  name = codes "deploy-step-github-check-complete";
  active_deadline_seconds = some 300;
  inputs =
      given (codes "github-app-id") github_app_id
      ∷ required (codes "repo-short")
      ∷ given (codes "workflow-url")
          (codes "https://argo.osoriano.com/workflows/{{workflow.namespace}}/{{workflow.name}}")
      ∷ required (codes "event-type")
      ∷ required (codes "check-run-id")
      ∷ required (codes "workflow-status")
      ∷ [];
  container = some github_check_complete_container;
  container_set = none;
  volumes = volume (codes "github-key") (secret (codes "github-key")) ∷ [];
  output_parameters = [];
  output_artifacts = [];
  mutexes = [];
}
