-- ===== src/Templates/Cicd.antt =====
-- The cluster workflow template with all templates: `CICDTemplate` of internal/workflowtemplates.
use jettison_controller.Common.{List, [], ◌∷◌}
use jettison_controller.Text.{Str, codes}
use jettison_controller.Templates.{Template}
use jettison_controller.Templates.Checks.{
  github_check_start_template, github_check_complete_template,
}
use jettison_controller.Templates.Builds.{
  docker_build_test_template, docker_build_test_publish_template,
}
use jettison_controller.Templates.Deploys.{argo_cd_template, github_create_pr_template}

abbrev pub cicd_template_name : Str
cicd_template_name = codes "cicd-templates"

abbrev pub cicd_templates : List Template
cicd_templates =
    github_check_start_template ∷ docker_build_test_template ∷ docker_build_test_publish_template
    ∷ argo_cd_template ∷ github_create_pr_template ∷ github_check_complete_template ∷ []
