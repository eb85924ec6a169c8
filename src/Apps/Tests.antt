-- ===== src/Apps/Tests.antt =====
-- Two deploy steps of two organisations, and the theorems of `Laws` at them.
use jettison_controller.Common.{◌≡◌, refl, true, List, [], ◌∷◌, map, none, some, All}
use jettison_controller.Common.Results.{ok, ◌>>=◌}
use jettison_controller.Text.{
  Str, codes, Str-discrete, contains, cut_prefix, trim_suffix, split, replace_all,
}
use jettison_controller.GitUtil.{get_repo_org_name}
use jettison_controller.Flow.{ArgoCdStep, Step, argo_cd}
use jettison_controller.Apps.{
  AppProject, Application, get_app_name, build_application, build_argo_apps,
}
use jettison_controller.Apps.Laws.{
  app_name, project_of, application_of, deployments, distinct_from, build_argo_apps_lem,
}
use jettison_controller.Apps.Laws.Names.{NoRepeats, Covered, build_argo_apps-names}
use jettison_controller.Apps.Laws.Collisions.{build_argo_apps_collision}

abbrev deploy : Str → Str → ArgoCdStep
deploy url path = record {
  base = record {
    step_name = some (codes "deploy");
    step_source = codes "ArgoCD";
    depends_on = codes "publish" ∷ [];
    volumes = [];
    volume_mounts = [];
  };
  repo_url = url;
  repo_path = path;
  base_ref = none;
  pause_reason = none;
}

abbrev dev : ArgoCdStep
dev = deploy (codes "https://github.com/acme/demo-argo-configs.git") (codes "dev")

abbrev other_dev : ArgoCdStep
other_dev = deploy (codes "https://github.com/umbrella/demo-argo-configs.git") (codes "dev")

abbrev steps : List Step
steps = argo_cd dev ∷ argo_cd other_dev ∷ []

dev_repo : get_repo_org_name dev.repo_url ≡ ok (codes "acme", codes "demo-argo-configs")
unfolding get_repo_org_name codes Str-discrete cut_prefix trim_suffix split
dev_repo = refl

other_dev_repo :
    get_repo_org_name other_dev.repo_url ≡ ok (codes "umbrella", codes "demo-argo-configs")
unfolding get_repo_org_name codes Str-discrete cut_prefix trim_suffix split
other_dev_repo = refl

dev_name : get_app_name (codes "demo-argo-configs") (codes "dev") ≡ codes "demo-dev"
unfolding get_app_name codes Str-discrete trim_suffix replace_all
dev_name = refl

nested_name : get_app_name (codes "demo") (codes "env/dev/") ≡ codes "demo-env-dev-"
unfolding get_app_name codes Str-discrete trim_suffix replace_all
nested_name = refl

collided :
    (projects : List AppProject) × (build_argo_apps steps
      ≡ ok (
        projects,
        build_application
              (codes "acme")
              (get_app_name (codes "demo-argo-configs") (codes "dev"))
              dev
            ∷ [],
      ))
collided =
    build_argo_apps_collision dev other_dev (codes "acme") (codes "demo-argo-configs")
      (codes "umbrella") (codes "demo-argo-configs") dev_repo other_dev_repo refl

build_argo_apps_collision_example :
    (projects : List AppProject) × (build_argo_apps steps
      ≡ ok (
        projects,
        build_application
              (codes "acme")
              (get_app_name (codes "demo-argo-configs") (codes "dev"))
              dev
            ∷ [],
      ))
build_argo_apps_collision_example =
    build_argo_apps_collision dev other_dev (codes "acme") (codes "demo-argo-configs")
      (codes "umbrella") (codes "demo-argo-configs") dev_repo other_dev_repo refl

build_argo_apps_lem_example : build_argo_apps steps ≡ (
    deployments steps >>= λ ds. ok (
      map project_of (distinct_from (λ d. d.repo_org) [] ds),
      map application_of (distinct_from app_name [] ds),
    ))
build_argo_apps_lem_example = build_argo_apps_lem steps

build_argo_apps-names_example :
    let projects = collided.0 in
    let applications : List Application =
      build_application (codes "acme") (get_app_name (codes "demo-argo-configs") (codes "dev")) dev
      ∷ [] in
    NoRepeats [] (map (λ p. p.name) projects)
    × NoRepeats [] (map (λ a. a.name) applications)
    × All (Covered projects applications) steps
    × All (λ a. contains (map (λ p. p.name) projects) a.project ≡ true) applications
build_argo_apps-names_example = build_argo_apps-names steps _ _ collided.1
