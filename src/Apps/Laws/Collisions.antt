-- ===== src/Apps/Laws/Collisions.antt =====
-- Two deploy steps whose applications have one name.
use jettison_controller.Common.{◌≡◌, [], ◌∷◌, arith, List, map}
use jettison_controller.Common.Results.{ok}
use jettison_controller.Text.{Str}
use jettison_controller.GitUtil.{get_repo_org_name}
use jettison_controller.Flow.{ArgoCdStep, argo_cd}
use jettison_controller.Apps.{AppProject, get_app_name, build_application, build_argo_apps}
use jettison_controller.Apps.Laws.{
  deployments, distinct_from, build_argo_apps_lem, Deployment, project_of,
}

-- Of two deploy steps whose repository URLs are read and whose applications have one name, only
-- the first gets an application, in the namespace of its organisation; so too where the second
-- has another organisation or another path.
pub build_argo_apps_collision :
    (s t : ArgoCdStep) (org name org' name' : Str)
    → get_repo_org_name s.repo_url ≡ ok (org, name)
    → get_repo_org_name t.repo_url ≡ ok (org', name')
    → get_app_name name s.repo_path ≡ get_app_name name' t.repo_path
    → (projects : List AppProject) × (build_argo_apps (argo_cd s ∷ argo_cd t ∷ [])
        ≡ ok (projects, build_application org (get_app_name name s.repo_path) s ∷ []))
unfolding deployments distinct_from
build_argo_apps_collision s t org name org' name' found found' same =
    let d : Deployment = record { repo_org = org; repo_name = name; step = s } in
    let e : Deployment = record { repo_org = org'; repo_name = name'; step = t } in
    (
      map project_of (distinct_from (λ d. d.repo_org) [] (d ∷ e ∷ [])),
      rw (build_argo_apps_lem (argo_cd s ∷ argo_cd t ∷ [])) (ground arith),
    )
