-- ===== src/Apps/Laws.antt =====
-- `BuildArgoApps` against a description without a loop: one project for each organisation and one
-- application for each application name, at the first step that asks for it.
pub mod Names
pub mod Collisions
use jettison_controller.Common.{
  ◌≡◌, refl, sym, inl, inr, true, false, List, [], ◌∷◌, ◌++◌, append_assoc, append-nil, map, arith,
}
use jettison_controller.Common.Results.{Result, ok, ◌>>=◌, Result-cases}
use jettison_controller.Text.{Str, contains}
use jettison_controller.GitUtil.{GitError, get_repo_org_name}
use jettison_controller.Flow.{
  ArgoCdStep, Step, docker_build_test, docker_build_test_publish, argo_cd, github_create_pr,
}
use jettison_controller.Apps.{
  AppProject, Application, Apps, no_apps, get_app_name, build_project, build_application, add_step,
  build_loop, build_argo_apps,
}

-- A deploy step with the organisation and the name of its config repository.
pub record Deployment : Type 0 where
  pub repo_org : Str
  pub repo_name : Str
  pub step : ArgoCdStep

abbrev pub app_name : Deployment → Str
app_name d = get_app_name d.repo_name d.step.repo_path

abbrev pub project_of : Deployment → AppProject
project_of d = build_project d.repo_org

abbrev pub application_of : Deployment → Application
application_of d = build_application d.repo_org (app_name d) d.step

-- The deploy steps of a flow, in order, or the error of the first URL that is not accepted.
pub deployments : List Step → Result GitError (List Deployment)
deployments [] = ok []
deployments (argo_cd step ∷ steps) = do
  (repo_org, repo_name) ← get_repo_org_name step.repo_url
  ds ← deployments steps
  ok (record { repo_org = repo_org; repo_name = repo_name; step = step } ∷ ds)
deployments (docker_build_test _ ∷ steps) = deployments steps
deployments (docker_build_test_publish _ ∷ steps) = deployments steps
deployments (github_create_pr _ ∷ steps) = deployments steps

module _ {A : Type 0} (key : A → Str) where
  -- The first element for each key that was not seen before.
  pub distinct_from : List Str → List A → List A
  distinct_from seen [] = []
  distinct_from seen (x ∷ xs) = elim (contains seen (key x)) [
    | true ↦ distinct_from seen xs
    | false ↦ x ∷ distinct_from (key x ∷ seen) xs
  ]

add_all : List Deployment → Apps → Apps
add_all [] a = a
add_all (d ∷ ds) a = add_all ds (add_step d.repo_org d.repo_name d.step a)

build_loop-deployments :
    (steps : List Step) (a : Apps)
    → build_loop steps a ≡ (deployments steps >>= λ ds. ok (add_all ds a))
unfolding build_loop deployments add_all
build_loop-deployments [] a = refl
build_loop-deployments (argo_cd step ∷ steps) a =
    elim (Result-cases (get_repo_org_name step.repo_url)) [
      | inl ((repo_org, repo_name), found) ↦
          ground (arith, build_loop-deployments steps (add_step repo_org repo_name step a))
      | inr (inl (e, refused)) ↦ ground arith
      | inr (inr refused) ↦ ground arith
    ]
build_loop-deployments (docker_build_test _ ∷ steps) a = build_loop-deployments steps a
build_loop-deployments (docker_build_test_publish _ ∷ steps) a = build_loop-deployments steps a
build_loop-deployments (github_create_pr _ ∷ steps) a = build_loop-deployments steps a

projects-add_all :
    (ds : List Deployment) (a : Apps)
    → (add_all ds a).projects
      ≡ a.projects ++ map project_of (distinct_from (λ d. d.repo_org) a.project_names ds)
unfolding add_all add_step distinct_from
projects-add_all [] a = sym (append-nil a.projects)
projects-add_all (d ∷ ds) a = ground (
  arith,
  projects-add_all ds (add_step d.repo_org d.repo_name d.step a),
  append_assoc a.projects (project_of d ∷ [])
      (map project_of (distinct_from (λ d. d.repo_org) (d.repo_org ∷ a.project_names) ds)),
)

applications-add_all :
    (ds : List Deployment) (a : Apps)
    → (add_all ds a).applications
      ≡ a.applications ++ map application_of (distinct_from app_name a.app_names ds)
unfolding add_all add_step distinct_from
applications-add_all [] a = sym (append-nil a.applications)
applications-add_all (d ∷ ds) a = ground (
  arith,
  applications-add_all ds (add_step d.repo_org d.repo_name d.step a),
  append_assoc a.applications (application_of d ∷ [])
      (map application_of (distinct_from app_name (app_name d ∷ a.app_names) ds)),
)

-- The loop that builds the Argo CD projects and applications gives what a description without a
-- loop gives, errors included: the deployments of the steps, up to the first that is not read,
-- then a project for each first occurrence of an organisation and an application for each first
-- occurrence of an application name.
pub build_argo_apps_lem :
    (steps : List Step)
    → build_argo_apps steps ≡ (
        deployments steps >>= λ ds. ok (
          map project_of (distinct_from (λ d. d.repo_org) [] ds),
          map application_of (distinct_from app_name [] ds),
        ))
unfolding build_argo_apps
build_argo_apps_lem steps = elim (Result-cases (deployments steps)) [
  | inl (ds, found) ↦ ground (
    arith,
    build_loop-deployments steps no_apps,
    projects-add_all ds no_apps,
    applications-add_all ds no_apps,
  )
  | inr (inl (e, refused)) ↦ ground (arith, build_loop-deployments steps no_apps)
  | inr (inr refused) ↦ ground (arith, build_loop-deployments steps no_apps)
]
