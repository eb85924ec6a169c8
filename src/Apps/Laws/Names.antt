-- ===== src/Apps/Laws/Names.antt =====
-- The names of the projects and applications: none twice, and none missing.
use mathlib.Core.Path.{subst}
use jettison_controller.Common.{
  ◌≡◌, refl, sym, ap, true, false, ◌||◌, List, [], ◌∷◌, map, arith, All, inl, inr, Bool-cases,
}
use jettison_controller.Common.Results.{ok, >>=-eq-ok, ok-injective}
use jettison_controller.Text.{Str, contains}
use jettison_controller.GitUtil.{get_repo_org_name}
use jettison_controller.Flow.{
  Step, docker_build_test, docker_build_test_publish, argo_cd, github_create_pr,
}
use jettison_controller.Apps.{
  AppProject, Application, get_app_name, build_project, build_application, build_argo_apps,
}
use jettison_controller.Apps.Laws.{
  Deployment, app_name, project_of, application_of, deployments, distinct_from, build_argo_apps_lem,
}

-- No name stands twice in a list, and none is one of those seen before it.
abbrev pub NoRepeats : List Str → List Str → Type 0
NoRepeats seen [] = Unit
NoRepeats seen (x ∷ xs) = (contains seen x ≡ false) × NoRepeats (x ∷ seen) xs

module _ {A : Type 0} (key : A → Str) where
  distinct_from-NoRepeats :
      (seen : List Str) (xs : List A) → NoRepeats seen (map key (distinct_from key seen xs))
  unfolding distinct_from
  distinct_from-NoRepeats seen [] = tt
  distinct_from-NoRepeats seen (x ∷ xs) =
      ground (arith, distinct_from-NoRepeats seen xs, distinct_from-NoRepeats (key x ∷ seen) xs)

  contains-distinct_from :
      (seen : List Str) (xs : List A) (k : Str)
      → (contains (map key (distinct_from key seen xs)) k || contains seen k)
        ≡ (contains (map key xs) k || contains seen k)
  unfolding distinct_from
  contains-distinct_from seen [] k = refl
  contains-distinct_from seen (x ∷ xs) k =
      ground (arith, contains-distinct_from seen xs k, contains-distinct_from (key x ∷ seen) xs k)

project_names_of :
    (ds : List Deployment) → map (λ p. p.name) (map project_of ds) ≡ map (λ d. d.repo_org) ds
unfolding build_project
project_names_of [] = refl
project_names_of (d ∷ ds) = ap (λ r. d.repo_org ∷ r) (project_names_of ds)

application_names_of :
    (ds : List Deployment) → map (λ p. p.name) (map application_of ds) ≡ map app_name ds
unfolding build_application
application_names_of [] = refl
application_names_of (d ∷ ds) = ap (λ r. app_name d ∷ r) (application_names_of ds)

-- A deploy step has its project and its application.
abbrev pub Covered : List AppProject → List Application → Step → Type 0
Covered projects applications (argo_cd step) =
    (repo_org repo_name : Str)
    → get_repo_org_name step.repo_url ≡ ok (repo_org, repo_name)
    → (contains (map (λ p. p.name) projects) repo_org ≡ true)
      × (contains (map (λ a. a.name) applications) (get_app_name repo_name step.repo_path) ≡ true)
Covered projects applications (docker_build_test _) = Unit
Covered projects applications (docker_build_test_publish _) = Unit
Covered projects applications (github_create_pr _) = Unit

built :
    (steps : List Step) (projects : List AppProject) (applications : List Application)
    → build_argo_apps steps ≡ ok (projects, applications)
    → (ds : List Deployment) × (deployments steps ≡ ok ds)
      × (projects ≡ map project_of (distinct_from (λ d. d.repo_org) [] ds))
      × (applications ≡ map application_of (distinct_from app_name [] ds))
built steps projects applications h = ground (arith, build_argo_apps_lem steps)

module _ (projects : List AppProject) (applications : List Application) where
  abbrev Named : Deployment → Type 0
  Named d =
      (contains (map (λ p. p.name) projects) d.repo_org ≡ true)
      × (contains (map (λ a. a.name) applications) (app_name d) ≡ true)

  deployment-Covered :
      (steps : List Step) (ds : List Deployment)
      → deployments steps ≡ ok ds
      → All Named ds
      → All (Covered projects applications) steps
  unfolding deployments
  deployment-Covered [] ds e h = tt
  deployment-Covered (argo_cd step ∷ steps) ds e h =
      let ((repo_org, repo_name), found, more) = >>=-eq-ok (get_repo_org_name step.repo_url) _ e in
      let (rest, others, whole) = >>=-eq-ok (deployments steps) _ more in
      let named = subst (All Named) (sym (ok-injective whole)) h in
      (λ o n again. ground (arith, named.0), deployment-Covered steps rest others named.1)
  deployment-Covered (docker_build_test _ ∷ steps) ds e h = (tt, deployment-Covered steps ds e h)
  deployment-Covered (docker_build_test_publish _ ∷ steps) ds e h =
      (tt, deployment-Covered steps ds e h)
  deployment-Covered (github_create_pr _ ∷ steps) ds e h = (tt, deployment-Covered steps ds e h)

All-contains :
    {A : Type 0} (key : A → Str) (names : List Str) (xs : List A)
    → ((k : Str) → contains (map key xs) k ≡ true → contains names k ≡ true)
    → All (λ x. contains names (key x) ≡ true) xs
All-contains key names [] h = tt
All-contains key names (x ∷ xs) h =
    (h (key x) (ground arith), All-contains key names xs (λ k m. h k (ground arith)))

All-distinct_from :
    {A : Type 0} (P : A → Type 0) (key : A → Str) (seen : List Str) (xs : List A)
    → All P xs
    → All P (distinct_from key seen xs)
unfolding distinct_from
All-distinct_from P key seen [] _ = tt
All-distinct_from P key seen (x ∷ xs) (h, hs) = elim (Bool-cases (contains seen (key x))) [
  | inl old ↦ rw (old, distinct_from) (All-distinct_from P key seen xs hs)
  | inr new ↦ rw (new, distinct_from) (h, All-distinct_from P key (key x ∷ seen) xs hs)
]

module _ (ds : List Deployment) where
  abbrev projects_of : List AppProject
  projects_of = map project_of (distinct_from (λ d. d.repo_org) [] ds)

  abbrev applications_of : List Application
  applications_of = map application_of (distinct_from app_name [] ds)

  project_named :
      (k : Str)
      → contains (map (λ d. d.repo_org) ds) k ≡ true
      → contains (map (λ p. p.name) projects_of) k ≡ true
  project_named k h =
      rw (project_names_of (distinct_from (λ d. d.repo_org) [] ds))
        (ground (arith, contains-distinct_from (λ (d : Deployment). d.repo_org) [] ds k))

  application_named :
      (k : Str)
      → contains (map app_name ds) k ≡ true
      → contains (map (λ a. a.name) applications_of) k ≡ true
  application_named k h =
      rw (application_names_of (distinct_from app_name [] ds))
        (ground (arith, contains-distinct_from app_name [] ds k))

  abbrev HasProject : Application → Type 0
  HasProject a = contains (map (λ p. p.name) projects_of) a.project ≡ true

  All-HasProject :
      (es : List Deployment)
      → All (λ d. contains (map (λ p. p.name) projects_of) d.repo_org ≡ true) es
      → All HasProject (map application_of es)
  unfolding build_application
  All-HasProject [] h = tt
  All-HasProject (e ∷ es) (h, hs) = (h, All-HasProject es hs)

All-both :
    {A : Type 0} (P Q : A → Type 0) (xs : List A) → All P xs → All Q xs → All (λ x. P x × Q x) xs
All-both P Q [] p q = tt
All-both P Q (x ∷ xs) (p, ps) (q, qs) = ((p, q), All-both P Q xs ps qs)

-- If the projects and applications are built, no two projects and no two applications have one
-- name, each deploy step has a project of its organisation and an application of its name, and
-- each application is in one of the projects.
pub build_argo_apps-names :
    (steps : List Step) (projects : List AppProject) (applications : List Application)
    → build_argo_apps steps ≡ ok (projects, applications)
    → NoRepeats [] (map (λ p. p.name) projects)
      × NoRepeats [] (map (λ a. a.name) applications)
      × All (Covered projects applications) steps
      × All (λ a. contains (map (λ p. p.name) projects) a.project ≡ true) applications
build_argo_apps-names steps projects applications h =
    let (ds, found, same_projects, same_applications) = built steps projects applications h in
    let in_project = All-contains (λ (d : Deployment). d.repo_org) _ ds (project_named ds) in
    let in_application = All-contains app_name _ ds (application_named ds) in
    rw (same_projects, same_applications)
      (
        rw (project_names_of (distinct_from (λ d. d.repo_org) [] ds))
            (distinct_from-NoRepeats (λ (d : Deployment). d.repo_org) [] ds),
        rw (application_names_of (distinct_from app_name [] ds))
            (distinct_from-NoRepeats app_name [] ds),
        deployment-Covered (projects_of ds) (applications_of ds) steps ds found
            (All-both _ _ ds in_project in_application),
        All-HasProject ds (distinct_from app_name [] ds)
            (All-distinct_from _ app_name [] ds in_project),
      )
