-- ===== src/Apps.antt =====
-- internal/controller/appbuilder/app_builder.go: the ArgoCD projects and applications of a flow.
pub mod Laws
mod Tests
use jettison_controller.Common.{Bool, true, List, [], ◌∷◌, ◌++◌, Option, none, some, if◌then◌else◌}
use jettison_controller.Common.Results.{Result, ok, ◌>>=◌}
use jettison_controller.Text.{
  Str, codes, slash, ◌==◌, contains, trim_suffix, replace_all, trim_space,
}
use jettison_controller.GitUtil.{GitError, get_repo_org_name, get_source_repo_glob}
use jettison_controller.Flow.{
  ArgoCdStep, Step, docker_build_test, docker_build_test_publish, argo_cd, github_create_pr,
}

abbrev argocd_namespace : Str
argocd_namespace = codes "argocd"

abbrev pub config_repo_suffix : Str
config_repo_suffix = codes "-argo-configs"

abbrev default_finalizer : Str
default_finalizer = codes "resources-finalizer.argocd.argoproj.io"

abbrev target_revision : Str
target_revision = codes "HEAD"

abbrev destination_server : Str
destination_server = codes "https://kubernetes.default.svc"

abbrev sync_option : Str
sync_option = codes "CreateNamespace=true"

-- The types of the ArgoCD API, with the fields that the program sets. `TypeMeta` is constant.
pub record Destination : Type 0 where
  pub server : Str
  pub namespace : Str

pub record ClusterResource : Type 0 where
  pub group : Str
  pub kind : Str
  pub name : Str

pub record AppProject : Type 0 where
  pub name : Str
  pub namespace : Str
  pub source_repos : List Str
  pub destinations : List Destination
  pub source_namespaces : List Str
  pub cluster_resource_whitelist : List ClusterResource

pub record Application : Type 0 where
  pub name : Str
  pub namespace : Str
  pub finalizers : List Str
  pub repo_url : Str
  pub path : Str
  pub target_revision : Str
  pub destination : Destination
  pub project : Str
  pub prune : Bool
  pub self_heal : Bool
  pub enabled : Bool
  pub sync_options : List Str
  pub refresh : Bool

unfoldable pub get_app_name : Str → Str → Str
get_app_name repo_name repo_path =
    trim_suffix repo_name config_repo_suffix
    ++ (codes "-" ++ replace_all repo_path (slash ∷ []) (codes "-"))

unfoldable pub build_project : Str → AppProject
build_project repo_org = record {
  name = repo_org;
  namespace = argocd_namespace;
  source_repos = get_source_repo_glob repo_org ∷ [];
  destinations = record { server = destination_server; namespace = repo_org } ∷ [];
  source_namespaces = repo_org ∷ [];
  cluster_resource_whitelist =
      record { group = codes "*"; kind = codes "*"; name = repo_org ++ codes "-*" } ∷ [];
}

-- `step.PauseReason == nil || strings.TrimSpace(*step.PauseReason) == ""`
abbrev pub step_enabled : Option Str → Bool
step_enabled none = true
step_enabled (some reason) = trim_space reason == []

unfoldable pub build_application : Str → Str → ArgoCdStep → Application
build_application repo_org app_name step = record {
  name = app_name;
  namespace = repo_org;
  finalizers = default_finalizer ∷ [];
  repo_url = step.repo_url;
  path = step.repo_path;
  target_revision = target_revision;
  destination = record { server = destination_server; namespace = repo_org };
  project = repo_org;
  prune = true;
  self_heal = true;
  enabled = step_enabled step.pause_reason;
  sync_options = sync_option ∷ [];
  refresh = true;
}

-- The variables of the loop. The two sets hold the names of what was appended.
pub record Apps : Type 0 where
  pub projects : List AppProject
  pub applications : List Application
  pub project_names : List Str
  pub app_names : List Str

add_project : Str → Apps → Apps
unfolding build_project
add_project repo_org a = if contains a.project_names repo_org then a else record a {
  projects = a.projects ++ (build_project repo_org ∷ []);
  project_names = repo_org ∷ a.project_names;
}

add_application : Str → Str → ArgoCdStep → Apps → Apps
unfolding build_application
add_application repo_org app_name step a = if contains a.app_names app_name then a else record a {
  applications = a.applications ++ (build_application repo_org app_name step ∷ []);
  app_names = app_name ∷ a.app_names;
}

-- The body of the loop, with the organisation and the name that the URL of the step gave.
add_step : Str → Str → ArgoCdStep → Apps → Apps
unfolding add_project add_application
add_step repo_org repo_name step a =
    add_application repo_org (get_app_name repo_name step.repo_path) step (add_project repo_org a)

-- The loop over the steps that are left.
build_loop : List Step → Apps → Result GitError Apps
unfolding add_step
build_loop [] a = ok a
build_loop (argo_cd step ∷ steps) a = do
  (repo_org, repo_name) ← get_repo_org_name step.repo_url
  build_loop steps (add_step repo_org repo_name step a)
build_loop (docker_build_test _ ∷ steps) a = build_loop steps a
build_loop (docker_build_test_publish _ ∷ steps) a = build_loop steps a
build_loop (github_create_pr _ ∷ steps) a = build_loop steps a

abbrev pub no_apps : Apps
no_apps = record { projects = []; applications = []; project_names = []; app_names = [] }

unfoldable pub build_argo_apps : List Step → Result GitError (List AppProject × List Application)
unfolding build_loop
build_argo_apps steps = do a ← build_loop steps no_apps; ok (a.projects, a.applications)
