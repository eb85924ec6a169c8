-- ===== src/EventSources.antt =====
-- The event source with the repositories that get webhooks:
-- internal/controller/eventsourcebuilder/eventsource_builder.go, and of
-- internal/controller/flow_controller.go the functions getTriggerRepoName, getTriggerRepoUrl and
-- mergeOwnedRepos.
pub mod Laws
pub mod Tests
use jettison_controller.Common.{
  ℕ, Bool, true, false, List, [], ◌∷◌, ◌++◌, Option, none, some, if◌then◌else◌,
}
use jettison_controller.Common.Results.{Result, ok, err, panic, ◌>>=◌, wrap}
use jettison_controller.Text.{Str, codes, ◌==◌, contains}
use jettison_controller.GitUtil.{GitError, get_repo_org_name}
use jettison_controller.Flow.{Trigger, pull_request, push}

pub record OwnedRepositories : Type 0 where
  pub owner : Str
  pub names : List Str

-- The fields of `GithubEventSource` other than the repositories, as the builder sets them.
pub record GithubSettings : Type 0 where
  pub endpoint : Str
  pub method : Str
  pub port : Str
  pub url : Str
  pub events : List Str
  pub api_token : Str × Str
  pub webhook_secret : Str × Str
  pub insecure : Bool
  pub active : Bool
  pub content_type : Str

-- Without settings, it has the zero values.
pub record GithubEventSource : Type 0 where
  pub settings : Option GithubSettings
  pub repositories : List OwnedRepositories

-- `Spec.Github`, a map; `none` is the nil map.
abbrev pub Sections : Type 0
Sections = Option (List (Str × GithubEventSource))

pub record EventSource : Type 0 where
  pub name : Str
  pub namespace : Str
  pub service_port : Str × ℕ
  pub github : Sections

abbrev pub event_source_section_name : Str
event_source_section_name = codes "ghwebhook"

abbrev pub github_settings : GithubSettings
github_settings = record {
  endpoint = codes "/push";
  method = codes "POST";
  port = codes "12000";
  url = codes "https://argo-github.osoriano.com";
  events = codes "*" ∷ [];
  api_token = (codes "github-access", codes "token");
  webhook_secret = (codes "github-access", codes "secret");
  insecure = false;
  active = true;
  content_type = codes "json";
}

abbrev pub owned : Str → Str → OwnedRepositories
owned repo_org repo_name = record { owner = repo_org; names = repo_name ∷ [] }

abbrev pub build_event_source : Str → Str → EventSource
build_event_source repo_org repo_name = record {
  name = codes "github";
  namespace = codes "argo-events";
  service_port = (event_source_section_name, 12000);
  github = some (
      (
        event_source_section_name,
        record { settings = some github_settings; repositories = owned repo_org repo_name ∷ [] },
      )
      ∷ []);
}

-- A read of the map gives the zero value for a missing key.
abbrev pub get_section : List (Str × GithubEventSource) → Str → GithubEventSource
get_section [] name = record { settings = none; repositories = [] }
get_section ((key, s) ∷ m) name = if name == key then s else get_section m name

-- The loop over the owners: `none` when the name is there, and else the list with it.
unfoldable pub merge_repositories :
    List OwnedRepositories → Str → Str → Option (List OwnedRepositories)
merge_repositories [] repo_org repo_name = some (owned repo_org repo_name ∷ [])
merge_repositories (r ∷ rs) repo_org repo_name =
    let rest = merge_repositories rs repo_org repo_name in
    if r.owner == repo_org
    then (if contains r.names repo_name
        then none
        else some (record r { names = r.names ++ (repo_name ∷ []) } ∷ rs))
    else elim rest [ none ↦ none | some rs' ↦ some (r ∷ rs') ]

-- A write to the nil map panics. The result says whether there was a change.
unfoldable pub merge_owned_repos :
    {E : Type 0} → EventSource → Str → Str → Result E (EventSource × Bool)
merge_owned_repos e repo_org repo_name = elim e.github [
  | none ↦ panic
  | some m ↦
      let section = get_section m event_source_section_name in
      elim (merge_repositories section.repositories repo_org repo_name) [
        | none ↦ ok (e, false)
        | some rs ↦ ok (
          record e {
            github = some ((event_source_section_name, record section { repositories = rs }) ∷ m);
          },
          true,
        )
      ]
]

pub data RepoError : Type 0 where
  no_trigger : RepoError
  repo_url_error : GitError → RepoError

unfoldable pub get_trigger_repo_url : List Trigger → Result RepoError Str
get_trigger_repo_url [] = err no_trigger
get_trigger_repo_url (pull_request t ∷ _) = ok t.repo_url
get_trigger_repo_url (push t ∷ _) = ok t.repo_url

unfoldable pub get_trigger_repo_name : List Trigger → Result RepoError (Str × Str)
unfolding get_trigger_repo_url
get_trigger_repo_name ts =
    get_trigger_repo_url ts >>= λ url. wrap repo_url_error (get_repo_org_name url)
