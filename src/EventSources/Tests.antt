-- ===== src/EventSources/Tests.antt =====
-- An event source of one repository, to which another is merged.
use jettison_controller.Common.{◌≡◌, refl, true, false, ◌||◌, ◌&&◌, List, [], ◌∷◌, some}
use jettison_controller.Common.Results.{ok}
use jettison_controller.Text.{codes, Str-discrete, ◌==◌}
use jettison_controller.EventSources.{
  EventSource, OwnedRepositories, build_event_source, event_source_section_name, github_settings,
  merge_repositories, merge_owned_repos,
}
use jettison_controller.EventSources.Laws.{
  event_owns, merge_owned_repos-owns, merge_owned_repos_idem,
}

abbrev before : EventSource
before = build_event_source (codes "acme") (codes "demo")

abbrev merged : List OwnedRepositories
merged = record { owner = codes "acme"; names = codes "demo" ∷ codes "shop" ∷ [] } ∷ []

abbrev after : EventSource
after = record before {
  github = some (
      (event_source_section_name, record { settings = some github_settings; repositories = merged })
      ∷ (
        event_source_section_name,
        record {
          settings = some github_settings;
          repositories = record { owner = codes "acme"; names = codes "demo" ∷ [] } ∷ [];
        },
      )
      ∷ []);
}

merged_once : merge_owned_repos {E = Unit} before (codes "acme") (codes "shop") ≡ ok (after, true)
unfolding codes Str-discrete merge_repositories merge_owned_repos
merged_once = refl

merge_owned_repos-owns_example : event_owns after (codes "acme") (codes "demo") ≡ (
    event_owns before (codes "acme") (codes "demo")
    || (codes "acme" == codes "acme" && codes "demo" == codes "shop"))
merge_owned_repos-owns_example =
    merge_owned_repos-owns Unit before after true (codes "acme") (codes "shop") (codes "acme")
      (codes "demo") merged_once

merge_owned_repos_idem_example :
    merge_owned_repos {E = Unit} after (codes "acme") (codes "shop") ≡ ok (after, false)
merge_owned_repos_idem_example =
    merge_owned_repos_idem Unit before after true (codes "acme") (codes "shop") merged_once
