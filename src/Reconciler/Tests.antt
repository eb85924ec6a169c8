-- ===== src/Reconciler/Tests.antt =====
-- The theorems about the reconciler, at a flow that is in line with the cluster.
pub mod Data
use jettison_controller.Common.{true, false, [], ◌∷◌, some, ◌≡◌, refl, All}
use jettison_controller.Common.Actions.{bind-ok}
use jettison_controller.Common.Ints.{ℤ-discrete}
use jettison_controller.Common.Results.{ok}
use jettison_controller.Text.{codes, contains, Str-discrete}
use jettison_controller.Flow.Tests.{codec}
use jettison_controller.Apps.{build_project}
use jettison_controller.RepoSettings.Fix.{fix_ruleset, fix_conditions, fix_rules, fix_repository}
use jettison_controller.RepoSettings.Client.{
  sync_settings, sync_repository, sync_rulesets, default_ruleset, write_ruleset, find_default,
}
use jettison_controller.RepoSettings.Tests.{Hub, hub, names, synced}
use jettison_controller.EventSources.{merge_owned_repos, merge_repositories}
use jettison_controller.Reconciler.{Manager}
use jettison_controller.Reconciler.Sync.{sync_object}
use jettison_controller.Reconciler.Namespace.{
  sync_event_bus, sync_volume_claim, sync_service_account, sync_role, sync_role_binding,
  sync_namespace_objects,
}
use jettison_controller.Reconciler.Flows.{
  write_sensor, write_application, contains_repo, sync_namespace, sync_projects, sync_applications,
  sync_repo, finish, sync_source, sync_sensor, sync_apps, reconcile_flow,
}
use jettison_controller.Reconciler.Marks.{reconcile_flow-marks}
use jettison_controller.Reconciler.Settled.{reconcile_flow-settled}
use jettison_controller.Reconciler.Tests.Data.{
  flow, flow', triggers', steps', processed, marshal, sensor, built, project, application, apps,
  repo, demo, org, cluster,
}

-- The reconciler after its start, and after the flow was reconciled.
abbrev started : Manager Hub
started = record { world = synced; synced_namespaces = []; synced_projects = []; synced_repos = [] }

abbrev settled : Manager Hub
settled = record started {
  synced_namespaces = demo ∷ [];
  synced_projects = org ∷ [];
  synced_repos = (org, demo) ∷ [];
}

reconcile_flow-settled_example :
    reconcile_flow codec marshal cluster names (λ o n. hub) flow [] settled ≡ (settled, ok tt)
unfolding codes Str-discrete build_project
reconcile_flow-settled_example =
    reconcile_flow-settled codec marshal cluster names (λ o n. hub) flow flow' [] triggers' steps'
      (project ∷ []) (application ∷ []) sensor org demo settled processed apps built repo refl
      (refl, tt) refl
      (
        (
          application,
          refl,
          record { existing = application; reads = refl; read = refl; derives = refl },
        ),
        tt,
      )
      (sensor, refl, record { existing = sensor; reads = refl; read = refl; derives = refl })

-- The namespace is marked first.
abbrev marked : Manager Hub
marked = record started { synced_namespaces = demo ∷ [] }

abbrev with_project : Manager Hub
with_project = record marked { synced_projects = org ∷ [] }

namespace_step :
    sync_namespace codec marshal cluster names (λ o n. hub) demo started ≡ (marked, ok false)
unfolding codes Str-discrete sync_namespace sync_namespace_objects sync_event_bus sync_object
    sync_volume_claim sync_service_account sync_role sync_role_binding
namespace_step = refl

settings_step : sync_settings names hub synced ≡ (synced, ok tt)
unfolding codes Str-discrete sync_settings sync_repository sync_rulesets default_ruleset
    write_ruleset find_default fix_repository fix_ruleset fix_conditions fix_rules ℤ-discrete
settings_step = refl

repo_step :
    sync_repo codec marshal cluster names (λ o n. hub) org demo with_project ≡ (settled, ok false)
unfolding codes Str-discrete sync_repo merge_owned_repos merge_repositories
repo_step = rw settings_step refl

source_step :
    sync_source codec marshal cluster names (λ o n. hub) flow' [] triggers' false with_project
    ≡ (settled, ok tt)
unfolding sync_source finish
source_step =
    rw (repo, sync_source)
      (bind-ok (sync_repo codec marshal cluster names (λ o n. hub) org demo) _ repo_step refl)

sensor_step :
    sync_sensor codec marshal cluster names
      (λ o n. hub)
      flow'
      []
      triggers'
      steps'
      false
      with_project
    ≡ (settled, ok tt)
unfolding sync_sensor write_sensor
sensor_step = rw built source_step

projects_step :
    sync_projects codec marshal cluster names (λ o n. hub) (project ∷ []) marked
    ≡ (with_project, ok false)
unfolding codes Str-discrete sync_projects sync_object build_project
projects_step = refl

apps_step :
    sync_apps codec marshal cluster names (λ o n. hub) flow' [] triggers' steps' false marked
    ≡ (settled, ok tt)
unfolding sync_apps sync_applications write_application
apps_step =
    rw (apps, sync_apps)
      (bind-ok (sync_projects codec marshal cluster names (λ o n. hub) (project ∷ [])) _
        projects_step sensor_step)

first_run :
    reconcile_flow codec marshal cluster names (λ o n. hub) flow [] started ≡ (settled, ok tt)
unfolding reconcile_flow
first_run = rw processed (
    bind-ok (sync_namespace codec marshal cluster names (λ o n. hub) demo) _ namespace_step
      apps_step)

reconcile_flow-marks_example :
    (contains settled.synced_namespaces flow'.namespace ≡ true)
    × All (λ p. contains settled.synced_projects p.name ≡ true) (project ∷ [])
    × (contains_repo settled.synced_repos org demo ≡ true)
reconcile_flow-marks_example =
    reconcile_flow-marks codec marshal cluster names (λ o n. hub) flow flow' [] triggers' steps'
      (project ∷ []) (application ∷ []) sensor org demo started settled processed apps built repo
      first_run
