-- ===== src/Sensor/Events.antt =====
-- The events that a sensor waits for: internal/controller/sensorbuilder/sensor_dependencies.go.
use jettison_controller.Common.{List, [], ◌∷◌, ◌++◌, Option, none, some}
use jettison_controller.Common.Results.{Result, ok, ◌>>=◌}
use jettison_controller.Text.{Str, codes}
use jettison_controller.Flow.{Trigger, pull_request, push, deref}

-- A filter on a text in the event.
pub record DataFilter : Type 0 where
  pub path : Str
  -- A nil slice is an empty list.
  pub value : List Str

pub record EventDependency : Type 0 where
  pub name : Str
  pub event_source_name : Str
  pub event_name : Str
  pub filters : List DataFilter

abbrev pub filter : Str → List Str → DataFilter
filter path value = record { path = path; value = value }

abbrev pub dependency_name : Str
dependency_name = codes "github-event-dep"

abbrev github_event : List DataFilter → EventDependency
github_event filters = record {
  name = dependency_name;
  event_source_name = codes "github";
  event_name = codes "ghwebhook";
  filters = filters;
}

abbrev strings : Option (List Str) → List Str
strings none = []
strings (some events) = events

unfoldable pub sensor_dependency : {E : Type 0} → Trigger → Result E EventDependency
sensor_dependency (pull_request t) = ok (
    github_event (
      filter (codes "headers.X-Github-Event") (codes "pull_request" ∷ [])
      ∷ filter (codes "body.action") (strings t.pull_request_events)
      ∷ filter (codes "body.pull_request.state") (codes "open" ∷ [])
      ∷ filter (codes "body.repository.clone_url") (t.repo_url ∷ [])
      ∷ []))
sensor_dependency (push t) = deref t.base_ref >>= λ base_ref. ok (
    github_event (
      filter (codes "headers.X-Github-Event") (codes "push" ∷ [])
      ∷ filter (codes "body.ref") ((codes "refs/heads/" ++ base_ref) ∷ [])
      ∷ filter (codes "body.repository.clone_url") (t.repo_url ∷ [])
      ∷ []))

unfoldable pub get_sensor_dependencies :
    {E : Type 0} → List Trigger → Result E (List EventDependency)
unfolding sensor_dependency
get_sensor_dependencies [] = ok []
get_sensor_dependencies (t ∷ ts) =
    sensor_dependency t >>= λ d. get_sensor_dependencies ts >>= λ ds. ok (d ∷ ds)
