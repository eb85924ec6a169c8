-- ===== src/Sensor/Parameters.antt =====
-- The parameters of the workflow and where an event gives their values:
-- internal/controller/sensorbuilder/sensor_trigger_parameters.go.
pub mod Laws
use jettison_controller.Common.{ℕ, List, [], ◌∷◌, ◌++◌}
use jettison_controller.Text.{Str, codes, decimal}
use jettison_controller.Flow.{Trigger, pull_request, push}
use jettison_controller.Templates.{Parameter, required}
use jettison_controller.Sensor.Events.{dependency_name}

-- Where the value is in the event: `DataKey` or `DataTemplate`.
pub data DataSource : Type 0 where
  data_key : Str → DataSource
  data_template : Str → DataSource

pub record TriggerParameter : Type 0 where
  pub dependency_name : Str
  pub source : DataSource
  pub dest : Str
  pub operation : Str

abbrev pub global_workflow_parameters : List Parameter
global_workflow_parameters =
    required (codes "repo")
    ∷ required (codes "revision")
    ∷ required (codes "repo-short")
    ∷ required (codes "revision-ref")
    ∷ required (codes "revision-title")
    ∷ required (codes "revision-author")
    ∷ []

abbrev pub pr_workflow_parameters : List Parameter
pr_workflow_parameters =
    required (codes "base-revision")
    ∷ required (codes "base-revision-ref")
    ∷ required (codes "revision-number")
    ∷ []

-- Sets the value of the workflow parameter at an index.
abbrev pub set_value : ℕ → DataSource → TriggerParameter
set_value i source = record {
  dependency_name = dependency_name;
  source = source;
  dest = codes "spec.arguments.parameters." ++ (decimal i ++ codes ".value");
  operation = [];
}

abbrev pub append_name : Str → TriggerParameter
append_name template = record {
  dependency_name = dependency_name;
  source = data_template template;
  dest = codes "metadata.generateName";
  operation = codes "append";
}

abbrev pub pull_request_parameters : List TriggerParameter
pull_request_parameters =
    set_value 0 (data_key (codes "body.pull_request.head.repo.clone_url"))
    ∷ set_value 1 (data_key (codes "body.pull_request.head.sha"))
    ∷ set_value 2 (data_key (codes "body.pull_request.head.repo.full_name"))
    ∷ set_value 3 (data_key (codes "body.pull_request.head.ref"))
    ∷ set_value 4 (data_key (codes "body.pull_request.title"))
    ∷ set_value 5 (data_key (codes "body.pull_request.user.login"))
    ∷ set_value 6 (data_key (codes "body.pull_request.base.sha"))
    ∷ set_value 7 (data_key (codes "body.pull_request.base.ref"))
    ∷ set_value 8 (data_key (codes "body.pull_request.number"))
    ∷ append_name (
        codes
          "{{ .Input.body.pull_request.number }}-{{ .Input.body.pull_request.head.sha | substr 0 7 }}-")
    ∷ []

abbrev pub push_parameters : List TriggerParameter
push_parameters =
    set_value 0 (data_key (codes "body.repository.clone_url"))
    ∷ set_value 1 (data_key (codes "body.after"))
    ∷ set_value 2 (data_key (codes "body.repository.full_name"))
    ∷ set_value 3 (data_key (codes "body.ref"))
    ∷ set_value 4 (
        data_template
          (codes "{{ .Input.body.head_commit.message | splitList \"\\n\" | first | trunc 72 }}"))
    ∷ set_value 5 (data_key (codes "body.pusher.name"))
    ∷ append_name (codes "{{ .Input.body.after | substr 0 7 }}-")
    ∷ []

-- The loop, with the two lists built so far.
unfoldable pub trigger_parameters_loop :
    List Trigger → List Parameter → List TriggerParameter → List Parameter × List TriggerParameter
trigger_parameters_loop [] ps qs = (ps, qs)
trigger_parameters_loop (pull_request t ∷ ts) ps qs =
    trigger_parameters_loop ts (ps ++ pr_workflow_parameters) (qs ++ pull_request_parameters)
trigger_parameters_loop (push t ∷ ts) ps qs = trigger_parameters_loop ts ps (qs ++ push_parameters)

unfoldable pub get_trigger_parameters : List Trigger → List Parameter × List TriggerParameter
unfolding trigger_parameters_loop
get_trigger_parameters ts = trigger_parameters_loop ts global_workflow_parameters []
