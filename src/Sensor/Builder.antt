-- ===== src/Sensor/Builder.antt =====
-- The sensor of a flow: `getSensorTriggers` and `getWorkflowTemplate` of
-- internal/controller/sensorbuilder/sensor_triggers.go, and `BuildSensor` of
-- internal/controller/sensorbuilder/sensor_builder.go.
pub mod Laws
use jettison_controller.Common.{List, [], ◌∷◌, ◌++◌, Option}
use jettison_controller.Common.Ints.{ℤ}
use jettison_controller.Common.Results.{Result, ok, ◌>>=◌, wrap}
use jettison_controller.Text.{Str, codes}
use jettison_controller.Flow.{Flow, Trigger, Step}
use jettison_controller.Templates.{Parameter, Template}
use jettison_controller.Sensor.Events.{EventDependency, get_sensor_dependencies}
use jettison_controller.Sensor.Parameters.{TriggerParameter, get_trigger_parameters}
use jettison_controller.Sensor.Tasks.{DagTask, LifecycleHook, TaskError, get_final_dag_task}
use jettison_controller.Sensor.Tasks.Steps.{get_workflow_template_dag_tasks}

-- `workflowsv1.Workflow`. Its templates are the main one, with the inputs and the tasks, and the
-- others.
pub record Workflow : Type 0 where
  pub generate_name : Str
  pub main_name : Str
  pub main_inputs : List Parameter
  pub main_tasks : List DagTask
  pub other_templates : List Template
  pub entrypoint : Str
  pub arguments : List Parameter
  pub service_account_name : Str
  pub active_deadline_seconds : Option ℤ
  pub on_exit : LifecycleHook

-- The workflow before it is marshaled.
unfoldable pub get_workflow :
    Flow → List Trigger → List Step → List Parameter → Result TaskError Workflow
get_workflow f ts ss parameters =
    get_workflow_template_dag_tasks ts ss >>= λ (tasks, additional, trigger_type). ok (record {
      generate_name = f.name ++ codes "-";
      main_name = codes "main";
      main_inputs = parameters;
      main_tasks = tasks;
      other_templates = additional;
      entrypoint = codes "main";
      arguments = parameters;
      service_account_name = codes "deploy-step-executor";
      active_deadline_seconds = f.spec.active_deadline_seconds;
      on_exit = get_final_dag_task trigger_type;
    })

-- The errors of `json.Marshal` are those of the parameter `E`.
pub data SensorError (E : Type 0) : Type 0 where
  tasks_error : TaskError → SensorError E
  marshal_error : E → SensorError E

pub record SensorTrigger : Type 0 where
  pub name : Str
  -- The marshaled workflow, which the trigger creates.
  pub resource : Str
  pub parameters : List TriggerParameter

pub record Sensor : Type 0 where
  pub name : Str
  pub namespace : Str
  pub dependencies : List EventDependency
  pub triggers : List SensorTrigger
  pub service_account_name : Str

abbrev pub sensor_service_account_name : Str
sensor_service_account_name = codes "operate-workflow-sa"

-- `json.Marshal` on a workflow.
module _ {E : Type 0} (marshal : Workflow → Result E Str) where
  unfoldable pub get_workflow_template :
      Flow → List Trigger → List Step → List Parameter → Result (SensorError E) Str
  get_workflow_template f ts ss parameters =
      wrap tasks_error (get_workflow f ts ss parameters) >>= λ w. wrap marshal_error (marshal w)

  unfoldable pub get_sensor_triggers :
      Flow → List Trigger → List Step → Result (SensorError E) (List SensorTrigger)
  unfolding get_workflow_template
  get_sensor_triggers f ts ss =
      let (workflow_parameters, trigger_parameters) = get_trigger_parameters ts in
      get_workflow_template f ts ss workflow_parameters >>= λ resource. ok (
        record { name = codes "flow-trigger"; resource = resource; parameters = trigger_parameters }
        ∷ [])

  unfoldable pub build_sensor : Flow → List Trigger → List Step → Result (SensorError E) Sensor
  unfolding get_sensor_triggers
  build_sensor f ts ss = get_sensor_dependencies ts >>= λ dependencies.
      get_sensor_triggers f ts ss >>= λ triggers. ok (record {
        name = f.name;
        namespace = f.namespace;
        dependencies = dependencies;
        triggers = triggers;
        service_account_name = sensor_service_account_name;
      })
