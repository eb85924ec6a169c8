-- ===== src/Sensor/Tasks.antt =====
-- The tasks of the workflow: `getInitialDAGTasks`, `getWorkflowTemplateDAGTasks` and
-- `getFinalDAGTask` of internal/controller/sensorbuilder/sensor_trigger_tasks.go.
pub mod Inline
pub mod Steps
pub mod Resolve
pub mod Initial
pub mod Wiring
pub mod Named
pub mod Total
pub mod References
use jettison_controller.Common.{Bool, true, List, [], ◌∷◌, ◌++◌, Option, none, some, if◌then◌else◌}
use jettison_controller.Common.Results.{Result, ok, err, ◌>>=◌}
use jettison_controller.Text.{Str, codes, ◌==◌}
use jettison_controller.GitUtil.{GitError}
use jettison_controller.Flow.{Trigger, pull_request, push}
use jettison_controller.Templates.{Parameter, Template, given}
use jettison_controller.Templates.Checks.{
  github_check_start_template, github_check_complete_template,
}
use jettison_controller.Templates.Cicd.{cicd_template_name}
use jettison_controller.Sensor.Dependency.{DependencyError}

pub record TemplateRef : Type 0 where
  pub name : Str
  pub template : Str
  pub cluster_scope : Bool

-- `workflowsv1.DAGTask`
pub record DagTask : Type 0 where
  pub name : Str
  pub arguments : List Parameter
  pub template_ref : Option TemplateRef
  pub template : Str
  pub depends : Str
  pub when : Str

-- `workflowsv1.LifecycleHook`
pub record LifecycleHook : Type 0 where
  pub arguments : List Parameter
  pub template_ref : TemplateRef

pub data TaskError : Type 0 where
  mixed_trigger_types : TaskError
  dockerfile_dependency : DependencyError → TaskError
  step_repo_url : GitError → TaskError

abbrev pub cicd_ref : Template → TemplateRef
cicd_ref t = record { name = cicd_template_name; template = t.name; cluster_scope = true }

abbrev pub commit_trigger_type : Str
commit_trigger_type = codes "commit"

abbrev pub pr_trigger_type : Str
pr_trigger_type = codes "PR"

-- The type of a trigger, joined to that of the triggers before it.
unfoldable pub join_type : Str → Str → Result TaskError Str
join_type wanted current =
    if current == []
    then ok wanted
    else if current == wanted
    then ok current
    else err mixed_trigger_types

abbrev pub own_type : Trigger → Str
own_type (pull_request t) = pr_trigger_type
own_type (push t) = commit_trigger_type

pub initial_task : Str → DagTask
initial_task trigger_type = record {
  name = codes "github-check-start";
  arguments =
      given (codes "repo-short") (codes "{{inputs.parameters.repo-short}}")
      ∷ given (codes "event-type") trigger_type
      ∷ given (codes "revision") (codes "{{inputs.parameters.revision}}")
      ∷ [];
  template_ref = some (cicd_ref github_check_start_template);
  template = [];
  depends = [];
  when = [];
}

unfoldable pub initial_loop :
    List Trigger → Str → List DagTask → Result TaskError (List DagTask × Str)
initial_loop [] current tasks = ok (tasks, current)
initial_loop (t ∷ ts) current tasks = join_type (own_type t) current >>= λ joined.
    initial_loop ts joined (tasks ++ (initial_task joined ∷ []))

unfoldable pub get_initial_dag_tasks : List Trigger → Result TaskError (List DagTask × Str)
unfolding initial_loop
get_initial_dag_tasks ts = initial_loop ts [] []

unfoldable pub get_final_dag_task : Str → LifecycleHook
get_final_dag_task trigger_type = record {
  arguments =
      given (codes "repo-short") (codes "{{workflow.parameters.repo-short}}")
      ∷ given (codes "event-type") trigger_type
      ∷ given (codes "check-run-id") (codes "{{workflow.outputs.parameters.check-run-id}}")
      ∷ given (codes "workflow-status") (codes "{{workflow.status}}")
      ∷ [];
  template_ref = cicd_ref github_check_complete_template;
}
