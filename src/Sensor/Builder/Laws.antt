-- ===== src/Sensor/Builder/Laws.antt =====
-- The sensor of a preprocessed flow.
use jettison_controller.Common.{◌≡◌, ◌≢◌, inl, inr, List, [], ◌∷◌, All}
use jettison_controller.Common.Results.{
  Result, ok, panic, NoPanic, NoPanic-ne, wrap-NoPanic, Result-cases,
}
use jettison_controller.Text.{Str}
use jettison_controller.Flow.{Flow, Trigger, pull_request, push, Step}
use jettison_controller.Flow.Decode.{VolumeCodec}
use jettison_controller.Flow.Ready.{TriggerReady}
use jettison_controller.Flow.Processor.{pre_process_flow}
use jettison_controller.Flow.Processor.Laws.{pre_process_flow-IsReady}
use jettison_controller.Templates.{Parameter}
use jettison_controller.Sensor.Events.{sensor_dependency, get_sensor_dependencies}
use jettison_controller.Sensor.Parameters.{get_trigger_parameters}
use jettison_controller.Sensor.Tasks.Steps.{get_workflow_template_dag_tasks}
use jettison_controller.Sensor.Tasks.Named.{DependsOnSteps}
use jettison_controller.Sensor.Tasks.Total.{workflow-NoPanic}
use jettison_controller.Sensor.Builder.{
  Workflow, SensorError, marshal_error, get_workflow, get_workflow_template, get_sensor_triggers,
  build_sensor,
}

sensor_dependency-NoPanic :
    (E : Type 0) (t : Trigger) → TriggerReady t → NoPanic {E = E} (sensor_dependency t)
unfolding sensor_dependency
sensor_dependency-NoPanic E (pull_request t) ready = tt
sensor_dependency-NoPanic E (push t) (base_ref, e) = rw e tt

get_sensor_dependencies-NoPanic :
    (E : Type 0) (ts : List Trigger)
    → All TriggerReady ts
    → NoPanic {E = E} (get_sensor_dependencies ts)
unfolding get_sensor_dependencies
get_sensor_dependencies-NoPanic E [] ready = tt
get_sensor_dependencies-NoPanic E (t ∷ ts) (r, ready) =
    let first = sensor_dependency-NoPanic E t r in
    let rest = get_sensor_dependencies-NoPanic E ts ready in
    elim (Result-cases {E = E} (sensor_dependency t)) [
      | inl (d, e) ↦
          rw (e, get_sensor_dependencies)
            (elim (Result-cases {E = E} (get_sensor_dependencies ts)) [
              | inl (ds, e') ↦ rw e' tt
              | inr (inl (_, e')) ↦ rw e' tt
              | inr (inr e') ↦ absurd (rw e' at rest)
            ])
      | inr (inl (_, e)) ↦ rw (e, get_sensor_dependencies) tt
      | inr (inr e) ↦ absurd (rw e at first)
    ]

get_workflow-NoPanic :
    (f : Flow) (ts : List Trigger) (ss : List Step) (parameters : List Parameter)
    → NoPanic (get_workflow_template_dag_tasks ts ss)
    → NoPanic (get_workflow f ts ss parameters)
unfolding get_workflow
get_workflow-NoPanic f ts ss parameters fine =
    elim (Result-cases (get_workflow_template_dag_tasks ts ss)) [
      | inl (_, e) ↦ rw (e, get_workflow) tt
      | inr (inl (_, e)) ↦ rw (e, get_workflow) tt
      | inr (inr e) ↦ absurd (rw e at fine)
    ]

module _ {E : Type 0} (marshal : Workflow → Result E Str)
    (total : (w : Workflow) → NoPanic (marshal w)) where
  get_workflow_template-NoPanic :
      (f : Flow) (ts : List Trigger) (ss : List Step) (parameters : List Parameter)
      → NoPanic (get_workflow_template_dag_tasks ts ss)
      → NoPanic (get_workflow_template marshal f ts ss parameters)
  unfolding get_workflow_template
  get_workflow_template-NoPanic f ts ss parameters fine =
      let workflow = get_workflow-NoPanic f ts ss parameters fine in
      elim (Result-cases (get_workflow f ts ss parameters)) [
        | inl (w, e) ↦
            rw (e, get_workflow_template) (wrap-NoPanic marshal_error (marshal w) (total w))
        | inr (inl (_, e)) ↦ rw (e, get_workflow_template) tt
        | inr (inr e) ↦ absurd (rw e at workflow)
      ]

  build_sensor-NoPanic :
      (f : Flow) (ts : List Trigger) (ss : List Step)
      → All TriggerReady ts
      → NoPanic (get_workflow_template_dag_tasks ts ss)
      → NoPanic (build_sensor marshal f ts ss)
  unfolding build_sensor get_sensor_triggers
  build_sensor-NoPanic f ts ss ready fine =
      let dependencies = get_sensor_dependencies-NoPanic (SensorError E) ts ready in
      let template = get_workflow_template-NoPanic f ts ss (get_trigger_parameters ts).0 fine in
      elim (Result-cases {E = SensorError E} (get_sensor_dependencies ts)) [
        | inl (ds, e) ↦
            rw (e, build_sensor)
              (elim (Result-cases
                (get_workflow_template marshal f ts ss (get_trigger_parameters ts).0)) [
                  | inl (resource, e') ↦ rw (e', get_sensor_triggers) tt
                  | inr (inl (_, e')) ↦ rw (e', get_sensor_triggers) tt
                  | inr (inr e') ↦ absurd (rw e' at template)
                ])
        | inr (inl (_, e)) ↦ rw (e, build_sensor) tt
        | inr (inr e) ↦ absurd (rw e at dependencies)
      ]

  -- If preprocessing a flow succeeds, each name that a step depends on is the name of a step, and
  -- marshaling does not panic, then building the sensor gives a sensor or an error and does not
  -- panic.
  pub build_sensor_total :
      (codec : VolumeCodec) (f : Flow) (ts : List Trigger) (ss : List Step)
      → (pre_process_flow codec f).1 ≡ ok (ts, ss)
      → All (DependsOnSteps ss) ss
      → build_sensor marshal (pre_process_flow codec f).0 ts ss ≢ panic
  build_sensor_total codec f ts ss processed depends =
      let (_, _, ready_ts, ready_ss, _) = pre_process_flow-IsReady codec f ts ss processed in
      NoPanic-ne _ (
        build_sensor-NoPanic (pre_process_flow codec f).0 ts ss ready_ts
          (workflow-NoPanic ts ss ready_ss depends))
