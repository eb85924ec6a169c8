-- ===== src/Lib.antt =====
-- A model of jettison-controller: how it turns a Flow resource into the resources of the cluster, by
-- preprocessing, the Argo CD applications, the Sensor with its workflow, the event source that
-- configures webhooks and the settings of the repository; the reconciler that keeps these in line; and
-- the watcher that sends them to the connections of the web server.
--
-- A flow holds messages for its triggers and steps. `PreProcessFlow` parses them, applies defaults and
-- validates them. The reconciler passes the triggers and steps to builders: `BuildArgoApps` makes the
-- Argo CD projects and applications of the deploy steps, and `BuildSensor` makes the sensor, whose
-- workflow has a task for each trigger and for each step. The tasks refer to templates of one cluster
-- workflow template, which a start-up loop keeps in the cluster. `mergeOwnedRepos` adds the repository of
-- a flow to the one event source of all flows.
--
-- Files and the code that they model, from the repository's root:
--
--   GitUtil                 internal/gitutil/gitutil.go: GetRepoOrgName, GetSourceRepoGlob
--   Json, Flow/Decode       how encoding/json fills the structs of api/v1alpha1
--   Flow                    api/v1alpha1/flow_types.go, trigger_types.go, step_types.go
--   Flow/Parser             api/v1alpha1/flow_parser.go
--   Flow/Defaulter          api/v1alpha1/flow_defaulter.go
--   Flow/Validator          api/v1alpha1/flow_validator.go
--   Flow/Processor          api/v1alpha1/flow_processor.go
--   Apps                    internal/controller/appbuilder/app_builder.go
--   EventSources            internal/controller/eventsourcebuilder/eventsource_builder.go, and of
--                           internal/controller/flow_controller.go getTriggerRepoName, getTriggerRepoUrl
--                           and mergeOwnedRepos
--   Templates, Templates/*  internal/workflowtemplates/workflowtemplates.go, the templates
--   Sensor                  internal/controller/sensorbuilder: the map of steps
--   Sensor/Events           sensor_dependencies.go
--   Sensor/Parameters       sensor_trigger_parameters.go
--   Sensor/Dependency       sensor_trigger_tasks.go: getDockerfilePathDependency
--   Sensor/Fields           sensor_trigger_tasks.go: getDockerfileDir, getWhen, getDepends, getArtifactKey
--   Sensor/Tasks            sensor_trigger_tasks.go: getInitialDAGTasks, getFinalDAGTask; its children
--                           Inline and Steps: getWorkflowTemplateDAGTasks
--   Sensor/Builder          sensor_triggers.go, sensor_builder.go
--   RepoSettings            internal/controller/ghsettings/ghsettings.go: the wanted settings; its
--                           children Fix, the comparisons, and Client, SyncGitHubSettingsForRepo
--   Reconciler              internal/controller/eventbusbuilder, pvcbuilder and rbacbuilder, and the
--                           clients and maps of FlowReconciler; its children Sync, Namespace and Flows:
--                           Reconcile of internal/controller/flow_controller.go, and setCondition of
--                           internal/controller/flow_conditions.go
--   Watcher                 internal/webserver/webconn.go, webmessage.go and weberror.go; its children
--                           Loop, Objects and Initial: internal/webserver/flow_watcher.go
--   Watcher/Reader          the same file: readConn; and the handlers of its messages in
--                           container_log_message_handler.go, resource_subscription_message_handler.go,
--                           sync_application_message_handler.go and retry_rollout_message_handler.go
--   Watcher/Race            flow_watcher.go: the goroutines of one connection, step by step
--   ContainerLogs           internal/webserver/container_log_message_handler.go: the loop of
--                           streamLogLines
--   ArgoSync                internal/webserver/argosync/argosync.go
--
-- Common and Text have what the files share: lists, results, and the functions of Go's strings and
-- path/filepath packages that the code calls. Modules named Laws and those beside them hold proofs, and
-- Tests the runs on concrete inputs.
--
-- How the code is read:
--
--   * A function that returns an error is one into `Result`, which is a value, an error or a panic. A
--     nil pointer that is followed, a method of a nil interface and an index out of range give a
--     panic. An error keeps its kind, and not the words of its message.
--   * A type switch is a match on a data type. The types of triggers and steps are those that the parser
--     makes, so the default branches of the switches, for other types, have no counterpart.
--   * Strings are lists of bytes. Letters and spaces, for ToLower and TrimSpace, are those of ASCII.
--   * JSON is a tree: the reading of bytes is not modelled. How encoding/json matches keys, leaves fields
--     alone and fails is written out for the types of the program. Kubernetes volumes are read by the
--     parameter `VolumeCodec`, and a workflow is marshaled by the parameter `marshal`; both stand for
--     code that is not in the repository, and the model relies on nothing but, in one theorem, that
--     marshaling does not panic.
--   * A map is an association list with the newest entry in front.
--   * The search along dependencies has fuel: the length of the first queue and the dependencies of all
--     steps in the map. Each name adds its dependencies to the queue only once, so that is as many rounds
--     as there can be.
--   * The deadline of a flow is an integer without a bound; the code stores it in an int64 and only
--     compares it with nil.
--   * The clients of Kubernetes, GitHub and Argo CD are parameters: records of calls that pass the state
--     of the service on and may fail (Common/Actions). A theorem says what it relies on of them.
--     `equality.Semantic.DeepDerivative`, SetControllerReference and SetStatusCondition are parameters
--     too.
--   * A map that is used as a set is the list of its keys. The order in which Go walks a map is not
--     fixed; what is said of such a walk is said for each key.
--   * In Watcher/Loop a round of the loop is one step: a send has the result `done`, `blocked` or
--     `panics`, and each connection's writer is ready to receive. Watcher/Race drops that for one
--     connection: a `Turn` is a step of one goroutine, and the turns come in any order.
--   * In ContainerLogs slices share arrays, as in Go: a message has the lines that are in its memory when
--     the writer encodes it. The capacity that a full slice gets is a parameter.
--   * Lines that are written to the program's own log, closing streams and connections, and the text of errors that are only logged
--     have no counterpart.
--
-- Not modelled: of the watcher setupWatcher, which registers the handlers; the HTTP server; the database of workflows; the making
-- of clients; and the start-up code.

pub mod Common
pub mod Text
pub mod GitUtil
pub mod Json
pub mod Flow
pub mod Apps
pub mod ArgoSync
pub mod ContainerLogs
pub mod EventSources
pub mod Reconciler
pub mod RepoSettings
pub mod Sensor
pub mod Templates
pub mod Watcher
