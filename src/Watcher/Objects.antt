-- ===== src/Watcher/Objects.antt =====
-- The event handlers of internal/webserver/flow_watcher.go: what goes into the channels when an
-- object is added, updated or deleted.
use jettison_controller.Common.{
  Bool, true, false, ◌||◌, [], ◌∷◌, ◌++◌, Option, none, some, if◌then◌else◌,
}
use jettison_controller.Text.{Str, codes, ◌==◌}
use jettison_controller.Watcher.{
  Resource, Message, flows, applications, rollouts, workflows, Run, done, panics, ◌>>=◌,
}
use jettison_controller.Watcher.Loop.{label, jettison_app_label_key}

-- A pointer to an object of one of the types that are watched, or another value.
pub data Object (R : Type 0) : Type 0 where
  flow application rollout workflow pod : Resource R → Object R
  unknown : Object R

abbrev pub deleted : Str
deleted = codes "delete"

-- `fmt.Sprintf("%s/watcher-event-type", …)`
abbrev pub event_type_key : Str → Str
event_type_key identifier = identifier ++ codes "/watcher-event-type"

-- A write to a map, in front of an older value of the key; the nil map is replaced.
abbrev pub annotate : {R : Type 0} → Str → Str → Resource R → Resource R
annotate key value r = record r {
  annotations = elim r.annotations [
    | none ↦ some ((key, value) ∷ [])
    | some m ↦ some ((key, value) ∷ m)
  ];
}

-- `gvk` is the lookup of an object's version and kind in the scheme; the program panics when it
-- fails. `identifier` is that of the group and version of the API.
module _ {R : Type 0} (gvk : Object R → Option (Str × Str)) (identifier : Str) where
  abbrev pub backfill : Object R → Resource R → Run (Resource R)
  backfill o r = elim (gvk o) [
    | none ↦ panics
    | some (version, kind) ↦ done (record r { api_version = version; kind = kind })
  ]

  abbrev pub with_schema : (Resource R → Object R) → Resource R → Run (Resource R)
  with_schema type r = if r.api_version == [] || r.kind == [] then backfill (type r) r else done r

  -- A message for all connections; `none` when there is only a line in the log.
  unfoldable pub on_add : Object R → Run (Option (Message R))
  on_add (flow r) = with_schema flow r >>= λ x. done (some (flows (x ∷ [])))
  on_add (application r) = with_schema application r >>= λ x. done (some (applications (x ∷ [])))
  on_add (rollout r) = with_schema rollout r >>= λ x. done (some (rollouts (x ∷ [])))
  on_add (workflow r) = with_schema workflow r >>= λ x. done (some (workflows (x ∷ [])))
  on_add (pod r) = done none
  on_add unknown = done none

  unfoldable pub on_update : Object R → Run (Option (Message R))
  on_update (flow r) = with_schema flow r >>= λ x. done (some (flows (x ∷ [])))
  on_update (application r) = with_schema application r >>= λ x. done (some (applications (x ∷ [])))
  on_update (rollout r) = with_schema rollout r >>= λ x. done (some (rollouts (x ∷ [])))
  on_update (workflow r) = with_schema workflow r >>= λ x. done (some (workflows (x ∷ [])))
  on_update (pod r) = done none
  on_update unknown = done none

  abbrev pub mark_deleted : Resource R → Resource R
  mark_deleted r = annotate (event_type_key identifier) deleted r

  unfoldable pub on_delete : Object R → Run (Option (Message R))
  on_delete (flow r) = with_schema flow (mark_deleted r) >>= λ x. done (some (flows (x ∷ [])))
  on_delete (application r) =
      with_schema application (mark_deleted r) >>= λ x. done (some (applications (x ∷ [])))
  on_delete (rollout r) =
      with_schema rollout (mark_deleted r) >>= λ x. done (some (rollouts (x ∷ [])))
  on_delete (workflow r) =
      with_schema workflow (mark_deleted r) >>= λ x. done (some (workflows (x ∷ [])))
  on_delete (pod r) = done none
  on_delete unknown = done none

  abbrev pub has_app : Resource R → Bool
  has_app r = if label r.labels jettison_app_label_key == [] then false else true

  -- The pod for its subscribers.
  unfoldable pub on_subscription_resource_add : Object R → Run (Option (Resource R))
  on_subscription_resource_add (pod r) =
      if has_app r then (with_schema pod r >>= λ x. done (some x)) else done none
  on_subscription_resource_add _ = done none

  unfoldable pub on_subscription_resource_update : Object R → Run (Option (Resource R))
  on_subscription_resource_update (pod r) =
      if has_app r then (with_schema pod r >>= λ x. done (some x)) else done none
  on_subscription_resource_update _ = done none

  unfoldable pub on_subscription_resource_delete : Object R → Run (Option (Resource R))
  on_subscription_resource_delete (pod r) =
      if has_app r then (with_schema pod (mark_deleted r) >>= λ x. done (some x)) else done none
  on_subscription_resource_delete _ = done none
