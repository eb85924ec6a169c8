-- ===== src/Reconciler/Namespace.antt =====
-- The objects that flows of a namespace share, in Reconcile of
-- internal/controller/flow_controller.go.
use jettison_controller.Common.{Bool, true, false, ◌||◌, Option, none, some, if◌then◌else◌}
use jettison_controller.Common.Actions.{Action, ◌>>=◌, ◌>>◌, return}
use jettison_controller.Text.{Str, ◌==◌}
use jettison_controller.Reconciler.{
  build_event_bus, build_build_kit_cache_pvc, build_sensor_service_account, build_sensor_role,
  RoleRef, RoleBinding, build_sensor_role_binding, Cluster,
}
use jettison_controller.Reconciler.Sync.{sync_object}

-- `!=` on two role references.
abbrev pub same_role_ref : RoleRef → RoleRef → Bool
same_role_ref a b =
    if a.api_group == b.api_group
    then (if a.kind == b.kind then a.name == b.name else false)
    else false

module _ {W E M : Type 0} (c : Cluster W E M) where
  unfoldable pub sync_event_bus : Str → Action W E Bool
  sync_event_bus namespace =
      let bus = build_event_bus namespace in
      sync_object c.event_buses bus.namespace bus.name
        (λ existing. record existing { jet_stream_url = bus.jet_stream_url }) bus

  -- Only the requests can be updated.
  unfoldable pub sync_volume_claim : Str → Action W E Bool
  sync_volume_claim namespace =
      let claim = build_build_kit_cache_pvc namespace in
      sync_object c.volume_claims claim.namespace claim.name
        (λ existing. record existing { storage = claim.storage }) claim

  unfoldable pub sync_service_account : Str → Action W E Bool
  sync_service_account namespace = do
    let account = build_sensor_service_account namespace
    found ← c.service_accounts.get account.namespace account.name
    elim found [
      | none ↦ c.service_accounts.create account >> return true
      | some existing ↦ return false
    ]

  unfoldable pub sync_role : Str → Action W E Bool
  sync_role namespace =
      let role = build_sensor_role namespace in
      sync_object c.roles role.namespace role.name
        (λ existing. record existing { rules = role.rules }) role

  -- The role reference cannot be changed, so the binding is made again.
  unfoldable pub write_role_binding : RoleBinding → Option RoleBinding → Action W E Bool
  write_role_binding binding none = c.role_bindings.create binding >> return true
  write_role_binding binding (some existing) =
      if same_role_ref existing.role_ref binding.role_ref
      then (if c.role_bindings.derives binding existing
          then return false
          else (c.role_bindings.update (record existing { subjects = binding.subjects })
              >> return true))
      else (c.role_bindings.delete existing >> (c.role_bindings.create binding >> return true))

  unfoldable pub sync_role_binding : Str → Action W E Bool
  unfolding write_role_binding
  sync_role_binding namespace = do
    let binding = build_sensor_role_binding namespace
    found ← c.role_bindings.get binding.namespace binding.name
    write_role_binding binding found

  unfoldable pub sync_namespace_objects : Str → Action W E Bool
  sync_namespace_objects namespace = do
    bus ← sync_event_bus namespace
    claim ← sync_volume_claim namespace
    account ← sync_service_account namespace
    role ← sync_role namespace
    binding ← sync_role_binding namespace
    return (bus || claim || account || role || binding)
