-- ===== src/Reconciler/Sync.antt =====
-- How Reconcile of internal/controller/flow_controller.go brings one object of the cluster in line:
-- the sequence of calls that it has for each kind. The result says whether there was drift.
use jettison_controller.Common.{Bool, true, false, Option, none, some, if◌then◌else◌}
use jettison_controller.Common.Actions.{Action, ◌>>=◌, ◌>>◌, return}
use jettison_controller.Text.{Str}
use jettison_controller.Reconciler.{Kind}

module _ {W E T : Type 0} (c : Kind W E T) where
  -- `adopt` sets the compared part of the existing object to that of the wanted one.
  unfoldable pub write_object : (T → T) → T → Option T → Action W E Bool
  write_object adopt wanted none = c.create wanted >> return true
  write_object adopt wanted (some existing) =
      if c.derives wanted existing then return false else (c.update (adopt existing) >> return true)

  unfoldable pub sync_object : Str → Str → (T → T) → T → Action W E Bool
  unfolding write_object
  sync_object namespace name adopt wanted = do
    found ← c.get namespace name
    write_object adopt wanted found
