-- ===== src/Watcher/Blocking.antt =====
-- When a round of the flow watcher's loop waits for ever.
use jettison_controller.Common.{Bool, true, false, not, List, [], ◌∷◌, if◌then◌else◌}
use jettison_controller.Watcher.{Watcher, Run, done, blocked, panics, member}
use jettison_controller.Watcher.Loop.{Initial, listed, failed, Event, register, subscribe}

abbrev pub waits : {A : Type 0} → Run A → Bool
waits blocked = true
waits (done a) = false
waits panics = false

abbrev pub any_failed : {R : Type 0} → List (Initial R) → Bool
any_failed [] = false
any_failed (failed e ∷ rest) = true
any_failed (listed m ∷ rest) = any_failed rest

module _ {R : Type 0} where
  -- A list of objects that is wanted for the event cannot be had.
  abbrev pub stalls : Event R → Watcher R → Bool
  stalls (register c aux initial) s = if aux then false else any_failed initial
  stalls (subscribe c r (failed e)) s = not (member c (s.subscriptions r))
  stalls _ s = false
