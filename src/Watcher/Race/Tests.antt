-- ===== src/Watcher/Race/Tests.antt =====
-- Runs of the goroutines of one connection, and the theorems at them.
use jettison_controller.Common.{true, false, [], ◌∷◌, some, ◌≡◌, refl}
use jettison_controller.Watcher.Race.{
  idle, receiving, writing, outside, checked, alive, sender_sent, Shared, loop_checks,
  loop_delivers, writer_unregisters, other_unregisters, cancels, deletes, closes, write_fails,
  sender_checks, sender_delivers, turns,
}
use jettison_controller.Watcher.Race.Laws.{
  IsOrderly, IsDeadlocked, failed_write, turns-IsOrderly, write_fails-deadlocks, late_send-panics,
}

-- After the registration.
abbrev fresh : Shared
fresh = record {
  registered = true;
  cancelled = false;
  closed = false;
  loop = idle;
  writer = receiving;
  sender = outside;
  crash = alive;
}

abbrev ended : Shared
ended = record fresh { registered = false; cancelled = true; closed = true }

run_fresh :
    turns
      (loop_checks ∷ loop_delivers ∷ write_fails ∷ writer_unregisters ∷ cancels ∷ deletes ∷ closes
        ∷ [])
      fresh
    ≡ some ended
unfolding turns
run_fresh = refl

fresh-IsOrderly : IsOrderly fresh
fresh-IsOrderly = ((refl, refl), (λ e. cc), λ e. cc)

turns-IsOrderly_example : IsOrderly ended
turns-IsOrderly_example = turns-IsOrderly _ fresh ended run_fresh fresh-IsOrderly

abbrev busy : Shared
busy = record fresh { writer = writing }

write_fails-deadlocks_example :
    (turns (loop_checks ∷ write_fails ∷ []) busy ≡ some (failed_write busy))
    × IsDeadlocked (record (failed_write busy) { sender = checked })
unfolding turns
write_fails-deadlocks_example =
    write_fails-deadlocks (sender_checks ∷ []) busy
      (record (failed_write busy) { sender = checked }) fresh-IsOrderly refl refl refl refl refl

late_send-panics_example :
    (t : Shared) × (turns
        (other_unregisters ∷ cancels ∷ deletes ∷ closes ∷ sender_delivers ∷ [])
        (record fresh { sender = checked })
      ≡ some t)
    × (t.crash ≡ sender_sent)
late_send-panics_example =
    late_send-panics (record fresh { sender = checked }) fresh-IsOrderly refl refl refl refl
