-- ===== src/Watcher/Race/Laws.antt =====
-- What can happen to a connection that several goroutines use.
use mathlib.Core.Path.{subst}
use jettison_controller.Common.{
  true, false, List, [], ◌∷◌, some, ◌≡◌, ◌≢◌, refl, arith, inl, inr, Option-cases, some_injective,
  not,
}
use jettison_controller.Watcher.Race.{
  LoopAt, idle, sending, cancelling, deleting, closing, writing, unregistering, checked, alive,
  loop_sent, sender_sent, closed_twice, Shared, Turn, loop_checks, other_unregisters, cancels,
  deletes, closes, write_fails, sender_delivers, turn, turns,
}

-- What the state of the connection is at each place of the loop.
abbrev AtPlace : LoopAt → Shared → Type 0
AtPlace idle s = (s.registered ≡ not s.cancelled) × (s.closed ≡ s.cancelled)
AtPlace sending s = (s.registered ≡ true) × (s.cancelled ≡ false) × (s.closed ≡ false)
AtPlace cancelling s = (s.registered ≡ true) × (s.cancelled ≡ false) × (s.closed ≡ false)
AtPlace deleting s = (s.registered ≡ true) × (s.cancelled ≡ true) × (s.closed ≡ false)
AtPlace closing s = (s.registered ≡ false) × (s.cancelled ≡ true) × (s.closed ≡ false)

abbrev pub IsOrderly : Shared → Type 0
IsOrderly s = AtPlace s.loop s × (s.crash ≢ loop_sent) × (s.crash ≢ closed_twice)

turn-IsOrderly : (a : Turn) (s t : Shared) → turn a s ≡ some t → IsOrderly s → IsOrderly t
unfolding turn
turn-IsOrderly loop_checks s t h v = ground arith
turn-IsOrderly a s t h v = ground arith

-- What every step keeps, every run keeps.
turns-keep :
    (P : Shared → Type 0)
    → ((a : Turn) (s t : Shared) → turn a s ≡ some t → P s → P t)
    → (run : List Turn) (s t : Shared) → turns run s ≡ some t
    → P s
    → P t
unfolding turns
turns-keep P keep [] s t h v = subst P (some_injective h) v
turns-keep P keep (a ∷ rest) s t h v = elim (Option-cases (turn a s)) [
  | inl e ↦ let n = rw (e, turns) at h in cc
  | inr (u, e) ↦ turns-keep P keep rest u t (rw (e, turns) at h) (keep a s u e v)
]

-- For one connection, its writer and one more sender, any interleaving of steps keeps this: the
-- loop never sends to the closed channel, the channel is not closed twice, and where the loop is
-- says whether the connection is registered, cancelled and closed.
pub turns-IsOrderly :
    (run : List Turn) (s t : Shared) → turns run s ≡ some t → IsOrderly s → IsOrderly t
turns-IsOrderly = turns-keep IsOrderly turn-IsOrderly

-- The loop and the writer wait for each other.
abbrev pub IsDeadlocked : Shared → Type 0
IsDeadlocked s =
    (s.loop ≡ sending) × (s.writer ≡ unregistering) × (s.cancelled ≡ false) × (s.closed ≡ false)

turn-IsDeadlocked : (a : Turn) (s t : Shared) → turn a s ≡ some t → IsDeadlocked s → IsDeadlocked t
unfolding turn
turn-IsDeadlocked loop_checks s t h v = ground arith
turn-IsDeadlocked a s t h v = ground arith

turns-IsDeadlocked :
    (run : List Turn) (s t : Shared) → turns run s ≡ some t → IsDeadlocked s → IsDeadlocked t
turns-IsDeadlocked = turns-keep IsDeadlocked turn-IsDeadlocked

-- The state after the loop has come to send again, and the write of the last message has failed.
abbrev pub failed_write : Shared → Shared
failed_write s = record s { loop = sending; writer = unregistering }

-- In an orderly state where a connection is registered, its writer writes and the loop is idle,
-- the loop can come to send to it before the write fails. From there no sequence of steps frees
-- the loop: it waits for the writer, and the writer for the loop.
pub write_fails-deadlocks :
    (run : List Turn) (s t : Shared)
    → IsOrderly s
    → s.loop ≡ idle
    → s.writer ≡ writing
    → s.registered ≡ true
    → s.crash ≡ alive
    → turns run (failed_write s) ≡ some t
    → (turns (loop_checks ∷ write_fails ∷ []) s ≡ some (failed_write s)) × IsDeadlocked t
unfolding turns
write_fails-deadlocks run s t v at_idle at_writing known running h =
    (ground arith, turns-IsDeadlocked run (failed_write s) t h (ground arith))

-- In an orderly state where a connection is registered, the loop is idle and another goroutine is
-- in sendConn behind the check of the context, the connection can be unregistered before the
-- goroutine sends, which then panics.
pub late_send-panics :
    (s : Shared)
    → IsOrderly s
    → s.loop ≡ idle
    → s.registered ≡ true
    → s.sender ≡ checked
    → s.crash ≡ alive
    → (t : Shared) × (turns
          (other_unregisters ∷ cancels ∷ deletes ∷ closes ∷ sender_delivers ∷ [])
          s
        ≡ some t)
      × (t.crash ≡ sender_sent)
unfolding turns
late_send-panics s v at_idle known behind running = (
  record s { registered = false; cancelled = true; closed = true; crash = sender_sent },
  ground arith,
  refl,
)
