-- ===== src/Watcher/Race.antt =====
-- One connection of internal/webserver/flow_watcher.go and the goroutines that share it, in steps that
-- may interleave: the loop, the connection's writer, and one more goroutine that calls sendConn,
-- such as the connection's reader.
pub mod Laws
pub mod Tests
use jettison_controller.Common.{
  Bool, true, false, not, ◌&&◌, ◌||◌, List, [], ◌∷◌, Option, none, some, if◌then◌else◌,
}

-- Where the loop is: waiting for an event; in the `select` of sendConn for the connection; or before
-- one of the three steps of unregisterConn.
pub data LoopAt : Type 0 where
  idle sending cancelling deleting closing : LoopAt

-- The writer waits for a message, writes one, sends itself to `unregister`, or has returned.
pub data WriterAt : Type 0 where
  receiving writing unregistering returned : WriterAt

-- The other goroutine is elsewhere, or in sendConn behind the check of the context.
pub data SenderAt : Type 0 where
  outside checked : SenderAt

-- How the program was stopped by a panic on the channel, if it was.
pub data Crash : Type 0 where
  alive loop_sent sender_sent closed_twice : Crash

pub record Shared : Type 0 where
  pub registered : Bool
  pub cancelled : Bool
  pub closed : Bool
  pub loop : LoopAt
  pub writer : WriterAt
  pub sender : SenderAt
  pub crash : Crash

pub data Turn : Type 0 where
  -- The loop comes to sendConn with a message for the connection.
  loop_checks : Turn
  -- The branches of its `select`.
  loop_delivers loop_gives_up : Turn
  -- The loop receives the connection from `unregister`, sent by its writer or by another goroutine.
  writer_unregisters other_unregisters : Turn
  -- The steps of unregisterConn.
  cancels deletes closes : Turn
  -- The writer's call of WriteJSON, and the end of its loop.
  write_succeeds write_fails writer_returns : Turn
  -- The other goroutine in sendConn.
  sender_checks sender_delivers sender_gives_up : Turn

abbrev is_idle : LoopAt → Bool
is_idle idle = true
is_idle _ = false

abbrev is_sending : LoopAt → Bool
is_sending sending = true
is_sending _ = false

abbrev is_receiving : WriterAt → Bool
is_receiving receiving = true
is_receiving _ = false

abbrev is_writing : WriterAt → Bool
is_writing writing = true
is_writing _ = false

abbrev is_unregistering : WriterAt → Bool
is_unregistering unregistering = true
is_unregistering _ = false

abbrev is_checked : SenderAt → Bool
is_checked outside = false
is_checked checked = true

-- unregisterConn up to its first step.
abbrev begin_unregister : Shared → Shared
begin_unregister s = if s.registered then record s { loop = cancelling } else s

-- The state after a step; `none` when the step cannot be taken. A send to a closed channel panics.
unfoldable pub move : Turn → Shared → Option Shared
move loop_checks s =
    if is_idle s.loop && s.registered && not s.cancelled
    then some (record s { loop = sending })
    else none
move loop_delivers s =
    if is_sending s.loop
    then (if s.closed
        then some (record s { crash = loop_sent })
        else if is_receiving s.writer
        then some (record s { loop = idle; writer = writing })
        else none)
    else none
move loop_gives_up s =
    if is_sending s.loop && s.cancelled then some (record s { loop = idle }) else none
move writer_unregisters s =
    if is_idle s.loop && is_unregistering s.writer
    then some (begin_unregister (record s { writer = receiving }))
    else none
move other_unregisters s = if is_idle s.loop then some (begin_unregister s) else none
move cancels s = elim s.loop [
  | cancelling ↦ some (record s { cancelled = true; loop = deleting })
  | _ ↦ none
]
move deletes s = elim s.loop [
  | deleting ↦ some (record s { registered = false; loop = closing })
  | _ ↦ none
]
move closes s = elim s.loop [
  | closing ↦
      if s.closed
      then some (record s { crash = closed_twice })
      else some (record s { closed = true; loop = idle })
  | _ ↦ none
]
move write_succeeds s = if is_writing s.writer then some (record s { writer = receiving }) else none
move write_fails s =
    if is_writing s.writer then some (record s { writer = unregistering }) else none
move writer_returns s =
    if is_receiving s.writer && s.closed then some (record s { writer = returned }) else none
move sender_checks s =
    if is_checked s.sender || s.cancelled then none else some (record s { sender = checked })
move sender_delivers s =
    if is_checked s.sender
    then (if s.closed
        then some (record s { crash = sender_sent })
        else if is_receiving s.writer
        then some (record s { sender = outside; writer = writing })
        else none)
    else none
move sender_gives_up s =
    if is_checked s.sender && s.cancelled then some (record s { sender = outside }) else none

abbrev is_alive : Crash → Bool
is_alive alive = true
is_alive _ = false

-- Nothing runs after a panic.
unfoldable pub turn : Turn → Shared → Option Shared
unfolding move
turn a s = if is_alive s.crash then move a s else none

-- The steps, one after another.
unfoldable pub turns : List Turn → Shared → Option Shared
unfolding turn
turns [] s = some s
turns (a ∷ rest) s = elim (turn a s) [ none ↦ none | some t ↦ turns rest t ]
