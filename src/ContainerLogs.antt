-- ===== src/ContainerLogs.antt =====
-- The log stream of internal/webserver/container_log_message_handler.go: how streamLogLines groups
-- the lines of a container's log into messages. A message has a slice of lines, and the loop writes
-- to the memory of that slice again after it has handed the message to the connection's writer. So
-- slices are here, and the arrays that they share. The writer encodes a message at one moment.
pub mod Grouped
pub mod Laws
pub mod Overwrites
pub mod Tests
use jettison_controller.Common.{
  ℕ, zero, suc, List, [], ◌∷◌, ◌++◌, Option, none, some, eqb, ltb, if◌then◌else◌,
}
use jettison_controller.Text.{Str}

-- What the `select` of the loop receives: the end of the context, the timer, a line, or the end of
-- the lines with the scanner's error. Between these, the writer encodes the message that it has.
pub data LogEvent : Type 0 where
  context_done : LogEvent
  timer : LogEvent
  line : Str → LogEvent
  encoded : LogEvent
  lines_end : Option Str → LogEvent

-- How the loop ends: without a word, with an error that closes the connection, or with the log.
-- The last case is that of no more events: it waits.
pub data Ending : Type 0 where
  cancelled : Ending
  scan_failed : Str → Ending
  finished : Ending
  waiting : Ending

-- A slice from the first cell of its array on.
pub record Slice : Type 0 where
  pub array : ℕ
  pub length : ℕ
  pub capacity : ℕ

-- The written cells of each array, and the next array to be allocated.
pub record Memory : Type 0 where
  pub cells : ℕ → List Str
  pub next : ℕ

pub record Stream : Type 0 where
  pub memory : Memory
  pub log_lines : Slice
  -- The lines of the message that the writer has and did not encode yet.
  pub writing : Option Slice

abbrev pub take : ℕ → List Str → List Str
take zero xs = []
take (suc n) [] = []
take (suc n) (x ∷ xs) = x ∷ take n xs

-- A write to a cell, which is at the end of the written ones or before it.
abbrev pub write : List Str → ℕ → Str → List Str
write [] i l = l ∷ []
write (x ∷ xs) zero l = l ∷ xs
write (x ∷ xs) (suc i) l = x ∷ write xs i l

abbrev pub put_cells : (ℕ → List Str) → ℕ → List Str → ℕ → List Str
put_cells f a xs b = if eqb b a then xs else f b

abbrev pub read : Memory → Slice → List Str
read m s = take s.length (m.cells s.array)

-- The message that the writer encodes next, with the lines that are in its memory then.
abbrev pub to_encode : Stream → List (List Str)
to_encode s = elim s.writing [ none ↦ [] | some held ↦ read s.memory held ∷ [] ]

-- `logLines = logLines[:0]` after the writer took the lines.
abbrev pub hand_over : Stream → Stream
hand_over s = record s { log_lines = record s.log_lines { length = 0 }; writing = some s.log_lines }

-- `grow` is the capacity that `append` gives a slice which is full, from its length.
module _ (grow : ℕ → ℕ) where
  -- `logLines = append(logLines, l)`
  unfoldable pub append : Str → Stream → Stream
  append l s =
      let m = s.memory in
      let held = s.log_lines in
      if ltb held.length held.capacity
      then record s {
        memory = record m {
          cells = put_cells m.cells held.array (write (m.cells held.array) held.length l);
        };
        log_lines = record held { length = suc held.length };
      }
      else record s {
        memory = record {
          cells = put_cells m.cells m.next (read m held ++ (l ∷ []));
          next = suc m.next;
        };
        log_lines = record {
          array = m.next;
          length = suc held.length;
          capacity = grow held.length;
        };
      }

  -- The lines of the messages as the writer encodes them. A send waits until the writer is done with
  -- the message before, and the context does not end during it.
  unfoldable pub stream_log_lines : List LogEvent → Stream → List (List Str) × Ending
  unfolding append
  stream_log_lines [] s = (to_encode s, waiting)
  stream_log_lines (context_done ∷ es) s = (to_encode s, cancelled)
  stream_log_lines (timer ∷ es) s =
      let unchanged = stream_log_lines es s in
      let (sent, ending) = stream_log_lines es (hand_over s) in
      if eqb s.log_lines.length 0 then unchanged else (to_encode s ++ sent, ending)
  stream_log_lines (line l ∷ es) s = stream_log_lines es (append l s)
  stream_log_lines (encoded ∷ es) s =
      let (sent, ending) = stream_log_lines es (record s { writing = none }) in
      (to_encode s ++ sent, ending)
  stream_log_lines (lines_end (some e) ∷ es) s = (to_encode s, scan_failed e)
  stream_log_lines (lines_end none ∷ es) s =
      if eqb s.log_lines.length 0
      then (to_encode s ++ ([] ∷ []), finished)
      else (to_encode s ++ (read s.memory s.log_lines ∷ ([] ∷ [])), finished)

-- `logLines := []string{}`: an empty array, at which nothing is written.
abbrev pub no_lines : Stream
no_lines = record {
  memory = record { cells = λ a. []; next = 1 };
  log_lines = record { array = 0; length = 0; capacity = 0 };
  writing = none;
}
