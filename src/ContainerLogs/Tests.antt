-- ===== src/ContainerLogs/Tests.antt =====
-- A log of three lines, and a writer that is in time or late. Each append to a full slice makes room
-- for one line more.
use jettison_controller.Common.{ℕ, suc, ◌<◌, List, [], ◌∷◌, ◌++◌, map, none, ◌≡◌, arith}
use jettison_controller.Text.{Str, codes}
use jettison_controller.ContainerLogs.{
  LogEvent, timer, line, encoded, lines_end, finished, append, stream_log_lines, no_lines,
}
use jettison_controller.ContainerLogs.Grouped.{lines_of, concat, NoneEmpty}
use jettison_controller.ContainerLogs.Laws.{stream_log_lines_complete}
use jettison_controller.ContainerLogs.Overwrites.{stream_log_lines_overwrites}

abbrev grow : ℕ → ℕ
grow n = suc n

grows : (n : ℕ) → n < grow n
grows n = omega arith

abbrev log : List LogEvent
log =
    line (codes "a") ∷ (line (codes "b") ∷ (timer ∷ (encoded ∷ (timer ∷ (line (codes "c") ∷ [])))))

stream_log_lines_complete_example :
    (full : List (List Str)) × (stream_log_lines grow (log ++ (lines_end none ∷ [])) no_lines
      ≡ (full ++ ([] ∷ []), finished))
    × NoneEmpty full
    × (concat full ≡ lines_of log)
stream_log_lines_complete_example =
    stream_log_lines_complete grow grows log [] (tt, (tt, (tt, (tt, (tt, (tt, tt)))))) tt

stream_log_lines_overwrites_example :
    stream_log_lines grow
      (map line (codes "a" ∷ (codes "b" ∷ []))
        ++ (timer ∷ (line (codes "c") ∷ (lines_end none ∷ []))))
      no_lines
    ≡ ((codes "c" ∷ (codes "b" ∷ [])) ∷ ((codes "c" ∷ []) ∷ ([] ∷ [])), finished)
stream_log_lines_overwrites_example =
    stream_log_lines_overwrites grow grows (codes "a") (codes "b" ∷ []) (codes "c")

messages :
    stream_log_lines grow (log ++ (lines_end none ∷ [])) no_lines
    ≡ ((codes "a" ∷ (codes "b" ∷ [])) ∷ ((codes "c" ∷ []) ∷ ([] ∷ [])), finished)
unfolding stream_log_lines append
messages = ground arith
