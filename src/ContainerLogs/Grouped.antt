-- ===== src/ContainerLogs/Grouped.antt =====
-- The messages of the log stream of internal/webserver/container_log_message_handler.go, as they are
-- meant: by their lines, without memory.
use jettison_controller.Common.{
  List, [], ◌∷◌, ◌++◌, none, some, ◌≡◌, ◌≢◌, refl, sym, ap, ◌∙◌, All, All-append, append_assoc,
  append-nil,
}
use jettison_controller.Text.{Str}
use jettison_controller.ContainerLogs.{
  LogEvent, context_done, timer, line, encoded, lines_end, Ending, cancelled, scan_failed, finished,
  waiting,
}

-- A message with the lines, if there are any.
abbrev pub flush : List Str → List (List Str)
flush [] = []
flush (l ∷ ls) = (l ∷ ls) ∷ []

abbrev pub grouped : List LogEvent → List Str → List (List Str) × Ending
grouped [] held = ([], waiting)
grouped (context_done ∷ es) held = ([], cancelled)
grouped (timer ∷ es) held = let (sent, ending) = grouped es [] in (flush held ++ sent, ending)
grouped (line l ∷ es) held = grouped es (held ++ (l ∷ []))
grouped (encoded ∷ es) held = grouped es held
grouped (lines_end (some e) ∷ es) held = ([], scan_failed e)
grouped (lines_end none ∷ es) held = (flush held ++ ([] ∷ []), finished)

-- The lines that came, in order, while the stream was read.
abbrev pub lines_of : List LogEvent → List Str
lines_of [] = []
lines_of (context_done ∷ es) = lines_of es
lines_of (timer ∷ es) = lines_of es
lines_of (encoded ∷ es) = lines_of es
lines_of (line l ∷ es) = l ∷ lines_of es
lines_of (lines_end e ∷ es) = []

abbrev pub concat : List (List Str) → List Str
concat [] = []
concat (ls ∷ rest) = ls ++ concat rest

-- All messages before the end have lines.
abbrev pub NoneEmpty : List (List Str) → Type 0
NoneEmpty = All (λ ls. ls ≢ [])

flush-concat :
    (held : List Str) (rest : List (List Str)) → concat (flush held ++ rest) ≡ held ++ concat rest
flush-concat [] rest = refl
flush-concat (l ∷ ls) rest = refl

flush-NoneEmpty : (held : List Str) → NoneEmpty (flush held)
flush-NoneEmpty [] = tt
flush-NoneEmpty (l ∷ ls) = ((λ h. cc), tt)

-- If the loop ends with the log: messages with lines, which are the log, and an empty one at the end.
grouped-finished :
    (es : List LogEvent) (held : List Str) (sent : List (List Str))
    → grouped es held ≡ (sent, finished)
    → (full : List (List Str)) × (sent ≡ full ++ ([] ∷ []))
      × NoneEmpty full
      × (concat full ≡ held ++ lines_of es)
grouped-finished [] held sent h = cc
grouped-finished (context_done ∷ es) held sent h = cc
grouped-finished (timer ∷ es) held sent h =
    let later = grouped es [] in
    let ended : later.1 ≡ finished = ap (λ p. p.1) h in
    let (full, e, some_lines, same) = grouped-finished es [] later.0 (λ i. (later.0, ended i)) in
    (
      flush held ++ full,
      sym (ap (λ p. p.0) h)
          ∙ ap (λ x. flush held ++ x) e
          ∙ sym (append_assoc (flush held) full ([] ∷ [])),
      All-append (λ ls. ls ≢ []) (flush held) full (flush-NoneEmpty held) some_lines,
      flush-concat held full ∙ ap (λ x. held ++ x) same,
    )
grouped-finished (encoded ∷ es) held sent h = grouped-finished es held sent h
grouped-finished (line l ∷ es) held sent h =
    let (full, e, some_lines, same) = grouped-finished es (held ++ (l ∷ [])) sent h in
    (full, e, some_lines, same ∙ append_assoc held (l ∷ []) (lines_of es))
grouped-finished (lines_end (some why) ∷ es) held sent h = cc
grouped-finished (lines_end none ∷ es) held sent h = (
  flush held,
  sym (ap (λ p. p.0) h),
  flush-NoneEmpty held,
  ap concat (sym (append-nil (flush held))) ∙ flush-concat held [],
)

-- A line, the timer, or the writer.
abbrev pub Goes : LogEvent → Type 0
Goes (line l) = Unit
Goes timer = Unit
Goes encoded = Unit
Goes (lines_end e) = ⊥
Goes context_done = ⊥

grouped-ends :
    (before after : List LogEvent) (held : List Str)
    → All Goes before
    → (grouped (before ++ (lines_end none ∷ after)) held).1 ≡ finished
grouped-ends [] after held h = refl
grouped-ends (timer ∷ before) after held (_, h) = grouped-ends before after [] h
grouped-ends (encoded ∷ before) after held (_, h) = grouped-ends before after held h
grouped-ends (line l ∷ before) after held (_, h) = grouped-ends before after (held ++ (l ∷ [])) h
grouped-ends (context_done ∷ before) after held (h, _) = absurd h
grouped-ends (lines_end e ∷ before) after held (h, _) = absurd h

lines_of-append :
    (before after : List LogEvent)
    → All Goes before
    → lines_of (before ++ (lines_end none ∷ after)) ≡ lines_of before
lines_of-append [] after h = refl
lines_of-append (timer ∷ before) after (_, h) = lines_of-append before after h
lines_of-append (encoded ∷ before) after (_, h) = lines_of-append before after h
lines_of-append (line l ∷ before) after (_, h) = ap (λ x. l ∷ x) (lines_of-append before after h)
lines_of-append (context_done ∷ before) after (h, _) = absurd h
lines_of-append (lines_end e ∷ before) after (h, _) = absurd h

pub grouped_complete :
    (before after : List LogEvent)
    → All Goes before
    → (full : List (List Str)) × (grouped (before ++ (lines_end none ∷ after)) []
        ≡ (full ++ ([] ∷ []), finished))
      × NoneEmpty full
      × (concat full ≡ lines_of before)
grouped_complete before after h =
    let es = before ++ (lines_end none ∷ after) in
    let ended = grouped-ends before after [] h in
    let sent = (grouped es []).0 in
    let (full, e, some_lines, same) = grouped-finished es [] sent (λ i. (sent, ended i)) in
    (full, (λ i. (e i, ended i)), some_lines, same ∙ lines_of-append before after h)
