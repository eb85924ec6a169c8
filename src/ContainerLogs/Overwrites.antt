-- ===== src/ContainerLogs/Overwrites.antt =====
-- A line that comes while the writer still has a message is written into that message.
use jettison_controller.Common.{
  ℕ, zero, suc, ◌<◌, true, false, List, [], ◌∷◌, ◌++◌, map, none, some, eqb, ltb, eqb_refl, ◌≡◌,
  refl, ap, ◌∙◌, arith, append_assoc, append-nil,
}
use jettison_controller.Text.{Str}
use jettison_controller.ContainerLogs.{
  LogEvent, timer, line, lines_end, finished, Stream, take, write, put_cells, append, to_encode,
  hand_over, stream_log_lines, no_lines,
}
use jettison_controller.ContainerLogs.Laws.{
  IsValid, held, append-IsValid, append-writing, held-append,
}

take-write_first :
    (xs ls : List Str) (n : ℕ) (a b : Str) → take n xs ≡ a ∷ ls → take n (write xs 0 b) ≡ b ∷ ls
take-write_first xs ls zero a b h = cc
take-write_first [] ls (suc n) a b h = cc
take-write_first (x ∷ xs) ls (suc n) a b h = cc

take_first-write : (xs : List Str) (b : Str) → take 1 (write xs 0 b) ≡ b ∷ []
take_first-write [] b = refl
take_first-write (x ∷ xs) b = refl

has_lines : (xs ls : List Str) (n : ℕ) (a : Str) → take n xs ≡ a ∷ ls → eqb n 0 ≡ false
has_lines xs ls zero a h = cc
has_lines xs ls (suc n) a h = ground arith

module _ (grow : ℕ → ℕ) (grows : (n : ℕ) → n < grow n) where
  abbrev append_all : List Str → Stream → Stream
  append_all [] s = s
  append_all (l ∷ ls) s = append_all ls (append grow l s)

  stream_log_lines-lines :
      (ls : List Str) (rest : List LogEvent) (s : Stream)
      → stream_log_lines grow (map line ls ++ rest) s ≡ stream_log_lines grow rest (append_all ls s)
  unfolding stream_log_lines
  stream_log_lines-lines [] rest s = refl
  stream_log_lines-lines (l ∷ ls) rest s = stream_log_lines-lines ls rest (append grow l s)

  append_all-IsValid : (ls : List Str) (s : Stream) → IsValid s → IsValid (append_all ls s)
  append_all-IsValid [] s v = v
  append_all-IsValid (l ∷ ls) s v =
      append_all-IsValid ls (append grow l s) (append-IsValid grow grows l s v)

  held-append_all : (ls : List Str) (s : Stream) → IsValid s → held (append_all ls s) ≡ held s ++ ls
  held-append_all [] s v = rw (append-nil (held s)) refl
  held-append_all (l ∷ ls) s v =
      held-append_all ls (append grow l s) (append-IsValid grow grows l s v)
      ∙ ap (λ x. x ++ ls) (held-append grow grows l s v)
      ∙ append_assoc (held s) (l ∷ []) ls

  append_all-writing : (ls : List Str) (s : Stream) → (append_all ls s).writing ≡ s.writing
  append_all-writing [] s = refl
  append_all-writing (l ∷ ls) s =
      append_all-writing ls (append grow l s) ∙ append-writing grow grows l s

  -- The stream after a line was written to the array of the message that was just handed over.
  abbrev overwritten : Str → Stream → Stream
  overwritten b s = record {
    memory = record s.memory {
      cells =
          put_cells s.memory.cells s.log_lines.array (write (s.memory.cells s.log_lines.array) 0 b);
    };
    log_lines = record s.log_lines { length = 1 };
    writing = some s.log_lines;
  }

  append-hand_over :
      (b : Str) (s : Stream)
      → ltb 0 s.log_lines.capacity ≡ true
      → append grow b (hand_over s) ≡ overwritten b s
  unfolding append
  append-hand_over b s e = rw e refl

  stream_log_lines-timer :
      (es : List LogEvent) (s : Stream)
      → eqb s.log_lines.length 0 ≡ false
      → s.writing ≡ none
      → stream_log_lines grow (timer ∷ es) s ≡ stream_log_lines grow es (hand_over s)
  unfolding stream_log_lines
  stream_log_lines-timer es s e free = rw (e, free) refl

  stream_log_lines-end :
      (s : Stream)
      → eqb s.log_lines.length 0 ≡ false
      → stream_log_lines grow (lines_end none ∷ []) s
        ≡ (to_encode s ++ (held s ∷ ([] ∷ [])), finished)
  unfolding stream_log_lines
  stream_log_lines-end s e = rw e refl

  to_encode-overwritten :
      (s : Stream) (a : Str) (ls : List Str) (b : Str)
      → held s ≡ a ∷ ls
      → to_encode (overwritten b s) ≡ (b ∷ ls) ∷ []
  to_encode-overwritten s a ls b same =
      rw (eqb_refl s.log_lines.array) (ap (λ x. x ∷ []) (take-write_first _ ls _ a b same))

  held-overwritten : (s : Stream) (b : Str) → held (overwritten b s) ≡ b ∷ []
  held-overwritten s b = rw (eqb_refl s.log_lines.array) (take_first-write _ b)

  overwrite :
      (s : Stream) (a : Str) (ls : List Str) (b : Str)
      → IsValid s
      → s.writing ≡ none
      → held s ≡ a ∷ ls
      → stream_log_lines grow (timer ∷ (line b ∷ (lines_end none ∷ []))) s
        ≡ ((b ∷ ls) ∷ ((b ∷ []) ∷ ([] ∷ [])), finished)
  unfolding stream_log_lines
  overwrite s a ls b v free same =
      let some_lines : eqb s.log_lines.length 0 ≡ false = has_lines _ ls _ a same in
      let room : ltb 0 s.log_lines.capacity ≡ true = (let fits = v.fits in ground arith) in
      stream_log_lines-timer (line b ∷ (lines_end none ∷ [])) s some_lines free
      ∙ ap (stream_log_lines grow (lines_end none ∷ [])) (append-hand_over b s room)
      ∙ stream_log_lines-end (overwritten b s) (ground arith)
      ∙ ap (λ x. (x ++ (held (overwritten b s) ∷ ([] ∷ [])), finished))
          (to_encode-overwritten s a ls b same)
      ∙ ap (λ x. ((b ∷ ls) ∷ (x ∷ ([] ∷ [])), finished)) (held-overwritten s b)

  -- If appending to a full slice makes room, the timer fires after at least one line, and one
  -- more line comes before the writer encodes the message, then the log ends as finished, but the
  -- first message as encoded has the later line in place of its own first line, and the later
  -- line comes again in the next message.
  pub stream_log_lines_overwrites :
      (a : Str) (ls : List Str) (b : Str)
      → stream_log_lines grow
          (map line (a ∷ ls) ++ (timer ∷ (line b ∷ (lines_end none ∷ []))))
          no_lines
        ≡ ((b ∷ ls) ∷ ((b ∷ []) ∷ ([] ∷ [])), finished)
  stream_log_lines_overwrites a ls b =
      let start : IsValid no_lines = record { fits = omega arith; written = omega arith } in
      stream_log_lines-lines (a ∷ ls) _ no_lines
      ∙ overwrite (append_all (a ∷ ls) no_lines) a ls b (append_all-IsValid (a ∷ ls) no_lines start)
          (append_all-writing (a ∷ ls) no_lines) (held-append_all (a ∷ ls) no_lines start)
