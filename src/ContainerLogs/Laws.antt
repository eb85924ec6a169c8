-- ===== src/ContainerLogs/Laws.antt =====
-- Slices keep the lines that were appended to them, and the messages of a log stream whose writer is
-- in time are the log.
use jettison_controller.Common.{
  ℕ, zero, suc, ◌≤◌, ◌<◌, ◌||◌, Bool, true, false, List, [], ◌∷◌, ◌++◌, none, some, length, eqb,
  ltb, eqb_refl, ◌≡◌, refl, ap, ◌∙◌, arith, inl, inr, Bool-cases, All, append-nil,
}
use jettison_controller.Text.{Str}
use jettison_controller.ContainerLogs.{
  LogEvent, context_done, timer, line, encoded, lines_end, finished, Stream, take, write, read,
  append, to_encode, hand_over, stream_log_lines, no_lines,
}
use jettison_controller.ContainerLogs.Grouped.{
  flush, grouped, lines_of, concat, NoneEmpty, Goes, grouped_complete,
}

take-append :
    (xs : List Str) (n : ℕ) (l : Str)
    → n ≤ length xs
    → take (suc n) (take n xs ++ (l ∷ [])) ≡ take n xs ++ (l ∷ [])
take-append xs zero l h = refl
take-append [] (suc n) l h = absurd (omega (arith, h))
take-append (x ∷ xs) (suc n) l h = ap (λ ys. x ∷ ys) (take-append xs n l (omega (arith, h)))

take-write :
    (xs : List Str) (n : ℕ) (l : Str)
    → n ≤ length xs
    → take (suc n) (write xs n l) ≡ take n xs ++ (l ∷ [])
take-write [] zero l h = refl
take-write (x ∷ xs) zero l h = refl
take-write [] (suc n) l h = absurd (omega (arith, h))
take-write (x ∷ xs) (suc n) l h = ap (λ ys. x ∷ ys) (take-write xs n l (omega (arith, h)))

length-write : (xs : List Str) (n : ℕ) (l : Str) → n ≤ length xs → suc n ≤ length (write xs n l)
length-write [] zero l h = omega arith
length-write (x ∷ xs) zero l h = omega arith
length-write [] (suc n) l h = absurd (omega (arith, h))
length-write (x ∷ xs) (suc n) l h =
    let rest = length-write xs n l (omega (arith, h)) in omega (arith, rest)

length-take : (xs : List Str) (n : ℕ) → n ≤ length xs → length (take n xs) ≡ n
length-take xs zero h = refl
length-take [] (suc n) h = absurd (omega (arith, h))
length-take (x ∷ xs) (suc n) h = ap suc (length-take xs n (omega (arith, h)))

length-snoc : (xs : List Str) (l : Str) → length (xs ++ (l ∷ [])) ≡ suc (length xs)
length-snoc [] l = refl
length-snoc (x ∷ xs) l = ap suc (length-snoc xs l)

-- The lines of the slice have been written, and it is not longer than its capacity.
pub record IsValid (s : Stream) : Type 0 where
  pub fits : s.log_lines.length ≤ s.log_lines.capacity
  pub written : s.log_lines.length ≤ length (s.memory.cells s.log_lines.array)

abbrev pub held : Stream → List Str
held s = read s.memory s.log_lines

length-flush :
    (xs : List Str) (n : ℕ) → n ≤ length xs → eqb n 0 ≡ false → flush (take n xs) ≡ take n xs ∷ []
length-flush xs zero h e = cc
length-flush [] (suc n) h e = absurd (omega (arith, h))
length-flush (x ∷ xs) (suc n) h e = refl

pub held-empty : (s : Stream) → eqb s.log_lines.length 0 ≡ true → held s ≡ []
held-empty s e =
    let zero_length : s.log_lines.length ≡ 0 = ground (arith, e) in
    ap (λ n. take n (s.memory.cells s.log_lines.array)) zero_length

module _ (grow : ℕ → ℕ) (grows : (n : ℕ) → n < grow n) where
  pub append-IsValid : (l : Str) (s : Stream) → IsValid s → IsValid (append grow l s)
  unfolding append
  append-IsValid l s v = elim (Bool-cases (ltb s.log_lines.length s.log_lines.capacity)) [
    | inl e ↦ rw e (record {
      fits = ground arith;
      written = rw (eqb_refl s.log_lines.array) (length-write _ _ l v.written);
    })
    | inr e ↦ rw e (record {
      fits = omega (arith, grows s.log_lines.length);
      written =
          rw (eqb_refl s.memory.next)
            (omega (arith, length-snoc (held s) l, length-take _ _ v.written));
    })
  ]

  pub held-append : (l : Str) (s : Stream) → IsValid s → held (append grow l s) ≡ held s ++ (l ∷ [])
  unfolding append
  held-append l s v = elim (Bool-cases (ltb s.log_lines.length s.log_lines.capacity)) [
    | inl e ↦ rw e (rw (eqb_refl s.log_lines.array) (take-write _ _ l v.written))
    | inr e ↦ rw e (rw (eqb_refl s.memory.next) (take-append _ _ l v.written))
  ]

-- The writer encodes each message before the next line comes. The first argument says whether it has
-- a message, and the second whether there are lines for the next.
abbrev pub InTime : Bool → Bool → List LogEvent → Type 0
InTime busy holds [] = Unit
InTime busy holds (context_done ∷ es) = Unit
InTime busy holds (timer ∷ es) = InTime (busy || holds) false es
InTime busy holds (encoded ∷ es) = InTime false holds es
InTime true holds (line l ∷ es) = ⊥
InTime false holds (line l ∷ es) = InTime false true es
InTime busy holds (lines_end e ∷ es) = Unit

record Tracks (busy holds : Bool) (s : Stream) : Type 0 where
  free : busy ≡ false → s.writing ≡ none
  empty : holds ≡ false → eqb s.log_lines.length 0 ≡ true

pub to_encode-free : (s : Stream) → s.writing ≡ none → to_encode s ≡ []
to_encode-free s e = rw e refl

holds-clash :
    (s : Stream) (busy holds : Bool)
    → eqb s.log_lines.length 0 ≡ false
    → Tracks busy holds s
    → (busy || holds) ≡ false
    → some s.log_lines ≡ none
holds-clash s busy true e k f = ground arith
holds-clash s busy false e k f = let g = k.empty refl in cc

module _ (grow : ℕ → ℕ) (grows : (n : ℕ) → n < grow n) where
  pub append-writing : (l : Str) (s : Stream) → (append grow l s).writing ≡ s.writing
  unfolding append
  append-writing l s = elim (Bool-cases (ltb s.log_lines.length s.log_lines.capacity)) [
    | inl e ↦ rw e refl
    | inr e ↦ rw e refl
  ]

  stream_log_lines-grouped :
      (es : List LogEvent) (s : Stream) (busy holds : Bool)
      → IsValid s
      → Tracks busy holds s
      → InTime busy holds es
      → stream_log_lines grow es s
        ≡ (to_encode s ++ (grouped es (held s)).0, (grouped es (held s)).1)
  unfolding stream_log_lines
  stream_log_lines-grouped [] s busy holds v k t = rw (append-nil (to_encode s)) refl
  stream_log_lines-grouped (context_done ∷ es) s busy holds v k t =
      rw (append-nil (to_encode s)) refl
  stream_log_lines-grouped (timer ∷ es) s busy holds v k t =
      elim (Bool-cases (eqb s.log_lines.length 0)) [
        | inl e ↦
            let u =
              stream_log_lines-grouped es s (busy || holds) false v
                (record { free = λ f. k.free (ground (arith, f)); empty = λ f. e }) t in
            rw (e, held-empty s e) (rw (held-empty s e) at u)
        | inr e ↦
            let u =
              stream_log_lines-grouped es (hand_over s) (busy || holds) false
                (record { fits = omega arith; written = omega arith })
                (record { free = λ f. holds-clash s busy holds e k f; empty = λ f. refl }) t in
            rw (e, length-flush _ _ v.written e, u) refl
      ]
  stream_log_lines-grouped (encoded ∷ es) s busy holds v k t =
      let u =
        stream_log_lines-grouped es (record s { writing = none }) false holds
          (record { fits = v.fits; written = v.written })
          (record { free = λ e. refl; empty = k.empty }) t in
      rw u refl
  stream_log_lines-grouped (line l ∷ es) s true holds v k t = absurd t
  stream_log_lines-grouped (line l ∷ es) s false holds v k t =
      let next = append grow l s in
      let busy_no_more = append-writing l s ∙ k.free refl in
      let u =
        stream_log_lines-grouped es next false true (append-IsValid grow grows l s v)
          (record { free = λ f. busy_no_more; empty = λ f. cc }) t in
      u
      ∙ rw
          (
            to_encode-free next busy_no_more,
            to_encode-free s (k.free refl),
            held-append grow grows l s v,
          )
          refl
  stream_log_lines-grouped (lines_end (some why) ∷ es) s busy holds v k t =
      rw (append-nil (to_encode s)) refl
  stream_log_lines-grouped (lines_end none ∷ es) s busy holds v k t =
      elim (Bool-cases (eqb s.log_lines.length 0)) [
        | inl e ↦ rw (e, held-empty s e) refl
        | inr e ↦ rw (e, length-flush _ _ v.written e) refl
      ]

  -- If appending to a full slice makes room, the lines of a log end without an error, before that
  -- the context does not end, and the writer encodes each message before the next line comes,
  -- then the loop over the log stream ends as finished. The messages before the last, as they are
  -- encoded, are not empty and together have the lines of the log in order, and the last one is
  -- empty.
  pub stream_log_lines_complete :
      (before after : List LogEvent)
      → All Goes before
      → InTime false false (before ++ (lines_end none ∷ after))
      → (full : List (List Str)) × (stream_log_lines grow
            (before ++ (lines_end none ∷ after))
            no_lines
          ≡ (full ++ ([] ∷ []), finished))
        × NoneEmpty full
        × (concat full ≡ lines_of before)
  stream_log_lines_complete before after h t =
      let (full, e, some_lines, same) = grouped_complete before after h in
      let u =
        stream_log_lines-grouped (before ++ (lines_end none ∷ after)) no_lines false false
          (record { fits = omega arith; written = omega arith })
          (record { free = λ f. refl; empty = λ f. refl }) t in
      (full, u ∙ e, some_lines, same)
