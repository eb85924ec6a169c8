-- ===== src/Text/Split.antt =====
-- Laws of `strings.Split` and `strings.Join`.
use jettison_controller.Common.{
  ℕ, ◌≡◌, ◌≢◌, refl, inl, inr, List, [], ◌∷◌, ◌++◌, arith, eqb, eqb_refl, All, Lacks, Bool-cases,
}
use jettison_controller.Text.{Str, split, join, extend_first}

pub split_of_Lacks : (s : Str) (sep : ℕ) → Lacks sep s → split s sep ≡ s ∷ []
unfolding split
split_of_Lacks [] sep h = refl
split_of_Lacks (c ∷ s) sep h = ground (arith, split_of_Lacks s sep)

pub split-append : (p s : Str) (sep : ℕ) → Lacks sep p → split (p ++ sep ∷ s) sep ≡ p ∷ split s sep
unfolding split
split-append [] s sep h = rw eqb_refl
split-append (c ∷ p) s sep h = ground (arith, split-append p s sep)

extend_first-Lacks :
    (c : ℕ) (ps : List Str) (sep : ℕ)
    → c ≢ sep
    → All (Lacks sep) ps
    → All (Lacks sep) (extend_first c ps)
extend_first-Lacks c [] sep h hs = ((h, tt), tt)
extend_first-Lacks c (p ∷ ps) sep h (hp, hs) = ((h, hp), hs)

-- No part holds the separator.
pub split-Lacks : (s : Str) (sep : ℕ) → All (Lacks sep) (split s sep)
unfolding split
split-Lacks [] sep = (tt, tt)
split-Lacks (c ∷ s) sep = elim (Bool-cases (eqb c sep)) [
  | inl e ↦ rw e (tt, split-Lacks s sep)
  | inr e ↦ rw e (extend_first-Lacks c (split s sep) sep (ground arith) (split-Lacks s sep))
]

extend_first-ne-nil : (c : ℕ) (ps : List Str) → extend_first c ps ≢ []
extend_first-ne-nil c [] h = cc
extend_first-ne-nil c (p ∷ ps) h = cc

split-ne-nil : (s : Str) (sep : ℕ) → split s sep ≢ []
unfolding split
split-ne-nil [] sep = λ h. cc
split-ne-nil (c ∷ s) sep = elim (Bool-cases (eqb c sep)) [
  | inl e ↦ rw e (λ h. cc)
  | inr e ↦ rw e (extend_first-ne-nil c (split s sep))
]

join-extend_first :
    (c : ℕ) (ps : List Str) (sep : Str) → join (extend_first c ps) sep ≡ c ∷ join ps sep
unfolding join
join-extend_first c [] sep = refl
join-extend_first c (p ∷ []) sep = refl
join-extend_first c (p ∷ q ∷ ps) sep = refl

join-nil-cons : (ps : List Str) (sep : Str) → ps ≢ [] → join ([] ∷ ps) sep ≡ sep ++ join ps sep
unfolding join
join-nil-cons [] sep h = absurd (h refl)
join-nil-cons (p ∷ ps) sep h = refl

-- Joining the parts gives the text back.
pub join-split : (s : Str) (sep : ℕ) → join (split s sep) (sep ∷ []) ≡ s
unfolding split
join-split [] sep = unfold join in refl
join-split (c ∷ s) sep = elim (Bool-cases (eqb c sep)) [
  | inl e ↦
      rw (e, join-nil-cons (split s sep) (sep ∷ []) (split-ne-nil s sep), join-split s sep)
        (ground arith)
  | inr e ↦ rw (e, join-extend_first, join-split s sep)
]
