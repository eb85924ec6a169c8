-- ===== src/Text/Prefix.antt =====
-- Laws of prefixes and suffixes.
use mathlib.Core.Path.{subst}
use jettison_controller.Common.{
  ℕ, ◌≡◌, ◌≢◌, refl, ap, ◌⊎◌, inl, inr, [], ◌∷◌, ◌++◌, none, some, arith, length, length-append,
  eqb_refl, sym, Lacks,
}
use jettison_controller.Text.{Str, Str-discrete, cut_prefix, cut_suffix, trim_suffix}

pub cut_prefix-append : (prefix s : Str) → cut_prefix (prefix ++ s) prefix ≡ some s
unfolding cut_prefix
cut_prefix-append [] s = refl
cut_prefix-append (p ∷ prefix) s = rw eqb_refl (cut_prefix-append prefix s)

pub cut_prefix-eq-some : (s prefix r : Str) → cut_prefix s prefix ≡ some r → s ≡ prefix ++ r
unfolding cut_prefix
cut_prefix-eq-some s [] r h = cc
cut_prefix-eq-some [] (p ∷ prefix) r h = cc
cut_prefix-eq-some (c ∷ s) (p ∷ prefix) r h = ground (arith, cut_prefix-eq-some s prefix r)

ne_append : (c : ℕ) (s suffix : Str) → suffix ≢ c ∷ s ++ suffix
ne_append c s suffix e = absurd (omega (arith, ap length e, length-append (c ∷ s) suffix))

pub cut_suffix-append : (s suffix : Str) → cut_suffix (s ++ suffix) suffix ≡ some s
unfolding cut_suffix
cut_suffix-append [] [] = ground arith
cut_suffix-append [] (c ∷ suffix) = ground arith
cut_suffix-append (c ∷ s) suffix = ground (arith, ne_append c s suffix, cut_suffix-append s suffix)

cut_suffix-cases :
    (s suffix : Str)
    → (cut_suffix s suffix ≡ none)
      ⊎ ((r : Str) × (cut_suffix s suffix ≡ some r) × (s ≡ r ++ suffix))
unfolding cut_suffix
cut_suffix-cases [] suffix = ground arith
cut_suffix-cases (c ∷ s) suffix = elim (Str-discrete (c ∷ s) suffix) [
  | yes e ↦ inr ([], ground arith, ground arith)
  | no e ↦ elim (cut_suffix-cases s suffix) [
    | inl gone ↦ inl (ground arith)
    | inr (r, found, whole) ↦ inr (c ∷ r, ground arith, ground arith)
  ]
]

pub trim_suffix-append : (s suffix : Str) → trim_suffix (s ++ suffix) suffix ≡ s
unfolding trim_suffix
trim_suffix-append s suffix = rw (cut_suffix-append s suffix, trim_suffix)

pub trim_suffix_of_none :
    (s suffix : Str) → ((r : Str) → s ≢ r ++ suffix) → trim_suffix s suffix ≡ s
unfolding trim_suffix
trim_suffix_of_none s suffix h = elim (cut_suffix-cases s suffix) [
  | inl gone ↦ ground arith
  | inr (r, found, whole) ↦ absurd (h r whole)
]

-- Trimming takes the suffix off, or changes nothing.
pub trim_suffix-cases :
    (s suffix : Str) → (s ≡ trim_suffix s suffix ++ suffix) ⊎ (trim_suffix s suffix ≡ s)
unfolding trim_suffix
trim_suffix-cases s suffix = ground (arith, cut_suffix-cases s suffix)

Lacks-split : (a : ℕ) (p s : Str) → Lacks a (p ++ s) → Lacks a p × Lacks a s
Lacks-split a [] s h = (tt, h)
Lacks-split a (c ∷ p) s (hc, h) = let (hp, hs) = Lacks-split a p s h in ((hc, hp), hs)

-- A suffix without the byte `a` of a text is a suffix of what follows any `a` in it.
pub suffix_after :
    (a : ℕ) (p name r suffix : Str)
    → p ++ a ∷ name ≡ r ++ suffix
    → Lacks a suffix
    → (t : Str) × (name ≡ t ++ suffix)
suffix_after a [] name [] suffix e h = absurd ((subst (Lacks a) (sym e) h).0 refl)
suffix_after a [] name (c ∷ r) suffix e h = (r, cc)
suffix_after a (c ∷ p) name [] suffix e h =
    absurd ((Lacks-split a (c ∷ p) (a ∷ name) (subst (Lacks a) (sym e) h)).1.0 refl)
suffix_after a (c ∷ p) name (d ∷ r) suffix e h = suffix_after a p name r suffix (cc) h
