-- ===== src/Watcher/Keys.antt =====
-- Lemmas on the keys of a map from connections.
use jettison_controller.Common.{
  ℕ, true, false, List, [], ◌∷◌, ◌++◌, ◌≡◌, refl, arith, inl, inr, eqb, if◌then◌else◌, Bool-cases,
}
use jettison_controller.Watcher.{member, remove, insert, Distinct}

member-append_one :
    (d c : ℕ) (cs : List ℕ) → member d (cs ++ (c ∷ [])) ≡ (if eqb d c then true else member d cs)
member-append_one d c [] = ground arith
member-append_one d c (x ∷ cs) = ground (arith, member-append_one d c cs)

pub member-insert :
    (d c : ℕ) (cs : List ℕ) → member d (insert c cs) ≡ (if eqb d c then true else member d cs)
member-insert d c cs = ground (arith, member-append_one d c cs)

pub member-remove :
    (d c : ℕ) (cs : List ℕ) → member d (remove c cs) ≡ (if eqb d c then false else member d cs)
member-remove d c [] = ground arith
member-remove d c (x ∷ cs) = ground (arith, member-remove d c cs)

Distinct-append_one :
    (c : ℕ) (cs : List ℕ) → member c cs ≡ false → Distinct cs → Distinct (cs ++ (c ∷ []))
Distinct-append_one c [] h v = (refl, tt)
Distinct-append_one c (x ∷ cs) h (p, v) =
    (ground (arith, member-append_one x c cs), Distinct-append_one c cs (ground arith) v)

pub Distinct-insert : (c : ℕ) (cs : List ℕ) → Distinct cs → Distinct (insert c cs)
Distinct-insert c cs v = elim (Bool-cases (member c cs)) [
  | inl e ↦ rw e v
  | inr e ↦ rw e (Distinct-append_one c cs e v)
]

pub Distinct-remove : (c : ℕ) (cs : List ℕ) → Distinct cs → Distinct (remove c cs)
Distinct-remove c [] v = tt
Distinct-remove c (x ∷ cs) (p, v) = elim (Bool-cases (eqb x c)) [
  | inl e ↦ rw e (Distinct-remove c cs v)
  | inr e ↦ rw e (ground (arith, member-remove x c cs), Distinct-remove c cs v)
]
