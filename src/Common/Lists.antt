-- ===== src/Common/Lists.antt =====
-- Lists measured by native numbers, and predicates on their elements.
use Prim.Native.Nat.{ℕ, suc, ◌+◌}
use mathlib.Core.Path.{◌≡◌, refl, ap}
use mathlib.Core.Logic.{◌≢◌, ◌⊎◌, inl, inr}
use mathlib.Core.List.{List, [], ◌∷◌, ◌++◌, map}
use native.Mathlib.Omega.{arith}

module _ {ℓ} {A : Type ℓ} where
  abbrev pub length : List A → ℕ
  length [] = 0
  length (_ ∷ xs) = suc (length xs)

  pub length-append : (xs ys : List A) → length (xs ++ ys) ≡ length xs + length ys
  length-append [] ys = omega arith
  length-append (_ ∷ xs) ys = omega (arith, length-append xs ys)

pub length-map {ℓ κ} :
    {A : Type ℓ} {B : Type κ} (f : A → B) (xs : List A) → length (map f xs) ≡ length xs
length-map f [] = refl
length-map f (_ ∷ xs) = ap suc (length-map f xs)

module _ {ℓ κ} {A : Type ℓ} (P : A → Type κ) where
  abbrev pub All : List A → Type κ
  All [] = Unit
  All (x ∷ xs) = P x × All xs

  pub All-append : (xs ys : List A) → All xs → All ys → All (xs ++ ys)
  All-append [] ys _ hy = hy
  All-append (x ∷ xs) ys (px, hx) hy = (px, All-append xs ys hx hy)

-- The elements of two lists of one length are related, position by position.
module _ {ℓ κ} {A : Type ℓ} {B : Type κ} (R : A → B → Type 0) where
  abbrev pub All₂ : List A → List B → Type 0
  All₂ [] [] = Unit
  All₂ (x ∷ xs) (y ∷ ys) = R x y × All₂ xs ys
  All₂ _ _ = ⊥

-- No element is `a`.
abbrev pub Lacks {ℓ} : {A : Type ℓ} → A → List A → Type ℓ
Lacks a = All (λ x. x ≢ a)

-- `a` is one of the elements.
module _ {A : Type 0} (a : A) where
  abbrev pub Elem : List A → Type 0
  Elem [] = ⊥
  Elem (x ∷ xs) = (a ≡ x) ⊎ Elem xs

  pub Elem-append : (xs ys : List A) → (Elem xs ⊎ Elem ys) → Elem (xs ++ ys)
  Elem-append [] ys (inl h) = absurd h
  Elem-append [] ys (inr h) = h
  Elem-append (x ∷ xs) ys (inl (inl h)) = inl h
  Elem-append (x ∷ xs) ys (inl (inr h)) = inr (Elem-append xs ys (inl h))
  Elem-append (x ∷ xs) ys (inr h) = inr (Elem-append xs ys (inr h))
