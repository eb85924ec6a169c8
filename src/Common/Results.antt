-- ===== src/Common/Results.antt =====
-- Results of Go functions: a value, an `error`, or a panic.
use mathlib.Core.Path.{◌≡◌, refl}
use mathlib.Core.Logic.{◌⊎◌, inl, inr}

-- `E` is the type of the errors that the function returns.
pub data Result {ℓ} (E : Type 0) (A : Type ℓ) : Type ℓ where
  ok : A → Result E A
  err : E → Result E A
  -- A nil pointer or a nil interface was used.
  panic : Result E A

module _ {E : Type 0} where
  infixl 5 ◌>>=◌
  abbrev pub ◌>>=◌ {ℓ κ} : {S : Type ℓ} {T : Type κ} → Result E S → (S → Result E T) → Result E T
  panic >>= next = panic
  err why >>= next = err why
  ok s >>= next = next s

  -- A call chain that succeeds has succeeded at its first call.
  pub >>=-eq-ok {ℓ κ} :
      {S : Type ℓ} {T : Type κ} (r : Result E S) (next : S → Result E T) {t : T}
      (whole : (r >>= next) ≡ ok t)
      → (s : S) × (r ≡ ok s) × (next s ≡ ok t)
  >>=-eq-ok panic next whole = cc
  >>=-eq-ok (err why) next whole = cc
  >>=-eq-ok (ok s) next whole = (s, refl, whole)

-- `fmt.Errorf("…: %s", err)`: the error of a call, wrapped by its caller.
abbrev pub wrap {ℓ} : {E F : Type 0} {A : Type ℓ} → (E → F) → Result E A → Result F A
wrap f (ok a) = ok a
wrap f (err e) = err (f e)
wrap f panic = panic

pub ok-injective {ℓ} :
    {E : Type 0} {A : Type ℓ} {a b : A} → ◌≡◌ {A = Result E A} (ok a) (ok b) → a ≡ b
ok-injective h = cc

pub Result-cases {ℓ} :
    {E : Type 0} {A : Type ℓ} (r : Result E A)
    → ((a : A) × (r ≡ ok a)) ⊎ ((e : E) × (r ≡ err e)) ⊎ (r ≡ panic)
Result-cases (ok a) = inl (a, refl)
Result-cases (err e) = inr (inl (e, refl))
Result-cases panic = inr (inr refl)

-- If there is a value, it has the property.
module _ {E : Type 0} {A : Type 0} (P : A → Type 0) where
  abbrev pub OkWith : Result E A → Type 0
  OkWith (ok a) = P a
  OkWith (err e) = Unit
  OkWith panic = Unit

  pub OkWith-ok : {r : Result E A} {a : A} → r ≡ ok a → OkWith r → P a
  OkWith-ok h p = rw h at p

abbrev pub NoPanic {ℓ} : {E : Type 0} {A : Type ℓ} → Result E A → Type 0
NoPanic (ok a) = Unit
NoPanic (err e) = Unit
NoPanic panic = ⊥

pub NoPanic-ne {ℓ} :
    {E : Type 0} {A : Type ℓ} (r : Result E A) → NoPanic r → ◌≡◌ {A = Result E A} r panic → ⊥
NoPanic-ne (ok a) h = λ e. cc
NoPanic-ne (err e) h = λ e. cc
NoPanic-ne panic h = absurd h

pub wrap-NoPanic {ℓ} :
    {E F : Type 0} {A : Type ℓ} (f : E → F) (r : Result E A) → NoPanic r → NoPanic (wrap f r)
wrap-NoPanic f (ok a) h = tt
wrap-NoPanic f (err e) h = tt
wrap-NoPanic f panic h = h
