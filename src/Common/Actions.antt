-- ===== src/Common/Actions.antt =====
-- Go functions that call a service: each call passes the state of the service on, and may fail.
use mathlib.Core.Path.{◌≡◌, refl, sym, ap, ◌∙◌, subst}
use jettison_controller.Common.Results.{Result, ok, err, panic}

-- A failed call may have changed the state too.
abbrev pub Action : Type 0 → Type 0 → Type 0 → Type 0
Action W E A = W → W × Result E A

-- The rest of a function, after a call.
abbrev pub follow : {W E A B : Type 0} → W × Result E A → (A → Action W E B) → W × Result E B
follow (w, ok a) next = next a w
follow (w, err e) next = (w, err e)
follow (w, panic) next = (w, panic)

infixl 5 ◌>>=◌
abbrev pub ◌>>=◌ : {W E A B : Type 0} → Action W E A → (A → Action W E B) → Action W E B
◌>>=◌ m next w = follow (m w) next

infixl 5 ◌>>◌
abbrev pub ◌>>◌ : {W E B : Type 0} → Action W E (Unit {0}) → Action W E B → Action W E B
◌>>◌ m next w = follow (m w) (λ _. next)

abbrev pub return : {W E A : Type 0} → A → Action W E A
return a w = (w, ok a)

abbrev pub fail : {W E A : Type 0} → E → Action W E A
fail e w = (w, err e)

abbrev pub crash : {W E A : Type 0} → Action W E A
crash w = (w, panic)

-- The error of a call, wrapped by the caller.
abbrev pub wrapped : {W E F A : Type 0} → (E → F) → W × Result E A → W × Result F A
wrapped f (w, ok a) = (w, ok a)
wrapped f (w, err e) = (w, err (f e))
wrapped f (w, panic) = (w, panic)

abbrev pub call : {W E F A : Type 0} → (E → F) → Action W E A → Action W F A
call f m w = wrapped f (m w)

-- A function that succeeds has succeeded at its first call.
pub follow-ok :
    {W E A B : Type 0} (p : W × Result E A) (next : A → Action W E B) {w' : W} {b : B}
    → follow p next ≡ (w', ok b)
    → (w : W) × (a : A) × (p ≡ (w, ok a)) × (next a w ≡ (w', ok b))
follow-ok (w, ok a) next h = (w, a, refl, h)
follow-ok (w, err e) next h = cc
follow-ok (w, panic) next h = cc

pub wrapped-ok :
    {W E F A : Type 0} (f : E → F) (p : W × Result E A) {w : W} {a : A}
    → wrapped f p ≡ (w, ok a)
    → p ≡ (w, ok a)
wrapped-ok f (w, ok a) h = cc
wrapped-ok f (w, err e) h = cc
wrapped-ok f (w, panic) h = cc

-- A call that reads: it keeps the state, and its result stands for the whole.
pub read-ok :
    {W E A : Type 0} (m : Action W E A) (w : W) (a : A)
    → (m w).0 ≡ w
    → (m w).1 ≡ ok a
    → m w ≡ (w, ok a)
read-ok m w a p q = λ i. (p i, q i)

-- A function that begins with a read, and that succeeds: the read has, and the rest has.
pub follow-read :
    {W E F A B : Type 0} (f : E → F) (m : Action W E A) (next : A → Action W F B) {w w' : W} {b : B}
    → (m w).0 ≡ w
    → follow (wrapped f (m w)) next ≡ (w', ok b)
    → (a : A) × ((m w).1 ≡ ok a) × (next a w ≡ (w', ok b))
follow-read f m next {w} {w'} {b} reads h =
    let (v, a, e, rest) = follow-ok (wrapped f (m w)) next h in
    let called = wrapped-ok f (m w) e in
    let same : v ≡ w = ap (λ x. x.0) (sym called) ∙ reads in
    (a, ap (λ x. x.1) called, subst (λ u. next a u ≡ (w', ok b)) same rest)

-- A function whose first call is known.
pub bind-ok :
    {W E A B : Type 0} (m : Action W E A) (next : A → Action W E B) {w v : W} {a : A}
    {r : W × Result E B}
    → m w ≡ (v, ok a)
    → next a v ≡ r
    → (m >>= next) w ≡ r
bind-ok m next {r} e h = subst (λ p. follow p next ≡ r) (sym e) h
