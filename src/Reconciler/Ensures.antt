-- ===== src/Reconciler/Ensures.antt =====
-- Properties of the reconciler's state that hold after every call that succeeds.
use jettison_controller.Common.{Bool, true, if◌then◌else◌, ◌≡◌, inl, inr, Bool-cases}
use jettison_controller.Common.Results.{Result, ok, err, panic}
use jettison_controller.Common.Actions.{Action, follow, ◌>>=◌}
use jettison_controller.Reconciler.{ReconcileError, Manager}
use jettison_controller.Reconciler.Monotone.{Grows, IsMonotone}

-- The state after a success has the property.
abbrev pub AtEnd :
    {W E A : Type 0} → (Manager W → Type 0) → Manager W × Result (ReconcileError E) A → Type 0
AtEnd P (t, ok a) = P t
AtEnd P (t, err e) = Unit
AtEnd P (t, panic) = Unit

module _ {W E : Type 0} (P : Manager W → Type 0) where
  pub record Ensures {A : Type 0} (m : Action (Manager W) (ReconcileError E) A) : Type 0 where
    pub at_end : (s : Manager W) → AtEnd P (m s)

  follow_last :
      {A B : Type 0} (p : Manager W × Result (ReconcileError E) A)
      (next : A → Action (Manager W) (ReconcileError E) B)
      → ((a : A) → Ensures (next a))
      → AtEnd P (follow p next)
  follow_last (t, ok a) next h = (h a).at_end t
  follow_last (t, err e) next h = tt
  follow_last (t, panic) next h = tt

  pub Ensures-last :
      {A B : Type 0} (m : Action (Manager W) (ReconcileError E) A)
      (next : A → Action (Manager W) (ReconcileError E) B)
      → ((a : A) → Ensures (next a))
      → Ensures (m >>= next)
  Ensures-last m next h = record { at_end = λ s. follow_last (m s) next h }

  pub Ensures-if :
      {A : Type 0} (b : Manager W → Bool) (m n : Action (Manager W) (ReconcileError E) A)
      → Ensures m
      → Ensures n
      → Ensures (λ s. if b s then m s else n s)
  Ensures-if b m n h k = record {
    at_end = λ s. elim (Bool-cases (b s)) [ inl e ↦ rw e (h.at_end s) | inr e ↦ rw e (k.at_end s) ];
  }

  module _ (stable : (s t : Manager W) → Grows s t → P s → P t) where
    end-Grows :
        {A : Type 0} (s : Manager W) (r : Manager W × Result (ReconcileError E) A)
        → Grows s r.0
        → P s
        → AtEnd P r
    end-Grows s (t, ok a) g h = stable s t g h
    end-Grows s (t, err e) g h = tt
    end-Grows s (t, panic) g h = tt

    follow_first :
        {A B : Type 0} (p : Manager W × Result (ReconcileError E) A)
        (next : A → Action (Manager W) (ReconcileError E) B)
        → AtEnd P p
        → ((a : A) → IsMonotone (next a))
        → AtEnd P (follow p next)
    follow_first (t, ok a) next h k = end-Grows t (next a t) ((k a).grows t) h
    follow_first (t, err e) next h k = tt
    follow_first (t, panic) next h k = tt

    pub Ensures-first :
        {A B : Type 0} (m : Action (Manager W) (ReconcileError E) A)
        (next : A → Action (Manager W) (ReconcileError E) B)
        → Ensures m
        → ((a : A) → IsMonotone (next a))
        → Ensures (m >>= next)
    Ensures-first m next h k = record { at_end = λ s. follow_first (m s) next (h.at_end s) k }

    -- What is skipped when the property holds already.
    pub Ensures-unless :
        {A : Type 0} (b : Manager W → Bool) (m n : Action (Manager W) (ReconcileError E) A)
        → ((s : Manager W) → b s ≡ true → P s)
        → IsMonotone m
        → Ensures n
        → Ensures (λ s. if b s then m s else n s)
    Ensures-unless b m n skip keep h = record {
      at_end = λ s. elim (Bool-cases (b s)) [
        | inl e ↦ rw e (end-Grows s (m s) (keep.grows s) (skip s e))
        | inr e ↦ rw e (h.at_end s)
      ];
    }
