-- ===== src/Sensor/Dependency/Loop.antt =====
-- The invariant of the search for a Dockerfile.
use jettison_controller.Common.{
  some_injective, ◌≡◌, sym, ◌∙◌, ◌≢◌, ◌⊎◌, inl, inr, true, List, [], ◌∷◌, ◌++◌, some, arith,
}
use jettison_controller.Text.{Str, contains}
use jettison_controller.Flow.{Step, get_depends_on}
use jettison_controller.Sensor.{StepMap, lookup}
use jettison_controller.Sensor.Dependency.Reach.{Reach, direct, via, PublishWith}

pub contains-append :
    (xs ys : List Str) (d : Str)
    → contains (xs ++ ys) d ≡ true
    → (contains xs d ≡ true) ⊎ (contains ys d ≡ true)
contains-append [] ys d h = inr h
contains-append (x ∷ xs) ys d h = ground (arith, contains-append xs ys d)

pub append-contains :
    (xs ys : List Str) (d : Str)
    → (contains xs d ≡ true) ⊎ (contains ys d ≡ true)
    → contains (xs ++ ys) d ≡ true
append-contains [] ys d h = ground arith
append-contains (x ∷ xs) ys d h = ground (arith, append-contains xs ys d)

pub contains-cons :
    (d : Str) (xs : List Str) (e : Str)
    → contains (d ∷ xs) e ≡ true
    → (e ≡ d) ⊎ (contains xs e ≡ true)
contains-cons d xs e h = ground arith

-- A name that was visited or queued still is, when the first of the queue is visited and more names
-- are added to its end.
still_covered :
    (d e : Str) (ds visited more : List Str)
    → (contains visited e ≡ true) ⊎ (contains (d ∷ ds) e ≡ true)
    → (contains (d ∷ visited) e ≡ true) ⊎ (contains (ds ++ more) e ≡ true)
still_covered d e ds visited more h = ground (arith, append-contains ds more e)

module _ (m : StepMap) where
  -- The path is that of the one visited publish step with a path that is not empty, if there is one.
  abbrev pub PathFound : List Str → Str → Type 0
  PathFound visited path =
      ((path ≡ []) × ((e q : Str) → contains visited e ≡ true → PublishWith m e q → q ≡ []))
      ⊎ ((path ≢ [])
          × ((d : Str) × (contains visited d ≡ true)
              × PublishWith m d path
              × ((e q : Str) → contains visited e ≡ true → PublishWith m e q → (e ≡ d) ⊎ (q ≡ []))))

module _ (m : StepMap) (start : List Str) where
  -- The names are reached, and the visited ones are defined. What they depend on, and what the
  -- search started from, is visited or in the queue.
  pub record Frontier (ds visited : List Str) : Type 0 where
    pub queued : (d : Str) → contains ds d ≡ true → Reach m start d
    pub seen : (d : Str) → contains visited d ≡ true → Reach m start d
    pub defined : (d : Str) → contains visited d ≡ true → (s : Step) × (lookup m d ≡ some s)
    pub closed :
        (d e : Str) (s : Step)
        → contains visited d ≡ true
        → lookup m d ≡ some s
        → contains (get_depends_on s) e ≡ true
        → (contains visited e ≡ true) ⊎ (contains ds e ≡ true)
    pub started :
        (d : Str) → contains start d ≡ true → (contains visited d ≡ true) ⊎ (contains ds d ≡ true)

  pub Frontier-initial : Frontier start []
  Frontier-initial = record {
    queued = λ d h. direct h;
    seen = λ d h. ground arith;
    defined = λ d h. ground arith;
    closed = λ d e s h. ground arith;
    started = λ d h. inr h;
  }

  pub Frontier-again :
      (d : Str) (ds visited : List Str)
      → contains visited d ≡ true
      → Frontier (d ∷ ds) visited
      → Frontier ds visited
  Frontier-again d ds visited old i = record {
    queued = λ e h. i.queued e (ground arith);
    seen = i.seen;
    defined = i.defined;
    closed = λ a e s h found he. let c = i.closed a e s h found he in ground arith;
    started = λ e h. let c = i.started e h in ground arith;
  }

  pub Frontier-visit :
      (d : Str) (s : Step) (ds visited : List Str)
      → lookup m d ≡ some s
      → Frontier (d ∷ ds) visited
      → Frontier (ds ++ get_depends_on s) (d ∷ visited)
  Frontier-visit d s ds visited found i = record {
    queued = λ e h. elim (contains-append ds (get_depends_on s) e h) [
      | inl q ↦ i.queued e (ground arith)
      | inr q ↦ via (i.queued d (ground arith)) found q
    ];
    seen = λ e h. elim (contains-cons d visited e h) [
      | inl same ↦ rw same (i.queued d (ground arith))
      | inr old ↦ i.seen e old
    ];
    defined = λ e h. elim (contains-cons d visited e h) [
      | inl same ↦ (s, rw same found)
      | inr old ↦ i.defined e old
    ];
    closed = λ a e t h found' he. elim (contains-cons d visited a h) [
      | inl same ↦
          let same_step : s ≡ t = some_injective (sym found ∙ rw same at found') in
          inr (append-contains ds (get_depends_on s) e (inr (rw same_step he)))
      | inr old ↦ still_covered d e ds visited (get_depends_on s) (i.closed a e t old found' he)
    ];
    started = λ e h. still_covered d e ds visited (get_depends_on s) (i.started e h);
  }

  -- With nothing in the queue, every name that can be reached is visited.
  pub all_visited :
      (visited : List Str)
      → Frontier [] visited
      → (e : Str) → Reach m start e
      → contains visited e ≡ true
  all_visited visited i _ (direct {d} h) = let c = i.started d h in ground arith
  all_visited visited i _ (via {d} {e} {s} r found h) =
      let c = i.closed d e s (all_visited visited i d r) found h in ground arith
