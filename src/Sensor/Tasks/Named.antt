-- ===== src/Sensor/Tasks/Named.antt =====
-- The map of steps, where every dependency of a step is the name of a step.
use jettison_controller.Common.{
  some_injective, ◌≡◌, refl, ap, ◌≢◌, sym, ◌∙◌, inl, inr, true, List, [], ◌∷◌, some, All, Elem,
  arith, Option-cases,
}
use jettison_controller.Common.Results.{Result, ok, err, panic, NoPanic, ok-injective}
use jettison_controller.Text.{Str, Str-discrete, contains}
use jettison_controller.Flow.{Step, step_base, get_depends_on, docker_build_test_publish}
use jettison_controller.Flow.Ready.{Present, StepReady}
use jettison_controller.Sensor.{StepMap, lookup, steps_by_name}
use jettison_controller.Sensor.Dependency.{DependencyError, get_dockerfile_path_dependency}
use jettison_controller.Sensor.Dependency.Reach.{direct, via, AllDefined, Outcome}
use jettison_controller.Sensor.Dependency.Laws.{get_dockerfile_path_dependency-Outcome}

pub StepReady-name : (s : Step) → StepReady s → Present (step_base s).step_name
StepReady-name (Step.docker_build_test s) r = r.0
StepReady-name (docker_build_test_publish s) r = r.0
StepReady-name (Step.argo_cd s) r = r.0
StepReady-name (Step.github_create_pr s) r = r.0

module _ (m : StepMap) (name d : Str) (t : Step) where
  lookup-head : d ≡ name → lookup ((name, t) ∷ m) d ≡ some t
  lookup-head same = ground arith

  lookup-tail : d ≢ name → lookup ((name, t) ∷ m) d ≡ lookup m d
  lookup-tail differ = ground arith

  Present-cons : Present (lookup m d) → Present (lookup ((name, t) ∷ m) d)
  Present-cons h = elim (Str-discrete d name) [
    | yes same ↦ (t, lookup-head same)
    | no differ ↦ rw (lookup-tail differ) h
  ]

module _ (E : Type 0) where
  -- The map is built, and each step is found under its name, or one after it with the same name is.
  pub steps_by_name-Present :
      (ss : List Step) (m₀ : StepMap)
      → All StepReady ss
      → (m : StepMap) × (steps_by_name {E = E} ss m₀ ≡ ok m)
        × ((d : Str) → Present (lookup m₀ d) → Present (lookup m d))
        × ((s : Step) (d : Str)
            → Elem s ss
            → (step_base s).step_name ≡ some d
            → Present (lookup m d))
  unfolding steps_by_name
  steps_by_name-Present [] m₀ ready = (m₀, refl, (λ d h. h), λ s d here h. absurd here)
  steps_by_name-Present (t ∷ ts) m₀ (r, ready) =
      let (name, named) = StepReady-name t r in
      let (m, built, keeps, finds) = steps_by_name-Present ts ((name, t) ∷ m₀) ready in
      (
        m,
        rw named built,
        (λ d h. keeps d (Present-cons m₀ name d t h)),
        λ s d here h. elim here [
          | inl at_t ↦ keeps d (
            t,
            lookup-head m₀ name d t
                (some_injective (sym h ∙ ap (λ u. (step_base u).step_name) at_t ∙ named)),
          )
          | inr later ↦ finds s d later h
        ],
      )

  -- A property of all steps holds of those in the map.
  pub steps_by_name-All :
      (P : Step → Type 0) (ss : List Step) (m₀ m : StepMap)
      → steps_by_name {E = E} ss m₀ ≡ ok m
      → All P ss
      → ((d : Str) (s : Step) → lookup m₀ d ≡ some s → P s)
      → (d : Str) (s : Step) → lookup m d ≡ some s
      → P s
  unfolding steps_by_name
  steps_by_name-All P [] m₀ m built all old d s found = old d s (rw (ok-injective built) found)
  steps_by_name-All P (t ∷ ts) m₀ m built (p, all) old d s found =
      elim (Option-cases (step_base t).step_name) [
        | inl none' ↦ let bad = rw none' at built in cc
        | inr (name, named) ↦
            steps_by_name-All P ts ((name, t) ∷ m₀) m (rw named at built) all
              (λ d' s' found'. elim (Str-discrete d' name) [
                | yes same ↦ rw (some_injective (sym found' ∙ lookup-head m₀ name d' t same)) p
                | no differ ↦ old d' s' (sym (lookup-tail m₀ name d' t differ) ∙ found')
              ])
              d s found
      ]

-- Every name that the step depends on is the name of one of the steps.
abbrev pub DependsOnSteps : List Step → Step → Type 0
DependsOnSteps ss s =
    (d : Str)
    → contains (get_depends_on s) d ≡ true
    → (t : Step) × Elem t ss × ((step_base t).step_name ≡ some d)

-- What is known of the map of such steps.
pub record Closed (m : StepMap) (ss : List Step) : Type 0 where
  pub finds :
      (s : Step) (d : Str) → Elem s ss → (step_base s).step_name ≡ some d → Present (lookup m d)
  pub ready : (d : Str) (s : Step) → lookup m d ≡ some s → StepReady s
  pub depends : (d : Str) (s : Step) → lookup m d ≡ some s → DependsOnSteps ss s

All-both : (P Q : Step → Type 0) (ss : List Step) → All P ss → All Q ss → All (λ s. P s × Q s) ss
All-both P Q [] p q = tt
All-both P Q (s ∷ ss) (p, ps) (q, qs) = ((p, q), All-both P Q ss ps qs)

pub steps_by_name-Closed :
    (E : Type 0) (ss : List Step)
    → All StepReady ss
    → All (DependsOnSteps ss) ss
    → (m : StepMap) × (steps_by_name {E = E} ss [] ≡ ok m) × Closed m ss
steps_by_name-Closed E ss ready depends =
    let (m, built, _, finds) = steps_by_name-Present E ss [] ready in
    let both =
      steps_by_name-All E (λ s. StepReady s × DependsOnSteps ss s) ss [] m built
        (All-both StepReady (DependsOnSteps ss) ss ready depends) (λ d s h. cc) in
    (
      m,
      built,
      record { finds = finds; ready = λ d s h. (both d s h).0; depends = λ d s h. (both d s h).1 },
    )

module _ (m : StepMap) (ss : List Step) (c : Closed m ss) where
  pub Closed-AllDefined : (s : Step) → DependsOnSteps ss s → AllDefined m (get_depends_on s)
  Closed-AllDefined s depends e (direct {d} h) =
      let (t, here, named) = depends d h in c.finds t d here named
  Closed-AllDefined s depends e (via {d} {e = a} {s = u} r found h) =
      let (t, here, named) = c.depends d u found a h in c.finds t a here named

  Outcome-NoPanic :
      (name : Str) (s : Step) (r : Result DependencyError Str)
      → lookup m name ≡ some s
      → Outcome m (get_depends_on s) r
      → NoPanic r
  Outcome-NoPanic name s (ok path) found o = tt
  Outcome-NoPanic name s (err e) found o = tt
  Outcome-NoPanic name s panic found (d, reached, inl missing) =
      let (t, found') = Closed-AllDefined s (c.depends name s found) d reached in cc
  Outcome-NoPanic name s panic found (d, reached, inr (t, at_d, unset)) =
      let (path, set) = (c.ready d (docker_build_test_publish t) at_d).1 in cc

  -- The search for a Dockerfile gives a path or an error.
  pub search-NoPanic :
      (name : Str) (s : Step)
      → lookup m name ≡ some s
      → NoPanic (get_dockerfile_path_dependency name m)
  search-NoPanic name s found =
      Outcome-NoPanic name s (get_dockerfile_path_dependency name m) found
        (get_dockerfile_path_dependency-Outcome m name s found)
