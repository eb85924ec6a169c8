-- ===== src/EventSources/Laws.antt =====
-- What the event source owns after a repository is merged.
use jettison_controller.Common.{
  some_injective, ◌≡◌, refl, sym, ◌∙◌, ◌≢◌, ap, ◌⊎◌, inl, inr, Bool, true, false, ◌||◌, ◌&&◌, List,
  [], ◌∷◌, ◌++◌, none, some, arith, Option-cases,
}
use jettison_controller.Common.Results.{ok, ok-injective}
use jettison_controller.Text.{Str, ◌==◌, Str-discrete, contains}
use jettison_controller.EventSources.{
  OwnedRepositories, EventSource, owned, event_source_section_name, get_section, merge_repositories,
  merge_owned_repos, GithubEventSource,
}

-- Whether a repository is in a list of owners.
unfoldable pub owns : List OwnedRepositories → Str → Str → Bool
owns [] o n = false
owns (r ∷ rs) o n = (r.owner == o && contains r.names n) || owns rs o n

contains-snoc :
    (names : List Str) (n a : Str) → contains (names ++ (n ∷ [])) a ≡ (contains names a || a == n)
contains-snoc [] n a = ground arith
contains-snoc (x ∷ names) n a = ground (arith, contains-snoc names n a)

-- No change is needed exactly if the repository is there in the first entry of its owner, so it is
-- owned.
merge-none :
    (rs : List OwnedRepositories) (o n : Str)
    → merge_repositories rs o n ≡ none
    → owns rs o n ≡ true
unfolding merge_repositories owns
merge-none [] o n h = ground arith
merge-none (r ∷ rs) o n h = elim (Option-cases (merge_repositories rs o n)) [
  | inl e ↦ let rest = merge-none rs o n e in ground arith
  | inr (rs', e) ↦ let h' = rw (e, merge_repositories) at h in ground arith
]

abbrev with_name : OwnedRepositories → Str → OwnedRepositories
with_name r n = record r { names = r.names ++ (n ∷ []) }

-- The two ways in which the first entry takes part in a change.
merge-cons :
    (r : OwnedRepositories) (rs rs' : List OwnedRepositories) (o n : Str)
    → merge_repositories (r ∷ rs) o n ≡ some rs'
    → ((r.owner ≡ o) × (rs' ≡ with_name r n ∷ rs))
      ⊎ ((r.owner ≢ o)
          × ((rest : List OwnedRepositories) × (merge_repositories rs o n ≡ some rest)
              × (rs' ≡ r ∷ rest)))
unfolding merge_repositories
merge-cons r rs rs' o n h = elim (Str-discrete r.owner o) [
  | yes same ↦ inl (same, (ground arith))
  | no differ ↦ elim (Option-cases (merge_repositories rs o n)) [
    | inl e ↦ let h' = rw (e, merge_repositories) at h in absurd (ground arith)
    | inr (rest, e) ↦
        let h' = rw (e, merge_repositories) at h in inr (differ, (rest, e, ground arith))
  ]
]

owns-with_name :
    (r : OwnedRepositories) (rs : List OwnedRepositories) (n a b : Str)
    → owns (with_name r n ∷ rs) a b ≡ (owns (r ∷ rs) a b || (a == r.owner && b == n))
unfolding owns
owns-with_name r rs n a b = ground (arith, contains-snoc r.names n b)

merge-owns :
    (rs rs' : List OwnedRepositories) (o n a b : Str)
    → merge_repositories rs o n ≡ some rs'
    → owns rs' a b ≡ (owns rs a b || (a == o && b == n))
unfolding merge_repositories owns
merge-owns [] rs' o n a b h = rw (sym (some_injective h)) (ground arith)
merge-owns (r ∷ rs) rs' o n a b h = elim (merge-cons r rs rs' o n h) [
  | inl (same, whole) ↦ rw (whole, sym same) (owns-with_name r rs n a b)
  | inr (differ, (rest, e, whole)) ↦
      let more = merge-owns rs rest o n a b e in rw whole (ground arith)
]

merge-here :
    (r : OwnedRepositories) (rs : List OwnedRepositories) (o n : Str)
    → r.owner ≡ o
    → merge_repositories (with_name r n ∷ rs) o n ≡ none
unfolding merge_repositories
merge-here r rs o n same = ground (arith, contains-snoc r.names n n)

merge-later :
    (r : OwnedRepositories) (rs : List OwnedRepositories) (o n : Str)
    → r.owner ≢ o
    → merge_repositories rs o n ≡ none
    → merge_repositories (r ∷ rs) o n ≡ none
unfolding merge_repositories
merge-later r rs o n differ h = rw (h, merge_repositories) (ground arith)

merge-new : (o n : Str) → merge_repositories (owned o n ∷ []) o n ≡ none
unfolding merge_repositories
merge-new o n = ground arith

merge_nil : (o n : Str) → merge_repositories [] o n ≡ some (owned o n ∷ [])
unfolding merge_repositories
merge_nil o n = refl

merge-again :
    (rs rs' : List OwnedRepositories) (o n : Str)
    → merge_repositories rs o n ≡ some rs'
    → merge_repositories rs' o n ≡ none
merge-again [] rs' o n h = rw (some_injective (sym h ∙ merge_nil o n)) (merge-new o n)
merge-again (r ∷ rs) rs' o n h = elim (merge-cons r rs rs' o n h) [
  | inl (same, whole) ↦ rw whole (merge-here r rs o n same)
  | inr (differ, (rest, e, whole)) ↦
      rw whole (merge-later r rest o n differ (merge-again rs rest o n e))
]

section_head :
    (m : List (Str × GithubEventSource)) (name : Str) (s : GithubEventSource)
    → get_section ((name, s) ∷ m) name ≡ s
section_head m name s = ground arith

-- The owners in the section that the program keeps.
abbrev pub owners : List (Str × GithubEventSource) → List OwnedRepositories
owners m = (get_section m event_source_section_name).repositories

-- Whether the event source has webhooks for a repository.
abbrev pub event_owns : EventSource → Str → Str → Bool
event_owns e o n = elim e.github [ none ↦ false | some m ↦ owns (owners m) o n ]

already_owned :
    (rs : List OwnedRepositories) (o n a b : Str)
    → owns rs o n ≡ true
    → owns rs a b ≡ (owns rs a b || (a == o && b == n))
already_owned rs o n a b h = ground arith

module _ (E : Type 0) (e e' : EventSource) (changed : Bool) (o n : Str) where
  -- A merge has a map to write to, and it either finds the repository or adds it.
  abbrev Merged : Type 0
  Merged =
      (m : List (Str × GithubEventSource)) × (e.github ≡ some m)
      × (((merge_repositories (owners m) o n ≡ none) × (e' ≡ e) × (changed ≡ false))
          ⊎ ((rs : List OwnedRepositories) × (merge_repositories (owners m) o n ≡ some rs)
              × (m' : List (Str × GithubEventSource)) × (e'.github ≡ some m')
              × (owners m' ≡ rs)))

  merge_owned_repos-Merged : merge_owned_repos {E = E} e o n ≡ ok (e', changed) → Merged
  unfolding merge_owned_repos
  merge_owned_repos-Merged h = elim (Option-cases e.github) [
    | inl none' ↦ let h' = rw (none', merge_owned_repos) at h in absurd (ground arith)
    | inr (m, some') ↦ elim (Option-cases (merge_repositories (owners m) o n)) [
      | inl found ↦
          let h' = rw (some', merge_owned_repos, found) at h in (m, some', inl (found, cc, cc))
      | inr (rs, added) ↦
          let h' = rw (some', merge_owned_repos, added) at h in
          (
            m,
            some',
            inr (
              rs,
              added,
              (
                event_source_section_name,
                record (get_section m event_source_section_name) { repositories = rs },
              )
                  ∷ m,
              ap (λ p. p.0.github) (sym (ok-injective h')),
              ap (λ s. s.repositories) (section_head m event_source_section_name _),
            ),
          )
    ]
  ]

  -- If a repository is merged into an event source, with a change or without one, the event
  -- source then has webhooks for exactly the repositories for which it had them before, and for
  -- that repository.
  pub merge_owned_repos-owns :
      (a b : Str)
      → merge_owned_repos {E = E} e o n ≡ ok (e', changed)
      → event_owns e' a b ≡ (event_owns e a b || (a == o && b == n))
  merge_owned_repos-owns a b h =
      let (m, some', how) = merge_owned_repos-Merged h in
      elim how [
        | inl (found, same, _) ↦
            rw (same, some') (already_owned (owners m) o n a b (merge-none (owners m) o n found))
        | inr (rs, added, m', some'', held) ↦
            rw (some', some'', held) (merge-owns (owners m) rs o n a b added)
      ]

  merge_again :
      (m' : List (Str × GithubEventSource))
      → e'.github ≡ some m'
      → merge_repositories (owners m') o n ≡ none
      → merge_owned_repos {E = E} e' o n ≡ ok (e', false)
  unfolding merge_owned_repos
  merge_again m' some'' found =
      rw (some'', merge_owned_repos, found) (ap (λ g. ok (record e' { github = g }, false)) some'')

  -- Once a repository is merged into an event source, a second merge of it succeeds and changes
  -- nothing.
  pub merge_owned_repos_idem :
      merge_owned_repos {E = E} e o n ≡ ok (e', changed)
      → merge_owned_repos {E = E} e' o n ≡ ok (e', false)
  merge_owned_repos_idem h =
      let (m, some', how) = merge_owned_repos-Merged h in
      elim how [
        | inl (found, same, _) ↦ merge_again m (ap (λ x. x.github) same ∙ some') found
        | inr (rs, added, m', some'', held) ↦
            merge_again m' some'' (rw held (merge-again (owners m) rs o n added))
      ]
