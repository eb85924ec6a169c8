-- ===== src/RepoSettings/Settled.antt =====
-- What a synchronisation of the settings leaves on GitHub, and that a second one writes nothing.
use jettison_controller.Common.{List, none, some, ◌≡◌, refl}
use jettison_controller.Common.Ints.{ℤ}
use jettison_controller.Common.Results.{ok}
use jettison_controller.Common.Actions.{read-ok}
use jettison_controller.RepoSettings.{Repository, Ruleset, Constants}
use jettison_controller.RepoSettings.Fix.{default_ruleset_name}
use jettison_controller.RepoSettings.Laws.{
  wanted_repository, fix_repository-differs, wanted_ruleset, fix_ruleset-differs,
}
use jettison_controller.RepoSettings.Client.{
  GitHub, find_default, sync_repository, default_ruleset, write_ruleset, sync_rulesets,
  sync_settings,
}

module _ {W E R : Type 0} (g : GitHub W E R) where
  -- The listed default ruleset has this identifier, and `full` is what GitHub has for it.
  pub record IsDefault (i id : ℤ) (full : Ruleset R) (w : W) : Type 0 where
    pub rulesets : List (Ruleset R)
    pub listed : Ruleset R
    pub list : (g.get_all_rulesets i w).1 ≡ ok rulesets
    pub default : find_default rulesets ≡ some listed
    pub has_id : listed.id ≡ some id
    pub read : (g.get_ruleset i id w).1 ≡ ok full

  -- The repository's settings and the installation are those of an earlier state.
  abbrev pub KeepsRepository : ℤ → W → W → Type 0
  KeepsRepository i w w' =
      ((g.get i w').1 ≡ (g.get i w).1)
      × ((g.find_repository_installation w').1 ≡ (g.find_repository_installation w).1)

  -- What the program relies on: a read changes nothing; a write that succeeds can be read back, and
  -- a write to the rulesets changes no other settings of the repository.
  pub record IsStore : Type 0 where
    pub find-reads : (w : W) → (g.find_repository_installation w).0 ≡ w
    pub get-reads : (i : ℤ) (w : W) → (g.get i w).0 ≡ w
    pub list-reads : (i : ℤ) (w : W) → (g.get_all_rulesets i w).0 ≡ w
    pub get_ruleset-reads : (i id : ℤ) (w : W) → (g.get_ruleset i id w).0 ≡ w
    pub get_ruleset-id :
        (i id : ℤ) (w : W) (r : Ruleset R) → (g.get_ruleset i id w).1 ≡ ok r → r.id ≡ some id
    pub edit-get :
        (i : ℤ) (r : Repository R) (w w' : W)
        → g.edit i r w ≡ (w', ok tt)
        → ((g.get i w').1 ≡ ok r)
          × ((g.find_repository_installation w').1 ≡ (g.find_repository_installation w).1)
    pub update-get :
        (i id : ℤ) (r old : Ruleset R) (w w' : W)
        → IsDefault i id old w
        → r.name ≡ old.name
        → r.id ≡ some id
        → g.update_ruleset i id r w ≡ (w', ok tt)
        → IsDefault i id r w' × KeepsRepository i w w'
    pub create-get :
        (i : ℤ) (r : Ruleset R) (rs : List (Ruleset R)) (w w' : W)
        → (g.get_all_rulesets i w).1 ≡ ok rs
        → find_default rs ≡ none
        → r.name ≡ default_ruleset_name
        → g.create_ruleset i r w ≡ (w', ok tt)
        → ((id : ℤ) × IsDefault i id (record r { id = some id }) w') × KeepsRepository i w w'

module _ {W E R : Type 0} (k : Constants R) (g : GitHub W E R) where
  -- The installation is found, and the repository has the wanted settings.
  pub record RepositorySettled (i : ℤ) (w : W) : Type 0 where
    pub repository : Repository R
    pub found : (g.find_repository_installation w).1 ≡ ok (some i)
    pub read : (g.get i w).1 ≡ ok repository
    pub wanted : repository ≡ wanted_repository repository.rest

  -- The default ruleset is listed, and it has the wanted rules.
  pub record RulesetSettled (i : ℤ) (w : W) : Type 0 where
    pub id : ℤ
    pub full : Ruleset R
    pub is_default : IsDefault g i id full w
    pub wanted : full ≡ wanted_ruleset k full

  abbrev pub Settled : W → Type 0
  Settled w = (i : ℤ) × RepositorySettled i w × RulesetSettled i w

  module _ (store : IsStore g) where
    sync_repository-settled :
        (i : ℤ) (w : W) → RepositorySettled i w → sync_repository k g i w ≡ (w, ok tt)
    unfolding sync_repository
    sync_repository-settled i w s =
        rw (read-ok (g.get i) w s.repository (store.get-reads i w) s.read)
          (rw ((fix_repository-differs s.repository).1 s.wanted) refl)

    sync_rulesets-settled :
        (i : ℤ) (w : W) → RulesetSettled i w → sync_rulesets k g i w ≡ (w, ok tt)
    unfolding sync_rulesets default_ruleset write_ruleset
    sync_rulesets-settled i w s =
        let d = s.is_default in
        rw
          (
            read-ok (g.get_all_rulesets i) w d.rulesets (store.list-reads i w) d.list,
            d.default,
            default_ruleset,
            d.has_id,
            read-ok (g.get_ruleset i s.id) w s.full (store.get_ruleset-reads i s.id w) d.read,
            (fix_ruleset-differs k s.full).1 s.wanted,
          )
          refl

    -- Nothing is written when all is as wanted.
    pub sync_settings-Settled : (w : W) → Settled w → sync_settings k g w ≡ (w, ok tt)
    unfolding sync_settings
    sync_settings-Settled w (i, r, s) =
        rw
          (
            read-ok g.find_repository_installation w (some i) (store.find-reads w) r.found,
            sync_repository-settled i w r,
            sync_rulesets-settled i w s,
          )
          refl
