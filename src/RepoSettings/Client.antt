-- ===== src/RepoSettings/Client.antt =====
-- SyncGitHubSettingsForRepo of internal/controller/ghsettings/ghsettings.go. The GitHub client is a
-- parameter: `W` is the state of GitHub, and a call returns a value or an error of type `E`.
use jettison_controller.Common.{List, [], ◌∷◌, Option, none, some, if◌then◌else◌}
use jettison_controller.Common.Ints.{ℤ}
use jettison_controller.Common.Actions.{Action, ◌>>=◌, ◌>>◌, return, crash, call}
use jettison_controller.Text.{◌==◌}
use jettison_controller.RepoSettings.{Repository, Ruleset, Constants}
use jettison_controller.RepoSettings.Fix.{
  default_ruleset_name, fix_repository, jettison_ruleset, fix_ruleset,
}

-- The calls for one repository. Those after the first are made as its installation, whose
-- identifier they take.
pub record GitHub (W E R : Type 0) : Type 0 where
  -- The identifier is a pointer in the answer.
  pub find_repository_installation : Action W E (Option ℤ)
  pub get : ℤ → Action W E (Repository R)
  pub edit : ℤ → Repository R → Action W E (Unit {0})
  pub get_all_rulesets : ℤ → Action W E (List (Ruleset R))
  pub get_ruleset : ℤ → ℤ → Action W E (Ruleset R)
  pub create_ruleset : ℤ → Ruleset R → Action W E (Unit {0})
  pub update_ruleset : ℤ → ℤ → Ruleset R → Action W E (Unit {0})

-- The error of the function; that of the first call is not passed on.
pub data SettingsError (E : Type 0) : Type 0 where
  installation_error : SettingsError E
  get_error edit_error rulesets_error ruleset_error create_error update_error : E → SettingsError E

-- The loop over the listed rulesets: the first of this name.
unfoldable pub find_default : {R : Type 0} → List (Ruleset R) → Option (Ruleset R)
find_default [] = none
find_default (r ∷ rs) =
    let rest = find_default rs in if r.name == default_ruleset_name then some r else rest

-- `*p`, which panics when `p` is nil.
abbrev pub deref_id : {W E : Type 0} → Option ℤ → Action W E ℤ
deref_id none = crash
deref_id (some id) = return id

module _ {W E R : Type 0} (k : Constants R) (g : GitHub W E R) where
  unfoldable pub sync_repository : ℤ → Action W (SettingsError E) (Unit {0})
  sync_repository i = do
    r ← call get_error (g.get i)
    let fixed = fix_repository r
    if fixed.1 then call edit_error (g.edit i fixed.0) else return tt

  -- The full default ruleset. The list of rulesets does not have all details.
  unfoldable pub default_ruleset :
      ℤ → List (Ruleset R) → Action W (SettingsError E) (Option (Ruleset R))
  default_ruleset i rs = elim (find_default rs) [
    | none ↦ return none
    | some r ↦ do
      id ← deref_id r.id
      full ← call ruleset_error (g.get_ruleset i id)
      return (some full)
  ]

  unfoldable pub write_ruleset : ℤ → Option (Ruleset R) → Action W (SettingsError E) (Unit {0})
  write_ruleset i none = call create_error (g.create_ruleset i (jettison_ruleset k))
  write_ruleset i (some r) =
      let fixed = fix_ruleset k r in
      if fixed.1
      then (deref_id fixed.0.id >>= λ id. call update_error (g.update_ruleset i id fixed.0))
      else return tt

  unfoldable pub sync_rulesets : ℤ → Action W (SettingsError E) (Unit {0})
  sync_rulesets i = do
    rs ← call rulesets_error (g.get_all_rulesets i)
    found ← default_ruleset i rs
    write_ruleset i found

  unfoldable pub sync_settings : Action W (SettingsError E) (Unit {0})
  sync_settings = do
    found ← call (λ _. installation_error) g.find_repository_installation
    i ← deref_id found
    sync_repository i
    sync_rulesets i
