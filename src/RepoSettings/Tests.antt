-- ===== src/RepoSettings/Tests.antt =====
-- A GitHub with one repository that stores what it is sent, and the theorems at it.
use mathlib.Core.Path.{subst}
use jettison_controller.Common.{
  true, false, [], ◌∷◌, Option, none, some, ◌≡◌, refl, ◌↔◌, sym, ◌∙◌, ap, arith, Option-cases,
}
use jettison_controller.Common.Ints.{ℤ, pos}
use jettison_controller.Common.Results.{ok, err}
use jettison_controller.Text.{codes, Str-discrete}
use jettison_controller.RepoSettings.{Repository, Ruleset, Constants}
use jettison_controller.RepoSettings.Fix.{
  default_ruleset_name, fix_repository, fix_ruleset, jettison_ruleset,
}
use jettison_controller.RepoSettings.Client.{
  GitHub, find_default, sync_repository, sync_rulesets, sync_settings, write_ruleset,
  default_ruleset,
}
use jettison_controller.RepoSettings.Laws.{wanted_repository, wanted_ruleset, fix_ruleset_correct}
use jettison_controller.RepoSettings.Settled.{IsStore, IsDefault, KeepsRepository, Settled}
use jettison_controller.RepoSettings.Settles.{sync_settings-settles}

-- The other fields are not looked at.
abbrev pub names : Constants (Unit {0})
names = record {
  target_branch = codes "branch";
  source_type_repository = codes "Repository";
  enforcement_active = codes "active";
  merge_method_squash = codes "squash";
  zeros = tt;
}

pub record Hub : Type 0 where
  pub repository : Repository (Unit {0})
  pub default : Option (Ruleset (Unit {0}))

-- It has one ruleset at most, and gives it the identifier it is asked for.
abbrev pub hub : GitHub Hub (Unit {0}) (Unit {0})
hub = record {
  find_repository_installation = λ w. (w, ok (some (pos 7)));
  get = λ i w. (w, ok w.repository);
  edit = λ i r w. (record w { repository = r }, ok tt);
  get_all_rulesets = λ i w. (
    w,
    elim w.default [
      | none ↦ ok []
      | some r ↦
          ok ((record r { id = some (pos 5); name = default_ruleset_name; rules = none }) ∷ [])
    ],
  );
  get_ruleset = λ i id w. (
    w,
    elim w.default [
      | none ↦ err tt
      | some r ↦ ok (record r { id = some id; name = default_ruleset_name })
    ],
  );
  create_ruleset = λ i r w. (record w { default = some r }, ok tt);
  update_ruleset = λ i id r w. (record w { default = some r }, ok tt);
}

hub-id :
    (i id : ℤ) (w : Hub) (r : Ruleset (Unit {0}))
    → (hub.get_ruleset i id w).1 ≡ ok r
    → r.id ≡ some id
hub-id i id w r h = ground arith

hub-edit :
    (i : ℤ) (r : Repository (Unit {0})) (w w' : Hub)
    → hub.edit i r w ≡ (w', ok tt)
    → ((hub.get i w').1 ≡ ok r)
      × ((hub.find_repository_installation w').1 ≡ (hub.find_repository_installation w).1)
hub-edit i r w w' h = (cc, refl)

hub-stored :
    (i id : ℤ) (r : Ruleset (Unit {0})) (w : Hub)
    → w.default ≡ some r
    → r.name ≡ default_ruleset_name
    → (hub.get_ruleset i id w).1 ≡ ok (record r { id = some id })
hub-stored i id r w e name = ground arith

abbrev stub : Ruleset (Unit {0}) → Ruleset (Unit {0})
stub r = record r { id = some (pos 5); name = default_ruleset_name; rules = none }

hub-IsDefault :
    (i : ℤ) (r : Ruleset (Unit {0})) (w : Hub)
    → w.default ≡ some r
    → r.name ≡ default_ruleset_name
    → IsDefault hub i (pos 5) (record r { id = some (pos 5) }) w
unfolding find_default Str-discrete codes
hub-IsDefault i r w e name = record {
  rulesets = stub r ∷ [];
  listed = stub r;
  list = ground arith;
  default = refl;
  has_id = refl;
  read = hub-stored i (pos 5) r w e name;
}

-- The identifier of the default ruleset is 5.
hub-default_id :
    (i id : ℤ) (r : Ruleset (Unit {0})) (w : Hub)
    → IsDefault hub i id r w
    → (id ≡ pos 5) × (r.name ≡ default_ruleset_name)
unfolding find_default Str-discrete codes
hub-default_id i id r w d =
    ground (arith, d.list, d.default, d.has_id, d.read, Option-cases w.default)

hub-update :
    (i id : ℤ) (r old : Ruleset (Unit {0})) (w w' : Hub)
    → IsDefault hub i id old w
    → r.name ≡ old.name
    → r.id ≡ some id
    → hub.update_ruleset i id r w ≡ (w', ok tt)
    → IsDefault hub i id r w' × KeepsRepository hub i w w'
hub-update i id r old w w' d name has_id h =
    let (five, named) = hub-default_id i id old w d in
    let stored : w'.default ≡ some r = cc in
    let there = hub-IsDefault i r w' stored (name ∙ named) in
    let same : record r { id = some (pos 5) } ≡ r = ground arith in
    (
      subst (λ j. IsDefault hub i j r w') (sym five)
          (subst (λ s. IsDefault hub i (pos 5) s w') same there),
      (cc, refl),
    )

hub-IsStore : IsStore hub
hub-IsStore = record {
  find-reads = λ w. refl;
  get-reads = λ i w. refl;
  list-reads = λ i w. refl;
  get_ruleset-reads = λ i id w. refl;
  get_ruleset-id = hub-id;
  edit-get = hub-edit;
  update-get = hub-update;
  create-get = λ i r rs w w' list missing name h. (
    (pos 5, hub-IsDefault i r w' (ap (λ x. x.0.default) (sym h)) name),
    (ap (λ x. ok x.0.repository) (sym h), refl),
  );
}

-- A repository with GitHub's defaults.
abbrev fresh : Hub
fresh = record {
  repository = record {
    allow_merge_commit = some true;
    allow_squash_merge = none;
    allow_rebase_merge = some true;
    allow_update_branch = some false;
    allow_auto_merge = none;
    delete_branch_on_merge = some false;
    rest = tt;
  };
  default = none;
}

abbrev pub synced : Hub
synced = record { repository = wanted_repository tt; default = some (jettison_ruleset names) }

sync_fresh : sync_settings names hub fresh ≡ (synced, ok tt)
unfolding sync_settings sync_repository sync_rulesets default_ruleset write_ruleset find_default
    fix_repository
sync_fresh = refl

-- A ruleset with the name and nothing else.
abbrev bare : Ruleset (Unit {0})
bare = record {
  id = some (pos 5);
  name = default_ruleset_name;
  target = none;
  source_type = none;
  enforcement = codes "disabled";
  conditions = none;
  rules = none;
  rest = tt;
}

fix_ruleset_correct_example :
    ((fix_ruleset names bare).0 ≡ wanted_ruleset names bare)
    × (((fix_ruleset names bare).1 ≡ false) ↔ (bare ≡ wanted_ruleset names bare))
fix_ruleset_correct_example = fix_ruleset_correct names bare

sync_settings-settles_example :
    Settled names hub synced × (sync_settings names hub synced ≡ (synced, ok tt))
sync_settings-settles_example = sync_settings-settles names hub hub-IsStore fresh synced sync_fresh
