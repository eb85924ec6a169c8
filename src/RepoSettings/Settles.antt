-- ===== src/RepoSettings/Settles.antt =====
-- A synchronisation of the settings that succeeds leaves them as wanted.
use mathlib.Core.Path.{subst}
use jettison_controller.Common.{
  List, none, some, ◌≡◌, refl, sym, ap, ◌∙◌, inl, inr, Bool-cases, Option-cases, if◌then◌else◌,
}
use jettison_controller.Common.Ints.{ℤ}
use jettison_controller.Common.Results.{ok, ok-injective}
use jettison_controller.Common.Actions.{◌>>=◌, return, follow-ok, wrapped-ok, call, follow-read}
use jettison_controller.RepoSettings.{Repository, Ruleset, Constants}
use jettison_controller.RepoSettings.Fix.{fix_repository, jettison_ruleset, fix_ruleset}
use jettison_controller.RepoSettings.Laws.{
  fix_repository_lem, fix_repository-differs, fix_ruleset_lem, fix_ruleset-differs,
}
use jettison_controller.RepoSettings.Client.{
  GitHub, SettingsError, get_error, edit_error, find_default, sync_repository, default_ruleset,
  write_ruleset, sync_rulesets, sync_settings, create_error, update_error, ruleset_error,
  rulesets_error, installation_error,
}
use jettison_controller.RepoSettings.Settled.{
  IsStore, IsDefault, KeepsRepository, RepositorySettled, RulesetSettled, Settled,
  sync_settings-Settled,
}

module _ {W E R : Type 0} (k : Constants R) (g : GitHub W E R) (store : IsStore g) where
  write_repository-settles :
      (i : ℤ) (r : Repository R) (w w' : W)
      → (g.find_repository_installation w).1 ≡ ok (some i)
      → (g.get i w).1 ≡ ok r
      → (if (fix_repository r).1
            then call edit_error (g.edit i (fix_repository r).0)
            else return tt)
          w
        ≡ (w', ok tt)
      → RepositorySettled k g i w'
  write_repository-settles i r w w' found read h = elim (Bool-cases (fix_repository r).1) [
    | inl e ↦
        let h' = rw e at h in
        let (got, kept) = store.edit-get i (fix_repository r).0 w w' (wrapped-ok edit_error _ h') in
        record {
          repository = (fix_repository r).0;
          found = kept ∙ found;
          read = got;
          wanted = rw (fix_repository_lem r) refl;
        }
    | inr e ↦
        let h' = rw e at h in
        let same : w ≡ w' = ap (λ x. x.0) h' in
        subst (RepositorySettled k g i) same (record {
          repository = r;
          found = found;
          read = read;
          wanted = (fix_repository-differs r).0 e;
        })
  ]

  sync_repository-settles :
      (i : ℤ) (w w' : W)
      → (g.find_repository_installation w).1 ≡ ok (some i)
      → sync_repository k g i w ≡ (w', ok tt)
      → RepositorySettled k g i w'
  unfolding sync_repository
  sync_repository-settles i w w' found h =
      let (r, read, rest) = follow-read get_error (g.get i) _ (store.get-reads i w) h in
      write_repository-settles i r w w' found read rest

  keeps-RepositorySettled :
      (i : ℤ) (w w' : W)
      → KeepsRepository g i w w'
      → RepositorySettled k g i w
      → RepositorySettled k g i w'
  keeps-RepositorySettled i w w' (get, find) s = record {
    repository = s.repository;
    found = find ∙ s.found;
    read = get ∙ s.read;
    wanted = s.wanted;
  }

  write_none-settles :
      (i : ℤ) (rs : List (Ruleset R)) (w w' : W)
      → RepositorySettled k g i w
      → (g.get_all_rulesets i w).1 ≡ ok rs
      → find_default rs ≡ none
      → write_ruleset k g i none w ≡ (w', ok tt)
      → RepositorySettled k g i w' × RulesetSettled k g i w'
  unfolding write_ruleset
  write_none-settles i rs w w' s list missing h =
      let ((id, stored), kept) =
        store.create-get i (jettison_ruleset k) rs w w' list missing refl
          (wrapped-ok create_error _ h) in
      (
        keeps-RepositorySettled i w w' kept s,
        record {
          id = id;
          full = record (jettison_ruleset k) { id = some id };
          is_default = stored;
          wanted = refl;
        },
      )

  write_some-settles :
      (i id : ℤ) (r : Ruleset R) (w w' : W)
      → RepositorySettled k g i w
      → IsDefault g i id r w
      → write_ruleset k g i (some r) w ≡ (w', ok tt)
      → RepositorySettled k g i w' × RulesetSettled k g i w'
  unfolding write_ruleset
  write_some-settles i id r w w' s d h =
      let fixed = (fix_ruleset k r).0 in
      let same_id : (fix_ruleset k r).0.id ≡ some id =
        rw (fix_ruleset_lem k r) (store.get_ruleset-id i id w r d.read) in
      let same_name : (fix_ruleset k r).0.name ≡ r.name = rw (fix_ruleset_lem k r) refl in
      elim (Bool-cases (fix_ruleset k r).1) [
        | inl e ↦
            let updated = wrapped-ok update_error _ (rw (e, same_id) at h) in
            let (stored, kept) = store.update-get i id fixed r w w' d same_name same_id updated in
            (
              keeps-RepositorySettled i w w' kept s,
              record {
                id = id;
                full = fixed;
                is_default = stored;
                wanted = rw (fix_ruleset_lem k r) refl;
              },
            )
        | inr e ↦
            subst (λ u. RepositorySettled k g i u × RulesetSettled k g i u)
              (ap (λ x. x.0) (rw e at h))
              (
                s,
                record {
                  id = id;
                  full = r;
                  is_default = d;
                  wanted = (fix_ruleset-differs k r).0 e;
                },
              )
      ]

  sync_listed-settles :
      (i : ℤ) (rs : List (Ruleset R)) (listed : Ruleset R) (w w' : W)
      → RepositorySettled k g i w
      → (g.get_all_rulesets i w).1 ≡ ok rs
      → find_default rs ≡ some listed
      → ((default_ruleset k g i rs) >>= write_ruleset k g i) w ≡ (w', ok tt)
      → RepositorySettled k g i w' × RulesetSettled k g i w'
  unfolding default_ruleset
  sync_listed-settles i rs listed w w' s read e h = elim (Option-cases listed.id) [
    | inl no_id ↦ let crashed = rw (e, default_ruleset, no_id) at h in cc
    | inr (id, has_id) ↦
        let (v, o, e1, written) =
          follow-ok _ (write_ruleset k g i) (rw (e, default_ruleset, has_id) at h) in
        let (r, full, returned) =
          follow-read ruleset_error (g.get_ruleset i id) _ (store.get_ruleset-reads i id w) e1 in
        let same : w ≡ v = ap (λ x. x.0) returned in
        let got : some r ≡ o = ok-injective {E = SettingsError E} (ap (λ x. x.1) returned) in
        let d : IsDefault g i id r w = record {
          rulesets = rs;
          listed = listed;
          list = read;
          default = e;
          has_id = has_id;
          read = full;
        } in
        write_some-settles i id r w w' s d (
          subst (λ u. write_ruleset k g i (some r) u ≡ (w', ok tt)) (sym same)
            (subst (λ p. write_ruleset k g i p v ≡ (w', ok tt)) (sym got) written))
  ]

  sync_rulesets-settles :
      (i : ℤ) (w w' : W)
      → RepositorySettled k g i w
      → sync_rulesets k g i w ≡ (w', ok tt)
      → RepositorySettled k g i w' × RulesetSettled k g i w'
  unfolding sync_rulesets default_ruleset
  sync_rulesets-settles i w w' s h =
      let (rs, read, rest) =
        follow-read rulesets_error (g.get_all_rulesets i) _ (store.list-reads i w) h in
      elim (Option-cases (find_default rs)) [
        | inl e ↦ write_none-settles i rs w w' s read e (rw (e, default_ruleset) at rest)
        | inr (listed, e) ↦ sync_listed-settles i rs listed w w' s read e rest
      ]

  sync_settings-ends : (w w' : W) → sync_settings k g w ≡ (w', ok tt) → Settled k g w'
  unfolding sync_settings
  sync_settings-ends w w' h =
      let (o, found, rest) =
        follow-read (λ _. installation_error) g.find_repository_installation _ (store.find-reads w)
          h in
      elim (Option-cases o) [
        | inl e ↦ let crashed = rw e at rest in cc
        | inr (i, e) ↦
            let (v, _, repository, rulesets) =
              follow-ok (sync_repository k g i w) _ (rw e at rest) in
            let settled = sync_repository-settles i w v (found ∙ ap ok e) repository in
            let (r, s) = sync_rulesets-settles i v w' settled rulesets in (i, r, s)
      ]

  -- If GitHub stores what it is sent, then after a synchronisation that succeeds, the flags of
  -- the repository are as wanted, and it has a default ruleset whose fields are as wanted; and a
  -- second synchronisation succeeds and changes nothing.
  pub sync_settings-settles :
      (w w' : W)
      → sync_settings k g w ≡ (w', ok tt)
      → Settled k g w' × (sync_settings k g w' ≡ (w', ok tt))
  sync_settings-settles w w' h =
      let settled = sync_settings-ends w w' h in
      (settled, sync_settings-Settled k g store w' settled)
