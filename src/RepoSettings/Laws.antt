-- ===== src/RepoSettings/Laws.antt =====
-- What the settings of a repository must be, and that the program sets them when they differ.
use jettison_controller.Common.{
  true, false, [], ◌∷◌, Option, none, some, ◌≡◌, ◌↔◌, arith, inl, inr, Option-cases,
}
use jettison_controller.Common.Ints.{pos}
use jettison_controller.RepoSettings.{
  RefName, StatusChecksRule, Repository, Conditions, PullRequestRule, Rules, Ruleset, Constants,
}
use jettison_controller.RepoSettings.Fix.{
  default_branch, jettison_status_checks, fix_ref_name, fix_status_checks, fix_repository,
  fix_conditions, fix_pull_request, fix_rules, fix_ruleset,
}

-- The one wanted value of each setting, with the fields that the program leaves alone.
abbrev pub wanted_repository : {R : Type 0} → R → Repository R
wanted_repository rest = record {
  allow_merge_commit = some false;
  allow_squash_merge = some true;
  allow_rebase_merge = some false;
  allow_update_branch = some true;
  allow_auto_merge = some true;
  delete_branch_on_merge = some true;
  rest = rest;
}

pub fix_repository_lem :
    {R : Type 0} (r : Repository R) → (fix_repository r).0 ≡ wanted_repository r.rest
unfolding fix_repository
fix_repository_lem r = ground arith

pub fix_repository-differs :
    {R : Type 0} (r : Repository R)
    → ((fix_repository r).1 ≡ false) ↔ (r ≡ wanted_repository r.rest)
unfolding fix_repository
fix_repository-differs r = ground arith

pub fix_repository_correct :
    {R : Type 0} (r : Repository R)
    → ((fix_repository r).0 ≡ wanted_repository r.rest)
      × (((fix_repository r).1 ≡ false) ↔ (r ≡ wanted_repository r.rest))
fix_repository_correct r = (fix_repository_lem r, fix_repository-differs r)

-- The branches that the ruleset is for.
abbrev pub wanted_ref_name : RefName
wanted_ref_name = record { include = default_branch ∷ []; exclude = some [] }

fix_ref_name_lem : (n : RefName) → (fix_ref_name n).0 ≡ wanted_ref_name
unfolding fix_ref_name
fix_ref_name_lem n = ground arith

fix_ref_name-differs : (n : RefName) → ((fix_ref_name n).1 ≡ false) ↔ (n ≡ wanted_ref_name)
unfolding fix_ref_name
fix_ref_name-differs n = ground arith

fix_status_checks_lem : (s : StatusChecksRule) → (fix_status_checks s).0 ≡ jettison_status_checks
unfolding fix_status_checks
fix_status_checks_lem s = ground arith

fix_status_checks-differs :
    (s : StatusChecksRule) → ((fix_status_checks s).1 ≡ false) ↔ (s ≡ jettison_status_checks)
unfolding fix_status_checks
fix_status_checks-differs s = ground arith

module _ {R : Type 0} (k : Constants R) where
  -- The fields that are left alone, of structures that may be missing.
  abbrev conditions_rest : Option (Conditions R) → R
  conditions_rest none = k.zeros
  conditions_rest (some c) = c.rest

  abbrev pull_request_rest : Option (PullRequestRule R) → R
  pull_request_rest none = k.zeros
  pull_request_rest (some p) = p.rest

  abbrev wanted_conditions : Option (Conditions R) → Conditions R
  wanted_conditions c = record { ref_name = some wanted_ref_name; rest = conditions_rest c }

  abbrev wanted_pull_request : Option (PullRequestRule R) → PullRequestRule R
  wanted_pull_request p = record {
    allowed_merge_methods = k.merge_method_squash ∷ [];
    dismiss_stale_reviews_on_push = true;
    require_code_owner_review = false;
    require_last_push_approval = false;
    required_approving_review_count = pos 0;
    required_review_thread_resolution = true;
    rest = pull_request_rest p;
  }

  abbrev rules_rest : Option (Rules R) → R
  rules_rest none = k.zeros
  rules_rest (some r) = r.rest

  abbrev rules_pull_request : Option (Rules R) → Option (PullRequestRule R)
  rules_pull_request none = none
  rules_pull_request (some r) = r.pull_request

  abbrev wanted_rules : Option (Rules R) → Rules R
  wanted_rules r = record {
    required_linear_history = true;
    deletion = true;
    pull_request = some (wanted_pull_request (rules_pull_request r));
    required_status_checks = some jettison_status_checks;
    non_fast_forward = true;
    rest = rules_rest r;
  }

  -- The wanted ruleset, with what the program leaves alone of a given one.
  abbrev pub wanted_ruleset : Ruleset R → Ruleset R
  wanted_ruleset r = record {
    id = r.id;
    name = r.name;
    target = some k.target_branch;
    source_type = some k.source_type_repository;
    enforcement = k.enforcement_active;
    conditions = some (wanted_conditions r.conditions);
    rules = some (wanted_rules r.rules);
    rest = r.rest;
  }

  fix_conditions_lem :
      (c : Option (Conditions R)) → (fix_conditions k c).0 ≡ some (wanted_conditions c)
  unfolding fix_conditions
  fix_conditions_lem c = grind (arith, fix_ref_name_lem)

  fix_conditions-differs :
      (c : Option (Conditions R))
      → ((fix_conditions k c).1 ≡ false) ↔ (c ≡ some (wanted_conditions c))
  unfolding fix_conditions
  fix_conditions-differs none = ground arith
  fix_conditions-differs (some c) = elim (Option-cases c.ref_name) [
    | inl e ↦ rw (e, fix_conditions) (ground arith)
    | inr (n, e) ↦ rw (e, fix_conditions) (ground (arith, fix_ref_name-differs n))
  ]

  fix_pull_request_lem :
      (p : PullRequestRule R) → (fix_pull_request k p).0 ≡ wanted_pull_request (some p)
  unfolding fix_pull_request
  fix_pull_request_lem p = ground arith

  fix_pull_request-differs :
      (p : PullRequestRule R)
      → ((fix_pull_request k p).1 ≡ false) ↔ (p ≡ wanted_pull_request (some p))
  unfolding fix_pull_request
  fix_pull_request-differs p = ground arith

  fix_rules_lem : (r : Option (Rules R)) → (fix_rules k r).0 ≡ some (wanted_rules r)
  unfolding fix_rules
  fix_rules_lem r = grind (arith, fix_pull_request_lem, fix_status_checks_lem)

  fix_rules-differs :
      (r : Option (Rules R)) → ((fix_rules k r).1 ≡ false) ↔ (r ≡ some (wanted_rules r))
  unfolding fix_rules
  fix_rules-differs r = grind (arith, fix_pull_request-differs, fix_status_checks-differs)

  pub fix_ruleset_lem : (r : Ruleset R) → (fix_ruleset k r).0 ≡ wanted_ruleset r
  unfolding fix_ruleset
  fix_ruleset_lem r = ground (arith, fix_conditions_lem r.conditions, fix_rules_lem r.rules)

  pub fix_ruleset-differs : (r : Ruleset R) → ((fix_ruleset k r).1 ≡ false) ↔ (r ≡ wanted_ruleset r)
  unfolding fix_ruleset
  fix_ruleset-differs r =
      ground (arith, fix_conditions-differs r.conditions, fix_rules-differs r.rules)

  -- Fixing a ruleset gives the ruleset with all wanted settings and its other fields as they
  -- were, and reports no change exactly when the ruleset was that already.
  pub fix_ruleset_correct :
      (r : Ruleset R)
      → ((fix_ruleset k r).0 ≡ wanted_ruleset r)
        × (((fix_ruleset k r).1 ≡ false) ↔ (r ≡ wanted_ruleset r))
  fix_ruleset_correct r = (fix_ruleset_lem r, fix_ruleset-differs r)
