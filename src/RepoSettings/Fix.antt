-- ===== src/RepoSettings/Fix.antt =====
-- Where SyncGitHubSettingsForRepo of internal/controller/ghsettings/ghsettings.go sets a value that
-- differs from the wanted one. Each function returns the structure, and whether it was changed
-- (`hasDiff`). The shared structures that the Go code points to are never written to afterwards.
use jettison_controller.Common.{
  Bool, true, false, not, ◌||◌, List, [], ◌∷◌, Option, none, some, if◌then◌else◌,
}
use jettison_controller.Common.Ints.{ℤ, pos, ℤ-discrete}
use jettison_controller.Text.{Str, codes, ◌==◌}
use mathlib.Core.Logic.{ite}
use jettison_controller.RepoSettings.{
  RefName, StatusCheck, StatusChecksRule, Repository, Conditions, PullRequestRule, Rules, Ruleset,
  Constants,
}

abbrev pub app_id : ℤ
app_id = pos 1682308

abbrev pub default_ruleset_name : Str
default_ruleset_name = codes "default"

abbrev pub default_branch : Str
default_branch = codes "~DEFAULT_BRANCH"

abbrev pub jettison_required_check : StatusCheck
jettison_required_check = record {
  context = codes "Jettison PR Flow";
  integration_id = some app_id;
}

abbrev pub jettison_status_checks : StatusChecksRule
jettison_status_checks = record {
  do_not_enforce_on_create = some false;
  required_status_checks = jettison_required_check ∷ [];
  strict_required_status_checks_policy = true;
}

-- Set an optional flag to false, unless it is false.
abbrev pub clear_flag : Option Bool → Option Bool × Bool
clear_flag none = (some false, true)
clear_flag (some true) = (some false, true)
clear_flag (some false) = (some false, false)

-- Set an optional flag to true, unless it is true.
abbrev pub raise_flag : Option Bool → Option Bool × Bool
raise_flag none = (some true, true)
raise_flag (some false) = (some true, true)
raise_flag (some true) = (some true, false)

-- Set an optional text, unless it has the wanted value.
abbrev pub fix_text : Option Str → Str → Option Str × Bool
fix_text none wanted = (some wanted, true)
fix_text (some s) wanted = if s == wanted then (some s, false) else (some wanted, true)

-- Whether the list has the wanted text as its only element.
abbrev pub is_only : List Str → Str → Bool
is_only (s ∷ []) wanted = s == wanted
is_only _ wanted = false

-- `refName.Exclude == nil || len(refName.Exclude) != 0`
abbrev pub excludes_differ : Option (List Str) → Bool
excludes_differ none = true
excludes_differ (some []) = false
excludes_differ (some (_ ∷ _)) = true

unfoldable pub fix_ref_name : RefName → RefName × Bool
fix_ref_name n =
    let include_differs = not (is_only n.include default_branch) in
    let exclude_differs = excludes_differ n.exclude in
    (
      record n {
        include = if include_differs then default_branch ∷ [] else n.include;
        exclude = if exclude_differs then some [] else n.exclude;
      },
      include_differs || exclude_differs,
    )

-- The test of `requiredChecks`: one check, of this context and this application.
abbrev pub are_required : List StatusCheck → Bool
are_required (c ∷ []) =
    if c.context == jettison_required_check.context
    then elim c.integration_id [ none ↦ false | some id ↦ ite (ℤ-discrete id app_id) true false ]
    else false
are_required _ = false

unfoldable pub fix_status_checks : StatusChecksRule → StatusChecksRule × Bool
fix_status_checks s =
    let (on_create, create_differs) = clear_flag s.do_not_enforce_on_create in
    let checks_differ = not (are_required s.required_status_checks) in
    let strict_differs = not s.strict_required_status_checks_policy in
    (
      record s {
        do_not_enforce_on_create = on_create;
        required_status_checks =
            if checks_differ then jettison_required_check ∷ [] else s.required_status_checks;
        strict_required_status_checks_policy = true;
      },
      create_differs || checks_differ || strict_differs,
    )

module _ {R : Type 0} where
  unfoldable pub fix_repository : Repository R → Repository R × Bool
  fix_repository r =
      let (merge, d1) = clear_flag r.allow_merge_commit in
      let (squash, d2) = raise_flag r.allow_squash_merge in
      let (rebase, d3) = clear_flag r.allow_rebase_merge in
      let (update, d4) = raise_flag r.allow_update_branch in
      let (auto, d5) = raise_flag r.allow_auto_merge in
      let (delete, d6) = raise_flag r.delete_branch_on_merge in
      (
        record r {
          allow_merge_commit = merge;
          allow_squash_merge = squash;
          allow_rebase_merge = rebase;
          allow_update_branch = update;
          allow_auto_merge = auto;
          delete_branch_on_merge = delete;
        },
        d1 || d2 || d3 || d4 || d5 || d6,
      )

module _ {R : Type 0} (k : Constants R) where
  abbrev pub jettison_conditions : Conditions R
  jettison_conditions = record {
    ref_name = some (record { include = default_branch ∷ []; exclude = some [] });
    rest = k.zeros;
  }

  abbrev pub jettison_pr_rules : PullRequestRule R
  jettison_pr_rules = record {
    allowed_merge_methods = k.merge_method_squash ∷ [];
    dismiss_stale_reviews_on_push = true;
    require_code_owner_review = false;
    require_last_push_approval = false;
    required_approving_review_count = pos 0;
    required_review_thread_resolution = true;
    rest = k.zeros;
  }

  abbrev pub jettison_rules : Rules R
  jettison_rules = record {
    required_linear_history = true;
    deletion = true;
    pull_request = some jettison_pr_rules;
    required_status_checks = some jettison_status_checks;
    non_fast_forward = true;
    rest = k.zeros;
  }

  abbrev pub jettison_ruleset : Ruleset R
  jettison_ruleset = record {
    id = none;
    name = default_ruleset_name;
    target = some k.target_branch;
    source_type = some k.source_type_repository;
    enforcement = k.enforcement_active;
    conditions = some jettison_conditions;
    rules = some jettison_rules;
    rest = k.zeros;
  }

  unfoldable pub fix_conditions : Option (Conditions R) → Option (Conditions R) × Bool
  unfolding fix_ref_name
  fix_conditions none = (some jettison_conditions, true)
  fix_conditions (some c) = elim c.ref_name [
    | none ↦ (some (record c { ref_name = jettison_conditions.ref_name }), true)
    | some n ↦
        let (fixed, differs) = fix_ref_name n in
        (some (record c { ref_name = some fixed }), differs)
  ]

  unfoldable pub fix_pull_request : PullRequestRule R → PullRequestRule R × Bool
  fix_pull_request p =
      let methods_differ = not (is_only p.allowed_merge_methods k.merge_method_squash) in
      let count_differs =
        not (ite (ℤ-discrete p.required_approving_review_count (pos 0)) true false) in
      (
        record p {
          allowed_merge_methods =
              if methods_differ then k.merge_method_squash ∷ [] else p.allowed_merge_methods;
          dismiss_stale_reviews_on_push = true;
          require_code_owner_review = false;
          require_last_push_approval = false;
          required_approving_review_count = pos 0;
          required_review_thread_resolution = true;
        },
        methods_differ
            || not p.dismiss_stale_reviews_on_push
            || p.require_code_owner_review
            || p.require_last_push_approval
            || count_differs
            || not p.required_review_thread_resolution,
      )

  unfoldable pub fix_rules : Option (Rules R) → Option (Rules R) × Bool
  unfolding fix_pull_request fix_status_checks
  fix_rules none = (some jettison_rules, true)
  fix_rules (some r) =
      let (pull, pull_differs) : Option (PullRequestRule R) × Bool = elim r.pull_request [
        | none ↦ (some jettison_pr_rules, true)
        | some p ↦ let (fixed, differs) = fix_pull_request p in (some fixed, differs)
      ] in
      let (checks, checks_differ) : Option StatusChecksRule × Bool = elim r.required_status_checks [
        | none ↦ (some jettison_status_checks, true)
        | some s ↦ let (fixed, differs) = fix_status_checks s in (some fixed, differs)
      ] in
      (
        some (record r {
          required_linear_history = true;
          deletion = true;
          pull_request = pull;
          required_status_checks = checks;
          non_fast_forward = true;
        }),
        not r.required_linear_history
            || not r.deletion
            || pull_differs
            || checks_differ
            || not r.non_fast_forward,
      )

  unfoldable pub fix_ruleset : Ruleset R → Ruleset R × Bool
  fix_ruleset r =
      let (target, target_differs) = fix_text r.target k.target_branch in
      let (source, source_differs) = fix_text r.source_type k.source_type_repository in
      let enforcement_differs = not (r.enforcement == k.enforcement_active) in
      let (conditions, conditions_differ) = fix_conditions r.conditions in
      let (rules, rules_differ) = fix_rules r.rules in
      (
        record r {
          target = target;
          source_type = source;
          enforcement = k.enforcement_active;
          conditions = conditions;
          rules = rules;
        },
        target_differs || source_differs || enforcement_differs || conditions_differ
            || rules_differ,
      )
