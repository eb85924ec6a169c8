-- ===== src/RepoSettings.antt =====
-- The settings of a repository on GitHub and its default ruleset, as far as
-- internal/controller/ghsettings/ghsettings.go reads and writes them.
pub mod Fix
pub mod Client
pub mod Laws
pub mod Settled
pub mod Settles
pub mod Tests
use jettison_controller.Common.{Bool, List, Option}
use jettison_controller.Common.Ints.{ℤ}
use jettison_controller.Text.{Str}

-- A nil slice is `none`, where the program tells it from an empty one.
pub record RefName : Type 0 where
  pub include : List Str
  pub exclude : Option (List Str)

pub record StatusCheck : Type 0 where
  pub context : Str
  pub integration_id : Option ℤ

pub record StatusChecksRule : Type 0 where
  pub do_not_enforce_on_create : Option Bool
  pub required_status_checks : List StatusCheck
  pub strict_required_status_checks_policy : Bool

-- `R` holds the fields of a structure of the GitHub client that the program neither reads nor
-- sets, in each structure that has such fields.
module _ (R : Type 0) where
  -- The fields of `github.Repository` that the program reads; a nil pointer is `none`.
  pub record Repository : Type 0 where
    pub allow_merge_commit : Option Bool
    pub allow_squash_merge : Option Bool
    pub allow_rebase_merge : Option Bool
    pub allow_update_branch : Option Bool
    pub allow_auto_merge : Option Bool
    pub delete_branch_on_merge : Option Bool
    pub rest : R

  pub record Conditions : Type 0 where
    pub ref_name : Option RefName
    pub rest : R

  pub record PullRequestRule : Type 0 where
    pub allowed_merge_methods : List Str
    pub dismiss_stale_reviews_on_push : Bool
    pub require_code_owner_review : Bool
    pub require_last_push_approval : Bool
    pub required_approving_review_count : ℤ
    pub required_review_thread_resolution : Bool
    pub rest : R

  -- A rule without parameters, a pointer to an empty structure, is there or not.
  pub record Rules : Type 0 where
    pub required_linear_history : Bool
    pub deletion : Bool
    pub pull_request : Option PullRequestRule
    pub required_status_checks : Option StatusChecksRule
    pub non_fast_forward : Bool
    pub rest : R

  pub record Ruleset : Type 0 where
    pub id : Option ℤ
    pub name : Str
    pub target : Option Str
    pub source_type : Option Str
    pub enforcement : Str
    pub conditions : Option Conditions
    pub rules : Option Rules
    pub rest : R

  -- Constants of the GitHub client, and the zero values of the other fields.
  pub record Constants : Type 0 where
    pub target_branch : Str
    pub source_type_repository : Str
    pub enforcement_active : Str
    pub merge_method_squash : Str
    pub zeros : R
