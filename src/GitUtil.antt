-- ===== src/GitUtil.antt =====
-- internal/gitutil/gitutil.go: the organisation and the name in the URL of a GitHub repository.
pub mod Laws
mod Tests
use jettison_controller.Common.{ℕ, List, [], ◌∷◌, ◌++◌, none, some}
use jettison_controller.Common.Results.{Result, ok, err}
use jettison_controller.Text.{Str, codes, slash, cut_prefix, trim_suffix, split}

abbrev pub git_prefix : Str
git_prefix = codes "https://github.com/"

abbrev pub git_suffix : Str
git_suffix = codes ".git"

-- The errors, with the URL that they print.
pub data GitError : Type 0 where
  invalid_prefix : Str → GitError
  invalid_path : Str → GitError

-- The test on the number of parts, and the two results.
org_and_name : Str → List Str → Result GitError (Str × Str)
org_and_name repo_url (repo_org ∷ repo_name ∷ []) = ok (repo_org, repo_name)
org_and_name repo_url _ = err (invalid_path repo_url)

unfoldable pub get_repo_org_name : Str → Result GitError (Str × Str)
unfolding org_and_name
get_repo_org_name url =
    let repo_url = trim_suffix url git_suffix in
    elim (cut_prefix repo_url git_prefix) [
      | none ↦ err (invalid_prefix repo_url)
      | some repo_path ↦ org_and_name repo_url (split repo_path slash)
    ]

unfoldable pub get_source_repo_glob : Str → Str
get_source_repo_glob repo_org = git_prefix ++ (repo_org ++ codes "/*")
