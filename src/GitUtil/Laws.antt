-- ===== src/GitUtil/Laws.antt =====
-- `GetRepoOrgName` reads exactly the URLs of the form <prefix><org>/<name>, with or without ".git".
use mathlib.Core.Path.{subst}
use jettison_controller.Common.{
  ◌≡◌, ◌≢◌, refl, sym, ap, All, ◌∙◌, ◌⊎◌, inl, inr, List, [], ◌∷◌, ◌++◌, append_assoc, arith, Lacks,
  Option-cases,
}
use jettison_controller.Common.Results.{NoPanic, ok}
use jettison_controller.Text.{Str, codes, slash, cut_prefix, trim_suffix, split, join}
use jettison_controller.Text.Prefix.{
  cut_prefix-append, cut_prefix-eq-some, trim_suffix-append, trim_suffix_of_none, trim_suffix-cases,
  suffix_after,
}
use jettison_controller.Text.Split.{split_of_Lacks, split-append, split-Lacks, join-split}
use jettison_controller.GitUtil.{git_prefix, git_suffix, org_and_name, get_repo_org_name}

-- The URL of a repository, without the suffix.
abbrev pub repo_url : Str → Str → Str
repo_url org name = git_prefix ++ (org ++ slash ∷ name)

org_and_name-repo_url :
    (u org name : Str)
    → Lacks slash org
    → Lacks slash name
    → trim_suffix u git_suffix ≡ repo_url org name
    → get_repo_org_name u ≡ ok (org, name)
unfolding get_repo_org_name
org_and_name-repo_url u org name ho hn e =
    rw
      (
        e,
        get_repo_org_name,
        cut_prefix-append git_prefix,
        split-append org name slash ho,
        split_of_Lacks name slash hn,
      )
      refl

git_suffix-Lacks : Lacks slash git_suffix
unfolding codes
git_suffix-Lacks = omega arith

-- The GitHub URL of an organisation and a name is read back as the two, with the suffix ".git"
-- and without it, if neither holds a slash and the name does not itself end with ".git".
pub get_repo_org_name-repo_url :
    (org name : Str)
    → Lacks slash org
    → Lacks slash name
    → ((r : Str) → name ≢ r ++ git_suffix)
    → (get_repo_org_name (repo_url org name) ≡ ok (org, name))
      × (get_repo_org_name (repo_url org name ++ git_suffix) ≡ ok (org, name))
get_repo_org_name-repo_url org name ho hn bare = (
  org_and_name-repo_url _ org name ho hn (
      trim_suffix_of_none _ git_suffix λ r e.
        let (t, ends) =
          suffix_after slash (git_prefix ++ org) name r git_suffix
            (append_assoc git_prefix org (slash ∷ name) ∙ e) git_suffix-Lacks in
        bare t ends),
  org_and_name-repo_url _ org name ho hn (trim_suffix-append (repo_url org name) git_suffix),
)

org_and_name-eq-ok :
    (u : Str) (parts : List Str) (org name : Str)
    → org_and_name u parts ≡ ok (org, name)
    → parts ≡ org ∷ name ∷ []
unfolding org_and_name
org_and_name-eq-ok u (a ∷ b ∷ []) org name h = cc
org_and_name-eq-ok u [] org name h = cc
org_and_name-eq-ok u (a ∷ []) org name h = cc
org_and_name-eq-ok u (a ∷ b ∷ c ∷ r) org name h = cc

Lacks-parts :
    (path org name : Str) → split path slash ≡ org ∷ name ∷ [] → Lacks slash org × Lacks slash name
Lacks-parts path org name e =
    let lack = subst (All (Lacks slash)) e (split-Lacks path slash) in (lack.0, lack.1.0)

parts-path : (path org name : Str) → split path slash ≡ org ∷ name ∷ [] → path ≡ org ++ slash ∷ name
unfolding join
parts-path path org name e = sym (join-split path slash) ∙ ap (λ ps. join ps (slash ∷ [])) e

-- A URL that is read as an organisation and a name is the GitHub URL of the two, with the suffix
-- ".git" or without it, and neither holds a slash.
pub get_repo_org_name-eq-ok :
    (u org name : Str)
    → get_repo_org_name u ≡ ok (org, name)
    → Lacks slash org
      × Lacks slash name
      × ((u ≡ repo_url org name) ⊎ (u ≡ repo_url org name ++ git_suffix))
unfolding get_repo_org_name
get_repo_org_name-eq-ok u org name h =
    elim (Option-cases (cut_prefix (trim_suffix u git_suffix) git_prefix)) [
      | inl gone ↦ absurd (ground arith)
      | inr (path, found) ↦
          let parts =
            org_and_name-eq-ok _ (split path slash) org name (rw (found, get_repo_org_name) at h) in
          let (ho, hn) = Lacks-parts path org name parts in
          let whole : trim_suffix u git_suffix ≡ repo_url org name =
            cut_prefix-eq-some _ git_prefix path found
            ∙ ap (λ p. git_prefix ++ p) (parts-path path org name parts) in
          (
            ho,
            hn,
            elim (trim_suffix-cases u git_suffix) [
              | inl cut ↦ inr (cut ∙ ap (λ s. s ++ git_suffix) whole)
              | inr same ↦ inl (sym same ∙ whole)
            ],
          )
    ]

org_and_name-NoPanic : (url : Str) (parts : List Str) → NoPanic (org_and_name url parts)
unfolding org_and_name
org_and_name-NoPanic url [] = tt
org_and_name-NoPanic url (org ∷ []) = tt
org_and_name-NoPanic url (org ∷ name ∷ []) = tt
org_and_name-NoPanic url (org ∷ name ∷ more ∷ rest) = tt

pub get_repo_org_name-NoPanic : (url : Str) → NoPanic (get_repo_org_name url)
unfolding get_repo_org_name
get_repo_org_name-NoPanic url =
    elim (Option-cases (cut_prefix (trim_suffix url git_suffix) git_prefix)) [
      | inl gone ↦ rw (gone, get_repo_org_name) tt
      | inr (path, found) ↦
          rw (found, get_repo_org_name)
            (org_and_name-NoPanic (trim_suffix url git_suffix) (split path slash))
    ]
