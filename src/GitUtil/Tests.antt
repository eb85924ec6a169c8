-- ===== src/GitUtil/Tests.antt =====
-- The cases of gitutil_test.go, and the theorems of `Laws` at concrete URLs.
use jettison_controller.Common.{
  ◌≡◌, ◌≢◌, refl, sym, ap, ◌∙◌, length, length-append, ◌⊎◌, ◌++◌, arith, Lacks,
}
use jettison_controller.Common.Results.{ok}
use jettison_controller.Text.{Str, codes, slash, Str-discrete, cut_prefix, trim_suffix, split}
use jettison_controller.Text.Prefix.{trim_suffix-append}
use jettison_controller.GitUtil.{git_suffix, get_repo_org_name, get_source_repo_glob}
use jettison_controller.GitUtil.Laws.{repo_url, get_repo_org_name-repo_url, get_repo_org_name-eq-ok}

abbrev org : Str
org = codes "jettisonproj"

abbrev name : Str
name = codes "jettison-controller"

with_suffix :
    get_repo_org_name (codes "https://github.com/jettisonproj/jettison-controller.git")
    ≡ ok (org, name)
unfolding get_repo_org_name codes Str-discrete cut_prefix trim_suffix split
with_suffix = refl

glob : get_source_repo_glob org ≡ codes "https://github.com/jettisonproj/*"
unfolding get_source_repo_glob codes
glob = refl

name-trim_suffix : trim_suffix name git_suffix ≡ name
unfolding trim_suffix codes Str-discrete
name-trim_suffix = refl

name-ne-append : (r : Str) → name ≢ r ++ git_suffix
unfolding codes
name-ne-append r e =
    let same : name ≡ r =
      sym name-trim_suffix
      ∙ ap (λ s. trim_suffix s git_suffix) e
      ∙ trim_suffix-append r git_suffix in
    absurd (omega (arith, ap length same, ap length e, length-append r git_suffix))

get_repo_org_name-repo_url_example :
    (get_repo_org_name (repo_url org name) ≡ ok (org, name))
    × (get_repo_org_name (repo_url org name ++ git_suffix) ≡ ok (org, name))
get_repo_org_name-repo_url_example =
    get_repo_org_name-repo_url org name (unfold codes in omega arith) (unfold codes in omega arith)
      name-ne-append

read_back :
    (get_repo_org_name (repo_url org name) ≡ ok (org, name))
    × (get_repo_org_name (repo_url org name ++ git_suffix) ≡ ok (org, name))
read_back =
    get_repo_org_name-repo_url org name (unfold codes in omega arith) (unfold codes in omega arith)
      name-ne-append

get_repo_org_name-eq-ok_example :
    Lacks slash org
    × Lacks slash name
    × ((repo_url org name ≡ repo_url org name)
        ⊎ (repo_url org name ≡ repo_url org name ++ git_suffix))
get_repo_org_name-eq-ok_example = get_repo_org_name-eq-ok (repo_url org name) org name read_back.0
