-- ===== src/Sensor/Fields/Laws.antt =====
-- The Dockerfile directory, the suffix of the name of an image.
use jettison_controller.Common.{
  ℕ, ◌≡◌, refl, sym, ap, ◌∙◌, ◌≢◌, [], ◌∷◌, ◌++◌, Lacks, arith, if◌then◌else◌,
}
use jettison_controller.Text.{
  Str, codes, slash, ◌==◌, Str-discrete, has_prefix, replace_all, to_lower, trim, trim_left,
  trim_right, split_path,
}
use jettison_controller.Text.Path.{split_path-append, trim_right-slash}
use jettison_controller.Flow.Defaulter.{get_default_dockerfile_path}
use jettison_controller.Sensor.Fields.{file_suffix, slash_first, join_dir, get_dockerfile_dir}

dockerfile-suffix : file_suffix (codes "Dockerfile") ≡ []
unfolding codes Str-discrete has_prefix replace_all to_lower trim trim_left trim_right
dockerfile-suffix = refl

dockerfile-Lacks : Lacks slash (codes "Dockerfile")
unfolding codes
dockerfile-Lacks = omega arith

slash_first-append :
    (c : ℕ) (s : Str) → slash_first (c ∷ s ++ (slash ∷ [])) ≡ slash_first (c ∷ s) ++ (slash ∷ [])
unfolding has_prefix
slash_first-append c s = ground arith

join_dir-plain :
    (c : ℕ) (dir : Str) → join_dir (c ∷ dir) [] ≡ trim_right (slash_first (c ∷ dir)) (slash ∷ [])
unfolding join_dir
join_dir-plain c dir = ground arith

join_dir-nil : join_dir [] [] ≡ []
unfolding join_dir
join_dir-nil = ground arith

dir_of_default :
    (c : ℕ) (dir : Str)
    → get_dockerfile_dir (c ∷ dir ++ (slash ∷ codes "Dockerfile"))
      ≡ trim_right (slash_first (c ∷ dir)) (slash ∷ [])
unfolding get_dockerfile_dir
dir_of_default c dir =
    ap (λ p. join_dir p.0 (file_suffix p.1))
      (split_path-append (c ∷ dir) (codes "Dockerfile") dockerfile-Lacks)
    ∙ ap (join_dir (c ∷ dir ++ (slash ∷ []))) dockerfile-suffix
    ∙ join_dir-plain c (dir ++ (slash ∷ []))
    ∙ ap (λ s. trim_right s (slash ∷ [])) (slash_first-append c dir)
    ∙ trim_right-slash (slash_first (c ∷ dir))

dir_of_root : get_dockerfile_dir (codes "Dockerfile") ≡ []
unfolding get_dockerfile_dir split_path codes Str-discrete has_prefix replace_all to_lower trim
    trim_left trim_right
dir_of_root = refl

-- The default path of an empty and of another context directory.
default_path-nil : (dir : Str) → dir ≡ [] → get_default_dockerfile_path dir ≡ codes "Dockerfile"
unfolding get_default_dockerfile_path
default_path-nil dir h = ground arith

default_path-cons :
    (dir : Str) → dir ≢ [] → get_default_dockerfile_path dir ≡ dir ++ (slash ∷ codes "Dockerfile")
unfolding get_default_dockerfile_path
default_path-cons dir h = ground arith

-- The directory that the image of a context directory gets.
abbrev pub image_dir : Str → Str
image_dir dir = if dir == [] then [] else trim_right (slash_first dir) (slash ∷ [])

image_dir-cons :
    (c : ℕ) (dir : Str) → image_dir (c ∷ dir) ≡ trim_right (slash_first (c ∷ dir)) (slash ∷ [])
image_dir-cons c dir = ground arith

image_dir-nil : image_dir [] ≡ []
image_dir-nil = ground arith

-- The directory of the default Dockerfile path of a context directory is empty for the empty
-- directory, and is else the context directory with a slash in front, if it has none, and without
-- the slashes at its end.
pub get_dockerfile_dir-get_default_dockerfile_path :
    (dir : Str) → get_dockerfile_dir (get_default_dockerfile_path dir) ≡ image_dir dir
get_dockerfile_dir-get_default_dockerfile_path [] =
    ap get_dockerfile_dir (default_path-nil [] refl) ∙ dir_of_root ∙ sym image_dir-nil
get_dockerfile_dir-get_default_dockerfile_path (c ∷ dir) =
    ap get_dockerfile_dir (default_path-cons (c ∷ dir) (λ e. cc))
    ∙ dir_of_default c dir
    ∙ sym (image_dir-cons c dir)
