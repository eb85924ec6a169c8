-- ===== src/Text/Path.antt =====
-- Laws of `filepath.Split` and `strings.TrimRight` on paths.
use jettison_controller.Common.{ℕ, ◌≡◌, refl, [], ◌∷◌, ◌++◌, Lacks, arith}
use jettison_controller.Text.{Str, slash, split_path, extend_path, trim_right}

split_path_of_Lacks : (file : Str) → Lacks slash file → split_path file ≡ ([], file)
unfolding split_path
split_path_of_Lacks [] h = refl
split_path_of_Lacks (c ∷ file) (differ, h) = rw (split_path_of_Lacks file h) (ground arith)

extend_path-dir :
    (c : ℕ) (dir file : Str)
    → extend_path c (dir ++ (slash ∷ [])) file ≡ (c ∷ (dir ++ (slash ∷ [])), file)
extend_path-dir c [] file = refl
extend_path-dir c (d ∷ dir) file = refl

-- The directory is what stands before the last slash, with that slash.
pub split_path-append :
    (dir file : Str)
    → Lacks slash file
    → split_path (dir ++ (slash ∷ file)) ≡ (dir ++ (slash ∷ []), file)
unfolding split_path
split_path-append [] file h = rw (split_path_of_Lacks file h) refl
split_path-append (c ∷ dir) file h = rw (split_path-append dir file h) (extend_path-dir c dir file)

pub trim_right-slash :
    (s : Str) → trim_right (s ++ (slash ∷ [])) (slash ∷ []) ≡ trim_right s (slash ∷ [])
unfolding trim_right
trim_right-slash [] = refl
trim_right-slash (c ∷ s) = rw (trim_right-slash s) refl
