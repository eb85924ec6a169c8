-- ===== src/Text.antt =====
-- Go strings as lists of bytes, and the functions of `strings`, `fmt` and `path/filepath` that the
-- program calls on them. Letters and spaces are those of ASCII.
pub mod Prefix
pub mod Split
pub mod Path
use Prim.Native.Char.{code}
use Prim.Native.String.{String}
use mathlib.Core.Logic.{ite}
use native.Mathlib.Decide.{ℕ_discrete}
use jettison_controller.Common.{
  ℕ, zero, suc, ◌+◌, ◌-◌, ◌/◌, ◌%◌, Bool, true, false, ◌&&◌, List, [], ◌∷◌, ◌++◌, Option, none,
  some, length, map, ltb, leb, eqb, if◌then◌else◌,
}

abbrev pub Str : Type 0
Str = List ℕ

-- The bytes of an ASCII literal.
unfoldable pub codes : String → Str
codes String.[] = []
codes (String.◌∷◌ c s) = code c ∷ codes s

-- Shut in proofs, where a split on `s == t` yields the equation or its negation.
unfoldable pub Str-discrete : Discrete Str
unfolding ℕ_discrete
Str-discrete = hlevel ℕ_discrete

infix 50 ◌==◌
abbrev pub ◌==◌ : Str → Str → Bool
s == t = ite (Str-discrete s t) true false

-- `slices.Contains`, and membership in a `map[string]bool` that only ever gains keys.
abbrev pub contains : List Str → Str → Bool
contains [] a = false
contains (x ∷ xs) a = if a == x then true else contains xs a

abbrev pub slash : ℕ
slash = b'/'

-- `strings.HasPrefix(s, prefix)`
unfoldable pub has_prefix : Str → Str → Bool
has_prefix s [] = true
has_prefix [] (_ ∷ _) = false
has_prefix (c ∷ s) (p ∷ prefix) = eqb c p && has_prefix s prefix

-- `strings.CutPrefix(s, prefix)`; `none` is a result that was not found.
unfoldable pub cut_prefix : Str → Str → Option Str
cut_prefix s [] = some s
cut_prefix [] (_ ∷ _) = none
cut_prefix (c ∷ s) (p ∷ prefix) = if eqb c p then cut_prefix s prefix else none

-- The text before the suffix.
unfoldable pub cut_suffix : Str → Str → Option Str
cut_suffix [] suffix = if [] == suffix then some [] else none
cut_suffix (c ∷ s) suffix =
    let rest = cut_suffix s suffix in
    if (c ∷ s) == suffix then some [] else elim rest [ none ↦ none | some r ↦ some (c ∷ r) ]

-- `strings.TrimSuffix(s, suffix)`
unfoldable pub trim_suffix : Str → Str → Str
unfolding cut_suffix
trim_suffix s suffix = elim (cut_suffix s suffix) [ none ↦ s | some r ↦ r ]

-- The parts of a text, with one more byte in front of the first.
abbrev extend_first : ℕ → List Str → List Str
extend_first c [] = (c ∷ []) ∷ []
extend_first c (p ∷ ps) = (c ∷ p) ∷ ps

-- `strings.Split(s, sep)` for a separator of one byte.
unfoldable pub split : Str → ℕ → List Str
split [] sep = [] ∷ []
split (c ∷ s) sep = let rest = split s sep in if eqb c sep then [] ∷ rest else extend_first c rest

-- `strings.Join(parts, sep)`
unfoldable pub join : List Str → Str → Str
join [] sep = []
join (p ∷ []) sep = p
join (p ∷ q ∷ ps) sep = p ++ (sep ++ join (q ∷ ps) sep)

-- `skip` bytes of an occurrence are still to be passed over.
replace_from : Str → Str → Str → ℕ → Str
replace_from [] old new skip = []
replace_from (c ∷ s) old new (suc skip) = replace_from s old new skip
replace_from (c ∷ s) old new zero =
    let found = has_prefix (c ∷ s) old in
    (if found then new else c ∷ []) ++ replace_from s old new (if found then length old - 1 else 0)

-- `strings.ReplaceAll(s, old, new)` for a text `old` that is not empty.
unfoldable pub replace_all : Str → Str → Str → Str
unfolding replace_from has_prefix
replace_all s old new = replace_from s old new 0

-- `strings.ToLower(s)`
unfoldable pub to_lower : Str → Str
to_lower = map (λ c. if leb b'A' c && leb c b'Z' then c + 32 else c)

-- Whether a byte is one of a cutset.
abbrev pub one_of : Str → ℕ → Bool
one_of [] c = false
one_of (x ∷ xs) c = if eqb c x then true else one_of xs c

-- `strings.TrimLeft(s, cutset)` and `strings.TrimRight(s, cutset)`
unfoldable pub trim_left : Str → Str → Str
trim_left [] cutset = []
trim_left (c ∷ s) cutset = let rest = trim_left s cutset in if one_of cutset c then rest else c ∷ s

abbrev cons_unless : Bool → ℕ → Str → Str
cons_unless drop c [] = if drop then [] else c ∷ []
cons_unless drop c (d ∷ s) = c ∷ d ∷ s

unfoldable pub trim_right : Str → Str → Str
trim_right [] cutset = []
trim_right (c ∷ s) cutset = cons_unless (one_of cutset c) c (trim_right s cutset)

-- `strings.Trim(s, cutset)`
unfoldable pub trim : Str → Str → Str
unfolding trim_left trim_right
trim s cutset = trim_right (trim_left s cutset) cutset

-- `strings.TrimSpace(s)`
unfoldable pub trim_space : Str → Str
unfolding trim
trim_space s = trim s (b' ' ∷ 9 ∷ 10 ∷ 11 ∷ 12 ∷ 13 ∷ [])

-- One more byte in front of a path that is split into directory and file.
abbrev pub extend_path : ℕ → Str → Str → Str × Str
extend_path c [] file = if eqb c slash then (c ∷ [], file) else ([], c ∷ file)
extend_path c (d ∷ dir) file = (c ∷ d ∷ dir, file)

-- `filepath.Split(path)`: the directory ends with the last slash of the path.
unfoldable pub split_path : Str → Str × Str
split_path [] = ([], [])
split_path (c ∷ s) = let (dir, file) = split_path s in extend_path c dir file

digits : ℕ → ℕ → Str
digits zero n = []
digits (suc fuel) n =
    let more = digits fuel (n / 10) in (if ltb n 10 then [] else more) ++ ((b'0' + n % 10) ∷ [])

-- `fmt.Sprintf("%d", n)`. A number `n` has at most `n + 1` digits.
unfoldable pub decimal : ℕ → Str
unfolding digits
decimal n = digits (suc n) n
