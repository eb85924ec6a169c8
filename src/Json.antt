-- ===== src/Json.antt =====
-- JSON values, and how `json.Unmarshal` stores them in the fields of a Go struct. The text of a
-- message is taken as parsed: a `RawMessage` is a value.
pub mod Laws
use jettison_controller.Common.{Bool, List, [], ◌∷◌, Option, none, some, if◌then◌else◌}
use jettison_controller.Text.{Str, ◌==◌, to_lower}

mutual
  pub data Json : Type 0 where
    null : Json
    bool : Bool → Json
    -- The digits of a number.
    number : Str → Json
    string : Str → Json
    array : Items → Json
    object : Fields → Json

  pub data Items : Type 0 where
    nil : Items
    cons : Json → Items → Items

  pub data Fields : Type 0 where
    end : Fields
    field : Str → Json → Fields → Fields

-- Keys are compared without regard to case.
abbrev pub is_key : Str → Str → Bool
is_key name key = to_lower key == to_lower name

-- Into a `string`: null leaves the field as it is, and another type is an error.
abbrev pub into_string : Json → Str → Option Str
into_string (string s) old = some s
into_string null old = some old
into_string _ old = none

-- Into a `*string`: null stores nil.
abbrev pub into_pointer : Json → Option (Option Str)
into_pointer (string s) = some (some s)
into_pointer null = some none
into_pointer _ = none

-- Into a `*bool`.
abbrev pub into_flag : Json → Option (Option Bool)
into_flag (bool b) = some (some b)
into_flag null = some none
into_flag _ = none

module _ {A : Type 0} (element : Json → Option A) where
  -- The elements of an array; one that does not fit makes the whole an error.
  unfoldable pub into_elements : Items → Option (List A)
  into_elements nil = some []
  into_elements (cons j js) = elim (element j) [
    | none ↦ none
    | some a ↦ elim (into_elements js) [ none ↦ none | some rest ↦ some (a ∷ rest) ]
  ]

  -- Into a slice: null stores nil, which is `none`.
  abbrev pub into_slice : Json → Option (Option (List A))
  into_slice (array js) = elim (into_elements js) [
    | none ↦ none
    | some elements ↦ some (some elements)
  ]
  into_slice null = some none
  into_slice _ = none

-- Into a struct. `store` puts the value of one key in its field, and leaves the struct as it is at
-- a key that is no field. The keys are stored in the order of the text, so a later one wins.
module _ {S : Type 0} (store : Str → Json → S → Option S) where
  pub store_fields : Fields → S → Option S
  store_fields end s = some s
  store_fields (field key value fields) s = elim (store key value s) [
    | none ↦ none
    | some s' ↦ store_fields fields s'
  ]

  unfoldable pub into_struct : Json → S → Option S
  unfolding store_fields
  into_struct (object fields) s = store_fields fields s
  into_struct null s = some s
  into_struct _ s = none
