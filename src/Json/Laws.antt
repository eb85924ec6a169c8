-- ===== src/Json/Laws.antt =====
-- A struct that embeds another stores the keys of the other in it.
use jettison_controller.Common.{◌≡◌, inl, inr, Option, some, Option-cases}
use jettison_controller.Text.{Str}
use jettison_controller.Json.{
  Json, null, bool, number, string, array, object, Fields, end, field, store_fields, into_struct,
}

module _ {S B : Type 0} (store : Str → Json → S → Option S)
    (store_outer : Str → Json → B → Option B) (inner : B → S)
    (sim : (key : Str) (j : Json) (b b' : B)
      → store_outer key j b ≡ some b'
      → store key j (inner b) ≡ some (inner b')) where
  store_fields-inner :
      (fields : Fields) (b b' : B)
      → store_fields store_outer fields b ≡ some b'
      → store_fields store fields (inner b) ≡ some (inner b')
  unfolding store_fields
  store_fields-inner end b b' h = cc
  store_fields-inner (field key j fields) b b' h = elim (Option-cases (store_outer key j b)) [
    | inl e ↦ cc
    | inr (m, e) ↦
        rw (sim key j b m e, store_fields)
          (store_fields-inner fields m b' (rw (e, store_fields) at h))
  ]

  -- If the outer struct is read, so is the inner one, and it is that of the outer.
  pub into_struct-inner :
      (j : Json) (b b' : B)
      → into_struct store_outer j b ≡ some b'
      → into_struct store j (inner b) ≡ some (inner b')
  unfolding into_struct
  into_struct-inner (object fields) b b' h = store_fields-inner fields b b' h
  into_struct-inner null b b' h = cc
  into_struct-inner (bool _) b b' h = cc
  into_struct-inner (number _) b b' h = cc
  into_struct-inner (string _) b b' h = cc
  into_struct-inner (array _) b b' h = cc
