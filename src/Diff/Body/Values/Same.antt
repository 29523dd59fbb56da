-- ===== src/Diff/Body/Values/Same.antt =====
-- When two decoded JSON values are the same: an independent description, with objects as maps.
use graybox_core.Diff.Number.{json_numbers_equal}
use graybox_core.Json.Codec.{Codec}
use graybox_core.Json.{
  Json, null, boolean, number, string, array, object, Items, nil, cons, Fields, get_field,
}
use graybox_core.Prelude.{◌≡◌, Bool, true, Option, none, some}
use graybox_core.Text.{Str}

mutual
  pub data SameJson (json : Codec) : Json → Json → Type 0 where
    same_null : SameJson json null null
    same_boolean : {a b : Bool} → a ≡ b → SameJson json (boolean a) (boolean b)
    same_number :
        {a b : Str} → json_numbers_equal json a b ≡ true → SameJson json (number a) (number b)
    same_string : {a b : Str} → a ≡ b → SameJson json (string a) (string b)
    same_array : {vs ws : Items} → SameItems json vs ws → SameJson json (array vs) (array ws)
    same_object :
        {fs gs : Fields}
        → ((key : Str) → SameEntry json (get_field key fs) (get_field key gs))
        → SameJson json (object fs) (object gs)

  pub data SameItems (json : Codec) : Items → Items → Type 0 where
    same_nil : SameItems json nil nil
    same_cons :
        {v w : Json} {vs ws : Items}
        → SameJson json v w
        → SameItems json vs ws
        → SameItems json (cons v vs) (cons w ws)

  pub data SameEntry (json : Codec) : Option Json → Option Json → Type 0 where
    both_absent : SameEntry json none none
    both_present : {v w : Json} → SameJson json v w → SameEntry json (some v) (some w)
