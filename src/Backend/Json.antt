-- ===== src/Backend/Json.antt =====
-- JSON values, over the numbers of the language.
use easyclaw.Base.{
  Bool, true, false, ◌∷◌, ◌++◌, [], text, Option, none, some, if◌then◌else◌, Text, text_eq,
}
use easyclaw.Numbers.{Numbers}

mutual
  pub data Json (N : Type 0) : Type 0 where
    null : Json N
    bool : Bool → Json N
    num : N → Json N
    str : Text → Json N
    arr : Items N → Json N
    obj : Fields N → Json N

  pub data Items (N : Type 0) : Type 0 where
    nil : Items N
    cons : Json N → Items N → Items N

  pub data Fields (N : Type 0) : Type 0 where
    end : Fields N
    field : Text → Json N → Fields N → Fields N

module _ {N : Type 0} where
  unfoldable pub get_field : Text → Fields N → Option (Json N)
  get_field k end = none
  get_field k (field j v fs) = if text_eq j k then some v else get_field k fs

  -- `typeof value === "string"`
  abbrev pub as_text : Option (Json N) → Option Text
  as_text (some (str s)) = some s
  as_text _ = none

module _ (n : Numbers) where
  open n use {Num, show}

  -- `String(value)` of a parsed value; in an array, null stands for nothing.
  unfoldable mutual
    pub string_of : Json Num → Text
    string_of null = text "null"
    string_of (bool true) = text "true"
    string_of (bool false) = text "false"
    string_of (num v) = show v
    string_of (str s) = s
    string_of (arr items) = string_of_items items
    string_of (obj fs) = text "[object Object]"

    pub string_of_items : Items Num → Text
    string_of_items nil = []
    string_of_items (cons null nil) = []
    string_of_items (cons v nil) = string_of v
    string_of_items (cons null (cons w vs)) = b',' ∷ string_of_items (cons w vs)
    string_of_items (cons v (cons w vs)) = string_of v ++ b',' ∷ string_of_items (cons w vs)
