-- ===== src/Prelude/Json.antt =====
-- The values of `serde_json`, and the accessors that the program calls. Parsing is a parameter where
-- it is used.
use open_jax.Prelude.{ℕ, String, Bool, Option, none, some, str_eq, if◌then◌else◌}
use open_jax.Prelude.Texts.{Text}

mutual
  pub data Json : Type 0 where
    null : Json
    bool : Bool → Json
    number : ℕ → Json
    string : Text → Json
    array : Items → Json
    object : Fields → Json

  pub data Items : Type 0 where
    no_items : Items
    item : Json → Items → Items

  pub data Fields : Type 0 where
    no_fields : Fields
    field : String → Json → Fields → Fields

abbrev pub get_field : String → Fields → Option Json
get_field key no_fields = none
get_field key (field k value fields) = if str_eq k key then some value else get_field key fields

-- `Value::get` with a text
abbrev pub get : String → Json → Option Json
get key (object fields) = get_field key fields
get key null = none
get key (bool b) = none
get key (number n) = none
get key (string s) = none
get key (array items) = none

-- `Value::as_bool`
abbrev pub as_bool : Json → Option Bool
as_bool (bool b) = some b
as_bool _ = none

-- `Value::as_str`
abbrev pub as_str : Json → Option Text
as_str (string s) = some s
as_str _ = none
