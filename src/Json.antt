-- ===== src/Json.antt =====
-- The JSON values that job payloads, pending states and messages hold (`json.loads`), and `dict` of one. `NaN` and
-- `Infinity`, which are no JSON, are left out.
use nyra.Base.{
  ℕ, zero, suc, String, Bool, true, false, Option, none, some, ◌==◌, is_empty, if◌then◌else◌,
}

mutual
  -- `negative n` is the number -(n + 1). `decimal minus digits scale` is a float with the value digits / 10 ^ scale, less
  -- than zero where `minus` is true.
  pub data Json : Type 0 where
    null : Json
    boolean : Bool → Json
    number : ℕ → Json
    negative : ℕ → Json
    decimal : Bool → ℕ → ℕ → Json
    text : String → Json
    array : Items → Json
    object : Fields → Json

  pub data Items : Type 0 where
    empty : Items
    item : Json → Items → Items

  pub data Fields : Type 0 where
    end : Fields
    field : String → Json → Fields → Fields

-- `payload.get(name)`; `payload[name]` raises `KeyError` where this is `none`
abbrev pub get_field : String → Fields → Option Json
get_field name end = none
get_field name (field other value rest) =
    let found = get_field name rest in if other == name then some value else found

-- `fields[name] = value`: the place of a name that is there stays
unfoldable pub put_field : String → Json → Fields → Fields
put_field name value end = field name value end
put_field name value (field other old rest) =
    let later = put_field name value rest in
    if other == name then field other value rest else field other old later

-- One entry of `dict` of a list
pub record KeyValue : Type 0 where
  pub name : String
  pub value : Json

abbrev only_two : Option String → Items → Option KeyValue
only_two (some key) (item value empty) = some (record { name = key; value = value })
only_two _ _ = none

abbrev two_characters : String → Option KeyValue
two_characters String.[] = none
two_characters (String.◌∷◌ c rest) = elim rest [
  | String.[] ↦ none
  | String.◌∷◌ d more ↦
      if is_empty more
      then some (record { name = String.◌∷◌ c String.[]; value = text (String.◌∷◌ d String.[]) })
      else none
]

module _ (render : Json → String) where
  -- A key of a dictionary: lists and dictionaries are not hashable. A key that is no text stands as its `str`.
  abbrev pub key_of : Json → Option String
  key_of (text s) = some s
  key_of (array items) = none
  key_of (object fields) = none
  key_of other = some (render other)

  -- What stands for a key and a value in `dict` of a list: a list or a text of two, or a dictionary of two, whose keys
  -- they are. `none` where it raises `TypeError` or `ValueError`.
  unfoldable pub entry_of : Json → Option KeyValue
  entry_of (array (item key rest)) = only_two (key_of key) rest
  entry_of (text s) = two_characters s
  entry_of (object (field first value (field second other end))) =
      some (record { name = first; value = text second })
  entry_of _ = none

  unfoldable pub dict_of_items : Fields → Items → Option Fields
  dict_of_items fields empty = some fields
  dict_of_items fields (item value rest) = elim (entry_of value) [
    | none ↦ none
    | some entry ↦ dict_of_items (put_field entry.name entry.value fields) rest
  ]

  -- `dict(value or {})`: `none` where it raises `TypeError` or `ValueError`
  unfoldable pub dict_or_empty : Json → Option Fields
  dict_or_empty null = some end
  dict_or_empty (boolean false) = some end
  dict_or_empty (boolean true) = none
  dict_or_empty (number zero) = some end
  dict_or_empty (number (suc n)) = none
  dict_or_empty (negative n) = none
  dict_or_empty (decimal minus zero scale) = some end
  dict_or_empty (decimal minus (suc n) scale) = none
  dict_or_empty (text s) = if is_empty s then some end else none
  dict_or_empty (array items) = dict_of_items end items
  dict_or_empty (object fields) = some fields
