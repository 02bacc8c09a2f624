-- ===== src/Schemas/Value.antt =====
-- The values of `dict[str, Any]`: those of JSON, the bytes of a message's buffers, and the time that
-- jupyter_client puts into the header of a message.
use executor_service.Common.{
  ℕ, Bool, true, false, String, List, [], ◌∷◌, Option, none, some, str_eq, if◌then◌else◌, ◌==◌, not,
  ◌||◌,
}

-- `negsuc n` is -(n + 1).
pub data ℤ : Type 0 where
  pos : ℕ → ℤ
  negsuc : ℕ → ℤ

-- A `float` is given by its 64-bit pattern. A dictionary has each key once.
mutual
  pub data Value : Type 0 where
    none_value : Value
    bool_value : Bool → Value
    int_value : ℤ → Value
    float_value : ℕ → Value
    str_value : String → Value
    list_value : Values → Value
    dict_value : Fields → Value
    bytes_value : List ℕ → Value
    -- a `datetime`, by what `str` gives of it
    datetime_value : String → Value

  pub data Values : Type 0 where
    nil : Values
    cons : Value → Values → Values

  pub data Fields : Type 0 where
    empty : Fields
    field : String → Value → Fields → Fields

-- `fields.get(key)`; `None` stands for a key that is missing as well as for a stored `None`.
unfoldable pub get_value : String → Fields → Value
get_value key empty = none_value
get_value key (field k v fields) = if str_eq k key then v else get_value key fields

-- The value of a key, if it is there.
unfoldable pub find : String → Fields → Option Value
find key empty = none
find key (field k v fields) = if str_eq k key then some v else find key fields

-- `fields.get(key, default)`
unfoldable pub get_or : String → Value → Fields → Value
get_or key default empty = default
get_or key default (field k v fields) = if str_eq k key then v else get_or key default fields

-- The members of a list value.
abbrev pub members : Values → List Value
members nil = []
members (cons v vs) = v ∷ members vs

abbrev pub values : List Value → Values
values [] = nil
values (v ∷ vs) = cons v (values vs)

-- `isinstance(value, dict)`
abbrev pub as_fields : Value → Option Fields
as_fields (dict_value fields) = some fields
as_fields _ = none

-- `isinstance(value, list)`
abbrev pub as_list : Value → Option (List Value)
as_list (list_value vs) = some (members vs)
as_list _ = none

-- `isinstance(value, int)`, which a `bool` is too.
abbrev pub as_int : Value → Option ℤ
as_int (int_value n) = some n
as_int (bool_value b) = some (if b then pos 1 else pos 0)
as_int _ = none

abbrev pub is_nonzero : ℤ → Bool
is_nonzero (pos n) = not (n == 0)
is_nonzero (negsuc n) = true

-- `bool(value)`; the two zeros among the floats are false.
abbrev pub is_true : Value → Bool
is_true none_value = false
is_true (bool_value b) = b
is_true (int_value n) = is_nonzero n
is_true (float_value pattern) = not (pattern == 0 || pattern == 0x8000_0000_0000_0000)
is_true (str_value s) = not (str_eq s "")
is_true (list_value nil) = false
is_true (list_value (cons v vs)) = true
is_true (dict_value empty) = false
is_true (dict_value (field k v fields)) = true
is_true (bytes_value []) = false
is_true (bytes_value (b ∷ bs)) = true
is_true (datetime_value _) = true

-- `value == text`
abbrev pub is_text : Value → String → Bool
is_text (str_value s) text = str_eq s text
is_text _ text = false
