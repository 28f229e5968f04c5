-- ===== src/Json.antt =====
-- Decoded JSON documents, as internal/protocol hands them on: `any` with `json.Number` kept as text.
-- An object is an association list: `map[string]any` has one value for each key.
pub mod Lookup
use shipmunk_runner.Prelude.{
  ℕ, ◌+◌, List, [], ◌∷◌, is_some, Bool, Bytes, Option, none, some, bytes_eq, if◌then◌else◌,
}

mutual
  pub data Value : Type 0 where
    null : Value
    bool : Bool → Value
    number : Bytes → Value
    str : Bytes → Value
    arr : Values → Value
    obj : Fields → Value

  pub data Values : Type 0 where
    nil : Values
    cons : Value → Values → Values

  pub data Fields : Type 0 where
    end : Fields
    field : Bytes → Value → Fields → Fields

-- `value, exists := object[key]`
unfoldable pub get : Bytes → Fields → Option Value
get k end = none
get k (field j v fs) = if bytes_eq j k then some v else get k fs

-- `object[key].(string)`
unfoldable pub get_string : Bytes → Fields → Option Bytes
unfolding get
get_string k fs = elim (get k fs) [ some (str s) ↦ some s | _ ↦ none ]

-- `object[key] = value`, which keeps one value for the key.
unfoldable pub put : Bytes → Value → Fields → Fields
put k v end = field k v end
put k v (field j u fs) =
    let rest = put k v fs in if bytes_eq j k then field k v fs else field j u rest

-- `delete(object, key)`.
unfoldable pub delete : Bytes → Fields → Fields
delete k end = end
delete k (field j v fs) = let rest = delete k fs in if bytes_eq j k then rest else field j v rest

-- `len(object)`.
abbrev pub field_count : Fields → ℕ
field_count end = 0
field_count (field _ _ fs) = field_count fs + 1

-- `_, exists := object[key]`.
unfoldable pub has_key : Bytes → Fields → Bool
unfolding get
has_key k fs = is_some (get k fs)

-- The members of an array.
abbrev pub members : Values → List Value
members nil = []
members (cons v vs) = v ∷ members vs
