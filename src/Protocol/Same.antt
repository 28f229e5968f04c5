-- ===== src/Protocol/Same.antt =====
-- `sameJSON` of internal/protocol/schema.go.
use shipmunk_runner.Prelude.{
  ℕ, ◌+◌, ◌==◌, Bool, true, false, not, ◌&&◌, bytes_eq, Option, none, some,
}
use shipmunk_runner.Json.{
  Value, Values, Fields, null, bool, number, str, arr, obj, nil, cons, end, field, get, field_count,
}
use shipmunk_runner.Protocol.Rational.{Rational, number_value, rational_eq}

abbrev pub same_bool : Bool → Bool → Bool
same_bool true b = b
same_bool false b = not b

abbrev pub same_rational : Option Rational → Option Rational → Bool
same_rational (some a) (some b) = rational_eq a b
same_rational _ _ = false

abbrev pub count_values : Values → ℕ
count_values nil = 0
count_values (cons _ vs) = count_values vs + 1

abbrev pub same_member : (Value → Bool) → Option Value → Bool
same_member like none = false
same_member like (some w) = like w

unfoldable mutual
  unfolding number_value bytes_eq get

  pub same_json : Value → Value → Bool
  same_json null null = true
  same_json (bool a) (bool b) = same_bool a b
  same_json (number a) (number b) =
      same_rational (number_value (some (number a))) (number_value (some (number b)))
  same_json (str a) (str b) = bytes_eq a b
  same_json (arr vs) (arr ws) = same_values vs ws
  same_json (obj fs) (obj gs) = field_count fs == field_count gs && same_fields fs gs
  same_json _ _ = false

  -- Arrays of the same length, item by item.
  pub same_values : Values → Values → Bool
  same_values nil nil = true
  same_values (cons v vs) (cons w ws) = same_json v w && same_values vs ws
  same_values _ _ = false

  -- Each field of the first has a like field in the second.
  pub same_fields : Fields → Fields → Bool
  same_fields end gs = true
  same_fields (field k v fs) gs = same_member (λ w. same_json v w) (get k gs) && same_fields fs gs
