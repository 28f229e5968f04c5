-- ===== src/Codex/Fields.antt =====
-- The readers of internal/codex/parser.go for one value of a decoded document.
use shipmunk_runner.Prelude.{
  ℕ, ◌==◌, leb, length, Bool, true, false, not, ◌&&◌, ◌||◌, Bytes, bytes_eq, Option, none, some,
  List, [], ◌∷◌, ℤ, pos, negsuc, parse_int, if◌then◌else◌,
}
use shipmunk_runner.Json.{Value, Fields, str, number, obj, arr, null, field_count, has_key, members}
use shipmunk_runner.Mediation.Requests.{max_safe_integer}

abbrev pub within_bytes : ℕ → Bytes → Option Bytes
within_bytes limit s = if not (length s == 0) && leb (length s) limit then some s else none

-- `boundedString`: a string that is not empty and has no more bytes than the limit.
unfoldable pub bounded_string : ℕ → Option Value → Option Bytes
bounded_string limit (some (str s)) = within_bytes limit s
bounded_string limit _ = none

abbrev pub object_of : Option Value → Option Fields
object_of (some (obj fs)) = some fs
object_of _ = none

abbrev pub array_of : Option Value → Option (List Value)
array_of (some (arr vs)) = some (members vs)
array_of _ = none

abbrev pub string_of : Option Value → Option Bytes
string_of (some (str s)) = some s
string_of _ = none

unfoldable pub one_of : Bytes → List Bytes → Bool
unfolding bytes_eq
one_of s [] = false
one_of s (o ∷ os) = bytes_eq s o || one_of s os

unfoldable pub has_keys : List Bytes → Fields → Bool
unfolding has_key
has_keys [] fs = true
has_keys (k ∷ ks) fs = has_key k fs && has_keys ks fs

abbrev pub exact_fields : List Bytes → Option Fields → Option Fields
exact_fields ks none = none
exact_fields ks (some fs) = if field_count fs == length ks && has_keys ks fs then some fs else none

-- `exactObject`: an object with these keys and no other.
unfoldable pub exact_object : List Bytes → Option Value → Option Fields
unfolding has_keys
exact_object ks v = exact_fields ks (object_of v)

abbrev pub safe_natural : Option ℤ → Option ℕ
safe_natural none = none
safe_natural (some (negsuc _)) = none
safe_natural (some (pos n)) = if leb n max_safe_integer then some n else none

-- `nonnegativeInteger`, and `positiveInteger`.
unfoldable pub nonnegative_integer : Option Value → Option ℕ
unfolding parse_int
nonnegative_integer (some (number s)) = safe_natural (parse_int s)
nonnegative_integer _ = none

abbrev pub above_zero : Option ℕ → Option ℕ
above_zero none = none
above_zero (some n) = if leb 1 n then some n else none

unfoldable pub positive_number : Option Value → Option ℕ
unfolding nonnegative_integer
positive_number v = above_zero (nonnegative_integer v)

abbrev pub given_integer : Option ℕ → Option (Option ℕ)
given_integer none = none
given_integer (some n) = some (some n)

-- `nullableNonnegativeInteger`; a key that is missing reads as nil.
unfoldable pub nullable_integer : Option Value → Option (Option ℕ)
unfolding nonnegative_integer
nullable_integer none = some none
nullable_integer (some null) = some none
nullable_integer v = given_integer (nonnegative_integer v)
