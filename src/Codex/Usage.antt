-- ===== src/Codex/Usage.antt =====
-- `parseUsage` of internal/codex/parser.go.
use shipmunk_runner.Prelude.{ℕ, Bool, true, codes, Option, none, some, ◌>>=◌, require, is_some}
use shipmunk_runner.Json.{Value, Fields, obj, null, get}
use shipmunk_runner.Codex.Fields.{nullable_integer, nonnegative_integer}

pub record Usage : Type 0 where
  pub input_tokens : Option ℕ
  pub cached_input_tokens : Option ℕ
  pub output_tokens : Option ℕ

-- A count that is checked where it is there, and dropped.
abbrev pub counted_value : Option Value → Bool
counted_value none = true
counted_value (some v) = is_some (nonnegative_integer (some v))

abbrev pub usage_of : Fields → Option Usage
usage_of fs = nullable_integer (get (codes "input_tokens") fs) >>= λ input.
    nullable_integer (get (codes "output_tokens") fs) >>= λ output.
    nullable_integer (get (codes "cached_input_tokens") fs) >>= λ cached.
    require (counted_value (get (codes "reasoning_output_tokens") fs)) >>= λ _.
    require (counted_value (get (codes "cache_write_input_tokens") fs)) >>= λ _.
    some (record { input_tokens = input; cached_input_tokens = cached; output_tokens = output })

abbrev pub given_usage : Option Usage → Option (Option Usage)
given_usage none = none
given_usage (some u) = some (some u)

-- `none` is the malformed output.
unfoldable pub parse_usage : Option Value → Option (Option Usage)
unfolding nullable_integer nonnegative_integer get
parse_usage none = some none
parse_usage (some null) = some none
parse_usage (some (obj fs)) = given_usage (usage_of fs)
parse_usage _ = none
