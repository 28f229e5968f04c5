-- ===== src/Mediation/Requests.antt =====
-- The requests of internal/codex/mediation.go and `decodeCommandRequest`.
use shipmunk_runner.Prelude.{
  ℕ, ◌+◌, ltb, leb, ◌==◌, length, Bool, true, false, not, ◌&&◌, ◌||◌, Bytes, codes, Option, none,
  some, List, [], ◌∷◌, Result, ok, err, ℤ, pos, negsuc, parse_int, valid_utf8, if◌then◌else◌,
}
use shipmunk_runner.Json.{field_count, Value, Fields, number, str, obj, get}

abbrev pub max_safe_integer : ℕ
max_safe_integer = 9_007_199_254_740_991

abbrev pub max_request_bytes : ℕ
max_request_bytes = 65_536

abbrev pub max_command_bytes : ℕ
max_command_bytes = 8_192

abbrev pub max_response_bytes : ℕ
max_response_bytes = 65_536

abbrev pub max_output_bytes : ℕ
max_output_bytes = 131_072

-- The errors of `Handle` by their texts.
pub data Refusal : Type 0 where
  bad_schema bad_fence bad_sequence sealed_snapshot context_done : Refusal
  budget_exhausted execution_failed bad_result bad_response bad_configuration : Refusal

pub record CommandResult : Type 0 where
  pub stdout : Bytes
  pub stderr : Bytes
  pub exit_code : ℤ

pub record CommandRequest : Type 0 where
  pub fence : ℕ
  pub id : ℕ
  pub command : Bytes

pub record CommandResponse : Type 0 where
  pub fence : ℕ
  pub id : ℕ
  pub stdout : Bytes
  pub stderr : Bytes
  pub exit_code : ℤ

-- `safeInteger`: an int64 from 1 to the largest safe integer.
unfoldable pub safe_number : Option ℤ → Option ℕ
safe_number none = none
safe_number (some (negsuc _)) = none
safe_number (some (pos n)) = if leb 1 n && leb n max_safe_integer then some n else none

unfoldable pub safe_integer : Option Value → Option ℕ
unfolding safe_number parse_int
safe_integer (some (number s)) = safe_number (parse_int s)
safe_integer _ = none

abbrev pub has_zero : Bytes → Bool
has_zero [] = false
has_zero (c ∷ s) = c == 0 || has_zero s

abbrev pub is_command : Bytes → Bool
is_command s =
    not (length s == 0) && leb (length s) max_command_bytes && not (has_zero s) && valid_utf8 s

abbrev pub request_of : Option ℕ → Option ℕ → Option Value → Option CommandRequest
request_of (some f) (some i) (some (str s)) =
    if is_command s then some (record { fence = f; id = i; command = s }) else none
request_of _ _ _ = none

abbrev pub request_in_fields : Fields → Option CommandRequest
request_in_fields fs =
    if field_count fs == 3
    then request_of (safe_integer (get (codes "fence") fs)) (safe_integer (get (codes "id") fs))
        (get (codes "command") fs)
    else none

-- `decodeCommandRequest` after the JSON decoder, which rejects a key that comes twice.
unfoldable pub decode_command_request : Option Value → Option CommandRequest
unfolding safe_integer get
decode_command_request (some (obj fs)) = request_in_fields fs
decode_command_request _ = none

pub record Mediator : Type 0 where
  pub fence : ℕ
  pub last : ℕ
  pub remaining : ℕ
  pub sealed : Bool

-- A command that was given to the executor.
pub record Command : Type 0 where
  pub fence : ℕ
  pub id : ℕ
  pub text : Bytes

-- The mediator, and the commands that were executed so far, the newest first.
pub record Session : Type 0 where
  pub mediator : Mediator
  pub executed : List Command

-- One call of `Handle`: the frame, whether its context was done before and after the execution, and
-- the executor's answer, should it be asked.
pub record Frame : Type 0 where
  pub raw : Bytes
  pub done_before : Bool
  pub done_after : Bool
  pub answer : Result Refusal CommandResult

unfoldable pub new_mediator : ℤ → ℤ → Bool → Result Refusal Mediator
new_mediator (pos f) (pos n) has_executor =
    if ltb f 1 || ltb max_safe_integer f || ltb n 1 || not has_executor
    then err bad_configuration
    else ok (record { fence = f; last = 0; remaining = n; sealed = false })
new_mediator _ _ _ = err bad_configuration

unfoldable pub seal : Session → Session
seal s = record s { mediator = record s.mediator { sealed = true } }

abbrev pub is_exit_code : ℤ → Bool
is_exit_code (pos n) = leb n 255
is_exit_code (negsuc _) = false

-- A result that `Handle` takes: its exit code and the size and encoding of its output.
unfoldable pub is_valid_result : CommandResult → Bool
is_valid_result r =
    is_exit_code r.exit_code
    && leb (length r.stdout + length r.stderr) max_output_bytes
    && valid_utf8 r.stdout
    && valid_utf8 r.stderr
