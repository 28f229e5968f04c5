-- ===== src/Mediation/Answers.antt =====
-- The answers of `Handle` in internal/codex/mediation.go and their size.
use shipmunk_runner.Prelude.{
  ℕ, ◌+◌, ◌≤◌, ◌≡◌, refl, leb, ◌==◌, length, length-append, Bool, true, false, Bytes, Option, none,
  some, [], Result, ok, err, ℤ, negsuc, parse_int, ◌&&◌, arith, inl, inr, Bool-cases, pos, codes,
  format_int, format_int-length,
}
use shipmunk_runner.Json.{field_count, Value, Fields, null, bool, number, str, arr, obj, get}
use shipmunk_runner.Mediation.Requests.{
  Refusal, CommandRequest, CommandResponse, Mediator, Session, Frame, max_safe_integer,
  max_response_bytes, max_request_bytes, safe_number, safe_integer, request_of, request_in_fields,
  decode_command_request, is_command, is_valid_result, bad_schema, bad_fence, bad_sequence,
  sealed_snapshot, context_done, budget_exhausted, execution_failed, bad_result, bad_response,
  bad_configuration, CommandResult,
}
use shipmunk_runner.Mediation.Encoding.{encode_response, encode_string, key, assembled}
use shipmunk_runner.Mediation.Handle.{
  refusal_of, serve, unless, handle_decoded, request_in, handle, exhausted, oversized, response_of,
  fits, framed, answer_of,
}

assembled-length :
    (a b c d e : Bytes)
    → length (assembled a b c d e)
      ≡ 49 + (length a + (length b + (length c + (length d + length e))))
unfolding assembled key
assembled-length a b c d e = simp length-append (omega arith)

-- A response with at most so many bytes in its output and exit code fits, whatever its numbers.
abbrev IsSmall : CommandRequest → Type 0
IsSmall r = (r.fence ≤ max_safe_integer) × (r.id ≤ max_safe_integer)

number-length : (n : ℕ) → n ≤ max_safe_integer → length (format_int (pos n)) ≤ 16
number-length n h = format_int-length 15 n (omega (arith, h))

encode_response_lem :
    (r : CommandResponse)
    → encode_response r
      ≡ assembled
          (format_int (pos r.fence))
          (format_int (pos r.id))
          (encode_string r.stdout)
          (encode_string r.stderr)
          (format_int r.exit_code)
unfolding encode_response
encode_response_lem r = refl

encode_response-length :
    (r : CommandResponse) (n : ℕ)
    → r.fence ≤ max_safe_integer
    → r.id ≤ max_safe_integer
    → length (encode_string r.stdout)
        + length (encode_string r.stderr)
        + length (format_int r.exit_code)
      ≤ n
    → length (encode_response r) ≤ 81 + n
encode_response-length r n f i small =
    let e =
      assembled-length (format_int (pos r.fence)) (format_int (pos r.id)) (encode_string r.stdout)
        (encode_string r.stderr) (format_int r.exit_code) in
    rw (encode_response_lem r)
      (omega (arith, e, small, number-length r.fence f, number-length r.id i))

one_digit : length (format_int (pos 1)) ≡ 1
unfolding format_int
one_digit = refl

empty_text : length (encode_string []) ≡ 2
unfolding encode_string
empty_text = refl

exhausted_text :
    length (
      encode_string
        (codes "repository command budget exhausted; finish with the work already done"))
    ≡ 72
unfolding encode_string
exhausted_text = refl

exhausted-length :
    (r : CommandRequest) → IsSmall r → length (encode_response (exhausted r)) ≤ max_response_bytes
exhausted-length r h =
    let e =
      encode_response-length (exhausted r) 100 h.0 h.1
        (omega (arith, one_digit, empty_text, exhausted_text)) in
    omega (arith, e)

oversized_text :
    length (encode_string (codes "Repository command response exceeds its frame limit.")) ≡ 54
unfolding encode_string
oversized_text = refl

oversized-length :
    (r : CommandRequest) → IsSmall r → length (encode_response (oversized r)) ≤ max_response_bytes
oversized-length r h =
    let e =
      encode_response-length (oversized r) 100 h.0 h.1
        (omega (arith, one_digit, empty_text, oversized_text)) in
    omega (arith, e)

-- Neither error can be the last word: `bad_response` and `budget_exhausted`.
abbrev pub CanFail : Refusal → Type 0
CanFail bad_response = ⊥
CanFail budget_exhausted = ⊥
CanFail _ = Unit

abbrev pub IsAnswer : Result Refusal Bytes → Type 0
IsAnswer (ok s) = length s ≤ max_response_bytes
IsAnswer (err e) = CanFail e

framed-IsAnswer :
    (r : CommandResponse) (o : Result Refusal Bytes) → IsAnswer o → IsAnswer (framed r o)
unfolding framed
framed-IsAnswer r o h = elim (Bool-cases (fits (encode_response r))) [
  | inl e ↦ rw e (ground arith)
  | inr e ↦ rw e h
]

framed_small :
    (r : CommandResponse) (o : Result Refusal Bytes)
    → length (encode_response r) ≤ max_response_bytes
    → IsAnswer (framed r o)
unfolding framed
framed_small r o h = let e : fits (encode_response r) ≡ true = ground arith in rw e h

answer_of-IsAnswer :
    (r : CommandRequest) (done : Bool) (a : Result Refusal CommandResult)
    → IsSmall r
    → IsAnswer (answer_of r done a)
unfolding answer_of
answer_of-IsAnswer r true (err e) h = tt
answer_of-IsAnswer r false (err e) h = tt
answer_of-IsAnswer r done (ok c) h = elim (Bool-cases (is_valid_result c)) [
  | inl e ↦
      rw e
        (framed-IsAnswer (response_of r c) _ (framed_small (oversized r) _ (oversized-length r h)))
  | inr e ↦ rw e tt
]

serve-IsAnswer :
    (r : CommandRequest) (f : Frame) (s : Session) → IsSmall r → IsAnswer (serve r f s).0
unfolding serve
serve-IsAnswer r f s h = elim (Bool-cases (s.mediator.remaining == 0)) [
  | inl e ↦ rw e (framed_small (exhausted r) _ (exhausted-length r h))
  | inr e ↦ rw e (answer_of-IsAnswer r f.done_after f.answer h)
]

refusal_of-CanFail :
    (e : Refusal) (r : CommandRequest) (m : Mediator) (done : Bool)
    → refusal_of r m done ≡ some e
    → CanFail e
unfolding refusal_of
refusal_of-CanFail bad_response r m done h = absurd (ground arith)
refusal_of-CanFail budget_exhausted r m done h = absurd (ground arith)
refusal_of-CanFail bad_schema r m done h = tt
refusal_of-CanFail bad_fence r m done h = tt
refusal_of-CanFail bad_sequence r m done h = tt
refusal_of-CanFail sealed_snapshot r m done h = tt
refusal_of-CanFail context_done r m done h = tt
refusal_of-CanFail execution_failed r m done h = tt
refusal_of-CanFail bad_result r m done h = tt
refusal_of-CanFail bad_configuration r m done h = tt

unless-IsAnswer :
    (o : Option Refusal) (r : CommandRequest) (f : Frame) (s : Session)
    → refusal_of r s.mediator f.done_before ≡ o
    → IsSmall r
    → IsAnswer (unless o r f s).0
unfolding unless
unless-IsAnswer none r f s h small = serve-IsAnswer r f s small
unless-IsAnswer (some e) r f s h small = refusal_of-CanFail e r s.mediator f.done_before h

-- What the two numbers of a decoded request are.
abbrev AllSmall : Option CommandRequest → Type 0
AllSmall none = Unit
AllSmall (some r) = IsSmall r

abbrev Safe : Option ℕ → Type 0
Safe none = Unit
Safe (some n) = n ≤ max_safe_integer

safe_number-Safe : (n : Option ℤ) → Safe (safe_number n)
unfolding safe_number
safe_number-Safe none = tt
safe_number-Safe (some (negsuc n)) = tt
safe_number-Safe (some (pos n)) = elim (Bool-cases (leb 1 n && leb n max_safe_integer)) [
  | inl e ↦ rw e (ground arith)
  | inr e ↦ rw e tt
]

safe_integer-Safe : (v : Option Value) → Safe (safe_integer v)
unfolding safe_integer
safe_integer-Safe none = tt
safe_integer-Safe (some (number s)) = safe_number-Safe (parse_int s)
safe_integer-Safe (some null) = tt
safe_integer-Safe (some (bool b)) = tt
safe_integer-Safe (some (str s)) = tt
safe_integer-Safe (some (arr s)) = tt
safe_integer-Safe (some (obj s)) = tt

request_of-AllSmall :
    (f i : Option ℕ) (v : Option Value) → Safe f → Safe i → AllSmall (request_of f i v)
request_of-AllSmall (some f) (some i) (some (str s)) hf hi = elim (Bool-cases (is_command s)) [
  | inl e ↦ rw e (hf, hi)
  | inr e ↦ rw e tt
]
request_of-AllSmall (some f) (some i) (some null) hf hi = tt
request_of-AllSmall (some f) (some i) (some (bool b)) hf hi = tt
request_of-AllSmall (some f) (some i) (some (number b)) hf hi = tt
request_of-AllSmall (some f) (some i) (some (arr b)) hf hi = tt
request_of-AllSmall (some f) (some i) (some (obj b)) hf hi = tt
request_of-AllSmall (some f) (some i) none hf hi = tt
request_of-AllSmall (some f) none v hf hi = tt
request_of-AllSmall none i v hf hi = tt

request_in_fields-AllSmall : (fs : Fields) → AllSmall (request_in_fields fs)
request_in_fields-AllSmall fs = elim (Bool-cases (field_count fs == 3)) [
  | inl e ↦ rw e (
      request_of-AllSmall (safe_integer (get (codes "fence") fs))
        (safe_integer (get (codes "id") fs)) (get (codes "command") fs)
        (safe_integer-Safe (get (codes "fence") fs)) (safe_integer-Safe (get (codes "id") fs)))
  | inr e ↦ rw e tt
]

decode-AllSmall : (v : Option Value) → AllSmall (decode_command_request v)
unfolding decode_command_request
decode-AllSmall none = tt
decode-AllSmall (some (obj fs)) = request_in_fields-AllSmall fs
decode-AllSmall (some null) = tt
decode-AllSmall (some (bool b)) = tt
decode-AllSmall (some (number b)) = tt
decode-AllSmall (some (str b)) = tt
decode-AllSmall (some (arr b)) = tt

handle_decoded-IsAnswer :
    (o : Option CommandRequest) (f : Frame) (s : Session)
    → AllSmall o
    → IsAnswer (handle_decoded o f s).0
unfolding handle_decoded
handle_decoded-IsAnswer none f s h = tt
handle_decoded-IsAnswer (some r) f s h =
    unless-IsAnswer (refusal_of r s.mediator f.done_before) r f s refl h

-- Each answer of the mediator fits its frame, and no request fails for want of one that does: the
-- texts for an exhausted budget and for an oversized output always fit.
pub handle-IsAnswer :
    (decode : Bytes → ℕ → Option Value) (f : Frame) (s : Session) → IsAnswer (handle decode f s).0
unfolding handle request_in
handle-IsAnswer decode f s =
    handle_decoded-IsAnswer (request_in decode f) f s
      (decode-AllSmall (decode f.raw max_request_bytes))
