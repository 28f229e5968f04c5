-- ===== src/Sandbox/Control/Message.antt =====
-- internal/sandbox/watchdog.go: the phase messages of `sendPhaseLocked` as `RunWatchdogCommand` reads
-- them.
use shipmunk_runner.Prelude.{
  ℕ, suc, ◌+◌, ◌/◌, ◌%◌, ◌≤◌, ◌<◌, ◌≡◌, refl, sym, ap, ◌∙◌, ltb, leb, ◌==◌, Bool, true, false, not,
  ◌&&◌, ◌||◌, Bytes, codes, some, [], ◌∷◌, ◌++◌, pos, length, length-append, decimal, format_int,
  format_int-length, digits_from, digits, digits_from-decimal, inl, inr, ◌⊎◌, arith, Bool-cases,
}
use mathlib.Core.List.{append_assoc, append-nil}
use shipmunk_runner.Journal.Valid.{all_bytes}
use shipmunk_runner.Supervisor.Lease.{
  full_container_id, legacy_container_id, all_lower_hex, is_lower_hex,
}
use shipmunk_runner.Sandbox.AllBytes.{all_bytes-append, all_bytes_weaken, all_bytes-decimal}
use shipmunk_runner.Sandbox.Input.{
  parse_uint, three_parts, cut_colon, messages_of, messages_from, max_uint64, without_return,
}
use shipmunk_runner.Sandbox.Watch.{
  is_empty, started_text, finished_text, Watch, Turn, on_message, on_numbered, on_phase,
}
use shipmunk_runner.Sandbox.Control.{phase_message}

-- A byte that neither ends a line nor, before one ends, is cut off.
abbrev pub is_plain : ℕ → Bool
is_plain c = not (c == b'\n') && not (c == b'\r')

abbrev is_inner : ℕ → Bool
is_inner c = is_plain c && not (c == b':')

inner_plain : (s : Bytes) → all_bytes is_inner s ≡ true → all_bytes is_plain s ≡ true
inner_plain = all_bytes_weaken is_inner is_plain (λ c h. ground arith)

hex_plain : (s : Bytes) → all_lower_hex s ≡ true → all_bytes is_plain s ≡ true
unfolding all_lower_hex is_lower_hex
hex_plain [] h = refl
hex_plain (c ∷ s) h =
    let here : is_plain c ≡ true = ground arith in
    let rest : all_lower_hex s ≡ true = ground arith in rw here (hex_plain s rest)

decimal_inner : (f n : ℕ) → all_bytes is_inner (decimal f n) ≡ true
decimal_inner = all_bytes-decimal is_inner (λ d h. ground arith)

-- A text that the digits of a number are: `digits` refuses only the empty one.
digits-cons :
    (s t : Bytes) (c n : ℕ) → digits_from 0 (s ++ (c ∷ t)) ≡ some n → digits (s ++ (c ∷ t)) ≡ some n
digits-cons [] t c n h = h
digits-cons (d ∷ s) t c n h = h

pub digits-format_int : (n : ℕ) → digits (format_int (pos n)) ≡ some n
unfolding format_int decimal
digits-format_int n =
    let whole = digits_from-decimal n n (omega arith) in
    elim (Bool-cases (ltb n 10)) [
      | inl e ↦ rw e (rw e at whole)
      | inr e ↦ rw e (digits-cons (decimal n (n / 10)) [] (b'0' + n % 10) n (rw e at whole))
    ]

parse_uint-format_int : (n : ℕ) → n ≤ max_uint64 → parse_uint (format_int (pos n)) ≡ some n
unfolding parse_uint
parse_uint-format_int n h =
    let fits : leb n max_uint64 ≡ true = ground arith in rw (digits-format_int n) (rw fits refl)

cut_colon-append :
    (s t : Bytes) → all_bytes is_inner s ≡ true → cut_colon (s ++ (b':' ∷ t)) ≡ some (s, t)
unfolding cut_colon
cut_colon-append [] t h = refl
cut_colon-append (c ∷ s) t h =
    let other : (c == b':') ≡ false = ground arith in
    let rest : all_bytes is_inner s ≡ true = ground arith in
    rw other (rw (cut_colon-append s t rest) refl)

without_return_plain : (s : Bytes) → all_bytes is_plain s ≡ true → without_return s ≡ s
without_return_plain [] h = refl
without_return_plain (c ∷ []) h = let other : (c == b'\r') ≡ false = ground arith in rw other refl
without_return_plain (c ∷ d ∷ s) h =
    let rest : all_bytes is_plain (d ∷ s) ≡ true = ground arith in
    ap (λ s. c ∷ s) (without_return_plain (d ∷ s) rest)

-- A line that fits is a message of its own.
messages_from-line :
    (line s rest : Bytes)
    → all_bytes is_plain s ≡ true
    → length (line ++ s) < 128
    → messages_from line (s ++ (b'\n' ∷ rest)) ≡ without_return (line ++ s) ∷ messages_of rest
unfolding messages_of messages_from
messages_from-line line [] rest h k =
    let fits : ltb 128 (length line + 1) ≡ false = let e = length-append line [] in ground arith in
    rw fits (ap (λ l. without_return l ∷ messages_from [] rest) (sym (append-nil line)))
messages_from-line line (c ∷ s) rest h k =
    let other : (c == b'\n') ≡ false = ground arith in
    let tail : all_bytes is_plain s ≡ true = ground arith in
    let e : (line ++ (c ∷ [])) ++ s ≡ line ++ (c ∷ s) = append_assoc line (c ∷ []) s in
    let short : length ((line ++ (c ∷ [])) ++ s) < 128 = rw e k in
    rw other (
      messages_from-line (line ++ (c ∷ [])) s rest tail short
      ∙ ap (λ l. without_return l ∷ messages_of rest) e)

-- What a phase message may hold: its kind and its container.
abbrev pub IsPhase : Bytes → Bytes → Type 0
IsPhase kind id =
    ((kind ≡ started_text) × (id ≡ []))
    ⊎ ((kind ≡ finished_text) × ((is_empty id || full_container_id id) ≡ true))

record Fits (kind id : Bytes) : Type 0 where
  kind_inner : all_bytes is_inner kind ≡ true
  kind_short : length kind ≤ 8
  id_plain : all_bytes is_plain id ≡ true
  id_short : length id ≤ 64

id_fits :
    (id : Bytes)
    → (is_empty id || full_container_id id) ≡ true
    → (all_bytes is_plain id ≡ true) × (length id ≤ 64)
unfolding full_container_id legacy_container_id
id_fits [] h = (refl, omega arith)
id_fits (c ∷ s) h =
    let hex : all_lower_hex (c ∷ s) ≡ true = ground arith in (hex_plain (c ∷ s) hex, ground arith)

phase-Fits : (kind id : Bytes) → IsPhase kind id → Fits kind id
phase-Fits kind id (inl (k, e)) = rw k (
    rw e (record {
      kind_inner = refl;
      kind_short = omega arith;
      id_plain = refl;
      id_short = omega arith;
    }))
phase-Fits kind id (inr (k, h)) =
    let f = id_fits id h in
    rw k (record { kind_inner = refl; kind_short = omega arith; id_plain = f.0; id_short = f.1 })

-- The text of a phase message without its newline, and without its first word.
abbrev pub phase_text : ℕ → Bytes → Bytes → Bytes
phase_text n kind id = format_int (pos n) ++ (b':' ∷ (kind ++ (b':' ∷ id)))

abbrev pub phase_line : ℕ → Bytes → Bytes → Bytes
phase_line n kind id = codes "phase:" ++ phase_text n kind id

module _ (n : ℕ) (kind id : Bytes) (small : n ≤ max_uint64) (p : IsPhase kind id) where
  line_plain : all_bytes is_plain (phase_line n kind id) ≡ true
  unfolding format_int
  line_plain =
      let f = phase-Fits kind id p in
      all_bytes-append is_plain (codes "phase:") (phase_text n kind id) refl (
        all_bytes-append is_plain (format_int (pos n)) (b':' ∷ (kind ++ (b':' ∷ id)))
          (inner_plain (format_int (pos n)) (decimal_inner (suc n) n))
          (all_bytes-append is_plain kind (b':' ∷ id) (inner_plain kind f.kind_inner) f.id_plain))

  line_short : length (phase_line n kind id) < 128
  line_short =
      let f = phase-Fits kind id p in
      let d : length (format_int (pos n)) ≤ 20 = format_int-length 19 n (omega (arith, small)) in
      omega (
        arith,
        length-append (format_int (pos n)) (b':' ∷ (kind ++ (b':' ∷ id))),
        length-append kind (b':' ∷ id),
        d,
        f.kind_short,
        f.id_short,
      )

  three_parts-text : three_parts (phase_text n kind id) ≡ some (format_int (pos n), kind, id)
  unfolding three_parts format_int
  three_parts-text =
      let f = phase-Fits kind id p in
      rw (cut_colon-append (decimal (suc n) n) (kind ++ (b':' ∷ id)) (decimal_inner (suc n) n))
        (rw (cut_colon-append kind id f.kind_inner) refl)

  message_eq :
      (rest : Bytes) → phase_message n kind id ++ rest ≡ phase_line n kind id ++ (b'\n' ∷ rest)
  unfolding phase_message
  message_eq rest = simp append_assoc

  -- A phase message, whatever is written after it, is one message of the watchdog's reader, and the
  -- loop reads its number, its kind and its container from it.
  pub phase_message_lem :
      (rest name : Bytes) (deadline : ℕ) (w : Watch) (t : Turn)
      → (messages_of (phase_message n kind id ++ rest) ≡ phase_line n kind id ∷ messages_of rest)
        × (on_message name deadline w t (phase_line n kind id)
            ≡ on_numbered w kind id t.written (some n))
  unfolding messages_of on_message on_phase
  phase_message_lem rest name deadline w t = (
    ap messages_of (message_eq rest)
        ∙ messages_from-line [] (phase_line n kind id) rest line_plain line_short
        ∙ ap (λ l. l ∷ messages_of rest) (without_return_plain (phase_line n kind id) line_plain),
    rw three_parts-text (ap (on_numbered w kind id t.written) (parse_uint-format_int n small)),
  )
