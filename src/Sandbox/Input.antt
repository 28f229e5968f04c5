-- ===== src/Sandbox/Input.antt =====
-- internal/sandbox/watchdog.go: the lines that the watchdog process reads, and the parts of a phase
-- message.
use shipmunk_runner.Prelude.{
  ℕ, ◌+◌, ◌^◌, ◌-◌, ◌==◌, ltb, leb, length, Bytes, codes, Option, none, some, List, [], ◌∷◌, ◌++◌,
  digits, digits_from, if◌then◌else◌,
}

abbrev pub max_uint64 : ℕ
max_uint64 = 2 ^ 64 - 1

abbrev at_most : ℕ → Option ℕ → Option ℕ
at_most limit none = none
at_most limit (some n) = if leb n limit then some n else none

-- `strconv.ParseUint(s, 10, 64)`.
unfoldable pub parse_uint : Bytes → Option ℕ
unfolding digits_from
parse_uint s = at_most max_uint64 (digits s)

abbrev before_colon : ℕ → Option (Bytes × Bytes) → Option (Bytes × Bytes)
before_colon c none = none
before_colon c (some (s, rest)) = some (c ∷ s, rest)

-- `strings.Cut(s, ":")`, with `none` where there is no colon.
unfoldable pub cut_colon : Bytes → Option (Bytes × Bytes)
cut_colon [] = none
cut_colon (c ∷ s) =
    let rest = before_colon c (cut_colon s) in if c == b':' then some ([], s) else rest

abbrev and_third : Bytes → Option (Bytes × Bytes) → Option (Bytes × Bytes × Bytes)
and_third s none = none
and_third s (some (t, u)) = some (s, t, u)

abbrev and_second : Option (Bytes × Bytes) → Option (Bytes × Bytes × Bytes)
and_second none = none
and_second (some (s, rest)) = and_third s (cut_colon rest)

-- `strings.SplitN(s, ":", 3)`, with `none` for fewer than three parts.
unfoldable pub three_parts : Bytes → Option (Bytes × Bytes × Bytes)
unfolding cut_colon
three_parts s = and_second (cut_colon s)

abbrev pub max_line : ℕ
max_line = 128

abbrev pub eof_message : Bytes
eof_message = codes "eof"

abbrev pub broken_message : Bytes
broken_message = codes "protocol-error"

-- `strings.TrimSuffix(line, "\r")`.
abbrev pub without_return : Bytes → Bytes
without_return [] = []
without_return (c ∷ []) = if c == b'\r' then [] else c ∷ []
without_return (c ∷ d ∷ s) = c ∷ without_return (d ∷ s)

-- The messages of the reading goroutine for an input that ends: `readBoundedLine` gives a line with
-- its newline, if both fit in 128 bytes. The first argument is what is read of the line.
unfoldable pub messages_from : Bytes → Bytes → List Bytes
messages_from line [] = if ltb max_line (length line) then broken_message ∷ [] else eof_message ∷ []
messages_from line (c ∷ s) =
    let fits = without_return line ∷ messages_from [] s in
    let ended = if ltb max_line (length line + 1) then broken_message ∷ [] else fits in
    let more = messages_from (line ++ (c ∷ [])) s in if c == b'\n' then ended else more

unfoldable pub messages_of : Bytes → List Bytes
unfolding messages_from
messages_of = messages_from []
