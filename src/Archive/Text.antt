-- ===== src/Archive/Text.antt =====
-- The functions of `strings` and `bytes` that internal/workspace/tar.go calls.
use shipmunk_runner.Prelude.{
  ℕ, zero, suc, ◌-◌, ◌==◌, Bool, false, ◌||◌, Bytes, Option, none, some, List, [], ◌∷◌, take, drop,
  if◌then◌else◌,
}

-- `s[low:high]` within the bounds.
abbrev pub slice : ℕ → ℕ → Bytes → Bytes
slice low high s = take (high - low) (drop low s)

abbrev pub has_byte : ℕ → Bytes → Bool
has_byte b [] = false
has_byte b (c ∷ s) = c == b || has_byte b s

abbrev shifted : Option ℕ → Option ℕ
shifted none = none
shifted (some i) = some (suc i)

-- `bytes.IndexByte`, with `none` for -1.
abbrev pub index_byte : ℕ → Bytes → Option ℕ
index_byte b [] = none
index_byte b (c ∷ s) = let rest = shifted (index_byte b s) in if c == b then some 0 else rest

-- `s[i]`; out of range Go panics.
abbrev pub get_elem? : Bytes → ℕ → Option ℕ
get_elem? [] i = none
get_elem? (c ∷ s) zero = some c
get_elem? (c ∷ s) (suc i) = get_elem? s i

abbrev cons_unless : Bool → ℕ → Bytes → Bytes
cons_unless drop_it c [] = if drop_it then [] else c ∷ []
cons_unless drop_it c (d ∷ s) = c ∷ d ∷ s

-- `strings.TrimRight` and `strings.TrimLeft` of the bytes that satisfy a test.
abbrev pub trim_right : (ℕ → Bool) → Bytes → Bytes
trim_right cut [] = []
trim_right cut (c ∷ s) = cons_unless (cut c) c (trim_right cut s)

abbrev pub trim_left : (ℕ → Bool) → Bytes → Bytes
trim_left cut [] = []
trim_left cut (c ∷ s) = let rest = trim_left cut s in if cut c then rest else c ∷ s

abbrev pub begin_with : ℕ → List Bytes → List Bytes
begin_with c [] = (c ∷ []) ∷ []
begin_with c (s ∷ ss) = (c ∷ s) ∷ ss

-- `strings.Split(s, "/")`.
abbrev pub split : Bytes → List Bytes
split [] = [] ∷ []
split (c ∷ s) = let rest = split s in if c == b'/' then [] ∷ rest else begin_with c rest

abbrev pub all_but_last : List Bytes → List Bytes
all_but_last [] = []
all_but_last (s ∷ []) = []
all_but_last (s ∷ t ∷ ss) = s ∷ all_but_last (t ∷ ss)
