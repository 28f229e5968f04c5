-- ===== src/Protocol/Consumed.antt =====
-- What the JSON reader leaves of its text, lexeme by lexeme.
use shipmunk_runner.Prelude.{
  ℕ, suc, ◌≤◌, ◌<◌, ◌==◌, length, true, false, Bytes, codes, Option, none, some, List, [], ◌∷◌,
  Given, Bool-cases, inl, inr, arith,
}
use shipmunk_runner.Json.{Value, null, bool}
use shipmunk_runner.Protocol.Strings.{
  Piece, plain, closed, failed, escape, hex, pieces, add_pieces, string_body, text_read,
}
use shipmunk_runner.Protocol.Strings
use shipmunk_runner.Protocol.Numbers
use shipmunk_runner.Protocol.Numbers.{number_from, number_text, strip_prefix}
use shipmunk_runner.Protocol.Lexemes.{
  Lexeme, lexeme, lexeme_at, scalar_at, delimiter_or, delimiter, skip_blank, is_blank, text_lexeme,
  number_lexeme, literal_lexeme,
}

-- What is left has no more bytes than a bound.
abbrev pub Leaves {ℓ} : {A : Type ℓ} → ℕ → Option (A × Bytes) → Type 0
Leaves n o = Given (λ r. length (r.1) ≤ n) o

add_pieces-Leaves :
    (n : ℕ) (ps : List Piece) (o : Option (List Piece × Bytes))
    → Leaves n o
    → Leaves (suc n) (add_pieces ps o)
add_pieces-Leaves n ps none h = tt
add_pieces-Leaves n ps (some r) h = omega (arith, h)

pieces-Leaves : (m : Strings.Mode) (s : Bytes) → Leaves (length s) (pieces m s)
unfolding pieces
pieces-Leaves closed s = omega arith
pieces-Leaves failed s = tt
pieces-Leaves plain [] = tt
pieces-Leaves escape [] = tt
pieces-Leaves (hex n acc) [] = tt
pieces-Leaves plain (c ∷ s) =
    add_pieces-Leaves (length s) _ _ (pieces-Leaves (Strings.next_mode plain c) s)
pieces-Leaves escape (c ∷ s) =
    add_pieces-Leaves (length s) _ _ (pieces-Leaves (Strings.next_mode escape c) s)
pieces-Leaves (hex n acc) (c ∷ s) =
    add_pieces-Leaves (length s) _ _ (pieces-Leaves (Strings.next_mode (hex n acc) c) s)

text_read-Leaves : (n : ℕ) (o : Option (List Piece × Bytes)) → Leaves n o → Leaves n (text_read o)
unfolding text_read
text_read-Leaves n none h = tt
text_read-Leaves n (some r) h = h

string_body-Leaves : (s : Bytes) → Leaves (length s) (string_body s)
unfolding string_body
string_body-Leaves s = text_read-Leaves (length s) (pieces plain s) (pieces-Leaves plain s)

add_byte-Leaves :
    (n c : ℕ) (o : Option (Bytes × Bytes)) → Leaves n o → Leaves n (Numbers.add_byte c o)
add_byte-Leaves n c none h = tt
add_byte-Leaves n c (some r) h = h

weaken {ℓ} : {A : Type ℓ} (m n : ℕ) (o : Option (A × Bytes)) → m ≤ n → Leaves m o → Leaves n o
weaken m n none e h = tt
weaken m n (some r) e h = omega (arith, e, h)

number_from-Leaves : (m : Numbers.Mode) (s : Bytes) → Leaves (length s) (number_from m s)
unfolding number_from
number_from-Leaves m [] = elim (Bool-cases (Numbers.is_number m)) [
  | inl e ↦ rw e (omega arith)
  | inr e ↦ rw e tt
]
number_from-Leaves m (c ∷ s) = elim (Bool-cases (Numbers.is_stopped (Numbers.next_mode m c))) [
  | inl e ↦ elim (Bool-cases (Numbers.is_number m)) [
    | inl f ↦ rw e (rw f (omega arith))
    | inr f ↦ rw e (rw f tt)
  ]
  | inr e ↦ rw e (
      add_byte-Leaves (suc (length s)) c _ (
        weaken (length s) (suc (length s)) _ (omega arith)
          (number_from-Leaves (Numbers.next_mode m c) s)))
]

-- A number has a byte at least.
number_text-Leaves : (c : ℕ) (s : Bytes) → Leaves (length s) (number_text (c ∷ s))
unfolding number_text
number_text-Leaves c s =
    elim (Bool-cases (Numbers.is_stopped (Numbers.next_mode Numbers.start c))) [
      | inl e ↦ rw e tt
      | inr e ↦ rw e (add_byte-Leaves (length s) c _ (number_from-Leaves _ s))
    ]

strip_prefix-Leaves : (p s : Bytes) → Given (λ r. length r ≤ length s) (strip_prefix p s)
unfolding strip_prefix
strip_prefix-Leaves [] s = omega arith
strip_prefix-Leaves (c ∷ p) [] = tt
strip_prefix-Leaves (c ∷ p) (d ∷ s) = elim (Bool-cases (c == d)) [
  | inl e ↦ rw e (longer (strip_prefix p s) (strip_prefix-Leaves p s))
  | inr e ↦ rw e tt
]
  where
    longer :
        (o : Option Bytes)
        → Given (λ r. length r ≤ length s) o
        → Given (λ r. length r ≤ suc (length s)) o
    longer none h = tt
    longer (some r) h = omega (arith, h)

literal-Leaves :
    (n : ℕ) (v : Value) (o : Option Bytes)
    → Given (λ r. length r ≤ n) o
    → Leaves n (literal_lexeme v o)
literal-Leaves n v none h = tt
literal-Leaves n v (some r) h = h

number_lexeme-Leaves :
    (n : ℕ) (o : Option (Bytes × Bytes)) → Leaves n o → Leaves n (number_lexeme o)
number_lexeme-Leaves n none h = tt
number_lexeme-Leaves n (some r) h = h

text_lexeme-Leaves : (n : ℕ) (o : Option (Bytes × Bytes)) → Leaves n o → Leaves n (text_lexeme o)
text_lexeme-Leaves n none h = tt
text_lexeme-Leaves n (some r) h = h

scalar_at-Leaves : (c : ℕ) (s : Bytes) → Leaves (length s) (scalar_at c s)
unfolding scalar_at
scalar_at-Leaves c s =
    let n = length s in
    elim (Bool-cases (c == b'"')) [
      | inl e ↦ rw e (text_lexeme-Leaves n (string_body s) (string_body-Leaves s))
      | inr e ↦ elim (Bool-cases (c == b't')) [
        | inl f ↦ rw e (rw f (literal-Leaves n (bool true) _ (strip_prefix-Leaves (codes "rue") s)))
        | inr f ↦ elim (Bool-cases (c == b'f')) [
          | inl g ↦
              rw e (
                rw f
                  (rw g (literal-Leaves n (bool false) _ (strip_prefix-Leaves (codes "alse") s))))
          | inr g ↦ elim (Bool-cases (c == b'n')) [
            | inl h ↦
                rw e (
                  rw f
                    (rw g (rw h (literal-Leaves n null _ (strip_prefix-Leaves (codes "ull") s)))))
            | inr h ↦ rw e (rw f (rw g (rw h (number_lexeme-Leaves n _ (number_text-Leaves c s)))))
          ]
        ]
      ]
    ]

delimiter_or-Leaves :
    (s : Bytes) (t : Option Lexeme) (o : Option (Lexeme × Bytes))
    → Leaves (length s) o
    → Leaves (length s) (delimiter_or s t o)
delimiter_or-Leaves s (some t) o h = omega arith
delimiter_or-Leaves s none o h = h

skip_blank_shorter : (s : Bytes) → length (skip_blank s) ≤ length s
unfolding skip_blank
skip_blank_shorter [] = omega arith
skip_blank_shorter (c ∷ s) = elim (Bool-cases (is_blank c)) [
  | inl e ↦ rw e (omega (arith, skip_blank_shorter s))
  | inr e ↦ rw e (omega arith)
]

below :
    (n m : ℕ) (o : Option (Lexeme × Bytes)) → m < n → Leaves m o → Given (λ r. length (r.1) < n) o
below n m none e h = tt
below n m (some r) e h = omega (arith, e, h)

lexeme_at_shorter : (s : Bytes) (n : ℕ) → length s ≤ n → Given (λ r. length (r.1) < n) (lexeme_at s)
unfolding lexeme_at
lexeme_at_shorter [] n h = tt
lexeme_at_shorter (c ∷ s) n h =
    below n (length s) _ h
      (delimiter_or-Leaves s (delimiter c) (scalar_at c s) (scalar_at-Leaves c s))

-- A lexeme has a byte at least.
pub lexeme_shorter : (s : Bytes) → Given (λ r. length (r.1) < length s) (lexeme s)
unfolding lexeme
lexeme_shorter s = lexeme_at_shorter (skip_blank s) (length s) (skip_blank_shorter s)
