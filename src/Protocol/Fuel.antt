-- ===== src/Protocol/Fuel.antt =====
-- The fuel of `decodeValue`'s model.
use shipmunk_runner.Prelude.{
  ℕ, zero, suc, ◌+◌, ◌*◌, ◌≤◌, ◌≡◌, refl, length, Bool, true, false, not, ◌||◌, Bytes, bind_cong,
  require, arith,
}
use shipmunk_runner.Json.{Values, nil, Fields, end, put, has_key}
use shipmunk_runner.Protocol.Lexemes.{
  Lexeme, open_object, close_object, open_array, close_array, colon, comma, text, scalar, lexeme,
}
use shipmunk_runner.Protocol.Consumed.{lexeme_shorter}
use shipmunk_runner.Protocol.Shorter.{
  turn_length, Turns, required, item_turn-Given, field_turn-Given, value-Rest,
}
use shipmunk_runner.Protocol.Decode.{
  Turn, closed, value_at, keyed, item_turn, field_turn, is_shallow, append_value, decode_value,
  decode_lexeme, decode_items, decode_item, decode_fields, decode_field,
}

mutual
  unfolding decode_value

  value_fuel :
      (dup : Bool) (n m d : ℕ) (s : Bytes)
      → 4 * length s + 1 ≤ n
      → 4 * length s + 1 ≤ m
      → decode_value dup n d s ≡ decode_value dup m d s
  value_fuel dup zero m d s h k = absurd (omega (arith, h))
  value_fuel dup (suc n) zero d s h k = absurd (omega (arith, k))
  value_fuel dup (suc n) (suc m) d s h k =
      bind_cong (lexeme s) _ _ (lexeme_shorter s)
        (λ r l. lexeme_fuel dup n m d (r.0) (r.1) (omega (arith, h, l)) (omega (arith, k, l)))

  lexeme_fuel :
      (dup : Bool) (n m d : ℕ) (t : Lexeme) (s : Bytes)
      → 4 * length s + 4 ≤ n
      → 4 * length s + 4 ≤ m
      → decode_lexeme dup n d t s ≡ decode_lexeme dup m d t s
  lexeme_fuel dup zero m d t s h k = absurd (omega (arith, h))
  lexeme_fuel dup (suc n) zero d t s h k = absurd (omega (arith, k))
  lexeme_fuel dup (suc n) (suc m) d open_object s h k =
      bind_cong (require (is_shallow d)) _ _ (required (is_shallow d))
        (λ _ _. fields_fuel dup n m d end true s (omega (arith, h)) (omega (arith, k)))
  lexeme_fuel dup (suc n) (suc m) d open_array s h k =
      bind_cong (require (is_shallow d)) _ _ (required (is_shallow d))
        (λ _ _. items_fuel dup n m d nil true s (omega (arith, h)) (omega (arith, k)))
  lexeme_fuel dup (suc n) (suc m) d close_object s h k = refl
  lexeme_fuel dup (suc n) (suc m) d close_array s h k = refl
  lexeme_fuel dup (suc n) (suc m) d colon s h k = refl
  lexeme_fuel dup (suc n) (suc m) d comma s h k = refl
  lexeme_fuel dup (suc n) (suc m) d (text t) s h k = refl
  lexeme_fuel dup (suc n) (suc m) d (scalar v) s h k = refl

  items_fuel :
      (dup : Bool) (n m d : ℕ) (vs : Values) (first : Bool) (s : Bytes)
      → 4 * length s + 3 ≤ n
      → 4 * length s + 3 ≤ m
      → decode_items dup n d vs first s ≡ decode_items dup m d vs first s
  items_fuel dup zero m d vs first s h k = absurd (omega (arith, h))
  items_fuel dup (suc n) zero d vs first s h k = absurd (omega (arith, k))
  items_fuel dup (suc n) (suc m) d vs first s h k =
      let turns : Turns (length s) (item_turn first s (lexeme s)) =
        item_turn-Given first s (lexeme s) (lexeme_shorter s) in
      bind_cong (item_turn first s (lexeme s)) _ _ turns
        (λ t l. item_fuel dup n m d vs t (omega (arith, h, l)) (omega (arith, k, l)))

  item_fuel :
      (dup : Bool) (n m d : ℕ) (vs : Values) (t : Turn)
      → 4 * turn_length t + 2 ≤ n
      → 4 * turn_length t + 2 ≤ m
      → decode_item dup n d vs t ≡ decode_item dup m d vs t
  item_fuel dup zero m d vs t h k = absurd (omega (arith, h))
  item_fuel dup (suc n) zero d vs t h k = absurd (omega (arith, k))
  item_fuel dup (suc n) (suc m) d vs (closed s) h k = refl
  item_fuel dup (suc n) (suc m) d vs (keyed j s) h k = refl
  item_fuel dup (suc n) (suc m) d vs (value_at s) h k =
      rw (value_fuel dup n m (d + 1) s (omega (arith, h)) (omega (arith, k))) (
        bind_cong (decode_value dup m (d + 1) s) _ _ (value-Rest dup m (d + 1) s) (λ r l.
          items_fuel dup n m d (append_value vs (r.0)) false (r.1) (omega (arith, h, l))
            (omega (arith, k, l))))

  fields_fuel :
      (dup : Bool) (n m d : ℕ) (fs : Fields) (first : Bool) (s : Bytes)
      → 4 * length s + 3 ≤ n
      → 4 * length s + 3 ≤ m
      → decode_fields dup n d fs first s ≡ decode_fields dup m d fs first s
  fields_fuel dup zero m d fs first s h k = absurd (omega (arith, h))
  fields_fuel dup (suc n) zero d fs first s h k = absurd (omega (arith, k))
  fields_fuel dup (suc n) (suc m) d fs first s h k =
      let turns : Turns (length s) (field_turn first (lexeme s)) =
        field_turn-Given first (length s) (lexeme s) (lexeme_shorter s) in
      bind_cong (field_turn first (lexeme s)) _ _ turns
        (λ t l. field_fuel dup n m d fs t (omega (arith, h, l)) (omega (arith, k, l)))

  field_fuel :
      (dup : Bool) (n m d : ℕ) (fs : Fields) (t : Turn)
      → 4 * turn_length t + 2 ≤ n
      → 4 * turn_length t + 2 ≤ m
      → decode_field dup n d fs t ≡ decode_field dup m d fs t
  field_fuel dup zero m d fs t h k = absurd (omega (arith, h))
  field_fuel dup (suc n) zero d fs t h k = absurd (omega (arith, k))
  field_fuel dup (suc n) (suc m) d fs (closed s) h k = refl
  field_fuel dup (suc n) (suc m) d fs (value_at s) h k = refl
  field_fuel dup (suc n) (suc m) d fs (keyed j s) h k =
      bind_cong (require (dup || not (has_key j fs))) _ _ (required (dup || not (has_key j fs)))
        (λ _ _. rw (value_fuel dup n m (d + 1) s (omega (arith, h)) (omega (arith, k))) (
          bind_cong (decode_value dup m (d + 1) s) _ _ (value-Rest dup m (d + 1) s) (λ r l.
            fields_fuel dup n m d (put j (r.0) fs) false (r.1) (omega (arith, h, l))
              (omega (arith, k, l)))))

-- The fuel of the decoder never runs out: with more fuel, and so with none at all to bound it, the
-- reading of every document gives the same value and the same rest, or fails in the same way.
pub decode_value_ends :
    (dup : Bool) (more d : ℕ) (s : Bytes)
    → decode_value dup (4 * length s + 1 + more) d s ≡ decode_value dup (4 * length s + 1) d s
decode_value_ends dup more d s =
    value_fuel dup (4 * length s + 1 + more) (4 * length s + 1) d s (omega arith) (omega arith)
