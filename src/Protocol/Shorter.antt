-- ===== src/Protocol/Shorter.antt =====
-- What each reader of the JSON decoder leaves of its text is shorter.
use shipmunk_runner.Prelude.{
  ℕ, zero, suc, ◌+◌, ◌≤◌, ◌<◌, length, Bool, true, false, not, ◌||◌, Bytes, Option, none, some,
  Given, bind-Given, require, arith,
}
use shipmunk_runner.Json.{Value, Values, nil, Fields, end, put, has_key}
use shipmunk_runner.Protocol.Lexemes.{
  Lexeme, open_object, close_object, open_array, close_array, colon, comma, text, scalar, lexeme,
}
use shipmunk_runner.Protocol.Consumed.{lexeme_shorter}
use shipmunk_runner.Protocol.Decode.{
  Turn, closed, value_at, keyed, item_turn, field_turn, key_turn, after_colon, is_shallow,
  append_value, decode_value, decode_lexeme, decode_items, decode_item, decode_fields, decode_field,
}

-- The text that a turn goes on with.
abbrev pub turn_length : Turn → ℕ
turn_length (closed s) = length s
turn_length (value_at s) = length s
turn_length (keyed _ s) = length s

abbrev Shorter : ℕ → Option (Lexeme × Bytes) → Type 0
Shorter n o = Given (λ r. length (r.1) < n) o

pub item_turn-Given :
    (first : Bool) (s : Bytes) (o : Option (Lexeme × Bytes))
    → Shorter (length s) o
    → Given (λ t. turn_length t ≤ length s) (item_turn first s o)
item_turn-Given first s none h = tt
item_turn-Given first s (some (close_array, r)) h = omega (arith, h)
item_turn-Given true s (some (open_object, r)) h = omega arith
item_turn-Given true s (some (close_object, r)) h = omega arith
item_turn-Given true s (some (open_array, r)) h = omega arith
item_turn-Given true s (some (colon, r)) h = omega arith
item_turn-Given true s (some (comma, r)) h = omega arith
item_turn-Given true s (some (text t, r)) h = omega arith
item_turn-Given true s (some (scalar v, r)) h = omega arith
item_turn-Given false s (some (open_object, r)) h = tt
item_turn-Given false s (some (close_object, r)) h = tt
item_turn-Given false s (some (open_array, r)) h = tt
item_turn-Given false s (some (colon, r)) h = tt
item_turn-Given false s (some (comma, r)) h = omega (arith, h)
item_turn-Given false s (some (text t, r)) h = tt
item_turn-Given false s (some (scalar v, r)) h = tt

after_colon-Given :
    (n : ℕ) (k : Bytes) (o : Option (Lexeme × Bytes))
    → Shorter n o
    → Given (λ t. turn_length t ≤ n) (after_colon k o)
after_colon-Given n k none h = tt
after_colon-Given n k (some (colon, r)) h = omega (arith, h)
after_colon-Given n k (some (open_object, r)) h = tt
after_colon-Given n k (some (close_object, r)) h = tt
after_colon-Given n k (some (open_array, r)) h = tt
after_colon-Given n k (some (close_array, r)) h = tt
after_colon-Given n k (some (comma, r)) h = tt
after_colon-Given n k (some (text t, r)) h = tt
after_colon-Given n k (some (scalar v, r)) h = tt

looser :
    (m n : ℕ) (o : Option Turn)
    → m ≤ n
    → Given (λ t. turn_length t ≤ m) o
    → Given (λ t. turn_length t ≤ n) o
looser m n none e h = tt
looser m n (some t) e h = omega (arith, e, h)

key_turn-Given :
    (n : ℕ) (o : Option (Lexeme × Bytes))
    → Shorter n o
    → Given (λ t. turn_length t ≤ n) (key_turn o)
unfolding key_turn
key_turn-Given n none h = tt
key_turn-Given n (some (open_object, r)) h = tt
key_turn-Given n (some (close_object, r)) h = tt
key_turn-Given n (some (open_array, r)) h = tt
key_turn-Given n (some (close_array, r)) h = tt
key_turn-Given n (some (colon, r)) h = tt
key_turn-Given n (some (comma, r)) h = tt
key_turn-Given n (some (text t, r)) h =
    looser (length r) n _ (omega (arith, h))
      (after_colon-Given (length r) t (lexeme r) (lexeme_shorter r))
key_turn-Given n (some (scalar v, r)) h = tt

pub field_turn-Given :
    (first : Bool) (n : ℕ) (o : Option (Lexeme × Bytes))
    → Shorter n o
    → Given (λ t. turn_length t ≤ n) (field_turn first o)
unfolding field_turn
field_turn-Given true n none h = tt
field_turn-Given false n none h = tt
field_turn-Given true n (some (open_object, r)) h = key_turn-Given n (some (open_object, r)) h
field_turn-Given true n (some (close_object, r)) h = omega (arith, h)
field_turn-Given true n (some (open_array, r)) h = key_turn-Given n (some (open_array, r)) h
field_turn-Given true n (some (close_array, r)) h = key_turn-Given n (some (close_array, r)) h
field_turn-Given true n (some (colon, r)) h = key_turn-Given n (some (colon, r)) h
field_turn-Given true n (some (comma, r)) h = key_turn-Given n (some (comma, r)) h
field_turn-Given true n (some (text t, r)) h = key_turn-Given n (some (text t, r)) h
field_turn-Given true n (some (scalar v, r)) h = key_turn-Given n (some (scalar v, r)) h
field_turn-Given false n (some (open_object, r)) h = tt
field_turn-Given false n (some (close_object, r)) h = omega (arith, h)
field_turn-Given false n (some (open_array, r)) h = tt
field_turn-Given false n (some (close_array, r)) h = tt
field_turn-Given false n (some (colon, r)) h = tt
field_turn-Given false n (some (comma, r)) h =
    looser (length r) n _ (omega (arith, h))
      (key_turn-Given (length r) (lexeme r) (lexeme_shorter r))
field_turn-Given false n (some (text t, r)) h = tt
field_turn-Given false n (some (scalar v, r)) h = tt

-- The text after a value is shorter by a byte at least.
abbrev pub Rest : ℕ → Option (Value × Bytes) → Type 0
Rest n o = Given (λ r. length (r.1) ≤ n) o

relax : (m n : ℕ) (o : Option (Value × Bytes)) → m ≤ n → Rest m o → Rest n o
relax m n none e h = tt
relax m n (some r) e h = omega (arith, e, h)

below : (n m : ℕ) (o : Option (Value × Bytes)) → m < n → Rest m o → Given (λ r. length (r.1) < n) o
below n m none e h = tt
below n m (some r) e h = omega (arith, e, h)

pub required : (b : Bool) → Given (λ _. Unit) (require b)
required true = tt
required false = tt

abbrev pub Turns : ℕ → Option Turn → Type 0
Turns n o = Given (λ t. turn_length t ≤ n) o

mutual
  unfolding decode_value

  pub value-Rest :
      (dup : Bool) (n d : ℕ) (s : Bytes)
      → Given (λ r. length (r.1) < length s) (decode_value dup n d s)
  value-Rest dup zero d s = tt
  value-Rest dup (suc n) d s =
      bind-Given _ (lexeme s) _ (lexeme_shorter s)
        (λ r h. below (length s) (length (r.1)) _ h (lexeme-Rest dup n d (r.0) (r.1)))

  lexeme-Rest :
      (dup : Bool) (n d : ℕ) (t : Lexeme) (s : Bytes) → Rest (length s) (decode_lexeme dup n d t s)
  lexeme-Rest dup zero d t s = tt
  lexeme-Rest dup (suc n) d open_object s =
      bind-Given _ (require (is_shallow d)) _ (required (is_shallow d))
        (λ _ _. fields-Rest dup n d end true s)
  lexeme-Rest dup (suc n) d open_array s =
      bind-Given _ (require (is_shallow d)) _ (required (is_shallow d))
        (λ _ _. items-Rest dup n d nil true s)
  lexeme-Rest dup (suc n) d close_object s = tt
  lexeme-Rest dup (suc n) d close_array s = tt
  lexeme-Rest dup (suc n) d colon s = tt
  lexeme-Rest dup (suc n) d comma s = tt
  lexeme-Rest dup (suc n) d (text t) s = omega arith
  lexeme-Rest dup (suc n) d (scalar v) s = omega arith

  items-Rest :
      (dup : Bool) (n d : ℕ) (vs : Values) (first : Bool) (s : Bytes)
      → Rest (length s) (decode_items dup n d vs first s)
  items-Rest dup zero d vs first s = tt
  items-Rest dup (suc n) d vs first s =
      let turns : Turns (length s) (item_turn first s (lexeme s)) =
        item_turn-Given first s (lexeme s) (lexeme_shorter s) in
      bind-Given _ (item_turn first s (lexeme s)) _ turns
        (λ t h. relax (turn_length t) (length s) _ h (item-Rest dup n d vs t))

  item-Rest :
      (dup : Bool) (n d : ℕ) (vs : Values) (t : Turn)
      → Rest (turn_length t) (decode_item dup n d vs t)
  item-Rest dup zero d vs t = tt
  item-Rest dup (suc n) d vs (closed s) = omega arith
  item-Rest dup (suc n) d vs (keyed k s) = tt
  item-Rest dup (suc n) d vs (value_at s) =
      bind-Given _ (decode_value dup n (d + 1) s) _ (value-Rest dup n (d + 1) s) (λ r h.
        let e : length (r.1) ≤ length s = omega (arith, h) in
        relax (length (r.1)) (length s) _ e
          (items-Rest dup n d (append_value vs (r.0)) false (r.1)))

  fields-Rest :
      (dup : Bool) (n d : ℕ) (fs : Fields) (first : Bool) (s : Bytes)
      → Rest (length s) (decode_fields dup n d fs first s)
  fields-Rest dup zero d fs first s = tt
  fields-Rest dup (suc n) d fs first s =
      let turns : Turns (length s) (field_turn first (lexeme s)) =
        field_turn-Given first (length s) (lexeme s) (lexeme_shorter s) in
      bind-Given _ (field_turn first (lexeme s)) _ turns
        (λ t h. relax (turn_length t) (length s) _ h (field-Rest dup n d fs t))

  field-Rest :
      (dup : Bool) (n d : ℕ) (fs : Fields) (t : Turn)
      → Rest (turn_length t) (decode_field dup n d fs t)
  field-Rest dup zero d fs t = tt
  field-Rest dup (suc n) d fs (closed s) = omega arith
  field-Rest dup (suc n) d fs (value_at s) = tt
  field-Rest dup (suc n) d fs (keyed k s) =
      bind-Given _ (require (dup || not (has_key k fs))) _ (required (dup || not (has_key k fs)))
        (λ _ _. bind-Given _ (decode_value dup n (d + 1) s) _ (value-Rest dup n (d + 1) s) (λ r h.
          let e : length (r.1) ≤ length s = omega (arith, h) in
          relax (length (r.1)) (length s) _ e (fields-Rest dup n d (put k (r.0) fs) false (r.1))))
