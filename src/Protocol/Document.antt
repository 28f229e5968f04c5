-- ===== src/Protocol/Document.antt =====
-- The values that `decodeValue` of internal/protocol/protocol.go gives.
use shipmunk_runner.Prelude.{
  ℕ, ◌==◌, codes, ◌∷◌, zero, suc, ◌+◌, ◌-◌, ◌<◌, ◌≡◌, refl, sym, length, leb, Bool, true, false,
  not, ◌&&◌, ◌||◌, Bytes, bytes_eq, bytes_eq_iff, Option, none, some, [], Given, Given_some,
  bind-Given, then-Given, require-Given, require, Bool-cases, inl, inr, arith, valid_utf8, ◌*◌,
}
use shipmunk_runner.Json.{
  Value, Values, Fields, null, bool, number, str, arr, obj, nil, cons, end, field, get, put,
  has_key,
}
use shipmunk_runner.Json.Lookup.{get-put_other}
use shipmunk_runner.Protocol.Escapes.{valid_unicode_escapes}
use shipmunk_runner.Protocol.Lexemes.{
  Lexeme, open_object, close_object, open_array, close_array, colon, comma, text, scalar, lexeme,
  lexeme_at, scalar_at, delimiter_or, delimiter, text_lexeme, number_lexeme, literal_lexeme,
  skip_blank,
}
use shipmunk_runner.Protocol.Strings.{string_body}
use shipmunk_runner.Protocol.Numbers.{number_text, strip_prefix}
use shipmunk_runner.Protocol.Decode.{
  Turn, closed, value_at, keyed, Read, item_turn, field_turn, is_shallow, append_value,
  max_json_depth, decode_value, decode_lexeme, decode_items, decode_item, decode_fields,
  decode_field, decode_with, whole_text, is_blank_text,
}

-- A value below so many objects and arrays: there are fewer than 63 above each of them, and the keys of an
-- object are distinct.
abbrev mutual
  pub IsAt : ℕ → Value → Type 0
  IsAt d null = Unit
  IsAt d (bool b) = Unit
  IsAt d (number s) = Unit
  IsAt d (str s) = Unit
  IsAt d (arr vs) = (d < max_json_depth - 1) × ItemsAt (d + 1) vs
  IsAt d (obj fs) = (d < max_json_depth - 1) × FieldsAt (d + 1) fs

  pub ItemsAt : ℕ → Values → Type 0
  ItemsAt d nil = Unit
  ItemsAt d (cons v vs) = IsAt d v × ItemsAt d vs

  pub FieldsAt : ℕ → Fields → Type 0
  FieldsAt d end = Unit
  FieldsAt d (field k v fs) = (has_key k fs ≡ false) × IsAt d v × FieldsAt d fs

append_at :
    (d : ℕ) (vs : Values) (v : Value) → ItemsAt d vs → IsAt d v → ItemsAt d (append_value vs v)
append_at d nil v h k = (k, tt)
append_at d (cons u us) v h k = (h.0, append_at d us v h.1 k)

unequal : (j k : Bytes) → bytes_eq j k ≡ false → bytes_eq k j ≡ false
unequal j k h = elim (Bool-cases (bytes_eq k j)) [
  | inl e ↦
      let same : bytes_eq j k ≡ true = (bytes_eq_iff j k).1 (sym ((bytes_eq_iff k j).0 e)) in
      cc (h, same)
  | inr e ↦ e
]

put_at :
    (d : ℕ) (k : Bytes) (v : Value) (fs : Fields)
    → FieldsAt d fs
    → IsAt d v
    → FieldsAt d (put k v fs)
unfolding put has_key get
put_at d k v end h a = (refl, a, tt)
put_at d k v (field j u fs) h a = elim (Bool-cases (bytes_eq j k)) [
  | inl e ↦ let same : j ≡ k = (bytes_eq_iff j k).0 e in rw e (rw same at h.0, a, h.2)
  | inr e ↦
      let lone : has_key j (put k v fs) ≡ false =
        rw (get-put_other k j v fs (unequal j k e)) (h.0) in
      rw e (lone, h.1, put_at d k v fs h.2 a)
]

-- A scalar lexeme has no parts.
abbrev IsLeaf : Lexeme → Type 0
IsLeaf (scalar v) = (d : ℕ) → IsAt d v
IsLeaf open_object = Unit
IsLeaf close_object = Unit
IsLeaf open_array = Unit
IsLeaf close_array = Unit
IsLeaf colon = Unit
IsLeaf comma = Unit
IsLeaf (text s) = Unit

abbrev Leaf : Option (Lexeme × Bytes) → Type 0
Leaf o = Given (λ r. IsLeaf (r.0)) o

text-Leaf : (o : Option (Bytes × Bytes)) → Leaf (text_lexeme o)
text-Leaf none = tt
text-Leaf (some r) = tt

number-Leaf : (o : Option (Bytes × Bytes)) → Leaf (number_lexeme o)
number-Leaf none = tt
number-Leaf (some r) = λ d. tt

literal-Leaf : (v : Value) (o : Option Bytes) → ((d : ℕ) → IsAt d v) → Leaf (literal_lexeme v o)
literal-Leaf v none h = tt
literal-Leaf v (some r) h = h

scalar_at-Leaf : (c : ℕ) (s : Bytes) → Leaf (scalar_at c s)
unfolding scalar_at
scalar_at-Leaf c s = elim (Bool-cases (c == b'"')) [
  | inl e ↦ rw e (text-Leaf (string_body s))
  | inr e ↦ elim (Bool-cases (c == b't')) [
    | inl f ↦ rw e (rw f (literal-Leaf (bool true) (strip_prefix (codes "rue") s) (λ d. tt)))
    | inr f ↦ elim (Bool-cases (c == b'f')) [
      | inl g ↦
          rw e (rw f (rw g (literal-Leaf (bool false) (strip_prefix (codes "alse") s) (λ d. tt))))
      | inr g ↦ elim (Bool-cases (c == b'n')) [
        | inl h ↦
            rw e (rw f (rw g (rw h (literal-Leaf null (strip_prefix (codes "ull") s) (λ d. tt)))))
        | inr h ↦ rw e (rw f (rw g (rw h (number-Leaf (number_text (c ∷ s))))))
      ]
    ]
  ]
]

abbrev is_scalar : Option Lexeme → Bool
is_scalar (some (scalar _)) = true
is_scalar _ = false

delimiter_lem : (c : ℕ) → is_scalar (delimiter c) ≡ false
delimiter_lem c = ground arith

delimiter-Leaf :
    (c : ℕ) (s : Bytes) (t : Option Lexeme)
    → is_scalar t ≡ false
    → Leaf (delimiter_or s t (scalar_at c s))
delimiter-Leaf c s none h = scalar_at-Leaf c s
delimiter-Leaf c s (some open_object) h = tt
delimiter-Leaf c s (some close_object) h = tt
delimiter-Leaf c s (some open_array) h = tt
delimiter-Leaf c s (some close_array) h = tt
delimiter-Leaf c s (some colon) h = tt
delimiter-Leaf c s (some comma) h = tt
delimiter-Leaf c s (some (text t)) h = tt
delimiter-Leaf c s (some (scalar v)) h = cc h

lexeme_at-Leaf : (s : Bytes) → Leaf (lexeme_at s)
unfolding lexeme_at
lexeme_at-Leaf [] = tt
lexeme_at-Leaf (c ∷ s) = delimiter-Leaf c s (delimiter c) (delimiter_lem c)

lexeme-Leaf : (s : Bytes) → Leaf (lexeme s)
unfolding lexeme
lexeme-Leaf s = lexeme_at-Leaf (skip_blank s)

abbrev ReadAt : ℕ → Read → Type 0
ReadAt d o = Given (λ r. IsAt d (r.0)) o

shallow : (d : ℕ) → is_shallow d ≡ true → d < max_json_depth - 1
shallow d h = ground arith

mutual
  unfolding decode_value

  value-ReadAt : (dup : Bool) (n d : ℕ) (s : Bytes) → ReadAt d (decode_value dup n d s)
  value-ReadAt dup zero d s = tt
  value-ReadAt dup (suc n) d s =
      bind-Given _ (lexeme s) _ (lexeme-Leaf s) (λ r h. lexeme-ReadAt dup n d (r.0) (r.1) h)

  lexeme-ReadAt :
      (dup : Bool) (n d : ℕ) (t : Lexeme) (s : Bytes)
      → IsLeaf t
      → ReadAt d (decode_lexeme dup n d t s)
  lexeme-ReadAt dup zero d t s h = tt
  lexeme-ReadAt dup (suc n) d open_object s h =
      require-Given _ (is_shallow d) _ (λ e. fields-ReadAt dup n d end true s (shallow d e) tt)
  lexeme-ReadAt dup (suc n) d open_array s h =
      require-Given _ (is_shallow d) _ (λ e. items-ReadAt dup n d nil true s (shallow d e) tt)
  lexeme-ReadAt dup (suc n) d close_object s h = tt
  lexeme-ReadAt dup (suc n) d close_array s h = tt
  lexeme-ReadAt dup (suc n) d colon s h = tt
  lexeme-ReadAt dup (suc n) d comma s h = tt
  lexeme-ReadAt dup (suc n) d (text t) s h = tt
  lexeme-ReadAt dup (suc n) d (scalar v) s h = h d

  items-ReadAt :
      (dup : Bool) (n d : ℕ) (vs : Values) (first : Bool) (s : Bytes)
      → d < max_json_depth - 1
      → ItemsAt (d + 1) vs
      → ReadAt d (decode_items dup n d vs first s)
  items-ReadAt dup zero d vs first s l h = tt
  items-ReadAt dup (suc n) d vs first s l h =
      then-Given _ (item_turn first s (lexeme s)) _ (λ t _. item-ReadAt dup n d vs t l h)

  item-ReadAt :
      (dup : Bool) (n d : ℕ) (vs : Values) (t : Turn)
      → d < max_json_depth - 1
      → ItemsAt (d + 1) vs
      → ReadAt d (decode_item dup n d vs t)
  item-ReadAt dup zero d vs t l h = tt
  item-ReadAt dup (suc n) d vs (closed s) l h = (l, h)
  item-ReadAt dup (suc n) d vs (keyed k s) l h = tt
  item-ReadAt dup (suc n) d vs (value_at s) l h =
      bind-Given _ (decode_value dup n (d + 1) s) _ (value-ReadAt dup n (d + 1) s) (λ r a.
        items-ReadAt dup n d (append_value vs (r.0)) false (r.1) l (append_at (d + 1) vs (r.0) h a))

  fields-ReadAt :
      (dup : Bool) (n d : ℕ) (fs : Fields) (first : Bool) (s : Bytes)
      → d < max_json_depth - 1
      → FieldsAt (d + 1) fs
      → ReadAt d (decode_fields dup n d fs first s)
  fields-ReadAt dup zero d fs first s l h = tt
  fields-ReadAt dup (suc n) d fs first s l h =
      then-Given _ (field_turn first (lexeme s)) _ (λ t _. field-ReadAt dup n d fs t l h)

  field-ReadAt :
      (dup : Bool) (n d : ℕ) (fs : Fields) (t : Turn)
      → d < max_json_depth - 1
      → FieldsAt (d + 1) fs
      → ReadAt d (decode_field dup n d fs t)
  field-ReadAt dup zero d fs t l h = tt
  field-ReadAt dup (suc n) d fs (closed s) l h = (l, h)
  field-ReadAt dup (suc n) d fs (value_at s) l h = tt
  field-ReadAt dup (suc n) d fs (keyed k s) l h =
      then-Given _ (require (dup || not (has_key k fs))) _ (λ _ _.
        bind-Given _ (decode_value dup n (d + 1) s) _ (value-ReadAt dup n (d + 1) s) (λ r a.
          fields-ReadAt dup n d (put k (r.0) fs) false (r.1) l (put_at (d + 1) k (r.0) fs h a)))

whole_text-Given : (o : Read) → ReadAt 0 o → Given (IsAt 0) (whole_text o)
unfolding whole_text
whole_text-Given none h = tt
whole_text-Given (some (v, rest)) h = elim (Bool-cases (is_blank_text (skip_blank rest))) [
  | inl e ↦ rw e h
  | inr e ↦ rw e tt
]

-- A document that is decoded, with duplicate keys allowed or not, has fewer than 64 objects and arrays in
-- one another, and in each object the keys are distinct.
pub decode_with-IsAt :
    (dup : Bool) (max_bytes : ℕ) (raw : Bytes) (v : Value)
    → decode_with dup max_bytes raw ≡ some v
    → IsAt 0 v
unfolding decode_with
decode_with-IsAt dup max_bytes raw v e = Given_some (IsAt 0) given e
  where
    given : Given (IsAt 0) (decode_with dup max_bytes raw)
    given =
        elim (Bool-cases
          (leb (length raw) max_bytes && valid_utf8 raw && valid_unicode_escapes raw)) [
            | inl h ↦ rw h (
                whole_text-Given (decode_value dup (4 * length raw + 1) 0 raw)
                  (value-ReadAt dup (4 * length raw + 1) 0 raw))
            | inr h ↦ rw h tt
          ]
