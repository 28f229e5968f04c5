-- ===== src/Sandbox/AllBytes.antt =====
-- Lemmas on the bytes of the names and messages of internal/sandbox.
use shipmunk_runner.Prelude.{
  ℕ, zero, suc, ◌+◌, ◌/◌, ◌%◌, ◌<◌, ◌≡◌, refl, ltb, Bool, true, Bytes, [], ◌∷◌, ◌++◌, decimal, inl,
  inr, arith, Bool-cases,
}
use shipmunk_runner.Journal.Valid.{all_bytes}

pub all_bytes-append :
    (is : ℕ → Bool) (s t : Bytes)
    → all_bytes is s ≡ true
    → all_bytes is t ≡ true
    → all_bytes is (s ++ t) ≡ true
all_bytes-append is [] t h k = k
all_bytes-append is (c ∷ s) t h k =
    let here : is c ≡ true = ground arith in
    let rest : all_bytes is s ≡ true = ground arith in rw here (all_bytes-append is s t rest k)

pub all_bytes_weaken :
    (is also : ℕ → Bool)
    → ((c : ℕ) → is c ≡ true → also c ≡ true)
    → (s : Bytes) → all_bytes is s ≡ true
    → all_bytes also s ≡ true
all_bytes_weaken is also f [] h = refl
all_bytes_weaken is also f (c ∷ s) h =
    let here : is c ≡ true = ground arith in
    let rest : all_bytes is s ≡ true = ground arith in
    rw (f c here) (all_bytes_weaken is also f s rest)

-- The digits of a number.
pub all_bytes-decimal :
    (is : ℕ → Bool)
    → ((d : ℕ) → d < 10 → is (b'0' + d) ≡ true)
    → (f n : ℕ) → all_bytes is (decimal f n) ≡ true
unfolding decimal
all_bytes-decimal is digit zero n = refl
all_bytes-decimal is digit (suc f) n = elim (Bool-cases (ltb n 10)) [
  | inl e ↦ let small : n < 10 = ground arith in rw e (rw (digit n small) refl)
  | inr e ↦ rw e (
      all_bytes-append is (decimal f (n / 10)) ((b'0' + n % 10) ∷ [])
        (all_bytes-decimal is digit f (n / 10)) (rw (digit (n % 10) (omega arith)) refl))
]
