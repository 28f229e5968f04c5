-- ===== src/Json/Lookup.antt =====
-- The lookup in a map after an update or a deletion.
use shipmunk_runner.Prelude.{
  true, false, ◌≡◌, refl, Bytes, bytes_eq, bytes_eq_iff, some, Bool-cases, inl, inr,
}
use shipmunk_runner.Json.{Value, Fields, end, field, get, put, delete}

bytes_eq_refl : (k : Bytes) → bytes_eq k k ≡ true
bytes_eq_refl k = (bytes_eq_iff k k).1 refl

-- A key that equals `j` is not `k` where `j` is not.
other_key : (i j k : Bytes) → bytes_eq i j ≡ true → bytes_eq j k ≡ false → bytes_eq i k ≡ false
other_key i j k e n = rw ((bytes_eq_iff i j).0 e) n

pub get-put : (k : Bytes) (v : Value) (fs : Fields) → get k (put k v fs) ≡ some v
unfolding get put
get-put k v end = rw (bytes_eq_refl k) refl
get-put k v (field j u fs) = elim (Bool-cases (bytes_eq j k)) [
  | inl e ↦ rw e (rw (bytes_eq_refl k) refl)
  | inr e ↦ rw e (rw e (get-put k v fs))
]

pub get-put_other :
    (j k : Bytes) (v : Value) (fs : Fields) → bytes_eq j k ≡ false → get k (put j v fs) ≡ get k fs
unfolding get put
get-put_other j k v end n = rw n refl
get-put_other j k v (field i u fs) n = elim (Bool-cases (bytes_eq i j)) [
  | inl e ↦ rw e (rw n (rw (other_key i j k e n) refl))
  | inr e ↦ rw e (rw (get-put_other j k v fs n) refl)
]

pub get-delete_other :
    (j k : Bytes) (fs : Fields) → bytes_eq j k ≡ false → get k (delete j fs) ≡ get k fs
unfolding get delete
get-delete_other j k end n = refl
get-delete_other j k (field i u fs) n = elim (Bool-cases (bytes_eq i j)) [
  | inl e ↦ rw e (rw (other_key i j k e n) (get-delete_other j k fs n))
  | inr e ↦ rw e (rw (get-delete_other j k fs n) refl)
]
