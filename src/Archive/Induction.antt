-- ===== src/Archive/Induction.antt =====
-- Properties that every round of `Extract` in internal/workspace/tar.go keeps.
use shipmunk_runner.Prelude.{
  Holds, ℕ, zero, suc, ltb, ◌≡◌, refl, length, take, drop, Bool, true, false, Bytes, List, [],
  Result, ok, err, Bool-cases, inl, inr, if◌then◌else◌,
}
use shipmunk_runner.Archive.Header.{Reason, bad_destination, all_zero, padded_size}
use shipmunk_runner.Archive.Extract.{
  FileSystem, Write, Progress, Outcome, Entry, and_next, write_entry, progressed, next_pending,
  take_entry, and_entry, extract_from, extract_decoded, fresh,
}

module _ (fs : FileSystem) (max_files max_bytes : ℕ) (P : Progress → Type 0)
    (Q : List Write → Type 0) where
  -- What a round has to show: of what an entry writes, and of the variables after it.
  abbrev pub Round : Progress → (ℕ × Entry) → Type 0
  Round p (size, e) =
      Q (write_entry fs e p.written).1
      × ((write_entry fs e p.written).0 ≡ ok tt
          → P (progressed p size (next_pending p.pending e) (write_entry fs e p.written).1))

  either : (b : Bool) (x y : Outcome) → Q x.1 → Q y.1 → Q (if b then x else y).1
  either true x y h k = h
  either false x y h k = k

  after_write :
      (p : Progress) (o : Outcome) (f : List Write → Outcome)
      → Q o.1
      → (o.0 ≡ ok tt → Q (f o.1).1)
      → Q (and_next o f).1
  after_write p (err e, ws) f q k = q
  after_write p (ok tt, ws) f q k = k refl

  after_entry :
      (p : Progress) (r : Result Reason (ℕ × Entry)) (f : ℕ → Progress → Outcome)
      → Q p.written
      → Holds (Round p) r
      → ((size : ℕ) (q : Progress) → P q → Q (f size q).1)
      → Q (and_entry fs max_files max_bytes p r f).1
  after_entry p (err e) f q h k = q
  after_entry p (ok (size, e)) f q h k =
      after_write p (write_entry fs e p.written) _ h.0 (λ done. k size _ (h.1 done))

  module _ (now : (p : Progress) → P p → Q p.written)
      (round : (header body : Bytes) (p : Progress)
        → P p
        → Holds (Round p) (take_entry fs max_files max_bytes header body p)) where
    pub extract_from-keeps :
        (f : ℕ) (rest : Bytes) (p : Progress)
        → P p
        → Q (extract_from fs max_files max_bytes f rest p).1
    unfolding extract_from
    extract_from-keeps zero rest p h = now p h
    extract_from-keeps (suc f) rest p h =
        let next =
          after_entry p (take_entry fs max_files max_bytes (take 512 rest) (drop 512 rest) p) _
            (now p h) (round (take 512 rest) (drop 512 rest) p h)
            (λ size q k. extract_from-keeps f (drop (padded_size size) (drop 512 rest)) q k) in
        elim (Bool-cases (ltb (length rest) 512)) [
          | inl e ↦ rw e (now p h)
          | inr e ↦ elim (Bool-cases (fs.cancelled p.written rest)) [
            | inl c ↦ rw e (rw c (now p h))
            | inr c ↦ elim (Bool-cases (all_zero (take 512 rest))) [
              | inl z ↦ rw e (rw c (rw z (now p h)))
              | inr z ↦ rw e (rw c (rw z next))
            ]
          ]
        ]

    pub extract_decoded-keeps :
        P (fresh)
        → Q []
        → (r : Result Reason Bytes) → Q (extract_decoded fs max_files max_bytes r).1
    extract_decoded-keeps start empty (err e) = empty
    extract_decoded-keeps start empty (ok s) =
        either fs.is_directory (extract_from fs max_files max_bytes (suc (length s)) s fresh)
          (err bad_destination, []) (extract_from-keeps (suc (length s)) s fresh start) empty
