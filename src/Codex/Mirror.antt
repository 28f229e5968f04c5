-- ===== src/Codex/Mirror.antt =====
-- `validRelativePath` of internal/codex/parser.go beside `safeRelativePath` of internal/protocol/schema.go,
-- which checks the same path against the contract's pattern.
use shipmunk_runner.Prelude.{
  ◌≡◌, refl, ◌==◌, length, true, false, Bytes, codes, bytes_eq, List, [], ◌∷◌, arith,
}
use shipmunk_runner.Archive.Text.{split}
use shipmunk_runner.Archive.Header.{starts_with_slash, is_unsafe_segment, any_unsafe}
use shipmunk_runner.Protocol.Rules.{safe_relative_path, has_parent}
use shipmunk_runner.Codex.Paths.{valid_relative_path}
use shipmunk_runner.Codex.Relative.{valid_relative_path_iff, safe_not_rooted}

no_parent : (ss : List Bytes) → any_unsafe ss ≡ false → has_parent ss ≡ false
unfolding has_parent
no_parent [] h = refl
no_parent (s ∷ ss) h =
    let here : is_unsafe_segment s ≡ false = ground arith in
    let up : bytes_eq s (codes "..") ≡ false = ground arith in
    let rest : any_unsafe ss ≡ false = ground arith in rw up (no_parent ss rest)

safe_filled : (p : Bytes) → any_unsafe (split p) ≡ false → (length p == 0) ≡ false
safe_filled [] h = cc h
safe_filled (c ∷ p) h = ground arith

-- A path that the parser of the result accepts is one that the contract's pattern accepts when the result
-- is checked against it afterwards.
pub valid_relative_path-safe_relative_path :
    (p : Bytes) → valid_relative_path p ≡ true → safe_relative_path p ≡ true
unfolding safe_relative_path
valid_relative_path-safe_relative_path p h =
    let (no_back, no_c0, safe) = (valid_relative_path_iff p).0 h in
    let a : (length p == 0) ≡ false = safe_filled p safe in
    let b : starts_with_slash p ≡ false = safe_not_rooted p safe in
    let c : has_parent (split p) ≡ false = no_parent (split p) safe in
    rw a (rw b (rw no_back (rw c (rw no_c0 refl))))
