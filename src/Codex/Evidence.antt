-- ===== src/Codex/Evidence.antt =====
-- `parseEvidenceRef` and `parseAnchor` of internal/codex/parser.go.
use shipmunk_runner.Prelude.{
  ℕ, ◌==◌, leb, length, Bool, true, ◌&&◌, ◌||◌, Bytes, codes, Option, some, List, [], ◌∷◌, is_digit,
  ◌>>=◌, require, traverse,
}
use shipmunk_runner.Json.{Value, Fields, get}
use shipmunk_runner.Codex.Fields.{bounded_string, array_of, one_of, exact_object, positive_number}
use shipmunk_runner.Codex.Paths.{valid_relative_path}

pub record EvidenceRef : Type 0 where
  pub snapshot : Bytes
  pub path : Bytes
  pub line_start : ℕ
  pub line_end : ℕ
  pub reason : Bytes

pub record Anchor : Type 0 where
  pub path : Bytes
  pub line : ℕ
  pub side : Bytes

abbrev is_lower_hex : ℕ → Bool
is_lower_hex c = is_digit c || leb b'a' c && leb c b'f'

abbrev all_lower_hex : Bytes → Bool
all_lower_hex [] = true
all_lower_hex (c ∷ s) = is_lower_hex c && all_lower_hex s

-- `evidenceSnapshotPattern`.
unfoldable pub is_snapshot : Bytes → Bool
is_snapshot s = length s == 40 && all_lower_hex s

abbrev max_reason : ℕ
max_reason = 500

unfoldable pub evidence_of : Fields → Option EvidenceRef
unfolding bounded_string positive_number is_snapshot valid_relative_path get
evidence_of fs = bounded_string 40 (get (codes "snapshot") fs) >>= λ snapshot.
    bounded_string 1024 (get (codes "path") fs) >>= λ path.
    positive_number (get (codes "line_start") fs) >>= λ first.
    positive_number (get (codes "line_end") fs) >>= λ last.
    bounded_string max_reason (get (codes "reason") fs) >>= λ reason.
    require (is_snapshot snapshot && valid_relative_path path && leb first last) >>= λ _.
    some (record {
      snapshot = snapshot;
      path = path;
      line_start = first;
      line_end = last;
      reason = reason;
    })

abbrev pub evidence_keys : List Bytes
evidence_keys =
    codes "snapshot" ∷ codes "path" ∷ codes "line_start" ∷ codes "line_end" ∷ codes "reason" ∷ []

-- `parseEvidenceRef`.
unfoldable pub parse_evidence_ref : Value → Option EvidenceRef
unfolding exact_object evidence_of
parse_evidence_ref v = exact_object evidence_keys (some v) >>= evidence_of

-- An array of at most so many references.
unfoldable pub parse_references : ℕ → ℕ → Option Value → Option (List EvidenceRef)
unfolding parse_evidence_ref traverse
parse_references low high v = array_of v >>= λ vs.
    require (leb low (length vs) && leb (length vs) high) >>= λ _. traverse parse_evidence_ref vs

abbrev anchor_of : Fields → Option Anchor
unfolding bounded_string positive_number one_of valid_relative_path get
anchor_of fs = bounded_string 1024 (get (codes "path") fs) >>= λ path.
    positive_number (get (codes "line") fs) >>= λ line.
    bounded_string 16 (get (codes "side") fs) >>= λ side.
    require (valid_relative_path path && one_of side (codes "LEFT" ∷ codes "RIGHT" ∷ [])) >>= λ _.
    some (record { path = path; line = line; side = side })

-- `parseAnchor`.
unfoldable pub parse_anchor : Value → Option Anchor
unfolding exact_object anchor_of
parse_anchor v =
    exact_object (codes "path" ∷ codes "line" ∷ codes "side" ∷ []) (some v) >>= anchor_of
