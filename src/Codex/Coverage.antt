-- ===== src/Codex/Coverage.antt =====
-- `parseCoverage` and `parseCoverageFile` of internal/codex/parser.go.
use shipmunk_runner.Prelude.{
  ◌==◌, leb, length, Bool, true, false, not, ◌&&◌, ◌||◌, Bytes, codes, bytes_eq, Option, none, some,
  List, [], ◌∷◌, if◌then◌else◌, ◌>>=◌, require, traverse,
}
use shipmunk_runner.Json.{Value, Fields, get, field_count, has_key}
use shipmunk_runner.Codex.Fields.{bounded_string, object_of, array_of, exact_object}
use shipmunk_runner.Codex.Paths.{valid_relative_path}
use shipmunk_runner.Codex.Evidence.{EvidenceRef, parse_references}

pub record CoverageFile : Type 0 where
  pub path : Bytes
  pub status : Bytes
  pub reason : Bytes
  pub evidence : List EvidenceRef

pub record Coverage : Type 0 where
  pub files : List CoverageFile
  pub context_gaps : List Bytes

abbrev pub same : Bool → Bool → Bool
same true b = b
same false b = not b

unfoldable pub reason_field : Option Value → Option Bytes
unfolding bounded_string
reason_field none = some []
reason_field (some v) = bounded_string 500 (some v)

-- `parseCoverageFile`: a reason is there exactly where the status is `unreviewed`.
unfoldable pub file_of : Fields → Option CoverageFile
unfolding bounded_string has_key parse_references valid_relative_path reason_field bytes_eq get
file_of fs = bounded_string 1024 (get (codes "path") fs) >>= λ path.
    bounded_string 16 (get (codes "status") fs) >>= λ status.
    require (bytes_eq status (codes "reviewed") || bytes_eq status (codes "unreviewed")) >>= λ _.
    require (if has_key (codes "reason") fs then field_count fs == 4 else field_count fs == 3)
    >>= λ _.
        require (same (has_key (codes "reason") fs) (bytes_eq status (codes "unreviewed"))) >>= λ _.
        parse_references 0 5 (get (codes "evidence") fs) >>= λ evidence.
        reason_field (get (codes "reason") fs) >>= λ reason.
        require (valid_relative_path path) >>= λ _.
        some (record { path = path; status = status; reason = reason; evidence = evidence })

unfoldable pub parse_coverage_file : Value → Option CoverageFile
unfolding file_of
parse_coverage_file v = object_of (some v) >>= file_of

unfoldable pub gap_of : Value → Option Bytes
unfolding bounded_string
gap_of v = bounded_string 500 (some v)

unfoldable pub coverage_of : Fields → Option Coverage
unfolding parse_coverage_file traverse gap_of get
coverage_of fs = array_of (get (codes "files") fs) >>= λ files.
    array_of (get (codes "context_gaps") fs) >>= λ gaps.
    require (leb (length files) 300 && leb (length gaps) 20) >>= λ _.
    traverse parse_coverage_file files >>= λ files.
    traverse gap_of gaps >>= λ gaps. some (record { files = files; context_gaps = gaps })

abbrev pub coverage_keys : List Bytes
coverage_keys = codes "files" ∷ codes "context_gaps" ∷ []

-- `parseCoverage`.
unfoldable pub parse_coverage : Value → Option Coverage
unfolding exact_object coverage_of
parse_coverage v = exact_object coverage_keys (some v) >>= coverage_of
