-- ===== src/Tests/Cleaning.antt =====
-- A run of the watchdog's cleanup.
use shipmunk_runner.Prelude.{
  ◌≡◌, refl, Bool, true, false, Bytes, codes, bytes_eq, [], ◌∷◌, if◌then◌else◌,
}
use shipmunk_runner.Sandbox.Docker.{
  Inspected, missing, shown, inspected, stop, remove, Trace, Docker, owns_sandbox_identifier, gone,
  cleanup_sandbox,
}

abbrev attempt : Bytes
attempt = codes "01234567890123456789abcdef"

abbrev sandbox_name : Bytes
sandbox_name = codes "shipmunk-01234567890123456789abcdef-7"

abbrev id : Bytes
id = codes "0123456789abcdef"

abbrev label : Bytes → Bytes
label k =
    if bytes_eq k (codes "shipmunk.runner")
    then codes "true"
    else if bytes_eq k (codes "shipmunk.run")
    then attempt
    else if bytes_eq k (codes "shipmunk.attempt")
    then attempt
    else if bytes_eq k (codes "shipmunk.fence")
    then codes "7"
    else []

abbrev running : Bool → Inspected
running r = shown (record {
  id = id;
  name = codes "/shipmunk-01234567890123456789abcdef-7";
  labels = label;
  running = r;
})

abbrev after : Trace → Inspected
after [] = missing
after (inspected _ _ ∷ []) = running true
after (stop _ ∷ _) = running false
after _ = missing

-- A container that appears late, runs, and is stopped and removed.
abbrev daemon : Docker
daemon = record { inspect = λ t _. after t; kill_ok = λ _. true; remove_ok = λ _. true }

cleans : cleanup_sandbox daemon owns_sandbox_identifier sandbox_name true 5 [] [] ≡ (
  gone,
  inspected id missing
      ∷ remove id true
      ∷ inspected id (running false)
      ∷ stop id
      ∷ inspected sandbox_name (running true)
      ∷ inspected sandbox_name missing
      ∷ [],
)
unfolding cleanup_sandbox owns_sandbox_identifier
cleans = refl
