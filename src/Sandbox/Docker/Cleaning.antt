-- ===== src/Sandbox/Docker/Cleaning.antt =====
-- The loop of `cleanupWatchdogSandboxWithOwner` in internal/sandbox/watchdog.go.
use shipmunk_runner.Prelude.{◌≡◌, Bool, true, false, ◌&&◌, Bytes, bytes_eq, some, ◌⊎◌}
use shipmunk_runner.Sandbox.Docker.{
  Inspection, missing, shown, Trace, Docker, Owner, trim_slash, Cleaned, gone, refused, retrying,
  is_reservation,
}
use shipmunk_runner.Sandbox.Docker.Safe.{newest, shows, Aimed}

-- A container was shown under the name.
abbrev pub Seen : Bytes → Trace → Type 0
Seen name t = (id : Bytes) × (shows name id t ≡ true)

-- The newest inspection shows a container that is not owned, or has another name.
pub record IsForeign (owns : Owner) (name : Bytes) (t : Trace) : Type 0 where
  pub container : Inspection
  pub asked : Bytes
  pub newest_eq : newest t ≡ some (shown container)
  pub foreign : (owns container asked && bytes_eq (trim_slash container.name) name) ≡ false

-- The newest inspection shows the tombstone of an uncertain creation.
pub record IsTombstone (name : Bytes) (t : Trace) : Type 0 where
  pub container : Inspection
  pub newest_eq : newest t ≡ some (shown container)
  pub reserved : is_reservation name container ≡ true

-- Why a cleanup ended.
abbrev pub Verdict : Owner → Bytes → Bool → Cleaned × Trace → Type 0
Verdict owns name in_flight (gone, t) =
    ((newest t ≡ some missing) × (in_flight ≡ true → Seen name t)) ⊎ IsTombstone name t
Verdict owns name in_flight (refused, t) = IsForeign owns name t
Verdict owns name in_flight (retrying, t) = Unit

abbrev pub IsCleanup : Owner → Bytes → Bool → Cleaned × Trace → Type 0
IsCleanup owns name in_flight r = Aimed owns name r.1 × Verdict owns name in_flight r

module _ (d : Docker) (owns : Owner) (name : Bytes) (in_flight : Bool) where
  abbrev Round : (Bool → Bytes → Trace → Cleaned × Trace) → Type 0
  Round again =
      (observed : Bool) (observed_id : Bytes) (t : Trace)
      → Aimed owns name t
      → (observed ≡ true → Seen name t)
      → IsCleanup owns name in_flight (again observed observed_id t)
