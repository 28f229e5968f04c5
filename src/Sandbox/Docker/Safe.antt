-- ===== src/Sandbox/Docker/Safe.antt =====
-- What the cleanup of internal/sandbox/watchdog.go stops and removes, and when it ends.
use shipmunk_runner.Prelude.{
  if_cases, or_false, or_true, ◌≡◌, refl, ap, Bool, true, false, not, ◌&&◌, ◌||◌, Bytes, bytes_eq,
  Option, none, some, [], ◌∷◌, arith,
}
use shipmunk_runner.Sandbox.Docker.{
  Inspection, Inspected, missing, unreadable, shown, inspected, stop, kill, remove, Trace, Docker,
  Owner, trim_slash, is_gone, look, confirm, remove_container, after_kill, after_stop,
  remove_owned_with,
}

-- The answer of the newest inspection.
unfoldable pub newest : Trace → Option Inspected
newest [] = none
newest (inspected _ a ∷ t) = some a
newest (_ ∷ t) = newest t

abbrev shows_container : Bytes → Bytes → Inspected → Bool
shows_container name id (shown i) = bytes_eq i.id id && bytes_eq (trim_slash i.name) name
shows_container name id _ = false

-- Some inspection showed a container with this identifier under the name.
unfoldable pub shows : Bytes → Bytes → Trace → Bool
unfolding bytes_eq
shows name id [] = false
shows name id (inspected _ a ∷ t) = shows_container name id a || shows name id t
shows name id (_ ∷ t) = shows name id t

-- The newest inspection shows a container that is owned, and an earlier one showed it under the name.
pub record IsTarget (owns : Owner) (name id : Bytes) (t : Trace) : Type 0 where
  pub container : Inspection
  pub newest_eq : newest t ≡ some (shown container)
  pub owned : owns container id ≡ true
  pub under_name : shows name id t ≡ true

-- Each container that is stopped, killed or removed is such a target at that time.
abbrev pub Aimed : Owner → Bytes → Trace → Type 0
Aimed owns name [] = Unit
Aimed owns name (inspected _ _ ∷ t) = Aimed owns name t
Aimed owns name (stop id ∷ t) = IsTarget owns name id t × Aimed owns name t
Aimed owns name (kill id _ ∷ t) = IsTarget owns name id t × Aimed owns name t
Aimed owns name (remove id _ ∷ t) = IsTarget owns name id t × Aimed owns name t

missing_eq : (a : Inspected) → is_gone a ≡ true → a ≡ missing
missing_eq missing h = refl
missing_eq unreadable h = cc h
missing_eq (shown i) h = cc h

module _ (d : Docker) (owns : Owner) (name : Bytes) where
  -- After a removal of `id`: nil comes of an inspection that finds it missing.
  pub record IsRemoval (id : Bytes) (r : Bool × Trace) : Type 0 where
    pub aimed : Aimed owns name r.1
    pub under_name : shows name id r.1 ≡ true
    pub confirmed : r.0 ≡ true → newest r.1 ≡ some missing

  abbrev pub Ready : Bytes → Trace → Type 0
  Ready id t = Aimed owns name t × (shows name id t ≡ true)

  look-Ready : (id k : Bytes) (t : Trace) → Ready id t → Ready id (look d k t).1
  unfolding shows
  look-Ready id k t r = (r.0, or_true _ _ r.1)

  confirm-IsRemoval : (id k : Bytes) (t : Trace) → Ready id t → IsRemoval id (confirm d k t)
  unfolding newest
  confirm-IsRemoval id k t r =
      let l = look-Ready id k t r in
      record {
        aimed = l.0;
        under_name = l.1;
        confirmed = λ e. ap (λ a. some a) (missing_eq (d.inspect t k) e);
      }

  failed-IsRemoval : (id : Bytes) (t : Trace) → Ready id t → IsRemoval id (false, t)
  failed-IsRemoval id t r = record { aimed = r.0; under_name = r.1; confirmed = λ e. cc e }

  target-Ready : (id : Bytes) (t : Trace) → IsTarget owns name id t → Aimed owns name t → Ready id t
  target-Ready id t g a = (a, g.under_name)

  remove_container-IsRemoval :
      (id : Bytes) (t : Trace)
      → IsTarget owns name id t
      → Aimed owns name t
      → IsRemoval id (remove_container d id t)
  unfolding remove_container shows
  remove_container-IsRemoval id t g a =
      let t' = remove id (d.remove_ok t) ∷ t in
      let r : Ready id t' = ((g, a), g.under_name) in
      let l = look-Ready id id t' r in
      if_cases (IsRemoval id) (d.remove_ok t) (confirm d id t') _
        (λ _. confirm-IsRemoval id id t' r)
        (λ _.
          if_cases (IsRemoval id) (is_gone (look d id t').0) (confirm d id (look d id t').1) _
            (λ _. confirm-IsRemoval id id (look d id t').1 l)
            (λ _. failed-IsRemoval id (look d id t').1 l))

  -- An inspection that shows an owned container makes it a target.
  target :
      (id : Bytes) (i : Inspection) (t : Trace)
      → newest t ≡ some (shown i)
      → not (owns i id) ≡ false
      → Ready id t
      → IsTarget owns name id t
  target id i t e o r = record {
    container = i;
    newest_eq = e;
    owned = ground arith;
    under_name = r.1;
  }

  after_kill-IsRemoval :
      (id : Bytes) (a : Inspected) (t : Trace)
      → newest t ≡ some a
      → Ready id t
      → IsRemoval id (after_kill d owns id (a, t))
  after_kill-IsRemoval id missing t e r = record {
    aimed = r.0;
    under_name = r.1;
    confirmed = λ _. e;
  }
  after_kill-IsRemoval id unreadable t e r = failed-IsRemoval id t r
  after_kill-IsRemoval id (shown i) t e r =
      if_cases (IsRemoval id) (not (owns i id) || i.running) _ (remove_container d id t)
        (λ _. failed-IsRemoval id t r)
        (λ h. remove_container-IsRemoval id t (target id i t e (or_false _ _ h) r) r.0)

  after_stop-IsRemoval :
      (id : Bytes) (a : Inspected) (t : Trace)
      → newest t ≡ some a
      → Ready id t
      → IsRemoval id (after_stop d owns id (a, t))
  unfolding newest shows
  after_stop-IsRemoval id missing t e r = record {
    aimed = r.0;
    under_name = r.1;
    confirmed = λ _. e;
  }
  after_stop-IsRemoval id unreadable t e r = failed-IsRemoval id t r
  after_stop-IsRemoval id (shown i) t e r =
      let t' = kill id (d.kill_ok t) ∷ t in
      if_cases (IsRemoval id) (not (owns i id)) _ _ (λ _. failed-IsRemoval id t r)
        (λ h.
          let g = target id i t e h r in
          if_cases (IsRemoval id) i.running (after_kill d owns id (look d id t'))
            (remove_container d id t)
            (λ _.
              after_kill-IsRemoval id (d.inspect t' id) (look d id t').1 refl
                (look-Ready id id t' ((g, r.0), r.1)))
            (λ _. remove_container-IsRemoval id t g r.0))

  pub remove_owned_with-IsRemoval :
      (id : Bytes) (i : Inspection) (t : Trace)
      → newest t ≡ some (shown i)
      → Ready id t
      → IsRemoval id (remove_owned_with d owns id i t)
  unfolding remove_owned_with newest shows
  remove_owned_with-IsRemoval id i t e r =
      let t' = stop id ∷ t in
      if_cases (IsRemoval id) (not (owns i id)) _ _ (λ _. failed-IsRemoval id t r)
        (λ h.
          let g = target id i t e h r in
          if_cases (IsRemoval id) i.running (after_stop d owns id (look d id t'))
            (remove_container d id t)
            (λ _.
              after_stop-IsRemoval id (d.inspect t' id) (look d id t').1 refl
                (look-Ready id id t' ((g, r.0), r.1)))
            (λ _. remove_container-IsRemoval id t g r.0))
