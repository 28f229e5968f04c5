-- ===== src/Supervisor/Frames/Settlement.antt =====
-- The refused stopped acknowledgements that `reconcile` of internal/supervisor/supervisor.go counts.
use shipmunk_runner.Prelude.{
  ℕ, zero, suc, pos, ◌+◌, ◌≤◌, ◌<◌, ◌≡◌, refl, sym, ◌∙◌, subst, Bool, true, false, not, Bytes,
  Option, none, some, Result, ok, err, arith, bytes_eq, int_incr, int_ltb, ltb, if◌then◌else◌,
}
use shipmunk_runner.Claim.{Claim}
use shipmunk_runner.Journal.{State}
use shipmunk_runner.Supervisor.Calls.{Err, Call, committed, Trace, journal}
use shipmunk_runner.Supervisor.Action.{Env, World, Action, Done, lift}
use shipmunk_runner.Supervisor.Triples.{
  Triple, After, Triple-pure, Triple-raise, Triple-before, Triple-after, Triple-if, Triple-recover,
  Triple-bind, Triple-gets, Triple-ask, Triple-sure, Triple-sure_commit,
}
use shipmunk_runner.Supervisor.Lease.{save, legacy_container_id}
use shipmunk_runner.Supervisor.Recovery.{
  refused_acknowledgement, recovered_claim, confirmed, acknowledge, clear, remove, clean_executor,
  interrupted_result, report_interrupted, recover_container, reconcile_container, recover_sandbox,
  recover_executor, hold_refused, count_refusal, recover_attempt, recover_journal, reconcile,
}

-- What the journal names can be released: no sandbox, or one by a container's identifier, which is not
-- its reserved name, where no executor runs the attempts.
abbrev pub IsResolved : Env → Claim → Option Bytes → Type 0
IsResolved env c none = Unit
IsResolved env c (some id) =
    (env.has_executor ≡ false)
    × (legacy_container_id id ≡ true)
    × ((name : Bytes) × (env.name c.run_id c.attempt_id c.fence ≡ ok name)
        × (bytes_eq id name ≡ false))

-- Everything works but the stopped acknowledgement, which is refused with the error `e`.
pub record Refuses (env : Env) (s : State) (e : Err) : Type 0 where
  pub loads : (t : Trace) → env.load t ≡ none
  pub saves : (x : State) (t : Trace) → env.save x t ≡ committed
  pub clears : (t : Trace) → env.clear t ≡ committed
  pub cleans : (t : Trace) → env.clean_executor t ≡ none
  pub removes : (p : Bytes) (t : Trace) → env.remove p t ≡ none
  pub refuses : (c : Claim) (t : Trace) → env.acknowledge c t ≡ some e
  pub conflict : refused_acknowledgement e ≡ true
  pub own_path : bytes_eq s.workspace (env.path (recovered_claim s)) ≡ true
  pub reconciles : (id : Bytes) (t : Trace) → env.reconcile id t ≡ none
  pub resolved : IsResolved env (recovered_claim s) s.sandbox_id

abbrev pub counted : State → ℕ → State
counted s n = record s { refused_stopped_count = pos n }

incremented : (k : ℕ) → k ≤ 1000 → int_incr (pos k) ≡ pos (k + 1)
incremented k small = ground arith

below : (k : ℕ) → int_ltb (pos (k + 1)) (pos 3) ≡ true → k < 2
below k b = ground arith

above : (k : ℕ) → int_ltb (pos (k + 1)) (pos 3) ≡ false → 2 ≤ k
above k b = ground arith

both_ways : (b : Bool) → b ≡ true → b ≡ false → ⊥
both_ways b h k = cc

never_not : (b : Bool) → b ≡ true → not b ≡ true → ⊥
never_not b h k = ground arith

abbrev Holds : Option State → World → Type 0
Holds o w = journal w.trace ≡ o

abbrev Never : Err → World → Type 0
Never e w = ⊥

module _ (env : Env) (s : State) (e : Err) (h : Refuses env s e) where
  module _ (o : Option State) where
    confirmed_sure :
        {P : World → Type 0} {m : Action Done}
        → Triple P m (λ _. Holds o) Never
        → Triple P (confirmed env m) (λ _. Holds o) Never
    unfolding confirmed
    confirmed_sure t = Triple-recover t (λ e. Triple-raise _ (λ w h. h))

    lifted :
        (name : Bytes) (r : Result Err Bytes)
        → r ≡ ok name
        → Triple (Holds o) (lift r) (λ a w. Holds o w × (a ≡ name)) Never
    unfolding lift
    lifted name (ok a) e = record { at = λ w j. (j, ok_injective e) }
      where
        ok_injective : {a b : Bytes} → ◌≡◌ {A = Result Err Bytes} (ok a) (ok b) → a ≡ b
        ok_injective e = cc
    lifted name (err x) e = cc e

    released :
        (c : Claim) (sandbox : Option Bytes)
        → IsResolved env c sandbox
        → Triple
            (Holds o)
            (if env.has_executor
              then recover_executor env sandbox
              else recover_sandbox env c sandbox)
            (λ _. Holds o)
            Never
    unfolding recover_executor recover_sandbox recover_container reconcile_container clean_executor
        journal
    released c (some id) (plain, legacy, (name, named, other)) =
        Triple-if env.has_executor (λ b. absurd (both_ways _ b plain))
          (λ _.
            Triple-bind {Q = λ a w. Holds o w × (a ≡ name)} (lifted name _ named)
              λ a. record { at = λ w j. rw j.1 (container.at w j.0) })
      where
        container : Triple (Holds o) (recover_container env id name) (λ _. Holds o) Never
        container =
            Triple-if (bytes_eq id name) (λ b. absurd (both_ways _ b other))
              (λ _.
                Triple-if (not (legacy_container_id id)) (λ b. absurd (never_not _ legacy b))
                  (λ _.
                    confirmed_sure (
                      Triple-sure _ (Call.reconcile_sandbox id) none (h.reconciles id) (λ w j. j))))
    released c none n =
        Triple-if env.has_executor
          (λ _. confirmed_sure (Triple-sure _ Call.cleanup_executor none h.cleans (λ w j. j)))
          (λ _. Triple-pure tt (λ w j. j))

    removed : (p : Bytes) → Triple (Holds o) (confirmed env (remove env p)) (λ _. Holds o) Never
    unfolding remove journal
    removed p =
        confirmed_sure (Triple-sure _ (Call.remove_workspace p) none (h.removes p) (λ w j. j))

    reported :
        (c : Claim)
        → Triple (Holds o) (report_interrupted env c) (λ _ _. ⊥) (λ x w. Holds o w × (x ≡ e))
    unfolding report_interrupted acknowledge journal
    reported c = Triple-gets _ λ now.
        Triple-before (λ w j. j.0)
          (Triple-bind {Q = λ _. Holds o}
            (Triple-if (ltb now c.lease_expires_at)
              (λ _.
                Triple-bind {Q = λ _. Holds o}
                  (Triple-ask _ (Call.complete (interrupted_result c)) (λ r w j. j))
                  λ _. Triple-pure tt (λ w j. j))
              (λ _. Triple-pure tt (λ w j. j)))
            λ _.
              Triple-sure _ (Call.acknowledge_stopped c) (some e) (h.refuses c) (λ w j. (j, refl)))

  abbrev Counts : ℕ → World → Type 0
  Counts k = Holds (some (counted s k))

  held :
      (k : ℕ)
      → Triple (Counts k) (hold_refused env (counted s (k + 1)) e) (λ _ _. ⊥) (λ _. Counts (k + 1))
  unfolding hold_refused save journal
  held k =
      Triple-bind {Q = λ _. Counts (k + 1)}
        (Triple-recover {F = Never}
          (Triple-sure_commit _ (Call.save_journal (counted s (k + 1)))
            (h.saves (counted s (k + 1))) (λ w j. refl))
          (λ f. Triple-raise _ (λ w j. absurd j)))
        λ _. Triple-raise _ (λ w j. j)

  abbrev Cleared : ℕ → World → Type 0
  Cleared k w = (2 ≤ k) × Counts k w

  abbrev Kept : ℕ → Err → World → Type 0
  Kept k _ w = (k < 2) × Counts (k + 1) w

  -- The third refusal lets the recovery clear the journal; an earlier one is counted in it.
  settled :
      (k : ℕ)
      → k ≤ 1000
      → Triple (Counts k) (count_refusal env (counted s k) e) (λ _. Cleared k) (Kept k)
  unfolding count_refusal
  settled k small =
      Triple-if (not (refused_acknowledgement e)) (λ n. absurd (conflict n))
        (λ _. rw (incremented k small) (
          Triple-if (int_ltb (pos (k + 1)) (pos 3))
            (λ b. Triple-after (λ a w j. absurd j) (λ x w j. (below k b, j)) (held k))
            (λ b. Triple-pure tt (λ w j. (above k b, j)))))
    where
      conflict : not (refused_acknowledgement e) ≡ true → ⊥
      conflict n = ground (arith, h.conflict)

  recovered :
      (k : ℕ)
      → k ≤ 1000
      → Triple
          (Counts k)
          (recover_attempt env (counted s k))
          (λ _ w. (2 ≤ k) × Holds none w)
          (Kept k)
  unfolding recover_attempt clear recovered_claim journal
  recovered k small =
      Triple-if (not (bytes_eq s.workspace (env.path (recovered_claim s)))) (λ n. absurd (own n))
        (λ _.
          Triple-bind {Q = λ _. Counts k}
            (never (released (some (counted s k)) _ s.sandbox_id h.resolved))
            λ _. Triple-bind {Q = λ _. Counts k} (never (removed (some (counted s k)) _)) λ _.
              Triple-bind {Q = λ _. Cleared k}
                (Triple-recover
                  (Triple-after (λ a w j. absurd j) (λ x w j. j) (reported (some (counted s k)) _))
                  (λ x. record { at = λ w j. rw j.1 ((settled k small).at w j.0) }))
                λ _. Triple-sure_commit _ Call.clear_journal h.clears (λ w j. (j.0, refl)))
    where
      own : not (bytes_eq s.workspace (env.path (recovered_claim s))) ≡ true → ⊥
      own n = ground (arith, h.own_path)

      never :
          {A : Type 0} {P : World → Type 0} {Q : A → World → Type 0} {m : Action A}
          → Triple P m Q Never
          → Triple P m Q (Kept k)
      never t = Triple-after (λ a w j. j) (λ x w j. absurd j) t

  found_counted :
      (k : ℕ)
      → k ≤ 1000
      → (found : Option State) (w : World) → journal w.trace ≡ found
      → Counts k w
      → After
          (λ (_ : Done) w. (2 ≤ k) × Holds none w)
          (Kept k)
          (recover_journal env found w).0
          (recover_journal env found w).1
  unfolding recover_journal
  found_counted k small found w f j =
      let e : some (counted s k) ≡ found = sym j ∙ f in
      subst
        (λ o.
          After (λ (_ : Done) w. (2 ≤ k) × Holds none w) (Kept k) (recover_journal env o w).0
            (recover_journal env o w).1)
        e ((recovered k small).at w j)

  recovery :
      (k : ℕ)
      → k ≤ 1000
      → Triple (Counts k) (reconcile env) (λ _ w. (2 ≤ k) × Holds none w) (Kept k)
  unfolding reconcile recover_journal journal
  recovery k small =
      Triple-bind {Q = λ _. Counts k} (Triple-sure _ Call.load_journal none h.loads (λ w j. j))
        λ _. Triple-gets _ λ found. record { at = λ w j. found_counted k small found w j.1 j.0 }

  by_count :
      (k : ℕ) (r : Result Err Done) (w : World)
      → After (λ (_ : Done) w. (2 ≤ k) × Holds none w) (Kept k) r w
      → journal w.trace ≡ (if ltb k 2 then some (counted s (k + 1)) else none)
  by_count k (ok a) w j = ground (arith, j.0, j.1)
  by_count k (err e) w j = ground (arith, j.0, j.1)

  pub journal-reconcile :
      (k : ℕ) (w : World)
      → k ≤ 1000
      → journal w.trace ≡ some (counted s k)
      → journal (reconcile env w).1.trace ≡ (if ltb k 2 then some (counted s (k + 1)) else none)
  journal-reconcile k w small j =
      by_count k (reconcile env w).0 (reconcile env w).1 ((recovery k small).at w j)

-- `n` recoveries one after the other, each in the world that the one before it left.
pub recoveries : ℕ → Env → World → World
recoveries zero env w = w
recoveries (suc n) env w = recoveries n env (reconcile env w).1

-- Where all else works, an attempt whose stopped acknowledgement is refused every time, and whose
-- journal names no sandbox, or one by a container's identifier that is not the attempt's reserved
-- name while no executor is set, is journaled with one refusal more after the first and after the
-- second recovery, and the third one clears its journal.
pub third_refusal_settles :
    (env : Env) (s : State) (e : Err) (w : World)
    → Refuses env s e
    → journal w.trace ≡ some (counted s 0)
    → (journal (recoveries 1 env w).trace ≡ some (counted s 1))
      × (journal (recoveries 2 env w).trace ≡ some (counted s 2))
      × (journal (recoveries 3 env w).trace ≡ none)
unfolding recoveries
third_refusal_settles env s e w h j =
    let w1 = (reconcile env w).1 in
    let j1 = journal-reconcile env s e h 0 w (omega arith) j in
    let w2 = (reconcile env w1).1 in
    let j2 = journal-reconcile env s e h 1 w1 (omega arith) j1 in
    (j1, j2, journal-reconcile env s e h 2 w2 (omega arith) j2)
