-- ===== src/Supervisor/Frames/Batches.antt =====
-- The event loop of `publishExecution` in internal/supervisor/supervisor.go.
use mathlib.Core.List.{append-nil, append_assoc}
use shipmunk_runner.Prelude.{
  ℕ, zero, suc, ◌+◌, ◌-◌, ◌≤◌, ◌<◌, min, ltb, ◌≡◌, ap, sym, ◌∙◌, Bytes, none, List, [], ◌∷◌, ◌++◌,
  Result, ok, err, arith, length, take, drop, take_all, take-append-take, take-min, length-take,
  length-drop,
}
use shipmunk_runner.Supervisor.Calls.{Err, Trace, send_events}
use shipmunk_runner.Supervisor.Action.{Env, World, Done}
use shipmunk_runner.Supervisor.Lease.{yield}
use shipmunk_runner.Supervisor.Run.{send_from, send_batch, encoded, batch_size}
use shipmunk_runner.Supervisor.Triples.{
  Triple, After, Triple-pure, Triple-lift, Triple-after, Triple-if, Triple-bind, Triple-ask_err,
}
use shipmunk_runner.Supervisor.Frames.{Any, frame_yield}

-- The events that were accepted, in the order of their sending.
unfoldable pub sent : Trace → List Bytes
sent [] = []
sent (send_events es none ∷ t) = sent t ++ es
sent (_ ∷ t) = sent t

-- Each call carries an event at least, and no more than a batch has.
abbrev pub IsBatched : Trace → Type 0
IsBatched [] = Unit
IsBatched (send_events es _ ∷ t) = (1 ≤ length es) × (length es ≤ batch_size) × IsBatched t
IsBatched (_ ∷ t) = IsBatched t

module _ (env : Env) (events : List Bytes) (earlier : List Bytes) where
  abbrev SentTo : ℕ → World → Type 0
  SentTo n w = (sent w.trace ≡ earlier ++ take n events) × IsBatched w.trace

  yield-SentTo : (n : ℕ) → Triple (SentTo n) (yield env) (λ _. SentTo n) (λ _. Any)
  unfolding sent
  yield-SentTo n =
      Triple-after (λ a w h. h) (λ e w h. tt)
        (frame_yield env (λ t. (sent t ≡ earlier ++ take n events) × IsBatched t) (λ r t h. h)
          (λ s c t h. h) (λ n e t h. h) (λ n e t h. h))

  abbrev batch_at : ℕ → List Bytes
  batch_at n = take (min (n + batch_size) (length events) - n) (drop n events)

  take_next :
      (n : ℕ) → n < length events → take n events ++ batch_at n ≡ take (n + batch_size) events
  take_next n h =
      take-append-take n (min (n + batch_size) (length events) - n)
        (min (n + batch_size) (length events)) events (omega arith)
      ∙ take-min (n + batch_size) events

  batch_small :
      (n : ℕ) → n < length events → (1 ≤ length (batch_at n)) × (length (batch_at n) ≤ batch_size)
  batch_small n lt =
      let e = length-take (min (n + batch_size) (length events) - n) (drop n events) in
      (omega (arith, e, length-drop n events), omega (arith, e))

  send_batch-SentTo :
      (n : ℕ)
      → n < length events
      → Triple (SentTo n) (send_batch env (batch_at n)) (λ _. SentTo (n + batch_size)) (λ _. Any)
  unfolding send_batch sent
  send_batch-SentTo n lt =
      Triple-bind (Triple-lift (encoded env (batch_at n)) (λ a e w h. h) (λ e w h. tt)) λ _.
        Triple-bind (yield-SentTo n) λ _.
          Triple-ask_err _ (send_events (batch_at n))
            (λ w h. (
              rw h.0 (
                  append_assoc earlier (take n events) (batch_at n)
                  ∙ ap (λ xs. earlier ++ xs) (take_next n lt)),
              ((batch_small n lt).0, (batch_small n lt).1, h.1),
            ))
            (λ e w h. tt)

  all_sent :
      (n : ℕ) (w : World)
      → length events ≤ n
      → SentTo n w
      → (sent w.trace ≡ earlier ++ events) × IsBatched w.trace
  all_sent n w le h = (h.0 ∙ ap (λ xs. earlier ++ xs) (take_all n events le), h.1)

  send_from-SentTo :
      (f n : ℕ)
      → length events ≤ n + f
      → Triple
          (SentTo n)
          (send_from env f n events)
          (λ _ w. (sent w.trace ≡ earlier ++ events) × IsBatched w.trace)
          (λ _. Any)
  unfolding send_from
  send_from-SentTo zero n le = Triple-pure tt (λ w h. all_sent n w (omega arith) h)
  send_from-SentTo (suc f) n le =
      Triple-if (ltb n (length events))
        (λ t.
          Triple-bind (send_batch-SentTo n (ground arith))
            λ _. send_from-SentTo f (n + batch_size) (omega arith))
        (λ t. Triple-pure tt (λ w h. all_sent n w (ground arith) h))

of_done :
    (Q : World → Type 0) (r : Result Err Done) (w : World)
    → After (λ _. Q) (λ _. Any) r w
    → r ≡ ok tt
    → Q w
of_done Q (ok a) w h e = h
of_done Q (err x) w h e = cc

-- A publication whose event loop returns has had every event accepted once and in order, after what
-- was accepted before, in batches of one to 100 events, whatever renewals came in between.
pub sent-send_from :
    (env : Env) (events : List Bytes) (w : World)
    → IsBatched w.trace
    → (send_from env (length events) 0 events w).0 ≡ ok tt
    → (sent (send_from env (length events) 0 events w).1.trace ≡ sent w.trace ++ events)
      × IsBatched (send_from env (length events) 0 events w).1.trace
sent-send_from env events w b e =
    of_done (λ v. (sent v.trace ≡ sent w.trace ++ events) × IsBatched v.trace)
      (send_from env (length events) 0 events w).0 (send_from env (length events) 0 events w).1
      ((send_from-SentTo env events (sent w.trace) (length events) 0 (omega arith)).at w
        (sym (append-nil (sent w.trace)), b))
      e
