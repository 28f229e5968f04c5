-- ===== src/Mediation/Once.antt =====
-- Replayed frames and a sealed snapshot in internal/codex/mediation.go.
use shipmunk_runner.Prelude.{
  ℕ, suc, ◌≤◌, ◌≡◌, refl, sym, ap, ◌∙◌, subst, ◌==◌, length, true, Bytes, Option, none, some, List,
  [], ◌∷◌, arith, inl, inr, Bool-cases,
}
use shipmunk_runner.Json.{Value}
use shipmunk_runner.Mediation.Requests.{Refusal, CommandRequest, Session, Frame, seal}
use shipmunk_runner.Mediation.Handle.{refusal_of, serve, unless, handle_decoded, request_in, handle}
use shipmunk_runner.Mediation.History.{
  Step, Event, step, step-Step, run_events, refusal_of-none, same, sealed, skipped, spent,
}

Step-executed :
    {s t : Session}
    → Step s t
    → s.mediator.sealed ≡ true
    → (t.executed ≡ s.executed) × (t.mediator.sealed ≡ true)
unfolding seal
Step-executed same e = (refl, e)
Step-executed sealed e = (refl, refl)
Step-executed (skipped r i z) e = (refl, e)
Step-executed (spent r a i o z) e = cc

Step-last : {s t : Session} → Step s t → s.mediator.last ≤ t.mediator.last
unfolding seal
Step-last same = omega arith
Step-last sealed = omega arith
Step-last (skipped r i z) = omega (arith, i)
Step-last (spent r a i o z) = omega (arith, i)

suc_absurd : (n : ℕ) → n ≡ suc n → ⊥
suc_absurd n e = omega arith

module _ (f : Frame) (s : Session) where
  serve-id :
      (r : CommandRequest)
      → length (serve r f s).1.executed ≡ suc (length s.executed)
      → r.id ≡ (serve r f s).1.mediator.last
  unfolding serve
  serve-id r e = elim (Bool-cases (s.mediator.remaining == 0)) [
    | inl z ↦ rw z refl
    | inr z ↦ rw z refl
  ]

  unless-id :
      (o : Option Refusal) (r : CommandRequest)
      → length (unless o r f s).1.executed ≡ suc (length s.executed)
      → r.id ≡ (unless o r f s).1.mediator.last
  unfolding unless
  unless-id (some x) r e = absurd (suc_absurd (length s.executed) e)
  unless-id none r e = serve-id r e

  handle_decoded-id :
      (o : Option CommandRequest)
      → length (handle_decoded o f s).1.executed ≡ suc (length s.executed)
      → (r : CommandRequest) × (o ≡ some r) × (r.id ≡ (handle_decoded o f s).1.mediator.last)
  unfolding handle_decoded
  handle_decoded-id none e = absurd (suc_absurd (length s.executed) e)
  handle_decoded-id (some r) e = (r, refl, unless-id (refusal_of r s.mediator f.done_before) r e)

  unless_replayed :
      (o : Option Refusal) (r : CommandRequest)
      → refusal_of r s.mediator f.done_before ≡ o
      → r.id ≤ s.mediator.last
      → (unless o r f s).1 ≡ s
  unfolding unless
  unless_replayed (some e) r h small = refl
  unless_replayed none r h small =
      absurd (omega (arith, (refusal_of-none r s.mediator f.done_before h).1, small))

  handle_decoded_replayed :
      (o : Option CommandRequest) (r : CommandRequest)
      → o ≡ some r
      → r.id ≤ s.mediator.last
      → (handle_decoded o f s).1 ≡ s
  unfolding handle_decoded
  handle_decoded_replayed none r e small = refl
  handle_decoded_replayed (some q) r e small =
      let e' : q ≡ r = some_injective e in
      unless_replayed (refusal_of q s.mediator f.done_before) q refl
        (subst (λ (q : CommandRequest). q.id ≤ s.mediator.last) (sym e') small)
    where
      some_injective :
          {a b : CommandRequest} → ◌≡◌ {A = Option CommandRequest} (some a) (some b) → a ≡ b
      some_injective e = cc

module _ (decode : Bytes → ℕ → Option Value) where
  run_events-sealed :
      (es : List Event) (s : Session)
      → s.mediator.sealed ≡ true
      → (run_events decode es s).executed ≡ s.executed
  unfolding run_events
  run_events-sealed [] s h = refl
  run_events-sealed (e ∷ es) s h =
      let k = Step-executed (step-Step decode e s) h in
      run_events-sealed es (step decode e s) k.1 ∙ k.0

  run_events-last :
      (es : List Event) (s : Session) → s.mediator.last ≤ (run_events decode es s).mediator.last
  unfolding run_events
  run_events-last [] s = omega arith
  run_events-last (e ∷ es) s =
      let k = Step-last (step-Step decode e s) in
      omega (arith, k, run_events-last es (step decode e s))

  -- After a sealing no frame, however many come, has a command executed.
  pub seal_is_final :
      (before after : List Event) (s : Session)
      → (run_events decode after (seal (run_events decode before s))).executed
        ≡ (run_events decode before s).executed
  unfolding seal
  seal_is_final before after s = run_events-sealed after (seal (run_events decode before s)) refl

  -- A frame whose command was given to the executor, whatever the executor answered, changes
  -- nothing when its bytes come again, whatever came in between: no command is executed twice.
  pub replay_is_refused :
      (f again : Frame) (es : List Event) (s : Session)
      → length (handle decode f s).1.executed ≡ suc (length s.executed)
      → again.raw ≡ f.raw
      → let v = run_events decode es (handle decode f s).1 in (handle decode again v).1 ≡ v
  unfolding handle request_in
  replay_is_refused f again es s e same_bytes =
      let (r, found, id) = handle_decoded-id f s (request_in decode f) e in
      let v = run_events decode es (handle decode f s).1 in
      let older = run_events-last es (handle decode f s).1 in
      handle_decoded_replayed again v (request_in decode again) r
        (ap (λ raw. request_in decode (record f { raw = raw })) same_bytes ∙ found)
        (omega (arith, id, older))
