-- ===== src/Mediation/History.antt =====
-- Runs of frames through `Handle` and `Seal` of internal/codex/mediation.go.
use shipmunk_runner.Prelude.{
  ℕ, zero, suc, ◌+◌, ◌≤◌, ◌<◌, ◌≡◌, refl, ◌∙◌, subst, ◌==◌, ◌||◌, length, Bool, false, not, Bytes,
  Option, none, some, List, [], ◌∷◌, map, Result, ok, pos, arith, All, inl, inr, Bool-cases, ltb,
}
use shipmunk_runner.Json.{Value}
use shipmunk_runner.Mediation.Requests.{
  Refusal, CommandRequest, Mediator, Command, Session, Frame, new_mediator, seal, max_safe_integer,
}
use shipmunk_runner.Mediation.Handle.{
  skip_command, spend_command, refusal_of, serve, unless, handle_decoded, request_in, handle,
}

pub data Event : Type 0 where
  frame : Frame → Event
  sealing : Event

abbrev pub opened : Mediator → Session
opened m = record { mediator = m; executed = [] }

-- `k`, …, 1.
abbrev pub countdown : ℕ → List ℕ
countdown zero = []
countdown (suc k) = suc k ∷ countdown k

abbrev pub ids : List Command → List ℕ
ids = map (λ (c : Command). c.id)

-- What one step may do to a session, for a request with a fence and the next sequence number.
pub data Step : Session → Session → Type 0 where
  same : {s : Session} → Step s s
  sealed : {s : Session} → Step s (seal s)
  skipped :
      {s : Session} (r : CommandRequest)
      → r.id ≡ s.mediator.last + 1
      → s.mediator.remaining ≡ 0
      → Step s (skip_command r s)
  spent :
      {s : Session} (r : CommandRequest)
      → r.fence ≡ s.mediator.fence
      → r.id ≡ s.mediator.last + 1
      → s.mediator.sealed ≡ false
      → 0 < s.mediator.remaining
      → Step s (spend_command r s)

pub refusal_of-none :
    (r : CommandRequest) (m : Mediator) (done : Bool)
    → refusal_of r m done ≡ none
    → (r.fence ≡ m.fence) × (r.id ≡ m.last + 1) × (m.sealed ≡ false)
unfolding refusal_of
refusal_of-none r m done h = ground arith

serve-Step :
    (r : CommandRequest) (f : Frame) (s : Session)
    → r.fence ≡ s.mediator.fence
    → r.id ≡ s.mediator.last + 1
    → s.mediator.sealed ≡ false
    → Step s (serve r f s).1
unfolding serve
serve-Step r f s a b c = elim (Bool-cases (s.mediator.remaining == 0)) [
  | inl z ↦ rw z (skipped r b (ground arith))
  | inr z ↦ rw z (spent r a b c (ground arith))
]

unless-Step :
    (o : Option Refusal) (r : CommandRequest) (f : Frame) (s : Session)
    → refusal_of r s.mediator f.done_before ≡ o
    → Step s (unless o r f s).1
unfolding unless
unless-Step (some e) r f s h = same
unless-Step none r f s h =
    let (a, b, c) = refusal_of-none r s.mediator f.done_before h in serve-Step r f s a b c

handle_decoded-Step :
    (o : Option CommandRequest) (f : Frame) (s : Session) → Step s (handle_decoded o f s).1
unfolding handle_decoded
handle_decoded-Step none f s = same
handle_decoded-Step (some r) f s = unless-Step (refusal_of r s.mediator f.done_before) r f s refl

module _ (decode : Bytes → ℕ → Option Value) where
  unfoldable pub step : Event → Session → Session
  unfolding seal
  step (frame f) s = (handle decode f s).1
  step sealing s = seal s

  unfoldable pub run_events : List Event → Session → Session
  unfolding step
  run_events [] s = s
  run_events (e ∷ es) s = run_events es (step e s)

  pub step-Step : (e : Event) (s : Session) → Step s (step e s)
  unfolding step handle
  step-Step (frame f) s = handle_decoded-Step (request_in decode f) f s
  step-Step sealing s = sealed

-- Of a session with a fence and a budget.
pub record Counted (f n : ℕ) (s : Session) : Type 0 where
  pub fence : s.mediator.fence ≡ f
  pub order : ids s.executed ≡ countdown (length s.executed)
  pub budget : length s.executed + s.mediator.remaining ≡ n
  pub next : 0 < s.mediator.remaining → s.mediator.last ≡ length s.executed
  pub fences : All (λ (c : Command). c.fence ≡ f) s.executed

Step-Counted : (f n : ℕ) {s t : Session} → Step s t → Counted f n s → Counted f n t
unfolding seal
Step-Counted f n same c = c
Step-Counted f n sealed c = record {
  fence = c.fence;
  order = c.order;
  budget = c.budget;
  next = c.next;
  fences = c.fences;
}
Step-Counted f n (skipped r i z) c = record {
  fence = c.fence;
  order = c.order;
  budget = c.budget;
  next = λ p. absurd (omega (arith, z, p));
  fences = c.fences;
}
Step-Counted f n {s} (spent r e i o z) c =
    let next : r.id ≡ suc (length s.executed) = omega (arith, i, c.next z) in
    record {
      fence = c.fence;
      order = ap2 next c.order;
      budget = omega (arith, c.budget, z);
      next = λ p. next;
      fences = (e ∙ c.fence, c.fences);
    }
  where
    ap2 : {x y : ℕ} {xs ys : List ℕ} → x ≡ y → xs ≡ ys → (x ∷ xs) ≡ (y ∷ ys)
    ap2 p q = λ i. p i ∷ q i

ok_injective : {a b : Mediator} → ◌≡◌ {A = Result Refusal Mediator} (ok a) (ok b) → a ≡ b
ok_injective e = cc

new_mediator-Counted :
    (f n : ℕ) (has_executor : Bool) (m : Mediator)
    → new_mediator (pos f) (pos n) has_executor ≡ ok m
    → Counted f n (opened m)
unfolding new_mediator
new_mediator-Counted f n has_executor m h =
    elim (Bool-cases (ltb f 1 || ltb max_safe_integer f || ltb n 1 || not has_executor)) [
      | inl bad ↦ cc (rw bad at h)
      | inr good ↦
          subst (λ m. Counted f n (opened m)) (ok_injective (rw good at h))
            (record {
              fence = refl;
              order = refl;
              budget = omega arith;
              next = λ p. refl;
              fences = tt;
            })
    ]

module _ (decode : Bytes → ℕ → Option Value) (f n : ℕ) where
  run_events-Counted :
      (es : List Event) (s : Session) → Counted f n s → Counted f n (run_events decode es s)
  unfolding run_events
  run_events-Counted [] s c = c
  run_events-Counted (e ∷ es) s c =
      run_events-Counted es (step decode e s) (Step-Counted f n (step-Step decode e s) c)

  -- Whatever frames come to a new mediator, and whenever it is sealed: the commands that were
  -- executed had the sequence numbers 1, 2, and so on, in that order and each once, all under its
  -- fence, and there were no more of them than its budget.
  pub executed_in_order :
      (has_executor : Bool) (m : Mediator) (es : List Event)
      → new_mediator (pos f) (pos n) has_executor ≡ ok m
      → let v = run_events decode es (opened m) in
        (ids v.executed ≡ countdown (length v.executed))
        × (length v.executed ≤ n)
        × All (λ (c : Command). c.fence ≡ f) v.executed
  executed_in_order has_executor m es h =
      let c = run_events-Counted es (opened m) (new_mediator-Counted f n has_executor m h) in
      (c.order, omega (arith, c.budget), c.fences)
