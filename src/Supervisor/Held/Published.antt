-- ===== src/Supervisor/Held/Published.antt =====
-- `publishExecution` of internal/supervisor/supervisor.go: the guard and the journal around it.
use shipmunk_runner.Prelude.{
  ℕ, zero, suc, ◌+◌, ltb, length, refl, Bytes, Option, none, some, List, [], ◌∷◌, Result,
}
use shipmunk_runner.Journal.{State}
use shipmunk_runner.Json.{Value, Fields}
use shipmunk_runner.Supervisor.Calls.{Err, Call, Artifact, Execution, journal}
use shipmunk_runner.Supervisor.Action.{Env, World}
use shipmunk_runner.Supervisor.Lease.{yield}
use shipmunk_runner.Supervisor.Run.{
  send_from, send_batch, encoded, upload_all, patch_after, deliver, publish,
}
use shipmunk_runner.Supervisor.Triples.{
  Keeps, Triple-pure, Triple-raise, Triple-lift, Triple-if, Triple-bind, Triple-set_guard,
}
use shipmunk_runner.Supervisor.Held.{Live, live_after, IsHeld, Inv}
use shipmunk_runner.Supervisor.Held.Renewal.{Keeps-err, Keeps-result, Keeps-live, Keeps-yield}
use shipmunk_runner.Supervisor.Held.Creation.{Anything}

module _ (env : Env) (named : Result Err Bytes) (l : Live) where
  abbrev pub Same : World → Type 0
  Same = Inv env named l l Anything

  abbrev pub same_held : (j : Option State) → IsHeld env l j → IsHeld env l j
  same_held j h = h

  pub yield-Same : Keeps Same (yield env)
  yield-Same = Keeps-yield env named l l same_held Anything (λ g t h. h) (λ g h. h)

  send_batch-Same : (events : List Bytes) → Keeps Same (send_batch env events)
  unfolding send_batch live_after journal
  send_batch-Same events =
      Triple-bind (Triple-lift (encoded env events) (λ a e w h. h) (λ e w h. h)) λ _.
        Triple-bind yield-Same λ _.
          Keeps-err env named l l same_held Anything _ (Call.send_events events) (λ e t. refl)
            (λ e t. refl)

  send_from-Same : (f start : ℕ) (events : List Bytes) → Keeps Same (send_from env f start events)
  unfolding send_from
  send_from-Same zero start events = Triple-pure tt (λ w h. h)
  send_from-Same (suc f) start events =
      Triple-if (ltb start (length events))
        (λ _. Triple-bind (send_batch-Same _) λ _. send_from-Same f (start + 100) events)
        (λ _. Triple-pure tt (λ w h. h))

  upload_all-Same :
      (patch : Value) (items : List Artifact) → Keeps Same (upload_all env patch items)
  unfolding upload_all live_after journal
  upload_all-Same patch [] = Triple-pure patch (λ w h. h)
  upload_all-Same patch (a ∷ rest) =
      Triple-bind
        (Triple-bind yield-Same λ _.
          Keeps-result env named l l same_held Anything _ (Call.upload_artifact a) (λ e t. refl)
            (λ e t. refl))
        λ id. upload_all-Same (patch_after patch a id) rest

  deliver-Same : (result : Fields) → Keeps Same (deliver env result)
  unfolding deliver live_after journal
  deliver-Same result = Triple-bind (Keeps-live env named l l same_held Anything) λ _.
      Triple-bind
        (Keeps-err env named l l same_held Anything _ (Call.complete result) (λ e t. refl)
          (λ e t. refl))
        λ _. Triple-set_guard _ (λ w h. record {
          always = h.always;
          now = h.now;
          present = h.present;
          journaled = h.journaled;
          guarded = h.guarded;
          name_eq = h.name_eq;
          settled = h.settled;
          also = tt;
        })

  pub publish-Same : (e : Execution) (r : Option Fields) → Keeps Same (publish env e r)
  unfolding publish
  publish-Same e none = Triple-raise _ (λ w h. h)
  publish-Same e (some fields) = Triple-bind (send_from-Same _ 0 e.events) λ _.
      Triple-bind (upload_all-Same _ e.artifacts) λ patch.
        Triple-bind (Triple-lift _ (λ a e w h. h) (λ e w h. h)) λ _.
          Triple-bind yield-Same λ _. Triple-bind (deliver-Same _) λ _. Triple-pure _ (λ w h. h)
