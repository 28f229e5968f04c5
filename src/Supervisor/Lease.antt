-- ===== src/Supervisor/Lease.antt =====
-- internal/supervisor/lease.go: the lease guard. The mutex makes each operation one uninterrupted
-- action; the goroutine of `loop` runs `renew` between the calls of the main goroutine.
use shipmunk_runner.Prelude.{
  ℕ, zero, suc, Bool, true, false, not, ◌&&◌, ◌||◌, Bytes, Option, none, some, [], ◌∷◌, leb, ◌==◌,
  length, is_some, if◌then◌else◌,
}
use shipmunk_runner.Claim.{Claim}
use shipmunk_runner.Journal.{State}
use shipmunk_runner.Supervisor.Calls.{
  Err, message, join, context_done, stopped, lease_expired, reservation_required,
  invalid_container_id, container_unconfirmed, persist_container, skip_unconfirmed,
  clear_reservation, wrap, Trace, save_journal, heartbeat, renew_watchdog, renew_executor,
  arm_watchdog, create_started, create_finished,
}
use shipmunk_runner.Supervisor.Calls as Calls
use shipmunk_runner.Supervisor.Action.{
  Guard, World, Env, Action, Done, ◌>>=◌, ◌>>◌, pure, raise, gets, ask_result, ask_err, ask_commit,
  check, set_guard, recover, wrapping,
}

unfoldable pub is_lower_hex : ℕ → Bool
is_lower_hex c = (leb b'0' c && leb c b'9') || (leb b'a' c && leb c b'f')

unfoldable pub all_lower_hex : Bytes → Bool
unfolding is_lower_hex
all_lower_hex [] = true
all_lower_hex (c ∷ s) = is_lower_hex c && all_lower_hex s

-- `legacyContainerID` of supervisor.go. A byte that is not ASCII is no hexadecimal digit either.
unfoldable pub legacy_container_id : Bytes → Bool
unfolding all_lower_hex
legacy_container_id id = leb 12 (length id) && leb (length id) 64 && all_lower_hex id

unfoldable pub full_container_id : Bytes → Bool
unfolding legacy_container_id
full_container_id id = length id == 64 && legacy_container_id id

abbrev pub ctx_err : Env → World → Option Err
ctx_err env w = if w.guard.cancelled then some (message context_done) else env.attempt_err w.trace

module _ (env : Env) where
  -- `g.ctx.Err()`, and a write of the journal.
  unfoldable pub live : Action Done
  unfolding check
  live = check (ctx_err env)

  unfoldable pub save : State → Action Done
  unfolding ask_commit
  save s = ask_commit (env.save s) (save_journal s)

  unfoldable pub renew_watchdog_lease : Bool → ℕ → Action Done
  renew_watchdog_lease armed lease =
      if armed then ask_err (env.renew_watchdog lease) (renew_watchdog lease) else pure tt

  unfoldable pub renew_executor_lease : ℕ → Action Done
  renew_executor_lease lease =
      if env.has_executor_lease
      then ask_err (env.renew_executor lease) (renew_executor lease)
      else pure tt

  abbrev pub timer_err : World → Option Err
  timer_err w = if env.timer_fired w.trace then some (message lease_expired) else none

  -- `min(time.Until(lease), LeaseDuration) <= 0` is `lease <= now`.
  unfoldable pub accept_lease : ℕ → Action Done
  unfolding renew_watchdog_lease renew_executor_lease
  accept_lease lease = do
    now ← gets (λ w. env.now w.trace)
    if leb lease now then raise (message lease_expired) else do
      g ← gets (λ w. w.guard)
      let next = record g.state { lease_expires_at = lease }
      save next
      renew_watchdog_lease g.watchdog lease
      renew_executor_lease lease
      check timer_err
      live
      set_guard (λ g. record g { state = next })

  unfoldable pub renew : Action Done
  unfolding accept_lease
  renew = do
    finished ← gets (λ w. w.guard.finished)
    if finished then pure tt else do
      live
      (lease, stop) ← ask_result env.beat heartbeat
      if stop then raise (message stopped) else do live; accept_lease lease

  unfoldable pub end_loop : Err → Action Done
  end_loop e = set_guard (λ g. record g { cancelled = true; looping = false })

  -- One round of `loop`: the context is done, or a tick renews.
  unfoldable pub tick : Action Done
  unfolding renew end_loop
  tick = do
    looping ← gets (λ w. w.guard.looping)
    if looping then recover (live >> renew) end_loop else pure tt

  unfoldable pub tick_times : ℕ → Action Done
  tick_times zero = pure tt
  tick_times (suc n) = tick >> tick_times n

  -- The rounds of the loop before the next call of the main goroutine.
  unfoldable pub yield : Action Done
  unfolding tick_times
  yield = do n ← gets (λ w. env.ticks w.trace); tick_times n

  abbrev pub fresh : State → Guard
  fresh s = record {
    state = s;
    watchdog = false;
    finished = false;
    creation_pending = false;
    reservation_pending = false;
    cancelled = false;
    looping = false;
  }

  -- `newLeaseGuard`: the loop starts only after a first renewal.
  unfoldable pub new_lease_guard : Claim → State → Action Done
  unfolding renew
  new_lease_guard claim state = do
    now ← gets (λ w. env.now w.trace)
    if leb claim.lease_expires_at now
        then raise (message lease_expired)
        else do set_guard (λ _. fresh state); renew; set_guard (λ g. record g { looping = true })

  unfoldable pub reserve : Bytes → Action Done
  reserve name = do
    live
    g ← gets (λ w. w.guard)
    let next = record g.state { sandbox_id = some name }
    set_guard (λ g. record g { reservation_pending = true })
    save next
    set_guard (λ g. record g { state = next })
    ask_err (env.arm name next.lease_expires_at next.deadline)
        (arm_watchdog name next.lease_expires_at next.deadline)
    set_guard (λ g. record g { watchdog = true })
    live

  unfoldable pub begin_create : Action Done
  begin_create = do
    live
    g ← gets (λ w. w.guard)
    if not g.watchdog || not (is_some g.state.sandbox_id)
        then raise (message reservation_required)
        else do
          set_guard (λ g. record g { creation_pending = true })
          ask_err env.begin_create create_started
          live

  unfoldable pub created : Bytes → Action Done
  created id = do
    g ← gets (λ w. w.guard)
    if not g.creation_pending || not (full_container_id id)
        then raise (message invalid_container_id)
        else do
          wrapping container_unconfirmed (ask_err (env.end_create id) (create_finished id))
          let next = record g.state { sandbox_id = some id }
          wrapping persist_container (save next)
          set_guard (λ g. record g {
            state = next;
            creation_pending = false;
            reservation_pending = false;
          })

  -- An error of `finishWithoutCreate`'s own keeps the creation pending.
  unfoldable pub keep_pending : Calls.Reason → Err → Err → Action Done
  keep_pending r cause e = do
    set_guard (λ g. record g { creation_pending = true })
    raise (join cause (wrap r e))

  unfoldable pub confirm_skipped : Err → Bool → Action Done
  unfolding keep_pending
  confirm_skipped cause asked =
      if asked
      then recover (ask_err (env.end_create []) (create_finished []))
          (keep_pending skip_unconfirmed cause)
      else pure tt

  -- The error that `finishWithoutCreate` returns is raised.
  unfoldable pub finish_without_create : {A : Type 0} → Err → Action A
  unfolding confirm_skipped
  finish_without_create cause = do
    g ← gets (λ w. w.guard)
    if not (is_some g.state.sandbox_id || g.reservation_pending) then raise cause else do
      confirm_skipped cause (g.watchdog && g.creation_pending)
      let next = record g.state { sandbox_id = none }
      recover (save next) (keep_pending clear_reservation cause)
      set_guard
          (λ g. record g { state = next; creation_pending = false; reservation_pending = false })
      raise cause

  -- `stop`: cancels, and waits for the loop to end.
  unfoldable pub stop : Action Done
  stop = set_guard (λ g. record g { cancelled = true; looping = false })
