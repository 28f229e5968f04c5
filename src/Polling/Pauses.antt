-- ===== src/Polling/Pauses.antt =====
-- The pauses of `transportBackoff`.
use native.Mathlib.Nat.{pow-suc}
use shipmunk_runner.Prelude.{
  ℕ, zero, suc, ◌+◌, ◌*◌, ◌^◌, ◌≡◌, refl, ap, ◌∙◌, true, false, arith, ltb, if◌then◌else◌,
}
use shipmunk_runner.Polling.{
  Cause, nothing, refused, transport, other, Backoff, cause_eq, grow, report, base_pause, pause_cap,
}

abbrev pub capped : ℕ → ℕ
capped x = if ltb pause_cap x then pause_cap else x

-- `k + 1` reports in a row of one cause.
unfoldable pub reports : ℕ → Backoff → Cause → Backoff
reports zero b c = report b c
reports (suc k) b c = report (reports k b c) c

grow-capped : (x y : ℕ) → y ≡ x * 2 → grow (capped (base_pause * x)) ≡ capped (base_pause * y)
grow-capped x y e = ground arith

cause_eq_refl : (c : Cause) → cause_eq c c ≡ true
unfolding cause_eq
cause_eq_refl nothing = refl
cause_eq_refl refused = refl
cause_eq_refl transport = refl
cause_eq_refl other = refl

report_fresh :
    (b : Backoff) (c : Cause)
    → cause_eq c b.cause ≡ false
    → report b c ≡ record { cause = c; streak = 1; pause = base_pause }
unfolding report
report_fresh b c h = rw h refl

report_repeat :
    (b : Backoff) (c : Cause)
    → b.cause ≡ c
    → report b c ≡ record { cause = c; streak = b.streak + 1; pause = grow b.pause }
unfolding report
report_repeat b c h = rw h (rw (cause_eq_refl c) refl)

-- The `k + 1`-st report in a row of one cause pauses for two seconds doubled `k` times, and for
-- two minutes where that is longer; what was reported before leaves no trace.
pub reports_lem :
    (k : ℕ) (b : Backoff) (c : Cause)
    → cause_eq c b.cause ≡ false
    → reports k b c ≡ record { cause = c; streak = k + 1; pause = capped (base_pause * 2 ^ k) }
unfolding reports
reports_lem zero b c h = report_fresh b c h
reports_lem (suc k) b c h =
    let e = reports_lem k b c h in
    let g = grow-capped (2 ^ k) (2 ^ suc k) (pow-suc 2 k) in
    let n : k + 1 + 1 ≡ suc k + 1 = omega arith in
    report_repeat (reports k b c) c (ap (λ (b : Backoff). b.cause) e)
    ∙ ap (λ (b : Backoff). record { cause = c; streak = b.streak + 1; pause = grow b.pause }) e
    ∙ ap (λ p. record { cause = c; streak = k + 1 + 1; pause = p }) g
    ∙ ap (λ n. record { cause = c; streak = n; pause = capped (base_pause * 2 ^ suc k) }) n
