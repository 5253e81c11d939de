-- ===== src/Valve/Close.antt =====
-- Closing a gate (src/valve/valve.go): a failure to close is not a close. While ndsctl is asked the
-- gate mutex is free: `between` is what the other goroutines do to the state meanwhile.
pub mod Evidence
pub mod Budget
pub mod Frame
use tollgate_module_basic_go.Prelude.{
  ℕ, zero, suc, ◌+◌, ◌-◌, Bool, true, false, not, ◌&&◌, Option, none, some, List, [], ◌∷◌, Str, leb,
  ◌==◌, if◌then◌else◌,
}
use tollgate_module_basic_go.Dict.{lookup, insert, erase, contains}
use tollgate_module_basic_go.Mac.{is_valid_mac}
use tollgate_module_basic_go.Valve.State.{
  CloseStreak, Valve, epoch_of, streak_of, clear_close_streak, retire_gate,
}
use tollgate_module_basic_go.Valve.Ndsctl.{
  Ndsctl, NdsctlError, refused, timeout, stopping, ClientState, check_client_state, authorize_mac,
  deauthorize_mac,
}

pub data CloseError : Type 0 where
  invalid_mac abandoned reopened : CloseError
  unconfirmed : NdsctlError → CloseError

-- `deauthMaxAttempts`, `closeAttemptBudget`
abbrev pub deauth_max_attempts : ℕ
deauth_max_attempts = 3

abbrev pub close_attempt_budget : ℕ
close_attempt_budget = 8

-- `closeAttemptAllowed`
abbrev pub close_attempt_allowed : Str → Valve → Bool
close_attempt_allowed mac v = not (streak_of mac v).abandoned

-- `closeRetryDelay` over `closeRetryBackoff`: the last entry repeats.
nth_or_last : ℕ → ℕ → List ℕ → ℕ
nth_or_last d i [] = d
nth_or_last d zero (x ∷ xs) = x
nth_or_last d (suc i) (x ∷ xs) = nth_or_last x i xs

abbrev close_retry_backoff : List ℕ
close_retry_backoff = 2000000000 ∷ 5000000000 ∷ 15000000000 ∷ 30000000000 ∷ 60000000000 ∷ []

unfoldable pub close_retry_delay : ℕ → ℕ
unfolding nth_or_last
close_retry_delay attempt = nth_or_last 0 (attempt - 1) close_retry_backoff

-- The loop of `closeGateConfirmed` over `deauthorizeMAC` with `left` attempts to go; `last` is the
-- error of the attempt before.
unfoldable pub deauth_attempts : Ndsctl → Str → ℕ → NdsctlError → ℕ → Option NdsctlError × ℕ
deauth_attempts n mac zero last calls = (some last, calls)
deauth_attempts n mac (suc left) last calls =
    let (err, calls') = deauthorize_mac n mac calls in
    elim err [ none ↦ (none, calls') | some e ↦ deauth_attempts n mac left e calls' ]

-- `ndsctlHasNoClient` answered without an error that there is no such client.
is_gone : Option ClientState → Bool
is_gone none = false
is_gone (some s) = not s.registered

-- The second channel of `closeGateConfirmed`, after the attempts have failed with `e`.
unfoldable pub confirm_by_probe : Ndsctl → Str → NdsctlError → Valve → Option CloseError × Valve
unfolding is_gone
confirm_by_probe n mac e v =
    let (state, calls') = check_client_state n mac v.calls in
    if is_gone state
    then (none, clear_close_streak mac (record v { calls = calls' }))
    else (some (unconfirmed e), record v { calls = calls' })

-- `closeGateConfirmed`; the flag is `freshEvidence`.
unfoldable pub close_gate_confirmed : Ndsctl → Str → Bool → Valve → Option CloseError × Valve
close_gate_confirmed n mac fresh v =
    if not fresh && not (close_attempt_allowed mac v)
    then (some abandoned, v)
    else let (err, calls') = deauth_attempts n mac deauth_max_attempts refused v.calls in
      elim err [
        | none ↦ (none, clear_close_streak mac (record v { calls = calls' }))
        | some e ↦ confirm_by_probe n mac e (record v { calls = calls' })
      ]

-- `ndsctlInterruptedByStop`
unfoldable pub interrupted_by_stop : CloseError → Bool
interrupted_by_stop (unconfirmed stopping) = true
interrupted_by_stop (unconfirmed refused) = false
interrupted_by_stop (unconfirmed timeout) = false
interrupted_by_stop invalid_mac = false
interrupted_by_stop abandoned = false
interrupted_by_stop reopened = false

-- What `handleUnconfirmedClose` does once the attempt is counted in `streak`.
unfoldable pub count_unconfirmed : Str → CloseStreak → Valve → Bool × Valve
count_unconfirmed mac streak v =
    if streak.abandoned
    then (false, record v { close_streaks = insert mac streak v.close_streaks })
    else if leb close_attempt_budget (streak.attempts + 1)
    then (
      false,
      record v {
        close_streaks =
            insert mac (record { attempts = streak.attempts + 1; abandoned = true })
              v.close_streaks;
        gate_closes_abandoned = v.gate_closes_abandoned + 1;
      },
    )
    else (
      true,
      record v {
        close_streaks =
            insert mac (record { attempts = streak.attempts + 1; abandoned = false })
              v.close_streaks;
        gate_close_failures = v.gate_close_failures + 1;
      },
    )

-- `handleUnconfirmedClose`: `true` asks the caller to arm a retry.
unfoldable pub handle_unconfirmed_close : Str → CloseError → Valve → Bool × Valve
handle_unconfirmed_close mac err v =
    if interrupted_by_stop err then (false, v) else count_unconfirmed mac (streak_of mac v) v

-- `scheduleCloseRetry`: only a gate that is still tracked is retried.
unfoldable pub schedule_close_retry : Str → ℕ → ℕ → Valve → Valve
schedule_close_retry mac epoch attempt v =
    if contains mac v.open_gates
    then record v {
      pending_close_retries =
          insert mac
            (record { delay = close_retry_delay attempt; epoch = epoch; attempt = attempt })
            v.pending_close_retries;
    }
    else v

-- `finishGateClose`: a gate that was replaced or extended meanwhile is kept, and its client is
-- authorised again.
unfoldable pub finish_gate_close : Ndsctl → Str → ℕ → Valve → Bool × Valve
finish_gate_close n mac epoch v =
    if epoch_of mac v == epoch
    then (true, retire_gate mac v)
    else (false, record v { calls = (authorize_mac n mac v.calls).1 })

-- The common end of the paths that arm a retry: record the failure, and arm retry `next`.
unfoldable pub settle_unconfirmed : Str → ℕ → ℕ → CloseError → Valve → Valve
settle_unconfirmed mac epoch next err v =
    let (rearm, v') = handle_unconfirmed_close mac err v in
    if rearm then schedule_close_retry mac epoch next v' else v'

reported : Bool → Option CloseError
reported true = none
reported false = some reopened

-- `CloseGate`
unfoldable pub close_gate : Ndsctl → (Valve → Valve) → Str → Valve → Option CloseError × Valve
unfolding reported
close_gate n between mac v =
    if is_valid_mac mac
    then (let (err, v1) = close_gate_confirmed n mac false v in
        elim err [
          | some e ↦ (some e, settle_unconfirmed mac (epoch_of mac v) 1 e (between v1))
          | none ↦
              let (done, v2) = finish_gate_close n mac (epoch_of mac v) (between v1) in
              (reported done, v2)
        ])
    else (some invalid_mac, v)

-- `ReconcileGateClose`: fresh evidence about the client, and a failure that counts for nothing.
unfoldable pub reconcile_gate_close :
    Ndsctl → (Valve → Valve) → Str → Valve → Option CloseError × Valve
unfolding reported
reconcile_gate_close n between mac v =
    if is_valid_mac mac
    then (let (err, v1) = close_gate_confirmed n mac true v in
        elim err [
          | some e ↦ (some e, between v1)
          | none ↦
              let (done, v2) = finish_gate_close n mac (epoch_of mac v) (between v1) in
              (reported done, v2)
        ])
    else (some invalid_mac, v)

-- The body that `expireTimedGate`, `closeTrackedGateNow` and `retryGateClose` share once their
-- guards have passed: close the gate of `epoch`, or count the failure and arm retry `next`.
unfoldable pub close_or_rearm : Ndsctl → (Valve → Valve) → Str → ℕ → ℕ → Valve → Valve
close_or_rearm n between mac epoch next v =
    let (err, v1) = close_gate_confirmed n mac false v in
    elim err [
      | some e ↦ settle_unconfirmed mac epoch next e (between v1)
      | none ↦ (finish_gate_close n mac epoch (between v1)).1
    ]

-- `closeTrackedGateNow`
unfoldable pub close_tracked_gate_now : Ndsctl → (Valve → Valve) → Str → Valve → Valve
close_tracked_gate_now n between mac v = close_or_rearm n between mac (epoch_of mac v) 1 v

-- `expireTimedGate`: the callback of a stale timer does nothing.
unfoldable pub expire_timed_gate : Ndsctl → (Valve → Valve) → Str → ℕ → Valve → Valve
expire_timed_gate n between mac epoch v =
    if epoch_of mac v == epoch then close_or_rearm n between mac epoch 1 v else v

-- `retryGateClose`
unfoldable pub retry_gate_close : Ndsctl → (Valve → Valve) → Str → ℕ → ℕ → Valve → Valve
retry_gate_close n between mac epoch attempt v =
    if contains mac v.open_gates && epoch_of mac v == epoch
    then close_or_rearm n between mac epoch (attempt + 1) v
    else v

-- The timer that `scheduleCloseRetry` arms: its entry goes, and the retry runs.
unfoldable pub fire_close_retry : Ndsctl → (Valve → Valve) → Str → Valve → Valve
fire_close_retry n between mac v = elim (lookup mac v.pending_close_retries) [
  | none ↦ v
  | some r ↦
      retry_gate_close n between mac r.epoch r.attempt
        (record v { pending_close_retries = erase mac v.pending_close_retries })
]
