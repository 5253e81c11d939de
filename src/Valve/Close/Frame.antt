-- ===== src/Valve/Close/Frame.antt =====
-- Closing a gate touches no other client (src/valve/valve.go).
use tollgate_module_basic_go.Prelude.{
  ℕ, ◌+◌, ◌≡◌, ◌≢◌, refl, inl, inr, Bool, true, false, Str, arith, str_eq-ne, Bool-cases,
  Option-cases,
}
use tollgate_module_basic_go.Dict.{lookup, insert, lookup-insert, lookup-erase}
use tollgate_module_basic_go.Mac.{is_valid_mac}
use tollgate_module_basic_go.Valve.State.{
  CloseStreak, Retry, Valve, epoch_of, streak_of, clear_close_streak, retire_gate,
}
use tollgate_module_basic_go.Valve.Ndsctl.{Ndsctl, NdsctlError, check_client_state}
use tollgate_module_basic_go.Valve.Close.{
  CloseError, deauth_attempts, deauth_max_attempts, confirm_by_probe, close_gate_confirmed,
  count_unconfirmed, handle_unconfirmed_close, schedule_close_retry, close_retry_delay,
  finish_gate_close, settle_unconfirmed, close_gate,
}

-- What the valve holds of a client is the same.
abbrev pub SameClient : Str → Valve → Valve → Type 0
SameClient j v v' =
    (lookup j v'.open_gates ≡ lookup j v.open_gates)
    × (lookup j v'.pending_until ≡ lookup j v.pending_until)
    × (lookup j v'.gate_epochs ≡ lookup j v.gate_epochs)
    × (lookup j v'.data_baselines ≡ lookup j v.data_baselines)
    × (lookup j v'.pending_close_retries ≡ lookup j v.pending_close_retries)
    × (lookup j v'.close_streaks ≡ lookup j v.close_streaks)

pub SameClient-refl : (j : Str) (v : Valve) → SameClient j v v
SameClient-refl j v = (refl, refl, refl, refl, refl, refl)

pub SameClient-trans :
    (j : Str) (a b c : Valve) → SameClient j a b → SameClient j b c → SameClient j a c
SameClient-trans j a b c f g = ground arith

module _ (n : Ndsctl) (mac j : Str) (other : mac ≢ j) where
  retire_gate-other : (v : Valve) → SameClient j v (retire_gate mac v)
  unfolding retire_gate
  retire_gate-other v =
      let e = epoch_of mac v in
      rw
        (
          lookup-insert j mac (e + 1) v.gate_epochs,
          lookup-erase j mac v.open_gates,
          lookup-erase j mac v.pending_until,
          lookup-erase j mac v.close_streaks,
          lookup-erase j mac v.pending_close_retries,
          lookup-erase j mac v.data_baselines,
          str_eq-ne mac j other,
        )
        (refl, refl, refl, refl, refl, refl)

  clear_close_streak-other : (v : Valve) → SameClient j v (clear_close_streak mac v)
  unfolding clear_close_streak
  clear_close_streak-other v =
      rw (lookup-erase j mac v.close_streaks, str_eq-ne mac j other)
        (refl, refl, refl, refl, refl, refl)

  put_streak-other :
      (s : CloseStreak) (v : Valve)
      → SameClient j v (record v { close_streaks = insert mac s v.close_streaks })
  put_streak-other s v =
      rw (lookup-insert j mac s v.close_streaks, str_eq-ne mac j other)
        (refl, refl, refl, refl, refl, refl)

  count_unconfirmed-other :
      (s : CloseStreak) (v : Valve) → SameClient j v (count_unconfirmed mac s v).1
  unfolding count_unconfirmed
  count_unconfirmed-other s v = ground (
    arith,
    put_streak-other s v,
    put_streak-other (record { attempts = s.attempts + 1; abandoned = true }) v,
    put_streak-other (record { attempts = s.attempts + 1; abandoned = false }) v,
  )

  schedule_close_retry-other :
      (epoch attempt : ℕ) (v : Valve) → SameClient j v (schedule_close_retry mac epoch attempt v)
  unfolding schedule_close_retry
  schedule_close_retry-other epoch attempt v =
      let r : Retry = record {
        delay = close_retry_delay attempt;
        epoch = epoch;
        attempt = attempt;
      } in
      ground (arith, lookup-insert j mac r v.pending_close_retries, str_eq-ne mac j other)

  settle_unconfirmed-other :
      (epoch next : ℕ) (e : CloseError) (v : Valve)
      → SameClient j v (settle_unconfirmed mac epoch next e v)
  unfolding settle_unconfirmed handle_unconfirmed_close
  settle_unconfirmed-other epoch next e v =
      let v1 = (count_unconfirmed mac (streak_of mac v) v).1 in
      ground (
        arith,
        count_unconfirmed-other (streak_of mac v) v,
        schedule_close_retry-other epoch next v,
        schedule_close_retry-other epoch next v1,
      )

  close_gate_confirmed-other :
      (fresh : Bool) (v : Valve) → SameClient j v (close_gate_confirmed n mac fresh v).1
  unfolding close_gate_confirmed confirm_by_probe
  close_gate_confirmed-other fresh v =
      let calls' = (deauth_attempts n mac deauth_max_attempts NdsctlError.refused v.calls).1 in
      let v1 = record v { calls = calls' } in
      let v2 = record v { calls = (check_client_state n mac calls').1 } in
      ground (arith, clear_close_streak-other v1, clear_close_streak-other v2)

  finish_gate_close-other :
      (epoch : ℕ) (v : Valve) → SameClient j v (finish_gate_close n mac epoch v).1
  unfolding finish_gate_close
  finish_gate_close-other epoch v = ground (arith, retire_gate-other v)

  -- Whatever becomes of it, a close leaves every other client as it was.
  pub close_gate-other : (v : Valve) → SameClient j v (close_gate n (λ w. w) mac v).1
  unfolding close_gate
  close_gate-other v =
      let v1 = (close_gate_confirmed n mac false v).1 in
      elim (Bool-cases (is_valid_mac mac)) [
        | inr bad ↦ rw bad (SameClient-refl j v)
        | inl good ↦ elim (Option-cases (close_gate_confirmed n mac false v).0) [
          | inl ok ↦
              rw (good, ok)
                (SameClient-trans j v v1 (finish_gate_close n mac (epoch_of mac v) v1).1
                  (close_gate_confirmed-other false v)
                  (finish_gate_close-other (epoch_of mac v) v1))
          | inr (e, failed) ↦
              rw (good, failed)
                (SameClient-trans j v v1 (settle_unconfirmed mac (epoch_of mac v) 1 e v1)
                  (close_gate_confirmed-other false v)
                  (settle_unconfirmed-other (epoch_of mac v) 1 e v1))
        ]
      ]
