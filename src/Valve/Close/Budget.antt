-- ===== src/Valve/Close/Budget.antt =====
-- The close budget (src/valve/valve.go): how often the module's own machinery asks ndsctl to close
-- one gate, and what it has escalated by then.
use tollgate_module_basic_go.Prelude.{
  ℕ, zero, suc, ◌+◌, ◌-◌, ◌≤◌, ◌≡◌, Bool, true, false, none, some, Str, arith, leb, eq_iff,
  str_eq_refl, inl, inr, Option-cases,
}
use Prim.Native.Nat.{min}
use tollgate_module_basic_go.Dict.{lookup, erase, lookup-erase, lookup-insert}
use tollgate_module_basic_go.Mac.{is_valid_mac}
use tollgate_module_basic_go.Valve.State.{
  Valve, epoch_of, streak_of, clear_close_streak, retire_gate,
}
use tollgate_module_basic_go.Valve.Ndsctl.{Ndsctl}
use tollgate_module_basic_go.Valve.Close.Evidence.{settle_unconfirmed-keeps}
use tollgate_module_basic_go.Valve.Close.{
  CloseError, abandoned, deauth_attempts, confirm_by_probe, count_unconfirmed, interrupted_by_stop,
  close_attempt_budget, close_gate_confirmed, handle_unconfirmed_close, schedule_close_retry,
  settle_unconfirmed, finish_gate_close, close_gate, close_or_rearm, retry_gate_close,
  reconcile_gate_close, expire_timed_gate, close_tracked_gate_now, fire_close_retry,
}

-- A streak has counted up to the budget at most, and is abandoned exactly when it is spent.
abbrev pub IsBounded : Valve → Type 0
IsBounded v =
    (mac : Str)
    → ((streak_of mac v).attempts ≤ close_attempt_budget)
      × ((streak_of mac v).abandoned ≡ leb close_attempt_budget (streak_of mac v).attempts)

handle_unconfirmed_close-IsBounded :
    (mac : Str) (e : CloseError) (v : Valve)
    → IsBounded v
    → IsBounded (handle_unconfirmed_close mac e v).1
unfolding handle_unconfirmed_close count_unconfirmed
handle_unconfirmed_close-IsBounded mac e v h j =
    grind (arith, h mac, h j, lookup-insert, eq_iff mac j)

-- `k` unconfirmed closes of one gate in a row, none of them ended by the module's own shutdown.
unfoldable pub fail_times : ℕ → Str → CloseError → Valve → Valve
fail_times zero mac e v = v
fail_times (suc k) mac e v = (handle_unconfirmed_close mac e (fail_times k mac e v)).1

-- The failures that `k` unconfirmed closes of a gate with a fresh budget leave behind.
pub fail_times-counts :
    (k : ℕ) (mac : Str) (e : CloseError) (v : Valve)
    → interrupted_by_stop e ≡ false
    → lookup mac v.close_streaks ≡ none
    → let w = fail_times k mac e v in
      ((streak_of mac w).attempts ≡ min k close_attempt_budget)
      × ((streak_of mac w).abandoned ≡ leb close_attempt_budget k)
      × (w.gate_close_failures ≡ v.gate_close_failures + min k 7)
      × (w.gate_closes_abandoned ≡ v.gate_closes_abandoned + min (k - 7) 1)
      × (w.open_gates ≡ v.open_gates)
unfolding fail_times handle_unconfirmed_close count_unconfirmed
fail_times-counts zero mac e v h new = ground arith
fail_times-counts (suc k) mac e v h new =
    grind (arith, fail_times-counts k mac e v h new, lookup-insert, str_eq_refl mac)

close_gate_confirmed-spent :
    (n : Ndsctl) (mac : Str) (v : Valve)
    → (streak_of mac v).abandoned ≡ true
    → close_gate_confirmed n mac false v ≡ (some abandoned, v)
unfolding close_gate_confirmed
close_gate_confirmed-spent n mac v spent = rw spent

-- Once the budget of a gate is spent, `CloseGate` of a valid address fails with
-- `ErrGateCloseAbandoned` without asking ndsctl anything, and leaves the gates as the other
-- goroutines left them.
pub close_gate_abandoned :
    (n : Ndsctl) (between : Valve → Valve) (mac : Str) (v : Valve)
    → is_valid_mac mac ≡ true
    → (streak_of mac v).abandoned ≡ true
    → let (err, after) = close_gate n between mac v in
      (err ≡ some abandoned)
      × (after.calls ≡ (between v).calls)
      × (after.open_gates ≡ (between v).open_gates)
unfolding close_gate
close_gate_abandoned n between mac v valid spent = ground (
  arith,
  close_gate_confirmed-spent n mac v spent,
  settle_unconfirmed-keeps mac (epoch_of mac v) 1 abandoned (between v),
)

module _ (n : Ndsctl) (mac : Str) where
  close_gate_confirmed-IsBounded :
      (fresh : Bool) (v : Valve) → IsBounded v → IsBounded (close_gate_confirmed n mac fresh v).1
  unfolding close_gate_confirmed deauth_attempts confirm_by_probe clear_close_streak
  close_gate_confirmed-IsBounded fresh v h j = grind (arith, h j, lookup-erase)

  settle_unconfirmed-IsBounded :
      (epoch next : ℕ) (e : CloseError) (v : Valve)
      → IsBounded v
      → IsBounded (settle_unconfirmed mac epoch next e v)
  unfolding settle_unconfirmed schedule_close_retry
  settle_unconfirmed-IsBounded epoch next e v h j =
      ground (arith, handle_unconfirmed_close-IsBounded mac e v h j)

  finish_gate_close-IsBounded :
      (epoch : ℕ) (v : Valve) → IsBounded v → IsBounded (finish_gate_close n mac epoch v).1
  unfolding finish_gate_close retire_gate
  finish_gate_close-IsBounded epoch v h j = grind (arith, h j, lookup-erase)

-- What the other goroutines do keeps the bound.
abbrev pub Keeps : (Valve → Valve) → Type 0
Keeps between = (v : Valve) → IsBounded v → IsBounded (between v)

module _ (n : Ndsctl) (between : Valve → Valve) (keeps : Keeps between) (mac : Str) where
  close_gate-IsBounded : (v : Valve) → IsBounded v → IsBounded (close_gate n between mac v).1
  unfolding close_gate
  close_gate-IsBounded v h j =
      let w = between (close_gate_confirmed n mac false v).1 in
      let hw : IsBounded w =
        keeps (close_gate_confirmed n mac false v).1
          (close_gate_confirmed-IsBounded n mac false v h) in
      grind (
        arith,
        h j,
        finish_gate_close-IsBounded n mac (epoch_of mac v) w hw j,
        λ (e : CloseError). settle_unconfirmed-IsBounded n mac (epoch_of mac v) 1 e w hw j,
      )

  close_or_rearm-IsBounded :
      (epoch next : ℕ) (v : Valve)
      → IsBounded v
      → IsBounded (close_or_rearm n between mac epoch next v)
  unfolding close_or_rearm
  close_or_rearm-IsBounded epoch next v h j =
      let w = between (close_gate_confirmed n mac false v).1 in
      let hw : IsBounded w =
        keeps (close_gate_confirmed n mac false v).1
          (close_gate_confirmed-IsBounded n mac false v h) in
      grind (
        arith,
        finish_gate_close-IsBounded n mac epoch w hw j,
        λ (e : CloseError). settle_unconfirmed-IsBounded n mac epoch next e w hw j,
      )

  -- Every path that closes a gate keeps each close streak within the budget, and abandoned exactly
  -- when the budget is spent, if what the other goroutines do keeps that.
  pub closing-IsBounded :
      (epoch attempt : ℕ) (v : Valve)
      → IsBounded v
      → IsBounded (close_gate n between mac v).1
        × IsBounded (reconcile_gate_close n between mac v).1
        × IsBounded (expire_timed_gate n between mac epoch v)
        × IsBounded (close_tracked_gate_now n between mac v)
        × IsBounded (retry_gate_close n between mac epoch attempt v)
        × IsBounded (fire_close_retry n between mac v)
  unfolding expire_timed_gate close_tracked_gate_now retry_gate_close fire_close_retry
      reconcile_gate_close
  closing-IsBounded epoch attempt v h = (
    close_gate-IsBounded v h,
    λ j.
        let w = between (close_gate_confirmed n mac true v).1 in
        let hw : IsBounded w =
          keeps (close_gate_confirmed n mac true v).1
            (close_gate_confirmed-IsBounded n mac true v h) in
        grind (arith, h j, hw j, finish_gate_close-IsBounded n mac (epoch_of mac v) w hw j),
    λ j. grind (arith, h j, close_or_rearm-IsBounded epoch 1 v h j),
    λ j. close_or_rearm-IsBounded (epoch_of mac v) 1 v h j,
    λ j. grind (arith, h j, close_or_rearm-IsBounded epoch (attempt + 1) v h j),
    λ j. elim (Option-cases (lookup mac v.pending_close_retries)) [
      | inl e ↦ grind (arith, h j)
      | inr (r, e) ↦
          let v' = record v { pending_close_retries = erase mac v.pending_close_retries } in
          grind (arith, h j, close_or_rearm-IsBounded r.epoch (r.attempt + 1) v' h j)
    ],
  )
