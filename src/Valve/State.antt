-- ===== src/Valve/State.antt =====
-- The package variables of src/valve/valve.go and src/valve/customer_data_tracker.go as one record,
-- and the lookups on them that have a default.
use tollgate_module_basic_go.Prelude.{ℕ, ◌+◌, Bool, false, Option, none, some, Str}
use tollgate_module_basic_go.Dict.{Dict, lookup, insert, erase}

-- `closeStreak`
pub record CloseStreak : Type 0 where
  pub attempts : ℕ
  pub abandoned : Bool

-- A `*time.Timer` of `openGates` that is not nil: its callback is `expireTimedGate(mac, epoch)`,
-- at `deadline` (Unix seconds) unless the timer has been stopped.
pub record Timer : Type 0 where
  pub deadline : ℕ
  pub epoch : ℕ
  pub is_stopped : Bool

-- A timer of `pendingCloseRetries`: its callback is `retryGateClose(mac, epoch, attempt)`.
pub record Retry : Type 0 where
  pub delay : ℕ
  pub epoch : ℕ
  pub attempt : ℕ

-- `DataBaseline`
pub record DataBaseline : Type 0 where
  pub downloaded : ℕ
  pub uploaded : ℕ
  pub timestamp : ℕ

-- `auth_delay` is `AuthDelay`; `calls` counts the invocations of ndsctl so far.
pub record Valve : Type 0 where
  pub auth_delay : ℕ
  pub open_gates : Dict (Option Timer)
  pub pending_until : Dict ℕ
  pub gate_epochs : Dict ℕ
  pub close_streaks : Dict CloseStreak
  pub pending_close_retries : Dict Retry
  pub data_baselines : Dict DataBaseline
  pub gate_close_failures : ℕ
  pub gate_closes_abandoned : ℕ
  pub calls : ℕ

abbrev pub or_zero : Option ℕ → ℕ
or_zero none = 0
or_zero (some n) = n

-- `gateEpochs[mac]`, zero where there is no entry.
abbrev pub epoch_of : Str → Valve → ℕ
epoch_of mac v = or_zero (lookup mac v.gate_epochs)

abbrev pub or_new_streak : Option CloseStreak → CloseStreak
or_new_streak none = record { attempts = 0; abandoned = false }
or_new_streak (some s) = s

abbrev pub streak_of : Str → Valve → CloseStreak
streak_of mac v = or_new_streak (lookup mac v.close_streaks)

-- `markGateOpenedLocked`
unfoldable pub mark_gate_opened : Str → Valve → Valve
mark_gate_opened mac v = record v {
  gate_epochs = insert mac (epoch_of mac v + 1) v.gate_epochs;
  close_streaks = erase mac v.close_streaks;
}

-- `nextGateEpochLocked`
unfoldable pub next_gate_epoch : Str → Valve → ℕ
next_gate_epoch mac v = epoch_of mac v + 1

-- `clearCloseStreak`
unfoldable pub clear_close_streak : Str → Valve → Valve
clear_close_streak mac v = record v { close_streaks = erase mac v.close_streaks }

-- `retireGateLocked`, with the `ClearDataBaseline` that it calls.
unfoldable pub retire_gate : Str → Valve → Valve
retire_gate mac v = record v {
  gate_epochs = insert mac (epoch_of mac v + 1) v.gate_epochs;
  open_gates = erase mac v.open_gates;
  pending_until = erase mac v.pending_until;
  close_streaks = erase mac v.close_streaks;
  pending_close_retries = erase mac v.pending_close_retries;
  data_baselines = erase mac v.data_baselines;
}
