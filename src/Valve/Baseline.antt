-- ===== src/Valve/Baseline.antt =====
-- The metering baselines of src/valve/customer_data_tracker.go. Instants are nanoseconds.
use tollgate_module_basic_go.Prelude.{
  ℕ, ◌-◌, Bool, Option, none, some, Str, leb, is_some, if◌then◌else◌,
}
use tollgate_module_basic_go.Prelude.Words.{add64}
use tollgate_module_basic_go.Dict.{lookup, insert, erase, contains}
use tollgate_module_basic_go.Valve.State.{DataBaseline, Valve}
use tollgate_module_basic_go.Valve.Ndsctl.{Ndsctl, get_client_stats}

pub data Usage : Type 0 where
  measured : ℕ → Usage
  baseline_missing counters_unavailable : Usage

-- The counters that a new baseline records: zero where ndsctl cannot report them.
baseline_at : ℕ → Option (ℕ × ℕ) → DataBaseline
baseline_at now none = record { downloaded = 0; uploaded = 0; timestamp = now }
baseline_at now (some (down, up)) = record { downloaded = down; uploaded = up; timestamp = now }

-- `SetDataBaseline`: the result is `false` for `ErrClientCountersUnavailable`.
unfoldable pub set_data_baseline : Ndsctl → Str → ℕ → Valve → Bool × Valve
unfolding baseline_at
set_data_baseline n mac now v =
    let (stats, calls') = get_client_stats n mac v.calls in
    (
      is_some stats,
      record v {
        data_baselines = insert mac (baseline_at now stats) v.data_baselines;
        calls = calls';
      },
    )

-- A counter that went back is no usage.
since : ℕ → ℕ → ℕ
since base current = if leb base current then current - base else 0

usage_since : DataBaseline → Option (ℕ × ℕ) → Usage
unfolding since
usage_since b none = counters_unavailable
usage_since b (some (down, up)) = measured (add64 (since b.downloaded down) (since b.uploaded up))

-- `GetDataUsageSinceBaseline`, with the number of ndsctl invocations after it.
unfoldable pub get_data_usage_since_baseline : Ndsctl → Str → Valve → Usage × ℕ
unfolding usage_since
get_data_usage_since_baseline n mac v = elim (lookup mac v.data_baselines) [
  | none ↦ (baseline_missing, v.calls)
  | some b ↦ let (stats, calls') = get_client_stats n mac v.calls in (usage_since b stats, calls')
]

-- `ClearDataBaseline`
unfoldable pub clear_data_baseline : Str → Valve → Valve
clear_data_baseline mac v = record v { data_baselines = erase mac v.data_baselines }

-- `HasDataBaseline`
abbrev pub has_data_baseline : Str → Valve → Bool
has_data_baseline mac v = contains mac v.data_baselines
