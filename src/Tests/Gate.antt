-- ===== src/Tests/Gate.antt =====
-- The theorems about the valve at concrete gates.
use tollgate_module_basic_go.Prelude.{◌≡◌, refl, ◌≢◌, false, none, some, arith, str_eq}
use tollgate_module_basic_go.Dict.{insert, lookup}
use tollgate_module_basic_go.Mac.{is_valid_mac}
use tollgate_module_basic_go.Valve.State.{mark_gate_opened, clear_close_streak}
use tollgate_module_basic_go.Valve.Ndsctl.{deauthorize_mac}
use tollgate_module_basic_go.Valve.Close.{
  abandoned, close_gate, close_gate_confirmed, reconcile_gate_close, expire_timed_gate,
  close_tracked_gate_now, retry_gate_close, fire_close_retry, finish_gate_close, deauth_attempts,
}
use tollgate_module_basic_go.Valve.Close.Evidence.{
  Evidence, IsForgotten, close_gate_closed, close_gate_raced,
}
use tollgate_module_basic_go.Valve.Close.Budget.{IsBounded, close_gate_abandoned, closing-IsBounded}
use tollgate_module_basic_go.Tests.{mac, willing, silent, idle, one_gate, spent_gate}

close_gate_closed_example :
    Evidence willing mac 0 × IsForgotten mac (close_gate willing idle mac one_gate).1
unfolding close_gate is_valid_mac close_gate_confirmed lookup deauth_attempts deauthorize_mac
    willing finish_gate_close clear_close_streak str_eq
close_gate_closed_example = close_gate_closed willing idle mac one_gate refl

-- A renewal while ndsctl is asked moves the epoch of the gate.
close_gate_raced_example :
    let before = mark_gate_opened mac (close_gate_confirmed willing mac false one_gate).1 in
    let (err, after) = close_gate willing (mark_gate_opened mac) mac one_gate in
    (err ≢ none)
    × (after.open_gates ≡ before.open_gates)
    × (after.data_baselines ≡ before.data_baselines)
unfolding close_gate is_valid_mac close_gate_confirmed deauth_attempts deauthorize_mac willing
    mark_gate_opened clear_close_streak lookup insert str_eq
close_gate_raced_example =
    close_gate_raced willing (mark_gate_opened mac) mac one_gate refl
      (λ e. absurd (omega (arith, e)))

close_gate_abandoned_example :
    let (err, after) = close_gate willing idle mac spent_gate in
    (err ≡ some abandoned)
    × (after.calls ≡ spent_gate.calls)
    × (after.open_gates ≡ spent_gate.open_gates)
unfolding is_valid_mac lookup str_eq
close_gate_abandoned_example = close_gate_abandoned willing idle mac spent_gate refl refl

closing-IsBounded_example :
    IsBounded (close_gate silent idle mac one_gate).1
    × IsBounded (reconcile_gate_close silent idle mac one_gate).1
    × IsBounded (expire_timed_gate silent idle mac 1 one_gate)
    × IsBounded (close_tracked_gate_now silent idle mac one_gate)
    × IsBounded (retry_gate_close silent idle mac 1 2 one_gate)
    × IsBounded (fire_close_retry silent idle mac one_gate)
unfolding lookup
closing-IsBounded_example =
    closing-IsBounded silent idle (λ v h. h) mac 1 2 one_gate (λ j. (omega arith, refl))
