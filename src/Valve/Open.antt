-- ===== src/Valve/Open.antt =====
-- Opening a gate (src/valve/valve.go), at once or after `AuthDelay`. `now` is in Unix seconds where
-- a deadline is compared, and in nanoseconds where a baseline is stamped.
pub mod Laws
use tollgate_module_basic_go.Prelude.{
  ℕ, ◌*◌, true, false, Option, none, some, Str, ltb, leb, if◌then◌else◌,
}
use tollgate_module_basic_go.Prelude.Words.{unix}
use tollgate_module_basic_go.Dict.{lookup, insert, erase, contains}
use tollgate_module_basic_go.Mac.{is_valid_mac}
use tollgate_module_basic_go.Valve.State.{Valve, mark_gate_opened, next_gate_epoch}
use tollgate_module_basic_go.Valve.Ndsctl.{Ndsctl, NdsctlError, authorize_mac}
use tollgate_module_basic_go.Valve.Baseline.{set_data_baseline}
use tollgate_module_basic_go.Valve.Close.{close_tracked_gate_now}

pub data OpenError : Type 0 where
  invalid_mac in_the_past : OpenError
  auth_failed : NdsctlError → OpenError

-- A new timer until `until`, under the epoch that the new gate gets.
install_timer : Str → ℕ → Valve → Valve
install_timer mac until v = mark_gate_opened mac (record v {
  open_gates =
      insert mac
        (some (record { deadline = until; epoch = next_gate_epoch mac v; is_stopped = false }))
        v.open_gates;
})

-- `OpenGateUntil` for a gate that is not open yet.
open_new_gate_until : Ndsctl → Str → ℕ → Valve → Option OpenError × Valve
unfolding install_timer
open_new_gate_until n mac until v =
    if ltb 0 v.auth_delay
    then (
      none,
      mark_gate_opened mac (record v {
        pending_until = insert mac until v.pending_until;
        open_gates = insert mac none v.open_gates;
      }),
    )
    else let (err, calls') = authorize_mac n mac v.calls in
      elim err [
        | some e ↦ (some (auth_failed e), record v { calls = calls' })
        | none ↦ (none, install_timer mac until (record v { calls = calls' }))
      ]

-- `OpenGateUntil`
unfoldable pub open_gate_until : Ndsctl → Str → ℕ → ℕ → Valve → Option OpenError × Valve
unfolding open_new_gate_until
open_gate_until n mac until now v =
    if is_valid_mac mac
    then if leb until (unix now)
      then (some in_the_past, v)
      else if contains mac v.open_gates
      then if contains mac v.pending_until
        then (none, record v { pending_until = insert mac until v.pending_until })
        else (none, install_timer mac until v)
      else open_new_gate_until n mac until v
    else (some invalid_mac, v)

-- `existingTimer.Stop()` on the gate of `mac`, if it has a timer.
stop_timer : Str → Valve → Valve
stop_timer mac v = elim (lookup mac v.open_gates) [
  | none ↦ v
  | some none ↦ v
  | some (some t) ↦ record v {
    open_gates = insert mac (some (record t { is_stopped = true })) v.open_gates;
  }
]

-- The indefinite gate that `OpenGate` stores.
store_indefinite : Str → Valve → Valve
store_indefinite mac v =
    mark_gate_opened mac (record v { open_gates = insert mac none v.open_gates })

-- The delayed branch of `OpenGate`, for a gate that is not open yet.
schedule_indefinite : Str → Valve → Valve
schedule_indefinite mac v =
    mark_gate_opened mac (record v { pending_until = insert mac 1 v.pending_until })

-- The branch of `OpenGate` with no delay: authorise, take the baseline, store the gate.
open_gate_now : Ndsctl → Str → ℕ → Valve → Option OpenError × Valve
unfolding store_indefinite
open_gate_now n mac now v =
    let (err, calls') = authorize_mac n mac v.calls in
    elim err [
      | some e ↦ (some (auth_failed e), record v { calls = calls' })
      | none ↦
          (none, store_indefinite mac (set_data_baseline n mac now (record v { calls = calls' })).1)
    ]

-- `OpenGate`
unfoldable pub open_gate : Ndsctl → Str → ℕ → Valve → Option OpenError × Valve
unfolding stop_timer store_indefinite schedule_indefinite open_gate_now
open_gate n mac now v =
    if is_valid_mac mac
    then if ltb 0 v.auth_delay
      then if contains mac v.open_gates
        then (none, store_indefinite mac (stop_timer mac v))
        else (none, store_indefinite mac (schedule_indefinite mac (stop_timer mac v)))
      else open_gate_now n mac now (stop_timer mac v)
    else (some invalid_mac, v)

drop_gate : Str → Valve → Valve
drop_gate mac v = record v { open_gates = erase mac v.open_gates }

-- `delayedAuth` and `delayedAuthIndefinite` when the module stops during the delay.
unfoldable pub cancel_delayed_auth : Str → Valve → Valve
cancel_delayed_auth mac v = record v {
  pending_until = erase mac v.pending_until;
  open_gates = erase mac v.open_gates;
}

-- `delayedAuth` after the delay; `now` is the time after the authorisation.
unfoldable pub delayed_auth : Ndsctl → (Valve → Valve) → Str → ℕ → Valve → Valve
unfolding drop_gate install_timer
delayed_auth n between mac now v = elim (lookup mac v.pending_until) [
  | none ↦ drop_gate mac v
  | some until ↦
      let (err, calls') = authorize_mac n mac v.calls in
      let v1 = record v { pending_until = erase mac v.pending_until; calls = calls' } in
      elim err [
        | some e ↦ drop_gate mac v1
        | none ↦
            if leb (until * 1000000000) now
            then close_tracked_gate_now n between mac v1
            else install_timer mac until v1
      ]
]

-- `delayedAuthIndefinite` after the delay.
unfoldable pub delayed_auth_indefinite : Ndsctl → Str → ℕ → Valve → Valve
unfolding drop_gate store_indefinite
delayed_auth_indefinite n mac now v = elim (lookup mac v.pending_until) [
  | none ↦ drop_gate mac v
  | some until ↦
      let (err, calls') = authorize_mac n mac v.calls in
      let v1 = record v { pending_until = erase mac v.pending_until; calls = calls' } in
      elim err [
        | some e ↦ drop_gate mac v1
        | none ↦ store_indefinite mac (set_data_baseline n mac now v1).1
      ]
]
