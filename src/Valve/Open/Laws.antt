-- ===== src/Valve/Open/Laws.antt =====
-- What opening a gate achieves (src/valve/valve.go), and what a failed opening leaves behind.
use tollgate_module_basic_go.Prelude.{
  ℕ, ◌+◌, ◌<◌, ◌≡◌, true, false, none, some, Str, arith, str_eq_refl,
}
use tollgate_module_basic_go.Prelude.Words.{unix}
use tollgate_module_basic_go.Dict.{lookup, lookup-insert, lookup-erase}
use tollgate_module_basic_go.Valve.State.{Valve, epoch_of, mark_gate_opened, next_gate_epoch}
use tollgate_module_basic_go.Valve.Ndsctl.{Ndsctl, authorize_mac}
use tollgate_module_basic_go.Valve.Baseline.{set_data_baseline, has_data_baseline}
use tollgate_module_basic_go.Valve.Close.{close_attempt_allowed}
use tollgate_module_basic_go.Valve.Open.{
  OpenError, install_timer, open_new_gate_until, open_gate_until, stop_timer, store_indefinite,
  open_gate_now, open_gate,
}

-- The gate of `mac` runs until `until`: its timer is live and belongs to the current epoch, and its
-- close has the whole budget.
abbrev pub IsTimed : Str → ℕ → Valve → Type 0
IsTimed mac until v =
    (lookup mac v.open_gates
      ≡ some (some (record { deadline = until; epoch = epoch_of mac v; is_stopped = false })))
    × (lookup mac v.close_streaks ≡ none)

install_timer-IsTimed :
    (mac : Str) (until : ℕ) (v : Valve)
    → IsTimed mac until (install_timer mac until v)
      × (epoch_of mac (install_timer mac until v) ≡ epoch_of mac v + 1)
unfolding install_timer mark_gate_opened next_gate_epoch
install_timer-IsTimed mac until v = grind (arith, lookup-insert, lookup-erase, str_eq_refl mac)

-- With no delay configured, `OpenGateUntil` succeeds on no pending gate only with a live timer for
-- the deadline that was asked, in a new epoch, whether it opened the gate or extended it.
pub open_gate_until_opened :
    (n : Ndsctl) (mac : Str) (until now : ℕ) (v : Valve)
    → v.auth_delay ≡ 0
    → lookup mac v.pending_until ≡ none
    → (open_gate_until n mac until now v).0 ≡ none
    → let after = (open_gate_until n mac until now v).1 in
      IsTimed mac until after × (epoch_of mac after ≡ epoch_of mac v + 1) × (unix now < until)
unfolding open_gate_until open_new_gate_until
open_gate_until_opened n mac until now v immediate not_pending h = ground (
  arith,
  install_timer-IsTimed mac until v,
  install_timer-IsTimed mac until (record v { calls = (authorize_mac n mac v.calls).1 }),
)

-- A refused `OpenGateUntil` opens nothing: the gates, their deadlines, epochs and baselines are as
-- they were.
pub open_gate_until_refused :
    (n : Ndsctl) (mac : Str) (until now : ℕ) (v : Valve) {e : OpenError}
    → (open_gate_until n mac until now v).0 ≡ some e
    → let after = (open_gate_until n mac until now v).1 in
      (after.open_gates ≡ v.open_gates)
      × (after.pending_until ≡ v.pending_until)
      × (after.gate_epochs ≡ v.gate_epochs)
      × (after.data_baselines ≡ v.data_baselines)
unfolding open_gate_until open_new_gate_until
open_gate_until_refused n mac until now v h = ground arith

-- With no delay configured, a bytes gate that `OpenGate` reports open is tracked with no timer, has
-- a metering baseline, a new epoch and the whole close budget.
pub open_gate_opened :
    (n : Ndsctl) (mac : Str) (now : ℕ) (v : Valve)
    → v.auth_delay ≡ 0
    → (open_gate n mac now v).0 ≡ none
    → let after = (open_gate n mac now v).1 in
      (lookup mac after.open_gates ≡ some none)
      × (has_data_baseline mac after ≡ true)
      × (epoch_of mac after ≡ epoch_of mac v + 1)
      × (close_attempt_allowed mac after ≡ true)
unfolding open_gate open_gate_now stop_timer store_indefinite mark_gate_opened set_data_baseline
open_gate_opened n mac now v immediate h =
    grind (arith, lookup-insert, lookup-erase, str_eq_refl mac)
