-- ===== src/Merchant/Metering/Grace.antt =====
-- How long the usage monitor waits for a meter that it cannot read (src/merchant/merchant.go), and
-- what a renewal does to the meter.
use tollgate_module_basic_go.Prelude.{
  ℕ, ◌+◌, ◌≤◌, ◌<◌, ◌≡◌, refl, Str, arith, List, [], ◌∷◌, length, str_eq_refl, ◌∙◌, ap,
}
use tollgate_module_basic_go.Dict.{Dict, lookup-insert}
use tollgate_module_basic_go.Valve.State.{Valve}
use tollgate_module_basic_go.Valve.Ndsctl.{Ndsctl}
use tollgate_module_basic_go.Valve.Close.{close_gate}
use tollgate_module_basic_go.Merchant.State.{CustomerSession, Merchant}
use tollgate_module_basic_go.Merchant.Session.{expire_session, retire_session_or_park}
use tollgate_module_basic_go.Merchant.Metering.{
  put_unmetered, unmetered_state, note_unmeterable_sweep, note_unmeterable_close_failure,
  clear_unmetered, force_close, close_unmeterable_session, usage_monitor_grace_sweeps, or_new,
}

-- Sweeps in a row of a session whose counters cannot be read, at these instants, the latest first.
unfoldable pub sweep_at :
    Ndsctl
    → (Valve → Valve)
    → (Dict CustomerSession → Dict CustomerSession)
    → Str
    → List ℕ
    → Merchant
    → Merchant
sweep_at n between others mac [] m = m
sweep_at n between others mac (now ∷ nows) m =
    close_unmeterable_session n between others mac now (sweep_at n between others mac nows m)

module _ (n : Ndsctl) (between : Valve → Valve)
    (others : Dict CustomerSession → Dict CustomerSession) (mac : Str) where
  waits_once :
      (now : ℕ) (m : Merchant)
      → (unmetered_state mac m).sweeps < usage_monitor_grace_sweeps
      → let w = close_unmeterable_session n between others mac now m in
        (w.customer_sessions ≡ m.customer_sessions)
        × (w.valve ≡ m.valve)
        × ((unmetered_state mac w).sweeps ≡ (unmetered_state mac m).sweeps + 1)
  unfolding close_unmeterable_session note_unmeterable_sweep put_unmetered unmetered_state or_new
  waits_once now m le = grind (arith, lookup-insert, str_eq_refl mac)

  force_close-valve :
      (now : ℕ) (m : Merchant)
      → (force_close n between others mac now m).valve ≡ (close_gate n between mac m.valve).1
  unfolding force_close note_unmeterable_close_failure put_unmetered clear_unmetered
      retire_session_or_park expire_session
  force_close-valve now m = ground arith

  then_closes :
      (now : ℕ) (m : Merchant)
      → usage_monitor_grace_sweeps ≤ (unmetered_state mac m).sweeps
      → (close_unmeterable_session n between others mac now m).valve
        ≡ (close_gate n between mac m.valve).1
  unfolding close_unmeterable_session note_unmeterable_sweep put_unmetered
  then_closes now m over = ground (arith, force_close-valve now (note_unmeterable_sweep mac m).1)

  waits :
      (nows : List ℕ) (m : Merchant)
      → (unmetered_state mac m).sweeps ≡ 0
      → length nows ≤ usage_monitor_grace_sweeps
      → let w = sweep_at n between others mac nows m in
        (w.customer_sessions ≡ m.customer_sessions)
        × (w.valve ≡ m.valve)
        × ((unmetered_state mac w).sweeps ≡ length nows)
  unfolding sweep_at
  waits [] m new le = (refl, refl, new)
  waits (now ∷ nows) m new le =
      let before = waits nows m new (omega arith) in
      let once = waits_once now (sweep_at n between others mac nows m) (omega (arith, before.2)) in
      (once.0 ∙ before.0, once.1 ∙ before.1, ground arith)

  -- A session that was not unmetered before is left alone for the first `usageMonitorGraceSweeps`
  -- sweeps that cannot read its counters: neither the sessions nor the valve change.
  pub sweep_at-waits :
      (nows : List ℕ) (m : Merchant)
      → (unmetered_state mac m).sweeps ≡ 0
      → length nows ≤ usage_monitor_grace_sweeps
      → let w = sweep_at n between others mac nows m in
        (w.customer_sessions ≡ m.customer_sessions) × (w.valve ≡ m.valve)
  sweep_at-waits nows m new le = let w = waits nows m new le in (w.0, w.1)

  -- The sweep after `usageMonitorGraceSweeps` sweeps that could not read the counters of a session
  -- asks the valve to close its gate, and leaves the valve as that close leaves it.
  pub sweep_at-closes :
      (now : ℕ) (nows : List ℕ) (m : Merchant)
      → (unmetered_state mac m).sweeps ≡ 0
      → length nows ≡ usage_monitor_grace_sweeps
      → (sweep_at n between others mac (now ∷ nows) m).valve ≡ (close_gate n between mac m.valve).1
  unfolding sweep_at
  sweep_at-closes now nows m new enough =
      let before = waits nows m new (omega arith) in
      then_closes now (sweep_at n between others mac nows m) (omega (arith, before.2))
      ∙ ap (λ v. (close_gate n between mac v).1) before.1
