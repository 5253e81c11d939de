-- ===== src/Merchant/Reconcile/Bindings.antt =====
-- When a pass over the stale bindings (src/merchant/merchant.go) takes a customer's session.
use tollgate_module_basic_go.Prelude.{
  ℕ, ◌+◌, ◌≤◌, ◌⊎◌, ◌≡◌, refl, inl, inr, true, false, none, some, Str, arith, ltb, Bool-cases,
  Option-cases,
}
use tollgate_module_basic_go.Valve.State.{Valve}
use tollgate_module_basic_go.Valve.Ndsctl.{
  Ndsctl, ClientState, check_client_state, get_client_stats,
}
use tollgate_module_basic_go.Valve.Baseline.{get_data_usage_since_baseline}
use tollgate_module_basic_go.Valve.Close.{reconcile_gate_close}
use tollgate_module_basic_go.Valve.Close.Evidence.{
  Evidence, Evidence-later, close_gate_confirmed-Evidence,
}
use tollgate_module_basic_go.Merchant.State.{Merchant}
use tollgate_module_basic_go.Merchant.Reconcile.{
  StaleBindingJanitor, absences, or_default, count_absence, check_binding, reconcile_stale_binding,
}

-- A client that NoDogSplash can be asked about and does not list.
abbrev pub IsAbsent : Ndsctl → Str → ℕ → Type 0
IsAbsent n mac calls =
    (s : ClientState) × ((check_client_state n mac calls).0 ≡ some s) × (s.registered ≡ false)

module _ (n : Ndsctl) (between : Valve → Valve) (mac : Str) (now : ℕ) where
  reconcile_gate_close_closed :
      (v : Valve) → (reconcile_gate_close n between mac v).0 ≡ none → Evidence n mac v.calls
  unfolding reconcile_gate_close
  reconcile_gate_close_closed v h = close_gate_confirmed-Evidence n mac true v (ground arith)

  get_data_usage-calls : (v : Valve) → v.calls ≤ (get_data_usage_since_baseline n mac v).1
  unfolding get_data_usage_since_baseline get_client_stats
  get_data_usage-calls v = ground arith

  -- The close of the binding's gate, after the last reading of its meter, is confirmed.
  abbrev pub IsClosed : Valve → Type 0
  IsClosed v =
      (reconcile_gate_close n between mac
        (record v { calls = (get_data_usage_since_baseline n mac v).1 })).0
      ≡ none

  reconcile_stale_binding-takes :
      (m : Merchant)
      → ((reconcile_stale_binding n between mac now m).1.customer_sessions ≡ m.customer_sessions)
        ⊎ (IsClosed m.valve × Evidence n mac m.valve.calls)
  unfolding reconcile_stale_binding
  reconcile_stale_binding-takes m =
      let calls' = (get_data_usage_since_baseline n mac m.valve).1 in
      let v = record m.valve { calls = calls' } in
      elim (Option-cases (reconcile_gate_close n between mac v).0) [
        | inl closed ↦ inr (
          closed,
          Evidence-later n mac m.valve.calls calls' (get_data_usage-calls m.valve)
              (reconcile_gate_close_closed v closed),
        )
        | inr (e, refused) ↦ inl (ground arith)
      ]

  count_absence-takes :
      (j : StaleBindingJanitor) (m : Merchant)
      → ((count_absence n between mac now j m).1.customer_sessions ≡ m.customer_sessions)
        ⊎ ((or_default j.grace_passes 2 ≤ absences mac j + 1)
            × IsClosed m.valve
            × Evidence n mac m.valve.calls)
  unfolding count_absence
  count_absence-takes j m =
      elim (Bool-cases (ltb (absences mac j + 1) (or_default j.grace_passes 2))) [
        | inl early ↦ inl (rw early refl)
        | inr due ↦ elim (reconcile_stale_binding-takes m) [
          | inl kept ↦ inl (rw due kept)
          | inr (closed, evidence) ↦ inr (ground arith, closed, evidence)
        ]
      ]

  -- One look at a candidate of the stale bindings takes no session from anybody, unless NoDogSplash
  -- answers that the client is not listed, it is the last of as many looks in a row as the grace
  -- asks for, and the close of the gate that follows this answer and the last reading of the meter
  -- is confirmed: NoDogSplash answers, after it was asked whether the client is listed, that the
  -- client is deauthorised or unknown to it. This holds whatever other goroutines do to the gates
  -- meanwhile; none of them is at the sessions.
  pub check_binding-takes :
      (j : StaleBindingJanitor) (m : Merchant)
      → let probed = (check_client_state n mac m.valve.calls).1 in
        ((check_binding n between mac now j m).1.customer_sessions ≡ m.customer_sessions)
        ⊎ (IsAbsent n mac m.valve.calls
            × (or_default j.grace_passes 2 ≤ absences mac j + 1)
            × IsClosed (record m.valve { calls = probed })
            × Evidence n mac probed)
  unfolding check_binding
  check_binding-takes j m =
      let calls' = (check_client_state n mac m.valve.calls).1 in
      let m1 = record m { valve = record m.valve { calls = calls' } } in
      elim (Option-cases (check_client_state n mac m.valve.calls).0) [
        | inl silent ↦ inl (ground arith)
        | inr (s, answer) ↦ elim (Bool-cases s.registered) [
          | inl listed ↦ inl (ground arith)
          | inr gone ↦ elim (count_absence-takes j m1) [
            | inl kept ↦ inl (ground arith)
            | inr (due, closed, evidence) ↦ inr ((s, answer, gone), due, closed, evidence)
          ]
        ]
      ]
