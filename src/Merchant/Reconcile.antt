-- ===== src/Merchant/Reconcile.antt =====
-- The merchant's bookkeeping against NoDogSplash's (src/merchant/nds_client_reconciliation.go,
-- startup_reconciliation.go, and the stale bindings of merchant.go). The warnings are not modelled,
-- but what is remembered of them is.
pub mod Clients
pub mod Bindings
use tollgate_module_basic_go.Prelude.{
  ℕ, ◌+◌, ◌%◌, Bool, true, false, not, ◌&&◌, ◌||◌, Option, none, some, List, [], ◌∷◌, ◌++◌, Str,
  codes, str_eq, str_mem, ltb, leb, ◌==◌, if◌then◌else◌, is_some, is_nil,
}
use tollgate_module_basic_go.Prelude.Words.{minute}
use tollgate_module_basic_go.Dict.{Dict, lookup, insert, erase, contains}
use tollgate_module_basic_go.Mac.{normalize_mac_address}
use tollgate_module_basic_go.Valve.State.{Timer, Valve}
use tollgate_module_basic_go.Valve.Ndsctl.{Ndsctl, ClientState, check_client_state}
use tollgate_module_basic_go.Valve.Baseline.{get_data_usage_since_baseline}
use tollgate_module_basic_go.Valve.Close.{CloseError, close_gate, reconcile_gate_close}
use tollgate_module_basic_go.Valve.Clients.{
  ClientEntry, ClientRecord, authorised, str_lt, list_clients,
}
use tollgate_module_basic_go.Merchant.State.{
  Metric, milliseconds, bytes, other, CustomerSession, Merchant,
}
use tollgate_module_basic_go.Merchant.Session.{retire_session_or_park}

-- A gate that the valve tracks, under any spelling of the address.
unfoldable pub tracks : Str → Dict (Option Timer) → Bool
tracks normalized [] = false
tracks normalized ((mac, timer) ∷ gates) =
    str_eq (normalize_mac_address mac) normalized || tracks normalized gates

-- `knowsClient`
unfoldable pub knows_client : Str → Merchant → Bool
knows_client mac m =
    contains (normalize_mac_address mac) m.customer_sessions
    || tracks (normalize_mac_address mac) m.valve.open_gates

-- The authorised clients that the module does not know.
unfoldable pub unknown_clients : Merchant → List ClientRecord → List Str
unknown_clients m [] = []
unknown_clients m (r ∷ rs) =
    let rest = unknown_clients m rs in
    if authorised r && not (knows_client r.mac m) then r.mac ∷ rest else rest

-- Their gates are closed one after the other: those that were closed, and those that were not.
unfoldable pub close_unknown :
    Ndsctl → (Valve → Valve) → List Str → Valve → (List Str × List Str) × Valve
close_unknown n between [] v = (([], []), v)
close_unknown n between (mac ∷ macs) v =
    let (err, v1) = close_gate n between mac v in
    let (sorted, v2) = close_unknown n between macs v1 in
    elim err [ none ↦ ((mac ∷ sorted.0, sorted.1), v2) | some e ↦ ((sorted.0, mac ∷ sorted.1), v2) ]

-- `ndsClientReconciler`
pub record NdsClientReconciler : Type 0 where
  pub sweeps : ℕ
  pub every_sweeps : ℕ
  pub last_closed : List Str
  pub last_refused : List Str
  pub has_residue : Bool
  pub reported : Option ℕ
  pub read_failure_reported : Bool

-- `staleBindingJanitor`
pub record StaleBindingJanitor : Type 0 where
  pub sweeps : ℕ
  pub absent : Dict ℕ
  pub every_sweeps : ℕ
  pub grace_passes : ℕ

-- `reconcileNdsClientList`; `none` is a list that could not be read, and then nothing changes but
-- the invocation.
unfoldable pub reconcile_client_list :
    Ndsctl
    → (Str → Option (Dict ClientEntry))
    → (Valve → Valve)
    → Merchant
    → Option (List Str × List Str) × Merchant
reconcile_client_list n decode between m =
    let (records, v) = list_clients n decode m.valve in
    let m1 = record m { valve = v } in
    elim records [
      | none ↦ (none, m1)
      | some rs ↦
          let (sorted, v') = close_unknown n between (unknown_clients m1 rs) v in
          (some sorted, record m1 { valve = v' })
    ]

-- What the reconciler remembers: `noteNdsClientListUnreadable`, `noteNdsClientListHealthy` and
-- `reportNdsClientResidue`, with the two sorted lists of the fingerprint. The flag tells that
-- something was reported.
same_list : List Str → List Str → Bool
same_list [] [] = true
same_list [] (y ∷ ys) = false
same_list (x ∷ xs) [] = false
same_list (x ∷ xs) (y ∷ ys) = str_eq x y && same_list xs ys

report_due : ℕ → Option ℕ → Bool
report_due now none = true
report_due now (some t) = leb (t + minute) now

report_residue : List Str → List Str → ℕ → NdsClientReconciler → Bool × NdsClientReconciler
unfolding same_list report_due
report_residue closed refused now j =
    let unchanged =
      same_list closed j.last_closed && same_list refused j.last_refused && j.has_residue in
    let j1 = record j { last_closed = closed; last_refused = refused; has_residue = true } in
    if unchanged && not (report_due now j.reported)
    then (false, j1)
    else (true, record j1 { reported = some now })

unfoldable pub note_client_list :
    Option (List Str × List Str) → ℕ → NdsClientReconciler → Bool × NdsClientReconciler
unfolding report_residue
note_client_list none now j =
    (not j.read_failure_reported, record j { read_failure_reported = true })
note_client_list (some (closed, refused)) now j =
    let j1 = record j { read_failure_reported = false } in
    if is_nil closed && is_nil refused
    then (j.has_residue, record j1 { last_closed = []; last_refused = []; has_residue = false })
    else report_residue closed refused now j1

unfoldable pub or_default : ℕ → ℕ → ℕ
or_default n d = if ltb n 1 then d else n

-- `ndsClientReconcileSweep`: the pass runs at every 15th sweep, if nothing else is configured.
unfoldable pub client_list_due : NdsClientReconciler → Bool × NdsClientReconciler
unfolding or_default
client_list_due j =
    ((j.sweeps + 1) % or_default j.every_sweeps 15 == 0, record j { sweeps = j.sweeps + 1 })

-- `ReconcileNdsAuthorisationsOnStartup`: each client is looked up when its turn comes.
unfoldable pub close_on_startup : Ndsctl → (Valve → Valve) → List ClientRecord → Merchant → Merchant
close_on_startup n between [] m = m
close_on_startup n between (r ∷ rs) m = close_on_startup n between rs (
    if authorised r && not (knows_client r.mac m)
    then record m { valve = (close_gate n between r.mac m.valve).1 }
    else m)

unfoldable pub reconcile_on_startup :
    Ndsctl → (Str → Option (Dict ClientEntry)) → (Valve → Valve) → Merchant → Merchant
reconcile_on_startup n decode between m =
    let (records, v) = list_clients n decode m.valve in
    let m1 = record m { valve = v } in
    elim records [ none ↦ m1 | some rs ↦ close_on_startup n between rs m1 ]

-- `staleBindingCandidates`: the sessions but those by time, and the gates that belong to none of
-- these, in order.
is_timed : Metric → Bool
is_timed milliseconds = true
is_timed bytes = false
is_timed (other name) = false

insert_str : Str → List Str → List Str
insert_str s [] = s ∷ []
insert_str s (t ∷ ts) =
    if str_eq s t then t ∷ ts else if str_lt t s then t ∷ insert_str s ts else s ∷ t ∷ ts

session_candidates : Dict CustomerSession → List Str
unfolding is_timed insert_str
session_candidates [] = []
session_candidates ((mac, s) ∷ m) =
    let rest = session_candidates m in if is_timed s.metric then rest else insert_str mac rest

timed_session : Option CustomerSession → Bool
timed_session none = false
timed_session (some s) = is_timed s.metric

gate_candidates : Dict CustomerSession → Dict (Option Timer) → List Str → List Str
unfolding timed_session insert_str
gate_candidates sessions [] macs = macs
gate_candidates sessions ((mac, timer) ∷ gates) macs =
    gate_candidates sessions gates
      (if timed_session (lookup mac sessions) then macs else insert_str mac macs)

unfoldable pub stale_binding_candidates : Merchant → List Str
unfolding session_candidates gate_candidates
stale_binding_candidates m =
    gate_candidates m.customer_sessions m.valve.open_gates (session_candidates m.customer_sessions)

unfoldable pub absences : Str → StaleBindingJanitor → ℕ
absences mac j = elim (lookup mac j.absent) [ none ↦ 0 | some k ↦ k ]

-- `reconcileStaleBinding`: the flag tells that the gate was closed.
unfoldable pub reconcile_stale_binding :
    Ndsctl → (Valve → Valve) → Str → ℕ → Merchant → Bool × Merchant
reconcile_stale_binding n between mac now m =
    let (usage, calls') = get_data_usage_since_baseline n mac m.valve in
    let (err, v) = reconcile_gate_close n between mac (record m.valve { calls = calls' }) in
    let m1 = record m { valve = v } in
    elim err [ some e ↦ (false, m1) | none ↦ (true, (retire_session_or_park mac now m1).1) ]

forget_stale_binding : Str → StaleBindingJanitor → StaleBindingJanitor
forget_stale_binding mac j = record j { absent = erase mac j.absent }

-- The client is gone: the pass is counted, and with the grace passes the binding is torn down.
count_absence :
    Ndsctl
    → (Valve → Valve)
    → Str
    → ℕ
    → StaleBindingJanitor
    → Merchant
    → StaleBindingJanitor × Merchant
unfolding absences or_default forget_stale_binding
count_absence n between mac now j m =
    let passes = absences mac j + 1 in
    let j1 = record j { absent = insert mac passes j.absent } in
    if ltb passes (or_default j.grace_passes 2)
    then (j1, m)
    else (let (closed, m1) = reconcile_stale_binding n between mac now m in
        (if closed then forget_stale_binding mac j1 else j1, m1))

-- One candidate of `reconcileStaleBindings`.
unfoldable pub check_binding :
    Ndsctl
    → (Valve → Valve)
    → Str
    → ℕ
    → StaleBindingJanitor
    → Merchant
    → StaleBindingJanitor × Merchant
unfolding count_absence forget_stale_binding
check_binding n between mac now j m =
    let (state, calls') = check_client_state n mac m.valve.calls in
    let m1 = record m { valve = record m.valve { calls = calls' } } in
    elim state [
      | none ↦ (forget_stale_binding mac j, m1)
      | some s ↦
          if s.registered
          then (forget_stale_binding mac j, m1)
          else count_absence n between mac now j m1
    ]

check_bindings :
    Ndsctl
    → (Valve → Valve)
    → List Str
    → ℕ
    → StaleBindingJanitor
    → Merchant
    → StaleBindingJanitor × Merchant
check_bindings n between [] now j m = (j, m)
check_bindings n between (mac ∷ macs) now j m =
    let (j1, m1) = check_binding n between mac now j m in check_bindings n between macs now j1 m1

-- `reconcileStaleBindings`
unfoldable pub reconcile_stale_bindings :
    Ndsctl → (Valve → Valve) → ℕ → StaleBindingJanitor → Merchant → StaleBindingJanitor × Merchant
unfolding check_bindings
reconcile_stale_bindings n between now j m =
    check_bindings n between (stale_binding_candidates m) now j m
