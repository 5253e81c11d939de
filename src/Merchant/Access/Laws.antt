-- ===== src/Merchant/Access/Laws.antt =====
-- A grant is all or nothing (src/merchant/lightning.go).
use tollgate_module_basic_go.Prelude.{
  ℕ, ◌+◌, ◌/◌, ◌≡◌, refl, true, Option, none, some, Str, arith, sym,
}
use tollgate_module_basic_go.Dict.{lookup}
use tollgate_module_basic_go.Mac.{normalize_mac_address, normalize_mac_address_idem}
use tollgate_module_basic_go.Valve.State.{Valve}
use tollgate_module_basic_go.Valve.Ndsctl.{Ndsctl}
use tollgate_module_basic_go.Valve.Baseline.{has_data_baseline}
use tollgate_module_basic_go.Valve.Open.Laws.{IsTimed, open_gate_until_opened, open_gate_opened}
use tollgate_module_basic_go.Merchant.State.{
  Metric, milliseconds, bytes, other, CustomerSession, Merchant,
}
use tollgate_module_basic_go.Merchant.Session.{add_allotment, restore_session, snapshot_session}
use tollgate_module_basic_go.Merchant.Session.Laws.{
  Untouched, Frame, add_allotment_lem, add_allotment-keeps, restore_session-lookup,
  restore_session-erases,
}
use tollgate_module_basic_go.Merchant.Access.{
  GrantError, granted, refused, open_failure, open_gate_by_metric, open_gate_for_session,
  settle_grant, grant_session_access, grant_session_access_with,
}

-- The valve serves the session: its gate runs until its allotment is over, or is open and metered.
abbrev pub IsServed : Metric → Str → CustomerSession → Valve → Type 0
IsServed milliseconds mac s v = IsTimed mac (s.start_time + s.allotment / 1000) v
IsServed bytes mac s v = (lookup mac v.open_gates ≡ some none) × (has_data_baseline mac v ≡ true)
IsServed (other name) mac s v = ⊥

open_gate_by_metric-IsServed :
    (n : Ndsctl) (metric : Metric) (mac : Str) (s : CustomerSession) (now : ℕ) (v : Valve)
    → v.auth_delay ≡ 0
    → lookup mac v.pending_until ≡ none
    → (open_gate_by_metric n metric mac s now v).0 ≡ none
    → IsServed metric mac s (open_gate_by_metric n metric mac s now v).1
unfolding open_gate_by_metric open_failure
open_gate_by_metric-IsServed n milliseconds mac s now v d p h =
    let opened =
      open_gate_until_opened n mac (s.start_time + s.allotment / 1000) now v d p (ground arith) in
    (opened.0.0, opened.0.1)
open_gate_by_metric-IsServed n bytes mac s now v d p h =
    let opened = open_gate_opened n mac now v d (ground arith) in (opened.0, opened.1)
open_gate_by_metric-IsServed n (other name) mac s now v d p h = absurd (cc)

settle_grant-refused :
    (err : Option GrantError) (mac : Str) (s : CustomerSession) (m m1 : Merchant) {e : GrantError}
    → Untouched (normalize_mac_address mac) m m1
    → Frame m m1
    → (settle_grant err mac s (snapshot_session mac m) m1).0 ≡ refused e
    → let m' = (settle_grant err mac s (snapshot_session mac m) m1).1 in
      ((j : Str) → lookup j m'.customer_sessions ≡ lookup j m.customer_sessions) × Frame m m'
unfolding settle_grant restore_session
settle_grant-refused none mac s m m1 rest keeps h = absurd (cc)
settle_grant-refused (some err) mac s m m1 rest keeps h =
    (restore_session-lookup mac m m1 rest, ground arith)

-- When `grantSessionAccess` fails, with no other goroutine at the sessions meanwhile, every session is
-- what it was before the call, and so are the journals of what is owed and what was received.
pub grant_session_access_refused :
    (n : Ndsctl) (mac_address : Str) (allotment now : ℕ) (m : Merchant) {e : GrantError}
    → (grant_session_access n mac_address allotment now m).0 ≡ refused e
    → let m' = (grant_session_access n mac_address allotment now m).1 in
      ((j : Str) → lookup j m'.customer_sessions ≡ lookup j m.customer_sessions) × Frame m m'
unfolding grant_session_access
grant_session_access_refused n mac_address allotment now m {e} h =
    let mac = normalize_mac_address mac_address in
    let m1 = (add_allotment mac m.config.metric allotment now m).1 in
    let s = (add_allotment mac m.config.metric allotment now m).0 in
    let (err, v) = open_gate_for_session n mac s now m1.valve in
    settle_grant-refused err mac s m (record m1 { valve = v })
      (add_allotment_lem mac m.config.metric allotment now m).2
      (add_allotment-keeps mac m.config.metric allotment now m).0 h

-- The two accounts of `grantSessionAccess` agree where the other goroutines do nothing.
grant_session_access_with-alone :
    (n : Ndsctl) (mac_address : Str) (allotment now : ℕ) (m : Merchant)
    → grant_session_access_with n (λ x. x) mac_address allotment now m
      ≡ grant_session_access n mac_address allotment now m
unfolding grant_session_access_with grant_session_access
grant_session_access_with-alone n mac_address allotment now m = refl

settle_grant-erases :
    (err : Option GrantError) (mac key : Str) (s : CustomerSession) (m m1 : Merchant)
    {e : GrantError}
    → key ≡ normalize_mac_address mac
    → (settle_grant err mac s (snapshot_session mac m) m1).0 ≡ refused e
    → let m' = (settle_grant err mac s (snapshot_session mac m) m1).1 in
      (lookup key m'.customer_sessions ≡ lookup key m.customer_sessions)
      × Untouched key m1 m'
      × Frame m1 m'
unfolding settle_grant restore_session
settle_grant-erases none mac key s m m1 same h = absurd (cc)
settle_grant-erases (some err) mac key s m m1 same h =
    let undone = restore_session-erases mac m m1 in
    (rw same undone.0, rw same undone.1, ground arith)

-- A grant that fails undoes what others bought: when the gate cannot be opened, the customer's
-- session is what it was before the call, whatever other goroutines made of it while the gate was
-- being opened, so that an allotment which another payment added meanwhile is gone. The sessions of
-- the other customers, and the journals of what is owed and what was received, are as those
-- goroutines left them.
pub grant_session_access_with_erases :
    (n : Ndsctl) (others : Merchant → Merchant) (mac_address : Str) (allotment now : ℕ)
    (m : Merchant) {e : GrantError}
    → (grant_session_access_with n others mac_address allotment now m).0 ≡ refused e
    → let mac = normalize_mac_address mac_address in
      let (s, m1) = add_allotment mac m.config.metric allotment now m in
      let left = others (record m1 { valve = (open_gate_for_session n mac s now m1.valve).1 }) in
      let m' = (grant_session_access_with n others mac_address allotment now m).1 in
      (lookup mac m'.customer_sessions ≡ lookup mac m.customer_sessions)
      × Untouched mac left m'
      × Frame left m'
unfolding grant_session_access_with
grant_session_access_with_erases n others mac_address allotment now m {e} h =
    let mac = normalize_mac_address mac_address in
    let (s, m1) = add_allotment mac m.config.metric allotment now m in
    let (err, v) = open_gate_for_session n mac s now m1.valve in
    settle_grant-erases err mac mac s m (others (record m1 { valve = v }))
      (sym (normalize_mac_address_idem mac_address)) h

settle_grant-granted :
    (err : Option GrantError) (mac : Str) (s r : CustomerSession) (p : Option CustomerSession)
    (m : Merchant)
    → (settle_grant err mac s p m).0 ≡ granted r
    → (err ≡ none) × (s ≡ r) × ((settle_grant err mac s p m).1 ≡ m)
unfolding settle_grant
settle_grant-granted none mac s r p m h = (refl, ground arith, refl)
settle_grant-granted (some e) mac s r p m h = absurd (cc)

-- When `grantSessionAccess` succeeds (with no authorisation delay, and no pending start for the
-- client), the session it returns is the one in the table, the valve serves it, every other session
-- is untouched, and the journals are unchanged.
pub grant_session_access_granted :
    (n : Ndsctl) (mac_address : Str) (allotment now : ℕ) (m : Merchant) {s : CustomerSession}
    → m.valve.auth_delay ≡ 0
    → lookup (normalize_mac_address mac_address) m.valve.pending_until ≡ none
    → (grant_session_access n mac_address allotment now m).0 ≡ granted s
    → let mac = normalize_mac_address mac_address in
      let m' = (grant_session_access n mac_address allotment now m).1 in
      (lookup mac m'.customer_sessions ≡ some s)
      × IsServed s.metric mac s m'.valve
      × Untouched mac m m'
      × Frame m m'
unfolding grant_session_access
grant_session_access_granted n mac_address allotment now m {s} immediate not_pending h =
    let mac = normalize_mac_address mac_address in
    let (r, m1) = add_allotment mac m.config.metric allotment now m in
    let sold =
      rw normalize_mac_address_idem at (add_allotment_lem mac m.config.metric allotment now m) in
    let keeps = add_allotment-keeps mac m.config.metric allotment now m in
    let (err, v) = open_gate_for_session n mac r now m1.valve in
    let done =
      settle_grant-granted err mac r s (snapshot_session mac m) (record m1 { valve = v }) h in
    let served =
      open_gate_by_metric-IsServed n r.metric mac r now m1.valve (ground arith) (ground arith)
        done.0 in
    (
      rw (done.2, ← done.1) sold.0,
      rw (done.2, ← done.1) served,
      rw done.2 sold.2,
      rw done.2 keeps.0,
    )

-- A grant leaves the journals alone, whatever becomes of it.
pub grant_session_access-keeps :
    (n : Ndsctl) (mac_address : Str) (allotment now : ℕ) (m : Merchant)
    → Frame m (grant_session_access n mac_address allotment now m).1
unfolding grant_session_access settle_grant restore_session
grant_session_access-keeps n mac_address allotment now m =
    ground (
      arith,
      add_allotment-keeps (normalize_mac_address mac_address) m.config.metric allotment now m,
    )

-- The session that a grant returns is the one in the table.
pub grant_session_access-session :
    (n : Ndsctl) (mac_address : Str) (allotment now : ℕ) (m : Merchant) {s : CustomerSession}
    → (grant_session_access n mac_address allotment now m).0 ≡ granted s
    → lookup
        (normalize_mac_address mac_address)
        (grant_session_access n mac_address allotment now m).1.customer_sessions
      ≡ some s
unfolding grant_session_access
grant_session_access-session n mac_address allotment now m {s} h =
    let mac = normalize_mac_address mac_address in
    let (r, m1) = add_allotment mac m.config.metric allotment now m in
    let sold =
      rw normalize_mac_address_idem at (add_allotment_lem mac m.config.metric allotment now m) in
    let (err, v) = open_gate_for_session n mac r now m1.valve in
    let done =
      settle_grant-granted err mac r s (snapshot_session mac m) (record m1 { valve = v }) h in
    rw (done.2, ← done.1) sold.0
