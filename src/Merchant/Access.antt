-- ===== src/Merchant/Access.antt =====
-- Granting access (src/merchant/lightning.go): the allotment is added, the gate is opened, and the
-- session is put back as it was when the gate cannot be opened.
pub mod Laws
use tollgate_module_basic_go.Prelude.{ℕ, ◌+◌, ◌/◌, Option, none, some, Str}
use tollgate_module_basic_go.Mac.{normalize_mac_address}
use tollgate_module_basic_go.Valve.State.{Valve}
use tollgate_module_basic_go.Valve.Ndsctl.{Ndsctl}
use tollgate_module_basic_go.Valve.Open.{OpenError, open_gate_until, open_gate}
use tollgate_module_basic_go.Merchant.State.{
  Metric, milliseconds, bytes, other, CustomerSession, Merchant,
}
use tollgate_module_basic_go.Merchant.Session.{add_allotment, snapshot_session, restore_session}

pub data GrantError : Type 0 where
  open_failed : OpenError → GrantError
  unsupported_metric : GrantError

pub data Grant : Type 0 where
  granted : CustomerSession → Grant
  refused : GrantError → Grant

open_failure : Option OpenError → Option GrantError
open_failure none = none
open_failure (some e) = some (open_failed e)

-- `openGateForSession`; the metric is the session's.
unfoldable pub open_gate_by_metric :
    Ndsctl → Metric → Str → CustomerSession → ℕ → Valve → Option GrantError × Valve
unfolding open_failure
open_gate_by_metric n milliseconds mac s now v =
    let (err, v') = open_gate_until n mac (s.start_time + s.allotment / 1000) now v in
    (open_failure err, v')
open_gate_by_metric n bytes mac s now v =
    let (err, v') = open_gate n mac now v in (open_failure err, v')
open_gate_by_metric n (other name) mac s now v = (some unsupported_metric, v)

abbrev pub open_gate_for_session :
    Ndsctl → Str → CustomerSession → ℕ → Valve → Option GrantError × Valve
open_gate_for_session n mac s now v = open_gate_by_metric n s.metric mac s now v

-- The end of `grantSessionAccess`: keep the session, or restore the snapshot.
unfoldable pub settle_grant :
    Option GrantError → Str → CustomerSession → Option CustomerSession → Merchant → Grant × Merchant
settle_grant none mac s previous m = (granted s, m)
settle_grant (some e) mac s previous m = (refused e, restore_session mac previous m)

-- `grantSessionAccess`, where no other goroutine is at the sessions between the snapshot, the added
-- allotment and the end: the source takes their lock for each of the three alone.
unfoldable pub grant_session_access : Ndsctl → Str → ℕ → ℕ → Merchant → Grant × Merchant
grant_session_access n mac_address allotment now m =
    let mac = normalize_mac_address mac_address in
    let previous = snapshot_session mac m in
    let (s, m1) = add_allotment mac m.config.metric allotment now m in
    let (err, v) = open_gate_for_session n mac s now m1.valve in
    settle_grant err mac s previous (record m1 { valve = v })

-- The same call with other goroutines: `others` is what they do from the moment the allotment is
-- added to the end, while the gate is being opened.
unfoldable pub grant_session_access_with :
    Ndsctl → (Merchant → Merchant) → Str → ℕ → ℕ → Merchant → Grant × Merchant
grant_session_access_with n others mac_address allotment now m =
    let mac = normalize_mac_address mac_address in
    let previous = snapshot_session mac m in
    let (s, m1) = add_allotment mac m.config.metric allotment now m in
    let (err, v) = open_gate_for_session n mac s now m1.valve in
    settle_grant err mac s previous (others (record m1 { valve = v }))
