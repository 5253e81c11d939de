-- ===== src/Wireless/Manager.antt =====
-- The scan cycle and the watch of the connection (src/wireless_gateway_manager/upstream_manager.go).
-- What iwinfo, ping and the probe of a gateway say is an argument.
pub mod Laws
use tollgate_module_basic_go.Prelude.{
  ℕ, ◌+◌, Bool, true, false, not, ◌&&◌, ◌||◌, ◌==◌, Option, none, some, List, [], ◌∷◌, Str, ltb,
  leb, if◌then◌else◌,
}
use tollgate_module_basic_go.Prelude.Integers.{ℤ, pos, negsuc, ltb_ℤ, leb_ℤ, ◌-ℤ◌}
use tollgate_module_basic_go.Merchant.Session.{is_empty}
use tollgate_module_basic_go.Wireless.State.{
  NetworkInfo, Candidate, UpstreamManager, is_paused, is_in_cooldown, record_switch_failure,
  reset_switch_failures, blacklist_ssid, purge_blacklist,
}
use tollgate_module_basic_go.Wireless.Candidates.{Connector, find_candidates}

-- The reasons of a scan cycle.
pub data Reason : Type 0 where
  scheduled no_active_upstream not_associated emergency : Reason

pub is_emergency : Reason → Bool
is_emergency emergency = true
is_emergency scheduled = false
is_emergency no_active_upstream = false
is_emergency not_associated = false

-- What a cycle did.
pub data Cycle : Type 0 where
  skipped stayed : Cycle
  switched failed : Candidate → Cycle

is_zero : ℤ → Bool
is_zero (pos n) = n == 0
is_zero (negsuc n) = false

-- Whether the candidate is worth a switch.
unfoldable pub should_switch : Str → ℤ → Candidate → UpstreamManager → Bool
unfolding is_zero
should_switch active_iface signal candidate um =
    is_empty active_iface
    || is_zero signal
    || ltb_ℤ signal um.config.signal_floor
    || leb_ℤ um.config.hysteresis_db (candidate.signal -ℤ signal)

-- The upstream that was left in an emergency is blacklisted.
leave : Bool → Str → ℕ → UpstreamManager → UpstreamManager
leave urgent ssid now um = if urgent && not (is_empty ssid) then blacklist_ssid ssid now um else um

-- `SwitchUpstream` has answered.
settle_switch : Bool → Bool → Str → Candidate → ℕ → UpstreamManager → Cycle × UpstreamManager
unfolding leave
settle_switch true urgent active_ssid candidate now um =
    (switched candidate, leave urgent active_ssid now (reset_switch_failures um))
settle_switch false urgent active_ssid candidate now um =
    (failed candidate, record_switch_failure now um)

try_candidate :
    Connector
    → Str
    → Str
    → ℤ
    → Bool
    → ℕ
    → Option Candidate
    → UpstreamManager
    → Cycle × UpstreamManager
unfolding settle_switch
try_candidate c active_iface active_ssid signal urgent now none um = (stayed, um)
try_candidate c active_iface active_ssid signal urgent now (some candidate) um =
    if should_switch active_iface signal candidate um
    then settle_switch (c.switch_upstream active_iface candidate.iface_name candidate.ssid) urgent
        active_ssid candidate now um
    else (stayed, um)

-- `runScanCycle`; `networks` is what the scanner hears, `none` an error.
unfoldable pub run_scan_cycle :
    Connector
    → Option (List NetworkInfo)
    → Str
    → Str
    → ℤ
    → Reason
    → Bool
    → ℕ
    → UpstreamManager
    → Cycle × UpstreamManager
unfolding is_emergency try_candidate
run_scan_cycle c networks active_iface active_ssid signal reason is_reseller now um =
    if is_in_cooldown now um
    then (skipped, um)
    else (let um1 = purge_blacklist now um in
        elim networks [
          | none ↦ (stayed, um1)
          | some nets ↦
              try_candidate c active_iface active_ssid signal (is_emergency reason) now
                (find_candidates c nets is_reseller (is_emergency reason) now um1) um1
        ])

-- `verifyPostSwitchConnectivity`: whether a TollGate answers at the default route, and whether the
-- internet does.
unfoldable pub verify_post_switch : Str → Bool → Bool → ℕ → UpstreamManager → UpstreamManager
verify_post_switch ssid toll_gate internet now um =
    if toll_gate
    then record um { is_toll_gate_connection = true }
    else (let um1 = record um { is_toll_gate_connection = false } in
        if internet then um1 else blacklist_ssid ssid now um1)

-- What the main loop sees of the active upstream at a tick; `none` of `sta` is no active section.
pub record Look : Type 0 where
  pub sta : Option (Str × Str)
  pub associated : Bool
  pub connected : Bool

-- The counters of `Start`.
pub record Watch : Type 0 where
  pub scan_counter : ℕ
  pub lost_count : ℕ

lost_threshold_of : UpstreamManager → ℕ
lost_threshold_of um =
    if um.is_toll_gate_connection
    then um.config.toll_gate_lost_threshold
    else um.config.lost_threshold

-- The connection of an associated upstream: the reason of a scan, if one is due.
watch_connection : Bool → ℕ → UpstreamManager → Watch → Option Reason × Watch
unfolding lost_threshold_of
watch_connection true now um w =
    let w1 = record w { lost_count = 0; scan_counter = w.scan_counter + 1 } in
    (if leb um.config.scan_cycles w1.scan_counter then some scheduled else none, w1)
watch_connection false now um w =
    if is_paused now um
    then (none, w)
    else (let w1 = record w { lost_count = w.lost_count + 1 } in
        (if leb (lost_threshold_of um) w1.lost_count then some emergency else none, w1))

watch_sta : Look → ℕ → UpstreamManager → Watch → Option Reason × Watch
unfolding watch_connection
watch_sta look now um w = elim look.sta [
  | none ↦ (some no_active_upstream, w)
  | some names ↦
      if look.associated then watch_connection look.connected now um w else (some not_associated, w)
]

-- One tick of the main loop of `Start`, up to the scan: the counters start again with each scan.
unfoldable pub tick : Look → ℕ → UpstreamManager → Watch → Option Reason × Watch
unfolding watch_sta
tick look now um w =
    let (due, w1) = watch_sta look now um w in
    elim due [
      | none ↦ (none, w1)
      | some reason ↦ (some reason, record { scan_counter = 0; lost_count = 0 })
    ]
