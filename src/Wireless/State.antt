-- ===== src/Wireless/State.antt =====
-- The state of `UpstreamManager` (src/wireless_gateway_manager/upstream_manager.go): the blacklist
-- and the circuit breaker. Instants are nanoseconds, and `none` is the zero `time.Time`.
use tollgate_module_basic_go.Prelude.{
  ℕ, ◌+◌, Bool, false, Option, none, some, [], ◌∷◌, Str, ltb, leb, if◌then◌else◌,
}
use tollgate_module_basic_go.Prelude.Integers.{ℤ}
use tollgate_module_basic_go.Dict.{Dict, lookup, insert}

-- `STASection`
pub record StaSection : Type 0 where
  pub name : Str
  pub ssid : Str
  pub disabled : Bool

-- The fields of `NetworkInfo` that the choice reads.
pub record NetworkInfo : Type 0 where
  pub bssid : Str
  pub ssid : Str
  pub signal : ℤ
  pub encryption : Str
  pub radio : Str

pub record Candidate : Type 0 where
  pub bssid : Str
  pub signal : ℤ
  pub radio : Str
  pub iface_name : Str
  pub ssid : Str

-- The fields of `UpstreamManagerConfig` that the main loop reads; `scan_cycles` is
-- `ScanInterval / FastCheck`, and one where that is less.
pub record UpstreamManagerConfig : Type 0 where
  pub scan_cycles : ℕ
  pub lost_threshold : ℕ
  pub toll_gate_lost_threshold : ℕ
  pub hysteresis_db : ℤ
  pub signal_floor : ℤ
  pub blacklist_ttl : ℕ
  pub emergency_penalty : ℤ
  pub max_consecutive_failures : ℕ
  pub switch_cooldown : ℕ

pub record UpstreamManager : Type 0 where
  pub config : UpstreamManagerConfig
  pub pause_until : Option ℕ
  pub blacklist : Dict ℕ
  pub consecutive_fails : ℕ
  pub cooldown_until : Option ℕ
  pub is_toll_gate_connection : Bool

-- `time.Now().Before(t)`
unfoldable pub is_before : ℕ → Option ℕ → Bool
is_before now none = false
is_before now (some t) = ltb now t

-- `PauseConnectivityChecks`
unfoldable pub pause_connectivity_checks : ℕ → ℕ → UpstreamManager → UpstreamManager
pause_connectivity_checks d now um = record um { pause_until = some (now + d) }

-- `isPaused`
abbrev pub is_paused : ℕ → UpstreamManager → Bool
is_paused now um = is_before now um.pause_until

-- `isInCooldown`
abbrev pub is_in_cooldown : ℕ → UpstreamManager → Bool
is_in_cooldown now um = is_before now um.cooldown_until

-- `recordSwitchFailure`
unfoldable pub record_switch_failure : ℕ → UpstreamManager → UpstreamManager
record_switch_failure now um =
    let fails = um.consecutive_fails + 1 in
    if leb um.config.max_consecutive_failures fails
    then record um {
      consecutive_fails = fails;
      cooldown_until = some (now + um.config.switch_cooldown);
    }
    else record um { consecutive_fails = fails }

-- `resetSwitchFailures`
unfoldable pub reset_switch_failures : UpstreamManager → UpstreamManager
reset_switch_failures um =
    if ltb 0 um.consecutive_fails
    then record um { consecutive_fails = 0; cooldown_until = none }
    else um

-- `blacklistSSID`
unfoldable pub blacklist_ssid : Str → ℕ → UpstreamManager → UpstreamManager
blacklist_ssid ssid now um = record um { blacklist = insert ssid now um.blacklist }

fresh_entry : ℕ → ℕ → Option ℕ → Bool
fresh_entry ttl now none = false
fresh_entry ttl now (some t) = ltb now (t + ttl)

-- `isBlacklisted`
unfoldable pub is_blacklisted : Str → ℕ → UpstreamManager → Bool
unfolding fresh_entry
is_blacklisted ssid now um = fresh_entry um.config.blacklist_ttl now (lookup ssid um.blacklist)

drop_old : ℕ → ℕ → Dict ℕ → Dict ℕ
drop_old ttl now [] = []
drop_old ttl now ((ssid, t) ∷ m) =
    let rest = drop_old ttl now m in if leb (t + ttl) now then rest else (ssid, t) ∷ rest

-- `purgeBlacklist`
unfoldable pub purge_blacklist : ℕ → UpstreamManager → UpstreamManager
unfolding drop_old
purge_blacklist now um = record um { blacklist = drop_old um.config.blacklist_ttl now um.blacklist }
