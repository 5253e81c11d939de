-- ===== src/Merchant/Session.antt =====
-- The session table of the merchant (src/merchant/merchant.go): expiry, lookup, retirement and
-- renewal. One `now` stands for the readings of the clock that one call makes.
pub mod Laws
use tollgate_module_basic_go.Prelude.{
  ℕ, ◌+◌, ◌-◌, ◌/◌, Bool, true, false, not, ◌&&◌, ◌||◌, Option, none, some, List, [], ◌∷◌, Str,
  str_eq, ltb, leb, ◌==◌, if◌then◌else◌, length, is_some,
}
use tollgate_module_basic_go.Prelude.Words.{add64, unix, at_unix, millisecond}
use tollgate_module_basic_go.Dict.{Dict, lookup, insert, erase}
use tollgate_module_basic_go.Mac.{normalize_mac_address}
use tollgate_module_basic_go.Merchant.State.{Metric, CustomerSession, Merchant}

pub data SessionState : Type 0 where
  no_session active expired : SessionState

pub data SessionError : Type 0 where
  not_found expired : SessionError

pub data Found : Type 0 where
  session : CustomerSession → Found
  error : SessionError → Found

-- `sessionHistoryTTL` in nanoseconds and `sessionHistoryMaxEntries`.
abbrev pub session_history_ttl : ℕ
session_history_ttl = 86400000000000

abbrev pub session_history_max_entries : ℕ
session_history_max_entries = 4096

-- A milliseconds session that began at `start` (Unix seconds) has used up its allotment.
time_is_up : ℕ → ℕ → ℕ → Bool
time_is_up start allotment now =
    leb (at_unix start) now && leb allotment ((now - at_unix start) / millisecond)

expired_by_metric : Metric → CustomerSession → ℕ → Bool
unfolding time_is_up
expired_by_metric Metric.milliseconds s now = time_is_up s.start_time s.allotment now
expired_by_metric Metric.bytes s now = false
expired_by_metric (Metric.other name) s now = false

-- `sessionHasExpired`: only the milliseconds metric can be judged from the record alone.
unfoldable pub session_has_expired : CustomerSession → ℕ → Bool
unfolding expired_by_metric
session_has_expired s now = expired_by_metric s.metric s now

-- The sweep in `rememberExpiredSessionLocked`: entries before the cutoff go.
drop_before : ℕ → Dict ℕ → Dict ℕ
drop_before cutoff [] = []
drop_before cutoff ((mac, when) ∷ m) =
    let rest = drop_before cutoff m in if ltb when cutoff then rest else (mac, when) ∷ rest

-- The oldest entry older than `oldest`, found so far as `best`; the empty text is none.
oldest_before : ℕ → Str → Dict ℕ → Str
oldest_before oldest best [] = best
oldest_before oldest best ((mac, when) ∷ m) =
    oldest_before (if ltb when oldest then when else oldest) (if ltb when oldest then mac else best)
      m

abbrev pub is_empty : Str → Bool
is_empty [] = true
is_empty (c ∷ s) = false

-- The cap on the history: one entry at most goes, and never the one just written.
cap_history : Str → ℕ → Dict ℕ → Dict ℕ
unfolding oldest_before
cap_history mac now m =
    let oldest = oldest_before (unix now) [] m in
    if ltb session_history_max_entries (length m)
      && not (is_empty oldest)
      && not (str_eq oldest mac)
    then erase oldest m
    else m

-- `rememberExpiredSessionLocked`
unfoldable pub remember_expired_session : Str → ℕ → Dict ℕ → Dict ℕ
unfolding drop_before cap_history
remember_expired_session mac now m =
    cap_history mac now (drop_before (unix (now - session_history_ttl)) (insert mac (unix now) m))

-- `sessionKnownToHaveExpiredLocked`
unfoldable pub session_known_to_have_expired : Str → ℕ → Merchant → Bool
session_known_to_have_expired mac now m = elim (lookup mac m.expired_sessions) [
  | none ↦ false
  | some when ↦ leb (now - at_unix when) session_history_ttl
]

-- `expireSessionLocked`
unfoldable pub expire_session : Str → ℕ → Merchant → Merchant
expire_session mac now m = record m {
  customer_sessions = erase mac m.customer_sessions;
  expired_sessions = remember_expired_session mac now m.expired_sessions;
}

-- `retireSessionOrParkForTicketLocked`: whether the record was retired, and whether it was parked.
unfoldable pub retire_session_or_park : Str → ℕ → Merchant → (Bool × Bool) × Merchant
retire_session_or_park mac now m = elim (lookup mac m.customer_sessions) [
  | none ↦ ((false, false), m)
  | some s ↦
      if ltb (unix now) s.ticket_expires_at
      then ((false, true), m)
      else ((true, false), expire_session mac now m)
]

-- `GetSession`
unfoldable pub get_session : Str → ℕ → Merchant → Found × Merchant
get_session mac_address now m =
    let mac = normalize_mac_address mac_address in
    elim (lookup mac m.customer_sessions) [
      | none ↦ (error not_found, m)
      | some s ↦
          if session_has_expired s now
          then (error SessionError.expired, expire_session mac now m)
          else (session s, m)
    ]

state_of_found : Found → Bool → SessionState
state_of_found (session s) known = active
state_of_found (error e) known = if known then SessionState.expired else no_session

-- `GetSessionState`
unfoldable pub get_session_state : Str → ℕ → Merchant → SessionState × Merchant
unfolding state_of_found
get_session_state mac_address now m =
    let mac = normalize_mac_address mac_address in
    if is_empty mac
    then (no_session, m)
    else let (found, m') = get_session mac now m in
      (state_of_found found (session_known_to_have_expired mac now m'), m')

counts_as_renewal : SessionState → Bool
counts_as_renewal no_session = false
counts_as_renewal active = true
counts_as_renewal SessionState.expired = true

-- `sessionIsRenewal`
unfoldable pub session_is_renewal : Str → ℕ → Merchant → Bool × Merchant
unfolding counts_as_renewal
session_is_renewal mac now m =
    let (state, m') = get_session_state mac now m in (counts_as_renewal state, m')

new_session : Str → Metric → ℕ → ℕ → CustomerSession
new_session mac metric amount now = record {
  mac_address = mac;
  start_time = unix now;
  metric = metric;
  allotment = amount;
  consumed = 0;
  attachment_usage = 0;
  ticket_handle = [];
  ticket_expires_at = 0;
}

extended : CustomerSession → ℕ → ℕ → CustomerSession
extended s amount now = record s { allotment = add64 s.allotment amount; start_time = unix now }

put_session : Str → CustomerSession → Merchant → CustomerSession × Merchant
put_session mac s m = (s, record m { customer_sessions = insert mac s m.customer_sessions })

-- `AddAllotment`: a spent session is retired before a new one starts; a live one is extended.
unfoldable pub add_allotment : Str → Metric → ℕ → ℕ → Merchant → CustomerSession × Merchant
unfolding new_session extended put_session
add_allotment mac_address metric amount now m =
    let mac = normalize_mac_address mac_address in
    elim (lookup mac m.customer_sessions) [
      | none ↦ put_session mac (new_session mac metric amount now) m
      | some s ↦
          if session_has_expired s now
          then put_session mac (new_session mac metric amount now) (expire_session mac now m)
          else put_session mac (extended s amount now) m
    ]

-- `snapshotSession`
abbrev pub snapshot_session : Str → Merchant → Option CustomerSession
snapshot_session mac m = lookup (normalize_mac_address mac) m.customer_sessions

-- `restoreSession`
unfoldable pub restore_session : Str → Option CustomerSession → Merchant → Merchant
restore_session mac previous m =
    let key = normalize_mac_address mac in
    elim previous [
      | none ↦ record m { customer_sessions = erase key m.customer_sessions }
      | some s ↦ record m { customer_sessions = insert key s m.customer_sessions }
    ]
