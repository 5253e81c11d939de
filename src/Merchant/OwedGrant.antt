-- ===== src/Merchant/OwedGrant.antt =====
-- What the customer has paid for and not got yet (src/merchant/owed_grant.go). The disk is a
-- parameter: whether the n-th write of a journal succeeds.
pub mod Laws
pub mod Monitor
pub mod Restart
use tollgate_module_basic_go.Prelude.{
  ℕ, zero, suc, ◌+◌, ◌-◌, ◌*◌, ◌%◌, ◌^◌, Bool, true, false, not, ◌&&◌, ◌||◌, Option, none, some,
  List, [], ◌∷◌, Str, ltb, leb, if◌then◌else◌,
}
use tollgate_module_basic_go.Prelude.Words.{second, millisecond, mul64}
use tollgate_module_basic_go.Dict.{Dict, lookup, insert}
use tollgate_module_basic_go.Mac.{normalize_mac_address}
use tollgate_module_basic_go.Valve.Ndsctl.{Ndsctl}
use tollgate_module_basic_go.Merchant.State.{
  Metric, milliseconds, bytes, other, OwedGrantState, owed, granted, expired, OwedGrantRecord,
  Merchant,
}
use tollgate_module_basic_go.Merchant.Session.{is_empty}
use tollgate_module_basic_go.Merchant.Access.{Grant, refused, grant_session_access}

-- `owedGrantRetryInterval`, `owedGrantMaxBackoff` and `owedGrantBytesMaxAge`.
abbrev pub owed_grant_retry_interval : ℕ
owed_grant_retry_interval = 5 * second

abbrev pub owed_grant_max_backoff : ℕ
owed_grant_max_backoff = 30 * second

abbrev pub owed_grant_bytes_max_age : ℕ
owed_grant_bytes_max_age = 86400 * second

abbrev pub is_owed_state : OwedGrantState → Bool
is_owed_state owed = true
is_owed_state granted = false
is_owed_state expired = false

abbrev pub is_owed : OwedGrantRecord → Bool
is_owed rec = is_owed_state rec.state

-- `Processing` is not part of the persisted form.
stored : Dict OwedGrantRecord → Dict OwedGrantRecord
stored [] = []
stored ((ref, rec) ∷ m) = (ref, record rec { processing = false }) ∷ stored m

-- `persistOwedGrants`: a write that fails leaves the file as it was.
unfoldable pub persist_owed_grants : (ℕ → Bool) → Merchant → Merchant
unfolding stored
persist_owed_grants disk m = record m {
  grant_file = if disk m.writes then stored m.owed_grants else m.grant_file;
  writes = m.writes + 1;
}

put_owed : Str → OwedGrantRecord → Merchant → Merchant
put_owed ref rec m = record m { owed_grants = insert ref rec m.owed_grants }

already_owed : Option OwedGrantRecord → Bool
already_owed none = false
already_owed (some rec) = is_owed rec

unfoldable pub new_owed : Str → Str → ℕ → ℕ → Metric → ℕ → OwedGrantRecord
new_owed mac mint_url amount allotment metric now = record {
  mac_address = normalize_mac_address mac;
  mint_url = mint_url;
  amount_sats = amount;
  allotment = allotment;
  metric = metric;
  created_at = now;
  granted_at = none;
  expired_at = none;
  state = owed;
  attempts = 0;
  processing = false;
}

-- `recordOwedGrant`: a claim that is already owed is not recorded again.
unfoldable pub record_owed_grant : (ℕ → Bool) → Str → Str → Str → ℕ → ℕ → ℕ → Merchant → Merchant
unfolding put_owed already_owed
record_owed_grant disk ref mac mint_url amount allotment now m =
    if is_empty ref || already_owed (lookup ref m.owed_grants)
    then m
    else let m1 =
        persist_owed_grants disk
          (put_owed ref (new_owed mac mint_url amount allotment m.config.metric now) m) in
      record m1 { monitors = ref ∷ m1.monitors }

-- `time.Duration(allotment) * time.Millisecond` added to an instant: a signed 64-bit product.
add_milliseconds : ℕ → ℕ → ℕ
add_milliseconds t allotment =
    let d = mul64 allotment millisecond in if ltb d (2 ^ 63) then t + d else t - (2 ^ 64 - d)

deadline_by_metric : Metric → OwedGrantRecord → ℕ
unfolding add_milliseconds
deadline_by_metric milliseconds rec = add_milliseconds rec.created_at rec.allotment
deadline_by_metric bytes rec = rec.created_at + owed_grant_bytes_max_age
deadline_by_metric (other name) rec = rec.created_at + owed_grant_bytes_max_age

-- `owedGrantDeadline`
unfoldable pub owed_grant_deadline : OwedGrantRecord → ℕ
unfolding deadline_by_metric
owed_grant_deadline rec = deadline_by_metric rec.metric rec

-- `expireOwedGrant`
unfoldable pub expire_owed_grant : (ℕ → Bool) → Str → ℕ → Merchant → Merchant
unfolding put_owed
expire_owed_grant disk ref now m = elim (lookup ref m.owed_grants) [
  | none ↦ m
  | some rec ↦
      if is_owed rec
      then persist_owed_grants disk
          (put_owed ref (record rec { state = expired; expired_at = some now }) m)
      else m
]

-- The end of `ensureOwedGrantGranted` after a grant that failed, and after one that succeeded.
note_failure : (ℕ → Bool) → Str → Merchant → Merchant
unfolding put_owed
note_failure disk ref m = elim (lookup ref m.owed_grants) [
  | none ↦ persist_owed_grants disk m
  | some rec ↦
      if is_owed rec
      then persist_owed_grants disk
          (put_owed ref (record rec { processing = false; attempts = rec.attempts + 1 }) m)
      else persist_owed_grants disk m
]

note_granted : (ℕ → Bool) → Str → ℕ → Merchant → Merchant
unfolding put_owed
note_granted disk ref now m = elim (lookup ref m.owed_grants) [
  | none ↦ persist_owed_grants disk m
  | some rec ↦
      persist_owed_grants disk
        (put_owed ref (record rec { state = granted; granted_at = some now; processing = false }) m)
]

settle_owed : (ℕ → Bool) → Str → ℕ → Grant → Merchant → Bool × Merchant
unfolding note_failure note_granted
settle_owed disk ref now (Grant.granted s) m = (true, note_granted disk ref now m)
settle_owed disk ref now (refused e) m = (false, note_failure disk ref m)

-- `ensureOwedGrantGranted`: `true` is no error. The lock is free around `grantSessionAccess`, where
-- `between` is what the other goroutines do, before it and after it.
unfoldable pub ensure_owed_grant_granted :
    Ndsctl → (ℕ → Bool) → (Merchant → Merchant) → Str → ℕ → Merchant → Bool × Merchant
unfolding put_owed settle_owed
ensure_owed_grant_granted n disk between ref now m = elim (lookup ref m.owed_grants) [
  | none ↦ (true, m)
  | some rec ↦
      if not (is_owed rec) || rec.processing
      then (true, m)
      else let claimed = between (put_owed ref (record rec { processing = true }) m) in
        let (grant, m1) = grant_session_access n rec.mac_address rec.allotment now claimed in
        settle_owed disk ref now grant (between m1)
]

-- The backoff of `monitorOwedGrant` after a wait of `backoff`.
next_backoff : ℕ → ℕ
next_backoff backoff =
    if ltb backoff owed_grant_max_backoff
    then (if ltb owed_grant_max_backoff (backoff * 2) then owed_grant_max_backoff else backoff * 2)
    else backoff

-- What one round of `monitorOwedGrant` finds before it waits.
pub data Round : Type 0 where
  over : Round
  too_late retry : OwedGrantRecord → Round

round : ℕ → Option OwedGrantRecord → Round
round now none = over
round now (some rec) =
    if not (is_owed rec) || rec.processing
    then over
    else if ltb (owed_grant_deadline rec) now
    then too_late rec
    else retry rec

-- `monitorOwedGrant` for at most `fuel` rounds, with the time after the monitor's waits: `jitter`
-- is what each wait and the grant before it take beyond the backoff. The flag tells that it ended.
unfoldable pub monitor_owed_grant :
    Ndsctl → (ℕ → Bool) → (ℕ → ℕ) → Str → ℕ → ℕ → ℕ → Merchant → Bool × Merchant
unfolding next_backoff round
monitor_owed_grant n disk jitter ref zero backoff now m = (false, m)
monitor_owed_grant n disk jitter ref (suc fuel) backoff now m =
    elim (round now (lookup ref m.owed_grants)) [
      | over ↦ (true, m)
      | too_late rec ↦ (true, expire_owed_grant disk ref now m)
      | retry rec ↦
          let later = now + backoff + jitter fuel in
          let (ok, m1) = ensure_owed_grant_granted n disk (λ w. w) ref later m in
          let rest = monitor_owed_grant n disk jitter ref fuel (next_backoff backoff) later m1 in
          if ok then (true, m1) else rest
    ]

-- One record of `loadOwedGrantsFromDisk`: terminal records are skipped, and a record in time gets
-- its monitor.
restore_owed : ℕ → Str → OwedGrantRecord → Merchant → Merchant
unfolding put_owed
restore_owed now ref rec m =
    if is_owed rec
    then (let m1 = put_owed ref (record rec { processing = false }) m in
        if ltb (owed_grant_deadline rec) now
        then m1
        else record m1 { monitors = ref ∷ m1.monitors })
    else m

pub restore_all : ℕ → Dict OwedGrantRecord → Merchant → Merchant
unfolding restore_owed
restore_all now [] m = m
restore_all now ((ref, rec) ∷ rest) m = restore_owed now ref rec (restore_all now rest m)

is_late : ℕ → Option OwedGrantRecord → Bool
is_late now none = false
is_late now (some rec) = is_owed rec && ltb (owed_grant_deadline rec) now

-- Those keys of `m` whose record in `all` is owed although its deadline has passed.
late_refs : ℕ → Dict OwedGrantRecord → Dict OwedGrantRecord → List Str
unfolding is_late
late_refs now all [] = []
late_refs now all ((ref, rec) ∷ m) =
    let rest = late_refs now all m in if is_late now (lookup ref all) then ref ∷ rest else rest

expire_all : (ℕ → Bool) → ℕ → List Str → Merchant → Merchant
expire_all disk now [] m = m
expire_all disk now (ref ∷ refs) m = expire_all disk now refs (expire_owed_grant disk ref now m)

-- `loadOwedGrantsFromDisk`; `none` is a file that cannot be read.
unfoldable pub load_owed_grants :
    (ℕ → Bool) → Option (Dict OwedGrantRecord) → ℕ → Merchant → Merchant
unfolding late_refs expire_all
load_owed_grants disk none now m = m
load_owed_grants disk (some []) now m = m
load_owed_grants disk (some (entry ∷ rest)) now m =
    let m1 = restore_all now (entry ∷ rest) m in
    persist_owed_grants disk (expire_all disk now (late_refs now m1.owed_grants m1.owed_grants) m1)
