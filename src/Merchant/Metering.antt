-- ===== src/Merchant/Metering.antt =====
-- The usage monitor's step for one bytes session (src/merchant/merchant.go): meter it, give it the
-- baseline that it lacks, or close a gate that cannot be metered. The session table is not locked
-- while `ndsctl` is asked: `between` is what other goroutines do to the valve during a close, and
-- `others` what they do to the table each time `ndsctl` is asked.
pub mod Laws
pub mod Grace
pub mod Renewal
use tollgate_module_basic_go.Prelude.{
  ℕ, ◌+◌, ◌-◌, Bool, true, false, not, ◌&&◌, ◌||◌, Option, none, some, Str, ltb, leb, if◌then◌else◌,
}
use mathlib.Core.Bool.{xor}
use tollgate_module_basic_go.Prelude.Words.{add64}
use tollgate_module_basic_go.Dict.{Dict, lookup, insert, erase}
use tollgate_module_basic_go.Valve.State.{Valve}
use tollgate_module_basic_go.Valve.Ndsctl.{Ndsctl}
use tollgate_module_basic_go.Valve.Baseline.{
  Usage, measured, baseline_missing, counters_unavailable, set_data_baseline,
  get_data_usage_since_baseline, has_data_baseline,
}
use tollgate_module_basic_go.Valve.Close.{CloseError, abandoned, close_gate}
use tollgate_module_basic_go.Merchant.State.{CustomerSession, UnmeteredSession, Merchant}
use tollgate_module_basic_go.Merchant.Session.{expire_session, retire_session_or_park}

-- `usageMonitorGraceSweeps`, and `usageMonitorBaselineRetryDelay` and
-- `unmeterableSessionReportInterval` in nanoseconds.
abbrev pub usage_monitor_grace_sweeps : ℕ
usage_monitor_grace_sweeps = 30

abbrev usage_monitor_baseline_retry_delay : ℕ
usage_monitor_baseline_retry_delay = 2000000000

abbrev unmeterable_session_report_interval : ℕ
unmeterable_session_report_interval = 60000000000

new_unmetered : UnmeteredSession
new_unmetered = record {
  sweeps = 0;
  last_baseline_attempt = none;
  force_close_escalated = false;
  last_force_close_report = none;
  last_close_abandoned = false;
}

or_new : Option UnmeteredSession → UnmeteredSession
unfolding new_unmetered
or_new none = new_unmetered
or_new (some u) = u

-- `unmeteredStateLocked`
unfoldable pub unmetered_state : Str → Merchant → UnmeteredSession
unfolding or_new
unmetered_state mac m = or_new (lookup mac m.unmetered_sessions)

put_unmetered : Str → UnmeteredSession → Merchant → Merchant
put_unmetered mac u m = record m { unmetered_sessions = insert mac u m.unmetered_sessions }

-- `now.Sub(t) >= d`, where the zero time is long ago.
elapsed_at_least : ℕ → Option ℕ → ℕ → Bool
elapsed_at_least d none now = true
elapsed_at_least d (some t) now = leb d (now - t)

-- `baselineAttemptDue`
unfoldable pub baseline_attempt_due : Str → ℕ → Merchant → Bool × Merchant
unfolding put_unmetered elapsed_at_least
baseline_attempt_due mac now m =
    let u = unmetered_state mac m in
    if elapsed_at_least usage_monitor_baseline_retry_delay u.last_baseline_attempt now
    then (true, put_unmetered mac (record u { last_baseline_attempt = some now }) m)
    else (false, put_unmetered mac u m)

-- `noteUnmeterableSweep`
unfoldable pub note_unmeterable_sweep : Str → Merchant → ℕ × Merchant
unfolding put_unmetered
note_unmeterable_sweep mac m =
    let u = unmetered_state mac m in
    (u.sweeps + 1, put_unmetered mac (record u { sweeps = u.sweeps + 1 }) m)

is_abandoned : CloseError → Bool
is_abandoned abandoned = true
is_abandoned CloseError.invalid_mac = false
is_abandoned CloseError.reopened = false
is_abandoned (CloseError.unconfirmed e) = false

-- `noteUnmeterableCloseFailure`: whether to escalate, to report a change, and to report a repeat.
unfoldable pub note_unmeterable_close_failure :
    Str → CloseError → ℕ → Merchant → (Bool × Bool × Bool) × Merchant
unfolding put_unmetered elapsed_at_least is_abandoned
note_unmeterable_close_failure mac err now m =
    let u = unmetered_state mac m in
    let gave_up = is_abandoned err in
    let escalate = not u.force_close_escalated in
    let changed = not escalate && xor gave_up u.last_close_abandoned in
    let repeat =
      escalate
      || elapsed_at_least unmeterable_session_report_interval u.last_force_close_report now in
    let reports = escalate || changed || repeat in
    (
      (escalate, changed, repeat),
      put_unmetered mac
          (record u {
            force_close_escalated = u.force_close_escalated || escalate;
            last_close_abandoned = gave_up;
            last_force_close_report = if reports then some now else u.last_force_close_report;
          })
          m,
    )

-- `clearUnmetered`
unfoldable pub clear_unmetered : Str → Merchant → Merchant
clear_unmetered mac m = record m { unmetered_sessions = erase mac m.unmetered_sessions }

pub data Metered : Type 0 where
  usage_of : ℕ → ℕ → Metered
  no_baseline unreadable : Metered

max_of : ℕ → ℕ → ℕ
max_of a b = if ltb a b then b else a

metered : CustomerSession → Usage → Metered
unfolding max_of
metered s baseline_missing = no_baseline
metered s counters_unavailable = unreadable
metered s (measured since) =
    usage_of (add64 s.consumed (max_of since s.attachment_usage)) (max_of since s.attachment_usage)

-- `sessionBytesUsage`: the usage of the session and of its current attachment, which is the higher
-- of the counters and of what was seen before.
unfoldable pub session_bytes_usage : Ndsctl → Str → CustomerSession → Valve → Metered × Valve
unfolding metered
session_bytes_usage n mac s v =
    let (usage, calls') = get_data_usage_since_baseline n mac v in
    (metered s usage, record v { calls = calls' })

-- `noteAttachmentUsage`
unfoldable pub note_attachment_usage : Str → ℕ → Merchant → Merchant
unfolding max_of
note_attachment_usage mac since m = elim (lookup mac m.customer_sessions) [
  | none ↦ m
  | some s ↦ record m {
    customer_sessions =
        insert mac (record s { attachment_usage = max_of s.attachment_usage since })
          m.customer_sessions;
  }
]

-- `establishBaseline`
unfoldable pub establish_baseline : Ndsctl → Str → ℕ → Merchant → Merchant
establish_baseline n mac now m =
    let (due, m1) = baseline_attempt_due mac now m in
    if due
    then (let (read, v) = set_data_baseline n mac now m1.valve in
        let m2 = record m1 { valve = v } in if read then clear_unmetered mac m2 else m2)
    else m1

-- The force-close of `closeUnmeterableSession`, once the grace is over.
force_close :
    Ndsctl
    → (Valve → Valve)
    → (Dict CustomerSession → Dict CustomerSession)
    → Str
    → ℕ
    → Merchant
    → Merchant
force_close n between others mac now m =
    let (err, v) = close_gate n between mac m.valve in
    let m1 = record m { valve = v; customer_sessions = others m.customer_sessions } in
    elim err [
      | some e ↦ (note_unmeterable_close_failure mac e now m1).1
      | none ↦ clear_unmetered mac (retire_session_or_park mac now m1).1
    ]

-- `closeUnmeterableSession`
unfoldable pub close_unmeterable_session :
    Ndsctl
    → (Valve → Valve)
    → (Dict CustomerSession → Dict CustomerSession)
    → Str
    → ℕ
    → Merchant
    → Merchant
unfolding force_close
close_unmeterable_session n between others mac now m =
    let (sweeps, m1) = note_unmeterable_sweep mac m in
    if leb sweeps usage_monitor_grace_sweeps then m1 else force_close n between others mac now m1

-- The end of `enforceBytesSession` for a session that has used up its allotment.
close_spent_session :
    Ndsctl
    → (Valve → Valve)
    → (Dict CustomerSession → Dict CustomerSession)
    → Str
    → ℕ
    → Merchant
    → Merchant
close_spent_session n between others mac now m =
    let (err, v) = close_gate n between mac m.valve in
    let m1 = record m { valve = v; customer_sessions = others m.customer_sessions } in
    elim err [ some e ↦ m1 | none ↦ expire_session mac now m1 ]

-- What `enforceBytesSession` does with a reading of the meter.
act_on_reading :
    Ndsctl
    → (Valve → Valve)
    → (Dict CustomerSession → Dict CustomerSession)
    → Str
    → CustomerSession
    → ℕ
    → Metered
    → Merchant
    → Merchant
unfolding close_spent_session
act_on_reading n between others mac s now no_baseline m = establish_baseline n mac now m
act_on_reading n between others mac s now unreadable m =
    close_unmeterable_session n between others mac now m
act_on_reading n between others mac s now (usage_of usage since) m =
    let m1 = note_attachment_usage mac since (clear_unmetered mac m) in
    if ltb usage s.allotment then m1 else close_spent_session n between others mac now m1

-- `enforceBytesSession`
unfoldable pub enforce_bytes_session :
    Ndsctl
    → (Valve → Valve)
    → (Dict CustomerSession → Dict CustomerSession)
    → Str
    → CustomerSession
    → ℕ
    → Merchant
    → Merchant
unfolding act_on_reading
enforce_bytes_session n between others mac s now m =
    if has_data_baseline mac m.valve
    then (let (reading, v) = session_bytes_usage n mac s m.valve in
        act_on_reading n between others mac s now reading
          (record m { valve = v; customer_sessions = others m.customer_sessions }))
    else establish_baseline n mac now m
