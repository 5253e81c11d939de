-- ===== src/Merchant/Metering/Laws.antt =====
-- What the usage monitor guarantees (src/merchant/merchant.go): when it gives up a session, that its
-- meter never goes back, and how long it waits for a meter that it cannot read.
use tollgate_module_basic_go.Prelude.{
  ℕ, ◌+◌, ◌%◌, ◌≤◌, ◌≡◌, ◌≢◌, none, some, Str, arith, ltb, leb, Option-cases, Bool-cases, inl, inr,
  str_eq_refl,
}
use tollgate_module_basic_go.Prelude.Words.{u64_mod}
use tollgate_module_basic_go.Dict.{Dict, lookup, lookup-insert}
use tollgate_module_basic_go.Mac.{is_valid_mac}
use tollgate_module_basic_go.Valve.State.{Valve}
use tollgate_module_basic_go.Valve.Ndsctl.{Ndsctl, get_client_stats}
use tollgate_module_basic_go.Valve.Baseline.{
  Usage, measured, get_data_usage_since_baseline, has_data_baseline,
}
use tollgate_module_basic_go.Valve.Close.{close_gate}
use tollgate_module_basic_go.Valve.Close.Evidence.{Evidence, Evidence-later, close_gate_closed}
use tollgate_module_basic_go.Merchant.State.{CustomerSession, Merchant}
use tollgate_module_basic_go.Merchant.Metering.{
  Metered, usage_of, no_baseline, unreadable, put_unmetered, note_unmeterable_sweep,
  note_unmeterable_close_failure, baseline_attempt_due, clear_unmetered, metered, max_of,
  session_bytes_usage, note_attachment_usage, establish_baseline, force_close,
  close_unmeterable_session, close_spent_session, act_on_reading, enforce_bytes_session,
  usage_monitor_grace_sweeps,
}

module _ (n : Ndsctl) (between : Valve → Valve)
    (others : Dict CustomerSession → Dict CustomerSession) (mac : Str) where
  -- No other goroutine takes the session away.
  abbrev pub Stays : Type 0
  Stays = (t : Dict CustomerSession) → lookup mac t ≢ none → lookup mac (others t) ≢ none

  establish_baseline-sessions :
      (now : ℕ) (m : Merchant)
      → (establish_baseline n mac now m).customer_sessions ≡ m.customer_sessions
  unfolding establish_baseline baseline_attempt_due put_unmetered clear_unmetered
  establish_baseline-sessions now m = ground arith

  force_close-Evidence :
      (now : ℕ) (m : Merchant)
      → lookup mac (others m.customer_sessions) ≢ none
      → lookup mac (force_close n between others mac now m).customer_sessions ≡ none
      → Evidence n mac m.valve.calls
  unfolding force_close note_unmeterable_close_failure put_unmetered
  force_close-Evidence now m e h = elim (Option-cases (close_gate n between mac m.valve).0) [
    | inl closed ↦ (close_gate_closed n between mac m.valve closed).0
    | inr (err, failed) ↦ absurd (ground arith)
  ]

  close_spent_session-Evidence :
      (now : ℕ) (m : Merchant)
      → lookup mac (others m.customer_sessions) ≢ none
      → lookup mac (close_spent_session n between others mac now m).customer_sessions ≡ none
      → Evidence n mac m.valve.calls
  unfolding close_spent_session
  close_spent_session-Evidence now m e h =
      elim (Option-cases (close_gate n between mac m.valve).0) [
        | inl closed ↦ (close_gate_closed n between mac m.valve closed).0
        | inr (err, failed) ↦ absurd (ground arith)
      ]

  note_attachment_usage-lookup :
      (since : ℕ) (m : Merchant) {s : CustomerSession}
      → lookup mac m.customer_sessions ≡ some s
      → lookup mac (note_attachment_usage mac since m).customer_sessions
        ≡ some (record s { attachment_usage = max_of s.attachment_usage since })
  unfolding note_attachment_usage
  note_attachment_usage-lookup since m e = grind (arith, lookup-insert, str_eq_refl mac)

  note_attachment_usage-known :
      (since : ℕ) (m : Merchant)
      → lookup mac m.customer_sessions ≢ none
      → lookup mac (note_attachment_usage mac since m).customer_sessions ≢ none
  note_attachment_usage-known since m e = elim (Option-cases (lookup mac m.customer_sessions)) [
    | inl gone ↦ absurd (e gone)
    | inr (s, known) ↦ rw (note_attachment_usage-lookup since m known) (λ clash. absurd (cc))
  ]

  note_attachment_usage-valve :
      (since : ℕ) (m : Merchant) → (note_attachment_usage mac since m).valve ≡ m.valve
  unfolding note_attachment_usage
  note_attachment_usage-valve since m = ground arith

  act_on_reading-Evidence :
      (s : CustomerSession) (now : ℕ) (r : Metered) (m : Merchant)
      → Stays
      → lookup mac m.customer_sessions ≢ none
      → lookup mac (act_on_reading n between others mac s now r m).customer_sessions ≡ none
      → Evidence n mac m.valve.calls
  unfolding act_on_reading close_unmeterable_session note_unmeterable_sweep put_unmetered
      clear_unmetered
  act_on_reading-Evidence s now no_baseline m stay e h =
      absurd (ground (arith, establish_baseline-sessions now m))
  act_on_reading-Evidence s now unreadable m stay e h =
      elim (Bool-cases (leb (note_unmeterable_sweep mac m).0 usage_monitor_grace_sweeps)) [
        | inl grace ↦ absurd (ground arith)
        | inr over ↦
            force_close-Evidence now (note_unmeterable_sweep mac m).1 (stay m.customer_sessions e)
              (ground arith)
      ]
  act_on_reading-Evidence s now (usage_of usage since) m stay e h =
      let m1 = note_attachment_usage mac since (clear_unmetered mac m) in
      let stored = note_attachment_usage-known since (clear_unmetered mac m) e in
      elim (Bool-cases (ltb usage s.allotment)) [
        | inl left ↦ absurd (ground arith)
        | inr spent ↦
            rw (note_attachment_usage-valve since (clear_unmetered mac m)) at (
              close_spent_session-Evidence now m1 (stay m1.customer_sessions stored) (ground arith))
      ]

get_client_stats-calls :
    (n : Ndsctl) (mac : Str) (calls : ℕ) → calls ≤ (get_client_stats n mac calls).1
unfolding get_client_stats
get_client_stats-calls n mac calls = elim (Bool-cases (is_valid_mac mac)) [
  | inl ok ↦ ground arith
  | inr bad ↦ ground arith
]

session_bytes_usage-calls :
    (n : Ndsctl) (mac : Str) (s : CustomerSession) (v : Valve)
    → v.calls ≤ (session_bytes_usage n mac s v).1.calls
unfolding session_bytes_usage get_data_usage_since_baseline
session_bytes_usage-calls n mac s v = ground (arith, get_client_stats-calls n mac v.calls)

-- The monitor gives up a session only on evidence: when a session that was in the table is gone
-- after `enforceBytesSession`, and no other goroutine took it away while `ndsctl` was asked, then
-- NoDogSplash answered during this very step that the client is deauthorised or unknown to it. The
-- others may do anything else to the sessions, and anything to the gates.
pub enforce_bytes_session_retires :
    (n : Ndsctl) (between : Valve → Valve) (others : Dict CustomerSession → Dict CustomerSession)
    (mac : Str) (s : CustomerSession) (now : ℕ) (m : Merchant)
    → Stays n between others mac
    → lookup mac m.customer_sessions ≢ none
    → lookup mac (enforce_bytes_session n between others mac s now m).customer_sessions ≡ none
    → Evidence n mac m.valve.calls
unfolding enforce_bytes_session
enforce_bytes_session_retires n between others mac s now m stay e h =
    elim (Bool-cases (has_data_baseline mac m.valve)) [
      | inl metered ↦
          let (reading, v) = session_bytes_usage n mac s m.valve in
          let m1 = record m { valve = v; customer_sessions = others m.customer_sessions } in
          Evidence-later n mac m.valve.calls v.calls (session_bytes_usage-calls n mac s m.valve) (
            act_on_reading-Evidence n between others mac s now reading m1 stay
              (stay m.customer_sessions e) (ground arith))
      | inr bare ↦ absurd (ground (arith, establish_baseline-sessions n between others mac now m))
    ]

usage_of-inj : {a b c d : ℕ} → usage_of a b ≡ usage_of c d → (a ≡ c) × (b ≡ d)
usage_of-inj e = (cc e, cc e)

metered-usage :
    (s : CustomerSession) (r : Usage) {usage attached : ℕ}
    → metered s r ≡ usage_of usage attached
    → (usage ≡ (s.consumed + attached) % u64_mod) × (s.attachment_usage ≤ attached)
unfolding metered max_of
metered-usage s (measured since) h = ground (arith, usage_of-inj h)
metered-usage s Usage.baseline_missing h = absurd (cc)
metered-usage s Usage.counters_unavailable h = absurd (cc)

-- The meter of an attachment never goes back: once `noteAttachmentUsage` has kept a reading, each
-- later reading of that session, whatever the counters say, charges at least as much for the
-- attachment, and its total is what was consumed before plus that charge (modulo 2^64).
pub session_bytes_usage_grows :
    (n : Ndsctl) (mac : Str) (s s' : CustomerSession) (m : Merchant) (v later : Valve)
    {attached attached' usage usage' : ℕ}
    → lookup mac m.customer_sessions ≡ some s
    → (session_bytes_usage n mac s v).0 ≡ usage_of usage attached
    → lookup mac (note_attachment_usage mac attached m).customer_sessions ≡ some s'
    → (session_bytes_usage n mac s' later).0 ≡ usage_of usage' attached'
    → (attached ≤ attached')
      × (usage ≡ (s.consumed + attached) % u64_mod)
      × (usage' ≡ (s.consumed + attached') % u64_mod)
unfolding session_bytes_usage max_of
session_bytes_usage_grows n mac s s' m v later {attached} e r stored r' = ground (
  arith,
  metered-usage s (get_data_usage_since_baseline n mac v).0 r,
  metered-usage s' (get_data_usage_since_baseline n mac later).0 r',
  note_attachment_usage-lookup n (λ (w : Valve). w) (λ t. t) mac attached m e,
)
