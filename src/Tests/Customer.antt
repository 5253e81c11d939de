-- ===== src/Tests/Customer.antt =====
-- The theorems about the merchant at concrete customers.
use tollgate_module_basic_go.Prelude.{
  codes, eq_iff, ◌≢◌, ℕ, ◌+◌, ◌*◌, ◌%◌, ◌≤◌, ◌<◌, ◌≡◌, refl, none, some, Str, arith, List, [], ◌∷◌,
  trim, lower, str_eq,
}
use tollgate_module_basic_go.Prelude.Words.{at_unix, unix, u64_mod}
use tollgate_module_basic_go.Dict.{erase, lookup, insert}
use tollgate_module_basic_go.Mac.{normalize_mac_address, is_valid_mac}
use tollgate_module_basic_go.Valve.Ndsctl.{
  NdsctlError, authorize_mac, get_client_stats, check_client_state,
}
use tollgate_module_basic_go.Valve.Close.{close_gate}
use tollgate_module_basic_go.Valve.Close.Evidence.{Evidence}
use tollgate_module_basic_go.Valve.Baseline.{get_data_usage_since_baseline, set_data_baseline}
use tollgate_module_basic_go.Valve.Open.{auth_failed, open_gate}
use tollgate_module_basic_go.Merchant.State.{bytes, CustomerSession, MintConfig, Metric, Merchant}
use tollgate_module_basic_go.Merchant.Pricing.{
  find_mint, calculate_allotment, calculate_allotment_sound,
}
use tollgate_module_basic_go.Merchant.Session.{session_has_expired, add_allotment}
use tollgate_module_basic_go.Merchant.Session.Laws.{Untouched, Frame}
use tollgate_module_basic_go.Merchant.Access.{
  open_failed, grant_session_access, open_gate_by_metric, settle_grant, grant_session_access_with,
  open_gate_for_session,
}
use tollgate_module_basic_go.Merchant.Access.Laws.{
  IsServed, grant_session_access_granted, grant_session_access_with_erases,
}
use tollgate_module_basic_go.Merchant.Metering.{
  usage_of, session_bytes_usage, note_attachment_usage, enforce_bytes_session, unmetered_state,
}
use tollgate_module_basic_go.Merchant.Metering.Laws.{enforce_bytes_session_retires}
use tollgate_module_basic_go.Merchant.Metering.Grace.{sweep_at, sweep_at-closes}
use tollgate_module_basic_go.Merchant.Metering.Renewal.{add_allotment_forgives}
use tollgate_module_basic_go.Merchant.Metering.{clear_unmetered}
use tollgate_module_basic_go.Valve.Close.{close_gate_confirmed, deauth_attempts, finish_gate_close}
use tollgate_module_basic_go.Valve.State.{clear_close_streak}
use tollgate_module_basic_go.Valve.Ndsctl.{deauthorize_mac}
use tollgate_module_basic_go.Merchant.Session.{expire_session}
use tollgate_module_basic_go.Merchant.Ticket.{SessionAttachment, TicketState}
use tollgate_module_basic_go.Merchant.Rebind.{deliver}
use tollgate_module_basic_go.Merchant.Rebind.Laws.{IsCarried, deliver-moves}
use tollgate_module_basic_go.Tests.{
  mac, raw_mac, willing, refusing, silent, idle, no_gates, one_gate, metered_gate, mint_url,
  by_time, by_volume, customer, merchant,
}

same : Str → Str
same url = url

calculate_allotment_sound_example :
    (m : MintConfig) × (steps : ℕ) × (find_mint same mint_url by_time.accepted_mints ≡ some m)
    × (420000 ≡ (steps * by_time.step_size) % u64_mod)
    × (m.min_purchase_steps ≤ steps)
    × (steps * m.price_per_step ≤ 15)
    × (15 < (steps + 1) * m.price_per_step)
unfolding calculate_allotment find_mint str_eq same
calculate_allotment_sound_example = calculate_allotment_sound same by_time 15 mint_url refl

-- Another payment tops the session up by 700 bytes while the gate is being opened.
abbrev tops_up : Merchant → Merchant
tops_up m = (add_allotment mac bytes 700 (at_unix 1002) m).1

grant_session_access_with_erases_example :
    let m = merchant by_volume no_gates in
    let mac = normalize_mac_address raw_mac in
    let (s, m1) = add_allotment mac m.config.metric 300 (at_unix 1002) m in
    let left =
      tops_up
        (record m1 { valve = (open_gate_for_session refusing mac s (at_unix 1002) m1.valve).1 }) in
    let m' = (grant_session_access_with refusing tops_up raw_mac 300 (at_unix 1002) m).1 in
    (lookup mac m'.customer_sessions ≡ lookup mac m.customer_sessions)
    × Untouched mac left m'
    × Frame left m'
unfolding grant_session_access_with settle_grant open_gate_by_metric add_allotment lookup str_eq
    normalize_mac_address lower trim session_has_expired open_gate is_valid_mac authorize_mac
    refusing
grant_session_access_with_erases_example =
    grant_session_access_with_erases refusing tops_up raw_mac 300 (at_unix 1002)
      (merchant by_volume no_gates) {e = open_failed (auth_failed NdsctlError.refused)} refl

renewed : CustomerSession
renewed = record (customer bytes) { allotment = 5300; start_time = 1002 }

grant_session_access_granted_example :
    let m = merchant by_volume one_gate in
    let m' = (grant_session_access willing raw_mac 300 (at_unix 1002) m).1 in
    (lookup (normalize_mac_address raw_mac) m'.customer_sessions ≡ some renewed)
    × IsServed renewed.metric (normalize_mac_address raw_mac) renewed m'.valve
    × Untouched (normalize_mac_address raw_mac) m m'
    × Frame m m'
unfolding grant_session_access renewed lookup settle_grant open_gate_by_metric add_allotment str_eq
    normalize_mac_address lower trim session_has_expired open_gate is_valid_mac authorize_mac
    willing
grant_session_access_granted_example =
    grant_session_access_granted willing raw_mac 300 (at_unix 1002) (merchant by_volume one_gate)
      {s = renewed} refl refl refl

-- The customer has used 3072 + 1024 bytes, less the baseline, and had used 4000 before.
enforce_bytes_session_retires_example : Evidence willing mac 0
unfolding enforce_bytes_session lookup erase str_eq session_bytes_usage
    get_data_usage_since_baseline get_client_stats is_valid_mac willing close_gate
    close_gate_confirmed note_attachment_usage clear_unmetered deauth_attempts deauthorize_mac
    finish_gate_close clear_close_streak expire_session insert
enforce_bytes_session_retires_example =
    enforce_bytes_session_retires willing idle (λ t. t) mac
      (record (customer bytes) { allotment = 4100 }) (at_unix 1002)
      (merchant by_volume metered_gate) (λ t known. known) (λ gone. absurd (cc)) refl

thirty : List ℕ
thirty =
    30 ∷ 29 ∷ 28 ∷ 27 ∷ 26 ∷ 25 ∷ 24 ∷ 23 ∷ 22 ∷ 21 ∷ 20 ∷ 19 ∷ 18 ∷ 17 ∷ 16 ∷ 15 ∷ 14 ∷ 13 ∷ 12
    ∷ 11 ∷ 10 ∷ 9 ∷ 8 ∷ 7 ∷ 6 ∷ 5 ∷ 4 ∷ 3 ∷ 2 ∷ 1 ∷ []

sweep_at-closes_example :
    (sweep_at silent idle (λ t. t) mac (31 ∷ thirty) (merchant by_volume metered_gate)).valve
    ≡ (close_gate silent idle mac metered_gate).1
unfolding thirty unmetered_state lookup
sweep_at-closes_example =
    sweep_at-closes silent idle (λ t. t) mac 31 thirty (merchant by_volume metered_gate) refl refl

-- The 3072 bytes since the baseline are less than the 4000 from before the renewal.
add_allotment_forgives_example :
    let (r, m') =
      add_allotment raw_mac bytes 300 (at_unix 1002) (merchant by_volume metered_gate) in
    ((session_bytes_usage willing (normalize_mac_address raw_mac) r metered_gate).0
      ≡ usage_of
          (((customer bytes).consumed + (customer bytes).attachment_usage) % u64_mod)
          (customer bytes).attachment_usage)
    × (r.allotment ≡ ((customer bytes).allotment + 300) % u64_mod)
unfolding lookup str_eq normalize_mac_address lower trim session_has_expired
    get_data_usage_since_baseline get_client_stats is_valid_mac willing
add_allotment_forgives_example =
    add_allotment_forgives willing raw_mac bytes 300 (at_unix 1002)
      (merchant by_volume metered_gate) metered_gate {s = customer bytes} {since = 3072} refl refl
      refl (omega arith)

-- The customer arrives at a second address, where somebody else has a session.
abbrev other_mac : Str
other_mac = codes "02:00:00:00:00:0b"

abbrev attachment : SessionAttachment
attachment = record {
  handle = codes "handle";
  mac_address = mac;
  issued_at = 1000;
  expires_at = 2000;
  attached_at = 1000;
}

abbrev tickets : TicketState
tickets = record { attachments = (codes "handle", attachment) ∷ []; ttl = 1000000000 }

abbrev carrying : Metric → CustomerSession
carrying metric = record (customer metric) { ticket_handle = codes "handle" }

abbrev two_customers : Merchant
two_customers = record (merchant by_volume metered_gate) {
  customer_sessions =
      (mac, carrying bytes) ∷ (other_mac, record (customer bytes) { mac_address = other_mac }) ∷ [];
}

abbrev arrived : CustomerSession
arrived = record (carrying bytes) { mac_address = other_mac; consumed = 4100; attachment_usage = 0 }

differs : mac ≢ other_mac
unfolding str_eq
differs e = absurd (cc ((eq_iff mac other_mac).1 e))

deliver-moves_example :
    let (answer, t', m') =
      deliver willing
        (λ w. w)
        idle
        mac
        other_mac
        (carrying bytes)
        attachment
        (at_unix 1001)
        tickets
        two_customers in
    (lookup other_mac m'.customer_sessions ≡ some arrived)
    × (lookup mac m'.customer_sessions ≡ none)
    × (lookup attachment.handle t'.attachments
        ≡ some (record attachment { mac_address = other_mac; attached_at = unix (at_unix 1001) }))
    × (arrived.allotment ≡ (carrying bytes).allotment)
    × (arrived.start_time ≡ (carrying bytes).start_time)
    × (arrived.metric ≡ (carrying bytes).metric)
    × IsCarried
        (carrying bytes).metric
        (carrying bytes)
        (get_data_usage_since_baseline willing mac two_customers.valve).0
        arrived.consumed
unfolding deliver get_data_usage_since_baseline lookup str_eq get_client_stats is_valid_mac willing
    set_data_baseline insert erase open_gate_by_metric open_gate authorize_mac check_client_state
deliver-moves_example =
    deliver-moves willing idle mac other_mac (carrying bytes) attachment (at_unix 1001) tickets
      two_customers {r = arrived} differs refl
