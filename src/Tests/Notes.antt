-- ===== src/Tests/Notes.antt =====
-- The theorems about notes at concrete purchases.
use tollgate_module_basic_go.Merchant.Intent.Refinement.{Run, view, Steps-Run}
use tollgate_module_basic_go.Merchant.Pricing.{calculate_allotment, find_mint}
use tollgate_module_basic_go.Prelude.{
  ℕ, ◌≡◌, refl, true, none, some, List, str_mem, codes, str_eq, upper, trim, lower,
}
use tollgate_module_basic_go.Prelude.Words.{at_unix}
use tollgate_module_basic_go.Dict.{lookup}
use tollgate_module_basic_go.Mac.{normalize_mac_address, validate_mac_address, is_valid_mac}
use tollgate_module_basic_go.Merchant.State.{
  IntentState, pending, abandoned, milliseconds, Merchant,
}
use tollgate_module_basic_go.Merchant.Intent.{
  Attempt, begin_receive_intent, resolve_receive_intent, reconcile_receive_intent,
  persist_receive_intents, put_intent,
}
use tollgate_module_basic_go.Merchant.Intent.Machine.{
  done, begins, resolves, reconciles_with, IsSettledIntent, Steps-settled,
}
use tollgate_module_basic_go.Merchant.Intent.Crash.{reconcile_receive_intent-torn}
use tollgate_module_basic_go.Merchant.Receive.{
  Token, taken, receive_reference, begin_receive, end_receive,
}
use tollgate_module_basic_go.Merchant.Purchase.{
  purchase_note, purchase_session, after_receive, submit, when_sent, notice, duplicate_inflight,
}
use tollgate_module_basic_go.Merchant.Purchase.Laws.{purchase_note-once}
use tollgate_module_basic_go.Merchant.Purchase.Outcome.{IsPaid, when_sold, purchase_session-served}
use tollgate_module_basic_go.Merchant.Session.{
  session_is_renewal, get_session_state, get_session, session_has_expired, add_allotment,
}
use tollgate_module_basic_go.Merchant.Access.{
  grant_session_access, open_gate_by_metric, settle_grant,
}
use tollgate_module_basic_go.Valve.Open.{open_gate_until}
use tollgate_module_basic_go.Valve.Ndsctl.{authorize_mac}
use tollgate_module_basic_go.Tests.{
  mac, raw_mac, mint_url, willing, merchant, by_time, no_gates, ref, note, wallet, intent,
  with_intent, sound_disk, torn_disk, customer,
}

abbrev alone : Merchant → Merchant
alone m = m

text : List ℕ → List ℕ
text url = url

abbrev attempt : Attempt
attempt = record {
  mac_address = raw_mac;
  mint_url = mint_url;
  amount_sats = 15;
  token_serialized = codes "note";
}

reconcile_receive_intent-torn_example :
    let m' =
      reconcile_receive_intent torn_disk text
        (λ s. some true)
        (λ w. w)
        ref
        (at_unix 1001)
        (with_intent pending) in
    (lookup ref m'.intent_file
      ≡ some
          (record (intent pending) { state = IntentState.owed; resolved_at = some (at_unix 1001) }))
    × (m'.grant_file ≡ (with_intent pending).grant_file)
unfolding lookup str_eq calculate_allotment find_mint text
reconcile_receive_intent-torn_example =
    reconcile_receive_intent-torn torn_disk text (λ s. some true) ref (intent pending)
      (at_unix 1001) 420000 (with_intent pending) refl refl refl refl refl refl refl refl

-- Granted once, and then told to be abandoned.
Steps-settled_example : IsSettledIntent ref (intent IntentState.granted) (
    resolve_receive_intent sound_disk ref abandoned
      (at_unix 1002)
      (with_intent IntentState.granted))
unfolding lookup str_eq
Steps-settled_example =
    Steps-settled sound_disk text ref (intent IntentState.granted)
      (resolves ref abandoned (at_unix 1002) (done (with_intent IntentState.granted)))
      (refl, refl, refl)

-- A purchase of a new note, which is then granted.
abbrev begun : Merchant
begun = (begin_receive_intent sound_disk ref attempt (at_unix 1000) (merchant by_time no_gates)).1

-- While the mint is asked about the note, which it has taken, the purchase comes to its end.
abbrev raced : Merchant → Merchant
raced m = resolve_receive_intent sound_disk ref IntentState.granted (at_unix 1001) m

Steps-Run_example : Run (view (merchant by_time no_gates)) (
    view (reconcile_receive_intent sound_disk text (λ s. some true) raced ref (at_unix 1002) begun))
Steps-Run_example = Steps-Run sound_disk text (
    reconciles_with (λ s. some true) raced ref (at_unix 1002)
      (begins ref attempt (at_unix 1000) (done (merchant by_time no_gates)))
      (resolves ref IntentState.granted (at_unix 1001) (done begun)))

-- The live session of the customer is extended by the 420 seconds that 15 sat buy.
purchase_session-served_example :
    let w = wallet (some (taken 15)) none in
    let bought = record (customer milliseconds) { allotment = 425000; start_time = 1001 } in
    let m = merchant by_time no_gates in
    let mac = normalize_mac_address raw_mac in
    ((token : Token) × (w.decode (codes "note") ≡ some token)
      × IsPaid willing w token mac
          (at_unix 1001)
          (when_sold willing sound_disk w alone mac token (at_unix 1001) m)
          bought)
    × (lookup mac
          (purchase_session willing sound_disk w alone
            (codes "note")
            raw_mac
            (at_unix 1001)
            m).1.customer_sessions
        ≡ some bought)
unfolding purchase_session validate_mac_address upper trim normalize_mac_address lower wallet
    session_is_renewal get_session_state get_session lookup str_eq session_has_expired purchase_note
    begin_receive receive_reference str_mem begin_receive_intent persist_receive_intents put_intent
    submit after_receive end_receive calculate_allotment find_mint grant_session_access
    add_allotment open_gate_by_metric settle_grant open_gate_until is_valid_mac authorize_mac
    willing
purchase_session-served_example =
    purchase_session-served willing sound_disk (wallet (some (taken 15)) none) alone (codes "note")
      raw_mac (at_unix 1001) (merchant by_time no_gates)
      {s = record (customer milliseconds) { allotment = 425000; start_time = 1001 }} refl

purchase_note-once_example :
    let w = wallet (some (taken 15)) none in
    let m = merchant by_time no_gates in
    let sent = when_sent sound_disk w mac note (at_unix 1001) m in
    (purchase_note willing sound_disk w alone mac note (at_unix 1002) sent
      ≡ (notice duplicate_inflight, sent))
    × (purchase_note willing sound_disk w
          (λ x. (purchase_note willing sound_disk w alone mac note (at_unix 1002) x).1)
          mac
          note
          (at_unix 1001)
          m
        ≡ purchase_note willing sound_disk w (λ x. x) mac note (at_unix 1001) m)
unfolding receive_reference wallet str_mem
purchase_note-once_example =
    purchase_note-once willing sound_disk (wallet (some (taken 15)) none)
      (wallet (some (taken 15)) none) note alone mac mac (at_unix 1001) (at_unix 1002)
      (merchant by_time no_gates) refl refl refl
