-- ===== src/Merchant/Purchase.antt =====
-- A purchase with an ecash note (src/merchant/merchant.go): from the note to a session, a notice, or
-- a debt. The wallet is a parameter. `CreateNoticeEvent` and `createSessionEvent`, which sign the
-- answer, are taken to succeed.
pub mod Errors
pub mod Laws
pub mod Outcome
pub mod Journal
use tollgate_module_basic_go.Prelude.{
  ℕ, zero, suc, ◌+◌, Bool, true, false, not, ◌&&◌, ◌||◌, Option, none, some, List, [], ◌∷◌, Str,
  ltb, leb, str_eq, str_mem, if◌then◌else◌,
}
use tollgate_module_basic_go.Dict.{lookup}
use tollgate_module_basic_go.Mac.{normalize_mac_address, validate_mac_address}
use tollgate_module_basic_go.Valve.State.{Valve}
use tollgate_module_basic_go.Valve.Ndsctl.{Ndsctl, ClientState, check_client_state}
use tollgate_module_basic_go.Merchant.State.{
  IntentState, pending, granted, owed, abandoned, CustomerSession, ReceiveIntentRecord, Merchant,
}
use tollgate_module_basic_go.Merchant.Pricing.{Priced, allotted, calculate_allotment}
use tollgate_module_basic_go.Merchant.Session.{is_empty, session_is_renewal}
use tollgate_module_basic_go.Merchant.Access.{Grant, refused, grant_session_access}
use tollgate_module_basic_go.Merchant.OwedGrant.{record_owed_grant}
use tollgate_module_basic_go.Merchant.Intent.{
  is_pending_state, Attempt, begin_receive_intent, resolve_receive_intent, reconcile_receive_intent,
}
use tollgate_module_basic_go.Merchant.Purchase.Errors.{
  ReceiveError, is_rate_limit_error, is_below_swap_fee_error, is_expired_keyset_error,
  is_mint_unreachable_error, is_ambiguous_mint_outcome_error,
}
use tollgate_module_basic_go.Merchant.Receive.{
  Token, ReceiveResult, taken, failed, Wallet, reference_of, receive_reference, str_remove,
  begin_receive, end_receive, preflight_probe_attempts, is_known, probe_client,
  client_registered_for_gate,
}

-- The codes of the notices.
pub data Notice : Type 0 where
  invalid_mac invalid_token below_swap_fee client_not_registered duplicate_inflight : Notice
  outcome_unknown grant_pending token_spent mint_rate_limited keyset_expired : Notice
  mint_unreachable processing_failed session_error : Notice

pub data Answer : Type 0 where
  notice : Notice → Answer
  served : CustomerSession → Answer

-- The swap fee is known, and takes the whole note.
fee_takes_all : Option ℕ → ℕ → Bool
fee_takes_all none amount = false
fee_takes_all (some fee) amount = ltb 0 fee && leb amount fee

-- The notice for an error of `Receive`, in the order of the source's tests.
unfoldable pub notice_of : ReceiveError → Notice
notice_of e =
    if e.already_spent
    then token_spent
    else if e.outcome_unknown
    then outcome_unknown
    else if is_rate_limit_error e
    then mint_rate_limited
    else if is_below_swap_fee_error e
    then below_swap_fee
    else if is_expired_keyset_error e
    then keyset_expired
    else if is_mint_unreachable_error e
    then mint_unreachable
    else processing_failed

-- The call of `MarkUnreachable`: not for a mint that is known to have answered, nor without an answer.
mark_unreachable : Str → ReceiveError → Merchant → Merchant
mark_unreachable mint_url e m =
    if e.already_spent || e.outcome_unknown || is_expired_keyset_error e || is_rate_limit_error e
    then m
    else record m { marked_unreachable = mint_url ∷ m.marked_unreachable }

-- `PurchaseSession` after a `Receive` that failed.
settle_failure : (ℕ → Bool) → Str → Str → ℕ → ReceiveError → Merchant → Answer × Merchant
unfolding mark_unreachable
settle_failure disk ref mint_url now e m =
    if e.already_spent
      || is_expired_keyset_error e
      || is_below_swap_fee_error e
      || is_rate_limit_error e
    then (
      notice (notice_of e),
      mark_unreachable mint_url e (resolve_receive_intent disk ref abandoned now m),
    )
    else (notice (notice_of e), mark_unreachable mint_url e m)

-- The end of `PurchaseSession`: the session was granted, or the grant is owed.
settle_purchase : (ℕ → Bool) → Str → Str → Str → ℕ → ℕ → ℕ → Grant → Merchant → Answer × Merchant
settle_purchase disk ref mac mint_url amount allotment now (Grant.granted s) m =
    (served s, resolve_receive_intent disk ref granted now m)
settle_purchase disk ref mac mint_url amount allotment now (refused e) m = (
  notice grant_pending,
  resolve_receive_intent disk ref owed now
      (record_owed_grant disk ref mac mint_url amount allotment now m),
)

-- `PurchaseSession` after a `Receive` that succeeded, by the price.
sell : Ndsctl → (ℕ → Bool) → Str → Str → Str → ℕ → ℕ → Priced → Merchant → Answer × Merchant
unfolding settle_purchase
sell n disk ref mac mint_url amount now (allotted allotment) m =
    let (grant, m1) = grant_session_access n mac allotment now m in
    settle_purchase disk ref mac mint_url amount allotment now grant m1
sell n disk ref mac mint_url amount now Priced.mint_not_configured m = (notice session_error, m)
sell n disk ref mac mint_url amount now Priced.zero_price m = (notice session_error, m)
sell n disk ref mac mint_url amount now Priced.unsupported_metric m = (notice session_error, m)
sell n disk ref mac mint_url amount now (Priced.below_minimum steps) m = (notice session_error, m)

-- What `PurchaseSession` does with the answer of `Receive`. At the deadline the in-flight mark stays,
-- and goes to the recorder of the late outcome.
unfoldable pub after_receive :
    Ndsctl
    → (ℕ → Bool)
    → Wallet
    → Str
    → Str
    → Token
    → ℕ
    → Option ReceiveResult
    → Merchant
    → Answer × Merchant
unfolding settle_failure sell
after_receive n disk w ref mac token now none m = (notice outcome_unknown, m)
after_receive n disk w ref mac token now (some (failed e)) m =
    settle_failure disk ref token.mint now e (end_receive ref m)
after_receive n disk w ref mac token now (some (taken amount)) m =
    let m1 = end_receive ref m in
    sell n disk ref mac token.mint amount now
      (calculate_allotment w.normalize m1.config amount token.mint) m1

pending_at : Option ReceiveIntentRecord → Bool
pending_at none = false
pending_at (some rec) = is_pending_state rec.state

-- The answer to a note that the journal knows: a pending intent is reconciled first.
answer_prior :
    (ℕ → Bool) → Wallet → (Merchant → Merchant) → Str → Bool → ℕ → Merchant → Answer × Merchant
unfolding pending_at
answer_prior disk w between ref true now m = (notice grant_pending, m)
answer_prior disk w between ref false now m =
    let m1 = reconcile_receive_intent disk w.normalize w.spent between ref now m in
    if pending_at (lookup ref m1.receive_intents)
    then (notice outcome_unknown, m1)
    else (notice grant_pending, m1)

-- The money-moving call, unless the journal answers. `between` is what the other goroutines do
-- while the mint is asked, by either.
unfoldable pub submit :
    Ndsctl
    → (ℕ → Bool)
    → Wallet
    → (Merchant → Merchant)
    → Str
    → Str
    → Token
    → ℕ
    → Option (ReceiveIntentRecord × Bool)
    → Merchant
    → Answer × Merchant
unfolding answer_prior
submit n disk w between ref mac token now (some (prior, resolved)) m =
    answer_prior disk w between ref resolved now m
submit n disk w between ref mac token now none m =
    after_receive n disk w ref mac token now (w.receive token) (between m)

attempt_of : Str → Token → Str → Attempt
attempt_of mac token text = record {
  mac_address = mac;
  mint_url = token.mint;
  amount_sats = token.amount;
  token_serialized = text;
}

-- The entry in the journal; a note that cannot be serialized has none.
journal :
    (ℕ → Bool)
    → Str
    → Str
    → Token
    → ℕ
    → Option Str
    → Merchant
    → Option (ReceiveIntentRecord × Bool) × Merchant
unfolding attempt_of
journal disk ref mac token now none m = (none, m)
journal disk ref mac token now (some text) m =
    begin_receive_intent disk ref (attempt_of mac token text) now m

-- The state in which the mint is asked about a note: it is marked and stands in the journal.
pub when_sent : (ℕ → Bool) → Wallet → Str → Token → ℕ → Merchant → Merchant
when_sent disk w mac token now m =
    let ref = receive_reference w token in
    (journal disk ref mac token now token.serialized (begin_receive ref m).1).1

-- `PurchaseSession` from the in-flight mark on.
unfoldable pub purchase_note :
    Ndsctl
    → (ℕ → Bool)
    → Wallet
    → (Merchant → Merchant)
    → Str
    → Token
    → ℕ
    → Merchant
    → Answer × Merchant
unfolding journal
purchase_note n disk w between mac token now m =
    let ref = receive_reference w token in
    let (first, m1) = begin_receive ref m in
    if first
    then (let (prior, m2) = journal disk ref mac token now token.serialized m1 in
        submit n disk w between ref mac token now prior m2)
    else (notice duplicate_inflight, m1)

-- The pre-flight: a returning customer needs no registration.
may_buy : Ndsctl → Str → ℕ → Merchant → Bool × Merchant
may_buy n mac now m =
    let (renewal, m1) = session_is_renewal mac now m in
    if renewal then (true, m1) else client_registered_for_gate n mac m1

purchase_token :
    Ndsctl
    → (ℕ → Bool)
    → Wallet
    → (Merchant → Merchant)
    → Str
    → ℕ
    → Option Token
    → Merchant
    → Answer × Merchant
unfolding fee_takes_all may_buy
purchase_token n disk w between mac now none m = (notice invalid_token, m)
purchase_token n disk w between mac now (some token) m =
    if fee_takes_all (w.swap_fee token) token.amount
    then (notice below_swap_fee, m)
    else let (allowed, m1) = may_buy n mac now m in
      if allowed
      then purchase_note n disk w between mac token now m1
      else (notice client_not_registered, m1)

-- `PurchaseSession`
unfoldable pub purchase_session :
    Ndsctl
    → (ℕ → Bool)
    → Wallet
    → (Merchant → Merchant)
    → Str
    → Str
    → ℕ
    → Merchant
    → Answer × Merchant
unfolding purchase_token
purchase_session n disk w between cashu_token mac_address now m =
    let mac = normalize_mac_address mac_address in
    if validate_mac_address mac
    then purchase_token n disk w between mac now (w.decode cashu_token) m
    else (notice invalid_mac, m)

late_debt : (ℕ → Bool) → Str → Str → Token → ℕ → Priced → Merchant → Merchant
late_debt disk ref mac token now (allotted allotment) m =
    record_owed_grant disk ref mac token.mint token.amount allotment now
      (resolve_receive_intent disk ref owed now m)
late_debt disk ref mac token now Priced.mint_not_configured m = m
late_debt disk ref mac token now Priced.zero_price m = m
late_debt disk ref mac token now Priced.unsupported_metric m = m
late_debt disk ref mac token now (Priced.below_minimum steps) m = m

-- `recordLateReceiveOutcome`
unfoldable pub record_late_receive_outcome :
    (ℕ → Bool)
    → Wallet
    → (Merchant → Merchant)
    → Str
    → Str
    → Token
    → ℕ
    → ReceiveResult
    → Merchant
    → Merchant
unfolding late_debt
record_late_receive_outcome disk w between ref mac token now (failed e) m =
    if is_ambiguous_mint_outcome_error e
    then reconcile_receive_intent disk w.normalize w.spent between ref now m
    else resolve_receive_intent disk ref abandoned now m
record_late_receive_outcome disk w between ref mac token now (taken amount) m =
    late_debt disk ref mac token now
      (calculate_allotment w.normalize m.config token.amount token.mint) m

-- The goroutine that waits for the late outcome, and then gives up the in-flight mark.
unfoldable pub finish_late :
    (ℕ → Bool)
    → Wallet
    → (Merchant → Merchant)
    → Str
    → Str
    → Token
    → ℕ
    → ReceiveResult
    → Merchant
    → Merchant
finish_late disk w between ref mac token now result m =
    end_receive ref (record_late_receive_outcome disk w between ref mac token now result m)
