-- ===== src/Tests/Invoices.antt =====
-- The theorems about Lightning invoices at concrete tables.
use tollgate_module_basic_go.Valve.State.{mark_gate_opened, next_gate_epoch}
use tollgate_module_basic_go.Valve.Open.{open_gate, open_gate_until}
use tollgate_module_basic_go.Valve.Ndsctl.{authorize_mac, check_client_state, get_client_stats}
use tollgate_module_basic_go.Valve.Baseline.{set_data_baseline}
use tollgate_module_basic_go.Merchant.Session.{
  add_allotment, expire_session, remember_expired_session, restore_session, session_has_expired,
}
use tollgate_module_basic_go.Merchant.Access.{
  grant_session_access, open_gate_by_metric, settle_grant,
}
use tollgate_module_basic_go.Merchant.Pricing.{calculate_allotment, find_mint}
use tollgate_module_basic_go.Merchant.Quote.Budget.{allow}
use tollgate_module_basic_go.Mac.{is_valid_mac, normalize_mac_address}
use tollgate_module_basic_go.Prelude.{
  ℕ, ◌≡◌, ◌≢◌, refl, Bool, true, false, none, some, List, [], ◌∷◌, Str, codes, arith, sym, str_eq,
  eq_iff, ◌⊎◌, lower, trim, is_space,
}
use tollgate_module_basic_go.Prelude.Words.{at_unix}
use tollgate_module_basic_go.Dict.{lookup, erase, insert}
use tollgate_module_basic_go.Merchant.State.{milliseconds}
use tollgate_module_basic_go.Merchant.Quote.State.{
  MintQuoteState, LightningQuoteRecord, Lightning, lightning_quote_monitor_interval, put_quote,
  save_quotes, is_past, should_delete_lightning_quote, any_stale, persist_lightning_quotes,
  cleanup_stale_lightning_quotes, drop_stale, saved,
}
use tollgate_module_basic_go.Merchant.Quote.Admission.{
  MintQuote, order_invoice, admit_order, request_lightning_invoice, count_active_quotes,
  evictable_lightning_quote, may_evict, evict_oldest, track_quote, is_active, new_quote,
  admit_lightning_quote,
}
use tollgate_module_basic_go.Merchant.Quote.Admission.Laws.{
  IsBounded, request_lightning_invoice-IsBounded, request_lightning_invoice-keeps,
  order_invoice-overlap,
}
use tollgate_module_basic_go.Merchant.Quote.Grant.{
  QuoteError, Status, LightningQuoteStatus, amount_to_grant, ensure_lightning_access_granted,
  get_lightning_invoice_status, monitor_lightning_quote, load_lightning_quotes,
  grant_access_for_amount, grant_claimed, quote_for_mac, get_lightning_quote_state, release,
  complete,
}
use tollgate_module_basic_go.Merchant.Quote.Grant.Laws.{
  Attempted, claimed, ensure_lightning_access_granted_lem,
}
use tollgate_module_basic_go.Merchant.Quote.Grant.Once.{ensure_lightning_access_granted-once}
use tollgate_module_basic_go.Merchant.Quote.Grant.Polling.{
  get_lightning_invoice_status-IsHonest, IsHonest,
}
use tollgate_module_basic_go.Merchant.Quote.Grant.Monitor.{IsOver, monitor_lightning_quote-ends}
use tollgate_module_basic_go.Merchant.Quote.Grant.Restart.{
  after_restart, IsMonitored, load_lightning_quotes-restores,
}
use tollgate_module_basic_go.Tests.{
  mac, raw_mac, mint_url, willing, merchant, by_time, no_gates, sound_disk,
}

abbrev id : Str
id = codes "q1"

-- An unpaid invoice of 15 sat that was made at second 1000.
abbrev quote : LightningQuoteRecord
quote = record {
  bolt11 = codes "lnbc";
  mac_address = mac;
  mint_url = mint_url;
  amount = 15;
  expiry = 0;
  allotment = 0;
  created_at = some (at_unix 1000);
  completed_at = none;
  session_granted = false;
  processing = false;
  cached_state = none;
}

abbrev no_quotes : Lightning
no_quotes = record {
  merchant = merchant by_time no_gates;
  lightning_quotes = [];
  mint_quote_budget = [];
  quote_file = [];
  quote_writes = 0;
  quote_monitors = [];
}

abbrev one_quote : Lightning
one_quote = record no_quotes { lightning_quotes = (id, quote) ∷ [] }

-- What the mint answers to a request for an invoice.
abbrev answer_for : Str → MintQuote
answer_for quote_id = record {
  quote_id = quote_id;
  request = codes "lnbc";
  expiry = 0;
  state = MintQuoteState.unpaid;
}

abbrev permissive : List ℕ → ℕ → Bool
permissive calls now = true

abbrev unchanged : Str → Str
unchanged s = s

one_quote-IsBounded : IsBounded ((id, quote) ∷ [])
unfolding count_active_quotes lookup
one_quote-IsBounded = record {
  keys = (refl, tt);
  size = omega arith;
  counts = λ owner. ground arith;
}

other_id : codes "q2" ≢ id
unfolding str_eq
other_id e = absurd (not_true (sym ((eq_iff (codes "q2") id).1 e)))
  where
    not_true : true ≢ false
    not_true h = absurd (cc)

request_lightning_invoice-IsBounded_example :
    IsBounded
      (request_lightning_invoice unchanged permissive sound_disk
        (λ w. w)
        raw_mac
        mint_url
        15
        (at_unix 1001)
        (at_unix 1002)
        (some (answer_for (codes "q2")))
        one_quote).1.lightning_quotes
request_lightning_invoice-IsBounded_example =
    request_lightning_invoice-IsBounded unchanged permissive sound_disk (λ w. w) (λ l. refl) raw_mac
      mint_url 15 (at_unix 1001) (at_unix 1002) (some (answer_for (codes "q2"))) one_quote
      one_quote-IsBounded

request_lightning_invoice-keeps_example :
    lookup id
      (request_lightning_invoice unchanged permissive sound_disk
        (λ w. w)
        raw_mac
        mint_url
        15
        (at_unix 1001)
        (at_unix 1002)
        (some (answer_for (codes "q2")))
        one_quote).1.lightning_quotes
    ≡ some quote
unfolding lookup str_eq should_delete_lightning_quote is_past evictable_lightning_quote
request_lightning_invoice-keeps_example =
    request_lightning_invoice-keeps unchanged permissive sound_disk (λ w. w) (λ l. refl) raw_mac
      mint_url 15 (at_unix 1001) (at_unix 1002) (some (answer_for (codes "q2"))) one_quote id quote
      (refl, tt) refl refl refl other_id

second_request : Lightning → Lightning
second_request w =
    (order_invoice unchanged permissive sound_disk (λ w'. w') mac mint_url 15 (at_unix 1001)
      (at_unix 1002) (some (answer_for (codes "q3"))) w).1

-- A client with two invoices, whose next two requests overlap, has four.
abbrev two_quotes : Lightning
two_quotes = record no_quotes { lightning_quotes = (id, quote) ∷ (codes "q0", quote) ∷ [] }

order_invoice-overlap_example :
    count_active_quotes mac
      (order_invoice unchanged permissive sound_disk second_request mac mint_url 15
        (at_unix 1001)
        (at_unix 1002)
        (some (answer_for (codes "q2")))
        two_quotes).1.lightning_quotes
    ≡ 4
unfolding second_request normalize_mac_address lower trim admit_order admit_lightning_quote
    count_active_quotes cleanup_stale_lightning_quotes any_stale should_delete_lightning_quote
    is_past is_active str_eq allow insert lookup order_invoice track_quote erase evict_oldest
    evictable_lightning_quote may_evict new_quote drop_stale persist_lightning_quotes put_quote
    save_quotes saved is_space
order_invoice-overlap_example =
    order_invoice-overlap unchanged permissive sound_disk mac mint_url 15 (at_unix 1001)
      (at_unix 1002) (answer_for (codes "q2")) (answer_for (codes "q3")) two_quotes refl refl refl
      refl refl

ensure_lightning_access_granted_lem_example :
    Attempted unchanged willing sound_disk id quote
      (at_unix 1001)
      (amount_to_grant MintQuoteState.paid quote (some 15))
      one_quote
      (ensure_lightning_access_granted unchanged willing sound_disk
        (λ w. w)
        (some 15)
        id
        MintQuoteState.paid
        (at_unix 1001)
        one_quote)
unfolding lookup str_eq
ensure_lightning_access_granted_lem_example =
    ensure_lightning_access_granted_lem unchanged willing sound_disk (some 15) id
      MintQuoteState.paid (at_unix 1001) one_quote quote refl refl refl

ensure_lightning_access_granted-once_example :
    let attempt =
      ensure_lightning_access_granted unchanged willing sound_disk
        (λ w. w)
        (some 15)
        id
        MintQuoteState.paid in
    let during = put_quote id (claimed quote) one_quote in
    let out = attempt (at_unix 1001) one_quote in
    (attempt (at_unix 1002) during ≡ (none, during))
    × (((err : QuoteError) × (out.0 ≡ some err)) ⊎ (attempt (at_unix 1002) out.1 ≡ (none, out.1)))
unfolding lookup str_eq
ensure_lightning_access_granted-once_example =
    ensure_lightning_access_granted-once unchanged willing sound_disk (λ w. w) (some 15) id
      MintQuoteState.paid (at_unix 1001) one_quote quote (λ w. refl) refl refl refl (λ w. w)
      (some 15) MintQuoteState.paid (at_unix 1002)

-- The mint says that the invoice is paid, and the client polls.
abbrev polled : Status × Lightning
polled =
    get_lightning_invoice_status unchanged willing sound_disk (λ w. w) (some MintQuoteState.paid)
      (some 15) id mac (at_unix 1001) one_quote

abbrev told : LightningQuoteStatus
told = record {
  mint_url = mint_url;
  amount = 15;
  state = MintQuoteState.issued;
  access_granted = true;
  allotment = 420000;
  metric = milliseconds;
}

get_lightning_invoice_status-IsHonest_example : IsHonest id mac told polled.1
unfolding lookup str_eq normalize_mac_address lower trim get_lightning_invoice_status quote_for_mac
    get_lightning_quote_state ensure_lightning_access_granted put_quote insert grant_claimed
    amount_to_grant grant_access_for_amount calculate_allotment find_mint grant_session_access erase
    is_valid_mac open_gate_by_metric settle_grant complete release persist_lightning_quotes
    save_quotes saved add_allotment expire_session remember_expired_session restore_session
    session_has_expired is_space set_data_baseline authorize_mac check_client_state get_client_stats
    open_gate open_gate_until mark_gate_opened next_gate_epoch willing
get_lightning_invoice_status-IsHonest_example =
    get_lightning_invoice_status-IsHonest unchanged willing sound_disk (some MintQuoteState.paid)
      (some 15) id mac (at_unix 1001) one_quote quote {st = told} refl refl refl refl

monitor_lightning_quote-ends_example :
    let (ended, l') =
      monitor_lightning_quote unchanged willing sound_disk
        (λ k. none)
        (λ k. none)
        (λ k. 0)
        id
        401
        lightning_quote_monitor_interval
        (at_unix 1000)
        one_quote in
    (ended ≡ true) × IsOver id l'
unfolding lookup str_eq
monitor_lightning_quote-ends_example =
    monitor_lightning_quote-ends unchanged willing sound_disk id (λ k. none) (λ k. none) (λ k. 0)
      400 lightning_quote_monitor_interval (at_unix 1000) (at_unix 1000) one_quote
      (quote, refl, refl, refl) (omega arith) (omega arith)

load_lightning_quotes-restores_example :
    let l' =
      load_lightning_quotes sound_disk
        (some (save_quotes ((id, quote) ∷ [])))
        (at_unix 1001)
        no_quotes in
    let kept = after_restart (at_unix 1001) (lookup id ((id, quote) ∷ [])) in
    (lookup id l'.lightning_quotes ≡ kept) × IsMonitored id l' kept
unfolding lookup
load_lightning_quotes-restores_example =
    load_lightning_quotes-restores sound_disk (at_unix 1001) id ((id, quote) ∷ []) no_quotes refl
      (refl, tt)
