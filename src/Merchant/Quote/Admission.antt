-- ===== src/Merchant/Quote/Admission.antt =====
-- Admission to the table of invoices, and the order of one (src/merchant/lightning.go).
pub mod Eviction
pub mod Bounds
pub mod Laws
use tollgate_module_basic_go.Prelude.{
  ℕ, zero, suc, ◌+◌, Bool, true, false, not, ◌&&◌, ◌||◌, Option, none, some, List, [], ◌∷◌, Str,
  str_eq, ltb, leb, ◌==◌, if◌then◌else◌, length,
}
use tollgate_module_basic_go.Dict.{Dict, erase}
use tollgate_module_basic_go.Mac.{normalize_mac_address, validate_mac_address}
use tollgate_module_basic_go.Merchant.Session.{is_empty}
use tollgate_module_basic_go.Merchant.Pricing.{Priced, allotted, calculate_allotment}
use tollgate_module_basic_go.Merchant.Quote.State.{
  MintQuoteState, LightningQuoteRecord, Lightning, is_past, persist_lightning_quotes, put_quote,
  cleanup_stale_lightning_quotes, max_active_quotes_per_mac, max_active_quotes_global,
  quote_table_eviction_watermark, quote_eviction_min_age,
}
use tollgate_module_basic_go.Merchant.Quote.Budget.{allow}

-- The quote is outstanding, and this client's.
unfoldable pub is_active : Str → LightningQuoteRecord → Bool
is_active mac rec = not rec.session_granted && str_eq (normalize_mac_address rec.mac_address) mac

-- `countActiveQuotesLocked`
unfoldable pub count_active_quotes : Str → Dict LightningQuoteRecord → ℕ
count_active_quotes mac [] = 0
count_active_quotes mac ((id, rec) ∷ m) =
    (if is_active mac rec then 1 else 0) + count_active_quotes mac m

-- `evictableLightningQuote`
unfoldable pub evictable_lightning_quote : LightningQuoteRecord → ℕ → Bool
evictable_lightning_quote rec now =
    not rec.processing
    && not rec.session_granted
    && is_past quote_eviction_min_age rec.created_at now

-- The records among which `evictOldestEvictableQuoteLocked` chooses.
unfoldable pub may_evict : ℕ → Str → LightningQuoteRecord → Bool
may_evict now only rec =
    (is_empty only || str_eq (normalize_mac_address rec.mac_address) only)
    && evictable_lightning_quote rec now

instant : Option ℕ → ℕ
instant none = 0
instant (some t) = t

-- The oldest of them, `best` of those before, which was created at `oldest`; the empty text is none.
oldest_evictable : ℕ → Str → ℕ → Str → Dict LightningQuoteRecord → Str
unfolding instant
oldest_evictable now only oldest best [] = best
oldest_evictable now only oldest best ((id, rec) ∷ m) =
    let older = may_evict now only rec && (is_empty best || ltb (instant rec.created_at) oldest) in
    oldest_evictable now only (if older then instant rec.created_at else oldest)
      (if older then id else best) m

-- `evictOldestEvictableQuoteLocked`
unfoldable pub evict_oldest : ℕ → Str → Dict LightningQuoteRecord → Bool × Dict LightningQuoteRecord
unfolding oldest_evictable
evict_oldest now only m =
    let oldest = oldest_evictable now only 0 [] m in
    if is_empty oldest then (false, m) else (true, erase oldest m)

-- The loop that holds the table at the watermark, for at most `fuel` evictions.
pub hold_watermark : ℕ → ℕ → Dict LightningQuoteRecord → Bool × Dict LightningQuoteRecord
hold_watermark zero now m = (false, m)
hold_watermark (suc fuel) now m =
    if ltb (length m) quote_table_eviction_watermark
    then (false, m)
    else (let (found, m1) = evict_oldest now [] m in
        elim found [ false ↦ (false, m) | true ↦ (true, (hold_watermark fuel now m1).1) ])

-- The second half of `admitLightningQuoteLocked`.
admit_within_caps : Bool → ℕ → Dict LightningQuoteRecord → (Bool × Bool) × Dict LightningQuoteRecord
unfolding hold_watermark
admit_within_caps evicted now m =
    let (held, m1) = hold_watermark (length m) now m in
    ((evicted || held, ltb (length m1) max_active_quotes_global), m1)

-- `admitLightningQuoteLocked`: whether it evicted anything, and whether the request is admitted.
unfoldable pub admit_lightning_quote :
    Str → ℕ → Dict LightningQuoteRecord → (Bool × Bool) × Dict LightningQuoteRecord
unfolding admit_within_caps
admit_lightning_quote mac now m =
    if leb max_active_quotes_per_mac (count_active_quotes mac m)
    then (let (found, m1) = evict_oldest now mac m in
        elim found [ false ↦ ((false, false), m) | true ↦ admit_within_caps true now m1 ])
    else admit_within_caps false now m

-- `tollwallet.MintQuote`
pub record MintQuote : Type 0 where
  pub quote_id : Str
  pub request : Str
  pub expiry : ℕ
  pub state : MintQuoteState

pub record LightningInvoice : Type 0 where
  pub quote_id : Str
  pub invoice : Str
  pub mint_url : Str
  pub amount : ℕ
  pub expiry : ℕ
  pub state : MintQuoteState

pub data InvoiceError : Type 0 where
  invalid_mac zero_amount too_many_quotes mint_busy_local mint_failed : InvoiceError
  not_priced : Priced → InvoiceError

pub data Invoice : Type 0 where
  invoiced : LightningInvoice → Invoice
  refused : InvoiceError → Invoice

unfoldable pub new_quote : Str → Str → ℕ → MintQuote → ℕ → LightningQuoteRecord
new_quote mac mint_url amount quote now = record {
  bolt11 = quote.request;
  mac_address = mac;
  mint_url = mint_url;
  amount = amount;
  expiry = quote.expiry;
  allotment = 0;
  created_at = some now;
  completed_at = none;
  session_granted = false;
  processing = false;
  cached_state = none;
}

-- The mint has answered: the quote is recorded, and its monitor starts.
unfoldable pub track_quote :
    (ℕ → Bool) → Str → Str → ℕ → ℕ → Option MintQuote → Lightning → Invoice × Lightning
track_quote disk mac mint_url amount now none l = (refused mint_failed, l)
track_quote disk mac mint_url amount now (some quote) l =
    let l1 =
      persist_lightning_quotes disk
        (put_quote quote.quote_id (new_quote mac mint_url amount quote now) l) in
    (
      invoiced (record {
        quote_id = quote.quote_id;
        invoice = quote.request;
        mint_url = mint_url;
        amount = amount;
        expiry = quote.expiry;
        state = quote.state;
      }),
      record l1 { quote_monitors = quote.quote_id ∷ l1.quote_monitors },
    )

-- What happens before the mint is asked: the janitor, the admission, and the budget.
unfoldable pub admit_order :
    (Str → Str)
    → (List ℕ → ℕ → Bool)
    → (ℕ → Bool)
    → Str
    → Str
    → ℕ
    → Lightning
    → Option InvoiceError × Lightning
admit_order normalize permits disk mac mint_url now l0 =
    let l = cleanup_stale_lightning_quotes disk now l0 in
    let (verdict, m) = admit_lightning_quote mac now l.lightning_quotes in
    let l1 = record l { lightning_quotes = m } in
    let l2 = if verdict.0 then persist_lightning_quotes disk l1 else l1 in
    let (permitted, b) = allow normalize permits now mint_url l2.mint_quote_budget in
    let l3 = record l2 { mint_quote_budget = b } in
    if not verdict.1
    then (some too_many_quotes, l2)
    else if not permitted
    then (some mint_busy_local, l3)
    else (none, l3)

-- A request that is priced; `between` is what the other goroutines do while the mint is asked, and
-- `later` the time of its answer.
unfoldable pub order_invoice :
    (Str → Str)
    → (List ℕ → ℕ → Bool)
    → (ℕ → Bool)
    → (Lightning → Lightning)
    → Str
    → Str
    → ℕ
    → ℕ
    → ℕ
    → Option MintQuote
    → Lightning
    → Invoice × Lightning
order_invoice normalize permits disk between mac mint_url amount now later answer l =
    let (refusal, l1) = admit_order normalize permits disk mac mint_url now l in
    elim refusal [
      | some e ↦ (refused e, l1)
      | none ↦ track_quote disk mac mint_url amount later answer (between l1)
    ]

-- `RequestLightningInvoice`
unfoldable pub request_lightning_invoice :
    (Str → Str)
    → (List ℕ → ℕ → Bool)
    → (ℕ → Bool)
    → (Lightning → Lightning)
    → Str
    → Str
    → ℕ
    → ℕ
    → ℕ
    → Option MintQuote
    → Lightning
    → Invoice × Lightning
request_lightning_invoice normalize permits disk between mac_address url amount now later answer l =
    let mac = normalize_mac_address mac_address in
    let mint_url = normalize url in
    if not (validate_mac_address mac)
    then (refused invalid_mac, l)
    else if amount == 0
    then (refused zero_amount, l)
    else elim (calculate_allotment normalize l.merchant.config amount mint_url) [
      | allotted steps ↦
          order_invoice normalize permits disk between mac mint_url amount now later answer l
      | other ↦ (refused (not_priced other), l)
    ]
