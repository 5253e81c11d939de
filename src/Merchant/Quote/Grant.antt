-- ===== src/Merchant/Quote/Grant.antt =====
-- Access for a paid invoice (src/merchant/lightning.go): the status that a client polls, the grant,
-- the monitor of a quote, and the restart.
pub mod Laws
pub mod Once
pub mod Polling
pub mod Monitor
pub mod Restart
use tollgate_module_basic_go.Prelude.{
  ℕ, zero, suc, ◌+◌, ◌*◌, Bool, true, false, not, ◌&&◌, ◌||◌, Option, none, some, List, [], ◌∷◌,
  Str, str_eq, ltb, leb, if◌then◌else◌,
}
use tollgate_module_basic_go.Dict.{Dict, lookup, insert}
use tollgate_module_basic_go.Mac.{normalize_mac_address}
use tollgate_module_basic_go.Valve.Ndsctl.{Ndsctl}
use tollgate_module_basic_go.Merchant.State.{Metric, CustomerSession, Merchant}
use tollgate_module_basic_go.Merchant.Pricing.{Priced, allotted, calculate_allotment}
use tollgate_module_basic_go.Merchant.Access.{Grant, grant_session_access}
use tollgate_module_basic_go.Merchant.Quote.State.{
  MintQuoteState, unpaid, paid, issued, pending, unknown, LightningQuoteRecord, PersistedQuote,
  Lightning, should_delete_lightning_quote, persist_lightning_quotes, put_quote,
  delete_lightning_quote, restored, lightning_quote_state_cache_ttl,
  lightning_quote_monitor_interval, lightning_quote_monitor_max_backoff,
}

-- What `ensureLightningAccessGranted` and its callers report.
pub data QuoteError : Type 0 where
  quote_not_found mint_lookup_failed : QuoteError
  access_grant_not_applied : QuoteError

-- What the mint answers to `MintTokens`, and `Amount` where no tokens are minted.
unfoldable pub amount_to_grant : MintQuoteState → LightningQuoteRecord → Option ℕ → Option ℕ
amount_to_grant paid rec minted = minted
amount_to_grant unpaid rec minted = some rec.amount
amount_to_grant issued rec minted = some rec.amount
amount_to_grant pending rec minted = some rec.amount
amount_to_grant unknown rec minted = some rec.amount

-- `grantAccessForAmount`: the allotment that was granted, or none.
unfoldable pub grant_access_for_amount :
    (Str → Str) → Ndsctl → Str → ℕ → Str → ℕ → Merchant → Option ℕ × Merchant
grant_access_for_amount normalize n mac amount url now m =
    elim (calculate_allotment normalize m.config amount url) [
      | allotted a ↦
          let (grant, m') = grant_session_access n mac a now m in
          elim grant [ Grant.granted s ↦ (some a, m') | Grant.refused e ↦ (none, m') ]
      | other ↦ (none, m)
    ]

-- The quote, if it is still in the table, is free for another attempt; or it is granted.
unfoldable pub release : Str → Lightning → Lightning
release id l = elim (lookup id l.lightning_quotes) [
  | none ↦ l
  | some rec ↦ put_quote id (record rec { processing = false }) l
]

unfoldable pub complete : Str → ℕ → ℕ → Lightning → Lightning
complete id allotment now l = elim (lookup id l.lightning_quotes) [
  | none ↦ l
  | some rec ↦
      put_quote id
        (record rec {
          processing = false;
          session_granted = true;
          allotment = allotment;
          completed_at = some now;
        })
        l
]

-- The quote is claimed, with this record; `minted` is the amount to grant. `between` is what the
-- other goroutines do while the mint and NoDogSplash are asked.
unfoldable pub grant_claimed :
    (Str → Str)
    → Ndsctl
    → (ℕ → Bool)
    → (Lightning → Lightning)
    → Str
    → LightningQuoteRecord
    → ℕ
    → Option ℕ
    → Lightning
    → Option QuoteError × Lightning
grant_claimed normalize n disk between id rec now none l =
    (some access_grant_not_applied, release id (between l))
grant_claimed normalize n disk between id rec now (some amount) l0 =
    let l = between l0 in
    let (granted, m) =
      grant_access_for_amount normalize n rec.mac_address amount rec.mint_url now l.merchant in
    let l1 = between (record l { merchant = m }) in
    elim granted [
      | none ↦ (some access_grant_not_applied, release id l1)
      | some a ↦ (none, persist_lightning_quotes disk (complete id a now l1))
    ]

-- `ensureLightningAccessGranted`; `none` is no error.
unfoldable pub ensure_lightning_access_granted :
    (Str → Str)
    → Ndsctl
    → (ℕ → Bool)
    → (Lightning → Lightning)
    → Option ℕ
    → Str
    → MintQuoteState
    → ℕ
    → Lightning
    → Option QuoteError × Lightning
ensure_lightning_access_granted normalize n disk between minted id state now l =
    elim (lookup id l.lightning_quotes) [
      | none ↦ (some quote_not_found, l)
      | some rec ↦
          if rec.session_granted || rec.processing
          then (none, l)
          else grant_claimed normalize n disk between id rec now (amount_to_grant state rec minted)
              (put_quote id (record rec { processing = true }) l)
    ]

-- `getLightningQuoteRecordForMAC`
unfoldable pub quote_for_mac : Str → Str → Lightning → Option LightningQuoteRecord
quote_for_mac id mac l = elim (lookup id l.lightning_quotes) [
  | none ↦ none
  | some rec ↦
      if str_eq (normalize_mac_address rec.mac_address) (normalize_mac_address mac)
      then some rec
      else none
]

-- A state that was cached less than two seconds ago.
cached : ℕ → Option LightningQuoteRecord → Option MintQuoteState
cached now none = none
cached now (some rec) = elim rec.cached_state [
  | none ↦ none
  | some (state, at) ↦ if ltb now (at + lightning_quote_state_cache_ttl) then some state else none
]

remember_state : Str → MintQuoteState → ℕ → Lightning → Lightning
remember_state id state now l = elim (lookup id l.lightning_quotes) [
  | none ↦ l
  | some rec ↦ put_quote id (record rec { cached_state = some (state, now) }) l
]

-- `getLightningQuoteState`; `answer` is what the mint says.
unfoldable pub get_lightning_quote_state :
    Option MintQuoteState → Str → ℕ → Lightning → Option MintQuoteState × Lightning
unfolding cached remember_state
get_lightning_quote_state answer id now l = elim (cached now (lookup id l.lightning_quotes)) [
  | some state ↦ (some state, l)
  | none ↦ elim answer [
    | none ↦ (none, l)
    | some state ↦ (some state, remember_state id state now l)
  ]
]

abbrev pub is_settled_state : MintQuoteState → Bool
is_settled_state paid = true
is_settled_state issued = true
is_settled_state unpaid = false
is_settled_state pending = false
is_settled_state unknown = false

-- `LightningQuoteStatus`
pub record LightningQuoteStatus : Type 0 where
  pub mint_url : Str
  pub amount : ℕ
  pub state : MintQuoteState
  pub access_granted : Bool
  pub allotment : ℕ
  pub metric : Metric

pub data Status : Type 0 where
  status : LightningQuoteStatus → Status
  failed : QuoteError → Status

status_of : MintQuoteState → Metric → Option LightningQuoteRecord → Status
status_of state metric none = failed quote_not_found
status_of state metric (some rec) = status (record {
  mint_url = rec.mint_url;
  amount = rec.amount;
  state = if rec.session_granted then issued else state;
  access_granted = rec.session_granted;
  allotment = rec.allotment;
  metric = metric;
})

-- The end of `GetLightningInvoiceStatus`, after the grant where there was one.
answer_status : Str → Str → MintQuoteState → Option QuoteError × Lightning → Status × Lightning
unfolding status_of
answer_status id mac state (some e, l) = (failed e, l)
answer_status id mac state (none, l) =
    (status_of state l.merchant.config.metric (quote_for_mac id mac l), l)

status_after_state :
    (Str → Str)
    → Ndsctl
    → (ℕ → Bool)
    → (Lightning → Lightning)
    → Option ℕ
    → Str
    → Str
    → ℕ
    → Option MintQuoteState × Lightning
    → Status × Lightning
unfolding answer_status
status_after_state normalize n disk between minted id mac now (none, l) =
    (failed mint_lookup_failed, l)
status_after_state normalize n disk between minted id mac now (some state, l) =
    answer_status id mac state (
      if is_settled_state state
      then ensure_lightning_access_granted normalize n disk between minted id state now l
      else (none, l))

-- `GetLightningInvoiceStatus`; `answer` is the mint's state of the quote, `minted` its answer to
-- `MintTokens`.
unfoldable pub get_lightning_invoice_status :
    (Str → Str)
    → Ndsctl
    → (ℕ → Bool)
    → (Lightning → Lightning)
    → Option MintQuoteState
    → Option ℕ
    → Str
    → Str
    → ℕ
    → Lightning
    → Status × Lightning
unfolding status_after_state
get_lightning_invoice_status normalize n disk between answer minted id mac now l =
    elim (quote_for_mac id mac l) [
      | none ↦ (failed quote_not_found, l)
      | some rec ↦
          status_after_state normalize n disk between minted id mac now
            (get_lightning_quote_state answer id now l)
    ]

-- `nextLightningBackoff`
next_lightning_backoff : ℕ → ℕ
next_lightning_backoff current =
    if ltb lightning_quote_monitor_max_backoff (current * 2)
    then lightning_quote_monitor_max_backoff
    else current * 2

-- One round of `monitorLightningQuote`: whether the monitor ends, the next backoff, and the state.
after_state :
    (Str → Str)
    → Ndsctl
    → (ℕ → Bool)
    → Option ℕ
    → Str
    → ℕ
    → ℕ
    → Option MintQuoteState × Lightning
    → Option ℕ × Lightning
unfolding next_lightning_backoff
after_state normalize n disk minted id now backoff (none, l) =
    (some (next_lightning_backoff backoff), l)
after_state normalize n disk minted id now backoff (some state, l) =
    if is_settled_state state
    then (let (err, l1) =
          ensure_lightning_access_granted normalize n disk (λ w. w) minted id state now l in
        elim err [ none ↦ (none, l1) | some e ↦ (some (next_lightning_backoff backoff), l1) ])
    else (some lightning_quote_monitor_interval, l)

pub monitor_round :
    (Str → Str)
    → Ndsctl
    → (ℕ → Bool)
    → Option MintQuoteState
    → Option ℕ
    → Str
    → ℕ
    → ℕ
    → Lightning
    → Option ℕ × Lightning
unfolding after_state
monitor_round normalize n disk answer minted id now backoff l =
    elim (lookup id l.lightning_quotes) [
      | none ↦ (none, l)
      | some rec ↦
          if should_delete_lightning_quote rec now
          then (none, delete_lightning_quote disk id l)
          else after_state normalize n disk minted id now backoff
              (get_lightning_quote_state answer id now l)
    ]

-- `monitorLightningQuote` for at most `fuel` rounds; the mint's answers and what a wait and the round
-- before it take beyond the backoff are given for each round. The flag tells that it ended.
unfoldable pub monitor_lightning_quote :
    (Str → Str)
    → Ndsctl
    → (ℕ → Bool)
    → (ℕ → Option MintQuoteState)
    → (ℕ → Option ℕ)
    → (ℕ → ℕ)
    → Str
    → ℕ
    → ℕ
    → ℕ
    → Lightning
    → Bool × Lightning
unfolding monitor_round
monitor_lightning_quote normalize n disk answers mints jitter id zero backoff now l = (false, l)
monitor_lightning_quote normalize n disk answers mints jitter id (suc fuel) backoff now l =
    let (wait, l1) = monitor_round normalize n disk (answers fuel) (mints fuel) id now backoff l in
    elim wait [
      | none ↦ (true, l1)
      | some next ↦
          monitor_lightning_quote normalize n disk answers mints jitter id fuel next
            (now + next + jitter fuel) l1
    ]

-- One quote of `loadLightningQuotesFromDisk`.
restore_quote : ℕ → Str → PersistedQuote → Lightning → Lightning
restore_quote now id pq l =
    let rec = restored pq in
    if should_delete_lightning_quote rec now
    then l
    else (let l1 = put_quote id rec l in
        if rec.session_granted then l1 else record l1 { quote_monitors = id ∷ l1.quote_monitors })

pub restore_quotes : ℕ → Dict PersistedQuote → Lightning → Lightning
unfolding restore_quote
restore_quotes now [] l = l
restore_quotes now ((id, pq) ∷ rest) l = restore_quote now id pq (restore_quotes now rest l)

-- `loadLightningQuotesFromDisk`; `none` is a file that cannot be read.
unfoldable pub load_lightning_quotes :
    (ℕ → Bool) → Option (Dict PersistedQuote) → ℕ → Lightning → Lightning
load_lightning_quotes disk none now l = l
load_lightning_quotes disk (some []) now l = l
load_lightning_quotes disk (some (entry ∷ rest)) now l =
    persist_lightning_quotes disk (restore_quotes now (entry ∷ rest) l)
