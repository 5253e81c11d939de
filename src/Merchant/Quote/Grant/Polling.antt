-- ===== src/Merchant/Quote/Grant/Polling.antt =====
-- What a polling client is told (`GetLightningInvoiceStatus`, src/merchant/lightning.go).
use tollgate_module_basic_go.Prelude.{
  ℕ, ◌≡◌, ◌⊎◌, refl, inl, inr, Bool, true, false, Option, none, some, Str, arith, str_eq,
  if◌then◌else◌, Bool-cases, Option-cases,
}
use tollgate_module_basic_go.Dict.{lookup}
use tollgate_module_basic_go.Mac.{normalize_mac_address}
use tollgate_module_basic_go.Valve.Ndsctl.{Ndsctl}
use tollgate_module_basic_go.Merchant.Quote.State.{
  MintQuoteState, issued, LightningQuoteRecord, Lightning,
}
use tollgate_module_basic_go.Merchant.Quote.Grant.{
  QuoteError, amount_to_grant, ensure_lightning_access_granted, quote_for_mac, cached,
  remember_state, get_lightning_quote_state, is_settled_state, LightningQuoteStatus, status,
  status_of, answer_status, status_after_state, get_lightning_invoice_status,
}
use tollgate_module_basic_go.Merchant.Quote.Grant.Laws.{
  completed, lookup-put_quote, ensure-busy, ensure_lightning_access_granted_lem, Attempted,
}

-- The record belongs to the client that asks.
abbrev pub IsOwned : Str → LightningQuoteRecord → Type 0
IsOwned mac rec = str_eq (normalize_mac_address rec.mac_address) (normalize_mac_address mac) ≡ true

-- What the client is told is what the table says.
abbrev pub IsHonest : Str → Str → LightningQuoteStatus → Lightning → Type 0
IsHonest id mac st l =
    (is_settled_state st.state ≡ st.access_granted)
    × (rec : LightningQuoteRecord) × (lookup id l.lightning_quotes ≡ some rec)
    × (st.access_granted ≡ rec.session_granted)
    × (st.allotment ≡ rec.allotment)
    × (st.amount ≡ rec.amount)

remember_state-keeps :
    (id : Str) (state : MintQuoteState) (now : ℕ) (l : Lightning) (rec : LightningQuoteRecord)
    → lookup id l.lightning_quotes ≡ some rec
    → lookup id (remember_state id state now l).lightning_quotes
      ≡ some (record rec { cached_state = some (state, now) })
unfolding remember_state
remember_state-keeps id state now l rec e = rw (e, remember_state) (lookup-put_quote id _ l)

-- Asking for the state of a quote changes nothing of its record but the cached state.
pub get_lightning_quote_state-keeps :
    (answer : Option MintQuoteState) (id : Str) (now : ℕ) (l : Lightning)
    (rec : LightningQuoteRecord)
    → lookup id l.lightning_quotes ≡ some rec
    → (c : Option (MintQuoteState × ℕ)) × (lookup id
          (get_lightning_quote_state answer id now l).1.lightning_quotes
        ≡ some (record rec { cached_state = c }))
unfolding get_lightning_quote_state
get_lightning_quote_state-keeps none id now l rec e = (rec.cached_state, ground (arith))
get_lightning_quote_state-keeps (some state) id now l rec e =
    elim (Option-cases (cached now (lookup id l.lightning_quotes))) [
      | inl miss ↦ (
        some (state, now),
        rw (miss, get_lightning_quote_state) (remember_state-keeps id state now l rec e),
      )
      | inr (s, hit) ↦ (rec.cached_state, rw (hit, get_lightning_quote_state) e)
    ]

answer_status-IsHonest :
    (id mac : Str) (state : MintQuoteState) (l : Lightning) (rec : LightningQuoteRecord)
    {st : LightningQuoteStatus}
    → lookup id l.lightning_quotes ≡ some rec
    → IsOwned mac rec
    → is_settled_state (if rec.session_granted then issued else state) ≡ rec.session_granted
    → (answer_status id mac state (none, l)).0 ≡ status st
    → IsHonest id mac st (answer_status id mac state (none, l)).1
unfolding answer_status status_of quote_for_mac
answer_status-IsHonest id mac state l rec {st} e own fits h =
    (ground arith, rec, e, ground arith, ground arith, ground arith)

settled_if-granted :
    (b : Bool) (state : MintQuoteState)
    → (b ≡ true) ⊎ (is_settled_state state ≡ false)
    → is_settled_state (if b then issued else state) ≡ b
settled_if-granted true state h = refl
settled_if-granted false state (inl e) = cc
settled_if-granted false state (inr e) = e

module _ (normalize : Str → Str) (n : Ndsctl) (disk : ℕ → Bool) where
  -- The attempt that a settled state makes.
  after_attempt :
      (minted : Option ℕ) (id mac : Str) (state : MintQuoteState) (rec : LightningQuoteRecord)
      (now : ℕ) (l : Lightning) (out : Option QuoteError × Lightning) {st : LightningQuoteStatus}
      → IsOwned mac rec
      → Attempted normalize n disk id rec now (amount_to_grant state rec minted) l out
      → (answer_status id mac state out).0 ≡ status st
      → IsHonest id mac st (answer_status id mac state out).1
  after_attempt minted id mac state rec now l (none, l') own (k, a, s, got, priced, kept, sold) h =
      answer_status-IsHonest id mac state l' (completed rec a now) kept own refl h
  after_attempt minted id mac state rec now l (some e, l') own failure h =
      unfold answer_status in absurd (unfold answer_status in cc)

  status_after_state-IsHonest :
      (minted : Option ℕ) (id mac : Str) (now : ℕ) (state : MintQuoteState) (l : Lightning)
      (rec : LightningQuoteRecord) {st : LightningQuoteStatus}
      → lookup id l.lightning_quotes ≡ some rec
      → IsOwned mac rec
      → rec.processing ≡ false
      → let out = status_after_state normalize n disk (λ w. w) minted id mac now (some state, l) in
        out.0 ≡ status st → IsHonest id mac st out.1
  unfolding status_after_state
  status_after_state-IsHonest minted id mac now state l rec {st} e own free h =
      let tried = ensure_lightning_access_granted normalize n disk (λ w. w) minted id state now l in
      elim (Bool-cases (is_settled_state state)) [
        | inr unpaid ↦
            rw (unpaid, status_after_state)
              (answer_status-IsHonest id mac state l rec e own
                (settled_if-granted rec.session_granted state (inr unpaid))
                (rw (unpaid, status_after_state) at h))
        | inl settled ↦ elim (Bool-cases rec.session_granted) [
          | inl granted ↦
              let busy =
                ensure-busy normalize n disk (λ w. w) minted id state now l rec e (ground arith) in
              rw (settled, status_after_state, busy)
                (answer_status-IsHonest id mac state l rec e own
                  (settled_if-granted rec.session_granted state (inl granted))
                  (rw (settled, status_after_state, busy) at h))
          | inr ungranted ↦
              rw (settled, status_after_state)
                (after_attempt minted id mac state rec now l tried own
                  (ensure_lightning_access_granted_lem normalize n disk minted id state now l rec e
                    ungranted free)
                  (rw (settled, status_after_state) at h))
        ]
      ]

  split_state :
      (minted : Option ℕ) (id mac : Str) (now : ℕ) (asked : Option MintQuoteState × Lightning)
      (rec : LightningQuoteRecord) {st : LightningQuoteStatus}
      → lookup id asked.1.lightning_quotes ≡ some rec
      → IsOwned mac rec
      → rec.processing ≡ false
      → let out = status_after_state normalize n disk (λ w. w) minted id mac now asked in
        out.0 ≡ status st → IsHonest id mac st out.1
  split_state minted id mac now (none, l) rec e own free h =
      absurd (unfold status_after_state in cc)
  split_state minted id mac now (some state, l) rec e own free h =
      status_after_state-IsHonest minted id mac now state l rec e own free h

  -- A client is never told that its invoice is paid and left without access: where no other attempt
  -- at the quote is under way, a status says paid or issued exactly when it says that access is
  -- granted, and it repeats what the table records of the quote after the call.
  pub get_lightning_invoice_status-IsHonest :
      (answer : Option MintQuoteState) (minted : Option ℕ) (id mac : Str) (now : ℕ) (l : Lightning)
      (rec : LightningQuoteRecord) {st : LightningQuoteStatus}
      → lookup id l.lightning_quotes ≡ some rec
      → IsOwned mac rec
      → rec.processing ≡ false
      → let out =
          get_lightning_invoice_status normalize n disk (λ w. w) answer minted id mac now l in
        out.0 ≡ status st → IsHonest id mac st out.1
  unfolding get_lightning_invoice_status quote_for_mac
  get_lightning_invoice_status-IsHonest answer minted id mac now l rec {st} e own free h =
      let (c, kept) = get_lightning_quote_state-keeps answer id now l rec e in
      rw (e, get_lightning_invoice_status, own)
        (split_state minted id mac now (get_lightning_quote_state answer id now l)
          (record rec { cached_state = c }) kept own free
          (rw (e, get_lightning_invoice_status, own) at h))
