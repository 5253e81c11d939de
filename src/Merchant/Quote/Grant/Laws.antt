-- ===== src/Merchant/Quote/Grant/Laws.antt =====
-- A paid invoice is granted once, and a failure leaves the purchase open (src/merchant/lightning.go).
use tollgate_module_basic_go.Prelude.{
  ℕ, ◌≡◌, refl, ap, Bool, true, false, ◌||◌, Option, none, some, Str, arith, str_eq_refl,
}
use tollgate_module_basic_go.Dict.{lookup, lookup-insert}
use tollgate_module_basic_go.Mac.{normalize_mac_address}
use tollgate_module_basic_go.Valve.Ndsctl.{Ndsctl}
use tollgate_module_basic_go.Merchant.State.{CustomerSession, Merchant}
use tollgate_module_basic_go.Merchant.Pricing.{Priced, allotted, calculate_allotment}
use tollgate_module_basic_go.Merchant.Access.{Grant, GrantError, grant_session_access}
use tollgate_module_basic_go.Merchant.Access.Laws.{
  grant_session_access_refused, grant_session_access-session,
}
use tollgate_module_basic_go.Merchant.Quote.State.{
  MintQuoteState, LightningQuoteRecord, Lightning, persist_lightning_quotes, put_quote,
}
use tollgate_module_basic_go.Merchant.Quote.Grant.{
  QuoteError, access_grant_not_applied, amount_to_grant, grant_access_for_amount, release, complete,
  grant_claimed, ensure_lightning_access_granted,
}

-- The quote as it is kept after a grant, and while one is under way.
abbrev pub completed : LightningQuoteRecord → ℕ → ℕ → LightningQuoteRecord
completed rec a now = record rec {
  processing = false;
  session_granted = true;
  allotment = a;
  completed_at = some now;
}

abbrev pub claimed : LightningQuoteRecord → LightningQuoteRecord
claimed rec = record rec { processing = true }

pub lookup-put_quote :
    (id : Str) (rec : LightningQuoteRecord) (l : Lightning)
    → lookup id (put_quote id rec l).lightning_quotes ≡ some rec
unfolding put_quote
lookup-put_quote id rec l = rw (lookup-insert id id rec l.lightning_quotes, str_eq_refl id) refl

-- The sessions that a failed grant leaves.
abbrev pub SameSessions : Merchant → Merchant → Type 0
SameSessions m m' = (j : Str) → lookup j m'.customer_sessions ≡ lookup j m.customer_sessions

split_grant :
    (g : Grant) (a : ℕ) (m m' : Merchant)
    → ((e : GrantError) → g ≡ Grant.refused e → SameSessions m m')
    → let out : Option ℕ × Merchant = elim g [
      | Grant.granted s ↦ (some a, m')
      | Grant.refused e ↦ (none, m')
    ] in
      (out.0 ≡ none → SameSessions m out.1)
      × ((b : ℕ)
          → out.0 ≡ some b
          → (s : CustomerSession) × (g ≡ Grant.granted s) × (a ≡ b) × (out.1 ≡ m'))
split_grant (Grant.granted s) a m m' keep = (λ h. cc, λ b h. (s, refl, ground arith, refl))
split_grant (Grant.refused e) a m m' keep = (λ h. keep e refl, λ b h. cc)

split_price :
    (p : Priced) (n : Ndsctl) (mac : Str) (now : ℕ) (m : Merchant)
    → let out : Option ℕ × Merchant = elim p [
      | allotted a ↦
          let (grant, m') = grant_session_access n mac a now m in
          elim grant [ Grant.granted s ↦ (some a, m') | Grant.refused e ↦ (none, m') ]
      | other ↦ (none, m)
    ] in
      (out.0 ≡ none → SameSessions m out.1)
      × ((b : ℕ)
          → out.0 ≡ some b
          → (s : CustomerSession) × (p ≡ allotted b)
            × (lookup (normalize_mac_address mac) out.1.customer_sessions ≡ some s))
split_price (allotted a) n mac now m =
    let (grant, m') = grant_session_access n mac a now m in
    let split =
      split_grant grant a m m'
        (λ e refused. (grant_session_access_refused n mac a now m refused).0) in
    (
      split.0,
      λ b h.
          let (s, ok, same, out) = split.1 b h in
          (s, rw same refl, rw out (grant_session_access-session n mac a now m ok)),
    )
split_price Priced.mint_not_configured n mac now m = (λ h j. refl, λ b h. cc)
split_price Priced.zero_price n mac now m = (λ h j. refl, λ b h. cc)
split_price Priced.unsupported_metric n mac now m = (λ h j. refl, λ b h. cc)
split_price (Priced.below_minimum k) n mac now m = (λ h j. refl, λ b h. cc)

-- `grantAccessForAmount` sells what the amount buys, or changes no session.
pub grant_access_for_amount_lem :
    (normalize : Str → Str) (n : Ndsctl) (mac : Str) (amount : ℕ) (url : Str) (now : ℕ)
    (m : Merchant)
    → let out = grant_access_for_amount normalize n mac amount url now m in
      (out.0 ≡ none → SameSessions m out.1)
      × ((b : ℕ)
          → out.0 ≡ some b
          → (s : CustomerSession) × (calculate_allotment normalize m.config amount url ≡ allotted b)
            × (lookup (normalize_mac_address mac) out.1.customer_sessions ≡ some s))
unfolding grant_access_for_amount
grant_access_for_amount_lem normalize n mac amount url now m =
    split_price (calculate_allotment normalize m.config amount url) n mac now m

reopened :
    (rec : LightningQuoteRecord) → rec.processing ≡ false → record rec { processing = false } ≡ rec
reopened rec free = ground arith

release-lem :
    (id : Str) (l : Lightning) {rec : LightningQuoteRecord}
    → lookup id l.lightning_quotes ≡ some rec
    → release id l ≡ put_quote id (record rec { processing = false }) l
unfolding release
release-lem id l e = rw (e, release) refl

pub complete-lem :
    (id : Str) (a now : ℕ) (l : Lightning) {rec : LightningQuoteRecord}
    → lookup id l.lightning_quotes ≡ some rec
    → complete id a now l ≡ put_quote id (completed rec a now) l
unfolding complete
complete-lem id a now l e = rw (e, complete) refl

pub persist-quotes :
    (disk : ℕ → Bool) (l : Lightning)
    → let l' = persist_lightning_quotes disk l in
      (l'.lightning_quotes ≡ l.lightning_quotes) × (l'.merchant ≡ l.merchant)
unfolding persist_lightning_quotes
persist-quotes disk l = (refl, refl)

module _ (normalize : Str → Str) (n : Ndsctl) (disk : ℕ → Bool) where
  -- What an attempt at a quote that nobody else works on comes to.
  abbrev pub Attempted :
      Str → LightningQuoteRecord → ℕ → Option ℕ → Lightning → Option QuoteError × Lightning → Type 0
  Attempted id rec now amount l (none, l') =
      (k : ℕ) × (a : ℕ) × (s : CustomerSession) × (amount ≡ some k)
      × (calculate_allotment normalize l.merchant.config k rec.mint_url ≡ allotted a)
      × (lookup id l'.lightning_quotes ≡ some (completed rec a now))
      × (lookup (normalize_mac_address rec.mac_address) l'.merchant.customer_sessions ≡ some s)
  Attempted id rec now amount l (some e, l') =
      (e ≡ access_grant_not_applied)
      × (lookup id l'.lightning_quotes ≡ some rec)
      × SameSessions l.merchant l'.merchant

  settle_granted :
      (id : Str) (rec : LightningQuoteRecord) (now k : ℕ) (l : Lightning) (o : Option ℕ)
      (m : Merchant)
      → rec.processing ≡ false
      → lookup id l.lightning_quotes ≡ some (claimed rec)
      → (o ≡ none → SameSessions l.merchant m)
      → ((b : ℕ)
          → o ≡ some b
          → (s : CustomerSession) × (calculate_allotment normalize l.merchant.config k rec.mint_url
              ≡ allotted b)
            × (lookup (normalize_mac_address rec.mac_address) m.customer_sessions ≡ some s))
      → let l1 = record l { merchant = m } in
        let out : Option QuoteError × Lightning = elim o [
          | none ↦ (some access_grant_not_applied, release id l1)
          | some a ↦ (none, persist_lightning_quotes disk (complete id a now l1))
        ] in
        Attempted id rec now (some k) l out
  unfolding persist_lightning_quotes put_quote
  settle_granted id rec now k l none m free e keep got =
      let l1 = record l { merchant = m } in
      rw (release-lem id l1 e)
        (refl, rw (lookup-put_quote id _ l1) (ap some (reopened rec free)), keep refl)
  settle_granted id rec now k l (some a) m free e keep got =
      let l1 = record l { merchant = m } in
      let (s, priced, sold) = got a refl in
      rw (complete-lem id a now l1 e)
        (k, a, s, refl, priced, lookup-put_quote id (completed rec a now) l1, sold)

  grant_claimed-Attempted :
      (id : Str) (rec : LightningQuoteRecord) (now : ℕ) (amount : Option ℕ) (l : Lightning)
      → rec.processing ≡ false
      → lookup id l.lightning_quotes ≡ some (claimed rec)
      → Attempted id rec now amount l (grant_claimed normalize n disk (λ w. w) id rec now amount l)
  unfolding grant_claimed
  grant_claimed-Attempted id rec now none l free e = rw (release-lem id l e) (
    refl,
    rw (lookup-put_quote id _ l) (ap some (reopened rec free)),
    unfold put_quote in λ j. refl,
  )
  grant_claimed-Attempted id rec now (some k) l free e =
      let (o, m) =
        grant_access_for_amount normalize n rec.mac_address k rec.mint_url now l.merchant in
      let sold =
        grant_access_for_amount_lem normalize n rec.mac_address k rec.mint_url now l.merchant in
      settle_granted id rec now k l o m free e sold.0 sold.1

  pub ensure-open :
      (between : Lightning → Lightning) (minted : Option ℕ) (id : Str) (state : MintQuoteState)
      (now : ℕ) (l : Lightning) (rec : LightningQuoteRecord)
      → lookup id l.lightning_quotes ≡ some rec
      → rec.session_granted ≡ false
      → rec.processing ≡ false
      → ensure_lightning_access_granted normalize n disk between minted id state now l
        ≡ grant_claimed normalize n disk between id rec now
            (amount_to_grant state rec minted)
            (put_quote id (claimed rec) l)
  unfolding ensure_lightning_access_granted
  ensure-open between minted id state now l rec e ungranted free =
      rw (e, ensure_lightning_access_granted) (ground arith)

  -- A quote that is granted, or that is being granted, is left alone.
  pub ensure-busy :
      (between : Lightning → Lightning) (minted : Option ℕ) (id : Str) (state : MintQuoteState)
      (now : ℕ) (l : Lightning) (rec : LightningQuoteRecord)
      → lookup id l.lightning_quotes ≡ some rec
      → (rec.session_granted || rec.processing) ≡ true
      → ensure_lightning_access_granted normalize n disk between minted id state now l ≡ (none, l)
  unfolding ensure_lightning_access_granted
  ensure-busy between minted id state now l rec e busy =
      rw (e, ensure_lightning_access_granted) (ground arith)

  -- An attempt to grant a quote that is open, and that nobody else works on, either succeeds, and
  -- then the quote is recorded as granted with what the amount (minted where the mint says paid)
  -- buys, and the customer's session stands; or it fails with `ErrAccessGrantNotApplied`, and then
  -- the quote is open as before and no session has changed.
  pub ensure_lightning_access_granted_lem :
      (minted : Option ℕ) (id : Str) (state : MintQuoteState) (now : ℕ) (l : Lightning)
      (rec : LightningQuoteRecord)
      → lookup id l.lightning_quotes ≡ some rec
      → rec.session_granted ≡ false
      → rec.processing ≡ false
      → Attempted id rec now
          (amount_to_grant state rec minted)
          l
          (ensure_lightning_access_granted normalize n disk (λ w. w) minted id state now l)
  unfolding put_quote
  ensure_lightning_access_granted_lem minted id state now l rec e ungranted free =
      let l1 = put_quote id (claimed rec) l in
      rw (ensure-open (λ w. w) minted id state now l rec e ungranted free) (
        grant_claimed-Attempted id rec now (amount_to_grant state rec minted) l1 free
          (unfold put_quote in lookup-put_quote id (claimed rec) l))
