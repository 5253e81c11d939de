-- ===== src/Merchant/Quote/Grant/Once.antt =====
-- One grant for each paid invoice, whatever the other goroutines do meanwhile, and what a client is
-- told (src/merchant/lightning.go).
use tollgate_module_basic_go.Prelude.{
  ℕ, ◌≡◌, ◌⊎◌, refl, inl, inr, Bool, true, false, Option, none, some, Str, arith, Option-cases, ◌∙◌,
}
use tollgate_module_basic_go.Dict.{lookup}
use tollgate_module_basic_go.Valve.Ndsctl.{Ndsctl}
use tollgate_module_basic_go.Merchant.Quote.State.{
  MintQuoteState, LightningQuoteRecord, Lightning, persist_lightning_quotes, put_quote,
}
use tollgate_module_basic_go.Merchant.Quote.Grant.{
  QuoteError, access_grant_not_applied, amount_to_grant, grant_access_for_amount, release, complete,
  grant_claimed, ensure_lightning_access_granted,
}
use tollgate_module_basic_go.Merchant.Quote.Grant.Laws.{
  completed, claimed, lookup-put_quote, complete-lem, ensure-open, ensure-busy,
}

-- Access was granted for the quote.
abbrev pub IsGranted : Str → Lightning → Type 0
IsGranted id l =
    (rec : LightningQuoteRecord) × (lookup id l.lightning_quotes ≡ some rec)
    × (rec.session_granted ≡ true)

complete-IsGranted :
    (disk : ℕ → Bool) (id : Str) (a now : ℕ) (l : Lightning) (rec : LightningQuoteRecord)
    → lookup id l.lightning_quotes ≡ some rec
    → IsGranted id (persist_lightning_quotes disk (complete id a now l))
unfolding persist_lightning_quotes
complete-IsGranted disk id a now l rec e =
    rw (complete-lem id a now l e)
      (completed rec a now, lookup-put_quote id (completed rec a now) l, refl)

split_outcome :
    (disk : ℕ → Bool) (id : Str) (now : ℕ) (l : Lightning) (rec : LightningQuoteRecord)
    (o : Option ℕ)
    → lookup id l.lightning_quotes ≡ some rec
    → let out : Option QuoteError × Lightning = elim o [
      | none ↦ (some access_grant_not_applied, release id l)
      | some a ↦ (none, persist_lightning_quotes disk (complete id a now l))
    ] in
      out.0 ≡ none → IsGranted id out.1
split_outcome disk id now l rec none e h = absurd (cc)
split_outcome disk id now l rec (some a) e h = complete-IsGranted disk id a now l rec e

module _ (normalize : Str → Str) (n : Ndsctl) (disk : ℕ → Bool) where
  grant_claimed-IsGranted :
      (between : Lightning → Lightning) (id : Str) (rec : LightningQuoteRecord) (now : ℕ)
      (amount : Option ℕ) (l : Lightning) (rec' : LightningQuoteRecord)
      → ((w : Lightning) → lookup id (between w).lightning_quotes ≡ lookup id w.lightning_quotes)
      → lookup id l.lightning_quotes ≡ some rec'
      → (grant_claimed normalize n disk between id rec now amount l).0 ≡ none
      → IsGranted id (grant_claimed normalize n disk between id rec now amount l).1
  unfolding grant_claimed
  grant_claimed-IsGranted between id rec now none l rec' quiet e h = absurd (cc)
  grant_claimed-IsGranted between id rec now (some k) l rec' quiet e h =
      let l1 = between l in
      let (o, m) =
        grant_access_for_amount normalize n rec.mac_address k rec.mint_url now l1.merchant in
      let l2 = between (record l1 { merchant = m }) in
      split_outcome disk id now l2 rec' o (quiet (record l1 { merchant = m }) ∙ quiet l ∙ e) h

  -- A paid invoice is granted once. While an attempt at an open quote is under way, and after it
  -- unless it ended with an error, every other attempt at that quote (by the monitor or by a polling
  -- client, whatever the mint and NoDogSplash answer it) returns without an error and without a
  -- change, so long as the other goroutines leave the record of the quote alone.
  pub ensure_lightning_access_granted-once :
      (between : Lightning → Lightning) (minted : Option ℕ) (id : Str) (state : MintQuoteState)
      (now : ℕ) (l : Lightning) (rec : LightningQuoteRecord)
      → ((w : Lightning) → lookup id (between w).lightning_quotes ≡ lookup id w.lightning_quotes)
      → lookup id l.lightning_quotes ≡ some rec
      → rec.session_granted ≡ false
      → rec.processing ≡ false
      → let during = between (put_quote id (claimed rec) l) in
        let out = ensure_lightning_access_granted normalize n disk between minted id state now l in
        (between' : Lightning → Lightning) (minted' : Option ℕ) (state' : MintQuoteState)
        (later : ℕ)
        → let again = λ (w : Lightning).
          ensure_lightning_access_granted normalize n disk between' minted' id state' later w in
          (again during ≡ (none, during))
          × (((err : QuoteError) × (out.0 ≡ some err)) ⊎ (again out.1 ≡ (none, out.1)))
  ensure_lightning_access_granted-once between minted id state now l rec quiet e ungranted free
        between' minted' state' later =
      let l1 = put_quote id (claimed rec) l in
      let claim = lookup-put_quote id (claimed rec) l in
      let k = amount_to_grant state rec minted in
      (
        ensure-busy normalize n disk between' minted' id state' later (between l1) (claimed rec)
            (quiet l1 ∙ claim) (ground arith),
        rw (ensure-open normalize n disk between minted id state now l rec e ungranted free)
            (elim (Option-cases (grant_claimed normalize n disk between id rec now k l1).0) [
              | inr failure ↦ inl failure
              | inl ok ↦
                  let (r, found, done) =
                    grant_claimed-IsGranted between id rec now k l1 (claimed rec) quiet claim ok in
                  inr (
                    ensure-busy normalize n disk between' minted' id state' later
                      (grant_claimed normalize n disk between id rec now k l1).1 r found
                      (ground arith))
            ]),
      )
