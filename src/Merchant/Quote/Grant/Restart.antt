-- ===== src/Merchant/Quote/Grant/Restart.antt =====
-- The quotes survive a restart (src/merchant/lightning.go and src/merchant/quote_store.go).
use tollgate_module_basic_go.Prelude.{
  ℕ, ◌≡◌, refl, inl, inr, Bool, true, false, ◌||◌, Option, none, some, [], ◌∷◌, Str, arith, str_eq,
  eq_iff, str_eq_refl, str_mem, if◌then◌else◌, Bool-cases,
}
use tollgate_module_basic_go.Dict.{Dict, lookup, lookup-insert, Unique}
use tollgate_module_basic_go.Merchant.Quote.State.{
  LightningQuoteRecord, Lightning, should_delete_lightning_quote, saved, restored, save_quotes,
  persist_lightning_quotes, put_quote,
}
use tollgate_module_basic_go.Merchant.Quote.Grant.{
  restore_quote, restore_quotes, load_lightning_quotes,
}

-- What a restart makes of a quote: a stale one is dropped.
abbrev pub after_restart : ℕ → Option LightningQuoteRecord → Option LightningQuoteRecord
after_restart now none = none
after_restart now (some rec) =
    let again = record rec { processing = false; cached_state = none } in
    if should_delete_lightning_quote again now then none else some again

-- The quote has its monitor, or needs none.
abbrev pub IsMonitored : Str → Lightning → Option LightningQuoteRecord → Type 0
IsMonitored id l none = Unit
IsMonitored id l (some rec) = (rec.session_granted || str_mem id l.quote_monitors) ≡ true

restored-saved :
    (rec : LightningQuoteRecord)
    → restored (saved rec) ≡ record rec { processing = false; cached_state = none }
unfolding restored saved
restored-saved rec = refl

-- The quotes of a table, each but the stale ones, added to those of another.
restore_quotes-lookup :
    (now : ℕ) (id : Str) (m : Dict LightningQuoteRecord) (l : Lightning)
    → lookup id l.lightning_quotes ≡ none
    → Unique m
    → lookup id (restore_quotes now (save_quotes m) l).lightning_quotes
      ≡ after_restart now (lookup id m)
unfolding restore_quotes restore_quote save_quotes put_quote lookup
restore_quotes-lookup now id [] l new u = new
restore_quotes-lookup now id ((k, rec) ∷ m) l new u =
    let again = record rec { processing = false; cached_state = none } in
    let l1 = restore_quotes now (save_quotes m) l in
    ground (
      arith,
      restored-saved rec,
      eq_iff k id,
      lookup-insert id k again l1.lightning_quotes,
      restore_quotes-lookup now id m l new u.1,
    )

lookup-empty : (id : Str) → lookup {V = LightningQuoteRecord} id [] ≡ none
unfolding lookup
lookup-empty id = refl

restore_quotes-IsMonitored :
    (now : ℕ) (id : Str) (m : Dict LightningQuoteRecord) (l : Lightning)
    → lookup id l.lightning_quotes ≡ none
    → Unique m
    → IsMonitored id (restore_quotes now (save_quotes m) l) (after_restart now (lookup id m))
unfolding restore_quotes restore_quote save_quotes put_quote lookup str_mem
restore_quotes-IsMonitored now id [] l new u = tt
restore_quotes-IsMonitored now id ((k, rec) ∷ m) l new u = elim (Bool-cases (str_eq k id)) [
  | inl same ↦ ground (arith, restored-saved rec, eq_iff k id, str_eq_refl id)
  | inr other ↦ ground (arith, restored-saved rec, restore_quotes-IsMonitored now id m l new u.1)
]

-- A restart loses no quote: a table that was saved, with distinct keys, is read back into an empty
-- one as it was, but for the stale quotes, which are dropped, and for what is not kept on disk (an
-- attempt under way, the cached state); and each quote that is still open has its monitor.
pub load_lightning_quotes-restores :
    (disk : ℕ → Bool) (now : ℕ) (id : Str) (m : Dict LightningQuoteRecord) (l : Lightning)
    → l.lightning_quotes ≡ []
    → Unique m
    → let l' = load_lightning_quotes disk (some (save_quotes m)) now l in
      let kept = after_restart now (lookup id m) in
      (lookup id l'.lightning_quotes ≡ kept) × IsMonitored id l' kept
unfolding load_lightning_quotes save_quotes persist_lightning_quotes
load_lightning_quotes-restores disk now id [] l empty u =
    (rw empty (unfold lookup in refl), unfold lookup in tt)
load_lightning_quotes-restores disk now id ((k, rec) ∷ m) l empty u =
    let new : lookup id l.lightning_quotes ≡ none = rw empty (lookup-empty id) in
    (
      restore_quotes-lookup now id ((k, rec) ∷ m) l new u,
      restore_quotes-IsMonitored now id ((k, rec) ∷ m) l new u,
    )
