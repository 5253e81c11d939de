-- ===== src/Merchant/Quote/Grant/Monitor.antt =====
-- The monitor of an invoice comes to an end (src/merchant/lightning.go).
use tollgate_module_basic_go.Prelude.{
  ℕ, zero, suc, ◌+◌, ◌*◌, ◌≤◌, ◌≡◌, ◌⊎◌, refl, ap, inl, inr, Bool, true, false, Option, none, some,
  Str, arith, Bool-cases, Option-cases, str_eq_refl,
}
use tollgate_module_basic_go.Dict.{lookup, lookup-erase}
use tollgate_module_basic_go.Valve.Ndsctl.{Ndsctl}
use tollgate_module_basic_go.Merchant.Quote.State.{
  MintQuoteState, LightningQuoteRecord, Lightning, should_delete_lightning_quote,
  persist_lightning_quotes, delete_lightning_quote, is_past, lightning_quote_max_age,
  lightning_quote_monitor_interval,
}
use tollgate_module_basic_go.Merchant.Quote.Grant.{
  QuoteError, amount_to_grant, ensure_lightning_access_granted, get_lightning_quote_state,
  is_settled_state, next_lightning_backoff, after_state, monitor_round, monitor_lightning_quote,
}
use tollgate_module_basic_go.Merchant.Quote.Grant.Laws.{
  completed, ensure-busy, ensure_lightning_access_granted_lem, Attempted,
}
use tollgate_module_basic_go.Merchant.Quote.Grant.Once.{IsGranted}
use tollgate_module_basic_go.Merchant.Quote.Grant.Polling.{get_lightning_quote_state-keeps}

-- The quote is over: its record is gone, or access was granted for it.
abbrev pub IsOver : Str → Lightning → Type 0
IsOver id l = (lookup id l.lightning_quotes ≡ none) ⊎ IsGranted id l

-- The quote was created at `t`, and nobody works on it.
abbrev pub IsIdle : Str → ℕ → Lightning → Type 0
IsIdle id t l =
    (rec : LightningQuoteRecord) × (lookup id l.lightning_quotes ≡ some rec)
    × (rec.created_at ≡ some t)
    × (rec.processing ≡ false)

-- What a round leaves: the monitor ends with the quote over, or it waits at least an interval.
abbrev IsRound : Str → ℕ → Option ℕ × Lightning → Type 0
IsRound id t (none, l) = IsOver id l
IsRound id t (some next, l) = (lightning_quote_monitor_interval ≤ next) × IsIdle id t l

IsRound-split :
    (id : Str) (t : ℕ) (r : Option ℕ × Lightning)
    → IsRound id t r
    → (r.0 ≡ none → IsOver id r.1)
      × ((next : ℕ) → r.0 ≡ some next → (lightning_quote_monitor_interval ≤ next) × IsIdle id t r.1)
IsRound-split id t (none, l) h = (λ e. h, λ next e. cc)
IsRound-split id t (some wait, l) h = (λ e. cc, λ next e. (ground arith, h.1))

next_lightning_backoff-ge :
    (b : ℕ)
    → lightning_quote_monitor_interval ≤ b
    → lightning_quote_monitor_interval ≤ next_lightning_backoff b
unfolding next_lightning_backoff
next_lightning_backoff-ge b h = ground arith

delete-IsOver :
    (disk : ℕ → Bool) (id : Str) (l : Lightning) → IsOver id (delete_lightning_quote disk id l)
unfolding delete_lightning_quote persist_lightning_quotes
delete-IsOver disk id l = inl (rw (lookup-erase id id l.lightning_quotes, str_eq_refl id) refl)

-- From the greatest age on a quote that nobody works on is stale.
should_delete-old :
    (rec : LightningQuoteRecord) (t now : ℕ)
    → rec.created_at ≡ some t
    → rec.processing ≡ false
    → t + lightning_quote_max_age ≤ now
    → should_delete_lightning_quote rec now ≡ true
unfolding should_delete_lightning_quote is_past
should_delete-old rec t now born free old = ground arith

module _ (normalize : Str → Str) (n : Ndsctl) (disk : ℕ → Bool) (id : Str) where
  split_attempt :
      (rec : LightningQuoteRecord) (t now backoff : ℕ) (amount : Option ℕ) (l : Lightning)
      (out : Option QuoteError × Lightning)
      → rec.created_at ≡ some t
      → rec.processing ≡ false
      → lightning_quote_monitor_interval ≤ backoff
      → Attempted normalize n disk id rec now amount l out
      → let round : Option ℕ × Lightning = elim out.0 [
        | none ↦ (none, out.1)
        | some e ↦ (some (next_lightning_backoff backoff), out.1)
      ] in
        IsRound id t round
  split_attempt rec t now backoff amount l (none, l') born free slow
        (k, a, s, got, priced, kept, sold) =
      inr (completed rec a now, kept, refl)
  split_attempt rec t now backoff amount l (some e, l') born free slow failure =
      (next_lightning_backoff-ge backoff slow, (rec, failure.1, born, free))

  left_alone :
      (t backoff : ℕ) (l : Lightning) (out : Option QuoteError × Lightning)
      → out ≡ (none, l)
      → IsOver id l
      → let round : Option ℕ × Lightning = elim out.0 [
        | none ↦ (none, out.1)
        | some e ↦ (some (next_lightning_backoff backoff), out.1)
      ] in
        IsRound id t round
  left_alone t backoff l (none, l') same over =
      let kept : l' ≡ l = ap (λ (w : Option QuoteError × Lightning). w.1) same in rw kept over
  left_alone t backoff l (some e, l') same over = absurd (cc)

  after_state-IsRound :
      (minted : Option ℕ) (rec : LightningQuoteRecord) (t now backoff : ℕ)
      (asked : Option MintQuoteState × Lightning)
      → lookup id asked.1.lightning_quotes ≡ some rec
      → rec.created_at ≡ some t
      → rec.processing ≡ false
      → lightning_quote_monitor_interval ≤ backoff
      → IsRound id t (after_state normalize n disk minted id now backoff asked)
  unfolding after_state
  after_state-IsRound minted rec t now backoff (none, l) e born free slow =
      (next_lightning_backoff-ge backoff slow, (rec, e, born, free))
  after_state-IsRound minted rec t now backoff (some state, l) e born free slow =
      let tried = ensure_lightning_access_granted normalize n disk (λ w. w) minted id state now l in
      elim (Bool-cases (is_settled_state state)) [
        | inr unpaid ↦ rw (unpaid, after_state) (omega arith, (rec, e, born, free))
        | inl settled ↦ elim (Bool-cases rec.session_granted) [
          | inl granted ↦
              rw (settled, after_state)
                (left_alone t backoff l tried
                  (ensure-busy normalize n disk (λ w. w) minted id state now l rec e (ground arith))
                  (inr (rec, e, granted)))
          | inr ungranted ↦
              rw (settled, after_state)
                (split_attempt rec t now backoff (amount_to_grant state rec minted) l tried born
                  free slow
                  (ensure_lightning_access_granted_lem normalize n disk minted id state now l rec e
                    ungranted free))
        ]
      ]

  monitor_round-IsRound :
      (answer : Option MintQuoteState) (minted : Option ℕ) (t now backoff : ℕ) (l : Lightning)
      → IsIdle id t l
      → lightning_quote_monitor_interval ≤ backoff
      → IsRound id t (monitor_round normalize n disk answer minted id now backoff l)
  unfolding monitor_round
  monitor_round-IsRound answer minted t now backoff l (rec, e, born, free) slow =
      let (c, kept) = get_lightning_quote_state-keeps answer id now l rec e in
      elim (Bool-cases (should_delete_lightning_quote rec now)) [
        | inl stale ↦ rw (e, monitor_round, stale) (delete-IsOver disk id l)
        | inr fresh ↦
            rw (e, monitor_round, fresh)
              (after_state-IsRound minted (record rec { cached_state = c }) t now backoff
                (get_lightning_quote_state answer id now l) kept born free slow)
      ]

  monitor_round-old :
      (answer : Option MintQuoteState) (minted : Option ℕ) (t now backoff : ℕ) (l : Lightning)
      → IsIdle id t l
      → t + lightning_quote_max_age ≤ now
      → (monitor_round normalize n disk answer minted id now backoff l).0 ≡ none
  unfolding monitor_round
  monitor_round-old answer minted t now backoff l (rec, e, born, free) old =
      rw (e, monitor_round, should_delete-old rec t now born free old) refl

  module _ (answers : ℕ → Option MintQuoteState) (mints : ℕ → Option ℕ) (jitter : ℕ → ℕ) where
    -- The monitor of an invoice that nobody else works on ends, whatever the mint and NoDogSplash
    -- answer: a round more than there are monitor intervals up to the greatest age of the quote is
    -- enough, and then access was granted, or the record of the quote is gone.
    pub monitor_lightning_quote-ends :
        (fuel backoff t now : ℕ) (l : Lightning)
        → IsIdle id t l
        → lightning_quote_monitor_interval ≤ backoff
        → t + lightning_quote_max_age ≤ now + fuel * lightning_quote_monitor_interval
        → let (ended, l') =
            monitor_lightning_quote normalize n disk answers mints jitter id
              (suc fuel)
              backoff
              now
              l in
          (ended ≡ true) × IsOver id l'
    unfolding monitor_lightning_quote
    monitor_lightning_quote-ends zero backoff t now l idle slow enough =
        let over =
          monitor_round-old (answers zero) (mints zero) t now backoff l idle
            (omega (arith, enough)) in
        let step =
          IsRound-split id t
            (monitor_round normalize n disk (answers zero) (mints zero) id now backoff l)
            (monitor_round-IsRound (answers zero) (mints zero) t now backoff l idle slow) in
        rw (over, monitor_lightning_quote) (refl, step.0 over)
    monitor_lightning_quote-ends (suc fuel) backoff t now l idle slow enough =
        let (wait, l1) =
          monitor_round normalize n disk (answers (suc fuel)) (mints (suc fuel)) id now backoff l in
        let step =
          IsRound-split id t
            (monitor_round normalize n disk (answers (suc fuel)) (mints (suc fuel)) id now backoff
              l)
            (monitor_round-IsRound (answers (suc fuel)) (mints (suc fuel)) t now backoff l idle
              slow) in
        elim (Option-cases wait) [
          | inl over ↦ rw (over, monitor_lightning_quote) (refl, step.0 over)
          | inr (next, more) ↦
              let (longer, idle') = step.1 next more in
              rw (more, monitor_lightning_quote)
                (monitor_lightning_quote-ends fuel next t (now + next + jitter (suc fuel)) l1 idle'
                  longer (omega (arith, enough, longer)))
        ]
