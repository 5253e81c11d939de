-- ===== src/Merchant/Intent/Laws.antt =====
-- What the journal of intents guarantees (src/merchant/receive_intent.go).
use tollgate_module_basic_go.Prelude.{
  ℕ, ◌+◌, ◌≡◌, refl, ◌≢◌, Bool, true, false, Option, none, some, Str, arith, str_eq_refl, str_mem,
  is_some, if◌then◌else◌, ◌∙◌, ap, Option-cases, inl, inr,
}
use tollgate_module_basic_go.Dict.{lookup, lookup-insert}
use tollgate_module_basic_go.Merchant.State.{
  IntentState, owed, abandoned, ReceiveIntentRecord, Merchant,
}
use tollgate_module_basic_go.Merchant.Pricing.{allotted, calculate_allotment}
use tollgate_module_basic_go.Merchant.Session.{is_empty}
use tollgate_module_basic_go.Merchant.OwedGrant.{new_owed}
use tollgate_module_basic_go.Merchant.OwedGrant.Laws.{
  record_owed_grant-owed, record_owed_grant-intents,
}
use tollgate_module_basic_go.Merchant.Intent.{
  is_pending_state, persist_receive_intents, put_intent, Attempt, new_intent, begin_receive_intent,
  resolve_receive_intent, owe, act_on_evidence, reconcile_receive_intent,
}

module _ (disk : ℕ → Bool) (ref : Str) where
  put_intent-lookup :
      (rec : ReceiveIntentRecord) (m : Merchant)
      → lookup ref (put_intent ref rec m).receive_intents ≡ some rec
  unfolding put_intent
  put_intent-lookup rec m = rw (lookup-insert ref ref rec m.receive_intents, str_eq_refl ref) refl

  -- A new note is on disk before it is sent: when `beginReceiveIntent` of a reference that is not
  -- known lets the purchase go on and its write succeeds, the file holds the pending intent with
  -- the note, and the memory does too.
  pub begin_receive_intent-durable :
      (a : Attempt) (now : ℕ) (m : Merchant)
      → is_empty ref ≡ false
      → lookup ref m.receive_intents ≡ none
      → disk m.writes ≡ true
      → let (answer, m') = begin_receive_intent disk ref a now m in
        (answer ≡ none)
        × (lookup ref m'.intent_file ≡ some (new_intent a now))
        × (lookup ref m'.receive_intents ≡ some (new_intent a now))
  unfolding begin_receive_intent persist_receive_intents put_intent
  begin_receive_intent-durable a now m key e written =
      rw (key, e, begin_receive_intent, written)
        (refl, put_intent-lookup (new_intent a now) m, put_intent-lookup (new_intent a now) m)

  pub resolve_receive_intent-lookup :
      (state : IntentState) (now : ℕ) (m : Merchant) {rec : ReceiveIntentRecord}
      → is_empty ref ≡ false
      → lookup ref m.receive_intents ≡ some rec
      → is_pending_state rec.state ≡ true
      → lookup ref (resolve_receive_intent disk ref state now m).receive_intents
        ≡ some (record rec { state = state; resolved_at = some now })
  unfolding resolve_receive_intent persist_receive_intents
  resolve_receive_intent-lookup state now m {rec} key e waiting =
      rw (key, e, resolve_receive_intent, waiting)
        (put_intent-lookup (record rec { state = state; resolved_at = some now }) m)

  -- The write of a resolution.
  pub resolve_receive_intent-written :
      (state : IntentState) (now : ℕ) (m : Merchant) {rec : ReceiveIntentRecord}
      → is_empty ref ≡ false
      → lookup ref m.receive_intents ≡ some rec
      → is_pending_state rec.state ≡ true
      → disk m.writes ≡ true
      → let m' = resolve_receive_intent disk ref state now m in
        (lookup ref m'.intent_file ≡ some (record rec { state = state; resolved_at = some now }))
        × (m'.writes ≡ m.writes + 1)
        × (m'.grant_file ≡ m.grant_file)
  unfolding resolve_receive_intent persist_receive_intents put_intent
  resolve_receive_intent-written state now m {rec} key e waiting written =
      rw (key, e, resolve_receive_intent, waiting, written)
        (put_intent-lookup (record rec { state = state; resolved_at = some now }) m, refl, refl)

  pub resolve_receive_intent-keeps :
      (state : IntentState) (now : ℕ) (m : Merchant)
      → let m' = resolve_receive_intent disk ref state now m in
        (m'.owed_grants ≡ m.owed_grants)
        × (m'.config ≡ m.config)
        × (m'.grant_file ≡ m.grant_file)
        × (m'.customer_sessions ≡ m.customer_sessions)
        × (m'.valve ≡ m.valve)
  unfolding resolve_receive_intent persist_receive_intents put_intent
  resolve_receive_intent-keeps state now m = ground arith

  -- The records of `ref` once a note that the mint has taken is reconciled.
  owe-lookup :
      (rec : ReceiveIntentRecord) (now : ℕ) (m : Merchant) (allotment : ℕ)
      → is_empty ref ≡ false
      → lookup ref m.receive_intents ≡ some rec
      → is_pending_state rec.state ≡ true
      → lookup ref m.owed_grants ≡ none
      → let m' = owe disk ref rec now (allotted allotment) m in
        (lookup ref m'.receive_intents ≡ some (record rec { state = owed; resolved_at = some now }))
        × (lookup ref m'.owed_grants
            ≡ some (
                new_owed rec.mac_address rec.mint_url rec.amount_sats allotment m.config.metric
                  now))
        × (str_mem ref m'.monitors ≡ true)
  unfolding owe
  owe-lookup rec now m allotment key e waiting no_debt =
      let m1 = resolve_receive_intent disk ref owed now m in
      let keeps = resolve_receive_intent-keeps owed now m in
      let debt =
        record_owed_grant-owed disk ref rec.mac_address rec.mint_url rec.amount_sats allotment now
          m1 key (rw keeps.0 no_debt) in
      (
        rw
            (record_owed_grant-intents disk ref rec.mac_address rec.mint_url rec.amount_sats
              allotment now m1).0
            (resolve_receive_intent-lookup owed now m key e waiting),
        debt.0
            ∙ ap
                (λ c.
                  some
                    (new_owed rec.mac_address rec.mint_url rec.amount_sats allotment c.metric now))
                keeps.1,
        debt.1,
      )

module _ (disk : ℕ → Bool) (normalize : Str → Str) (spent : Str → Option Bool)
    (between : Merchant → Merchant) (ref : Str) where
  pub reconciles :
      (rec : ReceiveIntentRecord) (now : ℕ) (m : Merchant)
      → lookup ref m.receive_intents ≡ some rec
      → is_pending_state rec.state ≡ true
      → is_empty rec.token_serialized ≡ false
      → reconcile_receive_intent disk normalize spent between ref now m
        ≡ act_on_evidence disk normalize ref rec now (spent rec.token_serialized) (between m)
  unfolding reconcile_receive_intent
  reconciles rec now m e waiting token = rw (e, reconcile_receive_intent, waiting, token) refl

  -- A note that the mint has taken becomes a debt: when the mint says that the note of a pending
  -- intent is spent and it can be priced, the intent is owed, and its allotment is recorded as a
  -- debt with a monitor. Nothing else may have touched the record while the mint was asked, and no
  -- debt may stand under the reference yet.
  pub reconcile_receive_intent-spent :
      (rec : ReceiveIntentRecord) (now allotment : ℕ) (m : Merchant)
      → is_empty ref ≡ false
      → lookup ref m.receive_intents ≡ some rec
      → is_pending_state rec.state ≡ true
      → is_empty rec.token_serialized ≡ false
      → spent rec.token_serialized ≡ some true
      → lookup ref (between m).receive_intents ≡ some rec
      → lookup ref (between m).owed_grants ≡ none
      → calculate_allotment normalize (between m).config rec.amount_sats rec.mint_url
        ≡ allotted allotment
      → let m' = reconcile_receive_intent disk normalize spent between ref now m in
        (lookup ref m'.receive_intents ≡ some (record rec { state = owed; resolved_at = some now }))
        × (lookup ref m'.owed_grants
            ≡ some (
                new_owed rec.mac_address rec.mint_url rec.amount_sats allotment
                  (between m).config.metric
                  now))
        × (str_mem ref m'.monitors ≡ true)
  unfolding act_on_evidence
  reconcile_receive_intent-spent rec now allotment m key e waiting token gone e' no_debt priced =
      rw (reconciles rec now m e waiting token, gone, act_on_evidence, priced)
        (owe-lookup disk ref rec now (between m) allotment key e' waiting no_debt)

  pub reconcile_receive_intent-quiet :
      (now : ℕ) (m : Merchant)
      → between m ≡ m
      → reconcile_receive_intent disk normalize spent between ref now m
        ≡ reconcile_receive_intent disk normalize spent (λ x. x) ref now m
  unfolding reconcile_receive_intent
  reconcile_receive_intent-quiet now m quiet = elim (Option-cases (lookup ref m.receive_intents)) [
    | inl fresh ↦ rw (fresh, reconcile_receive_intent) refl
    | inr (rec, known) ↦ rw (known, reconcile_receive_intent, quiet) refl
  ]

  act_on_evidence-unspent :
      (rec : ReceiveIntentRecord) (now : ℕ) (m : Merchant) (answer : Option Bool)
      → is_empty ref ≡ false
      → is_pending_state rec.state ≡ true
      → answer ≢ some true
      → lookup ref m.receive_intents ≡ some rec
      → let m' = act_on_evidence disk normalize ref rec now answer m in
        (lookup ref m'.receive_intents
          ≡ some (
              if is_some answer
              then record rec { state = abandoned; resolved_at = some now }
              else rec))
        × (m'.owed_grants ≡ m.owed_grants)
        × (m'.customer_sessions ≡ m.customer_sessions)
        × (m'.valve ≡ m.valve)
  unfolding act_on_evidence
  act_on_evidence-unspent rec now m none key waiting not_gone e = (e, refl, refl, refl)
  act_on_evidence-unspent rec now m (some true) key waiting not_gone e = absurd (not_gone refl)
  act_on_evidence-unspent rec now m (some false) key waiting not_gone e =
      let keeps = resolve_receive_intent-keeps disk ref abandoned now m in
      (
        resolve_receive_intent-lookup disk ref abandoned now m key e waiting,
        keeps.0,
        keeps.3,
        keeps.4,
      )

  -- A note that the mint has not taken stays the customer's: when the mint says that the note of a
  -- pending intent is unspent, the intent is abandoned, no debt is recorded and no access is given.
  -- When the mint gives no answer, nothing is decided.
  pub reconcile_receive_intent-unspent :
      (rec : ReceiveIntentRecord) (now : ℕ) (m : Merchant)
      → is_empty ref ≡ false
      → lookup ref m.receive_intents ≡ some rec
      → is_pending_state rec.state ≡ true
      → is_empty rec.token_serialized ≡ false
      → spent rec.token_serialized ≢ some true
      → lookup ref (between m).receive_intents ≡ some rec
      → let m' = reconcile_receive_intent disk normalize spent between ref now m in
        (lookup ref m'.receive_intents
          ≡ some (
              if is_some (spent rec.token_serialized)
              then record rec { state = abandoned; resolved_at = some now }
              else rec))
        × (m'.owed_grants ≡ (between m).owed_grants)
        × (m'.customer_sessions ≡ (between m).customer_sessions)
        × (m'.valve ≡ (between m).valve)
  reconcile_receive_intent-unspent rec now m key e waiting token not_gone e' =
      rw (reconciles rec now m e waiting token) (
        act_on_evidence-unspent rec now (between m) (spent rec.token_serialized) key waiting
          not_gone e')
