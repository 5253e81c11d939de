-- ===== src/Merchant/Intent/Machine.antt =====
-- The life of an intent (src/merchant/receive_intent.go): a step relation over the operations of the
-- journal, and what no sequence of steps changes.
use tollgate_module_basic_go.Prelude.{
  ℕ, ◌≡◌, Bool, true, false, Option, none, some, Str, arith, Bool-cases, Option-cases, inl, inr,
  eq_iff, not, ◌||◌,
}
use tollgate_module_basic_go.Dict.{lookup, lookup-insert}
use tollgate_module_basic_go.Merchant.State.{
  IntentState, owed, abandoned, ReceiveIntentRecord, Merchant,
}
use tollgate_module_basic_go.Merchant.Session.{is_empty}
use tollgate_module_basic_go.Merchant.Pricing.{Priced, allotted, calculate_allotment}
use tollgate_module_basic_go.Merchant.OwedGrant.Laws.{record_owed_grant-intents}
use tollgate_module_basic_go.Merchant.Intent.{
  is_pending_state, is_abandoned_state, persist_receive_intents, put_intent, Attempt,
  begin_receive_intent, resolve_receive_intent, owe, act_on_evidence, reconcile_receive_intent,
}

-- What the purchases, the late recorder and the restart do to the journal, in any order. Each
-- reconciliation has its own mint to ask, and while the mint is asked any further steps may happen,
-- reconciliations of the same note among them.
pub data Steps (disk : ℕ → Bool) (normalize : Str → Str) : Merchant → Merchant → Type 0 where
  done : (m : Merchant) → Steps disk normalize m m
  begins :
      {m m1 : Merchant} (ref : Str) (a : Attempt) (now : ℕ)
      → Steps disk normalize m m1
      → Steps disk normalize m (begin_receive_intent disk ref a now m1).1
  resolves :
      {m m1 : Merchant} (ref : Str) (state : IntentState) (now : ℕ)
      → Steps disk normalize m m1
      → Steps disk normalize m (resolve_receive_intent disk ref state now m1)
  reconciles_with :
      {m m1 : Merchant} (spent : Str → Option Bool) (between : Merchant → Merchant) (ref : Str)
      (now : ℕ)
      → Steps disk normalize m m1
      → Steps disk normalize m1 (between m1)
      → Steps disk normalize m (reconcile_receive_intent disk normalize spent between ref now m1)

-- The intent of `ref` is granted or owed.
abbrev pub IsSettledIntent : Str → ReceiveIntentRecord → Merchant → Type 0
IsSettledIntent ref rec m =
    (lookup ref m.receive_intents ≡ some rec)
    × (is_pending_state rec.state ≡ false)
    × (is_abandoned_state rec.state ≡ false)

module _ (disk : ℕ → Bool) (ref : Str) (rec : ReceiveIntentRecord) where
  begin_receive_intent-settled :
      (key : Str) (a : Attempt) (now : ℕ) (m : Merchant)
      → IsSettledIntent ref rec m
      → lookup ref (begin_receive_intent disk key a now m).1.receive_intents ≡ some rec
  unfolding begin_receive_intent persist_receive_intents put_intent
  begin_receive_intent-settled key a now m h = grind (arith, h, eq_iff key ref, lookup-insert)

  resolve_receive_intent-settled :
      (key : Str) (state : IntentState) (now : ℕ) (m : Merchant)
      → IsSettledIntent ref rec m
      → lookup ref (resolve_receive_intent disk key state now m).receive_intents ≡ some rec
  unfolding resolve_receive_intent persist_receive_intents put_intent
  resolve_receive_intent-settled key state now m h = grind (arith, h, eq_iff key ref, lookup-insert)

  owe-settled :
      (key : Str) (r : ReceiveIntentRecord) (now : ℕ) (p : Priced) (m : Merchant)
      → IsSettledIntent ref rec m
      → lookup ref (owe disk key r now p m).receive_intents ≡ some rec
  unfolding owe
  owe-settled key r now (allotted allotment) m h =
      rw
        (record_owed_grant-intents disk key r.mac_address r.mint_url r.amount_sats allotment now
          (resolve_receive_intent disk key owed now m)).0
        (resolve_receive_intent-settled key owed now m h)
  owe-settled key r now Priced.mint_not_configured m h = h.0
  owe-settled key r now Priced.zero_price m h = h.0
  owe-settled key r now Priced.unsupported_metric m h = h.0
  owe-settled key r now (Priced.below_minimum steps) m h = h.0

  act_on_evidence-settled :
      (normalize : Str → Str) (key : Str) (r : ReceiveIntentRecord) (now : ℕ) (answer : Option Bool)
      (m : Merchant)
      → IsSettledIntent ref rec m
      → lookup ref (act_on_evidence disk normalize key r now answer m).receive_intents ≡ some rec
  unfolding act_on_evidence
  act_on_evidence-settled normalize key r now none m h = h.0
  act_on_evidence-settled normalize key r now (some true) m h =
      owe-settled key r now (calculate_allotment normalize m.config r.amount_sats r.mint_url) m h
  act_on_evidence-settled normalize key r now (some false) m h =
      resolve_receive_intent-settled key abandoned now m h

  reconcile_receive_intent-settled :
      (normalize : Str → Str) (spent : Str → Option Bool) (between : Merchant → Merchant)
      (key : Str) (now : ℕ) (m : Merchant)
      → IsSettledIntent ref rec m
      → IsSettledIntent ref rec (between m)
      → lookup ref (reconcile_receive_intent disk normalize spent between key now m).receive_intents
        ≡ some rec
  unfolding reconcile_receive_intent
  reconcile_receive_intent-settled normalize spent between key now m h h1 =
      elim (Option-cases (lookup key m.receive_intents)) [
        | inl e ↦ rw (e, reconcile_receive_intent) h.0
        | inr (r, e) ↦
            elim (Bool-cases (not (is_pending_state r.state) || is_empty r.token_serialized)) [
              | inl over ↦ rw (e, reconcile_receive_intent, over) h.0
              | inr waiting ↦
                  rw (e, reconcile_receive_intent, waiting)
                    (act_on_evidence-settled normalize key r now (spent r.token_serialized)
                      (between m) h1)
            ]
      ]

module _ (disk : ℕ → Bool) (normalize : Str → Str) (ref : Str) (rec : ReceiveIntentRecord) where
  -- A settled intent is final: once an intent is granted or owed, no sequence of purchases,
  -- resolutions and reconciliations, of this note or of others, changes its record, whatever each
  -- mint says, whatever of these happens while a mint is asked, and whether or not the writes
  -- succeed.
  pub Steps-settled :
      {m m' : Merchant}
      → Steps disk normalize m m'
      → IsSettledIntent ref rec m
      → IsSettledIntent ref rec m'
  Steps-settled (done m) h = h
  Steps-settled (begins {m1 = m1} key a now before) h =
      let h1 = Steps-settled before h in
      (begin_receive_intent-settled disk ref rec key a now m1 h1, h1.1, h1.2)
  Steps-settled (resolves {m1 = m1} key state now before) h =
      let h1 = Steps-settled before h in
      (resolve_receive_intent-settled disk ref rec key state now m1 h1, h1.1, h1.2)
  Steps-settled (reconciles_with {m1 = m1} spent between key now before meanwhile) h =
      let h1 = Steps-settled before h in
      let h2 = Steps-settled meanwhile h1 in
      (
        reconcile_receive_intent-settled disk ref rec normalize spent between key now m1 h1 h2,
        h1.1,
        h1.2,
      )
