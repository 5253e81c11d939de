-- ===== src/Merchant/Intent/Crash.antt =====
-- A crash between the two journals (src/merchant/receive_intent.go).
use tollgate_module_basic_go.Prelude.{ℕ, ◌+◌, ◌≡◌, Bool, true, false, Option, some, Str, ◌∙◌}
use tollgate_module_basic_go.Dict.{lookup}
use tollgate_module_basic_go.Merchant.State.{owed, ReceiveIntentRecord, Merchant}
use tollgate_module_basic_go.Merchant.Pricing.{allotted, calculate_allotment}
use tollgate_module_basic_go.Merchant.Session.{is_empty}
use tollgate_module_basic_go.Merchant.OwedGrant.Laws.{
  record_owed_grant-file, record_owed_grant-intents,
}
use tollgate_module_basic_go.Merchant.Intent.{
  is_pending_state, resolve_receive_intent, owe, act_on_evidence, reconcile_receive_intent,
}
use tollgate_module_basic_go.Merchant.Intent.Laws.{resolve_receive_intent-written, reconciles}

-- `reconcileReceiveIntent` writes the intent as owed before it writes the debt: when the first write
-- reaches the disk and the second does not, the disk says that the intent of the spent note is owed,
-- so that no restart looks at it again, and still has what it had of the debt, which is nothing
-- where nothing was owed before.
pub reconcile_receive_intent-torn :
    (disk : ℕ → Bool) (normalize : Str → Str) (spent : Str → Option Bool) (ref : Str)
    (rec : ReceiveIntentRecord) (now allotment : ℕ) (m : Merchant)
    → is_empty ref ≡ false
    → lookup ref m.receive_intents ≡ some rec
    → is_pending_state rec.state ≡ true
    → is_empty rec.token_serialized ≡ false
    → spent rec.token_serialized ≡ some true
    → calculate_allotment normalize m.config rec.amount_sats rec.mint_url ≡ allotted allotment
    → disk m.writes ≡ true
    → disk (m.writes + 1) ≡ false
    → let m' = reconcile_receive_intent disk normalize spent (λ w. w) ref now m in
      (lookup ref m'.intent_file ≡ some (record rec { state = owed; resolved_at = some now }))
      × (m'.grant_file ≡ m.grant_file)
unfolding act_on_evidence owe
reconcile_receive_intent-torn disk normalize spent ref rec now allotment m key e waiting token gone
      priced first second =
    let m1 = resolve_receive_intent disk ref owed now m in
    let wrote = resolve_receive_intent-written disk ref owed now m key e waiting first in
    let file =
      record_owed_grant-file disk ref rec.mac_address rec.mint_url rec.amount_sats allotment now m1
        (rw wrote.1 second) in
    rw
      (
        reconciles disk normalize spent (λ w. w) ref rec now m e waiting token,
        gone,
        act_on_evidence,
        priced,
      )
      (
        rw
            (record_owed_grant-intents disk ref rec.mac_address rec.mint_url rec.amount_sats
              allotment now m1).1
            wrote.0,
        file ∙ wrote.2,
      )
