-- ===== src/Merchant/Purchase/Journal.antt =====
-- Purchases and the journals (src/merchant/merchant.go): what was paid is served or owed, and what
-- becomes of a note that the journal knows.
use tollgate_module_basic_go.Prelude.{ℕ, ◌≡◌, ◌⊎◌, none, some, Str}
use tollgate_module_basic_go.Dict.{lookup}
use tollgate_module_basic_go.Valve.Ndsctl.{Ndsctl}
use tollgate_module_basic_go.Merchant.State.{
  IntentState, CustomerSession, ReceiveIntentRecord, Merchant,
}
use tollgate_module_basic_go.Merchant.Access.{GrantError, Grant, refused}
use tollgate_module_basic_go.Merchant.OwedGrant.{new_owed}
use tollgate_module_basic_go.Merchant.Purchase.{grant_pending, Answer, notice, served}

-- The purchase ends well for the customer, by what became of the grant: it succeeded, and the
-- customer is served with its session, the intent is granted and nothing is owed, or it was refused,
-- and the customer is told that the grant is pending, the debt is recorded and the intent is owed.
abbrev pub IsHonoured :
    Str
    → Str
    → ReceiveIntentRecord
    → Str
    → ℕ
    → ℕ
    → ℕ
    → Merchant
    → Grant
    → Answer
    → Merchant
    → Type 0
IsHonoured ref mac rec mint_url amount allotment now m g answer m' =
    ((s : CustomerSession) × (g ≡ Grant.granted s)
      × (answer ≡ served s)
      × (lookup ref m'.receive_intents
          ≡ some (record rec { state = IntentState.granted; resolved_at = some now }))
      × (lookup ref m'.owed_grants ≡ none))
    ⊎ ((err : GrantError) × (g ≡ refused err)
        × (answer ≡ notice grant_pending)
        × (lookup ref m'.receive_intents
            ≡ some (record rec { state = IntentState.owed; resolved_at = some now }))
        × (lookup ref m'.owed_grants
            ≡ some (new_owed mac mint_url amount allotment m.config.metric now)))
