-- ===== src/Merchant/Intent.antt =====
-- The journal of the notes that were sent to a mint (src/merchant/receive_intent.go). What a mint says
-- of a note, and whether a write of the journal succeeds, are parameters.
pub mod Laws
pub mod Machine
pub mod Refinement
pub mod Crash
use tollgate_module_basic_go.Prelude.{
  ℕ, ◌+◌, Bool, true, false, not, ◌&&◌, ◌||◌, Option, none, some, List, [], ◌∷◌, Str, if◌then◌else◌,
}
use tollgate_module_basic_go.Dict.{Dict, lookup, insert}
use tollgate_module_basic_go.Mac.{normalize_mac_address}
use tollgate_module_basic_go.Merchant.State.{
  IntentState, pending, granted, owed, abandoned, ReceiveIntentRecord, Merchant,
}
use tollgate_module_basic_go.Merchant.Pricing.{Priced, allotted, calculate_allotment}
use tollgate_module_basic_go.Merchant.Session.{is_empty}
use tollgate_module_basic_go.Merchant.OwedGrant.{record_owed_grant}

abbrev pub is_pending_state : IntentState → Bool
is_pending_state pending = true
is_pending_state granted = false
is_pending_state owed = false
is_pending_state abandoned = false

abbrev pub is_abandoned_state : IntentState → Bool
is_abandoned_state pending = false
is_abandoned_state granted = false
is_abandoned_state owed = false
is_abandoned_state abandoned = true

-- `persistReceiveIntents`: a write that fails leaves the file as it was.
unfoldable pub persist_receive_intents : (ℕ → Bool) → Merchant → Merchant
persist_receive_intents disk m = record m {
  intent_file = if disk m.writes then m.receive_intents else m.intent_file;
  writes = m.writes + 1;
}

unfoldable pub put_intent : Str → ReceiveIntentRecord → Merchant → Merchant
put_intent ref rec m = record m { receive_intents = insert ref rec m.receive_intents }

-- What a purchase hands to `beginReceiveIntent`.
pub record Attempt : Type 0 where
  pub mac_address : Str
  pub mint_url : Str
  pub amount_sats : ℕ
  pub token_serialized : Str

unfoldable pub new_intent : Attempt → ℕ → ReceiveIntentRecord
new_intent a now = record {
  mac_address = normalize_mac_address a.mac_address;
  mint_url = a.mint_url;
  amount_sats = a.amount_sats;
  token_serialized = a.token_serialized;
  created_at = now;
  resolved_at = none;
  state = pending;
}

-- `beginReceiveIntent`: the prior record that answers this attempt, if there is one, and whether it
-- is resolved.
unfoldable pub begin_receive_intent :
    (ℕ → Bool) → Str → Attempt → ℕ → Merchant → Option (ReceiveIntentRecord × Bool) × Merchant
begin_receive_intent disk ref a now m =
    if is_empty ref then (none, m) else elim (lookup ref m.receive_intents) [
      | none ↦ (none, persist_receive_intents disk (put_intent ref (new_intent a now) m))
      | some prior ↦
          if is_abandoned_state prior.state
          then (
            none,
            persist_receive_intents disk (
                put_intent ref
                  (record prior { state = pending; created_at = now; resolved_at = none }) m),
          )
          else (some (prior, not (is_pending_state prior.state)), m)
    ]

-- `resolveReceiveIntent`
unfoldable pub resolve_receive_intent : (ℕ → Bool) → Str → IntentState → ℕ → Merchant → Merchant
resolve_receive_intent disk ref state now m =
    if is_empty ref then m else elim (lookup ref m.receive_intents) [
      | none ↦ m
      | some rec ↦
          if is_pending_state rec.state
          then persist_receive_intents disk
              (put_intent ref (record rec { state = state; resolved_at = some now }) m)
          else m
    ]

-- The mint was paid: the intent becomes a debt.
owe : (ℕ → Bool) → Str → ReceiveIntentRecord → ℕ → Priced → Merchant → Merchant
owe disk ref rec now (allotted allotment) m =
    record_owed_grant disk ref rec.mac_address rec.mint_url rec.amount_sats allotment now
      (resolve_receive_intent disk ref owed now m)
owe disk ref rec now Priced.mint_not_configured m = m
owe disk ref rec now Priced.zero_price m = m
owe disk ref rec now Priced.unsupported_metric m = m
owe disk ref rec now (Priced.below_minimum steps) m = m

-- What `reconcileReceiveIntent` does with the answer of `checkTokenSpent`; `none` is an error.
unfoldable pub act_on_evidence :
    (ℕ → Bool) → (Str → Str) → Str → ReceiveIntentRecord → ℕ → Option Bool → Merchant → Merchant
unfolding owe
act_on_evidence disk normalize ref rec now none m = m
act_on_evidence disk normalize ref rec now (some true) m =
    owe disk ref rec now (calculate_allotment normalize m.config rec.amount_sats rec.mint_url) m
act_on_evidence disk normalize ref rec now (some false) m =
    resolve_receive_intent disk ref abandoned now m

-- `reconcileReceiveIntent`: `between` is what the other goroutines do while the mint is asked.
unfoldable pub reconcile_receive_intent :
    (ℕ → Bool)
    → (Str → Str)
    → (Str → Option Bool)
    → (Merchant → Merchant)
    → Str
    → ℕ
    → Merchant
    → Merchant
reconcile_receive_intent disk normalize spent between ref now m =
    elim (lookup ref m.receive_intents) [
      | none ↦ m
      | some rec ↦
          if not (is_pending_state rec.state) || is_empty rec.token_serialized
          then m
          else act_on_evidence disk normalize ref rec now (spent rec.token_serialized) (between m)
    ]

restore_intent : Str → ReceiveIntentRecord → Merchant → Merchant
restore_intent ref rec m = elim (lookup ref m.receive_intents) [
  | none ↦ put_intent ref rec m
  | some known ↦ m
]

restore_intents : Dict ReceiveIntentRecord → Merchant → Merchant
unfolding restore_intent
restore_intents [] m = m
restore_intents ((ref, rec) ∷ file) m = restore_intents file (restore_intent ref rec m)

reconcile_all :
    (ℕ → Bool)
    → (Str → Str)
    → (Str → Option Bool)
    → ℕ
    → Dict ReceiveIntentRecord
    → Merchant
    → Merchant
reconcile_all disk normalize spent now [] m = m
reconcile_all disk normalize spent now ((ref, rec) ∷ file) m =
    reconcile_all disk normalize spent now file (
      if is_pending_state rec.state
      then reconcile_receive_intent disk normalize spent (λ w. w) ref now m
      else m)

-- `loadReceiveIntentsFromDisk`; `none` is a file that cannot be read. The goroutine that it starts
-- reconciles one intent after the other, here with no other goroutine meanwhile.
unfoldable pub load_receive_intents :
    (ℕ → Bool)
    → (Str → Str)
    → (Str → Option Bool)
    → Option (Dict ReceiveIntentRecord)
    → ℕ
    → Merchant
    → Merchant
unfolding restore_intents reconcile_all
load_receive_intents disk normalize spent none now m = m
load_receive_intents disk normalize spent (some file) now m =
    reconcile_all disk normalize spent now file (restore_intents file m)
