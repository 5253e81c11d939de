-- ===== src/Merchant/Intent/Refinement.antt =====
-- The journal of intents (src/merchant/receive_intent.go) implements a machine that knows of each
-- note only how far its purchase is.
use tollgate_module_basic_go.Prelude.{
  ℕ, ◌≡◌, ◌≢◌, refl, Bool, true, false, Option, none, some, Str, Bool-cases, Option-cases, inl, inr,
  str_eq-ne, str_eq_refl, not, ◌||◌,
}
use tollgate_module_basic_go.Dict.{lookup, lookup-insert}
use tollgate_module_basic_go.Merchant.State.{
  IntentState, pending, owed, abandoned, ReceiveIntentRecord, Merchant,
}
use tollgate_module_basic_go.Merchant.Session.{is_empty}
use tollgate_module_basic_go.Merchant.Pricing.{Priced, allotted, calculate_allotment}
use tollgate_module_basic_go.Merchant.OwedGrant.Laws.{record_owed_grant-intents}
use tollgate_module_basic_go.Merchant.Intent.{
  is_pending_state, is_abandoned_state, persist_receive_intents, put_intent, new_intent, Attempt,
  begin_receive_intent, resolve_receive_intent, owe, act_on_evidence, reconcile_receive_intent,
}
use tollgate_module_basic_go.Merchant.Intent.Machine.{
  Steps, done, begins, resolves, reconciles_with,
}

-- The abstract state of the journal: of each note, that it was never seen, or the state of its
-- purchase.
abbrev pub Journal : Type 0
Journal = Str → Option IntentState

-- How a purchase goes on: it starts, it is settled once, or it starts anew after the note came back.
pub data Moves : Option IntentState → Option IntentState → Type 0 where
  starts : Moves none (some pending)
  settles : (s : IntentState) → Moves (some pending) (some s)
  starts_anew : Moves (some abandoned) (some pending)
  stays : (s : Option IntentState) → Moves s s

-- One note moves, and the others stay.
abbrev pub JournalStep : Journal → Journal → Type 0
JournalStep j j' =
    (key : Str) × (Moves (j key) (j' key) × ((ref : Str) → key ≢ ref → j' ref ≡ j ref))

pub data Run : Journal → Journal → Type 0 where
  starts_with : (j : Journal) → Run j j
  goes_on : {j j1 j2 : Journal} → Run j j1 → JournalStep j1 j2 → Run j j2

-- What is forgotten: the records but for their states, the disk, and the rest of the merchant.
abbrev state_of : Option ReceiveIntentRecord → Option IntentState
state_of none = none
state_of (some rec) = some rec.state

pub view : Merchant → Journal
view m ref = state_of (lookup ref m.receive_intents)

is_pending-eq : (s : IntentState) → is_pending_state s ≡ true → s ≡ pending
is_pending-eq pending h = refl
is_pending-eq IntentState.granted h = absurd (cc)
is_pending-eq owed h = absurd (cc)
is_pending-eq abandoned h = absurd (cc)

is_abandoned-eq : (s : IntentState) → is_abandoned_state s ≡ true → s ≡ abandoned
is_abandoned-eq abandoned h = refl
is_abandoned-eq IntentState.granted h = absurd (cc)
is_abandoned-eq owed h = absurd (cc)
is_abandoned-eq pending h = absurd (cc)

module _ (disk : ℕ → Bool) (key : Str) where
  -- The note `key` moves.
  IsMove : Merchant → Merchant → Type 0
  IsMove m m' =
      Moves (view m key) (view m' key) × ((ref : Str) → key ≢ ref → view m' ref ≡ view m ref)

  IsMove-same : (m : Merchant) → IsMove m m
  unfolding IsMove
  IsMove-same m = (stays (view m key), λ ref other. refl)

  put_intent-IsMove :
      (rec : ReceiveIntentRecord) (m : Merchant)
      → Moves (view m key) (some rec.state)
      → IsMove m (persist_receive_intents disk (put_intent key rec m))
  unfolding IsMove persist_receive_intents put_intent view
  put_intent-IsMove rec m mv = (
    rw (lookup-insert key key rec m.receive_intents, str_eq_refl key) mv,
    λ ref other. rw (lookup-insert ref key rec m.receive_intents, str_eq-ne key ref other) refl,
  )

  begin_receive_intent-IsMove :
      (a : Attempt) (now : ℕ) (m : Merchant) → IsMove m (begin_receive_intent disk key a now m).1
  unfolding begin_receive_intent view new_intent
  begin_receive_intent-IsMove a now m = elim (Bool-cases (is_empty key)) [
    | inl unnamed ↦ rw (unnamed, begin_receive_intent) (IsMove-same m)
    | inr named ↦ elim (Option-cases (lookup key m.receive_intents)) [
      | inl fresh ↦
          rw (named, fresh, begin_receive_intent)
            (put_intent-IsMove (new_intent a now) m (rw fresh starts))
      | inr (prior, known) ↦ elim (Bool-cases (is_abandoned_state prior.state)) [
        | inl back ↦
            rw (named, known, back, begin_receive_intent)
              (put_intent-IsMove
                (record prior { state = pending; created_at = now; resolved_at = none }) m
                (rw (known, is_abandoned-eq prior.state back) starts_anew))
        | inr kept ↦ rw (named, known, kept, begin_receive_intent) (IsMove-same m)
      ]
    ]
  ]

  resolve_receive_intent-IsMove :
      (state : IntentState) (now : ℕ) (m : Merchant)
      → IsMove m (resolve_receive_intent disk key state now m)
  unfolding resolve_receive_intent view
  resolve_receive_intent-IsMove state now m = elim (Bool-cases (is_empty key)) [
    | inl unnamed ↦ rw (unnamed, resolve_receive_intent) (IsMove-same m)
    | inr named ↦ elim (Option-cases (lookup key m.receive_intents)) [
      | inl fresh ↦ rw (named, fresh, resolve_receive_intent) (IsMove-same m)
      | inr (rec, known) ↦ elim (Bool-cases (is_pending_state rec.state)) [
        | inl waiting ↦
            rw (named, known, waiting, resolve_receive_intent)
              (put_intent-IsMove (record rec { state = state; resolved_at = some now }) m
                (rw (known, is_pending-eq rec.state waiting) (settles state)))
        | inr over ↦ rw (named, known, over, resolve_receive_intent) (IsMove-same m)
      ]
    ]
  ]

  IsMove-intents :
      (m m' m'' : Merchant) → m''.receive_intents ≡ m'.receive_intents → IsMove m m' → IsMove m m''
  unfolding IsMove view
  IsMove-intents m m' m'' e (mv, others) = (rw e mv, λ ref other. rw e (others ref other))

  owe-IsMove :
      (rec : ReceiveIntentRecord) (now : ℕ) (p : Priced) (m : Merchant)
      → IsMove m (owe disk key rec now p m)
  unfolding owe
  owe-IsMove rec now (allotted allotment) m =
      let m' = resolve_receive_intent disk key owed now m in
      IsMove-intents m m' (owe disk key rec now (allotted allotment) m)
        (record_owed_grant-intents disk key rec.mac_address rec.mint_url rec.amount_sats allotment
          now m').0
        (resolve_receive_intent-IsMove owed now m)
  owe-IsMove rec now Priced.mint_not_configured m = IsMove-same m
  owe-IsMove rec now Priced.zero_price m = IsMove-same m
  owe-IsMove rec now Priced.unsupported_metric m = IsMove-same m
  owe-IsMove rec now (Priced.below_minimum steps) m = IsMove-same m

  act_on_evidence-IsMove :
      (normalize : Str → Str) (rec : ReceiveIntentRecord) (now : ℕ) (answer : Option Bool)
      (m : Merchant)
      → IsMove m (act_on_evidence disk normalize key rec now answer m)
  unfolding act_on_evidence
  act_on_evidence-IsMove normalize rec now none m = IsMove-same m
  act_on_evidence-IsMove normalize rec now (some true) m =
      owe-IsMove rec now (calculate_allotment normalize m.config rec.amount_sats rec.mint_url) m
  act_on_evidence-IsMove normalize rec now (some false) m =
      resolve_receive_intent-IsMove abandoned now m

module _ (disk : ℕ → Bool) (normalize : Str → Str) (spent : Str → Option Bool)
    (between : Merchant → Merchant) (key : Str) (now : ℕ) (m : Merchant) where
  -- A reconciliation changes nothing, or acts after what happened while the mint was asked.
  reconcile_receive_intent-Run :
      Run (view m) (view (between m))
      → Run (view m) (view (reconcile_receive_intent disk normalize spent between key now m))
  unfolding reconcile_receive_intent IsMove
  reconcile_receive_intent-Run meanwhile = elim (Option-cases (lookup key m.receive_intents)) [
    | inl fresh ↦ rw (fresh, reconcile_receive_intent) (starts_with (view m))
    | inr (rec, known) ↦
        elim (Bool-cases (not (is_pending_state rec.state) || is_empty rec.token_serialized)) [
          | inl over ↦ rw (known, reconcile_receive_intent, over) (starts_with (view m))
          | inr waiting ↦
              rw (known, reconcile_receive_intent, waiting)
                (goes_on meanwhile (
                  key,
                  act_on_evidence-IsMove disk key normalize rec now (spent rec.token_serialized)
                      (between m),
                ))
        ]
  ]

Run-append : {j j1 j2 : Journal} → Run j j1 → Run j1 j2 → Run j j2
Run-append first (starts_with j) = first
Run-append first (goes_on before last) = goes_on (Run-append first before) last

module _ (disk : ℕ → Bool) (normalize : Str → Str) where
  -- The journal implements the abstract machine: whatever purchases, resolutions and reconciliations
  -- happen, in any order, also while a mint is asked, whatever each mint says and whether or not the
  -- writes succeed, the journal goes through moves of one note each, and only as a purchase goes on.
  -- A note starts, is settled once, and starts again only where it was abandoned.
  pub Steps-Run : {m m' : Merchant} → Steps disk normalize m m' → Run (view m) (view m')
  unfolding IsMove
  Steps-Run (done m) = starts_with (view m)
  Steps-Run (begins {m1 = m1} key a now before) =
      goes_on (Steps-Run before) (key, begin_receive_intent-IsMove disk key a now m1)
  Steps-Run (resolves {m1 = m1} key state now before) =
      goes_on (Steps-Run before) (key, resolve_receive_intent-IsMove disk key state now m1)
  Steps-Run (reconciles_with {m1 = m1} spent between key now before meanwhile) =
      Run-append (Steps-Run before)
        (reconcile_receive_intent-Run disk normalize spent between key now m1 (Steps-Run meanwhile))
