-- ===== src/Merchant/Purchase/Laws/Known.antt =====
-- A note that comes back (src/merchant/merchant.go).
use tollgate_module_basic_go.Prelude.{
  ℕ, ◌≡◌, refl, Bool, true, false, not, some, Str, arith, str_eq_refl, str_mem, ◌∙◌, ap,
}
use tollgate_module_basic_go.Dict.{lookup}
use tollgate_module_basic_go.Valve.Ndsctl.{Ndsctl}
use tollgate_module_basic_go.Merchant.State.{abandoned, ReceiveIntentRecord, Merchant}
use tollgate_module_basic_go.Merchant.Session.{is_empty}
use tollgate_module_basic_go.Merchant.Intent.{
  is_pending_state, is_abandoned_state, begin_receive_intent,
}
use tollgate_module_basic_go.Merchant.Intent.Laws.{reconcile_receive_intent-unspent}
use tollgate_module_basic_go.Merchant.Intent.Machine.{IsSettledIntent}
use tollgate_module_basic_go.Merchant.Receive.{Token, Wallet, receive_reference}
use tollgate_module_basic_go.Merchant.Purchase.{
  duplicate_inflight, grant_pending, notice, answer_prior, pending_at, submit, journal,
  purchase_note,
}
use tollgate_module_basic_go.Merchant.Purchase.Laws.{
  marked, purchase_note-first, purchase_note-taken,
}

module _ (n : Ndsctl) (disk : ℕ → Bool) (w : Wallet) (mac : Str) (token : Token) where
  journal-known :
      (ref text : Str) (now : ℕ) (m : Merchant) {rec : ReceiveIntentRecord}
      → is_empty ref ≡ false
      → lookup ref m.receive_intents ≡ some rec
      → is_abandoned_state rec.state ≡ false
      → journal disk ref mac token now (some text) m
        ≡ (some (rec, not (is_pending_state rec.state)), m)
  unfolding journal begin_receive_intent
  journal-known ref text now m key e kept = rw (key, e, journal, begin_receive_intent, kept) refl

  returns :
      (between : Merchant → Merchant) (text : Str) (now : ℕ) (m : Merchant)
      {rec : ReceiveIntentRecord}
      → token.serialized ≡ some text
      → is_empty (receive_reference w token) ≡ false
      → str_mem (receive_reference w token) m.receive_in_flight ≡ false
      → lookup (receive_reference w token) m.receive_intents ≡ some rec
      → is_abandoned_state rec.state ≡ false
      → purchase_note n disk w between mac token now m
        ≡ answer_prior disk w between
            (receive_reference w token)
            (not (is_pending_state rec.state))
            now
            (marked n disk w mac token m)
  unfolding submit marked
  returns between text now m {rec} e key free known kept =
      let ref = receive_reference w token in
      rw
        (ap (λ t. journal disk ref mac token now t (marked n disk w mac token m)) e
          ∙ journal-known ref text now (marked n disk w mac token m) key known kept)
        at (purchase_note-first n disk w mac token between now m key free)

  -- The mark that a purchase sets for a note that the journal knows.
  marked-again :
      (m : Merchant)
      → str_mem (receive_reference w token) (marked n disk w mac token m).receive_in_flight ≡ true
  unfolding marked str_mem
  marked-again m = ground (arith, str_eq_refl (receive_reference w token))

-- A settled note is never sent again, but stays marked: a purchase of a note whose intent is granted
-- or owed asks the mint nothing, is told that the grant is pending, and changes no session, no debt,
-- no intent and no gate. The in-flight mark that it set is not given up, so that every later
-- purchase of the note, from any address, is refused as a duplicate in flight.
pub purchase_note-settled :
    (n : Ndsctl) (disk : ℕ → Bool) (w : Wallet) (token : Token)
    (between between' : Merchant → Merchant) (mac mac' text : Str) (now later : ℕ) (m : Merchant)
    (rec : ReceiveIntentRecord)
    → token.serialized ≡ some text
    → is_empty (receive_reference w token) ≡ false
    → str_mem (receive_reference w token) m.receive_in_flight ≡ false
    → IsSettledIntent (receive_reference w token) rec m
    → let (answer, m1) = purchase_note n disk w between mac token now m in
      (answer ≡ notice grant_pending)
      × (m1.customer_sessions ≡ m.customer_sessions)
      × (m1.owed_grants ≡ m.owed_grants)
      × (m1.receive_intents ≡ m.receive_intents)
      × (m1.valve ≡ m.valve)
      × (purchase_note n disk w between' mac' token later m1 ≡ (notice duplicate_inflight, m1))
unfolding answer_prior marked
purchase_note-settled n disk w token between between' mac mac' text now later m rec e key free
      (known, over, kept) =
    rw (returns n disk w mac token between text now m e key free known kept, over, answer_prior)
      (
        refl,
        refl,
        refl,
        refl,
        refl,
        purchase_note-taken n disk w mac' token between' later (marked n disk w mac token m) key
            (marked-again n disk w mac token m),
      )

-- A note that the mint has not taken, answered as taken: a purchase of a note whose intent is still
-- pending asks the mint, and when no other goroutine is at the journal meanwhile and the mint says that the note is unspent, the intent is abandoned
-- and nothing is granted or owed, but the customer is told that the note was received and that the
-- grant is pending.
pub purchase_note-unspent :
    (n : Ndsctl) (disk : ℕ → Bool) (w : Wallet) (token : Token) (mac text : Str) (now : ℕ)
    (m : Merchant) (rec : ReceiveIntentRecord)
    → token.serialized ≡ some text
    → is_empty (receive_reference w token) ≡ false
    → str_mem (receive_reference w token) m.receive_in_flight ≡ false
    → lookup (receive_reference w token) m.receive_intents ≡ some rec
    → is_pending_state rec.state ≡ true
    → is_abandoned_state rec.state ≡ false
    → is_empty rec.token_serialized ≡ false
    → w.spent rec.token_serialized ≡ some false
    → let (answer, m1) = purchase_note n disk w (λ x. x) mac token now m in
      (answer ≡ notice grant_pending)
      × (lookup (receive_reference w token) m1.receive_intents
          ≡ some (record rec { state = abandoned; resolved_at = some now }))
      × (m1.owed_grants ≡ m.owed_grants)
      × (m1.customer_sessions ≡ m.customer_sessions)
      × (m1.valve ≡ m.valve)
unfolding answer_prior pending_at marked
purchase_note-unspent n disk w token mac text now m rec e key free known waiting kept has_token
      unspent =
    let ref = receive_reference w token in
    let decided = rw unspent at (
      reconcile_receive_intent-unspent disk w.normalize w.spent (λ x. x) ref rec now
        (marked n disk w mac token m) key known waiting has_token (λ s. absurd (cc (unspent, s)))
        known) in
    rw
      (
        returns n disk w mac token (λ x. x) text now m e key free known kept,
        waiting,
        answer_prior,
        decided.0,
      )
      (refl, decided.0, decided.1, decided.2, decided.3)
