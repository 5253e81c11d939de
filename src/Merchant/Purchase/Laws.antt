-- ===== src/Merchant/Purchase/Laws.antt =====
-- What a purchase guarantees (src/merchant/merchant.go).
pub mod Known
use tollgate_module_basic_go.Prelude.{
  ℕ, zero, suc, ◌+◌, ◌≡◌, refl, ◌≢◌, ◌⊎◌, Bool, true, false, not, ◌&&◌, ◌||◌, Option, none, some,
  List, [], ◌∷◌, Str, arith, Bool-cases, Option-cases, inl, inr, eq_iff, str_eq, str_eq_refl,
  str_mem, if◌then◌else◌, ◌∙◌, ap, sym,
}
use tollgate_module_basic_go.Dict.{lookup, insert, lookup-insert}
use tollgate_module_basic_go.Mac.{normalize_mac_address, validate_mac_address}
use tollgate_module_basic_go.Valve.State.{Valve}
use tollgate_module_basic_go.Valve.Ndsctl.{Ndsctl}
use tollgate_module_basic_go.Merchant.State.{
  Config, IntentState, pending, granted, owed, abandoned, CustomerSession, ReceiveIntentRecord,
  Merchant,
}
use tollgate_module_basic_go.Merchant.Pricing.{Priced, allotted, calculate_allotment}
use tollgate_module_basic_go.Merchant.Session.{is_empty}
use tollgate_module_basic_go.Merchant.Access.{Grant, refused, grant_session_access}
use tollgate_module_basic_go.Merchant.Access.Laws.{
  grant_session_access-session, grant_session_access-keeps,
}
use tollgate_module_basic_go.Merchant.OwedGrant.{record_owed_grant, new_owed}
use tollgate_module_basic_go.Merchant.OwedGrant.Laws.{
  record_owed_grant-owed, record_owed_grant-intents,
}
use tollgate_module_basic_go.Merchant.Intent.{
  is_pending_state, is_abandoned_state, Attempt, begin_receive_intent, resolve_receive_intent,
  reconcile_receive_intent, persist_receive_intents, put_intent,
}
use tollgate_module_basic_go.Merchant.Intent.Laws.{
  resolve_receive_intent-lookup, resolve_receive_intent-keeps, reconcile_receive_intent-unspent,
  reconcile_receive_intent-quiet,
}
use tollgate_module_basic_go.Merchant.Intent.Machine.{IsSettledIntent}
use tollgate_module_basic_go.Merchant.Receive.{
  Token, ReceiveResult, taken, failed, Wallet, receive_reference, begin_receive, end_receive,
}
use tollgate_module_basic_go.Merchant.Purchase.{
  Notice, duplicate_inflight, outcome_unknown, grant_pending, Answer, notice, served,
  settle_failure, settle_purchase, sell, after_receive, answer_prior, submit, journal, attempt_of,
  purchase_note, purchase_token, purchase_session, may_buy, when_sent,
}

module _ (n : Ndsctl) (disk : ℕ → Bool) (w : Wallet) (mac : Str) (token : Token) where
  begin_receive-taken :
      (ref : Str) (m : Merchant)
      → is_empty ref ≡ false
      → str_mem ref m.receive_in_flight ≡ true
      → begin_receive ref m ≡ (false, m)
  unfolding begin_receive
  begin_receive-taken ref m key busy = rw (key, busy) refl

  begin_receive-marks :
      (ref : Str) (m : Merchant)
      → is_empty ref ≡ false
      → str_mem ref m.receive_in_flight ≡ false
      → begin_receive ref m ≡ (true, record m { receive_in_flight = ref ∷ m.receive_in_flight })
  unfolding begin_receive
  begin_receive-marks ref m key free = rw (key, free) refl

  journal-in_flight :
      (ref : Str) (now : ℕ) (text : Option Str) (m : Merchant)
      → (journal disk ref mac token now text m).1.receive_in_flight ≡ m.receive_in_flight
  unfolding journal begin_receive_intent persist_receive_intents put_intent
  journal-in_flight ref now none m = refl
  journal-in_flight ref now (some text) m = ground arith

  -- A note whose reference is marked is refused before anything is asked of the mint, and nothing
  -- changes.
  purchase_note-taken :
      (between : Merchant → Merchant) (now : ℕ) (m : Merchant)
      → is_empty (receive_reference w token) ≡ false
      → str_mem (receive_reference w token) m.receive_in_flight ≡ true
      → purchase_note n disk w between mac token now m ≡ (notice duplicate_inflight, m)
  unfolding purchase_note
  purchase_note-taken between now m key busy =
      rw (begin_receive-taken (receive_reference w token) m key busy, purchase_note) refl

  -- The purchase of a note that is not marked, from its entry in the journal on.
  marked : Merchant → Merchant
  marked m = record m { receive_in_flight = receive_reference w token ∷ m.receive_in_flight }

  purchase_note-first :
      (between : Merchant → Merchant) (now : ℕ) (m : Merchant)
      → is_empty (receive_reference w token) ≡ false
      → str_mem (receive_reference w token) m.receive_in_flight ≡ false
      → let (prior, m2) =
          journal disk (receive_reference w token) mac token now token.serialized (marked m) in
        purchase_note n disk w between mac token now m
        ≡ submit n disk w between (receive_reference w token) mac token now prior m2
  unfolding purchase_note marked
  purchase_note-first between now m key free =
      rw (begin_receive-marks (receive_reference w token) m key free, purchase_note) refl

  marked-busy :
      (now : ℕ) (m : Merchant)
      → str_mem
          (receive_reference w token)
          (journal disk
            (receive_reference w token)
            mac
            token
            now
            token.serialized
            (marked m)).1.receive_in_flight
        ≡ true
  unfolding marked str_mem
  marked-busy now m =
      rw (journal-in_flight (receive_reference w token) now token.serialized (marked m))
        (ground (arith, str_eq_refl (receive_reference w token)))

  submit-quiet :
      (between : Merchant → Merchant) (now : ℕ) (prior : Option (ReceiveIntentRecord × Bool))
      (m : Merchant)
      → between m ≡ m
      → submit n disk w between (receive_reference w token) mac token now prior m
        ≡ submit n disk w (λ x. x) (receive_reference w token) mac token now prior m
  unfolding submit answer_prior
  submit-quiet between now none m quiet = rw quiet refl
  submit-quiet between now (some (prior, true)) m quiet = refl
  submit-quiet between now (some (prior, false)) m quiet =
      rw
        (reconcile_receive_intent-quiet disk w.normalize w.spent between (receive_reference w token)
          now m quiet)
        refl

module _ (n : Ndsctl) (disk : ℕ → Bool) (w : Wallet) (mac : Str) (token : Token) where
  when_sent-marked :
      (now : ℕ) (m : Merchant)
      → is_empty (receive_reference w token) ≡ false
      → str_mem (receive_reference w token) m.receive_in_flight ≡ false
      → when_sent disk w mac token now m
        ≡ (journal disk
            (receive_reference w token)
            mac
            token
            now
            token.serialized
            (marked n disk w mac token m)).1
  unfolding when_sent marked journal
  when_sent-marked now m key free =
      rw (begin_receive-marks n disk w mac token (receive_reference w token) m key free, when_sent)
        refl

module _ (n : Ndsctl) (disk : ℕ → Bool) (w w' : Wallet) (token : Token) where
  -- Two purchases with the same note at the same time are one: let a second purchase of a note be
  -- made while the mint is asked about the first, from this address or another. The second is told
  -- that the note is being handled and changes nothing, whatever its mint would have said or the
  -- other goroutines would have done had the mint been asked; and the first ends as if it were
  -- alone, in its answer and in the whole state. The note has a reference, the same for both.
  pub purchase_note-once :
      (between : Merchant → Merchant) (mac rival : Str) (now later : ℕ) (m : Merchant)
      → is_empty (receive_reference w token) ≡ false
      → receive_reference w' token ≡ receive_reference w token
      → str_mem (receive_reference w token) m.receive_in_flight ≡ false
      → let sent = when_sent disk w mac token now m in
        (purchase_note n disk w' between rival token later sent ≡ (notice duplicate_inflight, sent))
        × (purchase_note n disk w
              (λ x. (purchase_note n disk w' between rival token later x).1)
              mac
              token
              now
              m
            ≡ purchase_note n disk w (λ x. x) mac token now m)
  purchase_note-once between mac rival now later m key same free =
      let ref = receive_reference w token in
      let second = λ (x : Merchant). (purchase_note n disk w' between rival token later x).1 in
      let (prior, m2) =
        journal disk ref mac token now token.serialized (marked n disk w mac token m) in
      let refused =
        purchase_note-taken n disk w' rival token between later m2 (rw same key)
          (rw same (marked-busy n disk w mac token now m)) in
      (
        rw (when_sent-marked n disk w mac token now m key free) refused,
        purchase_note-first n disk w mac token second now m key free
            ∙ submit-quiet n disk w mac token second now prior m2 (ap (λ r. r.1) refused)
            ∙ sym (purchase_note-first n disk w mac token (λ x. x) now m key free),
      )
