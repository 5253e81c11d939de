-- ===== src/Merchant/Purchase/Outcome.antt =====
-- What a purchase is answered by, and what it leaves behind (src/merchant/merchant.go).
use tollgate_module_basic_go.Prelude.{
  ℕ, ◌≡◌, refl, ◌≢◌, Bool, true, false, Option, none, some, Str, arith, Bool-cases, inl, inr, ap,
}
use tollgate_module_basic_go.Dict.{lookup}
use tollgate_module_basic_go.Mac.{
  normalize_mac_address, normalize_mac_address_idem, validate_mac_address,
}
use tollgate_module_basic_go.Valve.Ndsctl.{Ndsctl}
use tollgate_module_basic_go.Merchant.State.{
  IntentState, CustomerSession, ReceiveIntentRecord, Merchant,
}
use tollgate_module_basic_go.Merchant.Pricing.{Priced, allotted, calculate_allotment}
use tollgate_module_basic_go.Merchant.Access.{Grant, refused, grant_session_access}
use tollgate_module_basic_go.Merchant.Access.Laws.{grant_session_access-session}
use tollgate_module_basic_go.Merchant.Intent.Laws.{resolve_receive_intent-keeps}
use tollgate_module_basic_go.Merchant.Purchase.Errors.{ReceiveError}
use tollgate_module_basic_go.Merchant.Receive.{
  Token, ReceiveResult, taken, failed, Wallet, receive_reference, begin_receive, end_receive,
}
use tollgate_module_basic_go.Merchant.Purchase.{
  served, settle_failure, settle_purchase, sell, after_receive, answer_prior, submit, journal,
  purchase_note, purchase_token, purchase_session, may_buy, when_sent, fee_takes_all,
}

-- The mint took this note, the configuration in `m` prices the amount, and `s` is the session that
-- granting this very allotment in `m` gives.
abbrev pub IsPaid : Ndsctl → Wallet → Token → Str → ℕ → Merchant → CustomerSession → Type 0
IsPaid n w token mac now m s =
    (amount : ℕ) × (allotment : ℕ) × (w.receive token ≡ some (taken amount))
    × (calculate_allotment w.normalize m.config amount token.mint ≡ allotted allotment)
    × ((grant_session_access n mac allotment now m).0 ≡ Grant.granted s)

-- The state in which the note is sold: what the other goroutines made, while the mint was asked, of
-- the state in which it was sent, with the mark taken away.
pub when_sold :
    Ndsctl → (ℕ → Bool) → Wallet → (Merchant → Merchant) → Str → Token → ℕ → Merchant → Merchant
when_sold n disk w between mac token now m =
    end_receive (receive_reference w token)
      (between (when_sent disk w mac token now (may_buy n mac now m).1))

module _ (n : Ndsctl) (disk : ℕ → Bool) (ref mac : Str) (now : ℕ) where
  settle_purchase-served :
      (mint_url : Str) (amount allotment : ℕ) (g : Grant) (m : Merchant) {s : CustomerSession}
      → (settle_purchase disk ref mac mint_url amount allotment now g m).0 ≡ served s
      → (g ≡ Grant.granted s)
        × ((settle_purchase disk ref mac mint_url amount allotment now g m).1.customer_sessions
            ≡ m.customer_sessions)
  unfolding settle_purchase
  settle_purchase-served mint_url amount allotment (Grant.granted r) m h =
      (ap Grant.granted (cc h), (resolve_receive_intent-keeps disk ref IntentState.granted now m).3)
  settle_purchase-served mint_url amount allotment (refused e) m h = absurd (cc)

  sell-served :
      (mint_url : Str) (amount : ℕ) (p : Priced) (m : Merchant) {s : CustomerSession}
      → (sell n disk ref mac mint_url amount now p m).0 ≡ served s
      → ((allotment : ℕ) × (p ≡ allotted allotment)
          × ((grant_session_access n mac allotment now m).0 ≡ Grant.granted s))
        × (lookup
              (normalize_mac_address mac)
              (sell n disk ref mac mint_url amount now p m).1.customer_sessions
            ≡ some s)
  unfolding sell
  sell-served mint_url amount (allotted allotment) m h =
      let (g, m1) = grant_session_access n mac allotment now m in
      let end = settle_purchase-served mint_url amount allotment g m1 h in
      (
        (allotment, refl, end.0),
        rw end.1 (grant_session_access-session n mac allotment now m end.0),
      )
  sell-served mint_url amount Priced.mint_not_configured m h = absurd (cc)
  sell-served mint_url amount Priced.zero_price m h = absurd (cc)
  sell-served mint_url amount Priced.unsupported_metric m h = absurd (cc)
  sell-served mint_url amount (Priced.below_minimum steps) m h = absurd (cc)

  settle_failure-served :
      (mint_url : Str) (e : ReceiveError) (m : Merchant) {s : CustomerSession}
      → (settle_failure disk ref mint_url now e m).0 ≢ served s
  unfolding settle_failure
  settle_failure-served mint_url e m h = absurd (ground arith)

module _ (n : Ndsctl) (disk : ℕ → Bool) (w : Wallet) (mac : Str) (now : ℕ) where
  after_receive-served :
      (ref : Str) (token : Token) (answer : Option ReceiveResult) (m : Merchant)
      {s : CustomerSession}
      → w.receive token ≡ answer
      → (after_receive n disk w ref mac token now answer m).0 ≡ served s
      → IsPaid n w token mac now (end_receive ref m) s
        × (lookup
              (normalize_mac_address mac)
              (after_receive n disk w ref mac token now answer m).1.customer_sessions
            ≡ some s)
  unfolding after_receive
  after_receive-served ref token none m r h = absurd (cc)
  after_receive-served ref token (some (failed e)) m r h =
      absurd (settle_failure-served n disk ref mac now token.mint e (end_receive ref m) h)
  after_receive-served ref token (some (taken amount)) m r h =
      let m1 = end_receive ref m in
      let sold =
        sell-served n disk ref mac now token.mint amount
          (calculate_allotment w.normalize m1.config amount token.mint) m1 h in
      ((amount, sold.0.0, r, sold.0.1, sold.0.2), sold.1)

  submit-served :
      (between : Merchant → Merchant) (ref : Str) (token : Token)
      (prior : Option (ReceiveIntentRecord × Bool)) (m : Merchant) {s : CustomerSession}
      → (submit n disk w between ref mac token now prior m).0 ≡ served s
      → IsPaid n w token mac now (end_receive ref (between m)) s
        × (lookup
              (normalize_mac_address mac)
              (submit n disk w between ref mac token now prior m).1.customer_sessions
            ≡ some s)
  unfolding submit answer_prior
  submit-served between ref token none m h =
      after_receive-served ref token (w.receive token) (between m) refl h
  submit-served between ref token (some (prior, true)) m h = absurd (cc)
  submit-served between ref token (some (prior, false)) m h = absurd (ground arith)

  purchase_token-served :
      (between : Merchant → Merchant) (t : Option Token) (m : Merchant) {s : CustomerSession}
      → (purchase_token n disk w between mac now t m).0 ≡ served s
      → ((token : Token) × (t ≡ some token)
          × IsPaid n w token mac now (when_sold n disk w between mac token now m) s)
        × (lookup
              (normalize_mac_address mac)
              (purchase_token n disk w between mac now t m).1.customer_sessions
            ≡ some s)
  unfolding purchase_token purchase_note when_sent when_sold
  purchase_token-served between none m h = absurd (cc)
  purchase_token-served between (some token) m h =
      elim (Bool-cases (fee_takes_all (w.swap_fee token) token.amount)) [
        | inl eaten ↦ absurd (ground arith)
        | inr left ↦ elim (Bool-cases (may_buy n mac now m).0) [
          | inr unknown ↦ absurd (ground arith)
          | inl known ↦
              let ref = receive_reference w token in
              let m1 = (may_buy n mac now m).1 in
              elim (Bool-cases (begin_receive ref m1).0) [
                | inr busy ↦ absurd (ground arith)
                | inl first ↦
                    let m2 = (begin_receive ref m1).1 in
                    let (prior, m3) = journal disk ref mac token now token.serialized m2 in
                    let done = submit-served between ref token prior m3 (ground arith) in
                    ((token, refl, done.0), rw (left, known, first) done.1)
              ]
        ]
      ]

-- Nobody gets access without paying: when `PurchaseSession` answers with a session, the note was
-- decoded, the mint took it, the amount that the mint gave for it was priced, by the configuration in
-- the state in which the note was sold, at some allotment, the session is the one that granting just
-- this allotment in that state gives, and it is the one that the table holds for the customer
-- afterwards. The other goroutines may do anything while the mint is asked; none of them is at the
-- sessions while access is granted.
pub purchase_session-served :
    (n : Ndsctl) (disk : ℕ → Bool) (w : Wallet) (between : Merchant → Merchant)
    (cashu_token mac_address : Str) (now : ℕ) (m : Merchant) {s : CustomerSession}
    → (purchase_session n disk w between cashu_token mac_address now m).0 ≡ served s
    → let mac = normalize_mac_address mac_address in
      ((token : Token) × (w.decode cashu_token ≡ some token)
        × IsPaid n w token mac now (when_sold n disk w between mac token now m) s)
      × (lookup mac
            (purchase_session n disk w between cashu_token mac_address now m).1.customer_sessions
          ≡ some s)
unfolding purchase_session
purchase_session-served n disk w between cashu_token mac_address now m {s} h =
    let mac = normalize_mac_address mac_address in
    elim (Bool-cases (validate_mac_address mac)) [
      | inr bad ↦ absurd (ground arith)
      | inl good ↦
          let done =
            purchase_token-served n disk w mac now between (w.decode cashu_token) m {s = s}
              (ground arith) in
          (done.0, rw good (rw normalize_mac_address_idem at done.1))
    ]
