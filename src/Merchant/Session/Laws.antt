-- ===== src/Merchant/Session/Laws.antt =====
-- What a lookup, a renewal and a retirement do to the session table (src/merchant/merchant.go).
use tollgate_module_basic_go.Prelude.{
  ℕ, ◌+◌, ◌%◌, ◌⊎◌, ◌≤◌, ◌≡◌, refl, ◌≢◌, true, false, none, some, [], ◌∷◌, Str, arith, Option-cases,
  Bool-cases, inl, inr, eq_iff, str_eq_refl, ◌∙◌,
}
use tollgate_module_basic_go.Prelude.Words.{unix, at_unix, u64_mod}
use tollgate_module_basic_go.Dict.{Dict, lookup, insert, lookup-insert, lookup-erase}
use tollgate_module_basic_go.Mac.{normalize_mac_address, normalize_mac_address_idem}
use tollgate_module_basic_go.Merchant.State.{Metric, CustomerSession, Merchant}
use tollgate_module_basic_go.Merchant.Session.{
  SessionState, session_history_ttl, session_has_expired, drop_before, is_empty, cap_history,
  remember_expired_session, session_known_to_have_expired, expire_session, get_session,
  get_session_state, add_allotment, new_session, extended, put_session, snapshot_session,
  restore_session,
}

module _ (mac : Str) where
  drop_before-keeps :
      (cutoff when : ℕ) (m : Dict ℕ)
      → lookup mac m ≡ some when
      → cutoff ≤ when
      → lookup mac (drop_before cutoff m) ≡ some when
  unfolding drop_before lookup
  drop_before-keeps cutoff when [] h le = cc
  drop_before-keeps cutoff when ((j, w) ∷ m) h le = ground (arith, drop_before-keeps cutoff when m)

  -- The cap never drops the entry that was just written.
  cap_history-keeps : (now : ℕ) (m : Dict ℕ) → lookup mac (cap_history mac now m) ≡ lookup mac m
  unfolding cap_history
  cap_history-keeps now m = grind (arith, lookup-erase)

  remember_expired_session-lookup :
      (now : ℕ) (m : Dict ℕ) → lookup mac (remember_expired_session mac now m) ≡ some (unix now)
  unfolding remember_expired_session
  remember_expired_session-lookup now m =
      rw
        (cap_history-keeps now (
          drop_before (unix (Prim.Native.Nat.◌-◌ now session_history_ttl))
            (insert mac (unix now) m)))
        (drop_before-keeps _ (unix now) (insert mac (unix now) m)
          (rw (lookup-insert mac mac (unix now) m, str_eq_refl mac)) (omega arith))

-- The session of every other address is as it was.
abbrev pub Untouched : Str → Merchant → Merchant → Type 0
Untouched mac m m' =
    (j : Str) → mac ≢ j → lookup j m'.customer_sessions ≡ lookup j m.customer_sessions

expire_session-lookup :
    (mac : Str) (now : ℕ) (m : Merchant)
    → (lookup mac (expire_session mac now m).customer_sessions ≡ none)
      × (lookup mac (expire_session mac now m).expired_sessions ≡ some (unix now))
      × Untouched mac m (expire_session mac now m)
unfolding expire_session
expire_session-lookup mac now m = (
  grind (arith, lookup-erase, str_eq_refl mac),
  remember_expired_session-lookup mac now m.expired_sessions,
  λ j ne. ground (arith, lookup-erase j mac m.customer_sessions, eq_iff mac j),
)

-- A spent milliseconds session is reported as expired and its record is retired, and every later
-- query within a day of that second answers "expired" again, as long as nothing was bought.
pub get_session_state_expired :
    (mac_address : Str) (now later : ℕ) (m : Merchant) (s : CustomerSession)
    → is_empty (normalize_mac_address mac_address) ≡ false
    → lookup (normalize_mac_address mac_address) m.customer_sessions ≡ some s
    → session_has_expired s now ≡ true
    → later ≤ at_unix (unix now) + session_history_ttl
    → let (state, m') = get_session_state mac_address now m in
      (state ≡ SessionState.expired)
      × (lookup (normalize_mac_address mac_address) m'.customer_sessions ≡ none)
      × ((get_session_state mac_address later m').0 ≡ SessionState.expired)
unfolding get_session_state get_session session_known_to_have_expired
get_session_state_expired mac_address now later m s key e spent soon =
    let mac = normalize_mac_address mac_address in
    let gone = expire_session-lookup mac now m in
    (
      ground (arith, gone, normalize_mac_address_idem mac_address),
      ground (arith, gone, normalize_mac_address_idem mac_address),
      ground (arith, gone, normalize_mac_address_idem mac_address),
    )

put_session-lookup :
    (mac : Str) (s : CustomerSession) (m : Merchant)
    → (lookup mac (put_session mac s m).1.customer_sessions ≡ some s)
      × Untouched mac m (put_session mac s m).1
unfolding put_session
put_session-lookup mac s m = (
  rw (lookup-insert mac mac s m.customer_sessions, str_eq_refl mac),
  λ j ne. ground (arith, lookup-insert j mac s m.customer_sessions, eq_iff mac j),
)

module _ (mac : Str) (metric : Metric) (amount now : ℕ) (m : Merchant) where
  fresh_start : (put_session mac (new_session mac metric amount now) m).0.start_time ≡ unix now
  unfolding put_session new_session
  fresh_start = refl

  fresh_lem :
      let r = (put_session mac (new_session mac metric amount now) m).0 in
      (r.allotment ≡ amount) × (r.metric ≡ metric) × (r.consumed ≡ 0) × (r.ticket_expires_at ≡ 0)
  unfolding put_session new_session
  fresh_lem = (refl, refl, refl, refl)

module _ (mac : Str) (s : CustomerSession) (amount now : ℕ) (m : Merchant) where
  extended_start : (put_session mac (extended s amount now) m).0.start_time ≡ unix now
  unfolding put_session extended
  extended_start = refl

  extended_lem :
      (put_session mac (extended s amount now) m).0
      ≡ record s { allotment = (s.allotment + amount) % u64_mod; start_time = unix now }
  unfolding put_session extended
  extended_lem = refl

pub add_allotment-extends :
    (mac_address : Str) (metric : Metric) (amount now : ℕ) (m : Merchant) {s : CustomerSession}
    → lookup (normalize_mac_address mac_address) m.customer_sessions ≡ some s
    → session_has_expired s now ≡ false
    → (add_allotment mac_address metric amount now m).0
      ≡ record s { allotment = (s.allotment + amount) % u64_mod; start_time = unix now }
unfolding add_allotment
add_allotment-extends mac_address metric amount now m {s} e live =
    rw (e, add_allotment, live) (extended_lem (normalize_mac_address mac_address) s amount now m)

-- What `AddAllotment` returns is what the table holds afterwards, and every other address keeps its
-- session. A live session is extended (modulo 2^64), with its meter and its ticket kept and its
-- start moved to now; otherwise exactly the amount is sold, with nothing consumed.
pub add_allotment_lem :
    (mac_address : Str) (metric : Metric) (amount now : ℕ) (m : Merchant)
    → let mac = normalize_mac_address mac_address in
      let (r, m') = add_allotment mac_address metric amount now m in
      (lookup mac m'.customer_sessions ≡ some r)
      × (r.start_time ≡ unix now)
      × Untouched mac m m'
      × (((s : CustomerSession) × (lookup mac m.customer_sessions ≡ some s)
            × (session_has_expired s now ≡ false)
            × (r
                ≡ record s { allotment = (s.allotment + amount) % u64_mod; start_time = unix now }))
          ⊎ ((r.allotment ≡ amount)
              × (r.metric ≡ metric)
              × (r.consumed ≡ 0)
              × (r.ticket_expires_at ≡ 0)))
unfolding add_allotment
add_allotment_lem mac_address metric amount now m =
    let mac = normalize_mac_address mac_address in
    let fresh = new_session mac metric amount now in
    elim (Option-cases (lookup mac m.customer_sessions)) [
      | inl e ↦
          let put = put_session-lookup mac fresh m in
          rw (e, add_allotment)
            (
              put.0,
              fresh_start mac metric amount now m,
              put.1,
              inr (fresh_lem mac metric amount now m),
            )
      | inr (s, e) ↦ elim (Bool-cases (session_has_expired s now)) [
        | inl spent ↦
            let gone = expire_session mac now m in
            let put = put_session-lookup mac fresh gone in
            rw (e, add_allotment, spent)
              (
                put.0,
                fresh_start mac metric amount now gone,
                λ j ne. put.1 j ne ∙ (expire_session-lookup mac now m).2 j ne,
                inr (fresh_lem mac metric amount now gone),
              )
        | inr live ↦
            let put = put_session-lookup mac (extended s amount now) m in
            rw (e, add_allotment, live)
              (
                put.0,
                extended_start mac s amount now m,
                put.1,
                inl (s, refl, live, extended_lem mac s amount now m),
              )
      ]
    ]

-- The journals and the configuration are as they were.
abbrev pub Frame : Merchant → Merchant → Type 0
Frame m m' =
    (m'.config ≡ m.config)
    × (m'.owed_grants ≡ m.owed_grants)
    × (m'.receive_intents ≡ m.receive_intents)
    × (m'.receive_in_flight ≡ m.receive_in_flight)
    × (m'.grant_file ≡ m.grant_file)
    × (m'.intent_file ≡ m.intent_file)
    × (m'.writes ≡ m.writes)
    × (m'.monitors ≡ m.monitors)

pub add_allotment-keeps :
    (mac : Str) (metric : Metric) (amount now : ℕ) (m : Merchant)
    → let m' = (add_allotment mac metric amount now m).1 in Frame m m' × (m'.valve ≡ m.valve)
unfolding add_allotment expire_session put_session
add_allotment-keeps mac metric amount now m = ground arith

-- Restoring the snapshot undoes a change to that one session.
pub restore_session-lookup :
    (mac : Str) (m m1 : Merchant)
    → Untouched (normalize_mac_address mac) m m1
    → (j : Str)
    → lookup j (restore_session mac (snapshot_session mac m) m1).customer_sessions
      ≡ lookup j m.customer_sessions
unfolding restore_session
restore_session-lookup mac m m1 other j =
    let k = normalize_mac_address mac in
    elim (Option-cases (lookup k m.customer_sessions)) [
      | inl e ↦
          rw (e, restore_session)
            (ground (arith, lookup-erase j k m1.customer_sessions, eq_iff k j, other j))
      | inr (s, e) ↦
          rw (e, restore_session)
            (ground (arith, lookup-insert j k s m1.customer_sessions, eq_iff k j, other j))
    ]

-- Restoring the snapshot puts that one session back, whatever was made of it.
pub restore_session-erases :
    (mac : Str) (m m1 : Merchant)
    → let m' = restore_session mac (snapshot_session mac m) m1 in
      (lookup (normalize_mac_address mac) m'.customer_sessions
        ≡ lookup (normalize_mac_address mac) m.customer_sessions)
      × Untouched (normalize_mac_address mac) m1 m'
unfolding restore_session
restore_session-erases mac m m1 =
    let k = normalize_mac_address mac in
    elim (Option-cases (lookup k m.customer_sessions)) [
      | inl e ↦
          rw (e, restore_session)
            (
              rw (lookup-erase k k m1.customer_sessions, str_eq_refl k) refl,
              λ j ne. ground (arith, lookup-erase j k m1.customer_sessions, eq_iff k j),
            )
      | inr (s, e) ↦
          rw (e, restore_session)
            (
              rw (lookup-insert k k s m1.customer_sessions, str_eq_refl k) refl,
              λ j ne. ground (arith, lookup-insert j k s m1.customer_sessions, eq_iff k j),
            )
    ]
