-- ===== src/Merchant/OwedGrant/Laws.antt =====
-- A debt is paid once, and is not forgotten before (src/merchant/owed_grant.go).
use tollgate_module_basic_go.Prelude.{
  ℕ, ◌+◌, ◌≡◌, refl, Bool, true, false, none, some, Str, arith, str_eq_refl, str_mem, if◌then◌else◌,
}
use tollgate_module_basic_go.Dict.{lookup, lookup-insert}
use tollgate_module_basic_go.Valve.Ndsctl.{Ndsctl}
use tollgate_module_basic_go.Merchant.State.{granted, OwedGrantRecord, Merchant}
use tollgate_module_basic_go.Merchant.Session.{is_empty}
use tollgate_module_basic_go.Merchant.Access.{Grant, refused, grant_session_access}
use tollgate_module_basic_go.Merchant.Access.Laws.{grant_session_access-keeps}
use tollgate_module_basic_go.Merchant.OwedGrant.{
  is_owed, put_owed, persist_owed_grants, expire_owed_grant, note_failure, note_granted,
  settle_owed, ensure_owed_grant_granted, record_owed_grant, new_owed,
}

module _ (n : Ndsctl) (disk : ℕ → Bool) (ref : Str) where
  -- A record that is not owed any more is never touched again: no attempt is made for it, whatever
  -- the time, and its expiry does nothing.
  pub terminal_stays :
      (between : Merchant → Merchant) (now : ℕ) (m : Merchant) {rec : OwedGrantRecord}
      → lookup ref m.owed_grants ≡ some rec
      → is_owed rec ≡ false
      → (ensure_owed_grant_granted n disk between ref now m ≡ (true, m))
        × (expire_owed_grant disk ref now m ≡ m)
  unfolding ensure_owed_grant_granted expire_owed_grant
  terminal_stays between now m e done =
      (rw (e, ensure_owed_grant_granted, done) refl, rw (e, expire_owed_grant, done) refl)

  settle_owed-lookup :
      (now : ℕ) (g : Grant) (m : Merchant) {rec : OwedGrantRecord}
      → lookup ref m.owed_grants ≡ some rec
      → is_owed rec ≡ true
      → let (ok, m') = settle_owed disk ref now g m in
        lookup ref m'.owed_grants
        ≡ some (
            if ok
            then record rec { state = granted; granted_at = some now; processing = false }
            else record rec { attempts = rec.attempts + 1; processing = false })
  unfolding settle_owed note_failure note_granted persist_owed_grants put_owed
  settle_owed-lookup now (Grant.granted s) m {rec} e due =
      rw (e, note_granted)
        (ground (
          arith,
          lookup-insert ref ref
              (record rec { state = granted; granted_at = some now; processing = false })
              m.owed_grants,
          str_eq_refl ref,
        ))
  settle_owed-lookup now (refused err) m {rec} e due =
      rw (e, note_failure, due)
        (ground (
          arith,
          lookup-insert ref ref (record rec { attempts = rec.attempts + 1; processing = false })
              m.owed_grants,
          str_eq_refl ref,
        ))

  claim-lookup :
      (rec : OwedGrantRecord) (now : ℕ) (m : Merchant)
      → lookup ref
          (grant_session_access n rec.mac_address rec.allotment now
            (put_owed ref (record rec { processing = true }) m)).1.owed_grants
        ≡ some (record rec { processing = true })
  unfolding put_owed
  claim-lookup rec now m =
      let claimed = put_owed ref (record rec { processing = true }) m in
      ground (
        arith,
        grant_session_access-keeps n rec.mac_address rec.allotment now claimed,
        lookup-insert ref ref (record rec { processing = true }) m.owed_grants,
        str_eq_refl ref,
      )

  -- The owed record after an attempt at it, with nothing else going on: granted at that time when
  -- the attempt reports success, and otherwise still owed, free for the next attempt, and counted.
  pub ensure_owed_grant_granted_lem :
      (now : ℕ) (m : Merchant) {rec : OwedGrantRecord}
      → lookup ref m.owed_grants ≡ some rec
      → is_owed rec ≡ true
      → rec.processing ≡ false
      → let (ok, m') = ensure_owed_grant_granted n disk (λ w. w) ref now m in
        lookup ref m'.owed_grants
        ≡ some (
            if ok
            then record rec { state = granted; granted_at = some now; processing = false }
            else record rec { attempts = rec.attempts + 1; processing = false })
  unfolding ensure_owed_grant_granted
  ensure_owed_grant_granted_lem now m {rec} e due free =
      let claimed = put_owed ref (record rec { processing = true }) m in
      let (g, m1) = grant_session_access n rec.mac_address rec.allotment now claimed in
      rw (e, ensure_owed_grant_granted, due, free)
        (settle_owed-lookup now g m1 (claim-lookup rec now m) due)

  taken :
      (between : Merchant → Merchant) (now : ℕ) (m : Merchant) {rec : OwedGrantRecord}
      → lookup ref m.owed_grants ≡ some rec
      → is_owed rec ≡ true
      → rec.processing ≡ true
      → ensure_owed_grant_granted n disk between ref now m ≡ (true, m)
  unfolding ensure_owed_grant_granted
  taken between now m e due busy = rw (e, ensure_owed_grant_granted, due, busy) refl

  put_owed-lookup :
      (rec : OwedGrantRecord) (m : Merchant)
      → lookup ref (put_owed ref rec m).owed_grants ≡ some rec
  unfolding put_owed
  put_owed-lookup rec m = rw (lookup-insert ref ref rec m.owed_grants, str_eq_refl ref) refl

  attempt :
      (between : Merchant → Merchant) (now : ℕ) (m : Merchant) {rec : OwedGrantRecord}
      → lookup ref m.owed_grants ≡ some rec
      → is_owed rec ≡ true
      → rec.processing ≡ false
      → let claimed = between (put_owed ref (record rec { processing = true }) m) in
        let (grant, m1) = grant_session_access n rec.mac_address rec.allotment now claimed in
        ensure_owed_grant_granted n disk between ref now m
        ≡ settle_owed disk ref now grant (between m1)
  unfolding ensure_owed_grant_granted
  attempt between now m e due free = rw (e, ensure_owed_grant_granted, due, free) refl

  -- Two attempts at the same debt grant it once: an attempt that starts while another one is being
  -- made for this reference finds it taken and changes nothing.
  pub ensure_owed_grant_granted-once :
      (between : Merchant → Merchant) (now later : ℕ) (m : Merchant) {rec : OwedGrantRecord}
      → lookup ref m.owed_grants ≡ some rec
      → is_owed rec ≡ true
      → rec.processing ≡ false
      → ensure_owed_grant_granted n disk
          (λ w. (ensure_owed_grant_granted n disk between ref later w).1)
          ref
          now
          m
        ≡ ensure_owed_grant_granted n disk (λ w. w) ref now m
  ensure_owed_grant_granted-once between now later m {rec} e due free =
      let busy = record rec { processing = true } in
      let m1 = (grant_session_access n rec.mac_address rec.allotment now (put_owed ref busy m)).1 in
      rw
        (
          attempt (λ w. (ensure_owed_grant_granted n disk between ref later w).1) now m e due free,
          attempt (λ w. w) now m e due free,
          taken between later (put_owed ref busy m) (put_owed-lookup busy m) due refl,
          taken between later m1 (claim-lookup rec now m) due refl,
        )
        refl

-- A debt that is recorded under a reference is owed from then on, if it was not owed before: for the
-- allotment that was paid, with nobody at work on it yet and a monitor.
pub record_owed_grant-owed :
    (disk : ℕ → Bool) (ref mac mint_url : Str) (amount allotment now : ℕ) (m : Merchant)
    → is_empty ref ≡ false
    → lookup ref m.owed_grants ≡ none
    → let m' = record_owed_grant disk ref mac mint_url amount allotment now m in
      (lookup ref m'.owed_grants
        ≡ some (new_owed mac mint_url amount allotment m.config.metric now))
      × (str_mem ref m'.monitors ≡ true)
unfolding record_owed_grant persist_owed_grants put_owed str_mem
record_owed_grant-owed disk ref mac mint_url amount allotment now m key e =
    rw (key, e, record_owed_grant)
      (
        ground (
          arith,
          lookup-insert ref ref (new_owed mac mint_url amount allotment m.config.metric now)
              m.owed_grants,
          str_eq_refl ref,
        ),
        ground (arith, str_eq_refl ref),
      )

pub record_owed_grant-intents :
    (disk : ℕ → Bool) (ref mac mint_url : Str) (amount allotment now : ℕ) (m : Merchant)
    → let m' = record_owed_grant disk ref mac mint_url amount allotment now m in
      (m'.receive_intents ≡ m.receive_intents) × (m'.intent_file ≡ m.intent_file)
unfolding record_owed_grant persist_owed_grants put_owed
record_owed_grant-intents disk ref mac mint_url amount allotment now m = ground arith

-- A write that fails leaves the file of debts as it was.
pub record_owed_grant-file :
    (disk : ℕ → Bool) (ref mac mint_url : Str) (amount allotment now : ℕ) (m : Merchant)
    → disk m.writes ≡ false
    → (record_owed_grant disk ref mac mint_url amount allotment now m).grant_file ≡ m.grant_file
unfolding record_owed_grant persist_owed_grants put_owed
record_owed_grant-file disk ref mac mint_url amount allotment now m torn = ground arith
