-- ===== src/Merchant/OwedGrant/Monitor.antt =====
-- The monitor of a debt comes to an end (src/merchant/owed_grant.go).
use tollgate_module_basic_go.Prelude.{
  ℕ, zero, suc, ◌+◌, ◌*◌, ◌≤◌, ◌<◌, ◌≡◌, refl, Bool, true, false, some, Str, arith, ltb, Bool-cases,
  inl, inr, str_eq_refl,
}
use tollgate_module_basic_go.Dict.{lookup, lookup-insert}
use tollgate_module_basic_go.Valve.Ndsctl.{Ndsctl}
use tollgate_module_basic_go.Merchant.State.{
  Metric, milliseconds, bytes, other, OwedGrantState, expired, OwedGrantRecord, Merchant,
}
use tollgate_module_basic_go.Merchant.OwedGrant.{
  deadline_by_metric, is_owed, put_owed, persist_owed_grants, expire_owed_grant,
  ensure_owed_grant_granted, next_backoff, round, too_late, retry, monitor_owed_grant,
  owed_grant_deadline, owed_grant_retry_interval,
}
use tollgate_module_basic_go.Merchant.OwedGrant.Laws.{ensure_owed_grant_granted_lem}

-- The debt is settled: granted, or expired.
abbrev pub IsSettled : Str → Merchant → Type 0
IsSettled ref m =
    (rec : OwedGrantRecord) × (lookup ref m.owed_grants ≡ some rec) × (is_owed rec ≡ false)

next_backoff-grows :
    (b : ℕ) → owed_grant_retry_interval ≤ b → owed_grant_retry_interval ≤ next_backoff b
unfolding next_backoff
next_backoff-grows b le = ground arith

expire_owed_grant-IsSettled :
    (disk : ℕ → Bool) (ref : Str) (now : ℕ) (m : Merchant) {rec : OwedGrantRecord}
    → lookup ref m.owed_grants ≡ some rec
    → is_owed rec ≡ true
    → IsSettled ref (expire_owed_grant disk ref now m)
unfolding expire_owed_grant put_owed persist_owed_grants
expire_owed_grant-IsSettled disk ref now m {rec} e due =
    let gone = record rec { state = expired; expired_at = some now } in
    rw (e, expire_owed_grant, due)
      (gone, rw (lookup-insert ref ref gone m.owed_grants, str_eq_refl ref) refl, refl)

round-late :
    (now : ℕ) (rec : OwedGrantRecord)
    → is_owed rec ≡ true
    → rec.processing ≡ false
    → owed_grant_deadline rec < now
    → round now (some rec) ≡ too_late rec
unfolding round
round-late now rec due free late = ground arith

round-early :
    (now : ℕ) (rec : OwedGrantRecord)
    → is_owed rec ≡ true
    → rec.processing ≡ false
    → now ≤ owed_grant_deadline rec
    → round now (some rec) ≡ retry rec
unfolding round
round-early now rec due free early = ground arith

deadline_by_metric-retried :
    (metric : Metric) (rec : OwedGrantRecord)
    → deadline_by_metric metric (record rec { attempts = rec.attempts + 1; processing = false })
      ≡ deadline_by_metric metric rec
unfolding deadline_by_metric
deadline_by_metric-retried milliseconds rec = refl
deadline_by_metric-retried bytes rec = refl
deadline_by_metric-retried (other name) rec = refl

-- Another attempt does not move the deadline.
owed_grant_deadline-retried :
    (rec : OwedGrantRecord)
    → owed_grant_deadline (record rec { attempts = rec.attempts + 1; processing = false })
      ≡ owed_grant_deadline rec
unfolding owed_grant_deadline
owed_grant_deadline-retried rec = deadline_by_metric-retried rec.metric rec

module _ (n : Ndsctl) (disk : ℕ → Bool) (jitter : ℕ → ℕ) (ref : Str) where
  -- The monitor of a debt that nobody else works on ends, and leaves it granted or expired: a round
  -- more than there are retry intervals up to the deadline is enough, whatever NoDogSplash answers
  -- and however long the attempts take.
  pub monitor_owed_grant-ends :
      (fuel backoff now : ℕ) (m : Merchant) {rec : OwedGrantRecord}
      → lookup ref m.owed_grants ≡ some rec
      → is_owed rec ≡ true
      → rec.processing ≡ false
      → owed_grant_retry_interval ≤ backoff
      → owed_grant_deadline rec < now + fuel * owed_grant_retry_interval
      → let (ended, m') = monitor_owed_grant n disk jitter ref (suc fuel) backoff now m in
        (ended ≡ true) × IsSettled ref m'
  unfolding monitor_owed_grant
  monitor_owed_grant-ends zero backoff now m {rec} e due free slow enough =
      rw (e, monitor_owed_grant, round-late now rec due free (omega (arith, enough)))
        (refl, expire_owed_grant-IsSettled disk ref now m e due)
  monitor_owed_grant-ends (suc fuel) backoff now m {rec} e due free slow enough =
      elim (Bool-cases (ltb (owed_grant_deadline rec) now)) [
        | inl late ↦
            rw (e, monitor_owed_grant, round-late now rec due free (ground arith))
              (refl, expire_owed_grant-IsSettled disk ref now m e due)
        | inr early ↦
            let later = now + backoff + jitter (suc fuel) in
            let (ok, m1) = ensure_owed_grant_granted n disk (λ w. w) ref later m in
            let tried = ensure_owed_grant_granted_lem n disk ref later m e due free in
            elim (Bool-cases ok) [
              | inl paid ↦
                  rw (e, monitor_owed_grant, round-early now rec due free (ground arith), paid)
                    (
                      refl,
                      (
                        record rec {
                          state = OwedGrantState.granted;
                          granted_at = some later;
                          processing = false;
                        },
                        rw paid at tried,
                        refl,
                      ),
                    )
              | inr unpaid ↦
                  rw (e, monitor_owed_grant, round-early now rec due free (ground arith), unpaid)
                    (monitor_owed_grant-ends fuel (next_backoff backoff) later m1
                      (rw unpaid at tried) due refl (next_backoff-grows backoff slow)
                      (omega (arith, owed_grant_deadline-retried rec, enough, slow)))
            ]
      ]
