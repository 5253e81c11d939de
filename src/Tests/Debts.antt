-- ===== src/Tests/Debts.antt =====
-- The theorems about debts at concrete records.
use tollgate_module_basic_go.Prelude.{◌≡◌, refl, true, arith, str_eq}
use tollgate_module_basic_go.Prelude.Words.{at_unix}
use tollgate_module_basic_go.Dict.{lookup}
use tollgate_module_basic_go.Merchant.State.{Merchant}
use tollgate_module_basic_go.Merchant.OwedGrant.{
  ensure_owed_grant_granted, monitor_owed_grant, owed_grant_retry_interval, owed_grant_deadline,
}
use tollgate_module_basic_go.Merchant.OwedGrant.Laws.{ensure_owed_grant_granted-once}
use tollgate_module_basic_go.Merchant.OwedGrant.Monitor.{IsSettled, monitor_owed_grant-ends}
use tollgate_module_basic_go.Tests.{refusing, willing, ref, debt, with_debt, sound_disk}

abbrev alone : Merchant → Merchant
alone m = m

ensure_owed_grant_granted-once_example :
    ensure_owed_grant_granted willing sound_disk
      (λ w. (ensure_owed_grant_granted willing sound_disk alone ref (at_unix 1002) w).1)
      ref
      (at_unix 1001)
      with_debt
    ≡ ensure_owed_grant_granted willing sound_disk (λ w. w) ref (at_unix 1001) with_debt
unfolding lookup str_eq
ensure_owed_grant_granted-once_example =
    ensure_owed_grant_granted-once willing sound_disk ref alone (at_unix 1001) (at_unix 1002)
      with_debt {rec = debt} refl refl refl

-- The deadline is 420 seconds after second 1000.
monitor_owed_grant-ends_example :
    let (ended, m') =
      monitor_owed_grant refusing sound_disk
        (λ k. 0)
        ref
        86
        owed_grant_retry_interval
        (at_unix 1000)
        with_debt in
    (ended ≡ true) × IsSettled ref m'
unfolding lookup str_eq owed_grant_deadline
monitor_owed_grant-ends_example =
    monitor_owed_grant-ends refusing sound_disk (λ k. 0) ref 85 owed_grant_retry_interval
      (at_unix 1000) with_debt {rec = debt} refl refl refl (omega arith) (omega arith)
