-- ===== src/Merchant/OwedGrant/Restart.antt =====
-- A debt on disk survives a restart (src/merchant/owed_grant.go).
use tollgate_module_basic_go.Prelude.{
  ℕ, ◌≤◌, ◌≡◌, refl, ◌≢◌, Bool, true, false, some, List, [], ◌∷◌, Str, arith, All, Bool-cases, inl,
  inr, eq_iff, str_eq, str_eq_refl, str_eq-ne, str_mem, ◌∙◌,
}
use tollgate_module_basic_go.Dict.{Dict, lookup, lookup-insert}
use tollgate_module_basic_go.Merchant.State.{
  Metric, milliseconds, bytes, other, OwedGrantRecord, Merchant,
}
use tollgate_module_basic_go.Merchant.OwedGrant.{
  deadline_by_metric, is_owed, put_owed, persist_owed_grants, expire_owed_grant, restore_owed,
  restore_all, is_late, late_refs, expire_all, load_owed_grants, owed_grant_deadline,
}

some_inj : {a b : OwedGrantRecord} → some a ≡ some b → a ≡ b
some_inj e = cc e

deadline-processing :
    (metric : Metric) (rec : OwedGrantRecord)
    → deadline_by_metric metric (record rec { processing = false }) ≡ deadline_by_metric metric rec
unfolding deadline_by_metric
deadline-processing milliseconds rec = refl
deadline-processing bytes rec = refl
deadline-processing (other name) rec = refl

is_late-early :
    (now : ℕ) (rec : OwedGrantRecord)
    → now ≤ owed_grant_deadline rec
    → is_late now (some (record rec { processing = false })) ≡ false
unfolding is_late owed_grant_deadline
is_late-early now rec early = ground (arith, deadline-processing rec.metric rec)

expire_owed_grant-other :
    (disk : ℕ → Bool) (ref key : Str) (now : ℕ) (m : Merchant)
    → key ≢ ref
    → let m' = expire_owed_grant disk key now m in
      (lookup ref m'.owed_grants ≡ lookup ref m.owed_grants) × (m'.monitors ≡ m.monitors)
unfolding expire_owed_grant persist_owed_grants put_owed
expire_owed_grant-other disk ref key now m ne = grind (arith, lookup-insert, str_eq-ne key ref ne)

module _ (ref : Str) (now : ℕ) where
  restore_owed-other :
      (key : Str) (rec : OwedGrantRecord) (m : Merchant)
      → str_eq key ref ≡ false
      → (lookup ref (restore_owed now key rec m).owed_grants ≡ lookup ref m.owed_grants)
        × (str_mem ref (restore_owed now key rec m).monitors ≡ str_mem ref m.monitors)
  unfolding restore_owed put_owed str_mem
  restore_owed-other key rec m ne =
      ground (arith, lookup-insert ref key (record rec { processing = false }) m.owed_grants)

  restore_owed-same :
      (rec : OwedGrantRecord) (m : Merchant)
      → is_owed rec ≡ true
      → (lookup ref (restore_owed now ref rec m).owed_grants
          ≡ some (record rec { processing = false }))
        × (now ≤ owed_grant_deadline rec → str_mem ref (restore_owed now ref rec m).monitors ≡ true)
  unfolding restore_owed put_owed str_mem
  restore_owed-same rec m due = (
    ground (
      arith,
      lookup-insert ref ref (record rec { processing = false }) m.owed_grants,
      str_eq_refl ref,
    ),
    λ early. ground (arith, str_eq_refl ref),
  )

  restore_all-lookup :
      (file : Dict OwedGrantRecord) (m : Merchant) {rec : OwedGrantRecord}
      → lookup ref file ≡ some rec
      → is_owed rec ≡ true
      → now ≤ owed_grant_deadline rec
      → let m' = restore_all now file m in
        (lookup ref m'.owed_grants ≡ some (record rec { processing = false }))
        × (str_mem ref m'.monitors ≡ true)
  unfolding restore_all lookup
  restore_all-lookup [] m e due early = absurd (cc)
  restore_all-lookup ((key, r) ∷ file) m {rec} e due early =
      let m1 = restore_all now file m in
      elim (Bool-cases (str_eq key ref)) [
        | inl same ↦
            let found : r ≡ rec = some_inj (ground arith) in
            let restored = restore_owed-same rec m1 due in
            rw ((eq_iff key ref).0 same, found) (restored.0, restored.1 early)
        | inr differs ↦
            let other = restore_owed-other key r m1 differs in
            let rest = restore_all-lookup file m (ground arith) due early in
            (other.0 ∙ rest.0, other.1 ∙ rest.1)
      ]

  -- Expiring the records that are late leaves one that is not late.
  expire_all-keeps :
      (disk : ℕ → Bool) (all : Dict OwedGrantRecord) (refs : List Str) (m : Merchant)
      → All (λ r. is_late now (lookup r all) ≡ true) refs
      → is_late now (lookup ref all) ≡ false
      → let m' = expire_all disk now refs m in
        (lookup ref m'.owed_grants ≡ lookup ref m.owed_grants) × (m'.monitors ≡ m.monitors)
  unfolding expire_all
  expire_all-keeps disk all [] m late early = (refl, refl)
  expire_all-keeps disk all (r ∷ refs) m (late, lates) early =
      let step = expire_owed_grant-other disk ref r now m (λ e. absurd (ground (arith, e))) in
      let rest = expire_all-keeps disk all refs (expire_owed_grant disk r now m) lates early in
      (rest.0 ∙ step.0, rest.1 ∙ step.1)

  late_refs-late :
      (all part : Dict OwedGrantRecord)
      → All (λ r. is_late now (lookup r all) ≡ true) (late_refs now all part)
  unfolding late_refs
  late_refs-late all [] = tt
  late_refs-late all ((r, rec) ∷ part) = elim (Bool-cases (is_late now (lookup r all))) [
    | inl late ↦ rw (late, late_refs) (late, late_refs-late all part)
    | inr early ↦ rw (early, late_refs) (late_refs-late all part)
  ]

-- A debt on disk survives a restart: unless its deadline has passed by then, loading the file makes
-- it owed again, with everything that it says, free to be worked on, and with a monitor.
pub load_owed_grants-restores :
    (disk : ℕ → Bool) (file : Dict OwedGrantRecord) (ref : Str) (now : ℕ) (m : Merchant)
    {rec : OwedGrantRecord}
    → lookup ref file ≡ some rec
    → is_owed rec ≡ true
    → now ≤ owed_grant_deadline rec
    → let m' = load_owed_grants disk (some file) now m in
      (lookup ref m'.owed_grants ≡ some (record rec { processing = false }))
      × (str_mem ref m'.monitors ≡ true)
unfolding load_owed_grants persist_owed_grants lookup
load_owed_grants-restores disk [] ref now m e due early = absurd (cc)
load_owed_grants-restores disk (entry ∷ file) ref now m {rec} e due early =
    let m1 = restore_all now (entry ∷ file) m in
    let restored = restore_all-lookup ref now (entry ∷ file) m e due early in
    let kept =
      expire_all-keeps ref now disk m1.owed_grants (late_refs now m1.owed_grants m1.owed_grants) m1
        (late_refs-late ref now m1.owed_grants m1.owed_grants)
        (rw restored.0 (is_late-early now rec early)) in
    (kept.0 ∙ restored.0, rw kept.1 restored.1)
