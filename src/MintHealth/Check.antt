-- ===== src/MintHealth/Check.antt =====
-- What one proactive check does to a mint (src/merchant/mint_health_tracker.go).
use tollgate_module_basic_go.Prelude.{
  ℕ, ◌≡◌, refl, ◌≢◌, ◌⊎◌, Bool, true, false, List, [], ◌∷◌, Str, Bool-cases, inl, inr, All,
  if◌then◌else◌, str_eq_refl, str_eq-ne, ◌∙◌,
}
use tollgate_module_basic_go.Dict.{lookup-insert}
use tollgate_module_basic_go.Merchant.State.{MintConfig}
use tollgate_module_basic_go.MintHealth.{
  ProbeOutcome, MintState, MintHealthTracker, mint_state, or_new_mint, put_mint, count_proactive,
  apply_throttle_answer, probe_due, observe_proactive, due_mints, observe_all, settle_check,
  run_proactive_check,
}

-- The configuration has one mint with this URL.
abbrev pub Once : Str → List MintConfig → Type 0
Once url [] = ⊥
Once url (mint ∷ mints) =
    ((mint.url ≡ url) × All (λ m. m.url ≢ url) mints) ⊎ ((mint.url ≢ url) × Once url mints)

both :
    (b : Bool) {x x' y y' : MintState}
    → x ≡ x'
    → y ≡ y'
    → (if b then x else y) ≡ (if b then x' else y')
both true e f = e
both false e f = f

module _ (probe : Str → ProbeOutcome × ℕ) (now : ℕ) (url : Str) where
  -- The entries of the mint after the answer that the probe gives.
  abbrev pub observed : MintHealthTracker → MintState
  observed t = count_proactive t.recovery_threshold t.failure_threshold (probe url).0 (
      apply_throttle_answer t.persistent_throttle_probes (probe url).0 (probe url).1 now
        (mint_state url t))

  observe_proactive-same :
      (t : MintHealthTracker) → mint_state url (observe_proactive probe now url t) ≡ observed t
  unfolding observe_proactive put_mint mint_state
  observe_proactive-same t =
      rw (lookup-insert url url (observed t) t.mints, str_eq_refl url, or_new_mint) refl

  observe_proactive-other :
      (key : Str) (t : MintHealthTracker)
      → key ≢ url
      → let t' = observe_proactive probe now key t in
        (mint_state url t' ≡ mint_state url t) × (observed t' ≡ observed t)
  unfolding observe_proactive put_mint mint_state
  observe_proactive-other key t ne =
      let new = count_proactive t.recovery_threshold t.failure_threshold (probe key).0 (
        apply_throttle_answer t.persistent_throttle_probes (probe key).0 (probe key).1 now
          (mint_state key t)) in
      rw (lookup-insert url key new t.mints, str_eq-ne key url ne) (refl, refl)

  observe_all-other :
      (mints : List MintConfig) (t : MintHealthTracker)
      → All (λ m. m.url ≢ url) mints
      → mint_state url (observe_all probe now mints t) ≡ mint_state url t
  unfolding observe_all
  observe_all-other [] t all = refl
  observe_all-other (mint ∷ mints) t (ne, all) =
      observe_all-other mints (observe_proactive probe now mint.url t) all
      ∙ (observe_proactive-other mint.url t ne).0

  due_mints-All :
      (mints : List MintConfig) (t : MintHealthTracker)
      → All (λ m. m.url ≢ url) mints
      → All (λ m. m.url ≢ url) (due_mints now t mints)
  unfolding due_mints
  due_mints-All [] t all = tt
  due_mints-All (mint ∷ mints) t (ne, all) = elim (Bool-cases (probe_due mint.url now t)) [
    | inl yes_due ↦ rw (yes_due, due_mints) (ne, due_mints-All mints t all)
    | inr not_due ↦ rw (not_due, due_mints) (due_mints-All mints t all)
  ]

  observe_due-Once :
      (mints : List MintConfig) (start t : MintHealthTracker)
      → Once url mints
      → mint_state url (observe_all probe now (due_mints now start mints) t)
        ≡ (if probe_due url now start then observed t else mint_state url t)
  unfolding due_mints observe_all
  observe_due-Once [] start t once = elim once [ ]
  observe_due-Once (mint ∷ mints) start t (inl (same, others)) =
      let rest = due_mints-All mints start others in
      elim (Bool-cases (probe_due url now start)) [
        | inl yes_due ↦
            rw (same, yes_due, due_mints, observe_all)
              (observe_all-other (due_mints now start mints) (observe_proactive probe now url t)
                  rest
                ∙ observe_proactive-same t)
        | inr not_due ↦
            rw (same, not_due, due_mints) (observe_all-other (due_mints now start mints) t rest)
      ]
  observe_due-Once (mint ∷ mints) start t (inr (ne, once)) =
      elim (Bool-cases (probe_due mint.url now start)) [
        | inr not_due ↦ rw (not_due, due_mints) (observe_due-Once mints start t once)
        | inl yes_due ↦
            let other = observe_proactive-other mint.url t ne in
            rw (yes_due, due_mints, observe_all)
              (observe_due-Once mints start (observe_proactive probe now mint.url t) once
                ∙ both (probe_due url now start) other.1 other.0)
      ]

  settle_check-keeps :
      (mints : List MintConfig) (t : MintHealthTracker)
      → mint_state url (settle_check mints t) ≡ mint_state url t
  unfolding settle_check mint_state
  settle_check-keeps mints t = refl

  -- A proactive check advances each configured mint by exactly its own answer: a mint that is
  -- configured once and is due has its counters advanced by the answer of its probe, and a mint
  -- whose wait is not over keeps its entries, whatever the other mints answer.
  pub run_proactive_check-mint :
      (mints : List MintConfig) (t : MintHealthTracker)
      → Once url mints
      → mint_state url (run_proactive_check probe now mints t) ≡ (
          if probe_due url now t
          then count_proactive t.recovery_threshold t.failure_threshold (probe url).0 (
              apply_throttle_answer t.persistent_throttle_probes
                (probe url).0
                (probe url).1
                now
                (mint_state url t))
          else mint_state url t)
  unfolding run_proactive_check
  run_proactive_check-mint mints t once =
      settle_check-keeps mints (observe_all probe now (due_mints now t mints) t)
      ∙ observe_due-Once mints t t once
