-- ===== src/MintHealth/Hysteresis.antt =====
-- A mint leaves and re-enters the reachable set only on a streak (src/merchant/mint_health_tracker.go).
use tollgate_module_basic_go.Prelude.{
  ℕ, ◌<◌, ◌≡◌, refl, true, false, not, ◌&&◌, ◌||◌, List, [], ◌∷◌, arith, leb, length, All,
}
use tollgate_module_basic_go.MintHealth.{
  ProbeOutcome, probe_ok, probe_throttled, probe_failed, is_reachable_outcome, MintState, next8,
  count_proactive, apply_throttle_answer, answer_by_outcome, demote,
}

-- The entries of a mint after these answers, the latest first: the outcome, the wait and the time.
unfoldable pub answered : ℕ → ℕ → ℕ → List (ProbeOutcome × ℕ × ℕ) → MintState → MintState
answered recovery failure probes [] s = s
answered recovery failure probes ((outcome, wait, now) ∷ rest) s =
    count_proactive recovery failure outcome
      (apply_throttle_answer probes outcome wait now (answered recovery failure probes rest s))

apply_throttle_answer-keeps :
    (probes wait now : ℕ) (outcome : ProbeOutcome) (s : MintState)
    → let s' = apply_throttle_answer probes outcome wait now s in
      (s'.is_reachable ≡ s.is_reachable) × (s'.successes ≡ s.successes) × (s'.failures ≡ s.failures)
unfolding apply_throttle_answer answer_by_outcome demote
apply_throttle_answer-keeps probes wait now probe_ok s = (refl, refl, refl)
apply_throttle_answer-keeps probes wait now probe_throttled s = ground arith
apply_throttle_answer-keeps probes wait now probe_failed s = (refl, refl, refl)

count-failed :
    (recovery failure : ℕ) (outcome : ProbeOutcome) (s : MintState)
    → is_reachable_outcome outcome ≡ false
    → let s' = count_proactive recovery failure outcome s in
      (s'.is_reachable ≡ s.is_reachable && not (leb failure (next8 s.failures)))
      × (s'.failures ≡ next8 s.failures)
      × (s'.successes ≡ 0)
unfolding count_proactive
count-failed recovery failure outcome s down = rw down (refl, refl, refl)

count-answered :
    (recovery failure : ℕ) (outcome : ProbeOutcome) (s : MintState)
    → is_reachable_outcome outcome ≡ true
    → let s' = count_proactive recovery failure outcome s in
      (s'.is_reachable ≡ s.is_reachable || leb recovery (next8 s.successes))
      × (s'.successes ≡ next8 s.successes)
unfolding count_proactive
count-answered recovery failure outcome s up = rw up (refl, refl)

module _ (recovery failure probes : ℕ) where
  fails :
      (answers : List (ProbeOutcome × ℕ × ℕ)) (s : MintState)
      → All (λ a. is_reachable_outcome a.0 ≡ false) answers
      → length answers < 256
      → s.failures ≡ 0
      → s.is_reachable ≡ true
      → 0 < failure
      → let s' = answered recovery failure probes answers s in
        (s'.is_reachable ≡ not (leb failure (length answers))) × (s'.failures ≡ length answers)
  unfolding answered
  fails [] s all short fresh up positive = ground arith
  fails ((outcome, wait, now) ∷ rest) s (down, all) short fresh up positive =
      let t = answered recovery failure probes rest s in
      ground (
        arith,
        fails rest s all (omega (arith, short)) fresh up positive,
        apply_throttle_answer-keeps probes wait now outcome t,
        count-failed recovery failure outcome (apply_throttle_answer probes outcome wait now t)
            down,
      )

  -- A mint that is reachable leaves the set with its `failureThreshold`-th failed probe in a row, not
  -- before, and not later: after fewer than 256 failed probes it is reachable exactly when they are
  -- fewer than the threshold. Its failure count is zero at the beginning, and the threshold is not.
  pub answered-fails :
      (answers : List (ProbeOutcome × ℕ × ℕ)) (s : MintState)
      → All (λ a. is_reachable_outcome a.0 ≡ false) answers
      → length answers < 256
      → s.failures ≡ 0
      → s.is_reachable ≡ true
      → 0 < failure
      → (answered recovery failure probes answers s).is_reachable
        ≡ not (leb failure (length answers))
  answered-fails answers s all short fresh up positive =
      (fails answers s all short fresh up positive).0

  recovers :
      (answers : List (ProbeOutcome × ℕ × ℕ)) (s : MintState)
      → All (λ a. is_reachable_outcome a.0 ≡ true) answers
      → length answers < 256
      → s.successes ≡ 0
      → s.is_reachable ≡ false
      → 0 < recovery
      → let s' = answered recovery failure probes answers s in
        (s'.is_reachable ≡ leb recovery (length answers)) × (s'.successes ≡ length answers)
  unfolding answered
  recovers [] s all short fresh down positive = ground arith
  recovers ((outcome, wait, now) ∷ rest) s (up, all) short fresh down positive =
      let t = answered recovery failure probes rest s in
      ground (
        arith,
        recovers rest s all (omega (arith, short)) fresh down positive,
        apply_throttle_answer-keeps probes wait now outcome t,
        count-answered recovery failure outcome (apply_throttle_answer probes outcome wait now t)
            up,
      )

  -- A mint that is not reachable comes back with its `recoveryThreshold`-th answered probe in a row,
  -- a throttled one included, and not before: the mirror of the failures.
  pub answered-recovers :
      (answers : List (ProbeOutcome × ℕ × ℕ)) (s : MintState)
      → All (λ a. is_reachable_outcome a.0 ≡ true) answers
      → length answers < 256
      → s.successes ≡ 0
      → s.is_reachable ≡ false
      → 0 < recovery
      → (answered recovery failure probes answers s).is_reachable ≡ leb recovery (length answers)
  answered-recovers answers s all short fresh down positive =
      (recovers answers s all short fresh down positive).0

  -- A busy mint is not down: whatever number of answered probes, throttled ones included, never takes
  -- a reachable mint out of the set.
  pub answered-busy :
      (answers : List (ProbeOutcome × ℕ × ℕ)) (s : MintState)
      → All (λ a. is_reachable_outcome a.0 ≡ true) answers
      → s.is_reachable ≡ true
      → (answered recovery failure probes answers s).is_reachable ≡ true
  unfolding answered
  answered-busy [] s all up = up
  answered-busy ((outcome, wait, now) ∷ rest) s (busy, all) up =
      let t = answered recovery failure probes rest s in
      ground (
        arith,
        answered-busy rest s all up,
        apply_throttle_answer-keeps probes wait now outcome t,
        count-answered recovery failure outcome (apply_throttle_answer probes outcome wait now t)
            busy,
      )
