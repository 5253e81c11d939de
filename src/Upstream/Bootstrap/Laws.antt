-- ===== src/Upstream/Bootstrap/Laws.antt =====
-- The cold start forwards proofs until one is accepted (src/upstream_session_manager/bootstrap.go).
use tollgate_module_basic_go.Prelude.{
  ℕ, zero, suc, ◌≡◌, ◌≢◌, ◌⊎◌, refl, sym, ap, inl, inr, true, false, ◌&&◌, Option, none, some, List,
  [], ◌∷◌, Str, arith, str_eq, str_eq-ne, ◌∙◌,
}
use tollgate_module_basic_go.Merchant.Session.{is_empty}
use tollgate_module_basic_go.Upstream.Bootstrap.{
  error, BootstrapState, in_progress, is_complete, is_error, Forward, refused, already_in_progress,
  forward_failed, start_forward, settle_forward, forward_first_proof, forward_all,
}

-- One payment was made and the cold start is over, or none was made and it is not.
abbrev pub IsOneShot : BootstrapState → Type 0
IsOneShot b =
    ((is_complete b.phase ≡ true) × (b.payment_count ≡ 1))
    ⊎ ((is_complete b.phase ≡ false) × (b.payment_count ≡ 0))

settle_forward-IsOneShot :
    (answer : Option ℕ) (b : BootstrapState)
    → b.payment_count ≡ 0
    → IsOneShot (settle_forward answer b).1
unfolding settle_forward
settle_forward-IsOneShot none b h = inr (refl, h)
settle_forward-IsOneShot (some zero) b h = inr (refl, h)
settle_forward-IsOneShot (some (suc n)) b h = inl (refl, omega arith)

-- The state after a proof whose answer is lost.
abbrev failed_at : Str → BootstrapState → BootstrapState
failed_at ref b = record (start_forward ref b) { phase = error }

failed_at-other :
    (ref other : Str) (b : BootstrapState)
    → ref ≢ other
    → (str_eq (failed_at ref b).reference other && true) ≡ false
unfolding start_forward
failed_at-other ref other b differ = rw (str_eq-ne ref other differ) refl

module _ (proof_reference : Str → Str) where
  -- After the end of the cold start no proof changes anything.
  forward_complete :
      (between : BootstrapState → BootstrapState) (token : Str) (answer : Option ℕ)
      (b : BootstrapState)
      → is_complete b.phase ≡ true
      → (forward_first_proof proof_reference between token answer b).1 ≡ b
  unfolding forward_first_proof
  forward_complete between token answer b done = ground arith

  forward-open :
      (token : Str) (answer : Option ℕ) (b : BootstrapState)
      → is_complete b.phase ≡ false
      → b.payment_count ≡ 0
      → IsOneShot (forward_first_proof proof_reference (λ w. w) token answer b).1
  unfolding forward_first_proof start_forward
  forward-open token answer b going zero_paid =
      let sent = start_forward (proof_reference token) b in
      let settled = settle_forward-IsOneShot answer sent zero_paid in ground arith

  forward-IsOneShot :
      (token : Str) (answer : Option ℕ) (b : BootstrapState)
      → IsOneShot b
      → IsOneShot (forward_first_proof proof_reference (λ w. w) token answer b).1
  forward-IsOneShot token answer b (inl done) =
      rw (forward_complete (λ w. w) token answer b done.0) (inl done)
  forward-IsOneShot token answer b (inr (going, zero_paid)) =
      forward-open token answer b going zero_paid

  forward_all-counts :
      (proofs : List (Str × Option ℕ)) (b : BootstrapState)
      → IsOneShot b
      → IsOneShot (forward_all proof_reference proofs b)
  unfolding forward_all
  forward_all-counts [] b h = h
  forward_all-counts ((token, answer) ∷ proofs) b h =
      forward_all-counts proofs (forward_first_proof proof_reference (λ w. w) token answer b).1
        (forward-IsOneShot token answer b h)

  forward_all_complete :
      (proofs : List (Str × Option ℕ)) (b : BootstrapState)
      → is_complete b.phase ≡ true
      → forward_all proof_reference proofs b ≡ b
  unfolding forward_all
  forward_all_complete [] b h = refl
  forward_all_complete ((token, answer) ∷ proofs) b h =
      rw (forward_complete (λ w. w) token answer b h) (forward_all_complete proofs b h)

  -- A cold start counts one payment: whatever proofs customers bring, one after the other, and whatever
  -- the gateway answers, the session counts at most one payment, and it counts one exactly when the
  -- cold start is over, provided that this is so at first; from its end on no further proof changes
  -- anything, so that none goes on the wire. A proof whose answer is lost is not counted, although
  -- the gateway may have taken it.
  pub forward_all-IsOneShot :
      (proofs : List (Str × Option ℕ)) (b : BootstrapState)
      → IsOneShot b
      → let end = forward_all proof_reference proofs b in
        ((is_complete end.phase ≡ true)
          × (end.payment_count ≡ 1)
          × ((later : List (Str × Option ℕ)) → forward_all proof_reference later end ≡ end))
        ⊎ ((is_complete end.phase ≡ false) × (end.payment_count ≡ 0))
  forward_all-IsOneShot proofs b h = elim (forward_all-counts proofs b h) [
    | inl (done, paid) ↦ inl (
      done,
      paid,
      λ later. forward_all_complete later (forward_all proof_reference proofs b) done,
    )
    | inr still_going ↦ inr still_going
  ]

  -- While a proof is on the wire every other proof is refused without a change.
  pub forward-busy :
      (between : BootstrapState → BootstrapState) (token other : Str) (answer : Option ℕ)
      (b : BootstrapState)
      → is_empty other ≡ false
      → let sent = start_forward (proof_reference token) b in
        forward_first_proof proof_reference between other answer sent
        ≡ (refused already_in_progress, sent)
  unfolding forward_first_proof start_forward
  forward-busy between token other answer b named = ground arith

  -- The proof goes on the wire, and the gateway answers with an error.
  forward-fails :
      (token : Str) (b : BootstrapState)
      → is_empty token ≡ false
      → in_progress b.phase ≡ false
      → is_complete b.phase ≡ false
      → (str_eq b.reference (proof_reference token) && is_error b.phase) ≡ false
      → forward_first_proof proof_reference (λ w. w) token none b
        ≡ (refused forward_failed, failed_at (proof_reference token) b)
  unfolding forward_first_proof settle_forward
  forward-fails token b named free going fresh = ground arith

  forward_all-failed :
      (token : Str) (rest : List (Str × Option ℕ)) (b : BootstrapState)
      → is_empty token ≡ false
      → in_progress b.phase ≡ false
      → is_complete b.phase ≡ false
      → (str_eq b.reference (proof_reference token) && is_error b.phase) ≡ false
      → forward_all proof_reference ((token, none) ∷ rest) b
        ≡ forward_all proof_reference rest (failed_at (proof_reference token) b)
  unfolding forward_all
  forward_all-failed token rest b named free going fresh =
      ap (λ (w : Forward × BootstrapState). forward_all proof_reference rest w.1)
        (forward-fails token b named free going fresh)

  forwarded-thrice :
      (b : BootstrapState) {x y z : Str}
      → (forward_all proof_reference [] (failed_at z (failed_at y (failed_at x b)))).forwarded
        ≡ z ∷ y ∷ x ∷ b.forwarded
  unfolding forward_all start_forward
  forwarded-thrice b = refl

  -- A proof can go on the wire twice: where the gateway's answers to a first proof and then to a
  -- second one are lost, the first is forwarded again when its customer brings it again, since only
  -- the reference of the last one is kept.
  pub forward_all-resends :
      (first second : Str) (b : BootstrapState)
      → is_empty first ≡ false
      → is_empty second ≡ false
      → proof_reference first ≢ proof_reference second
      → in_progress b.phase ≡ false
      → is_complete b.phase ≡ false
      → is_error b.phase ≡ false
      → let proofs : List (Str × Option ℕ) = (first, none) ∷ (second, none) ∷ (first, none) ∷ [] in
        (forward_all proof_reference proofs b).forwarded
        ≡ proof_reference first ∷ proof_reference second ∷ proof_reference first ∷ b.forwarded
  forward_all-resends first second b named1 named2 differ free going clean =
      let b1 = failed_at (proof_reference first) b in
      let b2 = failed_at (proof_reference second) b1 in
      let b3 = failed_at (proof_reference first) b2 in
      ap (λ (w : BootstrapState). w.forwarded)
        (forward_all-failed first ((second, none) ∷ (first, none) ∷ []) b named1 free going
            (ground arith)
          ∙ forward_all-failed second ((first, none) ∷ []) b1 named2 refl refl
              (failed_at-other _ _ b differ)
          ∙ forward_all-failed first [] b2 named1 refl refl
              (failed_at-other _ _ b1 (λ e. differ (sym e))))
      ∙ forwarded-thrice b
