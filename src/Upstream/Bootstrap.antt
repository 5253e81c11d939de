-- ===== src/Upstream/Bootstrap.antt =====
-- The cold start of a reseller (src/upstream_session_manager/bootstrap.go): the first customer's
-- proof goes whole to the upstream gateway, once. What the gateway answers to it is an argument.
pub mod Laws
use tollgate_module_basic_go.Prelude.{
  ℕ, zero, suc, ◌+◌, Bool, true, false, not, ◌&&◌, ◌||◌, Option, none, some, List, [], ◌∷◌, Str,
  str_eq, ltb, ◌==◌, if◌then◌else◌,
}
use tollgate_module_basic_go.Merchant.Session.{is_empty}

-- `BootstrapPhase`; `unset` is its zero value.
pub data BootstrapPhase : Type 0 where
  unset idle forwarding establishing complete error : BootstrapPhase

-- `bootstrapState`, with the fields of `UpstreamSession` that a forwarded proof sets; `forwarded` are
-- the references of the proofs that went on the wire, the last one first.
pub record BootstrapState : Type 0 where
  pub active : Bool
  pub phase : BootstrapPhase
  pub allotment : ℕ
  pub reference : Str
  pub total_allotment : ℕ
  pub payment_count : ℕ
  pub forwarded : List Str

-- `EnsureBootstrapForColdStart`; `funded` is `hasFundsForUpstream`.
unfoldable pub bootstrap_candidate : Bool → Bool → BootstrapState → Bool
bootstrap_candidate reseller funded b = reseller && not (ltb 0 b.total_allotment) && not funded

unfoldable pub ensure_bootstrap_for_cold_start :
    Bool → Bool → BootstrapState → Bool × BootstrapState
ensure_bootstrap_for_cold_start reseller funded b =
    if not (bootstrap_candidate reseller funded b)
    then (false, b)
    else if b.active
    then (true, b)
    else (true, record b { active = true; phase = idle })

abbrev in_progress : BootstrapPhase → Bool
in_progress forwarding = true
in_progress establishing = true
in_progress unset = false
in_progress idle = false
in_progress complete = false
in_progress error = false

abbrev pub is_complete : BootstrapPhase → Bool
is_complete complete = true
is_complete unset = false
is_complete idle = false
is_complete forwarding = false
is_complete establishing = false
is_complete error = false

abbrev is_error : BootstrapPhase → Bool
is_error error = true
is_error unset = false
is_error idle = false
is_error forwarding = false
is_error establishing = false
is_error complete = false

pub data ForwardError : Type 0 where
  empty_token already_in_progress already_complete not_resent forward_failed : ForwardError
  zero_allotment : ForwardError

pub data Forward : Type 0 where
  granted : ℕ → Forward
  refused : ForwardError → Forward

-- The proof goes on the wire.
unfoldable pub start_forward : Str → BootstrapState → BootstrapState
start_forward ref b = record b {
  active = true;
  phase = forwarding;
  reference = ref;
  forwarded = ref ∷ b.forwarded;
}

-- The gateway has answered: `none` is an error.
settle_forward : Option ℕ → BootstrapState → Forward × BootstrapState
settle_forward none b = (refused forward_failed, record b { phase = error })
settle_forward (some zero) b = (refused zero_allotment, record b { phase = error })
settle_forward (some (suc n)) b = (
  granted (suc n),
  record b {
    active = false;
    phase = complete;
    allotment = suc n;
    total_allotment = suc n;
    payment_count = b.payment_count + 1;
  },
)

-- `ForwardFirstProof`: `ref` is `proofReference(token)`, and `between` is what the other goroutines do
-- while the proof is on the wire.
unfoldable pub forward_first_proof :
    (Str → Str)
    → (BootstrapState → BootstrapState)
    → Str
    → Option ℕ
    → BootstrapState
    → Forward × BootstrapState
unfolding settle_forward
forward_first_proof proof_reference between token answer b =
    let ref = proof_reference token in
    if is_empty token
    then (refused empty_token, b)
    else if b.active && in_progress b.phase
    then (refused already_in_progress, b)
    else if is_complete b.phase && str_eq b.reference ref
    then (granted b.allotment, b)
    else if is_complete b.phase
    then (refused already_complete, b)
    else if str_eq b.reference ref && is_error b.phase
    then (refused not_resent, b)
    else settle_forward answer (between (start_forward ref b))

-- A sequence of proofs that customers bring, with the gateway's answers.
unfoldable pub forward_all : (Str → Str) → List (Str × Option ℕ) → BootstrapState → BootstrapState
forward_all proof_reference [] b = b
forward_all proof_reference ((token, answer) ∷ rest) b =
    forward_all proof_reference rest (forward_first_proof proof_reference (λ w. w) token answer b).1
