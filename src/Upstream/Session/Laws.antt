-- ===== src/Upstream/Session/Laws.antt =====
-- A renewal is paid from the mint that it was priced for, and is worth what the upstream merchant
-- sells (src/upstream_session_manager/session.go, src/merchant/merchant.go).
use native.Mathlib.Nat.{mod-eq_of_lt}
use tollgate_module_basic_go.Prelude.{
  ℕ, ◌+◌, ◌*◌, ◌^◌, ◌<◌, ◌≤◌, ◌≡◌, ◌≢◌, ◌⊎◌, true, false, Option, none, some, List, [], ◌∷◌, Str,
  arith, str_mem,
}
use tollgate_module_basic_go.Prelude.Words.{add64, mul64}
use tollgate_module_basic_go.Merchant.State.{MintConfig, Config}
use tollgate_module_basic_go.Merchant.Pricing.{
  allotted, find_mint, calculate_allotment, is_sold, calculate_allotment_whole,
}
use tollgate_module_basic_go.Protocol.{PricingOption}
use tollgate_module_basic_go.Protocol.Laws.{option_of}
use tollgate_module_basic_go.Upstream.Session.{
  PaymentMerchant, UpstreamSession, steps_for, required_amount, RenewalError, payment_rejected,
  at_least_one,
}

-- The option is at one of these mints, and the balance there covers the payment.
abbrev pub IsCovered : PaymentMerchant → ℕ → PricingOption → List Str → Type 0
IsCovered merchant required option mints =
    (str_mem option.mint_url mints ≡ true) × (required ≤ merchant.balance_by_mint option.mint_url)

-- A choice of the advertised options.
abbrev pub IsOffered : PricingOption → List PricingOption → Type 0
IsOffered option [] = ⊥
IsOffered option (o ∷ options) = (o ≡ option) ⊎ IsOffered option options

-- The session counts no further payment.
abbrev pub IsUnpaid : UpstreamSession → UpstreamSession → Type 0
IsUnpaid s s' =
    (s'.payment_count ≡ s.payment_count)
    × (s'.total_spent ≡ s.total_spent)
    × (s'.total_allotment ≡ s.total_allotment)

-- One payment was made: from a mint that is ours and covers it, for an advertised price; the gateway
-- took the token and told the allotment, and the session counts the amount.
abbrev pub IsPaid : PaymentMerchant → ℕ → UpstreamSession → UpstreamSession → Type 0
IsPaid merchant preferred s s' =
    (option : PricingOption) × (token : Str) × (allotment : ℕ) × IsOffered option s.pricing_options
    × IsCovered merchant (required_amount preferred s.step_size option) option
        merchant.accepted_mints
    × (merchant.create_payment_token option.mint_url (required_amount preferred s.step_size option)
        ≡ some token)
    × (merchant.post_token_to_upstream token ≡ some allotment)
    × (s'.total_allotment ≡ allotment)
    × (s'.payment_count ≡ s.payment_count + 1)
    × (s'.total_spent ≡ add64 s.total_spent (required_amount preferred s.step_size option))

-- What becomes of a token that the gateway did not take: it is back in the wallet; or the wallet does
-- not take it, and it is in the recovery file; or that file does not take it either.
abbrev pub IsRecovered : PaymentMerchant → UpstreamSession → UpstreamSession → Type 0
IsRecovered merchant s s' =
    (token : Str) × (merchant.post_token_to_upstream token ≡ none)
    × (((merchant.fund token ≡ true) × (s'.tokens_to_recover ≡ s.tokens_to_recover))
        ⊎ ((merchant.fund token ≡ false)
            × (merchant.recovery_file_takes token ≡ true)
            × (s'.tokens_to_recover ≡ token ∷ s.tokens_to_recover))
        ⊎ ((merchant.fund token ≡ false)
            × (merchant.recovery_file_takes token ≡ false)
            × (s'.tokens_to_recover ≡ s.tokens_to_recover)))

abbrev pub Renewed :
    PaymentMerchant → ℕ → UpstreamSession → Option RenewalError × UpstreamSession → Type 0
Renewed merchant preferred s (none, s') = IsUnpaid s s' ⊎ IsPaid merchant preferred s s'
Renewed merchant preferred s (some e, s') =
    IsUnpaid s s'
    × (((e ≢ payment_rejected) × (s'.tokens_to_recover ≡ s.tokens_to_recover))
        ⊎ IsRecovered merchant s s')

steps_for-min :
    (preferred step_size : ℕ) (option : PricingOption)
    → option.min_steps ≤ steps_for preferred step_size option
unfolding steps_for at_least_one
steps_for-min preferred step_size option = ground arith

-- A customer gateway that pays a mint's advertised price for some steps, at least the minimum, gets
-- just these steps from the merchant that advertised it: both sides count the same allotment, where
-- the payment is a `uint64`, the metric is one that is sold, and the mint has a price and is the first
-- configured one that matches its own URL.
pub steps_for-sold :
    (normalize : Str → Str) (c : Config) (preferred : ℕ) (mint : MintConfig)
    → find_mint normalize mint.url c.accepted_mints ≡ some mint
    → 0 < mint.price_per_step
    → is_sold c.metric ≡ true
    → let option = option_of mint in
      let steps = steps_for preferred c.step_size option in
      steps * mint.price_per_step < 2 ^ 64
      → calculate_allotment normalize c (required_amount preferred c.step_size option) mint.url
        ≡ allotted (mul64 steps c.step_size)
unfolding required_amount
steps_for-sold normalize c preferred mint found priced sold fits =
    let steps = steps_for preferred c.step_size (option_of mint) in
    rw (mod-eq_of_lt fits) (
      calculate_allotment_whole normalize c steps mint.url mint found priced
        (steps_for-min preferred c.step_size (option_of mint)) sold)
