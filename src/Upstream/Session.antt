-- ===== src/Upstream/Session.antt =====
-- A session with an upstream gateway (src/upstream_session_manager/session.go): the choice of a price
-- and the renewal. The merchant's wallet and the gateway's answer are parameters.
pub mod Laws
use tollgate_module_basic_go.Prelude.{
  ℕ, ◌+◌, ◌*◌, ◌/◌, Bool, true, false, not, ◌&&◌, ◌||◌, Option, none, some, List, [], ◌∷◌, Str,
  str_eq, ltb, leb, ◌==◌, if◌then◌else◌,
}
use tollgate_module_basic_go.Prelude.Words.{second, add64, mul64}
use tollgate_module_basic_go.Merchant.State.{Metric, milliseconds, bytes, other}
use tollgate_module_basic_go.Protocol.{PricingOption}

-- What the session asks of the merchant (`merchant_types.PaymentMerchant`) and of the gateway
-- (`postTokenToUpstream`): the URLs of the accepted mints, the balance at a mint, a token of an
-- amount, whether a token is taken back, and the allotment that a token buys; and whether the
-- recovery file of `saveTokenForRecovery` takes a token, so that its directory, its opening and its
-- writing all succeed.
pub record PaymentMerchant : Type 0 where
  pub accepted_mints : List Str
  pub balance_by_mint : Str → ℕ
  pub create_payment_token : Str → ℕ → Option Str
  pub fund : Str → Bool
  pub post_token_to_upstream : Str → Option ℕ
  pub recovery_file_takes : Str → Bool

-- The preferred increments of the configuration.
pub record Increments : Type 0 where
  pub milliseconds_increment : ℕ
  pub bytes_increment : ℕ

-- `UpstreamSession`; `tokens_to_recover` is the recovery file.
pub record UpstreamSession : Type 0 where
  pub metric : Metric
  pub step_size : ℕ
  pub pricing_options : List PricingOption
  pub selected_pricing : Option PricingOption
  pub total_allotment : ℕ
  pub last_payment_at : Option ℕ
  pub last_payment_attempt : Option ℕ
  pub payment_in_progress : Bool
  pub payment_count : ℕ
  pub total_spent : ℕ
  pub tokens_to_recover : List Str

-- The steps of one payment: the preferred allotment, but no less than the minimum, and than one.
at_least_one : ℕ → ℕ
at_least_one steps = if steps == 0 then 1 else steps

-- Go panics on a step size of 0, which the validation of an advertisement rejects.
unfoldable pub steps_for : ℕ → ℕ → PricingOption → ℕ
unfolding at_least_one
steps_for preferred step_size option =
    let steps = preferred / step_size in
    at_least_one (if ltb steps option.min_steps then option.min_steps else steps)

unfoldable pub required_amount : ℕ → ℕ → PricingOption → ℕ
required_amount preferred step_size option =
    mul64 (steps_for preferred step_size option) option.price_per_step

-- One of our mints is the option's, and its balance covers the payment.
payable_at : PaymentMerchant → ℕ → PricingOption → List Str → Bool
payable_at merchant required option [] = false
payable_at merchant required option (mint ∷ mints) =
    (str_eq option.mint_url mint && leb required (merchant.balance_by_mint option.mint_url))
    || payable_at merchant required option mints

unfoldable pub is_payable : PaymentMerchant → ℕ → ℕ → PricingOption → Bool
unfolding payable_at
is_payable merchant preferred step_size option =
    payable_at merchant (required_amount preferred step_size option) option merchant.accepted_mints

-- `selectCompatiblePricingWithFunds`
unfoldable pub select_compatible_pricing_with_funds :
    PaymentMerchant → ℕ → ℕ → List PricingOption → Option PricingOption
select_compatible_pricing_with_funds merchant preferred step_size [] = none
select_compatible_pricing_with_funds merchant preferred step_size (option ∷ options) =
    if is_payable merchant preferred step_size option
    then some option
    else select_compatible_pricing_with_funds merchant preferred step_size options

pub data RenewalError : Type 0 where
  no_compatible_pricing token_not_created payment_rejected : RenewalError

pub preferred_allotment : Increments → Metric → ℕ
preferred_allotment config milliseconds = config.milliseconds_increment
preferred_allotment config bytes = config.bytes_increment
preferred_allotment config (other name) = 0

-- `time.Since(s.lastPaymentAttempt) < 5*time.Second`
attempted_recently : Option ℕ → ℕ → Bool
attempted_recently none now = false
attempted_recently (some t) now = ltb now (t + 5 * second)

-- `saveTokenForRecovery`: a token that the file does not take is only logged as an error.
save_token_for_recovery : PaymentMerchant → Str → UpstreamSession → UpstreamSession
save_token_for_recovery merchant token s =
    if merchant.recovery_file_takes token
    then record s { tokens_to_recover = token ∷ s.tokens_to_recover }
    else s

-- `recoverFailedPaymentToken`
unfoldable pub recover_token : PaymentMerchant → Str → UpstreamSession → UpstreamSession
unfolding save_token_for_recovery
recover_token merchant token s =
    if merchant.fund token then s else save_token_for_recovery merchant token s

-- The gateway has answered to the token of a payment of `amount`.
settle_payment :
    PaymentMerchant
    → Str
    → ℕ
    → ℕ
    → Option ℕ
    → UpstreamSession
    → Option RenewalError × UpstreamSession
settle_payment merchant token amount now none s =
    (some payment_rejected, recover_token merchant token s)
settle_payment merchant token amount now (some allotment) s = (
  none,
  record s {
    total_allotment = allotment;
    last_payment_at = some now;
    payment_count = s.payment_count + 1;
    total_spent = add64 s.total_spent amount;
  },
)

-- `sendPayment`
send_payment :
    PaymentMerchant → ℕ → ℕ → Option Str → UpstreamSession → Option RenewalError × UpstreamSession
unfolding settle_payment
send_payment merchant amount now none s = (some token_not_created, s)
send_payment merchant amount now (some token) s =
    settle_payment merchant token amount now (merchant.post_token_to_upstream token) s

pay_option :
    PaymentMerchant
    → ℕ
    → ℕ
    → Option PricingOption
    → UpstreamSession
    → Option RenewalError × UpstreamSession
unfolding send_payment
pay_option merchant preferred now none s = (some no_compatible_pricing, s)
pay_option merchant preferred now (some option) s =
    let amount = required_amount preferred s.step_size option in
    send_payment merchant amount now (merchant.create_payment_token option.mint_url amount)
      (record s { selected_pricing = some option })

-- `HandleRenewal`: `cold_start` is what `EnsureBootstrapForColdStart` answers. The payment mutex is
-- held throughout, and `payment_in_progress` is reset on every return.
unfoldable pub handle_renewal :
    PaymentMerchant
    → Increments
    → Bool
    → ℕ
    → UpstreamSession
    → Option RenewalError × UpstreamSession
unfolding preferred_allotment attempted_recently pay_option
handle_renewal merchant config cold_start now s =
    if cold_start
    then (none, s)
    else if attempted_recently s.last_payment_attempt now
    then (none, s)
    else if s.payment_in_progress
    then (none, record s { last_payment_attempt = some now })
    else (let preferred = preferred_allotment config s.metric in
        pay_option merchant preferred now
          (select_compatible_pricing_with_funds merchant preferred s.step_size s.pricing_options)
          (record s { last_payment_attempt = some now }))
