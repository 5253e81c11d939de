-- ===== src/Merchant/Pricing.antt =====
-- `calculateAllotment` (src/merchant/merchant.go). `tollwallet.NormalizeMintURL`, which rests on
-- `net/url`, is a parameter.
use native.Mathlib.Nat.{mul-div_cancel}
use tollgate_module_basic_go.Prelude.{
  ℕ, ◌+◌, ◌*◌, ◌/◌, ◌%◌, ◌≤◌, ◌<◌, ◌≡◌, refl, Bool, true, false, Option, none, some, List, [], ◌∷◌,
  Str, arith, str_eq, ltb, ◌==◌, if◌then◌else◌, Option-cases, inl, inr,
}
use tollgate_module_basic_go.Prelude.Words.{mul64, u64_mod}
use tollgate_module_basic_go.Merchant.State.{Metric, MintConfig, Config}

pub data Priced : Type 0 where
  allotted : ℕ → Priced
  mint_not_configured zero_price unsupported_metric : Priced
  below_minimum : ℕ → Priced

module _ (normalize : Str → Str) where
  -- `MintURLMatches`
  abbrev pub mint_url_matches : Str → Str → Bool
  mint_url_matches a b = str_eq (normalize a) (normalize b)

  -- The search for the mint's configuration: the first match.
  unfoldable pub find_mint : Str → List MintConfig → Option MintConfig
  find_mint url [] = none
  find_mint url (mint ∷ mints) =
      if mint_url_matches mint.url url then some mint else find_mint url mints

-- `calculateAllotmentMs` and `calculateAllotmentBytes`
abbrev steps_to_allotment : ℕ → Config → ℕ
steps_to_allotment steps c = mul64 steps c.step_size

by_metric : Metric → ℕ → Config → Priced
by_metric Metric.milliseconds steps c = allotted (steps_to_allotment steps c)
by_metric Metric.bytes steps c = allotted (steps_to_allotment steps c)
by_metric (Metric.other name) steps c = unsupported_metric

price_at : MintConfig → ℕ → Config → Priced
unfolding by_metric
price_at mint amount c =
    if mint.price_per_step == 0
    then zero_price
    else if ltb (amount / mint.price_per_step) mint.min_purchase_steps
    then below_minimum (amount / mint.price_per_step)
    else by_metric c.metric (amount / mint.price_per_step) c

-- `calculateAllotment`
unfoldable pub calculate_allotment : (Str → Str) → Config → ℕ → Str → Priced
unfolding price_at
calculate_allotment normalize c amount url = elim (find_mint normalize url c.accepted_mints) [
  | none ↦ mint_not_configured
  | some mint ↦ price_at mint amount c
]

-- A customer is never sold more than the payment covers: an allotment comes from a configured mint
-- with a price, is a whole number of steps (up to the wrap-around of `uint64`) of at least the
-- minimum purchase, and those steps cost no more than the amount, which buys no further step.
pub calculate_allotment_sound :
    (normalize : Str → Str) (c : Config) (amount : ℕ) (url : Str) {allotment : ℕ}
    → calculate_allotment normalize c amount url ≡ allotted allotment
    → (mint : MintConfig) × (steps : ℕ) × (find_mint normalize url c.accepted_mints ≡ some mint)
      × (allotment ≡ (steps * c.step_size) % u64_mod)
      × (mint.min_purchase_steps ≤ steps)
      × (steps * mint.price_per_step ≤ amount)
      × (amount < (steps + 1) * mint.price_per_step)
unfolding calculate_allotment
calculate_allotment_sound normalize c amount url h =
    elim (Option-cases (find_mint normalize url c.accepted_mints)) [
      | inl missing ↦ absurd (ground arith)
      | inr (mint, found) ↦ (
        mint,
        amount / mint.price_per_step,
        found,
        ground arith,
        ground arith,
        grind arith,
        grind arith,
      )
    ]

-- The metric is one that is sold.
abbrev pub is_sold : Metric → Bool
is_sold Metric.milliseconds = true
is_sold Metric.bytes = true
is_sold (Metric.other name) = false

by_metric-sold :
    (metric : Metric) (steps : ℕ) (c : Config)
    → is_sold metric ≡ true
    → by_metric metric steps c ≡ allotted (mul64 steps c.step_size)
unfolding by_metric
by_metric-sold Metric.milliseconds steps c h = refl
by_metric-sold Metric.bytes steps c h = refl
by_metric-sold (Metric.other name) steps c h = cc

-- A payment for whole steps buys just these steps.
pub calculate_allotment_whole :
    (normalize : Str → Str) (c : Config) (steps : ℕ) (url : Str) (mint : MintConfig)
    → find_mint normalize url c.accepted_mints ≡ some mint
    → 0 < mint.price_per_step
    → mint.min_purchase_steps ≤ steps
    → is_sold c.metric ≡ true
    → calculate_allotment normalize c (steps * mint.price_per_step) url
      ≡ allotted (mul64 steps c.step_size)
unfolding calculate_allotment price_at
calculate_allotment_whole normalize c steps url mint found priced enough sold =
    let whole : (steps * mint.price_per_step) / mint.price_per_step ≡ steps =
      mul-div_cancel steps priced in
    rw (found, calculate_allotment, whole) (ground (arith, by_metric-sold c.metric steps c))
