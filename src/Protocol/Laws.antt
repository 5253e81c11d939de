-- ===== src/Protocol/Laws.antt =====
-- What a merchant advertises is what a client reads (src/merchant/merchant.go and
-- src/tollgate_protocol/validator.go), and what it sells is what the client expects.
use mathlib.Core.List.{append_assoc, append-nil}
use tollgate_module_basic_go.Prelude.{
  ℕ, ◌^◌, ◌<◌, ◌≡◌, refl, true, false, some, List, [], ◌∷◌, ◌++◌, map, Str, codes, arith, str_eq,
  All, is_nil, ◌∙◌, ◌==◌,
}
use tollgate_module_basic_go.Prelude.Decimal.{print_uint, parse_uint-print_uint}
use tollgate_module_basic_go.Merchant.State.{MintConfig, Config}
use tollgate_module_basic_go.Merchant.Session.{is_empty}
use tollgate_module_basic_go.Protocol.{
  PricingOption, AdvertisementInfo, info, add_option, or_one, read_price, read_step_size, read_tag,
  read_tags, check_info, extract_advertisement_info, metric_name, price_tag, create_advertisement,
  toll_gate_advertisement_kind,
}

-- The option that advertises a mint.
abbrev pub option_of : MintConfig → PricingOption
option_of mint = record {
  asset_type = codes "cashu";
  price_per_step = mint.price_per_step;
  price_unit = mint.price_unit;
  mint_url = mint.url;
  min_steps = mint.min_purchase_steps;
}

-- The numbers of a mint are `uint64`.
abbrev pub IsWord : MintConfig → Type 0
IsWord mint = (mint.price_per_step < 2 ^ 64) × (mint.min_purchase_steps < 2 ^ 64)

with_options : AdvertisementInfo → List PricingOption → AdvertisementInfo
with_options i options = record i { pricing_options = i.pricing_options ++ options }

read_tag-price_tag :
    (mint : MintConfig) (i : AdvertisementInfo)
    → IsWord mint
    → read_tag (price_tag mint) i ≡ some (with_options i (option_of mint ∷ []))
unfolding read_tag read_price add_option or_one price_tag str_eq with_options
read_tag-price_tag mint i (price, min) =
    rw
      (
        parse_uint-print_uint mint.price_per_step price,
        add_option,
        parse_uint-print_uint mint.min_purchase_steps min,
      )
      refl

read_tags-prices :
    (mints : List MintConfig) (i : AdvertisementInfo)
    → All IsWord mints
    → read_tags (map price_tag mints) i ≡ some (with_options i (map option_of mints))
unfolding read_tags with_options
read_tags-prices [] i words = rw append-nil refl
read_tags-prices (mint ∷ mints) i (word, words) =
    rw (read_tag-price_tag mint i word, read_tags)
      (read_tags-prices mints (with_options i (option_of mint ∷ [])) words ∙ rw append_assoc refl)

-- What a client reads from the advertisement of these mints.
abbrev pub advertised : Config → List MintConfig → AdvertisementInfo
advertised c mints = record {
  metric = metric_name c.metric;
  step_size = c.step_size;
  pricing_options = map option_of mints;
  tips = codes "1" ∷ codes "2" ∷ [];
}

read_tags-cons :
    (tag : List Str) (tags : List (List Str)) (i : AdvertisementInfo) {i' : AdvertisementInfo}
    → read_tag tag i ≡ some i'
    → read_tags (tag ∷ tags) i ≡ read_tags tags i'
unfolding read_tags
read_tags-cons tag tags i e = rw (e, read_tags) refl

read_tag-step_size :
    (n : ℕ) (i : AdvertisementInfo)
    → n < 2 ^ 64
    → read_tag (codes "step_size" ∷ print_uint n ∷ []) i ≡ some (record i { step_size = n })
unfolding read_tag read_step_size str_eq
read_tag-step_size n i word = rw (parse_uint-print_uint n word, read_step_size) refl

read_tag-metric :
    (name : Str) (i : AdvertisementInfo)
    → read_tag (codes "metric" ∷ name ∷ []) i ≡ some (record i { metric = name })
unfolding read_tag str_eq
read_tag-metric name i = refl

read_tag-tips :
    (i : AdvertisementInfo)
    → read_tag (codes "tips" ∷ codes "1" ∷ codes "2" ∷ []) i
      ≡ some (record i { tips = i.tips ++ codes "1" ∷ codes "2" ∷ [] })
unfolding read_tag str_eq
read_tag-tips i = refl

abbrev no_info : AdvertisementInfo
no_info = record { metric = []; step_size = 0; pricing_options = []; tips = [] }

read_tags-create :
    (c : Config) (mints : List MintConfig)
    → c.step_size < 2 ^ 64
    → All IsWord mints
    → read_tags (create_advertisement c mints).tags no_info ≡ some (advertised c mints)
unfolding create_advertisement
read_tags-create c mints step words =
    let prices = map price_tag mints in
    let named = record no_info { metric = metric_name c.metric } in
    let sized = record named { step_size = c.step_size } in
    let tipped = record sized { tips = codes "1" ∷ codes "2" ∷ [] } in
    read_tags-cons _ _ no_info (read_tag-metric (metric_name c.metric) no_info)
    ∙ read_tags-cons _ _ named (read_tag-step_size c.step_size named step)
    ∙ read_tags-cons _ prices sized (read_tag-tips sized)
    ∙ unfold with_options in read_tags-prices mints tipped words

kind-create :
    (c : Config) (mints : List MintConfig)
    → ((create_advertisement c mints).kind == toll_gate_advertisement_kind) ≡ true
unfolding create_advertisement
kind-create c mints = refl

check_info_complete :
    (c : Config) (mints : List MintConfig)
    → is_empty (metric_name c.metric) ≡ false
    → 0 < c.step_size
    → is_nil mints ≡ false
    → check_info (some (advertised c mints)) ≡ info (advertised c mints)
unfolding check_info
check_info_complete c [] named step some_mint = cc
check_info_complete c (mint ∷ mints) named step some_mint = ground arith

-- What a merchant advertises is what a client reads: the metric, the step size, every advertised
-- mint in its order with its price, unit, URL and minimum, and the two TIPs, for a metric with a
-- name, a step size that is not zero, at least one mint, and numbers that are `uint64`.
pub extract-create :
    (c : Config) (mints : List MintConfig)
    → is_empty (metric_name c.metric) ≡ false
    → 0 < c.step_size
    → c.step_size < 2 ^ 64
    → is_nil mints ≡ false
    → All IsWord mints
    → extract_advertisement_info (create_advertisement c mints) ≡ info (advertised c mints)
unfolding extract_advertisement_info
extract-create c mints named positive step some_mint words =
    rw (kind-create c mints, read_tags-create c mints step words)
      (check_info_complete c mints named positive some_mint)
