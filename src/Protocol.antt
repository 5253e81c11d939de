-- ===== src/Protocol.antt =====
-- The advertisement of a TollGate: the merchant's `CreateAdvertisement` (src/merchant/merchant.go)
-- and the client's `ExtractAdvertisementInfo` (src/tollgate_protocol/validator.go). The event's JSON
-- and its signature are parameters.
pub mod Laws
use tollgate_module_basic_go.Prelude.{
  ℕ, suc, Bool, true, false, not, ◌&&◌, ◌||◌, Option, none, some, List, [], ◌∷◌, ◌++◌, map, Str,
  codes, str_eq, ltb, ◌==◌, if◌then◌else◌, length, is_nil,
}
use tollgate_module_basic_go.Prelude.Decimal.{print_uint, parse_uint}
use tollgate_module_basic_go.Merchant.State.{Metric, milliseconds, bytes, other, MintConfig, Config}
use tollgate_module_basic_go.Merchant.Session.{is_empty}

-- `TollGateAdvertisementKind`
abbrev pub toll_gate_advertisement_kind : ℕ
toll_gate_advertisement_kind = 10021

-- The fields of `nostr.Event` that the code reads.
pub record Event : Type 0 where
  pub kind : ℕ
  pub tags : List (List Str)

-- `PricingOption`
pub record PricingOption : Type 0 where
  pub asset_type : Str
  pub price_per_step : ℕ
  pub price_unit : Str
  pub mint_url : Str
  pub min_steps : ℕ

-- `AdvertisementInfo`
pub record AdvertisementInfo : Type 0 where
  pub metric : Str
  pub step_size : ℕ
  pub pricing_options : List PricingOption
  pub tips : List Str

pub data AdvertisementError : Type 0 where
  invalid_kind bad_signature invalid_step_size : AdvertisementError
  missing_metric missing_step_size no_pricing : AdvertisementError

pub data Extracted : Type 0 where
  info : AdvertisementInfo → Extracted
  invalid : AdvertisementError → Extracted

-- `ValidateAdvertisement`; `signed` is what `CheckSignature` answers, `none` for an error.
unfoldable pub validate_advertisement : Option Bool → Event → Option AdvertisementError
validate_advertisement signed event =
    if not (event.kind == toll_gate_advertisement_kind) then some invalid_kind else elim signed [
      | some true ↦ none
      | some false ↦ some bad_signature
      | none ↦ some bad_signature
    ]

-- The number of a price tag, one where it cannot be read.
or_one : Option ℕ → ℕ
or_one none = 1
or_one (some n) = n

add_option : Str → Str → Str → Str → AdvertisementInfo → Option ℕ → AdvertisementInfo
unfolding or_one
add_option asset unit url min i none = i
add_option asset unit url min i (some price) = record i {
  pricing_options =
      i.pricing_options
      ++ record {
        asset_type = asset;
        price_per_step = price;
        price_unit = unit;
        mint_url = url;
        min_steps = or_one (parse_uint min);
      }
        ∷ [];
}

-- A price tag: malformed ones, and those without a price, are skipped.
read_price : List Str → AdvertisementInfo → AdvertisementInfo
unfolding add_option
read_price (name ∷ asset ∷ price ∷ unit ∷ url ∷ min ∷ rest) i =
    add_option asset unit url min i (parse_uint price)
read_price tag i = i

read_step_size : AdvertisementInfo → Option ℕ → Option AdvertisementInfo
read_step_size i none = none
read_step_size i (some n) = some (record i { step_size = n })

-- One tag; `none` is a step size that cannot be read.
read_tag : List Str → AdvertisementInfo → Option AdvertisementInfo
unfolding read_price read_step_size
read_tag [] i = some i
read_tag (name ∷ []) i = some i
read_tag (name ∷ value ∷ rest) i =
    if str_eq name (codes "metric")
    then some (record i { metric = value })
    else if str_eq name (codes "step_size")
    then read_step_size i (parse_uint value)
    else if str_eq name (codes "price_per_step")
    then some (read_price (name ∷ value ∷ rest) i)
    else if str_eq name (codes "tips")
    then some (record i { tips = i.tips ++ value ∷ rest })
    else some i

read_tags : List (List Str) → AdvertisementInfo → Option AdvertisementInfo
unfolding read_tag
read_tags [] i = some i
read_tags (tag ∷ tags) i = elim (read_tag tag i) [ none ↦ none | some i' ↦ read_tags tags i' ]

-- The required fields.
check_info : Option AdvertisementInfo → Extracted
check_info none = invalid invalid_step_size
check_info (some i) =
    if is_empty i.metric
    then invalid missing_metric
    else if i.step_size == 0
    then invalid missing_step_size
    else if is_nil i.pricing_options
    then invalid no_pricing
    else info i

-- `ExtractAdvertisementInfo`
unfoldable pub extract_advertisement_info : Event → Extracted
unfolding read_tags check_info
extract_advertisement_info event =
    if not (event.kind == toll_gate_advertisement_kind)
    then invalid invalid_kind
    else check_info (
        read_tags event.tags
          (record { metric = []; step_size = 0; pricing_options = []; tips = [] }))

unfoldable pub metric_name : Metric → Str
metric_name milliseconds = codes "milliseconds"
metric_name bytes = codes "bytes"
metric_name (other name) = name

unfoldable pub price_tag : MintConfig → List Str
price_tag mint =
    codes "price_per_step"
    ∷ codes "cashu"
    ∷ print_uint mint.price_per_step
    ∷ mint.price_unit
    ∷ mint.url
    ∷ print_uint mint.min_purchase_steps
    ∷ []

-- `CreateAdvertisement`, before it is signed; `mints` are those that the health tracker advertises.
unfoldable pub create_advertisement : Config → List MintConfig → Event
create_advertisement c mints = record {
  kind = toll_gate_advertisement_kind;
  tags =
      (codes "metric" ∷ metric_name c.metric ∷ [])
      ∷ (codes "step_size" ∷ print_uint c.step_size ∷ [])
      ∷ (codes "tips" ∷ codes "1" ∷ codes "2" ∷ [])
      ∷ map price_tag mints;
}
