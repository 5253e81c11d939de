-- ===== src/Merchant/Payout.antt =====
-- The payout of a mint's balance (src/merchant/merchant.go, and `MeltToLightning` of
-- src/tollwallet/tollwallet.go). The Lightning addresses and the mint are parameters.
pub mod Laws
use tollgate_module_basic_go.Prelude.{
  ℕ, zero, suc, ◌+◌, ◌-◌, ◌*◌, ◌/◌, Bool, true, false, not, Option, none, some, List, [], ◌∷◌, Str,
  codes, str_eq, ltb, leb, ◌==◌, if◌then◌else◌, is_some,
}
use tollgate_module_basic_go.Prelude.Words.{add64, mul64}

-- The fields of `config_manager.MintConfig` that a payout reads.
pub record PayoutMint : Type 0 where
  pub url : Str
  pub min_balance : ℕ
  pub balance_tolerance_percent : ℕ
  pub min_payout_amount : ℕ

-- `ProfitShareConfig`; `Factor`, a `float64`, is the fraction of the two numbers.
pub record ProfitShare : Type 0 where
  pub identity : Str
  pub numerator : ℕ
  pub denominator : ℕ

-- `uint64(math.Round(float64(amount) * ps.Factor))`: the nearest whole number, and the higher one at
-- a half. The product is taken to be exact; the source rounds it to the 53 bits of a `float64` first.
unfoldable pub share_of : ProfitShare → ℕ → ℕ
share_of ps amount = (2 * (amount * ps.numerator) + ps.denominator) / (2 * ps.denominator)

-- The `recipient` of `processPayout`.
pub record Recipient : Type 0 where
  pub identity : Str
  pub amount : ℕ
  pub lightning : Str
  pub is_owner : Bool

-- What the payout asks: the Lightning address of an identity, whether a probe at some attempt gets an
-- invoice; and for the n-th attempt of a melt an invoice, its quote with its amount, and whether it
-- is paid.
pub record PayoutWorld : Type 0 where
  pub get_public_identity : Str → Option Str
  pub get_invoice : ℕ → Str → ℕ → Option Str
  pub request_melt_quote : ℕ → Str → Str → Option (ℕ × Str)
  pub melt : ℕ → Str → Bool

-- A payout that was tried: what it was for, the most that it may cost, and the amount that was paid.
pub record Payout : Type 0 where
  pub recipient : Recipient
  pub max_cost : ℕ
  pub paid : Option ℕ

abbrev pub payout_invoice_retries : ℕ
payout_invoice_retries = 5

-- `fetchInvoiceWithRetry`, from attempt `n` on.
fetch_invoice : PayoutWorld → ℕ → ℕ → Str → ℕ → Bool
fetch_invoice w zero n address amount = false
fetch_invoice w (suc left) n address amount =
    let rest = fetch_invoice w left (n + 1) address amount in
    if is_some (w.get_invoice n address amount) then true else rest

-- `MeltToLightning`: the attempts that are left, from attempt `n` on.
unfoldable pub melt_attempts : PayoutWorld → Str → ℕ → Str → ℕ → ℕ → ℕ → Option ℕ
melt_attempts w url max_cost address zero n amount = none
melt_attempts w url max_cost address (suc left) n amount =
    let again = melt_attempts w url max_cost address left (n + 1) amount in
    let with_less =
      melt_attempts w url max_cost address left (n + 1) (amount - mul64 amount 5 / 100) in
    elim (w.get_invoice n address amount) [
      | none ↦ again
      | some invoice ↦ elim (w.request_melt_quote n invoice url) [
        | none ↦ again
        | some (cost, quote) ↦
            if ltb max_cost cost then with_less else if w.melt n quote then some amount else again
      ]
    ]

unfoldable pub melt_to_lightning : PayoutWorld → Str → ℕ → ℕ → Str → Option ℕ
melt_to_lightning w url amount max_cost address = melt_attempts w url max_cost address 5 0 amount

-- `maxCost`
unfoldable pub max_cost_of : PayoutMint → ℕ → ℕ
max_cost_of mint amount =
    add64 amount (add64 amount (mul64 amount mint.balance_tolerance_percent / 100))

-- `PayoutShare`
unfoldable pub payout_share : PayoutWorld → PayoutMint → Recipient → Payout
payout_share w mint r =
    let cost = max_cost_of mint r.amount in
    record {
      recipient = r;
      max_cost = cost;
      paid = melt_to_lightning w mint.url r.amount cost r.lightning;
    }

with_recipient : ProfitShare → ℕ → Option Str → List Recipient → List Recipient
with_recipient ps amount none rest = rest
with_recipient ps amount (some address) rest =
    record {
      identity = ps.identity;
      amount = amount;
      lightning = address;
      is_owner = str_eq ps.identity (codes "owner");
    }
    ∷ rest

-- The recipients in the order of the configuration.
unfoldable pub recipients : PayoutWorld → ℕ → List ProfitShare → List Recipient
unfolding with_recipient
recipients w aimed [] = []
recipients w aimed (ps ∷ shares) =
    let amount = share_of ps aimed in
    let rest = recipients w aimed shares in
    if amount == 0 then rest else with_recipient ps amount (w.get_public_identity ps.identity) rest

unfoldable pub reachable : PayoutWorld → List Recipient → List Recipient
unfolding fetch_invoice
reachable w [] = []
reachable w (r ∷ rs) =
    let rest = reachable w rs in
    if fetch_invoice w payout_invoice_retries 0 r.lightning r.amount then r ∷ rest else rest

first_owner : List Recipient → Option Recipient
first_owner [] = none
first_owner (r ∷ rs) = let rest = first_owner rs in if r.is_owner then some r else rest

-- The maintainers, one after the other.
pay_maintainers : PayoutWorld → PayoutMint → List Recipient → List Payout
pay_maintainers w mint [] = []
pay_maintainers w mint (r ∷ rs) =
    let rest = pay_maintainers w mint rs in
    if r.is_owner then rest else payout_share w mint r ∷ rest

pay_after_owner : PayoutWorld → PayoutMint → List Recipient → Option Recipient → List Payout
unfolding pay_maintainers
pay_after_owner w mint reached none = []
pay_after_owner w mint reached (some owner) =
    let first = payout_share w mint owner in
    if is_some first.paid then first ∷ pay_maintainers w mint reached else first ∷ []

-- `processPayout`, where the identities are known: the payouts that were tried, in order.
unfoldable pub process_payout : PayoutWorld → PayoutMint → List ProfitShare → ℕ → List Payout
unfolding first_owner pay_after_owner
process_payout w mint shares balance =
    if ltb balance mint.min_payout_amount
    then []
    else if leb balance mint.min_balance
    then []
    else (let reached = reachable w (recipients w (balance - mint.min_balance) shares) in
        pay_after_owner w mint reached (first_owner reached))
