-- ===== src/Tests/Gateway.antt =====
-- The theorems about the advertisement, the upstream session and the reconciliation at a small
-- gateway.
use tollgate_module_basic_go.Merchant.Payout.{ProfitShare, PayoutWorld, PayoutMint, process_payout}
use tollgate_module_basic_go.Mac.{normalize_mac_address}
use tollgate_module_basic_go.Prelude.{
  ℕ, ◌+◌, ◌*◌, ◌≤◌, ◌≡◌, ◌≢◌, ◌⊎◌, refl, sym, inr, true, false, Option, none, some, List, [], ◌∷◌,
  Str, codes, arith, str_eq, eq_iff, trim, lower,
}
use tollgate_module_basic_go.Prelude.Words.{at_unix, mul64}
use tollgate_module_basic_go.Dict.{Dict, lookup}
use tollgate_module_basic_go.Valve.Clients.{ClientEntry}
use tollgate_module_basic_go.Valve.Close.Frame.{SameClient}
use tollgate_module_basic_go.Valve.Close.Evidence.{Evidence}
use tollgate_module_basic_go.Merchant.State.{milliseconds}
use tollgate_module_basic_go.Merchant.Pricing.{calculate_allotment, allotted, find_mint}
use tollgate_module_basic_go.Merchant.Reconcile.{
  StaleBindingJanitor, reconcile_client_list, check_binding, absences, or_default, knows_client,
}
use tollgate_module_basic_go.Merchant.Reconcile.Clients.{reconcile_client_list-spares}
use tollgate_module_basic_go.Merchant.Reconcile.Bindings.{IsAbsent, IsClosed, check_binding-takes}
use tollgate_module_basic_go.Merchant.Payout.Laws.{
  IsOwnerFirst, aimed_total, share_total, process_payout_lem, process_payout-near,
}
use tollgate_module_basic_go.Valve.Ndsctl.{check_client_state}
use tollgate_module_basic_go.Protocol.{
  extract_advertisement_info, create_advertisement, info, metric_name,
}
use tollgate_module_basic_go.Protocol.Laws.{advertised, option_of, extract-create}
use tollgate_module_basic_go.Upstream.Usage.{UpstreamUsageTracker}
use tollgate_module_basic_go.Upstream.Session.{
  PaymentMerchant, Increments, UpstreamSession, steps_for, required_amount,
}
use tollgate_module_basic_go.Upstream.Session.Laws.{steps_for-sold}
use tollgate_module_basic_go.Upstream.Bootstrap.{
  BootstrapState, BootstrapPhase, forward_all, is_complete,
}
use tollgate_module_basic_go.Upstream.Bootstrap.Laws.{forward_all-IsOneShot, forward_all-resends}
use tollgate_module_basic_go.Tests.{
  mac, mint, mint_url, willing, refusing, idle, merchant, by_time, by_volume, one_gate,
  metered_gate,
}

extract-create_example :
    extract_advertisement_info (create_advertisement by_time (mint ∷ []))
    ≡ info (advertised by_time (mint ∷ []))
unfolding metric_name
extract-create_example =
    extract-create by_time (mint ∷ []) refl (omega arith) (omega arith) refl
      ((omega arith, omega arith), tt)

-- A session of ten megabytes that renews when a megabyte is left.
abbrev tracker : UpstreamUsageTracker
tracker = record {
  renewal_offset = 1000000;
  total_allotment = 10000000;
  last_usage = 0;
  last_allotment = 10000000;
  poll_count = 1;
  last_payment_trigger = none;
  clamp_logged = none;
  renewals = [];
}

-- One mint, whose balance covers a payment that the gateway takes.
abbrev payer : PaymentMerchant
payer = record {
  accepted_mints = mint_url ∷ [];
  balance_by_mint = λ url. 1000;
  create_payment_token = λ url amount. some (codes "note");
  fund = λ token. false;
  post_token_to_upstream = λ token. some 420000;
  recovery_file_takes = λ token. true;
}

abbrev increments : Increments
increments = record { milliseconds_increment = 420000; bytes_increment = 1000000 }

abbrev session : UpstreamSession
session = record {
  metric = milliseconds;
  step_size = 60000;
  pricing_options = option_of mint ∷ [];
  selected_pricing = none;
  total_allotment = 420000;
  last_payment_at = none;
  last_payment_attempt = none;
  payment_in_progress = false;
  payment_count = 1;
  total_spent = 14;
  tokens_to_recover = [];
}

abbrev unchanged : Str → Str
unchanged s = s

steps_for-sold_example :
    calculate_allotment unchanged by_time (required_amount 420000 60000 (option_of mint)) mint_url
    ≡ allotted (mul64 (steps_for 420000 60000 (option_of mint)) 60000)
unfolding find_mint str_eq steps_for
steps_for-sold_example =
    steps_for-sold unchanged by_time 420000 mint refl (omega arith) refl (omega arith)

abbrev cold : BootstrapState
cold = record {
  active = true;
  phase = BootstrapPhase.idle;
  allotment = 0;
  reference = [];
  total_allotment = 0;
  payment_count = 0;
  forwarded = [];
}

abbrev one_answer : List (Str × Option ℕ)
one_answer = (codes "a", none) ∷ (codes "b", some 420000) ∷ (codes "c", some 60000) ∷ []

forward_all-IsOneShot_example :
    let end = forward_all unchanged one_answer cold in
    ((is_complete end.phase ≡ true)
      × (end.payment_count ≡ 1)
      × ((later : List (Str × Option ℕ)) → forward_all unchanged later end ≡ end))
    ⊎ ((is_complete end.phase ≡ false) × (end.payment_count ≡ 0))
forward_all-IsOneShot_example = forward_all-IsOneShot unchanged one_answer cold (inr (refl, refl))

a-ne-b : codes "a" ≢ codes "b"
unfolding str_eq
a-ne-b e = absurd (not_true (sym ((eq_iff (codes "a") (codes "b")).1 e)))
  where
    not_true : true ≢ false
    not_true h = absurd (cc)

forward_all-resends_example :
    let lost : List (Str × Option ℕ) =
      (codes "a", none) ∷ (codes "b", none) ∷ (codes "a", none) ∷ [] in
    (forward_all unchanged lost cold).forwarded ≡ codes "a" ∷ codes "b" ∷ codes "a" ∷ []
forward_all-resends_example =
    forward_all-resends unchanged (codes "a") (codes "b") cold refl refl a-ne-b refl refl refl

-- NoDogSplash lists a stranger beside the customer.
abbrev listing : Str → Option (Dict ClientEntry)
listing s = some (
    (mac, record { mac = mac; state = codes "Authenticated" })
    ∷ (
      codes "02:00:00:00:00:0b",
      record { mac = codes "02:00:00:00:00:0b"; state = codes "Authenticated" },
    )
    ∷ [])

reconcile_client_list-spares_example :
    let m' = (reconcile_client_list willing listing (λ w. w) (merchant by_time one_gate)).1 in
    (m'.customer_sessions ≡ (merchant by_time one_gate).customer_sessions)
    × SameClient mac one_gate m'.valve
unfolding knows_client lookup str_eq normalize_mac_address lower trim
reconcile_client_list-spares_example =
    reconcile_client_list-spares willing listing mac (merchant by_time one_gate) refl

-- One look found the client gone already.
abbrev janitor : StaleBindingJanitor
janitor = record { sweeps = 0; absent = (mac, 1) ∷ []; every_sweeps = 0; grace_passes = 0 }

check_binding-takes_example :
    let m = merchant by_volume metered_gate in
    let probed = (check_client_state refusing mac 0).1 in
    ((check_binding refusing idle mac (at_unix 1000) janitor m).1.customer_sessions
      ≡ m.customer_sessions)
    ⊎ (IsAbsent refusing mac 0
        × (or_default 0 2 ≤ absences mac janitor + 1)
        × IsClosed refusing idle mac (at_unix 1000) (record metered_gate { calls = probed })
        × Evidence refusing mac probed)
check_binding-takes_example =
    check_binding-takes refusing idle mac (at_unix 1000) janitor (merchant by_volume metered_gate)

-- The factory's factors are 0.79 and three of 0.07, and every invoice is paid.
abbrev shares : List ProfitShare
shares =
    record { identity = codes "owner"; numerator = 79; denominator = 100 }
    ∷ record { identity = codes "developer"; numerator = 7; denominator = 100 }
    ∷ record { identity = codes "designer"; numerator = 7; denominator = 100 }
    ∷ record { identity = codes "marketer"; numerator = 7; denominator = 100 }
    ∷ []

abbrev paying : PayoutWorld
paying = record {
  get_public_identity = λ identity. some identity;
  get_invoice = λ n address amount. some address;
  request_melt_quote = λ n invoice url. some (0, invoice);
  melt = λ n quote. true;
}

abbrev payout_mint : PayoutMint
payout_mint = record {
  url = mint_url;
  min_balance = 64;
  balance_tolerance_percent = 10;
  min_payout_amount = 128;
}

-- The shares of the 72 sat above the minimum are 57, 5, 5 and 5.
process_payout_lem_example :
    let payouts = process_payout paying payout_mint shares 136 in
    IsOwnerFirst payouts × (aimed_total payouts ≤ share_total 72 shares)
process_payout_lem_example = process_payout_lem paying payout_mint shares 136

process_payout-near_example :
    2 * aimed_total (process_payout paying payout_mint shares 136) ≤ 2 * 72 + 4
process_payout-near_example =
    process_payout-near paying payout_mint shares 136 100 (omega arith)
      (refl, (refl, (refl, (refl, tt)))) (omega arith)
