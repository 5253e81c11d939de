-- ===== src/Merchant/Quote/Budget.antt =====
-- The outbound budget toward each mint (src/merchant/lightning.go). The limiter, of
-- golang.org/x/time/rate, is a parameter: whether it permits a call, given its calls so far.
use tollgate_module_basic_go.Prelude.{
  ℕ, suc, ◌≤◌, ◌≡◌, refl, ◌⊎◌, inl, inr, Bool, true, ◌||◌, Option, none, some, List, [], ◌∷◌, Str,
  arith, str_eq, eq_iff, ltb, leb, if◌then◌else◌, length, Option-cases, Bool-cases,
}
use tollgate_module_basic_go.Dict.{
  Dict, lookup, insert, erase, contains, length-insert-le, length-erase-lt, length-insert_present,
}
use tollgate_module_basic_go.Merchant.Session.{is_empty}
use tollgate_module_basic_go.Merchant.Pricing.{mint_url_matches}
use tollgate_module_basic_go.Merchant.Quote.State.{MintQuoteBucket, mint_quote_budget_max_mints}

-- The first bucket under a spelling of this mint.
find_bucket : (Str → Str) → Str → Dict MintQuoteBucket → Option (Str × MintQuoteBucket)
find_bucket normalize url [] = none
find_bucket normalize url ((known, b) ∷ m) =
    if str_eq known url || mint_url_matches normalize known url
    then some (known, b)
    else find_bucket normalize url m

-- The bucket that was used least recently, `best` of those before; the empty text is none.
least_recent : ℕ → Str → Dict MintQuoteBucket → Str
least_recent oldest best [] = best
least_recent oldest best ((key, b) ∷ m) =
    let sooner = is_empty best || ltb b.last_seen oldest in
    least_recent (if sooner then b.last_seen else oldest) (if sooner then key else best) m

make_room : Dict MintQuoteBucket → Dict MintQuoteBucket
unfolding least_recent
make_room m =
    if leb mint_quote_budget_max_mints (length m) then erase (least_recent 0 [] m) m else m

use_bucket :
    (List ℕ → ℕ → Bool)
    → ℕ
    → Str
    → MintQuoteBucket
    → Dict MintQuoteBucket
    → Bool × Dict MintQuoteBucket
use_bucket permits now key b m =
    (permits b.calls now, insert key (record { calls = now ∷ b.calls; last_seen = now }) m)

-- `mintQuoteBudget.allow`
unfoldable pub allow :
    (Str → Str) → (List ℕ → ℕ → Bool) → ℕ → Str → Dict MintQuoteBucket → Bool × Dict MintQuoteBucket
unfolding find_bucket make_room use_bucket
allow normalize permits now url m = elim (find_bucket normalize url m) [
  | some (known, b) ↦ use_bucket permits now known b m
  | none ↦ use_bucket permits now url (record { calls = []; last_seen = now }) (make_room m)
]

-- The choice is the earlier one, or a mint of the table.
least_recent-present :
    (oldest : ℕ) (best : Str) (m : Dict MintQuoteBucket)
    → (least_recent oldest best m ≡ best) ⊎ (contains (least_recent oldest best m) m ≡ true)
unfolding least_recent lookup
least_recent-present oldest best [] = inl refl
least_recent-present oldest best ((key, b) ∷ m) =
    let sooner = is_empty best || ltb b.last_seen oldest in
    let o = if sooner then b.last_seen else oldest in
    let k = if sooner then key else best in
    ground (arith, least_recent-present o k m, eq_iff key (least_recent o k m))

least_recent-nonempty :
    (key : Str) (b : MintQuoteBucket) (m : Dict MintQuoteBucket)
    → contains (least_recent 0 [] ((key, b) ∷ m)) ((key, b) ∷ m) ≡ true
unfolding least_recent lookup
least_recent-nonempty key b m =
    let chosen = least_recent b.last_seen key m in
    ground (arith, least_recent-present b.last_seen key m, eq_iff key chosen)

make_room-lt :
    (m : Dict MintQuoteBucket)
    → length m ≤ mint_quote_budget_max_mints
    → suc (length (make_room m)) ≤ mint_quote_budget_max_mints
unfolding make_room
make_room-lt [] h = omega arith
make_room-lt ((key, b) ∷ m) h =
    elim (Bool-cases (leb mint_quote_budget_max_mints (length ((key, b) ∷ m)))) [
      | inr room ↦ rw room (ground arith)
      | inl full ↦
          let oldest = least_recent 0 [] ((key, b) ∷ m) in
          rw full (
            omega (arith, length-erase-lt oldest ((key, b) ∷ m) (least_recent-nonempty key b m), h))
    ]

-- The mint that a found bucket stands under is in the table.
find_bucket-present :
    (normalize : Str → Str) (url : Str) (m : Dict MintQuoteBucket) {key : Str} {b : MintQuoteBucket}
    → find_bucket normalize url m ≡ some (key, b)
    → contains key m ≡ true
unfolding find_bucket lookup
find_bucket-present normalize url [] e = cc
find_bucket-present normalize url ((known, c) ∷ m) {key} {b} e =
    ground (arith, eq_iff known key, find_bucket-present normalize url m {key = key} {b = b})

-- The budget never tracks more than 64 mints, whatever mint is asked for and whether or not the
-- limiter permits the request.
pub allow-IsBounded :
    (normalize : Str → Str) (permits : List ℕ → ℕ → Bool) (now : ℕ) (url : Str)
    (m : Dict MintQuoteBucket)
    → length m ≤ mint_quote_budget_max_mints
    → length (allow normalize permits now url m).1 ≤ mint_quote_budget_max_mints
unfolding allow use_bucket
allow-IsBounded normalize permits now url m h = elim (Option-cases (find_bucket normalize url m)) [
  | inl none_yet ↦
      let fresh : MintQuoteBucket = record { calls = now ∷ []; last_seen = now } in
      rw (none_yet, allow)
        (omega (arith, length-insert-le url fresh (make_room m), make_room-lt m h))
  | inr ((key, c), found) ↦
      let used : MintQuoteBucket = record { calls = now ∷ c.calls; last_seen = now } in
      rw (found, allow)
        (omega
          (arith, length-insert_present key used m (find_bucket-present normalize url m found), h))
]
