-- ===== src/Merchant/Quote/Admission/Eviction.antt =====
-- What an eviction and the janitor take from the table of invoices
-- (src/merchant/lightning.go).
use tollgate_module_basic_go.Prelude.{
  ℕ, zero, suc, ◌+◌, ◌≤◌, ◌<◌, ◌≡◌, ◌⊎◌, refl, inl, inr, true, false, ◌&&◌, ◌||◌, none, some, [],
  ◌∷◌, Str, arith, eq_iff, ltb, if◌then◌else◌, length, Bool-cases,
}
use tollgate_module_basic_go.Dict.{
  Dict, Unique, lookup, insert, erase, contains, lookup-erase, erase-Unique, length-erase-le,
}
use tollgate_module_basic_go.Merchant.Session.{is_empty}
use tollgate_module_basic_go.Merchant.Quote.State.{
  LightningQuoteRecord, should_delete_lightning_quote, drop_stale, quote_table_eviction_watermark,
}
use tollgate_module_basic_go.Merchant.Quote.Admission.{
  is_active, count_active_quotes, evictable_lightning_quote, may_evict, instant, oldest_evictable,
  evict_oldest, hold_watermark,
}

abbrev pub Table : Type 0
Table = Dict LightningQuoteRecord

-- Every outstanding count and the size are no larger, the keys stay distinct, and a record that may
-- not be evicted at `now` is still there.
pub record IsReduced (now : ℕ) (m m' : Table) : Type 0 where
  pub counts : (mac : Str) → count_active_quotes mac m' ≤ count_active_quotes mac m
  pub size : length m' ≤ length m
  pub keys : Unique m → Unique m'
  pub kept :
      (id : Str) (rec : LightningQuoteRecord)
      → Unique m
      → lookup id m ≡ some rec
      → evictable_lightning_quote rec now ≡ false
      → lookup id m' ≡ some rec

pub IsReduced-refl : (now : ℕ) (m : Table) → IsReduced now m m
IsReduced-refl now m = record {
  counts = λ mac. omega arith;
  size = omega arith;
  keys = λ u. u;
  kept = λ id rec u e old. e;
}

pub IsReduced-trans :
    (now : ℕ) (a b c : Table) → IsReduced now a b → IsReduced now b c → IsReduced now a c
IsReduced-trans now a b c f g = record {
  counts = λ mac. omega (arith, f.counts mac, g.counts mac);
  size = omega (arith, f.size, g.size);
  keys = λ u. g.keys (f.keys u);
  kept = λ id rec u e old. g.kept id rec (f.keys u) (f.kept id rec u e old) old;
}

count-erase-le :
    (mac id : Str) (m : Table) → count_active_quotes mac (erase id m) ≤ count_active_quotes mac m
unfolding count_active_quotes erase
count-erase-le mac id [] = omega arith
count-erase-le mac id ((k, rec) ∷ m) = ground (arith, count-erase-le mac id m)

-- Erasing an outstanding quote lowers the count of its client.
pub count-erase-lt :
    (mac id : Str) (m : Table) {rec : LightningQuoteRecord}
    → lookup id m ≡ some rec
    → is_active mac rec ≡ true
    → count_active_quotes mac (erase id m) < count_active_quotes mac m
unfolding count_active_quotes erase lookup
count-erase-lt mac id [] e active = absurd (cc)
count-erase-lt mac id ((k, r) ∷ m) {rec} e active =
    ground (arith, count-erase-le mac id m, count-erase-lt mac id m {rec = rec})

pub count-insert-le :
    (mac id : Str) (rec : LightningQuoteRecord) (m : Table)
    → count_active_quotes mac (insert id rec m)
      ≤ (if is_active mac rec then 1 else 0) + count_active_quotes mac m
unfolding count_active_quotes insert
count-insert-le mac id rec [] = omega arith
count-insert-le mac id rec ((k, r) ∷ m) = ground (arith, count-insert-le mac id rec m)

-- A quote under a new key is counted.
pub count-insert_fresh :
    (mac id : Str) (rec : LightningQuoteRecord) (m : Table)
    → lookup id m ≡ none
    → count_active_quotes mac (insert id rec m)
      ≡ (if is_active mac rec then 1 else 0) + count_active_quotes mac m
unfolding count_active_quotes insert lookup
count-insert_fresh mac id rec [] e = refl
count-insert_fresh mac id rec ((k, r) ∷ m) e = ground (arith, count-insert_fresh mac id rec m)

-- The choice is none of the table's, or is a record that may go.
abbrev IsChoice : ℕ → Str → Str → Table → Str → Type 0
IsChoice now only best m id =
    (id ≡ best)
    ⊎ ((rec : LightningQuoteRecord) × (lookup id m ≡ some rec) × (may_evict now only rec ≡ true))

IsChoice-cons :
    (now : ℕ) (only best k id : Str) (rec : LightningQuoteRecord) (m : Table)
    → contains k m ≡ false
    → IsChoice now only best m id
    → IsChoice now only best ((k, rec) ∷ m) id
unfolding lookup
IsChoice-cons now only best k id rec m new (inl e) = inl e
IsChoice-cons now only best k id rec m new (inr (r, e, may)) =
    inr (r, ground (arith, eq_iff k id), may)

IsChoice-head :
    (now : ℕ) (only best k id : Str) (rec : LightningQuoteRecord) (m : Table)
    → contains k m ≡ false
    → may_evict now only rec ≡ true
    → IsChoice now only k m id
    → IsChoice now only best ((k, rec) ∷ m) id
unfolding lookup
IsChoice-head now only best k id rec m new may (inl e) = inr (rec, ground (arith, eq_iff k id), may)
IsChoice-head now only best k id rec m new may (inr (r, e, may')) =
    inr (r, ground (arith, eq_iff k id), may')

oldest_evictable-IsChoice :
    (now : ℕ) (only : Str) (oldest : ℕ) (best : Str) (m : Table)
    → Unique m
    → IsChoice now only best m (oldest_evictable now only oldest best m)
unfolding oldest_evictable
oldest_evictable-IsChoice now only oldest best [] u = inl refl
oldest_evictable-IsChoice now only oldest best ((k, rec) ∷ m) u =
    elim (Bool-cases
      (may_evict now only rec && (is_empty best || ltb (instant rec.created_at) oldest))) [
        | inl sooner ↦ rw sooner (
            IsChoice-head now only best k _ rec m u.0 (ground arith)
              (oldest_evictable-IsChoice now only (instant rec.created_at) k m u.1))
        | inr later ↦ rw later (
            IsChoice-cons now only best k _ rec m u.0
              (oldest_evictable-IsChoice now only oldest best m u.1))
      ]

-- What `evictOldestEvictableQuoteLocked` takes is a record that may go.
pub evict_oldest-found :
    (now : ℕ) (only : Str) (m : Table)
    → Unique m
    → (evict_oldest now only m).0 ≡ true
    → (id : Str) × (rec : LightningQuoteRecord) × (lookup id m ≡ some rec)
      × (may_evict now only rec ≡ true)
      × ((evict_oldest now only m).1 ≡ erase id m)
unfolding evict_oldest
evict_oldest-found now only m u h =
    let id = oldest_evictable now only 0 [] m in
    let chosen = oldest_evictable-IsChoice now only 0 [] m u in
    elim chosen [
      | inl nothing ↦ absurd (ground arith)
      | inr (rec, e, may) ↦ (id, rec, e, may, ground arith)
    ]

pub evict_oldest-nothing :
    (now : ℕ) (only : Str) (m : Table)
    → (evict_oldest now only m).0 ≡ false
    → (evict_oldest now only m).1 ≡ m
unfolding evict_oldest
evict_oldest-nothing now only m h = ground arith

erase-IsReduced :
    (now : ℕ) (only id : Str) (m : Table) {rec : LightningQuoteRecord}
    → lookup id m ≡ some rec
    → may_evict now only rec ≡ true
    → IsReduced now m (erase id m)
unfolding may_evict
erase-IsReduced now only id m {rec} e may = record {
  counts = λ mac. count-erase-le mac id m;
  size = length-erase-le id m;
  keys = erase-Unique id m;
  kept = λ id' rec' u e' old. ground (arith, eq_iff id id', lookup-erase id' id m);
}

pub evict_oldest-IsReduced :
    (now : ℕ) (only : Str) (m : Table) → Unique m → IsReduced now m (evict_oldest now only m).1
evict_oldest-IsReduced now only m u = elim (Bool-cases (evict_oldest now only m).0) [
  | inl yes_one ↦
      let (id, rec, e, may, out) = evict_oldest-found now only m u yes_one in
      rw out (erase-IsReduced now only id m e may)
  | inr nothing ↦ rw (evict_oldest-nothing now only m nothing) (IsReduced-refl now m)
]

pub hold_watermark-IsReduced :
    (fuel now : ℕ) (m : Table) → Unique m → IsReduced now m (hold_watermark fuel now m).1
unfolding hold_watermark
hold_watermark-IsReduced zero now m u = IsReduced-refl now m
hold_watermark-IsReduced (suc fuel) now m u =
    let (found, m1) = evict_oldest now [] m in
    let once = evict_oldest-IsReduced now [] m u in
    elim (Bool-cases (ltb (length m) quote_table_eviction_watermark)) [
      | inl low ↦ rw low (IsReduced-refl now m)
      | inr high ↦ elim (Bool-cases found) [
        | inr nothing ↦ rw (high, nothing) (IsReduced-refl now m)
        | inl yes_one ↦
            rw (high, yes_one)
              (IsReduced-trans now m m1 (hold_watermark fuel now m1).1 once
                (hold_watermark-IsReduced fuel now m1 (once.keys u)))
      ]
    ]

-- The janitor only drops records, and none that is not stale.
pub drop_stale-counts :
    (mac : Str) (now : ℕ) (m : Table)
    → count_active_quotes mac (drop_stale now m) ≤ count_active_quotes mac m
unfolding drop_stale count_active_quotes
drop_stale-counts mac now [] = omega arith
drop_stale-counts mac now ((k, rec) ∷ m) = ground (arith, drop_stale-counts mac now m)

pub drop_stale-size : (now : ℕ) (m : Table) → length (drop_stale now m) ≤ length m
unfolding drop_stale
drop_stale-size now [] = omega arith
drop_stale-size now ((k, rec) ∷ m) = ground (arith, drop_stale-size now m)

pub drop_stale-missing :
    (k : Str) (now : ℕ) (m : Table) → contains k m ≡ false → contains k (drop_stale now m) ≡ false
unfolding drop_stale lookup
drop_stale-missing k now [] e = refl
drop_stale-missing k now ((j, rec) ∷ m) e = ground (arith, drop_stale-missing k now m)

pub drop_stale-Unique : (now : ℕ) (m : Table) → Unique m → Unique (drop_stale now m)
unfolding drop_stale
drop_stale-Unique now [] u = tt
drop_stale-Unique now ((k, rec) ∷ m) u = elim (Bool-cases (should_delete_lightning_quote rec now)) [
  | inl stale ↦ rw (stale, drop_stale) (drop_stale-Unique now m u.1)
  | inr fresh ↦ rw (fresh, drop_stale) (drop_stale-missing k now m u.0, drop_stale-Unique now m u.1)
]

pub drop_stale-kept :
    (id : Str) (now : ℕ) (m : Table) {rec : LightningQuoteRecord}
    → lookup id m ≡ some rec
    → should_delete_lightning_quote rec now ≡ false
    → lookup id (drop_stale now m) ≡ some rec
unfolding drop_stale lookup
drop_stale-kept id now [] e fresh = cc
drop_stale-kept id now ((k, r) ∷ m) {rec} e fresh =
    ground (arith, drop_stale-kept id now m {rec = rec})
