-- ===== src/Merchant/Quote/Admission/Bounds.antt =====
-- Admission: the room that it makes, and the end of its loop (src/merchant/lightning.go).
use tollgate_module_basic_go.Prelude.{
  ℕ, zero, suc, ◌≤◌, ◌<◌, ◌≡◌, ◌⊎◌, refl, inl, inr, Bool, true, false, [], Str, arith, ltb, leb,
  length, Bool-cases,
}
use tollgate_module_basic_go.Dict.{Unique, length-erase-lt}
use tollgate_module_basic_go.Merchant.Session.{is_empty}
use tollgate_module_basic_go.Merchant.Quote.State.{
  LightningQuoteRecord, max_active_quotes_per_mac, max_active_quotes_global,
  quote_table_eviction_watermark,
}
use tollgate_module_basic_go.Merchant.Quote.Admission.{
  is_active, count_active_quotes, evictable_lightning_quote, may_evict, evict_oldest,
  hold_watermark, admit_within_caps, admit_lightning_quote,
}
use tollgate_module_basic_go.Merchant.Quote.Admission.Eviction.{
  Table, IsReduced, IsReduced-refl, IsReduced-trans, evict_oldest-IsReduced,
  hold_watermark-IsReduced, evict_oldest-found, count-erase-lt,
}

-- The loop at the watermark stops because the table is small enough, or because nothing may go: as
-- many rounds as the table has records are enough.
hold_watermark-stops :
    (fuel now : ℕ) (m : Table)
    → Unique m
    → length m ≤ fuel
    → let m' = (hold_watermark fuel now m).1 in
      (length m' < quote_table_eviction_watermark) ⊎ ((evict_oldest now [] m').0 ≡ false)
unfolding hold_watermark
hold_watermark-stops zero now m u enough = inl (omega arith)
hold_watermark-stops (suc fuel) now m u enough =
    let (found, m1) = evict_oldest now [] m in
    let once = evict_oldest-IsReduced now [] m u in
    elim (Bool-cases (ltb (length m) quote_table_eviction_watermark)) [
      | inl low ↦ rw low (inl (ground arith))
      | inr high ↦ elim (Bool-cases found) [
        | inr nothing ↦ rw (high, nothing) (inr nothing)
        | inl yes_one ↦
            let (id, rec, e, may, out) = evict_oldest-found now [] m u yes_one in
            let shorter = length-erase-lt id m (rw e refl) in
            rw (high, yes_one)
              (hold_watermark-stops fuel now m1 (once.keys u)
                (rw out (omega (arith, shorter, enough))))
      ]
    ]

admit_within_caps-IsReduced :
    (evicted : Bool) (now : ℕ) (m : Table)
    → Unique m
    → IsReduced now m (admit_within_caps evicted now m).1
unfolding admit_within_caps
admit_within_caps-IsReduced evicted now m u = hold_watermark-IsReduced (length m) now m u

-- Admission only makes room.
pub admit-IsReduced :
    (mac : Str) (now : ℕ) (m : Table)
    → Unique m
    → IsReduced now m (admit_lightning_quote mac now m).1
unfolding admit_lightning_quote
admit-IsReduced mac now m u =
    let (found, m1) = evict_oldest now mac m in
    let once = evict_oldest-IsReduced now mac m u in
    elim (Bool-cases (leb max_active_quotes_per_mac (count_active_quotes mac m))) [
      | inr few ↦ rw few (admit_within_caps-IsReduced false now m u)
      | inl many ↦ elim (Bool-cases found) [
        | inr nothing ↦ rw (many, nothing) (IsReduced-refl now m)
        | inl yes_one ↦
            rw (many, yes_one)
              (IsReduced-trans now m m1 (admit_within_caps true now m1).1 once
                (admit_within_caps-IsReduced true now m1 (once.keys u)))
      ]
    ]

may_evict-active :
    (mac : Str) (now : ℕ) (rec : LightningQuoteRecord)
    → is_empty mac ≡ false
    → may_evict now mac rec ≡ true
    → is_active mac rec ≡ true
unfolding may_evict evictable_lightning_quote is_active
may_evict-active mac now rec named may = ground arith

-- An eviction for a client is of one of its outstanding quotes.
evict_oldest-lt :
    (mac : Str) (now : ℕ) (m : Table)
    → Unique m
    → is_empty mac ≡ false
    → (evict_oldest now mac m).0 ≡ true
    → count_active_quotes mac (evict_oldest now mac m).1 < count_active_quotes mac m
evict_oldest-lt mac now m u named h =
    let (id, rec, e, may, out) = evict_oldest-found now mac m u h in
    rw out (count-erase-lt mac id m e (may_evict-active mac now rec named may))

admit_within_caps-room :
    (mac : Str) (evicted : Bool) (now : ℕ) (m : Table)
    → Unique m
    → count_active_quotes mac m < max_active_quotes_per_mac
    → (admit_within_caps evicted now m).0.1 ≡ true
    → let m' = (admit_within_caps evicted now m).1 in
      (count_active_quotes mac m' < max_active_quotes_per_mac)
      × (length m' < max_active_quotes_global)
unfolding admit_within_caps
admit_within_caps-room mac evicted now m u few h =
    let held = hold_watermark-IsReduced (length m) now m u in
    (omega (arith, held.counts mac, few), ground arith)

-- A request that is admitted leaves room for one more quote under both caps.
pub admit-room :
    (mac : Str) (now : ℕ) (m : Table)
    → Unique m
    → is_empty mac ≡ false
    → count_active_quotes mac m ≤ max_active_quotes_per_mac
    → (admit_lightning_quote mac now m).0.1 ≡ true
    → let m' = (admit_lightning_quote mac now m).1 in
      (count_active_quotes mac m' < max_active_quotes_per_mac)
      × (length m' < max_active_quotes_global)
unfolding admit_lightning_quote
admit-room mac now m u named within h =
    let (found, m1) = evict_oldest now mac m in
    let once = evict_oldest-IsReduced now mac m u in
    elim (Bool-cases (leb max_active_quotes_per_mac (count_active_quotes mac m))) [
      | inr few ↦ rw few (admit_within_caps-room mac false now m u (ground arith) (rw few at h))
      | inl many ↦ elim (Bool-cases found) [
        | inr nothing ↦ absurd (ground arith)
        | inl yes_one ↦
            rw (many, yes_one)
              (admit_within_caps-room mac true now m1 (once.keys u)
                (omega (arith, evict_oldest-lt mac now m u named yes_one, within))
                (rw (many, yes_one) at h))
      ]
    ]
