-- ===== src/Merchant/Quote/Admission/Laws.antt =====
-- The order of an invoice (src/merchant/lightning.go): the caps hold, a live invoice survives, and
-- requests that overlap exceed the caps.
use tollgate_module_basic_go.Prelude.{
  ℕ, suc, ◌+◌, ◌≤◌, ◌<◌, ◌≡◌, ◌≢◌, refl, inl, inr, Bool, true, false, Option, none, some, List, [],
  ◌∷◌, Str, arith, eq_iff, str_eq-ne, str_eq_refl, length, Option-cases, ◌∙◌,
}
use tollgate_module_basic_go.Dict.{
  Unique, lookup, insert, lookup-insert, insert-Unique, length-insert-le,
}
use tollgate_module_basic_go.Mac.{
  normalize_mac_address, normalize_mac_address_idem, validate_mac_address, validate-empty,
}
use tollgate_module_basic_go.Merchant.Session.{is_empty}
use tollgate_module_basic_go.Merchant.Quote.State.{
  LightningQuoteRecord, Lightning, should_delete_lightning_quote, cleanup_stale_lightning_quotes,
  drop_stale, any_stale, persist_lightning_quotes, put_quote, max_active_quotes_per_mac,
  max_active_quotes_global,
}
use tollgate_module_basic_go.Merchant.Quote.Admission.{
  is_active, count_active_quotes, evictable_lightning_quote, admit_lightning_quote, MintQuote,
  new_quote, track_quote, admit_order, order_invoice, request_lightning_invoice,
}
use tollgate_module_basic_go.Merchant.Quote.Admission.Eviction.{
  Table, IsReduced, count-insert-le, count-insert_fresh, drop_stale-counts, drop_stale-size,
  drop_stale-Unique, drop_stale-kept,
}
use tollgate_module_basic_go.Merchant.Quote.Admission.Bounds.{admit-IsReduced, admit-room}

-- The caps of the table: the keys are distinct, it holds at most 128 records, and each client has at
-- most 3 quotes outstanding.
pub record IsBounded (m : Table) : Type 0 where
  pub keys : Unique m
  pub size : length m ≤ max_active_quotes_global
  pub counts : (mac : Str) → count_active_quotes mac m ≤ max_active_quotes_per_mac

any_stale-drop_stale : (now : ℕ) (m : Table) → any_stale now m ≡ false → drop_stale now m ≡ m
unfolding any_stale drop_stale
any_stale-drop_stale now [] h = refl
any_stale-drop_stale now ((k, rec) ∷ m) h = ground (arith, any_stale-drop_stale now m)

cleanup-quotes :
    (disk : ℕ → Bool) (now : ℕ) (l : Lightning)
    → (cleanup_stale_lightning_quotes disk now l).lightning_quotes
      ≡ drop_stale now l.lightning_quotes
unfolding cleanup_stale_lightning_quotes persist_lightning_quotes
cleanup-quotes disk now l = ground (arith, any_stale-drop_stale now l.lightning_quotes)

IsBounded-drop_stale : (now : ℕ) (m : Table) → IsBounded m → IsBounded (drop_stale now m)
IsBounded-drop_stale now m b = record {
  keys = drop_stale-Unique now m b.keys;
  size = omega (arith, drop_stale-size now m, b.size);
  counts = λ mac. omega (arith, drop_stale-counts mac now m, b.counts mac);
}

IsBounded-reduced : (now : ℕ) (m m' : Table) → IsReduced now m m' → IsBounded m → IsBounded m'
IsBounded-reduced now m m' r b = record {
  keys = r.keys b.keys;
  size = omega (arith, r.size, b.size);
  counts = λ mac. omega (arith, r.counts mac, b.counts mac);
}

insert-counts :
    (mac other id : Str) (rec : LightningQuoteRecord) (m : Table)
    → normalize_mac_address rec.mac_address ≡ mac
    → count_active_quotes mac m < max_active_quotes_per_mac
    → count_active_quotes other m ≤ max_active_quotes_per_mac
    → count_active_quotes other (insert id rec m) ≤ max_active_quotes_per_mac
unfolding is_active
insert-counts mac other id rec m owner few within =
    ground (arith, count-insert-le other id rec m, eq_iff mac other)

IsBounded-insert :
    (mac id : Str) (rec : LightningQuoteRecord) (m : Table)
    → IsBounded m
    → normalize_mac_address rec.mac_address ≡ mac
    → count_active_quotes mac m < max_active_quotes_per_mac
    → length m < max_active_quotes_global
    → IsBounded (insert id rec m)
IsBounded-insert mac id rec m b owner few room = record {
  keys = insert-Unique id rec m b.keys;
  size = omega (arith, length-insert-le id rec m, room);
  counts = λ other. insert-counts mac other id rec m owner few (b.counts other);
}

-- The address of a request that is not refused at once is not empty.
validate-nonempty : (mac : Str) → validate_mac_address mac ≡ true → is_empty mac ≡ false
validate-nonempty [] h = cc validate-empty
validate-nonempty (c ∷ mac) h = refl

new_quote-active :
    (mac url : Str) (amount : ℕ) (quote : MintQuote) (now : ℕ)
    → normalize_mac_address mac ≡ mac
    → is_active mac (new_quote mac url amount quote now) ≡ true
unfolding is_active new_quote
new_quote-active mac url amount quote now owner = rw owner (str_eq_refl mac)

-- The mint's answer does not reuse this id.
abbrev pub IsNewId : Str → Option MintQuote → Type 0
IsNewId id none = Unit
IsNewId id (some quote) = quote.quote_id ≢ id

module _ (normalize : Str → Str) (permits : List ℕ → ℕ → Bool) (disk : ℕ → Bool) where
  admit_order-quotes :
      (mac url : Str) (now : ℕ) (l : Lightning)
      → (admit_order normalize permits disk mac url now l).1.lightning_quotes
        ≡ (admit_lightning_quote mac now (drop_stale now l.lightning_quotes)).1
  unfolding admit_order persist_lightning_quotes
  admit_order-quotes mac url now l = ground (arith, cleanup-quotes disk now l)

  admit_order-admitted :
      (mac url : Str) (now : ℕ) (l : Lightning)
      → (admit_order normalize permits disk mac url now l).0 ≡ none
      → (admit_lightning_quote mac now (drop_stale now l.lightning_quotes)).0.1 ≡ true
  unfolding admit_order persist_lightning_quotes
  admit_order-admitted mac url now l h = ground (arith, cleanup-quotes disk now l)

  admit_order-IsBounded :
      (mac url : Str) (now : ℕ) (l : Lightning)
      → IsBounded l.lightning_quotes
      → IsBounded (admit_order normalize permits disk mac url now l).1.lightning_quotes
  admit_order-IsBounded mac url now l b =
      let fresh = IsBounded-drop_stale now l.lightning_quotes b in
      rw (admit_order-quotes mac url now l)
        (IsBounded-reduced now _ _ (admit-IsReduced mac now _ fresh.keys) fresh)

  track_quote-IsBounded :
      (mac url : Str) (amount now : ℕ) (answer : Option MintQuote) (l : Lightning)
      → IsBounded l.lightning_quotes
      → normalize_mac_address mac ≡ mac
      → count_active_quotes mac l.lightning_quotes < max_active_quotes_per_mac
      → length l.lightning_quotes < max_active_quotes_global
      → IsBounded (track_quote disk mac url amount now answer l).1.lightning_quotes
  unfolding track_quote put_quote persist_lightning_quotes new_quote
  track_quote-IsBounded mac url amount now none l b owner few room = b
  track_quote-IsBounded mac url amount now (some quote) l b owner few room =
      IsBounded-insert mac quote.quote_id (new_quote mac url amount quote now) l.lightning_quotes b
        owner few room

  admit_order-keeps :
      (mac url : Str) (now : ℕ) (l : Lightning) (id : Str) (rec : LightningQuoteRecord)
      → Unique l.lightning_quotes
      → lookup id l.lightning_quotes ≡ some rec
      → should_delete_lightning_quote rec now ≡ false
      → evictable_lightning_quote rec now ≡ false
      → lookup id (admit_order normalize permits disk mac url now l).1.lightning_quotes ≡ some rec
  admit_order-keeps mac url now l id rec u e fresh young =
      let keys = drop_stale-Unique now l.lightning_quotes u in
      rw (admit_order-quotes mac url now l) (
        (admit-IsReduced mac now (drop_stale now l.lightning_quotes) keys).kept id rec keys
          (drop_stale-kept id now l.lightning_quotes e fresh) young)

  track_quote-keeps :
      (mac url : Str) (amount now : ℕ) (answer : Option MintQuote) (l : Lightning) (id : Str)
      {rec : LightningQuoteRecord}
      → IsNewId id answer
      → lookup id l.lightning_quotes ≡ some rec
      → lookup id (track_quote disk mac url amount now answer l).1.lightning_quotes ≡ some rec
  unfolding track_quote put_quote persist_lightning_quotes
  track_quote-keeps mac url amount now none l id new e = e
  track_quote-keeps mac url amount now (some quote) l id {rec} new e =
      rw
        (
          lookup-insert id quote.quote_id (new_quote mac url amount quote now) l.lightning_quotes,
          str_eq-ne quote.quote_id id new,
        )
        e

  -- An order that reaches the mint and gets a quote under a new id adds one to its client's count,
  -- whatever the count has become since it was admitted.
  order_invoice-counts :
      (between : Lightning → Lightning) (mac url : Str) (amount now later : ℕ) (quote : MintQuote)
      (l : Lightning)
      → normalize_mac_address mac ≡ mac
      → (admit_order normalize permits disk mac url now l).0 ≡ none
      → let l1 = between (admit_order normalize permits disk mac url now l).1 in
        lookup quote.quote_id l1.lightning_quotes ≡ none
        → let out =
            order_invoice normalize permits disk between mac url amount now later (some quote) l in
          count_active_quotes mac out.1.lightning_quotes
          ≡ suc (count_active_quotes mac l1.lightning_quotes)
  unfolding order_invoice track_quote put_quote persist_lightning_quotes
  order_invoice-counts between mac url amount now later quote l owner ok new =
      let l1 = between (admit_order normalize permits disk mac url now l).1 in
      rw (ok, order_invoice)
        (count-insert_fresh mac quote.quote_id (new_quote mac url amount quote later)
            l1.lightning_quotes new
          ∙ rw (new_quote-active mac url amount quote later owner) (omega arith))

  -- Requests of one client that overlap are not held to the cap: where a second request is made while
  -- the mint is asked for the first, both are admitted, and the mint gives each a new quote, the
  -- client ends with two more outstanding quotes than it had when both were admitted, although
  -- admission only asks for room for one.
  pub order_invoice-overlap :
      (mac url : Str) (amount now later : ℕ) (first second : MintQuote) (l : Lightning)
      → normalize_mac_address mac ≡ mac
      → (admit_order normalize permits disk mac url now l).0 ≡ none
      → let l1 = (admit_order normalize permits disk mac url now l).1 in
        let other = λ (w : Lightning).
          (order_invoice normalize permits disk
            (λ w'. w')
            mac
            url
            amount
            now
            later
            (some second)
            w).1 in
        (admit_order normalize permits disk mac url now l1).0 ≡ none
        → let l2 = (admit_order normalize permits disk mac url now l1).1 in
          lookup second.quote_id l2.lightning_quotes ≡ none
          → lookup first.quote_id (other l1).lightning_quotes ≡ none
          → let out =
              order_invoice normalize permits disk other mac url amount now later (some first) l in
            count_active_quotes mac out.1.lightning_quotes
            ≡ 2 + count_active_quotes mac l2.lightning_quotes
  order_invoice-overlap mac url amount now later first second l owner ok ok2 new2 new1 =
      let l1 = (admit_order normalize permits disk mac url now l).1 in
      let other = λ (w : Lightning).
        (order_invoice normalize permits disk (λ w'. w') mac url amount now later (some second)
          w).1 in
      omega (
        arith,
        order_invoice-counts other mac url amount now later first l owner ok new1,
        order_invoice-counts (λ w. w) mac url amount now later second l1 owner ok2 new2,
      )

  module _ (between : Lightning → Lightning)
      (quiet : (l : Lightning) → (between l).lightning_quotes ≡ l.lightning_quotes) where
    order_invoice-IsBounded :
        (mac url : Str) (amount now later : ℕ) (answer : Option MintQuote) (l : Lightning)
        → normalize_mac_address mac ≡ mac
        → is_empty mac ≡ false
        → IsBounded l.lightning_quotes
        → let out =
            order_invoice normalize permits disk between mac url amount now later answer l in
          IsBounded out.1.lightning_quotes
    unfolding order_invoice
    order_invoice-IsBounded mac url amount now later answer l owner named b =
        let (refusal, l1) = admit_order normalize permits disk mac url now l in
        let kept = admit_order-IsBounded mac url now l b in
        elim (Option-cases refusal) [
          | inr (e, gone) ↦ rw (gone, order_invoice) kept
          | inl ok ↦
              let fresh = IsBounded-drop_stale now l.lightning_quotes b in
              let room =
                admit-room mac now (drop_stale now l.lightning_quotes) fresh.keys named
                  (fresh.counts mac) (admit_order-admitted mac url now l ok) in
              let same = quiet l1 ∙ admit_order-quotes mac url now l in
              rw (ok, order_invoice)
                (track_quote-IsBounded mac url amount later answer (between l1) (rw (quiet l1) kept)
                  owner (rw same room.0) (rw same room.1))
        ]

    order_invoice-keeps :
        (mac url : Str) (amount now later : ℕ) (answer : Option MintQuote) (l : Lightning)
        (id : Str) (rec : LightningQuoteRecord)
        → Unique l.lightning_quotes
        → lookup id l.lightning_quotes ≡ some rec
        → should_delete_lightning_quote rec now ≡ false
        → evictable_lightning_quote rec now ≡ false
        → IsNewId id answer
        → let out =
            order_invoice normalize permits disk between mac url amount now later answer l in
          lookup id out.1.lightning_quotes ≡ some rec
    unfolding order_invoice
    order_invoice-keeps mac url amount now later answer l id rec u e fresh young new =
        let (refusal, l1) = admit_order normalize permits disk mac url now l in
        let kept = admit_order-keeps mac url now l id rec u e fresh young in
        elim (Option-cases refusal) [
          | inr (err, gone) ↦ rw (gone, order_invoice) kept
          | inl ok ↦
              rw (ok, order_invoice)
                (track_quote-keeps mac url amount later answer (between l1) id new
                  (rw (quiet l1) kept))
        ]

    -- A request for an invoice keeps the caps of the table, whatever it answers, when no other
    -- goroutine changes the table while the mint is asked: distinct quotes, at most 128 records, and
    -- at most 3 outstanding for each client.
    pub request_lightning_invoice-IsBounded :
        (mac_address url : Str) (amount now later : ℕ) (answer : Option MintQuote) (l : Lightning)
        → IsBounded l.lightning_quotes
        → let out =
            request_lightning_invoice normalize permits disk between mac_address url amount now
              later answer l in
          IsBounded out.1.lightning_quotes
    unfolding request_lightning_invoice
    request_lightning_invoice-IsBounded mac_address url amount now later answer l b =
        let mac = normalize_mac_address mac_address in
        let ordered = λ (named : validate_mac_address mac ≡ true).
          order_invoice-IsBounded mac (normalize url) amount now later answer l
            (normalize_mac_address_idem mac_address) (validate-nonempty mac named) b in
        ground arith

    -- A request by anyone spares the other quotes, where the table has distinct keys and no other
    -- goroutine changes it while the mint is asked: a quote that is neither stale nor old enough to be evicted keeps its record,
    -- unless the mint gives its id to the new one.
    pub request_lightning_invoice-keeps :
        (mac_address url : Str) (amount now later : ℕ) (answer : Option MintQuote) (l : Lightning)
        (id : Str) (rec : LightningQuoteRecord)
        → Unique l.lightning_quotes
        → lookup id l.lightning_quotes ≡ some rec
        → should_delete_lightning_quote rec now ≡ false
        → evictable_lightning_quote rec now ≡ false
        → IsNewId id answer
        → let out =
            request_lightning_invoice normalize permits disk between mac_address url amount now
              later answer l in
          lookup id out.1.lightning_quotes ≡ some rec
    unfolding request_lightning_invoice
    request_lightning_invoice-keeps mac_address url amount now later answer l id rec u e fresh young
          new =
        let mac = normalize_mac_address mac_address in
        let ordered =
          order_invoice-keeps mac (normalize url) amount now later answer l id rec u e fresh young
            new in
        ground arith
