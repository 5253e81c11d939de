-- ===== src/Merchant/Quote/State.antt =====
-- The records of src/merchant/lightning.go and of its file (src/merchant/quote_store.go). `none` is
-- the zero `time.Time`.
use tollgate_module_basic_go.Prelude.{
  ℕ, ◌+◌, ◌-◌, ◌*◌, ◌^◌, Bool, false, not, ◌&&◌, ◌||◌, Option, none, some, List, [], ◌∷◌, Str, ltb,
  leb, ◌==◌, if◌then◌else◌,
}
use tollgate_module_basic_go.Prelude.Words.{at_unix, second, minute}
use tollgate_module_basic_go.Dict.{Dict, insert, erase}
use tollgate_module_basic_go.Merchant.State.{Merchant}

-- `tollwallet.MintQuoteState`
pub data MintQuoteState : Type 0 where
  unpaid paid issued pending unknown : MintQuoteState

-- `lightningQuoteRecord`; `cached_state` is `CachedState` with `CachedStateAt`, where
-- `HasCachedState`.
pub record LightningQuoteRecord : Type 0 where
  pub bolt11 : Str
  pub mac_address : Str
  pub mint_url : Str
  pub amount : ℕ
  pub expiry : ℕ
  pub allotment : ℕ
  pub created_at : Option ℕ
  pub completed_at : Option ℕ
  pub session_granted : Bool
  pub processing : Bool
  pub cached_state : Option (MintQuoteState × ℕ)

-- `persistedQuote`
pub record PersistedQuote : Type 0 where
  pub bolt11 : Str
  pub mac_address : Str
  pub mint_url : Str
  pub amount : ℕ
  pub expiry : ℕ
  pub allotment : ℕ
  pub created_at : Option ℕ
  pub completed_at : Option ℕ
  pub session_granted : Bool

-- One mint's entry of `mintQuoteBudget`: the instants of the calls of its limiter, which are all that
-- the limiter's next answer depends on.
pub record MintQuoteBucket : Type 0 where
  pub calls : List ℕ
  pub last_seen : ℕ

-- The fields of `Merchant` that only the Lightning sale uses, beside the rest of the merchant;
-- `quote_file` is what the store holds, `quote_writes` counts its writes, and `quote_monitors` are the
-- quotes whose `monitorLightningQuote` was started.
pub record Lightning : Type 0 where
  pub merchant : Merchant
  pub lightning_quotes : Dict LightningQuoteRecord
  pub mint_quote_budget : Dict MintQuoteBucket
  pub quote_file : Dict PersistedQuote
  pub quote_writes : ℕ
  pub quote_monitors : List Str

abbrev pub lightning_quote_state_cache_ttl : ℕ
lightning_quote_state_cache_ttl = 2 * second

abbrev pub lightning_quote_monitor_interval : ℕ
lightning_quote_monitor_interval = 5 * second

abbrev pub lightning_quote_monitor_max_backoff : ℕ
lightning_quote_monitor_max_backoff = 30 * second

abbrev pub lightning_quote_expiry_grace_period : ℕ
lightning_quote_expiry_grace_period = 5 * minute

abbrev pub lightning_quote_max_age : ℕ
lightning_quote_max_age = 30 * minute

abbrev pub lightning_quote_settled_retention : ℕ
lightning_quote_settled_retention = 10 * minute

abbrev pub max_active_quotes_per_mac : ℕ
max_active_quotes_per_mac = 3

abbrev pub max_active_quotes_global : ℕ
max_active_quotes_global = 128

abbrev pub quote_table_eviction_watermark : ℕ
quote_table_eviction_watermark = 102

abbrev pub quote_eviction_min_age : ℕ
quote_eviction_min_age = 5 * minute

abbrev pub mint_quote_budget_max_mints : ℕ
mint_quote_budget_max_mints = 64

-- `time.Unix(int64(s), 0)`: from this bound on the seconds wrap around into the distant past.
unix_of_uint64 : ℕ → ℕ
unix_of_uint64 s = if leb (2 ^ 63 - 62135596800) s then 0 else at_unix s

-- `lightningQuoteExpiryTime`
quote_expiry_time : LightningQuoteRecord → Option ℕ
unfolding unix_of_uint64
quote_expiry_time rec =
    if rec.expiry == 0
    then none
    else if ltb 1000000000 rec.expiry
    then some (unix_of_uint64 rec.expiry)
    else elim rec.created_at [ none ↦ none | some t ↦ some (t + rec.expiry * second) ]

-- An instant that is set lies this long in the past.
unfoldable pub is_past : ℕ → Option ℕ → ℕ → Bool
is_past age none now = false
is_past age (some t) now = leb (t + age) now

is_over : Option ℕ → ℕ → Bool
is_over none now = false
is_over (some t) now = ltb (t + lightning_quote_expiry_grace_period) now

-- `shouldDeleteLightningQuote`
unfoldable pub should_delete_lightning_quote : LightningQuoteRecord → ℕ → Bool
unfolding is_over quote_expiry_time
should_delete_lightning_quote rec now =
    not rec.processing
    && ((rec.session_granted && is_past lightning_quote_settled_retention rec.completed_at now)
        || is_over (quote_expiry_time rec) now
        || is_past lightning_quote_max_age rec.created_at now)

-- The persisted part of each record, and the record that is restored from it.
unfoldable pub saved : LightningQuoteRecord → PersistedQuote
saved rec = record {
  bolt11 = rec.bolt11;
  mac_address = rec.mac_address;
  mint_url = rec.mint_url;
  amount = rec.amount;
  expiry = rec.expiry;
  allotment = rec.allotment;
  created_at = rec.created_at;
  completed_at = rec.completed_at;
  session_granted = rec.session_granted;
}

unfoldable pub restored : PersistedQuote → LightningQuoteRecord
restored pq = record {
  bolt11 = pq.bolt11;
  mac_address = pq.mac_address;
  mint_url = pq.mint_url;
  amount = pq.amount;
  expiry = pq.expiry;
  allotment = pq.allotment;
  created_at = pq.created_at;
  completed_at = pq.completed_at;
  session_granted = pq.session_granted;
  processing = false;
  cached_state = none;
}

-- `saveQuotes`: what a write of the table leaves in the file.
unfoldable pub save_quotes : Dict LightningQuoteRecord → Dict PersistedQuote
save_quotes [] = []
save_quotes ((id, rec) ∷ m) = (id, saved rec) ∷ save_quotes m

-- `persistLightningQuotes`: a write that fails leaves the file as it was.
unfoldable pub persist_lightning_quotes : (ℕ → Bool) → Lightning → Lightning
persist_lightning_quotes disk l = record l {
  quote_file = if disk l.quote_writes then save_quotes l.lightning_quotes else l.quote_file;
  quote_writes = l.quote_writes + 1;
}

unfoldable pub put_quote : Str → LightningQuoteRecord → Lightning → Lightning
put_quote id rec l = record l { lightning_quotes = insert id rec l.lightning_quotes }

-- `deleteLightningQuote`
unfoldable pub delete_lightning_quote : (ℕ → Bool) → Str → Lightning → Lightning
delete_lightning_quote disk id l =
    persist_lightning_quotes disk (record l { lightning_quotes = erase id l.lightning_quotes })

unfoldable pub drop_stale : ℕ → Dict LightningQuoteRecord → Dict LightningQuoteRecord
drop_stale now [] = []
drop_stale now ((id, rec) ∷ m) =
    let rest = drop_stale now m in
    if should_delete_lightning_quote rec now then rest else (id, rec) ∷ rest

unfoldable pub any_stale : ℕ → Dict LightningQuoteRecord → Bool
any_stale now [] = false
any_stale now ((id, rec) ∷ m) = should_delete_lightning_quote rec now || any_stale now m

-- `cleanupStaleLightningQuotes`
unfoldable pub cleanup_stale_lightning_quotes : (ℕ → Bool) → ℕ → Lightning → Lightning
cleanup_stale_lightning_quotes disk now l =
    if any_stale now l.lightning_quotes
    then persist_lightning_quotes disk
        (record l { lightning_quotes = drop_stale now l.lightning_quotes })
    else l
