-- ===== src/MintHealth.antt =====
-- Which mints are up (src/merchant/mint_health_tracker.go). The tracker's maps have the mint's URL as
-- their key and zero as their default: here they are one map of records. A probe is a parameter: its
-- outcome, and the wait that the mint asked for. The configuration is read once per call.
pub mod Hysteresis
pub mod Advertised
pub mod Check
use tollgate_module_basic_go.Prelude.{
  ℕ, zero, suc, ◌+◌, ◌-◌, ◌%◌, Bool, true, false, not, ◌&&◌, ◌||◌, Option, none, some, List, [],
  ◌∷◌, Str, ltb, leb, ◌==◌, if◌then◌else◌, is_some,
}
use tollgate_module_basic_go.Dict.{Dict, lookup, insert}
use tollgate_module_basic_go.Merchant.State.{MintConfig}

-- `probeOutcome`
pub data ProbeOutcome : Type 0 where
  probe_ok probe_throttled probe_failed : ProbeOutcome

-- `reachable`
abbrev pub is_reachable_outcome : ProbeOutcome → Bool
is_reachable_outcome probe_ok = true
is_reachable_outcome probe_throttled = true
is_reachable_outcome probe_failed = false

-- The entries of one mint. The counters are `uint8`, and `none` is the zero time or no entry.
pub record MintState : Type 0 where
  pub is_reachable : Bool
  pub successes : ℕ
  pub failures : ℕ
  pub throttles : ℕ
  pub streak_start : Option ℕ
  pub last_success : Option ℕ
  pub is_throttled : Bool
  pub next_probe_after : Option ℕ

-- `first_calls` and `changed_calls` count the calls of `onFirstReachable` and
-- `onReachableSetChanged`; the flags say whether these are registered.
pub record MintHealthTracker : Type 0 where
  pub mints : Dict MintState
  pub recovery_threshold : ℕ
  pub failure_threshold : ℕ
  pub persistent_throttle_probes : ℕ
  pub has_on_first : Bool
  pub has_on_changed : Bool
  pub had_reachable_mint : Bool
  pub reachable_count : ℕ
  pub first_calls : ℕ
  pub changed_calls : ℕ

abbrev pub new_mint : MintState
new_mint = record {
  is_reachable = false;
  successes = 0;
  failures = 0;
  throttles = 0;
  streak_start = none;
  last_success = none;
  is_throttled = false;
  next_probe_after = none;
}

or_new_mint : Option MintState → MintState
or_new_mint none = new_mint
or_new_mint (some s) = s

unfoldable pub mint_state : Str → MintHealthTracker → MintState
unfolding or_new_mint
mint_state url t = or_new_mint (lookup url t.mints)

unfoldable pub put_mint : Str → MintState → MintHealthTracker → MintHealthTracker
put_mint url s t = record t { mints = insert url s t.mints }

-- `x++` on `uint8`.
abbrev pub next8 : ℕ → ℕ
next8 x = (x + 1) % 256

-- `noSuccessSince`
no_success_since : Option ℕ → Option ℕ → Bool
no_success_since none since = true
no_success_since (some last) none = false
no_success_since (some last) (some since) = ltb last since

-- `throttleStreakStart`, once a throttled answer has come at `now`.
streak_from : Option ℕ → ℕ → Option ℕ
streak_from none now = some now
streak_from (some start) now = some start

-- The throttled branch of `applyThrottleAnswerLocked`, after the counters.
demote : ℕ → MintState → MintState
unfolding no_success_since
demote probes s =
    if s.is_throttled
      || probes == 0
      || ltb s.throttles probes
      || not (no_success_since s.last_success s.streak_start)
    then s
    else record s { is_throttled = true }

answer_by_outcome : ℕ → ProbeOutcome → ℕ → MintState → MintState
unfolding streak_from demote
answer_by_outcome probes probe_throttled now s = demote probes (record s {
  throttles = if ltb s.throttles 255 then s.throttles + 1 else s.throttles;
  streak_start = streak_from s.streak_start now;
})
answer_by_outcome probes probe_ok now s = record s {
  throttles = 0;
  streak_start = none;
  last_success = some now;
  is_throttled = false;
}
answer_by_outcome probes probe_failed now s = s

-- `applyThrottleAnswerLocked` on the entries of its mint; the flags that it returns are logged only.
unfoldable pub apply_throttle_answer : ℕ → ProbeOutcome → ℕ → ℕ → MintState → MintState
unfolding answer_by_outcome
apply_throttle_answer probes outcome wait now s =
    answer_by_outcome probes outcome now
      (record s { next_probe_after = if ltb 0 wait then some (now + wait) else none })

-- The reachability counters of `runProactiveCheck`.
unfoldable pub count_proactive : ℕ → ℕ → ProbeOutcome → MintState → MintState
count_proactive recovery failure outcome s =
    if is_reachable_outcome outcome
    then record s {
      successes = next8 s.successes;
      failures = 0;
      is_reachable = s.is_reachable || leb recovery (next8 s.successes);
    }
    else record s {
      successes = 0;
      failures = next8 s.failures;
      is_reachable = s.is_reachable && not (leb failure (next8 s.failures));
    }

-- Those of `runAggressiveCheck`: one answer is enough.
unfoldable pub count_aggressive : ProbeOutcome → MintState → MintState
count_aggressive outcome s =
    if is_reachable_outcome outcome
    then record s { successes = next8 s.successes; failures = 0; is_reachable = true }
    else record s { successes = 0; failures = next8 s.failures }

-- Those of `RunInitialProbe`.
unfoldable pub seed_initial : ℕ → ProbeOutcome → MintState → MintState
seed_initial recovery outcome s =
    if is_reachable_outcome outcome
    then record s { successes = recovery; failures = 0; is_reachable = true }
    else record s { successes = 0; failures = 1; is_reachable = false }

-- `probeDue`
due : Option ℕ → ℕ → Bool
due none now = true
due (some not_before) now = leb not_before now

unfoldable pub probe_due : Str → ℕ → MintHealthTracker → Bool
unfolding due
probe_due url now t = due (mint_state url t).next_probe_after now

-- One mint of `runProactiveCheck`; a mint that is not due keeps its entries.
unfoldable pub observe_proactive :
    (Str → ProbeOutcome × ℕ) → ℕ → Str → MintHealthTracker → MintHealthTracker
observe_proactive probe now url t =
    let (outcome, wait) = probe url in
    put_mint url
      (count_proactive t.recovery_threshold t.failure_threshold outcome
        (apply_throttle_answer t.persistent_throttle_probes outcome wait now (mint_state url t)))
      t

-- The mints that are due when the check begins.
unfoldable pub due_mints : ℕ → MintHealthTracker → List MintConfig → List MintConfig
due_mints now t [] = []
due_mints now t (mint ∷ mints) =
    let rest = due_mints now t mints in if probe_due mint.url now t then mint ∷ rest else rest

unfoldable pub observe_all :
    (Str → ProbeOutcome × ℕ) → ℕ → List MintConfig → MintHealthTracker → MintHealthTracker
observe_all probe now [] t = t
observe_all probe now (mint ∷ mints) t =
    observe_all probe now mints (observe_proactive probe now mint.url t)

-- `GetReachableMintConfigs`
unfoldable pub get_reachable_mint_configs : List MintConfig → MintHealthTracker → List MintConfig
get_reachable_mint_configs [] t = []
get_reachable_mint_configs (mint ∷ mints) t =
    let rest = get_reachable_mint_configs mints t in
    if (mint_state mint.url t).is_reachable then mint ∷ rest else rest

unfoldable pub not_throttled : MintHealthTracker → List MintConfig → List MintConfig
not_throttled t [] = []
not_throttled t (mint ∷ mints) =
    let rest = not_throttled t mints in
    if (mint_state mint.url t).is_throttled then rest else mint ∷ rest

unless_empty : List MintConfig → List MintConfig → List MintConfig
unless_empty [] reachable = reachable
unless_empty (mint ∷ mints) reachable = mint ∷ mints

-- `GetAdvertisedMintConfigs`
unfoldable pub get_advertised_mint_configs : List MintConfig → MintHealthTracker → List MintConfig
unfolding unless_empty
get_advertised_mint_configs mints t =
    let reachable = get_reachable_mint_configs mints t in
    unless_empty (not_throttled t reachable) reachable

count : List MintConfig → ℕ
count [] = 0
count (mint ∷ mints) = count mints + 1

-- The end of a check: the count of the reachable mints, and the callbacks that are due.
unfoldable pub settle_check : List MintConfig → MintHealthTracker → MintHealthTracker
unfolding count
settle_check mints t =
    let new_count = count (get_reachable_mint_configs mints t) in
    let first = not t.had_reachable_mint && t.has_on_first && ltb 0 new_count in
    let changed = not (new_count == t.reachable_count) && t.has_on_changed in
    record t {
      reachable_count = new_count;
      had_reachable_mint = t.had_reachable_mint || first;
      first_calls = if first then t.first_calls + 1 else t.first_calls;
      changed_calls = if changed then t.changed_calls + 1 else t.changed_calls;
    }

-- `runProactiveCheck`
unfoldable pub run_proactive_check :
    (Str → ProbeOutcome × ℕ) → ℕ → List MintConfig → MintHealthTracker → MintHealthTracker
run_proactive_check probe now mints t =
    settle_check mints (observe_all probe now (due_mints now t mints) t)

observe_aggressive : (Str → ProbeOutcome × ℕ) → ℕ → Str → MintHealthTracker → MintHealthTracker
observe_aggressive probe now url t =
    let (outcome, wait) = probe url in
    put_mint url
      (count_aggressive outcome
        (apply_throttle_answer t.persistent_throttle_probes outcome wait now (mint_state url t)))
      t

-- The mints due in `runAggressiveCheck`, and whether one of them came back.
observe_due :
    (Str → ProbeOutcome × ℕ) → ℕ → List MintConfig → MintHealthTracker → Bool × MintHealthTracker
unfolding observe_aggressive
observe_due probe now [] t = (false, t)
observe_due probe now (mint ∷ mints) t =
    let back =
      is_reachable_outcome (probe mint.url).0 && not (mint_state mint.url t).is_reachable in
    let (rest, t') = observe_due probe now mints (observe_aggressive probe now mint.url t) in
    (back || rest, t')

-- `runAggressiveCheck`
unfoldable pub run_aggressive_check :
    (Str → ProbeOutcome × ℕ) → ℕ → List MintConfig → MintHealthTracker → Bool × MintHealthTracker
unfolding observe_due
run_aggressive_check probe now mints t =
    let (recovered, t1) = observe_due probe now (due_mints now t mints) t in
    (recovered, settle_check mints t1)

take : ℕ → List MintConfig → List MintConfig
take zero mints = []
take (suc n) [] = []
take (suc n) (mint ∷ mints) = mint ∷ take n mints

seed_all : (Str → ProbeOutcome × ℕ) → ℕ → List MintConfig → MintHealthTracker → MintHealthTracker
seed_all probe now [] t = t
seed_all probe now (mint ∷ mints) t =
    let (outcome, wait) = probe mint.url in
    seed_all probe now mints (
      put_mint mint.url
        (apply_throttle_answer t.persistent_throttle_probes outcome wait now
          (seed_initial t.recovery_threshold outcome (mint_state mint.url t)))
        t)

-- `RunInitialProbe`: the startup budget is enough for the first `probed` mints, and the others keep
-- their entries.
unfoldable pub run_initial_probe :
    (Str → ProbeOutcome × ℕ) → ℕ → ℕ → List MintConfig → MintHealthTracker → MintHealthTracker
unfolding take seed_all count
run_initial_probe probe probed now mints t =
    let t1 = seed_all probe now (take probed mints) t in
    let new_count = count (get_reachable_mint_configs mints t1) in
    record t1 {
      reachable_count = new_count;
      had_reachable_mint = t.had_reachable_mint || ltb 0 new_count;
    }

-- `MarkUnreachable`
unfoldable pub mark_unreachable : Str → MintHealthTracker → MintHealthTracker
mark_unreachable url t =
    let s = mint_state url t in
    let t1 = put_mint url (record s { is_reachable = false; successes = 0 }) t in
    if s.is_reachable
    then record t1 {
      reachable_count = t.reachable_count - 1;
      changed_calls = if t.has_on_changed then t.changed_calls + 1 else t.changed_calls;
    }
    else t1

-- `SetOnFirstReachableForDegraded`
unfoldable pub set_on_first_reachable_for_degraded : Bool → MintHealthTracker → MintHealthTracker
set_on_first_reachable_for_degraded registered t = record t {
  has_on_first = registered;
  had_reachable_mint = false;
}
