-- ===== src/Upstream/Usage.antt =====
-- The tracker of what an upstream gateway has counted
-- (src/upstream_session_manager/upstream_usage_tracker.go). The HTTP request is a parameter.
pub mod Laws
use tollgate_module_basic_go.Prelude.{
  ℕ, ◌+◌, ◌-◌, ◌*◌, ◌/◌, Bool, true, false, not, ◌&&◌, ◌||◌, Option, none, some, List, [], ◌∷◌, Str,
  trim, ltb, leb, ◌==◌, if◌then◌else◌,
}
use tollgate_module_basic_go.Prelude.Words.{second}
use tollgate_module_basic_go.Prelude.Decimal.{Signed, plus, minus, parse_int}

abbrev first_part : ℕ → List Str → List Str
first_part c [] = (c ∷ []) ∷ []
first_part c (part ∷ parts) = (c ∷ part) ∷ parts

-- `strings.Split(s, "/")`
unfoldable pub split_slash : Str → List Str
split_slash [] = [] ∷ []
split_slash (c ∷ s) = let rest = split_slash s in if c == b'/' then [] ∷ rest else first_part c rest

-- The two numbers: `-1/-1` stands for no session, and every other negative number is an error.
numbers : Option Signed → Option Signed → Option (ℕ × ℕ)
numbers none allotment = none
numbers (some usage) none = none
numbers (some (plus usage)) (some (plus allotment)) = some (usage, allotment)
numbers (some (plus usage)) (some (minus allotment)) = none
numbers (some (minus usage)) (some (plus allotment)) = none
numbers (some (minus usage)) (some (minus allotment)) =
    if usage == 1 && allotment == 1 then some (0, 0) else none

parse_parts : List Str → Option (ℕ × ℕ)
unfolding numbers
parse_parts (usage ∷ allotment ∷ []) = numbers (parse_int usage) (parse_int allotment)
parse_parts parts = none

-- `parseUsageResponse`
unfoldable pub parse_usage_response : Str → Option (ℕ × ℕ)
unfolding parse_parts
parse_usage_response body = parse_parts (split_slash (trim body))

-- `UpstreamUsageTracker`; `last_payment_trigger` is `none` before the first, `clamp_logged` is the
-- offset of the last warning, and `renewals` are the calls of the renewal callback, the last one
-- first, each with its time and the usage that it is given.
pub record UpstreamUsageTracker : Type 0 where
  pub renewal_offset : ℕ
  pub total_allotment : ℕ
  pub last_usage : ℕ
  pub last_allotment : ℕ
  pub poll_count : ℕ
  pub last_payment_trigger : Option ℕ
  pub clamp_logged : Option ℕ
  pub renewals : List (ℕ × ℕ)

-- `time.Since(t) < 10 * time.Second`
unfoldable pub throttled : Option ℕ → ℕ → Bool
throttled none now = false
throttled (some t) now = ltb now (t + 10 * second)

unfoldable pub trigger : ℕ → ℕ → UpstreamUsageTracker → UpstreamUsageTracker
trigger now usage u = record u {
  last_payment_trigger = some now;
  renewals = (now, usage) ∷ u.renewals;
}

-- The offset that counts: no more than half of the allotment.
unfoldable pub effective_offset : ℕ → ℕ → ℕ
effective_offset allotment offset = if ltb (allotment / 2) offset then allotment / 2 else offset

log_clamp : ℕ → UpstreamUsageTracker → UpstreamUsageTracker
log_clamp allotment u = record u {
  clamp_logged = if ltb (allotment / 2) u.renewal_offset then some (allotment / 2) else none;
}

-- The session is in its last part: `remaining <= effectiveOffset` on `int64`.
abbrev runs_out : ℕ → ℕ → ℕ → Bool
runs_out usage allotment offset = leb allotment (usage + effective_offset allotment offset)

-- `checkRenewal`
unfoldable pub check_renewal : ℕ → ℕ → ℕ → UpstreamUsageTracker → UpstreamUsageTracker
unfolding throttled log_clamp
check_renewal now usage allotment u =
    if throttled u.last_payment_trigger now
    then u
    else if usage == 0 && allotment == 0
    then trigger now 0 u
    else if ltb 0 allotment
    then (if runs_out usage allotment u.renewal_offset
        then trigger now usage (log_clamp allotment u)
        else log_clamp allotment u)
    else u

-- The total allotment that a poll leaves.
unfoldable pub new_total : ℕ → ℕ → ℕ
new_total allotment previous =
    if allotment == 0 && ltb 0 previous
    then 0
    else if ltb 0 allotment && previous == 0
    then allotment
    else if ltb previous allotment
    then allotment
    else previous

-- `poll`; the argument is the body of the answer, `none` where the request failed.
record_usage : ℕ → Option (ℕ × ℕ) → UpstreamUsageTracker → UpstreamUsageTracker
record_usage now none u = u
record_usage now (some (usage, allotment)) u = check_renewal now usage allotment (record u {
  last_usage = usage;
  last_allotment = allotment;
  poll_count = u.poll_count + 1;
  total_allotment = new_total allotment u.total_allotment;
})

unfoldable pub poll : ℕ → Option Str → UpstreamUsageTracker → UpstreamUsageTracker
unfolding record_usage
poll now none u = u
poll now (some body) u = record_usage now (parse_usage_response body) u

-- `monitor`: a poll at each tick.
unfoldable pub monitor : List (ℕ × Option Str) → UpstreamUsageTracker → UpstreamUsageTracker
monitor [] u = u
monitor ((now, body) ∷ ticks) u = monitor ticks (poll now body u)
