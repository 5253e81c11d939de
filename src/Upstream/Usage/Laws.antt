-- ===== src/Upstream/Usage/Laws.antt =====
-- The usage answer is read as it was printed, and renewals come at the right time
-- (src/upstream_session_manager/upstream_usage_tracker.go).
use tollgate_module_basic_go.Prelude.{
  ℕ, ◌+◌, ◌*◌, ◌/◌, ◌^◌, ◌<◌, ◌≤◌, ◌≡◌, ◌⊎◌, refl, inl, inr, false, ◌&&◌, Option, none, some, List,
  [], ◌∷◌, ◌++◌, Str, arith, is_space, IsSolid, trim-solid, ltb, ◌==◌, Bool-cases, Option-cases,
}
use tollgate_module_basic_go.Prelude.Words.{second}
use tollgate_module_basic_go.Prelude.Decimal.{
  is_digit, print_uint, IsDigits, print_uint-IsDigits, parse_int-print_uint,
}
use tollgate_module_basic_go.Upstream.Usage.{
  split_slash, numbers, parse_parts, parse_usage_response, UpstreamUsageTracker, throttled, trigger,
  effective_offset, runs_out, log_clamp, check_renewal, new_total, record_usage, poll, monitor,
}

-- `fmt.Sprintf("%d/%d", usage, allotment)`, as the merchant's `GetUsage` prints it.
abbrev pub print_usage : ℕ → ℕ → Str
print_usage usage allotment = print_uint usage ++ b'/' ∷ print_uint allotment

IsSolid-digits : (s : Str) → IsDigits s → IsSolid s
unfolding is_digit is_space
IsSolid-digits [] h = tt
IsSolid-digits (c ∷ s) h = (ground arith, IsSolid-digits s h.1)

IsSolid-append : (s t : Str) → IsSolid s → IsSolid t → IsSolid (s ++ t)
IsSolid-append [] t h k = k
IsSolid-append (c ∷ s) t h k = (h.0, IsSolid-append s t h.1 k)

split_slash-digits : (s : Str) → IsDigits s → split_slash s ≡ s ∷ []
unfolding split_slash is_digit
split_slash-digits [] h = refl
split_slash-digits (c ∷ s) h = ground (arith, split_slash-digits s h.1)

split_slash-append : (s t : Str) → IsDigits s → split_slash (s ++ b'/' ∷ t) ≡ s ∷ split_slash t
unfolding split_slash is_digit
split_slash-append [] t h = refl
split_slash-append (c ∷ s) t h = ground (arith, split_slash-append s t h.1)

slash-solid : is_space b'/' ≡ false
unfolding is_space
slash-solid = refl

-- What the merchant prints is what the tracker of a downstream gateway reads, for numbers that are
-- `int64`.
pub parse-print_usage :
    (usage allotment : ℕ)
    → usage < 2 ^ 63
    → allotment < 2 ^ 63
    → parse_usage_response (print_usage usage allotment) ≡ some (usage, allotment)
unfolding parse_usage_response parse_parts numbers
parse-print_usage usage allotment u a =
    let solid =
      IsSolid-append (print_uint usage) (b'/' ∷ print_uint allotment)
        (IsSolid-digits (print_uint usage) (print_uint-IsDigits usage))
        (slash-solid, IsSolid-digits (print_uint allotment) (print_uint-IsDigits allotment)) in
    rw
      (
        trim-solid (print_usage usage allotment) solid,
        split_slash-append (print_uint usage) (print_uint allotment) (print_uint-IsDigits usage),
        split_slash-digits (print_uint allotment) (print_uint-IsDigits allotment),
        parse_parts,
        parse_int-print_uint usage u,
        parse_int-print_uint allotment a,
      )
      refl

-- Successive renewals, the last one first, lie at least ten seconds apart.
abbrev pub IsSpaced : List (ℕ × ℕ) → Type 0
IsSpaced [] = Unit
IsSpaced ((t, usage) ∷ []) = Unit
IsSpaced ((t, usage) ∷ (t', usage') ∷ rest) =
    (t' + 10 * second ≤ t) × IsSpaced ((t', usage') ∷ rest)

-- The throttle knows the last renewal.
abbrev IsLast : Option ℕ → List (ℕ × ℕ) → Type 0
IsLast last [] = last ≡ none
IsLast last ((t, usage) ∷ rest) = last ≡ some t

abbrev pub IsThrottled : UpstreamUsageTracker → Type 0
IsThrottled u = IsSpaced u.renewals × IsLast u.last_payment_trigger u.renewals

trigger-IsThrottled :
    (now usage : ℕ) (last : Option ℕ) (renewals : List (ℕ × ℕ))
    → throttled last now ≡ false
    → IsSpaced renewals
    → IsLast last renewals
    → IsSpaced ((now, usage) ∷ renewals)
unfolding throttled
trigger-IsThrottled now usage last [] free spaced e = tt
trigger-IsThrottled now usage last ((t, v) ∷ rest) free spaced e = (ground arith, spaced)

check_renewal-IsThrottled :
    (now usage allotment : ℕ) (u : UpstreamUsageTracker)
    → IsThrottled u
    → IsThrottled (check_renewal now usage allotment u)
unfolding check_renewal trigger log_clamp
check_renewal-IsThrottled now usage allotment u (spaced, last) =
    elim (Bool-cases (throttled u.last_payment_trigger now)) [
      | inl busy ↦ rw busy (spaced, last)
      | inr free ↦
          let first =
            trigger-IsThrottled now 0 u.last_payment_trigger u.renewals free spaced last in
          let again =
            trigger-IsThrottled now usage u.last_payment_trigger u.renewals free spaced last in
          elim (Bool-cases (usage == 0 && allotment == 0)) [
            | inl no_session ↦ rw (free, no_session) (first, refl)
            | inr live ↦ elim (Bool-cases (ltb 0 allotment)) [
              | inr empty ↦ rw (free, live, empty) (spaced, last)
              | inl some_left ↦ elim (Bool-cases (runs_out usage allotment u.renewal_offset)) [
                | inl low ↦ rw (free, live, some_left, low) (again, refl)
                | inr enough ↦ rw (free, live, some_left, enough) (spaced, last)
              ]
            ]
          ]
    ]

poll-IsThrottled :
    (now : ℕ) (body : Option Str) (u : UpstreamUsageTracker)
    → IsThrottled u
    → IsThrottled (poll now body u)
unfolding poll record_usage
poll-IsThrottled now none u h = h
poll-IsThrottled now (some body) u h = elim (Option-cases (parse_usage_response body)) [
  | inl broken ↦ rw (broken, record_usage) h
  | inr ((usage, allotment), read) ↦
      rw (read, record_usage)
        (check_renewal-IsThrottled now usage allotment
          (record u {
            last_usage = usage;
            last_allotment = allotment;
            poll_count = u.poll_count + 1;
            total_allotment = new_total allotment u.total_allotment;
          })
          h)
]

-- Whatever the upstream gateway answers, and whenever it is polled, the tracker starts payments at
-- least ten seconds apart.
pub monitor-IsThrottled :
    (ticks : List (ℕ × Option Str)) (u : UpstreamUsageTracker)
    → IsThrottled u
    → IsThrottled (monitor ticks u)
unfolding monitor
monitor-IsThrottled [] u h = h
monitor-IsThrottled ((now, body) ∷ ticks) u h =
    monitor-IsThrottled ticks (poll now body u) (poll-IsThrottled now body u h)

-- Money is not spent early and the session does not run dry: a check that is not throttled, of a
-- session with an allotment, pays for a renewal when no more than the configured offset and no more
-- than half of the allotment are left, so that at least half is used, and otherwise it pays nothing.
pub check_renewal_half :
    (now usage allotment : ℕ) (u : UpstreamUsageTracker)
    → throttled u.last_payment_trigger now ≡ false
    → 0 < allotment
    → let after = (check_renewal now usage allotment u).renewals in
      ((after ≡ (now, usage) ∷ u.renewals)
        × (allotment ≤ usage + u.renewal_offset)
        × (allotment ≤ 2 * usage))
      ⊎ ((after ≡ u.renewals)
          × ((usage + u.renewal_offset < allotment) ⊎ (usage + allotment / 2 < allotment)))
unfolding check_renewal trigger log_clamp effective_offset
check_renewal_half now usage allotment u free live = ground arith
