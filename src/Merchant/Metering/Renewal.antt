-- ===== src/Merchant/Metering/Renewal.antt =====
-- What a renewal does to the meter of a bytes session (src/merchant/merchant.go).
use tollgate_module_basic_go.Prelude.{ℕ, ◌+◌, ◌%◌, ◌≤◌, ◌≡◌, refl, false, some, Str, arith}
use tollgate_module_basic_go.Prelude.Words.{u64_mod}
use tollgate_module_basic_go.Dict.{lookup}
use tollgate_module_basic_go.Mac.{normalize_mac_address}
use tollgate_module_basic_go.Valve.State.{Valve}
use tollgate_module_basic_go.Valve.Ndsctl.{Ndsctl}
use tollgate_module_basic_go.Valve.Baseline.{measured, get_data_usage_since_baseline}
use tollgate_module_basic_go.Merchant.State.{Metric, CustomerSession, Merchant}
use tollgate_module_basic_go.Merchant.Session.{session_has_expired, add_allotment}
use tollgate_module_basic_go.Merchant.Session.Laws.{add_allotment-extends}
use tollgate_module_basic_go.Merchant.Metering.{usage_of, metered, max_of, session_bytes_usage}

max_of-le : {a b : ℕ} → a ≤ b → max_of a b ≡ b
unfolding max_of
max_of-le le = ground arith

-- A renewal of a live session keeps the session's highest reading although `OpenGate` starts a new
-- baseline: whatever a later reading since that baseline is, up to the highest reading from before
-- the renewal, the session is charged exactly what it was charged before. That traffic is free.
pub add_allotment_forgives :
    (n : Ndsctl) (mac_address : Str) (metric : Metric) (amount now : ℕ) (m : Merchant)
    (later : Valve) {s : CustomerSession} {since : ℕ}
    → lookup (normalize_mac_address mac_address) m.customer_sessions ≡ some s
    → session_has_expired s now ≡ false
    → (get_data_usage_since_baseline n (normalize_mac_address mac_address) later).0 ≡ measured since
    → since ≤ s.attachment_usage
    → let (r, m') = add_allotment mac_address metric amount now m in
      ((session_bytes_usage n (normalize_mac_address mac_address) r later).0
        ≡ usage_of ((s.consumed + s.attachment_usage) % u64_mod) s.attachment_usage)
      × (r.allotment ≡ (s.allotment + amount) % u64_mod)
unfolding session_bytes_usage metered
add_allotment_forgives n mac_address metric amount now m later {s} {since} e live read le =
    rw
      (
        add_allotment-extends mac_address metric amount now m e live,
        read,
        session_bytes_usage,
        max_of-le le,
      )
      (refl, refl)
