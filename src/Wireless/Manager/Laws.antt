-- ===== src/Wireless/Manager/Laws.antt =====
-- When the router leaves its upstream (src/wireless_gateway_manager/upstream_manager.go).
use tollgate_module_basic_go.Prelude.{
  ℕ, ◌+◌, ◌<◌, ◌≤◌, ◌≡◌, refl, sym, ◌∙◌, ◌⊎◌, inl, inr, Bool, true, false, Option, none, some, List,
  [], ◌∷◌, Str, arith, All, map, Bool-cases,
}
use tollgate_module_basic_go.Prelude.Integers.{ℤ, pos, negsuc, ltb_ℤ, leb_ℤ, ◌≤ℤ◌, ◌-ℤ◌}
use tollgate_module_basic_go.Merchant.Session.{is_empty}
use tollgate_module_basic_go.Wireless.State.{
  NetworkInfo, Candidate, UpstreamManager, is_before, is_in_cooldown, purge_blacklist,
  record_switch_failure,
}
use tollgate_module_basic_go.Wireless.Candidates.{Connector, find_candidates}
use tollgate_module_basic_go.Wireless.Candidates.Laws.{IsEligible, find_candidates_lem}
use tollgate_module_basic_go.Wireless.Manager.{
  Reason, Cycle, skipped, stayed, switched, failed, is_emergency, is_zero, should_switch,
  try_candidate, settle_switch, run_scan_cycle,
}

-- What a cycle waits for: no active upstream, none that is associated, one below the floor, or a
-- candidate that is stronger by the hysteresis.
abbrev pub IsWorth : Str → ℤ → Candidate → UpstreamManager → Type 0
IsWorth active_iface signal k um =
    (is_empty active_iface ≡ true)
    ⊎ (signal ≡ pos 0)
    ⊎ (ltb_ℤ signal um.config.signal_floor ≡ true)
    ⊎ (um.config.hysteresis_db ≤ℤ k.signal -ℤ signal)

abbrev pub attempted : Cycle → Option Candidate
attempted skipped = none
attempted stayed = none
attempted (switched k) = some k
attempted (failed k) = some k

leb_ℤ-true : (a b : ℤ) → leb_ℤ a b ≡ true → a ≤ℤ b
leb_ℤ-true a b h = ground arith

is_zero-true : (a : ℤ) → is_zero a ≡ true → a ≡ pos 0
unfolding is_zero
is_zero-true (pos n) h = ground arith
is_zero-true (negsuc n) h = absurd (cc)

should_switch-IsWorth :
    (active_iface : Str) (signal : ℤ) (k : Candidate) (um : UpstreamManager)
    → should_switch active_iface signal k um ≡ true
    → IsWorth active_iface signal k um
unfolding should_switch
should_switch-IsWorth active_iface signal k um h = elim (Bool-cases (is_empty active_iface)) [
  | inl idle ↦ inl idle
  | inr active ↦ elim (Bool-cases (is_zero signal)) [
    | inl lost ↦ inr (inl (is_zero-true signal lost))
    | inr heard ↦ elim (Bool-cases (ltb_ℤ signal um.config.signal_floor)) [
      | inl weak ↦ inr (inr (inl weak))
      | inr fair ↦ inr (
          inr (
            inr (
              leb_ℤ-true um.config.hysteresis_db (k.signal -ℤ signal)
                (rw (active, heard, fair) at h))))
    ]
  ]
]

attempted-settle_switch :
    (ok urgent : Bool) (active_ssid : Str) (k : Candidate) (now : ℕ) (um : UpstreamManager)
    → attempted (settle_switch ok urgent active_ssid k now um).0 ≡ some k
unfolding settle_switch
attempted-settle_switch true urgent active_ssid k now um = refl
attempted-settle_switch false urgent active_ssid k now um = refl

try_candidate-IsWorth :
    (c : Connector) (active_iface active_ssid : Str) (signal : ℤ) (urgent : Bool) (now : ℕ)
    (candidate : Option Candidate) (um : UpstreamManager) (k : Candidate)
    → attempted (try_candidate c active_iface active_ssid signal urgent now candidate um).0 ≡ some k
    → (candidate ≡ some k) × IsWorth active_iface signal k um
unfolding try_candidate
try_candidate-IsWorth c active_iface active_ssid signal urgent now none um k h = absurd (cc)
try_candidate-IsWorth c active_iface active_ssid signal urgent now (some d) um k h =
    elim (Bool-cases (should_switch active_iface signal d um)) [
      | inr worse ↦ absurd (nothing (rw worse at h))
      | inl worth ↦
          let same =
            attempted-settle_switch (c.switch_upstream active_iface d.iface_name d.ssid) urgent
              active_ssid d now um in
          let e : some d ≡ some k = sym same ∙ (rw worth at h) in
          let named : k ≡ d = cc in
          (e, rw named (should_switch-IsWorth active_iface signal d um worth))
    ]
  where
    nothing : none ≡ some k → ⊥
    nothing e = cc

heard_candidate :
    (c : Connector) (active_iface active_ssid : Str) (signal : ℤ) (urgent is_reseller : Bool)
    (now : ℕ) (networks : Option (List NetworkInfo)) (um : UpstreamManager) (k : Candidate)
    → attempted
        (elim networks as (λ o. Cycle × UpstreamManager) [
          | none ↦ (stayed, um)
          | some nets ↦
              try_candidate c active_iface active_ssid signal urgent now
                (find_candidates c nets is_reseller urgent now um)
                um
        ]).0
      ≡ some k
    → IsEligible c.get_sta_sections is_reseller now um k × IsWorth active_iface signal k um
heard_candidate c active_iface active_ssid signal urgent is_reseller now none um k h = absurd (cc)
heard_candidate c active_iface active_ssid signal urgent is_reseller now (some nets) um k h =
    let (chosen, worth) =
      try_candidate-IsWorth c active_iface active_ssid signal urgent now
        (find_candidates c nets is_reseller urgent now um) um k h in
    ((find_candidates_lem c nets is_reseller urgent now um).1 k chosen, worth)

-- The router leaves a working upstream for a reason: where a scan cycle, an emergency included, tries
-- to switch to a network, the circuit breaker does not rest, that network is not blacklisted and has a
-- section or is a TollGate for a reseller, and there was no active upstream, none associated, a
-- signal below the floor, or a network that is stronger by at least the hysteresis.
pub run_scan_cycle-IsWorth :
    (c : Connector) (networks : Option (List NetworkInfo)) (active_iface active_ssid : Str)
    (signal : ℤ) (reason : Reason) (is_reseller : Bool) (now : ℕ) (um : UpstreamManager)
    (k : Candidate)
    → attempted
        (run_scan_cycle c networks active_iface active_ssid signal reason is_reseller now um).0
      ≡ some k
    → (is_in_cooldown now um ≡ false)
      × IsEligible c.get_sta_sections is_reseller now (purge_blacklist now um) k
      × IsWorth active_iface signal k um
unfolding run_scan_cycle purge_blacklist
run_scan_cycle-IsWorth c networks active_iface active_ssid signal reason is_reseller now um k h =
    elim (Bool-cases (is_in_cooldown now um)) [
      | inl rests ↦ absurd (nothing (rw rests at h))
      | inr open_again ↦
          let (eligible, worth) =
            heard_candidate c active_iface active_ssid signal (is_emergency reason) is_reseller now
              networks (purge_blacklist now um) k (rw open_again at h) in
          (open_again, eligible, worth)
    ]
  where
    nothing : none ≡ some k → ⊥
    nothing e = cc

-- A scan cycle with all that it sees, at its time.
pub record Scan : Type 0 where
  pub connector : Connector
  pub networks : Option (List NetworkInfo)
  pub active_iface : Str
  pub active_ssid : Str
  pub signal : ℤ
  pub reason : Reason
  pub is_reseller : Bool
  pub time : ℕ

abbrev pub scan_once : Scan → UpstreamManager → Cycle × UpstreamManager
scan_once s um =
    run_scan_cycle s.connector s.networks s.active_iface s.active_ssid s.signal s.reason
      s.is_reseller s.time um

pub scan_all : List Scan → UpstreamManager → List Cycle × UpstreamManager
scan_all [] um = ([], um)
scan_all (s ∷ scans) um =
    let (cycle, um1) = scan_once s um in
    let (cycles, um2) = scan_all scans um1 in (cycle ∷ cycles, um2)

scan_once-rests :
    (until : ℕ) (s : Scan) (um : UpstreamManager)
    → um.cooldown_until ≡ some until
    → s.time < until
    → scan_once s um ≡ (skipped, um)
unfolding run_scan_cycle is_before
scan_once-rests until s um e early = ground arith

scan_all-rests :
    (until : ℕ) (scans : List Scan) (um : UpstreamManager)
    → um.cooldown_until ≡ some until
    → All (λ s. s.time < until) scans
    → scan_all scans um ≡ (map (λ s. skipped) scans, um)
unfolding scan_all
scan_all-rests until [] um e early = refl
scan_all-rests until (s ∷ scans) um e (early, rest) =
    rw (scan_once-rests until s um e early, scan_all-rests until scans um e rest) refl

settle_switch-fails :
    (ok urgent : Bool) (active_ssid : Str) (d : Candidate) (now : ℕ) (um : UpstreamManager)
    {k : Candidate}
    → (settle_switch ok urgent active_ssid d now um).0 ≡ failed k
    → um.config.max_consecutive_failures ≤ um.consecutive_fails + 1
    → (settle_switch ok urgent active_ssid d now um).1.cooldown_until
      ≡ some (now + um.config.switch_cooldown)
unfolding settle_switch record_switch_failure
settle_switch-fails true urgent active_ssid d now um h enough = absurd (cc)
settle_switch-fails false urgent active_ssid d now um h enough = ground arith

try_candidate-fails :
    (c : Connector) (active_iface active_ssid : Str) (signal : ℤ) (urgent : Bool) (now : ℕ)
    (candidate : Option Candidate) (um : UpstreamManager) {k : Candidate}
    → (try_candidate c active_iface active_ssid signal urgent now candidate um).0 ≡ failed k
    → um.config.max_consecutive_failures ≤ um.consecutive_fails + 1
    → (try_candidate c active_iface active_ssid signal urgent now candidate um).1.cooldown_until
      ≡ some (now + um.config.switch_cooldown)
unfolding try_candidate
try_candidate-fails c active_iface active_ssid signal urgent now none um h enough = absurd (cc)
try_candidate-fails c active_iface active_ssid signal urgent now (some d) um {k} h enough =
    let ok = c.switch_upstream active_iface d.iface_name d.ssid in
    elim (Bool-cases (should_switch active_iface signal d um)) [
      | inr worse ↦ absurd (nothing (rw worse at h))
      | inl worth ↦
          rw worth
            (settle_switch-fails ok urgent active_ssid d now um {k = k} (rw worth at h) enough)
    ]
  where
    nothing : stayed ≡ failed k → ⊥
    nothing e = cc

heard-fails :
    (c : Connector) (active_iface active_ssid : Str) (signal : ℤ) (urgent is_reseller : Bool)
    (now : ℕ) (networks : Option (List NetworkInfo)) (um : UpstreamManager) {k : Candidate}
    → um.config.max_consecutive_failures ≤ um.consecutive_fails + 1
    → let out = (elim networks as (λ o. Cycle × UpstreamManager) [
      | none ↦ (stayed, um)
      | some nets ↦
          try_candidate c active_iface active_ssid signal urgent now
            (find_candidates c nets is_reseller urgent now um)
            um
    ]) in
      out.0 ≡ failed k → out.1.cooldown_until ≡ some (now + um.config.switch_cooldown)
heard-fails c active_iface active_ssid signal urgent is_reseller now none um enough h = absurd (cc)
heard-fails c active_iface active_ssid signal urgent is_reseller now (some nets) um {k} enough h =
    try_candidate-fails c active_iface active_ssid signal urgent now
      (find_candidates c nets is_reseller urgent now um) um {k = k} h enough

scan_once-fails :
    (s : Scan) (um : UpstreamManager) {k : Candidate}
    → um.config.max_consecutive_failures ≤ um.consecutive_fails + 1
    → (scan_once s um).0 ≡ failed k
    → (scan_once s um).1.cooldown_until ≡ some (s.time + um.config.switch_cooldown)
unfolding run_scan_cycle purge_blacklist
scan_once-fails s um {k} enough h = elim (Bool-cases (is_in_cooldown s.time um)) [
  | inl rests ↦ absurd (nothing (rw rests at h))
  | inr open_again ↦ rw open_again (
      heard-fails s.connector s.active_iface s.active_ssid s.signal (is_emergency s.reason)
        s.is_reseller s.time s.networks (purge_blacklist s.time um) {k = k} enough
        (rw open_again at h))
]
  where
    nothing : skipped ≡ failed k → ⊥
    nothing e = cc

-- The circuit breaker: after a switch that fails as the last of the permitted failures in a row,
-- every scan cycle before the cooldown has passed is skipped and changes nothing, whatever it would
-- see and whatever its reason.
pub scan_all_broken :
    (first : Scan) (scans : List Scan) (um : UpstreamManager) (k : Candidate)
    → um.config.max_consecutive_failures ≤ um.consecutive_fails + 1
    → let (cycle, um') = scan_once first um in
      cycle ≡ failed k
      → All (λ s. s.time < first.time + um.config.switch_cooldown) scans
      → scan_all scans um' ≡ (map (λ s. skipped) scans, um')
scan_all_broken first scans um k enough h early =
    let um' = (scan_once first um).1 in
    scan_all-rests (first.time + um.config.switch_cooldown) scans um'
      (scan_once-fails first um {k = k} enough h) early
