-- ===== src/Wireless/Candidates.antt =====
-- The candidates of a scan (src/wireless_gateway_manager/upstream_manager.go, brands.go and
-- `FindBestRadioForSSID` of scanner.go). The wireless configuration is a parameter.
pub mod Laws
use tollgate_module_basic_go.Prelude.{
  ℕ, Bool, true, false, not, ◌&&◌, ◌||◌, Option, none, some, List, [], ◌∷◌, ◌++◌, Str, codes, lower,
  str_eq, ◌==◌, if◌then◌else◌, is_nil,
}
use tollgate_module_basic_go.Prelude.Integers.{ℤ, ltb_ℤ, ◌-ℤ◌}
use tollgate_module_basic_go.Wireless.State.{
  StaSection, NetworkInfo, Candidate, UpstreamManager, is_blacklisted,
}

-- What the manager asks of its connector: the sections, the interface that is found or created for
-- an SSID on a radio, and whether a switch from one interface to another and its SSID succeeds.
pub record Connector : Type 0 where
  pub get_sta_sections : Option (List StaSection)
  pub find_or_create_sta : Str → Str → Option Str
  pub switch_upstream : Str → Str → Str → Bool

-- The name that the last section of this SSID gives in the map, of those that are disabled or of all.
unfoldable pub section_name : Bool → Str → List StaSection → Option Str
section_name only_disabled ssid [] = none
section_name only_disabled ssid (s ∷ sections) = elim (section_name only_disabled ssid sections) [
  | some name ↦ some name
  | none ↦ if str_eq s.ssid ssid && (s.disabled || not only_disabled) then some s.name else none
]

-- The SSID of the last section that is not disabled.
last_enabled : Str → List StaSection → Str
last_enabled ssid [] = ssid
last_enabled ssid (s ∷ sections) = last_enabled (if s.disabled then ssid else s.ssid) sections

unfoldable pub active_ssid : List StaSection → Str
unfolding last_enabled
active_ssid sections = last_enabled [] sections

has_prefix_fold : Str → Str → Bool
has_prefix_fold [] s = true
has_prefix_fold (p ∷ prefix) [] = false
has_prefix_fold (p ∷ prefix) (c ∷ s) =
    str_eq (lower (c ∷ [])) (lower (p ∷ [])) && has_prefix_fold prefix s

-- `strings.TrimPrefix(ssid, "!")`
trim_decoration : Str → Str
trim_decoration [] = []
trim_decoration (c ∷ s) = if c == b'!' then s else c ∷ s

-- `hasTollGateSSID`
unfoldable pub has_toll_gate_ssid : Str → Bool
unfolding has_prefix_fold trim_decoration
has_toll_gate_ssid ssid =
    let name = trim_decoration ssid in
    has_prefix_fold (codes "TollGate-") name
    || has_prefix_fold (codes "Net4" ++ codes "sats" ++ codes "-") name

abbrev is_open_encryption : Str → Bool
is_open_encryption enc = is_nil enc || str_eq enc (codes "none") || str_eq enc (codes "open")

-- `FindBestRadioForSSID`
unfoldable pub find_best_radio : Str → List NetworkInfo → Option Str
find_best_radio ssid [] = none
find_best_radio ssid (net ∷ networks) =
    if str_eq net.ssid ssid then some net.radio else find_best_radio ssid networks

unfoldable pub candidate_of : NetworkInfo → Str → Candidate
candidate_of net iface = record {
  bssid = net.bssid;
  signal = net.signal;
  radio = net.radio;
  iface_name = iface;
  ssid = net.ssid;
}

-- The candidate that a network of the scan is, if it is one, with its score.
abbrev pub Offer : Type 0
Offer = Option (Candidate × ℤ)

unfoldable pub known_offer : List StaSection → ℕ → UpstreamManager → NetworkInfo → Offer
known_offer sections now um net = elim (section_name true net.ssid sections) [
  | none ↦ none
  | some iface ↦
      if is_blacklisted net.ssid now um then none else some (candidate_of net iface, net.signal)
]

-- The interface of a TollGate: an existing one, or one that is made.
toll_gate_iface : Connector → List NetworkInfo → List StaSection → Str → Option Str
toll_gate_iface c networks sections ssid = elim (section_name false ssid sections) [
  | some iface ↦ some iface
  | none ↦ elim (find_best_radio ssid networks) [
    | none ↦ none
    | some radio ↦ c.find_or_create_sta ssid radio
  ]
]

or_empty : Option Str → Str
or_empty none = []
or_empty (some s) = s

scored : NetworkInfo → ℤ → Option Str → Offer
scored net score none = none
scored net score (some iface) = some (candidate_of net iface, score)

toll_gate_offer :
    Connector → List NetworkInfo → List StaSection → Bool → UpstreamManager → NetworkInfo → Offer
unfolding toll_gate_iface scored
toll_gate_offer c networks sections is_emergency um net =
    if is_open_encryption (lower net.encryption)
    then scored net (if is_emergency then net.signal -ℤ um.config.emergency_penalty else net.signal)
        (toll_gate_iface c networks sections net.ssid)
    else none

fallback_offer : List StaSection → NetworkInfo → Offer
unfolding or_empty
fallback_offer sections net = elim (section_name true net.ssid sections) [
  | none ↦ none
  | some name ↦
      some (candidate_of net (or_empty (section_name false net.ssid sections)), net.signal)
]

unfoldable pub reseller_offer :
    Connector
    → List NetworkInfo
    → List StaSection
    → Bool
    → ℕ
    → UpstreamManager
    → NetworkInfo
    → Offer
unfolding toll_gate_offer fallback_offer
reseller_offer c networks sections is_emergency now um net =
    if str_eq net.ssid (active_ssid sections) || is_blacklisted net.ssid now um
    then none
    else if has_toll_gate_ssid net.ssid
    then toll_gate_offer c networks sections is_emergency um net
    else fallback_offer sections net

-- The loop that keeps the first of the best.
take_better : Offer → Offer → Offer
take_better none best = best
take_better (some offer) none = some offer
take_better (some (c, score)) (some (b, top)) =
    if ltb_ℤ top score then some (c, score) else some (b, top)

unfoldable pub best_offer : (NetworkInfo → Offer) → List NetworkInfo → Offer → Offer
unfolding take_better
best_offer offer [] best = best
best_offer offer (net ∷ networks) best = best_offer offer networks (take_better (offer net) best)

candidate_in : Offer → Option Candidate
candidate_in none = none
candidate_in (some (c, score)) = some c

-- Which networks are candidates: `none` is an error, before any network is looked at.
unfoldable pub offer_by_mode :
    Connector → List NetworkInfo → Bool → Bool → ℕ → UpstreamManager → NetworkInfo → Offer
offer_by_mode c networks true is_emergency now um net = elim c.get_sta_sections [
  | none ↦ reseller_offer c networks [] is_emergency now um net
  | some sections ↦ reseller_offer c networks sections is_emergency now um net
]
offer_by_mode c networks false is_emergency now um net = elim c.get_sta_sections [
  | none ↦ none
  | some sections ↦ known_offer sections now um net
]

-- `findCandidates`, with `findKnownCandidates` and `findResellerCandidates`.
unfoldable pub find_candidates :
    Connector → List NetworkInfo → Bool → Bool → ℕ → UpstreamManager → Option Candidate
unfolding candidate_in
find_candidates c networks is_reseller is_emergency now um =
    candidate_in
      (best_offer (offer_by_mode c networks is_reseller is_emergency now um) networks none)
