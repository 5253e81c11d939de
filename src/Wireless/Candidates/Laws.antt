-- ===== src/Wireless/Candidates/Laws.antt =====
-- Which network of a scan is chosen (src/wireless_gateway_manager/upstream_manager.go).
use tollgate_module_basic_go.Prelude.{
  ℕ, ◌≡◌, refl, ◌⊎◌, inl, inr, Bool, true, false, Option, none, some, List, [], ◌∷◌, arith, All,
  is_some, Bool-cases, Option-cases,
}
use tollgate_module_basic_go.Prelude.Integers.{ℤ, ltb_ℤ, ◌≤ℤ◌}
use tollgate_module_basic_go.Wireless.State.{
  StaSection, NetworkInfo, Candidate, UpstreamManager, is_blacklisted,
}
use tollgate_module_basic_go.Wireless.Candidates.{
  Connector, Offer, take_better, best_offer, offer_by_mode, find_candidates, candidate_in,
  section_name, has_toll_gate_ssid, known_offer, reseller_offer, toll_gate_offer, fallback_offer,
  scored, candidate_of,
}

abbrev pub listed : Option (List StaSection) → List StaSection
listed none = []
listed (some sections) = sections

-- One of the networks offers this candidate with this score.
abbrev pub Heard : (NetworkInfo → Offer) → List NetworkInfo → Candidate → ℤ → Type 0
Heard offer [] c score = ⊥
Heard offer (net ∷ nets) c score = (offer net ≡ some (c, score)) ⊎ Heard offer nets c score

abbrev pub AtMost : ℤ → Offer → Type 0
AtMost top none = Unit
AtMost top (some (c, score)) = score ≤ℤ top

-- The choice is an offer with the highest score, or there is none.
abbrev pub IsBest : (NetworkInfo → Offer) → List NetworkInfo → Option Candidate → Type 0
IsBest offer nets none = All (λ net. offer net ≡ none) nets
IsBest offer nets (some c) =
    (score : ℤ) × Heard offer nets c score × All (λ net. AtMost score (offer net)) nets

-- What the loop has seen: the networks, and the best before them.
abbrev Seen : (NetworkInfo → Offer) → List NetworkInfo → Offer → Offer → Type 0
Seen offer nets best none = (best ≡ none) × All (λ net. offer net ≡ none) nets
Seen offer nets best (some (c, score)) =
    ((best ≡ some (c, score)) ⊎ Heard offer nets c score)
    × AtMost score best
    × All (λ net. AtMost score (offer net)) nets

Seen-start : (offer : NetworkInfo → Offer) (best : Offer) → Seen offer [] best best
Seen-start offer none = (refl, tt)
Seen-start offer (some (c, score)) = (inl refl, omega arith, tt)

take_better-step :
    (offer : NetworkInfo → Offer) (net : NetworkInfo) (nets : List NetworkInfo)
    (here best out : Offer)
    → offer net ≡ here
    → Seen offer nets (take_better here best) out
    → Seen offer (net ∷ nets) best out
unfolding take_better
take_better-step offer net nets none best none e (b, rest) = (b, (e, rest))
take_better-step offer net nets none best (some (c, score)) e (from, top, rest) =
    (elim from [ inl b ↦ inl b | inr h ↦ inr (inr h) ], top, (rw e tt, rest))
take_better-step offer net nets (some (d, s)) none none e (b, rest) = absurd (cc)
take_better-step offer net nets (some (d, s)) none (some (c, score)) e (from, top, rest) =
    (elim from [ inl b ↦ inr (inl (cc)) | inr h ↦ inr (inr h) ], tt, (rw e top, rest))
take_better-step offer net nets (some (d, s)) (some (b, t)) out e seen =
    elim (Bool-cases (ltb_ℤ t s)) [
      | inl up ↦ stronger up out (rw up at seen)
      | inr down ↦ weaker down out (rw down at seen)
    ]
  where
    stronger :
        ltb_ℤ t s ≡ true
        → (o : Offer) → Seen offer nets (some (d, s)) o
        → Seen offer (net ∷ nets) (some (b, t)) o
    stronger up none (h, rest) = absurd (cc)
    stronger up (some (c, score)) (from, top, rest) =
        (elim from [ inl h ↦ inr (inl (cc)) | inr h ↦ inr (inr h) ], ground arith, (rw e top, rest))

    weaker :
        ltb_ℤ t s ≡ false
        → (o : Offer) → Seen offer nets (some (b, t)) o
        → Seen offer (net ∷ nets) (some (b, t)) o
    weaker down none (h, rest) = absurd (cc)
    weaker down (some (c, score)) (from, top, rest) =
        (elim from [ inl h ↦ inl h | inr h ↦ inr (inr h) ], top, (rw e (ground arith), rest))

best_offer-Seen :
    (offer : NetworkInfo → Offer) (nets : List NetworkInfo) (best : Offer)
    → Seen offer nets best (best_offer offer nets best)
unfolding best_offer
best_offer-Seen offer [] best = Seen-start offer best
best_offer-Seen offer (net ∷ nets) best =
    take_better-step offer net nets (offer net) best
      (best_offer offer nets (take_better (offer net) best)) refl
      (best_offer-Seen offer nets (take_better (offer net) best))

Seen-IsBest :
    (offer : NetworkInfo → Offer) (nets : List NetworkInfo) (out : Offer)
    → Seen offer nets none out
    → IsBest offer nets (candidate_in out)
unfolding candidate_in
Seen-IsBest offer nets none (b, rest) = rest
Seen-IsBest offer nets (some (c, score)) (inl b, top, rest) = absurd (cc)
Seen-IsBest offer nets (some (c, score)) (inr h, top, rest) = (score, h, rest)

-- What makes a network a candidate: it is not blacklisted, and there is a section for it that is
-- switched off, or it is a TollGate and the router a reseller.
abbrev pub IsEligible : Option (List StaSection) → Bool → ℕ → UpstreamManager → Candidate → Type 0
IsEligible sections is_reseller now um k =
    (is_blacklisted k.ssid now um ≡ false)
    × ((is_some (section_name true k.ssid (listed sections)) ≡ true)
        ⊎ ((is_reseller ≡ true) × (has_toll_gate_ssid k.ssid ≡ true)))

known_offer-IsEligible :
    (sections : List StaSection) (is_reseller : Bool) (now : ℕ) (um : UpstreamManager)
    (net : NetworkInfo) {k : Candidate} {score : ℤ}
    → known_offer sections now um net ≡ some (k, score)
    → IsEligible (some sections) is_reseller now um k
unfolding known_offer candidate_of
known_offer-IsEligible sections is_reseller now um net {k} {score} e =
    elim (Option-cases (section_name true net.ssid sections)) [
      | inl none_such ↦ absurd (ground arith)
      | inr (iface, known) ↦ ground arith
    ]

reseller_offer-IsEligible :
    (c : Connector) (nets : List NetworkInfo) (sections : List StaSection) (is_emergency : Bool)
    (now : ℕ) (um : UpstreamManager) (net : NetworkInfo) {k : Candidate} {score : ℤ}
    → reseller_offer c nets sections is_emergency now um net ≡ some (k, score)
    → IsEligible (some sections) true now um k
unfolding reseller_offer toll_gate_offer fallback_offer scored candidate_of
reseller_offer-IsEligible c nets sections is_emergency now um net {k} {score} e = ground arith

offer_by_mode-IsEligible :
    (c : Connector) (nets : List NetworkInfo) (is_reseller is_emergency : Bool) (now : ℕ)
    (um : UpstreamManager) (net : NetworkInfo) {k : Candidate} {score : ℤ}
    → offer_by_mode c nets is_reseller is_emergency now um net ≡ some (k, score)
    → IsEligible c.get_sta_sections is_reseller now um k
unfolding offer_by_mode reseller_offer
offer_by_mode-IsEligible c nets true is_emergency now um net {k} {score} e =
    elim (Option-cases c.get_sta_sections) [
      | inl failed ↦ rw failed (
          reseller_offer-IsEligible c nets [] is_emergency now um net {k = k} {score = score}
            (rw failed at e))
      | inr (sections, read) ↦ rw read (
          reseller_offer-IsEligible c nets sections is_emergency now um net {k = k} {score = score}
            (rw read at e))
    ]
offer_by_mode-IsEligible c nets false is_emergency now um net {k} {score} e =
    elim (Option-cases c.get_sta_sections) [
      | inl failed ↦ absurd (ground arith)
      | inr (sections, read) ↦
          rw read (
            known_offer-IsEligible sections false now um net {k = k} {score = score} (rw read at e))
    ]

Heard-IsEligible :
    (c : Connector) (nets heard : List NetworkInfo) (is_reseller is_emergency : Bool) (now : ℕ)
    (um : UpstreamManager) (k : Candidate) (score : ℤ)
    → Heard (offer_by_mode c nets is_reseller is_emergency now um) heard k score
    → IsEligible c.get_sta_sections is_reseller now um k
Heard-IsEligible c nets [] is_reseller is_emergency now um k score h = absurd h
Heard-IsEligible c nets (net ∷ heard) is_reseller is_emergency now um k score (inl e) =
    offer_by_mode-IsEligible c nets is_reseller is_emergency now um net {k = k} {score = score} e
Heard-IsEligible c nets (net ∷ heard) is_reseller is_emergency now um k score (inr h) =
    Heard-IsEligible c nets heard is_reseller is_emergency now um k score h

pub find_candidates-IsBest :
    (c : Connector) (nets : List NetworkInfo) (is_reseller is_emergency : Bool) (now : ℕ)
    (um : UpstreamManager)
    → IsBest
        (offer_by_mode c nets is_reseller is_emergency now um)
        nets
        (find_candidates c nets is_reseller is_emergency now um)
unfolding find_candidates
find_candidates-IsBest c nets is_reseller is_emergency now um =
    let offer = offer_by_mode c nets is_reseller is_emergency now um in
    Seen-IsBest offer nets (best_offer offer nets none) (best_offer-Seen offer nets none)

-- The choice among the networks of a scan: the candidate is one of those that the scan heard, with
-- the highest score of all that may be chosen in this mode; it is not blacklisted, and a section for
-- it that is switched off exists, or it is a TollGate and the router a reseller. There is no choice
-- only where no network may be chosen.
pub find_candidates_lem :
    (c : Connector) (nets : List NetworkInfo) (is_reseller is_emergency : Bool) (now : ℕ)
    (um : UpstreamManager)
    → let out = find_candidates c nets is_reseller is_emergency now um in
      IsBest (offer_by_mode c nets is_reseller is_emergency now um) nets out
      × ((k : Candidate) → out ≡ some k → IsEligible c.get_sta_sections is_reseller now um k)
find_candidates_lem c nets is_reseller is_emergency now um =
    let best = find_candidates-IsBest c nets is_reseller is_emergency now um in
    (best, λ k e. chosen k (rw e at best))
  where
    chosen :
        (k : Candidate)
        → IsBest (offer_by_mode c nets is_reseller is_emergency now um) nets (some k)
        → IsEligible c.get_sta_sections is_reseller now um k
    chosen k (score, heard, top) =
        Heard-IsEligible c nets nets is_reseller is_emergency now um k score heard
