-- ===== src/MintHealth/Advertised.antt =====
-- The mints that are offered to a customer (src/merchant/mint_health_tracker.go).
use tollgate_module_basic_go.Prelude.{
  ◌≡◌, refl, true, false, List, [], ◌∷◌, Bool-cases, inl, inr, All, ◌∙◌, sym, is_nil, ◌⊎◌,
}
use tollgate_module_basic_go.Merchant.State.{MintConfig}
use tollgate_module_basic_go.MintHealth.{
  MintHealthTracker, mint_state, get_reachable_mint_configs, not_throttled, unless_empty,
  get_advertised_mint_configs,
}

reachable-All :
    (mints : List MintConfig) (t : MintHealthTracker)
    → All (λ m. (mint_state m.url t).is_reachable ≡ true) (get_reachable_mint_configs mints t)
unfolding get_reachable_mint_configs
reachable-All [] t = tt
reachable-All (mint ∷ mints) t = elim (Bool-cases (mint_state mint.url t).is_reachable) [
  | inl up ↦ rw (up, get_reachable_mint_configs) (up, reachable-All mints t)
  | inr down ↦ rw (down, get_reachable_mint_configs) (reachable-All mints t)
]

not_throttled-All :
    (P : MintConfig → Type 0) (mints : List MintConfig) (t : MintHealthTracker)
    → All P mints
    → All P (not_throttled t mints)
unfolding not_throttled
not_throttled-All P [] t all = tt
not_throttled-All P (mint ∷ mints) t (p, all) =
    elim (Bool-cases (mint_state mint.url t).is_throttled) [
      | inl busy ↦ rw (busy, not_throttled) (not_throttled-All P mints t all)
      | inr free ↦ rw (free, not_throttled) (p, not_throttled-All P mints t all)
    ]

not_throttled-free :
    (mints : List MintConfig) (t : MintHealthTracker)
    → All (λ m. (mint_state m.url t).is_throttled ≡ false) (not_throttled t mints)
unfolding not_throttled
not_throttled-free [] t = tt
not_throttled-free (mint ∷ mints) t = elim (Bool-cases (mint_state mint.url t).is_throttled) [
  | inl busy ↦ rw (busy, not_throttled) (not_throttled-free mints t)
  | inr free ↦ rw (free, not_throttled) (free, not_throttled-free mints t)
]

unless_empty-All :
    (P : MintConfig → Type 0) (a b : List MintConfig) → All P a → All P b → All P (unless_empty a b)
unfolding unless_empty
unless_empty-All P [] b all_a all_b = all_b
unless_empty-All P (x ∷ a) b all_a all_b = all_a

unless_empty-is_nil :
    (a b : List MintConfig) → is_nil b ≡ true → is_nil a ≡ true → is_nil (unless_empty a b) ≡ true
unfolding unless_empty
unless_empty-is_nil [] b none_b none_a = none_b
unless_empty-is_nil (x ∷ a) b none_b none_a = none_a

unless_empty-some : (a b : List MintConfig) → is_nil b ≡ false → is_nil (unless_empty a b) ≡ false
unfolding unless_empty
unless_empty-some [] b some_b = some_b
unless_empty-some (x ∷ a) b some_b = refl

not_throttled-is_nil :
    (mints : List MintConfig) (t : MintHealthTracker)
    → is_nil mints ≡ true
    → is_nil (not_throttled t mints) ≡ true
unfolding not_throttled
not_throttled-is_nil [] t e = refl
not_throttled-is_nil (mint ∷ mints) t e = absurd (cc)

unless_empty-cases :
    (P : MintConfig → Type 0) (a b : List MintConfig)
    → All P a
    → All P (unless_empty a b) ⊎ ((a ≡ []) × (unless_empty a b ≡ b))
unfolding unless_empty
unless_empty-cases P [] b all = inr (refl, refl)
unless_empty-cases P (x ∷ a) b all = inl all

-- The advertisement offers only mints that are reachable, is empty exactly where no configured mint
-- is reachable, and has no persistently throttled mint in it, unless every reachable mint is
-- throttled: then it is the reachable set.
pub get_advertised_mint_configs_lem :
    (mints : List MintConfig) (t : MintHealthTracker)
    → let offered = get_advertised_mint_configs mints t in
      let reachable = get_reachable_mint_configs mints t in
      All (λ m. (mint_state m.url t).is_reachable ≡ true) offered
      × (is_nil offered ≡ is_nil reachable)
      × (All (λ m. (mint_state m.url t).is_throttled ≡ false) offered
          ⊎ ((not_throttled t reachable ≡ []) × (offered ≡ reachable)))
unfolding get_advertised_mint_configs
get_advertised_mint_configs_lem mints t =
    let reachable = get_reachable_mint_configs mints t in
    let free = not_throttled t reachable in
    let IsUp = λ (m : MintConfig). (mint_state m.url t).is_reachable ≡ true in
    let IsFree = λ (m : MintConfig). (mint_state m.url t).is_throttled ≡ false in
    let up = reachable-All mints t in
    (
      unless_empty-All IsUp free reachable (not_throttled-All IsUp reachable t up) up,
      elim (Bool-cases (is_nil reachable)) [
        | inl empty ↦
            unless_empty-is_nil free reachable empty (not_throttled-is_nil reachable t empty)
            ∙ sym empty
        | inr full ↦ unless_empty-some free reachable full ∙ sym full
      ],
      unless_empty-cases IsFree free reachable (not_throttled-free reachable t),
    )
