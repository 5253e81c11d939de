-- ===== src/Merchant/Payout/Laws.antt =====
-- In which order and up to what sum the shares are paid out (src/merchant/merchant.go).
use native.Mathlib.Nat.{mul-div-le, le_of_mul-le-mul_left}
use tollgate_module_basic_go.Prelude.{
  ℕ, ◌+◌, ◌-◌, ◌*◌, ◌≤◌, ◌<◌, ◌≡◌, refl, inl, inr, Bool, true, false, Option, none, some, List, [],
  ◌∷◌, Str, arith, ltb, leb, All, is_some, Bool-cases, length,
}
use tollgate_module_basic_go.Merchant.Payout.{
  PayoutMint, ProfitShare, share_of, Recipient, PayoutWorld, Payout, with_recipient, recipients,
  reachable, first_owner, payout_share, pay_maintainers, pay_after_owner, process_payout,
}

abbrev pub total_of : List Recipient → ℕ
total_of [] = 0
total_of (r ∷ rs) = r.amount + total_of rs

-- What the payouts aim to pay.
abbrev pub aimed_total : List Payout → ℕ
aimed_total [] = 0
aimed_total (p ∷ ps) = p.recipient.amount + aimed_total ps

abbrev pub share_total : ℕ → List ProfitShare → ℕ
share_total aimed [] = 0
share_total aimed (ps ∷ shares) = share_of ps aimed + share_total aimed shares

abbrev pub numerators : List ProfitShare → ℕ
numerators [] = 0
numerators (ps ∷ shares) = ps.numerator + numerators shares

-- The owner is the first to be paid, and nobody else is unless that payout succeeded.
abbrev pub IsOwnerFirst : List Payout → Type 0
IsOwnerFirst [] = Unit
IsOwnerFirst (first ∷ rest) =
    (first.recipient.is_owner ≡ true)
    × All (λ (p : Payout). (p.recipient.is_owner ≡ false) × (is_some first.paid ≡ true)) rest

module _ (w : PayoutWorld) (mint : PayoutMint) where
  with_recipient-total :
      (ps : ProfitShare) (amount : ℕ) (address : Option Str) (rest : List Recipient)
      → total_of (with_recipient ps amount address rest) ≤ amount + total_of rest
  unfolding with_recipient
  with_recipient-total ps amount none rest = omega arith
  with_recipient-total ps amount (some address) rest = omega arith

  recipients-total :
      (aimed : ℕ) (shares : List ProfitShare)
      → total_of (recipients w aimed shares) ≤ share_total aimed shares
  unfolding recipients
  recipients-total aimed [] = omega arith
  recipients-total aimed (ps ∷ shares) = ground (
    arith,
    recipients-total aimed shares,
    with_recipient-total ps (share_of ps aimed) (w.get_public_identity ps.identity)
        (recipients w aimed shares),
  )

  reachable-total : (rs : List Recipient) → total_of (reachable w rs) ≤ total_of rs
  unfolding reachable
  reachable-total [] = omega arith
  reachable-total (r ∷ rs) = ground (arith, reachable-total rs)

  pay_maintainers-paid :
      (rs : List Recipient) (ok : Bool)
      → ok ≡ true
      → All
          (λ (p : Payout). (p.recipient.is_owner ≡ false) × (ok ≡ true))
          (pay_maintainers w mint rs)
  unfolding pay_maintainers payout_share
  pay_maintainers-paid [] ok h = tt
  pay_maintainers-paid (r ∷ rs) ok h = elim (Bool-cases r.is_owner) [
    | inl owner ↦ rw owner (pay_maintainers-paid rs ok h)
    | inr other ↦ rw other ((refl, h), pay_maintainers-paid rs ok h)
  ]

  first_owner-is_owner :
      (rs : List Recipient) {o : Recipient} → first_owner rs ≡ some o → o.is_owner ≡ true
  unfolding first_owner
  first_owner-is_owner [] {o} h = absurd (cc)
  first_owner-is_owner (r ∷ rs) {o} h = ground (arith, first_owner-is_owner rs {o = o})

  pay_maintainers-total :
      (rs : List Recipient) → aimed_total (pay_maintainers w mint rs) ≤ total_of rs
  unfolding pay_maintainers payout_share
  pay_maintainers-total [] = omega arith
  pay_maintainers-total (r ∷ rs) = ground (arith, pay_maintainers-total rs)

  -- The maintainers' payouts leave room for the owner's.
  with_owner-total :
      (rs : List Recipient) {o : Recipient}
      → first_owner rs ≡ some o
      → o.amount + aimed_total (pay_maintainers w mint rs) ≤ total_of rs
  unfolding pay_maintainers payout_share first_owner
  with_owner-total [] {o} h = absurd (cc)
  with_owner-total (r ∷ rs) {o} h =
      ground (arith, with_owner-total rs {o = o}, pay_maintainers-total rs)

  pay_after_owner-IsOwnerFirst :
      (reached : List Recipient) (first : Option Recipient)
      → ((o : Recipient) → first ≡ some o → o.is_owner ≡ true)
      → IsOwnerFirst (pay_after_owner w mint reached first)
  unfolding pay_after_owner payout_share
  pay_after_owner-IsOwnerFirst reached none owned = tt
  pay_after_owner-IsOwnerFirst reached (some o) owned =
      elim (Bool-cases (is_some (payout_share w mint o).paid)) [
        | inl ok ↦
            rw (ok, pay_after_owner)
              (owned o refl, pay_maintainers-paid reached (is_some (payout_share w mint o).paid) ok)
        | inr not_paid ↦ rw (not_paid, pay_after_owner) (owned o refl, tt)
      ]

  pay_after_owner-total :
      (reached : List Recipient) (first : Option Recipient)
      → first_owner reached ≡ first
      → aimed_total (pay_after_owner w mint reached first) ≤ total_of reached
  unfolding pay_after_owner payout_share
  pay_after_owner-total reached none e = omega arith
  pay_after_owner-total reached (some o) e = ground (arith, with_owner-total reached {o = o} e)

module _ (den : ℕ) (positive : 0 < den) where
  -- The factors are fractions of one denominator.
  abbrev pub IsUniform : List ProfitShare → Type 0
  IsUniform [] = Unit
  IsUniform (ps ∷ shares) = (ps.denominator ≡ den) × IsUniform shares

  share_of-rounds :
      (ps : ProfitShare) (amount : ℕ)
      → ps.denominator ≡ den
      → 2 * den * share_of ps amount ≤ 2 * (amount * ps.numerator) + den
  unfolding share_of
  share_of-rounds ps amount same =
      rw same (mul-div-le (2 * (amount * ps.numerator) + den) (2 * den))

  share_total-rounds :
      (amount : ℕ) (shares : List ProfitShare)
      → IsUniform shares
      → 2 * den * share_total amount shares ≤ 2 * (amount * numerators shares) + den * length shares
  share_total-rounds amount [] same = omega arith
  share_total-rounds amount (ps ∷ shares) same =
      let rest = share_total-rounds amount shares same.1 in
      let first = share_of-rounds ps amount same.0 in grind (arith, rest, first)

  share_total-near :
      (amount : ℕ) (shares : List ProfitShare)
      → IsUniform shares
      → numerators shares ≤ den
      → 2 * share_total amount shares ≤ 2 * amount + length shares
  share_total-near amount shares same whole =
      let bound = share_total-rounds amount shares same in
      let shared : amount * numerators shares ≤ amount * den = grind (arith, whole) in
      let scaled : den * (2 * share_total amount shares) ≤ den * (2 * amount + length shares) =
        grind (arith, bound, shared) in
      le_of_mul-le-mul_left scaled positive

-- A payout pays the owner first, and a maintainer only after the owner was paid, whatever the shares
-- are; and what it aims to pay in all is at most the sum of the rounded shares of what the balance is
-- above the minimum.
pub process_payout_lem :
    (w : PayoutWorld) (mint : PayoutMint) (shares : List ProfitShare) (balance : ℕ)
    → let payouts = process_payout w mint shares balance in
      IsOwnerFirst payouts × (aimed_total payouts ≤ share_total (balance - mint.min_balance) shares)
unfolding process_payout
process_payout_lem w mint shares balance =
    let aimed = balance - mint.min_balance in
    let reached = reachable w (recipients w aimed shares) in
    let bound : aimed_total (pay_after_owner w mint reached (first_owner reached))
        ≤ share_total aimed shares =
      omega (
        arith,
        pay_after_owner-total w mint reached (first_owner reached) refl,
        reachable-total w mint (recipients w aimed shares),
        recipients-total w mint aimed shares,
      ) in
    let ordered =
      pay_after_owner-IsOwnerFirst w mint reached (first_owner reached)
        (λ o e. first_owner-is_owner w mint reached {o = o} e) in
    elim (Bool-cases (ltb balance mint.min_payout_amount)) [
      | inl low ↦ rw (low, process_payout) (tt, omega arith)
      | inr enough ↦ elim (Bool-cases (leb balance mint.min_balance)) [
        | inl kept ↦ rw (enough, kept, process_payout) (tt, omega arith)
        | inr above ↦ rw (enough, above, process_payout) (ordered, bound)
      ]
    ]

-- Where the factors are fractions of one denominator and add up to no more than one, a payout aims to
-- pay at most what the balance is above the minimum and half a sat for each share.
pub process_payout-near :
    (w : PayoutWorld) (mint : PayoutMint) (shares : List ProfitShare) (balance den : ℕ)
    (positive : 0 < den)
    → IsUniform den positive shares
    → numerators shares ≤ den
    → 2 * aimed_total (process_payout w mint shares balance)
      ≤ 2 * (balance - mint.min_balance) + length shares
process_payout-near w mint shares balance den positive same whole = omega (
  arith,
  (process_payout_lem w mint shares balance).1,
  share_total-near den positive (balance - mint.min_balance) shares same whole,
)
