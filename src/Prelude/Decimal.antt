-- ===== src/Prelude/Decimal.antt =====
-- Decimal numbers as the Go code prints and reads them: `fmt.Sprintf("%d", n)` of a `uint64`,
-- `strconv.ParseUint(s, 10, 64)` and `strconv.ParseInt(s, 10, 64)`.
use Prim.Native.Nat.{ℕ, zero, suc, ◌+◌, ◌-◌, ◌*◌, ◌/◌, ◌%◌, ◌^◌, ◌<◌}
use mathlib.Core.Path.{◌≡◌, refl, ◌∙◌}
use mathlib.Core.Logic.{inl, inr}
use mathlib.Core.Bool.{Bool, true, false, ◌&&◌}
use mathlib.Core.Option.{Option, none, some}
use mathlib.Core.List.{[], ◌∷◌, ◌++◌}
use native.Mathlib.Omega.{arith}
use tollgate_module_basic_go.Prelude.Tests.{ltb, leb, ◌==◌, if◌then◌else◌, Bool-cases}
use tollgate_module_basic_go.Prelude.Lists.{All}
use tollgate_module_basic_go.Prelude.Strings.{Str}

-- At most `fuel` digits of a number.
unfoldable pub digits : ℕ → ℕ → Str
digits zero n = []
digits (suc fuel) n =
    let rest = digits fuel (n / 10) in
    if ltb n 10 then (48 + n) ∷ [] else rest ++ (48 + n % 10) ∷ []

-- A `uint64` has at most 20 digits.
unfoldable pub print_uint : ℕ → Str
print_uint n = digits 20 n

unfoldable pub is_digit : ℕ → Bool
is_digit c = leb b'0' c && leb c b'9'

-- The digits of a number after those of `acc`; anything else is a syntax error.
unfoldable pub read_digits : ℕ → Str → Option ℕ
read_digits acc [] = some acc
read_digits acc (c ∷ s) =
    let rest = read_digits (acc * 10 + (c - 48)) s in if is_digit c then rest else none

-- A syntax error, or a number below the limit, or a range error.
unfoldable pub read_below : ℕ → Str → Option ℕ
read_below limit [] = none
read_below limit (c ∷ s) = elim (read_digits 0 (c ∷ s)) [
  | none ↦ none
  | some n ↦ if ltb n limit then some n else none
]

unfoldable pub parse_uint : Str → Option ℕ
parse_uint s = read_below (2 ^ 64) s

-- The sign of a number, and its magnitude; `-0` has no sign.
pub data Signed : Type 0 where
  plus minus : ℕ → Signed

abbrev signed : Bool → ℕ → Signed
signed true zero = plus 0
signed true (suc n) = minus (suc n)
signed false n = plus n

sign_of : Bool → Option ℕ → Option Signed
sign_of negative none = none
sign_of negative (some n) = some (signed negative n)

unfoldable pub parse_int : Str → Option Signed
unfolding sign_of
parse_int [] = none
parse_int (c ∷ s) =
    if c == b'-'
    then sign_of true (read_below (2 ^ 63 + 1) s)
    else if c == b'+'
    then sign_of false (read_below (2 ^ 63) s)
    else sign_of false (read_below (2 ^ 63) (c ∷ s))

read_digits-append :
    (xs : Str) (acc d : ℕ) {v : ℕ}
    → read_digits acc xs ≡ some v
    → d < 10
    → read_digits acc (xs ++ (48 + d) ∷ []) ≡ some (v * 10 + d)
unfolding read_digits is_digit
read_digits-append [] acc d h small = ground arith
read_digits-append (c ∷ xs) acc d {v} h small =
    ground (arith, read_digits-append xs (acc * 10 + (c - 48)) d {v = v})

one_digit : (n : ℕ) → n < 10 → read_digits 0 ((48 + n) ∷ []) ≡ some n
unfolding read_digits is_digit
one_digit n h = ground arith

div-lt : (b n : ℕ) → n < 10 * b → n / 10 < b
div-lt b n h = omega arith

rest_of : (n : ℕ) → some (n / 10 * 10 + n % 10) ≡ some n
rest_of n = ground arith

-- The first number that has more digits.
abbrev pub bound : ℕ → ℕ
bound zero = 1
bound (suc fuel) = 10 * bound fuel

pub read_digits-digits : (fuel n : ℕ) → n < bound fuel → read_digits 0 (digits fuel n) ≡ some n
unfolding digits read_digits
read_digits-digits zero n h = ground arith
read_digits-digits (suc fuel) n h = elim (Bool-cases (ltb n 10)) [
  | inl short ↦ rw (short, digits) (unfold read_digits in one_digit n (ground arith))
  | inr long ↦
      let ih = read_digits-digits fuel (n / 10) (div-lt (bound fuel) n h) in
      rw (long, digits)
        (read_digits-append (digits fuel (n / 10)) 0 (n % 10) ih (omega arith) ∙ rest_of n)
]

digits-cons :
    (fuel n : ℕ) → (c : ℕ) × (s : Str) × (digits (suc fuel) n ≡ c ∷ s) × (is_digit c ≡ true)
unfolding digits is_digit
digits-cons zero n = elim (Bool-cases (ltb n 10)) [
  | inl short ↦ (48 + n, [], rw short refl, ground arith)
  | inr long ↦ (48 + n % 10, [], rw long refl, ground arith)
]
digits-cons (suc fuel) n = elim (Bool-cases (ltb n 10)) [
  | inl short ↦ (48 + n, [], rw short refl, ground arith)
  | inr long ↦
      let (c, s, e, d) = digits-cons fuel (n / 10) in
      (c, s ++ (48 + n % 10) ∷ [], rw (long, digits, e) refl, d)
]

read_below-digits :
    (limit fuel n : ℕ)
    → n < bound (suc fuel)
    → n < limit
    → read_below limit (digits (suc fuel) n) ≡ some n
unfolding read_below
read_below-digits limit fuel n small below =
    let (c, s, e, d) = digits-cons fuel n in
    let read = rw e at (read_digits-digits (suc fuel) n small) in
    rw (e, read_below, read) (ground arith)

-- What was printed is read back.
pub parse_uint-print_uint : (n : ℕ) → n < 2 ^ 64 → parse_uint (print_uint n) ≡ some n
unfolding parse_uint print_uint
parse_uint-print_uint n h = read_below-digits (2 ^ 64) 19 n (omega arith) h

-- What is printed without a sign is read as a positive number.
pub parse_int-print_uint : (n : ℕ) → n < 2 ^ 63 → parse_int (print_uint n) ≡ some (plus n)
unfolding parse_int print_uint sign_of is_digit
parse_int-print_uint n h =
    let (c, s, e, d) = digits-cons 19 n in
    let read : read_below (2 ^ 63) (c ∷ s) ≡ some n =
      rw (← e) (read_below-digits (2 ^ 63) 19 n (omega arith) h) in
    rw e (ground arith)

-- A text of digits.
abbrev pub IsDigits : Str → Type 0
IsDigits s = All (λ c. is_digit c ≡ true) s

IsDigits-append : (s t : Str) → IsDigits s → IsDigits t → IsDigits (s ++ t)
IsDigits-append [] t h k = k
IsDigits-append (c ∷ s) t h k = (h.0, IsDigits-append s t h.1 k)

digits-IsDigits : (fuel n : ℕ) → IsDigits (digits fuel n)
unfolding digits is_digit
digits-IsDigits zero n = tt
digits-IsDigits (suc fuel) n = elim (Bool-cases (ltb n 10)) [
  | inl short ↦ rw short (ground arith, tt)
  | inr long ↦
      rw (long, digits)
        (IsDigits-append (digits fuel (n / 10)) ((48 + n % 10) ∷ []) (digits-IsDigits fuel (n / 10))
          (ground arith, tt))
]

pub print_uint-IsDigits : (n : ℕ) → IsDigits (print_uint n)
unfolding print_uint
print_uint-IsDigits n = digits-IsDigits 20 n
