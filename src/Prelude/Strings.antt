-- ===== src/Prelude/Strings.antt =====
-- A Go `string` is its sequence of bytes. `strings.TrimSpace`, `ToLower` and `ToUpper` are
-- written for ASCII, which is all that the modelled code compares.
use Prim.Native.Char.{code}
use Prim.Native.Nat.{ℕ, ◌+◌, ◌-◌}
use Prim.Native.String.{String}
use mathlib.Core.Path.{◌≡◌, refl}
use mathlib.Core.Logic.{◌↔◌, ◌≢◌, inl, inr}
use mathlib.Core.Bool.{Bool, true, false, ◌&&◌, ◌||◌}
use mathlib.Core.List.{List, [], ◌∷◌, map}
use native.Mathlib.Omega.{arith}
use tollgate_module_basic_go.Prelude.Tests.{leb, ◌==◌, if◌then◌else◌, Bool-cases}

abbrev pub Str : Type 0
Str = List ℕ

-- The bytes of an ASCII literal.
abbrev pub codes : String → Str
codes String.[] = []
codes (String.◌∷◌ c s) = code c ∷ codes s

-- `==` on strings.
unfoldable pub str_eq : Str → Str → Bool
str_eq [] [] = true
str_eq [] (y ∷ ys) = false
str_eq (x ∷ xs) [] = false
str_eq (x ∷ xs) (y ∷ ys) = x == y && str_eq xs ys

pub str_eq_refl : (s : Str) → str_eq s s ≡ true
unfolding str_eq
str_eq_refl [] = refl
str_eq_refl (x ∷ xs) = ground (arith, str_eq_refl xs)

str_eq_sound : (s t : Str) → str_eq s t ≡ true → s ≡ t
unfolding str_eq
str_eq_sound [] [] h = refl
str_eq_sound [] (y ∷ ys) h = cc
str_eq_sound (x ∷ xs) [] h = cc
str_eq_sound (x ∷ xs) (y ∷ ys) h = ground (arith, str_eq_sound xs ys)

pub eq_iff : (s t : Str) → (str_eq s t ≡ true) ↔ (s ≡ t)
eq_iff s t = (str_eq_sound s t, λ e. rw e (str_eq_refl t))

pub str_eq-ne : (s t : Str) → s ≢ t → str_eq s t ≡ false
str_eq-ne s t h = elim (Bool-cases (str_eq s t)) [
  | inl e ↦ absurd (h (str_eq_sound s t e))
  | inr e ↦ e
]

pub str_eq_sym : (s t : Str) → str_eq s t ≡ str_eq t s
str_eq_sym s t = ground (arith, eq_iff s t, eq_iff t s)

-- Whether a set of strings, kept as a list, has this one.
unfoldable pub str_mem : Str → List Str → Bool
str_mem s [] = false
str_mem s (t ∷ ts) = str_eq t s || str_mem s ts

-- The ASCII white space of `unicode.IsSpace`.
unfoldable pub is_space : ℕ → Bool
is_space c = c == 32 || (leb 9 c && leb c 13)

lower_code : ℕ → ℕ
lower_code c = if leb b'A' c && leb c b'Z' then c + 32 else c

upper_code : ℕ → ℕ
upper_code c = if leb b'a' c && leb c b'z' then c - 32 else c

-- `strings.ToLower` and `strings.ToUpper`.
unfoldable pub lower : Str → Str
unfolding lower_code
lower s = map lower_code s

unfoldable pub upper : Str → Str
unfolding upper_code
upper s = map upper_code s

trim_left : Str → Str
unfolding is_space
trim_left [] = []
trim_left (c ∷ s) = if is_space c then trim_left s else c ∷ s

-- Drops a character of white space before nothing.
cons_unless_space : ℕ → Str → Str
unfolding is_space
cons_unless_space c [] = if is_space c then [] else c ∷ []
cons_unless_space c (d ∷ s) = c ∷ d ∷ s

trim_right : Str → Str
unfolding cons_unless_space
trim_right [] = []
trim_right (c ∷ s) = cons_unless_space c (trim_right s)

-- `strings.TrimSpace`.
unfoldable pub trim : Str → Str
unfolding trim_left trim_right
trim s = trim_right (trim_left s)

cons_unless_space-trimmed :
    (c : ℕ) (s : Str)
    → trim_right s ≡ s
    → trim_right (cons_unless_space c s) ≡ cons_unless_space c s
unfolding trim_right
cons_unless_space-trimmed c [] h = ground arith
cons_unless_space-trimmed c (d ∷ s) h = rw h

trim_right-trim_right : (s : Str) → trim_right (trim_right s) ≡ trim_right s
unfolding trim_right
trim_right-trim_right [] = refl
trim_right-trim_right (c ∷ s) = cons_unless_space-trimmed c (trim_right s) (trim_right-trim_right s)

trim_left-cons_unless_space :
    (c : ℕ) (s : Str)
    → trim_left (cons_unless_space c s)
      ≡ (if is_space c then trim_left s else cons_unless_space c s)
unfolding trim_left cons_unless_space
trim_left-cons_unless_space c [] = ground arith
trim_left-cons_unless_space c (d ∷ s) = ground arith

trim_left-trim_right : (s : Str) → trim_left (trim_right s) ≡ trim_right (trim_left s)
unfolding trim_left trim_right
trim_left-trim_right [] = refl
trim_left-trim_right (c ∷ s) =
    ground (arith, trim_left-cons_unless_space c (trim_right s), trim_left-trim_right s)

trim_left-trim_left : (s : Str) → trim_left (trim_left s) ≡ trim_left s
unfolding trim_left
trim_left-trim_left [] = refl
trim_left-trim_left (c ∷ s) = ground (arith, trim_left-trim_left s)

pub trim-trim : (s : Str) → trim (trim s) ≡ trim s
unfolding trim
trim-trim s =
    rw (trim_left-trim_right (trim_left s), trim_left-trim_left s)
      (trim_right-trim_right (trim_left s))

-- Nothing is trimmed from a text without white space.
abbrev pub IsSolid : Str → Type 0
IsSolid [] = Unit {0}
IsSolid (c ∷ s) = (is_space c ≡ false) × IsSolid s

trim_left-solid : (s : Str) → IsSolid s → trim_left s ≡ s
unfolding trim_left
trim_left-solid [] h = refl
trim_left-solid (c ∷ s) h = ground arith

trim_right-solid : (s : Str) → IsSolid s → trim_right s ≡ s
unfolding trim_right cons_unless_space
trim_right-solid [] h = refl
trim_right-solid (c ∷ []) h = ground arith
trim_right-solid (c ∷ d ∷ s) h = rw (trim_right-solid (d ∷ s) h.1) refl

pub trim-solid : (s : Str) → IsSolid s → trim s ≡ s
unfolding trim
trim-solid s h = rw (trim_left-solid s h) (trim_right-solid s h)

-- Trimming commutes with a map of characters that keeps white space apart from the rest.
module _ (f : ℕ → ℕ) (keeps : (c : ℕ) → is_space (f c) ≡ is_space c) where
  trim_left-map : (s : Str) → trim_left (map f s) ≡ map f (trim_left s)
  unfolding trim_left
  trim_left-map [] = refl
  trim_left-map (c ∷ s) = ground (arith, keeps c, trim_left-map s)

  cons_unless_space-map :
      (c : ℕ) (s : Str) → cons_unless_space (f c) (map f s) ≡ map f (cons_unless_space c s)
  unfolding cons_unless_space
  cons_unless_space-map c [] = ground (arith, keeps c)
  cons_unless_space-map c (d ∷ s) = refl

  trim_right-map : (s : Str) → trim_right (map f s) ≡ map f (trim_right s)
  unfolding trim_right
  trim_right-map [] = refl
  trim_right-map (c ∷ s) = rw (trim_right-map s) (cons_unless_space-map c (trim_right s))

  trim-map : (s : Str) → trim (map f s) ≡ map f (trim s)
  unfolding trim
  trim-map s = rw (trim_left-map s) (trim_right-map (trim_left s))

lower_code-space : (c : ℕ) → is_space (lower_code c) ≡ is_space c
unfolding is_space lower_code
lower_code-space c = ground arith

lower_code-lower_code : (c : ℕ) → lower_code (lower_code c) ≡ lower_code c
unfolding lower_code
lower_code-lower_code c = ground arith

upper_code-lower_code : (c : ℕ) → upper_code (lower_code c) ≡ upper_code c
unfolding upper_code lower_code
upper_code-lower_code c = ground arith

pub trim-lower : (s : Str) → trim (lower s) ≡ lower (trim s)
unfolding lower
trim-lower s = trim-map lower_code lower_code-space s

pub lower-lower : (s : Str) → lower (lower s) ≡ lower s
unfolding lower
lower-lower [] = refl
lower-lower (c ∷ s) = cc (lower_code-lower_code c, lower-lower s)

pub upper-lower : (s : Str) → upper (lower s) ≡ upper s
unfolding lower upper
upper-lower [] = refl
upper-lower (c ∷ s) = cc (upper_code-lower_code c, upper-lower s)
