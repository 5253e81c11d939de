-- ===== src/Dict.antt =====
-- Go's `map[string]V` as an association list: read, write, `delete`, and the size.
use tollgate_module_basic_go.Prelude.{
  suc, ◌≤◌, ◌≡◌, refl, Bool, true, false, Option, none, some, List, [], ◌∷◌, Str, arith, str_eq,
  eq_iff, if◌then◌else◌, length, is_some, inl, inr, Bool-cases, str_eq_sym,
}

abbrev pub Dict {ℓ} : Type ℓ → Type ℓ
Dict V = List (Str × V)

module _ {ℓ} {V : Type ℓ} where
  -- `v, ok := m[k]`
  unfoldable pub lookup : Str → Dict V → Option V
  lookup k [] = none
  lookup k ((j, v) ∷ m) = if str_eq j k then some v else lookup k m

  -- `m[k] = v`
  unfoldable pub insert : Str → V → Dict V → Dict V
  insert k v [] = (k, v) ∷ []
  insert k v ((j, w) ∷ m) = if str_eq j k then (k, v) ∷ m else (j, w) ∷ insert k v m

  -- `delete(m, k)`
  unfoldable pub erase : Str → Dict V → Dict V
  erase k [] = []
  erase k ((j, w) ∷ m) = let rest = erase k m in if str_eq j k then rest else (j, w) ∷ rest

  -- `_, ok := m[k]`
  abbrev pub contains : Str → Dict V → Bool
  contains k m = is_some (lookup k m)

  pub lookup-insert :
      (j k : Str) (v : V) (m : Dict V)
      → lookup j (insert k v m) ≡ (if str_eq k j then some v else lookup j m)
  unfolding lookup insert
  lookup-insert j k v [] = refl
  lookup-insert j k v ((i, w) ∷ m) =
      ground (arith, eq_iff k j, eq_iff i k, eq_iff i j, lookup-insert j k v m)

  pub lookup-erase :
      (j k : Str) (m : Dict V) → lookup j (erase k m) ≡ (if str_eq k j then none else lookup j m)
  unfolding lookup erase
  lookup-erase j k [] = ground arith
  lookup-erase j k ((i, w) ∷ m) =
      ground (arith, eq_iff k j, eq_iff i k, eq_iff i j, lookup-erase j k m)

  pub length-erase-le : (k : Str) (m : Dict V) → length (erase k m) ≤ length m
  unfolding erase
  length-erase-le k [] = omega arith
  length-erase-le k ((i, w) ∷ m) = ground (arith, length-erase-le k m)

  pub length-insert-le : (k : Str) (v : V) (m : Dict V) → length (insert k v m) ≤ suc (length m)
  unfolding insert
  length-insert-le k v [] = omega arith
  length-insert-le k v ((i, w) ∷ m) = ground (arith, length-insert-le k v m)

  -- Erasing a key that is present makes the map smaller.
  pub length-erase-lt :
      (k : Str) (m : Dict V) → contains k m ≡ true → suc (length (erase k m)) ≤ length m
  unfolding lookup erase
  length-erase-lt k [] h = absurd (cc)
  length-erase-lt k ((i, w) ∷ m) h = ground (arith, length-erase-lt k m, length-erase-le k m)

  -- Writing to a key that is present keeps the size.
  pub length-insert_present :
      (k : Str) (v : V) (m : Dict V) → contains k m ≡ true → length (insert k v m) ≡ length m
  unfolding lookup insert
  length-insert_present k v [] h = absurd (cc)
  length-insert_present k v ((i, w) ∷ m) h = ground (arith, length-insert_present k v m)

-- No key stands twice, as in a Go map.
abbrev pub Unique {ℓ} : {V : Type ℓ} → Dict V → Type 0
Unique [] = Unit {0}
Unique ((k, v) ∷ m) = (contains k m ≡ false) × Unique m

module _ {ℓ} {V : Type ℓ} where
  pub insert-Unique : (k : Str) (v : V) (m : Dict V) → Unique m → Unique (insert k v m)
  unfolding insert lookup
  insert-Unique k v [] h = (refl, tt)
  insert-Unique k v ((j, w) ∷ m) h = elim (Bool-cases (str_eq j k)) [
    | inl same ↦ rw same (rw ((eq_iff j k).0 same) at h)
    | inr other ↦
        rw other (rw (lookup-insert j k v m, str_eq_sym k j, other) h.0, insert-Unique k v m h.1)
  ]

  pub erase-Unique : (k : Str) (m : Dict V) → Unique m → Unique (erase k m)
  unfolding erase
  erase-Unique k [] h = tt
  erase-Unique k ((j, w) ∷ m) h = elim (Bool-cases (str_eq j k)) [
    | inl same ↦ rw same (erase-Unique k m h.1)
    | inr other ↦ rw other (ground (arith, lookup-erase j k m, h.0), erase-Unique k m h.1)
  ]
