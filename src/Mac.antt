-- ===== src/Mac.antt =====
-- MAC addresses: `NormalizeMACAddress` (src/merchant/merchant.go) and `ValidateMACAddress`
-- (src/utils/utils.go). The regular expressions are matched by hand.
use tollgate_module_basic_go.Prelude.{
  ℕ, zero, suc, ◌≡◌, refl, Bool, true, false, ◌&&◌, ◌||◌, [], ◌∷◌, leb, ◌==◌, Str, trim, lower,
  upper, trim-trim, trim-lower, upper-lower, lower-lower,
}

-- `NormalizeMACAddress`
unfoldable pub normalize_mac_address : Str → Str
normalize_mac_address mac = lower (trim mac)

-- `[0-9A-F]`
is_hex : ℕ → Bool
is_hex c = (leb b'0' c && leb c b'9') || (leb b'A' c && leb c b'F')

-- `^([0-9A-F]{2}[sep]){n}([0-9A-F]{2})$`
matches_separated : ℕ → ℕ → Str → Bool
unfolding is_hex
matches_separated sep zero (a ∷ b ∷ []) = is_hex a && is_hex b
matches_separated sep (suc n) (a ∷ b ∷ s ∷ rest) =
    is_hex a && is_hex b && s == sep && matches_separated sep n rest
matches_separated sep _ _ = false

-- `^[0-9A-F]{n}$`
matches_plain : ℕ → Str → Bool
unfolding is_hex
matches_plain zero [] = true
matches_plain (suc n) (a ∷ rest) = is_hex a && matches_plain n rest
matches_plain _ _ = false

-- The search for `[A-F]`.
has_letter : Str → Bool
has_letter [] = false
has_letter (c ∷ s) = (leb b'A' c && leb c b'F') || has_letter s

-- The patterns of `ValidateMACAddress`, on the text that it has trimmed and raised. The empty
-- text, which the source refuses first, matches none of them.
matches_some : Str → Bool
unfolding matches_separated matches_plain has_letter
matches_some mac =
    matches_separated b':' 5 mac
    || matches_separated b'-' 5 mac
    || (matches_plain 12 mac && has_letter mac)

-- `ValidateMACAddress`
unfoldable pub validate_mac_address : Str → Bool
unfolding matches_some
validate_mac_address mac = matches_some (upper (trim mac))

-- A hexadecimal digit in either case, as `net.ParseMAC` reads it.
is_any_hex : ℕ → Bool
unfolding is_hex
is_any_hex c = is_hex c || (leb b'a' c && leb c b'f')

-- `n` groups of two digits, and of four, each followed by `sep` but the last.
groups_of_two : ℕ → ℕ → Str → Bool
unfolding is_any_hex
groups_of_two sep zero (a ∷ b ∷ []) = is_any_hex a && is_any_hex b
groups_of_two sep (suc n) (a ∷ b ∷ s ∷ rest) =
    is_any_hex a && is_any_hex b && s == sep && groups_of_two sep n rest
groups_of_two sep _ _ = false

groups_of_four : ℕ → Str → Bool
unfolding is_any_hex
groups_of_four zero (a ∷ b ∷ c ∷ d ∷ []) =
    is_any_hex a && is_any_hex b && is_any_hex c && is_any_hex d
groups_of_four (suc n) (a ∷ b ∷ c ∷ d ∷ s ∷ rest) =
    is_any_hex a
    && is_any_hex b
    && is_any_hex c
    && is_any_hex d
    && s == b'.'
    && groups_of_four n rest
groups_of_four _ _ = false

-- `isValidMAC` of the valve: what `net.ParseMAC` accepts, which is 6, 8 or 20 bytes.
unfoldable pub is_valid_mac : Str → Bool
unfolding groups_of_two groups_of_four
is_valid_mac mac =
    groups_of_two b':' 5 mac
    || groups_of_two b':' 7 mac
    || groups_of_two b':' 19 mac
    || groups_of_two b'-' 5 mac
    || groups_of_two b'-' 7 mac
    || groups_of_two b'-' 19 mac
    || groups_of_four 2 mac
    || groups_of_four 3 mac
    || groups_of_four 9 mac

pub normalize_mac_address_idem :
    (mac : Str) → normalize_mac_address (normalize_mac_address mac) ≡ normalize_mac_address mac
unfolding normalize_mac_address
normalize_mac_address_idem mac = rw (trim-lower (trim mac), trim-trim mac, lower-lower (trim mac))

-- Normalising an address changes neither its validity nor, a second time, the address.
pub validate-normalize :
    (mac : Str)
    → (validate_mac_address (normalize_mac_address mac) ≡ validate_mac_address mac)
      × (normalize_mac_address (normalize_mac_address mac) ≡ normalize_mac_address mac)
unfolding validate_mac_address normalize_mac_address
validate-normalize mac = (
  rw (trim-lower (trim mac), trim-trim mac, upper-lower (trim mac)),
  unfold normalize_mac_address in normalize_mac_address_idem mac,
)

pub validate-empty : validate_mac_address [] ≡ false
unfolding validate_mac_address upper trim
validate-empty = refl
