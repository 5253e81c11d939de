-- ===== src/Merchant/Purchase/Errors.antt =====
-- How the merchant reads the error of a `Receive` (src/merchant/merchant.go).
use tollgate_module_basic_go.Prelude.{
  Bool, false, not, ◌&&◌, ◌||◌, Str, codes, lower, List, [], ◌∷◌,
}
use tollgate_module_basic_go.Valve.Ndsctl.{contains_str}

-- An error of `tollwallet.Receive`: its text, and what `errors.Is` and `errors.As` find in its chain.
pub record ReceiveError : Type 0 where
  pub message : Str
  pub already_spent : Bool
  pub outcome_unknown : Bool
  pub ambiguous_outcome : Bool

abbrev pub says : ReceiveError → Str → Bool
says e part = contains_str (lower e.message) part

-- `isRateLimitError`, `isBelowSwapFeeError`, `isExpiredKeysetError`, `isMintUnreachableError`
unfoldable pub is_rate_limit_error : ReceiveError → Bool
is_rate_limit_error e =
    says e (codes "429") || says e (codes "rate limit") || says e (codes "too many requests")

unfoldable pub is_below_swap_fee_error : ReceiveError → Bool
is_below_swap_fee_error e =
    says e (codes "nothing to swap")
    || says e (codes "no outputs provided")
    || says e (codes "swap fees")

unfoldable pub is_expired_keyset_error : ReceiveError → Bool
is_expired_keyset_error e = says e (codes "keyset") && says e (codes "expired")

unfoldable pub is_mint_unreachable_error : ReceiveError → Bool
is_mint_unreachable_error e =
    says e (codes "connection refused")
    || says e (codes "no such host")
    || says e (codes "i/o timeout")
    || says e (codes "temporarily unavailable")
    || (says e (codes "keyset")
        && (says e (codes "not found")
            || says e (codes "could not")
            || says e (codes "error getting")
            || says e (codes "resolve"))
        && not (is_expired_keyset_error e))

says_one_of : ReceiveError → List Str → Bool
says_one_of e [] = false
says_one_of e (part ∷ parts) = says e part || says_one_of e parts

abbrev rejections : List Str
rejections =
    codes "status 400"
    ∷ codes "status 401"
    ∷ codes "status 403"
    ∷ codes "status 404"
    ∷ codes "status 409"
    ∷ codes "status 422"
    ∷ []

-- `isDefinitiveMintRefusal`
unfoldable pub is_definitive_mint_refusal : ReceiveError → Bool
unfolding says_one_of
is_definitive_mint_refusal e =
    e.already_spent
    || is_expired_keyset_error e
    || is_below_swap_fee_error e
    || is_rate_limit_error e
    || says e (codes "already spent")
    || says e (codes "already signed")
    || says_one_of e rejections

-- `isAmbiguousMintOutcomeError`
unfoldable pub is_ambiguous_mint_outcome_error : ReceiveError → Bool
is_ambiguous_mint_outcome_error e = e.ambiguous_outcome || not (is_definitive_mint_refusal e)
