-- ===== src/Merchant/Receive.antt =====
-- A note on its way into the wallet (src/merchant/merchant.go): its reference, the mark that it is in
-- flight, and the probe of the client before it is taken. The wallet is a parameter.
use tollgate_module_basic_go.Prelude.{
  ℕ, zero, suc, Bool, true, false, Option, none, some, List, [], ◌∷◌, Str, str_eq, str_mem,
  if◌then◌else◌,
}
use tollgate_module_basic_go.Valve.Ndsctl.{Ndsctl, ClientState, check_client_state}
use tollgate_module_basic_go.Merchant.State.{Merchant}
use tollgate_module_basic_go.Merchant.Session.{is_empty}
use tollgate_module_basic_go.Merchant.Purchase.Errors.{ReceiveError}

-- A decoded note; `serialized` is `none` where it cannot be serialized.
pub record Token : Type 0 where
  pub mint : Str
  pub amount : ℕ
  pub serialized : Option Str

-- `receiveResult`
pub data ReceiveResult : Type 0 where
  taken : ℕ → ReceiveResult
  failed : ReceiveError → ReceiveResult

-- What `tollwallet` and `utils.TokenFingerprint` do: `swap_fee` is `none` for an error or no answer,
-- `receive` is `none` where the mint has not answered by the deadline.
pub record Wallet : Type 0 where
  pub decode : Str → Option Token
  pub fingerprint : Str → Str
  pub swap_fee : Token → Option ℕ
  pub receive : Token → Option ReceiveResult
  pub spent : Str → Option Bool
  pub normalize : Str → Str

unfoldable pub reference_of : (Str → Str) → Option Str → Str
reference_of fingerprint none = []
reference_of fingerprint (some text) = fingerprint text

-- `receiveReference`
unfoldable pub receive_reference : Wallet → Token → Str
unfolding reference_of
receive_reference w token = reference_of w.fingerprint token.serialized

unfoldable pub str_remove : Str → List Str → List Str
str_remove s [] = []
str_remove s (t ∷ ts) = let rest = str_remove s ts in if str_eq t s then rest else t ∷ rest

-- `beginReceive` and `endReceive`
unfoldable pub begin_receive : Str → Merchant → Bool × Merchant
begin_receive ref m =
    if is_empty ref
    then (true, m)
    else if str_mem ref m.receive_in_flight
    then (false, m)
    else (true, record m { receive_in_flight = ref ∷ m.receive_in_flight })

unfoldable pub end_receive : Str → Merchant → Merchant
unfolding str_remove
end_receive ref m =
    if is_empty ref then m else record m { receive_in_flight = str_remove ref m.receive_in_flight }

-- `preflightProbeAttempts`
abbrev pub preflight_probe_attempts : ℕ
preflight_probe_attempts = 5

unfoldable pub is_known : Option ClientState → Bool
is_known none = true
is_known (some s) = s.registered

-- `clientRegisteredForGate` with `left` probes to go.
unfoldable pub probe_client : Ndsctl → Str → ℕ → ℕ → Bool × ℕ
unfolding is_known
probe_client n mac zero calls = (false, calls)
probe_client n mac (suc left) calls =
    let (state, calls') = check_client_state n mac calls in
    let rest = probe_client n mac left calls' in if is_known state then (true, calls') else rest

unfoldable pub client_registered_for_gate : Ndsctl → Str → Merchant → Bool × Merchant
unfolding probe_client
client_registered_for_gate n mac m =
    let (known, calls') = probe_client n mac preflight_probe_attempts m.valve.calls in
    (known, record m { valve = record m.valve { calls = calls' } })
