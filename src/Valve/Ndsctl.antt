-- ===== src/Valve/Ndsctl.antt =====
-- What the valve asks of NoDogSplash through ndsctl (src/valve/valve.go). NoDogSplash itself is a
-- parameter: what it answers to the n-th invocation, and how its JSON decodes.
use tollgate_module_basic_go.Prelude.{
  ℕ, zero, suc, ◌+◌, Bool, true, false, ◌&&◌, ◌||◌, Option, none, some, [], ◌∷◌, Str, codes, str_eq,
  trim, lower, ◌==◌, if◌then◌else◌,
}
use tollgate_module_basic_go.Prelude.Words.{mul64}
use tollgate_module_basic_go.Mac.{is_valid_mac}

pub data Command : Type 0 where
  auth deauth json_client : Str → Command
  json_list : Command

-- The output and error of `runNdsctl`: an answer, an exit status that is not zero, or an invocation
-- that the module ended (its deadline, or the shutdown of the module), each with what was printed.
pub data Answer : Type 0 where
  ok failed timed_out stopped : Str → Answer

-- The fields of `ClientStats` that the module reads.
pub record ClientStats : Type 0 where
  pub state : Str
  pub downloaded : ℕ
  pub uploaded : ℕ

pub record Ndsctl : Type 0 where
  pub answer : ℕ → Command → Answer
  pub unmarshal : Str → Option ClientStats

pub data NdsctlError : Type 0 where
  refused timeout stopping : NdsctlError

-- `ClientState`
pub record ClientState : Type 0 where
  pub registered : Bool
  pub authenticated : Bool

has_prefix : Str → Str → Bool
has_prefix [] s = true
has_prefix (p ∷ ps) [] = false
has_prefix (p ∷ ps) (c ∷ s) = p == c && has_prefix ps s

-- `strings.Contains(s, part)`
unfoldable pub contains_str : Str → Str → Bool
unfolding has_prefix
contains_str [] part = has_prefix part []
contains_str (c ∷ s) part = has_prefix part (c ∷ s) || contains_str s part

-- `ndsctlUnknownClient`: the answer has to name the client that was asked about.
unfoldable pub ndsctl_unknown_client : Str → Str → Bool
unfolding contains_str
ndsctl_unknown_client mac output =
    contains_str (lower output) (codes "not found") && contains_str (lower output) (lower mac)

-- What `CheckClientState` reads off a JSON answer; `none` is an answer that does not decode.
client_state_of : Ndsctl → Str → Option ClientState
client_state_of n output =
    if str_eq (trim output) (codes "{}")
    then some (record { registered = false; authenticated = false })
    else elim (n.unmarshal output) [
      | none ↦ none
      | some stats ↦ some (record {
        registered = true;
        authenticated = str_eq (lower stats.state) (codes "authenticated");
      })
    ]

state_of_answer : Ndsctl → Answer → Option ClientState
unfolding client_state_of
state_of_answer n (ok output) = client_state_of n output
state_of_answer n (failed output) = none
state_of_answer n (timed_out output) = none
state_of_answer n (stopped output) = none

-- `CheckClientState`: `none` is an error. An invalid address is refused before ndsctl is asked.
unfoldable pub check_client_state : Ndsctl → Str → ℕ → Option ClientState × ℕ
unfolding state_of_answer
check_client_state n mac calls =
    if is_valid_mac mac
    then (state_of_answer n (n.answer calls (json_client mac)), calls + 1)
    else (none, calls)

kilobytes : ClientStats → ℕ × ℕ
kilobytes stats = (mul64 stats.downloaded 1024, mul64 stats.uploaded 1024)

-- The empty answer is compared as it stands, not trimmed.
stats_of_answer : Ndsctl → Answer → Option (ℕ × ℕ)
unfolding kilobytes
stats_of_answer n (ok output) =
    if str_eq output (codes "{}") || str_eq output (123 ∷ 125 ∷ 10 ∷ [])
    then none
    else elim (n.unmarshal output) [ none ↦ none | some stats ↦ some (kilobytes stats) ]
stats_of_answer n (failed output) = none
stats_of_answer n (timed_out output) = none
stats_of_answer n (stopped output) = none

-- `GetClientStats`: the bytes down and up, or `none` for an error.
unfoldable pub get_client_stats : Ndsctl → Str → ℕ → Option (ℕ × ℕ) × ℕ
unfolding stats_of_answer
get_client_stats n mac calls =
    if is_valid_mac mac
    then (stats_of_answer n (n.answer calls (json_client mac)), calls + 1)
    else (none, calls)

is_authenticated : Option ClientState → Bool
is_authenticated none = false
is_authenticated (some s) = s.authenticated

-- `authMaxAttempts`
abbrev pub auth_max_attempts : ℕ
auth_max_attempts = 5

-- The loop of `authorizeMAC` with `left` attempts to go: a client that NoDogSplash already
-- authenticates counts as authorised, and an invocation that the module ended is not retried.
authorize_attempts : Ndsctl → Str → ℕ → ℕ → Option NdsctlError × ℕ
unfolding check_client_state is_authenticated
authorize_attempts n mac zero calls = (some refused, calls)
authorize_attempts n mac (suc left) calls = elim (n.answer calls (auth mac)) [
  | ok output ↦ (none, calls + 1)
  | timed_out output ↦ (some timeout, calls + 1)
  | stopped output ↦ (some stopping, calls + 1)
  | failed output ↦
      let (state, calls') = check_client_state n mac (calls + 1) in
      elim (is_authenticated state) [
        | true ↦ (none, calls')
        | false ↦ authorize_attempts n mac left calls'
      ]
]

-- `authorizeMAC`: `none` is success.
unfoldable pub authorize_mac : Ndsctl → Str → ℕ → Option NdsctlError × ℕ
unfolding authorize_attempts
authorize_mac n mac calls = authorize_attempts n mac auth_max_attempts calls

-- `deauthorizeMAC`: `none` is a confirmed close, and a client that NoDogSplash does not know is one,
-- also where the module ended the invocation after that was printed.
unfoldable pub deauthorize_mac : Ndsctl → Str → ℕ → Option NdsctlError × ℕ
unfolding ndsctl_unknown_client
deauthorize_mac n mac calls = elim (n.answer calls (deauth mac)) [
  | ok output ↦ (none, calls + 1)
  | timed_out output ↦ (if ndsctl_unknown_client mac output then none else some timeout, calls + 1)
  | stopped output ↦ (if ndsctl_unknown_client mac output then none else some stopping, calls + 1)
  | failed output ↦
      if ndsctl_unknown_client mac output then (none, calls + 1) else (some refused, calls + 1)
]
