-- ===== src/Valve/Close/Evidence.antt =====
-- When the valve (src/valve/valve.go) calls a gate closed: on which answers of NoDogSplash, and what
-- is left of the gate.
use tollgate_module_basic_go.Prelude.{
  ℕ, zero, suc, ◌+◌, ◌≤◌, ◌≡◌, refl, ◌≢◌, ◌⊎◌, Bool, true, false, none, some, Str, arith, inl, inr,
  Option-cases, str_eq_refl,
}
use tollgate_module_basic_go.Dict.{lookup, lookup-erase}
use tollgate_module_basic_go.Mac.{is_valid_mac}
use tollgate_module_basic_go.Valve.State.{Valve, epoch_of, retire_gate}
use tollgate_module_basic_go.Valve.Ndsctl.{
  Ndsctl, NdsctlError, Answer, deauth, ok, failed, timed_out, stopped, ClientState,
  check_client_state, ndsctl_unknown_client, deauthorize_mac,
}
use tollgate_module_basic_go.Valve.Close.{
  CloseError, invalid_mac, close_gate_confirmed, deauth_attempts, is_gone, confirm_by_probe,
  deauth_max_attempts, count_unconfirmed, handle_unconfirmed_close, schedule_close_retry,
  settle_unconfirmed, finish_gate_close, close_gate,
}

-- What NoDogSplash said of the client at invocation `k`, no earlier than `from`: it has
-- deauthorised the client, it does not know the client, which it may also have printed before the
-- module ended the invocation, or it lists no such client.
pub data Evidence (n : Ndsctl) (mac : Str) (from : ℕ) : Type 0 where
  deauthorised :
      (k : ℕ) (out : Str) → from ≤ k → n.answer k (deauth mac) ≡ ok out → Evidence n mac from
  unknown :
      (k : ℕ) (out : Str)
      → from ≤ k
      → n.answer k (deauth mac) ≡ failed out
      → ndsctl_unknown_client mac out ≡ true
      → Evidence n mac from
  unknown_when_ended :
      (k : ℕ) (out : Str)
      → from ≤ k
      → (n.answer k (deauth mac) ≡ timed_out out) ⊎ (n.answer k (deauth mac) ≡ stopped out)
      → ndsctl_unknown_client mac out ≡ true
      → Evidence n mac from
  absent :
      (k : ℕ) (s : ClientState)
      → from ≤ k
      → (check_client_state n mac k).0 ≡ some s
      → s.registered ≡ false
      → Evidence n mac from

pub Evidence-later :
    (n : Ndsctl) (mac : Str) (a b : ℕ) → a ≤ b → Evidence n mac b → Evidence n mac a
Evidence-later n mac a b h (deauthorised k out m e) = deauthorised k out (omega arith) e
Evidence-later n mac a b h (unknown k out m e u) = unknown k out (omega arith) e u
Evidence-later n mac a b h (unknown_when_ended k out m e u) =
    unknown_when_ended k out (omega arith) e u
Evidence-later n mac a b h (absent k s m e r) = absent k s (omega arith) e r

module _ (n : Ndsctl) (mac : Str) where
  deauthorize_mac-calls : (calls : ℕ) → (deauthorize_mac n mac calls).1 ≡ calls + 1
  unfolding deauthorize_mac
  deauthorize_mac-calls calls = ground arith

  deauthorize_mac-Evidence :
      (calls : ℕ) → (deauthorize_mac n mac calls).0 ≡ none → Evidence n mac calls
  unfolding deauthorize_mac
  deauthorize_mac-Evidence calls = go (n.answer calls (deauth mac)) refl
    where
      go :
          (a : Answer)
          → n.answer calls (deauth mac) ≡ a
          → (deauthorize_mac n mac calls).0 ≡ none
          → Evidence n mac calls
      go (ok out) e h = deauthorised calls out (omega arith) e
      go (failed out) e h = unknown calls out (omega arith) e (ground arith)
      go (timed_out out) e h = unknown_when_ended calls out (omega arith) (inl e) (ground arith)
      go (stopped out) e h = unknown_when_ended calls out (omega arith) (inr e) (ground arith)

  deauth_attempts-Evidence :
      (left : ℕ) (last : NdsctlError) (calls : ℕ)
      → (deauth_attempts n mac left last calls).0 ≡ none
      → Evidence n mac calls
  unfolding deauth_attempts
  deauth_attempts-Evidence zero last calls h = absurd (cc)
  deauth_attempts-Evidence (suc left) last calls h =
      elim (Option-cases (deauthorize_mac n mac calls).0) [
        | inl e ↦ deauthorize_mac-Evidence calls e
        | inr (err, e) ↦ Evidence-later n mac calls (calls + 1) (omega arith) (
            deauth_attempts-Evidence left err (calls + 1)
              (rw (← deauthorize_mac-calls calls) (ground arith)))
      ]

  deauth_attempts-calls :
      (left : ℕ) (last : NdsctlError) (calls : ℕ)
      → calls ≤ (deauth_attempts n mac left last calls).1
  unfolding deauth_attempts
  deauth_attempts-calls zero last calls = omega arith
  deauth_attempts-calls (suc left) last calls = grind (
    arith,
    deauthorize_mac-calls calls,
    λ (e : NdsctlError). deauth_attempts-calls left e (calls + 1),
  )

  confirm_by_probe-Evidence :
      (e : NdsctlError) (v : Valve) → (confirm_by_probe n mac e v).0 ≡ none → Evidence n mac v.calls
  unfolding confirm_by_probe is_gone
  confirm_by_probe-Evidence e v h = elim (Option-cases (check_client_state n mac v.calls).0) [
    | inl no_answer ↦ absurd (ground arith)
    | inr (s, answer) ↦ absent v.calls s (omega arith) answer (ground arith)
  ]

  pub close_gate_confirmed-Evidence :
      (fresh : Bool) (v : Valve)
      → (close_gate_confirmed n mac fresh v).0 ≡ none
      → Evidence n mac v.calls
  unfolding close_gate_confirmed
  close_gate_confirmed-Evidence fresh v h =
      elim (Option-cases
        (deauth_attempts n mac deauth_max_attempts NdsctlError.refused v.calls).0) [
          | inl e ↦ deauth_attempts-Evidence deauth_max_attempts NdsctlError.refused v.calls e
          | inr (err, e) ↦
              let calls' =
                (deauth_attempts n mac deauth_max_attempts NdsctlError.refused v.calls).1 in
              Evidence-later n mac v.calls calls'
                (deauth_attempts-calls deauth_max_attempts NdsctlError.refused v.calls)
                (confirm_by_probe-Evidence err (record v { calls = calls' }) (ground arith))
        ]

-- What the valve has forgotten of the client.
abbrev pub IsForgotten : Str → Valve → Type 0
IsForgotten mac v =
    (lookup mac v.open_gates ≡ none)
    × (lookup mac v.pending_until ≡ none)
    × (lookup mac v.pending_close_retries ≡ none)
    × (lookup mac v.close_streaks ≡ none)
    × (lookup mac v.data_baselines ≡ none)

retire_gate-IsForgotten : (mac : Str) (v : Valve) → IsForgotten mac (retire_gate mac v)
unfolding retire_gate
retire_gate-IsForgotten mac v = grind (arith, lookup-erase, str_eq_refl)

-- When `CloseGate` reports success, NoDogSplash gave evidence during this very call that the client
-- is deauthorised or unknown to it, and the valve has forgotten the gate. This holds whatever other
-- goroutines did while ndsctl was asked.
pub close_gate_closed :
    (n : Ndsctl) (between : Valve → Valve) (mac : Str) (v : Valve)
    → (close_gate n between mac v).0 ≡ none
    → Evidence n mac v.calls × IsForgotten mac (close_gate n between mac v).1
unfolding close_gate finish_gate_close
close_gate_closed n between mac v h = (
  close_gate_confirmed-Evidence n mac false v (ground arith),
  ground (arith, retire_gate-IsForgotten mac (between (close_gate_confirmed n mac false v).1)),
)

pub settle_unconfirmed-keeps :
    (mac : Str) (epoch next : ℕ) (e : CloseError) (v : Valve)
    → let w = settle_unconfirmed mac epoch next e v in
      (w.open_gates ≡ v.open_gates)
      × (w.pending_until ≡ v.pending_until)
      × (w.gate_epochs ≡ v.gate_epochs)
      × (w.data_baselines ≡ v.data_baselines)
      × (w.calls ≡ v.calls)
unfolding settle_unconfirmed handle_unconfirmed_close count_unconfirmed schedule_close_retry
settle_unconfirmed-keeps mac epoch next e v = ground arith

-- A failed close is not a close: whatever error `CloseGate` returns for a valid address, the gates,
-- their pending starts and their baselines are what the other goroutines left, so a gate that was
-- tracked stays tracked and metered.
pub close_gate_failed :
    (n : Ndsctl) (between : Valve → Valve) (mac : Str) (v : Valve) {e : CloseError}
    → (close_gate n between mac v).0 ≡ some e
    → e ≢ invalid_mac
    → let before = between (close_gate_confirmed n mac false v).1 in
      let after = (close_gate n between mac v).1 in
      (after.open_gates ≡ before.open_gates)
      × (after.pending_until ≡ before.pending_until)
      × (after.gate_epochs ≡ before.gate_epochs)
      × (after.data_baselines ≡ before.data_baselines)
unfolding close_gate finish_gate_close
close_gate_failed n between mac v {e} h valid = ground (
  arith,
  settle_unconfirmed-keeps mac (epoch_of mac v) 1 e
      (between (close_gate_confirmed n mac false v).1),
)

-- A close that races a renewal: when the other goroutines have moved the epoch of the gate while
-- ndsctl was asked about a valid address, `CloseGate` never reports the gate closed, and the gates
-- and baselines that they left stay.
pub close_gate_raced :
    (n : Ndsctl) (between : Valve → Valve) (mac : Str) (v : Valve)
    → is_valid_mac mac ≡ true
    → epoch_of mac (between (close_gate_confirmed n mac false v).1) ≢ epoch_of mac v
    → let before = between (close_gate_confirmed n mac false v).1 in
      let (err, after) = close_gate n between mac v in
      (err ≢ none)
      × (after.open_gates ≡ before.open_gates)
      × (after.data_baselines ≡ before.data_baselines)
unfolding close_gate finish_gate_close
close_gate_raced n between mac v valid moved =
    let before = between (close_gate_confirmed n mac false v).1 in
    let keeps = λ (e : CloseError). settle_unconfirmed-keeps mac (epoch_of mac v) 1 e before in
    (ground arith, grind (arith, keeps), grind (arith, keeps))
