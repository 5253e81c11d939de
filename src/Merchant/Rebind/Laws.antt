-- ===== src/Merchant/Rebind/Laws.antt =====
-- What a rebind keeps, and what it loses (src/merchant/session_ticket.go).
use tollgate_module_basic_go.Prelude.{
  ℕ, ◌+◌, ◌%◌, ◌≤◌, ◌≡◌, refl, ◌≢◌, ◌⊎◌, Option, none, some, Str, arith, ltb, Bool-cases, inl, inr,
  str_eq_refl, str_eq-ne, ◌∙◌, sym, ap,
}
use tollgate_module_basic_go.Prelude.Words.{u64_mod, unix}
use tollgate_module_basic_go.Dict.{lookup, erase, lookup-insert, lookup-erase}
use tollgate_module_basic_go.Valve.State.{Valve}
use tollgate_module_basic_go.Valve.Ndsctl.{Ndsctl}
use tollgate_module_basic_go.Valve.Baseline.{
  Usage, measured, baseline_missing, counters_unavailable, get_data_usage_since_baseline,
}
use tollgate_module_basic_go.Merchant.State.{
  Metric, milliseconds, bytes, other, CustomerSession, Merchant,
}
use tollgate_module_basic_go.Merchant.Access.{GrantError, open_gate_by_metric}
use tollgate_module_basic_go.Merchant.Ticket.{
  SessionAttachment, TicketState, TicketError, returns, fails,
}
use tollgate_module_basic_go.Merchant.Rebind.{
  higher_reading, carried_by_metric, moved_session, move_record, baseline_by_metric, attach,
  settle_rebind, deliver,
}

-- The attachment that the session leaves has used the highest of what was seen before and of the
-- reading, where the meter can be read.
abbrev pub IsHighest : CustomerSession → Usage → ℕ → Type 0
IsHighest s u attached =
    (s.attachment_usage ≤ attached)
    × ((since : ℕ) → u ≡ measured since → since ≤ attached)
    × ((attached ≡ s.attachment_usage) ⊎ (u ≡ measured attached))

-- The meter of a session goes along: what is carried is what was consumed before, and for bytes also
-- what the attachment that the session leaves has used (modulo 2^64).
abbrev pub IsCarried : Metric → CustomerSession → Usage → ℕ → Type 0
IsCarried milliseconds s u carried = carried ≡ s.consumed
IsCarried (other name) s u carried = carried ≡ s.consumed
IsCarried bytes s u carried =
    (attached : ℕ) × IsHighest s u attached × (carried ≡ (s.consumed + attached) % u64_mod)

measured-inj : {a b : ℕ} → measured a ≡ measured b → a ≡ b
measured-inj e = cc e

higher_reading-IsCarried :
    (s : CustomerSession) (u : Usage) → IsCarried bytes s u (higher_reading s u)
unfolding higher_reading
higher_reading-IsCarried s (measured since) = elim (Bool-cases (ltb s.attachment_usage since)) [
  | inl more ↦
      rw (more, higher_reading)
        (since, (ground arith, λ x e. rw (measured-inj e) (omega arith), inr refl), refl)
  | inr less ↦
      rw (less, higher_reading)
        (s.attachment_usage, (omega arith, λ x e. ground (arith, measured-inj e), inl refl), refl)
]
higher_reading-IsCarried s baseline_missing =
    (s.attachment_usage, (omega arith, λ x e. absurd (cc), inl refl), refl)
higher_reading-IsCarried s counters_unavailable =
    (s.attachment_usage, (omega arith, λ x e. absurd (cc), inl refl), refl)

carried_by_metric-IsCarried :
    (n : Ndsctl) (metric : Metric) (previous : Str) (s : CustomerSession) (v : Valve)
    → IsCarried metric s
        (get_data_usage_since_baseline n previous v).0
        (carried_by_metric n metric previous s v).0
unfolding carried_by_metric
carried_by_metric-IsCarried n milliseconds previous s v = refl
carried_by_metric-IsCarried n (other name) previous s v = refl
carried_by_metric-IsCarried n bytes previous s v =
    higher_reading-IsCarried s (get_data_usage_since_baseline n previous v).0

module _ (n : Ndsctl) (between : Valve → Valve) (previous mac : Str) (s : CustomerSession)
    (a : SessionAttachment) (now : ℕ) where
  settle_rebind-moved :
      (moved : CustomerSession) (err : Option GrantError) (t : TicketState) (m : Merchant)
      {r : CustomerSession}
      → (settle_rebind n between previous mac s moved a now err t m).0 ≡ returns r
      → let (answer, t', m') = settle_rebind n between previous mac s moved a now err t m in
        (moved ≡ r)
        × (m'.customer_sessions ≡ m.customer_sessions)
        × (lookup a.handle t'.attachments
            ≡ some (record a { mac_address = mac; attached_at = unix now }))
  unfolding settle_rebind attach
  settle_rebind-moved moved none t m h = (
    cc h,
    refl,
    rw
        (
          lookup-insert a.handle a.handle (record a { mac_address = mac; attached_at = unix now })
              t.attachments,
          str_eq_refl a.handle,
        )
        refl,
  )
  settle_rebind-moved moved (some e) t m h = absurd (cc)

  settle_rebind-undone :
      (moved : CustomerSession) (err : Option GrantError) (t : TicketState) (m : Merchant)
      {e : TicketError}
      → previous ≢ mac
      → (settle_rebind n between previous mac s moved a now err t m).0 ≡ fails e
      → let (answer, t', m') = settle_rebind n between previous mac s moved a now err t m in
        (lookup previous m'.customer_sessions ≡ some s) × (lookup mac m'.customer_sessions ≡ none)
  unfolding settle_rebind attach
  settle_rebind-undone moved none t m ne h = absurd (cc)
  settle_rebind-undone moved (some e) t m ne h = (
    rw (lookup-insert previous previous s (erase mac m.customer_sessions), str_eq_refl previous)
        refl,
    rw
        (
          lookup-insert mac previous s (erase mac m.customer_sessions),
          str_eq-ne previous mac ne,
          lookup-erase mac mac m.customer_sessions,
          str_eq_refl mac,
        )
        refl,
  )

  moved_sessions :
      (moved : CustomerSession) (m : Merchant)
      → previous ≢ mac
      → let m' = move_record previous mac moved m in
        (lookup mac m'.customer_sessions ≡ some moved)
        × (lookup previous m'.customer_sessions ≡ none)
  unfolding move_record
  moved_sessions moved m ne = (
    rw (lookup-insert mac mac moved (erase previous m.customer_sessions), str_eq_refl mac) refl,
    rw
        (
          lookup-insert previous mac moved (erase previous m.customer_sessions),
          str_eq-ne mac previous (λ e. ne (sym e)),
          lookup-erase previous previous m.customer_sessions,
          str_eq_refl previous,
        )
        refl,
  )

  -- A rebind is a move: when `RebindSession` takes a session to another address and reports success,
  -- with no other goroutine at the sessions meanwhile, the session is at the new address and no
  -- longer at the old one, the ticket names the new address, the allotment, the metric and the start
  -- are the same, and the meter goes along: what the session consumed before is kept, and for a bytes
  -- session what the attachment it leaves has used is added (modulo 2^64), which is the highest of
  -- what was seen before and of the counters at the old address.
  pub deliver-moves :
      (t : TicketState) (m : Merchant) {r : CustomerSession}
      → previous ≢ mac
      → (deliver n (λ w. w) between previous mac s a now t m).0 ≡ returns r
      → let (answer, t', m') = deliver n (λ w. w) between previous mac s a now t m in
        (lookup mac m'.customer_sessions ≡ some r)
        × (lookup previous m'.customer_sessions ≡ none)
        × (lookup a.handle t'.attachments
            ≡ some (record a { mac_address = mac; attached_at = unix now }))
        × (r.allotment ≡ s.allotment)
        × (r.start_time ≡ s.start_time)
        × (r.metric ≡ s.metric)
        × IsCarried s.metric s (get_data_usage_since_baseline n previous m.valve).0 r.consumed
  unfolding deliver moved_session
  deliver-moves t m {r} ne h =
      let (carried, calls') = carried_by_metric n s.metric previous s m.valve in
      let moved = moved_session mac a.handle s carried in
      let m1 =
        move_record previous mac moved (record m { valve = record m.valve { calls = calls' } }) in
      let (err, v) =
        open_gate_by_metric n moved.metric mac moved now
          (baseline_by_metric n moved.metric mac now m1.valve) in
      let (same, sessions, named) = settle_rebind-moved moved err t (record m1 { valve = v }) h in
      let at_last =
        moved_sessions moved (record m { valve = record m.valve { calls = calls' } }) ne in
      let meter : r.consumed ≡ carried = ap (λ x. x.consumed) (sym same) in
      (
        rw sessions (at_last.0 ∙ ap some same),
        rw sessions at_last.1,
        named,
        ap (λ x. x.allotment) (sym same),
        ap (λ x. x.start_time) (sym same),
        ap (λ x. x.metric) (sym same),
        rw meter (carried_by_metric-IsCarried n s.metric previous s m.valve),
      )

  -- A move that could not be delivered is taken back, but not the new address's own session: when the
  -- gate of the new address cannot be opened, the session is at its old address again as it was, and
  -- whatever session the new address had before the rebind is gone.
  pub deliver-undone :
      (meanwhile : Merchant → Merchant) (t : TicketState) (m : Merchant) {e : TicketError}
      → previous ≢ mac
      → (deliver n meanwhile between previous mac s a now t m).0 ≡ fails e
      → let (answer, t', m') = deliver n meanwhile between previous mac s a now t m in
        (lookup previous m'.customer_sessions ≡ some s) × (lookup mac m'.customer_sessions ≡ none)
  unfolding deliver
  deliver-undone meanwhile t m ne h =
      let (carried, calls') = carried_by_metric n s.metric previous s m.valve in
      let moved = moved_session mac a.handle s carried in
      let m1 =
        meanwhile (
          move_record previous mac moved
            (record m { valve = record m.valve { calls = calls' } })) in
      let (err, v) =
        open_gate_by_metric n moved.metric mac moved now
          (baseline_by_metric n moved.metric mac now m1.valve) in
      settle_rebind-undone moved err t (record m1 { valve = v }) ne h
