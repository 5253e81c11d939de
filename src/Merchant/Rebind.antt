-- ===== src/Merchant/Rebind.antt =====
-- The rebind of a session to a new address (`RebindSession` of src/merchant/session_ticket.go).
pub mod Laws
use tollgate_module_basic_go.Prelude.{
  ℕ, zero, suc, ◌+◌, ◌-◌, Bool, true, false, not, ◌&&◌, ◌||◌, Option, none, some, List, [], ◌∷◌,
  Str, ltb, leb, str_eq, if◌then◌else◌, length,
}
use tollgate_module_basic_go.Prelude.Words.{add64, unix}
use tollgate_module_basic_go.Dict.{Dict, lookup, insert, erase}
use tollgate_module_basic_go.Mac.{normalize_mac_address}
use tollgate_module_basic_go.Valve.State.{Valve}
use tollgate_module_basic_go.Valve.Ndsctl.{Ndsctl, ClientState, check_client_state}
use tollgate_module_basic_go.Valve.Baseline.{
  Usage, measured, baseline_missing, counters_unavailable, set_data_baseline,
  get_data_usage_since_baseline,
}
use tollgate_module_basic_go.Valve.Close.{close_gate}
use tollgate_module_basic_go.Merchant.State.{
  Metric, milliseconds, bytes, other, CustomerSession, Merchant,
}
use tollgate_module_basic_go.Merchant.Session.{is_empty, session_has_expired}
use tollgate_module_basic_go.Merchant.Access.{GrantError, open_gate_by_metric}
use tollgate_module_basic_go.Merchant.Ticket.{
  SessionTicket, Reading, TicketSigner, SessionAttachment, TicketState, TicketError, Result, verify,
  sweep, attachment_of, issue_session_ticket, malformed, signature, expired, unknown, no_session,
  attachment_active, not_authorized, returns, fails, signed, malformed_text, bad_signature,
}

is_authenticated : Option ClientState → Bool
is_authenticated none = false
is_authenticated (some s) = s.authenticated

higher_reading : CustomerSession → Usage → ℕ
higher_reading s (measured since) =
    if ltb s.attachment_usage since
    then add64 s.consumed since
    else add64 s.consumed s.attachment_usage
higher_reading s baseline_missing = add64 s.consumed s.attachment_usage
higher_reading s counters_unavailable = add64 s.consumed s.attachment_usage

-- The meter that a session takes along, with the number of ndsctl invocations.
carried_by_metric : Ndsctl → Metric → Str → CustomerSession → Valve → ℕ × ℕ
unfolding higher_reading
carried_by_metric n bytes previous s v =
    let (usage, calls') = get_data_usage_since_baseline n previous v in
    (higher_reading s usage, calls')
carried_by_metric n milliseconds previous s v = (s.consumed, v.calls)
carried_by_metric n (other name) previous s v = (s.consumed, v.calls)

moved_session : Str → Str → CustomerSession → ℕ → CustomerSession
moved_session mac handle s carried = record {
  mac_address = mac;
  start_time = s.start_time;
  metric = s.metric;
  allotment = s.allotment;
  consumed = carried;
  attachment_usage = 0;
  ticket_handle = handle;
  ticket_expires_at = s.ticket_expires_at;
}

move_record : Str → Str → CustomerSession → Merchant → Merchant
move_record previous mac s m = record m {
  customer_sessions = insert mac s (erase previous m.customer_sessions);
}

baseline_by_metric : Ndsctl → Metric → Str → ℕ → Valve → Valve
baseline_by_metric n bytes mac now v = (set_data_baseline n mac now v).1
baseline_by_metric n milliseconds mac now v = v
baseline_by_metric n (other name) mac now v = v

attach : SessionAttachment → Str → ℕ → TicketState → TicketState
attach a mac at t = record t {
  attachments = insert a.handle (record a { mac_address = mac; attached_at = at }) t.attachments;
}

-- The end of `RebindSession`: the previous gate is closed once the new one is open, and a move that
-- could not open it is taken back. `AttachedAt` is not taken back.
settle_rebind :
    Ndsctl
    → (Valve → Valve)
    → Str
    → Str
    → CustomerSession
    → CustomerSession
    → SessionAttachment
    → ℕ
    → Option GrantError
    → TicketState
    → Merchant
    → Result CustomerSession × TicketState × Merchant
settle_rebind n between previous mac s moved a now none t m = (
  returns moved,
  attach a mac (unix now) t,
  record m { valve = (close_gate n between previous m.valve).1 },
)
settle_rebind n between previous mac s moved a now (some e) t m = (
  fails (not_authorized e),
  attach a previous (unix now) t,
  record m { customer_sessions = insert previous s (erase mac m.customer_sessions) },
)

-- `RebindSession` from the move of the record on. While ndsctl is asked, the session lock is free:
-- `meanwhile` is what the other goroutines do after the move, and `between` what they do to the
-- valve during the last close.
unfoldable pub deliver :
    Ndsctl
    → (Merchant → Merchant)
    → (Valve → Valve)
    → Str
    → Str
    → CustomerSession
    → SessionAttachment
    → ℕ
    → TicketState
    → Merchant
    → Result CustomerSession × TicketState × Merchant
unfolding carried_by_metric moved_session move_record baseline_by_metric settle_rebind attach
deliver n meanwhile between previous mac s a now t m =
    let (carried, calls') = carried_by_metric n s.metric previous s m.valve in
    let moved = moved_session mac a.handle s carried in
    let m1 =
      meanwhile
        (move_record previous mac moved (record m { valve = record m.valve { calls = calls' } })) in
    let (err, v) =
      open_gate_by_metric n moved.metric mac moved now
        (baseline_by_metric n moved.metric mac now m1.valve) in
    settle_rebind n between previous mac s moved a now err t (record m1 { valve = v })

-- `RebindSession` once the probe of the previous address lets it go on.
unfoldable pub rebind_attached :
    Ndsctl
    → (Merchant → Merchant)
    → (Valve → Valve)
    → Str
    → SessionAttachment
    → ℕ
    → TicketState
    → Merchant
    → Result CustomerSession × TicketState × Merchant
rebind_attached n meanwhile between mac a now t m =
    elim (lookup a.mac_address m.customer_sessions) [
      | none ↦ (fails unknown, t, m)
      | some s ↦
          if str_eq s.ticket_handle a.handle
          then if str_eq a.mac_address mac
            then (returns s, t, m)
            else deliver n meanwhile between a.mac_address mac s a now t m
          else (fails unknown, t, m)
    ]

-- The probe of the previous address: whether it is still authenticated. An error lets the rebind go on.
unfoldable pub probe_attachment : Ndsctl → Str → SessionAttachment → Merchant → Bool × Merchant
unfolding is_authenticated
probe_attachment n mac a m =
    if str_eq a.mac_address mac
    then (false, m)
    else let (state, calls') = check_client_state n a.mac_address m.valve.calls in
      (is_authenticated state, record m { valve = record m.valve { calls = calls' } })

rebind_found :
    Ndsctl
    → (Merchant → Merchant)
    → (Valve → Valve)
    → Str
    → ℕ
    → Result SessionAttachment
    → TicketState
    → Merchant
    → Result CustomerSession × TicketState × Merchant
rebind_found n meanwhile between mac now (fails e) t m = (fails e, t, m)
rebind_found n meanwhile between mac now (returns a) t m =
    let (is_live, m1) = probe_attachment n mac a m in
    if is_live
    then (fails attachment_active, t, m1)
    else rebind_attached n meanwhile between mac a now t m1

rebind_verified :
    Ndsctl
    → (Merchant → Merchant)
    → (Valve → Valve)
    → Str
    → ℕ
    → Result SessionTicket
    → TicketState
    → Merchant
    → Result CustomerSession × TicketState × Merchant
unfolding rebind_found
rebind_verified n meanwhile between mac now (fails e) t m = (fails e, t, m)
rebind_verified n meanwhile between mac now (returns ticket) t m =
    let (found, t1) = attachment_of ticket.handle now t in
    rebind_found n meanwhile between mac now found t1 m

-- `RebindSession`
unfoldable pub rebind_session :
    Ndsctl
    → TicketSigner
    → (Merchant → Merchant)
    → (Valve → Valve)
    → Str
    → Str
    → ℕ
    → TicketState
    → Merchant
    → Result CustomerSession × TicketState × Merchant
unfolding rebind_verified
rebind_session n signer meanwhile between text mac_address now t m =
    rebind_verified n meanwhile between (normalize_mac_address mac_address) now
      (verify signer text now) t m
