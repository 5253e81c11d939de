-- ===== src/Merchant/Ticket.antt =====
-- Session tickets (src/merchant/session_ticket.go): a signed handle onto a session, with which its
-- customer takes the session to a new address. The signature is a parameter: what a text reads as.
use tollgate_module_basic_go.Prelude.{
  ℕ, zero, suc, ◌+◌, not, ◌&&◌, none, some, [], ◌∷◌, Str, ltb, leb, if◌then◌else◌, length,
}
use tollgate_module_basic_go.Prelude.Words.{unix}
use tollgate_module_basic_go.Dict.{Dict, lookup, insert, erase}
use tollgate_module_basic_go.Mac.{normalize_mac_address}
use tollgate_module_basic_go.Merchant.State.{Merchant}
use tollgate_module_basic_go.Merchant.Session.{is_empty, session_has_expired}
use tollgate_module_basic_go.Merchant.Access.{GrantError}

-- `SessionTicket`
pub record SessionTicket : Type 0 where
  pub handle : Str
  pub issued_at : ℕ
  pub expires_at : ℕ

pub data Reading : Type 0 where
  signed : SessionTicket → Reading
  malformed_text bad_signature : Reading

-- `ticketSigner`: `issue` signs a payload, and `read` checks the signature of a text. The random
-- bytes of a new handle are `new_handle`.
pub record TicketSigner : Type 0 where
  pub issue : SessionTicket → Str
  pub read : Str → Reading
  pub new_handle : Str

-- `sessionAttachment`
pub record SessionAttachment : Type 0 where
  pub handle : Str
  pub mac_address : Str
  pub issued_at : ℕ
  pub expires_at : ℕ
  pub attached_at : ℕ

-- `ticketState`; `ttl` is in nanoseconds.
pub record TicketState : Type 0 where
  pub attachments : Dict SessionAttachment
  pub ttl : ℕ

pub data TicketError : Type 0 where
  malformed signature expired unknown no_session attachment_active : TicketError
  not_authorized : GrantError → TicketError

pub data Result {ℓ} (A : Type ℓ) : Type ℓ where
  returns : A → Result A
  fails : TicketError → Result A

check_reading : Reading → ℕ → Result SessionTicket
check_reading malformed_text now = fails malformed
check_reading bad_signature now = fails signature
check_reading (signed ticket) now =
    if is_empty ticket.handle
    then fails malformed
    else if leb ticket.expires_at (unix now)
    then fails expired
    else returns ticket

-- `verify`
unfoldable pub verify : TicketSigner → Str → ℕ → Result SessionTicket
unfolding check_reading
verify signer text now = check_reading (signer.read text) now

-- `maxSessionAttachments`
abbrev max_session_attachments : ℕ
max_session_attachments = 4096

drop_expired : ℕ → Dict SessionAttachment → Dict SessionAttachment
drop_expired now [] = []
drop_expired now ((handle, a) ∷ m) =
    let rest = drop_expired now m in
    if leb a.expires_at (unix now) then rest else (handle, a) ∷ rest

oldest_attachment : ℕ → Str → Dict SessionAttachment → Str
oldest_attachment oldest best [] = best
oldest_attachment oldest best ((handle, a) ∷ m) =
    oldest_attachment (if ltb a.attached_at oldest then a.attached_at else oldest)
      (if ltb a.attached_at oldest then handle else best) m

-- The loop of `sweepLocked` over a store that is full; each round drops an entry, so that as many
-- rounds as there are entries are enough.
drop_oldest : ℕ → ℕ → Dict SessionAttachment → Dict SessionAttachment
unfolding oldest_attachment
drop_oldest zero now m = m
drop_oldest (suc fuel) now m =
    let oldest = oldest_attachment (unix now) [] m in
    let rest = drop_oldest fuel now (erase oldest m) in
    if leb max_session_attachments (length m) && not (is_empty oldest) then rest else m

-- `sweepLocked`
unfoldable pub sweep : ℕ → Dict SessionAttachment → Dict SessionAttachment
unfolding drop_expired drop_oldest
sweep now m = let live = drop_expired now m in drop_oldest (length live) now live

-- `attachmentLocked`
unfoldable pub attachment_of : Str → ℕ → TicketState → Result SessionAttachment × TicketState
attachment_of handle now t = elim (lookup handle t.attachments) [
  | none ↦ (fails unknown, t)
  | some a ↦
      if leb a.expires_at (unix now)
      then (fails expired, record t { attachments = erase handle t.attachments })
      else (returns a, t)
]

-- The handle of a session, or a new one.
handle_or : Str → Str → Str
handle_or new [] = new
handle_or new (c ∷ s) = c ∷ s

-- `IssueSessionTicket`: the signed text and when it expires.
unfoldable pub issue_session_ticket :
    TicketSigner → Str → ℕ → TicketState → Merchant → Result (Str × ℕ) × TicketState × Merchant
unfolding handle_or
issue_session_ticket signer mac_address now t m =
    let mac = normalize_mac_address mac_address in
    elim (lookup mac m.customer_sessions) [
      | none ↦ (fails no_session, t, m)
      | some s ↦
          if session_has_expired s now
          then (fails no_session, t, m)
          else let handle = handle_or signer.new_handle s.ticket_handle in
            let expires = unix (now + t.ttl) in
            let ticket : SessionTicket = record {
              handle = handle;
              issued_at = unix now;
              expires_at = expires;
            } in
            let a : SessionAttachment = record {
              handle = handle;
              mac_address = mac;
              issued_at = unix now;
              expires_at = expires;
              attached_at = unix now;
            } in
            (
              returns (signer.issue ticket, expires),
              record t { attachments = insert handle a (sweep now t.attachments) },
              record m {
                customer_sessions =
                    insert mac (record s { ticket_handle = handle; ticket_expires_at = expires })
                      m.customer_sessions;
              },
            )
    ]
