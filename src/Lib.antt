-- ===== src/Lib.antt =====
-- The TollGate module: the daemon of a router that sells internet access for ecash, modelled from
-- the Go packages under src/.
--
-- The program. A customer pays for an allotment of time or of bytes. The merchant (src/merchant)
-- prices the payment, keeps one session per customer, and has the valve (src/valve) open the
-- customer's gate in NoDogSplash, through the command ndsctl. The valve closes a gate when its timer
-- runs out or when the merchant's usage monitor finds the session spent; a close that ndsctl does
-- not confirm is no close, and is retried up to a budget. A customer may also pay a Lightning
-- invoice, whose quote the merchant keeps until access is granted. The merchant advertises its prices,
-- and a gateway that is itself a customer of another one reads them, pays for its own session, and
-- renews it before it runs out (src/upstream_session_manager); which network it is connected to is the
-- choice of src/wireless_gateway_manager.
--
-- Files.
--   Prelude, Prelude/*  Boolean tests, strings as sequences of bytes, `uint64` arithmetic, clocks.
--   Dict                Go's `map[string]V` as an association list.
--   Mac                 `NormalizeMACAddress` (src/merchant/merchant.go), `ValidateMACAddress`
--                       (src/utils/utils.go), `isValidMAC` (src/valve/valve.go).
--   Valve/State         the package variables of src/valve/valve.go as the record `Valve`, with
--                       `markGateOpenedLocked`, `retireGateLocked` and the lookups on them.
--   Valve/Ndsctl        `authorizeMAC`, `deauthorizeMAC`, `CheckClientState`, `GetClientStats`.
--   Valve/Baseline      src/valve/customer_data_tracker.go.
--   Valve/Close         `closeGateConfirmed`, `CloseGate`, `ReconcileGateClose`, the timer and retry
--                       callbacks; laws in Close/Evidence and Close/Budget.
--   Valve/Open          `OpenGate`, `OpenGateUntil`, `delayedAuth`; laws in Open/Laws.
--   Merchant/State      the record `Merchant` and the records it tracks.
--   Merchant/Pricing    `calculateAllotment`.
--   Merchant/Session    `GetSession`, `GetSessionState`, `AddAllotment` and the history of expired
--                       sessions (src/merchant/merchant.go); laws in Session/Laws.
--   Merchant/Access     `openGateForSession`, `grantSessionAccess` (src/merchant/lightning.go).
--   Merchant/Metering   the usage monitor's step for one bytes session (src/merchant/merchant.go).
--   Merchant/OwedGrant  src/merchant/owed_grant.go: debts, their monitor, and the restart; laws in
--                       OwedGrant/Laws, OwedGrant/Monitor and OwedGrant/Restart.
--   Merchant/Intent     src/merchant/receive_intent.go: the journal of notes; laws in Intent/Laws, the
--                       step relation in Intent/Machine, the abstract machine that it
--                       implements in Intent/Refinement, a torn write in Intent/Crash.
--   Merchant/Receive    `beginReceive`, `receiveReference`, `clientRegisteredForGate`
--                       (src/merchant/merchant.go).
--   Merchant/Purchase   `PurchaseSession`, `recordLateReceiveOutcome`
--                       (src/merchant/merchant.go), the reading of errors in Purchase/Errors; laws in
--                       Purchase/Laws, Purchase/Outcome and Purchase/Journal.
--   Merchant/Ticket     src/merchant/session_ticket.go, its `RebindSession` in Merchant/Rebind; laws in
--                       Rebind/Laws.
--   Merchant/Quote      src/merchant/lightning.go and quote_store.go: Quote/State the table and its
--                       file, Quote/Budget `mintQuoteBudget`, Quote/Admission the caps, the eviction
--                       and `RequestLightningInvoice`, Quote/Grant `GetLightningInvoiceStatus`,
--                       `ensureLightningAccessGranted`, the monitor and the restart; laws below each.
--   Merchant/Payout     `processPayout`, `PayoutShare` (src/merchant/merchant.go) and `MeltToLightning`
--                       (src/tollwallet/tollwallet.go); laws in Payout/Laws.
--   Merchant/Reconcile  src/merchant/nds_client_reconciliation.go, startup_reconciliation.go and the
--                       stale bindings of src/merchant/merchant.go; laws in Reconcile/Clients and Reconcile/Bindings.
--   Valve/Clients       src/valve/nds_clients.go; what a close leaves alone is in Valve/Close/Frame.
--   Protocol            the advertisement: `CreateAdvertisement` (src/merchant/merchant.go) and
--                       src/tollgate_protocol/validator.go; laws in Protocol/Laws.
--   Upstream/Session    `HandleRenewal` and the choice of a price
--                       (src/upstream_session_manager/session.go), the recovery of a rejected
--                       token (token_recovery.go); laws in Session/Laws.
--   Upstream/Bootstrap  src/upstream_session_manager/bootstrap.go; laws in Bootstrap/Laws.
--   Upstream/Usage      src/upstream_session_manager/upstream_usage_tracker.go; laws in Usage/Laws.
--   Wireless            src/wireless_gateway_manager: Wireless/State the blacklist and the circuit breaker
--                       of upstream_manager.go, Wireless/Candidates `findCandidates`,
--                       Wireless/Manager `runScanCycle` and the ticks of `Start`; laws below them.
--   MintHealth          src/merchant/mint_health_tracker.go: which mints are up and offered; laws in
--                       MintHealth/Check, MintHealth/Hysteresis and
--                       MintHealth/Advertised.
--   Tests               a small gateway at which the theorems are applied.
--
-- How state and operations correspond. A Go function that changes state becomes a function from the
-- state (`Valve`, `Merchant`, `Lightning`, `UpstreamSession`, `BootstrapState`, `UpstreamManager`) to
-- its result and the new state. A mutex that is held for the whole
-- function makes it one step. `CloseGate` and its relatives free the mutex while ndsctl is asked:
-- there an argument `between : Valve → Valve` stands for everything the other goroutines do in that
-- time, and the theorems hold for every such function unless they say otherwise; so too where the
-- mint or an upstream gateway is asked. The lock of the session table is held for each access alone:
-- the usage monitor has an argument `others` for what other goroutines do to the table meanwhile,
-- `RebindSession` an argument `meanwhile`, and `grantSessionAccess` is modelled twice, with such an
-- argument (`grant_session_access_with`) and without. The other callers of the table, and the passes
-- that reconcile it, are modelled with no other goroutine at it between their accesses. The clock is an
-- argument, one reading for each call, in nanoseconds since the Unix epoch.
--
-- Parameters. NoDogSplash is the record `Ndsctl`: what it answers to the n-th invocation, and how
-- its JSON decodes; no law is assumed of it. The wallet (`Merchant.Receive.Wallet`) is what the
-- mint answers, also without laws. `NormalizeMintURL` is a function. A disk is a function that says
-- of the n-th write of a journal whether it succeeds; one that fails leaves the file as it was. The
-- rate limiter of the quotes is a function from its past calls and the time to its permission. The
-- wallet of an upstream session, what the upstream gateway answers and whether the recovery file can be
-- written are the record `Upstream.Session.PaymentMerchant`, and the reference of a proof is a function.
-- `Wireless.Candidates.Connector` is the router's wireless configuration, and
-- `Merchant.Payout.PayoutWorld` the Lightning addresses and the mint of a payout.
--
-- Bounds and fuel. `uint64` arithmetic keeps its wrap-around (`Prelude.Words`). The retry loops of
-- `authorizeMAC` and `closeGateConfirmed` are recursions on the source's own bound of attempts.
-- `monitorOwedGrant` and `monitorLightningQuote` run on fuel, and `monitor_owed_grant-ends` and
-- `monitor_lightning_quote-ends` give the rounds that are enough. The eviction at the watermark runs
-- on as many rounds as the table has records, since each takes one away.
-- `int64` arithmetic on instants and on a session's end is on ℕ, without overflow; signals are
-- integers (`Prelude.Integers`), without overflow. The factor of a profit share is a fraction, and its
-- product with an amount is exact before it is rounded.
--
-- Not modelled: logging, HTTP, the sleeps between attempts, disk formats, the wallet (but for the
-- attempts of a melt), and the
-- components that the manifest lists as not modelled.
pub mod Prelude
pub mod Dict
pub mod Mac
pub mod Valve
pub mod Merchant
pub mod MintHealth
pub mod Protocol
pub mod Upstream
pub mod Wireless
pub mod Tests
