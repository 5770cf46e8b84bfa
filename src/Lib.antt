-- ===== src/Lib.antt =====
-- A model of the payment gateway: the Go service that takes payOS payments for orders, keeps them
-- in one SQLite database, and tells webhook endpoints about every payment.
--
-- The parts and how they interact. A client reserves an order (internal/storage/payment_orders.go);
-- network work on it is done under a claim with a 30-second lease. Signed callbacks are kept in an
-- inbox (internal/storage/payos_receipts.go). A payment is settled in one transaction
-- (internal/storage/settlement.go): the evidence is judged against the order and the receipts, and
-- either kept for review or booked as a transaction, a receipt and a PAID order, with a durable
-- event and one delivery for each endpoint (internal/storage/events.go). The dispatcher
-- (internal/notification/dispatcher.go) claims deliveries (internal/storage/deliveries.go), sends
-- them and closes the claims. A deployer closes the store to mutations through the gate
-- (internal/storage/deployment_control.go), and the worker's lifecycle
-- (internal/workerstate/runtime.go) says whether it takes work. Amounts are put into Vietnamese
-- words for speech (internal/voicecopy/money_vi.go).
--
-- Which file models which part. Gate: AcquireMutationGate, ReleaseMutationGate, RenewMutationGate,
-- ForceUnlockMutationGate, GetDeploymentGate, CheckMutationAllowed. Store: the rows of the tables,
-- withTx and the check of a provider operation. Orders, Orders/Lease, Orders/Reserve:
-- ReservePaymentOrder, ClaimPaymentOrder, RenewPaymentOrderOperation,
-- CompletePaymentOrderOperation. Inbox: SaveVerifiedPaymentCallback and wakePaymentOrderInboxTx.
-- Outbox: emitTransactionEventTx. Settlement, Settlement/Judge, Settlement/Commit: SettlePayment.
-- EventHub: Subscribe and Publish of internal/eventhub/hub.go. Journal: ReadJournalEvents of
-- internal/storage/journal.go and the publisher of internal/realtimestream/journal_publisher.go.
-- Reconcile: verifiedLinkSettlement, applyVerifiedLink and failureUpdate of
-- internal/payments/reconcile.go. Deliveries: ClaimDelivery, CompleteDelivery, FailDelivery,
-- ReplayDelivery, RecordAttempt. Sepay: ParseNotification of internal/sepay/parser.go, with Go's text
-- functions in Sepay/Texts and parseAmountVND in Sepay/Amount; Sepay/Ingest: IngestSePayNotification of
-- internal/storage/sepay.go, with its decision in Ingest/Judge and its writes in Ingest/Rows and
-- Ingest/Booking, on the
-- payment path's store and the intake's own tables (Sepay/Tables).
-- Deliveries/Dispatch: DispatchOne and the settings of the dispatcher. Worker: the coordinator, one
-- function for each section under its mutex. Money: readThreeDigits, SpeakVNDParts, SpeakVND.
-- Payments: the service of internal/payments as steps over a world; Payments/Create: CreateOrder;
-- Payments/Recover: reconcileOrder with recoverAbsent, recoverCreate and recoverCancel, on the pure
-- decisions of Recover/Decide and settleVerifiedLink and reconcileCancellation of Recover/Settling; Payments/Cancel: CancelOrder and reconcileDue; Payments/Webhook and
-- Payments/Json: HandleWebhook with the test of its shape and its signature. Orders/Due and
-- Inbox/Pending: DuePaymentOrders, PendingPaymentCallbacks and WakePendingPaymentCallbacks.
-- Ledger, History, Deliveries/Schedule, Worker/Lifecycle and Worker/Races look at sequences of
-- operations. Base holds what the parts share; Examples holds concrete runs.
--
-- How state and code correspond. The database is a record of tables, a table the list of its rows.
-- A function over a SQL transaction takes the database and returns an error or a value with the
-- next database; withTx keeps the old one on an error. An instant is the number of nanoseconds
-- since Go's zero time, and an operation reads the clock once. A text column that holds a time is
-- absent, unreadable, or an instant; where SQL compares two such texts, Base/Clock has the order of
-- the texts. "" stands for a NULL text, and 0 for an integer that is not positive. Random ids and
-- tokens, digests, senders and the lookup of a delivery's target are arguments. Integers of 64 bits
-- are taken without a bound: amounts, counters and generations stay far below 2 ^ 63.
--
-- An operation of the payment service is a step from a world (the store, the clock, the service's
-- fields and what has left the process) to an error or a value and the next world. payOS is an
-- environment: it answers a call, and says what time and others have made of the store meanwhile. A
-- managed service pins a revision of its configuration and delegates CreateOrder, CancelOrder,
-- HandleWebhook and reconcileOrder to these operations; its own round of reconcileDue, without the
-- check of the gate and ended by any error, is not modelled.
--
-- Bounds. SpeakVNDParts divides by 1000 at most seven times for an int64, so the groups are read
-- with fuel 7, which is enough below 10 ^ 21. Order codes have 13 digits, the fuel of their text.
-- The loop that draws order codes runs over the list of its draws and fails when it ends, as the
-- code does when its context ends.
--
-- Not modelled: HTTP handlers, authentication, cryptography, configuration, metrics, the client of
-- payOS over HTTP and its configuration in the store, the calls of Telegram, SePay's own webhooks and
-- its configuration, the gateway's stream, lists for display, migrations, goroutines and timers, and
-- the code in other languages.
mod Base
mod Examples
pub mod Gate
pub mod Store
pub mod Ledger
pub mod Orders
pub mod Inbox
pub mod Outbox
pub mod Settlement
pub mod EventHub
pub mod Journal
pub mod Reconcile
pub mod Deliveries
pub mod Payments
pub mod Sepay
pub mod History
pub mod Worker
pub mod Money
