-- ===== src/Lib.antt =====
-- A model of the core of the ZennShop backend (backend/src): orders, their payment and commission,
-- the shops' wallets, the payment provider's webhook, refunds and cancellations, and deliveries.
--
-- The services are NestJS classes over a Prisma client. Here a table is the list of its rows
-- (Common/Tables.antt, Database/Rows.antt, from backend/prisma/schema.prisma), and a method is an
-- `Action`: from a database to a result or an HTTP error, with the database that it leaves
-- (Database/Action.antt). What was written before a throw stays written, but for a $transaction,
-- which is rolled back whole. Database/Calls.antt has the client's `update` by key.
--
-- * Orders/Create.antt is OrdersService.create of backend/src/orders/orders.service.ts, with the
--   prices of Orders/Pricing.antt; Orders/Payment.antt is confirmPayment, Orders/Credit.antt
--   creditSellerForPaidOrder, Orders/Status.antt updateStatus and remindPayment, Orders/Cancel.antt
--   cancelByCustomer, Orders/Reads.antt the reads, Orders/View.antt toOrderView.
-- * Boutiques/Wallet.antt is getWallet and requestWithdrawal, Boutiques/Lifecycle.antt the status and
--   the verification of a shop, in backend/src/boutiques/boutiques.service.ts.
-- * Paydunya/Webhook.antt is handleWebhook, Paydunya/Signature.antt verifyWebhookSignature,
--   Paydunya/Settle.antt the two settlements, in backend/src/paydunya/paydunya.service.ts.
-- * Refunds.antt is backend/src/refunds/refunds.service.ts; Admin.antt is cancelOrder and
--   setUserStatus of backend/src/admin/admin.service.ts.
-- * Delivery holds backend/src/delivery/delivery.service.ts: Config.antt the settings, Quote.antt
--   calculateQuote, Tokens.antt hashTokenOrCode, Shipments.antt createOrGetShipmentForOrder,
--   Partners.antt the verification of partners, attachCourierToAgency and detachCourierFromAgency,
--   Dispatch.antt dispatchShipment, Assign.antt acceptPublicMission and assignMissionByAgency,
--   Access.antt activateConversationAccessInTx, Handover.antt recordHandoverEvidence, Code.antt the
--   two verifications of a delivery, Finalize.antt finalizeVerifiedDelivery,
--   Conformity.antt acceptProductConformity and the release at the end of its window,
--   Payout.antt adminApproveSettlementPayout, Dispute.antt openDispute and
--   resolveDisputeByAdmin, Chat.antt sendShipmentChatMessage.
-- * Idempotency.antt is backend/src/common/services/idempotency.service.ts, Phone.antt
--   backend/src/common/utils/normalize-phone.util.ts.
--
-- The parts meet in the database: a payment credits the balance and opens the allocation that the
-- wallet holds back; a cancellation and a refund take from the balance and close the allocation; the
-- webhook and the orders service write the same credit in two places; both keep their answers under
-- idempotency keys; a delivery moves the allocation of the shop and those of its carriers, which the
-- wallet, a dispute and a payout read. A module's laws stand in its child modules, and Witnesses
-- applies them to a small shop and to one parcel.
--
-- Conventions. Money is an integer of hundredths of a franc, a point is worth a franc, a rate is in
-- hundredths of a percent. Identifiers, references and hashes are natural numbers; texts are lists
-- of code units; times are milliseconds and are arguments, as are the identifiers of new rows. The
-- rounding of a commission (`toFixed(2)`, a parameter for each expression, since the services multiply
-- and divide in different orders) and the digests of node's `crypto` are parameters. Stock is a natural
-- number, and every subtraction from it is under the guard that makes it exact. What is
-- handed to the notification and messaging services is recorded in `effects`; mails are left out.
-- The saving of an idempotent answer, which the orders service does not wait for, is taken as done.
-- Every loop is a recursion over a list, so nothing needs fuel.
--
-- Not modelled: the registration of delivery partners, address snapshots and the tables of the
-- geography of the deliveries, accounts and one-time codes, guards, the catalogue, messaging, search,
-- the HTTP layer, and the web client.
pub mod Common
pub mod Database
pub mod Phone
pub mod Idempotency
pub mod Orders
pub mod Boutiques
pub mod Paydunya
pub mod Refunds
pub mod Admin
pub mod Delivery
pub mod Witnesses
