-- ===== src/Lib.antt =====
-- The server of the platform (server/, Django with Ninja): the core of its business rules.
--
-- A request enters a handler of an app's api.py, which reads and writes rows of the database inside
-- transactions; a worker runs the billing cycle. A table is a list of rows, the newest first; a
-- handler is a function from its arguments and the tables to a response and the tables. A
-- conditional UPDATE with its row count is `update` and `rowcount` of Common/Table, so the gates
-- that decide a race in the source decide it here, and requests interleave at transactions
-- (Commerce/Steps).
--
-- Which file is about which part:
-- Common, Common/Tests, Common/Strings, Common/Table/*: Boolean tests, Python strings with `strip`,
--   and tables: look-up, guarded UPDATE, row count, sums over rows, and their laws.
-- Errors: server/config/errors.py (ErrorCode, ApiError), the responses, and chains of early returns.
-- Identity: server/apps/identity/models.py (Account, Role, KycStatus), the gates of auth.py
--   (`require_kyc_verified`) and of server/apps/admin_rbac/permissions.py (`role_rank`,
--   `has_min_role`).
-- Payment: server/config/payment.py (PaymentGateway, MockPaymentGateway, ChargeStatus).
-- Payment/Ledger: server/apps/payments/models.py and services.py, the append-only ledgers.
-- Commerce/Model, Commerce/Load: server/apps/commerce/models.py and the look-ups of its api.py.
-- Commerce/Stock/*: the reservation of stock, and `_restock_order_lines`.
-- Commerce/Checkout/*: `create_order` and `create_free_order`: the checks in their order, the rows,
--   the transaction that reserves and inserts, the capture, and the transaction that settles or
--   fails.
-- Commerce/Reversal, Commerce/Lifecycle, Commerce/Refund: `_reverse_settled_order`, `cancel_order`,
--   `ship_order`, `complete_order`, `request_refund` and the operator's `ops_*_refund`.
-- Commerce/Steps, with Conservation and Settlement: the transactions as a step relation, the
--   invariant of the shop, and the proofs that each step keeps it. Commerce/Graph: the life of one
--   order.
-- Commerce/Loaded, Commerce/Requests, Commerce/Serve: whole handlers as sequences of steps.
-- Commerce/Outcomes, Commerce/Orders, Commerce/Endings: what the answers of the handlers tell.
-- Membership/Model: server/apps/membership/models.py and `active_subscription` of services.py.
-- Membership/Subscribe, Membership/Change: `subscribe`, `subscribe_free`, `cancel_subscription` and
--   `change_subscription_tier` of server/apps/membership/api.py.
-- Membership/Billing: `run_subscription_billing_cycle` of server/apps/membership/tasks.py.
-- Membership/Exclusive, Membership/Calls, Membership/Entitlement, Membership/Renewal,
--   Membership/Charges: the proofs about them.
-- Safety: the blocks and `has_active_block` of server/apps/safety/models.py and services.py.
--   Safety/Uploads: server/apps/uploads/services.py, how an image is taken down and restored.
--   Safety/Reports: the reports of server/apps/safety/services.py. Safety/Takedowns, Safety/Held,
--   Safety/Changes, Safety/Filing, Safety/Moderation: the proofs about them.
-- Cheki/Service: server/apps/cheki/models.py and services.py. Cheki/Life: the proofs about it.
-- EventCampaign/Model, EventCampaign/Service: server/apps/event_campaign/models.py and services.py.
--   EventCampaign/Holds, EventCampaign/Moves, EventCampaign/Turns: the proofs about them.
-- Reservation/Service: server/apps/reservation/models.py and services.py. Reservation/Slots,
--   Reservation/Operations, Reservation/Accepted: the proofs about them.
-- Coupon/Model, Coupon/Service: server/apps/coupon/models.py and services.py. Coupon/Points,
--   Coupon/Lifecycle, Coupon/Turns: the proofs about them.
-- Common/Integers: Python's integers, for the points. Common/Options: chains of look-ups.
-- CommerceBridge/Words, CommerceBridge/Model, CommerceBridge/Service: server/apps/commerce_bridge,
--   the signed webhooks of a hosted shop. CommerceBridge/Settlement, CommerceBridge/Deliveries: the
--   proofs.
-- Pagination/Query: server/config/pagination.py, cursors and pages. Pagination/Keyset,
--   Pagination/Sorting: filters, prefixes and ORDER BY for any strict order. Pagination/Laws (cursor
--   and seek), Pagination/Tiebreak (the ordering), Pagination/Pages (one call), Pagination/Walk
--   (from page to page) and Pagination/Listing (a whole listing): the proofs about them.
-- RateLimit, RateLimit/Window: server/config/ratelimit.py (InMemoryRateLimiter).
-- Otp, Otp/Lockout: server/config/otp.py (MockOtpSender).
-- Commerce/Tests, Commerce/Examples, Commerce/EndingExamples, Membership/Tests, Coupon/Tests,
--   Reservation/Tests, EventCampaign/Tests, Cheki/Tests, CommerceBridge/Tests, Pagination/Tests,
--   RateLimit/Tests, Otp/Tests, Safety/Tests: runs on small tables.
--
-- Choices. Keys (UUIDs, order codes) are numbers that the request's `Stamp` or `Clock` supplies, and
-- an insert under a key that is taken is the IntegrityError of the source. Times are seconds, dates
-- days. Amounts are whole KRW on the naturals, without the column limits of the database. A row that
-- a handler loaded before its transaction is an argument of the transaction, so it may be stale by
-- then. The gateway is a record of functions that may fail; the mock gateway is the repository's
-- own. HMAC, base64, JSON and the column types of Django are records of functions, with their
-- documented laws as hypotheses where a proof needs them. The
-- storage is a function from keys to objects; the failures of its calls are parameters of each call. There is no fuel: loops run over lists; a
-- client that pages through a listing makes one request more than there are rows, which is enough.
-- Response bodies are reduced to the row they are made of.
--
-- Not modelled: authentication, throttling, logging, push and realtime delivery, the ORM itself, the
-- routes that edit products and tiers, the limiter in Redis, and the other apps of server/apps,
-- among them content and visits, the upload and the serving of images; the clients (web/, apps/,
-- packages/, landing/), which show what the server decides.
pub mod Common
pub mod Errors
pub mod Identity
pub mod Payment
pub mod Membership
pub mod Commerce
pub mod Safety
pub mod Coupon
pub mod Reservation
pub mod Pagination
pub mod RateLimit
pub mod Otp
pub mod CommerceBridge
pub mod EventCampaign
pub mod Cheki
