-- ===== src/Commerce/Checkout/Phases.antt =====
-- The transactions of `create_order` and `create_free_order`, of server/apps/commerce/api.py, and
-- the handlers composed of them. A transaction is a function on the database; between phase 1 and
-- phase 2 other requests may run.
use assen_platform.Common.{
  ℕ, ◌==◌, Bool, false, not, ◌&&◌, Option, none, some, List, ◌∷◌, Text, if◌then◌else◌, is_some,
  is_none,
}
use assen_platform.Common.Table.{find, update, rowcount, exists}
use assen_platform.Errors.{ErrorCode, Response, answer, refuse, crash, Check, pass, stop, ◌>>=◌}
use assen_platform.Identity.{Account}
use assen_platform.Payment.{ProviderRef, PaymentCharge, PaymentGateway, Settings, is_approved}
use assen_platform.Payment.Ledger.{Target, record_mock_settlement, record_free_grant}
use assen_platform.Commerce.Model.{
  Product, Order, OrderStatus, Notice, Db, product_row, order_row, is_pending,
}
use assen_platform.Commerce.Load.{Stamp, load_order, has_key}
use assen_platform.Commerce.Checkout.Checks.{
  CreateOrderIn, replayed, order_checks, free_order_checks,
}
use assen_platform.Commerce.Checkout.Rows.{pending_order, free_order}
use assen_platform.Commerce.Stock.{reserve_stock, restock_order_lines}

-- The reservation, made only for a product whose loaded stock is tracked.
unfoldable pub reserve_products : Product → ℕ → List Product → Option (List Product)
reserve_products product qty products = elim product.stock [
  | none ↦ some products
  | some _ ↦ reserve_stock product.id qty products
]

-- The primary key, the constraint `uniq_order_buyer_idempotency_key` and the foreign key of the
-- line let the row in.
abbrev pub same_key : ℕ → Option Text → Order → Bool
same_key buyer none o = false
same_key buyer (some key) o = (o.buyer == buyer) && has_key key o.idempotency_key

unfoldable pub insertable : Order → Product → Db → Bool
insertable order product db =
    is_none (find order.id db.orders)
    && not (exists (same_key order.buyer order.idempotency_key) db.orders)
    && is_some (find product.id db.products)

-- `return 200, existing` if the key has an order by now, else the fallback.
abbrev answer_or : Option Order → Response Order → Response Order
answer_or none r = r
answer_or (some existing) r = answer 200 existing

-- The transaction that reserves the stock and inserts `order`, with its `except IntegrityError`.
-- A stop leaves the database as it was.
unfoldable pub insert_order :
    Account → CreateOrderIn → Product → Order → Db → Check (Response Order) Db
unfolding insertable reserve_products
insert_order account payload product order db =
    let existing = replayed account payload.idempotency_key db in
    elim (reserve_products product payload.qty db.products) [
      | none ↦ stop (answer_or existing (refuse 422 ErrorCode.insufficient_stock))
      | some products ↦
          if insertable order product db
          then pass (record db { products = products; orders = order ∷ db.orders })
          else stop (answer_or existing crash)
    ]

-- `gateway.charge(...)`: `none` is no gateway, or one that raised.
unfoldable pub charge_order : Option PaymentGateway → Order → Option PaymentCharge
charge_order none order = none
charge_order (some gateway) order = gateway.charge order.id order.total order.idempotency_key

abbrev pub mark_failed : ℕ → Order → Order
mark_failed now o = record o { status = OrderStatus.failed; failed_at = some now }

abbrev pub mark_paid : ℕ → ProviderRef → Order → Order
mark_paid now ref o = record o { status = OrderStatus.paid; paid_at = some now; payment_ref = ref }

abbrev pub order_is_pending : Order → Bool
order_is_pending o = is_pending o.status

-- The transaction after a decline: PENDING→FAILED, and the winner restocks.
unfoldable pub fail_order : ℕ → Order → Db → Db
fail_order now order db =
    let failed = rowcount order.id order_is_pending db.orders in
    if failed == 0 then db else record db {
      orders = update order.id order_is_pending (mark_failed now) db.orders;
      products = restock_order_lines db.products order.items db.products;
    }

-- The transaction after an approval: PENDING→PAID, and the winner ledgers the settlement.
unfoldable pub pay_order : Stamp → Order → ProviderRef → Db → Db
pay_order stamp order ref db =
    let paid = rowcount order.id order_is_pending db.orders in
    if paid == 0 then db else record db {
      orders = update order.id order_is_pending (mark_paid stamp.now ref) db.orders;
      attempts =
          record_mock_settlement stamp.id stamp.now (Target.order order.id) order.total
            order.idempotency_key
          ∷ db.attempts;
    }

-- The notice, for the request that won the PENDING→PAID transition.
abbrev notify_settled : Account → Product → Order → Db → Db → Db
notify_settled account product order before after =
    if rowcount order.id order_is_pending before.orders == 0
    then after
    else record after { notices = Notice.order_received account.id product.id ∷ after.notices }

-- `loaded = _load_order(...)`, `assert loaded is not None`
unfoldable pub created : Account → ℕ → Db → Response Order
created account id db = elim (load_order id account db) [
  | none ↦ crash
  | some loaded ↦ answer 201 loaded
]

abbrev pub approved_ref : Option PaymentCharge → Option ProviderRef
approved_ref none = none
approved_ref (some charge) = if is_approved charge.status then some charge.provider_ref else none

-- Phase 2, from the outcome of the capture.
unfoldable pub settle_order :
    Stamp → Account → Product → Order → Option PaymentCharge → Db → Response Order × Db
unfolding created
settle_order stamp account product order charge db = elim (approved_ref charge) [
  | none ↦ (refuse 402 ErrorCode.payment_declined, fail_order stamp.now order db)
  | some ref ↦
      let paid = notify_settled account product order db (pay_order stamp order ref db) in
      (created account order.id paid, paid)
]

abbrev finish_order :
    Stamp
    → Option PaymentGateway
    → Account
    → Product
    → Order
    → Db
    → Check (Response Order) Db
    → Response Order × Db
finish_order stamp gateway account product order db (stop r) = (r, db)
finish_order stamp gateway account product order db (pass reserved) =
    settle_order stamp account product order (charge_order gateway order) reserved

abbrev pub place_order :
    Stamp
    → Option PaymentGateway
    → Account
    → CreateOrderIn
    → Db
    → Check (Response Order) Product
    → Response Order × Db
place_order stamp gateway account payload db (stop r) = (r, db)
place_order stamp gateway account payload db (pass product) =
    let order = pending_order stamp account payload product in
    finish_order stamp gateway account product order db
      (insert_order account payload product order db)

-- `create_order`, with no other request between its transactions.
unfoldable pub create_order :
    Stamp → Settings → Option PaymentGateway → Account → CreateOrderIn → Db → Response Order × Db
create_order stamp settings gateway account payload db =
    place_order stamp gateway account payload db
      (order_checks settings stamp.now account payload db)

-- The notice and the answer of `create_free_order`, once its transaction is committed.
abbrev finish_free :
    Account → Product → Order → Db → Check (Response Order) Db → Response Order × Db
finish_free account product order db (stop r) = (r, db)
finish_free account product order db (pass granted) =
    let notified = record granted {
      notices = Notice.free_grant account.id product.id ∷ granted.notices;
    } in
    (created account order.id notified, notified)

-- The transaction of `create_free_order`: the reservation, the order and the free grant.
unfoldable pub grant_free :
    Stamp → Account → CreateOrderIn → Product → Db → Check (Response Order) Db
unfolding insert_order
grant_free stamp account payload product db = do
  let order = free_order stamp account payload product
  inserted ← insert_order account payload product order db
  pass (record inserted {
    attempts =
        record_free_grant stamp.id stamp.now (Target.order order.id) order.idempotency_key
        ∷ inserted.attempts;
  })

abbrev pub place_free :
    Stamp → Account → CreateOrderIn → Db → Check (Response Order) Product → Response Order × Db
place_free stamp account payload db (stop r) = (r, db)
place_free stamp account payload db (pass product) =
    finish_free account product (free_order stamp account payload product) db
      (grant_free stamp account payload product db)

unfoldable pub create_free_order :
    Stamp → Settings → Account → CreateOrderIn → Db → Response Order × Db
create_free_order stamp settings account payload db =
    place_free stamp account payload db (free_order_checks settings account payload db)
