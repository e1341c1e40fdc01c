-- ===== src/Commerce/Lifecycle.antt =====
-- After the checkout, of server/apps/commerce/api.py: `cancel_order` by the fan, `ship_order` and
-- `complete_order` by the creator or an operator. Each handler loads the order, and its transaction
-- tests the status again on the rows of its own time: the loaded rows are arguments of it.
use assen_platform.Common.{
  ℕ, ◌==◌, Bool, true, false, not, Option, none, some, List, Text, strip, if◌then◌else◌,
}
use assen_platform.Common.Table.{update, rowcount, exists}
use assen_platform.Errors.{ErrorCode, Response, answer, refuse}
use assen_platform.Identity.{Account}
use assen_platform.Payment.{PaymentGateway}
use assen_platform.Payment.Ledger.{ReversalReason}
use assen_platform.Commerce.Model.{
  Product, Order, OrderStatus, OrderItem, Db, order_row, is_cancellable, is_paid, is_goods,
}
use assen_platform.Commerce.Load.{Stamp, load_order, load_fulfillable_order}
use assen_platform.Commerce.Stock.{restock_order_lines}
use assen_platform.Commerce.Reversal.{reverse_settled_order}

abbrev pub mark_cancelled : Order → Order
mark_cancelled o = record o { status = OrderStatus.cancelled }

abbrev pub order_is_cancellable : Order → Bool
order_is_cancellable o = is_cancellable o.status

-- The transaction of `cancel_order`: `order` and `seen` were loaded before it.
unfoldable pub cancel_transaction :
    Stamp → Option PaymentGateway → Order → List Product → Db → Response Order × Db
cancel_transaction stamp gateway order seen db =
    let transitioned = rowcount order.id order_is_cancellable db.orders in
    if transitioned == 0 then (refuse 422 ErrorCode.order_not_cancellable, db) else (
      answer 200 (mark_cancelled order),
      reverse_settled_order stamp gateway order ReversalReason.order_cancelled (record db {
        orders = update order.id order_is_cancellable mark_cancelled db.orders;
        products = restock_order_lines seen order.items db.products;
      }),
    )

abbrev cancel_loaded : Stamp → Option PaymentGateway → Option Order → Db → Response Order × Db
cancel_loaded stamp gateway none db = (refuse 404 ErrorCode.order_not_found, db)
cancel_loaded stamp gateway (some order) db =
    if order_is_cancellable order
    then cancel_transaction stamp gateway order db.products db
    else (refuse 422 ErrorCode.order_not_cancellable, db)

unfoldable pub cancel_order : Stamp → Option PaymentGateway → Account → ℕ → Db → Response Order × Db
cancel_order stamp gateway account order_id db =
    cancel_loaded stamp gateway (load_order order_id account db) db

pub record ShipIn : Type 0 where
  pub carrier : Text
  pub tracking_number : Text

abbrev pub mark_shipped : ℕ → ShipIn → Order → Order
mark_shipped now payload o = record o {
  status = OrderStatus.shipping;
  tracking_carrier = strip payload.carrier;
  tracking_number = strip payload.tracking_number;
  shipped_at = some now;
}

abbrev pub order_is_paid : Order → Bool
order_is_paid o = is_paid o.status

unfoldable pub ship_transaction : ℕ → ShipIn → Order → Db → Response Order × Db
ship_transaction now payload order db =
    let transitioned = rowcount order.id order_is_paid db.orders in
    if transitioned == 0 then (refuse 422 ErrorCode.order_not_shippable, db) else (
      answer 200 (mark_shipped now payload order),
      record db { orders = update order.id order_is_paid (mark_shipped now payload) db.orders },
    )

abbrev ship_loaded : ℕ → ShipIn → Option Order → Db → Response Order × Db
ship_loaded now payload none db = (refuse 404 ErrorCode.order_not_found, db)
ship_loaded now payload (some order) db = ship_transaction now payload order db

unfoldable pub ship_order : ℕ → Account → ℕ → ShipIn → Db → Response Order × Db
ship_order now account order_id payload db =
    ship_loaded now payload (load_fulfillable_order order_id account db) db

abbrev line_is_goods : OrderItem → Bool
line_is_goods line = is_goods line.item_type

abbrev pub has_goods : Order → Bool
has_goods o = exists line_is_goods o.items

abbrev pub mark_completed : ℕ → Order → Order
mark_completed now o = record o { status = OrderStatus.completed; completed_at = some now }

-- `status__in=from_states`
abbrev pub in_from_states : Bool → OrderStatus → Bool
in_from_states goods OrderStatus.shipping = true
in_from_states goods OrderStatus.paid = not goods
in_from_states goods _ = false

abbrev pub order_is_completable : Bool → Order → Bool
order_is_completable goods o = in_from_states goods o.status

unfoldable pub complete_transaction : ℕ → Order → Db → Response Order × Db
complete_transaction now order db =
    let completable = order_is_completable (has_goods order) in
    let transitioned = rowcount order.id completable db.orders in
    if transitioned == 0 then (refuse 422 ErrorCode.order_not_completable, db) else (
      answer 200 (mark_completed now order),
      record db { orders = update order.id completable (mark_completed now) db.orders },
    )

abbrev complete_loaded : ℕ → Option Order → Db → Response Order × Db
complete_loaded now none db = (refuse 404 ErrorCode.order_not_found, db)
complete_loaded now (some order) db = complete_transaction now order db

unfoldable pub complete_order : ℕ → Account → ℕ → Db → Response Order × Db
complete_order now account order_id db =
    complete_loaded now (load_fulfillable_order order_id account db) db
