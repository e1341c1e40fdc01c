-- ===== src/Commerce/Steps/Ledgers.antt =====
-- The settlements and the reversals over the transactions of server/apps/commerce/api.py.
use assen_platform.Common.{
  ℕ, ◌==◌, ◌≡◌, refl, ◌||◌, Bool, true, Option, List, is_some, if_cases, gate_cases, arith,
}
use assen_platform.Common.Table.{find, exists, rowcount, update}
use assen_platform.Errors.{Response, pass}
use assen_platform.Identity.{Account}
use assen_platform.Payment.{PaymentGateway, ProviderRef}
use assen_platform.Payment.Ledger.{
  record_mock_settlement, record_free_grant, ReversalReason, Target,
}
use assen_platform.Commerce.Model.{
  Db, Order, RefundRequest, RefundStatus, Product, order_row, refund_row,
}
use assen_platform.Commerce.Load.{Stamp}
use assen_platform.Commerce.Checkout.{
  CreateOrderIn, insert_order, pending_order, free_order, grant_free, fail_order, pay_order,
  mark_failed, mark_paid, order_is_pending,
}
use assen_platform.Commerce.Reversal.{reverse_settled_order}
use assen_platform.Commerce.Lifecycle.{
  ShipIn, cancel_transaction, ship_transaction, complete_transaction, order_is_cancellable,
  mark_cancelled, order_is_paid, mark_shipped, order_is_completable, has_goods, mark_completed,
}
use assen_platform.Commerce.Refund.{
  refund_transaction, review_transaction, accept_transaction, reject_transaction, open_refund_of,
  refund_is_requested, refund_is_open, set_refund, cancel_refunded, order_is_refundable,
}
use assen_platform.Commerce.Conservation.{IsKeyed}
use assen_platform.Commerce.Conservation.Transactions.{insert_order-pass, grant_free-pass}
use assen_platform.Commerce.Settlement.{
  is_settled, AreSettledOnce, AreReversedOnce, move-AreSettledOnce, insert-AreSettledOnce,
  insert_settled-AreSettledOnce, pay-AreSettledOnce, reverse-AreReversedOnce,
}
use assen_platform.Commerce.Steps.{
  Step, reserve, grant, pay, fail, cancel, ship, complete, request, review, accept, reject, notice,
}

-- The part of the invariant that is not about the keys of products and orders.
abbrev pub Ledgered : Db → Type 0
Ledgered db = AreSettledOnce db.orders db.attempts × AreReversedOnce db.reversals

module _ (db : Db) (h : Ledgered db) where
  reserve-Ledgered :
      (stamp : Stamp) (account : Account) (payload : CreateOrderIn) (product : Product) (db' : Db)
      → insert_order account payload product (pending_order stamp account payload product) db
        ≡ pass db'
      → Ledgered db'
  unfolding pending_order
  reserve-Ledgered stamp account payload product db' e =
      let order = pending_order stamp account payload product in
      let (products, reserved, new, same) =
        insert_order-pass account payload product order db db' e in
      rw same (insert-AreSettledOnce db.orders db.attempts order new refl h.0, h.1)

  grant_free-Ledgered :
      (stamp : Stamp) (account : Account) (payload : CreateOrderIn) (product : Product) (db' : Db)
      → grant_free stamp account payload product db ≡ pass db'
      → Ledgered db'
  unfolding free_order record_free_grant
  grant_free-Ledgered stamp account payload product db' e =
      let order = free_order stamp account payload product in
      let (inserted, e₁, same) = grant_free-pass stamp account payload product db db' e in
      let (products, reserved, new, same₁) =
        insert_order-pass account payload product order db inserted e₁ in
      rw (same, same₁)
        (
          insert_settled-AreSettledOnce db.orders db.attempts order
              (record_free_grant stamp.id stamp.now (Target.order order.id) order.idempotency_key)
              new refl refl refl h.0,
          h.1,
        )

  pay_order-Ledgered :
      (stamp : Stamp) (order : Order) (ref : ProviderRef)
      → IsKeyed db
      → Ledgered (pay_order stamp order ref db)
  unfolding pay_order record_mock_settlement
  pay_order-Ledgered stamp order ref k =
      gate_cases Ledgered (rowcount order.id order_is_pending db.orders) _ _ h λ hit. (
        pay-AreSettledOnce db.orders db.attempts order.id (mark_paid stamp.now ref)
            (record_mock_settlement stamp.id stamp.now (Target.order order.id) order.total
              order.idempotency_key)
            k.order_ids hit (λ o. refl) (λ o. refl) refl refl h.0,
        h.1,
      )

  -- A guarded write of one order that does not cross the settlement.
  moved :
      (order : Order) (p : Order → Bool) (f : Order → Order)
      → ((o : Order) → p o ≡ true → is_settled (f o).status ≡ is_settled o.status)
      → ((o : Order) → (f o).id ≡ o.id)
      → AreSettledOnce (update order.id p f db.orders) db.attempts
  moved order p f same ids = move-AreSettledOnce db.orders db.attempts order.id p f same ids h.0

  fail_order-Ledgered : (now : ℕ) (order : Order) → Ledgered (fail_order now order db)
  unfolding fail_order
  fail_order-Ledgered now order =
      gate_cases Ledgered (rowcount order.id order_is_pending db.orders) _ _ h λ hit.
        (moved order order_is_pending (mark_failed now) (λ o e. ground arith) (λ o. refl), h.1)

  cancel_transaction-Ledgered :
      (stamp : Stamp) (gateway : Option PaymentGateway) (order : Order) (seen : List Product)
      → Ledgered (cancel_transaction stamp gateway order seen db).1
  unfolding cancel_transaction reverse_settled_order
  cancel_transaction-Ledgered stamp gateway order seen =
      gate_cases (λ (r : Response Order × Db). Ledgered r.1)
        (rowcount order.id order_is_cancellable db.orders) _ _ h
        λ hit. (
          moved order order_is_cancellable mark_cancelled (λ o e. ground arith) (λ o. refl),
          reverse-AreReversedOnce stamp gateway order ReversalReason.order_cancelled db h.1,
        )

  ship_transaction-Ledgered :
      (now : ℕ) (payload : ShipIn) (order : Order)
      → Ledgered (ship_transaction now payload order db).1
  unfolding ship_transaction
  ship_transaction-Ledgered now payload order =
      gate_cases (λ (r : Response Order × Db). Ledgered r.1)
        (rowcount order.id order_is_paid db.orders) _ _ h
        λ hit. (
          moved order order_is_paid (mark_shipped now payload) (λ o e. ground arith) (λ o. refl),
          h.1,
        )

  complete_transaction-Ledgered :
      (now : ℕ) (order : Order) → Ledgered (complete_transaction now order db).1
  unfolding complete_transaction
  complete_transaction-Ledgered now order =
      gate_cases (λ (r : Response Order × Db). Ledgered r.1)
        (rowcount order.id (order_is_completable (has_goods order)) db.orders) _ _ h
        λ hit. (
          moved order (order_is_completable (has_goods order)) (mark_completed now)
              (λ o e. ground arith) (λ o. refl),
          h.1,
        )

  cancel_refunded-Ledgered :
      (stamp : Stamp) (gateway : Option PaymentGateway) (order : Order) (seen : List Product)
      → Ledgered (cancel_refunded stamp gateway order seen db)
  unfolding cancel_refunded reverse_settled_order
  cancel_refunded-Ledgered stamp gateway order seen =
      gate_cases Ledgered (rowcount order.id order_is_refundable db.orders) _ _ h λ hit. (
        moved order order_is_refundable mark_cancelled (λ o e. ground arith) (λ o. refl),
        reverse-AreReversedOnce stamp gateway order ReversalReason.refund_accepted db h.1,
      )

-- What a request brings about for the ledgers, on each transaction.
pub Step-Ledgered : {db db' : Db} → Step db db' → IsKeyed db → Ledgered db → Ledgered db'
unfolding refund_transaction review_transaction reject_transaction accept_transaction
Step-Ledgered {db} (reserve stamp account payload product {db'} t e) k h =
    reserve-Ledgered db h stamp account payload product db' e
Step-Ledgered {db} (grant stamp account payload product {db'} t e) k h =
    grant_free-Ledgered db h stamp account payload product db' e
Step-Ledgered {db} (pay stamp order ref) k h = pay_order-Ledgered db h stamp order ref k
Step-Ledgered {db} (fail now order l) k h = fail_order-Ledgered db h now order
Step-Ledgered {db} (cancel stamp gateway order seen l) k h =
    cancel_transaction-Ledgered db h stamp gateway order seen
Step-Ledgered {db} (ship now payload order) k h = ship_transaction-Ledgered db h now payload order
Step-Ledgered {db} (complete now order) k h = complete_transaction-Ledgered db h now order
Step-Ledgered {db} (request stamp payload order) k h =
    if_cases (λ (r : Response Order × Db). Ledgered r.1)
      (exists (open_refund_of order.id) db.refunds || is_some (find stamp.id db.refunds)) _ _ h h
Step-Ledgered {db} (review actor refund) k h =
    if_cases (λ (r : Response RefundRequest × Db). Ledgered r.1)
      (rowcount refund.id refund_is_requested db.refunds == 0) _ _ h h
Step-Ledgered {db} (accept stamp gateway actor refund order seen l) k h =
    if_cases (λ (r : Response RefundRequest × Db). Ledgered r.1)
      (rowcount refund.id refund_is_open db.refunds == 0) _ _ h
      (cancel_refunded-Ledgered
        (record db {
          refunds = update refund.id refund_is_open (set_refund RefundStatus.accepted) db.refunds;
        })
        h stamp gateway order seen)
Step-Ledgered {db} (reject actor refund order reason) k h =
    if_cases (λ (r : Response RefundRequest × Db). Ledgered r.1)
      (rowcount refund.id refund_is_open db.refunds == 0) _ _ h h
Step-Ledgered {db} (notice n) k h = h
