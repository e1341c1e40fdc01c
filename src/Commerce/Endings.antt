-- ===== src/Commerce/Endings.antt =====
-- The ends of an order in server/apps/commerce/api.py: cancelling, shipping, completing, and the
-- accepted refund, by what they answer.
use assen_platform.Common.{
  ◌&&◌, ℕ, ◌+◌, ◌==◌, ◌≡◌, refl, true, false, Option, some, List, arith, Option-cases, Bool-cases,
  inl, inr, ◌∙◌, if◌then◌else◌,
}
use assen_platform.Common.Table.{
  find, Distinct, update, total, exists, first, holds, first-find, first-update, find-update,
  rowcount-find,
}
use assen_platform.Errors.{refuse, answer, ErrorCode}
use assen_platform.Identity.{Account}
use assen_platform.Payment.{ChargeStatus, PaymentGateway}
use assen_platform.Payment.Ledger.{PaymentAttempt, reverses, record_mock_reversal, ReversalReason}
use assen_platform.Commerce.Model.{
  Product, Order, OrderItem, OrderStatus, RefundRequest, Db, product_row, order_row, refund_row,
}
use assen_platform.Commerce.Load.{Stamp, load_order}
use assen_platform.Commerce.Stock.{
  tracked, available, line_units, restock_order_lines, available-restock_order_lines,
  available_untracked, tracked-restock_order_lines,
}
use assen_platform.Commerce.Reversal.{reverse_settled_order, captures, refund_order}
use assen_platform.Commerce.Lifecycle.{
  cancel_order, cancel_transaction, order_is_cancellable, mark_cancelled,
}
use assen_platform.Commerce.Refund.{accept_transaction, cancel_refunded, order_is_refundable}
use assen_platform.Commerce.Conservation.{IsKeyed}

cancel_order-refused :
    (stamp : Stamp) (gateway : Option PaymentGateway) (account : Account) (order_id : ℕ) (db : Db)
    (order : Order)
    → load_order order_id account db ≡ some order
    → order_is_cancellable order ≡ false
    → cancel_order stamp gateway account order_id db
      ≡ (refuse 422 ErrorCode.order_not_cancellable, db)
unfolding cancel_order
cancel_order-refused stamp gateway account order_id db order e h = ground arith

shelf-restock_order_lines :
    (ps : List Product) (lines : List OrderItem) (j : ℕ)
    → Distinct ps
    → available j (restock_order_lines ps lines ps)
      ≡ available j ps + (if tracked ps j then total (line_units j) lines else 0)
shelf-restock_order_lines ps lines j d = elim (Bool-cases (tracked ps j)) [
  | inl t ↦ ground (arith, available-restock_order_lines ps lines ps j d (λ i. refl) t)
  | inr n ↦ ground (
    arith,
    available_untracked ps j n,
    available_untracked (restock_order_lines ps lines ps) j
        (tracked-restock_order_lines ps lines ps j ∙ n),
  )
]

-- What a cancellation that answered 200 had loaded and has done.
module _ (stamp : Stamp) (gateway : Option PaymentGateway) (account : Account) (order_id : ℕ)
    (db : Db) (k : IsKeyed db) (o : Order)
    (h : (cancel_order stamp gateway account order_id db).0 ≡ answer 200 o) where
  cancel_order-loaded :
      (order : Order) × (load_order order_id account db ≡ some order)
      × (order_is_cancellable order ≡ true)
      × (o ≡ mark_cancelled order)
      × (cancel_order stamp gateway account order_id db
          ≡ cancel_transaction stamp gateway order db.products db)
  unfolding cancel_order cancel_transaction
  cancel_order-loaded = elim (Option-cases (load_order order_id account db)) [
    | inl e ↦ ground arith
    | inr (order, e) ↦ (order, e, ground arith, ground arith, ground arith)
  ]

  cancel_order-written :
      (order : Order) × (load_order order_id account db ≡ some order)
      × (order_is_cancellable order ≡ true)
      × (o ≡ mark_cancelled order)
      × ((cancel_order stamp gateway account order_id db).1
          ≡ reverse_settled_order stamp gateway order ReversalReason.order_cancelled (record db {
            orders = update order.id order_is_cancellable mark_cancelled db.orders;
            products = restock_order_lines db.products order.items db.products;
          }))
  unfolding cancel_transaction
  cancel_order-written =
      let (order, e, cancellable, same, run) = cancel_order-loaded in
      (order, e, cancellable, same, ground arith)

  -- From tables with one row to a key: if `cancel_order` answers 200 with an order, that is the
  -- order's row, cancelled, and a tracked product has got back the units of its lines, an
  -- untracked one has none before and after.
  pub cancel_order-restock :
      (j : ℕ)
      → let db' = (cancel_order stamp gateway account order_id db).1 in
        (find o.id db'.orders ≡ some o)
        × (o.status ≡ OrderStatus.cancelled)
        × (available j db'.products
            ≡ available j db.products
              + (if tracked db.products j then total (line_units j) o.items else 0))
  unfolding reverse_settled_order load_order
  cancel_order-restock j =
      let (order, e, cancellable, same, run) = cancel_order-written in
      let (found, passes) = first-find _ db.orders order k.order_ids e in
      rw (run, same)
        (
          ground (
            arith,
            found,
            cancellable,
            find-update order.id order_is_cancellable mark_cancelled (λ x. refl) order.id db.orders,
          ),
          refl,
          shelf-restock_order_lines db.products order.items j k.product_ids,
        )

  -- From tables with one row to a key: a cancellation that answered 200 is refused when it is sent
  -- again, and writes nothing then.
  pub cancel_order-twice :
      (later : Stamp) (gateway' : Option PaymentGateway)
      → let db' = (cancel_order stamp gateway account order_id db).1 in
        cancel_order later gateway' account order_id db'
        ≡ (refuse 422 ErrorCode.order_not_cancellable, db')
  unfolding reverse_settled_order load_order
  cancel_order-twice later gateway' =
      let (order, e, cancellable, same, run) = cancel_order-written in
      let again =
        first-update (λ x. (x.id == order_id) && (x.buyer == account.id)) order_is_cancellable
          mark_cancelled db.orders order (λ y. refl) (λ y. refl) k.order_ids e in
      rw run (
        cancel_order-refused later gateway' account order_id _ (mark_cancelled order)
          (ground (arith, again, cancellable)) refl)

  -- From tables with one row to a key: if the order that a cancellation answered 200 for has a
  -- succeeded mock settlement, and the gateway approves refunds, then that settlement has a
  -- succeeded reversal after.
  pub cancel_order-reversal :
      (attempt : PaymentAttempt)
      → first (captures o.id) db.attempts ≡ some attempt
      → ((order : Order) → (refund_order gateway order).status ≡ ChargeStatus.approved)
      → exists (reverses attempt.id) (cancel_order stamp gateway account order_id db).1.reversals
        ≡ true
  unfolding reverse_settled_order record_mock_reversal
  cancel_order-reversal attempt captured approves =
      let (order, e, cancellable, same, run) = cancel_order-written in
      rw run (ground (arith, same, captured, approves order))

-- A refund request whose order is cancelled already: accepting it neither restocks nor reverses.
module _ (stamp : Stamp) (gateway : Option PaymentGateway) (actor : Account)
    (refund : RefundRequest) (order : Order) (seen : List Product) (db : Db) (k : IsKeyed db) where
  -- From tables with one row to a key: accepting a refund request whose order is not refundable by
  -- then (cancelled, say) leaves products, reversals and orders as they are.
  pub accept_transaction-spent :
      holds order_is_refundable (find order.id db.orders) ≡ false
      → let db' = (accept_transaction stamp gateway actor refund order seen db).1 in
        (db'.products ≡ db.products) × (db'.reversals ≡ db.reversals) × (db'.orders ≡ db.orders)
  unfolding accept_transaction cancel_refunded
  accept_transaction-spent h =
      let hit = rowcount-find order.id order_is_refundable db.orders k.order_ids in
      (ground arith, ground arith, ground arith)
