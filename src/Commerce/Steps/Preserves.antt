-- ===== src/Commerce/Steps/Preserves.antt =====
-- The invariant of the shop over any interleaving of the transactions of
-- server/apps/commerce/api.py.
use assen_platform.Common.{
  ℕ, ◌≤◌, ◌==◌, ◌≡◌, refl, ap, ◌||◌, Bool, true, List, is_some, if_cases, arith, Bool-cases, inl,
  inr, if◌then◌else◌,
}
use assen_platform.Common.Table.{
  find, exists, rowcount, update, count, update-Distinct, total-update_le, count_of_not-exists,
  Distinct,
}
use assen_platform.Errors.{Response}
use assen_platform.Commerce.Model.{
  Db, Order, RefundRequest, RefundStatus, order_row, refund_row, is_open_refund,
}
use assen_platform.Commerce.Load.{Stamp}
use assen_platform.Commerce.Checkout.{
  pending_order, free_order, fail_order, pay_order, order_is_pending,
}
use assen_platform.Commerce.Reversal.{reverse_settled_order}
use assen_platform.Commerce.Lifecycle.{
  cancel_transaction, ship_transaction, complete_transaction, order_is_cancellable, order_is_paid,
  order_is_completable, has_goods,
}
use assen_platform.Commerce.Refund.{
  RefundIn, refund_transaction, review_transaction, accept_transaction, reject_transaction,
  open_refund_of, refund_is_requested, refund_is_open, set_refund, cancel_refunded,
  order_is_refundable,
}
use assen_platform.Commerce.Conservation.Transactions.{insert_order-pass, grant_free-pass}
use assen_platform.Commerce.Steps.{
  Step, reserve, grant, pay, fail, cancel, ship, complete, request, review, accept, reject, notice,
  Reach, here, next, Inv,
}
use assen_platform.Commerce.Steps.Conserves.{Step-Keeps}
use assen_platform.Commerce.Steps.Ledgers.{Step-Ledgered}

abbrev Reviewed : List RefundRequest → Type 0
Reviewed refunds = Distinct refunds × ((i : ℕ) → count (open_refund_of i) refunds ≤ 1)

set_refund-Reviewed :
    (id : ℕ) (p : RefundRequest → Bool) (status : RefundStatus) (refunds : List RefundRequest)
    → ((r : RefundRequest) → p r ≡ true → is_open_refund r.status ≡ true)
    → Reviewed refunds
    → Reviewed (update id p (set_refund status) refunds)
set_refund-Reviewed id p status refunds opened (d, one) = (
  update-Distinct id p (set_refund status) (λ r. refl) refunds d,
  λ i. omega (
    arith,
    one i,
    total-update_le id p (set_refund status) (λ r. if open_refund_of i r then 1 else 0) refunds
        (λ r e. ground (arith, opened r e)),
  ),
)

refund_transaction-Reviewed :
    (stamp : Stamp) (payload : RefundIn) (order : Order) (db : Db)
    → Reviewed db.refunds
    → Reviewed (refund_transaction stamp payload order db).1.refunds
unfolding refund_transaction Distinct
refund_transaction-Reviewed stamp payload order db (d, one) =
    elim (Bool-cases
      (exists (open_refund_of order.id) db.refunds || is_some (find stamp.id db.refunds))) [
        | inl e ↦ rw e (d, one)
        | inr e ↦ rw e (
          (ground arith, d),
          λ i. ground (
            arith,
            one i,
            count_of_not-exists (open_refund_of order.id) db.refunds,
            ap (λ (k : ℕ). count (open_refund_of k) db.refunds) {x = order.id} {y = i},
          ),
        )
      ]

-- The refund requests after each transaction.
Step-Reviewed : {db db' : Db} → Step db db' → Reviewed db.refunds → Reviewed db'.refunds
unfolding pay_order fail_order cancel_transaction ship_transaction complete_transaction
    review_transaction reject_transaction accept_transaction cancel_refunded reverse_settled_order
Step-Reviewed {db} (reserve stamp account payload product {db'} t e) h =
    let (products, reserved, new, same) =
      insert_order-pass account payload product (pending_order stamp account payload product) db db'
        e in
    rw same h
Step-Reviewed {db} (grant stamp account payload product {db'} t e) h =
    let (inserted, e₁, same) = grant_free-pass stamp account payload product db db' e in
    let (products, reserved, new, same₁) =
      insert_order-pass account payload product (free_order stamp account payload product) db
        inserted e₁ in
    rw (same, same₁) h
Step-Reviewed {db} (pay stamp order ref) h =
    if_cases (λ (r : Db). Reviewed r.refunds) (rowcount order.id order_is_pending db.orders == 0) _
      _ h h
Step-Reviewed {db} (fail now order l) h =
    if_cases (λ (r : Db). Reviewed r.refunds) (rowcount order.id order_is_pending db.orders == 0) _
      _ h h
Step-Reviewed {db} (cancel stamp gateway order seen l) h =
    if_cases (λ (r : Response Order × Db). Reviewed r.1.refunds)
      (rowcount order.id order_is_cancellable db.orders == 0) _ _ h h
Step-Reviewed {db} (ship now payload order) h =
    if_cases (λ (r : Response Order × Db). Reviewed r.1.refunds)
      (rowcount order.id order_is_paid db.orders == 0) _ _ h h
Step-Reviewed {db} (complete now order) h =
    if_cases (λ (r : Response Order × Db). Reviewed r.1.refunds)
      (rowcount order.id (order_is_completable (has_goods order)) db.orders == 0) _ _ h h
Step-Reviewed {db} (request stamp payload order) h =
    refund_transaction-Reviewed stamp payload order db h
Step-Reviewed {db} (review actor refund) h =
    if_cases (λ (r : Response RefundRequest × Db). Reviewed r.1.refunds)
      (rowcount refund.id refund_is_requested db.refunds == 0) _ _ h
      (set_refund-Reviewed refund.id refund_is_requested RefundStatus.reviewing db.refunds
        (λ r e. ground arith) h)
Step-Reviewed {db} (accept stamp gateway actor refund order seen l) h =
    let accepted =
      set_refund-Reviewed refund.id refund_is_open RefundStatus.accepted db.refunds (λ r e. e) h in
    if_cases (λ (r : Response RefundRequest × Db). Reviewed r.1.refunds)
      (rowcount refund.id refund_is_open db.refunds == 0) _ _ h
      (if_cases (λ (r : Db). Reviewed r.refunds)
        (rowcount order.id order_is_refundable db.orders == 0) _ _ accepted accepted)
Step-Reviewed {db} (reject actor refund order reason) h =
    if_cases (λ (r : Response RefundRequest × Db). Reviewed r.1.refunds)
      (rowcount refund.id refund_is_open db.refunds == 0) _ _ h
      (set_refund-Reviewed refund.id refund_is_open RefundStatus.rejected db.refunds (λ r e. e) h)
Step-Reviewed {db} (notice n) h = h

-- Every transaction keeps the invariant.
pub Step-Inv : {db db' : Db} → Step db db' → Inv db → Inv db'
Step-Inv s v =
    let (settled, reversed) = Step-Ledgered s v.keyed (v.settled, v.reversed) in
    let (ids, one) = Step-Reviewed s (v.refund_ids, v.one_open) in
    record {
      keyed = (Step-Keeps s v.keyed).keyed;
      refund_ids = ids;
      settled = settled;
      reversed = reversed;
      one_open = one;
    }

-- From a shop that satisfies the invariant, whatever transactions of the handlers interleave, it
-- holds: an order that has been paid has one succeeded attempt and any other none, no attempt has
-- two succeeded reversals, no order has two open refund requests, and the keys of products, orders
-- and refund requests stay unique.
pub Reach-Inv : {db db' : Db} → Reach db db' → Inv db → Inv db'
Reach-Inv here v = v
Reach-Inv (next r s) v = Step-Inv s (Reach-Inv r v)
