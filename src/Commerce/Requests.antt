-- ===== src/Commerce/Requests.antt =====
-- The handlers of server/apps/commerce/api.py, one by one: each is a sequence of the transactions of
-- the step relation.
use assen_platform.Common.{
  ℕ, ◌==◌, ◌≡◌, refl, Option, some, arith, Option-cases, if_cases, inl, inr,
}
use assen_platform.Common.Table.{find, rowcount}
use assen_platform.Errors.{Response, pass, pass-or-stop}
use assen_platform.Identity.{Account, is_operator}
use assen_platform.Payment.{PaymentGateway, PaymentCharge, Settings}
use assen_platform.Commerce.Model.{
  Product, Order, RefundRequest, Db, is_refundable, product_row, order_row, refund_row, Notice,
}
use assen_platform.Commerce.Load.{Stamp, load_order, load_refund, load_fulfillable_order}
use assen_platform.Commerce.Checkout.{
  CreateOrderIn, order_checks, free_order_checks, insert_order, pending_order, grant_free,
  settle_order, charge_order, place_order, place_free, create_order, create_free_order,
  order_is_pending, approved_ref,
}
use assen_platform.Commerce.Lifecycle.{
  ShipIn, cancel_order, ship_order, complete_order, order_is_cancellable,
}
use assen_platform.Commerce.Refund.{RefundIn, request_refund, guarded, with_order}
use assen_platform.Commerce.Conservation.{IsKeyed, IsLoaded}
use assen_platform.Commerce.Conservation.Transactions.{insert_order-pass}
use assen_platform.Commerce.Steps.{
  Step, reserve, grant, pay, fail, cancel, ship, complete, request, notice, Reach, here, next,
  TracksAsLoaded,
}
use assen_platform.Commerce.Loaded.{
  load_order-IsLoaded, load_public_product-TracksAsLoaded, order_checks-pass,
  free_order_checks-pass,
}

pub one_step : {db db' : Db} → Step db db' → Reach db db'
one_step s = next here s

pub Reach-trans : {a b c : Db} → Reach a b → Reach b c → Reach a c
Reach-trans r here = r
Reach-trans r (next q s) = next (Reach-trans r q) s

settle_order-Reach :
    (stamp : Stamp) (account : Account) (product : Product) (order : Order)
    (charge : Option PaymentCharge) (db : Db)
    → IsLoaded order db.products db
    → Reach db (settle_order stamp account product order charge db).1
unfolding settle_order
settle_order-Reach stamp account product order charge db l =
    elim (Option-cases (approved_ref charge)) [
      | inl e ↦ rw (e, settle_order) (one_step (fail stamp.now order l))
      | inr (ref, e) ↦
          rw (e, settle_order)
            (if_cases (Reach db) (rowcount order.id order_is_pending db.orders == 0) _ _
              (one_step (pay stamp order ref))
              (next (one_step (pay stamp order ref))
                (notice (Notice.order_received account.id product.id))))
    ]

pub inserted-IsLoaded :
    (account : Account) (payload : CreateOrderIn) (product : Product) (order : Order) (db db' : Db)
    → insert_order account payload product order db ≡ pass db'
    → IsLoaded order db'.products db'
unfolding find
inserted-IsLoaded account payload product order db db' e =
    let (products, reserved, new, same) =
      insert_order-pass account payload product order db db' e in
    rw same (record { lines = λ o h. ground arith; tracking = λ i. refl })

place_order-Reach :
    (stamp : Stamp) (gateway : Option PaymentGateway) (account : Account) (payload : CreateOrderIn)
    (db : Db) (product : Product)
    → IsKeyed db
    → TracksAsLoaded product db
    → Reach db (place_order stamp gateway account payload db (pass product)).1
place_order-Reach stamp gateway account payload db product k tracks =
    let order = pending_order stamp account payload product in
    elim (pass-or-stop (insert_order account payload product order db)) [
      | inr (r, e) ↦ rw e here
      | inl (reserved, e) ↦ rw e (
          Reach-trans (one_step (reserve stamp account payload product tracks e)) (
            settle_order-Reach stamp account product order (charge_order gateway order) reserved
              (inserted-IsLoaded account payload product order db reserved e)))
    ]

place_free-Reach :
    (stamp : Stamp) (account : Account) (payload : CreateOrderIn) (db : Db) (product : Product)
    → TracksAsLoaded product db
    → Reach db (place_free stamp account payload db (pass product)).1
place_free-Reach stamp account payload db product tracks =
    elim (pass-or-stop (grant_free stamp account payload product db)) [
      | inr (r, e) ↦ rw e here
      | inl (granted, e) ↦ rw e (
          next (one_step (grant stamp account payload product tracks e))
            (notice (Notice.free_grant account.id product.id)))
    ]

pub create_order-Reach :
    (stamp : Stamp) (settings : Settings) (gateway : Option PaymentGateway) (account : Account)
    (payload : CreateOrderIn) (db : Db)
    → IsKeyed db
    → Reach db (create_order stamp settings gateway account payload db).1
unfolding create_order
create_order-Reach stamp settings gateway account payload db k =
    elim (pass-or-stop (order_checks settings stamp.now account payload db)) [
      | inr (r, e) ↦ rw (e, create_order) here
      | inl (product, e) ↦
          rw (e, create_order)
            (place_order-Reach stamp gateway account payload db product k (
              load_public_product-TracksAsLoaded settings account payload.product_id db product k
                (order_checks-pass settings stamp.now account payload db product e)))
    ]

pub create_free_order-Reach :
    (stamp : Stamp) (settings : Settings) (account : Account) (payload : CreateOrderIn) (db : Db)
    → IsKeyed db
    → Reach db (create_free_order stamp settings account payload db).1
unfolding create_free_order
create_free_order-Reach stamp settings account payload db k =
    elim (pass-or-stop (free_order_checks settings account payload db)) [
      | inr (r, e) ↦ rw (e, create_free_order) here
      | inl (product, e) ↦
          rw (e, create_free_order)
            (place_free-Reach stamp account payload db product (
              load_public_product-TracksAsLoaded settings account payload.product_id db product k
                (free_order_checks-pass settings account payload db product e)))
    ]

pub cancel_order-Reach :
    (stamp : Stamp) (gateway : Option PaymentGateway) (account : Account) (order_id : ℕ) (db : Db)
    → IsKeyed db
    → Reach db (cancel_order stamp gateway account order_id db).1
unfolding cancel_order
cancel_order-Reach stamp gateway account order_id db k =
    elim (Option-cases (load_order order_id account db)) [
      | inl e ↦ rw (e, cancel_order) here
      | inr (order, e) ↦
          rw (e, cancel_order)
            (if_cases (λ (r : Response Order × Db). Reach db r.1) (order_is_cancellable order) _ _
              (one_step (
                cancel stamp gateway order db.products
                  (load_order-IsLoaded order_id account db order k e)))
              here)
    ]

pub ship_order-Reach :
    (now : ℕ) (account : Account) (order_id : ℕ) (payload : ShipIn) (db : Db)
    → Reach db (ship_order now account order_id payload db).1
unfolding ship_order
ship_order-Reach now account order_id payload db =
    elim (Option-cases (load_fulfillable_order order_id account db)) [
      | inl e ↦ rw (e, ship_order) here
      | inr (order, e) ↦ rw (e, ship_order) (one_step (ship now payload order))
    ]

pub complete_order-Reach :
    (now : ℕ) (account : Account) (order_id : ℕ) (db : Db)
    → Reach db (complete_order now account order_id db).1
unfolding complete_order
complete_order-Reach now account order_id db =
    elim (Option-cases (load_fulfillable_order order_id account db)) [
      | inl e ↦ rw (e, complete_order) here
      | inr (order, e) ↦ rw (e, complete_order) (one_step (complete now order))
    ]

pub request_refund-Reach :
    (stamp : Stamp) (account : Account) (order_id : ℕ) (payload : RefundIn) (db : Db)
    → Reach db (request_refund stamp account order_id payload db).1
unfolding request_refund
request_refund-Reach stamp account order_id payload db =
    elim (Option-cases (load_order order_id account db)) [
      | inl e ↦ rw (e, request_refund) here
      | inr (order, e) ↦
          rw (e, request_refund)
            (if_cases (λ (r : Response Order × Db). Reach db r.1) (is_refundable order.status) _ _
              (one_step (request stamp payload order)) here)
    ]

-- A handler of a refund request: what its transaction reaches, it reaches.
pub guarded-Reach :
    (actor : Account) (run : RefundRequest → Order → Response RefundRequest × Db) (refund_id : ℕ)
    (db : Db)
    → ((refund : RefundRequest) (order : Order)
        → find refund.order db.orders ≡ some order
        → Reach db (run refund order).1)
    → Reach db (guarded actor db (with_order run db (load_refund refund_id db))).1
guarded-Reach actor run refund_id db reaches =
    if_cases (λ (r : Response RefundRequest × Db). Reach db r.1) (is_operator actor) _ _
      (elim (Option-cases (load_refund refund_id db)) [
        | inl e ↦ rw e here
        | inr (refund, e) ↦ rw e (elim (Option-cases (find refund.order db.orders)) [
          | inl e₁ ↦ rw (e₁, with_order) here
          | inr (order, e₁) ↦ rw (e₁, with_order) (reaches refund order e₁)
        ])
      ])
      here
