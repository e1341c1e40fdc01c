-- ===== src/Commerce/Conservation/Transactions.antt =====
-- Every transaction of server/apps/commerce/api.py on orders conserves each tracked product's units.
use assen_platform.Common.{
  ℕ, ◌==◌, ◌≡◌, ap, refl, Option, none, some, List, ◌∷◌, arith, if◌then◌else◌, is_some,
  Option-cases, gate_cases, inl, inr,
}
use assen_platform.Common.Table.{find, update, rowcount, Distinct}
use assen_platform.Errors.{pass, pass-cases, Response}
use assen_platform.Identity.{Account}
use assen_platform.Payment.{PaymentGateway, ProviderRef}
use assen_platform.Payment.Ledger.{Target, record_free_grant}
use assen_platform.Commerce.Model.{
  RefundStatus, refund_row, Product, Order, RefundRequest, Db, product_row, order_row,
}
use assen_platform.Commerce.Load.{Stamp}
use assen_platform.Commerce.Stock.{
  reserve_stock, tracked, available-reserve_stock, tracked-reserve_stock, reserve_stock-Distinct,
}
use assen_platform.Commerce.Checkout.{
  CreateOrderIn, insert_order, reserve_products, insertable, pending_order, free_order, grant_free,
  fail_order, pay_order, order_is_pending, mark_failed, mark_paid,
}
use assen_platform.Commerce.Reversal.{reverse_settled_order}
use assen_platform.Commerce.Lifecycle.{
  ShipIn, cancel_transaction, ship_transaction, complete_transaction, order_is_cancellable,
  mark_cancelled, order_is_paid, mark_shipped, order_is_completable, mark_completed, has_goods,
}
use assen_platform.Commerce.Refund.{
  accept_transaction, cancel_refunded, order_is_refundable, refund_is_open, set_refund,
}
use assen_platform.Commerce.Conservation.{
  order_units, IsKeyed, KeepsRows, IsLoaded, Keeps, Keeps-refl, move_order-Keeps, end_order-Keeps,
}

-- What a transaction that inserts an order has done.
pub insert_order-pass :
    (account : Account) (payload : CreateOrderIn) (product : Product) (order : Order) (db db' : Db)
    → insert_order account payload product order db ≡ pass db'
    → (products : List Product) × (reserve_products product payload.qty db.products ≡ some products)
      × (find order.id db.orders ≡ none)
      × (db' ≡ record db { products = products; orders = order ∷ db.orders })
unfolding insert_order insertable
insert_order-pass account payload product order db db' h =
    elim (Option-cases (reserve_products product payload.qty db.products)) [
      | inl e ↦ ground arith
      | inr (products, e) ↦ (products, e, ground arith, ground arith)
    ]

-- What the transaction of `create_free_order` has done.
pub grant_free-pass :
    (stamp : Stamp) (account : Account) (payload : CreateOrderIn) (product : Product) (db db' : Db)
    → grant_free stamp account payload product db ≡ pass db'
    → let order = free_order stamp account payload product in
      (inserted : Db) × (insert_order account payload product order db ≡ pass inserted)
      × (db' ≡ record inserted {
        attempts =
            record_free_grant stamp.id stamp.now (Target.order order.id) order.idempotency_key
            ∷ inserted.attempts;
      })
unfolding grant_free
grant_free-pass stamp account payload product db db' h =
    let (inserted, e, g) =
      pass-cases
        (insert_order account payload product (free_order stamp account payload product) db) h in
    (inserted, e, cc)

module _ (db : Db) (k : IsKeyed db) where
  pub pay_order-Keeps :
      (stamp : Stamp) (order : Order) (ref : ProviderRef) → Keeps db (pay_order stamp order ref db)
  unfolding pay_order
  pay_order-Keeps stamp order ref =
      gate_cases (Keeps db) (rowcount order.id order_is_pending db.orders) _ _ (Keeps-refl db k)
        λ hit.
          move_order-Keeps order db order_is_pending (mark_paid stamp.now ref) k
            (λ o e. ground arith) (λ o. refl) (λ o. refl)

  pub fail_order-Keeps :
      (now : ℕ) (order : Order) → IsLoaded order db.products db → Keeps db (fail_order now order db)
  unfolding fail_order
  fail_order-Keeps now order l =
      gate_cases (Keeps db) (rowcount order.id order_is_pending db.orders) _ _ (Keeps-refl db k)
        (λ hit.
          end_order-Keeps order db order_is_pending (mark_failed now) k db.products l hit
            (λ o e. ground arith) (λ o. refl) (λ o. refl))

  pub cancel_transaction-Keeps :
      (stamp : Stamp) (gateway : Option PaymentGateway) (order : Order) (seen : List Product)
      → IsLoaded order seen db
      → Keeps db (cancel_transaction stamp gateway order seen db).1
  unfolding cancel_transaction reverse_settled_order
  cancel_transaction-Keeps stamp gateway order seen l =
      gate_cases (λ (r : Response Order × Db). Keeps db r.1)
        (rowcount order.id order_is_cancellable db.orders) _ _ (Keeps-refl db k)
        (λ hit.
          end_order-Keeps order db order_is_cancellable mark_cancelled k seen l hit
            (λ o e. ground arith) (λ o. refl) (λ o. refl))

  pub ship_transaction-Keeps :
      (now : ℕ) (payload : ShipIn) (order : Order)
      → Keeps db (ship_transaction now payload order db).1
  unfolding ship_transaction
  ship_transaction-Keeps now payload order =
      gate_cases (λ (r : Response Order × Db). Keeps db r.1)
        (rowcount order.id order_is_paid db.orders) _ _ (Keeps-refl db k)
        (λ hit.
          move_order-Keeps order db order_is_paid (mark_shipped now payload) k (λ o e. ground arith)
            (λ o. refl) (λ o. refl))

  pub complete_transaction-Keeps :
      (now : ℕ) (order : Order) → Keeps db (complete_transaction now order db).1
  unfolding complete_transaction
  complete_transaction-Keeps now order =
      gate_cases (λ (r : Response Order × Db). Keeps db r.1)
        (rowcount order.id (order_is_completable (has_goods order)) db.orders) _ _ (Keeps-refl db k)
        (λ hit.
          move_order-Keeps order db (order_is_completable (has_goods order)) (mark_completed now) k
            (λ o e. ground arith) (λ o. refl) (λ o. refl))

  cancel_refunded-Keeps :
      (stamp : Stamp) (gateway : Option PaymentGateway) (order : Order) (seen : List Product)
      → IsLoaded order seen db
      → Keeps db (cancel_refunded stamp gateway order seen db)
  unfolding cancel_refunded reverse_settled_order
  cancel_refunded-Keeps stamp gateway order seen l =
      gate_cases (Keeps db) (rowcount order.id order_is_refundable db.orders) _ _ (Keeps-refl db k)
        (λ hit.
          end_order-Keeps order db order_is_refundable mark_cancelled k seen l hit
            (λ o e. ground arith) (λ o. refl) (λ o. refl))

  reserved-Keeps :
      (product : Product) (qty : ℕ) (order : Order) (products : List Product)
      → is_some product.stock ≡ tracked db.products product.id
      → ((j : ℕ) → order_units j order ≡ (if product.id == j then qty else 0))
      → reserve_products product qty db.products ≡ some products
      → find order.id db.orders ≡ none
      → KeepsRows db.products db.orders products (order ∷ db.orders)
  unfolding reserve_products Distinct
  reserved-Keeps product qty order products t u h new = elim (Option-cases product.stock) [
    | inl untracked ↦ record {
      same_units = λ j tr. ground (arith, u j, ap (tracked db.products) {x = product.id} {y = j});
      same_tracking = λ j. ground arith;
      keyed = record { product_ids = ground arith; order_ids = (new, k.order_ids) };
    }
    | inr (s, e) ↦
        let r : reserve_stock product.id qty db.products ≡ some products = ground arith in
        record {
          same_units = λ j tr. ground (
            arith,
            u j,
            available-reserve_stock product.id qty db.products j products k.product_ids r,
          );
          same_tracking = λ j. tracked-reserve_stock product.id qty db.products j products r;
          keyed = record {
            product_ids =
                reserve_stock-Distinct product.id qty db.products products k.product_ids r;
            order_ids = (new, k.order_ids);
          };
        }
  ]

  -- A reservation with the insertion of an order that holds what was reserved.
  insert_order-Keeps :
      (account : Account) (payload : CreateOrderIn) (product : Product) (order : Order) (db' : Db)
      → is_some product.stock ≡ tracked db.products product.id
      → ((j : ℕ) → order_units j order ≡ (if product.id == j then payload.qty else 0))
      → insert_order account payload product order db ≡ pass db'
      → Keeps db db'
  insert_order-Keeps account payload product order db' t u h =
      let (products, reserved, free_id, same) =
        insert_order-pass account payload product order db db' h in
      rw same (reserved-Keeps product payload.qty order products t u reserved free_id)

  pub reserve-Keeps :
      (stamp : Stamp) (account : Account) (payload : CreateOrderIn) (product : Product) (db' : Db)
      → is_some product.stock ≡ tracked db.products product.id
      → insert_order account payload product (pending_order stamp account payload product) db
        ≡ pass db'
      → Keeps db db'
  unfolding pending_order
  reserve-Keeps stamp account payload product db' t h =
      insert_order-Keeps account payload product _ db' t (λ j. ground arith) h

  pub grant_free-Keeps :
      (stamp : Stamp) (account : Account) (payload : CreateOrderIn) (product : Product) (db' : Db)
      → is_some product.stock ≡ tracked db.products product.id
      → grant_free stamp account payload product db ≡ pass db'
      → Keeps db db'
  unfolding free_order
  grant_free-Keeps stamp account payload product db' t h =
      let (inserted, e, same) = grant_free-pass stamp account payload product db db' h in
      rw same (insert_order-Keeps account payload product _ inserted t (λ j. ground arith) e)

pub accept_transaction-Keeps :
    (db : Db) (k : IsKeyed db) (stamp : Stamp) (gateway : Option PaymentGateway) (actor : Account)
    (refund : RefundRequest) (order : Order) (seen : List Product)
    → IsLoaded order seen db
    → Keeps db (accept_transaction stamp gateway actor refund order seen db).1
unfolding accept_transaction
accept_transaction-Keeps db k stamp gateway actor refund order seen l =
    gate_cases (λ (r : Response RefundRequest × Db). Keeps db r.1)
      (rowcount refund.id refund_is_open db.refunds) _ _ (Keeps-refl db k)
      (λ hit.
        cancel_refunded-Keeps
          (record db {
            refunds = update refund.id refund_is_open (set_refund RefundStatus.accepted) db.refunds;
          })
          k stamp gateway order seen l)
