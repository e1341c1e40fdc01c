-- ===== src/Commerce/Steps.antt =====
-- The transactions of server/apps/commerce/api.py on orders and refunds as a step relation: requests
-- interleave at transactions, so a step takes the rows that its request loaded earlier.
pub mod Conserves
pub mod Ledgers
pub mod Preserves
use assen_platform.Common.{
  ℕ, ◌≤◌, ◌≡◌, Bool, true, false, Option, none, some, List, ◌∷◌, Text, is_some,
}
use assen_platform.Common.Table.{Distinct, count}
use assen_platform.Errors.{pass}
use assen_platform.Identity.{Account}
use assen_platform.Payment.{PaymentGateway, ProviderRef}
use assen_platform.Commerce.Model.{Product, Order, RefundRequest, Notice, Db, refund_row}
use assen_platform.Commerce.Load.{Stamp}
use assen_platform.Commerce.Stock.{tracked}
use assen_platform.Commerce.Checkout.{
  CreateOrderIn, insert_order, pending_order, grant_free, fail_order, pay_order,
}
use assen_platform.Commerce.Lifecycle.{
  ShipIn, cancel_transaction, ship_transaction, complete_transaction,
}
use assen_platform.Commerce.Refund.{
  RefundIn, open_refund_of, refund_transaction, review_transaction, accept_transaction,
  reject_transaction,
}
use assen_platform.Commerce.Conservation.{IsKeyed, IsLoaded}
use assen_platform.Commerce.Settlement.{AreSettledOnce, AreReversedOnce}

-- A loaded product is tracked exactly if its row is at the time of the transaction.
abbrev pub TracksAsLoaded : Product → Db → Type 0
TracksAsLoaded product db = is_some product.stock ≡ tracked db.products product.id

pub data Step (db : Db) : Db → Type 0 where
  -- phase 1 of `create_order`
  reserve :
      (stamp : Stamp) (account : Account) (payload : CreateOrderIn) (product : Product) {db' : Db}
      → TracksAsLoaded product db
      → insert_order account payload product (pending_order stamp account payload product) db
        ≡ pass db'
      → Step db db'
  -- the transaction of `create_free_order`
  grant :
      (stamp : Stamp) (account : Account) (payload : CreateOrderIn) (product : Product) {db' : Db}
      → TracksAsLoaded product db
      → grant_free stamp account payload product db ≡ pass db'
      → Step db db'
  -- phase 2 of `create_order`
  pay : (stamp : Stamp) (order : Order) (ref : ProviderRef) → Step db (pay_order stamp order ref db)
  fail :
      (now : ℕ) (order : Order) → IsLoaded order db.products db → Step db (fail_order now order db)
  cancel :
      (stamp : Stamp) (gateway : Option PaymentGateway) (order : Order) (seen : List Product)
      → IsLoaded order seen db
      → Step db (cancel_transaction stamp gateway order seen db).1
  ship :
      (now : ℕ) (payload : ShipIn) (order : Order)
      → Step db (ship_transaction now payload order db).1
  complete : (now : ℕ) (order : Order) → Step db (complete_transaction now order db).1
  request :
      (stamp : Stamp) (payload : RefundIn) (order : Order)
      → Step db (refund_transaction stamp payload order db).1
  review :
      (actor : Account) (refund : RefundRequest) → Step db (review_transaction actor refund db).1
  accept :
      (stamp : Stamp) (gateway : Option PaymentGateway) (actor : Account) (refund : RefundRequest)
      (order : Order) (seen : List Product)
      → IsLoaded order seen db
      → Step db (accept_transaction stamp gateway actor refund order seen db).1
  reject :
      (actor : Account) (refund : RefundRequest) (order : Order) (reason : Text)
      → Step db (reject_transaction actor refund order reason db).1
  -- the feed row that a checkout adds after its commit
  notice : (n : Notice) → Step db (record db { notices = n ∷ db.notices })

pub data Reach (db : Db) : Db → Type 0 where
  here : Reach db db
  next : {db' db'' : Db} → Reach db db' → Step db' db'' → Reach db db''

-- What holds of the shop between two transactions.
pub record Inv (db : Db) : Type 0 where
  pub keyed : IsKeyed db
  pub refund_ids : Distinct db.refunds
  pub settled : AreSettledOnce db.orders db.attempts
  pub reversed : AreReversedOnce db.reversals
  pub one_open : (i : ℕ) → count (open_refund_of i) db.refunds ≤ 1
