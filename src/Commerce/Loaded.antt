-- ===== src/Commerce/Loaded.antt =====
-- What the look-ups and the checks of server/apps/commerce/api.py have brought when they succeed.
use assen_platform.Common.{ℕ, ◌≡◌, refl, ap, Bool, some, arith, Option-cases, inl, inr}
use assen_platform.Common.Table.{find, first, first-find, key-find}
use assen_platform.Errors.{pass}
use assen_platform.Identity.{Account}
use assen_platform.Payment.{Settings}
use assen_platform.Commerce.Model.{Product, Order, Db, product_row, order_row, refund_row}
use assen_platform.Commerce.Load.{load_order, load_public_product}
use assen_platform.Commerce.Stock.{tracked}
use assen_platform.Commerce.Checkout.{
  CreateOrderIn, order_checks, free_order_checks, stock_and_shipping_checks,
}
use assen_platform.Commerce.Conservation.{IsKeyed, IsLoaded}
use assen_platform.Commerce.Steps.{TracksAsLoaded}

-- A loaded row stands for the row of its time.
pub load-IsLoaded :
    (db : Db) (p : Order → Bool) (order : Order)
    → IsKeyed db
    → first p db.orders ≡ some order
    → IsLoaded order db.products db
load-IsLoaded db p order k e =
    let (found, passes) = first-find p db.orders order k.order_ids e in
    record { lines = λ o e'. ground (arith, found); tracking = λ i. refl }

pub found-IsLoaded :
    (db : Db) (id : ℕ) (order : Order)
    → find id db.orders ≡ some order
    → IsLoaded order db.products db
found-IsLoaded db id order e = record {
  lines = λ o e'. ground (
    arith,
    key-find id db.orders order e,
    ap (λ (k : ℕ). find k db.orders) {x = id} {y = order.id},
  );
  tracking = λ i. refl;
}

pub load_order-IsLoaded :
    (id : ℕ) (account : Account) (db : Db) (order : Order)
    → IsKeyed db
    → load_order id account db ≡ some order
    → IsLoaded order db.products db
unfolding load_order
load_order-IsLoaded id account db order k e = load-IsLoaded db _ order k e

pub load_public_product-TracksAsLoaded :
    (settings : Settings) (account : Account) (id : ℕ) (db : Db) (product : Product)
    → IsKeyed db
    → load_public_product settings account id db ≡ some product
    → TracksAsLoaded product db
unfolding load_public_product tracked
load_public_product-TracksAsLoaded settings account id db product k e =
    let (found, passes) = first-find _ db.products product k.product_ids e in ground (arith, found)

pub stock_and_shipping_checks-pass :
    (settings : Settings) (payload : CreateOrderIn) (p product : Product)
    → stock_and_shipping_checks settings payload p ≡ pass product
    → p ≡ product
unfolding stock_and_shipping_checks
stock_and_shipping_checks-pass settings payload p product h = ground arith

-- The product that passes the checks is the loaded one.
pub order_checks-pass :
    (settings : Settings) (now : ℕ) (account : Account) (payload : CreateOrderIn) (db : Db)
    (product : Product)
    → order_checks settings now account payload db ≡ pass product
    → load_public_product settings account payload.product_id db ≡ some product
unfolding order_checks
order_checks-pass settings now account payload db product h =
    elim (Option-cases (load_public_product settings account payload.product_id db)) [
      | inl e ↦ ground arith
      | inr (p, e) ↦ ground (arith, stock_and_shipping_checks-pass settings payload p product)
    ]

pub free_order_checks-pass :
    (settings : Settings) (account : Account) (payload : CreateOrderIn) (db : Db)
    (product : Product)
    → free_order_checks settings account payload db ≡ pass product
    → load_public_product settings account payload.product_id db ≡ some product
unfolding free_order_checks
free_order_checks-pass settings account payload db product h =
    elim (Option-cases (load_public_product settings account payload.product_id db)) [
      | inl e ↦ ground arith
      | inr (p, e) ↦ ground (arith, stock_and_shipping_checks-pass settings payload p product)
    ]

pub load_public_product-found :
    (settings : Settings) (account : Account) (id : ℕ) (db : Db) (product : Product)
    → IsKeyed db
    → load_public_product settings account id db ≡ some product
    → (find product.id db.products ≡ some product)
unfolding load_public_product
load_public_product-found settings account id db product k e =
    (first-find _ db.products product k.product_ids e).0
