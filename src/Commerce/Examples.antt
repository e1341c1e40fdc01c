-- ===== src/Commerce/Examples.antt =====
-- The theorems on the handlers of server/apps/commerce/api.py at runs on small shops.
use assen_platform.Common.{◌≡◌, ◌+◌, ◌*◌, refl, true, false, none, some, [], ◌∷◌, arith}
use assen_platform.Common.Table.{find, update, rowcount, Distinct, total}
use assen_platform.Errors.{answer}
use assen_platform.Identity.{kyc_verified}
use assen_platform.Payment.{ProviderRef, Settings, mock_payment_gateway}
use assen_platform.Payment.Ledger.{record_mock_settlement, Target}
use assen_platform.Commerce.Model.{Order, OrderStatus, Db, product_row, order_row}
use assen_platform.Commerce.Load.{
  load_order, load_public_product, is_public, adult_allowed, blocks_creator, load_order_by_key,
}
use assen_platform.Commerce.Stock.{tracked, available, reserve_stock, line_units}
use assen_platform.Commerce.Checkout.{
  CreateOrderIn, create_order, order_checks, insert_order, insertable, reserve_products,
  pending_order, charge_order, settle_order, pay_order, created, mark_paid, replayed,
  stock_and_shipping_checks, shipping_snapshot,
}
use assen_platform.Commerce.Reversal.{reverse_settled_order}
use assen_platform.Commerce.Lifecycle.{cancel_transaction, mark_cancelled}
use assen_platform.Commerce.Conservation.{IsKeyed, IsLoaded}
use assen_platform.Commerce.Steps.{Reach, here, next, cancel}
use assen_platform.Commerce.Graph.{Reach-order, Reach-terminal}
use assen_platform.Commerce.Serve.{Request, serve, serve-Reach}
use assen_platform.Commerce.Orders.{
  create_order-declined, create_order-created, create_order-replay,
}
use assen_platform.Commerce.Tests.{
  fan, poster, bought, shop, at_nine, cancelled_shop, one_cancel, shop-IsKeyed,
}

Reach-order_example :
    (o' : Order) × (find 100 cancelled_shop.orders ≡ some o')
    × (o'.buyer ≡ 1)
    × (o'.total ≡ 3000)
    × (o'.items ≡ bought.items)
unfolding find
Reach-order_example = Reach-order one_cancel 100 bought refl

cancelled-IsLoaded : IsLoaded bought cancelled_shop.products cancelled_shop
unfolding find cancel_transaction update rowcount reverse_settled_order
cancelled-IsLoaded = record { lines = λ o e. ground arith; tracking = λ i. refl }

abbrev another_cancel :
    Reach cancelled_shop
      (cancel_transaction at_nine
        (some mock_payment_gateway)
        bought
        cancelled_shop.products
        cancelled_shop).1
another_cancel =
    next here
      (cancel at_nine (some mock_payment_gateway) bought cancelled_shop.products cancelled-IsLoaded)

Reach-terminal_example :
    (o' : Order) × (find 100
        (cancel_transaction at_nine
          (some mock_payment_gateway)
          bought
          cancelled_shop.products
          cancelled_shop).1.orders
      ≡ some o')
    × (o'.status ≡ OrderStatus.cancelled)
unfolding find cancel_transaction update rowcount reverse_settled_order
Reach-terminal_example = Reach-terminal another_cancel 100 (mark_cancelled bought) refl refl

abbrev withdrawal : Request
withdrawal = Request.withdraw at_nine (some mock_payment_gateway) fan 100

serve-Reach_example : Reach shop (serve withdrawal shop)
serve-Reach_example = serve-Reach withdrawal shop shop-IsKeyed

-- A shop with five units on the shelf, and a request for two of them.
abbrev open_shop : Db
open_shop = record shop {
  products = record poster { stock = some 5; sold_out = false } ∷ [];
  orders = [];
  attempts = [];
}

abbrev settings : Settings
settings = record {
  enable_mock_payment = true;
  enable_shipping_checkout = false;
  enable_adult_content = false;
}

abbrev two_units : CreateOrderIn
two_units = record {
  product_id = 7;
  qty = 2;
  option = [];
  shipping = none;
  idempotency_key = some (75 ∷ []);
}

open_shop-IsKeyed : IsKeyed open_shop
unfolding Distinct find
open_shop-IsKeyed = record { product_ids = (refl, tt); order_ids = tt }

abbrev ordered : Order
ordered =
    mark_paid 9 (ProviderRef.mock 200)
      (pending_order at_nine fan two_units (record poster { stock = some 5; sold_out = false }))

create_order-declined_example :
    ((create_order at_nine settings none fan two_units open_shop).1.attempts ≡ [])
    × (available 7 (create_order at_nine settings none fan two_units open_shop).1.products
        ≡ available 7 open_shop.products)
unfolding create_order order_checks kyc_verified replayed load_order_by_key load_public_product
    is_public adult_allowed blocks_creator stock_and_shipping_checks insert_order insertable
    reserve_products reserve_stock find update rowcount settle_order charge_order tracked
create_order-declined_example =
    create_order-declined at_nine none fan two_units open_shop open_shop-IsKeyed settings refl 7

create_order-created_example :
    let db' =
      (create_order at_nine settings (some mock_payment_gateway) fan two_units open_shop).1 in
    (ordered.buyer ≡ 1)
    × (find ordered.id db'.orders ≡ some ordered)
    × (ordered.status ≡ OrderStatus.paid)
    × (ordered.total ≡ total (λ line. line.price * line.qty) ordered.items)
    × (db'.attempts
        ≡ record_mock_settlement 200 9
            (Target.order ordered.id)
            ordered.total
            ordered.idempotency_key
          ∷ [])
    × (available 7 db'.products + total (line_units 7) ordered.items
        ≡ available 7 open_shop.products)
unfolding create_order order_checks kyc_verified replayed load_order_by_key load_public_product
    is_public adult_allowed blocks_creator stock_and_shipping_checks insert_order insertable
    reserve_products reserve_stock find update rowcount settle_order charge_order tracked
    pending_order shipping_snapshot created load_order pay_order mock_payment_gateway
create_order-created_example =
    create_order-created at_nine (some mock_payment_gateway) fan two_units open_shop
      open_shop-IsKeyed settings ordered refl 7

create_order-replay_example :
    let db' =
      (create_order at_nine settings (some mock_payment_gateway) fan two_units open_shop).1 in
    create_order (record { now = 10; id = 201 }) settings none fan two_units db'
    ≡ (answer 200 ordered, db')
unfolding create_order order_checks kyc_verified replayed load_order_by_key load_public_product
    is_public adult_allowed blocks_creator stock_and_shipping_checks insert_order insertable
    reserve_products reserve_stock find update rowcount settle_order charge_order tracked
    pending_order shipping_snapshot created load_order pay_order mock_payment_gateway
create_order-replay_example =
    create_order-replay at_nine (some mock_payment_gateway) fan two_units open_shop
      open_shop-IsKeyed settings (record { now = 10; id = 201 }) none ordered (75 ∷ []) refl refl
