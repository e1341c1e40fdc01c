-- ===== src/Commerce/Outcomes.antt =====
-- What the answers of server/apps/commerce/api.py tell about the shop, for the handlers of the checkout.
use mathlib.Core.Path.{subst}
use assen_platform.Common.{
  not, ℕ, ◌==◌, ◌≡◌, sym, Bool, true, false, ◌||◌, ◌⊎◌, is_some, Option, none, some, List, ◌∷◌,
  arith, Option-cases, inl, inr,
}
use assen_platform.Common.Table.{exists, update_missing, find, rowcount, update}
use assen_platform.Errors.{
  pass-or-stop, crash, unauthorized, Response, pass, stop, refuse, answer, ErrorCode,
}
use assen_platform.Identity.{Account}
use assen_platform.Payment.{PaymentGateway, PaymentCharge, Settings, ProviderRef}
use assen_platform.Payment.Ledger.{Target, record_mock_settlement}
use assen_platform.Commerce.Model.{Product, Order, Db, product_row, order_row, refund_row, Notice}
use assen_platform.Commerce.Load.{Stamp, load_order, load_public_product}
use assen_platform.Commerce.Stock.{restock_order_lines}
use assen_platform.Commerce.Checkout.{
  stock_and_shipping_checks, insertable, CreateOrderIn, order_checks, insert_order, pending_order,
  reserve_products, fail_order, pay_order, settle_order, charge_order, create_order,
  order_is_pending, approved_ref, same_key, replayed, place_order, created, mark_paid, mark_failed,
}
use assen_platform.Commerce.Conservation.{IsKeyed}
use assen_platform.Commerce.Conservation.Transactions.{insert_order-pass}
use assen_platform.Commerce.Loaded.{load_public_product-found, order_checks-pass}

-- A response that is given before an order is inserted.
abbrev pub is_early : Response Order → Bool
is_early (answer status order) = status == 200
is_early (refuse status code) = not (status == 402)
is_early crash = false
is_early unauthorized = false

stock_and_shipping_checks-stop :
    (settings : Settings) (payload : CreateOrderIn) (p : Product) (r : Response Order)
    → stock_and_shipping_checks settings payload p ≡ stop r
    → is_early r ≡ true
unfolding stock_and_shipping_checks
stock_and_shipping_checks-stop settings payload p r h = ground arith

order_checks-stop :
    (settings : Settings) (now : ℕ) (account : Account) (payload : CreateOrderIn) (db : Db)
    (r : Response Order)
    → order_checks settings now account payload db ≡ stop r
    → is_early r ≡ true
unfolding order_checks
order_checks-stop settings now account payload db r h =
    elim (Option-cases (load_public_product settings account payload.product_id db)) [
      | inl e ↦ ground arith
      | inr (p, e) ↦ ground (arith, stock_and_shipping_checks-stop settings payload p r)
    ]

-- The order's key is taken, or its idempotency key by another order of the buyer.
abbrev pub is_taken : Order → Db → Bool
is_taken order db =
    is_some (find order.id db.orders)
    || exists (same_key order.buyer order.idempotency_key) db.orders

insert_order-stop :
    (account : Account) (payload : CreateOrderIn) (product : Product) (order : Order) (db : Db)
    (r : Response Order)
    → find product.id db.products ≡ some product
    → insert_order account payload product order db ≡ stop r
    → (is_early r ≡ true)
      ⊎ ((products : List Product) × (r ≡ crash)
          × (reserve_products product payload.qty db.products ≡ some products)
          × (is_taken order db ≡ true))
unfolding insert_order insertable
insert_order-stop account payload product order db r found h =
    elim (Option-cases (reserve_products product payload.qty db.products)) [
      | inl e ↦ inl (ground arith)
      | inr (products, e) ↦ elim (Option-cases (replayed account payload.idempotency_key db)) [
        | inr (old, again) ↦ inl (ground arith)
        | inl fresh ↦ inr (products, ground arith, e, ground arith)
      ]
    ]

module _ (stamp : Stamp) (account : Account) (payload : CreateOrderIn) (product : Product) (db : Db)
    (products : List Product) (new : find stamp.id db.orders ≡ none) where
  abbrev placed : Order
  placed = pending_order stamp account payload product

  abbrev reserved : Db
  reserved = record db { products = products; orders = placed ∷ db.orders }

  -- An approved capture: the order is paid, ledgered and answered.
  settle_order-approved :
      (charge : Option PaymentCharge) (ref : ProviderRef)
      → approved_ref charge ≡ some ref
      → settle_order stamp account product placed charge reserved ≡ (
        answer 201 (mark_paid stamp.now ref placed),
        record db {
          products = products;
          orders = mark_paid stamp.now ref placed ∷ db.orders;
          attempts =
              record_mock_settlement stamp.id stamp.now
                (Target.order stamp.id)
                placed.total
                placed.idempotency_key
              ∷ db.attempts;
          notices = Notice.order_received account.id product.id ∷ db.notices;
        },
      )
  unfolding settle_order pay_order pending_order created load_order update rowcount
  settle_order-approved charge ref e =
      ground
        (arith, update_missing stamp.id order_is_pending (mark_paid stamp.now ref) db.orders new)

  -- A declined capture: the order is failed and its reservation is put back.
  settle_order-declined :
      (charge : Option PaymentCharge)
      → approved_ref charge ≡ none
      → settle_order stamp account product placed charge reserved ≡ (
        refuse 402 ErrorCode.payment_declined,
        record db {
          products = restock_order_lines products placed.items products;
          orders = mark_failed stamp.now placed ∷ db.orders;
        },
      )
  unfolding settle_order fail_order pending_order update rowcount
  settle_order-declined charge e =
      ground (arith, update_missing stamp.id order_is_pending (mark_failed stamp.now) db.orders new)

-- How `create_order` can end: before anything is written, with an IntegrityError, with a capture that
-- is not approved, or paid.
pub data CheckoutEnd (stamp : Stamp) (gateway : Option PaymentGateway) (account : Account)
    (payload : CreateOrderIn) (db : Db) : Response Order → Db → Type 0 where
  early :
      (r : Response Order) → is_early r ≡ true → CheckoutEnd stamp gateway account payload db r db
  conflict :
      (product : Product) (products : List Product)
      → find product.id db.products ≡ some product
      → reserve_products product payload.qty db.products ≡ some products
      → is_taken (pending_order stamp account payload product) db ≡ true
      → CheckoutEnd stamp gateway account payload db crash db
  declined :
      (product : Product) (products : List Product)
      → find product.id db.products ≡ some product
      → find stamp.id db.orders ≡ none
      → reserve_products product payload.qty db.products ≡ some products
      → approved_ref (charge_order gateway (pending_order stamp account payload product)) ≡ none
      → CheckoutEnd stamp gateway account payload db
          (refuse 402 ErrorCode.payment_declined)
          (record db {
            products =
                restock_order_lines products
                  (pending_order stamp account payload product).items
                  products;
            orders =
                mark_failed stamp.now (pending_order stamp account payload product) ∷ db.orders;
          })
  paid :
      (product : Product) (products : List Product) (ref : ProviderRef)
      → find product.id db.products ≡ some product
      → find stamp.id db.orders ≡ none
      → reserve_products product payload.qty db.products ≡ some products
      → approved_ref (charge_order gateway (pending_order stamp account payload product)) ≡ some ref
      → CheckoutEnd stamp gateway account payload db
          (answer 201 (mark_paid stamp.now ref (pending_order stamp account payload product)))
          (record db {
            products = products;
            orders =
                mark_paid stamp.now ref (pending_order stamp account payload product) ∷ db.orders;
            attempts =
                record_mock_settlement stamp.id stamp.now
                  (Target.order stamp.id)
                  (pending_order stamp account payload product).total
                  (pending_order stamp account payload product).idempotency_key
                ∷ db.attempts;
            notices = Notice.order_received account.id product.id ∷ db.notices;
          })

module _ (stamp : Stamp) (settings : Settings) (gateway : Option PaymentGateway) (account : Account)
    (payload : CreateOrderIn) (db : Db) where
  abbrev Ends : Response Order × Db → Type 0
  Ends end = CheckoutEnd stamp gateway account payload db end.0 end.1

  place_order-Ends :
      (product : Product)
      → find product.id db.products ≡ some product
      → Ends (place_order stamp gateway account payload db (pass product))
  unfolding pending_order
  place_order-Ends product found =
      let order = pending_order stamp account payload product in
      elim (pass-or-stop (insert_order account payload product order db)) [
        | inr (r, e) ↦ rw e (elim (insert_order-stop account payload product order db r found e) [
          | inl soon ↦ early r soon
          | inr (products, escaped, taken, clash) ↦
              rw escaped (conflict product products found taken clash)
        ])
        | inl (db', e) ↦
            let (products, taken, new, same) =
              insert_order-pass account payload product order db db' e in
            rw (e, same)
              (elim (Option-cases (approved_ref (charge_order gateway order))) [
                | inl none_approved ↦
                    subst Ends
                      (sym (
                        settle_order-declined stamp account payload product db products new _
                          none_approved))
                      (declined product products found new taken none_approved)
                | inr (ref, approved) ↦
                    subst Ends
                      (sym (
                        settle_order-approved stamp account payload product db products new _ ref
                          approved))
                      (paid product products ref found new taken approved)
              ])
      ]

  pub create_order-CheckoutEnd :
      IsKeyed db
      → let end = create_order stamp settings gateway account payload db in
        CheckoutEnd stamp gateway account payload db end.0 end.1
  unfolding create_order
  create_order-CheckoutEnd k =
      elim (pass-or-stop (order_checks settings stamp.now account payload db)) [
        | inr (r, e) ↦
            rw (e, create_order)
              (early r (order_checks-stop settings stamp.now account payload db r e))
        | inl (product, e) ↦
            rw (e, create_order)
              (place_order-Ends product (
                load_public_product-found settings account payload.product_id db product k
                  (order_checks-pass settings stamp.now account payload db product e)))
      ]
