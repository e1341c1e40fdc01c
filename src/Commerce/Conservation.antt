-- ===== src/Commerce/Conservation.antt =====
-- Stock conservation: the units that a product has left and the units that live orders hold.
-- About the transactions of server/apps/commerce/api.py.
pub mod Transactions
use assen_platform.Common.{
  ℕ, ◌+◌, ◌==◌, ◌≡◌, ◌≢◌, refl, sym, ◌∙◌, Bool, true, false, Option, none, some, List, [], ◌∷◌,
  arith, if◌then◌else◌, is_some, Option-cases, Bool-cases, inl, inr,
}
use assen_platform.Common.Table.{
  find, update, rowcount, Distinct, total, holds, rowcount_hit, total-update, total-update_same,
  update-Distinct,
}
use assen_platform.Errors.{Check, pass, stop, Response}
use assen_platform.Identity.{Account}
use assen_platform.Payment.{PaymentGateway, ProviderRef}
use assen_platform.Payment.Ledger.{ReversalReason}
use assen_platform.Commerce.Model.{
  Product, Order, OrderItem, OrderStatus, Db, product_row, order_row,
}
use assen_platform.Commerce.Load.{Stamp}
use assen_platform.Commerce.Stock.{
  reserve_stock, restock_order_lines, tracked, available, line_units, available-reserve_stock,
  available-restock_order_lines, tracked-reserve_stock, tracked-restock_order_lines,
  restock_order_lines-Distinct, reserve_stock-Distinct,
}
use assen_platform.Commerce.Checkout.{
  CreateOrderIn, insert_order, reserve_products, insertable, pending_order, free_order, grant_free,
  fail_order, pay_order, order_is_pending, mark_failed, mark_paid,
}
use assen_platform.Commerce.Reversal.{reverse_settled_order}

-- The states in which an order holds the units of its lines.
abbrev pub is_live : OrderStatus → Bool
is_live OrderStatus.cancelled = false
is_live OrderStatus.failed = false
is_live _ = true

abbrev pub order_units : ℕ → Order → ℕ
order_units j o = if is_live o.status then total (line_units j) o.items else 0

-- All units of the product, on the shelf or in a live order.
abbrev pub all_units : ℕ → List Product → List Order → ℕ
all_units j products orders = available j products + total (order_units j) orders

abbrev pub units : ℕ → Db → ℕ
units j db = all_units j db.products db.orders

-- What a transaction needs of the two tables: one row to a key.
pub record AreKeyed (products : List Product) (orders : List Order) : Type 0 where
  pub product_ids : Distinct products
  pub order_ids : Distinct orders

abbrev pub IsKeyed : Db → Type 0
IsKeyed db = AreKeyed db.products db.orders

-- The rows that were loaded before a transaction still stand for those of its time: the lines of
-- the order, which no request writes, and which products are tracked.
pub record AreLoaded (order : Order) (seen : List Product) (products : List Product)
    (orders : List Order) : Type 0 where
  pub lines : (o : Order) → find order.id orders ≡ some o → o.items ≡ order.items
  pub tracking : (i : ℕ) → tracked seen i ≡ tracked products i

abbrev pub IsLoaded : Order → List Product → Db → Type 0
IsLoaded order seen db = AreLoaded order seen db.products db.orders

-- The two tables before and after a transaction that keeps every tracked product's units, the
-- tracking, and the keys.
pub record KeepsRows (ps : List Product) (os : List Order) (ps' : List Product) (os' : List Order)
    : Type 0 where
  pub same_units : (j : ℕ) → tracked ps j ≡ true → all_units j ps' os' ≡ all_units j ps os
  pub same_tracking : (j : ℕ) → tracked ps' j ≡ tracked ps j
  pub keyed : AreKeyed ps' os'

abbrev pub Keeps : Db → Db → Type 0
Keeps db db' = KeepsRows db.products db.orders db'.products db'.orders

pub Keeps-refl : (db : Db) → IsKeyed db → Keeps db db
Keeps-refl db k = record { same_units = λ j h. refl; same_tracking = λ j. refl; keyed = k }

module _ (order : Order) (db : Db) (p : Order → Bool) (f : Order → Order) (k : IsKeyed db) where
  -- A guarded write that keeps an order live, with its lines.
  pub move_order-Keeps :
      ((o : Order) → p o ≡ true → is_live (f o).status ≡ is_live o.status)
      → ((o : Order) → (f o).items ≡ o.items)
      → ((o : Order) → (f o).id ≡ o.id)
      → Keeps db (record db { orders = update order.id p f db.orders })
  move_order-Keeps live lines ids = record {
    same_units = λ j h. ground (
      arith,
      total-update_same order.id p f (order_units j) db.orders (λ x e. rw (live x e, lines x)),
    );
    same_tracking = λ j. refl;
    keyed = record {
      product_ids = k.product_ids;
      order_ids = update-Distinct order.id p f ids db.orders k.order_ids;
    };
  }

  module _ (seen : List Product) (l : IsLoaded order seen db) where
    -- A guarded write that ends a live order, with the restock of its lines.
    pub end_order-Keeps :
        rowcount order.id p db.orders ≢ 0
        → ((o : Order) → p o ≡ true → is_live o.status ≡ true)
        → ((o : Order) → is_live (f o).status ≡ false)
        → ((o : Order) → (f o).id ≡ o.id)
        → Keeps db (record db {
          orders = update order.id p f db.orders;
          products = restock_order_lines seen order.items db.products;
        })
    end_order-Keeps hit live dead ids =
        let (o, found, passes) = rowcount_hit order.id p db.orders k.order_ids hit in
        record {
          same_units = λ j h. ground (
            arith,
            live o passes,
            dead o,
            l.lines o found,
            available-restock_order_lines seen order.items db.products j k.product_ids l.tracking h,
            total-update order.id p f (order_units j) db.orders o k.order_ids found passes,
          );
          same_tracking = λ j. tracked-restock_order_lines seen order.items db.products j;
          keyed = record {
            product_ids = restock_order_lines-Distinct seen order.items db.products k.product_ids;
            order_ids = update-Distinct order.id p f ids db.orders k.order_ids;
          };
        }
