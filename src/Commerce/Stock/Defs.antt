-- ===== src/Commerce/Stock/Defs.antt =====
-- The reservation of stock in `create_order` and `create_free_order`, and `_restock_order_lines`,
-- of server/apps/commerce/api.py. A comparison with a NULL stock is false, and NULL + n is NULL.
use assen_platform.Common.{
  ℕ, ◌+◌, ◌-◌, ◌==◌, leb, Bool, true, false, Option, none, some, List, [], ◌∷◌, get_or, is_some,
  if◌then◌else◌,
}
use assen_platform.Common.Table.{find, update, rowcount}
use assen_platform.Commerce.Model.{Product, OrderItem, product_row}

-- `stock__gte=qty` and `stock=0`
abbrev pub stock_at_least : ℕ → Option ℕ → Bool
stock_at_least qty none = false
stock_at_least qty (some s) = leb qty s

abbrev pub stock_is_zero : Option ℕ → Bool
stock_is_zero none = false
stock_is_zero (some s) = s == 0

abbrev pub has_stock : ℕ → Product → Bool
has_stock qty p = stock_at_least qty p.stock

abbrev pub is_exhausted : Product → Bool
is_exhausted p = stock_is_zero p.stock

abbrev pub sub_stock : ℕ → Option ℕ → Option ℕ
sub_stock qty none = none
sub_stock qty (some s) = some (s - qty)

abbrev pub add_stock : ℕ → Option ℕ → Option ℕ
add_stock qty none = none
add_stock qty (some s) = some (s + qty)

abbrev pub take_units : ℕ → Product → Product
take_units qty p = record p { stock = sub_stock qty p.stock }

abbrev pub mark_sold_out : Product → Product
mark_sold_out p = record p { sold_out = true }

abbrev pub return_units : ℕ → Product → Product
return_units qty p = record p { stock = add_stock qty p.stock }

abbrev pub reopen : ℕ → Product → Product
reopen qty p = record p { stock = add_stock qty p.stock; sold_out = false }

-- The two conditional UPDATEs of the reservation; `none` when `deducted == 0`.
unfoldable pub reserve_stock : ℕ → ℕ → List Product → Option (List Product)
reserve_stock id qty products =
    let deducted = rowcount id (has_stock qty) products in
    if deducted == 0
    then none
    else some
        (update id is_exhausted mark_sold_out (update id (has_stock qty) (take_units qty) products))

-- `product is not None and product.stock is not None`, of the product as it was loaded.
abbrev pub loaded_tracked : Option Product → Bool
loaded_tracked none = false
loaded_tracked (some p) = is_some p.stock

unfoldable pub tracked : List Product → ℕ → Bool
tracked products id = loaded_tracked (find id products)

-- The two-step restore of one product.
unfoldable pub return_stock : ℕ → ℕ → List Product → List Product
return_stock id qty products =
    let reopened = rowcount id is_exhausted products in
    if reopened == 0
    then update id (λ _. true) (return_units qty) products
    else update id is_exhausted (reopen qty) products

-- One round of the loop; `seen` is the product table when the lines were loaded.
unfoldable pub restock_line : List Product → OrderItem → List Product → List Product
restock_line seen line products = elim line.product [
  | none ↦ products
  | some id ↦ if tracked seen id then return_stock id line.qty products else products
]

unfoldable pub restock_order_lines : List Product → List OrderItem → List Product → List Product
restock_order_lines seen [] products = products
restock_order_lines seen (line ∷ lines) products =
    restock_order_lines seen lines (restock_line seen line products)

-- The units that a product has left; an untracked one counts as none.
abbrev pub loaded_units : Option Product → ℕ
loaded_units none = 0
loaded_units (some p) = get_or p.stock 0

unfoldable pub available : ℕ → List Product → ℕ
available id products = loaded_units (find id products)

-- The units of the product on one line.
abbrev pub line_units : ℕ → OrderItem → ℕ
line_units id line = elim line.product [ none ↦ 0 | some i ↦ if i == id then line.qty else 0 ]
