-- ===== src/Commerce/Load.antt =====
-- The look-ups that the commerce handlers share, of server/apps/commerce/api.py, and
-- `blocked_creator_ids` of server/apps/social/models.py.
use assen_platform.Common.{
  ℕ, ◌==◌, Bool, true, false, not, ◌&&◌, ◌||◌, Option, none, some, Text, text_eq, is_nonempty,
  strip, option_eq,
}
use assen_platform.Common.Table.{first, find, exists}
use assen_platform.Identity.{Account, is_operator}
use assen_platform.Payment.{Settings}
use assen_platform.Commerce.Model.{
  Product, Order, OrderItem, Shipping, Creator, RefundRequest, Db, is_public_status, product_row,
  creator_row, refund_row,
}

-- The clock of a request and the id that it gives to a row it creates.
pub record Stamp : Type 0 where
  pub now : ℕ
  pub id : ℕ

-- `_adult_allowed`, of a viewer who is logged in
unfoldable pub adult_allowed : Settings → Account → Bool
adult_allowed settings viewer = settings.enable_adult_content && viewer.adult_verified

-- The rows of `_public_product_qs`.
unfoldable pub is_public : Settings → Account → Product → Bool
unfolding adult_allowed
is_public settings viewer p =
    is_public_status p.status && (adult_allowed settings viewer || not p.adult_only)

unfoldable pub load_public_product : Settings → Account → ℕ → Db → Option Product
unfolding is_public
load_public_product settings viewer id db =
    first (λ p. (p.id == id) && is_public settings viewer p) db.products

-- `product.creator_id in blocked_creator_ids(account)`
unfoldable pub blocks_creator : Account → Option ℕ → Db → Bool
blocks_creator account none db = false
blocks_creator account (some creator) db =
    exists (λ b. (b.blocker == account.id) && (b.creator == creator)) db.blocks

-- `_load_order`
unfoldable pub load_order : ℕ → Account → Db → Option Order
load_order id buyer db = first (λ o. (o.id == id) && (o.buyer == buyer.id)) db.orders

-- Whether an order has the key; a NULL key equals none.
abbrev pub has_key : Text → Option Text → Bool
has_key key none = false
has_key key (some k) = text_eq k key

-- `_load_order_by_key`
unfoldable pub load_order_by_key : Account → Text → Db → Option Order
load_order_by_key buyer key db =
    first (λ o. (o.buyer == buyer.id) && has_key key o.idempotency_key) db.orders

-- `payload.idempotency_key or None`
abbrev pub key_or_none : Option Text → Option Text
key_or_none none = none
key_or_none (some key) = elim (is_nonempty key) [ true ↦ some key | false ↦ none ]

-- `_shipping_is_complete`
unfoldable pub shipping_is_complete : Option Shipping → Bool
shipping_is_complete none = false
shipping_is_complete (some s) =
    is_nonempty (strip s.recipient_name)
    && is_nonempty (strip s.recipient_phone)
    && is_nonempty (strip s.postal_code)
    && is_nonempty (strip s.address1)

-- Whether the account operates the creator of the product on a line.
abbrev owns_creator : Account → Option Creator → Bool
owns_creator account none = false
owns_creator account (some c) = option_eq c.owner (some account.id)

abbrev owns_product : Account → Db → Option Product → Bool
owns_product account db none = false
owns_product account db (some p) = elim p.creator [
  | none ↦ false
  | some c ↦ owns_creator account (find c db.creators)
]

abbrev pub owns_line : Account → Db → OrderItem → Bool
owns_line account db line = elim line.product [
  | none ↦ false
  | some i ↦ owns_product account db (find i db.products)
]

-- `_load_fulfillable_order`
unfoldable pub load_fulfillable_order : ℕ → Account → Db → Option Order
load_fulfillable_order id account db = elim (is_operator account) [
  | true ↦ first (λ o. o.id == id) db.orders
  | false ↦ first (λ o. (o.id == id) && exists (owns_line account db) o.items) db.orders
]

-- `_load_refund`, without the order that comes with it
unfoldable pub load_refund : ℕ → Db → Option RefundRequest
load_refund id db = find id db.refunds
