-- ===== src/Commerce/Checkout/Checks.antt =====
-- The payload and the checks of `create_order` and `create_free_order`, of
-- server/apps/commerce/api.py, in the order of the source.
use assen_platform.Common.{
  ℕ, ltb, leb, Bool, false, not, ◌&&◌, ◌||◌, Option, none, some, Text, is_none,
}
use assen_platform.Errors.{
  ErrorCode, Response, answer, refuse, Check, pass, stop, stop_if, or_stop, ◌>>=◌, ◌>>◌,
}
use assen_platform.Identity.{Account, kyc_verified}
use assen_platform.Payment.{Settings, is_free, payment_available}
use assen_platform.Membership.Model.{active_subscription}
use assen_platform.Commerce.Model.{
  Product, Order, Shipping, Db, product_row, order_row, is_goods, is_selling,
}
use assen_platform.Commerce.Load.{
  load_public_product, blocks_creator, load_order_by_key, key_or_none, shipping_is_complete,
}

pub record CreateOrderIn : Type 0 where
  pub product_id : ℕ
  pub qty : ℕ
  pub option : Text
  pub shipping : Option Shipping
  pub idempotency_key : Option Text

-- `if payload.idempotency_key: existing = _load_order_by_key(...)`
unfoldable pub replayed : Account → Option Text → Db → Option Order
replayed account key db = elim (key_or_none key) [
  | none ↦ none
  | some k ↦ load_order_by_key account k db
]

abbrev stop_with : Option Order → Check (Response Order) (Unit {0})
stop_with none = pass tt
stop_with (some existing) = stop (answer 200 existing)

-- `product.sold_out or (product.stock is not None and product.stock <= 0)`
abbrev stock_gone : Option ℕ → Bool
stock_gone none = false
stock_gone (some s) = leb s 0

-- `product.stock is not None and payload.qty > product.stock`
abbrev stock_short : ℕ → Option ℕ → Bool
stock_short qty none = false
stock_short qty (some s) = ltb s qty

-- The checks that both checkouts make after the look-up and the pricing.
unfoldable pub stock_and_shipping_checks :
    Settings → CreateOrderIn → Product → Check (Response Order) Product
stock_and_shipping_checks settings payload product = do
  stop_if (product.sold_out || stock_gone product.stock) (refuse 422 ErrorCode.out_of_stock)
  stop_if (stock_short payload.qty product.stock) (refuse 422 ErrorCode.insufficient_stock)
  stop_if (is_goods product.type && not settings.enable_shipping_checkout)
      (refuse 503 ErrorCode.shipping_checkout_unavailable)
  stop_if (is_goods product.type && not (shipping_is_complete payload.shipping))
      (refuse 422 ErrorCode.shipping_address_required)
  pass product

-- The checks of `create_order` before phase 1.
unfoldable pub order_checks :
    Settings → ℕ → Account → CreateOrderIn → Db → Check (Response Order) Product
order_checks settings now account payload db = do
  stop_if (not (kyc_verified account)) (refuse 403 ErrorCode.identity_verification_required)
  stop_if (not (payment_available settings)) (refuse 503 ErrorCode.payments_unavailable)
  stop_with (replayed account payload.idempotency_key db)
  product ←
      or_stop (load_public_product settings account payload.product_id db)
        (refuse 404 ErrorCode.product_not_found)
  stop_if (is_free product.pricing_kind) (refuse 422 ErrorCode.pricing_is_free)
  stop_if (blocks_creator account product.creator db) (refuse 422 ErrorCode.interaction_blocked)
  stop_if (not (is_selling product.status)) (refuse 422 ErrorCode.product_not_orderable)
  stop_if
      (product.locked
        && is_none (active_subscription now account.id product.creator db.subscriptions))
      (refuse 422 ErrorCode.membership_only_product)
  stock_and_shipping_checks settings payload product

-- The checks of `create_free_order`.
unfoldable pub free_order_checks :
    Settings → Account → CreateOrderIn → Db → Check (Response Order) Product
free_order_checks settings account payload db = do
  stop_if (not (kyc_verified account)) (refuse 403 ErrorCode.identity_verification_required)
  stop_with (replayed account payload.idempotency_key db)
  product ←
      or_stop (load_public_product settings account payload.product_id db)
        (refuse 404 ErrorCode.product_not_found)
  stop_if (not (is_free product.pricing_kind)) (refuse 422 ErrorCode.pricing_not_free)
  stop_if (blocks_creator account product.creator db) (refuse 422 ErrorCode.interaction_blocked)
  stop_if (not (is_selling product.status)) (refuse 422 ErrorCode.product_not_orderable)
  stop_if product.locked (refuse 422 ErrorCode.membership_only_product)
  stock_and_shipping_checks settings payload product
