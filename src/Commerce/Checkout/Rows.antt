-- ===== src/Commerce/Checkout/Rows.antt =====
-- The rows that `create_order` and `create_free_order` insert, of server/apps/commerce/api.py.
use assen_platform.Common.{◌+◌, ◌*◌, Option, none, some, [], ◌∷◌, strip, if◌then◌else◌}
use assen_platform.Identity.{Account}
use assen_platform.Payment.{PaymentProvenance, ProviderRef}
use assen_platform.Commerce.Model.{
  Product, Order, OrderStatus, Shipping, product_row, order_row, is_goods,
}
use assen_platform.Commerce.Load.{Stamp, key_or_none}
use assen_platform.Commerce.Checkout.Checks.{CreateOrderIn}

abbrev no_shipping : Shipping
no_shipping = record {
  recipient_name = [];
  recipient_phone = [];
  postal_code = [];
  address1 = [];
  address2 = [];
}

abbrev trimmed : Option Shipping → Shipping
trimmed none = no_shipping
trimmed (some s) = record {
  recipient_name = strip s.recipient_name;
  recipient_phone = strip s.recipient_phone;
  postal_code = strip s.postal_code;
  address1 = strip s.address1;
  address2 = strip s.address2;
}

-- `shipping_snapshot`
unfoldable pub shipping_snapshot : Product → Option Shipping → Shipping
shipping_snapshot product ship = if is_goods product.type then trimmed ship else no_shipping

-- The row that `create_order` inserts, with its one line.
unfoldable pub pending_order : Stamp → Account → CreateOrderIn → Product → Order
unfolding shipping_snapshot
pending_order stamp account payload product = record {
  id = stamp.id;
  buyer = account.id;
  status = OrderStatus.pending;
  subtotal = product.price * payload.qty;
  shipping_fee = 0;
  total = product.price * payload.qty + 0;
  shipping = shipping_snapshot product payload.shipping;
  idempotency_key = key_or_none payload.idempotency_key;
  payment_provenance = PaymentProvenance.mock;
  tracking_carrier = [];
  tracking_number = [];
  shipped_at = none;
  completed_at = none;
  paid_at = none;
  failed_at = none;
  payment_ref = ProviderRef.blank;
  created_at = stamp.now;
  items =
      record {
        product = some product.id;
        title = product.title;
        item_type = product.type;
        option = payload.option;
        qty = payload.qty;
        price = product.price;
      }
      ∷ [];
}

-- The row that `create_free_order` inserts: settled, at amount 0, with FREE provenance.
unfoldable pub free_order : Stamp → Account → CreateOrderIn → Product → Order
unfolding shipping_snapshot
free_order stamp account payload product = record {
  id = stamp.id;
  buyer = account.id;
  status = OrderStatus.paid;
  subtotal = 0;
  shipping_fee = 0;
  total = 0;
  shipping = shipping_snapshot product payload.shipping;
  idempotency_key = key_or_none payload.idempotency_key;
  payment_provenance = PaymentProvenance.free;
  tracking_carrier = [];
  tracking_number = [];
  shipped_at = none;
  completed_at = none;
  paid_at = none;
  failed_at = none;
  payment_ref = ProviderRef.blank;
  created_at = stamp.now;
  items =
      record {
        product = some product.id;
        title = product.title;
        item_type = product.type;
        option = payload.option;
        qty = payload.qty;
        price = 0;
      }
      ∷ [];
}
