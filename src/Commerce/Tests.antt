-- ===== src/Commerce/Tests.antt =====
-- A small shop, runs of the commerce handlers on it, and the theorems at these runs.
use assen_platform.Common.{◌≡◌, refl, true, false, none, some, [], ◌∷◌, arith}
use assen_platform.Common.Table.{find, Distinct}
use assen_platform.Identity.{Account, Role, KycStatus}
use assen_platform.Payment.{PaymentProvenance, PricingKind, ProviderRef, mock_payment_gateway}
use assen_platform.Payment.Ledger.{Target, PaymentAttempt, record_mock_settlement}
use assen_platform.Commerce.Model.{
  Product, ProductType, ProductStatus, Order, OrderStatus, OrderItem, Shipping, Db, product_row,
  order_row, refund_row,
}
use assen_platform.Commerce.Load.{Stamp}
use assen_platform.Commerce.Stock.{tracked}
use assen_platform.Commerce.Lifecycle.{cancel_transaction}
use assen_platform.Commerce.Conservation.{IsKeyed, IsLoaded, units}
use assen_platform.Commerce.Steps.{Reach, here, next, cancel, Inv}
use assen_platform.Commerce.Steps.Conserves.{Reach-units}
use assen_platform.Commerce.Steps.Preserves.{Reach-Inv}

abbrev pub fan : Account
fan = record {
  id = 1;
  role = Role.fan;
  is_active = true;
  adult_verified = false;
  kyc_status = KycStatus.verified;
}

abbrev pub poster : Product
poster = record {
  id = 7;
  creator = some 3;
  type = ProductType.digital;
  title = 80 ∷ [];
  price = 1500;
  pricing_kind = PricingKind.paid;
  meta = [];
  media_url = [];
  description = [];
  stock = some 0;
  sold_out = true;
  locked = false;
  status = ProductStatus.selling;
  adult_only = false;
  options = [];
}

abbrev pub no_address : Shipping
no_address = record {
  recipient_name = [];
  recipient_phone = [];
  postal_code = [];
  address1 = [];
  address2 = [];
}

abbrev pub line : OrderItem
line = record {
  product = some 7;
  title = 80 ∷ [];
  item_type = ProductType.digital;
  option = [];
  qty = 2;
  price = 1500;
}

-- Bought for 3000, the last two units of the product.
abbrev pub bought : Order
bought = record {
  id = 100;
  buyer = 1;
  status = OrderStatus.paid;
  subtotal = 3000;
  shipping_fee = 0;
  total = 3000;
  shipping = no_address;
  idempotency_key = none;
  payment_provenance = PaymentProvenance.mock;
  tracking_carrier = [];
  tracking_number = [];
  shipped_at = none;
  completed_at = none;
  paid_at = some 5;
  failed_at = none;
  payment_ref = ProviderRef.mock 100;
  created_at = 5;
  items = line ∷ [];
}

abbrev pub settlement : PaymentAttempt
settlement = record_mock_settlement 40 5 (Target.order 100) 3000 none

abbrev pub shop : Db
shop = record {
  creators = record { id = 3; owner = some 2 } ∷ [];
  blocks = [];
  subscriptions = [];
  products = poster ∷ [];
  orders = bought ∷ [];
  refunds = [];
  attempts = settlement ∷ [];
  reversals = [];
  notices = [];
  audits = [];
}

abbrev pub at_nine : Stamp
at_nine = record { now = 9; id = 200 }

pub shop-IsKeyed : IsKeyed shop
unfolding Distinct find
shop-IsKeyed = record { product_ids = (refl, tt); order_ids = (refl, tt) }

pub bought-IsLoaded : IsLoaded bought shop.products shop
unfolding find
bought-IsLoaded = record { lines = λ o e. ground arith; tracking = λ i. refl }

abbrev pub cancelled_shop : Db
cancelled_shop =
    (cancel_transaction at_nine (some mock_payment_gateway) bought shop.products shop).1

abbrev pub one_cancel : Reach shop cancelled_shop
one_cancel =
    next here (cancel at_nine (some mock_payment_gateway) bought shop.products bought-IsLoaded)

Reach-units_example : units 7 cancelled_shop ≡ units 7 shop
unfolding tracked find
Reach-units_example = Reach-units one_cancel shop-IsKeyed 7 refl

pub shop-Inv : Inv shop
unfolding find Distinct record_mock_settlement
shop-Inv = record {
  keyed = shop-IsKeyed;
  refund_ids = tt;
  settled = λ i. ground arith;
  reversed = λ a. omega arith;
  one_open = λ i. omega arith;
}

Reach-Inv_example : Inv cancelled_shop
Reach-Inv_example = Reach-Inv one_cancel shop-Inv
