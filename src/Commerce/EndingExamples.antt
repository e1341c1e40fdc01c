-- ===== src/Commerce/EndingExamples.antt =====
-- The theorems on cancelling, shipping, completing and refunds at runs on a small shop.
use assen_platform.Common.{◌≡◌, ◌+◌, refl, true, none, some, [], ◌∷◌}
use assen_platform.Common.Table.{find, rowcount, Distinct, exists, total}
use assen_platform.Errors.{refuse, ErrorCode}
use assen_platform.Identity.{Account, Role}
use assen_platform.Payment.{mock_payment_gateway}
use assen_platform.Payment.Ledger.{record_mock_settlement, reverses}
use assen_platform.Commerce.Model.{
  OrderStatus, Db, product_row, order_row, RefundRequest, RefundStatus,
}
use assen_platform.Commerce.Load.{load_order}
use assen_platform.Commerce.Stock.{tracked, available, line_units}
use assen_platform.Commerce.Reversal.{refund_order}
use assen_platform.Commerce.Lifecycle.{cancel_transaction, cancel_order, mark_cancelled}
use assen_platform.Commerce.Refund.{accept_transaction}
use assen_platform.Commerce.Conservation.{IsKeyed}
use assen_platform.Commerce.Tests.{fan, bought, shop, at_nine, shop-IsKeyed, settlement}
use assen_platform.Commerce.Endings.{
  cancel_order-restock, cancel_order-twice, cancel_order-reversal, accept_transaction-spent,
}
use assen_platform.Commerce.Lifecycle.{ShipIn}

abbrev staff : Account
staff = record fan { id = 5; role = Role.operator }

cancel_order-restock_example :
    (find 100 (cancel_order at_nine (some mock_payment_gateway) fan 100 shop).1.orders
      ≡ some (mark_cancelled bought))
    × ((mark_cancelled bought).status ≡ OrderStatus.cancelled)
    × (available 7 (cancel_order at_nine (some mock_payment_gateway) fan 100 shop).1.products
        ≡ available 7 shop.products + total (line_units 7) bought.items)
unfolding cancel_order load_order cancel_transaction rowcount tracked find
cancel_order-restock_example =
    cancel_order-restock at_nine (some mock_payment_gateway) fan 100 shop shop-IsKeyed
      (mark_cancelled bought) refl 7

cancel_order-twice_example :
    cancel_order
      (record { now = 10; id = 201 })
      none
      fan
      100
      (cancel_order at_nine (some mock_payment_gateway) fan 100 shop).1
    ≡ (
      refuse 422 ErrorCode.order_not_cancellable,
      (cancel_order at_nine (some mock_payment_gateway) fan 100 shop).1,
    )
unfolding cancel_order load_order cancel_transaction rowcount
cancel_order-twice_example =
    cancel_order-twice at_nine (some mock_payment_gateway) fan 100 shop shop-IsKeyed
      (mark_cancelled bought) refl (record { now = 10; id = 201 }) none

cancel_order-reversal_example :
    exists (reverses 40) (cancel_order at_nine (some mock_payment_gateway) fan 100 shop).1.reversals
    ≡ true
unfolding cancel_order load_order cancel_transaction rowcount record_mock_settlement refund_order
    mock_payment_gateway
cancel_order-reversal_example =
    cancel_order-reversal at_nine (some mock_payment_gateway) fan 100 shop shop-IsKeyed
      (mark_cancelled bought) refl settlement refl (λ order. refl)

abbrev parcel : ShipIn
parcel = record { carrier = 67 ∷ []; tracking_number = 49 ∷ [] }

-- An open refund request of the order.
abbrev plea : RefundRequest
plea = record {
  id = 60;
  order = 100;
  reason = [];
  detail = [];
  status = RefundStatus.requested;
  created_at = 6;
}

abbrev disputed_shop : Db
disputed_shop = record shop { orders = mark_cancelled bought ∷ []; refunds = plea ∷ [] }

disputed_shop-IsKeyed : IsKeyed disputed_shop
unfolding Distinct find
disputed_shop-IsKeyed = record { product_ids = (refl, tt); order_ids = (refl, tt) }

accept_transaction-spent_example :
    let db' =
      (accept_transaction at_nine
        (some mock_payment_gateway)
        staff
        plea
        bought
        disputed_shop.products
        disputed_shop).1 in
    (db'.products ≡ disputed_shop.products)
    × (db'.reversals ≡ disputed_shop.reversals)
    × (db'.orders ≡ disputed_shop.orders)
unfolding find
accept_transaction-spent_example =
    accept_transaction-spent at_nine (some mock_payment_gateway) staff plea bought
      disputed_shop.products disputed_shop disputed_shop-IsKeyed refl
