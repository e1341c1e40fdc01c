-- ===== src/Commerce/Reversal.antt =====
-- `_reverse_settled_order` of server/apps/commerce/api.py: the reversal of an order's capture.
use assen_platform.Common.{ℕ, Bool, ◌&&◌, Option, none, some, List, ◌∷◌, if◌then◌else◌}
use assen_platform.Common.Table.{first, exists}
use assen_platform.Payment.{
  ChargeStatus, PaymentProvenance, ProviderRef, PaymentRefund, PaymentGateway,
}
use assen_platform.Payment.Ledger.{
  PaymentAttempt, PaymentReversal, ReversalReason, targets_order, is_mock, attempt_succeeded,
  reverses, record_mock_reversal,
}
use assen_platform.Commerce.Model.{Order, Db}
use assen_platform.Commerce.Load.{Stamp}

-- A succeeded mock settlement of the order.
abbrev pub captures : ℕ → PaymentAttempt → Bool
captures order a = targets_order order a.target && is_mock a.provider && attempt_succeeded a.status

abbrev pub pending_refund : PaymentRefund
pending_refund = record {
  status = ChargeStatus.pending;
  reversal_ref = ProviderRef.blank;
  provenance = PaymentProvenance.mock;
}

abbrev pub failed_refund : PaymentRefund
failed_refund = record {
  status = ChargeStatus.failed;
  reversal_ref = ProviderRef.blank;
  provenance = PaymentProvenance.mock;
}

abbrev refund_or_failed : Option PaymentRefund → PaymentRefund
refund_or_failed none = failed_refund
refund_or_failed (some refund) = refund

-- The outcome of the gateway's refund; without a gateway the reversal is owed, and a gateway that
-- raises fails it.
unfoldable pub refund_order : Option PaymentGateway → Order → PaymentRefund
refund_order none order = pending_refund
refund_order (some gateway) order =
    refund_or_failed (gateway.refund order.id order.total order.payment_ref order.idempotency_key)

abbrev reverse_attempt :
    Stamp
    → Option PaymentGateway
    → Order
    → ReversalReason
    → Option PaymentAttempt
    → List PaymentReversal
    → List PaymentReversal
reverse_attempt stamp gateway order reason none reversals = reversals
reverse_attempt stamp gateway order reason (some attempt) reversals =
    if exists (reverses attempt.id) reversals
    then reversals
    else record_mock_reversal stamp.id stamp.now attempt (refund_order gateway order) order.total
        reason
      ∷ reversals

unfoldable pub reverse_settled_order :
    Stamp → Option PaymentGateway → Order → ReversalReason → Db → Db
reverse_settled_order stamp gateway order reason db = record db {
  reversals =
      reverse_attempt stamp gateway order reason (first (captures order.id) db.attempts)
        db.reversals;
}
