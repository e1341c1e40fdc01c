-- ===== src/Payment.antt =====
-- server/config/payment.py: prices, provenance, charges and reversals, and the payment gateway. A
-- gateway is an interface; a call may raise, which is `none`. The repository's own gateway is the
-- deterministic mock, behind the setting `ENABLE_MOCK_PAYMENT`.
pub mod Ledger
use assen_platform.Common.{ℕ, Bool, true, false, Option, none, some, Text}

pub data PaymentProvenance : Type 0 where
  free mock external legacy_unknown : PaymentProvenance

pub data PricingKind : Type 0 where
  paid free : PricingKind

abbrev pub is_free : PricingKind → Bool
is_free PricingKind.free = true
is_free PricingKind.paid = false

pub data ChargeStatus : Type 0 where
  approved pending failed : ChargeStatus

-- Transaction references: blank, `f"mock_{id}"`, `f"mock_reversal_{id}"`, `f"{provider}:{id}"`, or
-- whatever text another gateway returns.
pub data ProviderRef : Type 0 where
  blank : ProviderRef
  mock : ℕ → ProviderRef
  mock_reversal : ℕ → ProviderRef
  external : ℕ → ProviderRef
  text : Text → ProviderRef

pub record PaymentCharge : Type 0 where
  pub status : ChargeStatus
  pub provider_ref : ProviderRef
  pub provenance : PaymentProvenance

pub record PaymentRefund : Type 0 where
  pub status : ChargeStatus
  pub reversal_ref : ProviderRef
  pub provenance : PaymentProvenance

abbrev pub is_approved : ChargeStatus → Bool
is_approved ChargeStatus.approved = true
is_approved _ = false

-- The arguments of `charge` are the order, the amount and the idempotency key; of `refund`, also
-- the reference of the capture. The currency is always "KRW".
pub record PaymentGateway : Type 0 where
  pub charge : ℕ → ℕ → Option Text → Option PaymentCharge
  pub refund : ℕ → ℕ → ProviderRef → Option Text → Option PaymentRefund

abbrev mock_charge : ℕ → ℕ → Option Text → Option PaymentCharge
mock_charge order_id amount idempotency_key = some (record {
  status = ChargeStatus.approved;
  provider_ref = ProviderRef.mock order_id;
  provenance = PaymentProvenance.mock;
})

abbrev mock_refund : ℕ → ℕ → ProviderRef → Option Text → Option PaymentRefund
mock_refund order_id amount original_ref idempotency_key = some (record {
  status = ChargeStatus.approved;
  reversal_ref = ProviderRef.mock_reversal order_id;
  provenance = PaymentProvenance.mock;
})

unfoldable pub mock_payment_gateway : PaymentGateway
mock_payment_gateway = record { charge = mock_charge; refund = mock_refund }

-- The settings that the handlers read.
pub record Settings : Type 0 where
  pub enable_mock_payment : Bool
  pub enable_shipping_checkout : Bool
  pub enable_adult_content : Bool

unfoldable pub payment_gateway : Settings → Option PaymentGateway
unfolding mock_payment_gateway
payment_gateway settings = elim settings.enable_mock_payment [
  | true ↦ some mock_payment_gateway
  | false ↦ none
]

-- `require_payment_available` raises exactly when this is false.
abbrev pub payment_available : Settings → Bool
payment_available settings = settings.enable_mock_payment
