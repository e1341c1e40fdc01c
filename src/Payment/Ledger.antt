-- ===== src/Payment/Ledger.antt =====
-- server/apps/payments/models.py and server/apps/payments/services.py: the append-only ledgers of
-- payment attempts and of reversals, the newest row first. An attempt has exactly one target (the
-- check constraint `payment_attempt_exactly_one_target`), so a target is a sum. The currency is
-- "KRW" but for hosted orders, and is left out.
use assen_platform.Common.{ℕ, ◌==◌, Bool, true, false, ◌&&◌, Option, none, some, List, ◌∷◌, Text}
use assen_platform.Common.Table.{Row, first}
use assen_platform.Payment.{ChargeStatus, ProviderRef, PaymentRefund}

pub data PaymentProvider : Type 0 where
  mock free external : PaymentProvider

pub data PaymentAttemptStatus : Type 0 where
  pending succeeded failed refunded : PaymentAttemptStatus

pub data PaymentReversalStatus : Type 0 where
  pending succeeded failed : PaymentReversalStatus

pub data Target : Type 0 where
  order subscription external_order : ℕ → Target

pub record PaymentAttempt : Type 0 where
  pub id : ℕ
  pub target : Target
  pub provider : PaymentProvider
  pub provider_txn_id : ProviderRef
  pub authorized_amount : ℕ
  pub status : PaymentAttemptStatus
  pub idempotency_key : Option Text
  pub created_at : ℕ

pub data ReversalReason : Type 0 where
  order_cancelled refund_accepted : ReversalReason

pub record PaymentReversal : Type 0 where
  pub id : ℕ
  pub original_attempt : ℕ
  pub provider : PaymentProvider
  pub reversal_ref : ProviderRef
  pub amount : ℕ
  pub status : PaymentReversalStatus
  pub reason : ReversalReason
  pub created_at : ℕ

instance abbrev pub attempt_row : Row PaymentAttempt
attempt_row = record { key = λ a. a.id }

-- The id of what an attempt settles, from which the mock transaction id is made.
abbrev target_id : Target → ℕ
target_id (Target.order i) = i
target_id (Target.subscription i) = i
target_id (Target.external_order i) = i

unfoldable pub record_mock_settlement : ℕ → ℕ → Target → ℕ → Option Text → PaymentAttempt
record_mock_settlement id now target amount idempotency_key = record {
  id = id;
  target = target;
  provider = PaymentProvider.mock;
  provider_txn_id = ProviderRef.mock (target_id target);
  authorized_amount = amount;
  status = PaymentAttemptStatus.succeeded;
  idempotency_key = idempotency_key;
  created_at = now;
}

unfoldable pub record_free_grant : ℕ → ℕ → Target → Option Text → PaymentAttempt
record_free_grant id now target idempotency_key = record {
  id = id;
  target = target;
  provider = PaymentProvider.free;
  provider_txn_id = ProviderRef.blank;
  authorized_amount = 0;
  status = PaymentAttemptStatus.succeeded;
  idempotency_key = idempotency_key;
  created_at = now;
}

abbrev pub attempt_succeeded : PaymentAttemptStatus → Bool
attempt_succeeded PaymentAttemptStatus.succeeded = true
attempt_succeeded _ = false

abbrev pub is_mock : PaymentProvider → Bool
is_mock PaymentProvider.mock = true
is_mock _ = false

abbrev pub targets_order : ℕ → Target → Bool
targets_order i (Target.order j) = j == i
targets_order i _ = false

abbrev targets_external : ℕ → Target → Bool
targets_external i (Target.external_order j) = j == i
targets_external i _ = false

abbrev pub settles_external : ℕ → PaymentAttempt → Bool
settles_external i a = targets_external i a.target && attempt_succeeded a.status

abbrev pub external_attempt : ℕ → ℕ → ℕ → ℕ → PaymentAttempt
external_attempt id now hosted amount = record {
  id = id;
  target = Target.external_order hosted;
  provider = PaymentProvider.external;
  provider_txn_id = ProviderRef.external hosted;
  authorized_amount = amount;
  status = PaymentAttemptStatus.succeeded;
  idempotency_key = none;
  created_at = now;
}

-- `record_external_settlement`: the attempt, and the ledger with it.
unfoldable pub record_external_settlement :
    ℕ → ℕ → ℕ → ℕ → List PaymentAttempt → PaymentAttempt × List PaymentAttempt
record_external_settlement id now hosted amount attempts =
    elim (first (settles_external hosted) attempts) [
      | some existing ↦ (existing, attempts)
      | none ↦ let attempt = external_attempt id now hosted amount in (attempt, attempt ∷ attempts)
    ]

-- `_reversal_status`
abbrev pub reversal_status : ChargeStatus → PaymentReversalStatus
reversal_status ChargeStatus.approved = PaymentReversalStatus.succeeded
reversal_status ChargeStatus.pending = PaymentReversalStatus.pending
reversal_status ChargeStatus.failed = PaymentReversalStatus.failed

unfoldable pub record_mock_reversal :
    ℕ → ℕ → PaymentAttempt → PaymentRefund → ℕ → ReversalReason → PaymentReversal
record_mock_reversal id now original_attempt refund amount reason = record {
  id = id;
  original_attempt = original_attempt.id;
  provider = original_attempt.provider;
  reversal_ref = refund.reversal_ref;
  amount = amount;
  status = reversal_status refund.status;
  reason = reason;
  created_at = now;
}

abbrev pub reversal_succeeded : PaymentReversalStatus → Bool
reversal_succeeded PaymentReversalStatus.succeeded = true
reversal_succeeded _ = false

-- A succeeded reversal of the attempt.
abbrev pub reverses : ℕ → PaymentReversal → Bool
reverses attempt v = (v.original_attempt == attempt) && reversal_succeeded v.status
