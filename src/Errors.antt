-- ===== src/Errors.antt =====
-- server/config/errors.py: the stable error codes, and what a request handler answers.
use assen_platform.Common.{◌⊎◌, inl, inr, ℕ, ◌≡◌, refl, Bool, true, false, Option, none, some}

pub data ErrorCode : Type 0 where
  service_unavailable account_not_registered otp_invalid otp_unavailable phone_invalid : ErrorCode
  consent_required underage csrf_failed refresh_token_required refresh_token_invalid : ErrorCode
  kyc_unavailable identity_verification_required social_unavailable social_provider_unsupported :
      ErrorCode
  staff_withdrawal_forbidden email_already_registered email_not_verified invalid_credentials :
      ErrorCode
  email_unavailable email_verification_invalid owner_required product_not_found : ErrorCode
  product_type_invalid product_status_invalid product_has_orders product_not_orderable : ErrorCode
  membership_only_product out_of_stock insufficient_stock shipping_address_required : ErrorCode
  order_not_found order_not_cancellable order_not_refundable open_refund_exists : ErrorCode
  order_not_shippable order_not_completable refund_not_found refund_not_transitionable : ErrorCode
  tier_not_found tier_in_use duplicate_subscription subscription_not_found : ErrorCode
  subscription_not_cancellable subscription_not_active rate_limited payments_unavailable : ErrorCode
  shipping_checkout_unavailable payment_card_invalid payment_method_not_found payment_declined :
      ErrorCode
  pricing_not_free pricing_is_free pricing_free_requires_zero_price push_unavailable : ErrorCode
  date_range_invalid block_target_not_found interaction_blocked self_follow_forbidden : ErrorCode
  adult_gate_blocked upload_type_unsupported upload_invalid upload_too_large : ErrorCode
  upload_storage_unavailable : ErrorCode

-- What a handler does: it answers with a status and a body, refuses with a status and a code (a
-- returned error body and a raised `ApiError` are rendered alike), lets an exception escape, or is not
-- entered because the route's auth class returned None.
pub data Response (A : Type 0) : Type 0 where
  answer : ℕ → A → Response A
  refuse : ℕ → ErrorCode → Response A
  crash : Response A
  unauthorized : Response A

-- A chain of checks that goes on with a value or stops with the response.
pub data Check (R A : Type 0) : Type 0 where
  pass : A → Check R A
  stop : R → Check R A

infixl 5 ◌>>=◌ ◌>>◌
abbrev pub ◌>>=◌ : {R A B : Type 0} → Check R A → (A → Check R B) → Check R B
pass a >>= f = f a
stop r >>= f = stop r

abbrev pub ◌>>◌ : {R B : Type 0} → Check R (Unit {0}) → Check R B → Check R B
m >> k = m >>= λ _. k

-- `if c: return e`
abbrev pub stop_if : {R : Type 0} → Bool → R → Check R (Unit {0})
stop_if true r = stop r
stop_if false r = pass tt

-- `if o is None: return e`
abbrev pub or_stop : {R A : Type 0} → Option A → R → Check R A
or_stop none r = stop r
or_stop (some a) r = pass a

-- Inversion of a chain that ends in a value.
pub pass-cases :
    {R A B : Type 0} (m : Check R A) {f : A → Check R B} {b : B}
    → (m >>= f) ≡ pass b
    → (a : A) × (m ≡ pass a) × (f a ≡ pass b)
pass-cases (pass a) h = (a, refl, h)
pass-cases (stop r) h = cc

pub pass-or-stop :
    {R A : Type 0} (c : Check R A) → ((a : A) × (c ≡ pass a)) ⊎ ((r : R) × (c ≡ stop r))
pass-or-stop (pass a) = inl (a, refl)
pass-or-stop (stop r) = inr (r, refl)
