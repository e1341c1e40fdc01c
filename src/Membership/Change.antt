-- ===== src/Membership/Change.antt =====
-- `change_subscription_tier` of server/apps/membership/api.py.
use assen_platform.Common.{
  ℕ, ◌+◌, ◌==◌, true, not, ◌&&◌, Option, none, some, ◌∷◌, is_some, option_eq,
}
use assen_platform.Common.Table.{first, update}
use assen_platform.Errors.{
  ErrorCode, Response, answer, refuse, Check, pass, stop, stop_if, or_stop, ◌>>=◌, ◌>>◌,
}
use assen_platform.Identity.{Account, kyc_verified}
use assen_platform.Payment.{PaymentProvenance, Settings, is_free, payment_available}
use assen_platform.Payment.Ledger.{Target, record_mock_settlement}
use assen_platform.Membership.Model.{MembershipTier, Subscription, is_active, subscription_row}
use assen_platform.Membership.Subscribe.{
  Clock, MembershipDb, cycle_seconds, cycle_days, load_subscription,
}

-- The candidates: the tier, active, and of the subscription's creator; NULL matches NULL.
unfoldable pub load_new_tier : Subscription → ℕ → MembershipDb → Option MembershipTier
load_new_tier sub tier_id db =
    first (λ t. (t.id == tier_id) && t.active && option_eq t.creator sub.creator) db.tiers

unfoldable pub change_checks :
    Settings
    → Account
    → ℕ
    → ℕ
    → MembershipDb
    → Check (Response Subscription) (Subscription × MembershipTier)
change_checks settings account subscription_id tier_id db = do
  stop_if (not (kyc_verified account)) (refuse 403 ErrorCode.identity_verification_required)
  stop_if (not (payment_available settings)) (refuse 503 ErrorCode.payments_unavailable)
  sub ←
      or_stop (load_subscription subscription_id account db)
        (refuse 404 ErrorCode.subscription_not_found)
  stop_if (not (is_active sub.status)) (refuse 422 ErrorCode.subscription_not_active)
  stop_if (is_some sub.cancelled_at) (refuse 422 ErrorCode.subscription_not_active)
  stop_if (sub.tier == tier_id) (answer 200 sub)
  tier ← or_stop (load_new_tier sub tier_id db) (refuse 422 ErrorCode.tier_not_found)
  stop_if (is_free tier.pricing_kind) (refuse 422 ErrorCode.pricing_is_free)
  pass (sub, tier)

-- The columns that `save(update_fields=...)` writes.
unfoldable pub move_to : Clock → MembershipTier → Subscription → Subscription
move_to clock tier s = record s {
  tier = tier.id;
  payment_provenance = PaymentProvenance.mock;
  agreed_price = some tier.price;
  agreed_period = tier.period;
  agreed_tier_name = tier.name;
  current_period_end = some (clock.now + cycle_seconds);
  next_billing_date = some (clock.today + cycle_days);
}

abbrev pub change_checked :
    Clock
    → MembershipDb
    → Check (Response Subscription) (Subscription × MembershipTier)
    → Response Subscription × MembershipDb
change_checked clock db (stop r) = (r, db)
change_checked clock db (pass (sub, tier)) = (
  answer 200 (move_to clock tier sub),
  record db {
    subscriptions = update sub.id (λ _. true) (move_to clock tier) db.subscriptions;
    attempts =
        record_mock_settlement clock.id clock.now (Target.subscription sub.id) tier.price none
        ∷ db.attempts;
  },
)

unfoldable pub change_subscription_tier :
    Clock → Settings → Account → ℕ → ℕ → MembershipDb → Response Subscription × MembershipDb
change_subscription_tier clock settings account subscription_id tier_id db =
    change_checked clock db (change_checks settings account subscription_id tier_id db)
