-- ===== src/Membership/Subscribe.antt =====
-- `subscribe`, `subscribe_free`, `cancel_subscription` and `change_subscription_tier` of
-- server/apps/membership/api.py. A response carries the row that its body is made of.
use assen_platform.Common.{
  ℕ, ◌+◌, ◌==◌, Bool, true, false, not, ◌&&◌, ◌||◌, Option, none, some, List, ◌∷◌, is_some,
  option_eq, if◌then◌else◌,
}
use assen_platform.Common.Table.{find, first, update, exists}
use assen_platform.Errors.{
  ErrorCode, Response, answer, refuse, Check, pass, stop, stop_if, or_stop, ◌>>=◌, ◌>>◌,
}
use assen_platform.Identity.{Account, kyc_verified}
use assen_platform.Payment.{PaymentProvenance, Settings, is_free, payment_available}
use assen_platform.Payment.Ledger.{
  Target, PaymentAttempt, record_mock_settlement, record_free_grant,
}
use assen_platform.Membership.Model.{
  MembershipTier, Subscription, SubscriptionStatus, is_active, tier_row, subscription_row,
}

-- The clock of a request, with the local date, and the id of the rows that it creates.
pub record Clock : Type 0 where
  pub now : ℕ
  pub today : ℕ
  pub id : ℕ

pub record MembershipDb : Type 0 where
  pub tiers : List MembershipTier
  pub subscriptions : List Subscription
  pub attempts : List PaymentAttempt

-- `BILLING_CYCLE`, 30 days, added to an instant and to a date.
abbrev pub cycle_seconds : ℕ
cycle_seconds = 2592000

abbrev pub cycle_days : ℕ
cycle_days = 30

abbrev creator_of : Option MembershipTier → Option ℕ
creator_of none = none
creator_of (some tier) = tier.creator

-- The subscriptions that the duplicate check of a new one to `tier` looks at: by the creator of their
-- tier, and of a creatorless tier by the tier.
abbrev rivals : Account → MembershipTier → List MembershipTier → Subscription → Bool
rivals account tier tiers s = (s.fan == account.id) && is_active s.status && elim tier.creator [
  | some c ↦ option_eq (creator_of (find s.tier tiers)) (some c)
  | none ↦ s.tier == tier.id
]

-- `MembershipTier.objects.filter(id=..., active=True).first()`
unfoldable pub load_tier : ℕ → List MembershipTier → Option MembershipTier
load_tier id tiers = first (λ t. (t.id == id) && t.active) tiers

unfoldable pub subscribe_checks :
    Settings → Account → ℕ → MembershipDb → Check (Response Subscription) MembershipTier
subscribe_checks settings account tier_id db = do
  stop_if (not (kyc_verified account)) (refuse 403 ErrorCode.identity_verification_required)
  stop_if (not (payment_available settings)) (refuse 503 ErrorCode.payments_unavailable)
  tier ← or_stop (load_tier tier_id db.tiers) (refuse 404 ErrorCode.tier_not_found)
  stop_if (is_free tier.pricing_kind) (refuse 422 ErrorCode.pricing_is_free)
  stop_if (exists (rivals account tier db.tiers) db.subscriptions)
      (refuse 422 ErrorCode.duplicate_subscription)
  pass tier

unfoldable pub subscribe_free_checks :
    Account → ℕ → MembershipDb → Check (Response Subscription) MembershipTier
subscribe_free_checks account tier_id db = do
  stop_if (not (kyc_verified account)) (refuse 403 ErrorCode.identity_verification_required)
  tier ← or_stop (load_tier tier_id db.tiers) (refuse 404 ErrorCode.tier_not_found)
  stop_if (not (is_free tier.pricing_kind)) (refuse 422 ErrorCode.pricing_not_free)
  stop_if (exists (rivals account tier db.tiers) db.subscriptions)
      (refuse 422 ErrorCode.duplicate_subscription)
  pass tier

-- The row that `subscribe` creates; `save` pins the creator of the tier.
unfoldable pub paid_subscription : Clock → Account → MembershipTier → Subscription
paid_subscription clock account tier = record {
  id = clock.id;
  fan = account.id;
  tier = tier.id;
  creator = tier.creator;
  status = SubscriptionStatus.active;
  agreed_price = some tier.price;
  agreed_period = tier.period;
  agreed_tier_name = tier.name;
  next_billing_date = some (clock.today + cycle_days);
  current_period_end = some (clock.now + cycle_seconds);
  cancelled_at = none;
  payment_provenance = PaymentProvenance.mock;
}

unfoldable pub free_subscription : Clock → Account → MembershipTier → Subscription
free_subscription clock account tier = record {
  id = clock.id;
  fan = account.id;
  tier = tier.id;
  creator = tier.creator;
  status = SubscriptionStatus.active;
  agreed_price = some tier.price;
  agreed_period = tier.period;
  agreed_tier_name = tier.name;
  next_billing_date = none;
  current_period_end = none;
  cancelled_at = none;
  payment_provenance = PaymentProvenance.free;
}

-- The active rows of one fan for one creator, which `uniq_active_subscription_per_creator` keeps
-- to one; a NULL creator is outside the constraint.
abbrev pub active_pair : ℕ → ℕ → Subscription → Bool
active_pair fan creator s =
    (s.fan == fan) && option_eq s.creator (some creator) && is_active s.status

abbrev pub clashes : Subscription → Subscription → Bool
clashes new s = elim new.creator [ none ↦ false | some c ↦ active_pair new.fan c s ]

-- The transaction of both: the row and its attempt, or the answer of `except IntegrityError`.
unfoldable pub insert_subscription :
    Subscription → PaymentAttempt → MembershipDb → Response Subscription × MembershipDb
insert_subscription sub attempt db =
    if is_some (find sub.id db.subscriptions) || exists (clashes sub) db.subscriptions
    then (refuse 422 ErrorCode.duplicate_subscription, db)
    else (
      answer 201 sub,
      record db { subscriptions = sub ∷ db.subscriptions; attempts = attempt ∷ db.attempts },
    )

abbrev pub run_checked :
    MembershipDb
    → Check (Response Subscription) MembershipTier
    → (MembershipTier → Response Subscription × MembershipDb)
    → Response Subscription × MembershipDb
run_checked db (stop r) run = (r, db)
run_checked db (pass tier) run = run tier

unfoldable pub subscribe :
    Clock → Settings → Account → ℕ → MembershipDb → Response Subscription × MembershipDb
subscribe clock settings account tier_id db =
    run_checked db (subscribe_checks settings account tier_id db) λ tier.
      insert_subscription (paid_subscription clock account tier)
        (record_mock_settlement clock.id clock.now (Target.subscription clock.id) tier.price none)
        db

unfoldable pub subscribe_free :
    Clock → Account → ℕ → MembershipDb → Response Subscription × MembershipDb
subscribe_free clock account tier_id db =
    run_checked db (subscribe_free_checks account tier_id db) λ tier.
      insert_subscription (free_subscription clock account tier)
        (record_free_grant clock.id clock.now (Target.subscription clock.id) none) db

-- `Subscription.objects.filter(id=..., fan=account).first()`
unfoldable pub load_subscription : ℕ → Account → MembershipDb → Option Subscription
load_subscription id account db =
    first (λ s. (s.id == id) && (s.fan == account.id)) db.subscriptions

abbrev pub schedule_cancel : ℕ → Subscription → Subscription
schedule_cancel now s = record s { cancelled_at = some now }

abbrev pub cancel_loaded :
    ℕ → Option Subscription → MembershipDb → Response Subscription × MembershipDb
cancel_loaded now none db = (refuse 404 ErrorCode.subscription_not_found, db)
cancel_loaded now (some sub) db =
    if not (is_active sub.status) || is_some sub.cancelled_at
    then (refuse 422 ErrorCode.subscription_not_cancellable, db)
    else (
      answer 200 (schedule_cancel now sub),
      record db {
        subscriptions = update sub.id (λ _. true) (schedule_cancel now) db.subscriptions;
      },
    )

unfoldable pub cancel_subscription :
    ℕ → Account → ℕ → MembershipDb → Response Subscription × MembershipDb
cancel_subscription now account subscription_id db =
    cancel_loaded now (load_subscription subscription_id account db) db
