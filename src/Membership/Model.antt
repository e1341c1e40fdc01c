-- ===== src/Membership/Model.antt =====
-- server/apps/membership/models.py: tiers and subscriptions, and `active_subscription` of
-- server/apps/membership/services.py. An instant is in seconds of the epoch, a date in days of it.
use assen_platform.Common.{
  ℕ, ◌==◌, ltb, Bool, true, false, ◌&&◌, ◌||◌, Option, none, some, List, Text, is_none, option_eq,
}
use assen_platform.Common.Table.{Row, first}
use assen_platform.Payment.{PaymentProvenance, PricingKind}

pub record MembershipTier : Type 0 where
  pub id : ℕ
  pub creator : Option ℕ
  pub name : Text
  pub price : ℕ
  pub pricing_kind : PricingKind
  pub period : Text
  pub active : Bool

pub data SubscriptionStatus : Type 0 where
  active cancelled expired : SubscriptionStatus

pub record Subscription : Type 0 where
  pub id : ℕ
  pub fan : ℕ
  pub tier : ℕ
  pub creator : Option ℕ
  pub status : SubscriptionStatus
  pub agreed_price : Option ℕ
  pub agreed_period : Text
  pub agreed_tier_name : Text
  pub next_billing_date : Option ℕ  -- a date
  pub current_period_end : Option ℕ
  pub cancelled_at : Option ℕ
  pub payment_provenance : PaymentProvenance

instance abbrev pub tier_row : Row MembershipTier
tier_row = record { key = λ t. t.id }

instance abbrev pub subscription_row : Row Subscription
subscription_row = record { key = λ s. s.id }

abbrev pub is_active : SubscriptionStatus → Bool
is_active SubscriptionStatus.active = true
is_active _ = false

-- `Q(current_period_end__gt=now)`, which is false of NULL.
abbrev pub ends_after : ℕ → Option ℕ → Bool
ends_after now none = false
ends_after now (some t) = ltb now t

-- The two filters of `active_subscription`, at the instant `now`.
unfoldable pub is_entitled : ℕ → ℕ → ℕ → Subscription → Bool
is_entitled now fan creator s =
    (s.fan == fan)
    && option_eq s.creator (some creator)
    && is_active s.status
    && (is_none s.cancelled_at
        || is_none s.current_period_end
        || ends_after now s.current_period_end)

-- `active_subscription` of an account that is not anonymous.
unfoldable pub active_subscription : ℕ → ℕ → Option ℕ → List Subscription → Option Subscription
unfolding is_entitled
active_subscription now fan none subscriptions = none
active_subscription now fan (some creator) subscriptions =
    first (is_entitled now fan creator) subscriptions
