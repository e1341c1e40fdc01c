-- ===== src/Membership/Billing.antt =====
-- `run_subscription_billing_cycle` of server/apps/membership/tasks.py. Each due row is locked and
-- looked at again in a transaction of its own.
use assen_platform.Common.{
  ℕ, ◌+◌, ◌/◌, leb, Bool, true, false, not, ◌&&◌, Option, none, some, List, [], ◌∷◌, get_or,
  is_some, if◌then◌else◌,
}
use assen_platform.Common.Table.{find, update}
use assen_platform.Payment.Ledger.{Target, record_mock_settlement}
use assen_platform.Membership.Model.{
  MembershipTier, Subscription, SubscriptionStatus, is_active, tier_row, subscription_row,
}
use assen_platform.Membership.Subscribe.{MembershipDb, cycle_seconds}

-- `current_period_end__lte=now`, which is false of NULL.
abbrev pub ended : ℕ → Option ℕ → Bool
ended now none = false
ended now (some t) = leb t now

unfoldable pub is_due : ℕ → Subscription → Bool
is_due now s = is_active s.status && ended now s.current_period_end

unfoldable pub due_ids : ℕ → List Subscription → List ℕ
unfolding is_due
due_ids now [] = []
due_ids now (s ∷ subs) = let rest = due_ids now subs in if is_due now s then s.id ∷ rest else rest

-- The date of an instant, in UTC.
abbrev utc_date : ℕ → ℕ
utc_date t = t / 86400

abbrev expire : Subscription → Subscription
expire s = record s { status = SubscriptionStatus.expired }

abbrev renew_at : Option ℕ → Subscription → Subscription
renew_at none s = s
renew_at (some period_end) s = record s {
  current_period_end = some (period_end + cycle_seconds);
  next_billing_date = some (utc_date (period_end + cycle_seconds));
}

abbrev renew : Subscription → Subscription
renew s = renew_at s.current_period_end s

-- What the worker does to a due row.
unfoldable pub bill : Subscription → Subscription
bill s = if is_some s.cancelled_at then expire s else renew s

abbrev tier_price : Option MembershipTier → ℕ
tier_price none = 0
tier_price (some tier) = tier.price

-- `sub.agreed_price if sub.agreed_price is not None else sub.tier.price`; the tier is never null.
unfoldable pub billed_amount : Subscription → List MembershipTier → ℕ
billed_amount s tiers = get_or s.agreed_price (tier_price (find s.tier tiers))

pub record Billing : Type 0 where
  pub db : MembershipDb
  pub expired : ℕ
  pub renewed : ℕ

-- The body of the loop under the row lock; `base` gives the attempts their ids.
abbrev bill_locked : ℕ → ℕ → Option Subscription → Billing → Billing
bill_locked now base none b = b
bill_locked now base (some sub) b =
    if not (is_due now sub)
    then b
    else if is_some sub.cancelled_at
    then record b {
      db = record b.db { subscriptions = update sub.id (λ _. true) bill b.db.subscriptions };
      expired = b.expired + 1;
    }
    else record b {
      db = record b.db {
        subscriptions = update sub.id (λ _. true) bill b.db.subscriptions;
        attempts =
            record_mock_settlement (base + b.renewed) now (Target.subscription sub.id)
              (billed_amount sub b.db.tiers) none
            ∷ b.db.attempts;
      };
      renewed = b.renewed + 1;
    }

unfoldable pub bill_one : ℕ → ℕ → ℕ → Billing → Billing
unfolding is_due bill
bill_one now base sub_id b = bill_locked now base (find sub_id b.db.subscriptions) b

unfoldable pub bill_each : ℕ → ℕ → List ℕ → Billing → Billing
bill_each now base [] b = b
bill_each now base (sub_id ∷ ids) b = bill_each now base ids (bill_one now base sub_id b)

unfoldable pub run_subscription_billing_cycle : ℕ → ℕ → MembershipDb → Billing
run_subscription_billing_cycle now base db =
    bill_each now base (due_ids now db.subscriptions) (record { db = db; expired = 0; renewed = 0 })
