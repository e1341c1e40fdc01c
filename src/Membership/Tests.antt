-- ===== src/Membership/Tests.antt =====
-- The theorems on server/apps/membership at runs on small tables.
use assen_platform.Common.{◌≡◌, refl, true, false, some, [], ◌∷◌, List, arith}
use assen_platform.Common.Table.{find, Distinct}
use assen_platform.Identity.{Account, Role, KycStatus}
use assen_platform.Payment.{PricingKind, Settings}
use assen_platform.Membership.Model.{
  MembershipTier, Subscription, active_subscription, subscription_row, tier_row,
}
use assen_platform.Membership.Subscribe.{
  Clock, MembershipDb, paid_subscription, cancel_subscription, load_subscription, schedule_cancel,
}
use assen_platform.Membership.Billing.{run_subscription_billing_cycle}
use assen_platform.Membership.Exclusive.{AreExclusive}
use assen_platform.Membership.Calls.{Call, call_all, call_all-AreExclusive, join, leave, bill_due}
use assen_platform.Membership.Entitlement.{active_subscription-first, cancel_subscription-grace}
use assen_platform.Membership.Renewal.{run_subscription_billing_cycle-row}
use assen_platform.Membership.Charges.{run_subscription_billing_cycle-again}

abbrev member : Account
member = record {
  id = 1;
  role = Role.fan;
  is_active = true;
  adult_verified = false;
  kyc_status = KycStatus.verified;
}

abbrev gold : MembershipTier
gold = record {
  id = 4;
  creator = some 3;
  name = 71 ∷ [];
  price = 9900;
  pricing_kind = PricingKind.paid;
  period = [];
  active = true;
}

abbrev settings : Settings
settings = record {
  enable_mock_payment = true;
  enable_shipping_checkout = false;
  enable_adult_content = false;
}

abbrev clock : Clock
clock = record { now = 1000; today = 0; id = 50 }

abbrev joined : Subscription
joined = paid_subscription clock member gold

abbrev empty_db : MembershipDb
empty_db = record { tiers = gold ∷ []; subscriptions = []; attempts = [] }

abbrev member_db : MembershipDb
member_db = record { tiers = gold ∷ []; subscriptions = joined ∷ []; attempts = [] }

empty-AreExclusive : AreExclusive []
unfolding Distinct
empty-AreExclusive = record { ids = tt; one = λ fan creator. omega arith }

member-AreExclusive : AreExclusive (joined ∷ [])
unfolding Distinct find
member-AreExclusive = record { ids = (refl, tt); one = λ fan creator. ground arith }

cancelled-AreExclusive : AreExclusive (schedule_cancel 1500 joined ∷ [])
unfolding Distinct find
cancelled-AreExclusive = record { ids = (refl, tt); one = λ fan creator. ground arith }

abbrev a_year : List Call
a_year = join clock settings member 4 ∷ bill_due 2593000 70 ∷ leave 2593001 member 50 ∷ []

call_all-AreExclusive_example : AreExclusive (call_all a_year empty_db).subscriptions
call_all-AreExclusive_example = call_all-AreExclusive a_year empty_db empty-AreExclusive

-- A subscription that was cancelled entitles until its period ends.
active_subscription-first_example :
    active_subscription 2000 1 (some 3) (schedule_cancel 1500 joined ∷ [])
    ≡ some (schedule_cancel 1500 joined)
unfolding paid_subscription
active_subscription-first_example =
    active_subscription-first 2000 1 3 (schedule_cancel 1500 joined ∷ []) cancelled-AreExclusive

cancel_subscription-grace_example :
    active_subscription 5000 1
      (some 3)
      (cancel_subscription 2000 member 50 member_db).1.subscriptions
    ≡ some (schedule_cancel 2000 joined)
unfolding cancel_subscription load_subscription paid_subscription
cancel_subscription-grace_example =
    cancel_subscription-grace 2000 member 50 3 2593000 member_db (schedule_cancel 2000 joined)
      member-AreExclusive refl refl refl 5000

run_subscription_billing_cycle-row_example :
    find 50 (run_subscription_billing_cycle 2593000 70 member_db).db.subscriptions
    ≡ some (record joined { current_period_end = some 5185000; next_billing_date = some 60 })
unfolding find paid_subscription
run_subscription_billing_cycle-row_example =
    run_subscription_billing_cycle-row 2593000 70 50 member_db member-AreExclusive.ids

run_subscription_billing_cycle-again_example :
    let billed = (run_subscription_billing_cycle 2593000 70 member_db).db in
    run_subscription_billing_cycle 2593000 80 billed
    ≡ record { db = billed; expired = 0; renewed = 0 }
unfolding find paid_subscription
run_subscription_billing_cycle-again_example =
    run_subscription_billing_cycle-again 2593000 70 80 member_db member-AreExclusive
      (λ j e s h p. ground arith)
