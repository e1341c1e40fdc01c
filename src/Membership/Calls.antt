-- ===== src/Membership/Calls.antt =====
-- The operations of server/apps/membership that write subscriptions, in any order.
use assen_platform.Common.{ℕ, List, [], ◌∷◌}
use assen_platform.Identity.{Account}
use assen_platform.Payment.{Settings}
use assen_platform.Membership.Subscribe.{
  Clock, MembershipDb, subscribe, subscribe_free, cancel_subscription, load_subscription,
  subscribe_checks, subscribe_free_checks,
}
use assen_platform.Membership.Change.{change_subscription_tier, change_checks}
use assen_platform.Membership.Billing.{run_subscription_billing_cycle, due_ids}
use assen_platform.Membership.Exclusive.{
  AreExclusive, insert_subscription-AreExclusive, run_checked-AreExclusive,
  cancel_loaded-AreExclusive, change_checked-AreExclusive, bill_each-AreExclusive,
}

pub data Call : Type 0 where
  join : Clock → Settings → Account → ℕ → Call
  join_free : Clock → Account → ℕ → Call
  leave : ℕ → Account → ℕ → Call
  change : Clock → Settings → Account → ℕ → ℕ → Call
  bill_due : ℕ → ℕ → Call

unfoldable pub call : Call → MembershipDb → MembershipDb
call (join clock settings account tier_id) db = (subscribe clock settings account tier_id db).1
call (join_free clock account tier_id) db = (subscribe_free clock account tier_id db).1
call (leave now account subscription_id) db = (cancel_subscription now account subscription_id db).1
call (change clock settings account subscription_id tier_id) db =
    (change_subscription_tier clock settings account subscription_id tier_id db).1
call (bill_due now base) db = (run_subscription_billing_cycle now base db).db

unfoldable pub call_all : List Call → MembershipDb → MembershipDb
call_all [] db = db
call_all (c ∷ calls) db = call_all calls (call c db)

call-AreExclusive :
    (c : Call) (db : MembershipDb)
    → AreExclusive db.subscriptions
    → AreExclusive (call c db).subscriptions
unfolding call subscribe subscribe_free cancel_subscription change_subscription_tier
    run_subscription_billing_cycle
call-AreExclusive (join clock settings account tier_id) db v =
    run_checked-AreExclusive db (subscribe_checks settings account tier_id db) _ v
      (λ tier. insert_subscription-AreExclusive _ _ db v)
call-AreExclusive (join_free clock account tier_id) db v =
    run_checked-AreExclusive db (subscribe_free_checks account tier_id db) _ v
      (λ tier. insert_subscription-AreExclusive _ _ db v)
call-AreExclusive (leave now account subscription_id) db v =
    cancel_loaded-AreExclusive now (load_subscription subscription_id account db) db v
call-AreExclusive (change clock settings account subscription_id tier_id) db v =
    change_checked-AreExclusive clock db (change_checks settings account subscription_id tier_id db)
      v
call-AreExclusive (bill_due now base) db v =
    bill_each-AreExclusive now base (due_ids now db.subscriptions) _ v

-- From rows with unique keys and at most one active subscription of each fan to each creator, any
-- sequence of subscribing, joining for free, cancelling, changing the tier and billing keeps them
-- so.
pub call_all-AreExclusive :
    (calls : List Call) (db : MembershipDb)
    → AreExclusive db.subscriptions
    → AreExclusive (call_all calls db).subscriptions
unfolding call_all
call_all-AreExclusive [] db v = v
call_all-AreExclusive (c ∷ calls) db v =
    call_all-AreExclusive calls (call c db) (call-AreExclusive c db v)
