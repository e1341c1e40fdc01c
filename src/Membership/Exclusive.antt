-- ===== src/Membership/Exclusive.antt =====
-- One active subscription of a fan to a creator, over the operations of server/apps/membership.
use assen_platform.Common.{
  ℕ, ◌≤◌, ◌≡◌, refl, ap, true, false, not, ◌||◌, Option, none, some, List, [], ◌∷◌, is_some,
  if◌then◌else◌, Bool-cases, Option-cases, inl, inr, arith, if_cases,
}
use assen_platform.Common.Table.{
  find, update, exists, count, Distinct, update-Distinct, total-update_le, count_of_not-exists,
}
use assen_platform.Errors.{Response, Check, pass, stop}
use assen_platform.Payment.Ledger.{PaymentAttempt}
use assen_platform.Membership.Model.{MembershipTier, Subscription, is_active, subscription_row}
use assen_platform.Membership.Subscribe.{
  clashes, Clock, MembershipDb, active_pair, insert_subscription, run_checked, cancel_loaded,
  schedule_cancel,
}
use assen_platform.Membership.Change.{change_checked, move_to}
use assen_platform.Membership.Billing.{bill, bill_one, bill_each, Billing, is_due}

-- Keys are unique, and no fan has two active subscriptions to one creator.
pub record AreExclusive (subs : List Subscription) : Type 0 where
  pub ids : Distinct subs
  pub one : (fan creator : ℕ) → count (active_pair fan creator) subs ≤ 1

-- A write of one row that keeps the fan and the creator and activates nothing.
pub update-AreExclusive :
    (i : ℕ) (f : Subscription → Subscription) (subs : List Subscription)
    → ((s : Subscription) → (f s).id ≡ s.id)
    → ((s : Subscription) (fan creator : ℕ)
        → active_pair fan creator (f s) ≡ true
        → active_pair fan creator s ≡ true)
    → AreExclusive subs
    → AreExclusive (update i (λ _. true) f subs)
update-AreExclusive i f subs ids within v = record {
  ids = update-Distinct i (λ _. true) f ids subs v.ids;
  one = λ fan creator. omega (
    arith,
    v.one fan creator,
    total-update_le i (λ _. true) f (λ s. if active_pair fan creator s then 1 else 0) subs
        (λ s e. ground (arith, within s fan creator)),
  );
}

new_one :
    (sub : Subscription) (subs : List Subscription) (fan creator : ℕ)
    → exists (clashes sub) subs ≡ false
    → count (active_pair fan creator) subs ≤ 1
    → count (active_pair fan creator) (sub ∷ subs) ≤ 1
new_one sub subs fan creator free one = elim (Option-cases sub.creator) [
  | inl e ↦ ground arith
  | inr (c, e) ↦ ground (
    arith,
    count_of_not-exists (clashes sub) subs free,
    ap (λ (k : ℕ). count (active_pair k c) subs) {x = fan} {y = sub.fan},
    ap (λ (k : ℕ). count (active_pair fan k) subs) {x = creator} {y = c},
  )
]

pub insert_subscription-AreExclusive :
    (sub : Subscription) (attempt : PaymentAttempt) (db : MembershipDb)
    → AreExclusive db.subscriptions
    → AreExclusive (insert_subscription sub attempt db).1.subscriptions
unfolding insert_subscription Distinct
insert_subscription-AreExclusive sub attempt db v =
    elim (Bool-cases
      (is_some (find sub.id db.subscriptions) || exists (clashes sub) db.subscriptions)) [
        | inl e ↦ rw e v
        | inr e ↦ rw e (record {
          ids = (ground arith, v.ids);
          one = λ fan creator.
              new_one sub db.subscriptions fan creator (ground arith) (v.one fan creator);
        })
      ]

pub run_checked-AreExclusive :
    (db : MembershipDb) (c : Check (Response Subscription) MembershipTier)
    (run : MembershipTier → Response Subscription × MembershipDb)
    → AreExclusive db.subscriptions
    → ((tier : MembershipTier) → AreExclusive (run tier).1.subscriptions)
    → AreExclusive (run_checked db c run).1.subscriptions
run_checked-AreExclusive db (stop r) run v each = v
run_checked-AreExclusive db (pass tier) run v each = each tier

pub cancel_loaded-AreExclusive :
    (now : ℕ) (sub : Option Subscription) (db : MembershipDb)
    → AreExclusive db.subscriptions
    → AreExclusive (cancel_loaded now sub db).1.subscriptions
cancel_loaded-AreExclusive now none db v = v
cancel_loaded-AreExclusive now (some sub) db v =
    if_cases (λ (r : Response Subscription × MembershipDb). AreExclusive r.1.subscriptions)
      (not (is_active sub.status) || is_some sub.cancelled_at) _ _ v
      (update-AreExclusive sub.id (schedule_cancel now) db.subscriptions (λ s. refl)
        (λ s fan creator e. e) v)

pub change_checked-AreExclusive :
    (clock : Clock) (db : MembershipDb)
    (c : Check (Response Subscription) (Subscription × MembershipTier))
    → AreExclusive db.subscriptions
    → AreExclusive (change_checked clock db c).1.subscriptions
unfolding move_to
change_checked-AreExclusive clock db (stop r) v = v
change_checked-AreExclusive clock db (pass (sub, tier)) v =
    update-AreExclusive sub.id (move_to clock tier) db.subscriptions (λ s. refl)
      (λ s fan creator e. e) v

pub bill_one-AreExclusive :
    (now base sub_id : ℕ) (b : Billing)
    → AreExclusive b.db.subscriptions
    → AreExclusive (bill_one now base sub_id b).db.subscriptions
unfolding bill_one bill
bill_one-AreExclusive now base sub_id b v = elim (Option-cases (find sub_id b.db.subscriptions)) [
  | inl e ↦ rw (e, bill_one) v
  | inr (sub, e) ↦
      let billed =
        update-AreExclusive sub.id bill b.db.subscriptions (λ s. ground arith)
          (λ s fan creator h. ground arith) v in
      rw (e, bill_one)
        (if_cases (λ (r : Billing). AreExclusive r.db.subscriptions) (not (is_due now sub)) _ _ v
          (if_cases (λ (r : Billing). AreExclusive r.db.subscriptions) (is_some sub.cancelled_at) _
            _ billed billed))
]

pub bill_each-AreExclusive :
    (now base : ℕ) (ids : List ℕ) (b : Billing)
    → AreExclusive b.db.subscriptions
    → AreExclusive (bill_each now base ids b).db.subscriptions
unfolding bill_each
bill_each-AreExclusive now base [] b v = v
bill_each-AreExclusive now base (i ∷ ids) b v =
    bill_each-AreExclusive now base ids _ (bill_one-AreExclusive now base i b v)
