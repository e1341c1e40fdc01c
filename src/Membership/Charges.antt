-- ===== src/Membership/Charges.antt =====
-- The charges of `run_subscription_billing_cycle` of server/apps/membership/tasks.py, and what a second
-- run at the same time does.
use assen_platform.Common.{
  ℕ, ◌+◌, ◌==◌, ◌<◌, ◌≡◌, refl, ap, ◌∙◌, false, not, ◌&&◌, Option, none, some, List, [], ◌∷◌,
  is_some, if◌then◌else◌, Option-cases, inl, inr, arith,
}
use assen_platform.Common.Table.{find, holds, write_if, Distinct}
use assen_platform.Payment.Ledger.{PaymentAttempt, Target}
use assen_platform.Membership.Model.{MembershipTier, Subscription, subscription_row}
use assen_platform.Membership.Subscribe.{MembershipDb, cycle_seconds}
use assen_platform.Membership.Billing.{
  bill, bill_each, Billing, run_subscription_billing_cycle, is_due, due_ids, billed_amount,
}
use assen_platform.Membership.Exclusive.{AreExclusive, bill_each-AreExclusive}
use assen_platform.Membership.Renewal.{run_subscription_billing_cycle-find}

-- What an attempt charges a subscription.
abbrev target_charge : ℕ → ℕ → Target → ℕ
target_charge j amount (Target.subscription i) = if i == j then amount else 0
target_charge j amount _ = 0

abbrev pub charge : ℕ → PaymentAttempt → ℕ
charge j a = target_charge j a.authorized_amount a.target

-- What a run owes on a row: the agreed price of a due one that is not cancelled.
abbrev pub charge_due : ℕ → List MembershipTier → Option Subscription → ℕ
charge_due now tiers none = 0
charge_due now tiers (some s) =
    if is_due now s && not (is_some s.cancelled_at) then billed_amount s tiers else 0

due_ids_none :
    (now : ℕ) (subs : List Subscription)
    → Distinct subs
    → ((j : ℕ) → holds (is_due now) (find j subs) ≡ false)
    → due_ids now subs ≡ []
unfolding due_ids find Distinct
due_ids_none now [] d h = refl
due_ids_none now (s ∷ subs) d h =
    let rest =
      due_ids_none now subs d.1
        (λ j. ground (arith, h j, d.0, ap (λ (k : ℕ). find k subs) {x = s.id} {y = j})) in
    ground (arith, rest, h s.id)

billed_not_due :
    (now : ℕ) (o : Option Subscription)
    → ((e : ℕ) (s : Subscription)
        → o ≡ some s
        → s.current_period_end ≡ some e
        → now < e + cycle_seconds)
    → holds (is_due now) (write_if (is_due now) bill o) ≡ false
unfolding bill is_due
billed_not_due now none soon = refl
billed_not_due now (some s) soon = elim (Option-cases s.current_period_end) [
  | inl e ↦ ground arith
  | inr (t, e) ↦ ground (arith, soon t s refl e)
]

-- From exclusive rows of which none is overdue by a whole cycle, a second run of the billing
-- worker at the same time finds nothing due, and leaves rows and ledger as the first did.
pub run_subscription_billing_cycle-again :
    (now base base' : ℕ) (db : MembershipDb)
    → AreExclusive db.subscriptions
    → ((j e : ℕ) (s : Subscription)
        → find j db.subscriptions ≡ some s
        → s.current_period_end ≡ some e
        → now < e + cycle_seconds)
    → let billed = (run_subscription_billing_cycle now base db).db in
      run_subscription_billing_cycle now base' billed
      ≡ record { db = billed; expired = 0; renewed = 0 }
unfolding run_subscription_billing_cycle bill_each
run_subscription_billing_cycle-again now base base' db v soon =
    let start : Billing = record { db = db; expired = 0; renewed = 0 } in
    let after = bill_each-AreExclusive now base (due_ids now db.subscriptions) start v in
    let idle =
      due_ids_none now (run_subscription_billing_cycle now base db).db.subscriptions after.ids (λ j.
        ap (holds (is_due now)) (run_subscription_billing_cycle-find now base j db v.ids)
        ∙ billed_not_due now (find j db.subscriptions) (soon j)) in
    rw idle refl
