-- ===== src/Membership/Renewal.antt =====
-- What `run_subscription_billing_cycle` of server/apps/membership/tasks.py does to the rows and to the
-- ledger, against a description row by row.
use assen_platform.Common.{
  ℕ, ◌+◌, ◌/◌, leb, ◌==◌, ◌≡◌, ◌∙◌, refl, ap, Option, none, some, Bool, true, false, List, [], ◌∷◌,
  if◌then◌else◌, Option-cases, inl, inr, arith,
}
use assen_platform.Common.Table.{find, exists, holds, write_if, Distinct, find-update, key-find}
use assen_platform.Membership.Model.{Subscription, SubscriptionStatus, subscription_row}
use assen_platform.Membership.Subscribe.{MembershipDb}
use assen_platform.Membership.Billing.{
  bill, bill_one, bill_each, Billing, run_subscription_billing_cycle, is_due, due_ids,
}

abbrev pub listed : ℕ → List ℕ → Bool
listed j ids = exists (λ i. i == j) ids

unfoldable pub AreFresh : List ℕ → Type 0
AreFresh [] = Unit
AreFresh (i ∷ ids) = (listed i ids ≡ false) × AreFresh ids

-- The due ids are the keys of the due rows.
pub listed-due_ids :
    (now j : ℕ) (subs : List Subscription)
    → Distinct subs
    → listed j (due_ids now subs) ≡ holds (is_due now) (find j subs)
unfolding due_ids find Distinct
listed-due_ids now j [] d = refl
listed-due_ids now j (s ∷ subs) d =
    ground (arith, listed-due_ids now j subs d.1, ap (λ (k : ℕ). find k subs) {x = s.id} {y = j})

pub due_ids-AreFresh :
    (now : ℕ) (subs : List Subscription) → Distinct subs → AreFresh (due_ids now subs)
unfolding due_ids Distinct AreFresh
due_ids-AreFresh now [] d = tt
due_ids-AreFresh now (s ∷ subs) d =
    ground (arith, listed-due_ids now s.id subs d.1, due_ids-AreFresh now subs d.1)

pub same_id : (s : Subscription) → (bill s).id ≡ s.id
unfolding bill
same_id s = ground arith

-- One round writes the one row, if it is due, and no other.
pub find-bill_one :
    (now base k j : ℕ) (b : Billing)
    → find j (bill_one now base k b).db.subscriptions ≡ (
        if k == j
        then write_if (is_due now) bill (find j b.db.subscriptions)
        else find j b.db.subscriptions)
unfolding bill_one
find-bill_one now base k j b = elim (Option-cases (find k b.db.subscriptions)) [
  | inl e ↦ ground (arith, ap (λ (i : ℕ). find i b.db.subscriptions) {x = k} {y = j})
  | inr (sub, e) ↦ ground (
    arith,
    key-find k b.db.subscriptions sub e,
    find-update sub.id (λ _. true) bill same_id j b.db.subscriptions,
    ap (λ (i : ℕ). find i b.db.subscriptions) {x = k} {y = j},
  )
]

pub find-bill_each :
    (now base j : ℕ) (ids : List ℕ) (b : Billing)
    → AreFresh ids
    → find j (bill_each now base ids b).db.subscriptions ≡ (
        if listed j ids
        then write_if (is_due now) bill (find j b.db.subscriptions)
        else find j b.db.subscriptions)
unfolding bill_each AreFresh
find-bill_each now base j [] b f = refl
find-bill_each now base j (k ∷ ids) b f = ground (
  arith,
  find-bill_each now base j ids (bill_one now base k b) f.1,
  find-bill_one now base k j b,
  ap (λ (i : ℕ). listed i ids) {x = k} {y = j},
)

-- Each row is billed at most once.
pub run_subscription_billing_cycle-find :
    (now base j : ℕ) (db : MembershipDb)
    → Distinct db.subscriptions
    → find j (run_subscription_billing_cycle now base db).db.subscriptions
      ≡ write_if (is_due now) bill (find j db.subscriptions)
unfolding run_subscription_billing_cycle
run_subscription_billing_cycle-find now base j db d = ground (
  arith,
  find-bill_each now base j (due_ids now db.subscriptions)
      (record { db = db; expired = 0; renewed = 0 }) (due_ids-AreFresh now db.subscriptions d),
  listed-due_ids now j db.subscriptions d,
)

-- The row after a run, by its status, its cancellation and its period end.
abbrev pub row_after : ℕ → Subscription → SubscriptionStatus → Option ℕ → Option ℕ → Subscription
row_after now s SubscriptionStatus.active (some cancelled_at) (some period_end) =
    if leb period_end now then record s { status = SubscriptionStatus.expired } else s
row_after now s SubscriptionStatus.active none (some period_end) =
    if leb period_end now
    then record s {
      current_period_end = some (period_end + 2592000);
      next_billing_date = some ((period_end + 2592000) / 86400);
    }
    else s
row_after now s _ _ _ = s

row_after_lem :
    (now : ℕ) (s : Subscription)
    → (if is_due now s then bill s else s)
      ≡ row_after now s s.status s.cancelled_at s.current_period_end
unfolding is_due bill
row_after_lem now s = elim (Option-cases s.current_period_end) [
  | inl p ↦ ground arith
  | inr (period_end, p) ↦ elim (Option-cases s.cancelled_at) [
    | inl c ↦ ground arith
    | inr (t, c) ↦ ground arith
  ]
]

-- From unique keys, a run of the billing worker does this to the row of each key: an active
-- subscription whose period has ended by now expires if it was cancelled, and otherwise its period
-- end moves by one cycle of thirty days, to whose date in UTC the next billing is set; every other
-- row stays.
pub run_subscription_billing_cycle-row :
    (now base j : ℕ) (db : MembershipDb)
    → Distinct db.subscriptions
    → find j (run_subscription_billing_cycle now base db).db.subscriptions
      ≡ elim (find j db.subscriptions) [
        | none ↦ none
        | some s ↦ some (row_after now s s.status s.cancelled_at s.current_period_end)
      ]
run_subscription_billing_cycle-row now base j db d =
    run_subscription_billing_cycle-find now base j db d
    ∙ elim (Option-cases (find j db.subscriptions)) [
      | inl e ↦ rw e refl
      | inr (s, e) ↦ rw e (ap (λ (x : Subscription). some x) (row_after_lem now s))
    ]
