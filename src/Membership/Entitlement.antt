-- ===== src/Membership/Entitlement.antt =====
-- `active_subscription` of server/apps/membership/services.py after the operations of
-- server/apps/membership/api.py.
use mathlib.Core.Path.{subst}
use assen_platform.Common.{
  ℕ, ◌==◌, ◌≡◌, refl, ap, ltb, true, ◌&&◌, ◌∙◌, Option, none, some, List, [], ◌∷◌, if◌then◌else◌,
  Option-cases, inl, inr, arith,
}
use assen_platform.Common.Table.{find, update, first, first-find, find-update, first-only}
use assen_platform.Errors.{answer}
use assen_platform.Identity.{Account}
use assen_platform.Membership.Model.{
  Subscription, is_active, is_entitled, active_subscription, subscription_row,
}
use assen_platform.Membership.Subscribe.{
  MembershipDb, active_pair, load_subscription, cancel_loaded, cancel_subscription, schedule_cancel,
}
use assen_platform.Membership.Exclusive.{AreExclusive, cancel_loaded-AreExclusive}

-- A row that may entitle gives itself if it does.
active_subscription-only :
    (now fan creator i : ℕ) (subs : List Subscription) (s : Subscription)
    → AreExclusive subs
    → find i subs ≡ some s
    → active_pair fan creator s ≡ true
    → active_subscription now fan (some creator) subs
      ≡ (if is_entitled now fan creator s then some s else none)
unfolding active_subscription is_entitled
active_subscription-only now fan creator i subs s v e a =
    first-only (is_entitled now fan creator) (active_pair fan creator) i subs s
      (λ y h. ground arith) (v.one fan creator) e a

-- What an active subscription is worth at an instant, by its cancellation and its period end.
abbrev pub graced_row : ℕ → Subscription → Option ℕ → Option ℕ → Option Subscription
graced_row now s none period_end = some s
graced_row now s (some cancelled_at) none = some s
graced_row now s (some cancelled_at) (some period_end) = if ltb now period_end then some s else none

graced_row_lem :
    (now fan creator : ℕ) (s : Subscription)
    → active_pair fan creator s ≡ true
    → (if is_entitled now fan creator s then some s else none)
      ≡ graced_row now s s.cancelled_at s.current_period_end
unfolding is_entitled
graced_row_lem now fan creator s h = elim (Option-cases s.cancelled_at) [
  | inl e ↦ ground arith
  | inr (t, e) ↦ elim (Option-cases s.current_period_end) [
    | inl p ↦ ground arith
    | inr (period_end, p) ↦ ground arith
  ]
]

none_entitled :
    (now fan creator : ℕ) (subs : List Subscription)
    → first (active_pair fan creator) subs ≡ none
    → active_subscription now fan (some creator) subs ≡ none
unfolding active_subscription is_entitled
none_entitled now fan creator [] h = refl
none_entitled now fan creator (s ∷ subs) h = ground (arith, none_entitled now fan creator subs)

-- From exclusive rows, `active_subscription` of a fan and a creator is the fan's active
-- subscription to that creator, if it is not cancelled, or has no period end, or its period ends
-- after now; and nothing if that is not so, or the fan has no active subscription to the creator.
pub active_subscription-first :
    (now fan creator : ℕ) (subs : List Subscription)
    → AreExclusive subs
    → active_subscription now fan (some creator) subs
      ≡ elim (first (active_pair fan creator) subs) [
        | none ↦ none
        | some s ↦ graced_row now s s.cancelled_at s.current_period_end
      ]
active_subscription-first now fan creator subs v =
    elim (Option-cases (first (active_pair fan creator) subs)) [
      | inl e ↦ rw e (none_entitled now fan creator subs e)
      | inr (s, e) ↦
          let (found, mine) = first-find (active_pair fan creator) subs s v.ids e in
          rw e (
            active_subscription-only now fan creator s.id subs s v found mine
            ∙ graced_row_lem now fan creator s mine)
    ]

cancel_loaded-written :
    (now : ℕ) (sub s : Subscription) (db : MembershipDb)
    → (cancel_loaded now (some sub) db).0 ≡ answer 200 s
    → (is_active sub.status ≡ true)
      × (s ≡ schedule_cancel now sub)
      × ((cancel_loaded now (some sub) db).1.subscriptions
          ≡ update sub.id (λ _. true) (schedule_cancel now) db.subscriptions)
cancel_loaded-written now sub s db h = (ground arith, ground arith, ground arith)

graced :
    (later : ℕ) (account : Account) (creator period_end i : ℕ) (subs : List Subscription)
    (s : Subscription) {now : ℕ}
    → AreExclusive subs
    → find i subs ≡ some s
    → active_pair account.id creator s ≡ true
    → s.cancelled_at ≡ some now
    → s.current_period_end ≡ some period_end
    → active_subscription later account.id (some creator) subs
      ≡ (if ltb later period_end then some s else none)
unfolding is_entitled
graced later account creator period_end i subs s v e a n p =
    ground (arith, active_subscription-only later account.id creator i subs s v e a)

-- From exclusive rows, if `cancel_subscription` answers 200 for a subscription to a creator with a
-- period end, then the fan is entitled to that creator before that end, and not from then on.
pub cancel_subscription-grace :
    (now : ℕ) (account : Account) (subscription_id creator period_end : ℕ) (db : MembershipDb)
    (s : Subscription)
    → AreExclusive db.subscriptions
    → (cancel_subscription now account subscription_id db).0 ≡ answer 200 s
    → s.creator ≡ some creator
    → s.current_period_end ≡ some period_end
    → (later : ℕ)
    → active_subscription later account.id
        (some creator)
        (cancel_subscription now account subscription_id db).1.subscriptions
      ≡ (if ltb later period_end then some s else none)
unfolding cancel_subscription load_subscription
cancel_subscription-grace now account subscription_id creator period_end db s v h c p later =
    elim (Option-cases (load_subscription subscription_id account db)) [
      | inl e ↦ ground arith
      | inr (sub, e) ↦
          let (found, mine) =
            first-find (λ x. (x.id == subscription_id) && (x.fan == account.id)) db.subscriptions
              sub v.ids e in
          let answered : (cancel_loaded now (some sub) db).0 ≡ answer 200 s =
            subst (λ (x : Option Subscription). (cancel_loaded now x db).0 ≡ answer 200 s) e h in
          let (live, same, run) = cancel_loaded-written now sub s db answered in
          let written =
            find-update sub.id (λ _. true) (schedule_cancel now) (λ x. refl) sub.id
              db.subscriptions in
          rw (e, cancel_subscription)
            (graced later account creator period_end sub.id
              (cancel_loaded now (some sub) db).1.subscriptions s
              (cancel_loaded-AreExclusive now (some sub) db v)
              (rw run (ground (arith, written, found, same))) (ground (arith, same, mine, live, c))
              (ap (λ (x : Subscription). x.cancelled_at) same) p)
    ]
