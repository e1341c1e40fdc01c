-- ===== src/Commerce/Settlement.antt =====
-- The ledgers against the orders, for the transactions of server/apps/commerce/api.py: how often an
-- order has been settled, and how often a settlement has been reversed.
use assen_platform.Common.{
  ℕ, ◌≤◌, ◌≡◌, ap, ◌≢◌, Bool, true, false, ◌&&◌, Option, none, some, List, ◌∷◌, arith,
  if◌then◌else◌, Option-cases, inl, inr,
}
use assen_platform.Common.Table.{
  find, update, rowcount, Distinct, count, first, rowcount_hit, find-update, count_of_not-exists,
}
use assen_platform.Payment.{PaymentGateway}
use assen_platform.Payment.Ledger.{
  PaymentAttempt, PaymentReversal, ReversalReason, targets_order, attempt_succeeded, reverses,
  record_mock_reversal, Target,
}
use assen_platform.Commerce.Model.{Order, OrderStatus, Db, order_row}
use assen_platform.Commerce.Load.{Stamp}
use assen_platform.Commerce.Checkout.{order_is_pending}
use assen_platform.Commerce.Reversal.{reverse_settled_order, captures}

-- A succeeded attempt for the order, by any provider.
abbrev pub settles : ℕ → PaymentAttempt → Bool
settles order a = targets_order order a.target && attempt_succeeded a.status

-- The states that an order reaches only through a settlement.
abbrev pub is_settled : OrderStatus → Bool
is_settled OrderStatus.pending = false
is_settled OrderStatus.failed = false
is_settled _ = true

abbrev pub settlements_due : Option Order → ℕ
settlements_due none = 0
settlements_due (some o) = if is_settled o.status then 1 else 0

-- Each order that has been paid has exactly one succeeded attempt, and any other has none.
abbrev pub AreSettledOnce : List Order → List PaymentAttempt → Type 0
AreSettledOnce orders attempts =
    (i : ℕ) → count (settles i) attempts ≡ settlements_due (find i orders)

-- No attempt has two succeeded reversals.
abbrev pub AreReversedOnce : List PaymentReversal → Type 0
AreReversedOnce reversals = (a : ℕ) → count (reverses a) reversals ≤ 1

module _ (os : List Order) (attempts : List PaymentAttempt) where
  -- A guarded write that moves between states on one side of the settlement.
  pub move-AreSettledOnce :
      (i : ℕ) (p : Order → Bool) (f : Order → Order)
      → ((o : Order) → p o ≡ true → is_settled (f o).status ≡ is_settled o.status)
      → ((o : Order) → (f o).id ≡ o.id)
      → AreSettledOnce os attempts
      → AreSettledOnce (update i p f os) attempts
  move-AreSettledOnce i p f same ids h j = elim (Option-cases (find j os)) [
    | inl e ↦ ground (arith, find-update i p f ids j os, h j)
    | inr (o, e) ↦ ground (arith, find-update i p f ids j os, h j, same o)
  ]

  -- A new row that is not settled, under a new id.
  pub insert-AreSettledOnce :
      (o : Order)
      → find o.id os ≡ none
      → is_settled o.status ≡ false
      → AreSettledOnce os attempts
      → AreSettledOnce (o ∷ os) attempts
  unfolding find
  insert-AreSettledOnce o new s h j =
      ground (arith, h j, ap (λ (i : ℕ). find i os) {x = o.id} {y = j})

  -- A new row that is settled, under a new id, with its attempt.
  pub insert_settled-AreSettledOnce :
      (o : Order) (a : PaymentAttempt)
      → find o.id os ≡ none
      → is_settled o.status ≡ true
      → a.target ≡ Target.order o.id
      → attempt_succeeded a.status ≡ true
      → AreSettledOnce os attempts
      → AreSettledOnce (o ∷ os) (a ∷ attempts)
  unfolding find
  insert_settled-AreSettledOnce o a new s t e h j =
      ground (arith, h j, ap (λ (i : ℕ). find i os) {x = o.id} {y = j})

  -- The winner of PENDING→PAID ledgers the one settlement.
  pub pay-AreSettledOnce :
      (i : ℕ) (f : Order → Order) (a : PaymentAttempt)
      → Distinct os
      → rowcount i order_is_pending os ≢ 0
      → ((o : Order) → is_settled (f o).status ≡ true)
      → ((o : Order) → (f o).id ≡ o.id)
      → a.target ≡ Target.order i
      → attempt_succeeded a.status ≡ true
      → AreSettledOnce os attempts
      → AreSettledOnce (update i order_is_pending f os) (a ∷ attempts)
  pay-AreSettledOnce i f a d hit paid ids t e h j =
      let (o, found, pending) = rowcount_hit i order_is_pending os d hit in
      ground (
        arith,
        h j,
        paid o,
        find-update i order_is_pending f ids j os,
        ap (λ (k : ℕ). find k os) {x = i} {y = j},
      )

pub reverse-AreReversedOnce :
    (stamp : Stamp) (gateway : Option PaymentGateway) (order : Order) (reason : ReversalReason)
    (db : Db)
    → AreReversedOnce db.reversals
    → AreReversedOnce (reverse_settled_order stamp gateway order reason db).reversals
unfolding reverse_settled_order record_mock_reversal
reverse-AreReversedOnce stamp gateway order reason db h a =
    elim (Option-cases (first (captures order.id) db.attempts)) [
      | inl e ↦ rw e (h a)
      | inr (attempt, e) ↦ rw e (
          ground (
            arith,
            h a,
            count_of_not-exists (reverses attempt.id) db.reversals,
            ap (λ (k : ℕ). count (reverses k) db.reversals) {x = attempt.id} {y = a},
          ))
    ]
