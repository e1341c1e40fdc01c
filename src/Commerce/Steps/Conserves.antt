-- ===== src/Commerce/Steps/Conserves.antt =====
-- Stock conservation over any interleaving of the transactions of server/apps/commerce/api.py.
use assen_platform.Common.{ℕ, ◌==◌, ◌≡◌, ◌∙◌, ◌||◌, true, is_some, if_cases}
use assen_platform.Common.Table.{find, exists, rowcount}
use assen_platform.Errors.{Response}
use assen_platform.Commerce.Model.{Db, Order, RefundRequest, refund_row}
use assen_platform.Commerce.Stock.{tracked}
use assen_platform.Commerce.Refund.{
  refund_transaction, review_transaction, reject_transaction, open_refund_of, refund_is_requested,
  refund_is_open,
}
use assen_platform.Commerce.Conservation.{IsKeyed, Keeps, Keeps-refl, units}
use assen_platform.Commerce.Conservation.Transactions.{
  reserve-Keeps, grant_free-Keeps, pay_order-Keeps, fail_order-Keeps, cancel_transaction-Keeps,
  ship_transaction-Keeps, complete_transaction-Keeps, accept_transaction-Keeps,
}
use assen_platform.Commerce.Steps.{
  Step, reserve, grant, pay, fail, cancel, ship, complete, request, review, accept, reject, notice,
  Reach, here, next,
}

pub Step-Keeps : {db db' : Db} → Step db db' → IsKeyed db → Keeps db db'
unfolding refund_transaction review_transaction reject_transaction
Step-Keeps {db} (reserve stamp account payload product {db'} t e) k =
    reserve-Keeps db k stamp account payload product db' t e
Step-Keeps {db} (grant stamp account payload product {db'} t e) k =
    grant_free-Keeps db k stamp account payload product db' t e
Step-Keeps {db} (pay stamp order ref) k = pay_order-Keeps db k stamp order ref
Step-Keeps {db} (fail now order l) k = fail_order-Keeps db k now order l
Step-Keeps {db} (cancel stamp gateway order seen l) k =
    cancel_transaction-Keeps db k stamp gateway order seen l
Step-Keeps {db} (ship now payload order) k = ship_transaction-Keeps db k now payload order
Step-Keeps {db} (complete now order) k = complete_transaction-Keeps db k now order
Step-Keeps {db} (request stamp payload order) k =
    if_cases (λ (r : Response Order × Db). Keeps db r.1)
      (exists (open_refund_of order.id) db.refunds || is_some (find stamp.id db.refunds)) _ _
      (Keeps-refl db k) (Keeps-refl db k)
Step-Keeps {db} (review actor refund) k =
    if_cases (λ (r : Response RefundRequest × Db). Keeps db r.1)
      (rowcount refund.id refund_is_requested db.refunds == 0) _ _ (Keeps-refl db k)
      (Keeps-refl db k)
Step-Keeps {db} (accept stamp gateway actor refund order seen l) k =
    accept_transaction-Keeps db k stamp gateway actor refund order seen l
Step-Keeps {db} (reject actor refund order reason) k =
    if_cases (λ (r : Response RefundRequest × Db). Keeps db r.1)
      (rowcount refund.id refund_is_open db.refunds == 0) _ _ (Keeps-refl db k) (Keeps-refl db k)
Step-Keeps {db} (notice n) k = Keeps-refl db k

pub Reach-Keeps : {db db' : Db} → Reach db db' → IsKeyed db → Keeps db db'
Reach-Keeps {db} here k = Keeps-refl db k
Reach-Keeps (next r s) k =
    let before = Reach-Keeps r k in
    let after = Step-Keeps s before.keyed in
    record {
      same_units = λ j h. after.same_units j (before.same_tracking j ∙ h) ∙ before.same_units j h;
      same_tracking = λ j. after.same_tracking j ∙ before.same_tracking j;
      keyed = after.keyed;
    }

-- From tables with one row to a key, whatever transactions interleave, the units of a tracked
-- product that are left and those that live orders hold together stay what they were.
pub Reach-units :
    {db db' : Db}
    → Reach db db'
    → IsKeyed db
    → (j : ℕ) → tracked db.products j ≡ true
    → units j db' ≡ units j db
Reach-units r k j h = (Reach-Keeps r k).same_units j h
