-- ===== src/Commerce/Refund.antt =====
-- Refunds, of server/apps/commerce/api.py: `request_refund` by the fan, and the operator's
-- `ops_review_refund`, `ops_accept_refund` and `ops_reject_refund`. Each transaction takes the rows
-- that its handler loaded.
use assen_platform.Common.{
  ℕ, ◌==◌, Bool, ◌&&◌, ◌||◌, is_some, Option, none, some, List, [], ◌∷◌, Text, if◌then◌else◌,
}
use assen_platform.Common.Table.{find, update, rowcount, exists}
use assen_platform.Errors.{ErrorCode, Response, answer, refuse, crash, unauthorized}
use assen_platform.Identity.{Account, is_operator}
use assen_platform.Payment.{PaymentGateway}
use assen_platform.Payment.Ledger.{ReversalReason}
use assen_platform.Commerce.Model.{
  Product, Order, RefundRequest, RefundStatus, Notice, AuditAction, Db, order_row, refund_row,
  is_refundable, is_open_refund, is_requested,
}
use assen_platform.Commerce.Load.{Stamp, load_order, load_refund}
use assen_platform.Commerce.Stock.{restock_order_lines}
use assen_platform.Commerce.Reversal.{reverse_settled_order}
use assen_platform.Commerce.Lifecycle.{mark_cancelled}

pub record RefundIn : Type 0 where
  pub reason : Text
  pub detail : Text

-- An open request of the order.
abbrev pub open_refund_of : ℕ → RefundRequest → Bool
open_refund_of order r = (r.order == order) && is_open_refund r.status

-- The answer of `request_refund` with the order as it is loaded again, which the code asserts is there.
abbrev reloaded : Option Order → Response Order
reloaded none = crash
reloaded (some refreshed) = answer 200 refreshed

-- The transaction of `request_refund`. An insert that the constraint `uniq_open_refund_per_order`
-- or the primary key stops gives the same answer as the look-up.
unfoldable pub refund_transaction : Stamp → RefundIn → Order → Db → Response Order × Db
refund_transaction stamp payload order db =
    if exists (open_refund_of order.id) db.refunds || is_some (find stamp.id db.refunds)
    then (refuse 422 ErrorCode.open_refund_exists, db)
    else (
      reloaded (find order.id db.orders),
      record db {
        refunds =
            record {
              id = stamp.id;
              order = order.id;
              reason = payload.reason;
              detail = payload.detail;
              status = RefundStatus.requested;
              created_at = stamp.now;
            }
            ∷ db.refunds;
      },
    )

abbrev refund_loaded : Stamp → RefundIn → Option Order → Db → Response Order × Db
refund_loaded stamp payload none db = (refuse 404 ErrorCode.order_not_found, db)
refund_loaded stamp payload (some order) db =
    if is_refundable order.status
    then refund_transaction stamp payload order db
    else (refuse 422 ErrorCode.order_not_refundable, db)

unfoldable pub request_refund : Stamp → Account → ℕ → RefundIn → Db → Response Order × Db
request_refund stamp account order_id payload db =
    refund_loaded stamp payload (load_order order_id account db) db

abbrev pub set_refund : RefundStatus → RefundRequest → RefundRequest
set_refund status r = record r { status = status }

abbrev pub refund_is_requested : RefundRequest → Bool
refund_is_requested r = is_requested r.status

abbrev pub refund_is_open : RefundRequest → Bool
refund_is_open r = is_open_refund r.status

-- `record_audit`
abbrev audit : Account → AuditAction → RefundRequest → Text → Db → Db
audit actor action refund reason db = record db {
  audits =
      record { actor = actor.id; action = action; target = refund.id; reason = reason } ∷ db.audits;
}

unfoldable pub review_transaction : Account → RefundRequest → Db → Response RefundRequest × Db
review_transaction actor refund db =
    let transitioned = rowcount refund.id refund_is_requested db.refunds in
    if transitioned == 0 then (refuse 422 ErrorCode.refund_not_transitionable, db) else (
      answer 200 (set_refund RefundStatus.reviewing refund),
      audit actor AuditAction.refund_reviewed refund [] (record db {
        refunds =
            update refund.id refund_is_requested (set_refund RefundStatus.reviewing) db.refunds;
      }),
    )

abbrev pub order_is_refundable : Order → Bool
order_is_refundable o = is_refundable o.status

-- The order's part of an accept: cancel, restock and reverse, if this request wins the UPDATE.
unfoldable pub cancel_refunded : Stamp → Option PaymentGateway → Order → List Product → Db → Db
cancel_refunded stamp gateway order seen db =
    let order_cancelled = rowcount order.id order_is_refundable db.orders in
    if order_cancelled == 0
    then db
    else reverse_settled_order stamp gateway order ReversalReason.refund_accepted (record db {
      orders = update order.id order_is_refundable mark_cancelled db.orders;
      products = restock_order_lines seen order.items db.products;
    })

-- The transaction of `ops_accept_refund`, and the notice that follows it.
unfoldable pub accept_transaction :
    Stamp
    → Option PaymentGateway
    → Account
    → RefundRequest
    → Order
    → List Product
    → Db
    → Response RefundRequest × Db
unfolding cancel_refunded
accept_transaction stamp gateway actor refund order seen db =
    let transitioned = rowcount refund.id refund_is_open db.refunds in
    if transitioned == 0
    then (refuse 422 ErrorCode.refund_not_transitionable, db)
    else let accepted = record db {
      refunds = update refund.id refund_is_open (set_refund RefundStatus.accepted) db.refunds;
    } in
      let done =
        audit actor AuditAction.refund_accepted refund []
          (cancel_refunded stamp gateway order seen accepted) in
      (
        answer 200 (set_refund RefundStatus.accepted refund),
        record done { notices = Notice.refund_accepted order.buyer order.id ∷ done.notices },
      )

-- The transaction of `ops_reject_refund`, and the notice that follows it.
unfoldable pub reject_transaction :
    Account → RefundRequest → Order → Text → Db → Response RefundRequest × Db
reject_transaction actor refund order reason db =
    let transitioned = rowcount refund.id refund_is_open db.refunds in
    if transitioned == 0
    then (refuse 422 ErrorCode.refund_not_transitionable, db)
    else let rejected = record db {
      refunds = update refund.id refund_is_open (set_refund RefundStatus.rejected) db.refunds;
    } in
      let done = audit actor AuditAction.refund_rejected refund reason rejected in
      (
        answer 200 (set_refund RefundStatus.rejected refund),
        record done { notices = Notice.refund_rejected order.buyer order.id ∷ done.notices },
      )

-- The refund and its order, as `_load_refund` brings them; the order is never null.
abbrev pub with_order :
    (RefundRequest → Order → Response RefundRequest × Db)
    → Db
    → Option RefundRequest
    → Response RefundRequest × Db
with_order run db none = (refuse 404 ErrorCode.refund_not_found, db)
with_order run db (some refund) = elim (find refund.order db.orders) [
  | none ↦ (crash, db)
  | some order ↦ run refund order
]

-- The route's auth class `operator_required`.
abbrev pub guarded : Account → Db → Response RefundRequest × Db → Response RefundRequest × Db
guarded actor db r = if is_operator actor then r else (unauthorized, db)

unfoldable pub ops_review_refund : Account → ℕ → Db → Response RefundRequest × Db
ops_review_refund actor refund_id db =
    guarded actor db (
      with_order (λ refund order. review_transaction actor refund db) db (load_refund refund_id db))

unfoldable pub ops_accept_refund :
    Stamp → Option PaymentGateway → Account → ℕ → Db → Response RefundRequest × Db
ops_accept_refund stamp gateway actor refund_id db = guarded actor db (
    with_order (λ refund order. accept_transaction stamp gateway actor refund order db.products db)
      db (load_refund refund_id db))

unfoldable pub ops_reject_refund : Account → ℕ → Text → Db → Response RefundRequest × Db
ops_reject_refund actor refund_id reason db = guarded actor db (
    with_order (λ refund order. reject_transaction actor refund order reason db) db
      (load_refund refund_id db))
