-- ===== src/Commerce/Serve.antt =====
-- The requests to server/apps/commerce/api.py that change the shop, and what holds of any list of them.
use assen_platform.Commerce.Steps.{here}
use assen_platform.Commerce.Stock.{tracked}
use assen_platform.Commerce.Conservation.{units}
use assen_platform.Commerce.Steps.Conserves.{Reach-units, Reach-Keeps}
use assen_platform.Common.{◌≡◌, true, ℕ, Option, List, [], ◌∷◌, Text}
use assen_platform.Identity.{Account}
use assen_platform.Payment.{PaymentGateway, Settings}
use assen_platform.Commerce.Model.{Db, product_row, order_row, refund_row}
use assen_platform.Commerce.Load.{Stamp}
use assen_platform.Commerce.Checkout.{CreateOrderIn, create_order, create_free_order}
use assen_platform.Commerce.Lifecycle.{ShipIn, cancel_order, ship_order, complete_order}
use assen_platform.Commerce.Refund.{
  RefundIn, request_refund, ops_review_refund, ops_accept_refund, ops_reject_refund,
}
use assen_platform.Commerce.Conservation.{IsKeyed}
use assen_platform.Commerce.Steps.{review, accept, reject, Reach, Inv}
use assen_platform.Commerce.Steps.Preserves.{Reach-Inv}
use assen_platform.Commerce.Requests.{
  Reach-trans, create_order-Reach, create_free_order-Reach, cancel_order-Reach, ship_order-Reach,
  complete_order-Reach, request_refund-Reach, guarded-Reach, one_step,
}
use assen_platform.Commerce.Loaded.{found-IsLoaded}

-- One request, with what it carries and, where it has one, the gateway at its time.
pub data Request : Type 0 where
  checkout : Stamp → Settings → Option PaymentGateway → Account → CreateOrderIn → Request
  free_checkout : Stamp → Settings → Account → CreateOrderIn → Request
  withdraw : Stamp → Option PaymentGateway → Account → ℕ → Request
  dispatch : ℕ → Account → ℕ → ShipIn → Request
  finish : ℕ → Account → ℕ → Request
  ask_refund : Stamp → Account → ℕ → RefundIn → Request
  review_refund : Account → ℕ → Request
  accept_refund : Stamp → Option PaymentGateway → Account → ℕ → Request
  reject_refund : Account → ℕ → Text → Request

-- The state after a request that no other request interrupts.
unfoldable pub serve : Request → Db → Db
serve (Request.checkout stamp settings gateway account payload) db =
    (create_order stamp settings gateway account payload db).1
serve (Request.free_checkout stamp settings account payload) db =
    (create_free_order stamp settings account payload db).1
serve (Request.withdraw stamp gateway account order_id) db =
    (cancel_order stamp gateway account order_id db).1
serve (Request.dispatch now account order_id payload) db =
    (ship_order now account order_id payload db).1
serve (Request.finish now account order_id) db = (complete_order now account order_id db).1
serve (Request.ask_refund stamp account order_id payload) db =
    (request_refund stamp account order_id payload db).1
serve (Request.review_refund actor refund_id) db = (ops_review_refund actor refund_id db).1
serve (Request.accept_refund stamp gateway actor refund_id) db =
    (ops_accept_refund stamp gateway actor refund_id db).1
serve (Request.reject_refund actor refund_id reason) db =
    (ops_reject_refund actor refund_id reason db).1

-- From tables with one row to a key, each handler, run whole, changes the shop only by
-- transactions of the step relation, whose conditions on loaded rows it meets.
pub serve-Reach : (r : Request) (db : Db) → IsKeyed db → Reach db (serve r db)
unfolding serve ops_review_refund ops_accept_refund ops_reject_refund
serve-Reach (Request.checkout stamp settings gateway account payload) db k =
    create_order-Reach stamp settings gateway account payload db k
serve-Reach (Request.free_checkout stamp settings account payload) db k =
    create_free_order-Reach stamp settings account payload db k
serve-Reach (Request.withdraw stamp gateway account order_id) db k =
    cancel_order-Reach stamp gateway account order_id db k
serve-Reach (Request.dispatch now account order_id payload) db k =
    ship_order-Reach now account order_id payload db
serve-Reach (Request.finish now account order_id) db k =
    complete_order-Reach now account order_id db
serve-Reach (Request.ask_refund stamp account order_id payload) db k =
    request_refund-Reach stamp account order_id payload db
serve-Reach (Request.review_refund actor refund_id) db k =
    guarded-Reach actor _ refund_id db (λ refund order e. one_step (review actor refund))
serve-Reach (Request.accept_refund stamp gateway actor refund_id) db k =
    guarded-Reach actor _ refund_id db (λ refund order e. one_step (
      accept stamp gateway actor refund order db.products (found-IsLoaded db refund.order order e)))
serve-Reach (Request.reject_refund actor refund_id reason) db k =
    guarded-Reach actor _ refund_id db
      (λ refund order e. one_step (reject actor refund order reason))

unfoldable pub serve_all : List Request → Db → Db
serve_all [] db = db
serve_all (r ∷ requests) db = serve_all requests (serve r db)

serve_all-Reach :
    (requests : List Request) (db : Db) → IsKeyed db → Reach db (serve_all requests db)
unfolding serve_all
serve_all-Reach [] db k = here
serve_all-Reach (r ∷ requests) db k =
    let first_one = serve-Reach r db k in
    Reach-trans first_one (serve_all-Reach requests _ (Reach-Keeps first_one k).keyed)

-- From a shop that satisfies the invariant, whole requests in any order keep it.
serve_all-Inv : (requests : List Request) (db : Db) → Inv db → Inv (serve_all requests db)
serve_all-Inv requests db v = Reach-Inv (serve_all-Reach requests db v.keyed) v

-- From tables with one row to a key, whole requests in any order keep the units of a tracked
-- product, left or in a live order, together what they were.
pub serve_all-units :
    (requests : List Request) (db : Db)
    → IsKeyed db
    → (j : ℕ) → tracked db.products j ≡ true
    → units j (serve_all requests db) ≡ units j db
serve_all-units requests db k j h = Reach-units (serve_all-Reach requests db k) k j h
