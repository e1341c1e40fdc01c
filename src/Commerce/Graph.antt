-- ===== src/Commerce/Graph.antt =====
-- The life of an order under the transactions of server/apps/commerce/api.py.
use assen_platform.Common.{
  ℕ, ◌==◌, ◌≡◌, refl, ap, ◌∙◌, ◌⊎◌, inl, inr, Bool, true, false, ◌||◌, ◌&&◌, none, some, List, ◌∷◌,
  arith, is_some, Bool-cases, if_cases,
}
use assen_platform.Common.Table.{find, update, rowcount, find-update, exists}
use assen_platform.Errors.{Response}
use assen_platform.Commerce.Model.{
  Order, OrderStatus, RefundRequest, Db, is_pending, is_paid, is_cancellable, is_refundable,
  order_row, refund_row,
}
use assen_platform.Commerce.Checkout.{
  pending_order, free_order, fail_order, pay_order, mark_failed, mark_paid, order_is_pending,
}
use assen_platform.Commerce.Reversal.{reverse_settled_order}
use assen_platform.Commerce.Lifecycle.{
  cancel_transaction, ship_transaction, complete_transaction, order_is_cancellable, mark_cancelled,
  order_is_paid, mark_shipped, order_is_completable, in_from_states, has_goods, mark_completed,
}
use assen_platform.Commerce.Refund.{
  refund_transaction, review_transaction, accept_transaction, reject_transaction, open_refund_of,
  refund_is_requested, refund_is_open, cancel_refunded, order_is_refundable,
}
use assen_platform.Commerce.Conservation.Transactions.{insert_order-pass, grant_free-pass}
use assen_platform.Commerce.Steps.{
  Step, reserve, grant, pay, fail, cancel, ship, complete, request, review, accept, reject, notice,
  Reach, here, next,
}

infix 40 ◌⟶◌
pub data ◌⟶◌ : OrderStatus → OrderStatus → Type 0 where
  settle : OrderStatus.pending ⟶ OrderStatus.paid
  decline : OrderStatus.pending ⟶ OrderStatus.failed
  dispatch : OrderStatus.paid ⟶ OrderStatus.shipping
  deliver : OrderStatus.paid ⟶ OrderStatus.completed
  arrive : OrderStatus.shipping ⟶ OrderStatus.completed
  withdraw : OrderStatus.paid ⟶ OrderStatus.cancelled
  recall : OrderStatus.shipping ⟶ OrderStatus.cancelled
  refund : OrderStatus.completed ⟶ OrderStatus.cancelled

-- What one transaction does to a row of the order table: nothing, or one edge of the diagram, and
-- the buyer, the amounts and the lines stay.
pub record Advances (o o' : Order) : Type 0 where
  pub edge : (o'.status ≡ o.status) ⊎ (o.status ⟶ o'.status)
  pub same_buyer : o'.buyer ≡ o.buyer
  pub same_total : o'.total ≡ o.total
  pub same_items : o'.items ≡ o.items

pub Kept : ℕ → List Order → List Order → Type 0
Kept i os os' =
    (o : Order) → find i os ≡ some o → (o' : Order) × (find i os' ≡ some o') × Advances o o'

Kept-refl : (i : ℕ) (os : List Order) → Kept i os os
unfolding Kept
Kept-refl i os o e =
    (o, e, record { edge = inl refl; same_buyer = refl; same_total = refl; same_items = refl })

update-Kept :
    (i k : ℕ) (p : Order → Bool) (f : Order → Order) (os : List Order)
    → ((o : Order) → (f o).id ≡ o.id)
    → ((o : Order) → p o ≡ true → Advances o (f o))
    → Kept i os (update k p f os)
unfolding Kept
update-Kept i k p f os ids moves o e = elim (Bool-cases ((k == i) && p o)) [
  | inl hit ↦ (f o, ground (arith, find-update k p f ids i os), moves o (ground arith))
  | inr miss ↦ (
    o,
    ground (arith, find-update k p f ids i os),
    record { edge = inl refl; same_buyer = refl; same_total = refl; same_items = refl },
  )
]

insert-Kept : (i : ℕ) (n : Order) (os : List Order) → find n.id os ≡ none → Kept i os (n ∷ os)
unfolding Kept find
insert-Kept i n os new o e = (
  o,
  ground (arith, ap (λ (k : ℕ). find k os) {x = n.id} {y = i}),
  record { edge = inl refl; same_buyer = refl; same_total = refl; same_items = refl },
)

settle_edge : (s : OrderStatus) → is_pending s ≡ true → s ⟶ OrderStatus.paid
settle_edge OrderStatus.pending e = settle
settle_edge _ e = cc

decline_edge : (s : OrderStatus) → is_pending s ≡ true → s ⟶ OrderStatus.failed
decline_edge OrderStatus.pending e = decline
decline_edge _ e = cc

dispatch_edge : (s : OrderStatus) → is_paid s ≡ true → s ⟶ OrderStatus.shipping
dispatch_edge OrderStatus.paid e = dispatch
dispatch_edge _ e = cc

cancel_edge : (s : OrderStatus) → is_cancellable s ≡ true → s ⟶ OrderStatus.cancelled
cancel_edge OrderStatus.paid e = withdraw
cancel_edge OrderStatus.shipping e = recall
cancel_edge _ e = cc

refund_edge : (s : OrderStatus) → is_refundable s ≡ true → s ⟶ OrderStatus.cancelled
refund_edge OrderStatus.shipping e = recall
refund_edge OrderStatus.completed e = refund
refund_edge _ e = cc

complete_edge :
    (goods : Bool) (s : OrderStatus) → in_from_states goods s ≡ true → s ⟶ OrderStatus.completed
complete_edge goods OrderStatus.shipping e = arrive
complete_edge goods OrderStatus.paid e = deliver
complete_edge goods _ e = cc

-- A write that only moves the status along an edge.
along :
    (o o' : Order)
    → o.status ⟶ o'.status
    → o'.buyer ≡ o.buyer
    → o'.total ≡ o.total
    → o'.items ≡ o.items
    → Advances o o'
along o o' e b t l = record { edge = inr e; same_buyer = b; same_total = t; same_items = l }

-- A transaction moves an order along at most one edge of the diagram, and never changes its buyer,
-- its total or its lines; no order row vanishes.
pub Step-Kept : {db db' : Db} → Step db db' → (i : ℕ) → Kept i db.orders db'.orders
unfolding pay_order fail_order cancel_transaction ship_transaction complete_transaction
    refund_transaction review_transaction reject_transaction accept_transaction cancel_refunded
    reverse_settled_order pending_order free_order
Step-Kept {db} (reserve stamp account payload product {db'} t e) i =
    let order = pending_order stamp account payload product in
    let (products, reserved, new, same) =
      insert_order-pass account payload product order db db' e in
    rw same (insert-Kept i order db.orders new)
Step-Kept {db} (grant stamp account payload product {db'} t e) i =
    let order = free_order stamp account payload product in
    let (inserted, e₁, same) = grant_free-pass stamp account payload product db db' e in
    let (products, reserved, new, same₁) =
      insert_order-pass account payload product order db inserted e₁ in
    rw (same, same₁) (insert-Kept i order db.orders new)
Step-Kept {db} (pay stamp order ref) i =
    if_cases (λ (r : Db). Kept i db.orders r.orders)
      (rowcount order.id order_is_pending db.orders == 0) _ _ (Kept-refl i db.orders)
      (update-Kept i order.id order_is_pending (mark_paid stamp.now ref) db.orders (λ o. refl)
        (λ o e. along o _ (settle_edge o.status e) refl refl refl))
Step-Kept {db} (fail now order l) i =
    if_cases (λ (r : Db). Kept i db.orders r.orders)
      (rowcount order.id order_is_pending db.orders == 0) _ _ (Kept-refl i db.orders)
      (update-Kept i order.id order_is_pending (mark_failed now) db.orders (λ o. refl)
        (λ o e. along o _ (decline_edge o.status e) refl refl refl))
Step-Kept {db} (cancel stamp gateway order seen l) i =
    if_cases (λ (r : Response Order × Db). Kept i db.orders r.1.orders)
      (rowcount order.id order_is_cancellable db.orders == 0) _ _ (Kept-refl i db.orders)
      (update-Kept i order.id order_is_cancellable mark_cancelled db.orders (λ o. refl)
        (λ o e. along o _ (cancel_edge o.status e) refl refl refl))
Step-Kept {db} (ship now payload order) i =
    if_cases (λ (r : Response Order × Db). Kept i db.orders r.1.orders)
      (rowcount order.id order_is_paid db.orders == 0) _ _ (Kept-refl i db.orders)
      (update-Kept i order.id order_is_paid (mark_shipped now payload) db.orders (λ o. refl)
        (λ o e. along o _ (dispatch_edge o.status e) refl refl refl))
Step-Kept {db} (complete now order) i =
    if_cases (λ (r : Response Order × Db). Kept i db.orders r.1.orders)
      (rowcount order.id (order_is_completable (has_goods order)) db.orders == 0) _ _
      (Kept-refl i db.orders)
      (update-Kept i order.id (order_is_completable (has_goods order)) (mark_completed now)
        db.orders (λ o. refl)
        (λ o e. along o _ (complete_edge (has_goods order) o.status e) refl refl refl))
Step-Kept {db} (request stamp payload order) i =
    if_cases (λ (r : Response Order × Db). Kept i db.orders r.1.orders)
      (exists (open_refund_of order.id) db.refunds || is_some (find stamp.id db.refunds)) _ _
      (Kept-refl i db.orders) (Kept-refl i db.orders)
Step-Kept {db} (review actor r) i =
    if_cases (λ (r : Response RefundRequest × Db). Kept i db.orders r.1.orders)
      (rowcount r.id refund_is_requested db.refunds == 0) _ _ (Kept-refl i db.orders)
      (Kept-refl i db.orders)
Step-Kept {db} (accept stamp gateway actor r order seen l) i =
    if_cases (λ (r : Response RefundRequest × Db). Kept i db.orders r.1.orders)
      (rowcount r.id refund_is_open db.refunds == 0) _ _ (Kept-refl i db.orders)
      (if_cases (λ (r : Db). Kept i db.orders r.orders)
        (rowcount order.id order_is_refundable db.orders == 0) _ _ (Kept-refl i db.orders)
        (update-Kept i order.id order_is_refundable mark_cancelled db.orders (λ o. refl)
          (λ o e. along o _ (refund_edge o.status e) refl refl refl)))
Step-Kept {db} (reject actor r order reason) i =
    if_cases (λ (r : Response RefundRequest × Db). Kept i db.orders r.1.orders)
      (rowcount r.id refund_is_open db.refunds == 0) _ _ (Kept-refl i db.orders)
      (Kept-refl i db.orders)
Step-Kept {db} (notice n) i = Kept-refl i db.orders

-- `cancelled` and `failed` have no way out.
abbrev pub is_terminal : OrderStatus → Bool
is_terminal OrderStatus.cancelled = true
is_terminal OrderStatus.failed = true
is_terminal _ = false

no_way_out : {s t : OrderStatus} → s ⟶ t → is_terminal s ≡ false
no_way_out settle = refl
no_way_out decline = refl
no_way_out dispatch = refl
no_way_out deliver = refl
no_way_out arrive = refl
no_way_out withdraw = refl
no_way_out recall = refl
no_way_out refund = refl

terminal_stays :
    (s : OrderStatus) {o₁ o₂ : Order}
    → Advances o₁ o₂
    → o₁.status ≡ s
    → is_terminal s ≡ true
    → o₂.status ≡ s
terminal_stays s a e h = elim a.edge [
  | inl same ↦ same ∙ e
  | inr move ↦ cc (no_way_out move, ap is_terminal e, h)
]

-- Whatever transactions interleave, an order stays in the table, with its buyer, its total and its
-- lines.
pub Reach-order :
    {db db' : Db}
    → Reach db db'
    → (i : ℕ) (o : Order) → find i db.orders ≡ some o
    → (o' : Order) × (find i db'.orders ≡ some o')
      × (o'.buyer ≡ o.buyer)
      × (o'.total ≡ o.total)
      × (o'.items ≡ o.items)
unfolding Kept
Reach-order here i o e = (o, e, refl, refl, refl)
Reach-order (next r s) i o e =
    let (o₁, e₁, b, t, l) = Reach-order r i o e in
    let (o₂, e₂, a) = Step-Kept s i o₁ e₁ in
    (o₂, e₂, a.same_buyer ∙ b, a.same_total ∙ t, a.same_items ∙ l)

-- Whatever transactions interleave, an order that is cancelled or failed is in that state ever
-- after.
pub Reach-terminal :
    {db db' : Db}
    → Reach db db'
    → (i : ℕ) (o : Order) → find i db.orders ≡ some o
    → is_terminal o.status ≡ true
    → (o' : Order) × (find i db'.orders ≡ some o') × (o'.status ≡ o.status)
unfolding Kept
Reach-terminal here i o e h = (o, e, refl)
Reach-terminal (next r s) i o e h =
    let (o₁, e₁, same) = Reach-terminal r i o e h in
    let (o₂, e₂, a) = Step-Kept s i o₁ e₁ in (o₂, e₂, terminal_stays o.status a same h)
