-- ===== src/Commerce/Orders.antt =====
-- `create_order` of server/apps/commerce/api.py, by its answer: what a declined capture and a paid
-- order mean for the shelf and the ledger, and what a request that is sent again meets.
use assen_platform.Common.{
  text_eq_iff, ℕ, ◌+◌, ◌*◌, ◌==◌, ◌≡◌, refl, sym, ap, ◌∙◌, true, Option, some, List, ◌∷◌, Text,
  arith, if◌then◌else◌, Option-cases, Bool-cases, inl, inr,
}
use assen_platform.Common.Table.{find, Distinct, total}
use assen_platform.Errors.{Response, refuse, answer, ErrorCode}
use assen_platform.Identity.{Account, kyc_verified}
use assen_platform.Payment.{PaymentGateway, Settings, payment_available}
use assen_platform.Payment.Ledger.{Target, record_mock_settlement}
use assen_platform.Commerce.Model.{Product, Order, OrderStatus, Db, product_row, order_row}
use assen_platform.Commerce.Load.{Stamp, load_order_by_key, key_or_none}
use assen_platform.Commerce.Stock.{
  tracked, available, line_units, available-reserve_stock, available-restock_order_lines,
  tracked-reserve_stock, reserve_stock-Distinct, available_untracked, restock_order_lines,
  tracked-restock_order_lines,
}
use assen_platform.Commerce.Checkout.{
  CreateOrderIn, order_checks, pending_order, reserve_products, replayed, create_order,
}
use assen_platform.Commerce.Conservation.{IsKeyed}
use assen_platform.Commerce.Outcomes.{
  CheckoutEnd, early, conflict, declined, paid, is_early, create_order-CheckoutEnd,
}

-- What a checkout took from the shelf.
module _ (product : Product) (qty : ℕ) (ps ps' : List Product) (d : Distinct ps)
    (found : find product.id ps ≡ some product)
    (taken : reserve_products product qty ps ≡ some ps') where
  available-reserve_products :
      (j : ℕ)
      → tracked ps j ≡ true
      → available j ps' + (if product.id == j then qty else 0) ≡ available j ps
  unfolding reserve_products tracked
  available-reserve_products j t = elim (Option-cases product.stock) [
    | inl e ↦ ground (arith, found, ap (λ (k : ℕ). find k ps) {x = product.id} {y = j})
    | inr (s, e) ↦ ground (arith, available-reserve_stock product.id qty ps j ps' d)
  ]

  tracked-reserve_products : (j : ℕ) → tracked ps' j ≡ tracked ps j
  unfolding reserve_products
  tracked-reserve_products j = elim (Option-cases product.stock) [
    | inl e ↦ ground arith
    | inr (s, e) ↦ ground (arith, tracked-reserve_stock product.id qty ps j ps')
  ]

  reserve_products-Distinct : Distinct ps'
  unfolding reserve_products
  reserve_products-Distinct = elim (Option-cases product.stock) [
    | inl e ↦ ground (arith, d)
    | inr (s, e) ↦ ground (arith, reserve_stock-Distinct product.id qty ps ps' d)
  ]

  -- The same for every product: an untracked one has no units before or after.
  shelf-reserve_products :
      (j units : ℕ)
      → units ≡ (if product.id == j then qty else 0)
      → available j ps' + (if tracked ps j then units else 0) ≡ available j ps
  shelf-reserve_products j units same = elim (Bool-cases (tracked ps j)) [
    | inl t ↦ ground (arith, available-reserve_products j t)
    | inr n ↦ ground (
      arith,
      available_untracked ps j n,
      available_untracked ps' j (tracked-reserve_products j ∙ n),
    )
  ]

early-not_created : (r : Response Order) (o : Order) → is_early r ≡ true → r ≡ answer 201 o → ⊥
early-not_created r o e h = ground arith

answer-order : (a b : Order) → answer 201 a ≡ answer 201 b → a ≡ b
answer-order a b h = cc

module _ (stamp : Stamp) (gateway : Option PaymentGateway) (account : Account)
    (payload : CreateOrderIn) (db : Db) (k : IsKeyed db) where
  declined-shelf :
      {r : Response Order} {db' : Db}
      → CheckoutEnd stamp gateway account payload db r db'
      → r ≡ refuse 402 ErrorCode.payment_declined
      → (db'.attempts ≡ db.attempts)
        × ((j : ℕ) → available j db'.products ≡ available j db.products)
  unfolding pending_order
  declined-shelf (early r e) h = (refl, λ j. refl)
  declined-shelf (conflict product products found taken clash) h = cc
  declined-shelf (paid product products ref found new taken approved) h = cc
  declined-shelf (declined product products found new taken none_approved) h =
      let kept =
        tracked-reserve_products product payload.qty db.products products k.product_ids found
          taken in
      let lines = (pending_order stamp account payload product).items in
      (
        refl,
        λ j. elim (Bool-cases (tracked db.products j)) [
          | inl t ↦ ground (
            arith,
            available-reserve_products product payload.qty db.products products k.product_ids found
                taken j t,
            available-restock_order_lines products lines products j
                (reserve_products-Distinct product payload.qty db.products products k.product_ids
                  found taken)
                (λ i. refl) (kept j ∙ t),
          )
          | inr n ↦
              available_untracked (restock_order_lines products lines products) j
                (tracked-restock_order_lines products lines products j ∙ kept j ∙ n)
              ∙ sym (available_untracked db.products j n)
        ],
      )

  paid-shelf :
      {r : Response Order} {db' : Db} (o : Order)
      → CheckoutEnd stamp gateway account payload db r db'
      → r ≡ answer 201 o
      → (o.buyer ≡ account.id)
        × (find o.id db'.orders ≡ some o)
        × (o.status ≡ OrderStatus.paid)
        × (o.total ≡ total (λ line. line.price * line.qty) o.items)
        × (db'.attempts
            ≡ record_mock_settlement stamp.id stamp.now
                (Target.order o.id)
                o.total
                o.idempotency_key
              ∷ db.attempts)
        × ((j : ℕ)
            → available j db'.products
                + (if tracked db.products j then total (line_units j) o.items else 0)
              ≡ available j db.products)
  unfolding pending_order find
  paid-shelf o (early r e) h = absurd (early-not_created r o e h)
  paid-shelf o (conflict product products found taken clash) h = cc
  paid-shelf o (declined product products found new taken none_approved) h = cc
  paid-shelf o (paid product products ref found new taken approved) h =
      rw (sym (answer-order _ _ h)) (
        refl,
        ground arith,
        refl,
        omega arith,
        refl,
        λ j.
            shelf-reserve_products product payload.qty db.products products k.product_ids found
              taken j (total (line_units j) (pending_order stamp account payload product).items)
              (omega arith),
      )

  replay-paid :
      {r : Response Order} {db' : Db} (o : Order)
      → CheckoutEnd stamp gateway account payload db r db'
      → r ≡ answer 201 o
      → (key : Text) → key_or_none payload.idempotency_key ≡ some key
      → replayed account payload.idempotency_key db' ≡ some o
  unfolding pending_order replayed load_order_by_key
  replay-paid o (early r e) h key e' = absurd (early-not_created r o e h)
  replay-paid o (conflict product products found taken clash) h key e' = cc
  replay-paid o (declined product products found new taken none_approved) h key e' = cc
  replay-paid o (paid product products ref found new taken approved) h key e' =
      rw (sym (answer-order _ _ h), e') (ground (arith, text_eq_iff key key))

  -- The two gates of the account and of the payment, open if the order was made.
  create_order-gates :
      (settings : Settings) (o : Order)
      → (create_order stamp settings gateway account payload db).0 ≡ answer 201 o
      → (kyc_verified account ≡ true) × (payment_available settings ≡ true)
  unfolding create_order order_checks
  create_order-gates settings o h = elim (Bool-cases (kyc_verified account)) [
    | inr e ↦ ground arith
    | inl e ↦ elim (Bool-cases (payment_available settings)) [
      | inr e₁ ↦ ground arith
      | inl e₁ ↦ (e, e₁)
    ]
  ]

  module _ (settings : Settings) where
    -- From tables with one row to a key: if `create_order` refuses with `payment_declined`,
    -- nothing is ledgered, and every product has as many units left as before.
    pub create_order-declined :
        (create_order stamp settings gateway account payload db).0
          ≡ refuse 402 ErrorCode.payment_declined
        → (j : ℕ)
        → let db' = (create_order stamp settings gateway account payload db).1 in
          (db'.attempts ≡ db.attempts) × (available j db'.products ≡ available j db.products)
    create_order-declined h j =
        let (same, shelf) =
          declined-shelf (create_order-CheckoutEnd stamp settings gateway account payload db k) h in
        (same, shelf j)

    -- From tables with one row to a key: if `create_order` answers 201 with an order, the order is
    -- the requester's, it is in the table, paid, its total is the sum of its lines, one settlement
    -- of that total is ledgered, and a tracked product has exactly the units of the order fewer
    -- than before, an untracked one none before and after.
    pub create_order-created :
        (o : Order)
        → (create_order stamp settings gateway account payload db).0 ≡ answer 201 o
        → (j : ℕ)
        → let db' = (create_order stamp settings gateway account payload db).1 in
          (o.buyer ≡ account.id)
          × (find o.id db'.orders ≡ some o)
          × (o.status ≡ OrderStatus.paid)
          × (o.total ≡ total (λ line. line.price * line.qty) o.items)
          × (db'.attempts
              ≡ record_mock_settlement stamp.id stamp.now
                  (Target.order o.id)
                  o.total
                  o.idempotency_key
                ∷ db.attempts)
          × (available j db'.products
                + (if tracked db.products j then total (line_units j) o.items else 0)
              ≡ available j db.products)
    create_order-created o h j =
        let (buyer, found, status, sum, ledgered, shelf) =
          paid-shelf o (create_order-CheckoutEnd stamp settings gateway account payload db k) h in
        (buyer, found, status, sum, ledgered, shelf j)

    -- From tables with one row to a key: a request with an idempotency key that was answered 201
    -- and is sent again, whatever the gateway by then, is answered 200 with the same order, and
    -- writes nothing.
    pub create_order-replay :
        (later : Stamp) (gateway' : Option PaymentGateway) (o : Order) (key : Text)
        → key_or_none payload.idempotency_key ≡ some key
        → (create_order stamp settings gateway account payload db).0 ≡ answer 201 o
        → let db' = (create_order stamp settings gateway account payload db).1 in
          create_order later settings gateway' account payload db' ≡ (answer 200 o, db')
    unfolding create_order order_checks
    create_order-replay later gateway' o key e h =
        let found =
          replay-paid o (create_order-CheckoutEnd stamp settings gateway account payload db k) h key
            e in
        let (verified, payable) = create_order-gates settings o h in
        ground (arith, found, verified, payable)
