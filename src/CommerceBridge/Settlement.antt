-- ===== src/CommerceBridge/Settlement.antt =====
-- server/apps/commerce_bridge: an event that is applied keeps one mirrored order and one settlement for
-- each order of the shop.
use assen_platform.Common.{
  ℕ, ◌≤◌, ◌≡◌, refl, sym, ap, ◌∙◌, ℤ, pos, negsuc, Bool, true, false, ◌&&◌, none, some, List, [],
  ◌∷◌, Text, text_eq, text_eq_iff, if◌then◌else◌, arith, Bool-cases, Option-cases, ◌⊎◌, inl, inr,
}
use mathlib.Core.Path.{subst}
use assen_platform.Common.Table.{
  first, exists, find, update, count, Distinct, count_of_first-none, count_of_not-exists,
  update-Distinct, total-update_same,
}
use assen_platform.Errors.{pass, pass-cases}
use assen_platform.Payment.Ledger.{
  PaymentAttempt, Target, attempt_row, settles_external, external_attempt,
  record_external_settlement,
}
use assen_platform.CommerceBridge.Model.{
  CommerceProvider, cafe24, imweb, generic, ExternalOrderStatus, ExternalCommerceOrder, BridgeDb,
  external_order_row, provider_eq, NormalizedEvent,
}
use assen_platform.CommerceBridge.Service.{
  BridgeStamp, is_receipt, is_external_order, mirrored, received, update_or_create, settle_if_paid,
  is_paid, apply_amount,
}

provider_eq→eq : (a b : CommerceProvider) → provider_eq a b ≡ true → a ≡ b
provider_eq→eq cafe24 cafe24 h = refl
provider_eq→eq imweb imweb h = refl
provider_eq→eq generic generic h = refl
provider_eq→eq cafe24 imweb h = cc
provider_eq→eq cafe24 generic h = cc
provider_eq→eq imweb cafe24 h = cc
provider_eq→eq imweb generic h = cc
provider_eq→eq generic cafe24 h = cc
provider_eq→eq generic imweb h = cc

pub provider_eq_refl : (a : CommerceProvider) → provider_eq a a ≡ true
provider_eq_refl cafe24 = refl
provider_eq_refl imweb = refl
provider_eq_refl generic = refl

-- One mirrored order to an order of the shop, one receipt to an event, one settlement to an order.
pub record IsLedgered (db : BridgeDb) : Type 0 where
  pub ids : Distinct db.orders
  pub mirrored_once :
      (provider : CommerceProvider) (external_order_id : Text)
      → count (is_external_order provider external_order_id) db.orders ≤ 1
  pub received_once :
      (provider : CommerceProvider) (event_id : Text)
      → count (is_receipt provider event_id) db.receipts ≤ 1
  pub settled_once : (i : ℕ) → count (settles_external i) db.attempts ≤ 1

module _ (stamp : BridgeStamp) (provider : CommerceProvider) (event : NormalizedEvent) (amount : ℕ)
    (status : ExternalOrderStatus) where
  -- What an upsert leaves: the order stands in the table, with the columns of the event.
  update_or_create-cases :
      (db db' : BridgeDb) (order : ExternalCommerceOrder)
      → update_or_create stamp provider event amount status db ≡ pass (order, db')
      → (order.status ≡ status)
        × (order.amount ≡ amount)
        × (db'.attempts ≡ db.attempts)
        × (db'.receipts ≡ db.receipts)
        × (((old : ExternalCommerceOrder) × (first
                  (is_external_order provider event.external_order_id)
                  db.orders
                ≡ some old)
              × (order ≡ mirrored db.creators event amount status old)
              × (db'.orders
                  ≡ update old.id (λ o. true) (mirrored db.creators event amount status) db.orders))
            ⊎ ((first (is_external_order provider event.external_order_id) db.orders ≡ none)
                × (find order.id db.orders ≡ none)
                × (order.provider ≡ provider)
                × (order.external_order_id ≡ event.external_order_id)
                × (db'.orders ≡ order ∷ db.orders)))
  unfolding update_or_create
  update_or_create-cases db db' order h =
      elim (Option-cases (first (is_external_order provider event.external_order_id) db.orders)) [
        | inr (old, e) ↦ (
          ground arith,
          ground arith,
          ground arith,
          ground arith,
          inl (old, e, ground arith, ground arith),
        )
        | inl e ↦ elim (Option-cases (find stamp.order_id db.orders)) [
          | inr (x, f) ↦ ground arith
          | inl f ↦ (
            ground arith,
            ground arith,
            ground arith,
            ground arith,
            inr (e, ground arith, ground arith, ground arith, ground arith),
          )
        ]
      ]

  is_external_order_same :
      (p' : CommerceProvider) (t' : Text) (order : ExternalCommerceOrder) (db : BridgeDb)
      → is_external_order p' t' order ≡ true
      → order.provider ≡ provider
      → order.external_order_id ≡ event.external_order_id
      → first (is_external_order p' t') db.orders
        ≡ first (is_external_order provider event.external_order_id) db.orders
  is_external_order_same p' t' order db h p t =
      let a : p' ≡ provider = sym (provider_eq→eq order.provider p' (ground arith)) ∙ p in
      let b : t' ≡ event.external_order_id =
        sym ((text_eq_iff order.external_order_id t').0 (ground arith)) ∙ t in
      ap (λ (q : CommerceProvider). first (is_external_order q t') db.orders) a
      ∙ ap (λ (q : Text). first (is_external_order provider q) db.orders) b

  update_or_create-IsLedgered :
      (db db' : BridgeDb) (order : ExternalCommerceOrder)
      → IsLedgered db
      → update_or_create stamp provider event amount status db ≡ pass (order, db')
      → IsLedgered db'
  unfolding Distinct
  update_or_create-IsLedgered db db' order v h =
      let (s, a, attempts, receipts, orders) = update_or_create-cases db db' order h in
      record {
        ids = elim orders [
          | inl (old, e, o, u) ↦ subst Distinct (sym u) (
              update-Distinct old.id (λ x. true) (mirrored db.creators event amount status)
                (λ x. refl) db.orders v.ids)
          | inr (e, f, p, t, u) ↦ subst Distinct (sym u) (f, v.ids)
        ];
        mirrored_once = λ p' t'. elim orders [
          | inl (old, e, o, u) ↦ ground (
            arith,
            v.mirrored_once p' t',
            ap (count (is_external_order p' t')) u,
            total-update_same old.id (λ x. true) (mirrored db.creators event amount status)
                (λ x. if is_external_order p' t' x then 1 else 0) db.orders (λ x h. refl),
          )
          | inr (e, f, p, t, u) ↦ elim (Bool-cases (is_external_order p' t' order)) [
            | inr other ↦
                ground (arith, v.mirrored_once p' t', ap (count (is_external_order p' t')) u)
            | inl same ↦ ground (
              arith,
              ap (count (is_external_order p' t')) u,
              count_of_first-none (is_external_order p' t') db.orders
                  (is_external_order_same p' t' order db same p t ∙ e),
            )
          ]
        ];
        received_once =
            λ p e. ground (arith, v.received_once p e, ap (count (is_receipt p e)) receipts);
        settled_once =
            λ i. ground (arith, v.settled_once i, ap (count (settles_external i)) attempts);
      }

count_of_first-some :
    {A : Type 0} (p : A → Bool) (xs : List A) (x : A) → first p xs ≡ some x → 1 ≤ count p xs
count_of_first-some p [] x h = cc
count_of_first-some p (y ∷ xs) x h = ground (arith, count_of_first-some p xs x)

settle_if_paid-cases :
    (stamp : BridgeStamp) (order : ExternalCommerceOrder) (db db' : BridgeDb)
    (order' : ExternalCommerceOrder)
    → settle_if_paid stamp order db ≡ pass (order', db')
    → (order' ≡ order)
      × (db'.orders ≡ db.orders)
      × (db'.receipts ≡ db.receipts)
      × (is_paid order.status ≡ true → 1 ≤ count (settles_external order.id) db'.attempts)
      × ((db'.attempts ≡ db.attempts)
          ⊎ ((a : PaymentAttempt) × (first (settles_external order.id) db.attempts ≡ none)
              × (a.target ≡ Target.external_order order.id)
              × (a.authorized_amount ≡ order.amount)
              × (db'.attempts ≡ a ∷ db.attempts)))
unfolding settle_if_paid record_external_settlement
settle_if_paid-cases stamp order db db' order' h = elim (Bool-cases (is_paid order.status)) [
  | inr n ↦ (ground arith, ground arith, ground arith, λ y. ground arith, inl (ground arith))
  | inl y ↦ elim (Option-cases (first (settles_external order.id) db.attempts)) [
    | inr (old, e) ↦
        let found = count_of_first-some (settles_external order.id) db.attempts old e in
        let attempts : db'.attempts ≡ db.attempts = ground arith in
        (
          ground arith,
          ground arith,
          ground arith,
          λ paid. ground (arith, found, ap (count (settles_external order.id)) attempts),
          inl attempts,
        )
    | inl e ↦
        let a = external_attempt stamp.attempt_id stamp.now order.id order.amount in
        let attempts : db'.attempts ≡ a ∷ db.attempts = ground arith in
        (
          ground arith,
          ground arith,
          ground arith,
          λ paid. ground (arith, ap (count (settles_external order.id)) attempts),
          inr (a, e, refl, refl, attempts),
        )
  ]
]

settle_if_paid-IsLedgered :
    (stamp : BridgeStamp) (order : ExternalCommerceOrder) (db db' : BridgeDb)
    (order' : ExternalCommerceOrder)
    → IsLedgered db
    → settle_if_paid stamp order db ≡ pass (order', db')
    → IsLedgered db'
settle_if_paid-IsLedgered stamp order db db' order' v h =
    let (same, orders, receipts, credited, attempts) =
      settle_if_paid-cases stamp order db db' order' h in
    record {
      ids = subst Distinct (sym orders) v.ids;
      mirrored_once =
          λ p t. ground (arith, v.mirrored_once p t, ap (count (is_external_order p t)) orders);
      received_once =
          λ p e. ground (arith, v.received_once p e, ap (count (is_receipt p e)) receipts);
      settled_once = λ i. elim attempts [
        | inl u ↦ ground (arith, v.settled_once i, ap (count (settles_external i)) u)
        | inr (a, e, target, amount, u) ↦ ground (
          arith,
          v.settled_once i,
          ap (count (settles_external i)) u,
          count_of_first-none (settles_external order.id) db.attempts e,
          target,
          ap (λ (k : ℕ). count (settles_external k) db.attempts) {x = order.id} {y = i},
        )
      ];
    }

-- What an event leaves that was applied.
abbrev pub Applied : ExternalOrderStatus → BridgeDb → BridgeDb → ExternalCommerceOrder → Type 0
Applied status db db' order =
    IsLedgered db'
    × (db'.receipts ≡ db.receipts)
    × (order.status ≡ status)
    × (is_paid status ≡ true → 1 ≤ count (settles_external order.id) db'.attempts)

pub apply_amount-Applied :
    (stamp : BridgeStamp) (provider : CommerceProvider) (event : NormalizedEvent)
    (status : ExternalOrderStatus) (db db' : BridgeDb) (order : ExternalCommerceOrder) (amount : ℤ)
    → IsLedgered db
    → apply_amount stamp provider event status db amount ≡ pass (order, db')
    → Applied status db db' order
unfolding apply_amount
apply_amount-Applied stamp provider event status db db' order (negsuc n) v h = cc
apply_amount-Applied stamp provider event status db db' order (pos amount) v h =
    let ((o, db1), upserted, settled) =
      pass-cases (update_or_create stamp provider event amount status db) h in
    let (same, orders, receipts, credited, attempts) =
      settle_if_paid-cases stamp o db1 db' order settled in
    let (s, a, kept, received, cases) =
      update_or_create-cases stamp provider event amount status db db1 o upserted in
    (
      settle_if_paid-IsLedgered stamp o db1 db' order
          (update_or_create-IsLedgered stamp provider event amount status db db1 o v upserted)
          settled,
      receipts ∙ received,
      ap (λ (x : ExternalCommerceOrder). x.status) same ∙ s,
      λ p. rw same (credited (ap is_paid s ∙ p)),
    )

pub received-IsLedgered :
    (provider : CommerceProvider) (event : NormalizedEvent) (db : BridgeDb)
    → IsLedgered db
    → exists (is_receipt provider event.event_id) db.receipts ≡ false
    → IsLedgered (received provider event db)
received-IsLedgered provider event db v new = record {
  ids = v.ids;
  mirrored_once = v.mirrored_once;
  received_once = λ p e. elim (Bool-cases (provider_eq provider p && text_eq event.event_id e)) [
    | inr other ↦ ground (arith, v.received_once p e)
    | inl same ↦
        let a : provider ≡ p = provider_eq→eq provider p (ground arith) in
        let b : event.event_id ≡ e = (text_eq_iff event.event_id e).0 (ground arith) in
        ground (
          arith,
          count_of_not-exists (is_receipt provider event.event_id) db.receipts new,
          ap (λ (q : CommerceProvider). count (is_receipt q event.event_id) db.receipts) a,
          ap (λ (q : Text). count (is_receipt p q) db.receipts) b,
        )
  ];
  settled_once = v.settled_once;
}
