-- ===== src/Commerce/Stock/Laws.antt =====
-- What a reservation and a restock do to the units that a product has left.
use assen_platform.Common.{
  ℕ, ◌+◌, ◌==◌, ◌≡◌, refl, sym, ap, ◌∙◌, ◌↔◌, true, false, none, some, List, [], ◌∷◌, arith,
  if◌then◌else◌, Option-cases, inl, inr,
}
use assen_platform.Common.Table.{
  find, update, Distinct, total, holds, find-update, update-Distinct, rowcount-find,
}
use assen_platform.Commerce.Model.{Product, OrderItem, product_row}
use assen_platform.Commerce.Stock.Defs.{
  has_stock, is_exhausted, take_units, mark_sold_out, return_units, reopen, reserve_stock, tracked,
  return_stock, restock_line, restock_order_lines, available, line_units,
}

-- A product that is not tracked has no units to its name.
pub available_untracked : (ps : List Product) (j : ℕ) → tracked ps j ≡ false → available j ps ≡ 0
unfolding available tracked
available_untracked ps j h = elim (Option-cases (find j ps)) [
  | inl e ↦ ground arith
  | inr (p, e) ↦ elim (Option-cases p.stock) [ inl n ↦ ground arith | inr (u, n) ↦ ground arith ]
]

module _ (id qty : ℕ) (ps : List Product) where
  -- A reservation takes its units from the one product, and nothing from any other.
  pub available-reserve_stock :
      (j : ℕ) (ps' : List Product)
      → Distinct ps
      → reserve_stock id qty ps ≡ some ps'
      → available j ps' + (if id == j then qty else 0) ≡ available j ps
  unfolding reserve_stock available
  available-reserve_stock j ps' d h = ground (
    arith,
    rowcount-find id (has_stock qty) ps d,
    find-update id (has_stock qty) (take_units qty) (λ _. refl) j ps,
    find-update id is_exhausted mark_sold_out (λ _. refl) j
        (update id (has_stock qty) (take_units qty) ps),
  )

  pub reserve_stock-Distinct :
      (ps' : List Product) → Distinct ps → reserve_stock id qty ps ≡ some ps' → Distinct ps'
  unfolding reserve_stock
  reserve_stock-Distinct ps' d h = ground (
    arith,
    update-Distinct id (has_stock qty) (take_units qty) (λ _. refl) ps d,
    update-Distinct id is_exhausted mark_sold_out (λ _. refl)
        (update id (has_stock qty) (take_units qty) ps),
  )

  pub tracked-reserve_stock :
      (j : ℕ) (ps' : List Product)
      → reserve_stock id qty ps ≡ some ps'
      → tracked ps' j ≡ tracked ps j
  unfolding reserve_stock tracked
  tracked-reserve_stock j ps' h = ground (
    arith,
    find-update id (has_stock qty) (take_units qty) (λ _. refl) j ps,
    find-update id is_exhausted mark_sold_out (λ _. refl) j
        (update id (has_stock qty) (take_units qty) ps),
  )

  -- The reservation succeeds exactly when the product is there with at least `qty` units.
  pub reserve_stock-none_iff :
      Distinct ps → (reserve_stock id qty ps ≡ none) ↔ (holds (has_stock qty) (find id ps) ≡ false)
  unfolding reserve_stock
  reserve_stock-none_iff d = (
    λ h. ground (arith, rowcount-find id (has_stock qty) ps d),
    λ h. ground (arith, rowcount-find id (has_stock qty) ps d),
  )

  pub available-return_stock :
      (j : ℕ)
      → Distinct ps
      → tracked ps id ≡ true
      → available j (return_stock id qty ps) ≡ available j ps + (if id == j then qty else 0)
  unfolding return_stock available tracked
  available-return_stock j d h = ground (
    arith,
    rowcount-find id is_exhausted ps d,
    find-update id is_exhausted (reopen qty) (λ _. refl) j ps,
    find-update id (λ _. true) (return_units qty) (λ _. refl) j ps,
  )

  pub tracked-return_stock : (j : ℕ) → tracked (return_stock id qty ps) j ≡ tracked ps j
  unfolding return_stock tracked
  tracked-return_stock j = ground (
    arith,
    find-update id is_exhausted (reopen qty) (λ _. refl) j ps,
    find-update id (λ _. true) (return_units qty) (λ _. refl) j ps,
  )

  pub return_stock-Distinct : Distinct ps → Distinct (return_stock id qty ps)
  unfolding return_stock
  return_stock-Distinct d = ground (
    arith,
    update-Distinct id is_exhausted (reopen qty) (λ _. refl) ps d,
    update-Distinct id (λ _. true) (return_units qty) (λ _. refl) ps d,
  )

module _ (seen : List Product) (line : OrderItem) (ps : List Product) where
  restock_line-Distinct : Distinct ps → Distinct (restock_line seen line ps)
  unfolding restock_line
  restock_line-Distinct d = elim (Option-cases line.product) [
    | inl e ↦ rw (e, restock_line) d
    | inr (i, e) ↦ rw (e, restock_line) (ground (arith, return_stock-Distinct i line.qty ps d))
  ]

  tracked-restock_line : (j : ℕ) → tracked (restock_line seen line ps) j ≡ tracked ps j
  unfolding restock_line
  tracked-restock_line j = elim (Option-cases line.product) [
    | inl e ↦ rw (e, restock_line) refl
    | inr (i, e) ↦ rw (e, restock_line) (ground (arith, tracked-return_stock i line.qty ps j))
  ]

  available-restock_line :
      (j : ℕ)
      → Distinct ps
      → ((i : ℕ) → tracked seen i ≡ tracked ps i)
      → tracked ps j ≡ true
      → available j (restock_line seen line ps) ≡ available j ps + line_units j line
  unfolding restock_line
  available-restock_line j d same h = elim (Option-cases line.product) [
    | inl e ↦ rw (e, restock_line) (omega arith)
    | inr (i, e) ↦
        rw (e, restock_line)
          (ground (
            arith,
            same i,
            available-return_stock i line.qty ps j d,
            ap (tracked ps) {x = i} {y = j},
          ))
  ]

pub restock_order_lines-Distinct :
    (seen : List Product) (lines : List OrderItem) (ps : List Product)
    → Distinct ps
    → Distinct (restock_order_lines seen lines ps)
unfolding restock_order_lines
restock_order_lines-Distinct seen [] ps d = d
restock_order_lines-Distinct seen (line ∷ lines) ps d =
    restock_order_lines-Distinct seen lines _ (restock_line-Distinct seen line ps d)

pub tracked-restock_order_lines :
    (seen : List Product) (lines : List OrderItem) (ps : List Product) (j : ℕ)
    → tracked (restock_order_lines seen lines ps) j ≡ tracked ps j
unfolding restock_order_lines
tracked-restock_order_lines seen [] ps j = refl
tracked-restock_order_lines seen (line ∷ lines) ps j =
    tracked-restock_order_lines seen lines _ j ∙ tracked-restock_line seen line ps j

-- A restock gives a tracked product back the units of all its lines.
pub available-restock_order_lines :
    (seen : List Product) (lines : List OrderItem) (ps : List Product) (j : ℕ)
    → Distinct ps
    → ((i : ℕ) → tracked seen i ≡ tracked ps i)
    → tracked ps j ≡ true
    → available j (restock_order_lines seen lines ps) ≡ available j ps + total (line_units j) lines
unfolding restock_order_lines
available-restock_order_lines seen [] ps j d same h = omega arith
available-restock_order_lines seen (line ∷ lines) ps j d same h = omega (
  arith,
  available-restock_order_lines seen lines (restock_line seen line ps) j
      (restock_line-Distinct seen line ps d)
      (λ i. same i ∙ sym (tracked-restock_line seen line ps i))
      (tracked-restock_line seen line ps j ∙ h),
  available-restock_line seen line ps j d same h,
)
