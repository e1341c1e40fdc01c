-- ===== src/Common/Table/Laws.antt =====
-- What an UPDATE of the row with one key does to look-ups, to row counts and to sums.
use Prim.Native.Nat.{ℕ, ◌+◌, ◌≤◌}
use mathlib.Core.Path.{◌≡◌, refl, ap}
use mathlib.Core.Bool.{Bool, true, false}
use mathlib.Core.Option.{Option, none, some}
use mathlib.Core.List.{List, [], ◌∷◌}
use native.Mathlib.Omega.{arith}
use mathlib.Core.Logic.{◌≢◌, inl, inr}
use assen_platform.Common.Tests.{Option-cases, ◌==◌, if◌then◌else◌}
use assen_platform.Common.Table.Defs.{first, Row, find, update, rowcount, Distinct, total}

-- A guarded write on one row, as a function on what a look-up returns.
abbrev pub write_if {ℓ} : {A : Type ℓ} → (A → Bool) → (A → A) → Option A → Option A
write_if p f none = none
write_if p f (some x) = some (if p x then f x else x)

abbrev pub holds {ℓ} : {A : Type ℓ} → (A → Bool) → Option A → Bool
holds p none = false
holds p (some x) = p x

module _ {ℓ} {A : Type ℓ} ⦃r : Row A⦄ where
  pub key-find : (i : ℕ) (xs : List A) (x : A) → find i xs ≡ some x → r.key x ≡ i
  unfolding find
  key-find i [] x h = cc
  key-find i (y ∷ xs) x h = ground (arith, key-find i xs x)

  -- A row that a filter finds is the row of its key.
  pub first-find :
      (p : A → Bool) (xs : List A) (x : A)
      → Distinct xs
      → first p xs ≡ some x
      → (find (r.key x) xs ≡ some x) × (p x ≡ true)
  unfolding find Distinct
  first-find p [] x d h = cc
  first-find p (y ∷ xs) x d h =
      ground (arith, first-find p xs x d.1, ap (λ (k : ℕ). find k xs) {x = r.key x} {y = r.key y})

  -- A filter that the write does not touch finds the row that the write has left.
  pub first-update :
      (p q : A → Bool) (f : A → A) (xs : List A) (x : A)
      → ((y : A) → r.key (f y) ≡ r.key y)
      → ((y : A) → p (f y) ≡ p y)
      → Distinct xs
      → first p xs ≡ some x
      → first p (update (r.key x) q f xs) ≡ some (if q x then f x else x)
  unfolding update Distinct
  first-update p q f [] x ids same d h = cc
  first-update p q f (y ∷ xs) x ids same d h = ground (
    arith,
    same y,
    first-update p q f xs x ids same d.1,
    first-find p xs x d.1,
    ap (λ (k : ℕ). find k xs) {x = r.key x} {y = r.key y},
  )

  pub update_missing :
      (i : ℕ) (p : A → Bool) (f : A → A) (xs : List A) → find i xs ≡ none → update i p f xs ≡ xs
  unfolding find update
  update_missing i p f [] h = refl
  update_missing i p f (x ∷ xs) h = ground (arith, update_missing i p f xs)

  pub rowcount_missing :
      (i : ℕ) (p : A → Bool) (xs : List A) → find i xs ≡ none → rowcount i p xs ≡ 0
  unfolding find rowcount
  rowcount_missing i p [] h = refl
  rowcount_missing i p (x ∷ xs) h = ground (arith, rowcount_missing i p xs)

  -- In a table with distinct keys the UPDATE reports 1 exactly when the row is there and passes.
  pub rowcount-find :
      (i : ℕ) (p : A → Bool) (xs : List A)
      → Distinct xs
      → rowcount i p xs ≡ (if holds p (find i xs) then 1 else 0)
  unfolding find rowcount Distinct
  rowcount-find i p [] d = refl
  rowcount-find i p (x ∷ xs) d = ground (arith, rowcount-find i p xs d.1, rowcount_missing i p xs)

  -- An UPDATE that reports no row changes nothing.
  pub update_idle :
      (i : ℕ) (p : A → Bool) (f : A → A) (xs : List A) → rowcount i p xs ≡ 0 → update i p f xs ≡ xs
  unfolding rowcount update
  update_idle i p f [] h = refl
  update_idle i p f (x ∷ xs) h = ground (arith, update_idle i p f xs)

  module _ (i : ℕ) (p : A → Bool) (f : A → A) (same_key : (x : A) → r.key (f x) ≡ r.key x) where
    pub find-update :
        (j : ℕ) (xs : List A)
        → find j (update i p f xs) ≡ (if i == j then write_if p f (find j xs) else find j xs)
    unfolding find update
    find-update j [] = ground arith
    find-update j (x ∷ xs) = ground (arith, same_key x, find-update j xs)

    pub update-Distinct : (xs : List A) → Distinct xs → Distinct (update i p f xs)
    unfolding update Distinct
    update-Distinct [] d = tt
    update-Distinct (x ∷ xs) d =
        ground (arith, same_key x, find-update (r.key x) xs, update-Distinct xs d.1)

  -- A sum over the rows moves by what the one row that is written moves.
  pub total-update :
      (i : ℕ) (p : A → Bool) (f : A → A) (w : A → ℕ) (xs : List A) (x : A)
      → Distinct xs
      → find i xs ≡ some x
      → p x ≡ true
      → total w (update i p f xs) + w x ≡ total w xs + w (f x)
  unfolding find update Distinct
  total-update i p f w [] x d h e = cc
  total-update i p f w (y ∷ xs) x d h e =
      ground (arith, total-update i p f w xs x d.1, update_missing i p f xs)

  -- A sum that the write leaves alone, row by row, stays.
  pub total-update_same :
      (i : ℕ) (p : A → Bool) (f : A → A) (w : A → ℕ) (xs : List A)
      → ((x : A) → p x ≡ true → w (f x) ≡ w x)
      → total w (update i p f xs) ≡ total w xs
  unfolding update
  total-update_same i p f w [] same = refl
  total-update_same i p f w (x ∷ xs) same =
      ground (arith, total-update_same i p f w xs same, same x)

  -- An UPDATE that reports a row has found one, and it passed.
  pub rowcount_hit :
      (i : ℕ) (p : A → Bool) (xs : List A)
      → Distinct xs
      → rowcount i p xs ≢ 0
      → (x : A) × (find i xs ≡ some x) × (p x ≡ true)
  rowcount_hit i p xs d h = elim (Option-cases (find i xs)) [
    | inl e ↦ absurd (h (rowcount_missing i p xs e))
    | inr (x, e) ↦ (x, e, ground (arith, rowcount-find i p xs d))
  ]

  -- A sum that the write does not raise, row by row, does not rise.
  pub total-update_le :
      (i : ℕ) (p : A → Bool) (f : A → A) (w : A → ℕ) (xs : List A)
      → ((x : A) → p x ≡ true → w (f x) ≤ w x)
      → total w (update i p f xs) ≤ total w xs
  unfolding update
  total-update_le i p f w [] le = omega arith
  total-update_le i p f w (x ∷ xs) le = ground (arith, total-update_le i p f w xs le, le x)

  count-find :
      (i : ℕ) (q : A → Bool) (xs : List A) (x : A)
      → find i xs ≡ some x
      → q x ≡ true
      → 1 ≤ total (λ y. if q y then 1 else 0) xs
  unfolding find
  count-find i q [] x h e = cc
  count-find i q (y ∷ xs) x h e = ground (arith, count-find i q xs x)

  first-none :
      (p q : A → Bool) (xs : List A)
      → ((y : A) → p y ≡ true → q y ≡ true)
      → total (λ y. if q y then 1 else 0) xs ≡ 0
      → first p xs ≡ none
  first-none p q [] sub h = refl
  first-none p q (y ∷ xs) sub h = ground (arith, sub y, first-none p q xs sub)

  -- A filter within one that has at most one row finds that row, or nothing.
  pub first-only :
      (p q : A → Bool) (i : ℕ) (xs : List A) (x : A)
      → ((y : A) → p y ≡ true → q y ≡ true)
      → total (λ y. if q y then 1 else 0) xs ≤ 1
      → find i xs ≡ some x
      → q x ≡ true
      → first p xs ≡ (if p x then some x else none)
  unfolding find
  first-only p q i [] x sub one h e = cc
  first-only p q i (y ∷ xs) x sub one h e =
      ground (arith, sub y, count-find i q xs x, first-none p q xs sub, first-only p q i xs x sub)
