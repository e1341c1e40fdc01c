-- ===== src/Common/Table/Defs.antt =====
-- A database table as the list of its rows, the newest first: the queries that the handlers make,
-- and what an UPDATE with a guard does to a look-up, to the number of rows and to a sum over them.
use Prim.Native.Nat.{ℕ, ◌+◌}
use mathlib.Core.Path.{◌≡◌, refl}
use mathlib.Core.Bool.{Bool, true, false, ◌&&◌}
use mathlib.Core.Option.{Option, none, some}
use mathlib.Core.List.{List, [], ◌∷◌}
use native.Mathlib.Omega.{arith}
use assen_platform.Common.Tests.{◌==◌, if◌then◌else◌}

-- The primary key of a row.
pub record Row {ℓ} (A : Type ℓ) : Type ℓ where
  pub key : A → ℕ

module _ {ℓ} {A : Type ℓ} where
  -- `objects.filter(p).exists()`
  abbrev pub exists : (A → Bool) → List A → Bool
  exists p [] = false
  exists p (x ∷ xs) = if p x then true else exists p xs

  -- `objects.filter(p).first()`
  abbrev pub first : (A → Bool) → List A → Option A
  first p [] = none
  first p (x ∷ xs) = if p x then some x else first p xs

  -- The sum of `w` over the rows.
  abbrev pub total : (A → ℕ) → List A → ℕ
  total w [] = 0
  total w (x ∷ xs) = w x + total w xs

  -- The number of rows that satisfy `p`.
  abbrev pub count : (A → Bool) → List A → ℕ
  count p xs = total (λ x. if p x then 1 else 0) xs

  abbrev pub All {κ} : (A → Type κ) → List A → Type κ
  All P [] = Unit
  All P (x ∷ xs) = P x × All P xs

  pub count_of_not-exists : (p : A → Bool) (xs : List A) → exists p xs ≡ false → count p xs ≡ 0
  count_of_not-exists p [] h = refl
  count_of_not-exists p (x ∷ xs) h = ground (arith, count_of_not-exists p xs)

  pub count_of_first-none : (p : A → Bool) (xs : List A) → first p xs ≡ none → count p xs ≡ 0
  count_of_first-none p [] h = refl
  count_of_first-none p (x ∷ xs) h = ground (arith, count_of_first-none p xs)

  pub first-holds : (p : A → Bool) (xs : List A) (x : A) → first p xs ≡ some x → p x ≡ true
  first-holds p [] x h = cc
  first-holds p (y ∷ xs) x h = ground (arith, first-holds p xs x)

module _ {ℓ} {A : Type ℓ} ⦃r : Row A⦄ where
  -- `objects.filter(id=i).first()`
  unfoldable pub find : ℕ → List A → Option A
  find i [] = none
  find i (x ∷ xs) = if r.key x == i then some x else find i xs

  -- The table after `objects.filter(id=i, p).update(f)`.
  unfoldable pub update : ℕ → (A → Bool) → (A → A) → List A → List A
  update i p f [] = []
  update i p f (x ∷ xs) = (if (r.key x == i) && p x then f x else x) ∷ update i p f xs

  -- The number of rows that `objects.filter(id=i, p).update(f)` reports.
  unfoldable pub rowcount : ℕ → (A → Bool) → List A → ℕ
  rowcount i p [] = 0
  rowcount i p (x ∷ xs) = (if (r.key x == i) && p x then 1 else 0) + rowcount i p xs

  -- No two rows have one key.
  unfoldable pub Distinct : List A → Type ℓ
  Distinct [] = Unit
  Distinct (x ∷ xs) = (find (r.key x) xs ≡ none) × Distinct xs
