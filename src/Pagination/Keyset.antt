-- ===== src/Pagination/Keyset.antt =====
-- Rows under an ORDER BY: sorting, filters that seek past a row, and prefixes. This is the general
-- part of server/config/pagination.py, for any strict order on the rows.
use assen_platform.Common.{
  ℕ, zero, suc, ◌+◌, ◌≤◌, ◌≡◌, refl, Bool, true, false, Option, none, some, is_none, List, [], ◌∷◌,
  ◌++◌, length, arith, Bool-cases, if◌then◌else◌, inl, inr,
}
use assen_platform.Common.Table.{All, count}

module _ {A : Type 0} where
  -- `objects.filter(p)`
  unfoldable pub filter : (A → Bool) → List A → List A
  filter p [] = []
  filter p (x ∷ xs) = let rest = filter p xs in if p x then x ∷ rest else rest

  -- `xs[:n]` and `xs[n:]`
  unfoldable pub take : ℕ → List A → List A
  take zero xs = []
  take (suc n) [] = []
  take (suc n) (x ∷ xs) = x ∷ take n xs

  unfoldable pub drop : ℕ → List A → List A
  drop zero xs = xs
  drop (suc n) [] = []
  drop (suc n) (x ∷ xs) = drop n xs

  -- `xs[-1]`
  unfoldable pub last : List A → Option A
  last [] = none
  last (x ∷ xs) = let later = last xs in if is_none later then some x else later

  pub length-take : (n : ℕ) (xs : List A) → length (take n xs) ≤ n
  unfolding take length
  length-take zero xs = omega arith
  length-take (suc n) [] = omega arith
  length-take (suc n) (x ∷ xs) = omega (arith, length-take n xs)

  pub length-drop : (n : ℕ) (xs : List A) → n ≤ length xs → length (drop n xs) + n ≡ length xs
  unfolding drop length
  length-drop zero xs h = omega arith
  length-drop (suc n) [] h = absurd (omega arith)
  length-drop (suc n) (x ∷ xs) h = omega (arith, length-drop n xs)

  pub take-drop : (n : ℕ) (xs : List A) → take n xs ++ drop n xs ≡ xs
  unfolding take drop
  take-drop zero xs = refl
  take-drop (suc n) [] = refl
  take-drop (suc n) (x ∷ xs) = cc (take-drop n xs)

  pub count-take-drop :
      (p : A → Bool) (n : ℕ) (xs : List A) → count p (take n xs) + count p (drop n xs) ≡ count p xs
  unfolding take drop
  count-take-drop p zero xs = omega arith
  count-take-drop p (suc n) [] = refl
  count-take-drop p (suc n) (x ∷ xs) = omega (arith, count-take-drop p n xs)

  -- A whole prefix.
  pub take_all : (n : ℕ) (xs : List A) → length xs ≤ n → take n xs ≡ xs
  unfolding take length
  take_all zero [] h = refl
  take_all zero (x ∷ xs) h = absurd (omega arith)
  take_all (suc n) [] h = refl
  take_all (suc n) (x ∷ xs) h = ground (arith, take_all n xs)

  pub take-take : (n : ℕ) (xs : List A) → take n (take (suc n) xs) ≡ take n xs
  unfolding take
  take-take zero xs = refl
  take-take (suc n) [] = refl
  take-take (suc n) (x ∷ xs) = cc (take-take n xs)

  -- One row more than the page tells whether rows remain.
  pub length-take_fits : (n : ℕ) (xs : List A) → length (take (suc n) xs) ≤ n → length xs ≤ n
  unfolding take length
  length-take_fits zero [] h = h
  length-take_fits zero (x ∷ xs) h = absurd (omega arith)
  length-take_fits (suc n) [] h = omega arith
  length-take_fits (suc n) (x ∷ xs) h = omega (arith, length-take_fits n xs)

  pub length-take_more :
      (n : ℕ) (xs : List A) → suc n ≤ length (take (suc n) xs) → suc n ≤ length xs
  unfolding take length
  length-take_more n [] h = h
  length-take_more zero (x ∷ xs) h = omega arith
  length-take_more (suc n) (x ∷ xs) h = omega (arith, length-take_more n xs)

  pub filter-filter :
      (p q : A → Bool) (xs : List A)
      → ((x : A) → p x ≡ true → q x ≡ true)
      → filter p (filter q xs) ≡ filter p xs
  unfolding filter
  filter-filter p q [] h = refl
  filter-filter p q (x ∷ xs) h = ground (arith, filter-filter p q xs h, h x)

  pub filter_none : (p : A → Bool) (xs : List A) → All (λ x. p x ≡ false) xs → filter p xs ≡ []
  unfolding filter
  filter_none p [] h = refl
  filter_none p (x ∷ xs) h = ground (arith, filter_none p xs)

  pub filter_every : (p : A → Bool) (xs : List A) → All (λ x. p x ≡ true) xs → filter p xs ≡ xs
  unfolding filter
  filter_every p [] h = refl
  filter_every p (x ∷ xs) h = ground (arith, filter_every p xs)

  pub All-filter {κ} :
      (P : A → Type κ) (p : A → Bool) (xs : List A) → All P xs → All P (filter p xs)
  unfolding filter
  All-filter P p [] h = h
  All-filter P p (x ∷ xs) h = elim (Bool-cases (p x)) [
    | inl e ↦ rw e (h.0, All-filter P p xs h.1)
    | inr e ↦ rw e (All-filter P p xs h.1)
  ]

  pub length-filter : (p : A → Bool) (xs : List A) → length (filter p xs) ≤ length xs
  unfolding filter length
  length-filter p [] = omega arith
  length-filter p (x ∷ xs) = ground (arith, length-filter p xs)
