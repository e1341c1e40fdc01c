-- ===== src/Pagination/Sorting.antt =====
-- ORDER BY and the seek past a row, for any strict order on the rows: what server/config/pagination.py
-- relies on.
use assen_platform.Common.{
  ℕ, zero, suc, ◌≤◌, ◌≡◌, refl, ap, Bool, true, false, not, ◌&&◌, none, some, List, [], ◌∷◌, length,
  arith, Bool-cases, Option-cases, if◌then◌else◌, inl, inr,
}
use mathlib.Core.Path.{subst}
use assen_platform.Common.Table.{All, count}
use assen_platform.Pagination.Keyset.{All-filter, filter_every, filter, take, drop, last}

-- A strict order in which rows may be tied.
pub record IsStrictWeak {A : Type 0} (before : A → A → Bool) : Type 0 where
  pub irreflexive : (x : A) → before x x ≡ false
  pub transitive : (x y z : A) → before x y ≡ true → before y z ≡ true → before x z ≡ true
  pub splits : (x y z : A) → before x y ≡ false → before y z ≡ false → before x z ≡ false

drop_of_last-none : {A : Type 0} (n : ℕ) (xs : List A) → last (take n xs) ≡ none → drop n xs ≡ xs
unfolding take drop last
drop_of_last-none zero xs h = refl
drop_of_last-none (suc n) [] h = refl
drop_of_last-none (suc n) (x ∷ xs) h = ground arith

pub All-last {κ} :
    {A : Type 0} (P : A → Type κ) (n : ℕ) (xs : List A) (x : A)
    → All P xs
    → last (take n xs) ≡ some x
    → P x
unfolding take last
All-last P zero xs x a h = cc
All-last P (suc n) [] x a h = cc
All-last P (suc n) (y ∷ ys) x a h = elim (Option-cases (last (take n ys))) [
  | inl empty ↦ subst P (ground arith) a.0
  | inr (z, f) ↦ All-last P n ys x a.1 (ground arith)
]

module _ {A : Type 0} (before : A → A → Bool) where
  -- Neither row stands before the other.
  abbrev pub tied : A → A → Bool
  tied x y = not (before x y) && not (before y x)

  insert : A → List A → List A
  insert x [] = x ∷ []
  insert x (y ∷ ys) = let rest = insert x ys in if before y x then y ∷ rest else x ∷ y ∷ ys

  -- The rows in their order.
  unfoldable pub sort : List A → List A
  unfolding insert
  sort [] = []
  sort (x ∷ xs) = insert x (sort xs)

  unfoldable pub Ascending : List A → Type 0
  Ascending [] = Unit
  Ascending (x ∷ xs) = All (λ y. before x y ≡ true) xs × Ascending xs

  -- No two rows are tied.
  unfoldable pub Apart : List A → Type 0
  Apart [] = Unit
  Apart (x ∷ xs) = All (λ y. tied x y ≡ false) xs × Apart xs

  All-insert {κ} : (P : A → Type κ) (x : A) (ys : List A) → P x → All P ys → All P (insert x ys)
  unfolding insert
  All-insert P x [] p h = (p, h)
  All-insert P x (y ∷ ys) p h = elim (Bool-cases (before y x)) [
    | inl e ↦ rw e (h.0, All-insert P x ys p h.1)
    | inr e ↦ rw e (p, h)
  ]

  pub All-sort {κ} : (P : A → Type κ) (xs : List A) → All P xs → All P (sort xs)
  unfolding sort
  All-sort P [] h = h
  All-sort P (x ∷ xs) h = All-insert P x (sort xs) h.0 (All-sort P xs h.1)

  count-insert : (p : A → Bool) (x : A) (ys : List A) → count p (insert x ys) ≡ count p (x ∷ ys)
  unfolding insert
  count-insert p x [] = refl
  count-insert p x (y ∷ ys) = ground (arith, count-insert p x ys)

  pub count-sort : (p : A → Bool) (xs : List A) → count p (sort xs) ≡ count p xs
  unfolding sort
  count-sort p [] = refl
  count-sort p (x ∷ xs) = ground (arith, count-insert p x (sort xs), count-sort p xs)

  length-insert : (x : A) (ys : List A) → length (insert x ys) ≡ suc (length ys)
  unfolding insert length
  length-insert x [] = refl
  length-insert x (y ∷ ys) = ground (arith, length-insert x ys)

  pub length-sort : (xs : List A) → length (sort xs) ≡ length xs
  unfolding sort length
  length-sort [] = refl
  length-sort (x ∷ xs) = omega (arith, length-insert x (sort xs), length-sort xs)

  module _ (o : IsStrictWeak before) where
    later_all :
        (x y : A) (ys : List A)
        → before x y ≡ true
        → All (λ z. before y z ≡ true) ys
        → All (λ z. before x z ≡ true) ys
    later_all x y [] e h = h
    later_all x y (z ∷ zs) e h = (o.transitive x y z e h.0, later_all x y zs e h.1)

    insert-Ascending :
        (x : A) (ys : List A)
        → All (λ y. tied x y ≡ false) ys
        → Ascending ys
        → Ascending (insert x ys)
    unfolding insert Ascending
    insert-Ascending x [] a h = (tt, tt)
    insert-Ascending x (y ∷ ys) a h = elim (Bool-cases (before y x)) [
      | inl e ↦ rw e (All-insert (λ z. before y z ≡ true) x ys e h.0, insert-Ascending x ys a.1 h.1)
      | inr e ↦
          let first : before x y ≡ true = ground (arith, a.0) in
          rw e ((first, later_all x y ys first h.0), h)
    ]

    -- Rows of which no two are tied stand in strict order.
    pub sort-Ascending : (xs : List A) → Apart xs → Ascending (sort xs)
    unfolding sort Ascending Apart
    sort-Ascending [] a = tt
    sort-Ascending (x ∷ xs) a =
        insert-Ascending x (sort xs) (All-sort (λ y. tied x y ≡ false) xs a.0)
          (sort-Ascending xs a.1)

    insert_first : (x : A) (ys : List A) → All (λ y. before x y ≡ true) ys → insert x ys ≡ x ∷ ys
    unfolding insert
    insert_first x [] h = refl
    insert_first x (y ∷ ys) h = ground (arith, h.0, o.transitive x y x, o.irreflexive x)

    filter-insert :
        (p : A → Bool) (x : A) (ys : List A)
        → All (λ y. tied x y ≡ false) ys
        → Ascending ys
        → filter p (insert x ys) ≡ (if p x then insert x (filter p ys) else filter p ys)
    unfolding filter insert Ascending
    filter-insert p x [] a h = ground arith
    filter-insert p x (y ∷ ys) a h = elim (Bool-cases (before y x)) [
      | inl e ↦ ground (arith, filter-insert p x ys a.1 h.1)
      | inr e ↦
          let first : before x y ≡ true = ground (arith, a.0) in
          ground (
            arith,
            insert_first x (filter p (y ∷ ys)) (
                All-filter (λ z. before x z ≡ true) p (y ∷ ys) (first, later_all x y ys first h.0)),
          )
    ]

    -- ORDER BY and WHERE commute.
    pub filter-sort :
        (p : A → Bool) (xs : List A) → Apart xs → filter p (sort xs) ≡ sort (filter p xs)
    unfolding sort filter Apart
    filter-sort p [] a = refl
    filter-sort p (x ∷ xs) a = ground (
      arith,
      filter-insert p x (sort xs) (All-sort (λ y. tied x y ≡ false) xs a.0) (sort-Ascending xs a.1),
      filter-sort p xs a.1,
    )

    -- The rows after the last row of a page are the rows that the page left.
    pub drop-filter :
        (n : ℕ) (x : A) (xs : List A)
        → Ascending xs
        → last (take n xs) ≡ some x
        → filter (before x) xs ≡ drop n xs
    unfolding filter take drop last Ascending
    drop-filter zero x xs h e = cc
    drop-filter (suc n) x [] h e = cc
    drop-filter (suc n) x (y ∷ ys) h e = elim (Option-cases (last (take n ys))) [
      | inl empty ↦ ground (
        arith,
        drop_of_last-none n ys empty,
        o.irreflexive y,
        ap (λ (z : A). filter (before z) ys) {x = x} {y = y},
        filter_every (before y) ys h.0,
      )
      | inr (z, f) ↦
          let later : before y x ≡ true =
            All-last (λ w. before y w ≡ true) n ys x h.0 (ground arith) in
          ground (arith, later, o.transitive x y x, o.irreflexive x, drop-filter n x ys h.1)
    ]

    -- The rows after a row, in order, are found among all the rows, in order.
    pub Ascending-filter : (p : A → Bool) (xs : List A) → Ascending xs → Ascending (filter p xs)
    unfolding Ascending filter
    Ascending-filter p [] h = h
    Ascending-filter p (x ∷ xs) h = elim (Bool-cases (p x)) [
      | inl e ↦ rw e (All-filter (λ y. before x y ≡ true) p xs h.0, Ascending-filter p xs h.1)
      | inr e ↦ rw e (Ascending-filter p xs h.1)
    ]

    -- A row that is not tied with any stands before the rows after it, and they before no row of it.
    pub count-filter :
        (d k : A) (xs : List A)
        → count (tied k) (filter (before d) xs) ≡ (if before d k then count (tied k) xs else 0)
    unfolding filter
    count-filter d k [] = ground arith
    count-filter d k (x ∷ xs) =
        ground (
          arith,
          count-filter d k xs,
          o.splits d k x,
          o.splits d x k,
          o.splits x k d,
          o.splits k x d,
        )

    none_tied :
        (x k : A) (xs : List A)
        → tied k x ≡ true
        → All (λ y. tied x y ≡ false) xs
        → count (tied k) xs ≡ 0
    none_tied x k [] t a = refl
    none_tied x k (y ∷ ys) t a =
        ground (arith, none_tied x k ys t a.1, a.0, o.splits x k y, o.splits y k x)

    -- At most one of the rows is tied with a given one.
    pub count_of_Apart : (k : A) (xs : List A) → Apart xs → count (tied k) xs ≤ 1
    unfolding Apart
    count_of_Apart k [] a = omega arith
    count_of_Apart k (x ∷ xs) a = ground (arith, count_of_Apart k xs a.1, none_tied x k xs)
