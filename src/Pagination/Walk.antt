-- ===== src/Pagination/Walk.antt =====
-- server/config/pagination.py: a client that follows `next_cursor` from page to page, where each
-- request may meet another table.
use assen_platform.Common.{
  ℕ, zero, suc, ◌≤◌, ◌<◌, ◌≡◌, refl, sym, ap, ◌∙◌, Bool, true, false, Option, none, some, List, [],
  ◌∷◌, ◌++◌, length, arith, Bool-cases, Option-cases, inl, inr, Text, ℤ, pos, negsuc,
}
use mathlib.Core.Path.{subst}
use assen_platform.Common.Table.{All}
use assen_platform.Pagination.Keyset.{filter, take, drop, last, take_all, filter-filter, All-filter}
use assen_platform.Pagination.Sorting.{
  sort, Apart, Ascending, Ascending-filter, drop-filter, All-last, All-sort, filter-sort,
  sort-Ascending,
}
use assen_platform.Pagination.Query.{
  Schema, SeekKey, Entry, paginate, seek_ordering, precedes, clamp_limit, encode_last,
}
use assen_platform.Pagination.Laws.{IsLawful, IsSeekable, AllConcrete, precedes-IsStrictWeak}
use assen_platform.Pagination.Pages.{after, StartsAt, remaining, paginate_lem}

-- A page has at least one place and at most a hundred, whatever the client asks for.
pub clamp_limit_bounds : (limit : Option ℤ) → (1 ≤ clamp_limit limit) × (clamp_limit limit ≤ 100)
unfolding clamp_limit
clamp_limit_bounds none = omega arith
clamp_limit_bounds (some (pos n)) = ground arith
clamp_limit_bounds (some (negsuc n)) = omega arith

last_of_take :
    {A : Type 0} (n : ℕ) (xs : List A)
    → 1 ≤ n
    → n < length xs
    → (x : A) × (last (take n xs) ≡ some x)
unfolding last take length
last_of_take zero xs h g = absurd (omega arith)
last_of_take (suc n) [] h g = absurd (omega arith)
last_of_take (suc n) (x ∷ xs) h g = elim (Option-cases (last (take n xs))) [
  | inl e ↦ (x, ground arith)
  | inr (y, e) ↦ (y, ground arith)
]

-- The items so far and those of the requests after them.
abbrev pub follow : {A : Type 0} → List A → Option Text → List A × Bool → List A × Bool
follow items none rest = (items, true)
follow items (some token) rest = (items ++ rest.0, rest.1)

module _ {A V J : Type 0} (m : Schema A V J) (order_by : List Entry) (limit : Option ℤ) where
  -- The requests of a client, one to a table, and whether a page without a next cursor was reached.
  unfoldable pub collect : List (List A) → Option Text → List A × Bool
  collect [] cursor = ([], false)
  collect (rows ∷ tables) cursor =
      let page = paginate m rows order_by cursor limit in
      let rest = collect tables page.1 in follow page.0 page.1 rest

  module _ (o : IsLawful m) (concrete : AllConcrete m (seek_ordering m order_by)) where
    abbrev seek_keys : List SeekKey
    seek_keys = seek_ordering m order_by

    abbrev row_before : A → A → Bool
    row_before = precedes m (seek_ordering m order_by)

    pub after_later_of :
        (start : Option A) (d x : A)
        → after m seek_keys start d ≡ true
        → row_before d x ≡ true
        → after m seek_keys start x ≡ true
    after_later_of none d x e f = refl
    after_later_of (some c) d x e f = (precedes-IsStrictWeak m o seek_keys).transitive c d x e f

    module _ (start : Option A) (rows : List A) (s : StartsAt m seek_keys start)
        (h : All (IsSeekable m seek_keys) rows) (apart : Apart row_before rows) where
      after_all :
          (xs : List A)
          → All (λ x. after m seek_keys start x ≡ true) (filter (after m seek_keys start) xs)
      unfolding filter
      after_all [] = tt
      after_all (x ∷ xs) = elim (Bool-cases (after m seek_keys start x)) [
        | inl e ↦ rw e (e, after_all xs)
        | inr e ↦ rw e (after_all xs)
      ]

      after_later :
          (d x : A)
          → after m seek_keys start d ≡ true
          → row_before d x ≡ true
          → after m seek_keys start x ≡ true
      after_later d x e f = after_later_of start d x e f

      -- The last page.
      pub page_final :
          length (remaining m seek_keys start rows) ≤ clamp_limit limit
          → paginate m rows order_by (encode_last m seek_keys start) limit
            ≡ (remaining m seek_keys start rows, none)
      page_final e =
          let place = paginate_lem m o order_by limit start rows concrete s h in
          ground (arith, place, take_all (clamp_limit limit) (remaining m seek_keys start rows) e)

      -- Any other page: its last row is where the next one starts.
      pub page_more :
          clamp_limit limit < length (remaining m seek_keys start rows)
          → (d : A) × (paginate m rows order_by (encode_last m seek_keys start) limit ≡ (
            take (clamp_limit limit) (remaining m seek_keys start rows),
            encode_last m seek_keys (some d),
          ))
            × (last (take (clamp_limit limit) (remaining m seek_keys start rows)) ≡ some d)
            × IsSeekable m seek_keys d
            × (after m seek_keys start d ≡ true)
      unfolding remaining
      page_more e =
          let (d, f) =
            last_of_take (clamp_limit limit) (remaining m seek_keys start rows)
              (clamp_limit_bounds limit).0 e in
          (
            d,
            ground (arith, paginate_lem m o order_by limit start rows concrete s h, f),
            f,
            All-last (IsSeekable m seek_keys) (clamp_limit limit) (remaining m seek_keys start rows)
                d
                (All-sort row_before (IsSeekable m seek_keys)
                  (filter (after m seek_keys start) rows)
                  (All-filter (IsSeekable m seek_keys) (after m seek_keys start) rows h))
                f,
            All-last (λ x. after m seek_keys start x ≡ true) (clamp_limit limit)
                (remaining m seek_keys start rows) d
                (All-sort row_before (λ x. after m seek_keys start x ≡ true)
                  (filter (after m seek_keys start) rows) (after_all rows))
                f,
          )

      -- What is left after the last row of a page.
      pub remaining-drop :
          (d : A)
          → last (take (clamp_limit limit) (remaining m seek_keys start rows)) ≡ some d
          → after m seek_keys start d ≡ true
          → remaining m seek_keys (some d) rows
            ≡ drop (clamp_limit limit) (remaining m seek_keys start rows)
      unfolding remaining
      remaining-drop d e f =
          let w = precedes-IsStrictWeak m o seek_keys in
          let ahead = after m seek_keys start in
          let seen = filter ahead (sort row_before rows) in
          let same : remaining m seek_keys start rows ≡ seen =
            sym (filter-sort row_before w ahead rows apart) in
          sym (filter-sort row_before w (row_before d) rows apart)
          ∙ sym (filter-filter (row_before d) ahead (sort row_before rows) (λ x. after_later d x f))
          ∙ ap (filter (row_before d)) (sym same)
          ∙ drop-filter row_before w (clamp_limit limit) d (remaining m seek_keys start rows)
              (subst (Ascending row_before) (sym same) (
                Ascending-filter row_before w ahead (sort row_before rows)
                  (sort-Ascending row_before w rows apart)))
              e
