-- ===== src/Pagination/Pages.antt =====
-- server/config/pagination.py: what one call of `paginate` returns, for rows that can be sought.
use assen_platform.Common.{
  ℕ, suc, ◌≡◌, refl, sym, ap, ◌∙◌, Bool, true, Option, none, some, List, [], ◌∷◌, length, ltb,
  arith, if◌then◌else◌, ℤ,
}
use assen_platform.Common.Table.{All}
use assen_platform.Pagination.Keyset.{
  filter, take, last, take-take, length-take_fits, length-take_more, filter_every,
}
use assen_platform.Pagination.Sorting.{sort}
use assen_platform.Pagination.Query.{
  Schema, SeekKey, Entry, paginate, seek_ordering, precedes, seek_predicate, clamp_limit,
  encode_last, decode, sought,
}
use assen_platform.Pagination.Laws.{
  IsLawful, IsSeekable, AllConcrete, decode-encode, seek_predicate-precedes,
}

module _ {A V J : Type 0} (m : Schema A V J) (keys : List SeekKey) where
  -- The rows that are left after a row, or all of them.
  abbrev pub after : Option A → A → Bool
  after none x = true
  after (some c) x = precedes m keys c x

  abbrev pub StartsAt : Option A → Type 0
  StartsAt none = Unit
  StartsAt (some c) = IsSeekable m keys c

  -- The rows that are left, in their order.
  unfoldable pub remaining : Option A → List A → List A
  remaining start rows = sort (precedes m keys) (filter (after start) rows)

filter_same :
    {A : Type 0} (p q : A → Bool) (xs : List A)
    → All (λ x. p x ≡ q x) xs
    → filter p xs ≡ filter q xs
unfolding filter
filter_same p q [] h = refl
filter_same p q (x ∷ xs) h = ground (arith, filter_same p q xs)

All_map {κ μ} :
    {A : Type 0} (P : A → Type κ) (Q : A → Type μ) (xs : List A)
    → ((x : A) → P x → Q x)
    → All P xs
    → All Q xs
All_map P Q [] f h = tt
All_map P Q (x ∷ xs) f h = (f x h.0, All_map P Q xs f h.1)

module _ {A V J : Type 0} (m : Schema A V J) (o : IsLawful m) where
  module _ (keys : List SeekKey) (concrete : AllConcrete m keys) where
    sought-decode :
        (start : Option A) (rows : List A)
        → StartsAt m keys start
        → All (IsSeekable m keys) rows
        → sought m keys (decode m (encode_last m keys start) keys) rows
          ≡ filter (after m keys start) rows
    unfolding decode
    sought-decode none rows s h = sym (
        filter_every (λ x. true) rows
          (All_map (IsSeekable m keys) (λ x. true ≡ true) rows (λ x _. refl) h))
    sought-decode (some c) rows s h =
        ap (λ (values : Option (List V)). sought m keys values rows)
          (decode-encode m o keys c s concrete)
        ∙ filter_same (seek_predicate m keys s.values) (precedes m keys c) rows (
            All_map (IsSeekable m keys)
              (λ x. seek_predicate m keys s.values x ≡ precedes m keys c x) rows
              (λ x t. seek_predicate-precedes m o keys c x s.values t.values s.has t.has) h)

  -- The row that is fetched beyond the page only tells whether rows are left.
  window_lem : (n : ℕ) (rows : List A) → ltb n (length (take (suc n) rows)) ≡ ltb n (length rows)
  window_lem n rows = ground (arith, length-take_fits n rows, length-take_more n rows)

  -- A page is the first rows, as many as fit, of those after the cursor's row, in their order. It has a
  -- next cursor, the one of its last row, just if rows are left.
  pub paginate_lem :
      (order_by : List Entry) (limit : Option ℤ) (start : Option A) (rows : List A)
      → AllConcrete m (seek_ordering m order_by)
      → StartsAt m (seek_ordering m order_by) start
      → All (IsSeekable m (seek_ordering m order_by)) rows
      → paginate m rows order_by (encode_last m (seek_ordering m order_by) start) limit ≡ (
        take (clamp_limit limit) (remaining m (seek_ordering m order_by) start rows),
        if ltb (clamp_limit limit) (length (remaining m (seek_ordering m order_by) start rows))
            then encode_last m (seek_ordering m order_by) (
                last (take (clamp_limit limit) (remaining m (seek_ordering m order_by) start rows)))
            else none,
      )
  unfolding paginate remaining
  paginate_lem order_by limit start rows concrete s h =
      rw
        (
          sought-decode (seek_ordering m order_by) concrete start rows s h,
          take-take (clamp_limit limit) (
              sort (precedes m (seek_ordering m order_by))
                (filter (after m (seek_ordering m order_by) start) rows)),
          window_lem (clamp_limit limit) (
              sort (precedes m (seek_ordering m order_by))
                (filter (after m (seek_ordering m order_by) start) rows)),
        )
        refl
