-- ===== src/Pagination/Listing.antt =====
-- server/config/pagination.py: what a client lists that follows `next_cursor` to the end, over a table
-- that stays as it is and over one that changes between the requests.
use assen_platform.Common.{
  ℕ, zero, suc, ◌+◌, ◌≤◌, ◌<◌, ◌≡◌, refl, sym, ap, ◌∙◌, Bool, true, Option, none, some, List, [],
  ◌∷◌, ◌++◌, length, ltb, arith, Bool-cases, if◌then◌else◌, inl, inr, Text, ℤ,
}
use assen_platform.Common.Table.{All, count}
use assen_platform.Pagination.Keyset.{filter, take, last, take-drop, length-drop, count-take-drop}
use assen_platform.Pagination.Sorting.{
  sort, tied, Apart, count_of_Apart, count-sort, count-filter, length-sort,
}
use assen_platform.Pagination.Query.{
  Schema, SeekKey, Entry, paginate, seek_ordering, precedes, clamp_limit, encode_last, encode,
  encode_values, is_concrete,
}
use assen_platform.Pagination.Laws.{IsLawful, IsSeekable, AllConcrete, precedes-IsStrictWeak}
use assen_platform.Pagination.Pages.{after, StartsAt, remaining}
use assen_platform.Pagination.Tiebreak.{pk_key, seek_ordering-has_key, Apart-has_key}
use assen_platform.Pagination.Walk.{
  after_later_of, collect, follow, page_final, page_more, remaining-drop, clamp_limit_bounds,
}

filter_trivial : {A : Type 0} (rows : List A) → filter (λ x. true) rows ≡ rows
unfolding filter
filter_trivial [] = refl
filter_trivial (x ∷ rows) = cc (filter_trivial rows)

count-append :
    {A : Type 0} (p : A → Bool) (xs ys : List A) → count p (xs ++ ys) ≡ count p xs + count p ys
count-append p [] ys = omega arith
count-append p (x ∷ xs) ys = omega (arith, count-append p xs ys)

unfoldable pub replicate : {A : Type 0} → ℕ → A → List A
replicate zero x = []
replicate (suc n) x = x ∷ replicate n x

-- A table as the listing needs it: no two rows have one primary key, and every row can be sought.
pub record IsListable {A V J : Type 0} (m : Schema A V J) (pk : Text) (order_by : List Entry)
    (rows : List A) : Type 0 where
  pub unique : Apart (precedes m (pk_key pk ∷ [])) rows
  pub seekable : All (IsSeekable m (seek_ordering m order_by)) rows

module _ {A V J : Type 0} (m : Schema A V J) (o : IsLawful m) (order_by : List Entry)
    (limit : Option ℤ) (pk : Text) (has_pk : m.pk ≡ some pk)
    (column : is_concrete m pk ≡ true) where
  abbrev seek_keys : List SeekKey
  seek_keys = seek_ordering m order_by

  concrete : AllConcrete m (seek_ordering m order_by)
  concrete = (seek_ordering-has_key m pk order_by has_pk column).1

  apart : (rows : List A) → IsListable m pk order_by rows → Apart (precedes m seek_keys) rows
  apart rows t =
      Apart-has_key m pk seek_keys rows (seek_ordering-has_key m pk order_by has_pk column).0
        t.unique

  encode_seekable :
      (d : A) → IsSeekable m seek_keys d → (token : Text) × (encode m d seek_keys ≡ some token)
  unfolding encode
  encode_seekable d s = (m.dumps (encode_values m s.values), rw s.has refl)

  collect_final :
      (rows : List A) (tables : List (List A)) (cursor : Option Text) (items : List A)
      → paginate m rows order_by cursor limit ≡ (items, none)
      → collect m order_by limit (rows ∷ tables) cursor ≡ (items, true)
  unfolding collect
  collect_final rows tables cursor items h =
      ap
        (λ (page : List A × Option Text).
          follow page.0 page.1 (collect m order_by limit tables page.1))
        h

  collect_more :
      (rows : List A) (tables : List (List A)) (cursor next : Option Text) (token : Text)
      (items : List A)
      → paginate m rows order_by cursor limit ≡ (items, next)
      → next ≡ some token
      → collect m order_by limit (rows ∷ tables) cursor ≡ (
        items ++ (collect m order_by limit tables next).0,
        (collect m order_by limit tables next).1,
      )
  unfolding collect
  collect_more rows tables cursor next token items h e =
      ap
        (λ (page : List A × Option Text).
          follow page.0 page.1 (collect m order_by limit tables page.1))
        h
      ∙ ap (λ (o' : Option Text). follow items o' (collect m order_by limit tables next)) e

  collect_from :
      (fuel : ℕ) (start : Option A) (rows : List A)
      → StartsAt m seek_keys start
      → IsListable m pk order_by rows
      → length (remaining m seek_keys start rows) < fuel
      → collect m order_by limit (replicate fuel rows) (encode_last m seek_keys start)
        ≡ (remaining m seek_keys start rows, true)
  unfolding replicate
  collect_from zero start rows s t h = absurd (omega arith)
  collect_from (suc fuel) start rows s t h =
      elim (Bool-cases (ltb (clamp_limit limit) (length (remaining m seek_keys start rows)))) [
        | inr e ↦
            collect_final rows (replicate fuel rows) (encode_last m seek_keys start)
              (remaining m seek_keys start rows)
              (page_final m order_by limit o concrete start rows s t.seekable (apart rows t)
                (ground arith))
        | inl e ↦
            let more : clamp_limit limit < length (remaining m seek_keys start rows) =
              ground arith in
            let (d, page, final, ds, ahead) =
              page_more m order_by limit o concrete start rows s t.seekable (apart rows t) more in
            let (token, te) = encode_seekable d ds in
            let left =
              remaining-drop m order_by limit o concrete start rows s t.seekable (apart rows t) d
                final ahead in
            let size = clamp_limit limit in
            let left_length = length-drop size (remaining m seek_keys start rows) (omega arith) in
            let rest =
              collect_from fuel (some d) rows ds t
                (rw left (omega (arith, left_length, (clamp_limit_bounds limit).0))) in
            collect_more rows (replicate fuel rows) (encode_last m seek_keys start)
              (encode m d seek_keys) token (take size (remaining m seek_keys start rows)) page te
            ∙ rw (rest, left, take-drop size (remaining m seek_keys start rows)) refl
      ]

  -- For a table whose rows have different primary keys, values for all sort keys that their
  -- columns read back, and cursors that are not too long: a client that follows `next_cursor`
  -- reaches the last page after at most one request more than there are rows, and has listed all
  -- the rows, each once, in their order, whatever page size it asks for.
  pub collect-replicate :
      (rows : List A)
      → IsListable m pk order_by rows
      → collect m order_by limit (replicate (suc (length rows)) rows) none
        ≡ (sort (precedes m (seek_ordering m order_by)) rows, true)
  unfolding remaining
  collect-replicate rows t =
      let same = filter_trivial rows in
      collect_from (suc (length rows)) none rows tt t
        (rw (same, length-sort (precedes m seek_keys) rows) (omega arith))
      ∙ ap (λ (xs : List A). (sort (precedes m seek_keys) xs, true)) same

  page_count :
      (start : Option A) (rows : List A) (k : A)
      → count (tied (precedes m seek_keys) k) (remaining m seek_keys start rows)
        ≡ (if after m seek_keys start k then count (tied (precedes m seek_keys) k) rows else 0)
  unfolding remaining
  page_count none rows k =
      count-sort (precedes m seek_keys) (tied (precedes m seek_keys) k) (filter (λ x. true) rows)
      ∙ ap (count (tied (precedes m seek_keys) k)) (filter_trivial rows)
  page_count (some c) rows k =
      count-sort (precedes m seek_keys) (tied (precedes m seek_keys) k)
        (filter (precedes m seek_keys c) rows)
      ∙ count-filter (precedes m seek_keys) (precedes-IsStrictWeak m o seek_keys) c k rows

  -- How often a row's keys stand on a page that is not the last.
  page_split :
      (start : Option A) (rows : List A) (k d : A)
      → StartsAt m seek_keys start
      → IsListable m pk order_by rows
      → last (take (clamp_limit limit) (remaining m seek_keys start rows)) ≡ some d
      → after m seek_keys start d ≡ true
      → count
            (tied (precedes m seek_keys) k)
            (take (clamp_limit limit) (remaining m seek_keys start rows))
          + (if precedes m seek_keys d k then count (tied (precedes m seek_keys) k) rows else 0)
        ≡ (if after m seek_keys start k then count (tied (precedes m seek_keys) k) rows else 0)
  page_split start rows k d s t final ahead =
      let mine = tied (precedes m seek_keys) k in
      omega (
        arith,
        count-take-drop mine (clamp_limit limit) (remaining m seek_keys start rows),
        ap (count mine) (
            remaining-drop m order_by limit o concrete start rows s t.seekable (apart rows t) d
              final ahead),
        page_count (some d) rows k,
        page_count start rows k,
      )

  count_from :
      (tables : List (List A)) (start : Option A) (k : A) (c : ℕ)
      → StartsAt m seek_keys start
      → All (IsListable m pk order_by) tables
      → All (λ rows. count (tied (precedes m seek_keys) k) rows ≡ c) tables
      → (collect m order_by limit tables (encode_last m seek_keys start)).1 ≡ true
      → count
          (tied (precedes m seek_keys) k)
          (collect m order_by limit tables (encode_last m seek_keys start)).0
        ≡ (if after m seek_keys start k then c else 0)
  unfolding collect
  count_from [] start k c s t h e = cc
  count_from (rows ∷ tables) start k c s t h e =
      elim (Bool-cases (ltb (clamp_limit limit) (length (remaining m seek_keys start rows)))) [
        | inr small ↦
            let final =
              collect_final rows tables (encode_last m seek_keys start)
                (remaining m seek_keys start rows)
                (page_final m order_by limit o concrete start rows s t.0.seekable (apart rows t.0)
                  (ground arith)) in
            rw final (ground (arith, page_count start rows k, h.0))
        | inl e' ↦
            let more : clamp_limit limit < length (remaining m seek_keys start rows) =
              ground arith in
            let (d, page, final, ds, ahead) =
              page_more m order_by limit o concrete start rows s t.0.seekable (apart rows t.0)
                more in
            let (token, te) = encode_seekable d ds in
            let all =
              collect_more rows tables (encode_last m seek_keys start) (encode m d seek_keys) token
                (take (clamp_limit limit) (remaining m seek_keys start rows)) page te in
            let rest =
              count_from tables (some d) k c ds t.1 h.1
                (sym (ap (λ (r : List A × Bool). r.1) all) ∙ e) in
            rw all (
              ground (
                arith,
                h.0,
                rest,
                count-append (tied (precedes m seek_keys) k)
                    (take (clamp_limit limit) (remaining m seek_keys start rows))
                    (collect m order_by limit tables (encode m d seek_keys)).0,
                page_split start rows k d s t.0 final ahead,
              ))
      ]

  -- Under the same conditions on each of the tables that the requests meet, whatever rows come and
  -- go between the requests: when the last page is reached, a row whose sort keys stand in every
  -- table exactly once is listed exactly once, and one that is in none is not listed.
  pub collect-count :
      (tables : List (List A)) (k : A) (c : ℕ)
      → All (IsListable m pk order_by) tables
      → All (λ rows. count (tied (precedes m (seek_ordering m order_by)) k) rows ≡ c) tables
      → (collect m order_by limit tables none).1 ≡ true
      → count
          (tied (precedes m (seek_ordering m order_by)) k)
          (collect m order_by limit tables none).0
        ≡ c
  collect-count tables k c t h e = count_from tables none k c tt t h e

  once_from :
      (tables : List (List A)) (start : Option A) (k : A)
      → StartsAt m seek_keys start
      → All (IsListable m pk order_by) tables
      → count
          (tied (precedes m seek_keys) k)
          (collect m order_by limit tables (encode_last m seek_keys start)).0
        ≤ (if after m seek_keys start k then 1 else 0)
  unfolding collect
  once_from [] start k s t = omega arith
  once_from (rows ∷ tables) start k s t =
      let few =
        count_of_Apart (precedes m seek_keys) (precedes-IsStrictWeak m o seek_keys) k rows
          (apart rows t.0) in
      elim (Bool-cases (ltb (clamp_limit limit) (length (remaining m seek_keys start rows)))) [
        | inr small ↦
            let final =
              collect_final rows tables (encode_last m seek_keys start)
                (remaining m seek_keys start rows)
                (page_final m order_by limit o concrete start rows s t.0.seekable (apart rows t.0)
                  (ground arith)) in
            rw final (ground (arith, page_count start rows k, few))
        | inl e' ↦
            let more : clamp_limit limit < length (remaining m seek_keys start rows) =
              ground arith in
            let (d, page, final, ds, ahead) =
              page_more m order_by limit o concrete start rows s t.0.seekable (apart rows t.0)
                more in
            let (token, te) = encode_seekable d ds in
            let all =
              collect_more rows tables (encode_last m seek_keys start) (encode m d seek_keys) token
                (take (clamp_limit limit) (remaining m seek_keys start rows)) page te in
            rw all (
              ground (
                arith,
                few,
                after_later_of m order_by limit o concrete start d k ahead,
                once_from tables (some d) k ds t.1,
                count-append (tied (precedes m seek_keys) k)
                    (take (clamp_limit limit) (remaining m seek_keys start rows))
                    (collect m order_by limit tables (encode m d seek_keys)).0,
                page_split start rows k d s t.0 final ahead,
              ))
      ]

  -- Under the same conditions on each of the tables that the requests meet, no row is listed
  -- twice, whatever rows come and go between the requests.
  collect-once :
      (tables : List (List A)) (k : A)
      → All (IsListable m pk order_by) tables
      → count
          (tied (precedes m (seek_ordering m order_by)) k)
          (collect m order_by limit tables none).0
        ≤ 1
  collect-once tables k t = once_from tables none k tt t
