-- ===== src/Pagination/Tiebreak.antt =====
-- server/config/pagination.py: the ordering that drives the seek carries the primary key, and only
-- columns that a seek can use.
use assen_platform.Common.{
  ◌≡◌, ◌≢◌, refl, sym, ◌∙◌, true, false, Option, none, some, List, [], ◌∷◌, ◌++◌, arith, Bool-cases,
  Option-cases, inl, inr, Text, text_eq, text_eq_iff,
}
use mathlib.Core.Path.{subst}
use assen_platform.Common.Table.{All}
use assen_platform.Pagination.Sorting.{tied, Apart}
use assen_platform.Pagination.Query.{
  Schema, SeekKey, Entry, named, expression, parse_entries, with_tiebreak, ordering_of,
  seek_ordering, has_key, is_concrete, precedes, parse_entry, less, requested, with_fallback,
}
use assen_platform.Pagination.Laws.{AllConcrete}

abbrev pub pk_key : Text → SeekKey
pk_key pk = record { name = pk; descending = false }

has_key-append : (pk : Text) (keys : List SeekKey) → has_key pk (keys ++ pk_key pk ∷ []) ≡ true
unfolding has_key
has_key-append pk [] = ground (arith, text_eq_iff pk pk)
has_key-append pk (k ∷ keys) = ground (arith, has_key-append pk keys)

module _ {A V J : Type 0} (m : Schema A V J) where
  append-AllConcrete :
      (pk : Text) (keys : List SeekKey)
      → is_concrete m pk ≡ true
      → AllConcrete m keys
      → AllConcrete m (keys ++ pk_key pk ∷ [])
  append-AllConcrete pk [] c h = (c, tt)
  append-AllConcrete pk (k ∷ keys) c h = (h.0, append-AllConcrete pk keys c h.1)

  parse_entries-AllConcrete :
      (pk : Text) (entries : List Entry) (keys : List SeekKey)
      → parse_entries m pk entries ≡ some keys
      → AllConcrete m keys
  unfolding parse_entries
  parse_entries-AllConcrete pk [] keys h =
      let e : [] ≡ keys = ground arith in subst (AllConcrete m) e tt
  parse_entries-AllConcrete pk (expression ∷ entries) keys h = cc
  parse_entries-AllConcrete pk (named t ∷ entries) keys h =
      elim (Bool-cases (is_concrete m (parse_entry pk t).name)) [
        | inr n ↦ ground arith
        | inl c ↦ elim (Option-cases (parse_entries m pk entries)) [
          | inl n ↦ ground arith
          | inr (rest, f) ↦
              let e : parse_entry pk t ∷ rest ≡ keys = ground arith in
              subst (AllConcrete m) e (c, parse_entries-AllConcrete pk entries rest f)
        ]
      ]

  abbrev IsUsable : Text → List SeekKey → Type 0
  IsUsable pk keys = (has_key pk keys ≡ true) × AllConcrete m keys

  with_fallback-IsUsable :
      (pk : Text) (keys : List SeekKey)
      → m.pk ≡ some pk
      → is_concrete m pk ≡ true
      → (keys ≢ [] → IsUsable pk keys)
      → IsUsable pk (with_fallback m keys)
  unfolding has_key is_concrete
  with_fallback-IsUsable pk [] h c f = rw h (ground (arith, text_eq_iff pk pk), (c, tt))
  with_fallback-IsUsable pk (k ∷ keys) h c f = f (λ e. cc)

  with_tiebreak-IsUsable :
      (pk : Text) (parsed : Option (List SeekKey))
      → is_concrete m pk ≡ true
      → ((keys : List SeekKey) → parsed ≡ some keys → AllConcrete m keys)
      → with_tiebreak m pk parsed ≢ []
      → IsUsable pk (with_tiebreak m pk parsed)
  with_tiebreak-IsUsable pk none c f h = absurd (h refl)
  with_tiebreak-IsUsable pk (some keys) c f h = elim (Bool-cases (has_key pk keys)) [
    | inl e ↦ rw e (e, f keys refl)
    | inr e ↦ rw e (has_key-append pk keys, append-AllConcrete pk keys c (f keys refl))
  ]

  ordering_of_lem :
      (pk : Text) (order_by : List Entry)
      → m.pk ≡ some pk
      → ordering_of m order_by ≡ with_tiebreak m pk (parse_entries m pk (requested m order_by))
  unfolding ordering_of
  ordering_of_lem pk order_by h = ground arith

  -- Whatever a caller orders by: the ordering of the seek has the primary key among its keys, and
  -- each of its keys is a column of the model that is no relation, if the primary key is one.
  pub seek_ordering-has_key :
      (pk : Text) (order_by : List Entry)
      → m.pk ≡ some pk
      → is_concrete m pk ≡ true
      → (has_key pk (seek_ordering m order_by) ≡ true) × AllConcrete m (seek_ordering m order_by)
  unfolding seek_ordering
  seek_ordering-has_key pk order_by h c =
      with_fallback-IsUsable pk (ordering_of m order_by) h c (λ nonempty.
        let e = ordering_of_lem pk order_by h in
        subst (IsUsable pk) (sym e) (
          with_tiebreak-IsUsable pk (parse_entries m pk (requested m order_by)) c
            (parse_entries-AllConcrete pk (requested m order_by)) (λ empty. nonempty (e ∙ empty))))

  tied_tail :
      (k : SeekKey) (keys : List SeekKey) (x y : A)
      → tied (precedes m (k ∷ keys)) x y ≡ true
      → (tied (precedes m keys) x y ≡ true)
        × (less m (m.getattr x k.name) (m.getattr y k.name) ≡ false)
        × (less m (m.getattr y k.name) (m.getattr x k.name) ≡ false)
  unfolding precedes
  tied_tail k keys x y t = elim (Bool-cases k.descending) [
    | inl d ↦ (ground arith, ground arith, ground arith)
    | inr d ↦ (ground arith, ground arith, ground arith)
  ]

  tied-key :
      (name : Text) (keys : List SeekKey) (x y : A)
      → has_key name keys ≡ true
      → tied (precedes m keys) x y ≡ true
      → tied (precedes m (pk_key name ∷ [])) x y ≡ true
  unfolding has_key precedes
  tied-key name [] x y h t = cc
  tied-key name (k ∷ keys) x y h t =
      let (rest, a, b) = tied_tail k keys x y t in
      elim (Bool-cases (text_eq k.name name)) [
        | inl e ↦
            subst (λ (n : Text). tied (precedes m (pk_key n ∷ [])) x y ≡ true)
              ((text_eq_iff k.name name).0 e) (rw (a, b) refl)
        | inr e ↦ tied-key name keys x y (ground arith) rest
      ]

  apart_all :
      (pk : Text) (keys : List SeekKey) (x : A) (rows : List A)
      → has_key pk keys ≡ true
      → All (λ y. tied (precedes m (pk_key pk ∷ [])) x y ≡ false) rows
      → All (λ y. tied (precedes m keys) x y ≡ false) rows
  apart_all pk keys x [] h a = tt
  apart_all pk keys x (y ∷ rows) h a =
      (ground (arith, tied-key pk keys x y h, a.0), apart_all pk keys x rows h a.1)

  -- Rows with different primary keys are never tied in an ordering that carries it.
  pub Apart-has_key :
      (pk : Text) (keys : List SeekKey) (rows : List A)
      → has_key pk keys ≡ true
      → Apart (precedes m (pk_key pk ∷ [])) rows
      → Apart (precedes m keys) rows
  unfolding Apart
  Apart-has_key pk keys [] h a = tt
  Apart-has_key pk keys (x ∷ rows) h a =
      (apart_all pk keys x rows h a.0, Apart-has_key pk keys rows h a.1)
