-- ===== src/Pagination/Laws.antt =====
-- server/config/pagination.py: a cursor decodes to the values that it was made of, and the seek
-- predicate is the order of the rows.
use assen_platform.Common.{
  ◌≤◌, ◌≡◌, refl, sym, ◌∙◌, Bool, true, false, not, ◌&&◌, Option, none, some, List, [], ◌∷◌, length,
  arith, Bool-cases, Option-cases, if◌then◌else◌, inl, inr, Text, is_nonempty,
}
use assen_platform.Common.Table.{All}
use assen_platform.Pagination.Sorting.{IsStrictWeak}
use assen_platform.Pagination.Query.{
  Schema, SeekKey, array, is_concrete, values_of, encode, decode, encode_values, coerce, seek_loop,
  seek_predicate, precedes, max_cursor_len, less, equals,
}

-- The column values are totally ordered (those of two types, which no column mixes, in any way), a
-- column's own values are read back by its `to_python`, and the libraries read back what they wrote.
pub record IsLawful {A V J : Type 0} (m : Schema A V J) : Type 0 where
  pub irreflexive : (a : V) → m.lt a a ≡ false
  pub transitive : (a b c : V) → m.lt a b ≡ true → m.lt b c ≡ true → m.lt a c ≡ true
  pub splits : (a b c : V) → m.lt a b ≡ false → m.lt b c ≡ false → m.lt a c ≡ false
  pub eq_lem : (a b : V) → m.eq a b ≡ (not (m.lt a b) && not (m.lt b a))
  pub to_python-encode_value :
      (x : A) (name : Text) (v : V)
      → is_concrete m name ≡ true
      → m.getattr x name ≡ some v
      → m.to_python name (m.encode_value v) ≡ some v
  pub loads-dumps : (js : List J) → m.loads (m.dumps js) ≡ some (array js)
  pub dumps_nonempty : (js : List J) → is_nonempty (m.dumps js) ≡ true

module _ {A V J : Type 0} (m : Schema A V J) where
  abbrev pub AllConcrete : List SeekKey → Type 0
  AllConcrete keys = All (λ (k : SeekKey). is_concrete m k.name ≡ true) keys

  -- The row has a value for every key, and its cursor is not too long to be read.
  pub record IsSeekable (keys : List SeekKey) (x : A) : Type 0 where
    pub values : List V
    pub has : values_of m keys x ≡ some values
    pub short : length (m.dumps (encode_values m values)) ≤ max_cursor_len

  module _ (o : IsLawful m) where
    less_irreflexive : (a : Option V) → less m a a ≡ false
    less_irreflexive none = refl
    less_irreflexive (some v) = o.irreflexive v

    less_transitive : (a b c : Option V) → less m a b ≡ true → less m b c ≡ true → less m a c ≡ true
    less_transitive (some a) (some b) (some c) h k = o.transitive a b c h k
    less_transitive a b none h k = ground arith
    less_transitive none b c h k = ground arith
    less_transitive (some a) none c h k = ground arith

    less_splits : (a b c : Option V) → less m a b ≡ false → less m b c ≡ false → less m a c ≡ false
    less_splits (some a) (some b) (some c) h k = o.splits a b c h k
    less_splits none b c h k = refl
    less_splits (some a) none c h k = ground arith
    less_splits (some a) (some b) none h k = ground arith

    precedes_irreflexive : (keys : List SeekKey) (x : A) → precedes m keys x x ≡ false
    unfolding precedes
    precedes_irreflexive [] x = refl
    precedes_irreflexive (k ∷ keys) x =
        ground (arith, less_irreflexive (m.getattr x k.name), precedes_irreflexive keys x)

    -- One column of the order, with the outcome `rest` of the columns after it.
    lex : Option V → Option V → Bool → Bool
    lex a b rest = if less m a b then true else if less m b a then false else rest

    lex_transitive :
        (a b c : Option V) (r s t : Bool)
        → (r ≡ true → s ≡ true → t ≡ true)
        → lex a b r ≡ true
        → lex b c s ≡ true
        → lex a c t ≡ true
    unfolding lex
    lex_transitive a b c r s t f h g = ground (
      arith,
      f,
      less_transitive a b c,
      less_splits a c b,
      less_splits c a b,
      less_splits b a c,
      less_splits c b a,
      less_splits b c a,
      less_splits a b c,
    )

    lex_splits :
        (a b c : Option V) (r s t : Bool)
        → (r ≡ false → s ≡ false → t ≡ false)
        → lex a b r ≡ false
        → lex b c s ≡ false
        → lex a c t ≡ false
    unfolding lex
    lex_splits a b c r s t f h g = ground (
      arith,
      f,
      less_transitive c b a,
      less_splits a b c,
      less_splits a c b,
      less_splits c a b,
      less_splits b a c,
      less_splits c b a,
      less_splits b c a,
    )

    precedes_down :
        (k : SeekKey) (keys : List SeekKey) (x y : A)
        → k.descending ≡ true
        → precedes m (k ∷ keys) x y
          ≡ lex (m.getattr y k.name) (m.getattr x k.name) (precedes m keys x y)
    unfolding precedes lex
    precedes_down k keys x y d = rw d refl

    precedes_up :
        (k : SeekKey) (keys : List SeekKey) (x y : A)
        → k.descending ≡ false
        → precedes m (k ∷ keys) x y
          ≡ lex (m.getattr x k.name) (m.getattr y k.name) (precedes m keys x y)
    unfolding precedes lex
    precedes_up k keys x y d = rw d refl

    precedes_transitive :
        (keys : List SeekKey) (x y z : A)
        → precedes m keys x y ≡ true
        → precedes m keys y z ≡ true
        → precedes m keys x z ≡ true
    unfolding precedes
    precedes_transitive [] x y z h g = h
    precedes_transitive (k ∷ keys) x y z h g = elim (Bool-cases k.descending) [
      | inl d ↦
          precedes_down k keys x z d
          ∙ lex_transitive (m.getattr z k.name) (m.getattr y k.name) (m.getattr x k.name)
              (precedes m keys y z) (precedes m keys x y) (precedes m keys x z)
              (λ q p. precedes_transitive keys x y z p q) (sym (precedes_down k keys y z d) ∙ g)
              (sym (precedes_down k keys x y d) ∙ h)
      | inr d ↦
          precedes_up k keys x z d
          ∙ lex_transitive (m.getattr x k.name) (m.getattr y k.name) (m.getattr z k.name)
              (precedes m keys x y) (precedes m keys y z) (precedes m keys x z)
              (precedes_transitive keys x y z) (sym (precedes_up k keys x y d) ∙ h)
              (sym (precedes_up k keys y z d) ∙ g)
    ]

    precedes_splits :
        (keys : List SeekKey) (x y z : A)
        → precedes m keys x y ≡ false
        → precedes m keys y z ≡ false
        → precedes m keys x z ≡ false
    unfolding precedes
    precedes_splits [] x y z h g = refl
    precedes_splits (k ∷ keys) x y z h g = elim (Bool-cases k.descending) [
      | inl d ↦
          precedes_down k keys x z d
          ∙ lex_splits (m.getattr z k.name) (m.getattr y k.name) (m.getattr x k.name)
              (precedes m keys y z) (precedes m keys x y) (precedes m keys x z)
              (λ q p. precedes_splits keys x y z p q) (sym (precedes_down k keys y z d) ∙ g)
              (sym (precedes_down k keys x y d) ∙ h)
      | inr d ↦
          precedes_up k keys x z d
          ∙ lex_splits (m.getattr x k.name) (m.getattr y k.name) (m.getattr z k.name)
              (precedes m keys x y) (precedes m keys y z) (precedes m keys x z)
              (precedes_splits keys x y z) (sym (precedes_up k keys x y d) ∙ h)
              (sym (precedes_up k keys y z d) ∙ g)
    ]

    -- The order of the rows is a strict one.
    pub precedes-IsStrictWeak : (keys : List SeekKey) → IsStrictWeak (precedes m keys)
    precedes-IsStrictWeak keys = record {
      irreflexive = precedes_irreflexive keys;
      transitive = precedes_transitive keys;
      splits = precedes_splits keys;
    }

    values_of_cons :
        (k : SeekKey) (keys : List SeekKey) (x : A) (values : List V)
        → values_of m (k ∷ keys) x ≡ some values
        → (v : V) × (vs : List V) × (m.getattr x k.name ≡ some v)
          × (values_of m keys x ≡ some vs)
          × (values ≡ v ∷ vs)
    unfolding values_of
    values_of_cons k keys x values h = elim (Option-cases (m.getattr x k.name)) [
      | inl n ↦ ground arith
      | inr (v, f) ↦ elim (Option-cases (values_of m keys x)) [
        | inl n ↦ ground arith
        | inr (vs, g) ↦ (v, vs, f, g, ground arith)
      ]
    ]

    coerce-encode_values :
        (keys : List SeekKey) (x : A) (values : List V)
        → AllConcrete keys
        → values_of m keys x ≡ some values
        → coerce m keys (encode_values m values) ≡ some values
    unfolding coerce values_of is_concrete
    coerce-encode_values [] x values h e = ground arith
    coerce-encode_values (k ∷ keys) x values h e =
        let (v, vs, f, g, s) = values_of_cons k keys x values e in
        elim (Option-cases (m.get_field k.name)) [
          | inl n ↦ ground (arith, h.0)
          | inr (field, found) ↦ ground (
            arith,
            h.0,
            o.to_python-encode_value x k.name v h.0 f,
            coerce-encode_values keys x vs h.1 g,
          )
        ]

    length-values_of :
        (keys : List SeekKey) (x : A) (values : List V)
        → values_of m keys x ≡ some values
        → length (encode_values m values) ≡ length keys
    unfolding length values_of
    length-values_of [] x values h = ground arith
    length-values_of (k ∷ keys) x values h =
        let (v, vs, f, g, s) = values_of_cons k keys x values h in
        rw s (omega (arith, length-values_of keys x vs g))

    -- Where each column's `to_python` reads back the values that rows have in it, and the
    -- libraries what they wrote, the cursor of a row that has a value for every key and whose
    -- token is not too long decodes to these values.
    pub decode-encode :
        (keys : List SeekKey) (x : A) (s : IsSeekable keys x)
        → AllConcrete keys
        → decode m (encode m x keys) keys ≡ some s.values
    unfolding encode decode
    decode-encode keys x s h = ground (
      arith,
      s.has,
      s.short,
      o.loads-dumps (encode_values m s.values),
      o.dumps_nonempty (encode_values m s.values),
      coerce-encode_values keys x s.values h s.has,
      length-values_of keys x s.values s.has,
    )

    seek_loop_lem :
        (keys : List SeekKey) (c x : A) (values row : List V) (earlier : A → Bool)
        → values_of m keys c ≡ some values
        → values_of m keys x ≡ some row
        → seek_loop m keys values earlier x ≡ (earlier x && precedes m keys c x)
    unfolding seek_loop values_of precedes
    seek_loop_lem [] c x values row earlier hc hx = ground arith
    seek_loop_lem (k ∷ keys) c x values row earlier hc hx =
        let (v, vs, cv, cvs, ce) = values_of_cons k keys c values hc in
        let (w, ws, xw, xws, xe) = values_of_cons k keys x row hx in
        ground (
          arith,
          o.eq_lem w v,
          seek_loop_lem keys c x vs ws (λ y. earlier y && equals m v (m.getattr y k.name)) cvs xws,
        )

    -- The seek predicate at the values of a row is "strictly after that row", for rows without nulls.
    pub seek_predicate-precedes :
        (keys : List SeekKey) (c x : A) (values row : List V)
        → values_of m keys c ≡ some values
        → values_of m keys x ≡ some row
        → seek_predicate m keys values x ≡ precedes m keys c x
    unfolding seek_predicate
    seek_predicate-precedes keys c x values row hc hx =
        ground (arith, seek_loop_lem keys c x values row (λ y. true) hc hx)
