-- ===== src/Pagination/Query.antt =====
-- server/config/pagination.py: the page size, the ordering that drives the seek, the cursor, the seek
-- predicate and `paginate`.
use assen_platform.Common.{
  ℕ, suc, Bool, true, false, not, ◌&&◌, ◌||◌, Option, none, some, List, [], ◌∷◌, ◌++◌, length, ltb,
  ◌==◌, get_or, if◌then◌else◌, Text, text_eq, is_nonempty, ℤ, pos, negsuc,
}
use assen_platform.Common.Options.{◌>>=◌}
use assen_platform.Pagination.Keyset.{filter, take, last}
use assen_platform.Pagination.Sorting.{sort}

abbrev pub default_limit : ℕ
default_limit = 20

abbrev pub max_limit : ℕ
max_limit = 100

abbrev pub max_cursor_len : ℕ
max_cursor_len = 512

-- `min(limit, MAX_LIMIT)` and `max(1, ...)`
at_least_one : ℕ → ℕ
at_least_one n = if ltb 1 n then n else 1

unfoldable pub clamp_limit : Option ℤ → ℕ
unfolding at_least_one
clamp_limit none = default_limit
clamp_limit (some (pos n)) = at_least_one (if ltb n max_limit then n else max_limit)
clamp_limit (some (negsuc n)) = 1

-- An entry of `order_by`: a field's name, with a leading `-` if descending, or an expression.
pub data Entry : Type 0 where
  named : Text → Entry
  expression : Entry

pub record Field : Type 0 where
  pub is_field : Bool
  pub is_relation : Bool

pub record SeekKey : Type 0 where
  pub name : Text
  pub descending : Bool

pub data Document (J : Type 0) : Type 0 where
  array : List J → Document J
  other_json : Document J

-- What Django's model of the rows `A`, the database and the base64 and JSON libraries supply.
pub record Schema (A V J : Type 0) : Type 0 where
  pub pk : Option Text
  pub meta_ordering : List Entry
  pub get_field : Text → Option Field
  pub getattr : A → Text → Option V
  pub lt : V → V → Bool
  pub eq : V → V → Bool
  pub encode_value : V → J
  pub to_python : Text → J → Option V
  pub dumps : List J → Text
  pub loads : Text → Option (Document J)

abbrev minus : ℕ
minus = 45

abbrev pk_word : Text
pk_word = 112 ∷ 107 ∷ []

abbrev id_word : Text
id_word = 105 ∷ 100 ∷ []

unfoldable pub parse_entry : Text → Text → SeekKey
parse_entry pk [] = record { name = []; descending = false }
parse_entry pk (c ∷ rest) =
    let descending = c == minus in
    let name = if descending then rest else c ∷ rest in
    record { name = if text_eq name pk_word then pk else name; descending = descending }

unfoldable pub has_key : Text → List SeekKey → Bool
has_key name [] = false
has_key name (k ∷ keys) = text_eq k.name name || has_key name keys

module _ {A V J : Type 0} (m : Schema A V J) where
  unfoldable pub is_concrete : Text → Bool
  is_concrete name = elim (m.get_field name) [
    | none ↦ false
    | some f ↦ f.is_field && not f.is_relation
  ]

  unfoldable pub parse_entries : Text → List Entry → Option (List SeekKey)
  unfolding is_concrete parse_entry
  parse_entries pk [] = some []
  parse_entries pk (expression ∷ entries) = none
  parse_entries pk (named text ∷ entries) =
      let key = parse_entry pk text in
      let rest = parse_entries pk entries in
      if is_concrete key.name then (rest >>= λ keys. some (key ∷ keys)) else none

  abbrev pub with_tiebreak : Text → Option (List SeekKey) → List SeekKey
  with_tiebreak pk none = []
  with_tiebreak pk (some keys) =
      if has_key pk keys then keys else keys ++ (record { name = pk; descending = false } ∷ [])

  abbrev pub requested : List Entry → List Entry
  requested [] = m.meta_ordering
  requested (e ∷ entries) = e ∷ entries

  -- `_ordering_of`
  unfoldable pub ordering_of : List Entry → List SeekKey
  unfolding parse_entries has_key
  ordering_of order_by = elim m.pk [
    | none ↦ []
    | some pk ↦ with_tiebreak pk (parse_entries pk (requested order_by))
  ]

  abbrev pub with_fallback : List SeekKey → List SeekKey
  with_fallback [] = record { name = get_or m.pk id_word; descending = false } ∷ []
  with_fallback (k ∷ keys) = k ∷ keys

  -- The ordering of `paginate`, with its fallback to the primary key.
  unfoldable pub seek_ordering : List Entry → List SeekKey
  unfolding ordering_of
  seek_ordering order_by = with_fallback (ordering_of order_by)

  -- The values of a row under an ordering; `none` if one is missing or null.
  unfoldable pub values_of : List SeekKey → A → Option (List V)
  values_of [] x = some []
  values_of (k ∷ keys) x = do v ← m.getattr x k.name; vs ← values_of keys x; some (v ∷ vs)

  abbrev pub encode_values : List V → List J
  encode_values [] = []
  encode_values (v ∷ vs) = m.encode_value v ∷ encode_values vs

  -- `_encode`
  unfoldable pub encode : A → List SeekKey → Option Text
  unfolding values_of
  encode x keys = do vs ← values_of keys x; some (m.dumps (encode_values vs))

  -- The loop of `_decode` over the ordering and the decoded values.
  unfoldable pub coerce : List SeekKey → List J → Option (List V)
  coerce [] [] = some []
  coerce (k ∷ keys) (raw ∷ data') = do
    f ← m.get_field k.name
    v ← if f.is_field then m.to_python k.name raw else none
    vs ← coerce keys data'
    some (v ∷ vs)
  coerce _ _ = none

  abbrev coerce_document : List SeekKey → Option (Document J) → Option (List V)
  coerce_document keys (some (array data')) =
      if length data' == length keys then coerce keys data' else none
  coerce_document keys _ = none

  -- `_decode`
  unfoldable pub decode : Option Text → List SeekKey → Option (List V)
  unfolding coerce length
  decode none keys = none
  decode (some cursor) keys =
      if not (is_nonempty cursor)
      then none
      else if ltb max_cursor_len (length cursor)
      then none
      else coerce_document keys (m.loads cursor)

  -- `name > v`, or `name < v` for a descending key; a null satisfies neither.
  abbrev pub beyond : Bool → V → Option V → Bool
  beyond descending v none = false
  beyond true v (some w) = m.lt w v
  beyond false v (some w) = m.lt v w

  abbrev pub equals : V → Option V → Bool
  equals v none = false
  equals v (some w) = m.eq w v

  -- The loop of `_seek_predicate`; `earlier` says that the keys before equal their values.
  unfoldable pub seek_loop : List SeekKey → List V → (A → Bool) → A → Bool
  seek_loop (k ∷ keys) (v ∷ vs) earlier x =
      (earlier x && beyond k.descending v (m.getattr x k.name))
      || seek_loop keys vs (λ y. earlier y && equals v (m.getattr y k.name)) x
  seek_loop _ _ earlier x = false

  -- `_seek_predicate`
  unfoldable pub seek_predicate : List SeekKey → List V → A → Bool
  unfolding seek_loop
  seek_predicate keys values = seek_loop keys values (λ x. true)

  -- The database's order on one column: nulls stand after every value.
  abbrev pub less : Option V → Option V → Bool
  less none b = false
  less (some v) none = true
  less (some v) (some w) = m.lt v w

  -- The order of `ORDER BY`.
  unfoldable pub precedes : List SeekKey → A → A → Bool
  precedes [] x y = false
  precedes (k ∷ keys) x y =
      let a = if k.descending then m.getattr y k.name else m.getattr x k.name in
      let b = if k.descending then m.getattr x k.name else m.getattr y k.name in
      if less a b then true else if less b a then false else precedes keys x y

  abbrev pub sought : List SeekKey → Option (List V) → List A → List A
  sought keys none rows = rows
  sought keys (some values) rows = filter (seek_predicate keys values) rows

  -- `_encode(items[-1], ordering)`
  abbrev pub encode_last : List SeekKey → Option A → Option Text
  encode_last keys none = none
  encode_last keys (some x) = encode x keys

  -- `paginate`
  unfoldable pub paginate : List A → List Entry → Option Text → Option ℤ → List A × Option Text
  unfolding length
  paginate rows order_by cursor limit =
      let size = clamp_limit limit in
      let keys = seek_ordering order_by in
      let window = take (suc size) (sort (precedes keys) (sought keys (decode cursor keys) rows)) in
      let items = take size window in
      (items, if ltb size (length window) then encode_last keys (last items) else none)
