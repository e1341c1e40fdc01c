-- ===== src/Pagination/Tests.antt =====
-- Runs of the pagination on a table with an integer column `id` and a column `c` of instants, newest
-- `c` first.
use assen_platform.Common.{
  ℕ, suc, ◌==◌, ltb, ◌≡◌, ◌≤◌, refl, ap, Bool, not, ◌&&◌, true, false, Option, none, some, List, [],
  ◌∷◌, length, arith, if◌then◌else◌, Text, pos, text_eq,
}
use assen_platform.Common.Table.{All, count}
use assen_platform.Pagination.Keyset.{take, filter, last}
use assen_platform.Pagination.Sorting.{sort, tied, Apart}
use assen_platform.Pagination.Query.{
  Schema, Entry, named, Field, Document, array, seek_ordering, precedes, encode, decode, paginate,
  is_concrete, values_of, clamp_limit, seek_predicate,
}
use assen_platform.Pagination.Laws.{IsLawful, IsSeekable, AllConcrete, decode-encode}
use assen_platform.Pagination.Walk.{collect, clamp_limit_bounds}
use assen_platform.Pagination.Listing.{IsListable, replicate, collect-replicate, collect-count}

record Post : Type 0 where
  id : ℕ
  created : ℕ

abbrev id_name : Text
id_name = 105 ∷ 100 ∷ []

abbrev created_name : Text
created_name = 99 ∷ []

abbrev column : Text → Option Field
column name =
    if text_eq name id_name
    then some (record { is_field = true; is_relation = false })
    else if text_eq name created_name
    then some (record { is_field = true; is_relation = false })
    else none

-- A column's value: an instant or an integer.
data Value : Type 0 where
  moment : ℕ → Value
  number : ℕ → Value

-- An instant is written as a string, an integer as it is.
data Json : Type 0 where
  string : ℕ → Json
  integer : ℕ → Json

abbrev value_lt : Value → Value → Bool
value_lt (moment a) (moment b) = ltb a b
value_lt (moment a) (number b) = true
value_lt (number a) (moment b) = false
value_lt (number a) (number b) = ltb a b

abbrev value_eq : Value → Value → Bool
value_eq (moment a) (moment b) = a == b
value_eq (number a) (number b) = a == b
value_eq _ _ = false

abbrev to_json : Value → Json
to_json (moment a) = string a
to_json (number a) = integer a

abbrev as_moment : Json → Option Value
as_moment (string a) = some (moment a)
as_moment (integer a) = none

abbrev as_number : Json → Option Value
as_number (string a) = none
as_number (integer a) = some (number a)

-- `DateTimeField` reads a string, `AutoField` an integer.
abbrev read_value : Text → Json → Option Value
read_value name js =
    if text_eq name id_name
    then as_number js
    else if text_eq name created_name
    then as_moment js
    else none

abbrev write_items : List Json → Text
write_items [] = []
write_items (string a ∷ js) = 34 ∷ a ∷ write_items js
write_items (integer a ∷ js) = 48 ∷ a ∷ write_items js

abbrev item : ℕ → ℕ → Json
item c a = if c == 34 then string a else integer a

abbrev prepend : Json → Option (List Json) → Option (List Json)
prepend j none = none
prepend j (some js) = some (j ∷ js)

abbrev whole : Option (List Json) → Option (Document Json)
whole none = none
whole (some js) = some (array js)

abbrev read_items : Text → Option (List Json)
read_items [] = some []
read_items (c ∷ []) = none
read_items (c ∷ a ∷ text) = prepend (item c a) (read_items text)

abbrev read_json : Text → Option (Document Json)
read_json [] = none
read_json (c ∷ text) = whole (read_items text)

abbrev post_attr : Post → Text → Option Value
post_attr p name =
    if text_eq name id_name
    then some (number p.id)
    else if text_eq name created_name
    then some (moment p.created)
    else none

abbrev posts : Schema Post Value Json
posts = record {
  pk = some id_name;
  meta_ordering = [];
  get_field = column;
  getattr = post_attr;
  lt = value_lt;
  eq = value_eq;
  encode_value = to_json;
  to_python = read_value;
  dumps = λ js. 91 ∷ write_items js;
  loads = read_json;
}

value_lt_trans : (a b c : Value) → value_lt a b ≡ true → value_lt b c ≡ true → value_lt a c ≡ true
value_lt_trans a b c h k = ground arith

value_lt_splits :
    (a b c : Value) → value_lt a b ≡ false → value_lt b c ≡ false → value_lt a c ≡ false
value_lt_splits a b c h k = ground arith

value_eq_lem : (a b : Value) → value_eq a b ≡ (not (value_lt a b) && not (value_lt b a))
value_eq_lem a b = ground arith

read-write_items : (js : List Json) → read_items (write_items js) ≡ some js
read-write_items [] = refl
read-write_items (string a ∷ js) = rw (read-write_items js) refl
read-write_items (integer a ∷ js) = rw (read-write_items js) refl

read_value-to_json :
    (p : Post) (name : Text) (v : Value)
    → post_attr p name ≡ some v
    → read_value name (to_json v) ≡ some v
read_value-to_json p name v h = ground arith

posts-IsLawful : IsLawful posts
posts-IsLawful = record {
  irreflexive = λ a. ground arith;
  transitive = value_lt_trans;
  splits = value_lt_splits;
  eq_lem = value_eq_lem;
  to_python-encode_value = λ x name v c h. read_value-to_json x name v h;
  loads-dumps = λ js. ap whole (read-write_items js);
  dumps_nonempty = λ js. refl;
}

abbrev post : ℕ → ℕ → Post
post i c = record { id = i; created = c }

abbrev newest_first : List Entry
newest_first = named (45 ∷ created_name) ∷ []

abbrev early : List Post
early = post 1 5 ∷ post 2 7 ∷ post 3 5 ∷ []

abbrev late : List Post
late = post 4 9 ∷ post 1 5 ∷ post 3 5 ∷ []

ordering_run :
    seek_ordering posts newest_first
    ≡ record { name = created_name; descending = true }
      ∷ record { name = id_name; descending = false }
      ∷ []
unfolding seek_ordering text_eq
ordering_run = refl

first_page :
    paginate posts early newest_first none (some (pos 2))
    ≡ (post 2 7 ∷ post 1 5 ∷ [], some (91 ∷ 34 ∷ 5 ∷ 48 ∷ 1 ∷ []))
unfolding paginate clamp_limit take sort seek_ordering precedes last encode decode text_eq
first_page = refl

seekable : (i c : ℕ) → IsSeekable posts (seek_ordering posts newest_first) (post i c)
unfolding seek_ordering values_of length text_eq
seekable i c = record { values = moment c ∷ number i ∷ []; has = refl; short = omega arith }

early-IsListable : IsListable posts id_name newest_first early
unfolding Apart precedes text_eq
early-IsListable = record {
  unique = ((refl, (refl, tt)), ((refl, tt), (tt, tt)));
  seekable = (seekable 1 5, (seekable 2 7, (seekable 3 5, tt)));
}

late-IsListable : IsListable posts id_name newest_first late
unfolding Apart precedes text_eq
late-IsListable = record {
  unique = ((refl, (refl, tt)), ((refl, tt), (tt, tt)));
  seekable = (seekable 4 9, (seekable 1 5, (seekable 3 5, tt)));
}

is_concrete_run : is_concrete posts id_name ≡ true
unfolding is_concrete text_eq
is_concrete_run = refl

collect-replicate_example :
    collect posts newest_first (some (pos 2)) (replicate (suc (length early)) early) none
    ≡ (sort (precedes posts (seek_ordering posts newest_first)) early, true)
collect-replicate_example =
    collect-replicate posts posts-IsLawful newest_first (some (pos 2)) id_name refl is_concrete_run
      early early-IsListable

present :
    All
      (λ rows. count (tied (precedes posts (seek_ordering posts newest_first)) (post 3 5)) rows ≡ 1)
      (early ∷ late ∷ [])
unfolding precedes seek_ordering text_eq
present = (refl, (refl, tt))

finished : (collect posts newest_first (some (pos 2)) (early ∷ late ∷ []) none).1 ≡ true
unfolding collect paginate clamp_limit take sort seek_ordering precedes last encode decode text_eq
    filter seek_predicate
finished = refl

collect-count_example :
    count
      (tied (precedes posts (seek_ordering posts newest_first)) (post 3 5))
      (collect posts newest_first (some (pos 2)) (early ∷ late ∷ []) none).0
    ≡ 1
collect-count_example =
    collect-count posts posts-IsLawful newest_first (some (pos 2)) id_name refl is_concrete_run
      (early ∷ late ∷ []) (post 3 5) 1 (early-IsListable, (late-IsListable, tt)) present finished

both_concrete : AllConcrete posts (
    record { name = created_name; descending = true }
    ∷ record { name = id_name; descending = false }
    ∷ [])
unfolding is_concrete text_eq
both_concrete = (refl, (refl, tt))

decode-encode_example :
    decode posts
      (encode posts (post 3 5) (
        record { name = created_name; descending = true }
        ∷ record { name = id_name; descending = false }
        ∷ []))
      (record { name = created_name; descending = true }
        ∷ record { name = id_name; descending = false }
        ∷ [])
    ≡ some (moment 5 ∷ number 3 ∷ [])
unfolding values_of length text_eq
decode-encode_example =
    decode-encode posts posts-IsLawful
      (record { name = created_name; descending = true }
        ∷ record { name = id_name; descending = false }
        ∷ [])
      (post 3 5) (record { values = moment 5 ∷ number 3 ∷ []; has = refl; short = omega arith })
      both_concrete

clamp_limit_bounds_example :
    (1 ≤ clamp_limit (some (pos 1000))) × (clamp_limit (some (pos 1000)) ≤ 100)
clamp_limit_bounds_example = clamp_limit_bounds (some (pos 1000))
