-- ===== src/Coupon/Points.antt =====
-- The point ledger of server/apps/coupon/services.py.
use assen_platform.Common.{
  ℕ, ◌==◌, ◌≤◌, ◌≡◌, refl, ap, ◌∙◌, [], ℤ, ◌+ℤ◌, is_negative, is_nonpositive, true, false, none,
  some, List, ◌∷◌, ◌⊎◌, inl, inr, Text, text_eq_iff, is_nonempty, arith, Option-cases, Bool-cases,
  if◌then◌else◌,
}
use assen_platform.Common.Table.{find, count, Distinct, count_of_first-none}
use assen_platform.Errors.{Check, pass, stop}
use assen_platform.Identity.{Account}
use assen_platform.Commerce.Load.{Stamp}
use assen_platform.Coupon.Model.{
  PointEntry, CouponAction, CouponDb, entry_row, point_balance, has_reference, traced,
}
use assen_platform.Coupon.Service.{
  CouponError, add_point_entry, existing_entry, entry_checks, grant_points, adjust_points,
  insert_entry,
}

-- What the ledger keeps: no balance is negative, keys are unique, and a fan has at most one entry with
-- one non-empty reference.
pub record IsSound (entries : List PointEntry) : Type 0 where
  pub ids : Distinct entries
  pub funded : (fan : ℕ) → is_negative (point_balance fan entries) ≡ false
  pub once :
      (fan : ℕ) (reference : Text)
      → is_nonempty reference ≡ true
      → count (has_reference fan reference) entries ≤ 1

-- An operation that returned an entry has found it under its reference, or has added it.
module _ (stamp : Stamp) (fan : Account) (delta : ℤ) (actor : Account) (reason reference : Text)
    (action : CouponAction) (db : CouponDb) where
  insert_entry-pass :
      (e : PointEntry) (db' : CouponDb)
      → insert_entry stamp fan delta actor reason reference action db ≡ pass (e, db')
      → (db'.entries ≡ e ∷ db.entries)
        × (e.id ≡ stamp.id)
        × (e.fan ≡ fan.id)
        × (e.delta ≡ delta)
        × (e.reference ≡ reference)
        × (find stamp.id db.entries ≡ none)
        × (is_negative (point_balance fan.id db.entries +ℤ delta) ≡ false)
  unfolding traced
  insert_entry-pass e db' h =
      elim (Bool-cases (is_negative (point_balance fan.id db.entries +ℤ delta))) [
        | inl n ↦ ground arith
        | inr n ↦ elim (Option-cases (find stamp.id db.entries)) [
          | inr (old, f) ↦ ground arith
          | inl f ↦ (ground arith, ground arith, ground arith, ground arith, ground arith, f, n)
        ]
      ]

  pub add_point_entry-cases :
      (e : PointEntry) (db' : CouponDb)
      → add_point_entry stamp fan delta actor reason reference action db ≡ pass (e, db')
      → ((existing_entry fan.id reference db ≡ some e) × (db' ≡ db))
        ⊎ ((existing_entry fan.id reference db ≡ none)
            × (insert_entry stamp fan delta actor reason reference action db ≡ pass (e, db')))
  unfolding add_point_entry
  add_point_entry-cases e db' h = elim (Option-cases (existing_entry fan.id reference db)) [
    | inl n ↦ inr (n, ground arith)
    | inr (old, f) ↦ inl (ground arith, ground arith)
  ]

-- A new entry on a sound ledger, allowed by the checks of the insert.
new_entry-IsSound :
    (e : PointEntry) (entries : List PointEntry)
    → IsSound entries
    → find e.id entries ≡ none
    → is_negative (point_balance e.fan entries +ℤ e.delta) ≡ false
    → (is_nonempty e.reference ≡ true → count (has_reference e.fan e.reference) entries ≡ 0)
    → IsSound (e ∷ entries)
unfolding Distinct point_balance
new_entry-IsSound e entries v new funded unused = record {
  ids = (new, v.ids);
  funded = λ fan.
      ground (arith, v.funded fan, ap (λ (k : ℕ). point_balance k entries) {x = e.fan} {y = fan});
  once = λ fan reference h. elim (Bool-cases (has_reference fan reference e)) [
    | inr other ↦ ground (arith, v.once fan reference h)
    | inl same ↦
        let (mine, text) : (e.fan ≡ fan) × (e.reference ≡ reference) =
          (ground arith, ground (arith, text_eq_iff e.reference reference)) in
        ground (
          arith,
          unused (ap is_nonempty text ∙ h),
          ap (λ (k : ℕ). count (has_reference k reference) entries) mine,
          ap (λ (t : Text). count (has_reference e.fan t) entries) text,
        )
  ];
}

add_point_entry-IsSound :
    (stamp : Stamp) (fan : Account) (delta : ℤ) (actor : Account) (reason reference : Text)
    (action : CouponAction) (db db' : CouponDb) (e : PointEntry)
    → IsSound db.entries
    → add_point_entry stamp fan delta actor reason reference action db ≡ pass (e, db')
    → IsSound db'.entries
unfolding existing_entry
add_point_entry-IsSound stamp fan delta actor reason reference action db db' e v h =
    elim (add_point_entry-cases stamp fan delta actor reason reference action db e db' h) [
      | inl (found, same) ↦ rw same v
      | inr (none_yet, inserted) ↦
          let (added, id, mine, by, text, new, funded) =
            insert_entry-pass stamp fan delta actor reason reference action db e db' inserted in
          rw added (
            new_entry-IsSound e db.entries v (rw id new) (rw (mine, by) funded) (λ nonempty.
              rw (mine, text)
                (count_of_first-none (has_reference fan.id reference) db.entries
                  (ground (arith, ap is_nonempty text)))))
    ]

-- One movement of points.
pub data Movement : Type 0 where
  grant adjust : Stamp → Account → ℤ → Account → Text → Text → Movement

-- The state after an operation; an error rolls it back.
abbrev settled : CouponDb → Check CouponError (PointEntry × CouponDb) → CouponDb
settled db (pass (e, db')) = db'
settled db (stop r) = db

unfoldable pub move : Movement → CouponDb → CouponDb
move (grant stamp fan delta actor reason reference) db =
    settled db (grant_points stamp fan delta actor reason reference db)
move (adjust stamp fan delta actor reason reference) db =
    settled db (adjust_points stamp fan delta actor reason reference db)

unfoldable pub move_all : List Movement → CouponDb → CouponDb
move_all [] db = db
move_all (m ∷ movements) db = move_all movements (move m db)

settled-IsSound :
    (db : CouponDb) (c : Check CouponError (PointEntry × CouponDb))
    → IsSound db.entries
    → ((e : PointEntry) (db' : CouponDb) → c ≡ pass (e, db') → IsSound db'.entries)
    → IsSound (settled db c).entries
settled-IsSound db (pass (e, db')) v each = each e db' refl
settled-IsSound db (stop r) v each = v

move-IsSound : (m : Movement) (db : CouponDb) → IsSound db.entries → IsSound (move m db).entries
unfolding move grant_points adjust_points
move-IsSound (grant stamp fan delta actor reason reference) db v =
    settled-IsSound db (grant_points stamp fan delta actor reason reference db) v (λ e db' h.
      add_point_entry-IsSound stamp fan delta actor reason reference CouponAction.point_granted db
        db' e v (ground arith))
move-IsSound (adjust stamp fan delta actor reason reference) db v =
    settled-IsSound db (adjust_points stamp fan delta actor reason reference db) v (λ e db' h.
      add_point_entry-IsSound stamp fan delta actor reason reference CouponAction.point_adjusted db
        db' e v (ground arith))

-- From a sound point ledger, any sequence of grants and adjustments, refused ones included, keeps
-- it sound: no fan's balance is negative, a fan has at most one entry with one non-empty
-- reference, and keys are unique.
pub move_all-IsSound :
    (movements : List Movement) (db : CouponDb)
    → IsSound db.entries
    → IsSound (move_all movements db).entries
unfolding move_all
move_all-IsSound [] db v = v
move_all-IsSound (m ∷ movements) db v = move_all-IsSound movements (move m db) (move-IsSound m db v)

check_cases :
    (c : Check CouponError (Unit {0})) → (c ≡ pass tt) ⊎ ((r : CouponError) × (c ≡ stop r))
check_cases (pass tt) = inl refl
check_cases (stop r) = inr (r, refl)

replayed-grant :
    (stamp later : Stamp) (fan : Account) (delta : ℤ) (actor : Account) (reason reference : Text)
    (db db' : CouponDb) (e : PointEntry)
    → existing_entry fan.id reference db' ≡ some e
    → grant_points stamp fan delta actor reason reference db ≡ pass (e, db')
    → grant_points later fan delta actor reason reference db' ≡ pass (e, db')
unfolding grant_points add_point_entry
replayed-grant stamp later fan delta actor reason reference db db' e found h =
    elim (Bool-cases (is_nonpositive delta)) [
      | inl n ↦ ground arith
      | inr n ↦ elim (check_cases (entry_checks fan reason reference)) [
        | inl c ↦ rw (n, c, found) refl
        | inr (r, c) ↦ ground arith
      ]
    ]

-- A grant with a non-empty reference that succeeded and is sent again returns the same entry, and
-- writes nothing.
pub grant_points-retry :
    (stamp later : Stamp) (fan : Account) (delta : ℤ) (actor : Account) (reason reference : Text)
    (db db' : CouponDb) (e : PointEntry)
    → is_nonempty reference ≡ true
    → grant_points stamp fan delta actor reason reference db ≡ pass (e, db')
    → grant_points later fan delta actor reason reference db' ≡ pass (e, db')
unfolding grant_points existing_entry
grant_points-retry stamp later fan delta actor reason reference db db' e nonempty h =
    replayed-grant stamp later fan delta actor reason reference db db' e
      (elim (add_point_entry-cases stamp fan delta actor reason reference CouponAction.point_granted
        db e db' (ground arith)) [
          | inl (found, same) ↦ rw same found
          | inr (none_yet, inserted) ↦
              let (added, id, mine, by, text, new, funded) =
                insert_entry-pass stamp fan delta actor reason reference CouponAction.point_granted
                  db e db' inserted in
              rw added (ground (arith, nonempty, mine, text, text_eq_iff e.reference reference))
        ])
      h

-- If a grant succeeds whose reference is empty or has no entry yet, the fan's balance grows by its
-- points, and every other balance stays.
pub grant_points-balance :
    (stamp : Stamp) (fan : Account) (delta : ℤ) (actor : Account) (reason reference : Text)
    (db db' : CouponDb) (e : PointEntry)
    → existing_entry fan.id reference db ≡ none
    → grant_points stamp fan delta actor reason reference db ≡ pass (e, db')
    → (j : ℕ)
    → point_balance j db'.entries
      ≡ (if fan.id == j then point_balance j db.entries +ℤ delta else point_balance j db.entries)
unfolding grant_points point_balance
grant_points-balance stamp fan delta actor reason reference db db' e none_yet h j =
    elim (add_point_entry-cases stamp fan delta actor reason reference CouponAction.point_granted db
      e db' (ground arith)) [
        | inl (found, same) ↦ ground arith
        | inr (_, inserted) ↦
            let (added, id, mine, by, text, new, funded) =
              insert_entry-pass stamp fan delta actor reason reference CouponAction.point_granted db
                e db' inserted in
            ground (arith, ap (λ (es : List PointEntry). point_balance j es) added)
      ]
