-- ===== src/Reservation/Slots.antt =====
-- One active reservation to a slot, and party sizes in range, over the operations of
-- server/apps/reservation/services.py.
use assen_platform.Common.{
  ℕ, ◌==◌, ◌≤◌, ◌≡◌, refl, ap, ◌∙◌, Bool, true, false, not, ◌&&◌, Option, none, some, List, [], ◌∷◌,
  arith, Bool-cases, inl, inr, if◌then◌else◌,
}
use assen_platform.Common.Table.{
  find, update, exists, count, Distinct, total-update, update-Distinct, update_missing,
  count_of_not-exists,
}
use assen_platform.Reservation.Service.{
  Reservation, ReservationType, ChangeIn, reservation_row, holds_slot, holds_slot_of, amend,
}

-- Keys are unique, and a fan holds a slot (date, time, type) by at most one active reservation.
pub record AreExclusive (rs : List Reservation) : Type 0 where
  pub ids : Distinct rs
  pub one :
      (fan date : ℕ) (time : Option ℕ) (type : ReservationType)
      → count (holds_slot fan date time type) rs ≤ 1

-- Where only the row under a key may satisfy the test after its write, at most one row does.
none_elsewhere :
    (k : ℕ) (q : Reservation → Bool) (rs : List Reservation)
    → find k rs ≡ none
    → exists (λ o. q o && not (o.id == k)) rs ≡ false
    → count q rs ≡ 0
unfolding find
none_elsewhere k q [] missing free = refl
none_elsewhere k q (r ∷ rs) missing free = ground (arith, none_elsewhere k q rs)

one_there :
    (k : ℕ) (q : Reservation → Bool) (f : Reservation → Reservation) (rs : List Reservation)
    → ((r : Reservation) → (f r).id ≡ r.id)
    → Distinct rs
    → exists (λ o. q o && not (o.id == k)) rs ≡ false
    → count q (update k (λ _. true) f rs) ≤ 1
unfolding update Distinct
one_there k q f [] ids d free = omega arith
one_there k q f (r ∷ rs) ids d free = ground (
  arith,
  one_there k q f rs ids d.1,
  none_elsewhere k q rs,
  update_missing k (λ _. true) f rs,
  ap (λ (i : ℕ). find i rs) {x = r.id} {y = k},
)

-- A write of a found row that takes no slot the row did not hold.
pub save-AreExclusive :
    (r : Reservation) (f : Reservation → Reservation) (rs : List Reservation)
    → ((x : Reservation) → (f x).id ≡ x.id)
    → find r.id rs ≡ some r
    → ((fan date : ℕ) (time : Option ℕ) (type : ReservationType)
        → holds_slot fan date time type (f r) ≡ true
        → holds_slot fan date time type r ≡ true)
    → AreExclusive rs
    → AreExclusive (update r.id (λ _. true) f rs)
save-AreExclusive r f rs ids found within v = record {
  ids = update-Distinct r.id (λ _. true) f ids rs v.ids;
  one = λ fan date time type. ground (
    arith,
    v.one fan date time type,
    within fan date time type,
    total-update r.id (λ _. true) f (λ x. if holds_slot fan date time type x then 1 else 0) rs r
        v.ids found refl,
  );
}

-- Two rows of one slot answer to one test.
same_slot :
    (fan date : ℕ) (time : Option ℕ) (type : ReservationType) (r o : Reservation)
    → holds_slot fan date time type r ≡ true
    → holds_slot fan date time type o ≡ holds_slot_of r o
same_slot fan date time type r o h = ground arith

exists_same :
    (p q : Reservation → Bool) (rs : List Reservation)
    → ((r : Reservation) → p r ≡ q r)
    → exists p rs ≡ exists q rs
exists_same p q [] same = refl
exists_same p q (r ∷ rs) same = ground (arith, same r, exists_same p q rs same)

pub amend-AreExclusive :
    (r : Reservation) (payload : ChangeIn) (rs : List Reservation)
    → find r.id rs ≡ some r
    → exists (λ o. holds_slot_of (amend payload r) o && not (o.id == r.id)) rs ≡ false
    → AreExclusive rs
    → AreExclusive (update r.id (λ _. true) (amend payload) rs)
unfolding amend
amend-AreExclusive r payload rs found free v = record {
  ids = update-Distinct r.id (λ _. true) (amend payload) (λ x. refl) rs v.ids;
  one = λ fan date time type. elim (Bool-cases (holds_slot fan date time type (amend payload r))) [
    | inl taken ↦
        one_there r.id (holds_slot fan date time type) (amend payload) rs (λ x. refl) v.ids
          (exists_same (λ o. holds_slot fan date time type o && not (o.id == r.id))
              (λ o. holds_slot_of (amend payload r) o && not (o.id == r.id)) rs
              (λ o.
                ap (λ (b : Bool). b && not (o.id == r.id))
                  (same_slot fan date time type (amend payload r) o taken))
            ∙ free)
    | inr other ↦ ground (
      arith,
      v.one fan date time type,
      total-update r.id (λ _. true) (amend payload)
          (λ x. if holds_slot fan date time type x then 1 else 0) rs r v.ids found refl,
    )
  ];
}

pub made-AreExclusive :
    (r : Reservation) (rs : List Reservation)
    → find r.id rs ≡ none
    → exists (holds_slot r.fan r.reserved_date r.reserved_time r.reservation_type) rs ≡ false
    → AreExclusive rs
    → AreExclusive (r ∷ rs)
unfolding Distinct
made-AreExclusive r rs new free v = record {
  ids = (new, v.ids);
  one = λ fan date time type. elim (Bool-cases (holds_slot fan date time type r)) [
    | inr other ↦ ground (arith, v.one fan date time type)
    | inl taken ↦ ground (
      arith,
      count_of_not-exists (holds_slot fan date time type) rs (
          exists_same (holds_slot fan date time type) (holds_slot_of r) rs
            (λ o. same_slot fan date time type r o taken)
          ∙ free),
    )
  ];
}
