-- ===== src/Reservation/Operations.antt =====
-- The operations of server/apps/reservation/services.py in any order.
use assen_platform.Common.{
  ℕ, ◌≡◌, refl, ap, true, false, none, some, List, [], ◌∷◌, Text, arith, Option-cases, inl, inr,
}
use assen_platform.Common.Table.{find, update, exists, key-find}
use assen_platform.Errors.{Check, pass, stop}
use assen_platform.Identity.{Account}
use assen_platform.Commerce.Load.{Stamp}
use assen_platform.Reservation.Service.{
  Reservation, ReservationStatus, ReservationDb, ReservationError, ReservationIn, ChangeIn,
  reservation_row, is_active, holds_slot, set_status, end_with, amend, create_reservation,
  confirm_reservation, change_reservation, cancel_reservation, mark_no_show,
}
use assen_platform.Reservation.Slots.{
  AreExclusive, save-AreExclusive, amend-AreExclusive, made-AreExclusive,
}

-- A row found by an id is the row of its own key.
found_at :
    (id : ℕ) (rs : List Reservation) (r : Reservation) → find id rs ≡ some r → find r.id rs ≡ some r
found_at id rs r e =
    ground (arith, e, key-find id rs r e, ap (λ (k : ℕ). find k rs) {x = id} {y = r.id})

pub create_reservation-pass :
    (stamp : Stamp) (today : ℕ) (fan actor : Account) (payload : ReservationIn)
    (db db' : ReservationDb) (r : Reservation)
    → create_reservation stamp today fan actor payload db ≡ pass (r, db')
    → (find r.id db.reservations ≡ none)
      × (exists
            (holds_slot r.fan r.reserved_date r.reserved_time r.reservation_type)
            db.reservations
          ≡ false)
      × (db'.reservations ≡ r ∷ db.reservations)
unfolding create_reservation
create_reservation-pass stamp today fan actor payload db db' r h =
    elim (Option-cases payload.reservation_type) [
      | inl e ↦ ground arith
      | inr (type, e) ↦ elim (Option-cases (find stamp.id db.reservations)) [
        | inl new ↦ (ground arith, ground arith, ground arith)
        | inr (old, taken) ↦ ground arith
      ]
    ]

create-AreExclusive :
    (stamp : Stamp) (today : ℕ) (fan actor : Account) (payload : ReservationIn)
    (db db' : ReservationDb) (r : Reservation)
    → create_reservation stamp today fan actor payload db ≡ pass (r, db')
    → AreExclusive db.reservations
    → AreExclusive db'.reservations
unfolding create_reservation
create-AreExclusive stamp today fan actor payload db db' r h v =
    let (new, free, same) = create_reservation-pass stamp today fan actor payload db db' r h in
    rw same (made-AreExclusive r db.reservations new free v)

confirm-AreExclusive :
    (id : ℕ) (actor : Account) (db db' : ReservationDb) (r : Reservation)
    → confirm_reservation id actor db ≡ pass (r, db')
    → AreExclusive db.reservations
    → AreExclusive db'.reservations
unfolding confirm_reservation
confirm-AreExclusive id actor db db' r h v = elim (Option-cases (find id db.reservations)) [
  | inl e ↦ ground arith
  | inr (old, e) ↦
      let same : db'.reservations
          ≡ update old.id (λ _. true) (set_status ReservationStatus.confirmed) db.reservations =
        ground arith in
      rw same (
        save-AreExclusive old (set_status ReservationStatus.confirmed) db.reservations (λ x. refl)
          (found_at id db.reservations old e) (λ f d t y held. ground arith) v)
]

change-AreExclusive :
    (today id : ℕ) (actor : Account) (payload : ChangeIn) (db db' : ReservationDb) (r : Reservation)
    → change_reservation today id actor payload db ≡ pass (r, db')
    → AreExclusive db.reservations
    → AreExclusive db'.reservations
unfolding change_reservation
change-AreExclusive today id actor payload db db' r h v =
    elim (Option-cases (find id db.reservations)) [
      | inl e ↦ ground arith
      | inr (old, e) ↦
          let same : db'.reservations ≡ update old.id (λ _. true) (amend payload) db.reservations =
            ground arith in
          rw same (
            amend-AreExclusive old payload db.reservations (found_at id db.reservations old e)
              (ground arith) v)
    ]

ended-AreExclusive :
    (id : ℕ) (reason : Text) (status : ReservationStatus) (rs : List Reservation) (r : Reservation)
    → is_active status ≡ false
    → find id rs ≡ some r
    → AreExclusive rs
    → AreExclusive (update r.id (λ _. true) (end_with status reason) rs)
ended-AreExclusive id reason status rs r over e v =
    save-AreExclusive r (end_with status reason) rs (λ x. refl) (found_at id rs r e)
      (λ f d t y held. ground (arith, over)) v

cancel-AreExclusive :
    (id : ℕ) (actor : Account) (reason : Text) (db db' : ReservationDb) (r : Reservation)
    → cancel_reservation id actor reason db ≡ pass (r, db')
    → AreExclusive db.reservations
    → AreExclusive db'.reservations
unfolding cancel_reservation
cancel-AreExclusive id actor reason db db' r h v = elim (Option-cases (find id db.reservations)) [
  | inl e ↦ ground arith
  | inr (old, e) ↦
      let same : db'.reservations
          ≡ update old.id (λ _. true) (end_with ReservationStatus.cancelled reason)
              db.reservations =
        ground arith in
      rw same
        (ended-AreExclusive id reason ReservationStatus.cancelled db.reservations old refl e v)
]

no_show-AreExclusive :
    (id : ℕ) (actor : Account) (reason : Text) (db db' : ReservationDb) (r : Reservation)
    → mark_no_show id actor reason db ≡ pass (r, db')
    → AreExclusive db.reservations
    → AreExclusive db'.reservations
unfolding mark_no_show
no_show-AreExclusive id actor reason db db' r h v = elim (Option-cases (find id db.reservations)) [
  | inl e ↦ ground arith
  | inr (old, e) ↦
      let same : db'.reservations
          ≡ update old.id (λ _. true) (end_with ReservationStatus.no_show reason) db.reservations =
        ground arith in
      rw same (ended-AreExclusive id reason ReservationStatus.no_show db.reservations old refl e v)
]

pub data Operation : Type 0 where
  create : Stamp → ℕ → Account → Account → ReservationIn → Operation
  confirm : ℕ → Account → Operation
  change : ℕ → ℕ → Account → ChangeIn → Operation
  cancel : ℕ → Account → Text → Operation
  miss : ℕ → Account → Text → Operation

-- The state after an operation; an error rolls it back.
abbrev committed :
    ReservationDb → Check ReservationError (Reservation × ReservationDb) → ReservationDb
committed db (pass (r, db')) = db'
committed db (stop error) = db

unfoldable pub operate : Operation → ReservationDb → ReservationDb
operate (create stamp today fan actor payload) db =
    committed db (create_reservation stamp today fan actor payload db)
operate (confirm id actor) db = committed db (confirm_reservation id actor db)
operate (change today id actor payload) db =
    committed db (change_reservation today id actor payload db)
operate (cancel id actor reason) db = committed db (cancel_reservation id actor reason db)
operate (miss id actor reason) db = committed db (mark_no_show id actor reason db)

unfoldable pub operate_all : List Operation → ReservationDb → ReservationDb
operate_all [] db = db
operate_all (o ∷ operations) db = operate_all operations (operate o db)

committed-AreExclusive :
    (db : ReservationDb) (m : Check ReservationError (Reservation × ReservationDb))
    → AreExclusive db.reservations
    → ((r : Reservation) (db' : ReservationDb) → m ≡ pass (r, db') → AreExclusive db'.reservations)
    → AreExclusive (committed db m).reservations
committed-AreExclusive db (pass (r, db')) v each = each r db' refl
committed-AreExclusive db (stop error) v each = v

operate-AreExclusive :
    (o : Operation) (db : ReservationDb)
    → AreExclusive db.reservations
    → AreExclusive (operate o db).reservations
unfolding operate
operate-AreExclusive (create stamp today fan actor payload) db v =
    committed-AreExclusive db _ v
      (λ r db' h. create-AreExclusive stamp today fan actor payload db db' r h v)
operate-AreExclusive (confirm id actor) db v =
    committed-AreExclusive db _ v (λ r db' h. confirm-AreExclusive id actor db db' r h v)
operate-AreExclusive (change today id actor payload) db v =
    committed-AreExclusive db _ v
      (λ r db' h. change-AreExclusive today id actor payload db db' r h v)
operate-AreExclusive (cancel id actor reason) db v =
    committed-AreExclusive db _ v (λ r db' h. cancel-AreExclusive id actor reason db db' r h v)
operate-AreExclusive (miss id actor reason) db v =
    committed-AreExclusive db _ v (λ r db' h. no_show-AreExclusive id actor reason db db' r h v)

-- From rows with unique keys and at most one active reservation of each fan to each slot (date,
-- time or none, and type), any sequence of creating, confirming, changing, cancelling and marking
-- no-shows, refused ones included, keeps them so.
pub operate_all-AreExclusive :
    (operations : List Operation) (db : ReservationDb)
    → AreExclusive db.reservations
    → AreExclusive (operate_all operations db).reservations
unfolding operate_all
operate_all-AreExclusive [] db v = v
operate_all-AreExclusive (o ∷ operations) db v =
    operate_all-AreExclusive operations (operate o db) (operate-AreExclusive o db v)
