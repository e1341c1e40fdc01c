-- ===== src/Reservation/Accepted.antt =====
-- What a success of `create_reservation` of server/apps/reservation/services.py tells.
use assen_platform.Common.{
  ℤ, pos, negsuc, strip, ◌⊎◌, ℕ, ◌≤◌, ◌≡◌, refl, true, false, some, List, [], ◌∷◌, arith,
  Option-cases, inl, inr,
}
use assen_platform.Common.Table.{All, count, count_of_not-exists}
use assen_platform.Errors.{pass}
use assen_platform.Identity.{Account, Role}
use assen_platform.Commerce.Load.{Stamp}
use assen_platform.Safety.{UserBlock, BlockScope, has_active_block}
use assen_platform.Reservation.Service.{
  Reservation, ReservationStatus, ReservationDb, ReservationIn, reservation_row, is_active,
  is_out_of_range, holds_slot_of, create_reservation,
}
use assen_platform.Reservation.Operations.{create_reservation-pass}

-- No active block bars the fan from reserving now.
abbrev pub IsFree : ℕ → ℕ → List UserBlock → Type 0
IsFree now fan blocks =
    All
      (λ b. ¬ (
        (b.target ≡ fan)
        × (b.is_active ≡ true)
        × (b.is_risk_flag ≡ false)
        × (b.effective_from ≤ now)
        × ((b.block_scope ≡ BlockScope.reservation) ⊎ (b.block_scope ≡ BlockScope.all))))
      blocks

has_active_block-IsFree :
    (now fan : ℕ) (blocks : List UserBlock)
    → has_active_block now fan BlockScope.reservation blocks ≡ false
    → IsFree now fan blocks
unfolding has_active_block
has_active_block-IsFree now fan [] h = tt
has_active_block-IsFree now fan (b ∷ blocks) h = (
  λ (t, a, f, l, scope). elim scope [ inl e ↦ ground arith | inr e ↦ ground arith ],
  has_active_block-IsFree now fan blocks (ground (arith, h)),
)

in_range : (n : ℤ) → is_out_of_range n ≡ false → (k : ℕ) × (n ≡ pos k) × (1 ≤ k) × (k ≤ 20)
in_range (pos k) h = (k, refl, ground arith, ground arith)
in_range (negsuc k) h = cc

holds_own : (r : Reservation) → is_active r.status ≡ true → holds_slot_of r r ≡ true
holds_own r h = elim (Option-cases r.reserved_time) [
  | inl e ↦ ground arith
  | inr (t, e) ↦ ground arith
]

-- If `create_reservation` succeeds, the subject is a fan whom no active block bars from reserving,
-- the party is of 1 to 20, the date is not past, and the one new row of the table is the fan's, by
-- the actor, requested, as the payload has it with the note stripped, and the only active one of
-- the fan for its date, time and type.
pub create_reservation-accepted :
    (stamp : Stamp) (today : ℕ) (fan actor : Account) (payload : ReservationIn)
    (db db' : ReservationDb) (r : Reservation)
    → create_reservation stamp today fan actor payload db ≡ pass (r, db')
    → (fan.role ≡ Role.fan)
      × IsFree stamp.now fan.id db.blocks
      × ((k : ℕ) × (payload.party_size ≡ pos k) × (1 ≤ k) × (k ≤ 20))
      × (today ≤ payload.reserved_date)
      × (some r.reservation_type ≡ payload.reservation_type)
      × (r ≡ record {
        id = stamp.id;
        fan = fan.id;
        reservation_type = r.reservation_type;
        status = ReservationStatus.requested;
        reserved_date = payload.reserved_date;
        reserved_time = payload.reserved_time;
        party_size = payload.party_size;
        operator_note = strip payload.operator_note;
        cancellation_reason = [];
        created_by = actor.id;
      })
      × (db'.reservations ≡ r ∷ db.reservations)
      × (count (holds_slot_of r) db'.reservations ≡ 1)
unfolding create_reservation
create_reservation-accepted stamp today fan actor payload db db' r h =
    let (new, free, rows) = create_reservation-pass stamp today fan actor payload db db' r h in
    elim (Option-cases payload.reservation_type) [
      | inl e ↦ ground arith
      | inr (type, e) ↦
          let requested : r.status ≡ ReservationStatus.requested = ground arith in
          (
            ground arith,
            has_active_block-IsFree stamp.now fan.id db.blocks (ground arith),
            in_range payload.party_size (ground arith),
            ground arith,
            ground arith,
            ground arith,
            rows,
            rw rows (
                ground (
                  arith,
                  holds_own r (ground arith),
                  count_of_not-exists (holds_slot_of r) db.reservations free,
                )),
          )
    ]
