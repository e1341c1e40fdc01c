-- ===== src/Reservation/Tests.antt =====
-- The theorems on server/apps/reservation at runs on small tables.
use assen_platform.Common.{
  ℕ, ◌≡◌, ◌≤◌, refl, true, false, none, some, [], ◌∷◌, arith, pos, List, strip,
}
use assen_platform.Common.Table.{count, find, Distinct}
use assen_platform.Identity.{Account, Role, KycStatus}
use assen_platform.Commerce.Load.{Stamp}
use assen_platform.Safety.{has_active_block}
use assen_platform.Reservation.Service.{
  Reservation, ReservationType, ReservationStatus, ReservationDb, ReservationIn, ReservationAction,
  Trace, reservation_row, create_reservation, holds_slot_of,
}
use assen_platform.Reservation.Slots.{AreExclusive}
use assen_platform.Reservation.Operations.{
  Operation, create, confirm, change, cancel, operate_all, operate_all-AreExclusive,
}
use assen_platform.Reservation.Accepted.{create_reservation-accepted, IsFree}

abbrev guest : Account
guest = record {
  id = 1;
  role = Role.fan;
  is_active = true;
  adult_verified = false;
  kyc_status = KycStatus.verified;
}

abbrev at_ten : Stamp
at_ten = record { now = 10; id = 77 }

abbrev table_for_two : ReservationIn
table_for_two = record {
  reserved_date = 4;
  reserved_time = some 19;
  party_size = pos 2;
  reservation_type = some ReservationType.reservation;
  operator_note = [];
}

abbrev empty_db : ReservationDb
empty_db = record { blocks = []; reservations = []; events = []; audits = [] }

abbrev booked : Reservation
booked = record {
  id = 77;
  fan = 1;
  reservation_type = ReservationType.reservation;
  status = ReservationStatus.requested;
  reserved_date = 4;
  reserved_time = some 19;
  party_size = pos 2;
  operator_note = [];
  cancellation_reason = [];
  created_by = 1;
}

abbrev trace : Trace
trace = record { actor = 1; action = ReservationAction.created; target = 77 }

abbrev booked_db : ReservationDb
booked_db = record {
  blocks = [];
  reservations = booked ∷ [];
  events = trace ∷ [];
  audits = trace ∷ [];
}

no_rows-AreExclusive : AreExclusive []
unfolding Distinct
no_rows-AreExclusive = record { ids = tt; one = λ fan date time type. omega arith }

abbrev an_evening : List Operation
an_evening =
    create at_ten 3 guest guest table_for_two
    ∷ confirm 77 guest
    ∷ change 3 77 guest (record { reserved_date = some 5; reserved_time = none; party_size = none })
    ∷ cancel 77 guest []
    ∷ []

operate_all-AreExclusive_example : AreExclusive (operate_all an_evening empty_db).reservations
operate_all-AreExclusive_example = operate_all-AreExclusive an_evening empty_db no_rows-AreExclusive

create_reservation-accepted_example :
    (guest.role ≡ Role.fan)
    × IsFree 10 1 []
    × ((k : ℕ) × (pos 2 ≡ pos k) × (1 ≤ k) × (k ≤ 20))
    × (3 ≤ 4)
    × (some booked.reservation_type ≡ some ReservationType.reservation)
    × (booked ≡ booked)
    × (booked_db.reservations ≡ booked ∷ [])
    × (count (holds_slot_of booked) booked_db.reservations ≡ 1)
unfolding create_reservation has_active_block find strip
create_reservation-accepted_example =
    create_reservation-accepted at_ten 3 guest guest table_for_two empty_db booked_db booked refl
