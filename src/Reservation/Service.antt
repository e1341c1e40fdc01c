-- ===== src/Reservation/Service.antt =====
-- server/apps/reservation/models.py and server/apps/reservation/services.py. A ValueError stops an
-- operation and leaves the database as it was. The unique constraints on active slots stand behind
-- the look-up for a duplicate, which an operation makes on the rows of its own time.
use assen_platform.Common.{
  ℕ, ◌==◌, ltb, ℤ, pos, negsuc, Bool, true, false, not, ◌&&◌, ◌||◌, Option, none, some, List, [],
  ◌∷◌, Text, strip, is_some, is_none, option_eq, get_or,
}
use assen_platform.Common.Table.{Row, find, update, exists}
use assen_platform.Errors.{Check, pass, stop_if, or_stop, ◌>>=◌, ◌>>◌}
use assen_platform.Identity.{Account, Role}
use assen_platform.Commerce.Load.{Stamp}
use assen_platform.Safety.{UserBlock, BlockScope, has_active_block}

pub data ReservationType : Type 0 where
  reservation waitlist : ReservationType

pub data ReservationStatus : Type 0 where
  requested confirmed cancelled no_show : ReservationStatus

pub record Reservation : Type 0 where
  pub id : ℕ
  pub fan : ℕ
  pub reservation_type : ReservationType
  pub status : ReservationStatus
  pub reserved_date : ℕ
  pub reserved_time : Option ℕ
  pub party_size : ℤ
  pub operator_note : Text
  pub cancellation_reason : Text
  pub created_by : ℕ

instance abbrev pub reservation_row : Row Reservation
reservation_row = record { key = λ r. r.id }

pub data ReservationAction : Type 0 where
  created was_confirmed changed was_cancelled marked_no_show : ReservationAction

-- An audit entry or an analytics event.
pub record Trace : Type 0 where
  pub actor : ℕ
  pub action : ReservationAction
  pub target : ℕ

pub record ReservationDb : Type 0 where
  pub blocks : List UserBlock
  pub reservations : List Reservation
  pub events : List Trace
  pub audits : List Trace

pub data ReservationError : Type 0 where
  not_a_fan fan_blocked unknown_type party_out_of_range date_in_past slot_taken : ReservationError
  cannot_confirm not_active nothing_to_change does_not_exist integrity_error : ReservationError

abbrev pub is_fan : Role → Bool
is_fan Role.fan = true
is_fan _ = false

-- `_ACTIVE_STATUSES`
abbrev pub is_active : ReservationStatus → Bool
is_active requested = true
is_active confirmed = true
is_active _ = false

abbrev is_requested : ReservationStatus → Bool
is_requested requested = true
is_requested _ = false

abbrev same_type : ReservationType → ReservationType → Bool
same_type reservation reservation = true
same_type waitlist waitlist = true
same_type _ _ = false

-- `party_size < 1 or party_size > _MAX_PARTY_SIZE`
abbrev pub is_out_of_range : ℤ → Bool
is_out_of_range (pos n) = ltb n 1 || ltb 20 n
is_out_of_range (negsuc n) = true

-- An active row of one fan, date, time and type; `reserved_time=None` asks for NULL.
abbrev pub holds_slot : ℕ → ℕ → Option ℕ → ReservationType → Reservation → Bool
holds_slot fan date time type r =
    (r.fan == fan)
    && (r.reserved_date == date)
    && option_eq r.reserved_time time
    && same_type r.reservation_type type
    && is_active r.status

abbrev audited : Account → ReservationAction → ℕ → ReservationDb → ReservationDb
audited actor action target db = record db {
  audits = record { actor = actor.id; action = action; target = target } ∷ db.audits;
}

abbrev emitted : Account → ReservationAction → ℕ → ReservationDb → ReservationDb
emitted actor action target db = record db {
  events = record { actor = actor.id; action = action; target = target } ∷ db.events;
}

pub record ReservationIn : Type 0 where
  pub reserved_date : ℕ
  pub reserved_time : Option ℕ
  pub party_size : ℤ
  pub reservation_type : Option ReservationType  -- `none` is outside of the enumeration
  pub operator_note : Text

-- `today` is `timezone.localdate()`.
unfoldable pub create_reservation :
    Stamp
    → ℕ
    → Account
    → Account
    → ReservationIn
    → ReservationDb
    → Check ReservationError (Reservation × ReservationDb)
create_reservation stamp today fan actor payload db = do
  stop_if (not (is_fan fan.role)) not_a_fan
  stop_if (has_active_block stamp.now fan.id BlockScope.reservation db.blocks) fan_blocked
  type ← or_stop payload.reservation_type unknown_type
  stop_if (is_out_of_range payload.party_size) party_out_of_range
  stop_if (ltb payload.reserved_date today) date_in_past
  stop_if
      (exists (holds_slot fan.id payload.reserved_date payload.reserved_time type) db.reservations)
      slot_taken
  stop_if (is_some (find stamp.id db.reservations)) integrity_error
  let made : Reservation = record {
    id = stamp.id;
    fan = fan.id;
    reservation_type = type;
    status = ReservationStatus.requested;
    reserved_date = payload.reserved_date;
    reserved_time = payload.reserved_time;
    party_size = payload.party_size;
    operator_note = strip payload.operator_note;
    cancellation_reason = [];
    created_by = actor.id;
  }
  pass (
    made,
    emitted actor created made.id
        (audited actor created made.id (record db { reservations = made ∷ db.reservations })),
  )

-- `reservation.save(...)` of a locked row.
abbrev pub save_with : (Reservation → Reservation) → Reservation → ReservationDb → ReservationDb
save_with f r db = record db { reservations = update r.id (λ _. true) f db.reservations }

abbrev pub set_status : ReservationStatus → Reservation → Reservation
set_status status r = record r { status = status }

abbrev pub end_with : ReservationStatus → Text → Reservation → Reservation
end_with status reason r = record r { status = status; cancellation_reason = strip reason }

unfoldable pub confirm_reservation :
    ℕ → Account → ReservationDb → Check ReservationError (Reservation × ReservationDb)
confirm_reservation id actor db = do
  r ← or_stop (find id db.reservations) does_not_exist
  stop_if (not (is_requested r.status)) cannot_confirm
  pass (
    set_status confirmed r,
    audited actor was_confirmed r.id (save_with (set_status confirmed) r db),
  )

pub record ChangeIn : Type 0 where
  pub reserved_date : Option ℕ
  pub reserved_time : Option ℕ
  pub party_size : Option ℤ

abbrev or_else : Option ℕ → Option ℕ → Option ℕ
or_else none d = d
or_else (some t) d = some t

abbrev date_past : ℕ → Option ℕ → Bool
date_past today none = false
date_past today (some date) = ltb date today

abbrev size_bad : Option ℤ → Bool
size_bad none = false
size_bad (some size) = is_out_of_range size

-- The fields that are supplied replace those of the row.
unfoldable pub amend : ChangeIn → Reservation → Reservation
amend payload r = record r {
  reserved_date = get_or payload.reserved_date r.reserved_date;
  reserved_time = or_else payload.reserved_time r.reserved_time;
  party_size = get_or payload.party_size r.party_size;
}

abbrev pub holds_slot_of : Reservation → Reservation → Bool
holds_slot_of r = holds_slot r.fan r.reserved_date r.reserved_time r.reservation_type

unfoldable pub change_reservation :
    ℕ
    → ℕ
    → Account
    → ChangeIn
    → ReservationDb
    → Check ReservationError (Reservation × ReservationDb)
change_reservation today id actor payload db = do
  r ← or_stop (find id db.reservations) does_not_exist
  stop_if (not (is_active r.status)) not_active
  stop_if (date_past today payload.reserved_date) date_in_past
  stop_if (size_bad payload.party_size) party_out_of_range
  stop_if
      (is_none payload.reserved_date && is_none payload.reserved_time && is_none payload.party_size)
      nothing_to_change
  stop_if (exists (λ o. holds_slot_of (amend payload r) o && not (o.id == r.id)) db.reservations)
      slot_taken
  pass (amend payload r, audited actor changed r.id (save_with (amend payload) r db))

unfoldable pub cancel_reservation :
    ℕ → Account → Text → ReservationDb → Check ReservationError (Reservation × ReservationDb)
cancel_reservation id actor reason db = do
  r ← or_stop (find id db.reservations) does_not_exist
  stop_if (not (is_active r.status)) not_active
  pass (
    end_with cancelled reason r,
    emitted actor was_cancelled r.id
        (audited actor was_cancelled r.id (save_with (end_with cancelled reason) r db)),
  )

unfoldable pub mark_no_show :
    ℕ → Account → Text → ReservationDb → Check ReservationError (Reservation × ReservationDb)
mark_no_show id actor reason db = do
  r ← or_stop (find id db.reservations) does_not_exist
  stop_if (not (is_active r.status)) not_active
  pass (
    end_with no_show reason r,
    audited actor marked_no_show r.id (save_with (end_with no_show reason) r db),
  )
