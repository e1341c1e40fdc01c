-- ===== src/Cheki/Service.antt =====
-- server/apps/cheki/models.py and server/apps/cheki/services.py, with what they read of a visit in
-- server/apps/visit/models.py. A ValueError stops an operation and leaves the database as it was.
-- A record that a caller passes was loaded before and may be stale; a save writes only its
-- `update_fields` into the row.
use assen_platform.Common.{
  ℕ, Bool, true, false, not, ◌&&◌, Option, none, some, List, [], ◌∷◌, Text, strip, is_some, is_none,
  is_nonempty, get_or, if◌then◌else◌,
}
use assen_platform.Common.Table.{Row, find, update}
use assen_platform.Errors.{Check, pass, stop_if, or_stop, ◌>>=◌, ◌>>◌}
use assen_platform.Identity.{Account}

pub data VisitRecordStatus : Type 0 where
  kept_visit voided_visit : VisitRecordStatus

pub record VisitRecord : Type 0 where
  pub id : ℕ
  pub fan : ℕ
  pub status : VisitRecordStatus

pub data ChekiType : Type 0 where
  basic option event comp test : ChekiType

pub data ChekiSettlementStatus : Type 0 where
  candidate hold excluded : ChekiSettlementStatus

pub data ChekiRecordStatus : Type 0 where
  active_cheki voided_cheki : ChekiRecordStatus

pub record ChekiRecord : Type 0 where
  pub id : ℕ
  pub fan : Option ℕ
  pub visit : ℕ
  pub cast_id : Text
  pub cheki_type : ChekiType
  pub quantity : ℕ
  pub image_stored : Bool
  pub consent_scope : Text
  pub settlement_status : ChekiSettlementStatus
  pub pos_receipt_no : Text
  pub status : ChekiRecordStatus
  pub void_reason : Text
  pub created_by : ℕ

instance abbrev pub cheki_row : Row ChekiRecord
cheki_row = record { key = λ r. r.id }

pub data ChekiAction : Type 0 where
  cheki_recorded cheki_corrected cheki_voided : ChekiAction

-- `_snapshot`
pub record Snapshot : Type 0 where
  pub cheki_type : ChekiType
  pub quantity : ℕ
  pub consent_scope : Text
  pub pos_receipt_no : Text
  pub settlement_status : ChekiSettlementStatus
  pub status : ChekiRecordStatus
  pub void_reason : Text

abbrev pub snapshot : ChekiRecord → Snapshot
snapshot r = record {
  cheki_type = r.cheki_type;
  quantity = r.quantity;
  consent_scope = r.consent_scope;
  pos_receipt_no = r.pos_receipt_no;
  settlement_status = r.settlement_status;
  status = r.status;
  void_reason = r.void_reason;
}

-- An audit entry, with what stood before and after, or an analytics event.
pub record ChekiTrace : Type 0 where
  pub actor : ℕ
  pub action : ChekiAction
  pub target : ℕ
  pub change : Option (Snapshot × Snapshot)

pub record ChekiDb : Type 0 where
  pub records : List ChekiRecord
  pub events : List ChekiTrace
  pub audits : List ChekiTrace

pub data ChekiError : Type 0 where
  visit_voided already_voided reason_required does_not_exist integrity_error : ChekiError

abbrev is_voided_visit : VisitRecordStatus → Bool
is_voided_visit voided_visit = true
is_voided_visit kept_visit = false

abbrev pub is_voided : ChekiRecordStatus → Bool
is_voided voided_cheki = true
is_voided active_cheki = false

abbrev pub is_excluded : ChekiSettlementStatus → Bool
is_excluded excluded = true
is_excluded _ = false

-- The settlement status that a record is born with.
abbrev pub settlement_of : ChekiType → ChekiSettlementStatus
settlement_of test = excluded
settlement_of _ = candidate

abbrev audited : Account → ChekiAction → ℕ → Option (Snapshot × Snapshot) → ChekiDb → ChekiDb
audited actor action target change db = record db {
  audits =
      record { actor = actor.id; action = action; target = target; change = change } ∷ db.audits;
}

abbrev emitted : Account → ChekiAction → ℕ → ChekiDb → ChekiDb
emitted actor action target db = record db {
  events = record { actor = actor.id; action = action; target = target; change = none } ∷ db.events;
}

pub record ChekiIn : Type 0 where
  pub cast_id : Text
  pub cheki_type : ChekiType
  pub quantity : ℕ
  pub image_stored : Bool
  pub consent_scope : Text
  pub pos_receipt_no : Text

abbrev pub cheki_of : ℕ → VisitRecord → Account → ChekiIn → ChekiRecord
cheki_of id visit actor payload = record {
  id = id;
  fan = some visit.fan;
  visit = visit.id;
  cast_id = payload.cast_id;
  cheki_type = payload.cheki_type;
  quantity = payload.quantity;
  image_stored = payload.image_stored;
  consent_scope = payload.consent_scope;
  settlement_status = settlement_of payload.cheki_type;
  pos_receipt_no = payload.pos_receipt_no;
  status = active_cheki;
  void_reason = [];
  created_by = actor.id;
}

unfoldable pub record_cheki :
    ℕ → VisitRecord → Account → ChekiIn → ChekiDb → Check ChekiError (ChekiRecord × ChekiDb)
record_cheki id visit actor payload db = do
  stop_if (is_voided_visit visit.status) visit_voided
  stop_if (is_some (find id db.records)) integrity_error
  let made = cheki_of id visit actor payload
  pass (
    made,
    emitted actor cheki_recorded made.id
        (audited actor cheki_recorded made.id none (record db { records = made ∷ db.records })),
  )

-- The arguments of `correct_cheki`; `none` is an argument left out.
pub record ChekiChange : Type 0 where
  pub cheki_type : Option ChekiType
  pub quantity : Option ℕ
  pub consent_scope : Option Text
  pub pos_receipt_no : Option Text

abbrev has_no_change : ChekiChange → Bool
has_no_change p =
    is_none p.cheki_type
    && is_none p.quantity
    && is_none p.consent_scope
    && is_none p.pos_receipt_no

-- The row with the fields that are given.
abbrev pub correct : ChekiChange → ChekiRecord → ChekiRecord
correct p r = record r {
  cheki_type = get_or p.cheki_type r.cheki_type;
  quantity = get_or p.quantity r.quantity;
  consent_scope = get_or p.consent_scope r.consent_scope;
  pos_receipt_no = get_or p.pos_receipt_no r.pos_receipt_no;
}

-- `record.save(update_fields=...)` and `record.refresh_from_db()`
unfoldable pub save_cheki :
    (ChekiRecord → ChekiRecord) → ChekiRecord → ChekiDb → Check ChekiError (ChekiRecord × ChekiDb)
save_cheki f r db = do
  stored ← or_stop (find r.id db.records) does_not_exist
  pass (f stored, record db { records = update r.id (λ _. true) f db.records })

unfoldable pub correct_cheki :
    ChekiRecord → Account → ChekiChange → ChekiDb → Check ChekiError (ChekiRecord × ChekiDb)
unfolding save_cheki
correct_cheki r actor payload db =
    if has_no_change payload
    then pass (r, db)
    else save_cheki (correct payload) r db >>= λ saved.
        pass (
          saved.0,
          audited actor cheki_corrected r.id (some (snapshot r, snapshot saved.0)) saved.1,
        )

abbrev pub void_with : Text → ChekiRecord → ChekiRecord
void_with reason r = record r {
  status = voided_cheki;
  void_reason = strip reason;
  settlement_status = excluded;
}

unfoldable pub void_cheki :
    ChekiRecord → Account → Text → ChekiDb → Check ChekiError (ChekiRecord × ChekiDb)
unfolding save_cheki
void_cheki r actor reason db = do
  stop_if (is_voided r.status) already_voided
  stop_if (not (is_nonempty (strip reason))) reason_required
  saved ← save_cheki (void_with reason) r db
  pass (
    saved.0,
    emitted actor cheki_voided r.id
        (audited actor cheki_voided r.id (some (snapshot r, snapshot saved.0)) saved.1),
  )
