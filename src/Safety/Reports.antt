-- ===== src/Safety/Reports.antt =====
-- server/apps/safety/services.py: reports, from their filing to their end, and the images that they
-- take down. Of the audit and the events, only who did what to which row is kept.
use assen_platform.Common.{
  ℕ, ◌==◌, Bool, true, false, not, ◌&&◌, ◌||◌, Option, none, some, is_some, List, [], ◌∷◌, Text,
  option_eq, if◌then◌else◌,
}
use assen_platform.Common.Table.{Row, find, exists, update}
use assen_platform.Errors.{Check, pass, stop, stop_if, or_stop, ◌>>=◌, ◌>>◌}
use assen_platform.Identity.{Account}
use assen_platform.Commerce.Load.{Stamp}
use assen_platform.Safety.Uploads.{
  Upload, upload_row, Storage, Backend, take_down_upload, restore_upload, move_object, left,
}

pub data ReportType : Type 0 where
  unwanted_request private_contact external_meeting verbal_abuse physical_threat : ReportType
  photo_violation stalking_concern refund_dispute privacy_portrait_concern : ReportType
  fraud_abuse other : ReportType

pub data ReportSeverity : Type 0 where
  low medium high critical : ReportSeverity

pub data ReportStatus : Type 0 where
  received reviewing actioned closed : ReportStatus

pub data ReportVisibility : Type 0 where
  restricted manager_only : ReportVisibility

pub data ActorKind : Type 0 where
  fan cast operator admin unknown : ActorKind

pub record SafetyReport : Type 0 where
  pub id : ℕ
  pub report_type : ReportType
  pub severity : ReportSeverity
  pub status : ReportStatus
  pub visibility : ReportVisibility
  pub reporter_type : ActorKind
  pub target_type : ActorKind
  pub reporter : Option ℕ
  pub target : Option ℕ
  pub upload : Option ℕ
  pub created_by : ℕ
  pub resolved_at : Option ℕ

pub record SafetyReportDetail : Type 0 where
  pub report : ℕ
  pub narrative : Text
  pub resolution_note : Text

pub data SafetyAction : Type 0 where
  report_created report_status_changed report_resolved : SafetyAction
  upload_taken_down upload_restored : SafetyAction

pub record SafetyTrace : Type 0 where
  pub actor : ℕ
  pub action : SafetyAction
  pub about : ℕ

pub record SafetyDb : Type 0 where
  pub reports : List SafetyReport
  pub details : List SafetyReportDetail
  pub uploads : List Upload
  pub storage : Storage
  pub audits : List SafetyTrace

pub data SafetyError : Type 0 where
  report_not_found not_reportable use_resolve report_closed integrity : SafetyError
  storage_failed : Storage → SafetyError  -- what the exception leaves of the storage

instance abbrev pub report_row : Row SafetyReport
report_row = record { key = λ r. r.id }

instance abbrev pub detail_row : Row SafetyReportDetail
detail_row = record { key = λ d. d.report }

abbrev pub is_actioned : ReportStatus → Bool
is_actioned actioned = true
is_actioned _ = false

abbrev pub is_closed : ReportStatus → Bool
is_closed closed = true
is_closed _ = false

-- `_visibility_for`
unfoldable pub visibility_for : ReportSeverity → ReportVisibility
visibility_for high = manager_only
visibility_for critical = manager_only
visibility_for _ = restricted

-- `FAN_REPORTABLE_TYPES`
unfoldable pub is_fan_reportable : ReportType → Bool
is_fan_reportable refund_dispute = false
is_fan_reportable fraud_abuse = false
is_fan_reportable _ = true

unfoldable pub fan_report_severity : ReportType → ReportSeverity
fan_report_severity physical_threat = critical
fan_report_severity stalking_concern = critical
fan_report_severity private_contact = high
fan_report_severity external_meeting = high
fan_report_severity photo_violation = high
fan_report_severity verbal_abuse = high
fan_report_severity _ = medium

abbrev pub audited : Account → SafetyAction → ℕ → SafetyDb → SafetyDb
audited actor action about db =
    let trace : SafetyTrace = record { actor = actor.id; action = action; about = about } in
    record db { audits = trace ∷ db.audits }

abbrev pub is_bound : Option ℕ → List Upload → Bool
is_bound none uploads = true
is_bound (some id) uploads = is_some (find id uploads)

-- The insert of a report and its detail; a key that is taken, or an image that is not there, is an
-- IntegrityError.
unfoldable pub insert_report : SafetyReport → Text → SafetyDb → Check SafetyError SafetyDb
insert_report report narrative db =
    let detail : SafetyReportDetail = record {
      report = report.id;
      narrative = narrative;
      resolution_note = [];
    } in
    if is_some (find report.id db.reports) || not (is_bound report.upload db.uploads)
    then stop integrity
    else pass (record db { reports = report ∷ db.reports; details = detail ∷ db.details })

-- What an operator files.
pub record Filing : Type 0 where
  pub report_type : ReportType
  pub severity : ReportSeverity
  pub reporter_type : ActorKind
  pub target_type : ActorKind
  pub reporter : Option ℕ
  pub target : Option ℕ
  pub upload : Option ℕ
  pub narrative : Text

abbrev pub filed_report : Stamp → Filing → Account → SafetyReport
filed_report stamp filing actor = record {
  id = stamp.id;
  report_type = filing.report_type;
  severity = filing.severity;
  status = received;
  visibility = visibility_for filing.severity;
  reporter_type = filing.reporter_type;
  target_type = filing.target_type;
  reporter = filing.reporter;
  target = filing.target;
  upload = filing.upload;
  created_by = actor.id;
  resolved_at = none;
}

unfoldable pub file_report :
    Stamp → Filing → Account → SafetyDb → Check SafetyError (SafetyReport × SafetyDb)
unfolding visibility_for insert_report
file_report stamp filing actor db = do
  let report = filed_report stamp filing actor
  db' ← insert_report report filing.narrative db
  pass (report, audited actor report_created report.id db')

abbrev pub fan_report : Stamp → Account → ReportType → Option ℕ → SafetyReport
fan_report stamp reporter report_type upload = record {
  id = stamp.id;
  report_type = report_type;
  severity = fan_report_severity report_type;
  status = received;
  visibility = visibility_for (fan_report_severity report_type);
  reporter_type = fan;
  target_type = unknown;
  reporter = some reporter.id;
  target = none;
  upload = upload;
  created_by = reporter.id;
  resolved_at = none;
}

unfoldable pub file_fan_report :
    Stamp
    → Account
    → ReportType
    → Text
    → Option ℕ
    → SafetyDb
    → Check SafetyError (SafetyReport × SafetyDb)
unfolding visibility_for is_fan_reportable fan_report_severity insert_report
file_fan_report stamp reporter report_type narrative upload db = do
  stop_if (not (is_fan_reportable report_type)) not_reportable
  let report = fan_report stamp reporter report_type upload
  db' ← insert_report report narrative db
  pass (report, db')

-- `_other_actioned_report_exists`
unfoldable pub other_actioned_report_exists : ℕ → SafetyReport → List SafetyReport → Bool
other_actioned_report_exists upload excluding reports =
    exists
      (λ r. option_eq r.upload (some upload) && is_actioned r.status && not (r.id == excluding.id))
      reports

abbrev pub set_status : ReportStatus → SafetyReport → SafetyReport
set_status status r = record r { status = status }

-- `upload.save(update_fields=["status", "quarantine_key"])`
abbrev pub write_upload : Upload → List Upload → List Upload
write_upload row uploads =
    update row.id (λ u. true)
      (λ u. record u { status = row.status; quarantine_key = row.quarantine_key }) uploads

-- `report.upload`
abbrev pub upload_of : Option ℕ → List Upload → Option Upload
upload_of none uploads = none
upload_of (some id) uploads = find id uploads

module _ (b : Backend) (actor : Account) where
  unfoldable pub take_down : Upload → SafetyDb → Check SafetyError SafetyDb
  unfolding take_down_upload
  take_down upload db = elim (take_down_upload b upload db.storage) [
    | stop storage ↦ stop (storage_failed storage)
    | pass (row, storage, is_new) ↦
        let db' = record db { uploads = write_upload row db.uploads; storage = storage } in
        pass (if is_new then audited actor upload_taken_down upload.id db' else db')
  ]

  -- The row is restored in the transaction, the object moved back once that is committed; where the
  -- move raises, the row stays restored, and the storage is as the exception leaves it.
  unfoldable pub restore : Upload → SafetyDb → SafetyDb
  unfolding restore_upload
  restore upload db =
      let (row, is_new, source, destination) = restore_upload b upload in
      let db' = record db { uploads = write_upload row db.uploads } in
      let db'' = if is_new then audited actor upload_restored upload.id db' else db' in
      record db'' {
        storage = left (move_object b source destination upload.content_type db.storage);
      }

  -- What a status change does to the image that the report is about.
  unfoldable pub apply_to_upload :
      SafetyReport → ReportStatus → Option Upload → SafetyDb → Check SafetyError SafetyDb
  unfolding take_down restore other_actioned_report_exists
  apply_to_upload report status none db = pass db
  apply_to_upload report status (some upload) db =
      if is_actioned status
      then take_down upload db
      else if is_actioned report.status
          && not (other_actioned_report_exists upload.id report db.reports)
      then pass (restore upload db)
      else pass db

  -- `change_report_status`, for the report that the route has loaded.
  unfoldable pub change_report_status : ℕ → ReportStatus → SafetyDb → Check SafetyError SafetyDb
  unfolding apply_to_upload
  change_report_status id status db = do
    report ← or_stop (find id db.reports) report_not_found
    stop_if (is_closed status) use_resolve
    stop_if (is_closed report.status) report_closed
    apply_to_upload report status (upload_of report.upload db.uploads) (
        audited actor report_status_changed id
          (record db { reports = update id (λ r. true) (set_status status) db.reports }))

  unfoldable pub resolve_report : Stamp → ℕ → Text → SafetyDb → Check SafetyError SafetyDb
  resolve_report stamp id resolution_note db = do
    report ← or_stop (find id db.reports) report_not_found
    stop_if (is_closed report.status) report_closed
    pass (
        audited actor report_resolved id (record db {
          reports =
              update id (λ r. true)
                (λ r. record r { status = closed; resolved_at = some stamp.now }) db.reports;
          details =
              update id (λ d. true) (λ d. record d { resolution_note = resolution_note })
                db.details;
        }))
