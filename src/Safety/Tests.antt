-- ===== src/Safety/Tests.antt =====
-- Runs of the moderation: one image and two reports about it.
use assen_platform.Common.{
  ℕ, ◌≡◌, refl, ap, ◌∙◌, true, false, none, some, List, [], ◌∷◌, Text, text_eq, arith,
  if◌then◌else◌,
}
use assen_platform.Common.Table.{find, update, Distinct}
use assen_platform.Identity.{Account, Role, KycStatus}
use assen_platform.Safety.Uploads.{
  Upload, upload_row, visible, Storage, StoredObject, Backend, served_object_key,
  quarantine_key_for, take_down_upload, restore_upload,
}
use assen_platform.Safety.Reports.{
  SafetyReport, SafetyDb, photo_violation, high, received, actioned, reviewing, manager_only, fan,
  unknown, change_report_status, resolve_report, report_row, detail_row, set_status,
}
use assen_platform.Safety.Takedowns.{IsUnserved}
use assen_platform.Safety.Held.{IsHeld}
use assen_platform.Safety.Moderation.{
  Moderation, change_status, resolve, Faults, moderate, moderate_all, moderate_all-IsUnserved,
}

abbrev operator : Account
operator = record {
  id = 1;
  role = Role.operator;
  is_active = true;
  adult_verified = false;
  kyc_status = KycStatus.unverified;
}

-- The key of an image is its URL.
abbrev backend : Backend
backend = record {
  exists_raises = λ key. false;
  open_raises = λ key. false;
  save_raises = λ key. false;
  delete_raises = λ key. false;
  takes_effect = λ key. false;
  save_renames = λ key. false;
  seed = 0;
  alternative_name = λ seed key. 95 ∷ key;
  path_of = λ url. url;
  media_path = [];
}

abbrev image : Upload
image = record {
  id = 5;
  owner = 2;
  url = 97 ∷ [];
  content_type = [];
  status = visible;
  quarantine_key = [];
}

abbrev image_object : StoredObject
image_object = record { bytes = 1 ∷ []; content_type = [] }

abbrev stored_image : Storage
stored_image key = if text_eq key (97 ∷ []) then some image_object else none

abbrev report : ℕ → SafetyReport
report id = record {
  id = id;
  report_type = photo_violation;
  severity = high;
  status = received;
  visibility = manager_only;
  reporter_type = fan;
  target_type = unknown;
  reporter = some 3;
  target = none;
  upload = some 5;
  created_by = 3;
  resolved_at = none;
}

abbrev start : SafetyDb
start = record {
  reports = report 10 ∷ report 11 ∷ [];
  details = [];
  uploads = image ∷ [];
  storage = stored_image;
  audits = [];
}

start-IsHeld : IsHeld backend start
unfolding Distinct find served_object_key quarantine_key_for IsUnserved text_eq
start-IsHeld = record {
  ids = ground arith;
  stored = record {
    ids = ground arith;
    apart = λ i j u v f g e. ground arith;
    outside = λ i j u v f g.
        let a : u.url ≡ 97 ∷ [] = ground arith in
        let b : v.url ≡ 97 ∷ [] = ground arith in
        ap
          (λ (x : Text).
            text_eq (quarantine_key_for (served_object_key backend x))
              (served_object_key backend v.url))
          a
        ∙ ap
            (λ (x : Text).
              text_eq (quarantine_key_for (served_object_key backend (97 ∷ [])))
                (served_object_key backend x))
            b;
    strays = λ seed j taken v g.
        let b : v.url ≡ 97 ∷ [] = ground arith in
        ap (λ (x : Text). text_eq (95 ∷ taken) (served_object_key backend x)) b;
  };
  bound = λ i r f. let a : r.upload ≡ some 5 = ground arith in rw a refl;
  held = λ i id r f a e. ground arith;
}

abbrev no_faults : Faults
no_faults = record {
  exists_raises = λ key. false;
  open_raises = λ key. false;
  save_raises = λ key. false;
  delete_raises = λ key. false;
  takes_effect = λ key. false;
  save_renames = λ key. false;
  seed = 0;
}

-- A `delete` that raises, which leaves a copy in the quarantine and the image served.
abbrev no_delete : Faults
no_delete = record no_faults { delete_raises = λ key. true }

abbrev calls : List (Faults × Moderation)
calls =
    (no_delete, change_status operator 10 actioned)
    ∷ (no_faults, change_status operator 10 actioned)
    ∷ (no_faults, change_status operator 11 reviewing)
    ∷ []

after_calls :
    find 10 (moderate_all backend calls start).reports ≡ some (set_status actioned (report 10))
unfolding moderate_all moderate change_report_status find update served_object_key take_down_upload
    text_eq
after_calls = refl

moderate_all-IsUnserved_example :
    IsUnserved backend 5
      (moderate_all backend calls start).uploads
      (moderate_all backend calls start).storage
moderate_all-IsUnserved_example =
    moderate_all-IsUnserved backend calls start 10 5 (set_status actioned (report 10)) start-IsHeld
      after_calls refl refl

-- The first report takes the image down and is closed; the second, about the same image, is actioned and
-- then moved back.
abbrev reverted : List (Faults × Moderation)
reverted =
    (no_faults, change_status operator 10 actioned)
    ∷ (no_faults, resolve operator (record { now = 9; id = 9 }) 10 [])
    ∷ (no_faults, change_status operator 11 actioned)
    ∷ (no_faults, change_status operator 11 reviewing)
    ∷ []

-- The image is served again, although the report that was closed had taken it down for good.
reverted_run :
    (find 5 (moderate_all backend reverted start).uploads ≡ some image)
    × ((moderate_all backend reverted start).storage (97 ∷ []) ≡ some image_object)
unfolding moderate_all moderate change_report_status resolve_report find update served_object_key
    take_down_upload restore_upload text_eq quarantine_key_for
reverted_run = (refl, refl)
