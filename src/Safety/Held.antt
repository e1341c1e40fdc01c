-- ===== src/Safety/Held.antt =====
-- server/apps/safety/services.py: no image is served that a report at the status `actioned` is about.
use assen_platform.Common.{
  ℕ, ◌==◌, ◌≡◌, refl, sym, ap, ◌∙◌, Bool, true, false, Option, none, some, List, Text, arith,
  Bool-cases, Option-cases, inl, inr,
}
use mathlib.Core.Path.{subst}
use assen_platform.Common.Table.{find, update, Distinct, find-update, update-Distinct}
use assen_platform.Errors.{Check, pass, stop, pass-or-stop}
use assen_platform.Identity.{Account}
use assen_platform.Safety.Uploads.{
  Upload, upload_row, Storage, Backend, is_taken_down, served_object_key, quarantine_key_for,
  move_object, take_down_upload, restore_upload, left,
}
use assen_platform.Safety.Reports.{
  SafetyDb, SafetyError, storage_failed, SafetyReport, ReportStatus, report_row, write_upload,
  take_down, restore, is_bound, is_actioned, set_status,
}
use assen_platform.Safety.Takedowns.{
  IsUnserved, IsStored, move-source, move-left, find-write_upload_hit, write_upload-IsStored,
  IsUnserved-other,
}

-- No two reports or images have one key, a report is about an image that is there, and an image that an
-- actioned report is about is down.
pub record IsHeld (b : Backend) (db : SafetyDb) : Type 0 where
  pub ids : Distinct db.reports
  pub stored : IsStored b db.uploads
  pub bound :
      (i : ℕ) (r : SafetyReport) → find i db.reports ≡ some r → is_bound r.upload db.uploads ≡ true
  pub held :
      (i id : ℕ) (r : SafetyReport)
      → find i db.reports ≡ some r
      → is_actioned r.status ≡ true
      → r.upload ≡ some id
      → IsUnserved b id db.uploads db.storage

module _ (b : Backend) where
  take_down_upload-cases :
      (upload row : Upload) (storage storage' : Storage) (is_new : Bool)
      → take_down_upload b upload storage ≡ pass (row, storage', is_new)
      → (row.id ≡ upload.id)
        × (is_taken_down row.status ≡ true)
        × (move_object b
              (served_object_key b upload.url)
              (quarantine_key_for (served_object_key b upload.url))
              upload.content_type
              storage
            ≡ pass storage')
  unfolding take_down_upload
  take_down_upload-cases upload row storage storage' is_new h =
      elim (pass-or-stop (
        move_object b (served_object_key b upload.url)
          (quarantine_key_for (served_object_key b upload.url)) upload.content_type storage)) [
            | inr (s, e) ↦ ground arith
            | inl (s, e) ↦ (ground arith, ground arith, ground arith)
          ]

  -- A takedown that fails has failed in its move.
  pub take_down_upload-stop :
      (upload : Upload) (storage storage' : Storage)
      → take_down_upload b upload storage ≡ stop storage'
      → storage'
        ≡ left (
            move_object b
              (served_object_key b upload.url)
              (quarantine_key_for (served_object_key b upload.url))
              upload.content_type
              storage)
  unfolding take_down_upload
  take_down_upload-stop upload storage storage' h =
      elim (pass-or-stop (
        move_object b (served_object_key b upload.url)
          (quarantine_key_for (served_object_key b upload.url)) upload.content_type storage)) [
            | inr (s, e) ↦ ground arith
            | inl (s, e) ↦ ground arith
          ]

  pub take_down-cases :
      (actor : Account) (upload : Upload) (db db' : SafetyDb)
      → take_down b actor upload db ≡ pass db'
      → (row : Upload) × (storage' : Storage) × (is_new : Bool) × (take_down_upload b upload
            db.storage
          ≡ pass (row, storage', is_new))
        × (db'.reports ≡ db.reports)
        × (db'.uploads ≡ write_upload row db.uploads)
        × (db'.storage ≡ storage')
  unfolding take_down
  take_down-cases actor upload db db' h =
      elim (pass-or-stop (take_down_upload b upload db.storage)) [
        | inr (s, e) ↦ ground arith
        | inl ((row, storage', is_new), e) ↦
            (row, storage', is_new, e, ground arith, ground arith, ground arith)
      ]

  pub take_down-stop :
      (actor : Account) (upload : Upload) (db : SafetyDb) (e : SafetyError)
      → take_down b actor upload db ≡ stop e
      → (s : Storage) × (e ≡ storage_failed s) × (take_down_upload b upload db.storage ≡ stop s)
  unfolding take_down
  take_down-stop actor upload db error h =
      elim (pass-or-stop (take_down_upload b upload db.storage)) [
        | inr (s, e) ↦ (s, ground arith, e)
        | inl ((row, storage', is_new), e) ↦ ground arith
      ]

  -- The image is down after a takedown, and others that were down still are.
  pub take_down-IsUnserved :
      (upload row : Upload) (uploads : List Upload) (storage storage' : Storage) (is_new : Bool)
      → IsStored b uploads
      → find upload.id uploads ≡ some upload
      → take_down_upload b upload storage ≡ pass (row, storage', is_new)
      → IsUnserved b upload.id (write_upload row uploads) storage'
        × ((id : ℕ)
            → IsUnserved b id uploads storage
            → IsUnserved b id (write_upload row uploads) storage')
  unfolding IsUnserved
  take_down-IsUnserved upload row uploads storage storage' is_new k f h =
      let (same, down, moved) = take_down_upload-cases upload row storage storage' is_new h in
      let own : IsUnserved b upload.id (write_upload row uploads) storage' = (
        record upload { status = row.status; quarantine_key = row.quarantine_key },
        ground (arith, find-write_upload_hit b row upload.id upload uploads f, same),
        down,
        move-source b (served_object_key b upload.url)
            (quarantine_key_for (served_object_key b upload.url)) upload.content_type storage
            storage' moved,
      ) in
      (
        own,
        λ id d. elim (Bool-cases (row.id == id)) [
          | inl e ↦
              subst (λ (i : ℕ). IsUnserved b i (write_upload row uploads) storage')
                (ground (arith, same)) own
          | inr e ↦
              IsUnserved-other b row id uploads storage storage' e
                (λ u g n.
                  sym (ap (λ (c : Check Storage Storage). left c (served_object_key b u.url)) moved)
                  ∙ move-left b (served_object_key b upload.url)
                      (quarantine_key_for (served_object_key b upload.url)) upload.content_type
                      (served_object_key b u.url) storage (k.outside upload.id id upload u f g)
                      (k.strays b.seed id (quarantine_key_for (served_object_key b upload.url)) u g)
                      n)
                d
        ],
      )

  pub is_bound-write_upload :
      (row : Upload) (o : Option ℕ) (uploads : List Upload)
      → is_bound o uploads ≡ true
      → is_bound o (write_upload row uploads) ≡ true
  is_bound-write_upload row none uploads h = refl
  is_bound-write_upload row (some id) uploads h = elim (Option-cases (find id uploads)) [
    | inl n ↦ ground arith
    | inr (u, e) ↦ ground (arith, find-write_upload_hit b row id u uploads e)
  ]

  -- A takedown that fails leaves the images down that were.
  pub failed-IsUnserved :
      (upload : Upload) (uploads : List Upload) (storage storage' : Storage) (id : ℕ)
      → IsStored b uploads
      → find upload.id uploads ≡ some upload
      → take_down_upload b upload storage ≡ stop storage'
      → IsUnserved b id uploads storage
      → IsUnserved b id uploads storage'
  unfolding IsUnserved
  failed-IsUnserved upload uploads storage storage' id k f h (u, g, t, n) =
      let destination = quarantine_key_for (served_object_key b upload.url) in
      (
        u,
        g,
        t,
        ap (λ (st : Storage). st (served_object_key b u.url))
              (take_down_upload-stop upload storage storage' h)
            ∙ move-left b (served_object_key b upload.url) destination upload.content_type
                (served_object_key b u.url) storage (k.outside upload.id id upload u f g)
                (k.strays b.seed id destination u g) n,
      )

  restore-cases :
      (actor : Account) (upload : Upload) (db : SafetyDb)
      → (row : Upload) × (source : Text) × (row.id ≡ upload.id)
        × ((restore b actor upload db).reports ≡ db.reports)
        × ((restore b actor upload db).uploads ≡ write_upload row db.uploads)
        × ((restore b actor upload db).storage
            ≡ left (
                move_object b source
                  (served_object_key b upload.url)
                  upload.content_type
                  db.storage))
  unfolding restore restore_upload
  restore-cases actor upload db =
      let (row, is_new, source, destination) = restore_upload b upload in
      (row, source, ground arith, ground arith, ground arith, ground arith)

  -- Images but the one that is restored stay down.
  pub restore-IsUnserved :
      (actor : Account) (upload : Upload) (db : SafetyDb)
      → IsStored b db.uploads
      → find upload.id db.uploads ≡ some upload
      → ((restore b actor upload db).reports ≡ db.reports)
        × IsStored b (restore b actor upload db).uploads
        × ((id : ℕ)
            → (upload.id == id) ≡ false
            → IsUnserved b id db.uploads db.storage
            → IsUnserved b id
                (restore b actor upload db).uploads
                (restore b actor upload db).storage)
        × ((o : Option ℕ)
            → is_bound o db.uploads ≡ true
            → is_bound o (restore b actor upload db).uploads ≡ true)
  restore-IsUnserved actor upload db k f =
      let (row, source, same, reports, uploads, storage) = restore-cases actor upload db in
      (
        reports,
        subst (IsStored b) (sym uploads) (write_upload-IsStored b row db.uploads k),
        λ id other d.
            subst (λ (us : List Upload). IsUnserved b id us (restore b actor upload db).storage)
              (sym uploads)
              (IsUnserved-other b row id db.uploads db.storage (restore b actor upload db).storage
                (ground (arith, same))
                (λ u g n.
                  ap (λ (st : Storage). st (served_object_key b u.url)) storage
                  ∙ move-left b source (served_object_key b upload.url) upload.content_type
                      (served_object_key b u.url) db.storage
                      (k.apart upload.id id upload u f g other)
                      (k.strays b.seed id (served_object_key b upload.url) u g) n)
                d),
        λ o e.
            subst (λ (us : List Upload). is_bound o us ≡ true) (sym uploads)
              (is_bound-write_upload row o db.uploads e),
      )

  found_report :
      (report : SafetyReport) (status : ReportStatus) (i : ℕ) (r : SafetyReport) (db db' : SafetyDb)
      → find report.id db.reports ≡ some report
      → db'.reports ≡ update report.id (λ r. true) (set_status status) db.reports
      → find i db'.reports ≡ some r
      → (old : SafetyReport) × (find i db.reports ≡ some old)
        × (r.upload ≡ old.upload)
        × ((report.id == i) ≡ false → r ≡ old)
        × ((report.id == i) ≡ true → (r.status ≡ status) × (old ≡ report))
  found_report report status i r db db' f reports g =
      let g' = sym (ap (λ (rs : List SafetyReport). find i rs) reports) ∙ g in
      let written =
        find-update report.id (λ r. true) (set_status status) (λ r. refl) i db.reports in
      elim (Option-cases (find i db.reports)) [
        | inl n ↦ ground (arith, written)
        | inr (old, e) ↦ (
          old,
          e,
          ground (arith, written),
          λ away. ground (arith, written),
          λ here. (
            ground (arith, written),
            ground (arith, ap (λ (k : ℕ). find k db.reports) {x = report.id} {y = i}),
          ),
        )
      ]

  -- A status change holds where the new status is met by the image, and the others stay down.
  pub assemble :
      (report : SafetyReport) (status : ReportStatus) (db db' : SafetyDb)
      → IsHeld b db
      → find report.id db.reports ≡ some report
      → db'.reports ≡ update report.id (λ r. true) (set_status status) db.reports
      → IsStored b db'.uploads
      → ((o : Option ℕ) → is_bound o db.uploads ≡ true → is_bound o db'.uploads ≡ true)
      → ((id : ℕ)
          → is_actioned status ≡ true
          → report.upload ≡ some id
          → IsUnserved b id db'.uploads db'.storage)
      → ((i id : ℕ) (r : SafetyReport)
          → find i db.reports ≡ some r
          → (report.id == i) ≡ false
          → is_actioned r.status ≡ true
          → r.upload ≡ some id
          → IsUnserved b id db.uploads db.storage
          → IsUnserved b id db'.uploads db'.storage)
      → IsHeld b db'
  assemble report status db db' v f reports stored bound mine others = record {
    ids =
        subst Distinct (sym reports)
          (update-Distinct report.id (λ r. true) (set_status status) (λ r. refl) db.reports v.ids);
    stored = stored;
    bound = λ i r g.
        let (old, found, same_upload, other, changed) =
          found_report report status i r db db' f reports g in
        bound r.upload
          (ap (λ (o : Option ℕ). is_bound o db.uploads) same_upload ∙ v.bound i old found);
    held = λ i id r g a e.
        let (old, found, same_upload, other, changed) =
          found_report report status i r db db' f reports g in
        elim (Bool-cases (report.id == i)) [
          | inl here ↦
              mine id (ap is_actioned (sym (changed here).0) ∙ a)
                (sym (ap (λ (x : SafetyReport). x.upload) (changed here).1) ∙ sym same_upload ∙ e)
          | inr away ↦
              let same = other away in
              let still : is_actioned old.status ≡ true =
                ap (λ (x : SafetyReport). is_actioned x.status) (sym same) ∙ a in
              others i id old found away still (sym same_upload ∙ e)
                (v.held i id old found still (sym same_upload ∙ e))
        ];
  }
