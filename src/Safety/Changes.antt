-- ===== src/Safety/Changes.antt =====
-- server/apps/safety/services.py: moving a report keeps the images down that actioned reports are about.
use assen_platform.Common.{
  ℕ, ◌==◌, ◌≡◌, refl, sym, ap, ◌∙◌, Bool, true, false, not, ◌&&◌, Option, none, some, List, [], ◌∷◌,
  option_eq, arith, Bool-cases, Option-cases, inl, inr,
}
use mathlib.Core.Path.{subst}
use assen_platform.Common.Table.{find, exists, update, find-update, key-find}
use assen_platform.Errors.{pass, stop}
use assen_platform.Identity.{Account}
use assen_platform.Safety.Uploads.{Upload, upload_row, Storage, Backend, take_down_upload}
use assen_platform.Safety.Reports.{
  SafetyDb, storage_failed, SafetyReport, ReportStatus, report_row, write_upload, take_down,
  restore, is_bound, is_actioned, set_status, audited, report_status_changed,
  other_actioned_report_exists, apply_to_upload, upload_of, change_report_status,
}
use assen_platform.Safety.Takedowns.{IsUnserved, IsStored, write_upload-IsStored}
use assen_platform.Safety.Held.{
  IsHeld, take_down-stop, failed-IsUnserved, take_down-cases, take_down-IsUnserved,
  restore-IsUnserved, is_bound-write_upload, assemble,
}

not_found_other :
    (p : SafetyReport → Bool) (i : ℕ) (r : SafetyReport) (rs : List SafetyReport)
    → exists p rs ≡ false
    → find i rs ≡ some r
    → p r ≡ false
unfolding find
not_found_other p i r [] h f = cc
not_found_other p i r (x ∷ rs) h f = ground (arith, not_found_other p i r rs)

pub IsUnserved-at :
    (b : Backend) (id : ℕ) (uploads uploads' : List Upload) (storage storage' : Storage)
    → uploads' ≡ uploads
    → storage' ≡ storage
    → IsUnserved b id uploads storage
    → IsUnserved b id uploads' storage'
IsUnserved-at b id uploads uploads' storage storage' u t d =
    subst (λ (us : List Upload). IsUnserved b id us storage') (sym u)
      (subst (IsUnserved b id uploads) (sym t) d)

found_upload :
    (o : Option ℕ) (uploads : List Upload) (upload : Upload)
    → upload_of o uploads ≡ some upload
    → (id : ℕ) × (find upload.id uploads ≡ some upload)
found_upload none uploads upload h = cc
found_upload (some id) uploads upload h =
    (id, ap (λ (k : ℕ). find k uploads) (key-find id uploads upload h) ∙ h)

module _ (b : Backend) (actor : Account) where
  -- The image is left alone.
  unmoved-IsHeld :
      (report : SafetyReport) (status : ReportStatus) (db db' : SafetyDb)
      → IsHeld b db
      → find report.id db.reports ≡ some report
      → db'.reports ≡ update report.id (λ r. true) (set_status status) db.reports
      → db'.uploads ≡ db.uploads
      → db'.storage ≡ db.storage
      → ((id : ℕ) → is_actioned status ≡ true → report.upload ≡ some id → ⊥)
      → IsHeld b db'
  unmoved-IsHeld report status db db' v f r u t n =
      assemble b report status db db' v f r (subst (IsStored b) (sym u) v.stored)
        (λ o e. ap (is_bound o) u ∙ e) (λ id a e. absurd (n id a e))
        (λ i id old g away a e d.
          IsUnserved-at b id db.uploads db'.uploads db.storage db'.storage u t d)

  module _ (report : SafetyReport) (status : ReportStatus) (upload : Upload) (db db1 db' : SafetyDb)
      (v : IsHeld b db) (f : find report.id db.reports ≡ some report)
      (bound_to : report.upload ≡ some upload.id) (there : find upload.id db.uploads ≡ some upload)
      (r : db1.reports ≡ update report.id (λ r. true) (set_status status) db.reports)
      (u : db1.uploads ≡ db.uploads) (t : db1.storage ≡ db.storage) where
    taken_down-IsHeld : take_down b actor upload db1 ≡ pass db' → IsHeld b db'
    taken_down-IsHeld h =
        let (row, st, is_new, td, reports, uploads, storage) =
          take_down-cases b actor upload db1 db' h in
        let (own, keep) =
          take_down-IsUnserved b upload row db.uploads db.storage st is_new v.stored there
            (ap (take_down_upload b upload) (sym t) ∙ td) in
        let written : db'.uploads ≡ write_upload row db.uploads =
          uploads ∙ ap (write_upload row) u in
        let at = λ (id : ℕ).
          IsUnserved-at b id (write_upload row db.uploads) db'.uploads st db'.storage written
            storage in
        assemble b report status db db' v f (reports ∙ r)
          (subst (IsStored b) (sym written) (write_upload-IsStored b row db.uploads v.stored))
          (λ o e. ap (is_bound o) written ∙ is_bound-write_upload b row o db.uploads e)
          (λ id a e.
            subst (λ (k : ℕ). IsUnserved b k db'.uploads db'.storage) (ground (arith, bound_to))
              (at upload.id own))
          (λ i id old g away a e d. at id (keep id d))

    different :
        (i id : ℕ) (old : SafetyReport)
        → find i db.reports ≡ some old
        → (report.id == i) ≡ false
        → is_actioned old.status ≡ true
        → old.upload ≡ some id
        → other_actioned_report_exists upload.id report db1.reports ≡ false
        → (upload.id == id) ≡ false
    unfolding other_actioned_report_exists
    different i id old g away a e alone =
        let written =
          find-update report.id (λ x. true) (set_status status) (λ x. refl) i db.reports in
        ground (
          arith,
          not_found_other
              (λ x.
                option_eq x.upload (some upload.id)
                && is_actioned x.status
                && not (x.id == report.id))
              i old db1.reports alone
              (ap (λ (rs : List SafetyReport). find i rs) r ∙ written ∙ rw away g),
          key-find i db.reports old g,
          e,
        )

    restored-IsHeld :
        is_actioned status ≡ false
        → other_actioned_report_exists upload.id report db1.reports ≡ false
        → restore b actor upload db1 ≡ db'
        → IsHeld b db'
    restored-IsHeld n alone h =
        let (reports, stored, keep, bound) =
          restore-IsUnserved b actor upload db1 (subst (IsStored b) (sym u) v.stored)
            (ap (λ (us : List Upload). find upload.id us) u ∙ there) in
        subst (IsHeld b) h (
          assemble b report status db (restore b actor upload db1) v f (reports ∙ r) stored
            (λ o e. bound o (ap (is_bound o) u ∙ e)) (λ id a e. cc)
            (λ i id old g away a e d.
              keep id (different i id old g away a e alone)
                (IsUnserved-at b id db.uploads db1.uploads db.storage db1.storage u t d)))

    applied-IsHeld :
        apply_to_upload b actor report status (some upload) db1 ≡ pass db' → IsHeld b db'
    unfolding apply_to_upload
    applied-IsHeld h = elim (Bool-cases (is_actioned status)) [
      | inl a ↦ taken_down-IsHeld (ground arith)
      | inr n ↦
          elim (Bool-cases (
            is_actioned report.status
            && not (other_actioned_report_exists upload.id report db1.reports))) [
              | inl undo ↦ restored-IsHeld n (ground arith) (ground arith)
              | inr keep ↦
                  let same : db1 ≡ db' = ground arith in
                  subst (IsHeld b) same
                    (unmoved-IsHeld report status db db1 v f r u t (λ id a e. cc))
            ]
    ]

  apply_to_upload-IsHeld :
      (report : SafetyReport) (status : ReportStatus) (db db1 db' : SafetyDb)
      → IsHeld b db
      → find report.id db.reports ≡ some report
      → db1.reports ≡ update report.id (λ r. true) (set_status status) db.reports
      → db1.uploads ≡ db.uploads
      → db1.storage ≡ db.storage
      → apply_to_upload b actor report status (upload_of report.upload db.uploads) db1 ≡ pass db'
      → IsHeld b db'
  unfolding apply_to_upload
  apply_to_upload-IsHeld report status db db1 db' v f r u t h = elim (Option-cases report.upload) [
    | inl n ↦
        let same : db1 ≡ db' = ground (
          arith,
          ap (λ (o : Option ℕ). apply_to_upload b actor report status (upload_of o db.uploads) db1)
                (sym n)
              ∙ h,
        ) in
        subst (IsHeld b) same (unmoved-IsHeld report status db db1 v f r u t (λ id a e. cc))
    | inr (id, e) ↦ elim (Option-cases (find id db.uploads)) [
      | inl n ↦ absurd (ground (arith, v.bound report.id report f, e))
      | inr (upload, g) ↦
          let mine = key-find id db.uploads upload g in
          applied-IsHeld report status upload db db1 db' v f (e ∙ ap (λ (k : ℕ). some k) (sym mine))
            (ap (λ (k : ℕ). find k db.uploads) mine ∙ g) r u t
            (ap (λ (o : Option Upload). apply_to_upload b actor report status o db1)
                (sym (ap (λ (o : Option ℕ). upload_of o db.uploads) e ∙ g))
              ∙ h)
    ]
  ]

  pub change_report_status-IsHeld :
      (id : ℕ) (status : ReportStatus) (db db' : SafetyDb)
      → IsHeld b db
      → change_report_status b actor id status db ≡ pass db'
      → IsHeld b db'
  unfolding change_report_status
  change_report_status-IsHeld id status db db' v h = elim (Option-cases (find id db.reports)) [
    | inl n ↦ ground arith
    | inr (report, e) ↦
        let mine = key-find id db.reports report e in
        let db1 =
          audited actor report_status_changed id
            (record db { reports = update id (λ r. true) (set_status status) db.reports }) in
        apply_to_upload-IsHeld report status db db1 db' v
          (ap (λ (k : ℕ). find k db.reports) mine ∙ e)
          (ap (λ (k : ℕ). update k (λ r. true) (set_status status) db.reports) (sym mine)) refl refl
          (ground (arith, e))
  ]

  -- A status change that fails in the storage has failed in a takedown.
  change_report_status-stop :
      (id : ℕ) (status : ReportStatus) (db : SafetyDb) (s : Storage)
      → change_report_status b actor id status db ≡ stop (storage_failed s)
      → (upload : Upload) × (find upload.id db.uploads ≡ some upload)
        × (take_down_upload b upload db.storage ≡ stop s)
  unfolding change_report_status apply_to_upload
  change_report_status-stop id status db s h = elim (Option-cases (find id db.reports)) [
    | inl n ↦ ground arith
    | inr (report, e) ↦
        let db1 =
          audited actor report_status_changed id
            (record db { reports = update id (λ r. true) (set_status status) db.reports }) in
        elim (Option-cases (upload_of report.upload db.uploads)) [
          | inl n ↦ ground arith
          | inr (upload, f) ↦
              let (image, found) = found_upload report.upload db.uploads upload f in
              let failed : take_down b actor upload db1 ≡ stop (storage_failed s) = ground arith in
              let (s', same, stopped) =
                take_down-stop b actor upload db1 (storage_failed s) failed in
              (upload, found, ground (arith, same, stopped))
        ]
  ]

  pub failed-IsHeld :
      (id : ℕ) (status : ReportStatus) (db : SafetyDb) (s : Storage)
      → IsHeld b db
      → change_report_status b actor id status db ≡ stop (storage_failed s)
      → IsHeld b (record db { storage = s })
  failed-IsHeld id status db s v h =
      let (upload, found, stopped) = change_report_status-stop id status db s h in
      record {
        ids = v.ids;
        stored = v.stored;
        bound = v.bound;
        held = λ i image r f a e.
            failed-IsUnserved b upload db.uploads db.storage s image v.stored found stopped
              (v.held i image r f a e);
      }
