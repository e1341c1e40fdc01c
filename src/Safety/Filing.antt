-- ===== src/Safety/Filing.antt =====
-- server/apps/safety/services.py: filing and closing a report keeps the images down that actioned
-- reports are about.
-- server/apps/safety/services.py: filing, moving and closing a report keeps the images down that
-- actioned reports are about.
use assen_platform.Common.{
  ℕ, ◌==◌, ◌≡◌, refl, sym, ap, ◌∙◌, true, false, Option, none, some, List, ◌∷◌, Text, arith,
  Bool-cases, Option-cases, inl, inr,
}
use mathlib.Core.Path.{subst}
use assen_platform.Common.Table.{find, update, Distinct, find-update, update-Distinct}
use assen_platform.Errors.{pass}
use assen_platform.Identity.{Account}
use assen_platform.Commerce.Load.{Stamp}
use assen_platform.Safety.Uploads.{upload_row, Backend}
use assen_platform.Safety.Reports.{
  SafetyDb, SafetyReport, report_row, is_bound, is_actioned, resolve_report, insert_report, closed,
}
use assen_platform.Safety.Takedowns.{IsStored}
use assen_platform.Safety.Held.{IsHeld}
use assen_platform.Safety.Changes.{IsUnserved-at}

module _ (b : Backend) (actor : Account) where
  closed_found :
      (stamp : Stamp) (id i : ℕ) (rs rs' : List SafetyReport) (r : SafetyReport)
      → rs'
        ≡ update id (λ x. true) (λ x. record x { status = closed; resolved_at = some stamp.now }) rs
      → find i rs' ≡ some r
      → (old : SafetyReport) × (find i rs ≡ some old)
        × (r.upload ≡ old.upload)
        × (is_actioned r.status ≡ true → is_actioned old.status ≡ true)
  closed_found stamp id i rs rs' r written g =
      let close =
        λ (x : SafetyReport). record x { status = closed; resolved_at = some stamp.now } in
      let g' = sym (ap (λ (xs : List SafetyReport). find i xs) written) ∙ g in
      let moved = find-update id (λ x. true) close (λ x. refl) i rs in
      elim (Option-cases (find i rs)) [
        | inl n ↦ ground (arith, moved)
        | inr (old, e) ↦ (old, e, ground (arith, moved), λ a. ground (arith, moved))
      ]

  pub resolve_report-IsHeld :
      (stamp : Stamp) (id : ℕ) (note : Text) (db db' : SafetyDb)
      → IsHeld b db
      → resolve_report b actor stamp id note db ≡ pass db'
      → IsHeld b db'
  unfolding resolve_report
  resolve_report-IsHeld stamp id note db db' v h =
      let close =
        λ (r : SafetyReport). record r { status = closed; resolved_at = some stamp.now } in
      let reports : db'.reports ≡ update id (λ r. true) close db.reports = ground arith in
      let uploads : db'.uploads ≡ db.uploads = ground arith in
      let storage : db'.storage ≡ db.storage = ground arith in
      record {
        ids =
            subst Distinct (sym reports)
              (update-Distinct id (λ r. true) close (λ r. refl) db.reports v.ids);
        stored = subst (IsStored b) (sym uploads) v.stored;
        bound = λ i r g.
            let (old, e, same, kept) = closed_found stamp id i db.reports db'.reports r reports g in
            ap (is_bound r.upload) uploads
            ∙ ap (λ (o : Option ℕ). is_bound o db.uploads) same
            ∙ v.bound i old e;
        held = λ i upload r g a up.
            let (old, e, same, kept) = closed_found stamp id i db.reports db'.reports r reports g in
            IsUnserved-at b upload db.uploads db'.uploads db.storage db'.storage uploads storage
              (v.held i upload old e (kept a) (sym same ∙ up));
      }

pub insert_report-IsHeld :
    (b : Backend) (report : SafetyReport) (narrative : Text) (db db' : SafetyDb)
    → IsHeld b db
    → is_actioned report.status ≡ false
    → insert_report report narrative db ≡ pass db'
    → IsHeld b db'
unfolding insert_report find Distinct
insert_report-IsHeld b report narrative db db' v n h =
    let reports : db'.reports ≡ report ∷ db.reports = ground arith in
    let uploads : db'.uploads ≡ db.uploads = ground arith in
    let storage : db'.storage ≡ db.storage = ground arith in
    let attached : is_bound report.upload db.uploads ≡ true = ground arith in
    let unused : find report.id db.reports ≡ none = ground arith in
    let found = λ (i : ℕ) (r : SafetyReport) (g : find i db'.reports ≡ some r).
      sym (ap (λ (rs : List SafetyReport). find i rs) reports) ∙ g in
    record {
      ids = subst Distinct (sym reports) (unused, v.ids);
      stored = subst (IsStored b) (sym uploads) v.stored;
      bound = λ i r g.
          let g' = found i r g in
          ap (is_bound r.upload) uploads ∙ elim (Bool-cases (report.id == i)) [
            | inl here ↦
                let same : report ≡ r = ground arith in
                ap (λ (x : SafetyReport). is_bound x.upload db.uploads) (sym same) ∙ attached
            | inr away ↦ v.bound i r (ground arith)
          ];
      held = λ i upload r g a up.
          let g' = found i r g in
          IsUnserved-at b upload db.uploads db'.uploads db.storage db'.storage uploads storage
            (elim (Bool-cases (report.id == i)) [
              | inl here ↦
                  let same : report ≡ r = ground arith in
                  absurd (cc (ap (λ (x : SafetyReport). is_actioned x.status) same))
              | inr away ↦ v.held i upload r (ground arith) a up
            ]);
    }
