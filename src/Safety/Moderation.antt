-- ===== src/Safety/Moderation.antt =====
-- server/apps/safety/services.py: any sequence of filing, moving and closing reports, with a storage that
-- may fail at any time.
use assen_platform.Common.{
  ℕ, ◌≡◌, refl, sym, ap, ◌∙◌, Bool, true, not, Option, Option-cases, inl, inr, some, List, [], ◌∷◌,
  Text, arith,
}
use mathlib.Core.Path.{subst}
use assen_platform.Common.Table.{find}
use assen_platform.Errors.{Check, pass, stop, stop_if, pass-cases}
use assen_platform.Identity.{Account}
use assen_platform.Commerce.Load.{Stamp}
use assen_platform.Safety.Uploads.{upload_row, Storage, Backend, served_object_key}
use assen_platform.Safety.Reports.{
  SafetyDb, SafetyError, storage_failed, report_not_found, not_reportable, use_resolve,
  report_closed, integrity, SafetyAction, report_created, filed_report, fan_report,
  is_fan_reportable, SafetyReport, ReportStatus, ReportType, report_row, is_actioned, Filing,
  audited, change_report_status, resolve_report, insert_report, file_report, file_fan_report,
}
use assen_platform.Safety.Takedowns.{IsUnserved}
use assen_platform.Safety.Held.{IsHeld}
use assen_platform.Safety.Changes.{change_report_status-IsHeld, failed-IsHeld}
use assen_platform.Safety.Filing.{resolve_report-IsHeld, insert_report-IsHeld}

-- One call of a service, by its actor, with the storage as it behaves during the call.
pub data Moderation : Type 0 where
  file : Stamp → Filing → Account → Moderation
  file_fan : Stamp → Account → ReportType → Text → Option ℕ → Moderation
  change_status : Account → ℕ → ReportStatus → Moderation
  resolve : Account → Stamp → ℕ → Text → Moderation

-- The state after a call; an exception rolls the tables back, but not the storage.
abbrev pub kept : {A : Type 0} → SafetyDb → Check SafetyError (A × SafetyDb) → SafetyDb
kept db (pass (a, db')) = db'
kept db (stop e) = db

abbrev pub kept_state : SafetyDb → Check SafetyError SafetyDb → SafetyDb
kept_state db (pass db') = db'
kept_state db (stop (storage_failed storage)) = record db { storage = storage }
kept_state db (stop e) = db

-- The backend's failures may differ from call to call, its URLs do not.
pub record Faults : Type 0 where
  pub exists_raises : Text → Bool
  pub open_raises : Text → Bool
  pub save_raises : Text → Bool
  pub delete_raises : Text → Bool
  pub takes_effect : Text → Bool
  pub save_renames : Text → Bool
  pub seed : ℕ

abbrev pub failing : Backend → Faults → Backend
failing b faults = record b {
  exists_raises = faults.exists_raises;
  open_raises = faults.open_raises;
  save_raises = faults.save_raises;
  delete_raises = faults.delete_raises;
  takes_effect = faults.takes_effect;
  save_renames = faults.save_renames;
  seed = faults.seed;
}

unfoldable pub moderate : Backend → Moderation → SafetyDb → SafetyDb
moderate b (file stamp filing actor) db = kept db (file_report stamp filing actor db)
moderate b (file_fan stamp reporter report_type narrative upload) db =
    kept db (file_fan_report stamp reporter report_type narrative upload db)
moderate b (change_status actor id status) db =
    kept_state db (change_report_status b actor id status db)
moderate b (resolve actor stamp id note) db =
    kept_state db (resolve_report b actor stamp id note db)

unfoldable pub moderate_all : Backend → List (Faults × Moderation) → SafetyDb → SafetyDb
moderate_all b [] db = db
moderate_all b ((faults, m) ∷ calls) db = moderate_all b calls (moderate (failing b faults) m db)

-- Backends with the same keys.
IsHeld-keys :
    (b b' : Backend) (db : SafetyDb)
    → ((url : Text) → served_object_key b url ≡ served_object_key b' url)
    → ((seed : ℕ) (taken : Text) → b.alternative_name seed taken ≡ b'.alternative_name seed taken)
    → IsHeld b db
    → IsHeld b' db
unfolding IsUnserved
IsHeld-keys b b' db same names v = record {
  ids = v.ids;
  stored = record {
    ids = v.stored.ids;
    apart = λ i j u w f g e. rw (← same u.url, ← same w.url) (v.stored.apart i j u w f g e);
    outside = λ i j u w f g. rw (← same u.url, ← same w.url) (v.stored.outside i j u w f g);
    strays = λ seed j taken w g.
        rw (← same w.url, ← names seed taken) (v.stored.strays seed j taken w g);
  };
  bound = v.bound;
  held = λ i id r f a e.
      let (u, g, t, n) = v.held i id r f a e in (u, g, t, ap db.storage (sym (same u.url)) ∙ n);
}

kept-IsHeld :
    {A : Type 0} (b : Backend) (db : SafetyDb) (c : Check SafetyError (A × SafetyDb))
    → IsHeld b db
    → ((a : A) (db' : SafetyDb) → c ≡ pass (a, db') → IsHeld b db')
    → IsHeld b (kept db c)
kept-IsHeld b db (pass (a, db')) v each = each a db' refl
kept-IsHeld b db (stop e) v each = v

kept_state-IsHeld :
    (b : Backend) (db : SafetyDb) (c : Check SafetyError SafetyDb)
    → IsHeld b db
    → ((db' : SafetyDb) → c ≡ pass db' → IsHeld b db')
    → ((s : Storage) → c ≡ stop (storage_failed s) → IsHeld b (record db { storage = s }))
    → IsHeld b (kept_state db c)
kept_state-IsHeld b db (pass db') v each failed = each db' refl
kept_state-IsHeld b db (stop (storage_failed s)) v each failed = failed s refl
kept_state-IsHeld b db (stop report_not_found) v each failed = v
kept_state-IsHeld b db (stop not_reportable) v each failed = v
kept_state-IsHeld b db (stop use_resolve) v each failed = v
kept_state-IsHeld b db (stop report_closed) v each failed = v
kept_state-IsHeld b db (stop integrity) v each failed = v

resolve_report-stop :
    (b : Backend) (actor : Account) (stamp : Stamp) (id : ℕ) (note : Text) (db : SafetyDb)
    (s : Storage)
    → resolve_report b actor stamp id note db ≡ stop (storage_failed s)
    → ⊥
unfolding resolve_report
resolve_report-stop b actor stamp id note db s h = elim (Option-cases (find id db.reports)) [
  | inl n ↦ ground arith
  | inr (report, e) ↦ ground arith
]

audited-IsHeld :
    (b : Backend) (actor : Account) (action : SafetyAction) (about : ℕ) (db : SafetyDb)
    → IsHeld b db
    → IsHeld b (audited actor action about db)
audited-IsHeld b actor action about db v = record {
  ids = v.ids;
  stored = v.stored;
  bound = v.bound;
  held = v.held;
}

moderate-IsHeld :
    (b : Backend) (m : Moderation) (db : SafetyDb) → IsHeld b db → IsHeld b (moderate b m db)
unfolding moderate file_report file_fan_report
moderate-IsHeld b (file stamp filing actor) db v =
    kept-IsHeld b db (file_report stamp filing actor db) v (λ report db' h.
      let report' = filed_report stamp filing actor in
      let (db1, inserted, returned) = pass-cases (insert_report report' filing.narrative db) h in
      let same : audited actor report_created stamp.id db1 ≡ db' = ground arith in
      subst (IsHeld b) same (
        audited-IsHeld b actor report_created stamp.id db1
          (insert_report-IsHeld b report' filing.narrative db db1 v refl inserted)))
moderate-IsHeld b (file_fan stamp reporter report_type narrative upload) db v =
    kept-IsHeld b db (file_fan_report stamp reporter report_type narrative upload db) v
      (λ report db' h.
        let report' = fan_report stamp reporter report_type upload in
        let (_, allowed, rest) =
          pass-cases (stop_if (not (is_fan_reportable report_type)) SafetyError.not_reportable) h in
        let (db1, inserted, returned) = pass-cases (insert_report report' narrative db) rest in
        let same : db1 ≡ db' = ground arith in
        subst (IsHeld b) same (insert_report-IsHeld b report' narrative db db1 v refl inserted))
moderate-IsHeld b (change_status actor id status) db v =
    kept_state-IsHeld b db (change_report_status b actor id status db) v
      (λ db' h. change_report_status-IsHeld b actor id status db db' v h)
      (λ s h. failed-IsHeld b actor id status db s v h)
moderate-IsHeld b (resolve actor stamp id note) db v =
    kept_state-IsHeld b db (resolve_report b actor stamp id note db) v
      (λ db' h. resolve_report-IsHeld b actor stamp id note db db' v h)
      (λ s h. absurd (resolve_report-stop b actor stamp id note db s h))

moderate_all-IsHeld :
    (b : Backend) (calls : List (Faults × Moderation)) (db : SafetyDb)
    → IsHeld b db
    → IsHeld b (moderate_all b calls db)
unfolding moderate_all served_object_key
moderate_all-IsHeld b [] db v = v
moderate_all-IsHeld b ((faults, m) ∷ calls) db v =
    moderate_all-IsHeld b calls (moderate (failing b faults) m db) (
      IsHeld-keys (failing b faults) b (moderate (failing b faults) m db) (λ url. refl)
        (λ seed taken. refl)
        (moderate-IsHeld (failing b faults) m db
          (IsHeld-keys b (failing b faults) db (λ url. refl) (λ seed taken. refl) v)))

-- From a state that satisfies the invariant, after any sequence of filing, moving and closing
-- reports, refused ones included, and whatever calls of the storage (`exists`, `open`, `save`,
-- `delete`) raise, with or without effect, or save under another name: an image that a report with
-- the status `actioned` is about is marked as taken down, and no object stands at its served key.
pub moderate_all-IsUnserved :
    (b : Backend) (calls : List (Faults × Moderation)) (db : SafetyDb) (i id : ℕ) (r : SafetyReport)
    → IsHeld b db
    → find i (moderate_all b calls db).reports ≡ some r
    → is_actioned r.status ≡ true
    → r.upload ≡ some id
    → IsUnserved b id (moderate_all b calls db).uploads (moderate_all b calls db).storage
moderate_all-IsUnserved b calls db i id r v f a e =
    (moderate_all-IsHeld b calls db v).held i id r f a e
