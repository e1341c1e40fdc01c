-- ===== src/Safety/Takedowns.antt =====
-- server/apps/safety/services.py and server/apps/uploads/services.py: what a takedown and a restore do
-- to the images, served and not.
use assen_platform.Common.{
  ℕ, ◌==◌, ◌≡◌, refl, ap, true, false, Option, none, some, List, Text, text_eq, text_eq_iff,
  if◌then◌else◌, arith, Option-cases, inl, inr,
}
use assen_platform.Common.Table.{find, Distinct, find-update, update-Distinct}
use assen_platform.Errors.{Check, pass, stop}
use assen_platform.Safety.Uploads.{
  Upload, StoredObject, move_found, save_and_delete, left, upload_row, Storage, Backend,
  is_taken_down, served_object_key, quarantine_key_for, move_object,
}
use assen_platform.Safety.Reports.{write_upload}

-- The image is marked as taken down, and nothing stands at its served key.
unfoldable pub IsUnserved : Backend → ℕ → List Upload → Storage → Type 0
IsUnserved b id uploads storage =
    (u : Upload) × (find id uploads ≡ some u)
    × (is_taken_down u.status ≡ true)
    × (storage (served_object_key b u.url) ≡ none)

-- Images have different keys, and served keys are neither in the quarantine nor names that Django makes
-- up for a key that is taken.
pub record IsStored (b : Backend) (uploads : List Upload) : Type 0 where
  pub ids : Distinct uploads
  pub apart :
      (i j : ℕ) (u v : Upload)
      → find i uploads ≡ some u
      → find j uploads ≡ some v
      → (i == j) ≡ false
      → text_eq (served_object_key b u.url) (served_object_key b v.url) ≡ false
  pub outside :
      (i j : ℕ) (u v : Upload)
      → find i uploads ≡ some u
      → find j uploads ≡ some v
      → text_eq (quarantine_key_for (served_object_key b u.url)) (served_object_key b v.url) ≡ false
  pub strays :
      (seed j : ℕ) (taken : Text) (v : Upload)
      → find j uploads ≡ some v
      → text_eq (b.alternative_name seed taken) (served_object_key b v.url) ≡ false

-- What stands at a key, if the move went well.
at_key : Text → Check Storage Storage → Option StoredObject
at_key key (stop storage) = none
at_key key (pass storage) = storage key

module _ (b : Backend) where
  move_found-source :
      (source destination content_type : Text) (storage : Storage) (found : Option StoredObject)
      → storage source ≡ found
      → at_key source (move_found b source destination content_type storage found) ≡ none
  unfolding move_found save_and_delete at_key
  move_found-source source destination content_type storage none e = e
  move_found-source source destination content_type storage (some o) e =
      ground (arith, text_eq_iff source source)

  -- However a move ends, a key other than its destination that was empty still is.
  move_found-left :
      (source destination content_type key : Text) (storage : Storage) (found : Option StoredObject)
      → text_eq destination key ≡ false
      → text_eq (b.alternative_name b.seed destination) key ≡ false
      → storage key ≡ none
      → left (move_found b source destination content_type storage found) key ≡ none
  unfolding move_found save_and_delete
  move_found-left source destination content_type key storage none apart stray e = e
  move_found-left source destination content_type key storage (some o) apart stray e = ground arith

  pub move-source :
      (source destination content_type : Text) (storage storage' : Storage)
      → move_object b source destination content_type storage ≡ pass storage'
      → storage' source ≡ none
  unfolding move_object at_key
  move-source source destination content_type storage storage' h = ground (
    arith,
    ap (at_key source) h,
    move_found-source source destination content_type storage (storage source) refl,
  )

  pub move-left :
      (source destination content_type key : Text) (storage : Storage)
      → text_eq destination key ≡ false
      → text_eq (b.alternative_name b.seed destination) key ≡ false
      → storage key ≡ none
      → left (move_object b source destination content_type storage) key ≡ none
  unfolding move_object
  move-left source destination content_type key storage apart stray e = ground (
    arith,
    move_found-left source destination content_type key storage (storage source) apart stray e,
  )

  -- A row is found as it was, but for the two columns that a takedown writes.
  pub find-write_upload :
      (row : Upload) (i : ℕ) (u : Upload) (uploads : List Upload)
      → find i (write_upload row uploads) ≡ some u
      → (v : Upload) × (find i uploads ≡ some v)
        × (u.url ≡ v.url)
        × ((row.id == i) ≡ false → u ≡ v)
        × ((row.id == i) ≡ true → u.status ≡ row.status)
  find-write_upload row i u uploads h =
      let write =
        λ (v : Upload). record v { status = row.status; quarantine_key = row.quarantine_key } in
      let found = find-update row.id (λ v. true) write (λ v. refl) i uploads in
      elim (Option-cases (find i uploads)) [
        | inl n ↦ ground (arith, found)
        | inr (v, e) ↦ (
          v,
          e,
          ground (arith, found),
          λ other. ground (arith, found),
          λ same. ground (arith, found),
        )
      ]

  pub find-write_upload_hit :
      (row : Upload) (i : ℕ) (v : Upload) (uploads : List Upload)
      → find i uploads ≡ some v
      → find i (write_upload row uploads)
        ≡ some (
            if row.id == i
            then record v { status = row.status; quarantine_key = row.quarantine_key }
            else v)
  find-write_upload_hit row i v uploads e =
      let write =
        λ (w : Upload). record w { status = row.status; quarantine_key = row.quarantine_key } in
      ground (arith, find-update row.id (λ w. true) write (λ w. refl) i uploads)

  pub write_upload-IsStored :
      (row : Upload) (uploads : List Upload)
      → IsStored b uploads
      → IsStored b (write_upload row uploads)
  write_upload-IsStored row uploads k = record {
    ids =
        update-Distinct row.id (λ u. true)
          (λ u. record u { status = row.status; quarantine_key = row.quarantine_key }) (λ u. refl)
          uploads k.ids;
    apart = λ i j u v hu hv e.
        let (u', fu, uu, _, _) = find-write_upload row i u uploads hu in
        let (v', fv, vv, _, _) = find-write_upload row j v uploads hv in
        rw (uu, vv) (k.apart i j u' v' fu fv e);
    outside = λ i j u v hu hv.
        let (u', fu, uu, _, _) = find-write_upload row i u uploads hu in
        let (v', fv, vv, _, _) = find-write_upload row j v uploads hv in
        rw (uu, vv) (k.outside i j u' v' fu fv);
    strays = λ seed j taken v hv.
        let (v', fv, vv, _, _) = find-write_upload row j v uploads hv in
        rw vv (k.strays seed j taken v' fv);
  }

  -- An image that a write of another row leaves down.
  pub IsUnserved-other :
      (row : Upload) (id : ℕ) (uploads : List Upload) (storage storage' : Storage)
      → (row.id == id) ≡ false
      → ((u : Upload)
          → find id uploads ≡ some u
          → storage (served_object_key b u.url) ≡ none
          → storage' (served_object_key b u.url) ≡ none)
      → IsUnserved b id uploads storage
      → IsUnserved b id (write_upload row uploads) storage'
  unfolding IsUnserved
  IsUnserved-other row id uploads storage storage' other keep (u, f, t, e) =
      (u, ground (arith, find-write_upload_hit row id u uploads f), t, keep u f e)
