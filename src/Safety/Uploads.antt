-- ===== src/Safety/Uploads.antt =====
-- server/apps/uploads/services.py: an image is taken down by moving its object out of the served key,
-- and restored by moving it back. URLs are taken apart by a parameter.
use assen_platform.Common.{
  ℕ, ◌==◌, Bool, true, false, not, ◌&&◌, ◌||◌, Option, none, some, is_some, [], ◌∷◌, ◌++◌, Text,
  text_eq, is_nonempty, if◌then◌else◌,
}
use assen_platform.Errors.{Check, pass, stop, ◌>>=◌}
use assen_platform.Common.Table.{Row}

pub data UploadStatus : Type 0 where
  visible taken_down : UploadStatus

pub record Upload : Type 0 where
  pub id : ℕ
  pub owner : ℕ
  pub url : Text
  pub content_type : Text
  pub status : UploadStatus
  pub quarantine_key : Text

instance abbrev pub upload_row : Row Upload
upload_row = record { key = λ u. u.id }

abbrev pub is_taken_down : UploadStatus → Bool
is_taken_down visible = false
is_taken_down taken_down = true

-- The stored object: its bytes and content type.
pub record StoredObject : Type 0 where
  pub bytes : Text
  pub content_type : Text

-- `default_storage`: what stands at each key.
abbrev pub Storage : Type 0
Storage = Text → Option StoredObject

abbrev pub put : Text → Option StoredObject → Storage → Storage
put key object storage other = if text_eq key other then object else storage other

-- How the storage may fail during a call: `exists`, `open`, `save` or `delete` may raise at a key, and a
-- `save` or `delete` that raises may have taken effect; or `save` finds its key taken by a racing writer
-- and takes another name, one of those that Django makes up for it. `path_of` is
-- `unquote(urlparse(url).path)`, `media_path` the one of the setting MEDIA_URL.
pub record Backend : Type 0 where
  pub exists_raises : Text → Bool
  pub open_raises : Text → Bool
  pub save_raises : Text → Bool
  pub delete_raises : Text → Bool
  pub takes_effect : Text → Bool
  pub save_renames : Text → Bool
  pub seed : ℕ
  pub alternative_name : ℕ → Text → Text
  pub path_of : Text → Text
  pub media_path : Text

abbrev slash : ℕ
slash = 47

lstrip_slashes : Text → Text
lstrip_slashes [] = []
lstrip_slashes (c ∷ path) = let rest = lstrip_slashes path in if c == slash then rest else c ∷ path

-- The text after a prefix.
after_prefix : Text → Text → Option Text
after_prefix [] path = some path
after_prefix (c ∷ prefix) [] = none
after_prefix (c ∷ prefix) (d ∷ path) =
    let rest = after_prefix prefix path in if c == d then rest else none

abbrev or_stripped : Text → Option Text → Text
or_stripped path none = lstrip_slashes path
or_stripped path (some key) = key

-- `served_object_key`
unfoldable pub served_object_key : Backend → Text → Text
unfolding after_prefix lstrip_slashes
served_object_key b url =
    let path = b.path_of url in
    if is_nonempty b.media_path
    then or_stripped path (after_prefix b.media_path path)
    else lstrip_slashes path

-- `QUARANTINE_PREFIX`, the code points of "quarantine/".
abbrev quarantine_prefix : Text
quarantine_prefix = 113 ∷ 117 ∷ 97 ∷ 114 ∷ 97 ∷ 110 ∷ 116 ∷ 105 ∷ 110 ∷ 101 ∷ 47 ∷ []

unfoldable pub quarantine_key_for : Text → Text
quarantine_key_for served_key = quarantine_prefix ++ served_key

-- What stands at a key after a `save` or `delete` that raised.
abbrev pub perhaps_put : Backend → Text → Option StoredObject → Storage → Storage
perhaps_put b key object storage = if b.takes_effect key then put key object storage else storage

-- `default_storage.delete`, and what follows it; an exception leaves the storage as it is by then.
abbrev pub delete_then :
    Backend → Text → Storage → (Storage → Check Storage Storage) → Check Storage Storage
delete_then b key storage next =
    if b.delete_raises key
    then stop (perhaps_put b key none storage)
    else next (put key none storage)

-- The `save` of an object at the destination, and what follows.
unfoldable pub save_and_delete :
    Backend → Text → Text → StoredObject → Storage → Check Storage Storage
save_and_delete b source destination object storage =
    let saved = b.alternative_name b.seed destination in
    if b.save_raises destination
    then stop (perhaps_put b destination (some object) storage)
    else if b.save_renames destination
    then delete_then b saved (put saved (some object) storage) (λ s. stop s)
    else delete_then b source (put destination (some object) storage) (λ s. pass s)

-- `_move_object`, on what stands at the source.
unfoldable pub move_found :
    Backend → Text → Text → Text → Storage → Option StoredObject → Check Storage Storage
unfolding save_and_delete
move_found b source destination content_type storage none = pass storage
move_found b source destination content_type storage (some object) =
    if b.exists_raises destination
    then stop storage
    else if is_some (storage destination)
    then delete_then b source storage (λ s. pass s)
    else if b.open_raises source
    then stop storage
    else save_and_delete b source destination (record object { content_type = content_type })
        storage

-- `_move_object`: the storage, where it returns and where it raises.
unfoldable pub move_object : Backend → Text → Text → Text → Storage → Check Storage Storage
unfolding move_found
move_object b source destination content_type storage =
    if b.exists_raises source
    then stop storage
    else move_found b source destination content_type storage (storage source)

-- The storage after a move, however it ended.
abbrev pub left : Check Storage Storage → Storage
left (pass storage) = storage
left (stop storage) = storage

-- `take_down_upload`: the row, the storage, and whether the takedown is new; or the storage that an
-- exception leaves.
unfoldable pub take_down_upload :
    Backend → Upload → Storage → Check Storage (Upload × Storage × Bool)
unfolding move_object served_object_key quarantine_key_for
take_down_upload b upload storage = do
  let served_key = served_object_key b upload.url
  let quarantine_key = quarantine_key_for served_key
  storage' ← move_object b served_key quarantine_key upload.content_type storage
  pass (
      if is_taken_down upload.status && text_eq upload.quarantine_key quarantine_key
      then (upload, storage', false)
      else (
        record upload { status = taken_down; quarantine_key = quarantine_key },
        storage',
        not (is_taken_down upload.status),
      ))

-- `restore_upload`: the row, whether the restoring is new, and the keys of the move that is made once
-- the transaction has been committed.
unfoldable pub restore_upload : Backend → Upload → Upload × Bool × Text × Text
unfolding served_object_key quarantine_key_for
restore_upload b upload =
    let served_key = served_object_key b upload.url in
    let quarantine_key =
      if is_nonempty upload.quarantine_key
      then upload.quarantine_key
      else quarantine_key_for served_key in
    let row =
      if is_taken_down upload.status || is_nonempty upload.quarantine_key
      then record upload { status = visible; quarantine_key = [] }
      else upload in
    (row, is_taken_down upload.status, quarantine_key, served_key)
