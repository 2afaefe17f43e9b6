-- ===== src/WorkerApi/Upload.antt =====
-- server/go/internal/workerapi/upload.go: `UploadRecording`, with `EnsureSpaceFor` of
-- server/go/internal/filestore/filestore.go. The messages of the stream are a list, whose end is
-- `io.EOF`. The temporary file is what has been received; what is left of it when its removal fails
-- and the sending of the answer are left out. An operation on the disk fails where the environment
-- says so.
pub mod Disk
pub mod Frame
pub mod Content
pub mod Kept
pub mod Laws
use project_dia.Prelude.{
  ℕ, suc, ◌+◌, ◌%◌, ◌^◌, String, Bool, true, false, not, Option, none, some, List, [], ◌∷◌, ◌++◌,
  ◌&&◌, ◌||◌, ◌==◌, ltb, leb, length, any, first, where_, if◌then◌else◌,
}
use project_dia.Prelude.Int.{pos}
use project_dia.Prelude.Text.{Text, text_eq, is_digit}
use project_dia.Domain.{Uuid, Time}
use project_dia.Errors.{
  Error, DbError, is_not_found, status_error, invalid_argument, internal, resource_exhausted,
  data_loss, aborted,
}
use project_dia.Store.World.{
  World, Recording, File, Action, Result, ok, err, advance, pure, raise, require, refuse_if, rescue,
  ◌>>=◌, ◌>>◌,
}
use project_dia.Store.Recordings.{get_recording, insert_recording_if_absent}
use project_dia.FileStore.{FileStore, recording_file_path}

pub record Metadata : Type 0 where
  pub recording_id : Text
  pub pass_id : Text
  pub station_id : Text
  pub worker_id : Text
  pub relative_path : Text
  pub size_bytes : ℕ
  pub checksum_sha256 : Text
  pub started_at : Option Time
  pub finished_at : Option Time

-- What `Recv` returns: the metadata, a chunk, or an error.
pub data Incoming : Type 0 where
  metadata : Metadata → Incoming
  chunk : List ℕ → Incoming
  interrupted : Incoming

pub record UploadResponse : Type 0 where
  pub recording_id : Text
  pub is_stored : Bool
  pub size_bytes : ℕ

-- The fields of the service, and the functions of other packages that an upload calls.
pub record UploadService : Type 0 where
  pub files : FileStore
  pub parse_uuid : Text → Option Uuid
  pub uuid_text : Uuid → Text
  pub sha256_hex : List ℕ → Text

abbrev pub bad_argument : Error
bad_argument = status_error invalid_argument

abbrev pub failure : Error
failure = status_error internal

abbrev pub is_hex : ℕ → Bool
is_hex c = leb 97 c && leb c 102 || leb 65 c && leb c 70 || is_digit c

unfoldable pub is_hex64 : Text → Bool
is_hex64 value = if not (length value == 64) then false else not (any (λ c. not (is_hex c)) value)

unfoldable pub validate_upload : UploadService → Metadata → Action (Uuid × Uuid)
unfolding is_hex64 text_eq
validate_upload s m = do
  refuse_if (not (is_hex64 m.recording_id)) bad_argument
  refuse_if (not (is_hex64 m.checksum_sha256)) bad_argument
  pass ← require (s.parse_uuid m.pass_id) bad_argument
  station ← require (s.parse_uuid m.station_id) bad_argument
  refuse_if (text_eq m.relative_path []) bad_argument
  pure (pass, station)

-- An operation on the disk: it fails with an error of the code, or it changes the files.
abbrev pub touched {ℓ} :
    {A : Type ℓ} → World → Option DbError → Error → A × List File → Result A × World
touched w (some fault) e x = (err e, advance w)
touched w none e (a, files) = (ok a, record w { tick = suc w.tick; files = files })

unfoldable pub disk {ℓ} : {A : Type ℓ} → Error → (List File → A × List File) → Action A
disk e f w = touched w (w.env.fault w.tick) e (f w.files)

-- An operation that prepares or writes the temporary file.
abbrev pub on_temporary : Action (Unit {0})
on_temporary = disk failure λ files. (tt, files)

abbrev pub is_at : Text → File → Bool
is_at path f = text_eq f.path path

unfoldable pub without_file : Text → List File → List File
unfolding where_ text_eq
without_file path files = where_ (λ f. not (is_at path f)) files

unfoldable pub rename_to : Text → List ℕ → Action (Unit {0})
rename_to path content =
    disk failure λ files. (tt, record { path = path; content = content } ∷ without_file path files)

-- `_ = os.Remove(destination)`
unfoldable pub remove_file : Text → Action (Unit {0})
remove_file path = rescue (disk failure λ files. (tt, without_file path files)) (λ _. pure tt)

abbrev pub max_recording_bytes : ℕ
max_recording_bytes = 8589934592

abbrev pub reserve_bytes : ℕ
reserve_bytes = 1073741824

-- `int64(size)`, where what comes out negative counts as nothing
abbrev pub signed_or_zero : ℕ → ℕ
signed_or_zero size = if ltb (size % 2 ^ 64) (2 ^ 63) then size % 2 ^ 64 else 0

abbrev pub has_no_space : ℕ → Option ℕ → Bool
has_no_space size none = false
has_no_space size (some free) = ltb free ((size + reserve_bytes) % 2 ^ 64)

unfoldable pub ensure_space_for : ℕ → Action (Unit {0})
ensure_space_for size w =
    refuse_if (has_no_space (signed_or_zero size) (w.env.free_bytes w.tick))
      (status_error resource_exhausted) (advance w)

-- The loop, with what has been received so far.
unfoldable pub receive_chunks : List ℕ → List Incoming → Action (List ℕ)
receive_chunks received [] = pure received
receive_chunks received (interrupted ∷ messages) = raise (status_error aborted)
receive_chunks received (metadata m ∷ messages) = raise bad_argument
receive_chunks received (chunk bytes ∷ messages) =
    refuse_if (ltb max_recording_bytes (length (received ++ bytes)))
      (status_error resource_exhausted)
    >> (on_temporary >> receive_chunks (received ++ bytes) messages)

-- `MkdirAll`, `CreateTemp`, `Chmod`, the loop, `Sync`, `Close` and `Rename`
unfoldable pub receive_content : Text → List Incoming → Action (List ℕ)
unfolding receive_chunks rename_to
receive_content destination messages = do
  on_temporary
  on_temporary
  on_temporary
  content ← receive_chunks [] messages
  on_temporary
  on_temporary
  rename_to destination content
  pure content

abbrev pub found_or_none : Error → Action (Option Recording)
found_or_none e = if is_not_found e then pure none else raise failure

unfoldable pub look_up : Text → Action (Option Recording)
unfolding get_recording
look_up id = rescue (do r ← get_recording id; pure (some r)) found_or_none

-- `if b { _ = os.Remove(destination); return status.Error(codes.DataLoss, …) }`
unfoldable pub discard_if : Bool → Text → Action (Unit {0})
unfolding remove_file
discard_if true destination = remove_file destination >> raise (status_error data_loss)
discard_if false destination = pure tt

abbrev pub row_for : UploadService → Metadata → Uuid → Uuid → Text → List ℕ → Recording
row_for s m pass station destination content = record {
  recording_id = m.recording_id;
  pass_id = pass;
  worker_id = s.parse_uuid m.worker_id;
  station_id = station;
  relative_path = m.relative_path;
  stored_path = destination;
  size_bytes = length content;
  checksum_sha256 = s.sha256_hex content;
  status = "stored";
  started_at = m.started_at;
  finished_at = m.finished_at;
  received_at = pos 0;
}

abbrev pub response : Text → Bool → ℕ → UploadResponse
response id stored size = record { recording_id = id; is_stored = stored; size_bytes = size }

-- What follows if the recording is not held yet.
unfoldable pub store_upload :
    UploadService → Metadata → Uuid → Uuid → List Incoming → Action UploadResponse
unfolding ensure_space_for receive_content discard_if recording_file_path
store_upload s m pass station messages = do
  ensure_space_for m.size_bytes
  destination ←
      require (recording_file_path s.files (s.uuid_text station) (s.uuid_text pass) m.relative_path)
        bad_argument
  content ← receive_content destination messages
  discard_if (not (text_eq (s.sha256_hex content) m.checksum_sha256)) destination
  discard_if (not (length content == m.size_bytes)) destination
  inserted ←
      rescue (insert_recording_if_absent (row_for s m pass station destination content))
        (λ _. raise failure)
  pure (response m.recording_id inserted (length content))

abbrev pub unless_held :
    UploadService
    → Metadata
    → Uuid
    → Uuid
    → List Incoming
    → Option Recording
    → Action UploadResponse
unless_held s m pass station messages (some r) = pure (response r.recording_id false r.size_bytes)
unless_held s m pass station messages none = store_upload s m pass station messages

unfoldable pub upload_recording : UploadService → List Incoming → Action UploadResponse
unfolding validate_upload look_up store_upload
upload_recording s [] = raise bad_argument
upload_recording s (interrupted ∷ messages) = raise bad_argument
upload_recording s (chunk bytes ∷ messages) = raise bad_argument
upload_recording s (metadata m ∷ messages) = do
  (pass, station) ← validate_upload s m
  held ← look_up m.recording_id
  unless_held s m pass station messages held
