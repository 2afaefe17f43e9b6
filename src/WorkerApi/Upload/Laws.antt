-- ===== src/WorkerApi/Upload/Laws.antt =====
-- Uploads from their first message to their answer.
use project_dia.Prelude.{
  ◌≡◌, ◌≢◌, ◌⊎◌, refl, sym, ap, ◌∙◌, true, false, Option, none, some, List, ◌∷◌, first, All, inl,
  inr,
}
use project_dia.Prelude.Text.{Text, text_eq, text_eq_iff}
use project_dia.Domain.{Uuid, Time}
use project_dia.Store.World.{World, Db, Recording, ok, pure, rescue, ◌>>=◌, query_row, statement}
use project_dia.Store.World.Inversion.{bind_inv, pure_inv}
use project_dia.Store.World.Laws.{wrote}
use project_dia.Store.World.Moves.{IsPreorder, Moves, moves_rules}
use project_dia.Store.Recordings.{get_recording, is_recording}
use project_dia.FileStore.{recording_file_path}
use project_dia.FileStore.Clean.{IsPlain, path_of}
use project_dia.FileStore.Files.{recording_file_path-injective}
use project_dia.WorkerApi.Upload.{
  UploadService, Metadata, Incoming, metadata, UploadResponse, upload_recording, unless_held,
  look_up, row_for, response,
}
use project_dia.WorkerApi.Upload.Disk.{file_at}
use project_dia.WorkerApi.Upload.Frame.{
  IsValid, validate_upload_inv, validate_upload_lem, Leaves-upload_recording,
}
use project_dia.WorkerApi.Upload.Content.{bytes_of}
use project_dia.WorkerApi.Upload.Kept.{IsKept, store_upload-IsKept}

IsSame : Db → Db → Type 0
IsSame d e = e ≡ d

IsSame-IsPreorder : IsPreorder IsSame
unfolding IsSame
IsSame-IsPreorder = record { refl_at = λ d. refl; trans_at = λ c d e h k. k ∙ h }

look_up-IsSame : (id : Text) → Moves IsSame (look_up id)
unfolding look_up get_recording
look_up-IsSame id = search (moves_rules, IsSame-IsPreorder)

looked_up :
    (id : Text) (w v : World) (held : Option Recording) → look_up id w ≡ (ok held, v) → v.db ≡ w.db
unfolding IsSame
looked_up id w v held h = sym (ap (λ x. x.1.db) h) ∙ (look_up-IsSame id).at w

unless_held-IsKept :
    (s : UploadService) (m : Metadata) (pass station : Uuid) (messages : List Incoming)
    (held : Option Recording) (w v : World) (r : UploadResponse)
    → s.parse_uuid m.pass_id ≡ some pass
    → s.parse_uuid m.station_id ≡ some station
    → unless_held s m pass station messages held w ≡ (ok r, v)
    → r.is_stored ≡ true
    → IsKept s m messages w v
unless_held-IsKept s m pass station messages none w v r p q h stored =
    store_upload-IsKept s m pass station messages w v r p q h stored
unless_held-IsKept s m pass station messages (some held) w v r p q h stored =
    let same = (pure_inv _ r w v h).0 in
    let no : true ≡ false = sym stored ∙ ap (λ x. x.is_stored) (sym same) in cc

IsKept-from :
    (s : UploadService) (m : Metadata) (messages : List Incoming) (w w' v : World)
    → w'.db ≡ w.db
    → IsKept s m messages w' v
    → IsKept s m messages w v
IsKept-from s m messages w w' v same kept = record {
  pass = kept.pass;
  station = kept.station;
  destination = kept.destination;
  received_at = kept.received_at;
  of_pass = kept.of_pass;
  of_station = kept.of_station;
  at = kept.at;
  file = kept.file;
  size = kept.size;
  checksum = kept.checksum;
  row = kept.row ∙ ap (λ d. added kept.received_at ∷ d.recordings) same;
}
  where
    added : Time → Recording
    added t = record (row_for s m kept.pass kept.station kept.destination (bytes_of messages)) {
      received_at = t;
    }

-- If an upload answers that it has stored the recording, the bytes of all chunks stand in the file of
-- the recording, their number and their digest are those of the metadata, and one row was added, which
-- names that file, size and digest.
pub upload_recording-IsKept :
    (s : UploadService) (m : Metadata) (messages : List Incoming) (w v : World) (r : UploadResponse)
    → upload_recording s (metadata m ∷ messages) w ≡ (ok r, v)
    → r.is_stored ≡ true
    → IsKept s m messages w v
unfolding upload_recording
upload_recording-IsKept s m messages w v r h stored =
    let ((pass, station), w1, h1, k1) = bind_inv _ _ w v r h in
    let (held, w2, h2, k2) = bind_inv _ _ w1 v r k1 in
    let (valid, same) = validate_upload_inv s m w w1 pass station h1 in
    let kept =
      unless_held-IsKept s m pass station messages held w2 v r valid.of_pass valid.of_station k2
        stored in
    let tables = looked_up m.recording_id w1 w2 held h2 ∙ ap (λ x. x.db) same in
    IsKept-from s m messages w w2 v tables kept

module _ (e : Text) (es : List Text) (plain : All IsPlain (e ∷ es)) where
  -- Whatever an upload brings and however it ends, it leaves the file of every other recording as it
  -- was: that of another relative path, or of another pass.
  pub upload_recording-elsewhere :
      (s : UploadService) (m : Metadata) (messages : List Incoming) (w : World)
      (station pass relative path : Text)
      → s.files.recordings_root ≡ path_of (e ∷ es)
      → recording_file_path s.files station pass relative ≡ some path
      → (relative ≢ m.relative_path)
        ⊎ ((id : Uuid) → s.parse_uuid m.pass_id ≡ some id → pass ≢ s.uuid_text id)
      → file_at path (upload_recording s (metadata m ∷ messages) w).1.files ≡ file_at path w.files
  upload_recording-elsewhere s m messages w station pass relative path root own other =
      (Leaves-upload_recording s m path messages λ id at found same.
          let shared =
            recording_file_path-injective e es plain s.files station (s.uuid_text at) pass
              (s.uuid_text id) relative m.relative_path path root own same in
          elim other [ inl n ↦ n shared.2 | inr n ↦ n id found shared.1 ]).at
        w

held_answer :
    (s : UploadService) (m : Metadata) (pass station : Uuid) (messages : List Incoming) (w : World)
    (held : Recording)
    → IsValid s m pass station
    → w.env.fault w.tick ≡ none
    → first (is_recording m.recording_id) w.db.recordings ≡ some held
    → upload_recording s (metadata m ∷ messages) w
      ≡ (ok (response held.recording_id false held.size_bytes), wrote w w.db)
unfolding upload_recording look_up get_recording query_row statement rescue ◌>>=◌ pure
held_answer s m pass station messages w held valid n found =
    rw (validate_upload_lem s m pass station valid w, n, found) refl

first_own :
    (id : Text) (row : Recording) (rows : List Recording)
    → row.recording_id ≡ id
    → first (is_recording id) (row ∷ rows) ≡ some row
unfolding first
first_own id row rows own =
    let same : text_eq row.recording_id id ≡ true = (text_eq_iff row.recording_id id).1 own in
    rw same refl

-- A retry of an upload that was stored, with whatever chunks, is answered without reading them: it says
-- that nothing was stored now and how long the recording is, and it changes no table and no file.
pub upload_recording-again :
    (s : UploadService) (m : Metadata) (messages retried : List Incoming) (w v : World)
    (r : UploadResponse)
    → upload_recording s (metadata m ∷ messages) w ≡ (ok r, v)
    → r.is_stored ≡ true
    → v.env.fault v.tick ≡ none
    → upload_recording s (metadata m ∷ retried) v
      ≡ (ok (response m.recording_id false m.size_bytes), wrote v v.db)
unfolding upload_recording
upload_recording-again s m messages retried w v r h stored n =
    let ((pass, station), w1, h1, k1) = bind_inv _ _ w v r h in
    let kept = upload_recording-IsKept s m messages w v r h stored in
    held_answer s m pass station retried v _ (validate_upload_inv s m w w1 pass station h1).0 n
      (ap (first (is_recording m.recording_id)) kept.row ∙ first_own m.recording_id _ _ refl)
    ∙ ap (λ size. (ok (response m.recording_id false size), wrote v v.db)) kept.size
