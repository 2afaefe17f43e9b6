-- ===== src/WorkerApi/Upload/Kept.antt =====
-- What the storing of an upload leaves behind.
use mathlib.Core.Path.{subst}
use project_dia.Prelude.{
  ℕ, ◌≡◌, refl, sym, ap, ◌∙◌, Bool, true, false, not, Option, none, some, List, ◌∷◌, any, length,
  ==_iff, if◌then◌else◌,
}
use project_dia.Prelude.Text.{Text, text_eq_iff}
use project_dia.Domain.{Uuid, Time}
use project_dia.Errors.{DbError}
use project_dia.Store.World.{
  World, Db, Recording, ok, Effect, done, failed, statement, attempt, advance,
}
use project_dia.Store.World.Inversion.{
  then_inv, bind_inv, pure_inv, refuse_if_inv, require_inv, rescue-raise_inv,
}
use project_dia.Store.Recordings.{
  insert_recording, insert_recording_if_absent, is_recording, is_same_name, is_digest,
}
use project_dia.FileStore.{recording_file_path}
use project_dia.WorkerApi.Upload.{
  UploadService, Metadata, Incoming, UploadResponse, store_upload, ensure_space_for, row_for,
  failure, has_no_space, signed_or_zero,
}
use project_dia.WorkerApi.Upload.Disk.{file_at}
use project_dia.WorkerApi.Upload.Content.{bytes_of, receive_content_inv, discard_if_inv}

stored_last :
    (a b c d : Bool) (e e' e'' : DbError) (same changed end : Db)
    → (if a
        then failed e
        else if b
        then failed e'
        else if c
        then done false same
        else if d
        then failed e''
        else done true changed)
      ≡ done true end
    → end ≡ changed
stored_last true b c d e e' e'' same changed end h = cc
stored_last false true c d e e' e'' same changed end h = cc
stored_last false false true d e e' e'' same changed end h = cc
stored_last false false false true e e' e'' same changed end h = cc
stored_last false false false false e e' e'' same changed end h = cc

-- An insertion that says that it has written, has.
inserted_inv :
    (row : Recording) (d e : Db)
    → insert_recording row d ≡ done true e
    → e ≡ record d { recordings = row ∷ d.recordings }
inserted_inv row d e h =
    stored_last (not (is_digest row.recording_id)) (not (is_digest row.checksum_sha256))
      (any (is_recording row.recording_id) d.recordings) (any (is_same_name row) d.recordings) _ _ _
      d (record d { recordings = row ∷ d.recordings }) e h

wrote_inv :
    (w v : World) (o : Option DbError) (x : Effect Bool)
    → attempt w o x ≡ (ok true, v)
    → (x ≡ done true v.db) × (v.files ≡ w.files)
wrote_inv w v (some e) x h = cc
wrote_inv w v none (failed e) h = cc
wrote_inv w v none (done b db) h = (cc, cc)

insert_inv :
    (row : Recording) (w v : World)
    → insert_recording_if_absent row w ≡ (ok true, v)
    → (v.db.recordings ≡ record row { received_at = w.env.clock w.tick } ∷ w.db.recordings)
      × (v.files ≡ w.files)
unfolding insert_recording_if_absent statement
insert_inv row w v h =
    let (wrote, files) = wrote_inv w v (w.env.fault w.tick) _ h in
    (ap (λ d. d.recordings) (inserted_inv _ w.db v.db wrote), files)

-- What a stored upload leaves: the bytes of the chunks stand at the path of the recording, they have
-- the size and the digest of the metadata, and a row says so.
pub record IsKept (s : UploadService) (m : Metadata) (messages : List Incoming) (w v : World)
    : Type 0 where
  pub pass : Uuid
  pub station : Uuid
  pub destination : Text
  pub received_at : Time
  pub of_pass : s.parse_uuid m.pass_id ≡ some pass
  pub of_station : s.parse_uuid m.station_id ≡ some station
  pub at :
      recording_file_path s.files (s.uuid_text station) (s.uuid_text pass) m.relative_path
      ≡ some destination
  pub file :
      file_at destination v.files
      ≡ some (record { path = destination; content = bytes_of messages })
  pub size : length (bytes_of messages) ≡ m.size_bytes
  pub checksum : s.sha256_hex (bytes_of messages) ≡ m.checksum_sha256
  pub row :
      v.db.recordings
      ≡ record (row_for s m pass station destination (bytes_of messages)) {
        received_at = received_at;
      }
        ∷ w.db.recordings

negated : (b : Bool) → not b ≡ false → b ≡ true
negated true h = refl
negated false h = cc

spaced : (w v : World) (size : ℕ) → ensure_space_for size w ≡ (ok tt, v) → v.db ≡ w.db
unfolding ensure_space_for
spaced w v size h =
    ap (λ x. x.db)
      (refuse_if_inv (has_no_space (signed_or_zero size) (w.env.free_bytes w.tick)) _ tt (advance w)
        v h).1

tables : (w1 w2 w3 w4 w5 : World) → w5 ≡ w4 → w4 ≡ w3 → w3.db ≡ w2.db → w2 ≡ w1 → w5.db ≡ w1.db
tables w1 w2 w3 w4 w5 h5 h4 h3 h2 = ap (λ x. x.db) (h5 ∙ h4) ∙ h3 ∙ ap (λ x. x.db) h2

pub store_upload-IsKept :
    (s : UploadService) (m : Metadata) (pass station : Uuid) (messages : List Incoming)
    (w v : World) (r : UploadResponse)
    → s.parse_uuid m.pass_id ≡ some pass
    → s.parse_uuid m.station_id ≡ some station
    → store_upload s m pass station messages w ≡ (ok r, v)
    → r.is_stored ≡ true
    → IsKept s m messages w v
unfolding store_upload
store_upload-IsKept s m pass station messages w v r of_pass of_station h stored =
    let (_, w1, h1, k1) = then_inv _ _ w v r h in
    let (destination, w2, h2, k2) = bind_inv _ _ w1 v r k1 in
    let (content, w3, h3, k3) = bind_inv _ _ w2 v r k2 in
    let (_, w4, h4, k4) = then_inv _ _ w3 v r k3 in
    let (_, w5, h5, k5) = then_inv _ _ w4 v r k4 in
    let (inserted, w6, h6, k6) = bind_inv _ _ w5 v r k5 in
    let (same, end) = pure_inv _ r w6 v k6 in
    let (own, db2) = require_inv _ _ destination w1 w2 h2 in
    let (bytes, file, db3) = receive_content_inv destination messages w2 w3 content h3 in
    let (digest, db4) = discard_if_inv _ destination w3 w4 _ h4 in
    let (counted, db5) = discard_if_inv _ destination w4 w5 _ h5 in
    let is_new : inserted ≡ true = ap (λ x. x.is_stored) same ∙ stored in
    let written =
      subst
        (λ b.
          insert_recording_if_absent (row_for s m pass station destination content) w5 ≡ (ok b, w6))
        is_new (rescue-raise_inv _ (λ _. failure) w5 w6 inserted h6) in
    let (rows, files) = insert_inv _ w5 w6 written in
    record {
      pass = pass;
      station = station;
      destination = destination;
      received_at = w5.env.clock w5.tick;
      of_pass = of_pass;
      of_station = of_station;
      at = own;
      file =
          ap (λ x. file_at destination x.files) (sym end)
          ∙ ap (file_at destination) files
          ∙ ap (λ x. file_at destination x.files) (db5 ∙ db4)
          ∙ file
          ∙ ap (λ c. some (record { path = destination; content = c })) (sym bytes);
      size = ap length bytes ∙ (==_iff _ _).0 (negated _ counted);
      checksum = ap s.sha256_hex bytes ∙ (text_eq_iff _ _).0 (negated _ digest);
      row =
          ap (λ x. x.db.recordings) (sym end)
          ∙ rows
          ∙ ap
              (λ c.
                record (row_for s m pass station destination c) {
                  received_at = w5.env.clock w5.tick;
                }
                ∷ w5.db.recordings)
              (sym bytes)
          ∙ ap
              (λ d.
                record (row_for s m pass station destination (bytes_of messages)) {
                  received_at = w5.env.clock w5.tick;
                }
                ∷ d.recordings)
              (tables w1 w2 w3 w4 w5 db5 db4 db3 db2 ∙ spaced w w1 m.size_bytes h1);
    }
