-- ===== src/WorkerApi/Upload/Frame.antt =====
-- The files that an upload leaves alone.
use project_dia.Prelude.{
  ℕ, ◌≡◌, ◌≢◌, refl, sym, ap, ◌∙◌, Bool, true, false, not, Option, none, some, List, [], ◌∷◌,
}
use project_dia.Prelude.Text.{Text, text_eq}
use project_dia.Domain.{Uuid}
use project_dia.Store.World.Inversion.{then_inv, bind_inv, pure_inv, refuse_if_inv, require_inv}
use project_dia.Store.World.{
  ok, World, Recording, advance, pure, raise, require, refuse_if, ◌>>=◌, ◌>>◌,
}
use project_dia.FileStore.{recording_file_path}
use project_dia.Store.Recordings.{insert_recording_if_absent, get_recording}
use project_dia.WorkerApi.Upload.{
  UploadService, Metadata, Incoming, metadata, chunk, interrupted, upload_recording, store_upload,
  unless_held, look_up, validate_upload, is_hex64, receive_content, receive_chunks,
  ensure_space_for, discard_if, has_no_space, signed_or_zero,
}
use project_dia.WorkerApi.Upload.Disk.{
  Leaves, leaves_rules, Leaves-pure, Leaves-raise, Leaves-rename_to, Leaves-remove_file,
  Leaves-statement, Leaves-after, Leaves-require, Leaves-bind, Leaves-then, Leaves-on_temporary,
  Leaves-refuse_if,
}

module _ (path : Text) where
  Leaves-receive_chunks :
      (received : List ℕ) (messages : List Incoming)
      → Leaves path (receive_chunks received messages)
  unfolding receive_chunks
  Leaves-receive_chunks received [] = Leaves-pure path received
  Leaves-receive_chunks received (interrupted ∷ messages) = Leaves-raise path _
  Leaves-receive_chunks received (metadata m ∷ messages) = Leaves-raise path _
  Leaves-receive_chunks received (chunk bytes ∷ messages) =
      Leaves-then path _ _ (Leaves-refuse_if path _ _)
        (Leaves-then path _ _ (Leaves-on_temporary path) (Leaves-receive_chunks _ messages))

  Leaves-receive_content :
      (destination : Text) (messages : List Incoming)
      → destination ≢ path
      → Leaves path (receive_content destination messages)
  unfolding receive_content
  Leaves-receive_content destination messages apart =
      search (leaves_rules, Leaves-receive_chunks, Leaves-rename_to path destination, apart) depth
        16

  Leaves-discard_if :
      (b : Bool) (destination : Text) → destination ≢ path → Leaves path (discard_if b destination)
  unfolding discard_if
  Leaves-discard_if true destination apart =
      Leaves-then path _ _ (Leaves-remove_file path destination apart) (Leaves-raise path _)
  Leaves-discard_if false destination apart = Leaves-pure path tt

  Leaves-ensure_space_for : (size : ℕ) → Leaves path (ensure_space_for size)
  unfolding ensure_space_for
  Leaves-ensure_space_for size = record {
    at = λ w.
        (Leaves-refuse_if path (has_no_space (signed_or_zero size) (w.env.free_bytes w.tick)) _).at
          (advance w);
  }

  Leaves-insert : (row : Recording) → Leaves path (insert_recording_if_absent row)
  unfolding insert_recording_if_absent
  Leaves-insert row = Leaves-statement path _

  Leaves-look_up : (id : Text) → Leaves path (look_up id)
  unfolding look_up get_recording
  Leaves-look_up id = search leaves_rules

  Leaves-validate_upload : (s : UploadService) (m : Metadata) → Leaves path (validate_upload s m)
  unfolding validate_upload
  Leaves-validate_upload s m = search leaves_rules depth 16

-- What the checks of an upload ask for, and what they find.
pub record IsValid (s : UploadService) (m : Metadata) (pass station : Uuid) : Type 0 where
  pub id_shape : not (is_hex64 m.recording_id) ≡ false
  pub checksum_shape : not (is_hex64 m.checksum_sha256) ≡ false
  pub of_pass : s.parse_uuid m.pass_id ≡ some pass
  pub of_station : s.parse_uuid m.station_id ≡ some station
  pub has_path : text_eq m.relative_path [] ≡ false

pub validate_upload_inv :
    (s : UploadService) (m : Metadata) (w v : World) (pass station : Uuid)
    → validate_upload s m w ≡ (ok (pass, station), v)
    → IsValid s m pass station × (v ≡ w)
unfolding validate_upload
validate_upload_inv s m w v pass station h =
    let (_, w1, h1, k1) = then_inv _ _ w v _ h in
    let (_, w2, h2, k2) = then_inv _ _ w1 v _ k1 in
    let (p, w3, h3, k3) = bind_inv _ _ w2 v _ k2 in
    let (q, w4, h4, k4) = bind_inv _ _ w3 v _ k3 in
    let (_, w5, h5, k5) = then_inv _ _ w4 v _ k4 in
    let (same, end) = pure_inv _ _ w5 v k5 in
    let (id_shape, e1) = refuse_if_inv _ _ _ w w1 h1 in
    let (checksum_shape, e2) = refuse_if_inv _ _ _ w1 w2 h2 in
    let (found_p, e3) = require_inv _ _ p w2 w3 h3 in
    let (found_q, e4) = require_inv _ _ q w3 w4 h4 in
    let (has_path, e5) = refuse_if_inv _ _ _ w4 w5 h5 in
    (
      record {
        id_shape = id_shape;
        checksum_shape = checksum_shape;
        of_pass = found_p ∙ ap (λ x. some x.0) same;
        of_station = found_q ∙ ap (λ x. some x.1) same;
        has_path = has_path;
      },
      sym end ∙ e5 ∙ e4 ∙ e3 ∙ e2 ∙ e1,
    )

pub validate_upload_lem :
    (s : UploadService) (m : Metadata) (pass station : Uuid)
    → IsValid s m pass station
    → (w : World) → validate_upload s m w ≡ (ok (pass, station), w)
unfolding validate_upload require refuse_if ◌>>=◌ ◌>>◌ pure raise
validate_upload_lem s m pass station h w =
    rw (h.id_shape, h.checksum_shape, h.of_pass, h.of_station, h.has_path) refl

module _ (s : UploadService) (m : Metadata) (path : Text) where
  -- The upload's own file is not the one at the path.
  abbrev IsElsewhere : Uuid → Uuid → Type 0
  IsElsewhere pass station =
      recording_file_path s.files (s.uuid_text station) (s.uuid_text pass) m.relative_path
      ≢ some path

  Leaves-store_upload :
      (pass station : Uuid) (messages : List Incoming)
      → IsElsewhere pass station
      → Leaves path (store_upload s m pass station messages)
  unfolding store_upload
  Leaves-store_upload pass station messages apart =
      Leaves-then path _ _ (Leaves-ensure_space_for path m.size_bytes) (
        Leaves-after path _ _ (Leaves-require path _ _) λ destination w v h.
          let own = (require_inv _ _ destination w v h).0 in
          let other : destination ≢ path = λ e. apart (own ∙ ap some e) in
          search
            (
              leaves_rules,
              Leaves-receive_content path destination messages,
              other,
              Leaves-discard_if path,
              Leaves-insert path,
            )
            depth 16)

  Leaves-unless_held :
      (pass station : Uuid) (messages : List Incoming) (held : Option Recording)
      → IsElsewhere pass station
      → Leaves path (unless_held s m pass station messages held)
  Leaves-unless_held pass station messages none apart =
      Leaves-store_upload pass station messages apart
  Leaves-unless_held pass station messages (some r) apart = Leaves-pure path _

  pub Leaves-upload_recording :
      (messages : List Incoming)
      → ((pass station : Uuid) → s.parse_uuid m.pass_id ≡ some pass → IsElsewhere pass station)
      → Leaves path (upload_recording s (metadata m ∷ messages))
  unfolding upload_recording
  Leaves-upload_recording messages apart =
      Leaves-after path _ _ (Leaves-validate_upload path s m) after_validation
    where
      after_validation :
          (ids : Uuid × Uuid) (w v : World)
          → validate_upload s m w ≡ (ok ids, v)
          → Leaves path
              (look_up m.recording_id >>= λ held. unless_held s m ids.0 ids.1 messages held)
      after_validation (pass, station) w v h =
          let found = (validate_upload_inv s m w v pass station h).0.of_pass in
          Leaves-bind path _ _ (Leaves-look_up path m.recording_id)
            λ held. Leaves-unless_held pass station messages held (apart pass station found)
