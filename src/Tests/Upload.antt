-- ===== src/Tests/Upload.antt =====
-- Uploads of a short recording.
use project_dia.Prelude.{
  ◌≡◌, ◌≢◌, refl, sym, ap, true, false, none, some, [], ◌∷◌, List, inl, length, any, if◌then◌else◌,
  first,
}
use project_dia.Prelude.Text.{Text, codes, replicate, text_eq}
use project_dia.Errors.{translate}
use project_dia.Store.World.{
  World, Result, ok, statement, query_row, rescue, ◌>>=◌, ◌>>◌, refuse_if, require,
}
use project_dia.Store.World.Laws.{wrote}
use project_dia.Store.Recordings.{insert_recording_if_absent}
use project_dia.FileStore.{join_safe, recording_file_path, is_unsafe}
use project_dia.FileStore.Clean.{IsPlain, path_of}
use project_dia.FileStore.Paths.{join_safe_lem}
use project_dia.FileStore.Files.{recording_file_path-injective}
use project_dia.WorkerApi.Upload.{
  UploadService, Metadata, Incoming, metadata, chunk, interrupted, UploadResponse, response,
  upload_recording, disk,
}
use project_dia.WorkerApi.Upload.Disk.{file_at}
use project_dia.WorkerApi.Upload.Kept.{IsKept}
use project_dia.WorkerApi.Upload.Laws.{
  upload_recording-IsKept, upload_recording-again, upload_recording-elsewhere,
}
use project_dia.Tests.Fixtures.{world_with}

abbrev data_IsPlain : IsPlain (codes "data")
unfolding text_eq
data_IsPlain = record {
  filled = refl;
  not_here = refl;
  not_up = refl;
  no_slash = (refl, (refl, (refl, (refl, tt))));
}

abbrev service : UploadService
service = record {
  files = record {
    recordings_root = path_of (codes "data" ∷ []);
    pipelines_root = path_of (codes "pipelines" ∷ []);
  };
  parse_uuid = λ t. some (length t);
  uuid_text = λ id. replicate id 97;
  sha256_hex = λ bytes. replicate 64 98;
}

true_not_false : false ≢ true
true_not_false h = cc

abbrev about : Metadata
about = record {
  recording_id = replicate 64 97;
  pass_id = codes "pass";
  station_id = codes "s";
  worker_id = codes "worker";
  relative_path = codes "iq/a.raw";
  size_bytes = 3;
  checksum_sha256 = replicate 64 98;
  started_at = none;
  finished_at = none;
}

abbrev chunks : List Incoming
chunks = chunk (1 ∷ 2 ∷ []) ∷ chunk (3 ∷ []) ∷ []

abbrev world : World
world = world_with []

abbrev run : Result UploadResponse × World
run = upload_recording service (metadata about ∷ chunks) world

stored :
    upload_recording service (metadata about ∷ chunks) world
    ≡ (ok (response (replicate 64 97) true 3), run.1)
unfolding upload_recording ◌>>=◌ ◌>>◌ refuse_if require rescue query_row statement first translate
    disk insert_recording_if_absent
stored = refl

upload_recording-IsKept_example : IsKept service about chunks world run.1
upload_recording-IsKept_example =
    upload_recording-IsKept service about chunks world run.1 (response (replicate 64 97) true 3)
      stored refl

quiet : run.1.env.fault run.1.tick ≡ none
unfolding upload_recording ◌>>=◌ ◌>>◌ refuse_if require rescue query_row statement first translate
    disk insert_recording_if_absent
quiet = refl

upload_recording-again_example :
    upload_recording service (metadata about ∷ interrupted ∷ []) run.1
    ≡ (ok (response (replicate 64 97) false 3), wrote run.1 run.1.db)
upload_recording-again_example =
    upload_recording-again service about chunks (interrupted ∷ []) world run.1
      (response (replicate 64 97) true 3) stored refl quiet

-- The file of another pass.
abbrev other_path : Text
other_path = codes "/data/s/b/x"

other_file : recording_file_path service.files (codes "s") (codes "b") (codes "x") ≡ some other_path
unfolding recording_file_path
other_file = refl

upload_recording-elsewhere_example : file_at other_path run.1.files ≡ file_at other_path world.files
unfolding text_eq
upload_recording-elsewhere_example =
    upload_recording-elsewhere (codes "data") [] (data_IsPlain, tt) service about chunks world
      (codes "s") (codes "b") (codes "x") other_path refl other_file
      (inl λ h. true_not_false (sym (ap (λ t. text_eq t (codes "x")) h)))

join_safe_lem_example : join_safe (codes "/data") (codes "s" ∷ codes ".." ∷ []) ≡ (
    if any is_unsafe (codes "s" ∷ codes ".." ∷ [])
    then none
    else some (path_of (codes "data" ∷ codes "s" ∷ codes ".." ∷ [])))
join_safe_lem_example =
    join_safe_lem (codes "data") [] (data_IsPlain, tt) (codes "s" ∷ codes ".." ∷ [])

recording_file_path-injective_example :
    (codes "s" ≡ codes "s") × (codes "b" ≡ codes "b") × (codes "x" ≡ codes "x")
recording_file_path-injective_example =
    recording_file_path-injective (codes "data") [] (data_IsPlain, tt) service.files (codes "s")
      (codes "s") (codes "b") (codes "b") (codes "x") (codes "x") other_path refl other_file
      other_file
