-- ===== src/Store/Recordings.antt =====
-- server/go/internal/store/recordings.go, the statements that an upload needs, and the constraints of
-- store/migrations/00004_recordings.sql on the table.
use project_dia.Prelude.{
  ℕ, String, Bool, true, false, not, ◌∷◌, ◌&&◌, ◌||◌, ◌==◌, leb, first, any, length, if◌then◌else◌,
}
use project_dia.Prelude.Text.{Text, text_eq, is_digit}
use project_dia.Errors.{pg, unique_violation}
use project_dia.Store.World.{Db, Recording, Action, Effect, done, failed, statement, query_row}

abbrev pub check_violation : String
check_violation = "23514"

-- The regular expression of the constraints: 64 hexadecimal digits, with small letters.
abbrev pub is_small_hex : ℕ → Bool
is_small_hex c = leb 97 c && leb c 102 || is_digit c

abbrev pub is_digest : Text → Bool
is_digest t = length t == 64 && not (any (λ c. not (is_small_hex c)) t)

abbrev pub is_recording : Text → Recording → Bool
is_recording id r = text_eq r.recording_id id

abbrev pub is_same_name : Recording → Recording → Bool
is_same_name r q = q.pass_id == r.pass_id && text_eq q.relative_path r.relative_path

unfoldable pub get_recording : Text → Action Recording
unfolding text_eq
get_recording id = query_row λ db. first (is_recording id) db.recordings

-- `INSERT … ON CONFLICT (recording_id) DO NOTHING`
abbrev pub insert_recording : Recording → Db → Effect Bool
insert_recording row db =
    if not (is_digest row.recording_id)
    then failed (pg "recordings_id_shape" check_violation)
    else if not (is_digest row.checksum_sha256)
    then failed (pg "recordings_checksum_shape" check_violation)
    else if any (is_recording row.recording_id) db.recordings
    then done false db
    else if any (is_same_name row) db.recordings
    then failed (pg "recordings_pass_id_relative_path_key" unique_violation)
    else done true (record db { recordings = row ∷ db.recordings })

unfoldable pub insert_recording_if_absent : Recording → Action Bool
unfolding text_eq
insert_recording_if_absent row =
    statement λ _ t db. insert_recording (record row { received_at = t }) db
