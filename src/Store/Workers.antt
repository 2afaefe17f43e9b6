-- ===== src/Store/Workers.antt =====
-- server/go/internal/store/passes.go: the statements on the table `workers`.
pub mod Laws
use project_dia.Prelude.{
  ℕ, ◌==◌, ◌&&◌, ◌||◌, String, str_eq, Bool, true, false, Option, none, some, List, [], ◌∷◌, map,
  first, where_, update, count_where, if◌then◌else◌,
}
use project_dia.Prelude.Int.{ltb_ℤ}
use project_dia.Domain.{Uuid, Time, Worker, online, offline, state_eq}
use project_dia.Errors.{not_found}
use project_dia.Store.World.{Db, Effect, done, Action, statement, query_row, refuse_if, ◌>>=◌, ◌>>◌}

pub record HeartbeatUpdate : Type 0 where
  pub worker_id : Uuid
  pub seen_at : Time
  pub worker_version : String
  pub pending_uploads : ℕ
  pub pending_reports : ℕ

unfoldable pub get_worker_by_id : Uuid → Action Worker
get_worker_by_id id = query_row λ db. first (λ w. w.id == id) db.workers

unfoldable pub get_worker_by_name : String → Action Worker
get_worker_by_name name = query_row λ db. first (λ w. str_eq w.name name) db.workers

abbrev pub is_worker : Uuid → Worker → Bool
is_worker id w = w.id == id

-- `COALESCE(NULLIF($3, ''), worker_version)`
abbrev pub seen : HeartbeatUpdate → Worker → Worker
seen u w = record w {
  connection_state = online;
  last_seen_at = some u.seen_at;
  worker_version = if str_eq u.worker_version "" then w.worker_version else u.worker_version;
  pending_uploads = u.pending_uploads;
  pending_reports = u.pending_reports;
}

abbrev pub put_workers {ℓ} : {A : Type ℓ} → A → List Worker → Db → Effect A
put_workers a rows db = done a (record db { workers = rows })

unfoldable pub record_heartbeat : HeartbeatUpdate → Action (Unit {0})
record_heartbeat u = do
  affected ← statement λ _ _ db.
      put_workers (count_where (is_worker u.worker_id) db.workers)
        (update (is_worker u.worker_id) (seen u) db.workers) db
  refuse_if (affected == 0) not_found

abbrev pub synced : Time → String → Worker → Worker
synced at generation w = record w { last_sync_at = some at; synced_generation = generation }

unfoldable pub record_worker_sync : Uuid → Time → String → Action (Unit {0})
record_worker_sync id at generation =
    statement λ _ _ db. put_workers tt (update (is_worker id) (synced at generation) db.workers) db

-- `last_seen_at IS NULL OR last_seen_at < $1`
abbrev pub not_seen_since : Time → Option Time → Bool
not_seen_since cutoff none = true
not_seen_since cutoff (some t) = ltb_ℤ t cutoff

abbrev pub is_stale : Time → Worker → Bool
is_stale cutoff w = state_eq w.connection_state online && not_seen_since cutoff w.last_seen_at

abbrev pub gone : Worker → Worker
gone w = record w { connection_state = offline }

unfoldable pub mark_stale_workers_offline : Time → Action (List String)
mark_stale_workers_offline cutoff = statement λ _ _ db.
    put_workers (map (λ w. w.name) (where_ (is_stale cutoff) db.workers))
      (update (is_stale cutoff) gone db.workers) db
