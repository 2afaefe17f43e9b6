-- ===== src/Errors.antt =====
-- The error values that the Go packages declare and wrap, in one type, and `translate` of
-- server/go/internal/store/repository.go. A wrapped error is modelled by the error that it wraps,
-- which is what `errors.Is` finds.
use project_dia.Prelude.{ℕ, String, Bool, true, false, ◌||◌, str_eq, if◌then◌else◌}
use project_dia.Domain.{Time, PassStatus}
use project_dia.Scheduling.StateMachine.{TransitionError}

-- What a statement can fail with: no row, an error of PostgreSQL with its constraint and its code,
-- or a failure of the connection.
pub data DbError : Type 0 where
  no_rows connection_lost : DbError
  pg : String → String → DbError

-- The codes of gRPC that the worker's service answers with.
pub data StatusCode : Type 0 where
  invalid_argument unknown_entity internal resource_exhausted data_loss aborted : StatusCode

pub data Error : Type 0 where
  -- package store
  not_found station_overlap referenced duplicate serialization root_protected : Error
  session_not_found ttl_not_positive nested_transaction : Error
  -- an error of the driver that `translate` passes on as it is
  driver : DbError → Error
  -- the error of the context that a caller has ended
  context_ended : Error
  -- package scheduling
  lead_time : Time → Error
  conflict : Time → Time → Error
  worker_offline not_schedulable pipeline_required pass_not_found forbidden : Error
  invalid_transition : TransitionError → Error
  invalid_band no_station : Error
  no_orbital_data : ℕ → Error
  -- what the predictor and the plan generator return
  prediction_failed : Error
  -- package passplan
  not_approved : PassStatus → Error
  station_not_configured no_matching_prediction encoding_failed : Error
  -- package auth
  invalid_credentials password_change_required not_permitted unauthenticated : Error
  password_mismatch invalid_hash password_too_short password_is_bootstrap : Error
  -- the random generator of the system failed
  no_entropy : Error
  -- package httpapi: a handler has answered with this code and this kind of error
  answered : ℕ → String → Error
  -- package workerapi
  status_error : StatusCode → Error

abbrev pub overlap_constraint_name : String
overlap_constraint_name = "passes_no_station_overlap"

abbrev pub serialization_failure : String
serialization_failure = "40001"

abbrev pub deadlock_detected : String
deadlock_detected = "40P01"

abbrev pub unique_violation : String
unique_violation = "23505"

abbrev pub foreign_key_violation : String
foreign_key_violation = "23503"

unfoldable pub translate : DbError → Error
translate no_rows = not_found
translate connection_lost = driver connection_lost
translate (pg constraint code) =
    if str_eq constraint overlap_constraint_name
    then station_overlap
    else if str_eq code serialization_failure || str_eq code deadlock_detected
    then serialization
    else if str_eq code unique_violation
    then duplicate
    else if str_eq code foreign_key_violation
    then referenced
    else driver (pg constraint code)

-- `errors.Is(err, store.ErrNotFound)` and its like
abbrev pub is_not_found : Error → Bool
is_not_found not_found = true
is_not_found _ = false

abbrev pub is_station_overlap : Error → Bool
is_station_overlap station_overlap = true
is_station_overlap _ = false

abbrev pub is_serialization : Error → Bool
is_serialization serialization = true
is_serialization _ = false

abbrev pub is_session_not_found : Error → Bool
is_session_not_found session_not_found = true
is_session_not_found _ = false
