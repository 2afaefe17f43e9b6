-- ===== src/WorkerApi/Reports.antt =====
-- server/go/internal/workerapi/upload.go: `ReportExecutions`. The parser of identifiers is a
-- third-party package, so it is a parameter.
pub mod Laws
use project_dia.Prelude.{
  ℕ, ◌+◌, ◌%◌, ◌^◌, String, str_eq, Bool, true, false, Option, none, some, List, [], ◌∷◌, ◌++◌,
  if◌then◌else◌,
}
use project_dia.Domain.{identified, Uuid, PassStatus, completed, failed, missed}
use project_dia.Errors.{Error, status_error, internal}
use project_dia.Store.World.{Action, pure, raise, rescue, ◌>>=◌, ◌>>◌}
use project_dia.Store.Reads.{append_audit}
use project_dia.Store.Passes.{set_pass_outcome}

pub record ExecutionRecord : Type 0 where
  pub pass_id : String
  pub state : String

-- "cancelled" and every other text have no outcome.
unfoldable pub pass_status_for : String → Option PassStatus
pass_status_for state =
    if str_eq state "completed"
    then some completed
    else if str_eq state "failed"
    then some failed
    else if str_eq state "missed"
    then some missed
    else none

abbrev pub outcome_action : PassStatus → String
outcome_action completed = "pass.completed"
outcome_action failed = "pass.failed"
outcome_action _ = "pass.missed"

-- A failure to write the audit record is logged and forgotten.
unfoldable pub audit_outcome : Bool → Uuid → PassStatus → Action (Unit {0})
audit_outcome false id status = pure tt
audit_outcome true id status =
    rescue
      (append_audit (record {
        actor_user_id = none;
        action = outcome_action status;
        entity_type = "pass";
        entity_id = identified id;
        reason = "";
      })
        >> pure tt)
      (λ _. pure tt)

-- The part of the loop body that writes; a failure ends the request.
unfoldable pub record_outcome : Uuid → PassStatus → Action (Unit {0})
record_outcome id status = do
  changed ← rescue (set_pass_outcome id status) (λ _. raise (status_error internal))
  audit_outcome changed id status

module _ (parse_uuid : String → Option Uuid) where
  -- What a record asks for: nothing, if its identifier or its state is not understood.
  abbrev pub asked : Option Uuid → Option PassStatus → Option (Uuid × PassStatus)
  asked (some id) (some status) = some (id, status)
  asked _ _ = none

  abbrev pub understood : ExecutionRecord → Option (Uuid × PassStatus)
  understood r = asked (parse_uuid r.pass_id) (pass_status_for r.state)

  -- One round of the loop, with the number of records accepted so far.
  abbrev pub report_one : ℕ → Option (Uuid × PassStatus) → Action ℕ
  report_one accepted none = pure accepted
  report_one accepted (some (id, status)) = record_outcome id status >> pure (accepted + 1)

  unfoldable pub report_records : ℕ → List ExecutionRecord → Action ℕ
  report_records accepted [] = pure accepted
  report_records accepted (r ∷ rs) =
      report_one accepted (understood r) >>= λ accepted'. report_records accepted' rs

  -- The answer is a `uint32`.
  unfoldable pub report_executions : List ExecutionRecord → Action ℕ
  report_executions rs = do accepted ← report_records 0 rs; pure (accepted % 2 ^ 32)
