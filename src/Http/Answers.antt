-- ===== src/Http/Answers.antt =====
-- server/go/internal/httpapi/response.go and the views of the handlers. A handler ends with a reply or
-- with an error answer, of which the code and the kind are kept. A body that is read is the value that
-- it decodes to, if it decodes. What is logged is not modelled.
pub mod Effects
use project_dia.Prelude.{
  ℕ, String, Bool, true, false, Option, none, some, List, ◌==◌, ◌||◌, if◌then◌else◌,
}
use project_dia.Prelude.Text.{Text}
use project_dia.Domain.{
  Uuid, Time, Float64, User, UserRole, Pass, PassStatus, PassVisibility, RfBand, RecordingMode,
  CancellationReason, SchedulingConfig, AuditRecord, identified,
}
use project_dia.Errors
use project_dia.Errors.{Error, answered}
use project_dia.Store.World.{Action, pure, raise, rescue, require, ◌>>=◌, ◌>>◌}
use project_dia.Store.Reads.{append_audit}
use project_dia.Auth.Rbac.{at_least}
use project_dia.Auth.Service.{LoginResult}
use project_dia.PassPlan.Wire.{PassPlan}
use project_dia.Scheduling.Rules.{Warning}

abbrev pub bad_request : String → Error
bad_request kind = answered 400 kind

abbrev pub invalid_request : Error
invalid_request = bad_request "invalid_request"

abbrev pub forbidden_answer : Error
forbidden_answer = answered 403 "forbidden"

abbrev pub unauthenticated_answer : Error
unauthenticated_answer = answered 401 "unauthenticated"

abbrev pub internal_error : Error
internal_error = answered 500 "internal_error"

unfoldable pub write_domain_error : Error → Error
write_domain_error Error.invalid_credentials = answered 401 "invalid_credentials"
write_domain_error Error.password_change_required = answered 403 "password_change_required"
write_domain_error Error.not_permitted = answered 403 "forbidden"
write_domain_error Error.password_too_short = answered 400 "invalid_password"
write_domain_error Error.password_is_bootstrap = answered 400 "invalid_password"
write_domain_error Error.root_protected = answered 403 "root_protected"
write_domain_error Error.not_found = answered 404 "not_found"
write_domain_error Error.duplicate = answered 409 "conflict"
write_domain_error Error.referenced = answered 409 "in_use"
write_domain_error _ = internal_error

-- server/go/internal/httpapi/pass_handlers.go; the bounds of a conflict stand in its answer.
unfoldable pub write_scheduling_error : Error → Error
write_scheduling_error (Error.conflict from to) = answered 409 "station_conflict"
write_scheduling_error (Error.lead_time earliest) = answered 409 "lead_time"
write_scheduling_error Error.worker_offline = answered 409 "worker_offline"
write_scheduling_error Error.pipeline_required = answered 400 "pipeline_required"
write_scheduling_error Error.not_schedulable = answered 409 "not_schedulable"
write_scheduling_error Error.pass_not_found = answered 404 "pass_not_found"
write_scheduling_error Error.station_not_configured = answered 409 "station_not_configured"
write_scheduling_error (Error.invalid_transition e) = answered 409 "invalid_state"
write_scheduling_error Error.forbidden = answered 403 "forbidden"
write_scheduling_error Error.not_found = answered 404 "not_found"
write_scheduling_error _ = internal_error

-- `if err != nil { …; return }` with one of the writers of errors.
unfoldable pub or_answer {ℓ} : {A : Type ℓ} → (Error → Error) → Action A → Action A
or_answer write m = rescue m (λ e. raise (write e))

abbrev pub always_internal : Error → Error
always_internal e = internal_error

-- `decodeJSON` and `pathUUID`
unfoldable pub decoded {ℓ} : {A : Type ℓ} → Option A → Action A
decoded body = require body invalid_request

pub record UserView : Type 0 where
  pub id : Uuid
  pub username : Text
  pub role : UserRole
  pub must_change_password : Bool
  pub created_at : Time

unfoldable pub to_user_view : User → UserView
to_user_view u = record {
  id = u.id;
  username = u.username;
  role = u.role;
  must_change_password = u.must_change_password;
  created_at = u.created_at;
}

-- The lengths of the rolls in seconds and the time of creation are left out.
pub record PassView : Type 0 where
  pub id : Uuid
  pub satellite_id : Uuid
  pub status : PassStatus
  pub visibility : PassVisibility
  pub band : RfBand
  pub aos : Time
  pub tca : Option Time
  pub los : Time
  pub max_elevation_degrees : Float64
  pub reserved_from : Time
  pub reserved_to : Time
  pub recording_mode : RecordingMode
  pub requested_by : Option Uuid
  pub approved_at : Option Time
  pub cancellation_reason : Option CancellationReason
  pub cancelled_at : Option Time

unfoldable pub to_pass_view : Pass → User → PassView
to_pass_view p actor = record {
  id = p.id;
  satellite_id = p.satellite_id;
  status = p.status;
  visibility = p.visibility;
  band = p.band;
  aos = p.aos_at;
  tca = p.tca_at;
  los = p.los_at;
  max_elevation_degrees = p.max_elevation_degrees;
  reserved_from = p.reserved_from;
  reserved_to = p.reserved_to;
  recording_mode = p.recording_mode;
  requested_by =
      if p.requested_by == actor.id || at_least actor UserRole.admin
      then some p.requested_by
      else none;
  approved_at = p.approved_at;
  cancellation_reason = p.cancellation_reason;
  cancelled_at = p.cancelled_at;
}

-- The bodies of the replies.
pub data Body : Type 0 where
  no_body : Body
  session_body : LoginResult → Body
  user_body : UserView → Body
  users_body : List UserView → Body
  pass_body : PassView → Body
  booking_body : PassView → List Warning → List Uuid → Body
  passes_body : List PassView → Body
  plan_body : PassPlan → Body
  config_body : SchedulingConfig → Body

pub record Reply : Type 0 where
  pub code : ℕ
  pub body : Body

abbrev pub reply : ℕ → Body → Action Reply
reply code body = pure (record { code = code; body = body })

abbrev pub no_content : Action Reply
no_content = reply 204 no_body

-- `Server.audit` and `Server.auditChange`: a failure to write the record is logged and forgotten.
unfoldable pub audit : User → String → String → Uuid → Action (Unit {0})
audit actor action entity_type id =
    rescue
      (append_audit (record {
        actor_user_id = some actor.id;
        action = action;
        entity_type = entity_type;
        entity_id = identified id;
        reason = "";
      })
        >> pure tt)
      (λ _. pure tt)
