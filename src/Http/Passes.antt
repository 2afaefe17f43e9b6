-- ===== src/Http/Passes.antt =====
-- server/go/internal/httpapi/pass_handlers.go. The numbers of a scheduling configuration come as
-- integers of 64 bits; whether a float64 lies in a range is a parameter, and so is the reader of a
-- stored plan.
pub mod Effects
pub mod Seconds
use project_dia.Prelude.{
  ℕ, ◌+◌, ◌-◌, leb, ◌^◌, ◌*◌, ◌%◌, String, str_eq, Bool, true, false, not, ◌||◌, Option, none, some,
  List, [], ◌∷◌, any, map, where_, if◌then◌else◌,
}
use project_dia.Prelude.Int.{ℤ, pos, negsuc, ltb_ℤ, pos_part, neg_part, ◌-ℤ◌}
use project_dia.Domain.{
  Uuid, Time, Duration, Float64, second, User, UserRole, Pass, PassStatus, SchedulingConfig, RfBand,
  RecordingMode, PassVisibility, Any,
}
use project_dia.Errors.{Error, answered, is_not_found}
use project_dia.Store.World.{Action, pure, raise, refuse_if, require, ◌>>=◌, ◌>>◌}
use project_dia.Store.Listing.{PassFilter, list_passes}
use project_dia.Store.Passes.{get_pass_by_id}
use project_dia.Store.Plans.{get_pass_plan}
use project_dia.PassPlan.Wire.{PassPlan}
use project_dia.Auth.Rbac.{at_least}
use project_dia.Scheduling.Rules.{can_view_pass}
use project_dia.Scheduling.Service.{Service, RequestInput, Booked}
use project_dia.Scheduling.Service.Booking.{request_pass, request_pass_with_root_override}
use project_dia.Scheduling.Service.Decisions.{
  Decision, approval, rejection, approve, reject, cancel, update_scheduling_config,
}
use project_dia.Http.Answers.{
  Reply, reply, booking_body, pass_body, passes_body, plan_body, config_body, PassView,
  to_pass_view, decoded, or_answer, write_domain_error, write_scheduling_error, always_internal,
  invalid_request, forbidden_answer, internal_error,
}
use project_dia.Http.Guards.{Handler}

-- The identifiers are texts that may not parse, an empty pipeline is `none`, and a zero time is none.
pub record RequestPassRequest : Type 0 where
  pub satellite_id : Option Uuid
  pub aos : Option Time
  pub band : RfBand
  pub recording_mode : RecordingMode
  pub visibility : PassVisibility
  pub pipeline_id : Option (Option Uuid)
  pub radio_settings : List (String × Any)
  pub override : Bool

abbrev pub parsed_pipeline : Option (Option Uuid) → Action (Option Uuid)
parsed_pipeline none = pure none
parsed_pipeline (some none) = raise invalid_request
parsed_pipeline (some (some id)) = pure (some id)

abbrev pub request_with : Service → Bool → User → RequestInput → Action Booked
request_with s true actor input = request_pass_with_root_override s actor input
request_with s false actor input = request_pass s actor input

unfoldable pub handle_request_pass : Service → Option RequestPassRequest → Handler Reply
handle_request_pass s body actor token = do
  request ← decoded body
  satellite ← require request.satellite_id invalid_request
  aos ← require request.aos invalid_request
  pipeline ← parsed_pipeline request.pipeline_id
  result ← or_answer write_scheduling_error (
      request_with s request.override actor (record {
        satellite_id = satellite;
        requested_aos = aos;
        band = request.band;
        recording_mode = request.recording_mode;
        visibility = request.visibility;
        pipeline_id = pipeline;
        radio_settings = request.radio_settings;
      }))
  reply 201
      (booking_body (to_pass_view result.pass actor) result.warnings result.overridden_pass_ids)

abbrev pub pass_list_limit : ℕ
pass_list_limit = 200

abbrev pub filter_with : Option Uuid → Bool → PassFilter
filter_with requester public = record {
  requested_by = requester;
  statuses = [];
  from = none;
  to = none;
  only_public = public;
  limit = pass_list_limit;
}

unfoldable pub filter_for : User → String → Action PassFilter
filter_for actor scope =
    if str_eq scope "" || str_eq scope "mine"
    then pure (filter_with (some actor.id) false)
    else if str_eq scope "public"
    then pure (filter_with none true)
    else if str_eq scope "all"
    then refuse_if (not (at_least actor UserRole.admin)) forbidden_answer
      >> pure (filter_with none false)
    else raise invalid_request

-- `status` of the query is one status, or it is missing.
abbrev pub with_status : Option PassStatus → PassFilter → PassFilter
with_status none f = f
with_status (some s) f = record f { statuses = s ∷ [] }

abbrev pub views_for : User → List Pass → List PassView
views_for actor passes = map (λ p. to_pass_view p actor) (where_ (can_view_pass actor) passes)

unfoldable pub handle_list_passes : String → Option PassStatus → Handler Reply
unfolding filter_for
handle_list_passes scope status actor token = do
  filter ← filter_for actor scope
  passes ← or_answer always_internal (list_passes (with_status status filter))
  reply 200 (passes_body (views_for actor passes))

unfoldable pub handle_get_pass : Option Uuid → Handler Reply
handle_get_pass path actor token = do
  id ← decoded path
  pass ← or_answer write_domain_error (get_pass_by_id id)
  refuse_if (not (can_view_pass actor pass)) (answered 404 "not_found")
  reply 200 (pass_body (to_pass_view pass actor))

abbrev pub decision_of : Service → Bool → User → Uuid → Action Pass
decision_of s true actor id = approve s actor id
decision_of s false actor id = reject s actor id

unfoldable pub decide_pass : Service → Bool → Option Uuid → Handler Reply
decide_pass s approves path actor token = do
  id ← decoded path
  pass ← or_answer write_scheduling_error (decision_of s approves actor id)
  reply 200 (pass_body (to_pass_view pass actor))

unfoldable pub handle_cancel_pass : Option Uuid → Handler Reply
handle_cancel_pass path actor token = do
  id ← decoded path
  pass ← or_answer write_scheduling_error (cancel actor id)
  reply 200 (pass_body (to_pass_view pass actor))

-- `time.Duration(n) * time.Second`, which wraps around in 64 bits.
unfoldable pub wrap64 : ℤ → ℤ
unfolding pos_part neg_part
wrap64 (pos n) = let m = n % 2 ^ 64 in if leb (2 ^ 63) m then pos m -ℤ pos (2 ^ 64) else pos m
wrap64 (negsuc n) =
    let m = 2 ^ 64 - 1 - n % 2 ^ 64 in if leb (2 ^ 63) m then pos m -ℤ pos (2 ^ 64) else pos m

abbrev pub times_second : ℤ → ℤ
times_second (pos n) = pos (n * second)
times_second (negsuc n) = negsuc ((n + 1) * second - 1)

unfoldable pub seconds : ℤ → Duration
unfolding wrap64
seconds n = wrap64 (times_second n)

pub record SchedulingConfigRequest : Type 0 where
  pub minimum_lead_time_seconds : ℤ
  pub pre_pass_buffer_seconds : ℤ
  pub post_pass_buffer_seconds : ℤ
  pub recording_pre_roll_seconds : ℤ
  pub recording_post_roll_seconds : ℤ
  pub minimum_elevation_degrees : Float64

abbrev pub is_negative : ℤ → Bool
is_negative n = ltb_ℤ n (pos 0)

abbrev pub has_negative : SchedulingConfigRequest → Bool
has_negative r =
    is_negative r.minimum_lead_time_seconds
    || (is_negative r.pre_pass_buffer_seconds
        || (is_negative r.post_pass_buffer_seconds
            || (is_negative r.recording_pre_roll_seconds
                || is_negative r.recording_post_roll_seconds)))

-- What the handler asks the service to store; the service fills in the rest.
unfoldable pub config_of : SchedulingConfigRequest → SchedulingConfig
unfolding seconds
config_of r = record {
  id = 0;
  station_id = 0;
  minimum_lead_time = seconds r.minimum_lead_time_seconds;
  pre_pass_buffer = seconds r.pre_pass_buffer_seconds;
  post_pass_buffer = seconds r.post_pass_buffer_seconds;
  recording_pre_roll = seconds r.recording_pre_roll_seconds;
  recording_post_roll = seconds r.recording_post_roll_seconds;
  minimum_elevation_degrees = r.minimum_elevation_degrees;
  created_by = none;
  created_at = pos 0;
  effective_from = pos 0;
}

-- `is_elevation` is `0 <= x && x < 90` on floats.
unfoldable pub handle_update_scheduling_config :
    (Float64 → Bool) → Option SchedulingConfigRequest → Handler Reply
unfolding config_of
handle_update_scheduling_config is_elevation body actor token = do
  request ← decoded body
  refuse_if (has_negative request) invalid_request
  refuse_if (not (is_elevation request.minimum_elevation_degrees)) invalid_request
  saved ← or_answer write_scheduling_error (update_scheduling_config actor (config_of request))
  reply 201 (config_body saved)

abbrev pub plan_error : Error → Error
plan_error e = if is_not_found e then answered 404 "no_plan" else internal_error

unfoldable pub handle_get_pass_plan : (List ℕ → Option PassPlan) → Option Uuid → Handler Reply
handle_get_pass_plan unmarshal path actor token = do
  id ← decoded path
  stored ← or_answer plan_error (get_pass_plan id)
  plan ← require (unmarshal stored.encoded) internal_error
  reply 200 (plan_body plan)
