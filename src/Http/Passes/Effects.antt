-- ===== src/Http/Passes/Effects.antt =====
-- What the handlers of server/go/internal/httpapi/pass_handlers.go do to the tables.
use mathlib.Core.Path.{subst}
use project_dia.Prelude.{
  ◌≡◌, ℕ, Bool, true, false, Option, none, some, List, String, if◌then◌else◌, any,
}
use project_dia.Prelude.Text.{Text}
use project_dia.Domain.{Uuid, Float64, User, Pass, PassStatus}
use project_dia.Errors.{DbError}
use project_dia.Store.World.{Db, done, failed}
use project_dia.Store.World.Moves.{Moves, Moves-pure, Moves-raise, Moves-statement, Moves-query_row}
use project_dia.Store.Passes.Steps.{Steps, Moves-get_pass_by_id}
use project_dia.Store.Listing.{PassFilter, list_passes, list_effect, is_unknown_status}
use project_dia.Store.Plans.{get_pass_plan}
use project_dia.PassPlan.Wire.{PassPlan}
use project_dia.Scheduling.Service.{Service, RequestInput}
use project_dia.Scheduling.Service.Decisions.{approval, rejection, approve, reject}
use project_dia.Scheduling.Safety.{
  PlansMove, Moves-request_pass, Moves-override, Moves-decide, Moves-cancel,
  Moves-update_scheduling_config,
}
use project_dia.Http.Passes.{
  RequestPassRequest, SchedulingConfigRequest, parsed_pipeline, request_with, filter_for,
  decision_of, handle_request_pass, handle_list_passes, handle_get_pass, decide_pass,
  handle_cancel_pass, handle_update_scheduling_config, handle_get_pass_plan,
}
use project_dia.Http.Answers.Effects.{http_moves}

chosen-same :
    (b : Bool) (x : DbError) (d e : Db) (qs ps : List Pass)
    → (if b then failed x else done qs d) ≡ done ps e
    → d ≡ e
chosen-same true x d e qs ps h = cc
chosen-same false x d e qs ps h = cc

list-same : (f : PassFilter) (d e : Db) (ps : List Pass) → list_effect f d ≡ done ps e → d ≡ e
list-same f d e ps h = chosen-same (any is_unknown_status f.statuses) _ d e _ ps h

module _ {ℓ} {R : Db → Db → Type ℓ} (steps : Steps R) where
  Moves-parsed_pipeline : (o : Option (Option Uuid)) → Moves R (parsed_pipeline o)
  Moves-parsed_pipeline none = Moves-pure steps.pre none
  Moves-parsed_pipeline (some none) = Moves-raise steps.pre _
  Moves-parsed_pipeline (some (some id)) = Moves-pure steps.pre (some id)

  Moves-request_with :
      (s : Service) (b : Bool) (actor : User) (input : RequestInput)
      → PlansMove R s.plans
      → Moves R (request_with s b actor input)
  Moves-request_with s true actor input h = Moves-override steps s actor input h
  Moves-request_with s false actor input h = Moves-request_pass steps s actor input

  pub Moves-handle_request_pass :
      (s : Service) (body : Option RequestPassRequest) (actor : User) (token : Text)
      → PlansMove R s.plans
      → Moves R (handle_request_pass s body actor token)
  unfolding handle_request_pass
  Moves-handle_request_pass s body actor token h =
      search (http_moves, steps.pre, Moves-parsed_pipeline, Moves-request_with s) depth 24

  Moves-list_passes : (f : PassFilter) → Moves R (list_passes f)
  unfolding list_passes
  Moves-list_passes f =
      Moves-statement steps.pre _
        λ u t d e ps same. subst (R d) (list-same f d e ps same) (steps.pre.refl_at d)

  Moves-filter_for : (actor : User) (scope : String) → Moves R (filter_for actor scope)
  unfolding filter_for
  Moves-filter_for actor scope = search (http_moves, steps.pre) depth 12

  pub Moves-handle_list_passes :
      (scope : String) (status : Option PassStatus) (actor : User) (token : Text)
      → Moves R (handle_list_passes scope status actor token)
  unfolding handle_list_passes
  Moves-handle_list_passes scope status actor token =
      search (http_moves, steps.pre, Moves-filter_for, Moves-list_passes) depth 12

  pub Moves-handle_get_pass :
      (path : Option Uuid) (actor : User) (token : Text)
      → Moves R (handle_get_pass path actor token)
  unfolding handle_get_pass
  Moves-handle_get_pass path actor token =
      search (http_moves, steps, steps.pre, Moves-get_pass_by_id) depth 12

  Moves-decision_of :
      (s : Service) (b : Bool) (actor : User) (id : Uuid)
      → PlansMove R s.plans
      → Moves R (decision_of s b actor id)
  unfolding approve reject
  Moves-decision_of s true actor id h = Moves-decide steps s actor id approval h
  Moves-decision_of s false actor id h = Moves-decide steps s actor id rejection h

  pub Moves-decide_pass :
      (s : Service) (b : Bool) (path : Option Uuid) (actor : User) (token : Text)
      → PlansMove R s.plans
      → Moves R (decide_pass s b path actor token)
  unfolding decide_pass
  Moves-decide_pass s b path actor token h =
      search (http_moves, steps.pre, Moves-decision_of s) depth 12

  pub Moves-handle_cancel_pass :
      (path : Option Uuid) (actor : User) (token : Text)
      → Moves R (handle_cancel_pass path actor token)
  unfolding handle_cancel_pass
  Moves-handle_cancel_pass path actor token =
      search (http_moves, steps.pre, Moves-cancel steps) depth 12

  pub Moves-handle_update_scheduling_config :
      (is_elevation : Float64 → Bool) (body : Option SchedulingConfigRequest) (actor : User)
      (token : Text)
      → Moves R (handle_update_scheduling_config is_elevation body actor token)
  unfolding handle_update_scheduling_config
  Moves-handle_update_scheduling_config is_elevation body actor token =
      search (http_moves, steps.pre, Moves-update_scheduling_config steps) depth 16

  Moves-get_pass_plan : (id : Uuid) → Moves R (get_pass_plan id)
  unfolding get_pass_plan
  Moves-get_pass_plan id = Moves-query_row steps.pre _

  pub Moves-handle_get_pass_plan :
      (unmarshal : List ℕ → Option PassPlan) (path : Option Uuid) (actor : User) (token : Text)
      → Moves R (handle_get_pass_plan unmarshal path actor token)
  unfolding handle_get_pass_plan
  Moves-handle_get_pass_plan unmarshal path actor token =
      search (http_moves, steps.pre, Moves-get_pass_plan) depth 12
