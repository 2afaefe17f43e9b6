-- ===== src/Scheduling/Safety.antt =====
-- The operations of server/go/internal/scheduling/service.go and relations between tables.
use project_dia.Prelude.{◌≡◌, Bool, Option, none, some, List, [], ◌∷◌, String}
use project_dia.Domain.{
  Uuid, Time, User, Pass, Station, SchedulingConfig, TleRecord, by_root_override, pending_approval,
}
use project_dia.Errors.{Error}
use project_dia.Store.World.{Db, Action, advance}
use project_dia.Store.World.Moves.{
  Moves, Moves-bind, Moves-then, Moves-pure, Moves-raise, Moves-require,
}
use project_dia.Store.Passes.Steps.{Steps, store_moves, Moves-append_audit}
use project_dia.Scheduling.StateMachine.{TransitionError}
use project_dia.Scheduling.Rules.{Reservation}
use project_dia.PassPlan.Wire.{PassPlan}
use project_dia.Prediction.{PredictionRequest}
use project_dia.Scheduling.Service.{
  Service, RequestInput, predict, resolve_pass, conflict_for, station_and_config,
  require_worker_online, generate_plan, generate_plan_with, audit,
}
use project_dia.Scheduling.Service.Booking.{
  refuse_some, request_pass, cancel_conflicts, override_in_tx, request_pass_with_root_override,
}
use project_dia.Scheduling.Service.Decisions.{
  refuse_transition, Decision, approval, rejection, plan_first, record_decision, decide, cancel,
  update_scheduling_config,
}

module _ {ℓ} {R : Db → Db → Type ℓ} (steps : Steps R) where
  Moves-predict : (s : Service) (r : PredictionRequest) → Moves R (predict s r)
  unfolding predict
  Moves-predict s r = record {
    at = λ w.
        (Moves-require steps.pre (s.predictor w.tick r) Error.prediction_failed).at (advance w);
  }

  Moves-resolve_pass :
      (s : Service) (station : Station) (config : SchedulingConfig) (tle : TleRecord) (aos : Time)
      → Moves R (resolve_pass s station config tle aos)
  unfolding resolve_pass
  Moves-resolve_pass s station config tle aos = search (store_moves, steps.pre, Moves-predict)

  Moves-conflict_for : (station : Uuid) (r : Reservation) → Moves R (conflict_for station r)
  unfolding conflict_for
  Moves-conflict_for station r = search (store_moves, steps.pre, steps)

  Moves-station_and_config : Moves R station_and_config
  unfolding station_and_config
  Moves-station_and_config = search (store_moves, steps.pre, steps) depth 12

  Moves-require_worker_online : (station : Uuid) → Moves R (require_worker_online station)
  unfolding require_worker_online
  Moves-require_worker_online station = search (store_moves, steps.pre, steps) depth 8

  Moves-audit :
      (actor : Option Uuid) (action : String) (id : Uuid) → Moves R (audit actor action id)
  unfolding audit
  Moves-audit actor action id = search (store_moves, steps.pre, steps)

  Moves-refuse_some : (o : Option Time) → Moves R (refuse_some o)
  Moves-refuse_some none = Moves-pure steps.pre tt
  Moves-refuse_some (some t) = Moves-raise steps.pre _

  Moves-refuse_transition : (o : Option TransitionError) → Moves R (refuse_transition o)
  Moves-refuse_transition none = Moves-pure steps.pre tt
  Moves-refuse_transition (some e) = Moves-raise steps.pre _

ruleset service_moves = (
  store_moves, Moves-predict, Moves-resolve_pass, Moves-conflict_for, Moves-station_and_config,
  Moves-require_worker_online, Moves-audit, Moves-refuse_some, Moves-refuse_transition,
)

-- What the plan generator may do to the tables.
abbrev pub PlansMove {ℓ} : (Db → Db → Type ℓ) → Option (Pass → Action (PassPlan × Bool)) → Type ℓ
PlansMove R none = Unit
PlansMove R (some generate) = (p : Pass) → Moves R (generate p)

module _ {ℓ} {R : Db → Db → Type ℓ} (steps : Steps R) where
  pub Moves-request_pass :
      (s : Service) (actor : User) (input : RequestInput) → Moves R (request_pass s actor input)
  unfolding request_pass
  Moves-request_pass s actor input = search (service_moves, steps, steps.pre) depth 40

  Moves-cancel_conflicts :
      (actor : User) (at : Time) (ps : List Pass) → Moves R (cancel_conflicts actor at ps)
  unfolding cancel_conflicts
  Moves-cancel_conflicts actor at [] = Moves-pure steps.pre []
  Moves-cancel_conflicts actor at (p ∷ ps) =
      Moves-then steps.pre _ _ (steps.cancel p.id actor.id by_root_override at) (
        Moves-then steps.pre _ _ (Moves-append_audit steps _) (
          Moves-bind steps.pre _ _ (Moves-cancel_conflicts actor at ps)
            (λ o. Moves-pure steps.pre (p.id ∷ o))))

  Moves-override_in_tx :
      (actor : User) (at : Time) (p : Pass)
      → p.status ≡ pending_approval
      → Moves R (override_in_tx actor at p)
  unfolding override_in_tx
  Moves-override_in_tx actor at p h =
      search (service_moves, steps, steps.pre, steps.approve, Moves-cancel_conflicts) depth 16

  Moves-generate_plan_with :
      (plans : Option (Pass → Action (PassPlan × Bool))) (p : Pass)
      → PlansMove R plans
      → Moves R (generate_plan_with plans p)
  Moves-generate_plan_with none p h = Moves-pure steps.pre tt
  Moves-generate_plan_with (some generate) p h = search (service_moves, steps.pre, h)

  Moves-generate_plan : (s : Service) (p : Pass) → PlansMove R s.plans → Moves R (generate_plan s p)
  unfolding generate_plan
  Moves-generate_plan s p h = Moves-generate_plan_with s.plans p h

  pub Moves-override :
      (s : Service) (actor : User) (input : RequestInput)
      → PlansMove R s.plans
      → Moves R (request_pass_with_root_override s actor input)
  unfolding request_pass_with_root_override
  Moves-override s actor input h =
      search (service_moves, steps, steps.pre, Moves-override_in_tx, Moves-generate_plan s) depth 50

  Moves-plan_first :
      (s : Service) (d : Decision) (p : Pass) → PlansMove R s.plans → Moves R (plan_first s d p)
  Moves-plan_first s approval p h = Moves-generate_plan s _ h
  Moves-plan_first s rejection p h = Moves-pure steps.pre tt

  Moves-record_decision : (d : Decision) (id actor : Uuid) → Moves R (record_decision d id actor)
  Moves-record_decision approval id actor = search (service_moves, steps.pre, steps.approve)
  Moves-record_decision rejection id actor = search (service_moves, steps.pre, steps.reject)

  pub Moves-decide :
      (s : Service) (actor : User) (id : Uuid) (d : Decision)
      → PlansMove R s.plans
      → Moves R (decide s actor id d)
  unfolding decide
  Moves-decide s actor id d h =
      search (service_moves, steps, steps.pre, Moves-plan_first s, Moves-record_decision) depth 20

  pub Moves-cancel : (actor : User) (id : Uuid) → Moves R (cancel actor id)
  unfolding cancel
  Moves-cancel actor id = search (service_moves, steps, steps.pre, steps.cancel) depth 20

  pub Moves-update_scheduling_config :
      (actor : User) (c : SchedulingConfig) → Moves R (update_scheduling_config actor c)
  unfolding update_scheduling_config
  Moves-update_scheduling_config actor c = search (service_moves, steps, steps.pre) depth 20
