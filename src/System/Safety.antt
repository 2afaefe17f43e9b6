-- ===== src/System/Safety.antt =====
-- Double bookings over runs of the server: the operations of server/go/internal/scheduling/service.go
-- and workerapi/upload.go against the constraints of the table `passes`.
use mathlib.Core.Path.{subst}
use project_dia.Prelude.{Bool, ◌≡◌, true, List, [], ◌∷◌, arith, All, Pairwise}
use project_dia.Domain.{Uuid, Time, Pass, PassStatus, CancellationReason}
use project_dia.Store.World.{World, Db}
use project_dia.Store.World.Moves.{IsPreorder, Moves, Moves-statement, moves_rules}
use project_dia.Store.Passes.{
  update_passes, create_pass_once, approve_pass, reject_pass, cancel_pass, set_pass_outcome,
}
use project_dia.Store.Passes.Table.{IsValid, Apart, clash, reserves}
use project_dia.Store.Passes.Invariant.{InOrder, IsOutcome, put_passes-InOrder}
use project_dia.Store.Passes.Steps.{Steps}
use project_dia.Scheduling.StateMachine.{holds_station_resource}
use project_dia.Scheduling.Rules.{Reservation}
use project_dia.Scheduling.Rules.Laws.{Within}
use project_dia.Scheduling.Safety.{
  PlansMove, Moves-request_pass, Moves-override, Moves-decide, Moves-cancel,
  Moves-update_scheduling_config,
}
use project_dia.WorkerApi.Reports.Laws.{Moves-report_executions}
use project_dia.System.{
  Server, Call, requests, overrides, decides, cancels, configures, reports, step, run,
}

abbrev pub StaysInOrder : Db → Db → Type 0
StaysInOrder c d = InOrder c → InOrder d

pub in_order_pre : IsPreorder StaysInOrder
in_order_pre = record { refl_at = λ d h. h; trans_at = λ c d e f g h. g (f h) }

update-moves : (sel : Pass → Bool) (f : Pass → Pass) → Moves StaysInOrder (update_passes sel f)
unfolding update_passes
update-moves sel f = Moves-statement in_order_pre _ λ u t d e n h _. put_passes-InOrder _ n _ d e h

create-moves : (p : Pass) → Moves StaysInOrder (create_pass_once p)
unfolding create_pass_once
create-moves p = Moves-statement in_order_pre _ λ u t d e n h _. put_passes-InOrder _ n _ d e h

approve-moves : (id by : Uuid) (at : Time) → Moves StaysInOrder (approve_pass id by at)
unfolding approve_pass
approve-moves id by at = search (moves_rules, in_order_pre, update-moves)

reject-moves : (id by : Uuid) (at : Time) → Moves StaysInOrder (reject_pass id by at)
unfolding reject_pass
reject-moves id by at = search (moves_rules, in_order_pre, update-moves)

cancel-moves :
    (id by : Uuid) (reason : CancellationReason) (at : Time)
    → Moves StaysInOrder (cancel_pass id by reason at)
unfolding cancel_pass
cancel-moves id by reason at = search (moves_rules, in_order_pre, update-moves)

outcome-moves :
    (id : Uuid) (status : PassStatus)
    → IsOutcome status
    → Moves StaysInOrder (set_pass_outcome id status)
unfolding set_pass_outcome
outcome-moves id status h = search (moves_rules, in_order_pre, update-moves)

pub in_order_steps : Steps StaysInOrder
in_order_steps = record {
  pre = in_order_pre;
  other = λ c d same _ h. subst IsValid same h;
  create = λ p h. create-moves p;
  approve = approve-moves;
  reject = reject-moves;
  cancel = cancel-moves;
}

-- In order before, in order after, for every call.
step-InOrder :
    (s : Server) (w : World) (c : Call)
    → PlansMove StaysInOrder s.service.plans
    → InOrder w.db
    → InOrder (step s w c).db
unfolding step
step-InOrder s w (requests actor input) h =
    (Moves-request_pass in_order_steps s.service actor input).at w
step-InOrder s w (overrides actor input) h =
    (Moves-override in_order_steps s.service actor input h).at w
step-InOrder s w (decides actor id d) h = (Moves-decide in_order_steps s.service actor id d h).at w
step-InOrder s w (cancels actor id) h = (Moves-cancel in_order_steps actor id).at w
step-InOrder s w (configures actor config) h =
    (Moves-update_scheduling_config in_order_steps actor config).at w
step-InOrder s w (reports rs) h =
    (Moves-report_executions in_order_steps outcome-moves s.parse_uuid rs).at w

run-InOrder :
    (s : Server) (w : World) (cs : List Call)
    → PlansMove StaysInOrder s.service.plans
    → InOrder w.db
    → InOrder (run s w cs).db
unfolding run
run-InOrder s w [] h v = v
run-InOrder s w (c ∷ cs) h v = run-InOrder s (step s w c) cs h (step-InOrder s w c h v)

abbrev pub reserved : Pass → Reservation
reserved p = record { from = p.reserved_from; to = p.reserved_to }

-- Two passes that hold one station share no instant.
abbrev pub NotDoubleBooked : Pass → Pass → Type 0
NotDoubleBooked p q =
    p.station_id ≡ q.station_id
    → holds_station_resource p.status ≡ true
    → holds_station_resource q.status ≡ true
    → (t : Time) → ¬ (Within t (reserved p) × Within t (reserved q))

-- The list of live statuses in the Go code is the one in the database's constraint.
pub holds-reserves : (s : PassStatus) → holds_station_resource s ≡ reserves s
unfolding holds_station_resource
holds-reserves s = ground arith

Apart-NotDoubleBooked : (p q : Pass) → Apart p q → NotDoubleBooked p q
unfolding clash
Apart-NotDoubleBooked p q a station hp hq t inside =
    ground (arith, holds-reserves p.status, holds-reserves q.status)

pub Apart-NotDoubleBooked-All :
    (p : Pass) (qs : List Pass) → All (Apart p) qs → All (NotDoubleBooked p) qs
Apart-NotDoubleBooked-All p [] a = tt
Apart-NotDoubleBooked-All p (q ∷ qs) a =
    (Apart-NotDoubleBooked p q a.0, Apart-NotDoubleBooked-All p qs a.1)

pub InOrder-NotDoubleBooked : (ps : List Pass) → Pairwise Apart ps → Pairwise NotDoubleBooked ps
InOrder-NotDoubleBooked [] a = tt
InOrder-NotDoubleBooked (p ∷ ps) a =
    (Apart-NotDoubleBooked-All p ps a.0, InOrder-NotDoubleBooked ps a.1)

pub run-NotDoubleBooked :
    (s : Server) (w : World) (cs : List Call)
    → PlansMove StaysInOrder s.service.plans
    → InOrder w.db
    → Pairwise NotDoubleBooked (run s w cs).db.passes
run-NotDoubleBooked s w cs h v = InOrder-NotDoubleBooked _ (run-InOrder s w cs h v).1
