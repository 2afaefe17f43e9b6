-- ===== src/Tests/Runs.antt =====
-- Runs of the whole server, of a decision and of a cancellation.
use project_dia.Prelude.{◌≡◌, refl, ℕ, Option, some, List, [], ◌∷◌, Pairwise, inl, update, first}
use project_dia.Prelude.Int.{pos_part, neg_part}
use project_dia.Domain.{Time, Pass, pending_approval, by_owner}
use project_dia.Errors.{forbidden}
use project_dia.Store.World.{ok, err}
use project_dia.Store.World.Laws.{NoFaults, wrote}
use project_dia.Store.Passes.{cancel_row, is_cancellable}
use project_dia.Store.Passes.Table.{row_violation, first_violation, first_violation-IsValid}
use project_dia.Store.Passes.Invariant.{InOrder}
use project_dia.Scheduling.Service.Decisions.{decide, cancel, approval}
use project_dia.Auth.Rbac.{can_approve_passes}
use project_dia.Scheduling.Rules.{can_cancel_pass, cancellation_reason_for}
use project_dia.Scheduling.Service.Exact.Decide.{decide_refused}
use project_dia.Scheduling.Service.Exact.Cancel.{cancel_open, cancel_refused}
use project_dia.System.{Call, requests, overrides, decides, run}
use project_dia.System.Safety.{NotDoubleBooked}
use project_dia.System.Deployed.{deployed, deployed-NotDoubleBooked}
use project_dia.Prediction.{PredictionRequest, PredictedPass}
use project_dia.Tests.Fixtures.{
  predicted, machine, alice, bob, admin, root, pass_with, world_with, service, input,
}

-- Two bookings of one pass, an approval, and an override.
abbrev calls : List Call
calls =
    requests alice input
    ∷ requests bob input
    ∷ decides admin 1008 approval
    ∷ overrides root input
    ∷ []

abbrev pending : Pass
pending = pass_with 60 pending_approval

pending-InOrder : InOrder (world_with (pending ∷ [])).db
unfolding first_violation row_violation pos_part neg_part
pending-InOrder = first_violation-IsValid (pending ∷ []) refl

quiet : NoFaults (world_with (pending ∷ []))
quiet n = refl

abbrev predict : ℕ → PredictionRequest → Option (List PredictedPass)
predict k request = some (predicted ∷ [])

deployed-NotDoubleBooked_example :
    Pairwise NotDoubleBooked
      (run (deployed predict machine (λ _. some 60)) (world_with (pending ∷ [])) calls).db.passes
deployed-NotDoubleBooked_example =
    deployed-NotDoubleBooked predict machine (λ _. some 60) (world_with (pending ∷ [])) calls
      pending-InOrder

decide_refused_example :
    ((decide service bob 60 approval (world_with (pending ∷ []))).0 ≡ err forbidden)
    × ((decide service bob 60 approval (world_with (pending ∷ []))).1.db
        ≡ (world_with (pending ∷ [])).db)
unfolding can_approve_passes
decide_refused_example =
    decide_refused service bob 60 approval (world_with (pending ∷ [])) forbidden quiet refl

cancel_open_example :
    (at : Time) × ((cancel alice 60 (world_with (pending ∷ []))).0
      ≡ ok (cancel_row 1 by_owner at pending))
    × ((cancel alice 60 (world_with (pending ∷ []))).1.db.passes
        ≡ update (is_cancellable 60) (cancel_row 1 by_owner at) (pending ∷ []))
unfolding can_cancel_pass cancellation_reason_for first
cancel_open_example =
    cancel_open alice 60 pending (world_with (pending ∷ [])) quiet pending-InOrder refl refl
      (inl refl)

cancel_refused_example :
    cancel bob 60 (world_with (pending ∷ []))
    ≡ (err forbidden, wrote (world_with (pending ∷ [])) (world_with (pending ∷ [])).db)
unfolding can_cancel_pass first
cancel_refused_example = cancel_refused bob 60 (world_with (pending ∷ [])) forbidden quiet refl
