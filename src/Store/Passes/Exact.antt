-- ===== src/Store/Passes/Exact.antt =====
-- The updates of server/go/internal/store/passes.go and recordings.go on a table in order.
use project_dia.Prelude.{
  ℕ, ◌≡◌, ap, ◌∙◌, Bool, true, none, List, arith, ◌==◌, if◌then◌else◌, update, count_where,
}
use project_dia.Domain.{Uuid, Time, Pass, PassStatus, CancellationReason}
use project_dia.Errors.{not_found}
use project_dia.Store.World.{World, Db, Result, ok, err, refuse_if, pure, raise, settle}
use project_dia.Store.World.Laws.{NoFaults, wrote, statement_lem, bind_ok}
use project_dia.Store.Passes.{
  update_passes, approve_pass, reject_pass, cancel_pass, set_pass_outcome, checked, is_pending,
  is_cancellable, is_running, approve_row, reject_row, cancel_row,
}
use project_dia.Store.Passes.Table.{row_violation, IsValid-first_violation}
use project_dia.Store.Passes.Invariant.{
  InOrder, Succeeds, update-IsValid, approve-Succeeds, reject-Succeeds, cancel-Succeeds,
  outcome-Succeeds, IsOutcome,
}

-- The tables with the passes updated.
abbrev pub with_passes : Db → List Pass → Db
with_passes d rows = record d { passes = rows }

module _ (sel : Pass → Bool) (f : Pass → Pass)
    (moves : (p : Pass) → row_violation p ≡ none → sel p ≡ true → Succeeds p (f p)) where
  pub update_passes_lem :
      (w : World)
      → NoFaults w
      → InOrder w.db
      → update_passes sel f w
        ≡ (ok (count_where sel w.db.passes), wrote w (with_passes w.db (update sel f w.db.passes)))
  unfolding update_passes
  update_passes_lem w n v =
      statement_lem _ w n
      ∙ ap (settle w) (
          ap
            (λ o.
              checked o (count_where sel w.db.passes) (with_passes w.db (update sel f w.db.passes)))
            (IsValid-first_violation _ (update-IsValid sel f moves w.db.passes v)))

abbrev pub found_or_missing : ℕ → Result (Unit {0})
found_or_missing n = if n == 0 then err not_found else ok tt

refuse_missing : (n : ℕ) (w : World) → refuse_if (n == 0) not_found w ≡ (found_or_missing n, w)
unfolding refuse_if pure raise
refuse_missing n w = ground arith

-- An approval moves the pending pass and reports a missing row if there is none.
pub approve_pass_lem :
    (id by : Uuid) (at : Time) (w : World)
    → NoFaults w
    → InOrder w.db
    → approve_pass id by at w ≡ (
      found_or_missing (count_where (is_pending id) w.db.passes),
      wrote w (with_passes w.db (update (is_pending id) (approve_row by at) w.db.passes)),
    )
unfolding approve_pass
approve_pass_lem id by at w n v =
    bind_ok _ _ w _ _ (update_passes_lem _ _ (approve-Succeeds id by at) w n v) ∙ refuse_missing _ _

-- A rejection does the same with the status that it sets.
pub reject_pass_lem :
    (id by : Uuid) (at : Time) (w : World)
    → NoFaults w
    → InOrder w.db
    → reject_pass id by at w ≡ (
      found_or_missing (count_where (is_pending id) w.db.passes),
      wrote w (with_passes w.db (update (is_pending id) (reject_row by at) w.db.passes)),
    )
unfolding reject_pass
reject_pass_lem id by at w n v =
    bind_ok _ _ w _ _ (update_passes_lem _ _ (reject-Succeeds id by at) w n v) ∙ refuse_missing _ _

-- A cancellation takes a pending or an approved pass.
pub cancel_pass_lem :
    (id by : Uuid) (reason : CancellationReason) (at : Time) (w : World)
    → NoFaults w
    → InOrder w.db
    → cancel_pass id by reason at w ≡ (
      found_or_missing (count_where (is_cancellable id) w.db.passes),
      wrote w (with_passes w.db (update (is_cancellable id) (cancel_row by reason at) w.db.passes)),
    )
unfolding cancel_pass
cancel_pass_lem id by reason at w n v =
    bind_ok _ _ w _ _ (update_passes_lem _ _ (cancel-Succeeds id by reason at) w n v)
    ∙ refuse_missing _ _

-- An outcome takes an approved or an executing pass, and says whether there was one.
pub set_pass_outcome_lem :
    (id : Uuid) (status : PassStatus) (w : World)
    → IsOutcome status
    → NoFaults w
    → InOrder w.db
    → set_pass_outcome id status w ≡ (
      ok (count_where (is_running id) w.db.passes == 1),
      wrote w (
          with_passes w.db
            (update (is_running id) (λ p. record p { status = status }) w.db.passes)),
    )
unfolding set_pass_outcome pure
set_pass_outcome_lem id status w o n v =
    bind_ok _ _ w _ _ (update_passes_lem _ _ (λ p h e. outcome-Succeeds id p o h e) w n v)
