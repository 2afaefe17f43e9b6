-- ===== src/WorkerApi/Reports/Laws.antt =====
-- Reports of executions and relations between tables.
use project_dia.Prelude.{
  ℕ, ◌+◌, ◌≡◌, refl, String, Bool, true, false, Option, none, some, List, [], ◌∷◌, arith,
}
use project_dia.Domain.{Uuid, PassStatus, completed, failed, missed}
use project_dia.Store.World.{Db}
use project_dia.Store.World.Moves.{
  Moves, Moves-pure, Moves-bind, Moves-then, Moves-rescue, Moves-raise, moves_rules,
}
use project_dia.Store.Passes.{set_pass_outcome}
use project_dia.Store.Passes.Invariant.{IsOutcome, is_completed, is_failed, is_missed}
use project_dia.Store.Passes.Steps.{Steps, Moves-append_audit}
use project_dia.WorkerApi.Reports.{
  ExecutionRecord, pass_status_for, audit_outcome, record_outcome, asked, report_one,
  report_records, report_executions,
}

-- A worker's report names one of the three outcomes.
pub pass_status_for-IsOutcome :
    (state : String) (status : PassStatus) → pass_status_for state ≡ some status → IsOutcome status
unfolding pass_status_for
pass_status_for-IsOutcome state completed h = is_completed
pass_status_for-IsOutcome state failed h = is_failed
pass_status_for-IsOutcome state missed h = is_missed
pass_status_for-IsOutcome state _ h = absurd (ground arith)

module _ {ℓ} {R : Db → Db → Type ℓ} (steps : Steps R)
    (outcome : (id : Uuid) (status : PassStatus)
      → IsOutcome status
      → Moves R (set_pass_outcome id status))
    (parse_uuid : String → Option Uuid) where
  Moves-audit_outcome :
      (b : Bool) (id : Uuid) (status : PassStatus) → Moves R (audit_outcome b id status)
  unfolding audit_outcome
  Moves-audit_outcome false id status = Moves-pure steps.pre tt
  Moves-audit_outcome true id status = search (moves_rules, steps.pre, Moves-append_audit steps)

  Moves-record_outcome :
      (id : Uuid) (status : PassStatus) → IsOutcome status → Moves R (record_outcome id status)
  unfolding record_outcome
  Moves-record_outcome id status h =
      Moves-bind steps.pre _ _
        (Moves-rescue steps.pre _ _ (outcome id status h) (λ e. Moves-raise steps.pre _))
        (λ changed. Moves-audit_outcome changed id status)

  Moves-report_one :
      (n : ℕ) (id : Option Uuid) (status : Option PassStatus)
      → ((s : PassStatus) → status ≡ some s → IsOutcome s)
      → Moves R (report_one parse_uuid n (asked parse_uuid id status))
  Moves-report_one n none none h = Moves-pure steps.pre n
  Moves-report_one n none (some s) h = Moves-pure steps.pre n
  Moves-report_one n (some id) none h = Moves-pure steps.pre n
  Moves-report_one n (some id) (some s) h =
      Moves-then steps.pre _ _ (Moves-record_outcome id s (h s refl)) (Moves-pure steps.pre (n + 1))

  Moves-report_records :
      (n : ℕ) (rs : List ExecutionRecord) → Moves R (report_records parse_uuid n rs)
  unfolding report_records
  Moves-report_records n [] = Moves-pure steps.pre n
  Moves-report_records n (r ∷ rs) =
      Moves-bind steps.pre _ _
        (Moves-report_one n (parse_uuid r.pass_id) (pass_status_for r.state)
          (pass_status_for-IsOutcome r.state))
        (λ m. Moves-report_records m rs)

  pub Moves-report_executions :
      (rs : List ExecutionRecord) → Moves R (report_executions parse_uuid rs)
  unfolding report_executions
  Moves-report_executions rs = search (moves_rules, steps.pre, Moves-report_records)
