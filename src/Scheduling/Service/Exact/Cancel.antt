-- ===== src/Scheduling/Service/Exact/Cancel.antt =====
-- `Cancel` of server/go/internal/scheduling/service.go without faults of the environment.
use mathlib.Core.Option
use project_dia.Prelude.{
  sym, Option, Option-cases, not, ◌≡◌, refl, ap, ◌∙◌, Bool, true, false, none, some, if◌then◌else◌,
  ◌||◌, ◌⊎◌, inl, inr, update, count_where, first,
}
use project_dia.Domain.{Uuid, Time, User, Pass, pending_approval, approved, cancelled, status_eq}
use project_dia.Errors.{Error, not_found, forbidden, invalid_transition}
use project_dia.Store.World.{World, Action, ◌>>=◌, ◌>>◌, refuse_if, ok, err, pure, raise, advance}
use project_dia.Store.World.Laws.{
  NoFaults, wrote, bind_ok, bind_err, then_ok, found_row, missing_row, now_lem, not_refused,
}
use project_dia.Store.Passes.{get_pass_by_id, cancel_row, is_cancellable, cancel_pass}
use project_dia.Store.Passes.Invariant.{InOrder}
use project_dia.Store.Passes.Exact.{with_passes, found_or_missing, cancel_pass_lem}
use project_dia.Store.Passes.Rows.{has_id, changed, first-update, count-chosen, first-has_id}
use project_dia.Scheduling.StateMachine.{validate_transition, TransitionError}
use project_dia.Scheduling.Rules.{can_cancel_pass, cancellation_reason_for}
use project_dia.Scheduling.Service.{audit}
use project_dia.Scheduling.Service.Decisions.{cancel, refuse_transition}
use project_dia.Scheduling.Service.Exact.{audit_lem}

cancellable_allowed :
    (p : Pass)
    → (p.status ≡ pending_approval) ⊎ (p.status ≡ approved)
    → validate_transition p.status cancelled ≡ none
unfolding validate_transition
cancellable_allowed p (inl e) = rw e refl
cancellable_allowed p (inr e) = rw e refl

abbrev is_open : Pass → Bool
is_open p = status_eq p.status pending_approval || status_eq p.status approved

open_true : (p : Pass) → (p.status ≡ pending_approval) ⊎ (p.status ≡ approved) → is_open p ≡ true
unfolding status_eq
open_true p (inl e) = rw e refl
open_true p (inr e) = rw e refl

module _ (actor : User) (id : Uuid) (p : Pass) (w : World) (n : NoFaults w) (v : InOrder w.db)
    (found : first (has_id id) w.db.passes ≡ some p)
    (held : (p.status ≡ pending_approval) ⊎ (p.status ≡ approved)) where
  abbrev read_world : World
  read_world = wrote w w.db

  abbrev at_cancel : Time
  at_cancel = w.env.clock read_world.tick

  abbrev cancelled_row : Pass → Pass
  cancelled_row = cancel_row actor.id (cancellation_reason_for actor p) at_cancel

  abbrev cancelled_world : World
  cancelled_world =
      wrote (advance read_world)
        (with_passes w.db (update (is_cancellable id) cancelled_row w.db.passes))

  selected : count_where (is_cancellable id) w.db.passes ≡ 1
  selected = count-chosen id is_open w.db.passes v.1 ∙ rw (found, open_true p held) refl

  recorded :
      cancel_pass id actor.id (cancellation_reason_for actor p) at_cancel (advance read_world)
      ≡ (ok tt, cancelled_world)
  recorded =
      cancel_pass_lem id actor.id (cancellation_reason_for actor p) at_cancel (advance read_world) n
        v
      ∙ ap (λ k. (found_or_missing k, cancelled_world)) selected

  abbrev at_audit :
      (u : World) × (audit (some actor.id) "pass.cancelled" id cancelled_world ≡ (ok tt, u))
      × (u.env ≡ cancelled_world.env)
      × (u.db.passes ≡ cancelled_world.db.passes)
  at_audit = audit_lem (some actor.id) "pass.cancelled" id cancelled_world n

  row_changed : (if is_cancellable id p then cancelled_row p else p) ≡ cancelled_row p
  row_changed = rw (first-has_id id w.db.passes p found, open_true p held) refl

  found_after : first (has_id id) at_audit.0.db.passes ≡ some (cancelled_row p)
  found_after =
      ap (first (has_id id)) at_audit.3
      ∙ first-update id (is_cancellable id) cancelled_row (λ q. refl) w.db.passes
      ∙ ap (Option.map (changed id (is_cancellable id) cancelled_row (λ q. refl))) found
      ∙ ap some row_changed

  cancel_run :
      can_cancel_pass actor p ≡ true
      → cancel actor id w ≡ (ok (cancelled_row p), wrote at_audit.0 at_audit.0.db)
  unfolding cancel get_pass_by_id pure
  cancel_run can =
      bind_ok _ _ w _ p (found_row _ w p n found)
      ∙ then_ok _ _ read_world read_world tt (rw can (not_refused _ read_world))
      ∙ then_ok _ _ read_world read_world tt (rw (cancellable_allowed p held) refl)
      ∙ bind_ok _ _ _ _ _ (now_lem read_world)
      ∙ then_ok _ _ _ cancelled_world tt recorded
      ∙ then_ok _ _ _ at_audit.0 tt at_audit.1
      ∙ found_row _ at_audit.0 _ (λ k. ap (λ e. e.fault k) at_audit.2 ∙ n k) found_after

-- While no statement fails and the table of passes is in order, whoever may cancel a pass that is
-- pending or approved gets it cancelled, with the reason that the rules name, and the row that the
-- table holds for it is changed in that way alone.
pub cancel_open :
    (actor : User) (id : Uuid) (p : Pass) (w : World)
    → NoFaults w
    → InOrder w.db
    → can_cancel_pass actor p ≡ true
    → first (has_id id) w.db.passes ≡ some p
    → (p.status ≡ pending_approval) ⊎ (p.status ≡ approved)
    → (at : Time) × ((cancel actor id w).0
        ≡ ok (cancel_row actor.id (cancellation_reason_for actor p) at p))
      × ((cancel actor id w).1.db.passes
          ≡ update
              (is_cancellable id)
              (cancel_row actor.id (cancellation_reason_for actor p) at)
              w.db.passes)
cancel_open actor id p w n v can found held =
    let run = cancel_run actor id p w n v found held can in
    let entry = at_audit actor id p w n v found held in
    (
      at_cancel actor id p w n v found held,
      ap (λ r. r.0) run,
      ap (λ r. r.1.db.passes) run ∙ entry.3,
    )

-- Why a cancellation is refused, from the row that the table holds for the pass, if it holds one.
abbrev pub row_refusal : User → Pass → Option Error
row_refusal actor p =
    if can_cancel_pass actor p
    then Option.map invalid_transition (validate_transition p.status cancelled)
    else some forbidden

abbrev pub cancel_refusal : User → Option Pass → Option Error
cancel_refusal actor none = some not_found
cancel_refusal actor (some p) = row_refusal actor p

refuse_row :
    {A : Type 0} (can : Bool) (o : Option TransitionError) (w : World) (e : Error) (rest : Action A)
    → (if can then Option.map invalid_transition o else some forbidden) ≡ some e
    → (do refuse_if (not can) forbidden; refuse_transition o; rest) w ≡ (err e, w)
unfolding refuse_if pure raise ◌>>=◌ ◌>>◌
refuse_row false o w e rest h = cc
refuse_row true none w e rest h = cc
refuse_row true (some x) w e rest h = cc

-- While no statement fails, a missing pass, a caller without the right, and a status that cannot
-- become cancelled are refused with their error each, in this order, and the tables stay as they are.
pub cancel_refused :
    (actor : User) (id : Uuid) (w : World) (e : Error)
    → NoFaults w
    → cancel_refusal actor (first (has_id id) w.db.passes) ≡ some e
    → cancel actor id w ≡ (err e, wrote w w.db)
unfolding cancel get_pass_by_id
cancel_refused actor id w e n h = elim (Option-cases (first (has_id id) w.db.passes)) [
  | inl missing ↦
      let same : not_found ≡ e = cc in
      bind_err _ _ w _ not_found (missing_row _ w n missing) ∙ ap (λ x. (err x, wrote w w.db)) same
  | inr (p, found) ↦
      bind_ok _ _ w _ p (found_row _ w p n found)
      ∙ refuse_row (can_cancel_pass actor p) (validate_transition p.status cancelled) _ e _
          (sym (ap (cancel_refusal actor) found) ∙ h)
]
