-- ===== src/Scheduling/Service/Override.antt =====
-- A root override and a pass that is executing: `RequestPassWithRootOverride` of
-- server/go/internal/scheduling/service.go.
use mathlib.Core.Option
use mathlib.Core.Path.{subst}
use project_dia.Prelude.{
  ◌≡◌, refl, ap, ◌∙◌, ◌==◌, true, false, some, List, [], ◌∷◌, any, first, update, count_where,
  if◌then◌else◌, Bool-cases, inl, inr, arith,
}
use project_dia.Prelude.Int.{ltb_ℤ}
use project_dia.Domain.{Uuid, Time, User, Pass, executing, by_root_override, status_eq}
use project_dia.Errors.{Error, not_found}
use project_dia.Store.World.{
  World, Db, Action, Result, ok, err, in_tx, pooled, conclude, advance, settle,
}
use project_dia.Store.World.Laws.{
  NoFaults, wrote, bind_ok, bind_err, then_ok, then_err, statement_lem,
}
use project_dia.Store.Order.Laws.{order_by-any}
use project_dia.Store.Reads.{append_audit}
use project_dia.Store.Passes.{cancel_row, is_cancellable, find_conflicting_passes}
use project_dia.Store.Passes.Invariant.{InOrder, update-IsValid, cancel-Succeeds}
use project_dia.Store.Passes.Exact.{with_passes, cancel_pass_lem}
use project_dia.Store.Passes.Rows.{has_id, changed, first-update, count-chosen}
use project_dia.Scheduling.Rules.{Reservation}
use project_dia.Scheduling.Service.Hull.{in_the_way, found_rows}
use project_dia.Scheduling.Service.Booking.{cancel_conflicts, override_in_tx}

-- The period that a pass asks for.
abbrev pub reserved : Pass → Reservation
reserved p = record { from = p.reserved_from; to = p.reserved_to }

-- A pass of the table that is executing.
pub record Runs (x : Uuid) (w : World) : Type 0 where
  pub row : Pass
  pub is_row : first (has_id x) w.db.passes ≡ some row
  pub is_executing : row.status ≡ executing

abbrev cancelled_world : User → Time → Uuid → World → World
cancelled_world actor at id w = wrote w (
    with_passes w.db
      (update (is_cancellable id) (cancel_row actor.id by_root_override at) w.db.passes))

unchanged :
    (actor : User) (at : Time) (x id : Uuid) (p : Pass)
    → p.status ≡ executing
    → changed x (is_cancellable id) (cancel_row actor.id by_root_override at) (λ q. refl) p ≡ p
unfolding status_eq
unchanged actor at x id p e = rw (not_cancellable id p e) refl
  where
    not_cancellable : (i : Uuid) (q : Pass) → q.status ≡ executing → is_cancellable i q ≡ false
    not_cancellable i q h = ground arith

-- It stays what it is when any pass is cancelled.
still-Runs :
    (actor : User) (at : Time) (x id : Uuid) (w : World)
    → Runs x w
    → Runs x (cancelled_world actor at id w)
still-Runs actor at x id w r = record {
  row = r.row;
  is_row =
      first-update x (is_cancellable id) (cancel_row actor.id by_root_override at) (λ q. refl)
        w.db.passes
      ∙ ap
          (Option.map
            (changed x (is_cancellable id) (cancel_row actor.id by_root_override at) (λ q. refl)))
          r.is_row
      ∙ ap some (unchanged actor at x id r.row r.is_executing);
  is_executing = r.is_executing;
}

cancelled-InOrder :
    (actor : User) (at : Time) (id : Uuid) (w : World)
    → InOrder w.db
    → InOrder (cancelled_world actor at id w).db
cancelled-InOrder actor at id w v =
    update-IsValid _ _ (cancel-Succeeds id actor.id by_root_override at) w.db.passes v

-- It cannot be cancelled.
running_missing :
    (x : Uuid) (w : World)
    → InOrder w.db
    → Runs x w
    → count_where (is_cancellable x) w.db.passes ≡ 0
unfolding status_eq
running_missing x w v r = count-chosen x _ w.db.passes v.1 ∙ rw (r.is_row, r.is_executing) refl

-- The answer of a run, with the world that it leaves.
with_world {ℓ} :
    {A : Type ℓ} (m : Action A) (w : World) (r : Result A) → (m w).0 ≡ r → m w ≡ (r, (m w).1)
with_world m w r h = ap (λ x. (x, (m w).1)) h

same_id : (a b : Uuid) → (a == b) ≡ true → b ≡ a
same_id a b h = ground arith

pub conflicts_fail :
    (actor : User) (at : Time) (x : Uuid) (ps : List Pass) (w : World)
    → NoFaults w
    → InOrder w.db
    → Runs x w
    → any (has_id x) ps ≡ true
    → (cancel_conflicts actor at ps w).0 ≡ err not_found
unfolding cancel_conflicts append_audit
conflicts_fail actor at x [] w n v r h = cc
conflicts_fail actor at x (p ∷ ps) w n v r h =
    let run = cancel_pass_lem p.id actor.id by_root_override at w n v in
    let next = cancelled_world actor at p.id w in
    elim (Bool-cases (count_where (is_cancellable p.id) w.db.passes == 0)) [
      | inl missing ↦
          ap (λ y. y.0)
            (then_err _ _ w next not_found
              (run ∙ ap (λ b. ((if b then err not_found else ok tt), next)) missing))
      | inr found ↦ elim (Bool-cases (p.id == x)) [
        | inl e ↦
            let own : Runs p.id w = subst (λ y. Runs y w) (same_id p.id x e) r in
            let none_left : (count_where (is_cancellable p.id) w.db.passes == 0) ≡ true =
              ap (λ k. k == 0) (running_missing p.id w v own) in
            cc
        | inr e ↦
            ap (λ y. y.0)
              (then_ok _ _ w next tt
                  (run ∙ ap (λ b. ((if b then err not_found else ok tt), next)) found)
                ∙ then_ok _ _ next _ _ (statement_lem _ next n)
                ∙ bind_err _ _ _ _ not_found (
                    with_world (cancel_conflicts actor at ps) _ _ (
                      conflicts_fail actor at x ps _ n (cancelled-InOrder actor at p.id w v)
                        (record {
                          row = (still-Runs actor at x p.id w r).row;
                          is_row = (still-Runs actor at x p.id w r).is_row;
                          is_executing = (still-Runs actor at x p.id w r).is_executing;
                        })
                        (ground (arith, h, e)))))
      ]
    ]

override_fails :
    (actor : User) (at : Time) (pass : Pass) (x : Uuid) (w : World)
    → NoFaults w
    → InOrder w.db
    → Runs x w
    → ltb_ℤ pass.reserved_to pass.reserved_from ≡ false
    → any (has_id x) (in_the_way w.db pass.station_id (reserved pass)) ≡ true
    → (override_in_tx actor at pass w).0 ≡ err not_found
unfolding override_in_tx find_conflicting_passes
override_fails actor at pass x w n v r ordered taken =
    ap (λ y. y.0)
      (bind_ok _ _ w (wrote w w.db) _ (
          statement_lem _ w n
          ∙ ap (settle w) (found_rows pass.station_id (reserved pass) w ordered))
        ∙ bind_err _ _ (wrote w w.db) _ not_found (
            with_world (cancel_conflicts actor at _) _ _ (
              conflicts_fail actor at x _ (wrote w w.db) n v
                (record { row = r.row; is_row = r.is_row; is_executing = r.is_executing })
                (order_by-any (λ p. p.reserved_from) (has_id x) _ ∙ taken))))

undone_by :
    {A : Type 0} (old : Db) (r : Result A) (v : World) (e : Error)
    → r ≡ err e
    → ((conclude old (r, v)).0 ≡ err e) × ((conclude old (r, v)).1.db ≡ old)
undone_by old (ok a) v e h = cc
undone_by old (err d) v e h = (h, refl)

-- A root override cannot push aside a pass that is executing: if one stands in the way, the
-- transaction fails, for it finds no pass to cancel, and it leaves the tables as they were.
pub override-executing :
    (actor : User) (at : Time) (pass : Pass) (x : Uuid) (w : World)
    → NoFaults w
    → InOrder w.db
    → Runs x w
    → ltb_ℤ pass.reserved_to pass.reserved_from ≡ false
    → any (has_id x) (in_the_way w.db pass.station_id (reserved pass)) ≡ true
    → ((in_tx pooled (λ _. override_in_tx actor at pass) w).0 ≡ err not_found)
      × ((in_tx pooled (λ _. override_in_tx actor at pass) w).1.db ≡ w.db)
unfolding in_tx
override-executing actor at pass x w n v r ordered taken =
    let body = override_in_tx actor at pass (advance w) in
    rw (n w.tick) (
      undone_by w.db body.0 body.1 not_found (
        override_fails actor at pass x (advance w) n v
          (record { row = r.row; is_row = r.is_row; is_executing = r.is_executing }) ordered taken))
