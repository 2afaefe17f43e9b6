-- ===== src/Scheduling/Service/Outcome.antt =====
-- How `RequestPass` of server/go/internal/scheduling/service.go ends.
use project_dia.Prelude.{arith, any, ◌≡◌, refl, ap, ◌∙◌, true, false, none, some, List, ◌∷◌, ◌==◌}
use project_dia.Prelude.Int.{ltb_ℤ}
use project_dia.Domain.{Time, User, Pass}
use project_dia.Errors.{translate, pg, overlap_constraint_name, station_overlap, conflict}
use project_dia.Store.World.{World, err, handle, settle, raise, rescue, advance}
use project_dia.Store.World.Laws.{NoFaults, wrote, bind_ok, bind_err, statement_lem}
use project_dia.Store.Passes.{
  inserted, create_pass, create_pass_once, create_pass_attempts, checked,
}
use project_dia.Store.Passes.Table.{first_violation, row_violation, clash}
use project_dia.Store.Passes.Exact.{with_passes}
use project_dia.Scheduling.Rules.{reservation_for}
use project_dia.Scheduling.Service.{conflict_for, Service, RequestInput}
use project_dia.Scheduling.Service.Booking.{request_pass}
use project_dia.Scheduling.Service.Requests.{Bookable, at_insert, row_of, request_pass-finish}
use project_dia.Scheduling.Service.Hull.{Holds, in_the_way, conflict_for_lem, in_the_way-Answers}

taken-first_violation :
    (p : Pass) (ps : List Pass)
    → row_violation p ≡ none
    → any (λ q. p.id == q.id) ps ≡ false
    → any (clash p) ps ≡ true
    → first_violation (p ∷ ps) ≡ some (pg overlap_constraint_name "23P01")
unfolding first_violation
taken-first_violation p ps h f c = rw (h, f, c) refl

create_pass-taken :
    (p : Pass) (w : World)
    → NoFaults w
    → first_violation (inserted (w.env.uuid w.tick) p ∷ w.db.passes)
      ≡ some (pg overlap_constraint_name "23P01")
    → create_pass p w ≡ (err station_overlap, advance w)
unfolding create_pass create_pass_attempts create_pass_once rescue raise translate
create_pass-taken p w n v = ap (handle _) (
    statement_lem _ w n
    ∙ ap
        (λ o. settle w (
          checked o (inserted (w.env.uuid w.tick) p)
            (with_passes w.db (inserted (w.env.uuid w.tick) p ∷ w.db.passes))))
        v)

row-ordered : (p : Pass) → row_violation p ≡ none → ltb_ℤ p.reserved_to p.reserved_from ≡ false
unfolding row_violation
row-ordered p h = ground arith

-- If no statement fails, a request that passes every check, whose row is in order and has an unused
-- identifier but whose reservation clashes with another one is refused with a period that holds the
-- reservations of all live passes in its way, and the tables stay as they are.
pub request_pass_taken :
    (s : Service) (actor : User) (input : RequestInput) (w : World) (b : Bookable s input w)
    → NoFaults w
    → row_violation (row_of s actor input w b) ≡ none
    → any (λ q. (row_of s actor input w b).id == q.id) w.db.passes ≡ false
    → any (clash (row_of s actor input w b)) w.db.passes ≡ true
    → (from : Time) × (to : Time) × ((request_pass s actor input w).0 ≡ err (conflict from to))
      × Holds from to
          (in_the_way w.db b.station.id (reservation_for b.predicted.aos b.predicted.los b.config))
      × ((request_pass s actor input w).1.db ≡ w.db)
unfolding rescue raise
request_pass_taken s actor input w b n good fresh taken =
    let row = row_of s actor input w b in
    let r = reservation_for b.predicted.aos b.predicted.los b.config in
    let w9 = advance (at_insert w) in
    let (from, to, names, holds) = in_the_way-Answers b.station.id r w.db in
    let ordered = row-ordered row good in
    let refused =
      bind_ok (conflict_for b.station.id r) (λ e. raise {A = Pass} e) w9 (wrote w9 w.db) _
        (conflict_for_lem b.station.id r w9 n ordered) in
    let whole =
      request_pass-finish s actor input w b n
      ∙ bind_err _ _ (at_insert w) (wrote w9 w.db) _ (
          ap (handle _) (
            create_pass-taken _ (at_insert w) n
              (taken-first_violation row w.db.passes good fresh taken))
          ∙ refused) in
    (from, to, ap (λ x. x.0) whole ∙ ap err names, holds, ap (λ x. x.1.db) whole)
