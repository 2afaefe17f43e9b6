-- ===== src/Scheduling/Service/Hull.antt =====
-- The period that a refused booking names: `conflictFor` of server/go/internal/scheduling/service.go.
use project_dia.Prelude.{
  ◌≡◌, refl, ap, ◌∙◌, false, where_, List, [], ◌∷◌, All, arith, if◌then◌else◌,
}
use project_dia.Prelude.Int.{◌≤ℤ◌, ltb_ℤ}
use project_dia.Domain.{Time, Pass}
use project_dia.Errors.{Error, conflict}
use project_dia.Domain.{Uuid}
use project_dia.Store.World.{Db, done, World, ok, handle, settle, rescue, pure}
use project_dia.Store.World.Laws.{wrote, NoFaults, statement_lem, bind_ok}
use project_dia.Store.Order.{order_by}
use project_dia.Store.Order.Laws.{order_by-All}
use project_dia.Store.Passes.{find_effect, conflicts, find_conflicting_passes}
use project_dia.Scheduling.StateMachine.{live_statuses}
use project_dia.Scheduling.Rules.{Reservation, before}
use project_dia.Scheduling.Service.{conflict_for, widen, conflict_error}

-- A period that holds the reservations of all these passes.
abbrev pub Holds : Time → Time → List Pass → Type 0
Holds from to ps = All (λ p. (from ≤ℤ p.reserved_from) × (p.reserved_to ≤ℤ to)) ps

-- An error that names a period which begins by `from`, ends not before `to`, and holds these passes.
pub record Named (from to : Time) (ps : List Pass) (e : Error) : Type 0 where
  pub first_instant : Time
  pub last_instant : Time
  pub is_conflict : e ≡ conflict first_instant last_instant
  pub begins : first_instant ≤ℤ from
  pub ends : to ≤ℤ last_instant
  pub holds : Holds first_instant last_instant ps

abbrev least : Time → Time → Time
least a b = if before a b then a else b

abbrev most : Time → Time → Time
most a b = if before b a then a else b

least-le : (a b : Time) → (least a b ≤ℤ a) × (least a b ≤ℤ b)
least-le a b = ground arith

most-le : (a b : Time) → (a ≤ℤ most a b) × (b ≤ℤ most a b)
most-le a b = ground arith

le-trans : (a b c : Time) → a ≤ℤ b → b ≤ℤ c → a ≤ℤ c
le-trans a b c h k = omega arith

widen-Named : (from to : Time) (ps : List Pass) → Named from to ps (widen from to ps)
unfolding widen
widen-Named from to [] = record {
  first_instant = from;
  last_instant = to;
  is_conflict = refl;
  begins = omega arith;
  ends = omega arith;
  holds = tt;
}
widen-Named from to (p ∷ ps) =
    let rest = widen-Named (least p.reserved_from from) (most p.reserved_to to) ps in
    let low = least-le p.reserved_from from in
    let high = most-le p.reserved_to to in
    record {
      first_instant = rest.first_instant;
      last_instant = rest.last_instant;
      is_conflict = rest.is_conflict;
      begins = le-trans _ _ _ rest.begins low.1;
      ends = le-trans _ _ _ high.1 rest.ends;
      holds = ((le-trans _ _ _ rest.begins low.0, le-trans _ _ _ high.0 rest.ends), rest.holds);
    }

conflict_error-Named :
    (r : Reservation) (p : Pass) (ps : List Pass)
    → Named p.reserved_from p.reserved_to ps (conflict_error r (p ∷ ps))
conflict_error-Named r p ps = widen-Named p.reserved_from p.reserved_to ps

-- The answer names a period, and it holds these passes.
abbrev pub Answers : Error → List Pass → Type 0
Answers answer ps = (from : Time) × (to : Time) × (answer ≡ conflict from to) × Holds from to ps

conflict_error-Holds : (r : Reservation) (ps : List Pass) → Answers (conflict_error r ps) ps
conflict_error-Holds r [] = (r.from, r.to, refl, tt)
conflict_error-Holds r (p ∷ ps) =
    let rest = conflict_error-Named r p ps in
    (
      rest.first_instant,
      rest.last_instant,
      rest.is_conflict,
      ((rest.begins, rest.ends), rest.holds),
    )

pub found_rows :
    (station : Uuid) (r : Reservation) (w : World)
    → ltb_ℤ r.to r.from ≡ false
    → find_effect station r.from r.to live_statuses w.db
      ≡ done
          (order_by
            (λ p. p.reserved_from)
            (where_ (conflicts station r.from r.to live_statuses) w.db.passes))
          w.db
found_rows station r w ordered = rw ordered refl

-- The passes in the way of a reservation.
abbrev pub in_the_way : Db → Uuid → Reservation → List Pass
in_the_way d station r = where_ (conflicts station r.from r.to live_statuses) d.passes

pub conflict_for_lem :
    (station : Uuid) (r : Reservation) (w : World)
    → NoFaults w
    → ltb_ℤ r.to r.from ≡ false
    → conflict_for station r w ≡ (
      ok (conflict_error r (order_by (λ p. p.reserved_from) (in_the_way w.db station r))),
      wrote w w.db,
    )
unfolding conflict_for find_conflicting_passes rescue pure
conflict_for_lem station r w n ordered = ap (handle (λ _. pure (conflict r.from r.to))) (
    bind_ok _ (λ conflicts'. pure (conflict_error r conflicts')) w _ _
      (statement_lem _ w n ∙ ap (settle w) (found_rows station r w ordered)))

pub in_the_way-Answers :
    (station : Uuid) (r : Reservation) (d : Db)
    → Answers
        (conflict_error r (order_by (λ p. p.reserved_from) (in_the_way d station r)))
        (in_the_way d station r)
in_the_way-Answers station r d =
    let found = in_the_way d station r in
    let (from, to, names, holds) = conflict_error-Holds r (order_by (λ p. p.reserved_from) found) in
    (
      from,
      to,
      names,
      order_by-All (λ p. p.reserved_from) (λ p. (from ≤ℤ p.reserved_from) × (p.reserved_to ≤ℤ to))
          found holds,
    )
