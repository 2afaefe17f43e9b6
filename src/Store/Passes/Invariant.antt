-- ===== src/Store/Passes/Invariant.antt =====
-- The constraints of the table `passes` and the statements of server/go/internal/store that change
-- the table.
use mathlib.Core.Path.{subst}
use project_dia.Prelude.{
  ◌≡◌, refl, sym, ◌∙◌, Bool, true, false, ◌&&◌, Option, none, some, List, [], ◌∷◌, arith,
  if◌then◌else◌, update, All, Pairwise, Bool-cases, inl, inr,
}
use project_dia.Domain.{
  Uuid, Time, Pass, PassStatus, completed, failed, missed, CancellationReason, status_eq,
}
use project_dia.Errors.{DbError}
use project_dia.Store.World.{Db, done}
use project_dia.Store.Passes.Table.{
  row_violation, clash, reserves, first_violation, Apart, IsValid, first_violation-IsValid,
}
use project_dia.Store.Passes.{
  put_passes, checked, approve_row, reject_row, cancel_row, is_pending, is_cancellable, is_running,
}

-- What a row may not lose: who it is, what it reserves, and the checks. It may give up the station.
pub record Succeeds (p q : Pass) : Type 0 where
  pub same_id : q.id ≡ p.id
  pub same_station : q.station_id ≡ p.station_id
  pub same_from : q.reserved_from ≡ p.reserved_from
  pub same_to : q.reserved_to ≡ p.reserved_to
  pub no_new_hold : reserves q.status ≡ true → reserves p.status ≡ true
  pub in_order : row_violation q ≡ none

weaker_and :
    (a b c d x y : Bool)
    → (c ≡ true → a ≡ true)
    → (d ≡ true → b ≡ true)
    → (a && b && x && y) ≡ false
    → (c && d && x && y) ≡ false
weaker_and a b c d x y s t h = ground arith

Succeeds-clash :
    (p q p' q' : Pass) → Succeeds p p' → Succeeds q q' → clash p q ≡ false → clash p' q' ≡ false
unfolding clash
Succeeds-clash p q p' q' s t h =
    rw (s.same_station, t.same_station, s.same_from, s.same_to, t.same_from, t.same_to)
      (weaker_and (reserves p.status) (reserves q.status) _ _ _ _ s.no_new_hold t.no_new_hold h)

Succeeds-Apart : (p q p' q' : Pass) → Succeeds p p' → Succeeds q q' → Apart p q → Apart p' q'
Succeeds-Apart p q p' q' s t a =
    (λ e. a.0 (sym s.same_id ∙ e ∙ t.same_id), Succeeds-clash p q p' q' s t a.1)

module _ (sel : Pass → Bool) (f : Pass → Pass)
    (moves : (p : Pass) → row_violation p ≡ none → sel p ≡ true → Succeeds p (f p)) where
  updated : (p : Pass) → row_violation p ≡ none → Succeeds p (if sel p then f p else p)
  updated p h = elim (Bool-cases (sel p)) [
    | inl e ↦ rw e (moves p h e)
    | inr e ↦ rw e (record {
      same_id = refl;
      same_station = refl;
      same_from = refl;
      same_to = refl;
      no_new_hold = λ l. l;
      in_order = h;
    })
  ]

  update-rows :
      (ps : List Pass)
      → All (λ p. row_violation p ≡ none) ps
      → All (λ p. row_violation p ≡ none) (update sel f ps)
  unfolding update
  update-rows [] h = tt
  update-rows (p ∷ ps) h = ((updated p h.0).in_order, update-rows ps h.1)

  update-Apart :
      (p p' : Pass) (ps : List Pass)
      → Succeeds p p'
      → All (λ q. row_violation q ≡ none) ps
      → All (Apart p) ps
      → All (Apart p') (update sel f ps)
  unfolding update
  update-Apart p p' [] s h a = tt
  update-Apart p p' (q ∷ qs) s h a =
      (Succeeds-Apart p q p' _ s (updated q h.0) a.0, update-Apart p p' qs s h.1 a.1)

  update-pairs :
      (ps : List Pass)
      → All (λ p. row_violation p ≡ none) ps
      → Pairwise Apart ps
      → Pairwise Apart (update sel f ps)
  unfolding update
  update-pairs [] h a = tt
  update-pairs (p ∷ ps) h a = (update-Apart p _ ps (updated p h.0) h.1 a.0, update-pairs ps h.1 a.1)

  -- An update whose rows succeed the old ones keeps the table in order.
  pub update-IsValid : (ps : List Pass) → IsValid ps → IsValid (update sel f ps)
  update-IsValid ps v = (update-rows ps v.0, update-pairs ps v.0 v.1)

pub approve-Succeeds :
    (id by : Uuid) (at : Time) (p : Pass)
    → row_violation p ≡ none
    → is_pending id p ≡ true
    → Succeeds p (approve_row by at p)
unfolding row_violation status_eq
approve-Succeeds id by at p h e = ground arith

pub reject-Succeeds :
    (id by : Uuid) (at : Time) (p : Pass)
    → row_violation p ≡ none
    → is_pending id p ≡ true
    → Succeeds p (reject_row by at p)
unfolding row_violation status_eq
reject-Succeeds id by at p h e = ground arith

pub cancel-Succeeds :
    (id by : Uuid) (reason : CancellationReason) (at : Time) (p : Pass)
    → row_violation p ≡ none
    → is_cancellable id p ≡ true
    → Succeeds p (cancel_row by reason at p)
unfolding row_violation status_eq
cancel-Succeeds id by reason at p h e = ground arith

-- The outcomes that a worker may report.
pub data IsOutcome : PassStatus → Type 0 where
  is_completed : IsOutcome completed
  is_failed : IsOutcome failed
  is_missed : IsOutcome missed

pub outcome-Succeeds :
    (id : Uuid) {status : PassStatus} (p : Pass)
    → IsOutcome status
    → row_violation p ≡ none
    → is_running id p ≡ true
    → Succeeds p (record p { status = status })
unfolding row_violation status_eq
outcome-Succeeds id p is_completed h e = ground arith
outcome-Succeeds id p is_failed h e = ground arith
outcome-Succeeds id p is_missed h e = ground arith

-- The tables are in order.
abbrev pub InOrder : Db → Type 0
InOrder d = IsValid d.passes

checked-InOrder {ℓ} :
    {A : Type ℓ} (a b : A) (rows : List Pass) (d e : Db) (o : Option DbError)
    → first_violation rows ≡ o
    → checked o a (record d { passes = rows }) ≡ done b e
    → InOrder e
checked-InOrder a b rows d e none v h =
    let same : rows ≡ e.passes = cc in subst IsValid same (first_violation-IsValid rows v)
checked-InOrder a b rows d e (some x) v h = cc

-- Whatever a statement leaves in the table is in order.
pub put_passes-InOrder {ℓ} :
    {A : Type ℓ} (a b : A) (rows : List Pass) (d e : Db)
    → put_passes a rows d ≡ done b e
    → InOrder e
put_passes-InOrder a b rows d e h = checked-InOrder a b rows d e _ refl h
