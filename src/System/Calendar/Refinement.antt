-- ===== src/System/Calendar/Refinement.antt =====
-- The statements on passes as steps of the calendar.
use mathlib.Core.Path.{subst}
use project_dia.Prelude.{
  ◌≡◌, refl, ap, Bool, true, false, Option, none, some, List, [], ◌∷◌, All, update, if◌then◌else◌,
  arith,
}
use project_dia.Domain.{Uuid, Time, Pass, PassStatus, CancellationReason, status_eq}
use project_dia.Errors.{DbError}
use project_dia.Store.World.{Db, done}
use project_dia.Store.World.Moves.{IsPreorder, Moves, Moves-statement, Moves-bind, Moves-refuse_if}
use project_dia.Store.Passes.{
  checked, put_passes, update_passes, create_pass_once, approve_pass, reject_pass, cancel_pass,
  inserted, is_pending, is_cancellable, approve_row, reject_row, cancel_row,
}
use project_dia.Store.Passes.Table.{first_violation, first_violation-IsValid}
use project_dia.Store.Passes.Steps.{Steps}
use project_dia.Store.Users.{forget_in_pass}
use project_dia.Store.Users.Root.{UserSteps}
use project_dia.Store.Users.Bookings.{booking_users}
use project_dia.Scheduling.StateMachine.{holds_station_resource}
use project_dia.System.Safety.{NotDoubleBooked, Apart-NotDoubleBooked-All}
use project_dia.System.Calendar.{
  Booking, Calendar, IsClear, Keeps, nothing, kept, released, books, releases, Runs, stays, steps,
  booking_of, with_booking, calendar_of,
}

Runs-trans : (c d e : Calendar) → Runs c d → Runs d e → Runs c e
Runs-trans c d e r stays = r
Runs-trans c d e r (steps q s) = steps (Runs-trans c _ _ r q) s

-- The calendar of the tables makes steps.
abbrev pub Follows : Db → Db → Type 0
Follows d e = Runs (calendar_of d.passes) (calendar_of e.passes)

pub Follows-IsPreorder : IsPreorder Follows
Follows-IsPreorder = record { refl_at = λ d. stays; trans_at = λ c d e. Runs-trans _ _ _ }

pub Follows-same : (c d : Db) → c.passes ≡ d.passes → Follows c d
Follows-same c d same = subst (λ ps. Runs (calendar_of c.passes) (calendar_of ps)) same stays

checked_inv :
    {A : Type 0} (o : Option DbError) (a b : A) (d e : Db)
    → checked o a d ≡ done b e
    → (o ≡ none) × (d ≡ e)
checked_inv none a b d e h = (refl, cc)
checked_inv (some f) a b d e h = cc

false_not_true : ¬ (false ≡ true)
false_not_true h = cc

with_booking-Keeps :
    (before after : Bool) (b b' : Booking) (c d : Calendar)
    → b ≡ b'
    → (after ≡ true → before ≡ true)
    → Keeps c d
    → Keeps (with_booking before b c) (with_booking after b' d)
with_booking-Keeps true true b b' c d same held k = subst (λ x. Keeps (b ∷ c) (x ∷ d)) same (kept k)
with_booking-Keeps true false b b' c d same held k = released k
with_booking-Keeps false true b b' c d same held k = absurd (false_not_true (held refl))
with_booking-Keeps false false b b' c d same held k = k

-- A change of a row that moves no reservation and begins no hold.
pub record IsTame (p q : Pass) : Type 0 where
  pub same : booking_of p ≡ booking_of q
  pub held : holds_station_resource q.status ≡ true → holds_station_resource p.status ≡ true

module _ (sel : Pass → Bool) (f : Pass → Pass)
    (tame : (p : Pass) → sel p ≡ true → IsTame p (f p)) where
  chosen : (p : Pass) (b : Bool) → sel p ≡ b → IsTame p (if b then f p else p)
  chosen p true h = tame p h
  chosen p false h = record { same = refl; held = λ x. x }

  pub update-Keeps : (ps : List Pass) → Keeps (calendar_of ps) (calendar_of (update sel f ps))
  unfolding calendar_of update
  update-Keeps [] = nothing
  update-Keeps (p ∷ ps) =
      let one = chosen p (sel p) refl in
      with_booking-Keeps _ _ _ _ _ _ one.same one.held (update-Keeps ps)

  pub Follows-put :
      {A : Type 0} (a b : A) (c d e : Db)
      → c.passes ≡ d.passes
      → put_passes a (update sel f c.passes) d ≡ done b e
      → Follows c e
  Follows-put a b c d e same h =
      let (_, end) = checked_inv _ a b _ e h in
      subst (λ ps. Runs (calendar_of c.passes) (calendar_of ps)) (ap (λ x. x.passes) end)
        (steps stays (releases (update-Keeps c.passes)))

  pub Moves-update : Moves Follows (update_passes sel f)
  unfolding update_passes
  Moves-update = Moves-statement Follows-IsPreorder _ λ u t d e n h. Follows-put _ n d d e refl h

with_booking-IsClear :
    (b : Booking) (held : Bool) (c : Booking) (rest : Calendar)
    → (held ≡ true → IsClear b c)
    → All (IsClear b) rest
    → All (IsClear b) (with_booking held c rest)
with_booking-IsClear b true c rest clear free = (clear refl, free)
with_booking-IsClear b false c rest clear free = free

calendar_of-IsClear :
    (p : Pass) (ps : List Pass)
    → holds_station_resource p.status ≡ true
    → All (NotDoubleBooked p) ps
    → All (IsClear (booking_of p)) (calendar_of ps)
unfolding calendar_of
calendar_of-IsClear p [] h free = tt
calendar_of-IsClear p (q ∷ ps) h free =
    with_booking-IsClear (booking_of p) (holds_station_resource q.status) (booking_of q)
      (calendar_of ps) (λ k station. free.0 station h k) (calendar_of-IsClear p ps h free.1)

created_calendar :
    (p : Pass) (ps : List Pass)
    → first_violation (p ∷ ps) ≡ none
    → Runs (calendar_of ps) (calendar_of (p ∷ ps))
unfolding calendar_of
created_calendar p ps h = go (holds_station_resource p.status) refl
  where
    go :
        (b : Bool)
        → holds_station_resource p.status ≡ b
        → Runs (calendar_of ps) (with_booking b (booking_of p) (calendar_of ps))
    go true k =
        let apart = (first_violation-IsValid (p ∷ ps) h).1.0 in
        steps stays (books (calendar_of-IsClear p ps k (Apart-NotDoubleBooked-All p ps apart)))
    go false k = stays

Moves-create_pass_once : (p : Pass) → Moves Follows (create_pass_once p)
unfolding create_pass_once
Moves-create_pass_once p = Moves-statement Follows-IsPreorder _ λ u t d e q h.
    let (valid, end) = checked_inv _ (inserted u p) q _ e h in
    subst (λ ps. Runs (calendar_of d.passes) (calendar_of ps)) (ap (λ x. x.passes) end)
      (created_calendar (inserted u p) d.passes valid)

pending_holds :
    (s : PassStatus)
    → status_eq s PassStatus.pending_approval ≡ true
    → holds_station_resource s ≡ true
unfolding holds_station_resource status_eq
pending_holds s h = ground (arith, h)

Moves-approve_pass : (id by : Uuid) (at : Time) → Moves Follows (approve_pass id by at)
unfolding approve_pass
Moves-approve_pass id by at =
    Moves-bind Follows-IsPreorder _ _
      (Moves-update (is_pending id) (approve_row by at)
        λ p h. record { same = refl; held = λ _. pending_holds p.status (ground (arith, h)) })
      (λ n. Moves-refuse_if Follows-IsPreorder _ _)

Moves-reject_pass : (id by : Uuid) (at : Time) → Moves Follows (reject_pass id by at)
unfolding reject_pass holds_station_resource status_eq
Moves-reject_pass id by at =
    Moves-bind Follows-IsPreorder _ _
      (Moves-update (is_pending id) (reject_row by at)
        λ p h. record { same = refl; held = λ x. absurd (false_not_true x) })
      (λ n. Moves-refuse_if Follows-IsPreorder _ _)

Moves-cancel_pass :
    (id by : Uuid) (reason : CancellationReason) (at : Time)
    → Moves Follows (cancel_pass id by reason at)
unfolding cancel_pass holds_station_resource status_eq
Moves-cancel_pass id by reason at =
    Moves-bind Follows-IsPreorder _ _
      (Moves-update (is_cancellable id) (cancel_row by reason at)
        λ p h. record { same = refl; held = λ x. absurd (false_not_true x) })
      (λ n. Moves-refuse_if Follows-IsPreorder _ _)

pub calendar_steps : Steps Follows
calendar_steps = record {
  pre = Follows-IsPreorder;
  other = λ c d same _. Follows-same c d same;
  create = λ p _. Moves-create_pass_once p;
  approve = Moves-approve_pass;
  reject = Moves-reject_pass;
  cancel = Moves-cancel_pass;
}

pub calendar_users : UserSteps Follows
calendar_users = booking_users Follows-IsPreorder Follows-same λ id n m c d put.
    Follows-put (λ _. true) (forget_in_pass id) (λ p _. record { same = refl; held = λ x. x }) n m c
      _ d refl put
