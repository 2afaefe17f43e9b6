-- ===== src/System/History.antt =====
-- The life of a pass over runs of server/go/internal/scheduling/service.go, against the transitions
-- of statemachine.go.
use mathlib.Core.Path.{subst}
use project_dia.Prelude.{
  ◌≡◌, refl, Bool, true, false, Option, none, some, List, [], ◌∷◌, arith, update, Bool-cases, inl,
  inr, All, ◌⊎◌,
}
use project_dia.Domain.{
  Uuid, Time, Pass, pending_approval, approved, rejected, cancelled, CancellationReason, status_eq,
}
use project_dia.Errors.{DbError}
use project_dia.Store.World.{World, Db, done}
use project_dia.Store.World.Moves.{IsPreorder, Moves, Moves-statement, moves_rules}
use project_dia.Store.Passes.{
  update_passes, create_pass_once, inserted, approve_pass, reject_pass, cancel_pass, checked,
  is_pending, is_cancellable, approve_row, reject_row, cancel_row,
}
use project_dia.Store.Passes.Steps.{Steps}
use project_dia.Scheduling.StateMachine.Graph.{◌⟶◌, approve, reject, withdraw, cancel}
use project_dia.Scheduling.Safety.{
  PlansMove, Moves-request_pass, Moves-override, Moves-decide, Moves-cancel,
  Moves-update_scheduling_config,
}
use project_dia.System.{
  Server, Call, requests, overrides, decides, cancels, configures, reports, step, run,
}

-- One change of a row, along the diagram of the statuses. A decision leaves the name and the time of
-- who decided, a cancellation its reason too, and nothing else of the row changes.
pub data Changes : Pass → Pass → Type 0 where
  approval_of :
      (p : Pass) (by : Uuid) (at : Time)
      → p.status ⟶ approved
      → Changes p (record p { status = approved; approved_by = some by; approved_at = some at })
  rejection_of :
      (p : Pass) (by : Uuid) (at : Time)
      → p.status ⟶ rejected
      → Changes p (record p { status = rejected; approved_by = some by; approved_at = some at })
  cancellation_of :
      (p : Pass) (by : Uuid) (reason : CancellationReason) (at : Time)
      → p.status ⟶ cancelled
      → Changes p (record p {
        status = cancelled;
        cancellation_reason = some reason;
        cancelled_by = some by;
        cancelled_at = some at;
      })

-- `q` is `p` at a later time.
pub data Later : Pass → Pass → Type 0 where
  same : {p : Pass} → Later p p
  after : {p q r : Pass} → Later p q → Changes q r → Later p r

-- A pass that nobody has decided on or cancelled.
pub record IsNew (p : Pass) : Type 0 where
  pub is_pending : p.status ≡ pending_approval
  pub no_decider : p.approved_by ≡ none
  pub no_decision : p.approved_at ≡ none
  pub no_reason : p.cancellation_reason ≡ none
  pub no_canceller : p.cancelled_by ≡ none
  pub no_cancellation : p.cancelled_at ≡ none

-- The table at a later time: the passes of before, moved on, among passes that began as new ones.
pub data Evolves : List Pass → List Pass → Type 0 where
  nil : Evolves [] []
  keep : {p q : Pass} {ps qs : List Pass} → Later p q → Evolves ps qs → Evolves (p ∷ ps) (q ∷ qs)
  add :
      {first q : Pass} {ps qs : List Pass}
      → IsNew first
      → Later first q
      → Evolves ps qs
      → Evolves ps (q ∷ qs)

Later-trans : {p q r : Pass} → Later p q → Later q r → Later p r
Later-trans a same = a
Later-trans a (after b s) = after (Later-trans a b) s

Evolves-refl : (ps : List Pass) → Evolves ps ps
Evolves-refl [] = nil
Evolves-refl (p ∷ ps) = keep same (Evolves-refl ps)

Evolves-trans : {ps qs rs : List Pass} → Evolves ps qs → Evolves qs rs → Evolves ps rs
Evolves-trans e nil = e
Evolves-trans e (add new c f) = add new c (Evolves-trans e f)
Evolves-trans (keep a e) (keep b f) = keep (Later-trans a b) (Evolves-trans e f)
Evolves-trans (add new c e) (keep b f) = add new (Later-trans c b) (Evolves-trans e f)

update-Evolves :
    (sel : Pass → Bool) (f : Pass → Pass)
    → ((p : Pass) → sel p ≡ true → Later p (f p))
    → (ps : List Pass) → Evolves ps (update sel f ps)
unfolding update
update-Evolves sel f h [] = nil
update-Evolves sel f h (p ∷ ps) = elim (Bool-cases (sel p)) [
  | inl e ↦ rw e (keep (h p e) (update-Evolves sel f h ps))
  | inr e ↦ rw e (keep same (update-Evolves sel f h ps))
]

abbrev pub Onward : Db → Db → Type 0
Onward c d = Evolves c.passes d.passes

Onward-pre : IsPreorder Onward
Onward-pre = record {
  refl_at = λ d. Evolves-refl d.passes;
  trans_at = λ c d e f g. Evolves-trans f g;
}

checked-Evolves {ℓ} :
    {A : Type ℓ} (a b : A) (ps rows : List Pass) (d e : Db) (o : Option DbError)
    → Evolves ps rows
    → checked o a (record d { passes = rows }) ≡ done b e
    → Evolves ps e.passes
checked-Evolves a b ps rows d e none v h =
    let same : rows ≡ e.passes = cc in subst (Evolves ps) same v
checked-Evolves a b ps rows d e (some x) v h = cc

update-moves :
    (sel : Pass → Bool) (f : Pass → Pass)
    → ((p : Pass) → sel p ≡ true → Later p (f p))
    → Moves Onward (update_passes sel f)
unfolding update_passes
update-moves sel f h =
    Moves-statement Onward-pre _
      λ u t d e n eq. checked-Evolves _ n d.passes _ d e _ (update-Evolves sel f h d.passes) eq

IsNew-row : (u : Uuid) (p : Pass) → p.status ≡ pending_approval → IsNew (inserted u p)
IsNew-row u p h = record {
  is_pending = h;
  no_decider = refl;
  no_decision = refl;
  no_reason = refl;
  no_canceller = refl;
  no_cancellation = refl;
}

create-moves : (p : Pass) → p.status ≡ pending_approval → Moves Onward (create_pass_once p)
unfolding create_pass_once
create-moves p h = Moves-statement Onward-pre _ λ u t d e n eq.
    checked-Evolves _ n d.passes _ d e _ (add (IsNew-row u p h) same (Evolves-refl d.passes)) eq

pending_of : (id : Uuid) (p : Pass) → is_pending id p ≡ true → p.status ≡ pending_approval
unfolding status_eq
pending_of id p h = ground arith

cancellable_of :
    (id : Uuid) (p : Pass)
    → is_cancellable id p ≡ true
    → (p.status ≡ pending_approval) ⊎ (p.status ≡ approved)
unfolding status_eq
cancellable_of id p h = ground arith

approve-moves : (id by : Uuid) (at : Time) → Moves Onward (approve_pass id by at)
unfolding approve_pass
approve-moves id by at = search (
  moves_rules,
  Onward-pre,
  update-moves (is_pending id) (approve_row by at)
      λ p h. after same (approval_of p by at (rw (pending_of id p h) approve)),
)

reject-moves : (id by : Uuid) (at : Time) → Moves Onward (reject_pass id by at)
unfolding reject_pass
reject-moves id by at = search (
  moves_rules,
  Onward-pre,
  update-moves (is_pending id) (reject_row by at)
      λ p h. after same (rejection_of p by at (rw (pending_of id p h) reject)),
)

cancel_edge : (id : Uuid) (p : Pass) → is_cancellable id p ≡ true → p.status ⟶ cancelled
cancel_edge id p h = elim (cancellable_of id p h) [ inl e ↦ rw e withdraw | inr e ↦ rw e cancel ]

cancel-moves :
    (id by : Uuid) (reason : CancellationReason) (at : Time)
    → Moves Onward (cancel_pass id by reason at)
unfolding cancel_pass
cancel-moves id by reason at = search (
  moves_rules,
  Onward-pre,
  update-moves (is_cancellable id) (cancel_row by reason at)
      λ p h. after same (cancellation_of p by reason at (cancel_edge id p h)),
)

pub Onward-steps : Steps Onward
Onward-steps = record {
  pre = Onward-pre;
  other = λ c d same _. subst (Evolves c.passes) same (Evolves-refl c.passes);
  create = create-moves;
  approve = approve-moves;
  reject = reject-moves;
  cancel = cancel-moves;
}

abbrev pub is_report : Call → Bool
is_report (reports rs) = true
is_report _ = false

step-Evolves :
    (s : Server) (w : World) (c : Call)
    → PlansMove Onward s.service.plans
    → is_report c ≡ false
    → Evolves w.db.passes (step s w c).db.passes
unfolding step
step-Evolves s w (requests actor input) h n =
    (Moves-request_pass Onward-steps s.service actor input).at w
step-Evolves s w (overrides actor input) h n =
    (Moves-override Onward-steps s.service actor input h).at w
step-Evolves s w (decides actor id d) h n = (Moves-decide Onward-steps s.service actor id d h).at w
step-Evolves s w (cancels actor id) h n = (Moves-cancel Onward-steps actor id).at w
step-Evolves s w (configures actor config) h n =
    (Moves-update_scheduling_config Onward-steps actor config).at w
step-Evolves s w (reports rs) h n = cc

pub run-Evolves :
    (s : Server) (w : World) (cs : List Call)
    → PlansMove Onward s.service.plans
    → All (λ c. is_report c ≡ false) cs
    → Evolves w.db.passes (run s w cs).db.passes
unfolding run
run-Evolves s w [] h n = Evolves-refl w.db.passes
run-Evolves s w (c ∷ cs) h n =
    Evolves-trans (step-Evolves s w c h n.0) (run-Evolves s (step s w c) cs h n.1)
