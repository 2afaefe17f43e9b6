-- ===== src/Store/Plans/Laws.antt =====
-- The table of plans after `UpsertPassPlan` of server/go/internal/store/passplans.go.
use mathlib.Core.Path.{subst}
use project_dia.Prelude.{
  ◌≡◌, String, sym, refl, true, false, Option, none, some, List, [], ◌∷◌, ◌==◌, first, str_eq,
  eq_iff, arith, Bool-cases, inl, inr,
}
use project_dia.Domain.{Uuid}
use project_dia.Store.World.{World, StoredPassPlan}
use project_dia.Store.World.Laws.{NoFaults, statement_lem}
use project_dia.Store.Plans.{replace_all, upsert_rows, is_of, upsert_pass_plan}

replaced-first :
    (plan old : StoredPassPlan) (rows : List StoredPassPlan)
    → first (is_of plan.pass_id) rows ≡ some old
    → first (is_of plan.pass_id) (replace_all plan rows) ≡ some plan
unfolding first
replaced-first plan old [] h = cc
replaced-first plan old (r ∷ rs) h = elim (Bool-cases (r.pass_id == plan.pass_id)) [
  | inl e ↦ ground (arith, e)
  | inr e ↦ rw e (rw e (replaced-first plan old rs (ground (arith, h, e))))
]

replaced-other :
    (plan : StoredPassPlan) (q : Uuid) (rows : List StoredPassPlan)
    → (plan.pass_id == q) ≡ false
    → first (is_of q) (replace_all plan rows) ≡ first (is_of q) rows
unfolding first
replaced-other plan q [] h = refl
replaced-other plan q (r ∷ rs) h = ground (arith, replaced-other plan q rs h, h)

-- A table of plans after a plan was stored: it holds a row of that pass with that generation, and of
-- another pass what it held before.
pub record Stored (plan : StoredPassPlan) (q : Uuid) (old new : List StoredPassPlan) : Type 0 where
  pub row : StoredPassPlan
  pub is_row : first (is_of plan.pass_id) new ≡ some row
  pub same_generation : row.generation ≡ plan.generation
  pub same_other : first (is_of q) new ≡ first (is_of q) old

rows-Stored :
    (plan : StoredPassPlan) (q : Uuid) (rows : List StoredPassPlan) (o : Option StoredPassPlan)
    → (plan.pass_id == q) ≡ false
    → first (is_of plan.pass_id) rows ≡ o
    → Stored plan q rows (upsert_rows plan o rows).1
unfolding first
rows-Stored plan q rows none h found = record {
  row = plan;
  is_row = ground arith;
  same_generation = refl;
  same_other = rw h refl;
}
rows-Stored plan q rows (some old) h found =
    elim (Bool-cases (str_eq old.generation plan.generation)) [
      | inl e ↦ rw e (record {
        row = old;
        is_row = found;
        same_generation = same_text old.generation plan.generation e;
        same_other = refl;
      })
      | inr e ↦ rw e (record {
        row = plan;
        is_row = replaced-first plan old rows found;
        same_generation = refl;
        same_other = replaced-other plan q rows h;
      })
    ]
  where
    same_text : (s t : String) → str_eq s t ≡ true → s ≡ t
    same_text s t k = ground (arith, eq_iff s t, k)

-- Storing a plan leaves a row of its pass with its generation, be it the row of before or the new one,
-- and does not touch the row of any other pass.
pub upsert_pass_plan-Stored :
    (plan : StoredPassPlan) (q : Uuid) (w : World)
    → NoFaults w
    → (plan.pass_id == q) ≡ false
    → Stored plan q w.db.plans (upsert_pass_plan plan w).1.db.plans
unfolding upsert_pass_plan
upsert_pass_plan-Stored plan q w n h =
    subst (λ r. Stored plan q w.db.plans r.1.db.plans) (sym (statement_lem _ w n))
      (rows-Stored plan q w.db.plans (first (is_of plan.pass_id) w.db.plans) h refl)
