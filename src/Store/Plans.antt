-- ===== src/Store/Plans.antt =====
-- server/go/internal/store/passplans.go. The constraints on the text of a generation and on an empty
-- encoding, and the key into `passes`, are faults of the environment.
pub mod Laws
use project_dia.Prelude.{
  ◌&&◌, not, str_eq, Bool, true, false, Option, none, some, List, [], ◌∷◌, ◌==◌, ◌++◌, first,
  where_, if◌then◌else◌,
}
use project_dia.Prelude.Int.{leb_ℤ}
use project_dia.Domain.{Uuid, Time, Pass, approved, status_eq}
use project_dia.Store.World.{done, Action, StoredPassPlan, statement, query_row, query}
use project_dia.Store.Order.{order_by}

-- `INSERT … ON CONFLICT (pass_id) DO UPDATE … WHERE generation <> EXCLUDED.generation`, with
-- whether a row came back.
abbrev pub replace_all : StoredPassPlan → List StoredPassPlan → List StoredPassPlan
replace_all plan [] = []
replace_all plan (r ∷ rs) =
    if r.pass_id == plan.pass_id then plan ∷ replace_all plan rs else r ∷ replace_all plan rs

abbrev pub upsert_rows :
    StoredPassPlan → Option StoredPassPlan → List StoredPassPlan → Bool × List StoredPassPlan
upsert_rows plan none rows = (true, plan ∷ rows)
upsert_rows plan (some old) rows =
    if str_eq old.generation plan.generation then (false, rows) else (true, replace_all plan rows)

abbrev pub is_of : Uuid → StoredPassPlan → Bool
is_of pass r = r.pass_id == pass

unfoldable pub upsert_pass_plan : StoredPassPlan → Action Bool
upsert_pass_plan plan = statement λ _ _ db.
    let (changed, rows) = upsert_rows plan (first (is_of plan.pass_id) db.plans) db.plans in
    done changed (record db { plans = rows })

unfoldable pub get_pass_plan : Uuid → Action StoredPassPlan
get_pass_plan pass = query_row λ db. first (is_of pass) db.plans

-- The rows of the two tables that belong together, in the order of the passes.
abbrev pub plan_of : List StoredPassPlan → Pass → List StoredPassPlan
plan_of plans p = where_ (is_of p.id) plans

abbrev pub plans_of : List StoredPassPlan → List Pass → List StoredPassPlan
plans_of plans [] = []
plans_of plans (p ∷ ps) = plan_of plans p ++ plans_of plans ps

abbrev pub is_planned : Uuid → Time → Pass → Bool
is_planned station not_before p =
    p.station_id == station && status_eq p.status approved && leb_ℤ not_before p.los_at

unfoldable pub list_pass_plans_for_station : Uuid → Time → Action (List StoredPassPlan)
list_pass_plans_for_station station not_before = query λ db.
    plans_of db.plans (order_by (λ p. p.aos_at) (where_ (is_planned station not_before) db.passes))

unfoldable pub delete_pass_plan : Uuid → Action (Unit {0})
delete_pass_plan pass =
    statement λ _ _ db. done tt (record db { plans = where_ (λ r. not (is_of pass r)) db.plans })
