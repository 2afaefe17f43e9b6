-- ===== src/Store/Passes/Steps.antt =====
-- Relations between tables and the actions of server/go/internal/store that are built from the
-- statements on passes.
use mathlib.Core.Path.{subst}
use project_dia.Prelude.{ℕ, zero, suc, ◌≡◌, refl, List, Bool-cases, inl, inr}
use project_dia.Domain.{
  Uuid, Time, Pass, PassStatus, pending_approval, CancellationReason, SchedulingConfig, AuditRecord,
}
use project_dia.Prelude.Int.{ltb_ℤ}
use project_dia.Errors.{Error, serialization, is_serialization}
use project_dia.Store.World.{Db, Effect, done, failed, statement}
use project_dia.Store.World.Moves.{
  IsPreorder, Moves, Moves-statement, Moves-query_row, Moves-query, Moves-raise, Moves-rescue,
  Moves-bind, Moves-if, Moves-context_ended?, moves_rules,
}
use project_dia.Store.Reads.{
  get_satellite_by_id, list_stations, latest_effective_scheduling_config, create_scheduling_config,
  latest_tle_record, get_station_worker, append_audit,
}
use project_dia.Store.Passes.{
  get_pass_by_id, create_pass_once, create_pass_attempts, create_pass, find_effect,
  find_conflicting_passes, approve_pass, reject_pass, cancel_pass,
}

-- What a relation must allow: statements on other tables, a new pending pass, and the updates.
pub record Steps {ℓ} (R : Db → Db → Type ℓ) : Type ℓ where
  pub pre : IsPreorder R
  pub other : (c d : Db) → c.passes ≡ d.passes → c.users ≡ d.users → R c d
  pub create : (p : Pass) → p.status ≡ pending_approval → Moves R (create_pass_once p)
  pub approve : (id by : Uuid) (at : Time) → Moves R (approve_pass id by at)
  pub reject : (id by : Uuid) (at : Time) → Moves R (reject_pass id by at)
  pub cancel :
      (id by : Uuid) (reason : CancellationReason) (at : Time)
      → Moves R (cancel_pass id by reason at)

-- A statement that leaves the passes and the users alone.
abbrev IsElsewhere {κ} : {A : Type κ} → Db → Effect A → Type 0
IsElsewhere d (done a e) = (d.passes ≡ e.passes) × (d.users ≡ e.users)
IsElsewhere d (failed f) = Unit

find-IsElsewhere :
    (station : Uuid) (from to : Time) (live : List PassStatus) (d : Db)
    → IsElsewhere d (find_effect station from to live d)
find-IsElsewhere station from to live d = elim (Bool-cases (ltb_ℤ to from)) [
  | inl e ↦ rw e tt
  | inr e ↦ rw e (refl, refl)
]

module _ {ℓ} {R : Db → Db → Type ℓ} (steps : Steps R) where
  abbrev pre : IsPreorder R
  pre = steps.pre

  pub Moves-get_pass_by_id : (id : Uuid) → Moves R (get_pass_by_id id)
  unfolding get_pass_by_id
  Moves-get_pass_by_id id = Moves-query_row pre _

  pub Moves-get_satellite_by_id : (id : Uuid) → Moves R (get_satellite_by_id id)
  unfolding get_satellite_by_id
  Moves-get_satellite_by_id id = Moves-query_row pre _

  pub Moves-list_stations : Moves R list_stations
  unfolding list_stations
  Moves-list_stations = Moves-query pre _

  pub Moves-latest_config :
      (station : Uuid) (at : Time) → Moves R (latest_effective_scheduling_config station at)
  unfolding latest_effective_scheduling_config
  Moves-latest_config station at = Moves-query_row pre _

  pub Moves-latest_tle_record : (id : Uuid) → Moves R (latest_tle_record id)
  unfolding latest_tle_record
  Moves-latest_tle_record id = Moves-query_row pre _

  pub Moves-get_station_worker : (id : Uuid) → Moves R (get_station_worker id)
  unfolding get_station_worker
  Moves-get_station_worker id = Moves-query_row pre _

  elsewhere-moves {κ} :
      {A : Type κ} (d e : Db) (a : A) (x : Effect A) → IsElsewhere d x → x ≡ done a e → R d e
  elsewhere-moves d e a (done b c) same h =
      let eq : c ≡ e = cc in subst (R d) eq (steps.other d c same.0 same.1)
  elsewhere-moves d e a (failed f) same h = cc

  pub Moves-elsewhere {κ} :
      {A : Type κ} (f : Uuid → Time → Db → Effect A)
      → ((u : Uuid) (t : Time) (d : Db) → IsElsewhere d (f u t d))
      → Moves R (statement f)
  Moves-elsewhere f h =
      Moves-statement pre f λ u t d e a eq. elsewhere-moves d e a (f u t d) (h u t d) eq

  pub Moves-append_audit : (r : AuditRecord) → Moves R (append_audit r)
  unfolding append_audit
  Moves-append_audit r = Moves-elsewhere _ λ u t d. (refl, refl)

  pub Moves-create_scheduling_config : (c : SchedulingConfig) → Moves R (create_scheduling_config c)
  unfolding create_scheduling_config
  Moves-create_scheduling_config c = Moves-elsewhere _ λ u t d. (refl, refl)

  pub Moves-find_conflicting_passes :
      (station : Uuid) (from to : Time) (live : List PassStatus)
      → Moves R (find_conflicting_passes station from to live)
  unfolding find_conflicting_passes
  Moves-find_conflicting_passes station from to live =
      Moves-elsewhere _ λ u t d. find-IsElsewhere station from to live d

  Moves-create_pass_attempts :
      (n : ℕ) (last : Error) (p : Pass)
      → p.status ≡ pending_approval
      → Moves R (create_pass_attempts n last p)
  unfolding create_pass_attempts
  Moves-create_pass_attempts zero last p h = Moves-raise pre last
  Moves-create_pass_attempts (suc n) last p h =
      let again = Moves-create_pass_attempts n in
      Moves-rescue pre _ _ (steps.create p h) λ e. elim (Bool-cases (is_serialization e)) [
        | inl q ↦ rw q (
            Moves-bind pre _ _ (Moves-context_ended? pre)
              (λ ended. Moves-if pre ended _ _ (Moves-raise pre _) (again e p h)))
        | inr q ↦ rw q (Moves-raise pre e)
      ]

  pub Moves-create_pass : (p : Pass) → p.status ≡ pending_approval → Moves R (create_pass p)
  unfolding create_pass
  Moves-create_pass p h = Moves-create_pass_attempts _ serialization p h

pub ruleset store_moves = (
  moves_rules, Moves-get_pass_by_id, Moves-get_satellite_by_id, Moves-list_stations,
  Moves-latest_config, Moves-latest_tle_record, Moves-get_station_worker, Moves-append_audit,
  Moves-create_scheduling_config, Moves-find_conflicting_passes, Moves-create_pass,
)
