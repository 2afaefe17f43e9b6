-- ===== src/WorkerApi/Sync/Laws.antt =====
-- The monitor of silent workers (server/go/internal/workerapi/sync.go) and the scheduler.
use mathlib.Core.Option
use mathlib.Core.Path.{subst}
use project_dia.Prelude.{
  ◌≡◌, refl, sym, ap, ◌∙◌, ◌↔◌, ◌⊎◌, none, not, ◌&&◌, Bool, true, false, Option, some, List, [],
  ◌∷◌, String, where_, update, ◌==◌, if◌then◌else◌, Bool-cases, inl, inr, arith,
}
use project_dia.Prelude.Int.{pos, pos_part, neg_part, ◌-ℤ◌, ◌+ℤ◌, ◌≤ℤ◌, -ℤ_parts, +ℤ_parts}
use project_dia.Domain.{Uuid, Time, Worker, Entity, online, state_eq}
use project_dia.Errors.{worker_offline}
use project_dia.Store.World.{
  World, Db, Action, Result, ok, err, handle, pure, raise, rescue, advance, refuse_if, ◌>>◌,
}
use project_dia.Store.World.Laws.{
  NoFaults, wrote, statement_lem, bind_ok, then_ok, found_row, now_lem,
}
use project_dia.Store.Order.{latest}
use project_dia.Store.Reads.{append_audit, get_station_worker, worker_older}
use project_dia.Store.Workers.{is_stale, gone, not_seen_since, mark_stale_workers_offline}
use project_dia.Store.Workers.Laws.{replaced, where-update, latest-update}
use project_dia.Scheduling.Service.{require_worker_online}
use project_dia.WorkerApi.Sync.{stale_after, audit_worker, audit_all, monitor_tick}

-- A run that returns `a`, keeps the environment and leaves these workers.
abbrev pub Leaves {ℓ} : {A : Type ℓ} → Action A → World → A → List Worker → Type ℓ
Leaves m w a workers =
    (v : World) × (m w ≡ (ok a, v))
    × (v.env ≡ w.env)
    × (v.db.workers ≡ workers)
    × (v.db.plans ≡ w.db.plans)
    × (v.db.passes ≡ w.db.passes)

pub audit_worker_lem :
    (action : String) (e : Entity) (w : World)
    → NoFaults w
    → Leaves (audit_worker action e) w tt w.db.workers
unfolding audit_worker append_audit rescue pure
audit_worker_lem action e w n = (
  _,
  ap (handle (λ _. pure tt)) (then_ok _ (pure tt) w _ _ (statement_lem _ w n)),
  refl,
  refl,
  refl,
  refl,
)

audit_all_lem :
    (names : List String) (w : World) → NoFaults w → Leaves (audit_all names) w tt w.db.workers
unfolding audit_all pure
audit_all_lem [] w n = (w, refl, refl, refl, refl, refl)
audit_all_lem (name ∷ names) w n =
    let (u, run, env, rows, plans, passes) = audit_worker_lem "worker.offline" _ w n in
    let (v, run', env', rows', plans', passes') =
      audit_all_lem names u (λ k. ap (λ e. e.fault k) env ∙ n k) in
    (v, then_ok _ _ w u tt run ∙ run', env' ∙ env, rows' ∙ rows, plans' ∙ plans, passes' ∙ passes)

abbrev cutoff_at : World → Time
cutoff_at w = w.env.clock w.tick -ℤ stale_after

monitor_tick_lem :
    (w : World)
    → NoFaults w
    → Leaves monitor_tick w tt (update (is_stale (cutoff_at w)) gone w.db.workers)
unfolding monitor_tick mark_stale_workers_offline rescue pure
monitor_tick_lem w n =
    let marked = statement_lem _ (advance w) n in
    let (v, run, env, rows, plans, passes) = audit_all_lem _ (wrote (advance w) _) n in
    (
      v,
      bind_ok _ _ w _ _ (now_lem w)
          ∙ bind_ok _ _ (advance w) _ _ (ap (handle (λ _. pure [])) marked)
          ∙ run,
      env,
      rows,
      plans,
      passes,
    )

-- The worker that the scheduler asks for a station.
abbrev station_worker : Db → Uuid → Option Worker
station_worker d s = latest worker_older (where_ (λ w. w.station_id == s) d.workers)

after_update :
    (cutoff : Time) (s : Uuid) (ws : List Worker)
    → latest worker_older (where_ (λ w. w.station_id == s) (update (is_stale cutoff) gone ws))
      ≡ Option.map
          (replaced (is_stale cutoff) gone)
          (latest worker_older (where_ (λ w. w.station_id == s) ws))
after_update cutoff s ws =
    ap (latest worker_older) (where-update (is_stale cutoff) gone _ (λ w. refl) ws)
    ∙ latest-update (is_stale cutoff) gone worker_older (older_same cutoff) _
  where
    created_same :
        (c : Time) (a : Worker) → (replaced (is_stale c) gone a).created_at ≡ a.created_at
    created_same c a = elim (Bool-cases (is_stale c a)) [ inl e ↦ rw e refl | inr e ↦ rw e refl ]

    older_same :
        (c : Time) (a b : Worker)
        → worker_older (replaced (is_stale c) gone a) (replaced (is_stale c) gone b)
          ≡ worker_older a b
    older_same c a b = rw (created_same c a, created_same c b) refl

-- What the scheduler may count on: the worker is online and has been seen lately.
abbrev is_alive : Time → Worker → Bool
is_alive cutoff w = state_eq w.connection_state online && not (not_seen_since cutoff w.last_seen_at)

alive-replaced :
    (cutoff : Time) (x : Worker)
    → state_eq (replaced (is_stale cutoff) gone x).connection_state online ≡ is_alive cutoff x
unfolding state_eq
alive-replaced cutoff x = elim (Bool-cases (is_stale cutoff x)) [
  | inl e ↦ rw e (ground arith)
  | inr e ↦ rw e (ground arith)
]

require_worker_online_lem :
    (s : Uuid) (x : Worker) (w : World)
    → NoFaults w
    → station_worker w.db s ≡ some x
    → (require_worker_online s w).0
      ≡ (if state_eq x.connection_state online then ok tt else err worker_offline)
unfolding require_worker_online get_station_worker rescue refuse_if pure raise
require_worker_online_lem s x w n h =
    ap (λ r. r.0) (bind_ok _ _ w _ x (ap (handle _) (found_row _ w x n h)))
    ∙ answered (state_eq x.connection_state online)
  where
    answered :
        (b : Bool)
        → (refuse_if (not b) worker_offline (wrote w w.db)).0
          ≡ (if b then ok tt else err worker_offline)
    answered true = refl
    answered false = refl

answer_lem :
    (s : Uuid) (x : Worker) (w : World)
    → NoFaults w
    → station_worker w.db s ≡ some x
    → ((monitor_tick >> require_worker_online s) w).0
      ≡ (if is_alive (w.env.clock w.tick -ℤ stale_after) x then ok tt else err worker_offline)
answer_lem s x w n h =
    let (v, run, env, rows, plans, passes) = monitor_tick_lem w n in
    ap (λ r. r.0) (then_ok _ _ w v tt run)
    ∙ require_worker_online_lem s (replaced (is_stale (cutoff_at w)) gone x) v
        (λ k. ap (λ e. e.fault k) env ∙ n k)
        (ap (λ ws. latest worker_older (where_ (λ y. y.station_id == s) ws)) rows
          ∙ after_update (cutoff_at w) s w.db.workers
          ∙ ap (Option.map (replaced (is_stale (cutoff_at w)) gone)) h)
    ∙ ap (λ b. if b then ok tt else err worker_offline) (alive-replaced (cutoff_at w) x)

-- A worker that is online and that has been seen within fifteen seconds, in nanoseconds.
abbrev pub IsAlive : Time → Worker → Type 0
IsAlive at x =
    (x.connection_state ≡ online)
    × ((t : Time) × (x.last_seen_at ≡ some t) × (at ≤ℤ t +ℤ pos 15000000000))

seen_lately :
    (at : Time) (o : Option Time)
    → not_seen_since (at -ℤ stale_after) o ≡ false
    → (t : Time) × (o ≡ some t) × (at ≤ℤ t +ℤ pos 15000000000)
unfolding pos_part neg_part
seen_lately at none h = cc
seen_lately at (some t) h =
    (t, refl, ground (arith, h, -ℤ_parts at stale_after, +ℤ_parts t (pos 15000000000)))

lately_seen :
    (at t : Time) → at ≤ℤ t +ℤ pos 15000000000 → not_seen_since (at -ℤ stale_after) (some t) ≡ false
unfolding pos_part neg_part
lately_seen at t h = ground (arith, h, -ℤ_parts at stale_after, +ℤ_parts t (pos 15000000000))

is_alive→IsAlive : (at : Time) (x : Worker) → is_alive (at -ℤ stale_after) x ≡ true → IsAlive at x
unfolding state_eq
is_alive→IsAlive at x h = (ground (arith, h), seen_lately at x.last_seen_at (ground (arith, h)))

IsAlive→is_alive : (at : Time) (x : Worker) → IsAlive at x → is_alive (at -ℤ stale_after) x ≡ true
unfolding state_eq
IsAlive→is_alive at x (is_online, (t, seen, lately)) =
    rw (is_online, seen, lately_seen at t lately) refl

abbrev answer : Bool → Result (Unit {0})
answer b = if b then ok tt else err worker_offline

answer_iff :
    (at : Time) (x : Worker) (b : Bool)
    → is_alive (at -ℤ stale_after) x ≡ b
    → ((answer b ≡ ok tt) ↔ IsAlive at x) × ((answer b ≡ ok tt) ⊎ (answer b ≡ err worker_offline))
answer_iff at x true h = ((λ _. is_alive→IsAlive at x h, λ _. refl), inl refl)
answer_iff at x false h = ((λ e. cc, λ a. let t = IsAlive→is_alive at x a in cc), inr refl)

-- While no statement fails, after a tick of the monitor the scheduler takes a station for bookings
-- exactly if the station's worker is online and has been seen within the last fifteen seconds; else
-- it answers that the worker is offline.
pub monitor_tick-require_worker_online :
    (s : Uuid) (x : Worker) (w : World)
    → NoFaults w
    → station_worker w.db s ≡ some x
    → ((((monitor_tick >> require_worker_online s) w).0 ≡ ok tt) ↔ IsAlive (w.env.clock w.tick) x)
      × ((((monitor_tick >> require_worker_online s) w).0 ≡ ok tt)
          ⊎ (((monitor_tick >> require_worker_online s) w).0 ≡ err worker_offline))
monitor_tick-require_worker_online s x w n h =
    subst
      (λ a.
        ((a ≡ ok tt) ↔ IsAlive (w.env.clock w.tick) x) × ((a ≡ ok tt) ⊎ (a ≡ err worker_offline)))
      (sym (answer_lem s x w n h)) (answer_iff (w.env.clock w.tick) x _ refl)
