-- ===== src/Store/World/Laws.antt =====
-- How an action runs when no statement fails for a reason of the environment: one equation for each
-- way to build an action, to compute a run step by step.
use project_dia.Prelude.{ℕ, suc, ◌≡◌, refl, ap, ◌∙◌, true, false, Option, none, some}
use project_dia.Domain.{Uuid, Time}
use project_dia.Errors.{Error, translate, not_found}
use project_dia.Store.World.{
  World, Db, Action, ok, err, Effect, pure, raise, statement, query_row, rescue, handle, now,
  refuse_if, require, ◌>>=◌, ◌>>◌, advance, settle, attempt, continue_with, row_or_none,
}

-- No statement and no commit fails for a reason of the environment.
abbrev pub NoFaults : World → Type 0
NoFaults w = (n : ℕ) → w.env.fault n ≡ none

-- The world after a statement that leaves `db`.
abbrev pub wrote : World → Db → World
wrote w db = record w { tick = suc w.tick; db = db }

module _ {ℓ} {A : Type ℓ} where
  pub statement_lem :
      (f : Uuid → Time → Db → Effect A) (w : World)
      → NoFaults w
      → statement f w ≡ settle w (f (w.env.uuid w.tick) (w.env.clock w.tick) w.db)
  unfolding statement
  statement_lem f w n = rw (n w.tick, attempt)

  pub query_row_lem :
      (q : Db → Option A) (w : World)
      → NoFaults w
      → query_row q w ≡ settle w (row_or_none w.db (q w.db))
  unfolding query_row
  query_row_lem q w n = statement_lem _ w n

module _ {ℓ κ} {A : Type ℓ} {B : Type κ} where
  pub bind_ok :
      (m : Action A) (f : A → Action B) (w v : World) (a : A)
      → m w ≡ (ok a, v)
      → (m >>= f) w ≡ f a v
  unfolding ◌>>=◌
  bind_ok m f w v a h = ap (continue_with f) h

  pub bind_err :
      (m : Action A) (f : A → Action B) (w v : World) (e : Error)
      → m w ≡ (err e, v)
      → (m >>= f) w ≡ (err e, v)
  unfolding ◌>>=◌
  bind_err m f w v e h = ap (continue_with f) h

module _ {ℓ κ} {A : Type ℓ} {B : Type κ} where
  pub then_ok :
      (m : Action A) (k : Action B) (w v : World) (a : A) → m w ≡ (ok a, v) → (m >> k) w ≡ k v
  unfolding ◌>>◌
  then_ok m k w v a h = bind_ok m (λ _. k) w v a h

  pub then_err :
      (m : Action A) (k : Action B) (w v : World) (e : Error)
      → m w ≡ (err e, v)
      → (m >> k) w ≡ (err e, v)
  unfolding ◌>>◌
  then_err m k w v e h = bind_err m (λ _. k) w v e h

module _ {ℓ} {A : Type ℓ} where
  pub found_row :
      (q : Db → Option A) (w : World) (a : A)
      → NoFaults w
      → q w.db ≡ some a
      → query_row q w ≡ (ok a, wrote w w.db)
  found_row q w a n h = query_row_lem q w n ∙ ap (λ o. settle w (row_or_none w.db o)) h

  pub missing_row :
      (q : Db → Option A) (w : World)
      → NoFaults w
      → q w.db ≡ none
      → query_row q w ≡ (err not_found, wrote w w.db)
  unfolding translate
  missing_row q w n h = query_row_lem q w n ∙ ap (λ o. settle w (row_or_none w.db o)) h

pub now_lem : (w : World) → now w ≡ (ok (w.env.clock w.tick), advance w)
unfolding now
now_lem w = refl

pub not_refused : (e : Error) (w : World) → refuse_if false e w ≡ (ok tt, w)
unfolding refuse_if pure
not_refused e w = refl

pub refused : (e : Error) (w : World) → refuse_if true e w ≡ (err e, w)
unfolding refuse_if raise
refused e w = refl

pub require_lem {ℓ} :
    {A : Type ℓ} (o : Option A) (e : Error) (a : A) (w : World)
    → o ≡ some a
    → require o e w ≡ (ok a, w)
unfolding require pure
require_lem o e a w h = rw h refl

pub rescue_ok {ℓ} :
    {A : Type ℓ} (m : Action A) (handler : Error → Action A) (w v : World) (a : A)
    → m w ≡ (ok a, v)
    → rescue m handler w ≡ (ok a, v)
unfolding rescue
rescue_ok m handler w v a h = ap (handle handler) h

pub rescue_err {ℓ} :
    {A : Type ℓ} (m : Action A) (handler : Error → Action A) (w v : World) (e : Error)
    → m w ≡ (err e, v)
    → rescue m handler w ≡ handler e v
unfolding rescue
rescue_err m handler w v e h = ap (handle handler) h
