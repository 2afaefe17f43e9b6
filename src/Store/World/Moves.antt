-- ===== src/Store/World/Moves.antt =====
-- Reasoning about actions: a relation between the tables before and the tables after, with one rule
-- for each way to build an action.
use mathlib.Core.Path.{subst}
use project_dia.Prelude.{◌≡◌, refl, Bool, true, false, Option, none, some, if◌then◌else◌}
use project_dia.Errors.{Error, DbError, nested_transaction}
use project_dia.Domain.{Uuid, Time}
use project_dia.Store.World.{
  World, Db, Action, Result, ok, err, Effect, done, failed, pure, raise, statement, query_row,
  query, rescue, now, context_ended?, refuse_if, require, in_tx, Repository, pooled,
  within_transaction, ◌>>=◌, ◌>>◌, advance, conclude, settle, attempt, handle, continue_with,
  commit, begin, row_or_none,
}

-- A relation between tables that composes.
pub record IsPreorder {ℓ} (R : Db → Db → Type ℓ) : Type ℓ where
  pub refl_at : (d : Db) → R d d
  pub trans_at : (c d e : Db) → R c d → R d e → R c e

-- `m` takes the tables along `R`, whether it returns or fails.
pub record Moves {ℓ κ} {A : Type κ} (R : Db → Db → Type ℓ) (m : Action A) : Type (ℓ ⊔ κ) where
  pub at : (w : World) → R w.db (m w).1.db

module _ {ℓ κ} {A : Type κ} {R : Db → Db → Type ℓ} (pre : IsPreorder R) where
  pub Moves-pure : (a : A) → Moves R (pure a)
  unfolding pure
  Moves-pure a = record { at = λ w. pre.refl_at w.db }

  pub Moves-raise : (e : Error) → Moves R (raise {A = A} e)
  unfolding raise
  Moves-raise e = record { at = λ w. pre.refl_at w.db }

  settle-Moves :
      (w : World) (x : Effect A)
      → ((d : Db) (a : A) → x ≡ done a d → R w.db d)
      → R w.db (settle w x).1.db
  settle-Moves w (done a db) h = h db a refl
  settle-Moves w (failed e) h = pre.refl_at w.db

  attempt-Moves :
      (w : World) (o : Option DbError) (x : Effect A)
      → ((d : Db) (a : A) → x ≡ done a d → R w.db d)
      → R w.db (attempt w o x).1.db
  attempt-Moves w (some e) x h = pre.refl_at w.db
  attempt-Moves w none x h = settle-Moves w x h

  pub Moves-statement :
      (f : Uuid → Time → Db → Effect A)
      → ((u : Uuid) (t : Time) (d e : Db) (a : A) → f u t d ≡ done a e → R d e)
      → Moves R (statement f)
  unfolding statement
  Moves-statement f h = record {
    at = λ w. attempt-Moves w (w.env.fault w.tick) _ (λ d a p. h _ _ w.db d a p);
  }

  row_or_none-same : (d e : Db) (o : Option A) (a : A) → row_or_none d o ≡ done a e → d ≡ e
  row_or_none-same d e none a p = cc
  row_or_none-same d e (some b) a p = cc

  pub Moves-query_row : (q : Db → Option A) → Moves R (query_row q)
  unfolding query_row
  Moves-query_row q =
      Moves-statement _ λ u t d e a p. subst (R d) (row_or_none-same d e (q d) a p) (pre.refl_at d)

  pub Moves-query : (q : Db → A) → Moves R (query q)
  unfolding query
  Moves-query q =
      Moves-statement _
        λ u t d e a p. subst (R d) (row_or_none-same d e (some (q d)) a p) (pre.refl_at d)

  handle-Moves :
      (d : Db) (handler : Error → Action A) (x : Result A × World)
      → ((e : Error) → Moves R (handler e))
      → R d x.1.db
      → R d (handle handler x).1.db
  handle-Moves d handler (ok a, v) kh k = k
  handle-Moves d handler (err e, v) kh k = pre.trans_at d v.db _ k ((kh e).at v)

  pub Moves-rescue :
      (m : Action A) (handler : Error → Action A)
      → Moves R m
      → ((e : Error) → Moves R (handler e))
      → Moves R (rescue m handler)
  unfolding rescue
  Moves-rescue m handler km kh = record { at = λ w. handle-Moves w.db handler (m w) kh (km.at w) }

  conclude-Moves : (d : Db) (x : Result A × World) → R d x.1.db → R d (conclude d x).1.db
  conclude-Moves d (ok a, v) k = go (v.env.fault v.tick)
    where
      go : (o : Option DbError) → R d (commit d a v o).1.db
      go none = k
      go (some e) = pre.refl_at d
  conclude-Moves d (err e, v) k = pre.refl_at d

  begin-Moves :
      (m : Action A) → Moves R m → (w : World) (o : Option DbError) → R w.db (begin m w o).1.db
  begin-Moves m km w (some e) = pre.refl_at w.db
  begin-Moves m km w none = conclude-Moves w.db (m (advance w)) (km.at (advance w))

  pub Moves-in_tx :
      (repo : Repository) (body : Repository → Action A)
      → ((r : Repository) → Moves R (body r))
      → Moves R (in_tx repo body)
  unfolding in_tx
  Moves-in_tx within_transaction body kb = Moves-raise nested_transaction
  Moves-in_tx pooled body kb = record {
    at = λ w. begin-Moves (body within_transaction) (kb within_transaction) w (w.env.fault w.tick);
  }

  pub Moves-require : (o : Option A) (e : Error) → Moves R (require o e)
  unfolding require
  Moves-require none e = Moves-raise e
  Moves-require (some a) e = Moves-pure a

  pub Moves-if : (b : Bool) (m n : Action A) → Moves R m → Moves R n → Moves R (if b then m else n)
  Moves-if true m n km kn = km
  Moves-if false m n km kn = kn

module _ {ℓ} {R : Db → Db → Type ℓ} (pre : IsPreorder R) where
  pub Moves-now : Moves R now
  unfolding now
  Moves-now = record { at = λ w. pre.refl_at w.db }

  pub Moves-context_ended? : Moves R context_ended?
  unfolding context_ended?
  Moves-context_ended? = record { at = λ w. pre.refl_at w.db }

  pub Moves-refuse_if : (b : Bool) (e : Error) → Moves R (refuse_if b e)
  unfolding refuse_if
  Moves-refuse_if true e = Moves-raise pre e
  Moves-refuse_if false e = Moves-pure pre tt

module _ {ℓ κ λ'} {A : Type κ} {B : Type λ'} {R : Db → Db → Type ℓ} (pre : IsPreorder R) where
  continue-Moves :
      (d : Db) (f : A → Action B) (x : Result A × World)
      → ((a : A) → Moves R (f a))
      → R d x.1.db
      → R d (continue_with f x).1.db
  continue-Moves d f (ok a, v) kf k = pre.trans_at d v.db _ k ((kf a).at v)
  continue-Moves d f (err e, v) kf k = k

  pub Moves-bind :
      (m : Action A) (f : A → Action B) → Moves R m → ((a : A) → Moves R (f a)) → Moves R (m >>= f)
  unfolding ◌>>=◌
  Moves-bind m f km kf = record { at = λ w. continue-Moves w.db f (m w) kf (km.at w) }

  pub Moves-then : (m : Action A) (k : Action B) → Moves R m → Moves R k → Moves R (m >> k)
  unfolding ◌>>◌
  Moves-then m k km kk = Moves-bind m (λ _. k) km (λ _. kk)

module _ {ℓ κ} {B : Type κ} {R : Db → Db → Type ℓ} (pre : IsPreorder R) where
  -- What follows a refusal runs only where the test is false.
  pub Moves-unless :
      (b : Bool) (e : Error) (k : Action B) → (b ≡ false → Moves R k) → Moves R (refuse_if b e >> k)
  unfolding refuse_if ◌>>◌ ◌>>=◌ raise pure
  Moves-unless true e k h = record { at = λ w. pre.refl_at w.db }
  Moves-unless false e k h = record { at = λ w. (h refl).at w }

pub ruleset moves_rules = (
  Moves-pure, Moves-raise, Moves-query_row, Moves-query, Moves-rescue, Moves-in_tx, Moves-require,
  Moves-if, Moves-now, Moves-context_ended?, Moves-refuse_if, Moves-bind, Moves-then,
)
