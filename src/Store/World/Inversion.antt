-- ===== src/Store/World/Inversion.antt =====
-- What must have happened for an action to return a value: one rule for each way to build an action.
use project_dia.Prelude.{◌≡◌, refl, Bool, true, false, Option, none, some}
use project_dia.Errors.{Error, DbError}
use project_dia.Store.World.{
  World, Db, Action, Result, ok, err, pure, raise, statement, query_row, rescue, refuse_if, require,
  ◌>>=◌, ◌>>◌, continue_with, attempt, row_or_none, handle,
}
use project_dia.Store.World.Laws.{wrote}

module _ {ℓ κ} {A : Type ℓ} {B : Type κ} where
  -- The first part returned a value, and the second went on from it.
  abbrev pub Went : Action A → (A → Action B) → World → B → World → Type (ℓ ⊔ κ)
  Went m f w b v = (a : A) × (u : World) × (m w ≡ (ok a, u)) × (f a u ≡ (ok b, v))

  went :
      (f : A → Action B) (r : Result A × World) (b : B) (v : World)
      → continue_with f r ≡ (ok b, v)
      → (a : A) × (u : World) × (r ≡ (ok a, u)) × (f a u ≡ (ok b, v))
  went f (ok a, u) b v h = (a, u, refl, h)
  went f (err e, u) b v h = cc

  pub bind_inv :
      (m : Action A) (f : A → Action B) (w v : World) (b : B)
      → (m >>= f) w ≡ (ok b, v)
      → Went m f w b v
  unfolding ◌>>=◌
  bind_inv m f w v b h = went f (m w) b v h

  pub then_inv :
      (m : Action A) (k : Action B) (w v : World) (b : B)
      → (m >> k) w ≡ (ok b, v)
      → Went m (λ _. k) w b v
  unfolding ◌>>◌
  then_inv m k w v b h = bind_inv m (λ _. k) w v b h

module _ {ℓ} {A : Type ℓ} where
  row_inv :
      (w v : World) (fault : Option DbError) (o : Option A) (a : A)
      → attempt w fault (row_or_none w.db o) ≡ (ok a, v)
      → (o ≡ some a) × (v ≡ wrote w w.db)
  row_inv w v (some e) o a h = cc
  row_inv w v none none a h = cc
  row_inv w v none (some b) a h = (cc, cc)

  pub query_row_inv :
      (q : Db → Option A) (w v : World) (a : A)
      → query_row q w ≡ (ok a, v)
      → (q w.db ≡ some a) × (v ≡ wrote w w.db)
  unfolding query_row statement
  query_row_inv q w v a h = row_inv w v (w.env.fault w.tick) (q w.db) a h

  handled :
      (error : Error → Error) (r : Result A × World) (a : A) (v : World)
      → handle (λ e. raise (error e)) r ≡ (ok a, v)
      → r ≡ (ok a, v)
  unfolding raise
  handled error (ok b, u) a v h = h
  handled error (err e, u) a v h = cc

  -- An error that is only exchanged for another leaves no value.
  pub rescue-raise_inv :
      (m : Action A) (error : Error → Error) (w v : World) (a : A)
      → rescue m (λ e. raise (error e)) w ≡ (ok a, v)
      → m w ≡ (ok a, v)
  unfolding rescue
  rescue-raise_inv m error w v a h = handled error (m w) a v h

  pub pure_inv : (b a : A) (w v : World) → pure b w ≡ (ok a, v) → (b ≡ a) × (w ≡ v)
  unfolding pure
  pure_inv b a w v h = (cc, cc)

pub require_inv {ℓ} :
    {A : Type ℓ} (o : Option A) (e : Error) (a : A) (w v : World)
    → require o e w ≡ (ok a, v)
    → (o ≡ some a) × (v ≡ w)
unfolding require pure raise
require_inv none e a w v h = cc
require_inv (some b) e a w v h = (cc, cc)

pub refuse_if_inv :
    (b : Bool) (e : Error) (a : Unit {0}) (w v : World)
    → refuse_if b e w ≡ (ok a, v)
    → (b ≡ false) × (v ≡ w)
unfolding refuse_if pure raise
refuse_if_inv true e a w v h = cc
refuse_if_inv false e a w v h = (refl, cc)
