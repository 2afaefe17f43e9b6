-- ===== src/Store/World/Returns.antt =====
-- Reasoning about answers: what holds of the value that an action returns, if it returns one, with
-- one rule for each way to build an action.
use mathlib.Core.Path.{subst}
use project_dia.Prelude.{◌≡◌, refl, Bool, true, false, Option, none, some, ap}
use project_dia.Errors.{Error, DbError}
use project_dia.Store.World.{
  World, Db, attempt, row_or_none, statement, query_row, Action, Result, ok, err, pure, raise,
  refuse_if, require, continue_with, ◌>>=◌, ◌>>◌,
}

-- Each value that `m` returns has `Q`.
pub record Returns {ℓ κ} {A : Type κ} (Q : A → Type ℓ) (m : Action A) : Type (ℓ ⊔ κ) where
  pub at : (w v : World) (a : A) → m w ≡ (ok a, v) → Q a

answer-eq {κ} :
    {A : Type κ} (a b : A) (w v : World) → ◌≡◌ {A = Result A × World} (ok a, w) (ok b, v) → a ≡ b
answer-eq a b w v h = cc

module _ {ℓ κ} {A : Type κ} {Q : A → Type ℓ} where
  pub Returns-pure : (a : A) → Q a → Returns Q (pure a)
  unfolding pure
  Returns-pure a q = record { at = λ w v b h. subst Q (answer-eq a b w v h) q }

  pub Returns-require :
      (o : Option A) (e : Error) → ((a : A) → o ≡ some a → Q a) → Returns Q (require o e)
  unfolding require pure raise
  Returns-require none e q = record { at = λ w v b h. cc }
  Returns-require (some a) e q = record { at = λ w v b h. subst Q (answer-eq a b w v h) (q a refl) }

continue_with-at {ℓ κ ι} :
    {A : Type κ} {B : Type ι} {Q : B → Type ℓ} (f : A → Action B) (r : Result A) (u v : World)
    (b : B)
    → ((a : A) → r ≡ ok a → Returns Q (f a))
    → continue_with f (r, u) ≡ (ok b, v)
    → Q b
continue_with-at f (ok a) u v b k h = (k a refl).at u v b h
continue_with-at f (err e) u v b k h = cc

module _ {ℓ ℓ' κ ι} {A : Type κ} {B : Type ι} {P : A → Type ℓ} {Q : B → Type ℓ'} where
  -- What the first action promises of its answer may be used for the second.
  pub Returns-bind :
      (m : Action A) (f : A → Action B)
      → Returns P m
      → ((a : A) → P a → Returns Q (f a))
      → Returns Q (m >>= f)
  unfolding ◌>>=◌
  Returns-bind m f p k = record {
    at = λ w v b h.
        continue_with-at f (m w).0 (m w).1 v b
          (λ a e. k a (p.at w (m w).1 a (ap (λ r. (r, (m w).1)) e))) h;
  }

module _ {ℓ κ} {B : Type κ} {Q : B → Type ℓ} where
  -- What follows a refusal runs when the test is false.
  pub Returns-unless :
      (b : Bool) (e : Error) (k : Action B)
      → (b ≡ false → Returns Q k)
      → Returns Q (refuse_if b e >> k)
  unfolding refuse_if ◌>>◌ ◌>>=◌ pure raise
  Returns-unless true e k h = record { at = λ w v b eq. cc }
  Returns-unless false e k h = record { at = λ w v b eq. (h refl).at w v b eq }

module _ {κ} {A : Type κ} where
  pub Returns-any : (m : Action A) → Returns (λ _. Unit {0}) m
  Returns-any m = record { at = λ w v a h. tt }

module _ {ℓ κ} {A : Type κ} {Q : A → Type ℓ} where
  row-at :
      (w u v : World) (d : Db) (fault : Option DbError) (o : Option A) (a : A)
      → ((b : A) → o ≡ some b → Q b)
      → attempt w fault (row_or_none d o) ≡ (ok a, v)
      → Q a
  row-at w u v d (some e) o a k h = cc
  row-at w u v d none none a k h = cc
  row-at w u v d none (some b) a k h = subst Q (answer-eq b a _ v h) (k b refl)

  pub Returns-query_row :
      (q : Db → Option A) → ((d : Db) (a : A) → q d ≡ some a → Q a) → Returns Q (query_row q)
  unfolding query_row statement
  Returns-query_row q k = record {
    at = λ w v a h. row-at w w v w.db (w.env.fault w.tick) (q w.db) a (k w.db) h;
  }
