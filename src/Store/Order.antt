-- ===== src/Store/Order.antt =====
-- `ORDER BY` on a time, and `ORDER BY … LIMIT 1`, as the queries of server/go/internal/store use
-- them. Rows that tie stand in the order of the table.
pub mod Laws
use project_dia.Prelude.{Bool, Option, none, some, List, [], ◌∷◌, if◌then◌else◌}
use project_dia.Prelude.Int.{ltb_ℤ}
use project_dia.Domain.{Time}

module _ {ℓ} {A : Type ℓ} (key : A → Time) where
  unfoldable pub insert_by : A → List A → List A
  insert_by a [] = a ∷ []
  insert_by a (b ∷ bs) =
      let rest = insert_by a bs in if ltb_ℤ (key b) (key a) then b ∷ rest else a ∷ b ∷ bs

  unfoldable pub order_by : List A → List A
  unfolding insert_by
  order_by [] = []
  order_by (a ∷ rest) = insert_by a (order_by rest)

module _ {ℓ} {A : Type ℓ} (newer : A → A → Bool) where
  abbrev pub pick : A → Option A → A
  pick a none = a
  pick a (some b) = if newer b a then b else a

  -- The first row under an order in which `newer` rows come first.
  unfoldable pub latest : List A → Option A
  latest [] = none
  latest (a ∷ rest) = some (pick a (latest rest))
