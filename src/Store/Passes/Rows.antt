-- ===== src/Store/Passes/Rows.antt =====
-- A row by its identifier: what an update makes of it, and how many rows a statement selects.
use mathlib.Core.Option
use project_dia.Prelude.{
  ℕ, ◌≡◌, refl, Bool, true, ◌&&◌, Option, none, some, List, [], ◌∷◌, arith, ◌==◌, if◌then◌else◌,
  update, count_where, first, All, Pairwise, Bool-cases, inl, inr,
}
use project_dia.Domain.{Uuid, Pass}
use project_dia.Store.Passes.Table.{Apart}

abbrev pub has_id : Uuid → Pass → Bool
has_id id p = p.id == id

module _ (id : Uuid) (sel : Pass → Bool) (f : Pass → Pass)
    (same : (p : Pass) → (f p).id ≡ p.id) where
  abbrev pub changed : Pass → Pass
  changed p = if sel p then f p else p

  changed-id : (p : Pass) → (changed p).id ≡ p.id
  changed-id p = elim (Bool-cases (sel p)) [ inl e ↦ rw e (same p) | inr e ↦ rw e refl ]

  -- The row of an identifier is updated in place.
  pub first-update :
      (ps : List Pass)
      → first (has_id id) (update sel f ps) ≡ Option.map changed (first (has_id id) ps)
  unfolding first update
  first-update [] = refl
  first-update (p ∷ ps) = elim (Bool-cases (p.id == id)) [
    | inl e ↦ rw (changed-id p, e) refl
    | inr e ↦ rw (changed-id p, e) (first-update ps)
  ]

module _ (id : Uuid) (g : Pass → Bool) where
  abbrev pub chosen : Pass → Bool
  chosen p = p.id == id && g p

  abbrev pub one_if : Option Pass → ℕ
  one_if none = 0
  one_if (some p) = if g p then 1 else 0

  none_chosen :
      (p : Pass) (ps : List Pass) → p.id ≡ id → All (Apart p) ps → count_where chosen ps ≡ 0
  unfolding count_where
  none_chosen p [] e a = refl
  none_chosen p (q ∷ qs) e a = ground (arith, none_chosen p qs e a.1, a.0.0)

  -- Identifiers differ, so a statement on one selects at most that row.
  pub count-chosen :
      (ps : List Pass) → Pairwise Apart ps → count_where chosen ps ≡ one_if (first (has_id id) ps)
  unfolding count_where first
  count-chosen [] a = refl
  count-chosen (p ∷ ps) a = elim (Bool-cases (p.id == id)) [
    | inl e ↦ ground (arith, none_chosen p ps (ground arith) a.0)
    | inr e ↦ ground (arith, count-chosen ps a.1)
  ]

-- A row that is found has the identifier.
pub first-has_id :
    (id : Uuid) (ps : List Pass) (p : Pass) → first (has_id id) ps ≡ some p → has_id id p ≡ true
unfolding first
first-has_id id [] p h = cc
first-has_id id (q ∷ qs) p h = ground (arith, first-has_id id qs p)
