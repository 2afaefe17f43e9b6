-- ===== src/Store/Order/Laws.antt =====
-- Ordering and predicates on all rows.
use project_dia.Prelude.{
  ◌≡◌, refl, ap, ◌∙◌, ◌||◌, any, arith, Bool, true, false, List, [], ◌∷◌, All, if◌then◌else◌,
}
use project_dia.Prelude.Int.{ltb_ℤ}
use project_dia.Domain.{Time}
use project_dia.Store.Order.{insert_by, order_by}

module _ {ℓ κ} {A : Type ℓ} (key : A → Time) (P : A → Type κ) where
  insert_by-All : (a : A) (xs : List A) → All P (insert_by key a xs) → P a × All P xs
  unfolding insert_by
  insert_by-All a [] h = h
  insert_by-All a (b ∷ bs) h = placed (ltb_ℤ (key b) (key a)) h (insert_by-All a bs)
    where
      placed :
          (c : Bool)
          → All P (if c then b ∷ insert_by key a bs else a ∷ b ∷ bs)
          → (All P (insert_by key a bs) → P a × All P bs)
          → P a × All P (b ∷ bs)
      placed true h k = let (pa, rest) = k h.1 in (pa, (h.0, rest))
      placed false h k = h

  -- What holds of all ordered rows holds of all rows.
  pub order_by-All : (xs : List A) → All P (order_by key xs) → All P xs
  unfolding order_by
  order_by-All [] h = tt
  order_by-All (a ∷ xs) h =
      let (p, rest) = insert_by-All a (order_by key xs) h in (p, order_by-All xs rest)

-- Ordering finds the same rows.
module _ {ℓ} {A : Type ℓ} (key : A → Time) (p : A → Bool) where
  insert_by-any : (a : A) (xs : List A) → any p (insert_by key a xs) ≡ (p a || any p xs)
  unfolding insert_by
  insert_by-any a [] = refl
  insert_by-any a (b ∷ bs) = placed (ltb_ℤ (key b) (key a)) (insert_by-any a bs)
    where
      swap : (s t u : Bool) → (s || (t || u)) ≡ (t || (s || u))
      swap s t u = ground arith

      placed :
          (c : Bool)
          → any p (insert_by key a bs) ≡ (p a || any p bs)
          → any p (if c then b ∷ insert_by key a bs else a ∷ b ∷ bs) ≡ (p a || (p b || any p bs))
      placed true h = ap (λ t. p b || t) h ∙ swap (p b) (p a) (any p bs)
      placed false h = refl

  pub order_by-any : (xs : List A) → any p (order_by key xs) ≡ any p xs
  unfolding order_by
  order_by-any [] = refl
  order_by-any (a ∷ xs) = insert_by-any a (order_by key xs) ∙ ap (λ t. p a || t) (order_by-any xs)
