-- ===== src/Prelude/Members.antt =====
-- Membership in lists that a test selects from.
use mathlib.Core.List.{Memᴰ}
use mathlib.Core.Path.{◌≡◌, refl, sym, ap, ◌∙◌}
use mathlib.Core.Bool.{Bool, true, false, ◌||◌}
use mathlib.Core.Logic.{inl, inr}
use mathlib.Core.List.{List, [], ◌∷◌}
use project_dia.Prelude.Tests.{if◌then◌else◌, Bool-cases}
use project_dia.Prelude.Lists.{any, where_}

abbrev or_here : (b c : Bool) → c ≡ true → (b || c) ≡ true
or_here true c h = refl
or_here false c h = h

module _ {ℓ} {A : Type ℓ} (f : A → Bool) where
  pub found_any : (xs : List A) → any f xs ≡ true → (x : A) × Memᴰ x xs × (f x ≡ true)
  found_any [] h = cc
  found_any (x ∷ xs) h = elim (Bool-cases (f x)) [
    | inl e ↦ (x, Memᴰ.head refl, e)
    | inr e ↦
        let (y, member, k) = found_any xs (sym (ap (λ b. b || any f xs) e) ∙ h) in
        (y, Memᴰ.tail member, k)
  ]

  pub any_found : (xs : List A) (x : A) → Memᴰ x xs → f x ≡ true → any f xs ≡ true
  any_found [] x m h = elim m [ ]
  any_found (y ∷ ys) x (Memᴰ.head e) h = ap (λ b. b || any f ys) (sym (ap f e) ∙ h)
  any_found (y ∷ ys) x (Memᴰ.tail m) h = or_here (f y) (any f ys) (any_found ys x m h)

  pub in_where : (xs : List A) (x : A) → Memᴰ x (where_ f xs) → Memᴰ x xs × (f x ≡ true)
  unfolding where_
  in_where [] x m = elim m [ ]
  in_where (y ∷ ys) x m = selected (f y) refl (in_where ys x) m
    where
      selected :
          (b : Bool)
          → f y ≡ b
          → (Memᴰ x (where_ f ys) → Memᴰ x ys × (f x ≡ true))
          → Memᴰ x (if b then y ∷ where_ f ys else where_ f ys)
          → Memᴰ x (y ∷ ys) × (f x ≡ true)
      selected true h rest (Memᴰ.head e) = (Memᴰ.head e, ap f e ∙ h)
      selected true h rest (Memᴰ.tail m) = let (n, k) = rest m in (Memᴰ.tail n, k)
      selected false h rest m = let (n, k) = rest m in (Memᴰ.tail n, k)

  pub where_in : (xs : List A) (x : A) → Memᴰ x xs → f x ≡ true → Memᴰ x (where_ f xs)
  unfolding where_
  where_in [] x m h = elim m [ ]
  where_in (y ∷ ys) x (Memᴰ.head e) h = rw (sym (ap f e) ∙ h) (Memᴰ.head e)
  where_in (y ∷ ys) x (Memᴰ.tail m) h = kept (f y) (where_in ys x m h)
    where
      kept : (b : Bool) → Memᴰ x (where_ f ys) → Memᴰ x (if b then y ∷ where_ f ys else where_ f ys)
      kept true m = Memᴰ.tail m
      kept false m = m
