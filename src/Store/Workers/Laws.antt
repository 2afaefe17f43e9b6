-- ===== src/Store/Workers/Laws.antt =====
-- Updates and queries on workers.
use mathlib.Core.Option
use project_dia.Prelude.{
  ◌≡◌, refl, ap, Bool, false, Option, none, some, List, [], ◌∷◌, All, update, where_, if◌then◌else◌,
  Bool-cases, inl, inr,
}
use project_dia.Domain.{Time, Worker, state_eq}
use project_dia.Store.Workers.{is_stale, gone}
use project_dia.Store.Order.{latest, pick}

-- An update that keeps what a query selects and orders by commutes with the query.
module _ {ℓ} {A : Type ℓ} (sel : A → Bool) (f : A → A) where
  abbrev pub replaced : A → A
  replaced a = if sel a then f a else a

  same-test : (q : A → Bool) → ((a : A) → q (f a) ≡ q a) → (x : A) → q (replaced x) ≡ q x
  same-test q h x = elim (Bool-cases (sel x)) [ inl e ↦ rw e (h x) | inr e ↦ rw e refl ]

  pick-update :
      (newer : A → A → Bool)
      → ((a b : A) → newer (replaced a) (replaced b) ≡ newer a b)
      → (x : A) (o : Option A)
      → pick newer (replaced x) (Option.map replaced o) ≡ replaced (pick newer x o)
  pick-update newer h x none = refl
  pick-update newer h x (some b) = elim (Bool-cases (newer b x)) [
    | inl e ↦ rw (h b x, e) refl
    | inr e ↦ rw (h b x, e) refl
  ]

  pub where-update :
      (q : A → Bool)
      → ((a : A) → q (f a) ≡ q a)
      → (xs : List A) → where_ q (update sel f xs) ≡ update sel f (where_ q xs)
  unfolding where_ update
  where-update q h [] = refl
  where-update q h (x ∷ xs) =
      rw (same-test q h x, where-update q h xs)
        (elim (Bool-cases (q x)) [ inl e ↦ rw e refl | inr e ↦ rw e refl ])

  pub latest-update :
      (newer : A → A → Bool)
      → ((a b : A) → newer (replaced a) (replaced b) ≡ newer a b)
      → (xs : List A) → latest newer (update sel f xs) ≡ Option.map replaced (latest newer xs)
  unfolding latest update
  latest-update newer h [] = refl
  latest-update newer h (x ∷ xs) =
      rw (latest-update newer h xs) (ap some (pick-update newer h x (latest newer xs)))

gone-fresh : (cutoff : Time) (w : Worker) → is_stale cutoff (gone w) ≡ false
unfolding state_eq
gone-fresh cutoff w = refl

update-fresh :
    (cutoff : Time) (ws : List Worker)
    → All (λ w. is_stale cutoff w ≡ false) (update (is_stale cutoff) gone ws)
unfolding update
update-fresh cutoff [] = tt
update-fresh cutoff (w ∷ ws) = elim (Bool-cases (is_stale cutoff w)) [
  | inl e ↦ rw e (gone-fresh cutoff w, update-fresh cutoff ws)
  | inr e ↦ rw (e, e) (refl, update-fresh cutoff ws)
]
