-- ===== src/Store/Users/Laws.antt =====
-- Looking a user up by name and by identifier.
use mathlib.Core.Path.{subst}
use project_dia.Prelude.{
  ap, ◌≡◌, ◌≢◌, Bool, true, false, some, List, [], ◌∷◌, All, Pairwise, first, ◌==◌, Bool-cases, inl,
  inr, arith,
}
use project_dia.Domain.{Uuid, User}
use project_dia.Store.Users.{is_user}

-- `PRIMARY KEY`
abbrev pub IsKeyed : List User → Type 0
IsKeyed users = Pairwise (λ a b. a.id ≢ b.id) users

selected :
    (p : User → Bool) (users : List User) (id : Uuid) (a : User)
    → All (λ b. id ≢ b.id) users
    → first p users ≡ some a
    → id ≢ a.id
unfolding first
selected p [] id a h e = cc
selected p (u ∷ us) id a h e = elim (Bool-cases (p u)) [
  | inl t ↦ let same : u ≡ a = ground arith in subst (λ x. id ≢ x.id) same h.0
  | inr f ↦ selected p us id a h.1 (ground arith)
]

-- Whatever selected a user, the user's identifier selects the same one.
pub first-is_user :
    (p : User → Bool) (users : List User) (a : User)
    → IsKeyed users
    → first p users ≡ some a
    → first (is_user a.id) users ≡ some a
unfolding first
first-is_user p [] a k h = cc
first-is_user p (u ∷ us) a k h = elim (Bool-cases (p u)) [
  | inl t ↦
      let same : u ≡ a = ground arith in
      let self : (u.id == a.id) ≡ true = ground arith in rw self (ap some same)
  | inr f ↦
      let rest : first p us ≡ some a = ground arith in
      let other : (u.id == a.id) ≡ false = ground (arith, selected p us u.id a k.0 rest) in
      rw other (first-is_user p us a k.1 rest)
]
