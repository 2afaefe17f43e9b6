-- ===== src/Store/Users/Roots.antt =====
-- The roots among the users: no statement on users or passes that is not told to create a root changes
-- which they are.
use project_dia.Prelude.{
  ℕ, ◌≡◌, refl, sym, ap, ◌∙◌, Bool, false, not, ◌||◌, Option, none, some, List, [], ◌∷◌, map, any,
  where_, update, Bool-cases, inl, inr, arith, if◌then◌else◌,
}
use project_dia.Prelude.Text.{Text}
use project_dia.Domain.{Uuid, Time, User, UserRole, Pass, CancellationReason, role_eq}
use project_dia.Errors.{DbError}
use project_dia.Store.World.{Db, done}
use project_dia.Store.World.Moves.{
  IsPreorder, Moves, Moves-statement, Moves-bind, Moves-refuse_if, moves_rules,
}
use project_dia.Store.Passes.{
  checked, update_passes, create_pass_once, approve_pass, reject_pass, cancel_pass,
}
use project_dia.Store.Passes.Steps.{Steps}
use project_dia.Store.Users.{
  is_root, is_user, is_root_user, with_password, with_role, insert_user, create_user, set_password,
  update_role, set_user_role, remove_user, delete_user,
}
use project_dia.Store.Users.Effects.{insert_inv, update_role_inv, remove_user_inv, done-db}
use project_dia.Store.Users.Root.{UserSteps, Moves-user_statement}

abbrev pub roots_of : List User → List Uuid
roots_of users = map (λ u. u.id) (where_ is_root users)

abbrev pub SameRoots : Db → Db → Type 0
SameRoots c d = roots_of c.users ≡ roots_of d.users

pub SameRoots-pre : IsPreorder SameRoots
SameRoots-pre = record { refl_at = λ d. refl; trans_at = λ c d e h k. h ∙ k }

||_false : (a b : Bool) → (a || b) ≡ false → (a ≡ false) × (b ≡ false)
||_false a b h = ground arith

-- Statements on passes leave the users alone.
checked-users :
    {A : Type 0} (o : Option DbError) (a b : A) (d e : Db)
    → checked o a d ≡ done b e
    → d.users ≡ e.users
checked-users none a b d e h = cc
checked-users (some x) a b d e h = cc

update-moves : (sel : Pass → Bool) (f : Pass → Pass) → Moves SameRoots (update_passes sel f)
unfolding update_passes
update-moves sel f =
    Moves-statement SameRoots-pre _ λ u t d e n h. ap roots_of (checked-users _ _ n _ e h)

create-moves : (p : Pass) → Moves SameRoots (create_pass_once p)
unfolding create_pass_once
create-moves p =
    Moves-statement SameRoots-pre _ λ u t d e n h. ap roots_of (checked-users _ _ n _ e h)

approve-moves : (id by : Uuid) (at : Time) → Moves SameRoots (approve_pass id by at)
unfolding approve_pass
approve-moves id by at = search (moves_rules, SameRoots-pre, update-moves)

reject-moves : (id by : Uuid) (at : Time) → Moves SameRoots (reject_pass id by at)
unfolding reject_pass
reject-moves id by at = search (moves_rules, SameRoots-pre, update-moves)

cancel-moves :
    (id by : Uuid) (reason : CancellationReason) (at : Time)
    → Moves SameRoots (cancel_pass id by reason at)
unfolding cancel_pass
cancel-moves id by reason at = search (moves_rules, SameRoots-pre, update-moves)

pub SameRoots-steps : Steps SameRoots
SameRoots-steps = record {
  pre = SameRoots-pre;
  other = λ c d _ same. ap roots_of same;
  create = λ p _. create-moves p;
  approve = approve-moves;
  reject = reject-moves;
  cancel = cancel-moves;
}

abbrev counted : Bool → Uuid → List Uuid → List Uuid
counted b id rest = if b then id ∷ rest else rest

roots_of-cons :
    (u : User) (us : List User) → roots_of (u ∷ us) ≡ counted (is_root u) u.id (roots_of us)
unfolding where_
roots_of-cons u us = elim (Bool-cases (is_root u)) [ inl e ↦ rw e refl | inr e ↦ rw e refl ]

-- A list with another head that counts the same, and a rest with the same roots.
same_roots :
    (u v : User) (us vs : List User)
    → is_root u ≡ is_root v
    → u.id ≡ v.id
    → roots_of us ≡ roots_of vs
    → roots_of (u ∷ us) ≡ roots_of (v ∷ vs)
same_roots u v us vs root id rest =
    roots_of-cons u us
    ∙ ap (λ b. counted b u.id (roots_of us)) root
    ∙ ap (λ i. counted (is_root v) i (roots_of us)) id
    ∙ ap (counted (is_root v) v.id) rest
    ∙ sym (roots_of-cons v vs)

-- An update that changes neither identifiers nor who is root.
roots_of-update :
    (sel : User → Bool) (f : User → User) (users : List User)
    → ((u : User) → (f u).id ≡ u.id)
    → ((u : User) → is_root (f u) ≡ is_root u)
    → roots_of users ≡ roots_of (update sel f users)
unfolding update
roots_of-update sel f [] id root = refl
roots_of-update sel f (u ∷ us) id root =
    same_roots u (if sel u then f u else u) us (update sel f us)
      (elim (Bool-cases (sel u)) [ inl e ↦ rw e (sym (root u)) | inr e ↦ rw e refl ])
      (elim (Bool-cases (sel u)) [ inl e ↦ rw e (sym (id u)) | inr e ↦ rw e refl ])
      (roots_of-update sel f us id root)

-- A user who is no root and is given another role than root.
roots_of-role :
    (id : Uuid) (role : UserRole) (users : List User)
    → role_eq role UserRole.root ≡ false
    → any (is_root_user id) users ≡ false
    → roots_of users ≡ roots_of (update (is_user id) (with_role role) users)
unfolding update
roots_of-role id role [] other absent = refl
roots_of-role id role (u ∷ us) other absent =
    let (here, there) = ||_false (is_root_user id u) (any (is_root_user id) us) absent in
    same_roots u (if is_user id u then with_role role u else u) us _
      (elim (Bool-cases (is_user id u)) [
        | inl e ↦ rw e (ground (arith, here) ∙ sym other)
        | inr e ↦ rw e refl
      ])
      (elim (Bool-cases (is_user id u)) [ inl e ↦ rw e refl | inr e ↦ rw e refl ])
      (roots_of-role id role us other there)

roots_of-delete :
    (id : Uuid) (users : List User)
    → any (is_root_user id) users ≡ false
    → roots_of users ≡ roots_of (where_ (λ u. not (is_user id u)) users)
unfolding where_
roots_of-delete id [] absent = refl
roots_of-delete id (u ∷ us) absent =
    let (here, there) = ||_false (is_root_user id u) (any (is_root_user id) us) absent in
    elim (Bool-cases (is_user id u)) [
      | inl e ↦
          let plain : is_root u ≡ false = ground (arith, here) in
          rw e (
            roots_of-cons u us
            ∙ ap (λ b. counted b u.id (roots_of us)) plain
            ∙ roots_of-delete id us there)
      | inr e ↦ rw e (same_roots u u us _ refl refl (roots_of-delete id us there))
    ]

insert-SameRoots :
    (fold : Text → Text) (row : User) (d e : Db) (a : User)
    → is_root row ≡ false
    → insert_user fold row d ≡ done a e
    → SameRoots d e
insert-SameRoots fold row d e a plain h =
    ap (λ b. counted b row.id (roots_of d.users)) (sym plain)
    ∙ sym (roots_of-cons row d.users)
    ∙ ap (λ x. roots_of x.users) (insert_inv fold row d e a h)

update_role-SameRoots :
    (id : Uuid) (role : UserRole) (d e : Db) (n : ℕ)
    → role_eq role UserRole.root ≡ false
    → update_role id role d ≡ done n e
    → SameRoots d e
update_role-SameRoots id role d e n plain h =
    let (protected, same) = update_role_inv id role d e n h in
    let absent : any (is_root_user id) d.users ≡ false = ground (arith, plain) in
    roots_of-role id role d.users plain absent ∙ ap (λ x. roots_of x.users) same

remove_user-SameRoots : (id : Uuid) (d e : Db) (n : ℕ) → remove_user id d ≡ done n e → SameRoots d e
remove_user-SameRoots id d e n h =
    let (protected, put) = remove_user_inv id d e n h in
    roots_of-delete id d.users protected ∙ ap roots_of (checked-users _ _ n _ e put)

create_user-moves :
    (u : User) → role_eq u.role UserRole.root ≡ false → Moves SameRoots (create_user u)
unfolding create_user
create_user-moves u plain = record {
  at = λ w.
      (Moves-statement SameRoots-pre _ λ id t d e a h.
          insert-SameRoots w.env.fold_case (record u { id = id; created_at = t }) d e a plain h).at
        w;
}

set_password-moves : (id : Uuid) (hash : Text) → Moves SameRoots (set_password id hash)
unfolding set_password
set_password-moves id hash =
    Moves-bind SameRoots-pre _ _
      (Moves-user_statement SameRoots-pre _ λ d e n h.
        roots_of-update (is_user id) (with_password hash) d.users (λ u. refl) (λ u. refl)
        ∙ ap (λ x. roots_of x.users) (done-db _ n _ e h))
      (λ n. Moves-refuse_if SameRoots-pre _ _)

set_user_role-moves :
    (id : Uuid) (role : UserRole)
    → role_eq role UserRole.root ≡ false
    → Moves SameRoots (set_user_role id role)
unfolding set_user_role
set_user_role-moves id role plain =
    Moves-bind SameRoots-pre _ _
      (Moves-user_statement SameRoots-pre _ λ d e n h. update_role-SameRoots id role d e n plain h)
      (λ n. Moves-refuse_if SameRoots-pre _ _)

delete_user-moves : (id : Uuid) → Moves SameRoots (delete_user id)
unfolding delete_user
delete_user-moves id =
    Moves-bind SameRoots-pre _ _
      (Moves-user_statement SameRoots-pre _ λ d e n h. remove_user-SameRoots id d e n h)
      (λ n. Moves-refuse_if SameRoots-pre _ _)

pub SameRoots-users : UserSteps SameRoots
SameRoots-users = record {
  create = create_user-moves;
  password = set_password-moves;
  role = set_user_role-moves;
  delete = delete_user-moves;
}
