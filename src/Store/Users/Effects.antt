-- ===== src/Store/Users/Effects.antt =====
-- What the statements on users must have passed to change the table.
use project_dia.Prelude.{
  ℕ, ◌≡◌, refl, Bool, true, false, not, ◌&&◌, ◌∷◌, any, where_, count_where, update, ◌==◌,
  if◌then◌else◌,
}
use project_dia.Prelude.Text.{Text}
use project_dia.Domain.{Uuid, User, UserRole, role_eq}
use project_dia.Errors.{DbError, pg, unique_violation, foreign_key_violation}
use project_dia.Store.World.{Db, Effect, done, failed}
use project_dia.Store.Passes.{put_passes}
use project_dia.Store.Users.{
  is_root, is_user, is_root_user, is_named, restrict_violation, invalid_enum_value, is_unknown,
  is_other_root, with_role, insert_user, update_role, remove_user, forget_in_pass, forget_in_config,
}

-- An effect that was not refused went on.
went_on :
    {A : Type 0} (b : Bool) (x : DbError) (rest : Effect A) (a : A) (e : Db)
    → (if b then failed x else rest) ≡ done a e
    → (b ≡ false) × (rest ≡ done a e)
went_on true x rest a e h = cc
went_on false x rest a e h = (refl, h)

pub done-db : {A : Type 0} (a b : A) (d e : Db) → ◌≡◌ {A = Effect A} (done a d) (done b e) → d ≡ e
done-db a b d e h = cc

pub insert_inv :
    (fold : Text → Text) (row : User) (d e : Db) (a : User)
    → insert_user fold row d ≡ done a e
    → record d { users = row ∷ d.users } ≡ e
insert_inv fold row d e a h =
    let changed : Db = record d { users = row ∷ d.users } in
    let (known, h1) = went_on (is_unknown row.role) (pg "" invalid_enum_value) _ a e h in
    let (free, h2) =
      went_on (any (is_named fold row.username) d.users) (pg "users_username_key" unique_violation)
        _ a e h1 in
    let (single, h3) =
      went_on (is_root row && any is_root d.users) (pg "users_single_root" unique_violation)
        (done row changed) a e h2 in
    done-db row a changed e h3

pub update_role_inv :
    (id : Uuid) (role : UserRole) (d e : Db) (n : ℕ)
    → update_role id role d ≡ done n e
    → ((not (role_eq role UserRole.root) && any (is_root_user id) d.users) ≡ false)
      × (record d { users = update (is_user id) (with_role role) d.users } ≡ e)
update_role_inv id role d e n h =
    let changed : Db = record d { users = update (is_user id) (with_role role) d.users } in
    let (known, h1) = went_on (is_unknown role) (pg "" invalid_enum_value) _ n e h in
    let (protected, h2) =
      went_on (not (role_eq role UserRole.root) && any (is_root_user id) d.users)
        (pg "" restrict_violation) _ n e h1 in
    let (single, h3) =
      went_on
        (role_eq role UserRole.root && any (is_user id) d.users && any (is_other_root id) d.users)
        (pg "users_single_root" unique_violation) (done (count_where (is_user id) d.users) changed)
        n e h2 in
    (protected, done-db _ n changed e h3)

-- The tables without a user, before the passes forget the user.
abbrev pub without_user : Uuid → Db → Db
without_user id d = record d {
  users = where_ (λ u. not (is_user id u)) d.users;
  configs = update (λ _. true) (forget_in_config id) d.configs;
}

pub remove_user_inv :
    (id : Uuid) (d e : Db) (n : ℕ)
    → remove_user id d ≡ done n e
    → (any (is_root_user id) d.users ≡ false)
      × (put_passes
            (count_where (is_user id) d.users)
            (update (λ _. true) (forget_in_pass id) d.passes)
            (without_user id d)
          ≡ done n e)
remove_user_inv id d e n h =
    let (protected, h1) =
      went_on (any (is_root_user id) d.users) (pg "" restrict_violation) _ n e h in
    let (free, h2) =
      went_on (any (is_user id) d.users && any (λ p. p.requested_by == id) d.passes)
        (pg "passes_requested_by_fkey" foreign_key_violation)
        (put_passes (count_where (is_user id) d.users)
          (update (λ _. true) (forget_in_pass id) d.passes) (without_user id d))
        n e h1 in
    (protected, h2)
