-- ===== src/Store/Users/Bookings.antt =====
-- What the statements on users mean for a relation that only looks at the passes.
use project_dia.Prelude.{ℕ, ◌≡◌, ap, true, update}
use project_dia.Prelude.Text.{Text}
use project_dia.Domain.{Uuid, User, UserRole}
use project_dia.Store.World.{Db, done}
use project_dia.Store.World.Moves.{IsPreorder, Moves, Moves-statement, Moves-bind, Moves-refuse_if}
use project_dia.Store.Passes.{put_passes}
use project_dia.Store.Users.{create_user, set_password, set_user_role, delete_user, forget_in_pass}
use project_dia.Store.Users.Effects.{
  insert_inv, update_role_inv, remove_user_inv, without_user, done-db,
}
use project_dia.Store.Users.Root.{UserSteps, Moves-user_statement}

module _ {ℓ} {R : Db → Db → Type ℓ} (pre : IsPreorder R)
    (elsewhere : (c d : Db) → c.passes ≡ d.passes → R c d)
    (forgotten : (id : Uuid) (n m : ℕ) (c d : Db)
      → put_passes n (update (λ _. true) (forget_in_pass id) c.passes) (without_user id c)
        ≡ done m d
      → R c d) where
  create-moves : (u : User) → Moves R (create_user u)
  unfolding create_user
  create-moves u = record {
    at = λ w.
        (Moves-statement pre _ λ id t d e a h. elsewhere d e (
            ap (λ x. x.passes)
              (insert_inv w.env.fold_case (record u { id = id; created_at = t }) d e a h))).at
          w;
  }

  password-moves : (id : Uuid) (hash : Text) → Moves R (set_password id hash)
  unfolding set_password
  password-moves id hash =
      Moves-bind pre _ _
        (Moves-user_statement pre _
          λ d e n h. elsewhere d e (ap (λ x. x.passes) (done-db _ n _ e h)))
        (λ n. Moves-refuse_if pre _ _)

  role-moves : (id : Uuid) (role : UserRole) → Moves R (set_user_role id role)
  unfolding set_user_role
  role-moves id role =
      Moves-bind pre _ _
        (Moves-user_statement pre _
          λ d e n h. elsewhere d e (ap (λ x. x.passes) (update_role_inv id role d e n h).1))
        (λ n. Moves-refuse_if pre _ _)

  delete-moves : (id : Uuid) → Moves R (delete_user id)
  unfolding delete_user
  delete-moves id =
      Moves-bind pre _ _
        (Moves-user_statement pre _ λ d e n h. forgotten id _ n d e (remove_user_inv id d e n h).1)
        (λ n. Moves-refuse_if pre _ _)

  pub booking_users : UserSteps R
  booking_users = record {
    create = λ u _. create-moves u;
    password = password-moves;
    role = λ id role _. role-moves id role;
    delete = delete-moves;
  }
