-- ===== src/Auth/Service/Passwords.antt =====
-- `ChangePassword` of server/go/internal/auth/service.go.
use mathlib.Core.Path.{subst}
use project_dia.Prelude.{
  ℕ, ◌≤◌, ◌≡◌, refl, sym, ap, ◌∙◌, false, Option, none, some, List, [], ◌∷◌, first, update, length,
  Bool-cases, inl, inr, arith, count_where,
}
use project_dia.Prelude.Text.{Text}
use project_dia.Domain.{Uuid, User}
use project_dia.Errors.{Error, DbError}
use project_dia.Store.World.{World, Db, done, advance, ok, pure, ◌>>=◌}
use project_dia.Store.World.Laws.{wrote}
use project_dia.Store.World.Inversion.{bind_inv, then_inv, query_row_inv, refuse_if_inv}
use project_dia.Store.Users.{
  is_user, get_user_by_id, set_password, with_password, user_statement, attempt_user,
}
use project_dia.Store.Sessions.{read_random}
use project_dia.Store.Sessions.Laws.{drawn_inv}
use project_dia.Auth.Password.{
  Crypto, format_hash, derive, argon_salt_len, min_password_length, validate_password,
  hash_password, verify_password,
}
use project_dia.Auth.Password.RoundTrip.{IsSound, verify_password-hash_password}
use project_dia.Auth.Service.{AuthService, audit, refuse_error, change_password}
use project_dia.Auth.Service.Sessions.{audit_keeps, refuse_password_inv, not_raised}

hash_password_inv :
    (c : Crypto) (password hash : Text) (w v : World)
    → hash_password c password w ≡ (ok hash, v)
    → v ≡ advance w
unfolding hash_password read_random ◌>>=◌
hash_password_inv c password hash w v h =
    drawn_inv (λ salt. format_hash c salt (derive c password salt)) w v
      (w.env.random w.tick argon_salt_len) hash h

refuse_error_inv :
    (o : Option Error) (a : Unit {0}) (w v : World)
    → refuse_error o w ≡ (ok a, v)
    → (o ≡ none) × (v ≡ w)
unfolding refuse_error pure
refuse_error_inv none a w v h = (refl, cc)
refuse_error_inv (some e) a w v h = absurd (not_raised e a w v h)

long_enough :
    (password : Text) → validate_password password ≡ none → min_password_length ≤ length password
unfolding validate_password
long_enough password h = ground arith

written :
    (w v : World) (o : Option DbError) (n m : ℕ) (d : Db)
    → attempt_user w o (done n d) ≡ (ok m, v)
    → v.db ≡ d
written w v none n m d h = cc
written w v (some e) n m d h = cc

set_password_inv :
    (id : Uuid) (hash : Text) (a : Unit {0}) (w v : World)
    → set_password id hash w ≡ (ok a, v)
    → v.db.users ≡ update (is_user id) (with_password hash) w.db.users
unfolding set_password user_statement
set_password_inv id hash a w v h =
    let (n, u, stated, h1) = bind_inv _ _ w v a h in
    let (_, same) = refuse_if_inv _ _ a u v h1 in
    ap (λ x. x.db.users) same
    ∙ ap (λ d. d.users)
        (written w u (w.env.fault w.tick) (count_where (is_user id) w.db.users) n
          (record w.db { users = update (is_user id) (with_password hash) w.db.users }) stated)

first-update :
    (id : Uuid) (hash : Text) (users : List User) (user : User)
    → first (is_user id) users ≡ some user
    → first (is_user id) (update (is_user id) (with_password hash) users)
      ≡ some (with_password hash user)
unfolding first update
first-update id hash [] user h = cc
first-update id hash (u ∷ us) user h = elim (Bool-cases (is_user id u)) [
  | inl e ↦
      let same : u ≡ user = ground arith in rw (e, e) (ap (λ x. some (with_password hash x)) same)
  | inr e ↦ rw (e, e) (first-update id hash us user (ground arith))
]

-- What a successful change of a password leaves: the user's row accepts the new password and no longer
-- asks for a change, the old password had been checked, and the new one has twelve bytes at least.
pub change_password-verify :
    (s : AuthService) (id : Uuid) (current new : Text) (w v : World)
    → IsSound s.crypto w.env
    → change_password s id current new w ≡ (ok tt, v)
    → (old changed : User) × (first (is_user id) w.db.users ≡ some old)
      × (verify_password s.crypto current old.password_hash ≡ none)
      × (first (is_user id) v.db.users ≡ some changed)
      × (verify_password s.crypto new changed.password_hash ≡ none)
      × (changed.must_change_password ≡ false)
      × (min_password_length ≤ length new)
unfolding change_password get_user_by_id
change_password-verify s id current new w v sound h =
    let (old, w1, got, h1) = bind_inv _ _ w v tt h in
    let (found, e1) = query_row_inv _ w w1 old got in
    let (_, w2, checked, h2) = then_inv _ _ w1 v tt h1 in
    let (accepted, e2) = refuse_password_inv _ _ _ _ _ w1 w2 checked in
    let (_, w3, valid, h3) = then_inv _ _ w2 v tt h2 in
    let (long, e3) = refuse_error_inv _ _ w2 w3 valid in
    let here : w3 ≡ wrote w w.db = e3 ∙ e2 ∙ e1 in
    let (hash, w4, hashed, h4) = bind_inv _ _ w3 v tt h3 in
    let (_, w5, stored, h5) = then_inv _ _ w4 v tt h4 in
    let row = set_password_inv id hash _ w4 w5 stored in
    let kept = audit_keeps (some id) "auth.password_changed" id w5 in
    let ended : v ≡ (audit (some id) "auth.password_changed" id w5).1 = ap (λ x. x.1) (sym h5) in
    let before : w4.db.users ≡ w.db.users =
      ap (λ x. x.db.users) (hash_password_inv s.crypto new hash w3 w4 hashed)
      ∙ ap (λ x. x.db.users) here in
    let users : v.db.users ≡ update (is_user id) (with_password hash) w.db.users =
      ap (λ x. x.db.users) ended
      ∙ kept.1
      ∙ row
      ∙ ap (update (is_user id) (with_password hash)) before in
    (
      old,
      with_password hash old,
      found,
      accepted,
      ap (first (is_user id)) users ∙ first-update id hash w.db.users old found,
      (verify_password-hash_password s.crypto new new hash w3 w4
          (subst (λ x. IsSound s.crypto x.env) (sym here) sound) hashed).0,
      refl,
      long_enough new long,
    )
