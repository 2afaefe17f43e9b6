-- ===== src/Auth/Service/Sessions.antt =====
-- `Login`, `Resolve` and `Logout` of server/go/internal/auth/service.go together.
use mathlib.Core.Path.{subst}
use project_dia.Prelude.{
  ◌≡◌, ◌≢◌, refl, sym, ap, ◌∙◌, Option, none, some, ◌∷◌, first, String, suc, Option-cases, inl, inr,
}
use project_dia.Prelude.Int.{◌+ℤ◌}
use project_dia.Prelude.Text.{Text}
use project_dia.Domain.{Uuid, Time, User}
use project_dia.Errors.{Error, invalid_credentials}
use project_dia.Store.World.{
  World, ok, attempt, statement, now, advance, ◌>>=◌, ◌>>◌, rescue, raise, pure,
}
use project_dia.Store.World.Laws.{wrote}
use project_dia.Store.World.Inversion.{
  bind_inv, then_inv, query_row_inv, rescue-raise_inv, pure_inv,
}
use project_dia.Store.Reads.{append_audit}
use project_dia.Store.Users.{is_named, get_user_by_username}
use project_dia.Store.Sessions.{key, without}
use project_dia.Store.Sessions.Laws.{entry, new_token_inv, create_inv}
use project_dia.Auth.Password.{verify_password}
use project_dia.Auth.Service.{AuthService, LoginResult, audit, refuse_password, login}

pub not_raised {ℓ} : {A : Type ℓ} (e : Error) (a : A) (w v : World) → raise e w ≢ (ok a, v)
unfolding raise
not_raised e a w v h = cc

now_inv : (w v : World) (t : Time) → now w ≡ (ok t, v) → (t ≡ w.env.clock w.tick) × (v ≡ advance w)
unfolding now
now_inv w v t h = (cc, cc)

-- What an audit record leaves alone, whether or not it is written.
pub audit_keeps :
    (actor : Option Uuid) (action : String) (id : Uuid) (w : World)
    → ((audit actor action id w).1.sessions ≡ w.sessions)
      × ((audit actor action id w).1.db.users ≡ w.db.users)
      × ((audit actor action id w).0 ≡ ok tt)
unfolding audit rescue append_audit statement ◌>>◌ ◌>>=◌ pure
audit_keeps actor action id w = elim (Option-cases (w.env.fault w.tick)) [
  | inl e ↦ rw (e, attempt) (refl, refl, refl)
  | inr (x, e) ↦ rw (e, attempt) (refl, refl, refl)
]

-- A password that was not refused was accepted, and nothing happened.
pub refuse_password_inv :
    (o : Option Error) (actor : Option Uuid) (action : String) (id : Uuid) (a : Unit {0})
    (w v : World)
    → refuse_password o actor action id w ≡ (ok a, v)
    → (o ≡ none) × (v ≡ w)
unfolding refuse_password pure
refuse_password_inv none actor action id a w v h = (refl, cc)
refuse_password_inv (some e) actor action id a w v h =
    let (_, u, _, raised) = then_inv _ _ w v a h in
    absurd (not_raised invalid_credentials a u v raised)

-- What a successful login found and left.
pub record LoggedIn (s : AuthService) (username password : Text) (w v : World) (r : LoginResult)
    : Type 0 where
  pub found : first (is_named w.env.fold_case username) w.db.users ≡ some r.user
  pub accepted : verify_password s.crypto password r.user.password_hash ≡ none
  pub expiry : r.expires_at ≡ w.env.clock (suc (suc w.tick)) +ℤ s.session_ttl
  pub stored :
      v.sessions
      ≡ entry s.crypto.sha256_hex r.token
          (record {
            user_id = r.user.id;
            role = r.user.role;
            created_at = w.env.clock (suc (suc w.tick));
          })
          s.session_ttl
          (w.env.clock (suc (suc (suc w.tick))))
        ∷ without (key s.crypto.sha256_hex r.token) w.sessions
  pub same_users : v.db.users ≡ w.db.users

get_user_by_username_inv :
    (name : Text) (w v : World) (user : User)
    → get_user_by_username name w ≡ (ok user, v)
    → (first (is_named w.env.fold_case name) w.db.users ≡ some user) × (v ≡ wrote w w.db)
unfolding get_user_by_username
get_user_by_username_inv name w v user h = query_row_inv _ w v user h

pub login_inv :
    (s : AuthService) (username password : Text) (w v : World) (r : LoginResult)
    → login s username password w ≡ (ok r, v)
    → LoggedIn s username password w v r
unfolding login
login_inv s username password w v r h =
    let (user, w1, got, h1) = bind_inv _ _ w v r h in
    let (found, e1) =
      get_user_by_username_inv username w w1 user (rescue-raise_inv _ _ w w1 user got) in
    let (_, w2, checked, h2) = then_inv _ _ w1 v r h1 in
    let (accepted, e2) = refuse_password_inv _ _ _ _ _ w1 w2 checked in
    let (token, w3, drew, h3) = bind_inv _ _ w2 v r h2 in
    let at_clock : w3 ≡ record w { tick = suc (suc w.tick) } =
      new_token_inv w2 w3 token drew ∙ ap advance (e2 ∙ e1) in
    let (at, w4, read, h4) = bind_inv _ _ w3 v r h3 in
    let (e_at, e4) = now_inv w3 w4 at read in
    let at_redis : w4 ≡ record w { tick = suc (suc (suc w.tick)) } = e4 ∙ ap advance at_clock in
    let (_, w5, made, h5) = then_inv _ _ w4 v r h4 in
    let e5 = create_inv _ _ _ _ w4 w5 made in
    let (_, w6, audited, h6) = then_inv _ _ w5 v r h5 in
    let kept = audit_keeps (some user.id) "auth.login" user.id w5 in
    let (result, e7) = pure_inv _ r w6 v h6 in
    let at_eq : at ≡ w.env.clock (suc (suc w.tick)) =
      e_at ∙ ap (λ x. x.env.clock x.tick) at_clock in
    let last : v ≡ (audit (some user.id) "auth.login" user.id w5).1 =
      sym e7 ∙ ap (λ x. x.1) (sym audited) in
    subst (LoggedIn s username password w v) result (record {
      found = found;
      accepted = accepted;
      expiry = ap (λ t. t +ℤ s.session_ttl) at_eq;
      stored =
          (ap (λ x. x.sessions) last
            ∙ kept.0
            ∙ ap (λ x. x.sessions) e5
            ∙ ap
                (λ x.
                  entry s.crypto.sha256_hex token
                    (record { user_id = user.id; role = user.role; created_at = at }) s.session_ttl
                    (x.env.clock x.tick)
                  ∷ without (key s.crypto.sha256_hex token) x.sessions)
                at_redis
            ∙ ap
                (λ t.
                  entry s.crypto.sha256_hex token
                    (record { user_id = user.id; role = user.role; created_at = t }) s.session_ttl
                    (w.env.clock (suc (suc (suc w.tick))))
                  ∷ without (key s.crypto.sha256_hex token) w.sessions)
                at_eq);
      same_users =
          (ap (λ x. x.db.users) last
            ∙ kept.1
            ∙ ap (λ x. x.db.users) e5
            ∙ ap (λ x. x.db.users) at_redis);
    })
