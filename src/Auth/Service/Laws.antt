-- ===== src/Auth/Service/Laws.antt =====
-- `Resolve` and `Logout` of server/go/internal/auth/service.go after a `Login`, when neither Redis nor
-- PostgreSQL fails.
use mathlib.Core.Path.{subst}
use project_dia.Prelude.{◌≡◌, ap, ◌∙◌, suc, true, none, some, first, arith}
use project_dia.Prelude.Int.{ℤ, ◌+ℤ◌, ◌≤ℤ◌, ◌<ℤ◌, ltb_ℤ, +ℤ_parts}
use project_dia.Prelude.Text.{Text}
use project_dia.Domain.{User, Time}
use project_dia.Errors.{unauthenticated, session_not_found, not_found}
use project_dia.Store.World.{World, Session, ok, err, raise, ◌>>◌}
use project_dia.Store.World.Laws.{
  NoFaults, wrote, bind_ok, bind_err, then_ok, found_row, missing_row, rescue_ok, rescue_err,
}
use project_dia.Store.Users.{is_user, get_user_by_id}
use project_dia.Store.Users.Laws.{IsKeyed, first-is_user}
use project_dia.Store.Sessions.{get, delete, key, without, is_live, found_session}
use project_dia.Store.Sessions.Laws.{get-entry, with_sessions, redis_lem, absent}
use project_dia.Auth.Service.{AuthService, LoginResult, login, logout, resolve}
use project_dia.Auth.Service.Sessions.{LoggedIn, login_inv}

before_expiry : (t a b d : ℤ) → a ≤ℤ b → t <ℤ a +ℤ d → ltb_ℤ t (b +ℤ d) ≡ true
before_expiry t a b d h k = ground (arith, +ℤ_parts a d, +ℤ_parts b d)

module _ (s : AuthService) (u : World) (n : NoFaults u) (token : Text) where
  abbrev read : World
  read = with_sessions u u.sessions

  pub resolve_found :
      (session : Session) (user : User)
      → get s.crypto.sha256_hex token u ≡ (ok session, read)
      → first (is_user session.user_id) u.db.users ≡ some user
      → resolve s token u ≡ (ok user, wrote read u.db)
  unfolding resolve get_user_by_id
  resolve_found session user g h =
      bind_ok _ _ u read session (rescue_ok _ _ u read session g)
      ∙ rescue_ok _ _ read _ user (found_row _ read user n h)

  pub resolve_missing :
      (v : World)
      → get s.crypto.sha256_hex token u ≡ (err session_not_found, v)
      → resolve s token u ≡ (err unauthenticated, v)
  unfolding resolve raise
  resolve_missing v g = bind_err _ _ u v unauthenticated (rescue_err _ _ u v session_not_found g)

  abbrev dropped : World
  dropped = with_sessions (wrote read u.db) (without (key s.crypto.sha256_hex token) u.sessions)

  pub resolve_gone :
      (session : Session)
      → get s.crypto.sha256_hex token u ≡ (ok session, read)
      → first (is_user session.user_id) u.db.users ≡ none
      → resolve s token u ≡ (err unauthenticated, dropped)
  unfolding resolve get_user_by_id delete raise
  resolve_gone session g h =
      bind_ok _ _ u read session (rescue_ok _ _ u read session g)
      ∙ rescue_err _ _ read (wrote read u.db) not_found (missing_row _ read n h)
      ∙ then_ok _ _ _ dropped tt (rescue_ok _ _ _ dropped tt (redis_lem _ (wrote read u.db) n))

-- A token whose entries were taken out has no session.
not_stored :
    (s : AuthService) (token : Text) (u : World)
    → NoFaults u
    → get s.crypto.sha256_hex token
        (with_sessions u (without (key s.crypto.sha256_hex token) u.sessions))
      ≡ (
        err session_not_found,
        with_sessions
            (with_sessions u (without (key s.crypto.sha256_hex token) u.sessions))
            (without (key s.crypto.sha256_hex token) u.sessions),
      )
unfolding get
not_stored s token u n =
    let out = with_sessions u (without (key s.crypto.sha256_hex token) u.sessions) in
    redis_lem _ out n
    ∙ ap (λ o. (found_session o, with_sessions out out.sessions))
        (absent s.crypto.sha256_hex (key s.crypto.sha256_hex token) _ u.sessions)

module _ (s : AuthService) (username password : Text) (w v u : World) (r : LoginResult)
    (steady : w.env.clock (suc (suc w.tick)) ≤ℤ w.env.clock (suc (suc (suc w.tick))))
    (logged : login s username password w ≡ (ok r, v)) (n : NoFaults u)
    (sessions : u.sessions ≡ v.sessions) (early : u.env.clock u.tick <ℤ r.expires_at) where
  abbrev facts : LoggedIn s username password w v r
  facts = login_inv s username password w v r logged

  abbrev session : Session
  session = record {
    user_id = r.user.id;
    role = r.user.role;
    created_at = w.env.clock (suc (suc w.tick));
  }

  live : ltb_ℤ (u.env.clock u.tick) (w.env.clock (suc (suc (suc w.tick))) +ℤ s.session_ttl) ≡ true
  live =
      before_expiry (u.env.clock u.tick) (w.env.clock (suc (suc w.tick)))
        (w.env.clock (suc (suc (suc w.tick)))) s.session_ttl steady
        (subst (λ t. u.env.clock u.tick <ℤ t) facts.expiry early)

  got : get s.crypto.sha256_hex r.token u ≡ (ok session, with_sessions u u.sessions)
  got =
      get-entry s.crypto.sha256_hex r.token session s.session_ttl
        (w.env.clock (suc (suc (suc w.tick)))) _ u n (sessions ∙ facts.stored) live

-- After a login the token resolves to the user who logged in, until the expiry that the login
-- announced, provided that the sessions and the users are still those that it left, that the clock
-- did not run backwards during the login, that no two users share an identifier, and that neither
-- Redis nor PostgreSQL fails.
pub login-resolve :
    (s : AuthService) (username password : Text) (w v u : World) (r : LoginResult)
    → IsKeyed w.db.users
    → w.env.clock (suc (suc w.tick)) ≤ℤ w.env.clock (suc (suc (suc w.tick)))
    → login s username password w ≡ (ok r, v)
    → NoFaults u
    → u.sessions ≡ v.sessions
    → u.db.users ≡ v.db.users
    → u.env.clock u.tick <ℤ r.expires_at
    → (resolve s r.token u).0 ≡ ok r.user
login-resolve s username password w v u r keyed steady logged n sessions users early =
    let known = facts s username password w v u r steady logged n sessions early in
    ap (λ x. x.0)
      (resolve_found s u n r.token _ r.user
        (got s username password w v u r steady logged n sessions early)
        (ap (first (is_user r.user.id)) (users ∙ known.same_users)
          ∙ first-is_user _ w.db.users r.user keyed known.found))

-- Once the account is deleted, the token of an earlier login, not yet expired, no longer resolves,
-- and the attempt forgets the session, so that none is found for the token in what it leaves, at any
-- time; provided that the sessions are those that the login left, that the clock did not run backwards
-- during the login, and that neither Redis nor PostgreSQL fails from then on.
pub login-gone :
    (s : AuthService) (username password : Text) (w v u : World) (r : LoginResult) (t : Time)
    → w.env.clock (suc (suc w.tick)) ≤ℤ w.env.clock (suc (suc (suc w.tick)))
    → login s username password w ≡ (ok r, v)
    → NoFaults u
    → u.sessions ≡ v.sessions
    → first (is_user r.user.id) u.db.users ≡ none
    → u.env.clock u.tick <ℤ r.expires_at
    → ((resolve s r.token u).0 ≡ err unauthenticated)
      × (first (is_live (key s.crypto.sha256_hex r.token) t) (resolve s r.token u).1.sessions
          ≡ none)
login-gone s username password w v u r t steady logged n sessions deleted early =
    let run =
      resolve_gone s u n r.token _ (got s username password w v u r steady logged n sessions early)
        deleted in
    (
      ap (λ x. x.0) run,
      ap (λ x. first (is_live (key s.crypto.sha256_hex r.token) t) x.1.sessions) run
          ∙ absent s.crypto.sha256_hex (key s.crypto.sha256_hex r.token) t u.sessions,
    )

-- After a logout the token resolves to nobody, whoever it belonged to, if neither Redis nor
-- PostgreSQL fails.
pub logout-resolve :
    (s : AuthService) (token : Text) (u : World)
    → NoFaults u
    → ((do logout s token; resolve s token) u).0 ≡ err unauthenticated
unfolding logout delete
logout-resolve s token u n =
    let out = with_sessions u (without (key s.crypto.sha256_hex token) u.sessions) in
    ap (λ x. x.0)
      (then_ok _ _ u out tt (redis_lem _ u n)
        ∙ resolve_missing s out n token _ (not_stored s token u n))
