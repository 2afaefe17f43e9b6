-- ===== src/Tests/Accounts.antt =====
-- Logging in, changing the password and logging out, with a toy key derivation.
use mathlib.Core.Path.{subst}
use project_dia.Prelude.{
  where_, count_where, update, sym, ℕ, zero, suc, ◌%◌, ◌<◌, ◌≤◌, ◌≡◌, ◌≢◌, ◌↔◌, refl, true, false,
  none, some, List, [], ◌∷◌, All, first, length, arith,
}
use project_dia.Prelude.Int.{pos, ◌+ℤ◌, pos_part, neg_part}
use project_dia.Prelude.Text.{Text, codes, replicate, text_eq, split_at}
use project_dia.Prelude.Base64.{
  encode, url_alphabet, symbol, sextets, decode, values_of, value_of, from_sextets,
}
use project_dia.Prelude.Base64.Laws.{IsByte}
use project_dia.Domain.{User, UserRole}
use project_dia.Errors.{unauthenticated, invalid_hash}
use project_dia.Store.World.{
  World, Result, ok, err, ◌>>=◌, ◌>>◌, query_row, statement, rescue, raise, pure, now, refuse_if,
}
use project_dia.Store.Reads.{append_audit}
use project_dia.Store.Sessions.{new_token, read_random, create, redis, key, is_live}
use project_dia.Store.Users.{
  is_user, get_user_by_username, get_user_by_id, set_password, user_statement,
}
use project_dia.Auth.Password.{
  Crypto, format_hash, derive, hash_password, verify_password, argon_salt_len, min_password_length,
  decode_hash, decode_fields, scan_version, scan_costs, validate_password,
}
use project_dia.Auth.Password.Scan.{scan_int, scan_uint, expect, decimal}
use project_dia.Auth.Password.RoundTrip.{IsSound, verify_password-hash_password}
use project_dia.Auth.Service.{
  AuthService, LoginResult, login, logout, resolve, change_password, refuse_password, refuse_error,
  audit,
}
use project_dia.Auth.Service.Sessions.{login_inv}
use project_dia.Auth.Service.Laws.{login-resolve, login-gone, logout-resolve}
use project_dia.Auth.Service.Passwords.{change_password-verify}
use project_dia.Tests.Fixtures.{env, at_minute, tables_with, world_with}

-- The key is as many copies of the length of the password as were asked for.
abbrev pub crypto : Crypto
crypto = record {
  version = 19;
  id_key = λ password salt time memory threads size. replicate size (length password % 256);
  sha256_hex = λ text. text;
  num_cpu = 8;
}

abbrev pub auth : AuthService
auth = record { crypto = crypto; session_ttl = at_minute 60 }

abbrev pub old_password : Text
old_password = codes "correct horse"

abbrev pub new_password : Text
new_password = codes "battery staple"

abbrev salt : List ℕ
salt = replicate 16 7

abbrev pub account : User
account = record {
  id = 5;
  username = codes "alice";
  password_hash = format_hash crypto salt (derive crypto old_password salt);
  role = UserRole.user;
  must_change_password = true;
  created_at = pos 0;
}

abbrev pub accounts : World
accounts = record (world_with []) { db = record (tables_with []) { users = account ∷ [] } }

replicated : (n c : ℕ) → c < 256 → All IsByte (replicate n c) × (length (replicate n c) ≡ n)
replicated zero c h = (tt, refl)
replicated (suc n) c h = let (bytes, size) = replicated n c h in ((h, bytes), omega arith)

sound : IsSound crypto env
sound = record {
  cpus = omega arith;
  known = omega arith;
  key_bytes = λ password salt' time memory threads size.
      replicated size (length password % 256) (omega arith);
  random_bytes = λ tick size bytes h.
      let same : replicate size (tick % 256) ≡ bytes = cc in
      subst (λ b. All IsByte b × (length b ≡ size)) same
        (replicated size (tick % 256) (omega arith));
}

abbrev logged_in : Result LoginResult × World
logged_in = login auth (codes "alice") old_password accounts

abbrev pub session : LoginResult
session = record {
  token = encode url_alphabet (replicate 32 233);
  user = account;
  must_change_password = true;
  expires_at = at_minute 61;
}

logged : logged_in ≡ (ok session, logged_in.1)
unfolding login get_user_by_username query_row statement rescue raise pure ◌>>=◌ ◌>>◌ first text_eq
    refuse_password verify_password decode_hash decode_fields split_at decode values_of value_of
    from_sextets encode symbol sextets where_ scan_version scan_costs scan_int scan_uint expect
    decimal new_token read_random now create redis refuse_if audit append_audit format_hash ◌+ℤ◌
    pos_part neg_part
logged = refl

-- Later, with the sessions of the login: nothing else has changed, or the account is gone.
abbrev later : World
later = record accounts { tick = 2000; sessions = logged_in.1.sessions }

abbrev deleted : World
deleted = record later { db = tables_with [] }

login-resolve_example : (resolve auth session.token later).0 ≡ ok account
unfolding pos_part neg_part
login-resolve_example =
    login-resolve auth (codes "alice") old_password accounts logged_in.1 later session (tt, tt)
      (omega arith) logged (λ n. refl) refl
      (sym
        (login_inv auth (codes "alice") old_password accounts logged_in.1 session
          logged).same_users)
      (omega arith)

login-gone_example :
    ((resolve auth session.token deleted).0 ≡ err unauthenticated)
    × (first
          (is_live (key crypto.sha256_hex session.token) (at_minute 2))
          (resolve auth session.token deleted).1.sessions
        ≡ none)
unfolding first pos_part neg_part
login-gone_example =
    login-gone auth (codes "alice") old_password accounts logged_in.1 deleted session (at_minute 2)
      (omega arith) logged (λ n. refl) refl refl (omega arith)

logout-resolve_example :
    ((do logout auth session.token; resolve auth session.token) later).0 ≡ err unauthenticated
logout-resolve_example = logout-resolve auth session.token later (λ n. refl)

-- A hash made at the first event.
abbrev hashed : Result Text × World
hashed = hash_password crypto new_password accounts

abbrev new_hash : Text
new_hash = format_hash crypto (replicate 16 232) (derive crypto new_password (replicate 16 232))

made : hashed ≡ (ok new_hash, hashed.1)
unfolding hash_password read_random ◌>>=◌ pure
made = refl

verify_password-hash_password_example :
    (verify_password crypto new_password new_hash ≡ none)
    × (verify_password crypto old_password new_hash ≢ some invalid_hash)
    × ((drawn : List ℕ) × (accounts.env.random accounts.tick argon_salt_len ≡ some drawn)
        × ((verify_password crypto old_password new_hash ≡ none)
            ↔ (derive crypto old_password drawn ≡ derive crypto new_password drawn)))
verify_password-hash_password_example =
    verify_password-hash_password crypto new_password old_password new_hash accounts hashed.1 sound
      made

abbrev changed_world : Result (Unit {0}) × World
changed_world = change_password auth 5 old_password new_password accounts

changed : changed_world ≡ (ok tt, changed_world.1)
unfolding change_password get_user_by_id query_row statement rescue raise pure ◌>>=◌ ◌>>◌ first
    text_eq refuse_password verify_password decode_hash decode_fields split_at decode values_of
    value_of from_sextets encode symbol sextets where_ scan_version scan_costs scan_int scan_uint
    expect decimal read_random refuse_if audit append_audit format_hash refuse_error
    validate_password hash_password set_password user_statement count_where update
changed = refl

change_password-verify_example :
    (old after : User) × (first (is_user 5) accounts.db.users ≡ some old)
    × (verify_password crypto old_password old.password_hash ≡ none)
    × (first (is_user 5) changed_world.1.db.users ≡ some after)
    × (verify_password crypto new_password after.password_hash ≡ none)
    × (after.must_change_password ≡ false)
    × (min_password_length ≤ length new_password)
change_password-verify_example =
    change_password-verify auth 5 old_password new_password accounts changed_world.1 sound changed
