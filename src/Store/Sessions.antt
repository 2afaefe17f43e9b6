-- ===== src/Store/Sessions.antt =====
-- server/go/internal/store/sessions.go. Redis may refuse any command, and forgets an entry when its
-- time has come. A session is kept as it is, where the code writes it as JSON and reads it back; the
-- digest of a token is a parameter.
pub mod Laws
use project_dia.Prelude.{
  ℕ, suc, ◌++◌, not, Bool, true, false, Option, none, some, List, [], ◌∷◌, first, where_, ◌&&◌,
  if◌then◌else◌,
}
use project_dia.Prelude.Int.{pos, ◌+ℤ◌, ltb_ℤ, leb_ℤ}
use project_dia.Prelude.Text.{Text, codes, text_eq}
use project_dia.Prelude.Base64.{encode, url_alphabet}
use project_dia.Domain.{Time, Duration}
use project_dia.Errors.{Error, DbError, driver, session_not_found, ttl_not_positive, no_entropy}
use project_dia.Store.World.{
  World, Session, StoredSession, Action, Result, ok, err, advance, pure, raise, require, refuse_if,
  ◌>>=◌, ◌>>◌,
}

abbrev pub session_key_prefix : Text
session_key_prefix = codes "aagasa:session:"

abbrev pub token_bytes : ℕ
token_bytes = 32

-- `rand.Read`
abbrev pub drawn : World → Option (List ℕ) → Result (List ℕ) × World
drawn w none = (err no_entropy, advance w)
drawn w (some bytes) = (ok bytes, advance w)

unfoldable pub read_random : ℕ → Action (List ℕ)
read_random size w = drawn w (w.env.random w.tick size)

unfoldable pub new_token : Action Text
new_token = do bytes ← read_random token_bytes; pure (encode url_alphabet bytes)

-- A command to Redis, at the time of its clock.
abbrev pub command {ℓ} :
    {A : Type ℓ} → World → Option DbError → Result A × List StoredSession → Result A × World
command w (some e) x = (err (driver e), advance w)
command w none (r, entries) = (r, record w { tick = suc w.tick; sessions = entries })

unfoldable pub redis {ℓ} :
    {A : Type ℓ} → (Time → List StoredSession → Result A × List StoredSession) → Action A
redis f w = command w (w.env.fault w.tick) (f (w.env.clock w.tick) w.sessions)

abbrev pub has_key : Text → StoredSession → Bool
has_key k e = text_eq e.key k

abbrev pub is_live : Text → Time → StoredSession → Bool
is_live k t e = has_key k e && ltb_ℤ t e.expires_at

abbrev pub without : Text → List StoredSession → List StoredSession
without k entries = where_ (λ e. not (has_key k e)) entries

abbrev pub found_session : Option StoredSession → Result Session
found_session none = err session_not_found
found_session (some e) = ok e.session

module _ (sha256_hex : Text → Text) where
  unfoldable pub key : Text → Text
  key token = session_key_prefix ++ sha256_hex token

  unfoldable pub create : Text → Session → Duration → Action (Unit {0})
  unfolding key
  create token session ttl = do
    refuse_if (leb_ℤ ttl (pos 0)) ttl_not_positive
    redis λ t entries. (
      ok tt,
      record { key = key token; session = session; expires_at = t +ℤ ttl }
          ∷ without (key token) entries,
    )

  unfoldable pub get : Text → Action Session
  unfolding key
  get token = redis λ t entries. (found_session (first (is_live (key token) t) entries), entries)

  unfoldable pub delete : Text → Action (Unit {0})
  unfolding key
  delete token = redis λ t entries. (ok tt, without (key token) entries)
