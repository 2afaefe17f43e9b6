-- ===== src/Store/Sessions/Laws.antt =====
-- What the commands to Redis leave, and what they find.
use mathlib.Core.Path.{subst}
use project_dia.Prelude.{
  ℕ, suc, ◌≡◌, refl, ap, ◌∙◌, true, Option, none, some, List, [], ◌∷◌, first, where_, Bool-cases,
  inl, inr,
}
use project_dia.Prelude.Int.{◌+ℤ◌, ltb_ℤ}
use project_dia.Prelude.Text.{Text, text_eq, text_eq_iff}
use project_dia.Prelude.Base64.{encode, url_alphabet}
use project_dia.Domain.{Time, Duration}
use project_dia.Errors.{DbError}
use project_dia.Store.World.{
  World, Session, StoredSession, Result, ok, advance, pure, ◌>>=◌, continue_with,
}
use project_dia.Store.World.Laws.{NoFaults}
use project_dia.Store.World.Inversion.{then_inv, refuse_if_inv}
use project_dia.Store.Sessions.{
  token_bytes, drawn, read_random, new_token, command, redis, has_key, is_live, without,
  found_session, key, create, get,
}

-- The world after a command.
abbrev pub with_sessions : World → List StoredSession → World
with_sessions w entries = record w { tick = suc w.tick; sessions = entries }

pub drawn_inv :
    (f : List ℕ → Text) (w v : World) (o : Option (List ℕ)) (t : Text)
    → continue_with (λ bytes. pure (f bytes)) (drawn w o) ≡ (ok t, v)
    → v ≡ advance w
unfolding pure
drawn_inv f w v none t h = cc
drawn_inv f w v (some bytes) t h = cc

pub new_token_inv : (w v : World) (t : Text) → new_token w ≡ (ok t, v) → v ≡ advance w
unfolding new_token read_random ◌>>=◌
new_token_inv w v t h = drawn_inv (encode url_alphabet) w v (w.env.random w.tick token_bytes) t h

pub redis_lem {ℓ} :
    {A : Type ℓ} (f : Time → List StoredSession → Result A × List StoredSession) (w : World)
    → NoFaults w
    → redis f w ≡ (
      (f (w.env.clock w.tick) w.sessions).0,
      with_sessions w (f (w.env.clock w.tick) w.sessions).1,
    )
unfolding redis
redis_lem f w n = rw (n w.tick, command) refl

module _ (sha256_hex : Text → Text) where
  abbrev pub entry : Text → Session → Duration → Time → StoredSession
  entry token session ttl t = record {
    key = key sha256_hex token;
    session = session;
    expires_at = t +ℤ ttl;
  }

  created :
      (w v : World) (fault : Option DbError) (entries : List StoredSession)
      → command {A = Unit {0}} w fault (ok tt, entries) ≡ (ok tt, v)
      → v ≡ with_sessions w entries
  created w v none entries h = cc
  created w v (some e) entries h = cc

  -- A session is only created for a positive time.
  pub create_inv :
      (token : Text) (session : Session) (ttl : Duration) (w v : World)
      → create sha256_hex token session ttl w ≡ (ok tt, v)
      → v
        ≡ with_sessions w (
            entry token session ttl (w.env.clock w.tick)
            ∷ without (key sha256_hex token) w.sessions)
  unfolding create redis
  create_inv token session ttl w v h =
      let (_, u, checked, rest) = then_inv _ _ w v tt h in
      let (_, same) = refuse_if_inv _ _ _ w u checked in
      created w v (w.env.fault w.tick)
        (entry token session ttl (w.env.clock w.tick) ∷ without (key sha256_hex token) w.sessions)
        (subst
          (λ x.
            command x (x.env.fault x.tick) (
              ok tt,
              entry token session ttl (x.env.clock x.tick)
                  ∷ without (key sha256_hex token) x.sessions,
            )
            ≡ (ok tt, v))
          same rest)

  key_self : (k : Text) → text_eq k k ≡ true
  key_self k = (text_eq_iff k k).1 refl

  -- The entry of a token is found as long as it has not expired.
  pub get-entry :
      (token : Text) (session : Session) (ttl : Duration) (t : Time) (rest : List StoredSession)
      (u : World)
      → NoFaults u
      → u.sessions ≡ entry token session ttl t ∷ rest
      → ltb_ℤ (u.env.clock u.tick) (t +ℤ ttl) ≡ true
      → get sha256_hex token u ≡ (ok session, with_sessions u u.sessions)
  unfolding get first
  get-entry token session ttl t rest u n h live =
      redis_lem _ u n
      ∙ ap
          (λ l. (
            found_session (first (is_live (key sha256_hex token) (u.env.clock u.tick)) l),
            with_sessions u u.sessions,
          ))
          h
      ∙ rw (key_self (key sha256_hex token), live) refl

  pub absent :
      (k : Text) (t : Time) (entries : List StoredSession)
      → first (is_live k t) (without k entries) ≡ none
  unfolding first where_
  absent k t [] = refl
  absent k t (e ∷ entries) = elim (Bool-cases (has_key k e)) [
    | inl h ↦ rw h (absent k t entries)
    | inr h ↦ rw (h, h) (absent k t entries)
  ]
