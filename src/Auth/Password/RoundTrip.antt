-- ===== src/Auth/Password/RoundTrip.antt =====
-- `VerifyPassword` on what `HashPassword` made.
use mathlib.Core.Path.{subst}
use project_dia.Prelude.{
  ℕ, suc, ◌<◌, ◌^◌, ◌≡◌, ◌≢◌, ◌↔◌, refl, ◌∙◌, ap, sym, Option, none, some, List, [], ◌∷◌, All,
  length, arith,
}
use project_dia.Prelude.Text.{Text, text_eq_iff}
use project_dia.Prelude.Base64.Laws.{IsByte}
use project_dia.Errors.{invalid_hash}
use project_dia.Store.World.{Env, World, ok, pure, continue_with, ◌>>=◌}
use project_dia.Store.Sessions.{read_random, drawn}
use project_dia.Auth.Password.{
  Crypto, HashParts, format_hash, derive, threads_of, hash_password, decode_hash, verify_password,
  compare_key, argon_memory, argon_time, argon_salt_len, argon_key_len,
}
use project_dia.Auth.Password.Format.{decode-format}

-- What is relied on of the machine and of Argon2: a processor, a version that an `int` holds, keys of
-- the length that was asked for, and as many random bytes as were asked for.
pub record IsSound (c : Crypto) (env : Env) : Type 0 where
  pub cpus : 0 < c.num_cpu
  pub known : c.version < 2 ^ 63
  pub key_bytes :
      (password : Text) (salt : List ℕ) (time memory threads size : ℕ)
      → All IsByte (c.id_key password salt time memory threads size)
        × (length (c.id_key password salt time memory threads size) ≡ size)
  pub random_bytes :
      (tick size : ℕ) (bytes : List ℕ)
      → env.random tick size ≡ some bytes
      → All IsByte bytes × (length bytes ≡ size)

ne_nil_of_length : (bytes : List ℕ) (n : ℕ) → length bytes ≡ suc n → bytes ≢ []
ne_nil_of_length [] n h = absurd (omega arith)
ne_nil_of_length (b ∷ bs) n h = λ e. cc

compare_key_iff :
    (c : Crypto) (password : Text) (h : HashParts)
    → (compare_key c password (some h) ≡ none)
      ↔ (c.id_key password h.salt h.time h.memory h.threads (length h.key) ≡ h.key)
compare_key_iff c password h =
    ground
      (arith, text_eq_iff (c.id_key password h.salt h.time h.memory h.threads (length h.key)) h.key)

-- An answer made of random bytes tells which they were.
drawn-answer :
    (f : List ℕ → Text) (w v : World) (o : Option (List ℕ)) (hash : Text)
    → continue_with (λ salt. pure (f salt)) (drawn w o) ≡ (ok hash, v)
    → (salt : List ℕ) × (o ≡ some salt) × (f salt ≡ hash)
unfolding pure
drawn-answer f w v none hash h = cc
drawn-answer f w v (some salt) hash h = (salt, refl, cc)

module _ (c : Crypto) (w v : World) (password hash : Text) (sound : IsSound c w.env)
    (made : hash_password c password w ≡ (ok hash, v)) where
  abbrev salted :
      (salt : List ℕ) × (w.env.random w.tick argon_salt_len ≡ some salt)
      × (format_hash c salt (derive c password salt) ≡ hash)
  unfolding hash_password read_random ◌>>=◌
  salted =
      drawn-answer (λ salt. format_hash c salt (derive c password salt)) w v
        (w.env.random w.tick argon_salt_len) hash made

  abbrev key : List ℕ
  key = derive c password salted.0

  abbrev hash_parts : HashParts
  hash_parts = record {
    memory = argon_memory;
    time = argon_time;
    threads = threads_of c;
    salt = salted.0;
    key = key;
  }

  decoded : decode_hash c hash ≡ some hash_parts
  decoded =
      let (salt_bytes, salt_length) = sound.random_bytes _ _ _ salted.1 in
      let (key_bytes, key_length) =
        sound.key_bytes password salted.0 argon_time argon_memory (threads_of c) argon_key_len in
      ap (decode_hash c) (sym salted.2)
      ∙ decode-format c sound.known sound.cpus salted.0 key salt_bytes key_bytes
          (ne_nil_of_length salted.0 15 salt_length) (ne_nil_of_length key 31 key_length)

  accepted_iff : (q : Text) → (verify_password c q hash ≡ none) ↔ (derive c q salted.0 ≡ key)
  unfolding verify_password
  accepted_iff q =
      let key_length =
        (sound.key_bytes password salted.0 argon_time argon_memory (threads_of c)
          argon_key_len).1 in
      rw decoded (
        subst
          (λ n.
            (compare_key c q (some hash_parts) ≡ none)
            ↔ (c.id_key q salted.0 argon_time argon_memory (threads_of c) n ≡ key))
          key_length (compare_key_iff c q hash_parts))

  not_unusable : (q : Text) → verify_password c q hash ≢ some invalid_hash
  unfolding verify_password
  not_unusable q h = ground (arith, ap (compare_key c q) decoded)

-- A hash that was made from a password is never unusable, and a password passes against it exactly
-- when Argon2 derives the same key from it and the salt that was drawn; the password itself does.
pub verify_password-hash_password :
    (c : Crypto) (password other hash : Text) (w v : World)
    → IsSound c w.env
    → hash_password c password w ≡ (ok hash, v)
    → (verify_password c password hash ≡ none)
      × (verify_password c other hash ≢ some invalid_hash)
      × ((salt : List ℕ) × (w.env.random w.tick argon_salt_len ≡ some salt)
          × ((verify_password c other hash ≡ none)
              ↔ (derive c other salt ≡ derive c password salt)))
unfolding verify_password
verify_password-hash_password c password other hash w v sound made =
    let accepted = accepted_iff c w v password hash sound made in
    (
      (accepted password).1 refl,
      not_unusable c w v password hash sound made other,
      (
        (salted c w v password hash sound made).0,
        (salted c w v password hash sound made).1,
        accepted other,
      ),
    )
