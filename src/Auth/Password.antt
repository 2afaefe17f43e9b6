-- ===== src/Auth/Password.antt =====
-- server/go/internal/auth/password.go. Argon2 and the machine are parameters; the encodings and
-- `fmt.Sscanf` are those of Go. A random salt is drawn from the environment.
pub mod Scan
pub mod Format
pub mod RoundTrip
use project_dia.Prelude.{
  ℕ, ◌+◌, ◌*◌, ◌^◌, ◌++◌, ◌==◌, ◌&&◌, ◌||◌, not, ltb, Bool, true, false, Option, none, some, List,
  [], ◌∷◌, length, if◌then◌else◌,
}
use project_dia.Prelude.Text.{Text, codes, text_eq, split_at, dollar}
use project_dia.Prelude.Base64.{encode, decode, std_alphabet, and_then}
use project_dia.Errors.{
  Error, password_mismatch, invalid_hash, password_too_short, password_is_bootstrap,
}
use project_dia.Store.World.{Action, pure, ◌>>=◌}
use project_dia.Store.Sessions.{read_random}
use project_dia.Auth.Password.Scan.{decimal, scan_int, scan_uint, expect}

abbrev pub argon_time : ℕ
argon_time = 3

abbrev pub argon_memory : ℕ
argon_memory = 64 * 1024

abbrev pub argon_threads : ℕ
argon_threads = 4

abbrev pub argon_key_len : ℕ
argon_key_len = 32

abbrev pub argon_salt_len : ℕ
argon_salt_len = 16

abbrev pub min_password_length : ℕ
min_password_length = 12

abbrev pub bootstrap_username : Text
bootstrap_username = codes "root"

abbrev pub bootstrap_password : Text
bootstrap_password = codes "toor"

-- golang.org/x/crypto/argon2 with its version, SHA-256 in hexadecimal, and the machine's processors.
-- `id_key` takes a password, a salt, time, memory, threads and the length of the key.
pub record Crypto : Type 0 where
  pub version : ℕ
  pub id_key : Text → List ℕ → ℕ → ℕ → ℕ → ℕ → List ℕ
  pub sha256_hex : Text → Text
  pub num_cpu : ℕ

unfoldable pub validate_password : Text → Option Error
validate_password password =
    if ltb (length password) min_password_length
    then some password_too_short
    else if text_eq password bootstrap_password
    then some password_is_bootstrap
    else none

abbrev pub threads_of : Crypto → ℕ
threads_of c = if ltb c.num_cpu argon_threads then c.num_cpu else argon_threads

unfoldable pub format_hash : Crypto → List ℕ → List ℕ → Text
format_hash c salt key =
    codes "$argon2id$v="
    ++ (decimal c.version
        ++ (codes "$m="
            ++ (decimal argon_memory
                ++ (codes ",t="
                    ++ (decimal argon_time
                        ++ (codes ",p="
                            ++ (decimal (threads_of c)
                                ++ (codes "$"
                                    ++ (encode std_alphabet salt
                                        ++ (codes "$" ++ encode std_alphabet key))))))))))

abbrev pub derive : Crypto → Text → List ℕ → List ℕ
derive c password salt = c.id_key password salt argon_time argon_memory (threads_of c) argon_key_len

unfoldable pub hash_password : Crypto → Text → Action Text
hash_password c password = do
  salt ← read_random argon_salt_len
  pure (format_hash c salt (derive c password salt))

pub record HashParts : Type 0 where
  pub memory : ℕ
  pub time : ℕ
  pub threads : ℕ
  pub salt : List ℕ
  pub key : List ℕ

-- `m=%d,t=%d,p=%d`, where none of the numbers may be 0
abbrev pub all_positive : ℕ × ℕ × ℕ → Option (ℕ × ℕ × ℕ)
all_positive (m, t, p) = if m == 0 || t == 0 || p == 0 then none else some (m, t, p)

unfoldable pub scan_costs : Text → Option (ℕ × ℕ × ℕ)
scan_costs text = and_then (expect (codes "m=") text) λ r0. and_then (scan_uint (2 ^ 32) r0) λ m.
    and_then (expect (codes ",t=") m.1) λ r1. and_then (scan_uint (2 ^ 32) r1) λ t.
      and_then (expect (codes ",p=") t.1)
        λ r2. and_then (scan_uint (2 ^ 8) r2) λ p. all_positive (m.0, t.0, p.0)

abbrev pub is_version : ℕ → Bool × ℕ → Bool
is_version version (true, n) = n == 0 && version == 0
is_version version (false, n) = n == version

unfoldable pub scan_version : ℕ → Text → Option (Unit {0})
scan_version version text =
    and_then (expect (codes "v=") text)
      λ r. and_then (scan_int r) λ n. if is_version version n.0 then some tt else none

-- What is empty is refused.
abbrev pub nonempty : Option (List ℕ) → Option (List ℕ)
nonempty (some (b ∷ bs)) = some (b ∷ bs)
nonempty _ = none

unfoldable pub decode_fields : Crypto → Text → Text → Text → Text → Text → Text → Option HashParts
decode_fields c empty name version costs salt key =
    if not (text_eq empty []) || not (text_eq name (codes "argon2id"))
    then none
    else and_then (scan_version c.version version) λ _. and_then (scan_costs costs) λ costs'.
      and_then (nonempty (decode std_alphabet salt)) λ salt'.
        and_then (nonempty (decode std_alphabet key)) λ key'. some (record {
          memory = costs'.0;
          time = costs'.1;
          threads = costs'.2;
          salt = salt';
          key = key';
        })

abbrev pub decode_parts : Crypto → List Text → Option HashParts
decode_parts c (p0 ∷ p1 ∷ p2 ∷ p3 ∷ p4 ∷ p5 ∷ []) = decode_fields c p0 p1 p2 p3 p4 p5
decode_parts c _ = none

-- Each failure is `ErrInvalidHash`.
unfoldable pub decode_hash : Crypto → Text → Option HashParts
decode_hash c encoded = decode_parts c (split_at dollar encoded)

abbrev pub compare_key : Crypto → Text → Option HashParts → Option Error
compare_key c password none = some invalid_hash
compare_key c password (some h) =
    if text_eq (c.id_key password h.salt h.time h.memory h.threads (length h.key)) h.key
    then none
    else some password_mismatch

unfoldable pub verify_password : Crypto → Text → Text → Option Error
verify_password c password encoded = compare_key c password (decode_hash c encoded)
