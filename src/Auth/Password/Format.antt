-- ===== src/Auth/Password/Format.antt =====
-- Taking the text of a hash apart: `decodeHash` on what the format of `HashPassword` makes.
use mathlib.Core.List.{append-nil, append_assoc}
use project_dia.Prelude.{
  ℕ, ◌<◌, ◌^◌, ◌≡◌, ◌≢◌, refl, ◌∙◌, ap, sym, true, false, some, List, [], ◌∷◌, ◌++◌, All,
  All-append, ◌==◌, arith,
}
use project_dia.Prelude.Text.{Text, codes, dollar, text_eq, split_at}
use project_dia.Prelude.Text.Laws.{IsFree, split_at-append, split_at-last}
use project_dia.Prelude.Base64.{encode, std_alphabet}
use project_dia.Prelude.Base64.Laws.{IsByte, decode-encode, encode-IsFree}
use project_dia.Auth.Password.{
  Crypto, format_hash, threads_of, scan_costs, scan_version, decode_hash, decode_fields,
  decode_parts, argon_memory, argon_time, nonempty,
}
use project_dia.Auth.Password.Scan.{decimal, read_digits, expect, scan_int, scan_uint}
use project_dia.Auth.Password.Scan.Laws.{
  scan_uint-decimal, EndsNumber, scan_int-decimal, decimal-IsFree,
}

abbrev version_text : Crypto → Text
version_text c = codes "v=" ++ decimal c.version

abbrev costs_text : Crypto → Text
costs_text c =
    codes "m="
    ++ (decimal argon_memory
        ++ (codes ",t=" ++ (decimal argon_time ++ (codes ",p=" ++ decimal (threads_of c)))))

scan_version_of :
    (version : ℕ) (digits rest : Text)
    → scan_int digits ≡ some ((false, version), rest)
    → scan_version version (codes "v=" ++ digits) ≡ some tt
unfolding scan_version expect
scan_version_of version digits rest h =
    let same : (version == version) ≡ true = ground arith in rw (h, same) refl

-- Three positive numbers behind the literals of the format.
scan_costs_of :
    (m t p : ℕ) (a b d : Text)
    → (0 < m) × (0 < t) × (0 < p)
    → scan_uint (2 ^ 32) a ≡ some (m, codes ",t=" ++ b)
    → scan_uint (2 ^ 32) b ≡ some (t, codes ",p=" ++ d)
    → scan_uint (2 ^ 8) d ≡ some (p, [])
    → scan_costs (codes "m=" ++ a) ≡ some (m, t, p)
unfolding scan_costs expect
scan_costs_of m t p a b d pos ha hb hd =
    let m0 : (m == 0) ≡ false = ground arith in
    let t0 : (t == 0) ≡ false = ground arith in
    let p0 : (p == 0) ≡ false = ground arith in rw (ha, hb, hd, m0, t0, p0) refl

ends_nil : EndsNumber []
unfolding read_digits
ends_nil n = refl

ends_comma : (rest : Text) → EndsNumber (44 ∷ rest)
unfolding read_digits
ends_comma rest n = refl

threads_bounds : (c : Crypto) → 0 < c.num_cpu → (0 < threads_of c) × (threads_of c < 2 ^ 8)
threads_bounds c h = ground arith

free_parts :
    (p0 p1 p2 p3 p4 p5 : Text)
    → IsFree dollar p0
    → IsFree dollar p1
    → IsFree dollar p2
    → IsFree dollar p3
    → IsFree dollar p4
    → IsFree dollar p5
    → split_at dollar
        (p0 ++ dollar ∷ (p1 ++ dollar ∷ (p2 ++ dollar ∷ (p3 ++ dollar ∷ (p4 ++ dollar ∷ p5)))))
      ≡ p0 ∷ p1 ∷ p2 ∷ p3 ∷ p4 ∷ p5 ∷ []
free_parts p0 p1 p2 p3 p4 p5 f0 f1 f2 f3 f4 f5 =
    rw
      (
        split_at-append dollar p0 _ f0,
        split_at-append dollar p1 _ f1,
        split_at-append dollar p2 _ f2,
        split_at-append dollar p3 _ f3,
        split_at-append dollar p4 _ f4,
        split_at-last dollar p5 f5,
      )
      refl

name-IsFree : IsFree dollar (codes "argon2id")
name-IsFree = (refl, (refl, (refl, (refl, (refl, (refl, (refl, (refl, tt))))))))

version_text-IsFree : (c : Crypto) → IsFree dollar (version_text c)
version_text-IsFree c = (refl, (refl, decimal-IsFree c.version))

costs_text-IsFree : (c : Crypto) → IsFree dollar (costs_text c)
costs_text-IsFree c = (
  refl,
  (
    refl,
    All-append _ (decimal argon_memory) _ (decimal-IsFree argon_memory) (
      refl,
      (
        refl,
        (
          refl,
          All-append _ (decimal argon_time) _ (decimal-IsFree argon_time)
              (refl, (refl, (refl, decimal-IsFree (threads_of c)))),
        ),
      ),
    ),
  ),
)

costs_text-append :
    (c : Crypto) (rest : Text)
    → costs_text c ++ rest
      ≡ codes "m="
        ++ (decimal argon_memory
            ++ (codes ",t="
                ++ (decimal argon_time ++ (codes ",p=" ++ (decimal (threads_of c) ++ rest)))))
costs_text-append c rest = simp append_assoc

module _ (c : Crypto) (known : c.version < 2 ^ 63) (cpus : 0 < c.num_cpu) where
  scan_version_lem : scan_version c.version (version_text c) ≡ some tt
  scan_version_lem = scan_version_of c.version (decimal c.version) [] (
      ap scan_int (sym (append-nil (decimal c.version)))
      ∙ scan_int-decimal c.version [] ends_nil known)

  scan_costs_lem : scan_costs (costs_text c) ≡ some (argon_memory, argon_time, threads_of c)
  scan_costs_lem =
      let (positive, small) = threads_bounds c cpus in
      scan_costs_of argon_memory argon_time (threads_of c) _ _ (decimal (threads_of c))
        (omega arith, omega arith, positive)
        (scan_uint-decimal (2 ^ 32) argon_memory _ (ends_comma _) (omega arith))
        (scan_uint-decimal (2 ^ 32) argon_time _ (ends_comma _) (omega arith))
        (ap (scan_uint (2 ^ 8)) (sym (append-nil (decimal (threads_of c))))
          ∙ scan_uint-decimal (2 ^ 8) (threads_of c) [] ends_nil small)

  module _ (salt key : List ℕ) (salt_bytes : All IsByte salt) (key_bytes : All IsByte key)
      (salted : salt ≢ []) (keyed : key ≢ []) where
    -- The hash is its six parts with a dollar sign between any two.
    parts :
        split_at dollar (format_hash c salt key)
        ≡ []
          ∷ codes "argon2id"
          ∷ version_text c
          ∷ costs_text c
          ∷ encode std_alphabet salt
          ∷ encode std_alphabet key
          ∷ []
    unfolding format_hash
    parts =
        ap (λ t. split_at dollar (codes "$argon2id$v=" ++ (decimal c.version ++ dollar ∷ t)))
          (sym (
            costs_text-append c
              (dollar ∷ (encode std_alphabet salt ++ dollar ∷ encode std_alphabet key))))
        ∙ free_parts [] (codes "argon2id") (version_text c) (costs_text c)
            (encode std_alphabet salt) (encode std_alphabet key) tt name-IsFree
            (version_text-IsFree c) (costs_text-IsFree c) (encode-IsFree salt salt_bytes)
            (encode-IsFree key key_bytes)

    nonempty_lem : (bytes : List ℕ) → bytes ≢ [] → nonempty (some bytes) ≡ some bytes
    nonempty_lem [] h = absurd (h refl)
    nonempty_lem (b ∷ bs) h = refl

    pub decode-format :
        decode_hash c (format_hash c salt key)
        ≡ some (record {
          memory = argon_memory;
          time = argon_time;
          threads = threads_of c;
          salt = salt;
          key = key;
        })
    unfolding decode_hash decode_fields text_eq
    decode-format =
        ap (decode_parts c) parts
        ∙ rw
            (
              scan_version_lem,
              scan_costs_lem,
              decode-encode salt salt_bytes,
              decode-encode key key_bytes,
              nonempty_lem salt salted,
              nonempty_lem key keyed,
            )
            refl
