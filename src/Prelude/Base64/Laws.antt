-- ===== src/Prelude/Base64/Laws.antt =====
-- The decoder undoes the encoder.
use project_dia.Prelude.{
  ℕ, ◌<◌, ◌≡◌, refl, false, some, List, [], ◌∷◌, map, All, arith, where_, not, ◌==◌,
}
use project_dia.Prelude.Text.{dollar}
use project_dia.Prelude.Text.Laws.{IsFree}
use project_dia.Prelude.Base64.{
  std_alphabet, symbol, sextets, encode, value_of, values_of, from_sextets, is_break, decode,
}

abbrev pub IsByte : ℕ → Type 0
IsByte b = b < 256

abbrev IsSextet : ℕ → Type 0
IsSextet s = s < 64

value_of-symbol : (s : ℕ) → s < 64 → value_of std_alphabet (symbol std_alphabet s) ≡ some s
unfolding value_of symbol
value_of-symbol s h = ground arith

symbol-not-break : (s : ℕ) → s < 64 → is_break (symbol std_alphabet s) ≡ false
unfolding symbol
symbol-not-break s h = ground arith

values_of-map :
    (ss : List ℕ)
    → All IsSextet ss
    → values_of std_alphabet (map (symbol std_alphabet) ss) ≡ some ss
unfolding values_of
values_of-map [] h = refl
values_of-map (s ∷ ss) h = rw (value_of-symbol s h.0, values_of-map ss h.1) refl

no_breaks :
    (ss : List ℕ)
    → All IsSextet ss
    → where_ (λ c. not (is_break c)) (map (symbol std_alphabet) ss) ≡ map (symbol std_alphabet) ss
unfolding where_
no_breaks [] h = refl
no_breaks (s ∷ ss) h = rw (symbol-not-break s h.0, no_breaks ss h.1) refl

sextets-IsSextet : (bytes : List ℕ) → All IsByte bytes → All IsSextet (sextets bytes)
unfolding sextets
sextets-IsSextet [] h = tt
sextets-IsSextet (a ∷ []) h = omega arith
sextets-IsSextet (a ∷ b ∷ []) h = omega arith
sextets-IsSextet (a ∷ b ∷ c ∷ rest) h =
    (omega arith, (omega arith, (omega arith, (omega arith, sextets-IsSextet rest h.1.1.1))))

from_sextets-sextets :
    (bytes : List ℕ) → All IsByte bytes → from_sextets (sextets bytes) ≡ some bytes
unfolding from_sextets sextets
from_sextets-sextets [] h = refl
from_sextets-sextets (a ∷ []) h = ground arith
from_sextets-sextets (a ∷ b ∷ []) h = ground arith
from_sextets-sextets (a ∷ b ∷ c ∷ rest) h = ground (arith, from_sextets-sextets rest h.1.1.1)

pub decode-encode :
    (bytes : List ℕ)
    → All IsByte bytes
    → decode std_alphabet (encode std_alphabet bytes) ≡ some bytes
unfolding decode encode
decode-encode bytes h =
    let s = sextets-IsSextet bytes h in
    rw (no_breaks _ s, values_of-map _ s) (from_sextets-sextets bytes h)

symbol-free : (s : ℕ) → s < 64 → (symbol std_alphabet s == dollar) ≡ false
unfolding symbol
symbol-free s h = ground arith

symbols-IsFree : (ss : List ℕ) → All IsSextet ss → IsFree dollar (map (symbol std_alphabet) ss)
symbols-IsFree [] h = tt
symbols-IsFree (s ∷ ss) h = (symbol-free s h.0, symbols-IsFree ss h.1)

pub encode-IsFree : (bytes : List ℕ) → All IsByte bytes → IsFree dollar (encode std_alphabet bytes)
unfolding encode
encode-IsFree bytes h = symbols-IsFree (sextets bytes) (sextets-IsSextet bytes h)
