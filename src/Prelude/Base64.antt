-- ===== src/Prelude/Base64.antt =====
-- The unpadded encodings of Go's package `encoding/base64`: `RawStdEncoding.Strict()` and
-- `RawURLEncoding`. An alphabet is given by its last two characters.
pub mod Laws
use Prim.Native.Nat.{ℕ, suc, ◌+◌, ◌-◌, ◌*◌, ◌/◌, ◌%◌}
use mathlib.Core.Bool.{Bool, true, false, not, ◌&&◌, ◌||◌}
use mathlib.Core.List.{List, [], ◌∷◌, map}
use mathlib.Core.Option.{Option, none, some}
use project_dia.Prelude.Tests.{ltb, leb, ◌==◌, if◌then◌else◌}
use project_dia.Prelude.Text.{Text, newline, carriage_return}
use project_dia.Prelude.Lists.{where_}

abbrev pub Alphabet : Type 0
Alphabet = ℕ × ℕ

-- `+/` and `-_`
abbrev pub std_alphabet : Alphabet
std_alphabet = (43, 47)

abbrev pub url_alphabet : Alphabet
url_alphabet = (45, 95)

unfoldable pub symbol : Alphabet → ℕ → ℕ
symbol alphabet s =
    if ltb s 26
    then s + 65
    else if ltb s 52
    then s + 71
    else if ltb s 62
    then s - 4
    else if s == 62
    then alphabet.0
    else alphabet.1

unfoldable pub sextets : List ℕ → List ℕ
sextets [] = []
sextets (a ∷ []) = (a / 4) ∷ (a % 4 * 16) ∷ []
sextets (a ∷ b ∷ []) = (a / 4) ∷ (a % 4 * 16 + b / 16) ∷ (b % 16 * 4) ∷ []
sextets (a ∷ b ∷ c ∷ rest) =
    (a / 4) ∷ (a % 4 * 16 + b / 16) ∷ (b % 16 * 4 + c / 64) ∷ (c % 64) ∷ sextets rest

unfoldable pub encode : Alphabet → List ℕ → Text
unfolding sextets
encode alphabet bytes = map (symbol alphabet) (sextets bytes)

unfoldable pub value_of : Alphabet → ℕ → Option ℕ
value_of alphabet c =
    if leb 65 c && leb c 90
    then some (c - 65)
    else if leb 97 c && leb c 122
    then some (c - 71)
    else if leb 48 c && leb c 57
    then some (c + 4)
    else if c == alphabet.0
    then some 62
    else if c == alphabet.1
    then some 63
    else none

abbrev pub cons_value : Option ℕ → Option (List ℕ) → Option (List ℕ)
cons_value (some v) (some vs) = some (v ∷ vs)
cons_value _ _ = none

unfoldable pub values_of : Alphabet → Text → Option (List ℕ)
values_of alphabet [] = some []
values_of alphabet (c ∷ cs) = cons_value (value_of alphabet c) (values_of alphabet cs)

abbrev pub prepend : ℕ → ℕ → ℕ → Option (List ℕ) → Option (List ℕ)
prepend a b c none = none
prepend a b c (some rest) = some (a ∷ b ∷ c ∷ rest)

-- The strict decoder refuses bits that are left over and not zero.
unfoldable pub from_sextets : List ℕ → Option (List ℕ)
from_sextets [] = some []
from_sextets (p ∷ []) = none
from_sextets (p ∷ q ∷ []) = if q % 16 == 0 then some ((p * 4 + q / 16) ∷ []) else none
from_sextets (p ∷ q ∷ r ∷ []) =
    if r % 4 == 0 then some ((p * 4 + q / 16) ∷ (q % 16 * 16 + r / 4) ∷ []) else none
from_sextets (p ∷ q ∷ r ∷ s ∷ rest) =
    prepend (p * 4 + q / 16) (q % 16 * 16 + r / 4) (r % 4 * 64 + s) (from_sextets rest)

abbrev pub and_then {ℓ κ} : {A : Type ℓ} {B : Type κ} → Option A → (A → Option B) → Option B
and_then none f = none
and_then (some a) f = f a

-- The decoder skips line breaks.
abbrev pub is_break : ℕ → Bool
is_break c = c == newline || c == carriage_return

unfoldable pub decode : Alphabet → Text → Option (List ℕ)
unfolding values_of from_sextets
decode alphabet cs = and_then (values_of alphabet (where_ (λ c. not (is_break c)) cs)) from_sextets
