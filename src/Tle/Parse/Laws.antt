-- ===== src/Tle/Parse/Laws.antt =====
-- The parser of server/go/internal/tle/tle.go: lines, accepted sets and epochs.
use mathlib.Core.Path.{subst}
use project_dia.Prelude.{
  ℕ, zero, suc, ◌<◌, ◌≤◌, ◌≡◌, ◌≢◌, refl, ap, sym, ◌∙◌, ◌==◌, Bool, true, false, Option, none, some,
  List, [], ◌∷◌, ◌++◌, All, arith, length, ltb, if◌then◌else◌,
}
use project_dia.Domain.{Duration}
use project_dia.Tle.{
  Text, newline, TleError, Outcome, parsed, refused, panics, TleSet, ◌then◌, slice, keep,
  trim_right, trim_left, is_line_end, is_space, trim_space, validate_line,
}
use project_dia.Tle.Parse.{
  refuse_if_some, catalog_number, positive_number, parse_epoch, same_number, new_set, split,
  cons_filled, filled_lines, set_of_lines, parse,
}

-- A text that stands on one line.
abbrev pub OneLine : Text → Type 0
OneLine cs = All (λ c. (c == newline) ≡ false) cs

-- Characters that are trimmed from the end of a line.
abbrev pub IsPadding : Text → Type 0
IsPadding cs = All (λ c. is_line_end c ≡ true) cs

split-line : (xs ys : Text) → OneLine xs → split (xs ++ newline ∷ ys) ≡ xs ∷ split ys
unfolding split
split-line [] ys h = refl
split-line (x ∷ xs) ys h = rw (split-line xs ys h.1, h.0) refl

split-last : (xs : Text) → OneLine xs → split xs ≡ xs ∷ []
unfolding split
split-last [] h = refl
split-last (x ∷ xs) h = rw (split-last xs h.1, h.0) refl

trim-padding :
    (xs ys : Text) → IsPadding ys → trim_right is_line_end (xs ++ ys) ≡ trim_right is_line_end xs
unfolding trim_right
trim-padding [] [] h = refl
trim-padding [] (y ∷ ys) h = rw (trim-padding [] ys h.1, h.0) refl
trim-padding (x ∷ xs) ys h = ap (keep (is_line_end x) x) (trim-padding xs ys h)

padding-OneLine : (ys : Text) → IsPadding ys → OneLine ys
padding-OneLine [] h = tt
padding-OneLine (y ∷ ys) h = (ground (arith, h.0), padding-OneLine ys h.1)

append-OneLine : (xs ys : Text) → OneLine xs → OneLine ys → OneLine (xs ++ ys)
append-OneLine [] ys h k = k
append-OneLine (x ∷ xs) ys h k = (h.0, append-OneLine xs ys h.1 k)

filled : (line : Text) (lines : List Text) → line ≢ [] → cons_filled line lines ≡ line ∷ lines
filled [] lines h = elim (h refl) [ ]
filled (c ∷ cs) lines h = refl

-- The lines that are left, of a line with padding and of the last one.
module _ (line padding : Text) (rest : List Text) (filled_line : line ≢ [])
    (trimmed : trim_right is_line_end line ≡ line) (pads : IsPadding padding) where
  filled_lines-line : filled_lines ((line ++ padding) ∷ rest) ≡ line ∷ filled_lines rest
  unfolding filled_lines
  filled_lines-line =
      ap (λ l. cons_filled l (filled_lines rest)) (trim-padding line padding pads ∙ trimmed)
      ∙ filled line (filled_lines rest) filled_line

-- A line as the parser keeps it: on one line, not empty, and with no blank at its end.
pub record IsKept (line : Text) : Type 0 where
  pub one_line : OneLine line
  pub is_filled : line ≢ []
  pub is_trimmed : trim_right is_line_end line ≡ line

-- A text of two lines, each with blanks, tabs or carriage returns after it, is read as these two
-- lines without a name.
pub parse-two :
    (day_offset : Text → Option Duration) (line1 line2 padding1 padding2 : Text)
    → IsKept line1
    → IsKept line2
    → IsPadding padding1
    → IsPadding padding2
    → parse day_offset ((line1 ++ padding1) ++ newline ∷ (line2 ++ padding2))
      ≡ new_set day_offset [] line1 line2
unfolding parse filled_lines
parse-two day_offset line1 line2 padding1 padding2 a b p q =
    ap (λ ls. set_of_lines day_offset (filled_lines ls))
      (split-line (line1 ++ padding1) (line2 ++ padding2)
          (append-OneLine line1 padding1 a.one_line (padding-OneLine padding1 p))
        ∙ ap (λ ls. (line1 ++ padding1) ∷ ls)
            (split-last (line2 ++ padding2)
              (append-OneLine line2 padding2 b.one_line (padding-OneLine padding2 q))))
    ∙ ap (set_of_lines day_offset) (
        filled_lines-line line1 padding1 ((line2 ++ padding2) ∷ []) a.is_filled a.is_trimmed p
        ∙ ap (λ ls. line1 ∷ ls) (filled_lines-line line2 padding2 [] b.is_filled b.is_trimmed q))

-- A set whose lines are valid and name the same positive catalog number.
pub record IsConsistent (s : TleSet) : Type 0 where
  pub valid1 : validate_line s.line1 49 ≡ none
  pub valid2 : validate_line s.line2 50 ≡ none
  pub number1 : catalog_number s.line1 ≡ parsed s.norad_id
  pub number2 : catalog_number s.line2 ≡ parsed s.norad_id
  pub positive : 0 < s.norad_id

-- What holds of the value that is returned, if one is.
abbrev Yields {ℓ κ} : {A : Type ℓ} → (A → Type κ) → Outcome A → Type (ℓ ⊔ κ)
Yields Q o = (a : _) → o ≡ parsed a → Q a

Yields-then {ℓ κ ι ο} :
    {A : Type ℓ} {B : Type κ} {P : A → Type ι} {Q : B → Type ο} (o : Outcome A) (f : A → Outcome B)
    → Yields P o
    → ((a : A) → P a → Yields Q (f a))
    → Yields Q (o then f)
unfolding ◌then◌
Yields-then (parsed a) f p k b h = k a (p a refl) b h
Yields-then (refused e) f p k b h = cc
Yields-then panics f p k b h = cc

not_refused : (o : Option TleError) (u : Unit {0}) → refuse_if_some o ≡ parsed u → o ≡ none
not_refused none u h = refl
not_refused (some e) u h = cc

positive_number-positive : (o : Option (Bool × ℕ)) (n : ℕ) → positive_number o ≡ parsed n → 0 < n
positive_number-positive none n h = cc
positive_number-positive (some (true, k)) n h = cc
positive_number-positive (some (false, zero)) n h = cc
positive_number-positive (some (false, suc k)) n h = ground (arith, h)

catalog_number-positive : (line : Text) (n : ℕ) → catalog_number line ≡ parsed n → 0 < n
unfolding catalog_number
catalog_number-positive line n h = positive_number-positive _ n h

same : (a b : ℕ) (u : Unit {0}) → same_number a b ≡ parsed u → a ≡ b
same a b u h = ground (arith, h)

-- The set is consistent and consists of these lines.
abbrev pub IsOf : Text → Text → TleSet → Type 0
IsOf line1 line2 s = IsConsistent s × (s.line1 ≡ line1) × (s.line2 ≡ line2)

same_set : (a b : TleSet) → parsed a ≡ parsed b → a ≡ b
same_set a b h = cc

-- Every set that is accepted is consistent: both lines are valid and name its catalog number, which
-- is positive.
pub new_set-IsConsistent :
    (day_offset : Text → Option Duration) (name line1 line2 : Text) (s : TleSet)
    → new_set day_offset name line1 line2 ≡ parsed s
    → IsOf line1 line2 s
unfolding new_set
new_set-IsConsistent day_offset name line1 line2 =
    Yields-then (refuse_if_some (validate_line line1 49)) _ (λ u h. not_refused _ u h)
      λ _ v1.
        Yields-then (refuse_if_some (validate_line line2 50)) _ (λ u h. not_refused _ u h)
          λ _ v2.
            Yields-then (catalog_number line1) _ (λ n h. h)
              λ n c1.
                Yields-then (catalog_number line2) _ (λ n h. h)
                  λ m c2.
                    Yields-then (same_number n m) _ (λ u h. same n m u h)
                      λ _ eq.
                        Yields-then (parse_epoch day_offset line1) _ (λ e h. h)
                          λ epoch _ s h. subst (IsOf line1 line2) (same_set _ s h) (
                            record {
                              valid1 = v1;
                              valid2 = v2;
                              number1 = c1;
                              number2 = c2 ∙ ap parsed (sym eq);
                              positive = catalog_number-positive line1 n c1;
                            },
                            refl,
                            refl,
                          )

trim-spaces : (cs : Text) → All (λ c. is_space c ≡ true) cs → trim_right is_space cs ≡ []
unfolding trim_right
trim-spaces [] h = refl
trim-spaces (c ∷ cs) h = rw (trim-spaces cs h.1, h.0) refl

blank_epoch :
    (day_offset : Text → Option Duration) (line : Text)
    → 32 ≤ length line
    → All (λ c. is_space c ≡ true) (slice 18 32 line)
    → parse_epoch day_offset line ≡ panics
unfolding parse_epoch trim_space trim_left
blank_epoch day_offset line long blanks =
    rw (not_short (length line) long, trim-spaces (slice 18 32 line) blanks) refl
  where
    not_short : (n : ℕ) → 32 ≤ n → ltb n 32 ≡ false
    not_short n h = ground (arith, h)

valid-long : (line : Text) (want : ℕ) → validate_line line want ≡ none → 32 ≤ length line
unfolding validate_line
valid-long line want h = ground (arith, h)

-- Two valid lines with one catalog number whose first has blanks for its epoch make the parser panic,
-- where it should refuse them.
pub new_set-panics :
    (day_offset : Text → Option Duration) (name line1 line2 : Text) (n : ℕ)
    → validate_line line1 49 ≡ none
    → validate_line line2 50 ≡ none
    → catalog_number line1 ≡ parsed n
    → catalog_number line2 ≡ parsed n
    → All (λ c. is_space c ≡ true) (slice 18 32 line1)
    → new_set day_offset name line1 line2 ≡ panics
unfolding new_set ◌then◌
new_set-panics day_offset name line1 line2 n v1 v2 c1 c2 blanks =
    rw (v1, v2, c1, c2, blank_epoch day_offset line1 (valid-long line1 49 v1) blanks)
      (same_itself n)
  where
    same_itself : (k : ℕ) → ◌≡◌ {A = Outcome TleSet} (same_number k k then λ _. panics) panics
    same_itself k = ground arith
