-- ===== src/FileStore/Paths.antt =====
-- The paths of recordings: inside the root, and one for each station, pass and name.
use mathlib.Core.Path.{subst}
use mathlib.Core.List.{append-nil, append_assoc}
use project_dia.Prelude.{
  ℕ, ◌≡◌, ◌≢◌, refl, sym, ap, ◌∙◌, Bool, true, false, not, none, some, List, [], ◌∷◌, ◌++◌, All,
  Bool-cases, inl, inr, any, if◌then◌else◌, arith, ◌==◌,
}
use project_dia.Prelude.Text.{Text, codes, text_eq, text_eq_iff, after_prefix}
use project_dia.Prelude.Text.Laws.{IsFree}
use project_dia.FileStore.{
  slash, join_with_slash, trim_suffix, is_safe_segment, is_unsafe, escapes, join_safe,
  is_letter_or_digit, is_name_char,
}
use project_dia.FileStore.Clean.{IsPlain, path_of, join-path_of, join-append}

name_char_free : (c : ℕ) → is_name_char c ≡ true → (c == slash) ≡ false
name_char_free c h = ground arith

first_char_free :
    (c : ℕ) → is_letter_or_digit c ≡ true → ((c == slash) ≡ false) × ((c == 46) ≡ false)
first_char_free c h = ground arith

true_not_false : true ≢ false
true_not_false h = cc

negated : (b : Bool) → not b ≡ false → b ≡ true
negated b h = ground arith

chars-IsFree : (cs : Text) → any (λ d. not (is_name_char d)) cs ≡ false → IsFree slash cs
chars-IsFree [] h = tt
chars-IsFree (c ∷ cs) h = (name_char_free c (ground arith), chars-IsFree cs (ground arith))

-- The text that `.json` is trimmed of, where it is not that alone.
trimmed :
    (suffix : Text) (c : ℕ) (cs : Text)
    → text_eq (c ∷ cs) suffix ≡ false
    → trim_suffix suffix (c ∷ cs) ≡ c ∷ trim_suffix suffix cs
trimmed suffix c cs h = rw h refl

untrim-IsFree :
    (suffix cs : Text)
    → IsFree slash suffix
    → IsFree slash (trim_suffix suffix cs)
    → IsFree slash cs
untrim-IsFree suffix [] k h = tt
untrim-IsFree suffix (c ∷ cs) k h = elim (Bool-cases (text_eq (c ∷ cs) suffix)) [
  | inl e ↦ subst (IsFree slash) (sym ((text_eq_iff (c ∷ cs) suffix).0 e)) k
  | inr e ↦
      let rest = subst (IsFree slash) (trimmed suffix c cs e) h in
      (rest.0, untrim-IsFree suffix cs k rest.1)
]

abbrev json : Text
json = codes ".json"

safe_parts :
    (c : ℕ) (cs : Text)
    → is_safe_segment (c ∷ cs) ≡ true
    → (is_letter_or_digit c ≡ true) × IsFree slash (c ∷ cs)
unfolding is_safe_segment
safe_parts c cs h =
    let first : is_letter_or_digit c ≡ true = ground arith in
    (first, ((first_char_free c first).0, chars-IsFree cs (ground arith)))

safe-IsPlain : (segment : Text) → is_unsafe segment ≡ false → IsPlain segment
unfolding is_safe_segment text_eq
safe-IsPlain [] h = cc
safe-IsPlain (c ∷ cs) h = elim (Bool-cases (text_eq (c ∷ cs) json)) [
  | inl e ↦
      let short : trim_suffix json (c ∷ cs) ≡ [] = rw e refl in
      absurd (true_not_false (ap (λ t. not (is_safe_segment t)) (sym short) ∙ h))
  | inr e ↦
      let safe : is_safe_segment (c ∷ trim_suffix json cs) ≡ true =
        ap is_safe_segment (sym (trimmed json c cs e)) ∙ negated _ h in
      let parts = safe_parts c (trim_suffix json cs) safe in
      let plain = first_char_free c parts.0 in
      record {
        filled = refl;
        not_here = rw plain.1 refl;
        not_up = rw plain.1 refl;
        no_slash =
            (parts.1.0, untrim-IsFree json cs (refl, (refl, (refl, (refl, (refl, tt))))) parts.1.1);
      }
]

pub segments-IsPlain :
    (segments : List Text) → any is_unsafe segments ≡ false → All IsPlain segments
segments-IsPlain [] h = tt
segments-IsPlain (s ∷ ss) h = (safe-IsPlain s (ground arith), segments-IsPlain ss (ground arith))

after_prefix-append : (p cs : Text) → after_prefix p (p ++ cs) ≡ some cs
unfolding after_prefix
after_prefix-append [] cs = refl
after_prefix-append (c ∷ p) cs =
    let same : (c == c) ≡ true = ground arith in rw (same, after_prefix-append p cs) refl

text_eq_self : (cs : Text) → text_eq cs cs ≡ true
text_eq_self cs = (text_eq_iff cs cs).1 refl

stays : (root cs : Text) → escapes root (root ++ slash ∷ cs) ≡ false
unfolding text_eq
stays root cs =
    let found : after_prefix (root ++ slash ∷ []) (root ++ slash ∷ cs) ≡ some cs =
      ap (after_prefix (root ++ slash ∷ [])) (sym (append_assoc root (slash ∷ []) cs))
      ∙ after_prefix-append (root ++ slash ∷ []) cs in
    rw found (ground arith)

module _ (e : Text) (es : List Text) (plain : All IsPlain (e ∷ es)) where
  stays_inside :
      (segments : List Text) → escapes (path_of (e ∷ es)) (path_of (e ∷ (es ++ segments))) ≡ false
  stays_inside [] =
      ap (escapes (path_of (e ∷ es))) (ap (λ t. path_of (e ∷ t)) (append-nil es))
      ∙ rw (text_eq_self (path_of (e ∷ es))) refl
  stays_inside (s ∷ ss) =
      ap (λ t. escapes (path_of (e ∷ es)) (slash ∷ t)) (join-append e s es ss)
      ∙ stays (path_of (e ∷ es)) (join_with_slash (s ∷ ss))

  -- Under a root with plain names, `joinSafe` refuses exactly the lists with an unsafe segment, and
  -- otherwise its path is that of the root followed by the segments, each a plain name: the check that
  -- the path stays inside the root never refuses.
  pub join_safe_lem :
      (segments : List Text)
      → join_safe (path_of (e ∷ es)) segments
        ≡ (if any is_unsafe segments then none else some (path_of (e ∷ (es ++ segments))))
  unfolding join_safe
  join_safe_lem segments = elim (Bool-cases (any is_unsafe segments)) [
    | inl h ↦ rw h refl
    | inr h ↦
        rw
          (h, join-path_of e es segments plain (segments-IsPlain segments h), stays_inside segments)
          refl
  ]
