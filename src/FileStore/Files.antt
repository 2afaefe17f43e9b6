-- ===== src/FileStore/Files.antt =====
-- Different recordings have different files.
use project_dia.Prelude.{
  ℕ, ◌≡◌, refl, sym, ap, ◌∙◌, Bool, true, false, Option, none, some, List, [], ◌∷◌, ◌++◌, All,
  All-append, Bool-cases, inl, inr, if◌then◌else◌, ◌==◌, ==_iff,
}
use project_dia.Prelude.Text.{Text, split_at, put_first}
use project_dia.FileStore.{slash, join_with_slash, join_safe, FileStore, recording_file_path}
use project_dia.FileStore.Clean.{IsPlain, rest_of, path_of, path_of-injective}
use project_dia.FileStore.Paths.{join_safe_lem, segments-IsPlain}

join-put_first :
    (c : ℕ) (parts : List Text) → join_with_slash (put_first c parts) ≡ c ∷ join_with_slash parts
join-put_first c [] = refl
join-put_first c (p ∷ []) = refl
join-put_first c (p ∷ q ∷ parts) = refl

join-blank :
    (t : Text)
    → join_with_slash ([] ∷ split_at slash t) ≡ slash ∷ join_with_slash (split_at slash t)
unfolding split_at
join-blank [] = refl
join-blank (c ∷ t) = elim (Bool-cases (c == slash)) [
  | inl h ↦ rw h refl
  | inr h ↦ rw h (blank_first (split_at slash t))
]
  where
    blank_first :
        (parts : List Text)
        → join_with_slash ([] ∷ put_first c parts) ≡ slash ∷ join_with_slash (put_first c parts)
    blank_first [] = refl
    blank_first (p ∷ parts) = refl

join-split_at : (t : Text) → join_with_slash (split_at slash t) ≡ t
unfolding split_at
join-split_at [] = refl
join-split_at (c ∷ t) = elim (Bool-cases (c == slash)) [
  | inl h ↦
      let is : c ≡ slash = (==_iff c slash).0 h in
      rw (h, join-blank t, join-split_at t) (ap (λ d. d ∷ t) (sym is))
  | inr h ↦ rw (h, join-put_first c (split_at slash t), join-split_at t) refl
]

-- What `if b { return err }` says of a result.
unless :
    (b : Bool) (o : Option Text) (a : Text)
    → (if b then none else o) ≡ some a
    → (b ≡ false) × (o ≡ some a)
unless true o a h = cc
unless false o a h = (refl, h)

some_injective : {a b : Text} → some a ≡ some b → a ≡ b
some_injective h = cc

abbrev first_of : List Text → Text
first_of [] = []
first_of (t ∷ ts) = t

append-cancel : (es xs ys : List Text) → es ++ xs ≡ es ++ ys → xs ≡ ys
append-cancel [] xs ys h = h
append-cancel (e ∷ es) xs ys h = append-cancel es xs ys (ap rest_of h)

module _ (e : Text) (es : List Text) (plain : All IsPlain (e ∷ es)) where
  -- The file of a recording: it lies under its root, at its station, its pass and the given names.
  file_path :
      (s : FileStore) (station pass relative path : Text)
      → s.recordings_root ≡ path_of (e ∷ es)
      → recording_file_path s station pass relative ≡ some path
      → (All IsPlain (e ∷ (es ++ station ∷ pass ∷ split_at slash relative)))
        × (path_of (e ∷ (es ++ station ∷ pass ∷ split_at slash relative)) ≡ path)
  unfolding recording_file_path
  file_path s station pass relative path root h =
      let segments = station ∷ pass ∷ split_at slash relative in
      let joined = (unless _ _ path (unless _ _ path h).1).1 in
      let (safe, same) =
        unless _ _ path (
          sym (ap (λ r. join_safe r segments) root ∙ join_safe_lem e es plain segments) ∙ joined) in
      (
        All-append IsPlain (e ∷ es) segments plain (segments-IsPlain segments safe),
        some_injective same,
      )

  -- Two recordings share a file only if station, pass and relative path are the same: below a root
  -- with plain names no path of one is a path of the other.
  pub recording_file_path-injective :
      (s : FileStore) (station station' pass pass' relative relative' path : Text)
      → s.recordings_root ≡ path_of (e ∷ es)
      → recording_file_path s station pass relative ≡ some path
      → recording_file_path s station' pass' relative' ≡ some path
      → (station ≡ station') × (pass ≡ pass') × (relative ≡ relative')
  recording_file_path-injective s station station' pass pass' relative relative' path root h k =
      let (plain_h, at) = file_path s station pass relative path root h in
      let (plain_k, at') = file_path s station' pass' relative' path root k in
      let same =
        append-cancel (e ∷ es) _ _ (path_of-injective e e _ _ plain_h plain_k (at ∙ sym at')) in
      let names = ap rest_of same in
      (
        ap first_of same,
        ap first_of names,
        sym (join-split_at relative)
            ∙ ap (λ t. join_with_slash (rest_of t)) names
            ∙ join-split_at relative',
      )
