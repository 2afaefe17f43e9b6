-- ===== src/FileStore/Clean.antt =====
-- What `Join` makes of a root and of plain names.
use mathlib.Core.List.{append-nil, append_assoc}
use project_dia.Prelude.{◌≡◌, refl, sym, ap, ◌∙◌, true, false, List, [], ◌∷◌, ◌++◌, All, All-append}
use project_dia.Prelude.Text.{Text, codes, text_eq, split_at}
use project_dia.Prelude.Text.Laws.{IsFree, split_at-append, split_at-last}
use project_dia.FileStore.{slash, join_with_slash, push, push_all, reverse_onto, clean, join}

-- A name that stands for itself in a path.
pub record IsPlain (e : Text) : Type 0 where
  pub filled : text_eq e [] ≡ false
  pub not_here : text_eq e (codes ".") ≡ false
  pub not_up : text_eq e (codes "..") ≡ false
  pub no_slash : IsFree slash e

pub split_at-join :
    (e : Text) (es : List Text)
    → All (IsFree slash) (e ∷ es)
    → split_at slash (join_with_slash (e ∷ es)) ≡ e ∷ es
split_at-join e [] h = split_at-last slash e h.0
split_at-join e (f ∷ es) h =
    split_at-append slash e (join_with_slash (f ∷ es)) h.0
    ∙ ap (λ t. e ∷ t) (split_at-join f es h.1)

pub join-append :
    (e f : Text) (es fs : List Text)
    → join_with_slash (e ∷ (es ++ f ∷ fs))
      ≡ join_with_slash (e ∷ es) ++ slash ∷ join_with_slash (f ∷ fs)
join-append e f [] fs = refl
join-append e f (g ∷ es) fs =
    ap (λ t. e ++ slash ∷ t) (join-append g f es fs)
    ∙ sym (append_assoc e (slash ∷ join_with_slash (g ∷ es)) (slash ∷ join_with_slash (f ∷ fs)))

join-join :
    (e : Text) (es fs : List Text)
    → join_with_slash (join_with_slash (e ∷ es) ∷ fs) ≡ join_with_slash (e ∷ (es ++ fs))
join-join e es [] = ap (λ t. join_with_slash (e ∷ t)) (sym (append-nil es))
join-join e es (f ∷ fs) = sym (join-append e f es fs)

push_plain : (stack : List Text) (e : Text) → IsPlain e → push true stack e ≡ e ∷ stack
unfolding push
push_plain [] e h = rw (h.filled, h.not_here, h.not_up) refl
push_plain (top ∷ stack) e h = rw (h.filled, h.not_here, h.not_up) refl

push_all_plain :
    (stack es : List Text) → All IsPlain es → push_all true stack es ≡ reverse_onto stack es
unfolding push_all reverse_onto
push_all_plain stack [] h = refl
push_all_plain stack (e ∷ es) h =
    ap (λ s. push_all true s es) (push_plain stack e h.0) ∙ push_all_plain (e ∷ stack) es h.1

reverse_twice :
    (parts stack es : List Text)
    → reverse_onto parts (reverse_onto stack es) ≡ reverse_onto (es ++ parts) stack
unfolding reverse_onto
reverse_twice parts stack [] = refl
reverse_twice parts stack (e ∷ es) = reverse_twice parts (e ∷ stack) es

parts-IsFree : (es : List Text) → All IsPlain es → All (IsFree slash) es
parts-IsFree [] h = tt
parts-IsFree (e ∷ es) h = (h.0.no_slash, parts-IsFree es h.1)

-- The path of these names from the root of the file system.
abbrev pub path_of : List Text → Text
path_of es = slash ∷ join_with_slash es

clean_path :
    (e : Text) (es : List Text) → All IsPlain (e ∷ es) → clean (path_of (e ∷ es)) ≡ path_of (e ∷ es)
unfolding clean push_all push reverse_onto text_eq
clean_path e es h =
    ap (λ parts. slash ∷ join_with_slash (reverse_onto [] (push_all true [] parts)))
      (split_at-join [] (e ∷ es) (tt, parts-IsFree (e ∷ es) h))
    ∙ ap (λ stack. slash ∷ join_with_slash (reverse_onto [] stack)) (push_all_plain [] (e ∷ es) h)
    ∙ ap path_of (reverse_twice [] [] (e ∷ es) ∙ append-nil (e ∷ es))

pub join-path_of :
    (e : Text) (es fs : List Text)
    → All IsPlain (e ∷ es)
    → All IsPlain fs
    → join (path_of (e ∷ es) ∷ fs) ≡ path_of (e ∷ (es ++ fs))
unfolding join
join-path_of e es fs h k =
    ap clean (join-join [] (e ∷ es) fs)
    ∙ clean_path e (es ++ fs) (h.0, All-append IsPlain es fs h.1 k)

abbrev pub rest_of : List Text → List Text
rest_of [] = []
rest_of (e ∷ es) = es

pub path_of-injective :
    (e f : Text) (es fs : List Text)
    → All IsPlain (e ∷ es)
    → All IsPlain (f ∷ fs)
    → path_of (e ∷ es) ≡ path_of (f ∷ fs)
    → e ∷ es ≡ f ∷ fs
path_of-injective e f es fs h k same = ap rest_of (
    sym (split_at-join [] (e ∷ es) (tt, parts-IsFree (e ∷ es) h))
    ∙ ap (split_at slash) same
    ∙ split_at-join [] (f ∷ fs) (tt, parts-IsFree (f ∷ fs) k))
