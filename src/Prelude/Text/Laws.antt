-- ===== src/Prelude/Text/Laws.antt =====
-- Splitting a text at a character.
use project_dia.Prelude.{ℕ, ◌≡◌, refl, true, false, [], ◌∷◌, ◌++◌, All, ◌==◌, arith}
use project_dia.Prelude.Text.{Text, split_at}

-- No character of a text is the mark.
abbrev pub IsFree : ℕ → Text → Type 0
IsFree mark cs = All (λ c. (c == mark) ≡ false) cs

mark_self : (mark : ℕ) → (mark == mark) ≡ true
mark_self mark = ground arith

pub split_at-append :
    (mark : ℕ) (part rest : Text)
    → IsFree mark part
    → split_at mark (part ++ mark ∷ rest) ≡ part ∷ split_at mark rest
unfolding split_at
split_at-append mark [] rest h = rw (mark_self mark) refl
split_at-append mark (c ∷ cs) rest h = rw (h.0, split_at-append mark cs rest h.1) refl

pub split_at-last : (mark : ℕ) (part : Text) → IsFree mark part → split_at mark part ≡ part ∷ []
unfolding split_at
split_at-last mark [] h = refl
split_at-last mark (c ∷ cs) h = rw (h.0, split_at-last mark cs h.1) refl
