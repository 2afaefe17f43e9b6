-- ===== src/Domain/Clock/Laws.antt =====
-- The distance of two times.
use mathlib.Core.Path.{subst}
use project_dia.Prelude.{◌≡◌, refl, sym, ap, ◌∙◌, true, false, arith, Bool-cases, inl, inr}
use project_dia.Prelude.Int.{
  ℤ, pos, pos_part, neg_part, leb_ℤ, ltb_ℤ, ◌+ℤ◌, ◌-ℤ◌, ◌≤ℤ◌, +ℤ_parts, -ℤ_parts, eq_of_parts,
}
use project_dia.Domain.{Time, minute}
use project_dia.Domain.Clock.{min_duration, max_duration, difference, sub_time, negate}

difference_far : (a b : Time) → ltb_ℤ max_duration (a -ℤ b) ≡ true → difference a b ≡ max_duration
unfolding difference sub_time pos_part neg_part
difference_far a b h = rw h refl

difference_after :
    (a b : Time)
    → ltb_ℤ max_duration (a -ℤ b) ≡ false
    → ltb_ℤ (a -ℤ b) min_duration ≡ false
    → ltb_ℤ (a -ℤ b) (pos 0) ≡ false
    → difference a b ≡ a -ℤ b
unfolding difference sub_time
difference_after a b h k e = rw (h, k, e) refl

difference_before :
    (a b : Time)
    → ltb_ℤ max_duration (a -ℤ b) ≡ false
    → ltb_ℤ (a -ℤ b) min_duration ≡ false
    → ltb_ℤ (a -ℤ b) (pos 0) ≡ true
    → ltb_ℤ max_duration (pos 0 -ℤ (a -ℤ b)) ≡ false
    → difference a b ≡ pos 0 -ℤ (a -ℤ b)
unfolding difference sub_time negate
difference_before a b h k e m = rw (h, k, e, m) refl

-- Two times are within a minute of each other.
abbrev Within : Time → Time → Type 0
Within a b = (a ≤ℤ b +ℤ pos 60000000000) × (b ≤ℤ a +ℤ pos 60000000000)

-- `z` tells whether they are.
abbrev Decides : Time → Time → ℤ → Type 0
Decides a b z =
    (Within a b → leb_ℤ z (pos minute) ≡ true) × (¬ (Within a b) → leb_ℤ z (pos minute) ≡ false)

Decides-far : (a b : Time) → ltb_ℤ max_duration (a -ℤ b) ≡ true → Decides a b max_duration
unfolding pos_part neg_part
Decides-far a b h =
    (λ n. ground (arith, h, n, +ℤ_parts b (pos 60000000000), -ℤ_parts a b), λ n. refl)

Decides-after : (a b : Time) → ltb_ℤ (a -ℤ b) (pos 0) ≡ false → Decides a b (a -ℤ b)
unfolding pos_part neg_part
Decides-after a b h = (
  λ n. ground (arith, h, n, +ℤ_parts b (pos 60000000000), -ℤ_parts a b),
  λ n.
      ground
        (arith, h, n, +ℤ_parts b (pos 60000000000), +ℤ_parts a (pos 60000000000), -ℤ_parts a b),
)

Decides-before : (a b : Time) → ltb_ℤ (a -ℤ b) (pos 0) ≡ true → Decides a b (pos 0 -ℤ (a -ℤ b))
unfolding pos_part neg_part
Decides-before a b h = (
  λ n. ground (arith, h, n, +ℤ_parts a (pos 60000000000), -ℤ_parts a b, -ℤ_parts (pos 0) (a -ℤ b)),
  λ n. ground (
    arith,
    h,
    n,
    +ℤ_parts b (pos 60000000000),
    +ℤ_parts a (pos 60000000000),
    -ℤ_parts a b,
    -ℤ_parts (pos 0) (a -ℤ b),
  ),
)

not_below : (a b : Time) → b ≤ℤ a +ℤ max_duration → ltb_ℤ (a -ℤ b) min_duration ≡ false
unfolding pos_part neg_part
not_below a b h = ground (arith, h, +ℤ_parts a max_duration, -ℤ_parts a b)

not_above : (a b : Time) → b ≤ℤ a +ℤ max_duration → ltb_ℤ max_duration (pos 0 -ℤ (a -ℤ b)) ≡ false
unfolding pos_part neg_part
not_above a b h =
    ground (arith, h, +ℤ_parts a max_duration, -ℤ_parts a b, -ℤ_parts (pos 0) (a -ℤ b))

pub difference_lem : (a b : Time) → b ≤ℤ a +ℤ max_duration → Decides a b (difference a b)
difference_lem a b h = elim (Bool-cases (ltb_ℤ max_duration (a -ℤ b))) [
  | inl far ↦ subst (Decides a b) (sym (difference_far a b far)) (Decides-far a b far)
  | inr close ↦ elim (Bool-cases (ltb_ℤ (a -ℤ b) (pos 0))) [
    | inl negative ↦
        subst (Decides a b)
          (sym (difference_before a b close (not_below a b h) negative (not_above a b h)))
          (Decides-before a b negative)
    | inr positive ↦
        subst (Decides a b) (sym (difference_after a b close (not_below a b h) positive))
          (Decides-after a b positive)
  ]
]

opposite_bound : (d : ℤ) → pos 0 ≤ℤ d → ltb_ℤ max_duration (pos 0 -ℤ d) ≡ false
unfolding pos_part neg_part
opposite_bound d h = ground (arith, h, -ℤ_parts (pos 0) d)

negate_lem : (d : ℤ) → pos 0 ≤ℤ d → negate d ≡ pos 0 -ℤ d
unfolding negate
negate_lem d h = rw (opposite_bound d h) refl

add_opposite : (t d : ℤ) → t +ℤ (pos 0 -ℤ d) ≡ t -ℤ d
unfolding pos_part neg_part
add_opposite t d =
    eq_of_parts _ _ (ground (arith, +ℤ_parts t (pos 0 -ℤ d), -ℤ_parts (pos 0) d, -ℤ_parts t d))

pub less_lem : (t d : ℤ) → pos 0 ≤ℤ d → t +ℤ negate d ≡ t -ℤ d
less_lem t d h = ap (λ x. t +ℤ x) (negate_lem d h) ∙ add_opposite t d
