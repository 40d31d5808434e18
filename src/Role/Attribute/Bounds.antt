-- ===== src/Role/Attribute/Bounds.antt =====
-- The totals keep to the limits of their attributes.
use cami.Common.{ℕ, suc, ◌≡◌, refl, List, [], ◌∷◌, arith, length}
use cami.Common.Int.{ℤ, ◌≤ℤ◌}
use cami.Role.Attribute.{
  AttrLimit, AttrFormula, AttributeSet, attr_count, limit_for, clamp, layered, recompute,
}

clamp_bounds : (v lo hi : ℤ) → lo ≤ℤ hi → (lo ≤ℤ clamp v lo hi) × (clamp v lo hi ≤ℤ hi)
unfolding clamp
clamp_bounds v lo hi h = ground arith

abbrev pub InLimit : AttrLimit → ℤ → Type 0
InLimit lim v = (lim.min ≤ℤ v) × (v ≤ℤ lim.max)

-- The values, counted from an index, are within the limits at that index.
abbrev pub Within : List AttrLimit → ℕ → List ℤ → Type 0
Within limits i [] = Unit
Within limits i (v ∷ vs) = InLimit (limit_for limits i) v × Within limits (suc i) vs

pub layered-InLimit :
    (limits : List AttrLimit) (a : AttributeSet) (i : ℕ) (v : ℤ)
    → (limit_for limits i).min ≤ℤ (limit_for limits i).max
    → InLimit (limit_for limits i) (layered limits a i v)
unfolding layered clamp
layered-InLimit limits a i v h = ground arith

-- However large the layers and the formula are, Recompute leaves eleven totals, each within the
-- limits of its attribute, where the limits are in order.
pub recompute-Within :
    (limits : List AttrLimit) (f : AttrFormula) (a : AttributeSet)
    → ((i : ℕ) → (limit_for limits i).min ≤ℤ (limit_for limits i).max)
    → (length (recompute limits f a).total ≡ attr_count)
      × Within limits 0 (recompute limits f a).total
unfolding recompute
recompute-Within limits f a h = (
  refl,
  (
    at 0 _,
    (
      at 1 _,
      (at 2 _, (at 3 _, (at 4 _, (at 5 _, (at 6 _, (at 7 _, (at 8 _, (at 9 _, (at 10 _, tt))))))))),
    ),
  ),
)
  where
    at : (i : ℕ) (v : ℤ) → InLimit (limit_for limits i) (layered limits a i v)
    at i v = layered-InLimit limits a i v (h i)
