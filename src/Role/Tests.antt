-- ===== src/Role/Tests.antt =====
-- server/gamenode/role: concrete characters.
use cami.Common.{ℕ, ◌≡◌, replicate, length, arith, All, get_or-All}
use cami.Common.Int.{pos, negsuc, ◌≤ℤ◌}
use cami.Role.Attribute.{
  AttrLimit, AttributeSet, attr_count, default_limits, default_formula, limit_for, recompute,
}
use cami.Role.Attribute.Bounds.{Within, recompute-Within}
use cami.Role.Character.{Character}

abbrev warrior : AttributeSet
warrior = record {
  base = replicate attr_count (pos 20);
  from_equipment = replicate attr_count (pos 7);
  from_buff = replicate attr_count (negsuc 2);
  total = replicate attr_count (pos 0);
}

abbrev hero : Character
hero = record { id = 1; level = 3; hp = pos 100000; mp = negsuc 4; attrs = warrior; version = 0 }

abbrev Sensible : AttrLimit → Type 0
Sensible l = (l.min ≤ℤ l.max) × (pos 0 ≤ℤ l.min)

All-Sensible : All Sensible default_limits
All-Sensible = (
  (omega arith, omega arith),
  (
    (omega arith, omega arith),
    (
      (omega arith, omega arith),
      (
        (omega arith, omega arith),
        (
          (omega arith, omega arith),
          (
            (omega arith, omega arith),
            (
              (omega arith, omega arith),
              (
                (omega arith, omega arith),
                (
                  (omega arith, omega arith),
                  ((omega arith, omega arith), ((omega arith, omega arith), tt)),
                ),
              ),
            ),
          ),
        ),
      ),
    ),
  ),
)

limit_cases : (i : ℕ) → Sensible (limit_for default_limits i)
limit_cases i =
    get_or-All Sensible default_limits i (record { min = pos 0; max = pos 0 }) All-Sensible
      (omega arith, omega arith)

limits_ordered : (i : ℕ) → (limit_for default_limits i).min ≤ℤ (limit_for default_limits i).max
limits_ordered i = (limit_cases i).0

recompute-Within_example :
    (length (recompute default_limits default_formula warrior).total ≡ attr_count)
    × Within default_limits 0 (recompute default_limits default_formula warrior).total
recompute-Within_example = recompute-Within default_limits default_formula warrior limits_ordered
