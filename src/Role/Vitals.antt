-- ===== src/Role/Vitals.antt =====
-- What RecomputeAttributes guarantees of a character's health and mana.
use cami.Common.{◌≡◌}
use cami.Common.Int.{ℤ, pos, ◌≤ℤ◌}
use cami.Role.Character.{Character}

-- The value after clamping: in the range, and the old value if that was in the range.
abbrev pub Clamped : ℤ → ℤ → ℤ → Type 0
Clamped v max v' = (pos 0 ≤ℤ v') × (v' ≤ℤ max) × (pos 0 ≤ℤ v → v ≤ℤ max → v' ≡ v)
