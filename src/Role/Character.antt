-- ===== src/Role/Character.antt =====
-- character.h and the parts of role_system.cpp that the inventory calls.
use cami.Common.{ℕ, ◌+◌, ◌%◌, ◌^◌, List, if◌then◌else◌}
use cami.Common.Int.{ℤ, pos, ltb_ℤ}
use cami.Role.Attribute.{AttrLimit, AttrFormula, AttributeSet, attr, recompute}

-- The fields that these calls read or write.
pub record Character : Type 0 where
  pub id : ℕ
  pub level : ℕ
  pub hp : ℤ
  pub mp : ℤ
  pub attrs : AttributeSet
  pub version : ℕ

abbrev pub max_hp : Character → ℤ
max_hp c = attr c.attrs.total 4

abbrev pub max_mp : Character → ℤ
max_mp c = attr c.attrs.total 5

-- The two assignments to `hp`, and those to `mp`, of ClampVitals.
unfoldable pub clamp_vital : ℤ → ℤ → ℤ
clamp_vital v max =
    let v' = if ltb_ℤ v (pos 0) then pos 0 else v in if ltb_ℤ max v' then max else v'

unfoldable pub clamp_vitals : Character → Character
unfolding clamp_vital
clamp_vitals c = record c { hp = clamp_vital c.hp (max_hp c); mp = clamp_vital c.mp (max_mp c) }

pub record AttributesChanged : Type 0 where
  pub id : ℕ
  pub version : ℕ
  pub new_level : ℕ

-- The event that RecomputeAttributes emits at its end, with the character as it then is.
abbrev pub attributes_event : Character → AttributesChanged
attributes_event c = record { id = c.id; version = c.version; new_level = c.level }

-- RecomputeAttributes on a character that was found, up to its event.
unfoldable pub recompute_attributes : List AttrLimit → AttrFormula → Character → Character
recompute_attributes limits f c =
    let c' = clamp_vitals (record c { attrs = recompute limits f c.attrs }) in
    record c' { version = (c'.version + 1) % 2 ^ 32 }
