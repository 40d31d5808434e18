-- ===== src/Role/Attribute.antt =====
-- attribute.h and attribute.cpp: three layers of attributes and the totals that are derived from
-- them. Overflow of int64_t is undefined in C++; the values here are integers. The process-wide
-- limits and formula are arguments.
pub mod Bounds
use cami.Common.{ℕ, List, [], ◌∷◌, Bool, if◌then◌else◌, get_or, set, replicate}
use cami.Common.Int.{ℤ, pos, ◌+ℤ◌, ◌*ℤ◌, ltb_ℤ}

abbrev pub attr_count : ℕ
attr_count = 11

pub record AttrLimit : Type 0 where
  pub min : ℤ
  pub max : ℤ

pub record AttrFormula : Type 0 where
  pub hp_per_stamina : ℤ
  pub hp_base : ℤ
  pub mp_per_intellect : ℤ
  pub mp_base : ℤ
  pub atk_per_strength : ℤ
  pub atk_base : ℤ
  pub def_per_agility : ℤ
  pub def_base : ℤ
  pub crit_per_agility : ℤ
  pub crit_base : ℤ
  pub critdmg_per_intellect : ℤ
  pub critdmg_base : ℤ
  pub movespeed_per_agility : ℤ
  pub movespeed_base : ℤ

abbrev pub default_formula : AttrFormula
default_formula = record {
  hp_per_stamina = pos 10;
  hp_base = pos 50;
  mp_per_intellect = pos 8;
  mp_base = pos 30;
  atk_per_strength = pos 2;
  atk_base = pos 5;
  def_per_agility = pos 1;
  def_base = pos 2;
  crit_per_agility = pos 5;
  crit_base = pos 300;
  critdmg_per_intellect = pos 3;
  critdmg_base = pos 15000;
  movespeed_per_agility = pos 4;
  movespeed_base = pos 6000;
}

abbrev limit : ℕ → ℕ → AttrLimit
limit lo hi = record { min = pos lo; max = pos hi }

-- DefaultLimits, in the order of AttrType: Strength, Agility, Intellect, Stamina, MaxHp, MaxMp,
-- Attack, Defense, CritRate, CritDamage, MoveSpeed.
abbrev pub default_limits : List AttrLimit
default_limits =
    limit 0 9999
    ∷ limit 0 9999
    ∷ limit 0 9999
    ∷ limit 0 9999
    ∷ limit 1 10000000
    ∷ limit 0 10000000
    ∷ limit 0 1000000
    ∷ limit 0 1000000
    ∷ limit 0 10000
    ∷ limit 0 100000
    ∷ limit 0 100000
    ∷ []

pub record AttributeSet : Type 0 where
  pub base : List ℤ
  pub from_equipment : List ℤ
  pub from_buff : List ℤ
  pub total : List ℤ

abbrev pub attr : List ℤ → ℕ → ℤ
attr xs i = get_or xs i (pos 0)

abbrev pub limit_for : List AttrLimit → ℕ → AttrLimit
limit_for limits i = get_or limits i (record { min = pos 0; max = pos 0 })

unfoldable pub clamp : ℤ → ℤ → ℤ → ℤ
clamp v lo hi = if ltb_ℤ v lo then lo else if ltb_ℤ hi v then hi else v

-- The sum of the layers on top of a value, within the attribute's limits.
unfoldable pub layered : List AttrLimit → AttributeSet → ℕ → ℤ → ℤ
unfolding clamp
layered limits a i value =
    let lim = limit_for limits i in
    clamp (value +ℤ attr a.base i +ℤ attr a.from_equipment i +ℤ attr a.from_buff i) lim.min lim.max

-- AttributeSet::Recompute: the primary attributes are the sums, the others start from a formula over
-- the primary totals.
unfoldable pub recompute : List AttrLimit → AttrFormula → AttributeSet → AttributeSet
unfolding layered
recompute limits f a =
    let str = layered limits a 0 (pos 0) in
    let agi = layered limits a 1 (pos 0) in
    let inl = layered limits a 2 (pos 0) in
    let sta = layered limits a 3 (pos 0) in
    record a {
      total =
          str
          ∷ agi
          ∷ inl
          ∷ sta
          ∷ layered limits a 4 (f.hp_per_stamina *ℤ sta +ℤ f.hp_base)
          ∷ layered limits a 5 (f.mp_per_intellect *ℤ inl +ℤ f.mp_base)
          ∷ layered limits a 6 (f.atk_per_strength *ℤ str +ℤ f.atk_base)
          ∷ layered limits a 7 (f.def_per_agility *ℤ agi +ℤ f.def_base)
          ∷ layered limits a 8 (f.crit_per_agility *ℤ agi +ℤ f.crit_base)
          ∷ layered limits a 9 (f.critdmg_per_intellect *ℤ inl +ℤ f.critdmg_base)
          ∷ layered limits a 10 (f.movespeed_per_agility *ℤ agi +ℤ f.movespeed_base)
          ∷ [];
    }
