-- ===== src/Inventory/System.antt =====
-- inventory_system.h and inventory_system.cpp: class InventorySystem, with the characters of the
-- RoleSystem that it calls. A call returns the new world and its result; what is published on the
-- event bus is the list `events`, newest first. FindByPlayer is a lookup by player.
pub mod Cases
pub mod Sync
pub mod Wearing
pub mod Items
pub mod Moves
use Prim.Native.Nat.{bit_and}
use cami.Common.{
  ℕ, ◌+◌, ◌-◌, ◌*◌, ◌%◌, ◌^◌, List, [], ◌∷◌, Option, none, some, Bool, false, not, ◌&&◌, ltb, leb,
  ◌==◌, if◌then◌else◌, get_or, set, replicate, sum_by,
}
use cami.Common.Dict.{Dict, lookup, insert}
use cami.Common.Int.{ℤ, pos, ◌+ℤ◌, ◌-ℤ◌, times_half, magnitude}
use cami.Common.Errors.{Result, ok, err, invalid_argument, not_found}
use cami.Role.Attribute.{AttrLimit, AttrFormula, AttributeSet, attr_count}
use cami.Role.Character.{Character, AttributesChanged, attributes_event, recompute_attributes}
use cami.Inventory.Item.{ItemDef, ItemStack, empty_stack}
use cami.Inventory.Bag.{
  Inventory, AddOutcome, max_inventory_slots, equip_slot_count, init, find, slot_at, add, remove,
  add_existing,
}

-- The events of the inventory, and that of the role system which it causes.
pub data Event : Type 0 where
  item_added : ℕ → ℕ → ℕ → Event
  item_removed : ℕ → ℕ → ℕ → Event
  item_equipped : ℕ → ℕ → ℤ → Event
  item_unequipped : ℕ → ℕ → ℤ → Event
  durability_changed : ℕ → ℕ → ℕ → Event
  role_event : AttributesChanged → Event

pub record World : Type 0 where
  pub store : Dict ItemDef
  pub limits : List AttrLimit
  pub formula : AttrFormula
  pub characters : Dict Character
  pub inventories : Dict Inventory
  pub counter : ℕ
  pub events : List Event

abbrev emit : Event → World → World
emit e w = record w { events = e ∷ w.events }

-- DurabilityFactorN: how many halves of its bonus an item gives. `cur * 2` is computed on 32 bits.
unfoldable pub durability_factor : ℕ → ℕ → ℕ
durability_factor max_dur cur =
    if max_dur == 0
    then 2
    else if cur == 0
    then 0
    else if ltb ((cur * 2) % 2 ^ 32) max_dur
    then 1
    else 2

abbrev pub effective : ItemDef → ℕ → ℤ → ℤ
effective def durability bonus = times_half bonus (durability_factor def.max_durability durability)

-- EffectiveContributionL1
unfoldable pub contribution_l1 : ItemDef → ℕ → ℕ
contribution_l1 def durability = sum_by (λ b. magnitude (effective def durability b)) def.attr_bonus

-- One item's share is added to the layer, attribute by attribute.
unfoldable pub add_bonus : ItemDef → ℕ → List ℤ → List ℤ → List ℤ
add_bonus def durability [] layer = layer
add_bonus def durability (b ∷ bs) [] = []
add_bonus def durability (b ∷ bs) (x ∷ layer) =
    (x +ℤ effective def durability b) ∷ add_bonus def durability bs layer

unfoldable pub add_equipped : Dict ItemDef → ItemStack → List ℤ → List ℤ
add_equipped store eq layer = if eq.guid == 0 then layer else elim (lookup eq.def_id store) [
  | none ↦ layer
  | some def ↦ add_bonus def eq.durability def.attr_bonus layer
]

-- The loop over the equipment slots.
unfoldable pub sum_equipped : Dict ItemDef → List ItemStack → List ℤ → List ℤ
sum_equipped store [] layer = layer
sum_equipped store (eq ∷ eqs) layer = sum_equipped store eqs (add_equipped store eq layer)

abbrev pub zero_layer : List ℤ
zero_layer = replicate attr_count (pos 0)

unfoldable pub equipment_layer : World → ℕ → List ℤ
equipment_layer w player = elim (lookup player w.inventories) [
  | none ↦ zero_layer
  | some inv ↦ sum_equipped w.store inv.equipped zero_layer
]

abbrev with_layer : List ℤ → Character → Character
with_layer layer c =
    let a : AttributeSet = c.attrs in record c { attrs = record a { from_equipment = layer } }

-- RecomputeEquipmentAttrs: nothing happens to a player without a character.
unfoldable pub recompute_equipment_attrs : World → ℕ → World
recompute_equipment_attrs w player = elim (lookup player w.characters) [
  | none ↦ w
  | some c ↦
      let c' = recompute_attributes w.limits w.formula (with_layer (equipment_layer w player) c) in
      emit (role_event (attributes_event c'))
        (record w { characters = insert player c' w.characters })
]

-- `inv_[player]`: a bag is made when a player first needs one.
unfoldable pub inventory_of : World → ℕ → Inventory
inventory_of w player = elim (lookup player w.inventories) [ none ↦ init | some inv ↦ inv ]

abbrev store_inventory : ℕ → Inventory → World → World
store_inventory player inv w = record w { inventories = insert player inv w.inventories }

abbrev finish_add : World → ℕ → ℕ → Inventory × ℕ × Result AddOutcome → World × Result ℕ
finish_add w player def_id (inv, counter, ok out) = (
  emit (item_added out.guid def_id out.added)
      (store_inventory player inv (record w { counter = counter })),
  ok out.added,
)
finish_add w player def_id (inv, counter, err e) =
    (store_inventory player inv (record w { counter = counter }), err e)

unfoldable pub add_item : World → ℕ → ℕ → ℕ → World × Result ℕ
add_item w player def_id count = elim (lookup def_id w.store) [
  | none ↦ (w, err not_found)
  | some def ↦
      if count == 0
      then (w, err invalid_argument)
      else finish_add w player def_id (add (inventory_of w player) w.counter def count)
]

abbrev finish_remove : World → ℕ → ℕ → ℕ → Inventory × Result ℕ → World × Result ℕ
finish_remove w player guid def_id (inv, ok n) =
    (emit (item_removed guid def_id n) (store_inventory player inv w), ok n)
finish_remove w player guid def_id (inv, err e) = (store_inventory player inv w, err e)

unfoldable pub remove_item : World → ℕ → ℕ → ℕ → World × Result ℕ
remove_item w player guid count = elim (lookup player w.inventories) [
  | none ↦ (w, err invalid_argument)
  | some inv ↦
      let i = find inv guid in
      if i == max_inventory_slots
      then (w, err not_found)
      else finish_remove w player guid (slot_at inv i).def_id (remove inv guid count)
]

-- A slot is its number, and `equip_slot_count` is the invalid one.
abbrev pub fits_slot : ItemDef → ℕ → Bool
fits_slot def slot = not (bit_and (2 ^ slot) def.equip_slots == 0)

abbrev pub equipped_at : Inventory → ℕ → ItemStack
equipped_at inv slot = get_or inv.equipped slot empty_stack

abbrev pub set_equipped : ℕ → ItemStack → Inventory → Inventory
set_equipped slot st inv = record inv { equipped = set inv.equipped slot st }

-- The checks of Equip after the instance was found.
unfoldable pub may_equip : World → ℕ → ℕ → Inventory → ItemDef → Bool
may_equip w player slot inv def = elim (lookup player w.characters) [
  | none ↦ false
  | some c ↦
      fits_slot def slot && not (ltb c.level def.required_level) && (equipped_at inv slot).guid == 0
]

abbrev finish_equip :
    World → ℕ → ℕ → ItemStack → ItemDef → Inventory × Result ℕ → World × Result (Unit {0})
finish_equip w player slot st def (inv, err e) = (store_inventory player inv w, err e)
finish_equip w player slot st def (inv, ok n) = (
  emit (item_equipped st.guid slot (pos (contribution_l1 def st.durability)))
      (recompute_equipment_attrs (store_inventory player (set_equipped slot st inv) w) player),
  ok tt,
)

unfoldable pub equip : World → ℕ → ℕ → ℕ → World × Result (Unit {0})
equip w player guid slot =
    if slot == equip_slot_count
    then (w, err invalid_argument)
    else elim (lookup player w.inventories) [
      | none ↦ (w, err invalid_argument)
      | some inv ↦
          let i = find inv guid in
          if i == max_inventory_slots
          then (w, err invalid_argument)
          else elim (lookup (slot_at inv i).def_id w.store) [
            | none ↦ (w, err not_found)
            | some def ↦
                if may_equip w player slot inv def
                then finish_equip w player slot (slot_at inv i) def (remove inv guid 1)
                else (w, err invalid_argument)
          ]
    ]

abbrev finish_unequip :
    World → ℕ → ℕ → ItemStack → ItemDef → Inventory × Result ℕ → World × Result (Unit {0})
finish_unequip w player slot eq def (inv, err e) = (store_inventory player inv w, err e)
finish_unequip w player slot eq def (inv, ok n) = (
  emit (item_unequipped eq.guid slot (pos 0 -ℤ pos (contribution_l1 def eq.durability))) (
      recompute_equipment_attrs (store_inventory player (set_equipped slot empty_stack inv) w)
        player),
  ok tt,
)

unfoldable pub unequip : World → ℕ → ℕ → World × Result (Unit {0})
unequip w player slot =
    if slot == equip_slot_count
    then (w, err invalid_argument)
    else elim (lookup player w.inventories) [
      | none ↦ (w, err invalid_argument)
      | some inv ↦
          let eq = equipped_at inv slot in
          if eq.guid == 0 then (w, err invalid_argument) else elim (lookup eq.def_id w.store) [
            | none ↦ (w, err not_found)
            | some def ↦ finish_unequip w player slot eq def (add_existing inv eq)
          ]
    ]

unfoldable pub damage_durability : World → ℕ → ℕ → ℕ → World × Result (Unit {0})
damage_durability w player slot amount =
    if slot == equip_slot_count
    then (w, err invalid_argument)
    else elim (lookup player w.inventories) [
      | none ↦ (w, err invalid_argument)
      | some inv ↦
          let eq = equipped_at inv slot in
          if eq.guid == 0 then (w, err invalid_argument) else elim (lookup eq.def_id w.store) [
            | none ↦ (w, err not_found)
            | some _ ↦
                let to = if leb eq.durability amount then 0 else eq.durability - amount in
                if to == eq.durability then (w, ok tt) else (
                  emit (durability_changed eq.guid eq.durability to) (
                      recompute_equipment_attrs
                        (store_inventory player
                          (set_equipped slot (record eq { durability = to }) inv) w)
                        player),
                  ok tt,
                )
          ]
    ]

-- The calls of class InventorySystem that change its state.
pub data Call : Type 0 where
  adds removes equips : ℕ → ℕ → ℕ → Call
  unequips : ℕ → ℕ → Call
  damages : ℕ → ℕ → ℕ → Call

unfoldable pub step : World → Call → World
step w (adds p def_id count) = (add_item w p def_id count).0
step w (removes p guid count) = (remove_item w p guid count).0
step w (equips p guid slot) = (equip w p guid slot).0
step w (unequips p slot) = (unequip w p slot).0
step w (damages p slot amount) = (damage_durability w p slot amount).0

unfoldable pub run : World → List Call → World
run w [] = w
run w (c ∷ cs) = run (step w c) cs
