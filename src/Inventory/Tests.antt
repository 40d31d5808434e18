-- ===== src/Inventory/Tests.antt =====
-- server/gamenode/inventory: concrete bags and calls.
use cami.Common.{
  ℕ, ◌≡◌, refl, ◌≤◌, ◌<◌, [], ◌∷◌, some, arith, replicate, length, inl, inr, Bool-cases, ◌==◌,
  get_or-replicate, ap,
}
use cami.Common.Dict.{lookup}
use cami.Common.Int.{pos}
use cami.Role.Attribute.{attr_count, default_limits, default_formula}
use cami.Role.Character.{Character}
use cami.Inventory.Item.{ItemDef, ItemStack, empty_stack}
use cami.Inventory.Bag.{
  fill, stack_onto, top_up, open_stacks, open_stack, allocate_slot, Inventory, init, add, remove,
  add_existing, find, max_inventory_slots,
}
use cami.Inventory.Bag.Invariant.{IsValid}
use cami.Inventory.Bag.Changes.{init-IsValid}
use cami.Inventory.Bag.Add.{Added, add-Added}
use cami.Inventory.Bag.Remove.{
  Finds, find-Finds, Removed, remove-Removed, Returned, add_existing-Returned,
}
use cami.Inventory.System.{
  World, adds, equips, damages, unequips, step, run, equip, unequip, inventory_of, zero_layer,
  sum_equipped, add_equipped,
}
use cami.Inventory.System.Sync.{IsSynced, run-IsSynced}
use cami.Inventory.System.Wearing.{IsStocked}
use cami.Inventory.System.Items.{step-IsStocked}
use cami.Inventory.System.Moves.{Equips, equip-Equips, Unequips, unequip-Unequips}

abbrev potion : ItemDef
potion = record {
  def_id = 7;
  max_stack = 20;
  item_type = 0;
  required_level = 1;
  max_durability = 0;
  equip_slots = 0;
  attr_bonus = [];
}

abbrev sword : ItemDef
sword = record {
  def_id = 9;
  max_stack = 1;
  item_type = 1;
  required_level = 1;
  max_durability = 10;
  equip_slots = 1;
  attr_bonus = pos 5 ∷ replicate 10 (pos 0);
}

abbrev bag_of_five : Inventory
bag_of_five = (add init 1 potion 5).0

five-Added :
    let (inv', counter', r) = add init 1 potion 5 in
    IsValid inv' counter' × (1 ≤ counter') × Added init 5 inv' r
five-Added = add-Added init 1 potion 5 (init-IsValid 1 (omega arith)) (omega arith) (omega arith)

-- One stack is opened, under one guid.
one_guid : (add init 1 potion 5).1 ≡ 2
unfolding add init fill stack_onto top_up open_stacks open_stack allocate_slot
one_guid = refl

add-Added_example :
    let (inv', counter', r) = add bag_of_five (add init 1 potion 5).1 potion 30 in
    IsValid inv' counter' × ((add init 1 potion 5).1 ≤ counter') × Added bag_of_five 30 inv' r
add-Added_example =
    add-Added bag_of_five (add init 1 potion 5).1 potion 30 five-Added.0 (omega arith)
      (omega (arith, one_guid))

bag_of_five_slots : length bag_of_five.bag ≡ max_inventory_slots
bag_of_five_slots = five-Added.0.sound.slots

find-Finds_example : Finds bag_of_five 1 (find bag_of_five 1)
find-Finds_example = find-Finds bag_of_five 1 bag_of_five_slots

remove-Removed_example :
    let (inv', r) = remove bag_of_five 1 3 in
    IsValid inv' (add init 1 potion 5).1 × Removed bag_of_five 1 3 inv' r
remove-Removed_example = remove-Removed bag_of_five (add init 1 potion 5).1 1 3 five-Added.0

abbrev worn_sword : ItemStack
worn_sword = record { def_id = 9; count = 1; durability = 4; guid = 3 }

add_existing-Returned_example :
    let (inv', r) = add_existing init worn_sword in IsValid inv' 5 × Returned init worn_sword inv' r
add_existing-Returned_example =
    add_existing-Returned init 5 worn_sword (init-IsValid 5 (omega arith)) (omega arith)
      (omega arith)

abbrev knight : Character
knight = record {
  id = 1;
  level = 3;
  hp = pos 10;
  mp = pos 10;
  attrs = record {
    base = replicate attr_count (pos 20);
    from_equipment = zero_layer;
    from_buff = replicate attr_count (pos 0);
    total = replicate attr_count (pos 0);
  };
  version = 0;
}

abbrev new_world : World
new_world = record {
  store = (7, potion) ∷ (9, sword) ∷ [];
  limits = default_limits;
  formula = default_formula;
  characters = (1, knight) ∷ [];
  inventories = [];
  counter = 1;
  events = [];
}

-- A player without an inventory wears nothing.
bare_layer : sum_equipped new_world.store init.equipped zero_layer ≡ zero_layer
unfolding init sum_equipped add_equipped
bare_layer = refl

new_world-IsSynced : IsSynced new_world
unfolding inventory_of
new_world-IsSynced p c at = elim (Bool-cases (1 == p)) [
  | inl same ↦ ground (arith, same, bare_layer)
  | inr other ↦ absurd (ground (arith, other))
]

run-IsSynced_example :
    IsSynced (run new_world (adds 1 9 1 ∷ equips 1 1 0 ∷ damages 1 0 6 ∷ unequips 1 0 ∷ []))
run-IsSynced_example =
    run-IsSynced new_world (adds 1 9 1 ∷ equips 1 1 0 ∷ damages 1 0 6 ∷ unequips 1 0 ∷ [])
      new_world-IsSynced

new_world_stackable :
    (k : ℕ) (def : ItemDef) → lookup k new_world.store ≡ some def → 0 < def.max_stack
new_world_stackable k def at = ground arith

new_world-IsStocked : IsStocked new_world
unfolding inventory_of init
new_world-IsStocked = record {
  wearing = λ p. record {
    valid = init-IsValid 1 (omega arith);
    slots = refl;
    alive =
        λ s. ground (arith, ap (λ (st : ItemStack). st.count) (get_or-replicate 10 s empty_stack));
    issued =
        λ s. ground (arith, ap (λ (st : ItemStack). st.guid) (get_or-replicate 10 s empty_stack));
  };
  stackable = new_world_stackable;
}

abbrev armed_world : World
armed_world = step new_world (adds 1 9 1)

step-IsStocked_example : IsStocked (step new_world (adds 1 9 1))
step-IsStocked_example = step-IsStocked new_world (adds 1 9 1) (omega arith) new_world-IsStocked

equip-Equips_example : Equips armed_world 1 1 0 (equip armed_world 1 1 0)
equip-Equips_example = equip-Equips armed_world 1 1 0 step-IsStocked_example (omega arith)

abbrev clad_world : World
clad_world = step armed_world (equips 1 1 0)

clad_world-IsStocked : IsStocked clad_world
clad_world-IsStocked =
    step-IsStocked armed_world (equips 1 1 0) (omega arith) step-IsStocked_example

unequip-Unequips_example : Unequips clad_world 1 0 (unequip clad_world 1 0)
unequip-Unequips_example = unequip-Unequips clad_world 1 0 clad_world-IsStocked (omega arith)
