-- ===== src/Inventory/System/Items.antt =====
-- The bags and the equipment of all players under the calls of InventorySystem, and where the items
-- go when a player equips or unequips one.
use cami.Common.{ℕ, ◌+◌, ◌^◌, ◌≤◌, ◌<◌, arith}
use cami.Inventory.Item.{empty_stack}
use cami.Inventory.Bag.{Inventory, equip_slot_count, find, slot_at, add, remove, add_existing}
use cami.Inventory.Bag.Add.{add-Added, add_equipped_same}
use cami.Inventory.Bag.Remove.{
  remove-Removed, remove_equipped_same, add_existing-Returned, add_existing_equipped_same,
}
use cami.Inventory.System.{
  World, inventory_of, add_item, remove_item, equip, unequip, damage_durability, equipped_at,
  set_equipped, Call, adds, removes, equips, unequips, damages, step,
}
use cami.Inventory.System.Cases.{
  add_item_cases, remove_item_cases, equip_cases, unequip_cases, damage_durability_cases,
}
use cami.Inventory.System.Wearing.{
  IsWearing, IsStocked, IsWearing-bag, IsWearing-set, store-IsStocked, recompute-IsStocked,
}

-- A call that the program can make: slots are values of the enum, and the counter of guids, which
-- has 64 bits, does not run out.
abbrev pub IsAllowed : World → Call → Type 0
IsAllowed w (adds p def_id count) = w.counter + count < 2 ^ 64
IsAllowed w (removes p guid count) = Unit
IsAllowed w (equips p guid slot) = slot ≤ equip_slot_count
IsAllowed w (unequips p slot) = slot ≤ equip_slot_count
IsAllowed w (damages p slot amount) = slot ≤ equip_slot_count

add_item-IsStocked :
    (w : World) (p def_id count : ℕ)
    → w.counter + count < 2 ^ 64
    → IsStocked w
    → IsStocked (add_item w p def_id count).0
unfolding inventory_of
add_item-IsStocked w p def_id count h v =
    add_item_cases IsStocked w p v def_id count λ def es present pos.
      let inv = inventory_of w p in
      let here = v.wearing p in
      let (valid, later, _) =
        add-Added inv w.counter def count here.valid (v.stackable def_id def present) h in
      let r = add inv w.counter def count in
      let done = store-IsStocked w p r.1 r.0 v later (
        IsWearing-bag inv r.0 w.counter r.1 later here valid
          (add_equipped_same inv w.counter def count)) in
      record { wearing = done.wearing; stackable = done.stackable }

remove-IsWearing :
    (inv : Inventory) (counter guid count : ℕ)
    → IsWearing inv counter
    → IsWearing (remove inv guid count).0 counter
remove-IsWearing inv counter guid count here =
    IsWearing-bag inv (remove inv guid count).0 counter counter (omega arith) here
      (remove-Removed inv counter guid count here.valid).0 (remove_equipped_same inv guid count)

remove_item-IsStocked :
    (w : World) (p guid count : ℕ) → IsStocked w → IsStocked (remove_item w p guid count).0
unfolding inventory_of
remove_item-IsStocked w p guid count v = remove_item_cases IsStocked w p v guid count λ es.
    let inv = inventory_of w p in
    let done =
      store-IsStocked w p w.counter (remove inv guid count).0 v (omega arith)
        (remove-IsWearing inv w.counter guid count (v.wearing p)) in
    record { wearing = done.wearing; stackable = done.stackable }

equip-IsStocked :
    (w : World) (p guid slot : ℕ)
    → slot ≤ equip_slot_count
    → IsStocked w
    → IsStocked (equip w p guid slot).0
unfolding inventory_of
equip-IsStocked w p guid slot h v =
    let inv = inventory_of w p in
    let here = remove-IsWearing inv w.counter guid 1 (v.wearing p) in
    equip_cases (λ r. IsStocked r.0) w p (λ _. v) guid slot
      (λ _ _ _. store-IsStocked w p w.counter (remove inv guid 1).0 v (omega arith) here)
      (λ n es def fine _ _ _ _.
        let i = find inv guid in
        let valid = (v.wearing p).valid in
        let done =
          recompute-IsStocked w p (set_equipped slot (slot_at inv i) (remove inv guid 1).0) v (
            IsWearing-set (remove inv guid 1).0 w.counter slot (slot_at inv i) here (omega arith)
              (valid.sound.stocked i) (valid.sound.issued i)) in
        record { wearing = done.wearing; stackable = done.stackable })

add_existing-IsWearing :
    (inv : Inventory) (counter slot : ℕ)
    → IsWearing inv counter
    → IsWearing (add_existing inv (equipped_at inv slot)).0 counter
add_existing-IsWearing inv counter slot here =
    let eq = equipped_at inv slot in
    IsWearing-bag inv (add_existing inv eq).0 counter counter (omega arith) here
      (add_existing-Returned inv counter eq here.valid (here.alive slot) (here.issued slot)).0
      (add_existing_equipped_same inv eq)

unequip-IsStocked :
    (w : World) (p slot : ℕ)
    → slot ≤ equip_slot_count
    → IsStocked w
    → IsStocked (unequip w p slot).0
unfolding inventory_of
unequip-IsStocked w p slot h v =
    let inv = inventory_of w p in
    let here = add_existing-IsWearing inv w.counter slot (v.wearing p) in
    let r = add_existing inv (equipped_at inv slot) in
    unequip_cases (λ r. IsStocked r.0) w p (λ _. v) slot
      (λ _ _ _ _. store-IsStocked w p w.counter r.0 v (omega arith) here)
      (λ n es fine _ _.
        let done = recompute-IsStocked w p (set_equipped slot empty_stack r.0) v (
          IsWearing-set r.0 w.counter slot empty_stack here (omega arith) (omega arith)
            (omega (arith, (v.wearing p).issued slot))) in
        record { wearing = done.wearing; stackable = done.stackable })

damage_durability-IsStocked :
    (w : World) (p slot amount : ℕ)
    → slot ≤ equip_slot_count
    → IsStocked w
    → IsStocked (damage_durability w p slot amount).0
unfolding inventory_of
damage_durability-IsStocked w p slot amount h v =
    let inv = inventory_of w p in
    let here = v.wearing p in
    damage_durability_cases (λ r. IsStocked r.0) w p (λ _. v) slot amount v
      λ es fine _.
        let done = recompute-IsStocked w p _ v (
          IsWearing-set inv w.counter slot _ here (omega arith) (here.alive slot)
            (here.issued slot)) in
        record { wearing = done.wearing; stackable = done.stackable }

-- Every call that the program can make, whether it succeeds or fails, leaves all bags valid, the ten
-- equipment slots of every player in place, and what is worn with a positive count and an issued guid.
pub step-IsStocked : (w : World) (c : Call) → IsAllowed w c → IsStocked w → IsStocked (step w c)
unfolding step
step-IsStocked w (adds p def_id count) h v = add_item-IsStocked w p def_id count h v
step-IsStocked w (removes p guid count) h v = remove_item-IsStocked w p guid count v
step-IsStocked w (equips p guid slot) h v = equip-IsStocked w p guid slot h v
step-IsStocked w (unequips p slot) h v = unequip-IsStocked w p slot h v
step-IsStocked w (damages p slot amount) h v = damage_durability-IsStocked w p slot amount h v
