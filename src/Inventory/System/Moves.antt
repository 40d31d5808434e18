-- ===== src/Inventory/System/Moves.antt =====
-- Equip and Unequip: where the item goes, and how many items there are afterwards.
use cami.Common.{
  ℕ, ◌+◌, ◌≤◌, ◌<◌, ◌≡◌, refl, sym, ap, subst, ◌∙◌, ◌≢◌, ◌⊎◌, inl, inr, some, arith, true, length,
  get_or, sum_by, sum_by-set, get_or-set_self, get_or-set_ne,
}
use cami.Common.Dict.{lookup, insert_same}
use cami.Common.Errors.{Result, ok, err}
use cami.Inventory.Item.{ItemDef, ItemStack, empty_stack}
use cami.Inventory.Bag.{
  Inventory, max_inventory_slots, equip_slot_count, find, slot_at, remove, add_existing,
  total_count, held,
}
use cami.Inventory.Bag.Invariant.{IsValid, guid_at}
use cami.Inventory.Bag.Remove.{
  find-Finds, Removed, remove-Removed, remove_equipped_same, Returned, add_existing-Returned,
  add_existing_equipped_same,
}
use cami.Inventory.System.{
  World, recompute_equipment_attrs, inventory_of, store_inventory, equip, unequip, equipped_at,
  set_equipped, may_equip,
}
use cami.Inventory.System.Cases.{equip_cases, unequip_cases}
use cami.Inventory.System.Sync.{inventory_of_self, recompute_inventory_of}
use cami.Inventory.System.Wearing.{IsWearing, IsStocked}

-- The items in the bag and on the body.
unfoldable pub items : Inventory → ℕ
items inv = total_count inv + sum_by held inv.equipped

-- After an equipment: the instance as it stood in the bag is worn in the slot, one item of its stack
-- left the bag, and the other equipment slots are as they were.
abbrev pub Equips : World → ℕ → ℕ → ℕ → World × Result (Unit {0}) → Type 0
Equips w p guid slot (w', err e) = w' ≡ w
Equips w p guid slot (w', ok _) =
    let inv = inventory_of w p in
    let inv' = inventory_of w' p in
    let st = slot_at inv (find inv guid) in
    (st.guid ≡ guid)
    × (equipped_at inv' slot ≡ st)
    × ((s : ℕ) → s ≢ slot → equipped_at inv' s ≡ equipped_at inv s)
    × (total_count inv' + 1 ≡ total_count inv)
    × (items inv' + 1 ≡ items inv + st.count)

worn_after :
    (w : World) (p : ℕ) (inv : Inventory)
    → inventory_of (recompute_equipment_attrs (store_inventory p inv w) p) p ≡ inv
worn_after w p inv =
    recompute_inventory_of (store_inventory p inv w) p p ∙ inventory_of_self w p inv

-- A removal of one item that was found does not fail.
remove_one :
    (inv : Inventory) (counter guid : ℕ)
    → IsValid inv counter
    → find inv guid ≢ max_inventory_slots
    → (remove inv guid 1).1 ≡ ok 1
unfolding remove
remove_one inv counter guid v found = ground (arith, v.sound.stocked (find inv guid))

remove_one_total :
    (inv : Inventory) (counter guid : ℕ)
    → IsValid inv counter
    → find inv guid ≢ max_inventory_slots
    → total_count (remove inv guid 1).0 + 1 ≡ total_count inv
remove_one_total inv counter guid v found =
    (subst (Removed inv guid 1 (remove inv guid 1).0) (remove_one inv counter guid v found)
      (remove-Removed inv counter guid 1 v).1).1

find_guid :
    (inv : Inventory) (counter guid : ℕ)
    → IsValid inv counter
    → find inv guid ≢ max_inventory_slots
    → (guid ≢ 0)
      × (find inv guid < max_inventory_slots)
      × ((slot_at inv (find inv guid)).guid ≡ guid)
find_guid inv counter guid v found = elim (find-Finds inv guid v.sound.slots) [
  | inl (miss, _) ↦ absurd (found miss)
  | inr hit ↦ hit
]

empty_slot :
    (w : World) (p slot : ℕ) (inv : Inventory) (def : ItemDef)
    → may_equip w p slot inv def ≡ true
    → (equipped_at inv slot).guid ≡ 0
unfolding may_equip
empty_slot w p slot inv def h = ground arith

-- Writing an equipment slot exchanges what is worn there.
items-set_equipped :
    (inv : Inventory) (slot : ℕ) (st : ItemStack)
    → slot < length inv.equipped
    → (total_count (set_equipped slot st inv) ≡ total_count inv)
      × (items (set_equipped slot st inv) + held (equipped_at inv slot) ≡ items inv + held st)
unfolding items total_count
items-set_equipped inv slot st h =
    (refl, omega (arith, sum_by-set held inv.equipped slot st empty_stack h))

worn_items :
    (inv inv' : Inventory)
    → inv'.equipped ≡ inv.equipped
    → items inv' + total_count inv ≡ items inv + total_count inv'
unfolding items
worn_items inv inv' e = omega (arith, ap (sum_by held) e)

-- In a consistent world, Equip either fails and changes nothing, or moves the instance: it is then
-- worn in the slot as it stood in the bag, one item has left the bag, the other equipment slots are
-- as they were, and the player has as many items as before plus the stack's count less one. So the
-- number of items is kept exactly when the stack held a single item.
pub equip-Equips :
    (w : World) (p guid slot : ℕ)
    → IsStocked w
    → slot ≤ equip_slot_count
    → Equips w p guid slot (equip w p guid slot)
unfolding inventory_of
equip-Equips w p guid slot v h =
    equip_cases (Equips w p guid slot) w p (λ _. refl) guid slot
      (λ e found failed. cc (remove_one inv w.counter guid here.valid found))
      (λ n es def fine found defined may done.
        let (live, lt, at) = find_guid inv w.counter guid here.valid found in
        let inv' = set_equipped slot st taken_out in
        let after = worn_after w p inv' in
        let in_range : slot < length taken_out.equipped =
          omega (arith, ap length same, here.slots) in
        let (total, exchanged) = items-set_equipped taken_out slot st in_range in
        let taken = remove_one_total inv w.counter guid here.valid found in
        let bare : (equipped_at taken_out slot).guid ≡ 0 =
          ap (λ eqs. (get_or eqs slot empty_stack).guid) same ∙ empty_slot w p slot inv def may in
        let balance : items inv' + 1 ≡ items inv + st.count =
          ground (arith, exchanged, worn_items inv taken_out same, taken, bare, live, at) in
        (
          at,
          ap (λ i. equipped_at i slot) after
              ∙ get_or-set_self taken_out.equipped slot st empty_stack in_range,
          λ s ne.
              ap (λ i. equipped_at i s) after
              ∙ get_or-set_ne taken_out.equipped slot s st empty_stack (λ e. ne (sym e))
              ∙ ap (λ eqs. get_or eqs s empty_stack) same,
          ap (λ i. total_count i + 1) after ∙ ap (λ (n : ℕ). n + 1) total ∙ taken,
          ap (λ i. items i + 1) after ∙ balance,
        ))
  where
    inv : Inventory
    inv = inventory_of w p

    here : IsWearing inv w.counter
    here = v.wearing p

    st : ItemStack
    st = slot_at inv (find inv guid)

    taken_out : Inventory
    taken_out = (remove inv guid 1).0

    same : taken_out.equipped ≡ inv.equipped
    same = remove_equipped_same inv guid 1

-- After an Unequip the slot is empty. Either the bag already had a stack of that guid: then the bag
-- is as it was, and what was worn is gone. Or it went, as it was worn, to a slot that was empty.
abbrev pub Unequips : World → ℕ → ℕ → World × Result (Unit {0}) → Type 0
Unequips w p slot (w', err e) = w' ≡ w
Unequips w p slot (w', ok _) =
    let inv = inventory_of w p in
    let inv' = inventory_of w' p in
    let eq = equipped_at inv slot in
    (equipped_at inv' slot ≡ empty_stack)
    × ((s : ℕ) → s ≢ slot → equipped_at inv' s ≡ equipped_at inv s)
    × (((i : ℕ) × (guid_at inv.bag i ≡ eq.guid)
          × (inv'.bag ≡ inv.bag)
          × (items inv' + eq.count ≡ items inv))
        ⊎ ((i : ℕ) × (guid_at inv.bag i ≡ 0) × (slot_at inv' i ≡ eq) × (items inv' ≡ items inv)))

same_world :
    (w : World) (p : ℕ) (inv : Inventory)
    → lookup p w.inventories ≡ some inv
    → store_inventory p inv w ≡ w
same_world w p inv e = ap (λ d. record w { inventories = d }) (insert_same p inv w.inventories e)

-- In a consistent world, Unequip either fails and changes nothing, or clears the slot and leaves the
-- other slots as they were. The instance then stands in the bag, in a slot that was empty, and the
-- player has as many items as before; but if a stack with the same guid was in the bag already, the
-- bag is unchanged and the player has lost what was worn.
pub unequip-Unequips :
    (w : World) (p slot : ℕ)
    → IsStocked w
    → slot ≤ equip_slot_count
    → Unequips w p slot (unequip w p slot)
unfolding inventory_of
unequip-Unequips w p slot v h =
    unequip_cases (Unequips w p slot) w p (λ _. refl) slot
      (λ e present worn failed.
        let r = subst (Returned inv eq put_back) failed returned in
        ap (λ i. store_inventory p i w) r.0 ∙ same_world w p inv present)
      (λ n es fine worn done.
        let r = subst (Returned inv eq put_back) done returned in
        let inv' = set_equipped slot empty_stack put_back in
        let after = worn_after w p inv' in
        let in_range : slot < length put_back.equipped =
          omega (arith, ap length same, here.slots) in
        let (total, exchanged) = items-set_equipped put_back slot empty_stack in_range in
        let was : held (equipped_at put_back slot) ≡ held eq =
          ap (λ eqs. held (get_or eqs slot empty_stack)) same in
        (
          ap (λ i. equipped_at i slot) after
              ∙ get_or-set_self put_back.equipped slot empty_stack empty_stack in_range,
          λ s ne.
              ap (λ i. equipped_at i s) after
              ∙ get_or-set_ne put_back.equipped slot s empty_stack empty_stack (λ e. ne (sym e))
              ∙ ap (λ eqs. get_or eqs s empty_stack) same,
          elim r.1 [
            | inl (i, has, unchanged) ↦
                let balance : items inv' + eq.count ≡ items inv = ground (
                  arith,
                  exchanged,
                  worn_items inv put_back same,
                  ap total_count unchanged,
                  was,
                  worn,
                ) in
                inl (
                  i,
                  has,
                  ap (λ k. k.bag) after ∙ ap (λ k. k.bag) unchanged,
                  ap (λ k. items k + eq.count) after ∙ balance,
                )
            | inr (i, vacant, placed, counted, others) ↦
                let balance : items inv' ≡ items inv =
                  ground (arith, exchanged, worn_items inv put_back same, counted, was, worn) in
                inr (i, vacant, ap (λ k. slot_at k i) after ∙ placed, ap items after ∙ balance)
          ],
        ))
  where
    inv : Inventory
    inv = inventory_of w p

    here : IsWearing inv w.counter
    here = v.wearing p

    eq : ItemStack
    eq = equipped_at inv slot

    put_back : Inventory
    put_back = (add_existing inv eq).0

    same : put_back.equipped ≡ inv.equipped
    same = add_existing_equipped_same inv eq

    returned : Returned inv eq put_back (add_existing inv eq).1
    returned =
        (add_existing-Returned inv w.counter eq here.valid (here.alive slot) (here.issued slot)).1
