-- ===== src/Inventory/System/Cases.antt =====
-- For each call of InventorySystem, the worlds that it may leave, as a rule that proves a property of
-- the world after the call from the property of each.
use cami.Common.{
  ℕ, ◌-◌, ◌<◌, ◌≡◌, ◌≢◌, refl, ap, inl, inr, List, some, arith, true, Option-cases, Bool-cases,
  ◌==◌, leb, if◌then◌else◌,
}
use cami.Common.Dict.{lookup}
use cami.Common.Errors.{Result, ErrorCode, ok, err}
use cami.Inventory.Item.{ItemDef, ItemStack, empty_stack}
use cami.Inventory.Bag.{
  Inventory, AddOutcome, max_inventory_slots, equip_slot_count, find, slot_at, add, remove,
  add_existing,
}
use cami.Inventory.System.{
  World, Event, recompute_equipment_attrs, inventory_of, store_inventory, add_item, remove_item,
  equip, unequip, damage_durability, finish_add, finish_remove, finish_equip, finish_unequip,
  may_equip, equipped_at, set_equipped,
}

abbrev with_events : List Event → World → World
with_events es w = record w { events = es }

inventory_of_found :
    (w : World) (p : ℕ) (inv : Inventory)
    → lookup p w.inventories ≡ some inv
    → inv ≡ inventory_of w p
unfolding inventory_of
inventory_of_found w p inv e = rw (e, inventory_of)

module _ {ℓ} (P : World → Type ℓ) (w : World) (p : ℕ) (stays : P w) where
  pub finish_add_cases :
      (def_id : ℕ) (r : Inventory × ℕ × Result AddOutcome)
      → ((es : List Event)
          → P (with_events es (store_inventory p r.0 (record w { counter = r.1 }))))
      → P (finish_add w p def_id r).0
  finish_add_cases def_id (inv, counter, ok out) h = h _
  finish_add_cases def_id (inv, counter, err e) h = h _

  pub add_item_cases :
      (def_id count : ℕ)
      → ((def : ItemDef) (es : List Event)
          → lookup def_id w.store ≡ some def
          → 0 < count
          → let r = add (inventory_of w p) w.counter def count in
            P (with_events es (store_inventory p r.0 (record w { counter = r.1 }))))
      → P (add_item w p def_id count).0
  unfolding add_item
  add_item_cases def_id count h = elim (Option-cases (lookup def_id w.store)) [
    | inl absent ↦ rw (absent, add_item) stays
    | inr (def, present) ↦ elim (Bool-cases (count == 0)) [
      | inl z ↦ rw (present, z, add_item) stays
      | inr pos ↦
          rw (present, pos, add_item)
            (finish_add_cases def_id (add (inventory_of w p) w.counter def count)
              (λ es. h def es present (ground arith)))
    ]
  ]

  pub remove_item_cases :
      (guid count : ℕ)
      → ((es : List Event)
          → P (with_events es (store_inventory p (remove (inventory_of w p) guid count).0 w)))
      → P (remove_item w p guid count).0
  unfolding remove_item
  remove_item_cases guid count h = elim (Option-cases (lookup p w.inventories)) [
    | inl absent ↦ rw (absent, remove_item) stays
    | inr (inv, present) ↦ elim (Bool-cases (find inv guid == max_inventory_slots)) [
      | inl miss ↦ rw (present, miss, remove_item) stays
      | inr hit ↦
          rw (present, hit, remove_item, inventory_of_found w p inv present)
            (go (slot_at (inventory_of w p) (find (inventory_of w p) guid)).def_id
              (remove (inventory_of w p) guid count) h)
    ]
  ]
    where
      go :
          (def_id : ℕ) (r : Inventory × Result ℕ)
          → ((es : List Event) → P (with_events es (store_inventory p r.0 w)))
          → P (finish_remove w p guid def_id r).0
      go def_id (inv, ok n) h = h _
      go def_id (inv, err e) h = h _

module _ {ℓ} (P : World × Result (Unit {0}) → Type ℓ) (w : World) (p : ℕ)
    (stays : (e : ErrorCode) → P (w, err e)) where
  finish_equip_cases :
      (slot : ℕ) (st : ItemStack) (def : ItemDef) (r : Inventory × Result ℕ)
      → ((e : ErrorCode) → r.1 ≡ err e → P (store_inventory p r.0 w, err e))
      → ((n : ℕ) (es : List Event)
          → r.1 ≡ ok n
          → P (
            with_events es
                (recompute_equipment_attrs (store_inventory p (set_equipped slot st r.0) w) p),
            ok tt,
          ))
      → P (finish_equip w p slot st def r)
  finish_equip_cases slot st def (inv, ok n) refused done = done n _ refl
  finish_equip_cases slot st def (inv, err e) refused done = refused e refl

  pub equip_cases :
      (guid slot : ℕ)
      → ((e : ErrorCode)
          → find (inventory_of w p) guid ≢ max_inventory_slots
          → (remove (inventory_of w p) guid 1).1 ≡ err e
          → P (store_inventory p (remove (inventory_of w p) guid 1).0 w, err e))
      → ((n : ℕ) (es : List Event) (def : ItemDef)
          → let inv = inventory_of w p in
            let st = slot_at inv (find inv guid) in
            let r = remove inv guid 1 in
            slot ≢ equip_slot_count
            → find inv guid ≢ max_inventory_slots
            → lookup st.def_id w.store ≡ some def
            → may_equip w p slot inv def ≡ true
            → r.1 ≡ ok n
            → P (
              with_events es
                  (recompute_equipment_attrs (store_inventory p (set_equipped slot st r.0) w) p),
              ok tt,
            ))
      → P (equip w p guid slot)
  unfolding equip
  equip_cases guid slot refused done = elim (Bool-cases (slot == equip_slot_count)) [
    | inl none_such ↦ rw (none_such, equip) (stays _)
    | inr fine ↦ elim (Option-cases (lookup p w.inventories)) [
      | inl absent ↦ rw (fine, absent, equip) (stays _)
      | inr (inv, present) ↦ elim (Bool-cases (find inv guid == max_inventory_slots)) [
        | inl miss ↦ rw (fine, present, miss, equip) (stays _)
        | inr hit ↦ elim (Option-cases (lookup (slot_at inv (find inv guid)).def_id w.store)) [
          | inl undefined ↦ rw (fine, present, hit, undefined, equip) (stays _)
          | inr (def, defined) ↦ elim (Bool-cases (may_equip w p slot inv def)) [
            | inl yes_may ↦
                let same = inventory_of_found w p inv present in
                rw (fine, present, hit, defined, yes_may, equip)
                  (rw same (
                    finish_equip_cases slot
                      (slot_at (inventory_of w p) (find (inventory_of w p) guid)) def
                      (remove (inventory_of w p) guid 1)
                      (λ e. refused e (ground (arith, ap (λ i. find i guid) same)))
                      (λ n es.
                        done n es def (ground arith) (ground (arith, ap (λ i. find i guid) same))
                          (rw (← same) defined) (rw (← same) yes_may))))
            | inr may_not ↦ rw (fine, present, hit, defined, may_not, equip) (stays _)
          ]
        ]
      ]
    ]
  ]

  finish_unequip_cases :
      (slot : ℕ) (eq : ItemStack) (def : ItemDef) (r : Inventory × Result ℕ)
      → ((e : ErrorCode) → r.1 ≡ err e → P (store_inventory p r.0 w, err e))
      → ((n : ℕ) (es : List Event)
          → r.1 ≡ ok n
          → P (
            with_events es (
                recompute_equipment_attrs
                  (store_inventory p (set_equipped slot empty_stack r.0) w)
                  p),
            ok tt,
          ))
      → P (finish_unequip w p slot eq def r)
  finish_unequip_cases slot eq def (inv, ok n) refused done = done n _ refl
  finish_unequip_cases slot eq def (inv, err e) refused done = refused e refl

  pub unequip_cases :
      (slot : ℕ)
      → ((e : ErrorCode)
          → lookup p w.inventories ≡ some (inventory_of w p)
          → (equipped_at (inventory_of w p) slot).guid ≢ 0
          → (add_existing (inventory_of w p) (equipped_at (inventory_of w p) slot)).1 ≡ err e
          → P (
            store_inventory p
                (add_existing (inventory_of w p) (equipped_at (inventory_of w p) slot)).0
                w,
            err e,
          ))
      → ((n : ℕ) (es : List Event)
          → let inv = inventory_of w p in
            let r = add_existing inv (equipped_at inv slot) in
            slot ≢ equip_slot_count
            → (equipped_at inv slot).guid ≢ 0
            → r.1 ≡ ok n
            → P (
              with_events es (
                  recompute_equipment_attrs
                    (store_inventory p (set_equipped slot empty_stack r.0) w)
                    p),
              ok tt,
            ))
      → P (unequip w p slot)
  unfolding unequip
  unequip_cases slot refused done = elim (Bool-cases (slot == equip_slot_count)) [
    | inl none_such ↦ rw (none_such, unequip) (stays _)
    | inr fine ↦ elim (Option-cases (lookup p w.inventories)) [
      | inl absent ↦ rw (fine, absent, unequip) (stays _)
      | inr (inv, present) ↦ elim (Bool-cases ((equipped_at inv slot).guid == 0)) [
        | inl bare ↦ rw (fine, present, bare, unequip) (stays _)
        | inr worn ↦ elim (Option-cases (lookup (equipped_at inv slot).def_id w.store)) [
          | inl undefined ↦ rw (fine, present, worn, undefined, unequip) (stays _)
          | inr (def, defined) ↦
              let same = inventory_of_found w p inv present in
              rw (fine, present, worn, defined, unequip)
                (rw same (
                  finish_unequip_cases slot (equipped_at (inventory_of w p) slot) def
                    (add_existing (inventory_of w p) (equipped_at (inventory_of w p) slot))
                    (λ e.
                      refused e (rw (← same) present)
                        (ground (arith, ap (λ i. (equipped_at i slot).guid) same)))
                    (λ n es.
                      done n es (ground arith)
                        (ground (arith, ap (λ i. (equipped_at i slot).guid) same)))))
        ]
      ]
    ]
  ]

  pub damage_durability_cases :
      (slot amount : ℕ)
      → P (w, ok tt)
      → ((es : List Event)
          → let inv = inventory_of w p in
            let eq = equipped_at inv slot in
            let to = if leb eq.durability amount then 0 else eq.durability - amount in
            slot ≢ equip_slot_count
            → eq.guid ≢ 0
            → P (
              with_events es (
                  recompute_equipment_attrs
                    (store_inventory p (set_equipped slot (record eq { durability = to }) inv) w)
                    p),
              ok tt,
            ))
      → P (damage_durability w p slot amount)
  unfolding damage_durability
  damage_durability_cases slot amount idle done = elim (Bool-cases (slot == equip_slot_count)) [
    | inl none_such ↦ rw (none_such, damage_durability) (stays _)
    | inr fine ↦ elim (Option-cases (lookup p w.inventories)) [
      | inl absent ↦ rw (fine, absent, damage_durability) (stays _)
      | inr (inv, present) ↦ elim (Bool-cases ((equipped_at inv slot).guid == 0)) [
        | inl bare ↦ rw (fine, present, bare, damage_durability) (stays _)
        | inr worn ↦ elim (Option-cases (lookup (equipped_at inv slot).def_id w.store)) [
          | inl undefined ↦ rw (fine, present, worn, undefined, damage_durability) (stays _)
          | inr (def, defined) ↦
              let same = inventory_of_found w p inv present in
              let eq = equipped_at inv slot in
              let to = if leb eq.durability amount then 0 else eq.durability - amount in
              elim (Bool-cases (to == eq.durability)) [
                | inl unchanged ↦
                    rw (fine, present, worn, defined, unchanged, damage_durability) idle
                | inr changed ↦
                    rw (fine, present, worn, defined, changed, damage_durability)
                      (rw same (
                        done _ (ground arith)
                          (ground (arith, ap (λ i. (equipped_at i slot).guid) same))))
              ]
        ]
      ]
    ]
  ]
