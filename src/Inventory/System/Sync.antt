-- ===== src/Inventory/System/Sync.antt =====
-- The equipment layer of a character, against what the character wears.
use cami.Common.{
  ℕ, ◌≡◌, refl, sym, ap, ◌∙◌, ◌≢◌, ◌⊎◌, inl, inr, List, [], ◌∷◌, some, arith, Option-cases,
}
use native.Mathlib.Decide.{ℕ_discrete}
use cami.Common.Dict.{lookup, insert, lookup-insert_self, lookup-insert_ne}
use cami.Role.Attribute.{recompute}
use cami.Role.Character.{Character, recompute_attributes, clamp_vitals}
use cami.Inventory.Item.{ItemStack}
use cami.Inventory.Bag.{Inventory, init, add, remove}
use cami.Inventory.Bag.Add.{add_equipped_same}
use cami.Inventory.Bag.Remove.{remove_equipped_same, add_existing_equipped_same}
use cami.Inventory.System.{
  World, sum_equipped, add_equipped, zero_layer, equipment_layer, with_layer,
  recompute_equipment_attrs, inventory_of, store_inventory, add_item, remove_item, equip, unequip,
  damage_durability, equipped_at, Call, adds, removes, equips, unequips, damages, step, run,
}
use cami.Inventory.System.Cases.{
  add_item_cases, remove_item_cases, equip_cases, unequip_cases, damage_durability_cases,
}

-- Every character's equipment layer is the sum over what the player wears.
abbrev pub IsSynced : World → Type 0
IsSynced w =
    (p : ℕ) (c : Character)
    → lookup p w.characters ≡ some c
    → c.attrs.from_equipment ≡ sum_equipped w.store (inventory_of w p).equipped zero_layer

-- Recomputing the totals leaves the layers alone.
recompute_attributes_layer :
    (w : World) (c : Character)
    → (recompute_attributes w.limits w.formula c).attrs.from_equipment ≡ c.attrs.from_equipment
unfolding recompute_attributes clamp_vitals recompute
recompute_attributes_layer w c = refl

equipment_layer_lem :
    (w : World) (p : ℕ)
    → equipment_layer w p ≡ sum_equipped w.store (inventory_of w p).equipped zero_layer
unfolding equipment_layer inventory_of init sum_equipped add_equipped
equipment_layer_lem w p = ground arith

pub inventory_of_self :
    (w : World) (p : ℕ) (inv : Inventory) → inventory_of (store_inventory p inv w) p ≡ inv
unfolding inventory_of
inventory_of_self w p inv = ground (arith, lookup-insert_self p inv w.inventories)

pub inventory_of_ne :
    (w : World) (p q : ℕ) (inv : Inventory)
    → p ≢ q
    → inventory_of (store_inventory p inv w) q ≡ inventory_of w q
unfolding inventory_of
inventory_of_ne w p q inv h = ground (arith, lookup-insert_ne q p inv w.inventories h)

-- A call that leaves the equipment as it was keeps the layers right.
store-IsSynced :
    (w : World) (p : ℕ) (inv : Inventory)
    → IsSynced w
    → inv.equipped ≡ (inventory_of w p).equipped
    → IsSynced (store_inventory p inv w)
store-IsSynced w p inv s same q c e = elim (ℕ_discrete p q) [
  | yes hit ↦
      s q c e
      ∙ ap (λ (eqs : List ItemStack). sum_equipped w.store eqs zero_layer)
          (ap (λ r. (inventory_of w r).equipped) (sym hit)
            ∙ sym same
            ∙ sym (
                ap (λ (i : Inventory). i.equipped)
                  (ap (inventory_of (store_inventory p inv w)) (sym hit)
                    ∙ inventory_of_self w p inv)))
  | no miss ↦
      s q c e
      ∙ ap (λ (i : Inventory). sum_equipped w.store i.equipped zero_layer)
          (sym (inventory_of_ne w p q inv miss))
]

-- A recomputation changes one character, whose layer is then what the player wears.
recompute_characters :
    (w : World) (p q : ℕ) (c : Character)
    → lookup q (recompute_equipment_attrs w p).characters ≡ some c
    → ((p ≢ q) × (lookup q w.characters ≡ some c))
      ⊎ ((p ≡ q) × (c.attrs.from_equipment ≡ equipment_layer w p))
unfolding recompute_equipment_attrs
recompute_characters w p q c e = elim (ℕ_discrete p q) [
  | yes hit ↦ elim (Option-cases (lookup p w.characters)) [
    | inl absent ↦ ground (arith, ap (λ k. lookup k w.characters) hit)
    | inr (d, present) ↦
        let d' = recompute_attributes w.limits w.formula (with_layer (equipment_layer w p) d) in
        let same : c ≡ d' = ground (
          arith,
          lookup-insert_self p d' w.characters,
          ap (λ k. lookup k (insert p d' w.characters)) hit,
        ) in
        inr (
          hit,
          ap (λ (k : Character). k.attrs.from_equipment) same
              ∙ recompute_attributes_layer w (with_layer (equipment_layer w p) d),
        )
  ]
  | no miss ↦ elim (Option-cases (lookup p w.characters)) [
    | inl absent ↦ inl (miss, ground arith)
    | inr (d, present) ↦
        let d' = recompute_attributes w.limits w.formula (with_layer (equipment_layer w p) d) in
        inl (miss, ground (arith, lookup-insert_ne q p d' w.characters miss))
  ]
]

pub recompute_keeps :
    (w : World) (p : ℕ)
    → let w' = recompute_equipment_attrs w p in
      (w'.store ≡ w.store) × (w'.inventories ≡ w.inventories) × (w'.counter ≡ w.counter)
unfolding recompute_equipment_attrs
recompute_keeps w p = ground arith

pub recompute_inventory_of :
    (w : World) (p q : ℕ) → inventory_of (recompute_equipment_attrs w p) q ≡ inventory_of w q
unfolding inventory_of
recompute_inventory_of w p q = ground (arith, recompute_keeps w p)

-- After a recomputation the layer is right, whatever the player wears now.
recompute-IsSynced :
    (w : World) (p : ℕ) (inv : Inventory)
    → IsSynced w
    → IsSynced (recompute_equipment_attrs (store_inventory p inv w) p)
recompute-IsSynced w p inv s q c e =
    let v = store_inventory p inv w in
    elim (recompute_characters v p q c e) [
      | inl (miss, same) ↦
          rw (recompute_inventory_of v p q, inventory_of_ne w p q inv miss, (recompute_keeps v p).0)
            (s q c same)
      | inr (hit, layer) ↦
          layer
          ∙ equipment_layer_lem v p
          ∙ rw (recompute_inventory_of v p q, (recompute_keeps v p).0, hit)
    ]

add_item-IsSynced :
    (w : World) (p def_id count : ℕ) → IsSynced w → IsSynced (add_item w p def_id count).0
unfolding inventory_of
add_item-IsSynced w p def_id count s = add_item_cases IsSynced w p s def_id count (λ def es _ _.
    store-IsSynced (record w { counter = (add (inventory_of w p) w.counter def count).1 }) p
      (add (inventory_of w p) w.counter def count).0 s
      (add_equipped_same (inventory_of w p) w.counter def count))

remove_item-IsSynced :
    (w : World) (p guid count : ℕ) → IsSynced w → IsSynced (remove_item w p guid count).0
unfolding inventory_of
remove_item-IsSynced w p guid count s = remove_item_cases IsSynced w p s guid count (λ es.
    store-IsSynced w p (remove (inventory_of w p) guid count).0 s
      (remove_equipped_same (inventory_of w p) guid count))

equip-IsSynced : (w : World) (p guid slot : ℕ) → IsSynced w → IsSynced (equip w p guid slot).0
unfolding inventory_of
equip-IsSynced w p guid slot s =
    equip_cases (λ r. IsSynced r.0) w p (λ _. s) guid slot
      (λ _ _ _.
        store-IsSynced w p (remove (inventory_of w p) guid 1).0 s
          (remove_equipped_same (inventory_of w p) guid 1))
      (λ n es def _ _ _ _ _. recompute-IsSynced w p _ s)

unequip-IsSynced : (w : World) (p slot : ℕ) → IsSynced w → IsSynced (unequip w p slot).0
unfolding inventory_of
unequip-IsSynced w p slot s =
    unequip_cases (λ r. IsSynced r.0) w p (λ _. s) slot
      (λ _ _ _ _.
        store-IsSynced w p _ s
          (add_existing_equipped_same (inventory_of w p) (equipped_at (inventory_of w p) slot)))
      (λ n es _ _ _. recompute-IsSynced w p _ s)

damage_durability-IsSynced :
    (w : World) (p slot amount : ℕ) → IsSynced w → IsSynced (damage_durability w p slot amount).0
unfolding inventory_of
damage_durability-IsSynced w p slot amount s =
    damage_durability_cases (λ r. IsSynced r.0) w p (λ _. s) slot amount s
      (λ es _ _. recompute-IsSynced w p _ s)

pub step-IsSynced : (w : World) (c : Call) → IsSynced w → IsSynced (step w c)
unfolding step
step-IsSynced w (adds p def_id count) s = add_item-IsSynced w p def_id count s
step-IsSynced w (removes p guid count) s = remove_item-IsSynced w p guid count s
step-IsSynced w (equips p guid slot) s = equip-IsSynced w p guid slot s
step-IsSynced w (unequips p slot) s = unequip-IsSynced w p slot s
step-IsSynced w (damages p slot amount) s = damage_durability-IsSynced w p slot amount s

-- After any sequence of calls, failed ones included, the equipment layer of every character is the
-- sum of the effective bonuses of what the player wears, if it was so at the start.
pub run-IsSynced : (w : World) (cs : List Call) → IsSynced w → IsSynced (run w cs)
unfolding run
run-IsSynced w [] s = s
run-IsSynced w (c ∷ cs) s = run-IsSynced (step w c) cs (step-IsSynced w c s)
