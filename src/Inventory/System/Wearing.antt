-- ===== src/Inventory/System/Wearing.antt =====
-- What stays true of a bag and of what is worn when one part of a player changes.
-- go when a player equips or unequips one.
use cami.Common.{
  ℕ, ◌≤◌, ◌<◌, ◌≡◌, refl, sym, ap, subst, ◌∙◌, ◌≢◌, inl, inr, some, arith, length, set, length-set,
}
use native.Mathlib.Decide.{ℕ_discrete}
use cami.Common.Dict.{lookup}
use cami.Inventory.Item.{ItemDef, ItemStack}
use cami.Inventory.Bag.{Inventory, equip_slot_count}
use cami.Inventory.Bag.Invariant.{IsValid, guid_at, count_at, set-cases}
use cami.Inventory.Bag.Changes.{IsValid-mono, IsValid-equipped}
use cami.Inventory.System.{
  World, recompute_equipment_attrs, inventory_of, store_inventory, set_equipped,
}
use cami.Inventory.System.Sync.{
  inventory_of_self, inventory_of_ne, recompute_inventory_of, recompute_keeps,
}

-- One player's bag is valid, and what is worn is alive and has an issued guid.
pub record IsWearing (inv : Inventory) (counter : ℕ) : Type 0 where
  pub valid : IsValid inv counter
  pub slots : length inv.equipped ≡ equip_slot_count
  pub alive : (s : ℕ) → 0 < count_at inv.equipped s
  pub issued : (s : ℕ) → guid_at inv.equipped s < counter

pub record IsStocked (w : World) : Type 0 where
  pub wearing : (p : ℕ) → IsWearing (inventory_of w p) w.counter
  pub stackable : (k : ℕ) (def : ItemDef) → lookup k w.store ≡ some def → 0 < def.max_stack

IsWearing-mono : (inv : Inventory) (m n : ℕ) → m ≤ n → IsWearing inv m → IsWearing inv n
IsWearing-mono inv m n h v = record {
  valid = IsValid-mono inv m n h v.valid;
  slots = v.slots;
  alive = v.alive;
  issued = λ s. omega (arith, v.issued s);
}

-- The bag changed, and the equipment did not.
pub IsWearing-bag :
    (inv inv' : Inventory) (m n : ℕ)
    → m ≤ n
    → IsWearing inv m
    → IsValid inv' n
    → inv'.equipped ≡ inv.equipped
    → IsWearing inv' n
IsWearing-bag inv inv' m n h v valid same = record {
  valid = valid;
  slots = ap length same ∙ v.slots;
  alive = λ s. omega (arith, ap (λ b. count_at b s) same, v.alive s);
  issued = λ s. omega (arith, ap (λ b. guid_at b s) same, v.issued s);
}

-- A slot was written.
pub IsWearing-set :
    (inv : Inventory) (counter slot : ℕ) (st : ItemStack)
    → IsWearing inv counter
    → slot < equip_slot_count
    → 0 < st.count
    → st.guid < counter
    → IsWearing (set_equipped slot st inv) counter
IsWearing-set inv counter slot st v h alive issued = record {
  valid = IsValid-equipped inv counter (set inv.equipped slot st) v.valid;
  slots = length-set inv.equipped slot st ∙ v.slots;
  alive = λ s. elim (set-cases inv.equipped slot s st in_range) [
    | inl (_, e) ↦ rw (e, count_at) alive
    | inr (_, e) ↦ rw (e, count_at) (v.alive s)
  ];
  issued = λ s. elim (set-cases inv.equipped slot s st in_range) [
    | inl (_, e) ↦ rw (e, guid_at) issued
    | inr (_, e) ↦ rw (e, guid_at) (v.issued s)
  ];
}
  where
    in_range : slot < length inv.equipped
    in_range = omega (arith, v.slots)

-- A world that differs in one player's bag, and in events and characters.
update-IsStocked :
    (w w' : World) (p : ℕ)
    → IsStocked w
    → w.counter ≤ w'.counter
    → w'.store ≡ w.store
    → ((q : ℕ) → p ≢ q → inventory_of w' q ≡ inventory_of w q)
    → IsWearing (inventory_of w' p) w'.counter
    → IsStocked w'
update-IsStocked w w' p v later store others here = record {
  wearing = λ q. elim (ℕ_discrete p q) [
    | yes hit ↦ subst (λ k. IsWearing (inventory_of w' k) w'.counter) hit here
    | no miss ↦
        rw (others q miss)
          (IsWearing-mono (inventory_of w q) w.counter w'.counter later (v.wearing q))
  ];
  stackable = λ k def e. v.stackable k def (ap (lookup k) (sym store) ∙ e);
}

pub store-IsStocked :
    (w : World) (p counter : ℕ) (inv : Inventory)
    → IsStocked w
    → w.counter ≤ counter
    → IsWearing inv counter
    → IsStocked (store_inventory p inv (record w { counter = counter }))
unfolding inventory_of
store-IsStocked w p counter inv v later here =
    let w' = store_inventory p inv (record w { counter = counter }) in
    update-IsStocked w w' p v later refl
      (λ q miss. inventory_of_ne (record w { counter = counter }) p q inv miss)
      (rw (inventory_of_self (record w { counter = counter }) p inv) here)

pub recompute-IsStocked :
    (w : World) (p : ℕ) (inv : Inventory)
    → IsStocked w
    → IsWearing inv w.counter
    → IsStocked (recompute_equipment_attrs (store_inventory p inv w) p)
recompute-IsStocked w p inv v here =
    let u = store_inventory p inv w in
    let (store, _, counter) = recompute_keeps u p in
    update-IsStocked w (recompute_equipment_attrs u p) p v (omega arith) store
      (λ q miss. recompute_inventory_of u p q ∙ inventory_of_ne w p q inv miss)
      (rw (recompute_inventory_of u p p, inventory_of_self w p inv, counter) here)
