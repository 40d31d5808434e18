-- ===== src/Inventory/Bag/Add.antt =====
-- Inventory::Add: both loops, and what the call does to the number of items.
use cami.Common.{
  ℕ, zero, suc, ◌+◌, ◌-◌, ◌^◌, ◌≤◌, ◌<◌, ◌≡◌, refl, ◌∙◌, ◌⊎◌, inl, inr, arith, ltb, ◌==◌, sum_by,
  Bool-cases, ==_iff,
}
use cami.Common.Errors.{Result, ok, err, invalid_argument, busy}
use cami.Inventory.Item.{ItemDef}
use cami.Inventory.Bag.{
  Inventory, Filling, AddOutcome, max_inventory_slots, allocate_slot, stack_onto, open_stack,
  open_stacks, fill, add, held, total_count,
}
use cami.Inventory.Bag.Invariant.{IsValid}
use cami.Inventory.Bag.Allocation.{allocate_slot_keeps}
use cami.Inventory.Bag.Loops.{Grown-IsValid, stack_onto_lem, open_stacks-Fills}

-- Both loops together.
abbrev Filled : Inventory → ℕ → ℕ → Filling → Type 0
Filled inv counter count f =
    IsValid f.inv f.counter
    × ((sum_by held f.inv.bag + f.remaining ≡ sum_by held inv.bag + count)
        × (f.remaining ≤ count)
        × (counter ≤ f.counter))
    × ((f.remaining ≡ 0) ⊎ (f.inv.used ≡ max_inventory_slots))

fill-Filled :
    (inv : Inventory) (counter : ℕ) (def : ItemDef) (count : ℕ)
    → IsValid inv counter
    → 0 < def.max_stack
    → counter + count < 2 ^ 64
    → Filled inv counter count (fill inv counter def count)
unfolding fill
fill-Filled inv counter def count v pos enough = elim (Bool-cases (ltb 1 def.max_stack)) [
  | inl stackable ↦
      let s = stack_onto def inv.bag count 0 in
      let (grown, kept, less) = stack_onto_lem def inv.bag count 0 in
      let (valid, moved, ended) =
        open_stacks-Fills 101 def
          (record {
            inv = record inv { bag = s.0 };
            counter = counter;
            remaining = s.1;
            guid = s.2;
          })
          pos (record { valid = Grown-IsValid inv counter s.0 v grown; enough = omega arith })
          (omega arith) in
      rw stackable (valid, (moved.0 ∙ kept, omega arith, moved.2), ended)
  | inr single ↦
      rw single
        (open_stacks-Fills 101 def _ pos (record { valid = v; enough = enough }) (omega arith))
]

-- What Add did, by how it ended.
abbrev pub Added : Inventory → ℕ → Inventory → Result AddOutcome → Type 0
Added inv count inv' (ok out) =
    (total_count inv' ≡ total_count inv + out.added)
    × (0 < out.added)
    × (out.added ≤ count)
    × ((out.added ≡ count) ⊎ (inv'.used ≡ max_inventory_slots))
Added inv count inv' (err e) =
    ((e ≡ invalid_argument) × (count ≡ 0) × (inv' ≡ inv))
    ⊎ ((e ≡ busy)
        × (0 < count)
        × (total_count inv' ≡ total_count inv)
        × (inv'.used ≡ max_inventory_slots))

-- In a valid bag, with at least one item to a stack and guids left, Add keeps the bag valid, never
-- takes the counter of guids back, and puts
-- in exactly the number of items that it reports, which is positive. It places fewer than it was
-- asked to only when every slot is occupied at the end. It fails with INVALID_ARGUMENT, changing
-- nothing, when asked for no item, and else with BUSY only: then no item was added and every slot
-- is occupied.
pub add-Added :
    (inv : Inventory) (counter : ℕ) (def : ItemDef) (count : ℕ)
    → IsValid inv counter
    → 0 < def.max_stack
    → counter + count < 2 ^ 64
    → let (inv', counter', r) = add inv counter def count in
      IsValid inv' counter' × (counter ≤ counter') × Added inv count inv' r
unfolding add total_count
add-Added inv counter def count v pos enough = elim (Bool-cases (count == 0)) [
  | inl none_asked ↦
      rw (none_asked, add) (v, omega arith, inl (refl, (==_iff count 0).0 none_asked, refl))
  | inr some_asked ↦
      let f = fill inv counter def count in
      let (valid, moved, ended) = fill-Filled inv counter def count v pos enough in
      elim (Bool-cases (count - f.remaining == 0)) [
        | inl nothing ↦
            rw (some_asked, nothing, add)
              (valid, moved.2, inr (refl, ground arith, ground arith, ground arith))
        | inr something ↦
            rw (some_asked, something, add)
              (valid, moved.2, (ground arith, ground arith, ground arith, ground arith))
      ]
]

open_stack_equipped :
    (def : ItemDef) (f : Filling) (idx : ℕ) (inv : Inventory)
    → (open_stack def f idx inv).inv.equipped ≡ inv.equipped
unfolding open_stack
open_stack_equipped def f idx inv = refl

open_stacks_equipped :
    (fuel : ℕ) (def : ItemDef) (f : Filling)
    → (open_stacks fuel def f).inv.equipped ≡ f.inv.equipped
unfolding open_stacks
open_stacks_equipped zero def f = refl
open_stacks_equipped (suc fuel) def f =
    let idx = (allocate_slot f.inv).0 in
    let inv = (allocate_slot f.inv).1 in
    ground (
      arith,
      open_stacks_equipped fuel def (open_stack def f idx inv),
      open_stack_equipped def f idx inv,
      allocate_slot_keeps f.inv,
    )

-- Add does not touch the equipment.
pub add_equipped_same :
    (inv : Inventory) (counter : ℕ) (def : ItemDef) (count : ℕ)
    → (add inv counter def count).0.equipped ≡ inv.equipped
unfolding add fill
add_equipped_same inv counter def count = ground (
  arith,
  open_stacks_equipped 101 def
      (record { inv = inv; counter = counter; remaining = count; guid = 0 }),
  open_stacks_equipped 101 def (record {
    inv = record inv { bag = (stack_onto def inv.bag count 0).0 };
    counter = counter;
    remaining = (stack_onto def inv.bag count 0).1;
    guid = (stack_onto def inv.bag count 0).2;
  }),
)
