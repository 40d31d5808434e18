-- ===== src/Inventory/Bag/Loops.antt =====
-- The two loops of Inventory::Add: stacking onto what is there, and opening stacks.
use cami.Common.{
  ℕ, zero, suc, ◌+◌, ◌^◌, ◌≤◌, ◌<◌, ◌≡◌, refl, ap, ◌∙◌, ◌≢◌, ◌⊎◌, inl, inr, List, [], ◌∷◌, arith,
  ◌==◌, length, sum_by, sum_by-set, Bool-cases, ==_iff, false, ◌%◌,
}
use cami.Inventory.Item.{ItemDef, ItemStack, empty_stack}
use cami.Inventory.Bag.{
  Inventory, Filling, max_inventory_slots, allocate_slot, top_up, stack_onto, open_stack,
  open_stacks, held, min_of,
}
use cami.Inventory.Bag.Invariant.{IsValid, IsReady, guid_at, count_at, taken}
use cami.Inventory.Bag.Allocation.{allocate_slot-cases, place-IsValid, allocate_slot_keeps}
use cami.Inventory.Bag.Changes.{same_guids-IsValid}

-- The same stacks in the same slots, with at least as many items in each.
abbrev Grown : List ItemStack → List ItemStack → Type 0
Grown [] [] = Unit
Grown [] (t ∷ ts) = ⊥
Grown (s ∷ ss) [] = ⊥
Grown (s ∷ ss) (t ∷ ts) = (s.guid ≡ t.guid) × (s.count ≤ t.count) × Grown ss ts

Grown-refl : (ss : List ItemStack) → Grown ss ss
Grown-refl [] = tt
Grown-refl (s ∷ ss) = (refl, omega arith, Grown-refl ss)

Grown-length : (ss ts : List ItemStack) → Grown ss ts → length ss ≡ length ts
Grown-length [] [] g = refl
Grown-length (s ∷ ss) (t ∷ ts) g = ap suc (Grown-length ss ts g.2)
Grown-length [] (t ∷ ts) g = absurd g
Grown-length (s ∷ ss) [] g = absurd g

Grown-guid_at : (ss ts : List ItemStack) (i : ℕ) → Grown ss ts → guid_at ss i ≡ guid_at ts i
Grown-guid_at [] [] i g = refl
Grown-guid_at (s ∷ ss) (t ∷ ts) zero g = g.0
Grown-guid_at (s ∷ ss) (t ∷ ts) (suc i) g = Grown-guid_at ss ts i g.2
Grown-guid_at [] (t ∷ ts) i g = absurd g
Grown-guid_at (s ∷ ss) [] i g = absurd g

Grown-count_at : (ss ts : List ItemStack) (i : ℕ) → Grown ss ts → count_at ss i ≤ count_at ts i
Grown-count_at [] [] i g = omega arith
Grown-count_at (s ∷ ss) (t ∷ ts) zero g = g.1
Grown-count_at (s ∷ ss) (t ∷ ts) (suc i) g = Grown-count_at ss ts i g.2
Grown-count_at [] (t ∷ ts) i g = absurd g
Grown-count_at (s ∷ ss) [] i g = absurd g

Grown-taken : (ss ts : List ItemStack) → Grown ss ts → sum_by taken ss ≡ sum_by taken ts
Grown-taken [] [] g = refl
Grown-taken (s ∷ ss) (t ∷ ts) g = ground (arith, Grown-taken ss ts g.2, g.0)
Grown-taken [] (t ∷ ts) g = absurd g
Grown-taken (s ∷ ss) [] g = absurd g

pub Grown-IsValid :
    (inv : Inventory) (counter : ℕ) (bag : List ItemStack)
    → IsValid inv counter
    → Grown inv.bag bag
    → IsValid (record inv { bag = bag }) counter
Grown-IsValid inv counter bag v g =
    same_guids-IsValid inv counter bag v (Grown-length inv.bag bag g) (Grown-taken inv.bag bag g)
      (λ i. Grown-guid_at inv.bag bag i g)
      (λ i. omega (arith, Grown-count_at inv.bag bag i g, v.sound.stocked i))

-- One step of the first loop moves items from what remains onto the stack.
top_up_lem :
    (def : ItemDef) (s : ItemStack) (r g : ℕ)
    → let (s', r', g') = top_up def s r g in
      (s.guid ≡ s'.guid) × (s.count ≤ s'.count) × (held s' + r' ≡ held s + r) × (r' ≤ r)
unfolding top_up
top_up_lem def s r g = ground arith

-- The first loop keeps the slots, and moves items from what remains into them.
pub stack_onto_lem :
    (def : ItemDef) (ss : List ItemStack) (r g : ℕ)
    → let (ss', r', g') = stack_onto def ss r g in
      Grown ss ss' × (sum_by held ss' + r' ≡ sum_by held ss + r) × (r' ≤ r)
unfolding stack_onto
stack_onto_lem def [] r g = (tt, refl, omega arith)
stack_onto_lem def (s ∷ ss) r g =
    let t = top_up def s r g in
    let (same, more, moved, less) = top_up_lem def s r g in
    let (grown, kept, less') = stack_onto_lem def ss t.1 t.2 in
    elim (Bool-cases (t.1 == 0)) [
      | inl done ↦ rw done ((same, more, Grown-refl ss), omega arith, less)
      | inr go ↦ rw go ((same, more, grown), omega arith, omega arith)
    ]

-- What the second loop needs of its state, and keeps.
pub record IsFilling (f : Filling) : Type 0 where
  pub valid : IsValid f.inv f.counter
  pub enough : f.counter + f.remaining < 2 ^ 64

-- From `f` to `g` items only moved from what remains into the slots.
abbrev Moves : Filling → Filling → Type 0
Moves f g =
    (sum_by held g.inv.bag + g.remaining ≡ sum_by held f.inv.bag + f.remaining)
    × (g.remaining ≤ f.remaining)
    × (f.counter ≤ g.counter)

new_stack : ItemDef → Filling → ItemStack
new_stack def f = record {
  def_id = def.def_id;
  count = min_of def.max_stack f.remaining;
  durability = def.max_durability;
  guid = f.counter;
}

-- One round opens a stack in a slot that was empty.
open_stack_lem :
    (def : ItemDef) (f : Filling) (idx : ℕ) (inv : Inventory)
    → 0 < def.max_stack
    → f.remaining ≢ 0
    → f.counter + f.remaining < 2 ^ 64
    → inv.used ≡ f.inv.used
    → inv.bag ≡ f.inv.bag
    → IsReady inv f.counter idx
    → let g = open_stack def f idx inv in IsFilling g × Moves f g × (g.inv.used ≡ f.inv.used + 1)
unfolding open_stack new_stack
open_stack_lem def f idx inv pos more enough same_used same_bag v = (
  record {
    valid = rw wraps (
        place-IsValid inv f.counter (f.counter + 1) idx (new_stack def f) v
          (λ e. omega (arith, v.sound.issued 0)) (ground arith) (omega arith) (omega arith)
          (λ i e. omega (arith, v.sound.issued i)));
    enough = rw wraps (ground arith);
  },
  (
    ground (
      arith,
      sum_by-set held inv.bag idx (new_stack def f) empty_stack in_range,
      v.vacant,
      v.sound.issued 0,
      ap (sum_by held) same_bag,
    ),
    omega arith,
    rw wraps (omega arith),
  ),
  omega arith,
)
  where
    in_range : idx < length inv.bag
    in_range = omega (arith, v.sound.slots, v.below, v.sound.next_bound)

    wraps : (f.counter + 1) % 2 ^ 64 ≡ f.counter + 1
    wraps = omega arith

abbrev Fills : Filling → Filling → Type 0
Fills f g =
    IsValid g.inv g.counter × Moves f g × ((g.remaining ≡ 0) ⊎ (g.inv.used ≡ max_inventory_slots))

-- The second loop ends by its own tests, with everything placed or every slot occupied.
pub open_stacks-Fills :
    (fuel : ℕ) (def : ItemDef) (f : Filling)
    → 0 < def.max_stack
    → IsFilling f
    → max_inventory_slots < f.inv.used + fuel
    → Fills f (open_stacks fuel def f)
unfolding open_stacks
open_stacks-Fills zero def f pos v h =
    absurd (omega (arith, v.valid.tally, v.valid.sound.next_bound))
open_stacks-Fills (suc fuel) def f pos v h = elim (Bool-cases (f.remaining == 0)) [
  | inl done ↦
      rw done (v.valid, (refl, omega arith, omega arith), inl ((==_iff f.remaining 0).0 done))
  | inr more ↦ elim (allocate_slot-cases f.inv f.counter v.valid) [
    | inl (e, full) ↦ rw (more, e) (v.valid, (refl, omega arith, omega arith), inr full)
    | inr ready ↦
        let inv = (allocate_slot f.inv).1 in
        let idx = (allocate_slot f.inv).0 in
        let keeps = allocate_slot_keeps f.inv in
        let (v', moved, step) =
          open_stack_lem def f idx inv pos (ground arith) v.enough keeps.0 keeps.1 ready in
        let (w, moved', ended) =
          open_stacks-Fills fuel def (open_stack def f idx inv) pos v' (omega arith) in
        let miss : (idx == max_inventory_slots) ≡ false =
          ground (arith, ready.below, ready.sound.next_bound) in
        rw (more, miss) (w, (moved'.0 ∙ moved.0, omega arith, omega arith), ended)
  ]
]
