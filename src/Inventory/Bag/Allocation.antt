-- ===== src/Inventory/Bag/Allocation.antt =====
-- AllocateSlot of class Inventory, and what is put into the slot that it finds.
use cami.Common.{
  ℕ, ◌+◌, ◌≤◌, ◌<◌, ◌≡◌, refl, ◌≢◌, ◌⊎◌, inl, inr, List, [], ◌∷◌, arith, ltb, length, get_or, set,
  length-set, get_or-set_ne, sum_by-set, Bool-cases, sym, ◌∙◌, ap, subst, ltb→lt,
}
use cami.Inventory.Item.{ItemStack, empty_stack}
use cami.Inventory.Bag.{Inventory, max_inventory_slots, take_slot, allocate_slot}
use cami.Inventory.Bag.Invariant.{
  guid_of, guid_at, count_at, taken, Recycled, set-cases, IsValid, IsReady, place, Absent-of_bound,
  Recycled-mono, Recycled-set,
}

-- AllocateSlot finds an empty slot that nothing else will be given, or the bag is full.
take_slot-cases :
    (free : List ℕ) (inv : Inventory) (counter : ℕ)
    → inv.free ≡ free
    → IsValid inv counter
    → ((take_slot free inv ≡ (max_inventory_slots, inv)) × (inv.used ≡ max_inventory_slots))
      ⊎ IsReady (take_slot free inv).1 counter (take_slot free inv).0
unfolding take_slot
take_slot-cases (i ∷ rest) inv counter e v =
    let r : Recycled inv.bag inv.next (i ∷ rest) =
      subst (Recycled inv.bag inv.next) e v.sound.recycled in
    inr (record {
      sound = record {
        slots = v.sound.slots;
        next_bound = v.sound.next_bound;
        occupied = v.sound.occupied;
        recycled = r.3;
        untouched = v.sound.untouched;
        issued = v.sound.issued;
        distinct = v.sound.distinct;
        stocked = v.sound.stocked;
      };
      tally = omega (arith, ap length e);
      below = r.0;
      vacant = r.1;
      withdrawn = r.2;
    })
take_slot-cases [] inv counter e v = elim (Bool-cases (ltb inv.next max_inventory_slots)) [
  | inl room ↦ rw room (
      inr (record {
        sound = record {
          slots = v.sound.slots;
          next_bound = omega (arith, ltb→lt inv.next max_inventory_slots room);
          occupied = v.sound.occupied;
          recycled =
              Recycled-mono inv.bag inv.next (inv.next + 1) inv.free v.sound.recycled (omega arith);
          untouched = λ i h. v.sound.untouched i (omega arith);
          issued = v.sound.issued;
          distinct = v.sound.distinct;
          stocked = v.sound.stocked;
        };
        tally = omega (arith, v.tally);
        below = omega arith;
        vacant = v.sound.untouched inv.next (omega arith);
        withdrawn =
            Absent-of_bound inv.next inv.bag inv.next inv.free v.sound.recycled (omega arith);
      }))
  | inr full ↦ rw full (inl (refl, ground (arith, v.tally, ap length e, v.sound.next_bound)))
]

pub allocate_slot-cases :
    (inv : Inventory) (counter : ℕ)
    → IsValid inv counter
    → ((allocate_slot inv ≡ (max_inventory_slots, inv)) × (inv.used ≡ max_inventory_slots))
      ⊎ IsReady (allocate_slot inv).1 counter (allocate_slot inv).0
unfolding allocate_slot
allocate_slot-cases inv counter v = take_slot-cases inv.free inv counter refl v

-- A guid that no slot had may be written over any slot.
pub set-distinct :
    (bag : List ItemStack) (idx : ℕ) (st : ItemStack)
    → idx < length bag
    → ((i : ℕ) → guid_at bag i ≢ st.guid)
    → ((i j : ℕ) → guid_at bag i ≢ 0 → guid_at bag i ≡ guid_at bag j → i ≡ j)
    → (i j : ℕ) → guid_at (set bag idx st) i ≢ 0
    → guid_at (set bag idx st) i ≡ guid_at (set bag idx st) j
    → i ≡ j
set-distinct bag idx st h fresh distinct i j live same =
    go (set-cases bag idx i st h) (set-cases bag idx j st h)
  where
    go :
        ((i ≡ idx) × (get_or (set bag idx st) i empty_stack ≡ st))
          ⊎ ((i ≢ idx) × (get_or (set bag idx st) i empty_stack ≡ get_or bag i empty_stack))
        → ((j ≡ idx) × (get_or (set bag idx st) j empty_stack ≡ st))
          ⊎ ((j ≢ idx) × (get_or (set bag idx st) j empty_stack ≡ get_or bag j empty_stack))
        → i ≡ j
    go (inl (a, _)) (inl (b, _)) = a ∙ sym b
    go (inl (_, a)) (inr (_, b)) = absurd (fresh j (sym (ap guid_of b) ∙ sym same ∙ ap guid_of a))
    go (inr (_, a)) (inl (_, b)) = absurd (fresh i (sym (ap guid_of a) ∙ same ∙ ap guid_of b))
    go (inr (_, a)) (inr (_, b)) =
        distinct i j (λ z. live (ap guid_of a ∙ z)) (sym (ap guid_of a) ∙ same ∙ ap guid_of b)

-- A stack with a new guid may be put into an allocated slot.
pub place-IsValid :
    (inv : Inventory) (counter counter' idx : ℕ) (st : ItemStack)
    → IsReady inv counter idx
    → st.guid ≢ 0
    → 0 < st.count
    → counter ≤ counter'
    → st.guid < counter'
    → ((i : ℕ) → guid_at inv.bag i ≢ st.guid)
    → IsValid (place inv idx st) counter'
place-IsValid inv counter counter' idx st v live stocked later issued fresh = record {
  sound = record {
    slots = length-set inv.bag idx st ∙ v.sound.slots;
    next_bound = v.sound.next_bound;
    occupied = ground (
      arith,
      sum_by-set taken inv.bag idx st empty_stack in_range,
      v.vacant,
      v.sound.occupied,
      live,
    );
    recycled = Recycled-set inv.bag idx inv.next st inv.free v.withdrawn v.sound.recycled;
    untouched = λ i h.
        ap (λ s. s.guid)
          (get_or-set_ne inv.bag idx i st empty_stack (λ e. omega (arith, v.below, e, h)))
        ∙ v.sound.untouched i h;
    issued = λ i. elim (set-cases inv.bag idx i st in_range) [
      | inl (_, e) ↦ rw (e, guid_at) issued
      | inr (_, e) ↦ rw (e, guid_at) (omega (arith, v.sound.issued i))
    ];
    distinct = set-distinct inv.bag idx st in_range fresh v.sound.distinct;
    stocked = λ i. elim (set-cases inv.bag idx i st in_range) [
      | inl (_, e) ↦ rw (e, count_at) stocked
      | inr (_, e) ↦ rw (e, count_at) (v.sound.stocked i)
    ];
  };
  tally = omega (arith, v.tally);
}
  where
    in_range : idx < length inv.bag
    in_range = rw v.sound.slots (omega (arith, v.below, v.sound.next_bound))

take_slot_keeps :
    (free : List ℕ) (inv : Inventory)
    → let inv' = (take_slot free inv).1 in
      (inv'.used ≡ inv.used) × (inv'.bag ≡ inv.bag) × (inv'.equipped ≡ inv.equipped)
unfolding take_slot
take_slot_keeps (i ∷ rest) inv = (refl, refl, refl)
take_slot_keeps [] inv = ground arith

pub allocate_slot_keeps :
    (inv : Inventory)
    → let inv' = (allocate_slot inv).1 in
      (inv'.used ≡ inv.used) × (inv'.bag ≡ inv.bag) × (inv'.equipped ≡ inv.equipped)
unfolding allocate_slot
allocate_slot_keeps inv = take_slot_keeps inv.free inv
