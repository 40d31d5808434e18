-- ===== src/Inventory/Bag/Changes.antt =====
-- Changes in place, the emptying of a slot, and the bag at its start.
use cami.Common.{
  ℕ, ◌+◌, ◌-◌, ◌≤◌, ◌<◌, ◌≡◌, refl, ◌≢◌, inl, inr, List, [], ◌∷◌, arith, length, get_or, set,
  replicate, get_or-replicate, sum_by, length-set, get_or-set_self, sum_by-set, sym, ◌∙◌, ap,
}
use native.Mathlib.Decide.{dec_lt}
use cami.Inventory.Item.{ItemStack, empty_stack}
use cami.Inventory.Bag.{Inventory, max_inventory_slots, init}
use cami.Inventory.Bag.Invariant.{
  guid_of, guid_at, count_at, taken, Absent, Recycled, set-cases, IsValid, Recycled-set,
}

Recycled-same_guids :
    (ss ts : List ItemStack) (next : ℕ) (free : List ℕ)
    → ((i : ℕ) → guid_at ss i ≡ guid_at ts i)
    → Recycled ss next free
    → Recycled ts next free
Recycled-same_guids ss ts next [] same r = tt
Recycled-same_guids ss ts next (i ∷ is) same r =
    (r.0, sym (same i) ∙ r.1, r.2, Recycled-same_guids ss ts next is same r.3)

-- Counts may change in place.
pub same_guids-IsValid :
    (inv : Inventory) (counter : ℕ) (bag : List ItemStack)
    → IsValid inv counter
    → length inv.bag ≡ length bag
    → sum_by taken inv.bag ≡ sum_by taken bag
    → ((i : ℕ) → guid_at inv.bag i ≡ guid_at bag i)
    → ((i : ℕ) → 0 < count_at bag i)
    → IsValid (record inv { bag = bag }) counter
same_guids-IsValid inv counter bag v len occ same stocked = record {
  sound = record {
    slots = sym len ∙ v.sound.slots;
    next_bound = v.sound.next_bound;
    occupied = sym occ ∙ v.sound.occupied;
    recycled = Recycled-same_guids inv.bag bag inv.next inv.free same v.sound.recycled;
    untouched = λ i h. sym (same i) ∙ v.sound.untouched i h;
    issued = λ i. omega (arith, same i, v.sound.issued i);
    distinct = λ i j live e.
        v.sound.distinct i j (λ z. live (sym (same i) ∙ z)) (same i ∙ e ∙ sym (same j));
    stocked = stocked;
  };
  tally = v.tally;
}

-- A recycled slot is empty, so an occupied one is not recycled.
pub Recycled-Absent :
    (bag : List ItemStack) (i next : ℕ) (free : List ℕ)
    → guid_at bag i ≢ 0
    → Recycled bag next free
    → Absent i free
Recycled-Absent bag i next [] live r = tt
Recycled-Absent bag i next (j ∷ js) live r =
    ((λ e. live (ap (guid_at bag) e ∙ r.1)), Recycled-Absent bag i next js live r.3)

-- An occupied slot may be emptied and recycled.
pub clear-IsValid :
    (inv : Inventory) (counter i : ℕ)
    → IsValid inv counter
    → i < max_inventory_slots
    → guid_at inv.bag i ≢ 0
    → IsValid
        (record inv { bag = set inv.bag i empty_stack; free = i ∷ inv.free; used = inv.used - 1 })
        counter
clear-IsValid inv counter i v h live = record {
  sound = record {
    slots = length-set inv.bag i empty_stack ∙ v.sound.slots;
    next_bound = v.sound.next_bound;
    occupied = ground (arith, exchanged, v.sound.occupied, live);
    recycled = (
      below,
      ap guid_of cleared,
      absent,
      Recycled-set inv.bag i inv.next empty_stack inv.free absent v.sound.recycled,
    );
    untouched = λ j h'. emptied j (v.sound.untouched j h');
    issued = λ j. elim (set-cases inv.bag i j empty_stack in_range) [
      | inl (_, e) ↦ rw (e, guid_at) (omega (arith, v.sound.issued 0))
      | inr (_, e) ↦ rw (e, guid_at) (v.sound.issued j)
    ];
    distinct = λ j k live' same. elim (set-cases inv.bag i j empty_stack in_range) [
      | inl (_, e) ↦ absurd (live' (ap guid_of e))
      | inr (_, a) ↦ elim (set-cases inv.bag i k empty_stack in_range) [
        | inl (_, e) ↦ absurd (live' (same ∙ ap guid_of e))
        | inr (_, b) ↦
            v.sound.distinct j k (λ z. live' (ap guid_of a ∙ z))
              (sym (ap guid_of a) ∙ same ∙ ap guid_of b)
      ]
    ];
    stocked = λ j. elim (set-cases inv.bag i j empty_stack in_range) [
      | inl (_, e) ↦ rw (e, count_at) (omega arith)
      | inr (_, e) ↦ rw (e, count_at) (v.sound.stocked j)
    ];
  };
  tally = ground (arith, exchanged, v.sound.occupied, v.tally, live);
}
  where
    in_range : i < length inv.bag
    in_range = omega (arith, v.sound.slots)

    cleared : get_or (set inv.bag i empty_stack) i empty_stack ≡ empty_stack
    cleared = get_or-set_self inv.bag i empty_stack empty_stack in_range

    exchanged :
        sum_by taken (set inv.bag i empty_stack) + taken (get_or inv.bag i empty_stack)
        ≡ sum_by taken inv.bag + 0
    exchanged = sum_by-set taken inv.bag i empty_stack empty_stack in_range

    below : i < inv.next
    below = elim (dec_lt i inv.next) [
      | yes p ↦ p
      | no p ↦ absurd (live (v.sound.untouched i (omega arith)))
    ]

    absent : Absent i inv.free
    absent = Recycled-Absent inv.bag i inv.next inv.free live v.sound.recycled

    emptied : (j : ℕ) → guid_at inv.bag j ≡ 0 → guid_at (set inv.bag i empty_stack) j ≡ 0
    emptied j z = elim (set-cases inv.bag i j empty_stack in_range) [
      | inl (_, e) ↦ ap guid_of e
      | inr (_, e) ↦ ap guid_of e ∙ z
    ]

-- An empty bag is valid.
pub init-IsValid : (counter : ℕ) → 0 < counter → IsValid init counter
unfolding init
init-IsValid counter h = record {
  sound = record {
    slots = refl;
    next_bound = omega arith;
    occupied = refl;
    recycled = tt;
    untouched = λ i _. blank i;
    issued = λ i. omega (arith, blank i);
    distinct = λ i j live _. absurd (live (blank i));
    stocked = λ i. rw (get_or-replicate max_inventory_slots i empty_stack, count_at) (omega arith);
  };
  tally = refl;
}
  where
    blank : (i : ℕ) → guid_at (replicate max_inventory_slots empty_stack) i ≡ 0
    blank i = ap guid_of (get_or-replicate max_inventory_slots i empty_stack)

-- Guids that others issued leave a bag valid.
pub IsValid-mono :
    (inv : Inventory) (counter counter' : ℕ)
    → counter ≤ counter'
    → IsValid inv counter
    → IsValid inv counter'
IsValid-mono inv counter counter' h v = record {
  sound = record {
    slots = v.sound.slots;
    next_bound = v.sound.next_bound;
    occupied = v.sound.occupied;
    recycled = v.sound.recycled;
    untouched = v.sound.untouched;
    issued = λ i. omega (arith, v.sound.issued i);
    distinct = v.sound.distinct;
    stocked = v.sound.stocked;
  };
  tally = v.tally;
}

-- The invariant does not speak of the equipment.
pub IsValid-equipped :
    (inv : Inventory) (counter : ℕ) (equipped : List ItemStack)
    → IsValid inv counter
    → IsValid (record inv { equipped = equipped }) counter
IsValid-equipped inv counter equipped v = record {
  sound = record {
    slots = v.sound.slots;
    next_bound = v.sound.next_bound;
    occupied = v.sound.occupied;
    recycled = v.sound.recycled;
    untouched = v.sound.untouched;
    issued = v.sound.issued;
    distinct = v.sound.distinct;
    stocked = v.sound.stocked;
  };
  tally = v.tally;
}
