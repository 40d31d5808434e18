-- ===== src/Inventory/Bag/Remove.antt =====
-- Inventory::Find, Remove and AddExisting: what they do on every branch.
use cami.Common.{
  ℕ, zero, suc, ◌+◌, ◌-◌, ◌≤◌, ◌<◌, ◌≡◌, refl, sym, ap, ◌∙◌, ◌≢◌, ◌⊎◌, inl, inr, List, [], ◌∷◌,
  arith, false, ltb, ◌==◌, length, get_or, set, sum_by, sum_by-set, Bool-cases, ltb→lt, ==_iff,
  length-set, get_or-set_ne, get_or-set_self,
}
use cami.Common.Errors.{Result, ok, err, invalid_argument, not_found, busy}
use cami.Inventory.Item.{ItemStack, empty_stack}
use cami.Inventory.Bag.{
  Inventory, max_inventory_slots, allocate_slot, find, find_from, take_from, remove, add_existing,
  held, total_count,
}
use cami.Inventory.Bag.Invariant.{IsValid, guid_at, guid_of, count_at, taken, set-cases}
use cami.Inventory.Bag.Allocation.{allocate_slot-cases, place-IsValid, allocate_slot_keeps}
use cami.Inventory.Bag.Changes.{same_guids-IsValid, clear-IsValid}

-- The search answers with the limit, and no slot has the guid, or with a slot that has it.
find_from-cases :
    (guid k : ℕ) (ss : List ItemStack)
    → guid ≢ 0
    → ((find_from guid k ss ≡ max_inventory_slots) × ((i : ℕ) → guid_at ss i ≢ guid))
      ⊎ ((j : ℕ) × (find_from guid k ss ≡ k + j) × (j < length ss) × (guid_at ss j ≡ guid))
unfolding find_from
find_from-cases guid k [] h = inl (refl, λ i e. h (sym e))
find_from-cases guid k (s ∷ ss) h = elim (Bool-cases (s.guid == guid)) [
  | inl hit ↦ rw hit (inr (0, omega arith, omega arith, (==_iff s.guid guid).0 hit))
  | inr miss ↦ elim (find_from-cases guid (k + 1) ss h) [
    | inl (e, none_has) ↦ rw miss (
        inl (
          e,
          λ i. elim i as (λ i. guid_at (s ∷ ss) i ≢ guid) [
            | zero ↦ ground arith
            | suc i ↦ none_has i
          ],
        ))
    | inr (j, e, lt, has) ↦ rw miss (inr (suc j, e ∙ omega arith, omega arith, has))
  ]
]

abbrev pub Finds : Inventory → ℕ → ℕ → Type 0
Finds inv guid found =
    ((found ≡ max_inventory_slots) × ((i : ℕ) → guid ≢ 0 → guid_at inv.bag i ≢ guid))
    ⊎ ((guid ≢ 0) × (found < max_inventory_slots) × (guid_at inv.bag found ≡ guid))

-- In a bag of a hundred slots Find answers a slot that holds the guid, or the number of slots when
-- the guid is the invalid one or no slot holds it.
pub find-Finds :
    (inv : Inventory) (guid : ℕ)
    → length inv.bag ≡ max_inventory_slots
    → Finds inv guid (find inv guid)
unfolding find
find-Finds inv guid len = elim (Bool-cases (guid == 0)) [
  | inl z ↦ rw z (inl (refl, λ i live. absurd (live ((==_iff guid 0).0 z))))
  | inr live ↦ elim (find_from-cases guid 0 inv.bag (ground arith)) [
    | inl (e, absent) ↦ rw (live, e) (inl (refl, λ i _. absent i))
    | inr (j, e, lt, has) ↦
        let at : find_from guid 0 inv.bag ≡ j = omega arith in
        rw (live, at) (inr (ground arith, omega arith, has))
  ]
]

-- What a slot holds after a removal: nothing, or the same stack with fewer items.
abbrev pub Reduced : ItemStack → ℕ → ItemStack → Type 0
Reduced s count s' =
    ((count ≡ s.count) × (s' ≡ empty_stack))
    ⊎ ((count < s.count) × (s' ≡ record s { count = s.count - count }))

abbrev pub Removed : Inventory → ℕ → ℕ → Inventory → Result ℕ → Type 0
Removed inv guid count inv' (ok n) =
    (n ≡ count)
    × (total_count inv' + count ≡ total_count inv)
    × (i : ℕ) × (guid_at inv.bag i ≡ guid)
    × Reduced (get_or inv.bag i empty_stack) count (get_or inv'.bag i empty_stack)
    × ((j : ℕ) → j ≢ i → get_or inv'.bag j empty_stack ≡ get_or inv.bag j empty_stack)
Removed inv guid count inv' (err e) =
    (inv' ≡ inv)
    × (((e ≡ invalid_argument) × (count ≡ 0))
        ⊎ ((e ≡ not_found) × ((i : ℕ) → guid ≢ 0 → guid_at inv.bag i ≢ guid))
        ⊎ ((e ≡ invalid_argument)
            × (i : ℕ) × (guid_at inv.bag i ≡ guid)
            × (count_at inv.bag i < count)))

module _ (inv : Inventory) (counter i count : ℕ) where
  take_from_lem :
      IsValid inv counter
      → i < max_inventory_slots
      → guid_at inv.bag i ≢ 0
      → 0 < count
      → count ≤ count_at inv.bag i
      → let inv' = take_from inv i (count_at inv.bag i - count) in
        IsValid inv' counter
        × (total_count inv' + count ≡ total_count inv)
        × Reduced (get_or inv.bag i empty_stack) count (get_or inv'.bag i empty_stack)
        × ((j : ℕ) → j ≢ i → get_or inv'.bag j empty_stack ≡ get_or inv.bag j empty_stack)
  unfolding take_from total_count
  take_from_lem v h live pos le = elim (Bool-cases (count_at inv.bag i - count == 0)) [
    | inl all ↦
        rw (all, take_from)
          (
            clear-IsValid inv counter i v h live,
            ground (arith, sum_by-set held inv.bag i empty_stack empty_stack in_range, live),
            inl (ground arith, get_or-set_self inv.bag i empty_stack empty_stack in_range),
            λ j ne. get_or-set_ne inv.bag i j empty_stack empty_stack (λ e. ne (sym e)),
          )
    | inr some_left ↦
        rw (some_left, take_from)
          (
            same_guids-IsValid inv counter (set inv.bag i left) v (sym (length-set inv.bag i left))
                (ground (arith, sum_by-set taken inv.bag i left empty_stack in_range))
                (λ j. elim (set-cases inv.bag i j left in_range) [
                  | inl (e, w) ↦ ap (guid_at inv.bag) e ∙ sym (ap guid_of w)
                  | inr (_, w) ↦ sym (ap guid_of w)
                ])
                (λ j. elim (set-cases inv.bag i j left in_range) [
                  | inl (_, w) ↦ rw (w, count_at) (ground arith)
                  | inr (_, w) ↦ rw (w, count_at) (v.sound.stocked j)
                ]),
            ground (arith, sum_by-set held inv.bag i left empty_stack in_range, live),
            inr (ground arith, get_or-set_self inv.bag i left empty_stack in_range),
            λ j ne. get_or-set_ne inv.bag i j left empty_stack (λ e. ne (sym e)),
          )
  ]
    where
      in_range : i < length inv.bag
      in_range = omega (arith, v.sound.slots)

      left : ItemStack
      left = record (get_or inv.bag i empty_stack) { count = count_at inv.bag i - count }

-- In a valid bag Remove keeps the bag valid. If it succeeds it takes exactly the number asked for
-- from the stack with that guid, which is emptied when that was all it held, and touches no other
-- slot. It fails, changing nothing, when asked for no item, when no slot has the guid, and when the
-- stack holds fewer items than asked for.
pub remove-Removed :
    (inv : Inventory) (counter guid count : ℕ)
    → IsValid inv counter
    → let (inv', r) = remove inv guid count in IsValid inv' counter × Removed inv guid count inv' r
unfolding remove
remove-Removed inv counter guid count v = elim (Bool-cases (count == 0)) [
  | inl z ↦ rw (z, remove) (v, (refl, inl ((refl, (==_iff count 0).0 z))))
  | inr pos ↦ elim (find-Finds inv guid v.sound.slots) [
    | inl (e, absent) ↦ rw (pos, e, remove) (v, (refl, inr (inl (refl, absent))))
    | inr (live, lt, has) ↦
        let miss : (find inv guid == max_inventory_slots) ≡ false = ground arith in
        elim (Bool-cases (ltb (count_at inv.bag (find inv guid)) count)) [
          | inl short ↦
              rw (pos, miss, short, remove)
                (v, (refl, inr (inr (refl, find inv guid, has, ltb→lt _ _ short))))
          | inr enough ↦
              let (v', total, reduced, others) =
                take_from_lem inv counter (find inv guid) count v lt (λ z. live (sym has ∙ z))
                  (ground arith) (ground arith) in
              rw (pos, miss, enough, remove)
                (v', (refl, total, find inv guid, has, reduced, others))
        ]
  ]
]

-- What AddExisting did.
abbrev pub Returned : Inventory → ItemStack → Inventory → Result ℕ → Type 0
Returned inv st inv' (ok n) =
    (n ≡ st.count)
    × (((i : ℕ) × (guid_at inv.bag i ≡ st.guid) × (inv' ≡ inv))
        ⊎ ((i : ℕ) × (guid_at inv.bag i ≡ 0)
            × (get_or inv'.bag i empty_stack ≡ st)
            × (total_count inv' ≡ total_count inv + st.count)
            × ((j : ℕ) → j ≢ i → get_or inv'.bag j empty_stack ≡ get_or inv.bag j empty_stack)))
Returned inv st inv' (err e) =
    (inv' ≡ inv)
    × (((e ≡ invalid_argument) × (st.guid ≡ 0)) ⊎ ((e ≡ busy) × (inv.used ≡ max_inventory_slots)))

-- In a valid bag AddExisting keeps the bag valid when the instance is alive and its guid was issued.
-- It puts the instance, as it is, into one empty slot, and touches no other; if the bag already has
-- the guid it reports success and changes nothing. It fails, changing nothing, for the invalid guid
-- and when every slot is occupied.
pub add_existing-Returned :
    (inv : Inventory) (counter : ℕ) (st : ItemStack)
    → IsValid inv counter
    → 0 < st.count
    → st.guid < counter
    → let (inv', r) = add_existing inv st in IsValid inv' counter × Returned inv st inv' r
unfolding add_existing total_count
add_existing-Returned inv counter st v stocked issued = elim (Bool-cases (st.guid == 0)) [
  | inl z ↦ rw (z, add_existing) (v, (refl, inl (refl, (==_iff st.guid 0).0 z)))
  | inr live ↦ elim (find-Finds inv st.guid v.sound.slots) [
    | inr (_, lt, has) ↦
        let hit : (find inv st.guid == max_inventory_slots) ≡ false = ground arith in
        rw (live, hit, add_existing) (v, (refl, inl (find inv st.guid, has, refl)))
    | inl (e, absent) ↦ elim (allocate_slot-cases inv counter v) [
      | inl (full_at, full) ↦ rw (live, e, full_at, add_existing) (v, (refl, inr (refl, full)))
      | inr ready ↦
          let idx = (allocate_slot inv).0 in
          let inv' = (allocate_slot inv).1 in
          let (_, same, _) = allocate_slot_keeps inv in
          let room : (idx == max_inventory_slots) ≡ false =
            ground (arith, ready.below, ready.sound.next_bound) in
          let in_range : idx < length inv'.bag =
            omega (arith, ready.sound.slots, ready.below, ready.sound.next_bound) in
          rw (live, e, room, add_existing)
            (
              place-IsValid inv' counter counter idx st ready (ground arith) stocked (omega arith)
                  issued (λ i z. absent i (ground arith) (sym (ap (λ b. guid_at b i) same) ∙ z)),
              (
                refl,
                inr (
                  idx,
                  sym (ap (λ b. guid_at b idx) same) ∙ ready.vacant,
                  get_or-set_self inv'.bag idx st empty_stack in_range,
                  ground (
                    arith,
                    sum_by-set held inv'.bag idx st empty_stack in_range,
                    ready.vacant,
                    ap (sum_by held) same,
                  ),
                  λ j ne.
                      get_or-set_ne inv'.bag idx j st empty_stack (λ z. ne (sym z))
                      ∙ ap (λ b. get_or b j empty_stack) same,
                ),
              ),
            )
    ]
  ]
]

-- Neither call touches the equipment.
pub remove_equipped_same :
    (inv : Inventory) (guid count : ℕ) → (remove inv guid count).0.equipped ≡ inv.equipped
unfolding remove take_from
remove_equipped_same inv guid count = ground arith

pub add_existing_equipped_same :
    (inv : Inventory) (st : ItemStack) → (add_existing inv st).0.equipped ≡ inv.equipped
unfolding add_existing
add_existing_equipped_same inv st = ground (arith, allocate_slot_keeps inv)
