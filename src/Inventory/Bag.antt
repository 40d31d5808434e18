-- ===== src/Inventory/Bag.antt =====
-- inventory.h and inventory.cpp: class Inventory. A call returns the new bag and its result; the
-- source of guids, a global of the program, is an argument of the call that takes from it.
-- The counts are the source's uint32_t values: every sum is bounded by `max_stack`, which is one.
pub mod Invariant
pub mod Allocation
pub mod Changes
pub mod Loops
pub mod Add
pub mod Remove
use cami.Common.{
  ℕ, zero, suc, ◌+◌, ◌-◌, List, [], ◌∷◌, Bool, not, ◌&&◌, ltb, ◌==◌, if◌then◌else◌, get_or, set,
  replicate, sum_by,
}
use cami.Common.Errors.{Result, ok, err, invalid_argument, not_found, busy}
use cami.Inventory.Item.{ItemDef, ItemStack, empty_stack, new_item_guid}

abbrev pub max_inventory_slots : ℕ
max_inventory_slots = 100

abbrev pub equip_slot_count : ℕ
equip_slot_count = 10

-- The back of the vector `free_` is the head of the list.
pub record Inventory : Type 0 where
  pub bag : List ItemStack
  pub equipped : List ItemStack
  pub used : ℕ
  pub next : ℕ
  pub free : List ℕ

unfoldable pub init : Inventory
init = record {
  bag = replicate max_inventory_slots empty_stack;
  equipped = replicate equip_slot_count empty_stack;
  used = 0;
  next = 0;
  free = [];
}

-- AllocateSlot: a recycled slot, else the next fresh one, else `max_inventory_slots`.
take_slot : List ℕ → Inventory → ℕ × Inventory
take_slot (i ∷ rest) inv = (i, record inv { free = rest })
take_slot [] inv =
    if ltb inv.next max_inventory_slots
    then (inv.next, record inv { next = inv.next + 1 })
    else (max_inventory_slots, inv)

unfoldable pub allocate_slot : Inventory → ℕ × Inventory
unfolding take_slot
allocate_slot inv = take_slot inv.free inv

-- Find: the first slot whose guid it is, or `max_inventory_slots`.
unfoldable pub find_from : ℕ → ℕ → List ItemStack → ℕ
find_from guid i [] = max_inventory_slots
find_from guid i (s ∷ ss) = if s.guid == guid then i else find_from guid (i + 1) ss

unfoldable pub find : Inventory → ℕ → ℕ
find inv guid = if guid == 0 then max_inventory_slots else find_from guid 0 inv.bag

-- At, for an index in range.
abbrev pub slot_at : Inventory → ℕ → ItemStack
slot_at inv i = get_or inv.bag i empty_stack

-- The first loop of Add. One stack of the same kind that is not full takes what it has room for.
abbrev pub has_room : ItemDef → ItemStack → Bool
has_room def s = not (s.guid == 0) && s.def_id == def.def_id && ltb s.count def.max_stack

abbrev pub min_of : ℕ → ℕ → ℕ
min_of a b = if ltb a b then a else b

unfoldable pub top_up : ItemDef → ItemStack → ℕ → ℕ → ItemStack × ℕ × ℕ
top_up def s remaining guid =
    if has_room def s
    then (let add = min_of (def.max_stack - s.count) remaining in
        (record s { count = s.count + add }, remaining - add, if guid == 0 then s.guid else guid))
    else (s, remaining, guid)

abbrev pub push_slot : ItemStack → List ItemStack × ℕ × ℕ → List ItemStack × ℕ × ℕ
push_slot s (ss, remaining, guid) = (s ∷ ss, remaining, guid)

-- The slots, what remains to be placed, and the first guid used. The loop is entered with
-- something left to place, and breaks as soon as nothing is.
unfoldable pub stack_onto : ItemDef → List ItemStack → ℕ → ℕ → List ItemStack × ℕ × ℕ
stack_onto def [] remaining guid = ([], remaining, guid)
stack_onto def (s ∷ ss) remaining guid =
    let (s', r, g) = top_up def s remaining guid in
    let rest = stack_onto def ss r g in if r == 0 then (s' ∷ ss, r, g) else push_slot s' rest

-- What the second loop of Add works on.
pub record Filling : Type 0 where
  pub inv : Inventory
  pub counter : ℕ
  pub remaining : ℕ
  pub guid : ℕ

-- One round, after a slot `idx` was found.
unfoldable pub open_stack : ItemDef → Filling → ℕ → Inventory → Filling
open_stack def f idx inv =
    let add = min_of def.max_stack f.remaining in
    let (g, counter) = new_item_guid f.counter in
    record {
      inv = record inv {
        bag = set inv.bag idx (record {
          def_id = def.def_id;
          count = add;
          durability = def.max_durability;
          guid = g;
        });
        used = inv.used + 1;
      };
      counter = counter;
      remaining = f.remaining - add;
      guid = if f.guid == 0 then g else f.guid;
    }

-- `while (remaining > 0)`. Each round takes a slot, so `max_inventory_slots + 1` rounds are enough.
unfoldable pub open_stacks : ℕ → ItemDef → Filling → Filling
open_stacks zero def f = f
open_stacks (suc fuel) def f =
    let (idx, inv) = allocate_slot f.inv in
    let rest = open_stacks fuel def (open_stack def f idx inv) in
    if f.remaining == 0 then f else if idx == max_inventory_slots then f else rest

pub record AddOutcome : Type 0 where
  pub guid : ℕ
  pub added : ℕ

-- Both loops of Add. Stacks of one item are not looked for.
unfoldable pub fill : Inventory → ℕ → ItemDef → ℕ → Filling
fill inv counter def count =
    let (bag, remaining, guid) =
      if ltb 1 def.max_stack then stack_onto def inv.bag count 0 else (inv.bag, count, 0) in
    open_stacks (suc max_inventory_slots) def (record {
      inv = record inv { bag = bag };
      counter = counter;
      remaining = remaining;
      guid = guid;
    })

-- The new bag, the counter of guids, and the result.
unfoldable pub add : Inventory → ℕ → ItemDef → ℕ → Inventory × ℕ × Result AddOutcome
add inv counter def count =
    if count == 0
    then (inv, counter, err invalid_argument)
    else (let f = fill inv counter def count in
        (
          f.inv,
          f.counter,
          if count - f.remaining == 0
              then err busy
              else ok (record { guid = f.guid; added = count - f.remaining }),
        ))

-- AddExisting: an instance keeps its guid and its durability.
unfoldable pub add_existing : Inventory → ItemStack → Inventory × Result ℕ
add_existing inv st =
    if st.guid == 0
    then (inv, err invalid_argument)
    else if not (find inv st.guid == max_inventory_slots)
    then (inv, ok st.count)
    else (let (idx, inv') = allocate_slot inv in
        if idx == max_inventory_slots
        then (inv', err busy)
        else (record inv' { bag = set inv'.bag idx st; used = inv'.used + 1 }, ok st.count))

-- A slot that runs empty is cleared and goes to the free ones.
unfoldable pub take_from : Inventory → ℕ → ℕ → Inventory
take_from inv i left =
    if left == 0
    then record inv { bag = set inv.bag i empty_stack; free = i ∷ inv.free; used = inv.used - 1 }
    else record inv { bag = set inv.bag i (record (slot_at inv i) { count = left }) }

unfoldable pub remove : Inventory → ℕ → ℕ → Inventory × Result ℕ
remove inv guid count =
    if count == 0
    then (inv, err invalid_argument)
    else (let i = find inv guid in
        if i == max_inventory_slots
        then (inv, err not_found)
        else if ltb (slot_at inv i).count count
        then (inv, err invalid_argument)
        else (take_from inv i ((slot_at inv i).count - count), ok count))

-- TotalCount; the sum of a hundred 32-bit counts fits in 64 bits.
abbrev pub held : ItemStack → ℕ
held s = if s.guid == 0 then 0 else s.count

unfoldable pub total_count : Inventory → ℕ
total_count inv = sum_by held inv.bag
