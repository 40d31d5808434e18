-- ===== src/Economy/Items.antt =====
-- economy_system.cpp: what EconomySystem does to bags, by the calls of InventorySystem. A list of
-- deltas is walked with those that are done, for the undoing when one fails.
use cami.Common.{
  ℕ, zero, suc, ◌+◌, ◌-◌, ◌%◌, ◌^◌, List, [], ◌∷◌, ◌++◌, Bool, false, ◌&&◌, not, none, some, ltb,
  ◌==◌, if◌then◌else◌,
}
use cami.Common.Dict.{lookup}
use cami.Common.Int.{ℤ, pos, negsuc, ◌-ℤ◌, ltb_ℤ}
use cami.Common.Errors.{Result, ok, err, invalid_argument, not_found, busy, internal_error}
use cami.Inventory.Item.{ItemStack}
use cami.Inventory.Bag.{max_inventory_slots, min_of, slot_at}
use cami.Inventory.System.{World, inventory_of, add_item, remove_item}
use cami.Economy.Entry.{ItemDelta}

-- static_cast<std::uint32_t> of an int32_t
abbrev pub unsigned_32 : ℤ → ℕ
unsigned_32 (pos n) = n % 2 ^ 32
unsigned_32 (negsuc n) = 2 ^ 32 - 1 - n % 2 ^ 32

abbrev pub added_count : ItemDelta → ℕ
added_count d = unsigned_32 d.count

abbrev pub removed_count : ItemDelta → ℕ
removed_count d = unsigned_32 (pos 0 -ℤ d.count)

-- The guids of the slots that are in use.
unfoldable pub guids_in : List ItemStack → List ℕ
guids_in [] = []
guids_in (s ∷ ss) = let rest = guids_in ss in if s.guid == 0 then rest else s.guid ∷ rest

unfoldable pub insert_sorted : ℕ → List ℕ → List ℕ
insert_sorted g [] = g ∷ []
insert_sorted g (h ∷ hs) = let rest = insert_sorted g hs in if ltb h g then h ∷ rest else g ∷ h ∷ hs

-- std::sort
unfoldable pub sort : List ℕ → List ℕ
sort [] = []
sort (g ∷ gs) = insert_sorted g (sort gs)

unfoldable pub snapshot_guids : World → ℕ → List ℕ
snapshot_guids w player = elim (lookup player w.inventories) [
  | none ↦ []
  | some inv ↦ sort (guids_in inv.bag)
]

abbrev pub skip_below : ℕ → List ℕ → List ℕ
skip_below g [] = []
skip_below g (b ∷ bs) = let rest = skip_below g bs in if ltb b g then rest else b ∷ bs

abbrev pub starts_with : ℕ → List ℕ → Bool
starts_with g [] = false
starts_with g (b ∷ bs) = b == g

-- DiffNew: both lists are sorted, and the first is read once.
unfoldable pub diff_new : List ℕ → List ℕ → List ℕ
diff_new before [] = []
diff_new before (g ∷ after) =
    let rest = diff_new (skip_below g before) after in
    if starts_with g (skip_below g before) then rest else g ∷ rest

abbrev pub is_of : ℕ → ItemStack → Bool
is_of def_id s = not (s.guid == 0) && s.def_id == def_id

-- The first pass of RemoveByDef, which stops as soon as enough is seen.
unfoldable pub available : ℕ → ℕ → ℕ → List ItemStack → ℕ
available def_id count seen [] = seen
available def_id count seen (s ∷ ss) =
    let rest =
      available def_id count (if is_of def_id s then (seen + s.count) % 2 ^ 32 else seen) ss in
    if ltb seen count then rest else seen

-- The second pass, on the slots that are left.
unfoldable pub remove_slots : ℕ → World → ℕ → ℕ → ℕ → ℕ → World × Result ℕ
remove_slots zero w player def_id i remaining = (w, ok remaining)
remove_slots (suc n) w player def_id i remaining =
    let st = slot_at (inventory_of w player) i in
    let take = min_of remaining st.count in
    let removed = remove_item w player st.guid take in
    let skip = remove_slots n w player def_id (i + 1) remaining in
    if remaining == 0
    then (w, ok remaining)
    else if not (is_of def_id st)
    then skip
    else elim (removed.1) [
      | err code ↦ (removed.0, err code)
      | ok _ ↦ remove_slots n removed.0 player def_id (i + 1) (remaining - take)
    ]

abbrev removed_all : ℕ → World × Result ℕ → World × Result ℕ
removed_all count (w, err code) = (w, err code)
removed_all count (w, ok remaining) = (w, if remaining == 0 then ok count else err internal_error)

-- RemoveByDef
unfoldable pub remove_by_def : World → ℕ → ℕ → ℕ → World × Result ℕ
remove_by_def w player def_id count =
    if count == 0 then (w, err invalid_argument) else elim (lookup player w.inventories) [
      | none ↦ (w, err not_found)
      | some inv ↦
          if ltb (available def_id count 0 inv.bag) count
          then (w, err busy)
          else removed_all count (remove_slots max_inventory_slots w player def_id 0 count)
    ]

-- A removal by the guid that a delta names, or by its definition.
abbrev pub remove_delta : World → ℕ → ItemDelta → ℕ → World × Result ℕ
remove_delta w player d n =
    if d.guid == 0 then remove_by_def w player d.def_id n else remove_item w player d.guid n

abbrev pub add_delta : World → ℕ → ItemDelta → World × Result ℕ
add_delta w player d = add_item w player d.def_id (added_count d)

-- The undoing of additions: what was asked for is removed, by definition.
unfoldable pub undo_adds : World → ℕ → List ItemDelta → World
undo_adds w player [] = w
undo_adds w player (d ∷ ds) =
    undo_adds (remove_by_def w player d.def_id (added_count d)).0 player ds

-- The loop of AddItem and Reward.
unfoldable pub add_all : World → ℕ → List ItemDelta → List ItemDelta → World × Result (Unit {0})
add_all w player done [] = (w, ok tt)
add_all w player done (d ∷ ds) =
    let added = add_delta w player d in
    let rest = add_all added.0 player (done ++ d ∷ []) ds in
    elim (added.1) [ err code ↦ (undo_adds added.0 player done, err code) | ok _ ↦ rest ]

unfoldable pub undo_removes : World → ℕ → List ItemDelta → World
undo_removes w player [] = w
undo_removes w player (d ∷ ds) =
    undo_removes (add_item w player d.def_id (removed_count d)).0 player ds

-- The loop of RemoveItem.
unfoldable pub remove_all : World → ℕ → List ItemDelta → List ItemDelta → World × Result (Unit {0})
remove_all w player done [] = (w, ok tt)
remove_all w player done (d ∷ ds) =
    let removed = remove_delta w player d (removed_count d) in
    let rest = remove_all removed.0 player (done ++ d ∷ []) ds in
    elim (removed.1) [ err code ↦ (undo_removes removed.0 player done, err code) | ok _ ↦ rest ]

-- One delta of Refund: given back to the player, or taken from him.
abbrev pub refund_delta : World → ℕ → ItemDelta → World × Result ℕ
refund_delta w player d =
    if ltb_ℤ (pos 0) d.count
    then add_delta w player d
    else remove_delta w player d (removed_count d)

abbrev undo_refund : World → ℕ → ItemDelta → World
undo_refund w player d =
    if ltb_ℤ (pos 0) d.count
    then (remove_by_def w player d.def_id (added_count d)).0
    else (add_item w player d.def_id (removed_count d)).0

unfoldable pub undo_refunds : World → ℕ → List ItemDelta → World
undo_refunds w player [] = w
undo_refunds w player (d ∷ ds) = undo_refunds (undo_refund w player d) player ds

-- The loop of Refund.
unfoldable pub refund_all : World → ℕ → List ItemDelta → List ItemDelta → World × Result (Unit {0})
refund_all w player done [] = (w, ok tt)
refund_all w player done (d ∷ ds) =
    let changed = refund_delta w player d in
    let rest = refund_all changed.0 player (done ++ d ∷ []) ds in
    elim (changed.1) [ err code ↦ (undo_refunds changed.0 player done, err code) | ok _ ↦ rest ]
