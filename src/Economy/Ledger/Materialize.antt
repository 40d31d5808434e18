-- ===== src/Economy/Ledger/Materialize.antt =====
-- Append and Materialize: what is read back from the arena is the entry that was put there.
use cami.Common.{
  ℕ, ◌+◌, ◌*◌, ◌^◌, ◌<◌, ◌≤◌, ◌≡◌, sym, ap, ◌∙◌, List, ◌++◌, arith, length, drop, append_assoc,
  length-append,
}
use cami.Common.Bytes.{Bytes}
use cami.Economy.Entry.{ItemDelta, LedgerEntry, zero_hash}
use cami.Economy.Ledger.{LedgerSlot}
use cami.Economy.Ledger.Operations.{materialize, u32_of, slot_of, entry_cells}
use cami.Economy.Ledger.Memory.{
  Cell, text_cells, item_cells, read_text, read_items, items_from, item_size,
}
use cami.Economy.Ledger.Cells.{
  length-text_cells, length-item_cells, read_back, items_back, read_text_kept, items_kept,
  drop_past, drop_in, length-drop_in,
}

-- An entry as it waits: the hashes are set when it is flushed.
abbrev pub bare : LedgerEntry → LedgerEntry
bare e = record e { prev_hash = zero_hash; hash = zero_hash }

abbrev rebuilt : LedgerEntry → Bytes → List ItemDelta → Bytes → Bytes → LedgerEntry
rebuilt e key items reason source = record e {
  idempotency_key = key;
  item_deltas = items;
  reason = reason;
  source = source;
  prev_hash = zero_hash;
  hash = zero_hash;
}

u32_same : (n : ℕ) → n < 2 ^ 32 → u32_of n ≡ n
u32_same n h = omega arith

length-entry_cells :
    (e : LedgerEntry)
    → length (entry_cells e)
      ≡ length e.idempotency_key
        + (length e.reason + (length e.source + item_size * length e.item_deltas))
length-entry_cells e =
    let source = text_cells e.source in
    let items = item_cells e.item_deltas in
    omega (
      arith,
      length-append (text_cells e.idempotency_key) (text_cells e.reason ++ (source ++ items)),
      length-append (text_cells e.reason) (source ++ items),
      length-append source items,
      length-text_cells e.idempotency_key,
      length-text_cells e.reason,
      length-text_cells e.source,
      length-item_cells e.item_deltas,
    )

-- Materialize gives back each field of the entry that Append put into the arena behind the bytes
-- that are used, with the two hashes reset, when the arena with the entry is smaller than 4 GiB.
pub materialize-slot_of :
    (arena : List Cell) (e : LedgerEntry)
    → length arena + length (entry_cells e) < 2 ^ 32
    → materialize (arena ++ entry_cells e) (slot_of (length arena) e) ≡ bare e
unfolding materialize slot_of
materialize-slot_of arena e small =
    let tk = text_cells e.idempotency_key in
    let tr = text_cells e.reason in
    let ts = text_cells e.source in
    let ti = item_cells e.item_deltas in
    let used = length arena in
    let kl = length e.idempotency_key in
    let rl = length e.reason in
    let sl = length e.source in
    let il = length e.item_deltas in
    let size = length-entry_cells e in
    let lk = length-text_cells e.idempotency_key in
    let lr = length-text_cells e.reason in
    let ls = length-text_cells e.source in
    let cells = arena ++ entry_cells e in
    let r1 : cells ≡ (arena ++ tk) ++ (tr ++ (ts ++ ti)) =
      sym (append_assoc arena tk (tr ++ (ts ++ ti))) in
    let r2 : cells ≡ ((arena ++ tk) ++ tr) ++ (ts ++ ti) =
      r1 ∙ sym (append_assoc (arena ++ tk) tr (ts ++ ti)) in
    let r3 : cells ≡ (((arena ++ tk) ++ tr) ++ ts) ++ ti =
      r2 ∙ sym (append_assoc ((arena ++ tk) ++ tr) ts ti) in
    let l1 : length (arena ++ tk) ≡ used + kl = omega (arith, length-append arena tk, lk) in
    let l2 : length ((arena ++ tk) ++ tr) ≡ used + kl + rl =
      omega (arith, length-append (arena ++ tk) tr, l1, lr) in
    let l3 : length (((arena ++ tk) ++ tr) ++ ts) ≡ used + kl + rl + sl =
      omega (arith, length-append ((arena ++ tk) ++ tr) ts, l2, ls) in
    let key : read_text cells (u32_of used) (u32_of kl) ≡ e.idempotency_key =
      read_back arena (tr ++ (ts ++ ti)) e.idempotency_key (u32_of used) (u32_of kl)
        (omega (arith, size)) (omega (arith, size)) in
    let reason : read_text cells (u32_of (used + kl)) (u32_of rl) ≡ e.reason =
      ap (λ c. read_text c (u32_of (used + kl)) (u32_of rl)) r1
      ∙ read_back (arena ++ tk) (ts ++ ti) e.reason (u32_of (used + kl)) (u32_of rl)
          (omega (arith, size, l1)) (omega (arith, size)) in
    let source : read_text cells (u32_of (used + kl + rl)) (u32_of sl) ≡ e.source =
      ap (λ c. read_text c (u32_of (used + kl + rl)) (u32_of sl)) r2
      ∙ read_back ((arena ++ tk) ++ tr) ti e.source (u32_of (used + kl + rl)) (u32_of sl)
          (omega (arith, size, l2)) (omega (arith, size)) in
    let items : read_items cells (u32_of (used + kl + rl + sl)) (u32_of il) ≡ e.item_deltas =
      ap (λ c. read_items c (u32_of (used + kl + rl + sl)) (u32_of il)) r3
      ∙ ap (items_from (u32_of il)) (
          drop_past (((arena ++ tk) ++ tr) ++ ts) ti (u32_of (used + kl + rl + sl))
            (omega (arith, size, l3)))
      ∙ items_back e.item_deltas (u32_of il) (omega (arith, size)) in
    ap
      (λ k.
        rebuilt e k (read_items cells (u32_of (used + kl + rl + sl)) (u32_of il))
          (read_text cells (u32_of (used + kl)) (u32_of rl))
          (read_text cells (u32_of (used + kl + rl)) (u32_of sl)))
      key
    ∙ ap
        (λ i.
          rebuilt e e.idempotency_key i (read_text cells (u32_of (used + kl)) (u32_of rl))
            (read_text cells (u32_of (used + kl + rl)) (u32_of sl)))
        items
    ∙ ap
        (λ r.
          rebuilt e e.idempotency_key e.item_deltas r
            (read_text cells (u32_of (used + kl + rl)) (u32_of sl)))
        reason
    ∙ ap (rebuilt e e.idempotency_key e.item_deltas e.reason) source

-- The texts and the items of a slot lie among the first cells.
abbrev pub IsWithin : ℕ → LedgerSlot → Type 0
IsWithin used slot =
    (slot.key_off + slot.key_len ≤ used)
    × (slot.reason_off + slot.reason_len ≤ used)
    × (slot.source_off + slot.source_len ≤ used)
    × (slot.items_off + item_size * slot.item_count ≤ used)

abbrev read_slot : LedgerSlot → Bytes → List ItemDelta → Bytes → Bytes → LedgerEntry
read_slot slot key items reason source = record {
  transaction_id = slot.transaction_id;
  request_id = slot.request_id;
  idempotency_key = key;
  player = slot.player;
  peer = slot.peer;
  op = slot.op;
  currency = slot.currency;
  delta = slot.delta;
  balance_after = slot.balance_after;
  item_deltas = items;
  reason = reason;
  source = source;
  timestamp_ms = slot.timestamp_ms;
  version = slot.version;
  prev_hash = zero_hash;
  hash = zero_hash;
}

-- Putting more cells behind the used ones changes no entry that waits.
pub materialize_kept :
    (arena more : List Cell) (slot : LedgerSlot)
    → IsWithin (length arena) slot
    → materialize (arena ++ more) slot ≡ materialize arena slot
unfolding materialize
materialize_kept arena more slot (wk, wr, ws, wi) =
    let all = arena ++ more in
    let key = read_text_kept arena more slot.key_off slot.key_len wk in
    let reason = read_text_kept arena more slot.reason_off slot.reason_len wr in
    let source = read_text_kept arena more slot.source_off slot.source_len ws in
    let items : read_items all slot.items_off slot.item_count
        ≡ read_items arena slot.items_off slot.item_count =
      ap (items_from slot.item_count) (drop_in slot.items_off arena more (omega arith))
      ∙ items_kept slot.item_count (drop slot.items_off arena) more
          (length-drop_in slot.items_off (item_size * slot.item_count) arena wi) in
    let r1 = read_text all slot.reason_off slot.reason_len in
    let s1 = read_text all slot.source_off slot.source_len in
    let i1 = read_items all slot.items_off slot.item_count in
    let k2 = read_text arena slot.key_off slot.key_len in
    let i2 = read_items arena slot.items_off slot.item_count in
    let r2 = read_text arena slot.reason_off slot.reason_len in
    ap (λ k. read_slot slot k i1 r1 s1) key
    ∙ ap (λ i. read_slot slot k2 i r1 s1) items
    ∙ ap (λ r. read_slot slot k2 i2 r s1) reason
    ∙ ap (read_slot slot k2 i2 r2) source

-- The slot of a new entry lies within the arena with it.
pub slot_of-IsWithin :
    (arena : List Cell) (e : LedgerEntry)
    → length arena + length (entry_cells e) < 2 ^ 32
    → IsWithin (length (arena ++ entry_cells e)) (slot_of (length arena) e)
unfolding slot_of
slot_of-IsWithin arena e small =
    let size = length-entry_cells e in
    let total = length-append arena (entry_cells e) in
    (
      omega (arith, size, total),
      omega (arith, size, total),
      omega (arith, size, total),
      omega (arith, size, total),
    )
