-- ===== src/Economy/Ledger/Operations.antt =====
-- ledger.cpp: Ledger::Append, Materialize, WriteOne, Flush and the verification of the chain.
use cami.Common.{
  ℕ, zero, suc, ◌+◌, ◌*◌, ◌%◌, ◌^◌, List, [], ◌∷◌, ◌++◌, Bool, true, false, ltb, ◌==◌,
  if◌then◌else◌, length, set,
}
use cami.Common.Int.{ℤ, pos, leb_ℤ}
use cami.Common.Errors.{Result, ok, err, busy, timeout, version_conflict, is_retryable}
use cami.Economy.Entry.{
  Hash256, zero_hash, LedgerEntry, compute_entry_hash, hash_equal, verify_entry_hash,
  validate_ledger_entry,
}
use cami.Economy.Store.{Store, LedgerAppendOutcome, append, load_range}
use cami.Economy.Ledger.{
  Ledger, LedgerSlot, LedgerStats, slot_index, slot_at, pending_contains, pending_insert,
  pending_clear, key_fingerprint,
}
use cami.Economy.Ledger.Memory.{Cell, text_cells, item_cells, read_text, read_items}

unfoldable pub materialize : List Cell → LedgerSlot → LedgerEntry
materialize arena slot = record {
  transaction_id = slot.transaction_id;
  request_id = slot.request_id;
  idempotency_key = read_text arena slot.key_off slot.key_len;
  player = slot.player;
  peer = slot.peer;
  op = slot.op;
  currency = slot.currency;
  delta = slot.delta;
  balance_after = slot.balance_after;
  item_deltas = read_items arena slot.items_off slot.item_count;
  reason = read_text arena slot.reason_off slot.reason_len;
  source = read_text arena slot.source_off slot.source_len;
  timestamp_ms = slot.timestamp_ms;
  version = slot.version;
  prev_hash = zero_hash;
  hash = zero_hash;
}

-- An entry with the two hashes that the chain gives it.
abbrev pub linked : Hash256 → LedgerEntry → LedgerEntry
linked running e = record e { prev_hash = running; hash = compute_entry_hash running e }

-- What writing changes of a ledger.
pub record Sink : Type 0 where
  pub store : Store
  pub stats : LedgerStats

abbrev count_outcome : LedgerAppendOutcome → LedgerStats → LedgerStats
count_outcome out stats =
    if out.duplicate
    then record stats { duplicates_rejected = stats.duplicates_rejected + 1 }
    else if out.stored
    then record stats { flushed = stats.flushed + 1 }
    else stats

-- The loop of WriteOne, on the attempts that are left. True when the entry is written or was.
unfoldable pub write_attempts : ℕ → Sink → LedgerEntry → Sink × Bool
write_attempts zero k e = (k, false)
write_attempts (suc n) k e =
    let answer = append k.store e in
    elim answer.1 [
      | ok out ↦ (record { store = answer.0; stats = count_outcome out k.stats }, true)
      | err code ↦ elim (is_retryable code) [
        | false ↦ (record { store = answer.0; stats = k.stats }, false)
        | true ↦
            write_attempts n
              (record {
                store = answer.0;
                stats = record k.stats { retries = k.stats.retries + 1 };
              })
              e
      ]
    ]

unfoldable pub write_one : ℕ → Sink → LedgerEntry → Sink × Bool
write_one max_retries k e = write_attempts (max_retries + 1) k e

-- The loop of Flush from the i-th slot on, n of them; the hash of the last entry that is written.
unfoldable pub flush_loop : ℕ → ℕ → Ledger → Hash256 → Sink → Sink × Hash256 × Bool
flush_loop zero i l running k = (k, running, true)
flush_loop (suc n) i l running k =
    let e = linked running (materialize l.arena (slot_at l i)) in
    let answer = write_one l.config.max_retries k e in
    elim answer.1 [
      | false ↦ (answer.0, running, false)
      | true ↦ flush_loop n (suc i) l e.hash answer.0
    ]

-- The end of Flush: a failure keeps the batch, a success empties it and moves the chain on.
unfoldable pub finish_flush : Ledger → Sink × Hash256 × Bool → Ledger × Result (Unit {0})
finish_flush l (k, running, false) = (
  record l {
    store = k.store;
    stats = record k.stats { flush_failures = k.stats.flush_failures + 1; pending = l.count };
  },
  err timeout,
)
finish_flush l (k, running, true) = (
  record l {
    store = k.store;
    last_hash = running;
    pending_base_hash = running;
    head = 0;
    count = 0;
    arena = [];
    pend_hash = pending_clear l.pend_hash;
    stats = record k.stats {
      pending = 0;
      flush_batches =
          if ltb l.stats.flushed k.stats.flushed
          then k.stats.flush_batches + 1
          else k.stats.flush_batches;
    };
  },
  ok tt,
)

unfoldable pub flush : Ledger → Ledger × Result (Unit {0})
flush l =
    if l.count == 0
    then (l, ok tt)
    else finish_flush l
        (flush_loop l.count 0 l l.pending_base_hash (record { store = l.store; stats = l.stats }))

abbrev pub inline_item_deltas : ℕ
inline_item_deltas = 4

-- The doubling loop of the arena, on fuel: each turn adds a byte at least.
abbrev grown : ℕ → ℕ → ℕ → ℕ
grown zero want need = want
grown (suc n) want need = let more = grown n (want * 2) need in if ltb want need then more else want

unfoldable pub arena_room : ℕ → ℕ → ℕ
arena_room size need = if ltb size need then grown need (size * 2) need else size

abbrev pub u32_of : ℕ → ℕ
u32_of n = n % 2 ^ 32

-- The slot of an entry whose texts and items are put at the end of an arena that uses some bytes.
unfoldable pub slot_of : ℕ → LedgerEntry → LedgerSlot
slot_of used e =
    let key_len = length e.idempotency_key in
    let reason_len = length e.reason in
    let source_len = length e.source in
    (record {
      transaction_id = e.transaction_id;
      request_id = e.request_id;
      player = e.player;
      peer = e.peer;
      idem_hash = key_fingerprint e.idempotency_key;
      delta = e.delta;
      balance_after = e.balance_after;
      timestamp_ms = e.timestamp_ms;
      version = e.version;
      currency = e.currency;
      key_off = u32_of used;
      key_len = u32_of key_len;
      reason_off = u32_of (used + key_len);
      reason_len = u32_of reason_len;
      source_off = u32_of (used + key_len + reason_len);
      source_len = u32_of source_len;
      items_off = u32_of (used + key_len + reason_len + source_len);
      item_count = u32_of (length e.item_deltas);
      op = e.op;
    })

-- The cells of an entry, in the order of the four calls of put_bytes.
abbrev pub entry_cells : LedgerEntry → List Cell
entry_cells e =
    text_cells e.idempotency_key
    ++ (text_cells e.reason ++ (text_cells e.source ++ item_cells e.item_deltas))

abbrev pub enqueued : Ledger → LedgerEntry → Ledger
enqueued l e =
    let idem = key_fingerprint e.idempotency_key in
    let cells = entry_cells e in
    let used = length l.arena in
    (record l {
      arena = l.arena ++ cells;
      arena_size = arena_room l.arena_size (used + length cells);
      arena_bytes_total = l.arena_bytes_total + length cells;
      pending_base_hash = if l.count == 0 then l.last_hash else l.pending_base_hash;
      ring = set l.ring (slot_index l l.count) (slot_of used e);
      count = l.count + 1;
      pend_hash = pending_insert l.pend_hash idem;
      stats = record l.stats { appended = l.stats.appended + 1; pending = l.count + 1 };
    })

-- The end of Append: the entry goes into the arena, the ring and the table.
unfoldable pub enqueue : Ledger → LedgerEntry → Ledger × Result (Unit {0})
enqueue l e =
    if pending_contains l.pend_hash (key_fingerprint e.idempotency_key)
    then (
      record l { stats = record l.stats { duplicates_rejected = l.stats.duplicates_rejected + 1 } },
      err version_conflict,
    )
    else (enqueued l e, ok tt)

-- The direct write of an entry with many items, after the batch is flushed.
abbrev pub finish_direct : Ledger → LedgerEntry → Sink × Bool → Ledger × Result (Unit {0})
finish_direct l big (k, false) = (
  record l {
    store = k.store;
    stats = record k.stats { flush_failures = k.stats.flush_failures + 1 };
  },
  err timeout,
)
finish_direct l big (k, true) = (
  record l {
    store = k.store;
    last_hash = big.hash;
    pending_base_hash = big.hash;
    stats = record k.stats {
      appended = k.stats.appended + 1;
      big_entries_direct = k.stats.big_entries_direct + 1;
      pending = l.count;
    };
  },
  ok tt,
)

unfoldable pub write_direct : Ledger → LedgerEntry → Ledger × Result (Unit {0})
write_direct l e =
    let big = linked l.last_hash e in
    finish_direct l big
      (write_one l.config.max_retries (record { store = l.store; stats = l.stats }) big)

abbrev pub then_direct : LedgerEntry → Ledger × Result (Unit {0}) → Ledger × Result (Unit {0})
then_direct e (l, err code) = (l, err busy)
then_direct e (l, ok done) = write_direct l e

abbrev pub then_enqueue : LedgerEntry → Ledger × Result (Unit {0}) → Ledger × Result (Unit {0})
then_enqueue e (l, err code) = (l, err busy)
then_enqueue e (l, ok done) = if l.count == length l.ring then (l, err busy) else enqueue l e

abbrev pub append_valid : Ledger → LedgerEntry → Ledger × Result (Unit {0})
append_valid l e =
    if ltb inline_item_deltas (u32_of (length e.item_deltas))
    then then_direct e (flush l)
    else if l.count == length l.ring
    then then_enqueue e (flush l)
    else enqueue l e

unfoldable pub append_entry : Ledger → LedgerEntry → Ledger × Result (Unit {0})
append_entry l e = elim (validate_ledger_entry e) [
  | err code ↦ (l, err code)
  | ok _ ↦ append_valid l e
]

unfoldable pub verify_chain_of : List LedgerEntry → Hash256 → Bool
verify_chain_of [] prev = true
verify_chain_of (e ∷ es) prev =
    let rest = verify_chain_of es e.hash in
    if hash_equal e.prev_hash prev then (if verify_entry_hash e then rest else false) else false

abbrev chain_base : ℤ → LedgerEntry → Hash256
chain_base from_ms first = if leb_ℤ from_ms (pos 0) then zero_hash else first.prev_hash

abbrev verify_rows : ℤ → Result (List LedgerEntry) → Result Bool
verify_rows from_ms (err code) = err code
verify_rows from_ms (ok []) = ok true
verify_rows from_ms (ok (e ∷ es)) = ok (verify_chain_of (e ∷ es) (chain_base from_ms e))

unfoldable pub verify_chain : Ledger → ℤ → ℤ → Result Bool
verify_chain l from_ms to_ms = verify_rows from_ms (load_range l.store from_ms to_ms)

pub data Call : Type 0 where
  appends : LedgerEntry → Call
  flushes : Call

unfoldable pub call : Ledger → Call → Ledger × Result (Unit {0})
call l (appends e) = append_entry l e
call l flushes = flush l
