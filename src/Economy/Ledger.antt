-- ===== src/Economy/Ledger.antt =====
-- ledger/ledger.h and ledger.cpp: class Ledger over an InMemoryLedgerStore. The arena is the list
-- of the cells that are used, a cell being a byte of a text or one byte of an item delta's object
-- representation (Memory); the ring, the fingerprint table and the offsets are those of the code.
pub mod Memory
pub mod Operations
pub mod Chain
pub mod Verify
pub mod Write
pub mod Flush
pub mod Retry
pub mod Cells
pub mod Materialize
pub mod Table
pub mod Insert
pub mod Prints
pub mod Append
pub mod History
pub mod Enqueue
pub mod Runs
pub mod Calls
pub mod Duplicate
mod Tests
use cami.Common.{
  ℕ, zero, suc, ◌+◌, ◌-◌, ◌*◌, ◌/◌, ◌%◌, ◌^◌, List, [], ◌∷◌, ◌++◌, Bool, true, false, Option, none,
  some, ltb, leb, ◌==◌, not, if◌then◌else◌, length, get_or, set, replicate,
}
use cami.Common.Bytes.{Bytes}
use cami.Common.Int.{ℤ, pos, leb_ℤ}
use cami.Economy.Sha256.{xor_bits}
use cami.Economy.Entry.{Hash256, zero_hash}
use cami.Economy.Store.{Store}
use Memory.{Cell}

pub record LedgerStats : Type 0 where
  pub appended : ℕ
  pub pending : ℕ
  pub flushed : ℕ
  pub duplicates_rejected : ℕ
  pub flush_batches : ℕ
  pub flush_failures : ℕ
  pub retries : ℕ
  pub big_entries_direct : ℕ

pub record LedgerConfig : Type 0 where
  pub capacity : ℕ
  pub max_retries : ℕ

pub record LedgerSlot : Type 0 where
  pub transaction_id : ℕ
  pub request_id : ℕ
  pub player : ℕ
  pub peer : ℕ
  pub idem_hash : ℕ
  pub delta : ℤ
  pub balance_after : ℤ
  pub timestamp_ms : ℤ
  pub version : ℕ
  pub currency : ℕ
  pub key_off : ℕ
  pub key_len : ℕ
  pub reason_off : ℕ
  pub reason_len : ℕ
  pub source_off : ℕ
  pub source_len : ℕ
  pub items_off : ℕ
  pub item_count : ℕ
  pub op : ℕ

abbrev pub empty_slot : LedgerSlot
empty_slot = record {
  transaction_id = 0;
  request_id = 0;
  player = 0;
  peer = 0;
  idem_hash = 0;
  delta = pos 0;
  balance_after = pos 0;
  timestamp_ms = pos 0;
  version = 0;
  currency = 0;
  key_off = 0;
  key_len = 0;
  reason_off = 0;
  reason_len = 0;
  source_off = 0;
  source_len = 0;
  items_off = 0;
  item_count = 0;
  op = 0;
}

pub record Ledger : Type 0 where
  pub store : Store
  pub config : LedgerConfig
  pub ring : List LedgerSlot
  pub head : ℕ
  pub count : ℕ
  pub arena : List Cell
  pub arena_size : ℕ
  pub arena_bytes_total : ℕ
  pub pend_hash : List ℕ
  pub last_hash : Hash256
  pub pending_base_hash : Hash256
  pub stats : LedgerStats

-- KeyFingerprint: FNV-1a, with 0 kept for an empty place of the table.
abbrev fnv_from : ℕ → Bytes → ℕ
fnv_from h [] = h
fnv_from h (c ∷ cs) = fnv_from (xor_bits 64 h (c % 256) * 1099511628211 % 2 ^ 64) cs

unfoldable pub key_fingerprint : Bytes → ℕ
key_fingerprint key = let h = fnv_from 1469598103934665603 key in if h == 0 then 1 else h

-- NextPow2, on fuel: each turn doubles p, which is 1 at first.
abbrev pub next_pow2_from : ℕ → ℕ → ℕ → ℕ
next_pow2_from zero p v = p
next_pow2_from (suc n) p v = let more = next_pow2_from n (p * 2) v in if ltb p v then more else p

unfoldable pub next_pow2 : ℕ → ℕ
next_pow2 v = next_pow2_from v 1 v

abbrev pub zero_stats : LedgerStats
zero_stats = record {
  appended = 0;
  pending = 0;
  flushed = 0;
  duplicates_rejected = 0;
  flush_batches = 0;
  flush_failures = 0;
  retries = 0;
  big_entries_direct = 0;
}

unfoldable pub init : Store → LedgerConfig → Ledger
init store config =
    let capacity = if config.capacity == 0 then 1 else config.capacity in
    (record {
      store = store;
      config = record config { capacity = capacity };
      ring = replicate capacity empty_slot;
      head = 0;
      count = 0;
      arena = [];
      arena_size = 65536;
      arena_bytes_total = 0;
      pend_hash = replicate (next_pow2 (capacity * 2)) 0;
      last_hash = zero_hash;
      pending_base_hash = zero_hash;
      stats = zero_stats;
    })

unfoldable pub slot_index : Ledger → ℕ → ℕ
slot_index l i = (l.head + i) % length l.ring

abbrev pub slot_at : Ledger → ℕ → LedgerSlot
slot_at l i = get_or l.ring (slot_index l i) empty_slot

-- The probing that PendingContains and PendingInsert share: the first place from i on that is
-- empty or holds the fingerprint, on fuel. The size of the table is a power of 2, so the mask is a
-- remainder.
unfoldable pub probe : ℕ → List ℕ → ℕ → ℕ → Option ℕ
probe zero table i h = none
probe (suc n) table i h =
    let more = probe n table ((i + 1) % length table) h in
    if get_or table i 0 == 0 then some i else if get_or table i 0 == h then some i else more

abbrev pub find_place : List ℕ → ℕ → Option ℕ
find_place table h = probe (length table) table (h % length table) h

unfoldable pub pending_contains : List ℕ → ℕ → Bool
pending_contains table h = elim (find_place table h) [
  | none ↦ false
  | some i ↦ not (get_or table i 0 == 0)
]

unfoldable pub pending_insert : List ℕ → ℕ → List ℕ
pending_insert table h = elim (find_place table h) [
  | none ↦ table
  | some i ↦ if get_or table i 0 == 0 then set table i h else table
]

unfoldable pub pending_clear : List ℕ → List ℕ
pending_clear [] = []
pending_clear (x ∷ xs) = 0 ∷ pending_clear xs
