-- ===== src/Economy/Entry.antt =====
-- ledger/ledger_entry.h and ledger_entry.cpp: LedgerEntry, the canonical encoding of its fields
-- and its hash. A 64-bit value is a number; what is written is its low bytes. The operation is
-- the underlying value of EconomyOp, which a cast can make any byte.
pub mod Canonical
pub mod Writes
pub mod Encoding
pub mod Compare
pub mod Fields
pub mod Distinct
use cami.Common.{
  ℕ, zero, suc, ◌+◌, ◌-◌, ◌*◌, ◌/◌, ◌%◌, ◌^◌, List, [], ◌∷◌, ◌++◌, Bool, true, false, ltb, leb,
  ◌==◌, if◌then◌else◌, length, replicate, take, drop,
}
use cami.Common.Bytes.{Bytes}
use cami.Common.Int.{ℤ, pos, negsuc}
use cami.Common.Errors.{Result, ok, err, invalid_argument}
use cami.Economy.Sha256.{Sha256, reset, update, final, big_endian, xor_bits}

pub record ItemDelta : Type 0 where
  pub def_id : ℕ
  pub count : ℤ
  pub guid : ℕ

-- A digest of 32 bytes.
abbrev pub Hash256 : Type 0
Hash256 = Bytes

abbrev pub zero_hash : Hash256
zero_hash = replicate 32 0

pub record LedgerEntry : Type 0 where
  pub transaction_id : ℕ
  pub request_id : ℕ
  pub idempotency_key : Bytes
  pub player : ℕ
  pub peer : ℕ
  pub op : ℕ
  pub currency : ℕ
  pub delta : ℤ
  pub balance_after : ℤ
  pub item_deltas : List ItemDelta
  pub reason : Bytes
  pub source : Bytes
  pub timestamp_ms : ℤ
  pub version : ℕ
  pub prev_hash : Hash256
  pub hash : Hash256

pub record Encoder : Type 0 where
  pub hasher : Sha256
  pub buffer : Bytes

abbrev pub capacity : ℕ
capacity = 512

abbrev pub is_empty : Bytes → Bool
is_empty [] = true
is_empty (x ∷ xs) = false

unfoldable pub flush : Encoder → Encoder
flush enc =
    if length enc.buffer == 0
    then enc
    else (record { hasher = update enc.hasher enc.buffer; buffer = [] })

abbrev pub ensure : ℕ → Encoder → Encoder
ensure n enc = if ltb (capacity - length enc.buffer) n then flush enc else enc

-- Bytes copied behind those that the buffer holds.
abbrev pub put : Bytes → Encoder → Encoder
put xs enc = record enc { buffer = enc.buffer ++ xs }

abbrev pub u8 : ℕ → Encoder → Encoder
u8 v enc = put (big_endian 1 v) (ensure 1 enc)

abbrev pub u32 : ℕ → Encoder → Encoder
u32 v enc = put (big_endian 4 v) (ensure 4 enc)

abbrev pub u64 : ℕ → Encoder → Encoder
u64 v enc = put (big_endian 8 v) (ensure 8 enc)

-- static_cast<std::uint64_t>
abbrev pub unsigned_64 : ℤ → ℕ
unsigned_64 (pos n) = n % 2 ^ 64
unsigned_64 (negsuc n) = 2 ^ 64 - 1 - n % 2 ^ 64

abbrev pub i64 : ℤ → Encoder → Encoder
i64 v enc = u64 (unsigned_64 v) enc

-- The loop of Raw, on fuel: a full buffer is flushed, then as much is copied as there is space.
unfoldable pub raw_loop : ℕ → Bytes → Encoder → Encoder
raw_loop zero xs enc = enc
raw_loop (suc n) xs enc = elim (is_empty xs) [
  | true ↦ enc
  | false ↦
      let ready = if length enc.buffer == capacity then flush enc else enc in
      let space = capacity - length ready.buffer in
      raw_loop n (drop space xs) (put (take space xs) ready)
]

-- Each turn of the loop copies a byte at least.
abbrev pub raw : Bytes → Encoder → Encoder
raw xs enc = raw_loop (length xs) xs enc

abbrev pub str : Bytes → Encoder → Encoder
str xs enc = raw xs (u32 (length xs) enc)

abbrev pub encode_item : ItemDelta → Encoder → Encoder
encode_item d enc = u64 d.guid (i64 d.count (u64 d.def_id enc))

unfoldable pub encode_items : List ItemDelta → Encoder → Encoder
encode_items [] enc = enc
encode_items (d ∷ ds) enc = encode_items ds (encode_item d enc)

unfoldable pub encode_fields : Hash256 → LedgerEntry → Encoder → Encoder
encode_fields prev e start =
    let enc = raw prev start in
    let enc = u64 e.transaction_id enc in
    let enc = u64 e.request_id enc in
    let enc = str e.idempotency_key enc in
    let enc = u64 e.player enc in
    let enc = u64 e.peer enc in
    let enc = u8 e.op enc in
    let enc = u32 e.currency enc in
    let enc = i64 e.delta enc in
    let enc = i64 e.balance_after enc in
    let enc = u32 e.version enc in
    let enc = i64 e.timestamp_ms enc in
    let enc = str e.reason enc in
    let enc = str e.source enc in
    let enc = u32 (length e.item_deltas) enc in encode_items e.item_deltas enc

unfoldable pub compute_entry_hash : Hash256 → LedgerEntry → Hash256
compute_entry_hash prev e =
    final (flush (encode_fields prev e (record { hasher = reset; buffer = [] }))).hasher

-- The operator | on the low bits.
abbrev pub or_bits : ℕ → ℕ → ℕ → ℕ
or_bits zero a b = 0
or_bits (suc n) a b = (if a % 2 + b % 2 == 0 then 0 else 1) + 2 * or_bits n (a / 2) (b / 2)

-- The differences gathered over the bytes of two arrays of one length.
abbrev pub hash_diff : ℕ → Hash256 → Hash256 → ℕ
hash_diff diff [] b = diff
hash_diff diff (x ∷ a) [] = diff
hash_diff diff (x ∷ a) (y ∷ b) = hash_diff (or_bits 8 diff (xor_bits 8 x y)) a b

unfoldable pub hash_equal : Hash256 → Hash256 → Bool
hash_equal a b = hash_diff 0 a b == 0

unfoldable pub verify_entry_hash : LedgerEntry → Bool
verify_entry_hash e = hash_equal e.hash (compute_entry_hash e.prev_hash e)

abbrev pub economy_op_count : ℕ
economy_op_count = 8

unfoldable pub validate_ledger_entry : LedgerEntry → Result (Unit {0})
validate_ledger_entry e =
    if e.transaction_id == 0
    then err invalid_argument
    else if is_empty e.idempotency_key
    then err invalid_argument
    else if e.player == 0
    then err invalid_argument
    else if leb economy_op_count e.op
    then err invalid_argument
    else ok tt
