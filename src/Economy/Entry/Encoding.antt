-- ===== src/Economy/Entry/Encoding.antt =====
-- ComputeEntryHash: the buffered encoder hashes the concatenation of the fields.
use cami.Common.{nil_of_length, ◌+◌, ◌<◌, ◌^◌, ◌%◌, ◌≡◌, refl, sym, ap, ◌∙◌, [], arith, length}
use cami.Common.Bytes.{Bytes}
use cami.Economy.Sha256.{Sha256, reset, update, final, of, big_endian}
use cami.Economy.Sha256.Stream.{IsPartial, feed-absorb, hasher_of}
use cami.Economy.Entry.{
  Hash256, LedgerEntry, Encoder, flush, u8, u32, u64, i64, unsigned_64, raw, str, encode_fields,
  compute_entry_hash,
}
use cami.Economy.Entry.Canonical.{text, ◌▹◌, canonical, Wrote, reset-IsPartial, flush-Wrote}
use cami.Economy.Entry.Writes.{
  Holds, flush_room, raw-Holds, str-Holds, u8-Holds, u32-Holds, u64-Holds, encode_items-Holds,
}

encode_fields-Holds :
    (prev : Hash256) (e : LedgerEntry) (enc : Encoder)
    → Holds enc []
    → Holds (encode_fields prev e enc) (canonical prev e)
unfolding encode_fields
encode_fields-Holds prev e enc h =
    let x0 = raw prev enc in
    let o0 : Bytes = prev in
    let h0 = raw-Holds prev [] enc h in
    let x1 = u64 e.transaction_id x0 in
    let o1 : Bytes = o0 ▹ big_endian 8 e.transaction_id in
    let h1 = u64-Holds e.transaction_id o0 x0 h0 in
    let x2 = u64 e.request_id x1 in
    let o2 : Bytes = o1 ▹ big_endian 8 e.request_id in
    let h2 = u64-Holds e.request_id o1 x1 h1 in
    let x3 = str e.idempotency_key x2 in
    let o3 : Bytes = o2 ▹ text e.idempotency_key in
    let h3 = str-Holds e.idempotency_key o2 x2 h2 in
    let x4 = u64 e.player x3 in
    let o4 : Bytes = o3 ▹ big_endian 8 e.player in
    let h4 = u64-Holds e.player o3 x3 h3 in
    let x5 = u64 e.peer x4 in
    let o5 : Bytes = o4 ▹ big_endian 8 e.peer in
    let h5 = u64-Holds e.peer o4 x4 h4 in
    let x6 = u8 e.op x5 in
    let o6 : Bytes = o5 ▹ big_endian 1 e.op in
    let h6 = u8-Holds e.op o5 x5 h5 in
    let x7 = u32 e.currency x6 in
    let o7 : Bytes = o6 ▹ big_endian 4 e.currency in
    let h7 = u32-Holds e.currency o6 x6 h6 in
    let x8 = i64 e.delta x7 in
    let o8 : Bytes = o7 ▹ big_endian 8 (unsigned_64 e.delta) in
    let h8 = u64-Holds (unsigned_64 e.delta) o7 x7 h7 in
    let x9 = i64 e.balance_after x8 in
    let o9 : Bytes = o8 ▹ big_endian 8 (unsigned_64 e.balance_after) in
    let h9 = u64-Holds (unsigned_64 e.balance_after) o8 x8 h8 in
    let x10 = u32 e.version x9 in
    let o10 : Bytes = o9 ▹ big_endian 4 e.version in
    let h10 = u32-Holds e.version o9 x9 h9 in
    let x11 = i64 e.timestamp_ms x10 in
    let o11 : Bytes = o10 ▹ big_endian 8 (unsigned_64 e.timestamp_ms) in
    let h11 = u64-Holds (unsigned_64 e.timestamp_ms) o10 x10 h10 in
    let x12 = str e.reason x11 in
    let o12 : Bytes = o11 ▹ text e.reason in
    let h12 = str-Holds e.reason o11 x11 h11 in
    let x13 = str e.source x12 in
    let o13 : Bytes = o12 ▹ text e.source in
    let h13 = str-Holds e.source o12 x12 h12 in
    let x14 = u32 (length e.item_deltas) x13 in
    let o14 : Bytes = o13 ▹ big_endian 4 (length e.item_deltas) in
    encode_items-Holds e.item_deltas o14 x14 (u32-Holds (length e.item_deltas) o13 x13 h13)

update_nothing : (h : Sha256) → IsPartial h → h.total_bytes < 2 ^ 64 → update h [] ≡ h
unfolding update
update_nothing h partial small =
    ap (λ r. hasher_of r ((h.total_bytes + 0) % 2 ^ 64)) (feed-absorb h.words h.buffer [] partial)
    ∙ ap (hasher_of (h.words, h.buffer)) (omega arith)

reset_small : reset.total_bytes < 2 ^ 64
unfolding reset
reset_small = omega arith

-- ComputeEntryHash, with its 512-byte buffer that is flushed into the hasher whenever a field does
-- not fit, is the SHA-256 digest of one string: the previous hash and the fields of the entry in
-- their fixed order, each big-endian at a fixed width or behind its length.
pub compute_entry_hash-canonical :
    (prev : Hash256) (e : LedgerEntry) → compute_entry_hash prev e ≡ of (canonical prev e)
unfolding compute_entry_hash of
compute_entry_hash-canonical prev e =
    let start : Encoder = record { hasher = reset; buffer = [] } in
    let fields : Encoder = encode_fields prev e start in
    let holds : Holds start [] = ((refl, reset-IsPartial, reset_small), omega arith) in
    let done : Wrote (flush fields) (canonical prev e) =
      flush-Wrote (canonical prev e) fields (encode_fields-Holds prev e start holds).0 in
    ap final (
      sym (update_nothing (flush fields).hasher done.1 done.2)
      ∙ ap (update (flush fields).hasher)
          (sym (nil_of_length (flush fields).buffer (flush_room fields)))
      ∙ done.0)
