-- ===== src/Economy/Entry/Canonical.antt =====
-- The string that the hash of an entry is the digest of, and the writes of the encoder.
use cami.Common.{
  ℕ, ◌-◌, ◌<◌, ◌^◌, ◌≡◌, sym, ap, subst, ◌∙◌, inl, inr, List, [], ◌∷◌, ◌++◌, arith, ltb, ◌==◌,
  if◌then◌else◌, Bool-cases, length, append_nil,
}
use cami.Common.Bytes.{Bytes}
use cami.Economy.Sha256.{Sha256, reset, update, big_endian}
use cami.Economy.Sha256.Stream.{IsPartial, update-append, update-IsPartial}
use cami.Economy.Entry.{
  ItemDelta, Hash256, LedgerEntry, Encoder, capacity, flush, ensure, put, unsigned_64,
}

-- A text is its length in four bytes, then its bytes.
abbrev pub text : Bytes → Bytes
text xs = big_endian 4 (length xs) ++ xs

abbrev pub item_bytes : List ItemDelta → Bytes
item_bytes [] = []
item_bytes (d ∷ ds) =
    (big_endian 8 d.def_id ++ big_endian 8 (unsigned_64 d.count) ++ big_endian 8 d.guid)
    ++ item_bytes ds

infixl 40 ◌▹◌
abbrev pub ◌▹◌ : Bytes → Bytes → Bytes
out ▹ xs = out ++ xs

-- The fields in their fixed order, each of fixed width or behind its length.
abbrev pub canonical : Hash256 → LedgerEntry → Bytes
canonical prev e =
    prev
    ▹ big_endian 8 e.transaction_id
    ▹ big_endian 8 e.request_id
    ▹ text e.idempotency_key
    ▹ big_endian 8 e.player
    ▹ big_endian 8 e.peer
    ▹ big_endian 1 e.op
    ▹ big_endian 4 e.currency
    ▹ big_endian 8 (unsigned_64 e.delta)
    ▹ big_endian 8 (unsigned_64 e.balance_after)
    ▹ big_endian 4 e.version
    ▹ big_endian 8 (unsigned_64 e.timestamp_ms)
    ▹ text e.reason
    ▹ text e.source
    ▹ big_endian 4 (length e.item_deltas)
    ▹ item_bytes e.item_deltas

-- What an encoder has hashed and what it still holds are the bytes written so far.
abbrev pub Wrote : Encoder → Bytes → Type 0
Wrote enc out =
    (update enc.hasher enc.buffer ≡ update reset out)
    × IsPartial enc.hasher
    × (enc.hasher.total_bytes < 2 ^ 64)

pub reset-IsPartial : IsPartial reset
unfolding reset
reset-IsPartial = omega arith

update_small : (h : Sha256) (xs : Bytes) → (update h xs).total_bytes < 2 ^ 64
unfolding update
update_small h xs = omega arith

pub put-Wrote : (xs out : Bytes) (enc : Encoder) → Wrote enc out → Wrote (put xs enc) (out ++ xs)
put-Wrote xs out enc (same, partial, small) = (
  sym (update-append enc.hasher enc.buffer xs partial)
      ∙ ap (λ h. update h xs) same
      ∙ update-append reset out xs reset-IsPartial,
  partial,
  small,
)

pub flush-Wrote : (out : Bytes) (enc : Encoder) → Wrote enc out → Wrote (flush enc) out
unfolding flush
flush-Wrote out enc (same, partial, small) = elim (Bool-cases (length enc.buffer == 0)) [
  | inl idle ↦ rw (idle, flush) (same, partial, small)
  | inr busy ↦
      rw (busy, flush)
        (
          update-append enc.hasher enc.buffer [] partial
              ∙ ap (update enc.hasher) (append_nil enc.buffer)
              ∙ same,
          update-IsPartial enc.hasher enc.buffer partial,
          update_small enc.hasher enc.buffer,
        )
]

pub ensure-Wrote : (n : ℕ) (out : Bytes) (enc : Encoder) → Wrote enc out → Wrote (ensure n enc) out
ensure-Wrote n out enc w = elim (Bool-cases (ltb (capacity - length enc.buffer) n)) [
  | inl full ↦
      subst (λ t. Wrote (if t then flush enc else enc) out) (sym full) (flush-Wrote out enc w)
  | inr room ↦ subst (λ t. Wrote (if t then flush enc else enc) out) (sym room) w
]

pub ready-Wrote :
    (out : Bytes) (enc : Encoder)
    → Wrote enc out
    → Wrote (if length enc.buffer == capacity then flush enc else enc) out
ready-Wrote out enc w = elim (Bool-cases (length enc.buffer == capacity)) [
  | inl full ↦
      subst (λ t. Wrote (if t then flush enc else enc) out) (sym full) (flush-Wrote out enc w)
  | inr room ↦ subst (λ t. Wrote (if t then flush enc else enc) out) (sym room) w
]
