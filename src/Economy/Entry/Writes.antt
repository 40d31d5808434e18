-- ===== src/Economy/Entry/Writes.antt =====
-- Each field that the encoder writes: the buffer never overflows, and no byte is lost.
use cami.Common.{
  length-take_le, length-drop_lt, ℕ, zero, suc, ◌+◌, ◌-◌, ◌<◌, ◌≤◌, ◌≡◌, refl, sym, ap, subst, ◌∙◌,
  List, [], ◌∷◌, ◌++◌, arith, ◌==◌, if◌then◌else◌, length, take, drop, take-drop, append_nil,
  append_assoc, length-append,
}
use cami.Common.Bytes.{Bytes}
use cami.Economy.Sha256.{big_endian}
use cami.Economy.Entry.{
  ItemDelta, Encoder, capacity, flush, ensure, put, u8, u32, u64, i64, unsigned_64, raw_loop, raw,
  str, encode_item, encode_items,
}
use cami.Economy.Entry.Canonical.{text, item_bytes, Wrote, put-Wrote, ensure-Wrote, ready-Wrote}

-- The buffer never overflows.
abbrev Fits : Encoder → Type 0
Fits enc = length enc.buffer ≤ capacity

abbrev pub Holds : Encoder → Bytes → Type 0
Holds enc out = Wrote enc out × Fits enc

pub flush_room : (enc : Encoder) → length (flush enc).buffer ≡ 0
unfolding flush
flush_room enc = ground arith

ensure_room :
    (n : ℕ) (enc : Encoder) → n ≤ capacity → Fits enc → length (ensure n enc).buffer + n ≤ capacity
ensure_room n enc h fits = ground (arith, flush_room enc)

pub length-big_endian : (n v : ℕ) → length (big_endian n v) ≡ n
length-big_endian zero v = refl
length-big_endian (suc n) v = ap suc (length-big_endian n v)

-- A field of fixed width.
fixed-Holds :
    (n v : ℕ) (out : Bytes) (enc : Encoder)
    → n ≤ capacity
    → Holds enc out
    → Holds (put (big_endian n v) (ensure n enc)) (out ++ big_endian n v)
fixed-Holds n v out enc h (w, fits) = (
  put-Wrote (big_endian n v) out (ensure n enc) (ensure-Wrote n out enc w),
  omega (
    arith,
    length-append (ensure n enc).buffer (big_endian n v),
    length-big_endian n v,
    ensure_room n enc h fits,
  ),
)

ready_room :
    (enc : Encoder)
    → Fits enc
    → length (if length enc.buffer == capacity then flush enc else enc).buffer < capacity
ready_room enc fits = ground (arith, flush_room enc)

raw_loop-Holds :
    (n : ℕ) (xs out : Bytes) (enc : Encoder)
    → length xs ≤ n
    → Holds enc out
    → Holds (raw_loop n xs enc) (out ++ xs)
unfolding raw_loop
raw_loop-Holds zero [] out enc h holds = subst (Holds enc) (sym (append_nil out)) holds
raw_loop-Holds zero (x ∷ xs) out enc h holds = absurd (omega arith)
raw_loop-Holds (suc n) [] out enc h holds = subst (Holds enc) (sym (append_nil out)) holds
raw_loop-Holds (suc n) (x ∷ xs) out enc h (w, fits) =
    let ready : Encoder = if length enc.buffer == capacity then flush enc else enc in
    let space : ℕ = capacity - length ready.buffer in
    let room : length ready.buffer < capacity = ready_room enc fits in
    let first : Bytes = take space (x ∷ xs) in
    let rest : Bytes = drop space (x ∷ xs) in
    let copied : Holds (put first ready) (out ++ first) = (
      put-Wrote first out ready (ready-Wrote out enc w),
      omega (arith, length-append ready.buffer first, length-take_le space (x ∷ xs)),
    ) in
    let fewer : length rest ≤ n = omega (arith, length-drop_lt space x xs (omega arith)) in
    subst (Holds (raw_loop n rest (put first ready)))
      (append_assoc out first rest ∙ ap (λ r. out ++ r) (take-drop space (x ∷ xs)))
      (raw_loop-Holds n rest (out ++ first) (put first ready) fewer copied)

pub raw-Holds : (xs out : Bytes) (enc : Encoder) → Holds enc out → Holds (raw xs enc) (out ++ xs)
raw-Holds xs out enc holds = raw_loop-Holds (length xs) xs out enc (omega arith) holds

pub str-Holds :
    (xs out : Bytes) (enc : Encoder) → Holds enc out → Holds (str xs enc) (out ++ text xs)
str-Holds xs out enc holds =
    let size : Bytes = big_endian 4 (length xs) in
    subst (Holds (str xs enc)) (append_assoc out size xs) (
      raw-Holds xs (out ++ size) (u32 (length xs) enc)
        (fixed-Holds 4 (length xs) out enc (omega arith) holds))

pub u8-Holds :
    (v : ℕ) (out : Bytes) (enc : Encoder) → Holds enc out → Holds (u8 v enc) (out ++ big_endian 1 v)
u8-Holds v out enc = fixed-Holds 1 v out enc (omega arith)

pub u32-Holds :
    (v : ℕ) (out : Bytes) (enc : Encoder)
    → Holds enc out
    → Holds (u32 v enc) (out ++ big_endian 4 v)
u32-Holds v out enc = fixed-Holds 4 v out enc (omega arith)

pub u64-Holds :
    (v : ℕ) (out : Bytes) (enc : Encoder)
    → Holds enc out
    → Holds (u64 v enc) (out ++ big_endian 8 v)
u64-Holds v out enc = fixed-Holds 8 v out enc (omega arith)

pub encode_items-Holds :
    (ds : List ItemDelta) (out : Bytes) (enc : Encoder)
    → Holds enc out
    → Holds (encode_items ds enc) (out ++ item_bytes ds)
unfolding encode_items
encode_items-Holds [] out enc holds = subst (Holds enc) (sym (append_nil out)) holds
encode_items-Holds (d ∷ ds) out enc holds =
    let def : Bytes = big_endian 8 d.def_id in
    let count : Bytes = big_endian 8 (unsigned_64 d.count) in
    let guid : Bytes = big_endian 8 d.guid in
    let enc1 = u64 d.def_id enc in
    let enc2 = i64 d.count enc1 in
    let item =
      u64-Holds d.guid ((out ++ def) ++ count) enc2
        (u64-Holds (unsigned_64 d.count) (out ++ def) enc1 (u64-Holds d.def_id out enc holds)) in
    subst (Holds (encode_items ds (encode_item d enc)))
      (ap (λ r. r ++ item_bytes ds)
          (append_assoc (out ++ def) count guid ∙ append_assoc out def (count ++ guid))
        ∙ append_assoc out (def ++ (count ++ guid)) (item_bytes ds))
      (encode_items-Holds ds (((out ++ def) ++ count) ++ guid) (encode_item d enc) item)
