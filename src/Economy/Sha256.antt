-- ===== src/Economy/Sha256.antt =====
-- ledger/sha256.h and sha256.cpp: class Sha256. Words are natural numbers kept below 2 ^ 32; the
-- buffer is the list of its first buf_len_ bytes, which are the only ones that are read.
pub mod Stream
pub mod Digest
use cami.Common.{
  ℕ, zero, suc, ◌+◌, ◌-◌, ◌*◌, ◌/◌, ◌%◌, ◌^◌, List, [], ◌∷◌, ◌++◌, Bool, true, false, ltb, leb,
  ◌==◌, if◌then◌else◌, length, get_or, replicate, take, drop,
}
use cami.Common.Bytes.{Bytes}

-- The operators ^, & and ~ on the low bits of words.
abbrev pub xor_bits : ℕ → ℕ → ℕ → ℕ
xor_bits zero a b = 0
xor_bits (suc n) a b = (a + b) % 2 + 2 * xor_bits n (a / 2) (b / 2)

abbrev and_bits : ℕ → ℕ → ℕ → ℕ
and_bits zero a b = 0
and_bits (suc n) a b = (a % 2) * (b % 2) + 2 * and_bits n (a / 2) (b / 2)

infixl 60 ◌⊻◌
abbrev ◌⊻◌ : ℕ → ℕ → ℕ
a ⊻ b = xor_bits 32 a b

infixl 65 ◌⊼◌
abbrev ◌⊼◌ : ℕ → ℕ → ℕ
a ⊼ b = and_bits 32 a b

abbrev complement : ℕ → ℕ
complement a = 2 ^ 32 - 1 - a

abbrev rotr : ℕ → ℕ → ℕ
rotr x n = x / 2 ^ n + x * 2 ^ (32 - n) % 2 ^ 32

abbrev word : ℕ → ℕ
word n = n % 2 ^ 32

abbrev round_constants : List ℕ
round_constants =
    1116352408 ∷ 1899447441 ∷ 3049323471 ∷ 3921009573 ∷ 961987163 ∷ 1508970993 ∷ 2453635748
    ∷ 2870763221 ∷ 3624381080 ∷ 310598401 ∷ 607225278 ∷ 1426881987 ∷ 1925078388 ∷ 2162078206
    ∷ 2614888103 ∷ 3248222580 ∷ 3835390401 ∷ 4022224774 ∷ 264347078 ∷ 604807628 ∷ 770255983
    ∷ 1249150122 ∷ 1555081692 ∷ 1996064986 ∷ 2554220882 ∷ 2821834349 ∷ 2952996808 ∷ 3210313671
    ∷ 3336571891 ∷ 3584528711 ∷ 113926993 ∷ 338241895 ∷ 666307205 ∷ 773529912 ∷ 1294757372
    ∷ 1396182291 ∷ 1695183700 ∷ 1986661051 ∷ 2177026350 ∷ 2456956037 ∷ 2730485921 ∷ 2820302411
    ∷ 3259730800 ∷ 3345764771 ∷ 3516065817 ∷ 3600352804 ∷ 4094571909 ∷ 275423344 ∷ 430227734
    ∷ 506948616 ∷ 659060556 ∷ 883997877 ∷ 958139571 ∷ 1322822218 ∷ 1537002063 ∷ 1747873779
    ∷ 1955562222 ∷ 2024104815 ∷ 2227730452 ∷ 2361852424 ∷ 2428436474 ∷ 2756734187 ∷ 3204031479
    ∷ 3329325298 ∷ []

pub record Words : Type 0 where
  pub a : ℕ
  pub b : ℕ
  pub c : ℕ
  pub d : ℕ
  pub e : ℕ
  pub f : ℕ
  pub g : ℕ
  pub h : ℕ

pub record Sha256 : Type 0 where
  pub words : Words
  pub buffer : Bytes
  pub total_bytes : ℕ

abbrev pub block_bytes : ℕ
block_bytes = 64

unfoldable pub reset : Sha256
reset = record {
  words = record {
    a = 1779033703;
    b = 3144134277;
    c = 1013904242;
    d = 2773480762;
    e = 1359893119;
    f = 2600822924;
    g = 528734635;
    h = 1541459225;
  };
  buffer = [];
  total_bytes = 0;
}

abbrev big_endian_32 : Bytes → ℕ
big_endian_32 p =
    get_or p 0 0 * 2 ^ 24 + get_or p 1 0 * 2 ^ 16 + get_or p 2 0 * 2 ^ 8 + get_or p 3 0

-- The first 16 words of the schedule.
abbrev block_words : ℕ → Bytes → List ℕ
block_words zero block = []
block_words (suc n) block = big_endian_32 block ∷ block_words n (drop 4 block)

-- The words from index i on, n of them.
abbrev extend : ℕ → ℕ → List ℕ → List ℕ
extend zero i w = w
extend (suc n) i w =
    let w15 = get_or w (i - 15) 0 in
    let w2 = get_or w (i - 2) 0 in
    let s0 = rotr w15 7 ⊻ rotr w15 18 ⊻ (w15 / 2 ^ 3) in
    let s1 = rotr w2 17 ⊻ rotr w2 19 ⊻ (w2 / 2 ^ 10) in
    extend n (suc i) (w ++ (word (get_or w (i - 16) 0 + s0 + get_or w (i - 7) 0 + s1) ∷ []))

abbrev round : ℕ → ℕ → Words → Words
round k w v =
    let s1 = rotr v.e 6 ⊻ rotr v.e 11 ⊻ rotr v.e 25 in
    let ch = (v.e ⊼ v.f) ⊻ (complement v.e ⊼ v.g) in
    let t1 = word (v.h + s1 + ch + k + w) in
    let s0 = rotr v.a 2 ⊻ rotr v.a 13 ⊻ rotr v.a 22 in
    let maj = (v.a ⊼ v.b) ⊻ (v.a ⊼ v.c) ⊻ (v.b ⊼ v.c) in
    let t2 = word (s0 + maj) in
    (record {
      a = word (t1 + t2);
      b = v.a;
      c = v.b;
      d = v.c;
      e = word (v.d + t1);
      f = v.e;
      g = v.f;
      h = v.g;
    })

abbrev rounds : List ℕ → List ℕ → Words → Words
rounds [] ws v = v
rounds (k ∷ ks) [] v = v
rounds (k ∷ ks) (w ∷ ws) v = rounds ks ws (round k w v)

unfoldable pub compress : Words → Bytes → Words
compress s block =
    let v = rounds round_constants (extend 48 16 (block_words 16 block)) s in
    (record {
      a = word (s.a + v.a);
      b = word (s.b + v.b);
      c = word (s.c + v.c);
      d = word (s.d + v.d);
      e = word (s.e + v.e);
      f = word (s.f + v.f);
      g = word (s.g + v.g);
      h = word (s.h + v.h);
    })

-- The first part of Update: a buffer that holds bytes is filled, and compressed when it is full.
-- The result has the bytes that are left.
abbrev pub fill_buffer : Words → Bytes → Bytes → Words × Bytes × Bytes
fill_buffer s [] bytes = (s, [], bytes)
fill_buffer s (x ∷ xs) bytes =
    let need = block_bytes - length (x ∷ xs) in
    let filled = (x ∷ xs) ++ take need bytes in
    if length filled == block_bytes
    then (compress s filled, [], drop need bytes)
    else (s, filled, drop need bytes)

-- The second part: whole blocks, on fuel. The bytes that are left are fewer than a block.
unfoldable pub whole_blocks : ℕ → Words → Bytes → Words × Bytes
whole_blocks zero s bytes = (s, bytes)
whole_blocks (suc n) s bytes = elim (ltb (length bytes) block_bytes) [
  | true ↦ (s, bytes)
  | false ↦ whole_blocks n (compress s (take block_bytes bytes)) (drop block_bytes bytes)
]

abbrev pub drain : Words × Bytes × Bytes → Words × Bytes
drain (s, kept, left) =
    let blocks = whole_blocks (length left) s left in (blocks.0, kept ++ blocks.1)

-- Update on the words and the buffer. A block has at least a byte, so as much fuel as bytes is
-- enough.
unfoldable pub feed : Words × Bytes → Bytes → Words × Bytes
feed (s, buffer) bytes = drain (fill_buffer s buffer bytes)

unfoldable pub update : Sha256 → Bytes → Sha256
update h bytes =
    let fed = feed (h.words, h.buffer) bytes in
    (record {
      words = fed.0;
      buffer = fed.1;
      total_bytes = (h.total_bytes + length bytes) % 2 ^ 64;
    })

-- The n low bytes of a number, the highest first.
abbrev pub big_endian : ℕ → ℕ → Bytes
big_endian zero v = []
big_endian (suc n) v = (v / 256 ^ n) % 256 ∷ big_endian n v

unfoldable pub padding : Sha256 → Bytes
padding h =
    let bit_len = h.total_bytes * 8 % 2 ^ 64 in
    let used = length h.buffer in
    let pad_len =
      if leb (used + 1 + 8) block_bytes then block_bytes - used else 2 * block_bytes - used in
    (128 ∷ []) ++ replicate (pad_len - 9) 0 ++ big_endian 8 bit_len

abbrev pub digest : Words → Bytes
digest s =
    big_endian 4 s.a
    ++ big_endian 4 s.b
    ++ big_endian 4 s.c
    ++ big_endian 4 s.d
    ++ big_endian 4 s.e
    ++ big_endian 4 s.f
    ++ big_endian 4 s.g
    ++ big_endian 4 s.h

unfoldable pub final : Sha256 → Bytes
final h = digest (update h (padding h)).words

unfoldable pub of : Bytes → Bytes
of bytes = final (update reset bytes)
