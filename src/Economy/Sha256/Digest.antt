-- ===== src/Economy/Sha256/Digest.antt =====
-- Sha256::Final: the digest is an array of 32 bytes.
use cami.Common.{ℕ, zero, suc, ◌+◌, ◌<◌, ◌≡◌, ◌^◌, refl, [], ◌∷◌, ◌++◌, arith, length, All}
use cami.Common.Bytes.{Bytes}
use cami.Economy.Sha256.{Sha256, Words, big_endian, digest, final, update, padding}

-- std::array<std::uint8_t, 32>
abbrev pub IsDigest : Bytes → Type 0
IsDigest bytes = (length bytes ≡ 32) × All (λ x. x < 2 ^ 8) bytes

abbrev IsArray : ℕ → Bytes → Type 0
IsArray n bytes = (length bytes ≡ n) × All (λ x. x < 2 ^ 8) bytes

append-IsArray :
    (n m : ℕ) (xs ys : Bytes) → IsArray n xs → IsArray m ys → IsArray (n + m) (xs ++ ys)
append-IsArray n m [] ys (size, all) (size', all') = (omega (arith, size, size'), all')
append-IsArray n m (x ∷ xs) ys (size, (x_small, all)) right =
    let rest = append-IsArray (length xs) m xs ys (refl, all) right in
    (omega (arith, size, rest.0), (x_small, rest.1))

big_endian-IsArray : (n v : ℕ) → IsArray n (big_endian n v)
big_endian-IsArray zero v = (omega arith, tt)
big_endian-IsArray (suc n) v =
    let rest = big_endian-IsArray n v in (omega (arith, rest.0), (omega arith, rest.1))

word-IsArray : (n v : ℕ) (xs : Bytes) → IsArray n xs → IsArray (n + 4) (xs ++ big_endian 4 v)
word-IsArray n v xs whole = append-IsArray n 4 xs (big_endian 4 v) whole (big_endian-IsArray 4 v)

digest-IsDigest : (s : Words) → IsDigest (digest s)
digest-IsDigest s =
    let a = big_endian 4 s.a in
    let b = a ++ big_endian 4 s.b in
    let c = b ++ big_endian 4 s.c in
    let d = c ++ big_endian 4 s.d in
    let e = d ++ big_endian 4 s.e in
    let f = e ++ big_endian 4 s.f in
    let g = f ++ big_endian 4 s.g in
    let two = word-IsArray 4 s.b a (big_endian-IsArray 4 s.a) in
    let four = word-IsArray 12 s.d c (word-IsArray 8 s.c b two) in
    let six = word-IsArray 20 s.f e (word-IsArray 16 s.e d four) in
    word-IsArray 28 s.h g (word-IsArray 24 s.g f six)

pub final-IsDigest : (h : Sha256) → IsDigest (final h)
unfolding final
final-IsDigest h = digest-IsDigest (update h (padding h)).words
