-- ===== src/Economy/Entry/Compare.antt =====
-- HashEqual: the gathered differences are zero for equal digests only.
use cami.Common.{
  ℕ, zero, suc, ◌+◌, ◌/◌, ◌%◌, ◌^◌, ◌<◌, ◌≡◌, refl, ap, ◌∙◌, [], ◌∷◌, true, arith, ◌==◌, length,
  All, Bool-cases, inl, inr,
}
use cami.Economy.Sha256.{xor_bits}
use cami.Economy.Entry.{Hash256, or_bits, hash_diff, hash_equal}

xor_bits_same : (n a : ℕ) → xor_bits n a a ≡ 0
xor_bits_same zero a = refl
xor_bits_same (suc n) a = omega (arith, xor_bits_same n (a / 2))

xor_bits_zero : (n a b : ℕ) → a < 2 ^ n → b < 2 ^ n → xor_bits n a b ≡ 0 → a ≡ b
xor_bits_zero zero a b ha hb e = omega arith
xor_bits_zero (suc n) a b ha hb e =
    let half : a / 2 ≡ b / 2 =
      xor_bits_zero n (a / 2) (b / 2) (omega arith) (omega arith) (omega arith) in
    omega (arith, half)

or_bits_nil : (n : ℕ) → or_bits n 0 0 ≡ 0
or_bits_nil zero = refl
or_bits_nil (suc n) = omega (arith, or_bits_nil n)

or_bits_zero : (n a b : ℕ) → a < 2 ^ n → b < 2 ^ n → or_bits n a b ≡ 0 → (a ≡ 0) × (b ≡ 0)
or_bits_zero zero a b ha hb e = (omega arith, omega arith)
or_bits_zero (suc n) a b ha hb e = elim (Bool-cases (a % 2 + b % 2 == 0)) [
  | inl even ↦
      let halves : (a / 2 ≡ 0) × (b / 2 ≡ 0) =
        or_bits_zero n (a / 2) (b / 2) (omega arith) (omega arith) (ground (arith, even)) in
      (ground (arith, halves.0, even), ground (arith, halves.1, even))
  | inr odd ↦ absurd (ground (arith, odd))
]

xor_bits_bound : (n a b : ℕ) → xor_bits n a b < 2 ^ n
xor_bits_bound zero a b = omega arith
xor_bits_bound (suc n) a b = omega (arith, xor_bits_bound n (a / 2) (b / 2))

or_bits_bound : (n a b : ℕ) → or_bits n a b < 2 ^ n
or_bits_bound zero a b = omega arith
or_bits_bound (suc n) a b = elim (Bool-cases (a % 2 + b % 2 == 0)) [
  | inl even ↦ rw even (omega (arith, or_bits_bound n (a / 2) (b / 2)))
  | inr odd ↦ rw odd (omega (arith, or_bits_bound n (a / 2) (b / 2)))
]

abbrev pub IsOctet : ℕ → Type 0
IsOctet x = x < 2 ^ 8

-- No differences means that none were gathered before, and equal bytes.
hash_diff_zero :
    (diff : ℕ) (a b : Hash256)
    → IsOctet diff
    → length a ≡ length b
    → All IsOctet a
    → All IsOctet b
    → hash_diff diff a b ≡ 0
    → (diff ≡ 0) × (a ≡ b)
hash_diff_zero diff [] [] h len ha hb e = (e, refl)
hash_diff_zero diff [] (y ∷ b) h len ha hb e = absurd (omega arith)
hash_diff_zero diff (x ∷ a) [] h len ha hb e = absurd (omega arith)
hash_diff_zero diff (x ∷ a) (y ∷ b) h len ha hb e =
    let bit : ℕ = xor_bits 8 x y in
    let rest =
      hash_diff_zero (or_bits 8 diff bit) a b (or_bits_bound 8 diff bit) (omega arith) ha.1 hb.1
        e in
    let both = or_bits_zero 8 diff bit h (xor_bits_bound 8 x y) rest.0 in
    (both.0, ap (λ z. z ∷ a) (xor_bits_zero 8 x y ha.0 hb.0 both.1) ∙ ap (λ r. y ∷ r) rest.1)

hash_diff_same : (a : Hash256) → hash_diff 0 a a ≡ 0
hash_diff_same [] = refl
hash_diff_same (x ∷ a) =
    ap (λ bit. hash_diff (or_bits 8 0 bit) a a) (xor_bits_same 8 x)
    ∙ ap (λ d. hash_diff d a a) (or_bits_nil 8)
    ∙ hash_diff_same a

pub hash_equal_refl : (a : Hash256) → hash_equal a a ≡ true
unfolding hash_equal
hash_equal_refl a = ground (arith, hash_diff_same a)

-- HashEqual answers true for two arrays of bytes of one length only if they are equal: the
-- accumulated differences hide none.
pub hash_equal_sound :
    (a b : Hash256)
    → length a ≡ length b
    → All IsOctet a
    → All IsOctet b
    → hash_equal a b ≡ true
    → a ≡ b
unfolding hash_equal
hash_equal_sound a b len ha hb e = (hash_diff_zero 0 a b (omega arith) len ha hb (ground arith)).1
