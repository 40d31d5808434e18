-- ===== src/Economy/Entry/Fields.antt =====
-- One field at the front of a string: a number, a signed number, or a text.
use cami.Common.{
  ℕ, zero, suc, ◌+◌, ◌*◌, ◌/◌, ◌%◌, ◌^◌, ◌<◌, ◌≡◌, refl, sym, ap, ◌∙◌, [], ◌∷◌, ◌++◌, arith, length,
  append_assoc, drop, get_or,
}
use native.Mathlib.Nat.{mod-eq_of_lt, add-mod_right, div-add-mod', pow-succ'}
use cami.Common.Bytes.{Bytes}
use cami.Common.Int.{ℤ, pos, negsuc}
use cami.Economy.Sha256.{big_endian}
use cami.Economy.Entry.{unsigned_64}
use cami.Economy.Entry.Canonical.{text}
use cami.Economy.Entry.Writes.{length-big_endian}

add_mul-mod : (v c m : ℕ) → (v + c * m) % m ≡ v % m
add_mul-mod v zero m = ap (λ k. k % m) (omega arith)
add_mul-mod v (suc c) m =
    ap (λ k. k % m) (omega arith) ∙ add-mod_right (v + c * m) m ∙ add_mul-mod v c m

exchange :
    (a b c p r : ℕ) → (a * 256 + b) * p + r + c * (256 * p) ≡ (c * 256 + b) * p + r + a * (256 * p)
exchange a b c p r = grind arith

-- Numbers whose digits agree have the same remainder.
digits-mod :
    (p v w : ℕ) → (v / p) % 256 ≡ (w / p) % 256 → v % p ≡ w % p → v % (256 * p) ≡ w % (256 * p)
digits-mod p v w high low =
    let a = v / p / 256 in
    let c = w / p / 256 in
    let b = (v / p) % 256 in
    let d = (w / p) % 256 in
    let v_is : v ≡ (a * 256 + b) * p + v % p =
      sym (ap (λ q. q * p + v % p) (div-add-mod' (v / p) 256) ∙ div-add-mod' v p) in
    let w_is : w ≡ (c * 256 + d) * p + w % p =
      sym (ap (λ q. q * p + w % p) (div-add-mod' (w / p) 256) ∙ div-add-mod' w p) in
    let same : v + c * (256 * p) ≡ w + a * (256 * p) =
      ap (λ k. k + c * (256 * p)) v_is
      ∙ exchange a b c p (v % p)
      ∙ ap (λ h. (c * 256 + h) * p + v % p + a * (256 * p)) high
      ∙ ap (λ l. (c * 256 + d) * p + l + a * (256 * p)) low
      ∙ ap (λ k. k + a * (256 * p)) (sym w_is) in
    sym (add_mul-mod v c (256 * p)) ∙ ap (λ k. k % (256 * p)) same ∙ add_mul-mod w a (256 * p)

pub front : (xs ys a b : Bytes) → length xs ≡ length ys → xs ++ a ≡ ys ++ b → (xs ≡ ys) × (a ≡ b)
front [] [] a b len e = (refl, e)
front [] (y ∷ ys) a b len e = absurd (omega (arith, len))
front (x ∷ xs) [] a b len e = absurd (omega (arith, len))
front (x ∷ xs) (y ∷ ys) a b len e =
    let rest = front xs ys a b (omega (arith, len)) (ap (drop 1) e) in
    (ap (λ h. h ∷ xs) (ap (λ l. get_or l 0 0) e) ∙ ap (λ r. y ∷ r) rest.0, rest.1)

pow_suc : (n : ℕ) → 256 ^ suc n ≡ 256 * 256 ^ n
pow_suc n = pow-succ' 256 n

big_endian-mod : (n v w : ℕ) → big_endian n v ≡ big_endian n w → v % 256 ^ n ≡ w % 256 ^ n
big_endian-mod zero v w e = omega arith
big_endian-mod (suc n) v w e =
    ap (λ m. v % m) (pow_suc n)
    ∙ digits-mod (256 ^ n) v w (ap (λ l. get_or l 0 0) e) (big_endian-mod n v w (ap (drop 1) e))
    ∙ ap (λ m. w % m) (sym (pow_suc n))

-- A field of fixed width, before others.
pub number_field :
    (n v w : ℕ) (a b : Bytes)
    → v < 256 ^ n
    → w < 256 ^ n
    → big_endian n v ++ a ≡ big_endian n w ++ b
    → (v ≡ w) × (a ≡ b)
number_field n v w a b hv hw e =
    let parts =
      front (big_endian n v) (big_endian n w) a b
        (length-big_endian n v ∙ sym (length-big_endian n w)) e in
    (sym (mod-eq_of_lt hv) ∙ big_endian-mod n v w parts.0 ∙ mod-eq_of_lt hw, parts.1)

-- A text behind its length.
pub text_field :
    (xs ys a b : Bytes)
    → length xs < 2 ^ 32
    → length ys < 2 ^ 32
    → text xs ++ a ≡ text ys ++ b
    → (xs ≡ ys) × (a ≡ b)
text_field xs ys a b hx hy e =
    let parts = number_field 4 (length xs) (length ys) (xs ++ a) (ys ++ b) hx hy (
      sym (append_assoc (big_endian 4 (length xs)) xs a)
      ∙ e
      ∙ append_assoc (big_endian 4 (length ys)) ys b) in
    front xs ys a b parts.0 parts.1

-- The values of int64_t.
abbrev pub IsInt64 : ℤ → Type 0
IsInt64 (pos n) = n < 2 ^ 63
IsInt64 (negsuc n) = n < 2 ^ 63

unsigned_64_injective : (x y : ℤ) → IsInt64 x → IsInt64 y → unsigned_64 x ≡ unsigned_64 y → x ≡ y
unsigned_64_injective (pos m) (pos n) hx hy e = ap pos (omega arith)
unsigned_64_injective (pos m) (negsuc n) hx hy e = absurd (omega arith)
unsigned_64_injective (negsuc m) (pos n) hx hy e = absurd (omega arith)
unsigned_64_injective (negsuc m) (negsuc n) hx hy e = ap negsuc (omega arith)

unsigned_64_bound : (x : ℤ) → unsigned_64 x < 2 ^ 64
unsigned_64_bound (pos n) = omega arith
unsigned_64_bound (negsuc n) = omega arith

pub signed_field :
    (x y : ℤ) (a b : Bytes)
    → IsInt64 x
    → IsInt64 y
    → big_endian 8 (unsigned_64 x) ++ a ≡ big_endian 8 (unsigned_64 y) ++ b
    → (x ≡ y) × (a ≡ b)
signed_field x y a b hx hy e =
    let parts =
      number_field 8 (unsigned_64 x) (unsigned_64 y) a b (unsigned_64_bound x) (unsigned_64_bound y)
        e in
    (unsigned_64_injective x y hx hy parts.0, parts.1)
