-- ===== src/Common/Bytes.antt =====
-- Byte strings (std::string as the list of its bytes), and maps keyed by them.
use Prim.Native.Nat.{ℕ}
use mathlib.Core.Path.{◌≡◌, refl, ap}
use mathlib.Core.Logic.{◌≢◌}
use mathlib.Core.Bool.{Bool, true, false}
use mathlib.Core.List.{List, [], ◌∷◌}
use mathlib.Core.Option.{Option, none, some}
use native.Mathlib.Omega.{arith}
use cami.Common.Tests.{◌==◌, if◌then◌else◌}

abbrev pub Bytes : Type 0
Bytes = List ℕ

unfoldable pub bytes_eq : Bytes → Bytes → Bool
bytes_eq [] [] = true
bytes_eq [] (y ∷ ys) = false
bytes_eq (x ∷ xs) [] = false
bytes_eq (x ∷ xs) (y ∷ ys) = let rest = bytes_eq xs ys in if x == y then rest else false

pub bytes_eq_sound : (xs ys : Bytes) → bytes_eq xs ys ≡ true → xs ≡ ys
unfolding bytes_eq
bytes_eq_sound [] [] h = refl
bytes_eq_sound [] (y ∷ ys) h = cc
bytes_eq_sound (x ∷ xs) [] h = cc
bytes_eq_sound (x ∷ xs) (y ∷ ys) h = ground (arith, bytes_eq_sound xs ys)

pub bytes_eq_refl : (xs : Bytes) → bytes_eq xs xs ≡ true
unfolding bytes_eq
bytes_eq_refl [] = refl
bytes_eq_refl (x ∷ xs) = ground (arith, bytes_eq_refl xs)

pub bytes_ne : (xs ys : Bytes) → bytes_eq xs ys ≡ false → xs ≢ ys
bytes_ne xs ys h e = ground (arith, bytes_eq_refl xs, ap (bytes_eq xs) e)

pub ne-bytes_eq : (xs ys : Bytes) → xs ≢ ys → bytes_eq xs ys ≡ false
ne-bytes_eq xs ys h = ground (arith, bytes_eq_sound xs ys)

abbrev pub KeyMap {ℓ} : Type ℓ → Type ℓ
KeyMap V = List (Bytes × V)

module _ {ℓ} {V : Type ℓ} where
  abbrev pub find_key : Bytes → KeyMap V → Option V
  find_key k [] = none
  find_key k ((j, v) ∷ m) = let rest = find_key k m in if bytes_eq j k then some v else rest

  abbrev pub put_key : Bytes → V → KeyMap V → KeyMap V
  put_key k v [] = (k, v) ∷ []
  put_key k v ((j, w) ∷ m) =
      let rest = put_key k v m in if bytes_eq j k then (k, v) ∷ m else (j, w) ∷ rest

  abbrev pub erase_key : Bytes → KeyMap V → KeyMap V
  erase_key k [] = []
  erase_key k ((j, w) ∷ m) =
      let rest = erase_key k m in if bytes_eq j k then rest else (j, w) ∷ rest

module _ {ℓ} {V : Type ℓ} where
  pub find-put_self : (k : Bytes) (v : V) (m : KeyMap V) → find_key k (put_key k v m) ≡ some v
  find-put_self k v [] = ground (arith, bytes_eq_refl k)
  find-put_self k v ((j, w) ∷ m) = ground (arith, bytes_eq_refl k, find-put_self k v m)

  pub find-put_ne :
      (k j : Bytes) (v : V) (m : KeyMap V) → k ≢ j → find_key j (put_key k v m) ≡ find_key j m
  find-put_ne k j v [] h = ground (arith, ne-bytes_eq k j h)
  find-put_ne k j v ((i, w) ∷ m) h = ground (
    arith,
    ne-bytes_eq k j h,
    bytes_eq_sound i k,
    ap (λ b. bytes_eq b j) {x = i} {y = k},
    find-put_ne k j v m h,
  )

  pub find-erase_ne :
      (k j : Bytes) (m : KeyMap V) → k ≢ j → find_key j (erase_key k m) ≡ find_key j m
  find-erase_ne k j [] h = refl
  find-erase_ne k j ((i, w) ∷ m) h = ground (
    arith,
    ne-bytes_eq k j h,
    bytes_eq_sound i k,
    ap (λ b. bytes_eq b j) {x = i} {y = k},
    find-erase_ne k j m h,
  )

  pub find-erase_self : (k : Bytes) (m : KeyMap V) → find_key k (erase_key k m) ≡ none
  find-erase_self k [] = refl
  find-erase_self k ((i, w) ∷ m) = ground (arith, find-erase_self k m)
