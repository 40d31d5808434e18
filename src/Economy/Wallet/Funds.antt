-- ===== src/Economy/Wallet/Funds.antt =====
-- Wallet::Add: the range of the balances and their sum.
use cami.Common.{
  ℕ, zero, suc, ◌<◌, ◌≤◌, ◌≡◌, refl, ap, ◌∙◌, ◌⊎◌, inl, inr, List, [], ◌∷◌, false, arith, length,
  get_or, set, All, sum_by, Bool-cases, get_or-set_self, get_or-All,
}
use cami.Common.Int.{ℤ, pos, negsuc, pos_part, neg_part, ◌+ℤ◌, +ℤ_parts, -ℤ_parts, eq_of_parts}
use cami.Common.Errors.{ErrorCode, not_found, ok, err, Result-cases}
use cami.Economy.Wallet.{
  Wallet, max_balance, unknown_currency, balance_of, refusal, add, write_balance,
}

abbrev pub InRange : ℤ → Type 0
InRange v = (neg_part v ≡ 0) × (pos_part v ≤ max_balance)

-- A wallet has a balance for each currency, none negative and none above the bound.
abbrev pub IsFunded : Wallet → Type 0
IsFunded w = (length w.balance ≡ 17) × All InRange w.balance

abbrev pub worth : Wallet → ℕ
worth w = sum_by pos_part w.balance

pub All-set {ℓ κ} :
    {A : Type ℓ} (P : A → Type κ) (xs : List A) (i : ℕ) (v : A)
    → All P xs
    → P v
    → All P (set xs i v)
All-set P [] i v all new = tt
All-set P (x ∷ xs) zero v all new = (new, all.1)
All-set P (x ∷ xs) (suc i) v all new = (all.0, All-set P xs i v all.1 new)

pub set_same {ℓ} : {A : Type ℓ} (xs : List A) (i : ℕ) (d : A) → set xs i (get_or xs i d) ≡ xs
set_same [] i d = refl
set_same (x ∷ xs) zero d = refl
set_same (x ∷ xs) (suc i) d = ap (λ r. x ∷ r) (set_same xs i d)

-- An integer has no part of the other sign.
sum_sign : (a b : ℤ) → (pos_part (a +ℤ b) ≡ 0) ⊎ (neg_part (a +ℤ b) ≡ 0)
sum_sign a b = elim (a +ℤ b) as (λ c. (pos_part c ≡ 0) ⊎ (neg_part c ≡ 0)) [
  | pos n ↦ inr refl
  | negsuc n ↦ inl refl
]

-- The guards let a change through only if the new balance is in range.
refusal-InRange :
    (current delta : ℤ)
    → InRange current
    → refusal current delta ≡ ok tt
    → InRange (current +ℤ delta)
unfolding refusal
refusal-InRange (negsuc m) delta range passed = absurd (omega (arith, range.0))
refusal-InRange (pos m) (pos zero) range passed = cc
refusal-InRange (pos m) (pos (suc n)) range passed = ground (
  arith,
  -ℤ_parts (pos max_balance) (pos (suc n)),
  +ℤ_parts (pos m) (pos (suc n)),
  sum_sign (pos m) (pos (suc n)),
)
refusal-InRange (pos m) (negsuc n) range passed =
    ground
      (arith, -ℤ_parts (pos 0) (negsuc n), +ℤ_parts (pos m) (negsuc n), sum_sign (pos m) (negsuc n))

add_passed :
    (w : Wallet) (c : ℕ) (delta : ℤ)
    → unknown_currency c ≡ false
    → refusal (balance_of w c) delta ≡ ok tt
    → (add w c delta).1 ≡ ok tt
unfolding add
add_passed w c delta known passed = rw known (rw (passed, add) refl)

-- What Add did: it refused, and the wallet is as it was, or the balance of a known currency changed
-- by the amount, within the range.
pub add-cases :
    (w : Wallet) (c : ℕ) (delta : ℤ)
    → IsFunded w
    → ((code : ErrorCode) × (add w c delta ≡ (w, err code)))
      ⊎ ((add w c delta ≡ (write_balance w c (balance_of w c +ℤ delta), ok tt))
          × (c < 17)
          × InRange (balance_of w c +ℤ delta)
          × (unknown_currency c ≡ false)
          × (refusal (balance_of w c) delta ≡ ok tt))
unfolding add
add-cases w c delta funded = elim (Bool-cases (unknown_currency c)) [
  | inl unknown ↦ inl (not_found, rw unknown refl)
  | inr known ↦
      let range : InRange (balance_of w c) =
        get_or-All InRange w.balance c (pos 0) funded.1 (refl, omega arith) in
      elim (Result-cases (refusal (balance_of w c) delta)) [
        | inl (u, passed) ↦ inr (
          rw known (rw (passed, add)),
          ground (arith, known),
          refusal-InRange (balance_of w c) delta range passed,
          known,
          passed,
        )
        | inr (code, refused) ↦ inl (code, rw known (rw (refused, add)))
      ]
]

-- What was let through can be taken back.
refusal_back :
    (current delta back : ℤ)
    → InRange current
    → refusal current delta ≡ ok tt
    → delta +ℤ back ≡ pos 0
    → refusal (current +ℤ delta) back ≡ ok tt
unfolding refusal
refusal_back (negsuc m) delta back range passed inverse = absurd (omega (arith, range.0))
refusal_back (pos m) (pos zero) back range passed inverse = cc
refusal_back (pos m) (pos (suc n)) back range passed inverse =
    let is : back ≡ negsuc n =
      eq_of_parts back (negsuc n)
        (omega (arith, +ℤ_parts (pos (suc n)) back, ap pos_part inverse, ap neg_part inverse)) in
    let after = refusal-InRange (pos m) (pos (suc n)) range passed in
    rw is (
      ground (
        arith,
        -ℤ_parts (pos 0) (negsuc n),
        +ℤ_parts (pos m) (pos (suc n)),
        sum_sign (pos m) (pos (suc n)),
        after.0,
      ))
refusal_back (pos m) (negsuc n) back range passed inverse =
    let is : back ≡ pos (suc n) =
      eq_of_parts back (pos (suc n))
        (omega (arith, +ℤ_parts (negsuc n) back, ap pos_part inverse, ap neg_part inverse)) in
    let after = refusal-InRange (pos m) (negsuc n) range passed in
    rw is (
      ground (
        arith,
        -ℤ_parts (pos max_balance) (pos (suc n)),
        +ℤ_parts (pos m) (negsuc n),
        sum_sign (pos m) (negsuc n),
        after.0,
        range.1,
      ))

-- An amount that Add took can be taken back.
pub add_back :
    (w : Wallet) (c : ℕ) (delta back : ℤ)
    → IsFunded w
    → (add w c delta).1 ≡ ok tt
    → delta +ℤ back ≡ pos 0
    → (add (add w c delta).0 c back).1 ≡ ok tt
add_back w c delta back funded e inverse = elim (add-cases w c delta funded) [
  | inl (code, refused) ↦ cc
  | inr (took, known, range, unknown, passed) ↦
      let old : InRange (balance_of w c) =
        get_or-All InRange w.balance c (pos 0) funded.1 (refl, omega arith) in
      let new : balance_of (write_balance w c (balance_of w c +ℤ delta)) c
          ≡ balance_of w c +ℤ delta =
        get_or-set_self w.balance c (balance_of w c +ℤ delta) (pos 0)
          (omega (arith, known, funded.0)) in
      ap (λ a. (add a.0 c back).1) took
      ∙ add_passed (write_balance w c (balance_of w c +ℤ delta)) c back unknown (
          ap (λ v. refusal v back) new
          ∙ refusal_back (balance_of w c) delta back old passed inverse)
]
