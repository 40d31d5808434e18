-- ===== src/Economy/Wallet.antt =====
-- currency.h: struct Wallet. A balance is an int64_t; nothing in it leaves the range of the bound.
pub mod Funds
use cami.Common.{
  ℕ, zero, suc, ◌+◌, ◌-◌, ◌%◌, ◌^◌, ◌<◌, ◌≤◌, ◌≡◌, refl, List, [], ◌∷◌, Bool, true, false, ◌||◌,
  arith, ltb, ◌==◌, if◌then◌else◌, length, get_or, set, replicate, All,
}
use cami.Common.Int.{ℤ, pos, negsuc, ◌+ℤ◌, ◌-ℤ◌, ◌≤ℤ◌, ltb_ℤ}
use cami.Common.Errors.{ErrorCode, Result, ok, err, not_found, invalid_argument, busy}

abbrev pub currency_type_max : ℕ
currency_type_max = 16

abbrev pub max_balance : ℕ
max_balance = 1000000000000000

pub record Wallet : Type 0 where
  pub balance : List ℤ
  pub version : ℕ

abbrev pub empty_wallet : Wallet
empty_wallet = record { balance = replicate 17 (pos 0); version = 0 }

abbrev pub unknown_currency : ℕ → Bool
unknown_currency c = c == 0 || ltb currency_type_max c

abbrev pub balance_of : Wallet → ℕ → ℤ
balance_of w c = get_or w.balance c (pos 0)

-- Wallet::Get
unfoldable pub get : Wallet → ℕ → Result ℤ
get w c = if unknown_currency c then err not_found else ok (balance_of w c)

abbrev is_zero : ℤ → Bool
is_zero (pos zero) = true
is_zero (pos (suc n)) = false
is_zero (negsuc n) = false

-- The guards of Wallet::Add: `none` of them leaves the wallet alone.
unfoldable pub refusal : ℤ → ℤ → Result (Unit {0})
refusal current delta =
    if is_zero delta
    then err invalid_argument
    else if ltb_ℤ delta (pos 0)
    then (if ltb_ℤ current (pos 0 -ℤ delta) then err busy else ok tt)
    else if ltb_ℤ (pos max_balance -ℤ delta) current
    then err busy
    else ok tt

abbrev pub write_balance : Wallet → ℕ → ℤ → Wallet
write_balance w c v = record w { balance = set w.balance c v; version = (w.version + 1) % 2 ^ 32 }

-- Wallet::Add
unfoldable pub add : Wallet → ℕ → ℤ → Wallet × Result (Unit {0})
add w c delta =
    if unknown_currency c then (w, err not_found) else elim (refusal (balance_of w c) delta) [
      | err code ↦ (w, err code)
      | ok _ ↦ (write_balance w c (balance_of w c +ℤ delta), ok tt)
    ]
