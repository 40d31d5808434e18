-- ===== src/Economy/Prices.antt =====
-- price_table.h and price_table.cpp: PriceEntry and the lookup of PriceTable.
use cami.Common.{
  ℕ, ◌*◌, ◌/◌, Bool, true, false, not, ◌&&◌, Option, none, some, ltb, ◌==◌, if◌then◌else◌,
}
use cami.Common.Dict.{Dict, lookup}
use cami.Common.Int.{ℤ, pos, negsuc}
use cami.Economy.Wallet.{max_balance}

pub record PriceEntry : Type 0 where
  pub currency : ℕ
  pub unit_price : ℤ
  pub min_count : ℕ
  pub max_count : ℕ

unfoldable pub allows : PriceEntry → ℕ → Bool
allows p count =
    if ltb count p.min_count
    then false
    else if not (p.max_count == 0) && ltb p.max_count count
    then false
    else true

-- The product of a price that is not negative, when it stays within the bound.
unfoldable pub total_of : ℕ → ℕ → Option ℤ
total_of price count =
    if not (price == 0) && ltb (max_balance / price) count
    then none
    else if ltb max_balance (price * count)
    then none
    else some (pos (price * count))

unfoldable pub total : PriceEntry → ℕ → Option ℤ
total p count = elim (p.unit_price) [ negsuc n ↦ none | pos price ↦ total_of price count ]

abbrev pub PriceTable : Type 0
PriceTable = Dict PriceEntry

unfoldable pub find_price : PriceTable → ℕ → Option PriceEntry
find_price t id = lookup id t
