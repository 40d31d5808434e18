-- ===== src/Economy/Wallets.antt =====
-- currency.h and currency.cpp: class WalletTable. `mask_ + 1` is the length of `keys`, a power of 2,
-- so that masking is a remainder. A reference to a wallet is its index in `wallets`, which a deque
-- never moves. The wallet that Fetch gives for player 0, one for the whole program, is an index out
-- of the table; ValidateCommand lets no command with that player through.
pub mod Places
pub mod Rehash
pub mod Find
pub mod Fetch
pub mod Sum
use cami.Common.{
  ℕ, zero, suc, ◌+◌, ◌-◌, ◌*◌, ◌/◌, ◌%◌, ◌^◌, List, [], ◌∷◌, ◌++◌, Option, none, some, leb, ◌==◌,
  if◌then◌else◌, length, get_or, set, replicate,
}
use cami.Common.Int.{ℤ, pos, ◌+ℤ◌, ◌-ℤ◌, ltb_ℤ}
use cami.Economy.Sha256.{xor_bits}
use cami.Economy.Ledger.{probe}
use cami.Economy.Wallet.{Wallet, empty_wallet, max_balance}

pub record WalletTable : Type 0 where
  pub wallets : List Wallet
  pub owners : List ℕ
  pub keys : List ℕ
  pub vals : List ℕ
  pub used : ℕ

-- The finalizer of splitmix64.
unfoldable pub mix : ℕ → ℕ
mix x =
    let a = (x + 11400714819323198485) % 2 ^ 64 in
    let b = xor_bits 64 a (a / 2 ^ 30) * 13787848793156543929 % 2 ^ 64 in
    let c = xor_bits 64 b (b / 2 ^ 27) * 10723151780598845931 % 2 ^ 64 in xor_bits 64 c (c / 2 ^ 31)

-- The place that the loops of Find and Fetch end at: the player's, or the first empty one.
abbrev pub place_of : List ℕ → ℕ → Option ℕ
place_of keys pid = probe (length keys) keys (mix pid % length keys) pid

-- The loop of Rehash for one owner looks for an empty place only.
abbrev empty_place_of : List ℕ → ℕ → Option ℕ
empty_place_of keys pid = probe (length keys) keys (mix pid % length keys) 0

pub record Index : Type 0 where
  pub keys : List ℕ
  pub vals : List ℕ

unfoldable pub index_owner : Index → ℕ → ℕ → Index
index_owner t pid i = elim (empty_place_of t.keys pid) [
  | none ↦ t
  | some place ↦ record { keys = set t.keys place pid; vals = set t.vals place i }
]

unfoldable pub index_owners : Index → ℕ → List ℕ → Index
index_owners t i [] = t
index_owners t i (pid ∷ owners) = index_owners (index_owner t pid i) (i + 1) owners

-- Rehash
unfoldable pub rehash : WalletTable → ℕ → WalletTable
rehash t cap =
    let fresh : Index = record { keys = replicate cap 0; vals = replicate cap 0 } in
    let filled = index_owners fresh 0 t.owners in
    record t { keys = filled.keys; vals = filled.vals }

unfoldable pub init : WalletTable
unfolding rehash index_owners
init = rehash (record { wallets = []; owners = []; keys = []; vals = []; used = 0 }) 1024

abbrev found_at : WalletTable → ℕ → Option ℕ
found_at t place = if get_or t.keys place 0 == 0 then none else some (get_or t.vals place 0)

-- Find: the index of the player's wallet.
unfoldable pub find : WalletTable → ℕ → Option ℕ
find t pid =
    if pid == 0
    then none
    else elim (place_of t.keys pid) [ none ↦ none | some place ↦ found_at t place ]

abbrev put_wallet : WalletTable → ℕ → ℕ → WalletTable
put_wallet t pid place = record {
  wallets = t.wallets ++ (empty_wallet ∷ []);
  owners = t.owners ++ (pid ∷ []);
  keys = set t.keys place pid;
  vals = set t.vals place (length t.wallets);
  used = t.used + 1;
}

-- The rest of Fetch, after the table has grown if it had to.
unfoldable pub fetch_in : WalletTable → ℕ → WalletTable × ℕ
fetch_in t pid = elim (place_of t.keys pid) [
  | none ↦ (t, length t.wallets)
  | some place ↦
      if get_or t.keys place 0 == 0
      then (put_wallet t pid place, length t.wallets)
      else (t, get_or t.vals place 0)
]

unfoldable pub grown : WalletTable → WalletTable
grown t = if leb (length t.keys * 7) ((t.used + 1) * 10) then rehash t (length t.keys * 2) else t

-- Fetch: the table, and the index of the player's wallet in it.
unfoldable pub fetch : WalletTable → ℕ → WalletTable × ℕ
fetch t pid = if pid == 0 then (t, length t.wallets) else fetch_in (grown t) pid

abbrev pub wallet_at : WalletTable → ℕ → Wallet
wallet_at t i = get_or t.wallets i empty_wallet

abbrev pub set_wallet : WalletTable → ℕ → Wallet → WalletTable
set_wallet t i w = record t { wallets = set t.wallets i w }

-- SumAllBalances, clamped at the bound of one balance.
unfoldable pub sum_wallet : ℤ → List ℤ → Option ℤ
sum_wallet sum [] = some sum
sum_wallet sum (v ∷ vs) =
    let rest = sum_wallet (sum +ℤ v) vs in if ltb_ℤ (pos max_balance -ℤ sum) v then none else rest

unfoldable pub sum_wallets : ℤ → List Wallet → Option ℤ
sum_wallets sum [] = some sum
sum_wallets sum (w ∷ ws) = elim (sum_wallet sum w.balance) [
  | none ↦ none
  | some more ↦ sum_wallets more ws
]

unfoldable pub sum_all_balances : WalletTable → ℤ
sum_all_balances t = elim (sum_wallets (pos 0) t.wallets) [
  | none ↦ pos max_balance
  | some sum ↦ sum
]
