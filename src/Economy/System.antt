-- ===== src/Economy/System.antt =====
-- economy_system.h and economy_system.cpp: class EconomySystem, its state and the steps that its
-- operations share. What is published is the list `events`, newest first. The sink of the older
-- ledger is the list of the entries that it was given; whether it takes one is a parameter.
pub mod Operations
pub mod Transfer
pub mod Grants
pub mod Execute
pub mod Books
pub mod Payments
pub mod Settling
pub mod Effects
pub mod Undo
pub mod PurchaseEffects
pub mod GrantEffects
pub mod Trades
pub mod TransferEffects
pub mod Money
pub mod Unmoved
pub mod Conservation
pub mod History
pub mod Memory
pub mod Others
pub mod Replay
pub mod Remember
pub mod Once
pub mod Retries
mod Tests
use cami.Common.{
  ℕ, ◌+◌, List, [], ◌∷◌, Bool, true, false, not, ◌&&◌, Option, none, some, ◌==◌, if◌then◌else◌,
}
use cami.Common.Bytes.{Bytes, KeyMap}
use cami.Common.Int.{ℤ, pos, ◌+ℤ◌, ◌-ℤ◌}
use cami.Common.Errors.{ErrorCode, Result, ok, err, ok_code, not_found}
use cami.Inventory.System.{World}
use cami.Economy.Entry.{ItemDelta}
use cami.Economy.Idempotency.{Idem, EconomyResult}
use cami.Economy.Ledger.{Ledger}
use cami.Economy.Wallet.{Wallet, unknown_currency, get, add}
use cami.Economy.Wallets.{WalletTable, find, fetch, wallet_at, set_wallet}
use cami.Economy.Prices.{PriceTable}
use cami.Economy.Command.{EconomyCommand}

pub record EconomyStats : Type 0 where
  pub op_count : ℕ
  pub applied_count : ℕ
  pub dedup_count : ℕ
  pub fail_count : ℕ
  pub ledger_pending_count : ℕ
  pub total_minted : ℤ
  pub total_burned : ℤ

pub data EconomyEvent : Type 0 where
  currency_changed : ℕ → ℕ → ℤ → ℤ → ℕ → EconomyEvent
  item_traded : ℕ → ℕ → ℕ → ℕ → ℕ → EconomyEvent
  purchase_completed : ℕ → ℕ → ℕ → ℕ → ℤ → ℕ → EconomyEvent

-- What the older sink is given of an operation.
pub record SinkEntry : Type 0 where
  pub transaction_id : ℕ
  pub player : ℕ
  pub peer : ℕ
  pub op : ℕ
  pub currency : ℕ
  pub amount : ℤ
  pub balance_after : ℤ
  pub version : ℕ
  pub idempotency_key : Bytes
  pub reason : Bytes
  pub source : Bytes
  pub timestamp_ms : ℤ

pub record EconomySystem : Type 0 where
  pub inventory : World
  pub wallets : WalletTable
  pub prices : PriceTable
  pub stats : EconomyStats
  pub idempotency : KeyMap EconomyResult
  pub idem : Option Idem
  pub idem_ttl : ℕ
  pub ledger : Option Ledger
  pub sink : Option (List SinkEntry)
  pub busy_count : ℕ
  pub events : List EconomyEvent

-- Reject: the command is in order, and what it asks for cannot be done.
abbrev pub reject : ErrorCode → ℤ → ℕ → Result EconomyResult
reject code balance version = ok (record {
  applied = false;
  deduplicated = false;
  code = code;
  created_guids = [];
  balance_after = balance;
  version = version;
  ledger_pending = false;
})

abbrev pub applied_result : List ℕ → ℤ → ℕ → EconomyResult
applied_result guids balance version = record {
  applied = true;
  deduplicated = false;
  code = ok_code;
  created_guids = guids;
  balance_after = balance;
  version = version;
  ledger_pending = false;
}

-- `r.HasValue() ? r.Value() : 0`
abbrev pub value_or_zero : Result ℤ → ℤ
value_or_zero (ok v) = v
value_or_zero (err code) = pos 0

-- Balance: no wallet is made for a player that has none.
unfoldable pub balance : EconomySystem → ℕ → ℕ → Result ℤ
balance s player currency =
    if unknown_currency currency then err not_found else elim (find s.wallets player) [
      | none ↦ ok (pos 0)
      | some i ↦ get (wallet_at s.wallets i) currency
    ]

abbrev pub with_wallets : EconomySystem → WalletTable → EconomySystem
with_wallets s t = record s { wallets = t }

abbrev pub with_inventory : EconomySystem → World → EconomySystem
with_inventory s w = record s { inventory = w }

-- A wallet that was fetched, by its index.
abbrev pub wallet : EconomySystem → ℕ → Wallet
wallet s i = wallet_at s.wallets i

abbrev pub held : EconomySystem → ℕ → ℕ → ℤ
held s i currency = value_or_zero (get (wallet s i) currency)

-- `w.Add(currency, delta)` on a wallet that was fetched.
unfoldable pub pay : EconomySystem → ℕ → ℕ → ℤ → EconomySystem × Result (Unit {0})
pay s i currency delta =
    let answer = add (wallet s i) currency delta in
    (with_wallets s (set_wallet s.wallets i answer.0), answer.1)

abbrev pub mint : ℤ → EconomySystem → EconomySystem
mint n s =
    let st : EconomyStats = s.stats in
    record s { stats = record st { total_minted = st.total_minted +ℤ n } }

abbrev pub unmint : ℤ → EconomySystem → EconomySystem
unmint n s =
    let st : EconomyStats = s.stats in
    record s { stats = record st { total_minted = st.total_minted -ℤ n } }

abbrev pub burn : ℤ → EconomySystem → EconomySystem
burn n s =
    let st : EconomyStats = s.stats in
    record s { stats = record st { total_burned = st.total_burned +ℤ n } }

abbrev pub publish : EconomyEvent → EconomySystem → EconomySystem
publish e s = record s { events = e ∷ s.events }

-- EmitCurrency
abbrev pub emit_currency : ℕ → ℕ → ℤ → ℤ → ℕ → EconomySystem → EconomySystem
emit_currency player currency delta after trace =
    publish (currency_changed player currency delta after trace)
