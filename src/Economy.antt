-- ===== src/Economy.antt =====
-- server/gamenode/economy: the idempotency table, and the hash-chained ledger with its store.
pub mod Idempotency
pub mod Sha256
pub mod Entry
pub mod Store
pub mod Ledger
pub mod Wallet
pub mod Wallets
pub mod Prices
pub mod Command
pub mod Items
pub mod System
mod Tests
