-- ===== src/Lib.antt =====
-- CAMI, the server core: a model of its item and money bookkeeping, with the properties that make it
-- correct. The program is a game server in C++. A game node keeps characters (server/gamenode/role),
-- their bags and equipment (server/gamenode/inventory) and an audit trail of every change of money
-- and items (server/gamenode/economy). A gateway (server/gateway) keeps the sessions of the players
-- that are connected and moves them when a node dies. The engine (engine/core) supplies error codes.
--
-- Which file models which part:
--   Common            shared names, Boolean tests, lists over native numbers, integers, dictionaries
--                     (std::unordered_map as an association list), byte strings, and Errors:
--                     engine/core/src/error/error_code.cpp.
--   Role/Attribute    server/gamenode/role/src/attribute.cpp: limits, formula, Recompute.
--   Role/Character    character.h, and ClampVitals and RecomputeAttributes of role_system.cpp.
--   Inventory/Item    item.h and item.cpp of server/gamenode/inventory.
--   Inventory/Bag     class Inventory of inventory.h and inventory.cpp: Add, AddExisting, Remove, Find.
--   Inventory/System  class InventorySystem of inventory_system.cpp, with the events that it emits.
--   Economy/Idempotency
--                     idempotency_store.cpp of server/gamenode/economy/src/ledger.
--   Economy/Sha256    sha256.cpp of the same directory.
--   Economy/Entry     ledger_entry.cpp: the encoder, ComputeEntryHash, HashEqual, ValidateLedgerEntry.
--                     Canonical has the string that an entry is hashed as, Fields and Distinct read it.
--   Economy/Store     ledger_store.cpp: InMemoryLedgerStore.
--   Economy/Ledger    ledger.cpp: Operations has Append, Flush, WriteOne, Materialize and the
--                     verification of the chain; Memory is the arena; the table of fingerprints and
--                     the ring stand in Ledger.antt itself. Verify has the chains that VerifyChainOf
--                     accepts, Enqueue the keys that the end of Append refuses.
--   Economy/Wallet, Economy/Wallets
--                     currency.h and currency.cpp: Wallet::Get and Add, and WalletTable. Places and
--                     Rehash are about its open addressing, Find and Fetch about the methods of these
--                     names, Sum about SumAllBalances.
--   Economy/Command   economy_command.h and economy_command.cpp: EconomyCommand, ValidateCommand.
--   Economy/Prices    PriceEntry and PriceTable::Find of price_table.cpp.
--   Economy/Items     SnapshotGuids, DiffNew, RemoveByDef and the loops over item deltas of
--                     economy_system.cpp.
--   Economy/System    class EconomySystem: Operations has DoCurrency and DoItems, Transfer DoTransfer,
--                     Grants DoPurchase, DoReward and DoRefund, Execute the rest of Execute with
--                     PostLedger and the recovery from the ledger.
--                     Books, Payments, Settling, Undo, Trades and the modules named for effects say
--                     what each operation books; Money, Unmoved, Conservation and History put them
--                     together. Memory, Others, Replay, Remember, Once and Retries follow what is
--                     kept of each idempotency key.
--   Gateway/Session, Gateway/Store
--                     session.h and in_memory_session_store.cpp of server/gateway.
--   Gateway/Manager   session_manager.cpp: OnConnected and OnAuthenticate; Calls has the other calls.
--                     Counts, Steady, Sweep and History follow the counters, Versions, Kept, Advances and
--                     Fences the versions, Marks and Retention what Tick closes.
--   Gateway/Failover  failover_coordinator.cpp of server/gateway.
--
-- How state is modelled: a class is a record of its fields, a method that changes state is a function
-- to the new record and the result, and a result is `ok` of a value or `err` of an error code, without
-- its message. The parts meet where the code calls: the inventory system recomputes the attributes of
-- the character in Role, the ledger writes into the store and hashes by the entry's encoder, and the
-- economy system calls the inventory, the wallets, the idempotency store and the ledger, each of which
-- is a field of its record. A reference to a wallet is its index. The events that are published are a
-- list, newest first. Whether the older sink of the ledger takes an entry is the parameter `accepts`
-- of Execute; what an authentication provider answers is an argument of OnAuthenticate; the two
-- readings of the clock that Execute can make are its arguments now and later.
--
-- Numbers: unsigned values are natural numbers, with the remainder by 2 ^ 32 or 2 ^ 64 written where
-- the code can wrap; int64_t values are integers, since overflow is undefined there; so are the sums
-- of the money minted and burned, and the counters of the statistics do not wrap. A 64-bit hash or a
-- word of SHA-256 is a number that the operations keep below its bound. Byte strings are lists of
-- bytes. The arena holds cells, a byte of a text or one byte of an item delta's representation.
--
-- Fuel: the loop of Inventory::Add opens at most as many stacks as there are slots, and gets one
-- round more than slots; the block loop of SHA-256 and the copying loop of the encoder get as much
-- fuel as there are bytes, of which each round takes at least one; probing the fingerprint table gets
-- as many turns as the table has places; the waves of the failover coordinator as many as sessions
-- wait; the retries of WriteOne are counted as in the code. The
-- proofs of the theorems about these loops show that the fuel is enough.
--
-- Not modelled: threads, clocks (the reading of the clock is an argument of TryBegin), logging, the
-- parsers of data files, the network, MySQL and Redis, and the parts of the program that the list of
-- components names as such. The ledger's store is the in-memory one.
pub mod Common
pub mod Role
pub mod Inventory
pub mod Economy
pub mod Gateway
