-- ===== src/Economy/Store.antt =====
-- ledger/ledger_store.h and ledger_store.cpp: InMemoryLedgerStore, with its index of the keys.
pub mod Keys
use cami.Common.{
  ℕ, zero, suc, ◌+◌, ◌-◌, List, [], ◌∷◌, ◌++◌, Bool, true, false, Option, none, some, ltb, ◌==◌,
  ◌&&◌, if◌then◌else◌, length,
}
use cami.Common.Bytes.{Bytes, KeyMap, find_key, put_key}
use cami.Common.Int.{ℤ, pos, ◌+ℤ◌, ◌-ℤ◌, leb_ℤ}
use cami.Common.Errors.{Result, ok, err, timeout}
use cami.Economy.Entry.{LedgerEntry}

pub record LedgerAppendOutcome : Type 0 where
  pub stored : Bool
  pub duplicate : Bool

pub record Store : Type 0 where
  pub rows : List LedgerEntry
  pub by_key : KeyMap ℕ
  pub fail_next_appends : ℕ
  pub duplicate_rejections : ℕ
  pub injected_failures : ℕ

abbrev pub empty_store : Store
empty_store = record {
  rows = [];
  by_key = [];
  fail_next_appends = 0;
  duplicate_rejections = 0;
  injected_failures = 0;
}

unfoldable pub append : Store → LedgerEntry → Store × Result LedgerAppendOutcome
append s e =
    if ltb 0 s.fail_next_appends
    then (
      record s {
        fail_next_appends = s.fail_next_appends - 1;
        injected_failures = s.injected_failures + 1;
      },
      err timeout,
    )
    else elim (find_key e.idempotency_key s.by_key) [
      | some _ ↦ (
        record s { duplicate_rejections = s.duplicate_rejections + 1 },
        ok (record { stored = false; duplicate = true }),
      )
      | none ↦ (
        record s {
          by_key = put_key e.idempotency_key (length s.rows) s.by_key;
          rows = s.rows ++ (e ∷ []);
        },
        ok (record { stored = true; duplicate = false }),
      )
    ]

abbrev pub row_at : List LedgerEntry → ℕ → Option LedgerEntry
row_at [] i = none
row_at (e ∷ es) zero = some e
row_at (e ∷ es) (suc i) = row_at es i

unfoldable pub load_by_key : Store → Bytes → Result (Option LedgerEntry)
load_by_key s key = elim (find_key key s.by_key) [ none ↦ ok none | some i ↦ ok (row_at s.rows i) ]

abbrev in_window : ℤ → ℤ → LedgerEntry → Bool
in_window from_ms to_ms e = leb_ℤ from_ms e.timestamp_ms && leb_ℤ e.timestamp_ms to_ms

abbrev pub rows_in : ℤ → ℤ → List LedgerEntry → List LedgerEntry
rows_in from_ms to_ms [] = []
rows_in from_ms to_ms (e ∷ es) =
    let rest = rows_in from_ms to_ms es in if in_window from_ms to_ms e then e ∷ rest else rest

unfoldable pub load_range : Store → ℤ → ℤ → Result (List LedgerEntry)
load_range s from_ms to_ms = ok (rows_in from_ms to_ms s.rows)

-- NetDeltaByPlayer, without the bound of 64 bits.
unfoldable pub net_delta_from : ℕ → ℤ → List LedgerEntry → ℤ
net_delta_from player sum [] = sum
net_delta_from player sum (e ∷ es) =
    let paid = if e.player == player then sum +ℤ e.delta else sum in
    let both = if e.peer == player then paid -ℤ e.delta else paid in net_delta_from player both es

unfoldable pub net_delta_by_player : Store → ℕ → ℤ
net_delta_by_player s player = net_delta_from player (pos 0) s.rows
