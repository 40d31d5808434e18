-- ===== src/Economy/Idempotency.antt =====
-- ledger/idempotency_store.h and .cpp: class IdempotencyStore over InMemoryIdemTable. The clock's
-- reading is an argument of TryBegin. Times are milliseconds; a ttl that is not positive is 0.
pub mod Once
pub mod Stays
pub mod Rows
use cami.Common.{
  ℕ, ◌+◌, ◌-◌, List, [], ◌∷◌, Bool, true, false, Option, none, some, ltb, ◌==◌, if◌then◌else◌,
}
use cami.Common.Bytes.{Bytes, KeyMap, find_key, put_key, erase_key}
use cami.Common.Errors.{ErrorCode, ok_code, Result, ok, err, invalid_argument, timeout, not_found}
use cami.Common.Int.{ℤ, pos}

pub data IdemStatus : Type 0 where
  fresh in_flight completed failed : IdemStatus

pub record EconomyResult : Type 0 where
  pub applied : Bool
  pub deduplicated : Bool
  pub code : ErrorCode
  pub created_guids : List ℕ
  pub balance_after : ℤ
  pub version : ℕ
  pub ledger_pending : Bool

abbrev pub empty_result : EconomyResult
empty_result = record {
  applied = false;
  deduplicated = false;
  code = ok_code;
  created_guids = [];
  balance_after = pos 0;
  version = 0;
  ledger_pending = false;
}

pub record IdemRow : Type 0 where
  pub status : IdemStatus
  pub deadline_ms : ℕ
  pub result : EconomyResult

-- The table and the counters of the store. A row that was never committed has the empty result.
pub record Idem : Type 0 where
  pub rows : KeyMap IdemRow
  pub fail_next_inserts : ℕ
  pub reaped : ℕ
  pub busy : ℕ

-- InsertIfAbsent: true for a duplicate.
unfoldable pub insert_if_absent : Idem → Bytes → IdemRow → Idem × Result Bool
insert_if_absent s key row =
    if ltb 0 s.fail_next_inserts
    then (record s { fail_next_inserts = s.fail_next_inserts - 1 }, err timeout)
    else elim (find_key key s.rows) [
      | some _ ↦ (s, ok true)
      | none ↦ (record s { rows = put_key key row s.rows }, ok false)
    ]

-- Update on a key that may be missing.
unfoldable pub update : Idem → Bytes → IdemRow → Idem × Result (Unit {0})
update s key row = elim (find_key key s.rows) [
  | none ↦ (s, err not_found)
  | some _ ↦ (record s { rows = put_key key row s.rows }, ok tt)
]

abbrev begun : Idem × Result Bool → Idem × Result IdemStatus
begun (s, err e) = (s, err e)
begun (s, ok true) = (record s { busy = s.busy + 1 }, ok in_flight)
begun (s, ok false) = (s, ok fresh)

-- The rest of TryBegin when the table holds nothing for the key.
unfoldable pub begin_new : Idem → ℕ → Bytes → ℕ → Idem × Result IdemStatus
begin_new s now key ttl = begun (
    insert_if_absent s key
      (record { status = in_flight; deadline_ms = now + ttl; result = empty_result }))

-- The switch over the status of the row that was found.
unfoldable pub begin_on : IdemStatus → Idem → ℕ → Bytes → ℕ → IdemRow → Idem × Result IdemStatus
begin_on completed s now key ttl row = (s, ok completed)
begin_on in_flight s now key ttl row =
    if ltb now row.deadline_ms
    then (record s { busy = s.busy + 1 }, ok in_flight)
    else (let s' = (update s key (record row { status = failed })).0 in
        (record s' { reaped = s'.reaped + 1 }, ok failed))
begin_on failed s now key ttl row = (s, ok failed)
begin_on fresh s now key ttl row = begin_new s now key ttl

abbrev pub is_empty : Bytes → Bool
is_empty [] = true
is_empty (b ∷ bs) = false

unfoldable pub try_begin : Idem → ℕ → Bytes → ℕ → Idem × Result IdemStatus
try_begin s now key ttl =
    if is_empty key
    then (s, err invalid_argument)
    else if ttl == 0
    then (s, err invalid_argument)
    else elim (find_key key s.rows) [
      | none ↦ begin_new s now key ttl
      | some row ↦ begin_on row.status s now key ttl row
    ]

unfoldable pub commit : Idem → Bytes → EconomyResult → Idem × Result (Unit {0})
commit s key result = update s key (record { status = completed; deadline_ms = 0; result = result })

unfoldable pub abort : Idem → Bytes → Idem
abort s key = record s { rows = erase_key key s.rows }

-- Lookup.
abbrev completed_result : IdemStatus → IdemRow → Option EconomyResult
completed_result completed row = some row.result
completed_result fresh row = none
completed_result in_flight row = none
completed_result failed row = none

unfoldable pub lookup_result : Idem → Bytes → Option EconomyResult
lookup_result s key = elim (find_key key s.rows) [
  | none ↦ none
  | some row ↦ completed_result row.status row
]

pub data Call : Type 0 where
  begins : ℕ → Bytes → ℕ → Call
  commits : Bytes → EconomyResult → Call
  aborts : Bytes → Call

unfoldable pub step : Idem → Call → Idem
step s (begins now key ttl) = (try_begin s now key ttl).0
step s (commits key result) = (commit s key result).0
step s (aborts key) = abort s key

unfoldable pub run : Idem → List Call → Idem
run s [] = s
run s (c ∷ cs) = run (step s c) cs
