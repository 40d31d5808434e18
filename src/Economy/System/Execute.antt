-- ===== src/Economy/System/Execute.antt =====
-- economy_system.cpp: EconomySystem::Execute and what it does about idempotency and the ledger. The
-- clock is read by TryBegin: `now` is its reading, and `later` that of the second call of TryBegin.
use cami.Common.{
  ℕ, ◌+◌, List, [], ◌∷◌, ◌++◌, Bool, true, false, ◌||◌, Option, none, some, ◌==◌, if◌then◌else◌,
}
use cami.Common.Bytes.{Bytes, find_key, put_key}
use cami.Common.Int.{ℤ, ◌-ℤ◌}
use cami.Common.Errors.{ErrorCode, Result, ok, err, busy, ok_code, invalid_argument, internal_error}
use cami.Economy.Entry.{LedgerEntry, zero_hash}
use cami.Economy.Idempotency.{
  Idem, IdemStatus, EconomyResult, fresh, in_flight, completed, failed, try_begin, commit, abort,
  lookup_result,
}
use cami.Economy.Store.{load_by_key}
use cami.Economy.Ledger.{Ledger}
use cami.Economy.Ledger.Operations.{append_entry}
use cami.Economy.Wallets.{find, wallet_at}
use cami.Economy.Command.{
  EconomyCommand, add_currency, remove_currency, add_items, remove_items, transfer, purchase,
  reward, refund, validate_command,
}
use cami.Economy.System.{EconomySystem, EconomyStats, SinkEntry, reject, value_or_zero, balance}
use cami.Economy.System.Operations.{Outcome, do_currency, do_items}
use cami.Economy.System.Transfer.{do_transfer}
use cami.Economy.System.Grants.{do_purchase, do_reward, do_refund}

abbrev pub count_op : EconomySystem → EconomySystem
count_op s =
    let st : EconomyStats = s.stats in record s { stats = record st { op_count = st.op_count + 1 } }

abbrev pub count_fail : EconomySystem → EconomySystem
count_fail s =
    let st : EconomyStats = s.stats in
    record s { stats = record st { fail_count = st.fail_count + 1 } }

abbrev pub count_dedup : EconomySystem → EconomySystem
count_dedup s =
    let st : EconomyStats = s.stats in
    record s { stats = record st { dedup_count = st.dedup_count + 1 } }

abbrev pub count_applied : EconomySystem → EconomySystem
count_applied s =
    let st : EconomyStats = s.stats in
    record s { stats = record st { applied_count = st.applied_count + 1 } }

abbrev pub count_pending : EconomySystem → EconomySystem
count_pending s =
    let st : EconomyStats = s.stats in
    record s { stats = record st { ledger_pending_count = st.ledger_pending_count + 1 } }

abbrev pub count_busy : EconomySystem → EconomySystem
count_busy s = record s { busy_count = s.busy_count + 1 }

-- The switch over the operation.
unfoldable pub dispatch : EconomySystem → EconomyCommand → Outcome
dispatch s cmd =
    if cmd.op == add_currency || cmd.op == remove_currency
    then do_currency s cmd
    else if cmd.op == add_items || cmd.op == remove_items
    then do_items s cmd
    else if cmd.op == transfer
    then do_transfer s cmd
    else if cmd.op == purchase
    then do_purchase s cmd
    else if cmd.op == reward
    then do_reward s cmd
    else if cmd.op == refund
    then do_refund s cmd
    else (s, err invalid_argument)

abbrev version_of : EconomySystem → ℕ → ℕ
version_of s player = elim (find s.wallets player) [
  | none ↦ 0
  | some i ↦ (wallet_at s.wallets i).version
]

-- RejectFromWallets
unfoldable pub reject_from_wallets :
    EconomySystem → EconomyCommand → ErrorCode → Result EconomyResult
reject_from_wallets s cmd code =
    reject code (value_or_zero (balance s cmd.player cmd.currency)) (version_of s cmd.player)

abbrev pub busy_answer : EconomySystem → EconomyCommand → Outcome
busy_answer s cmd = (count_fail (count_busy s), reject_from_wallets s cmd busy)

abbrev pub with_idem : EconomySystem → Idem → EconomySystem
with_idem s idem = record s { idem = some idem }

abbrev pub abort_key : EconomyCommand → EconomySystem → EconomySystem
abort_key cmd s = elim (s.idem) [
  | none ↦ s
  | some idem ↦ with_idem s (abort idem cmd.idempotency_key)
]

unfoldable pub ledger_entry : EconomyCommand → EconomyResult → ℤ → LedgerEntry
ledger_entry cmd res delta = record {
  transaction_id = cmd.transaction_id;
  request_id = cmd.request_id;
  idempotency_key = cmd.idempotency_key;
  player = cmd.player;
  peer = cmd.peer;
  op = cmd.op;
  currency = cmd.currency;
  delta = delta;
  balance_after = res.balance_after;
  item_deltas = cmd.item_deltas;
  reason = cmd.reason;
  source = cmd.source;
  timestamp_ms = cmd.timestamp_ms;
  version = res.version;
  prev_hash = zero_hash;
  hash = zero_hash;
}

unfoldable pub sink_entry : EconomyCommand → EconomyResult → SinkEntry
sink_entry cmd res = record {
  transaction_id = cmd.transaction_id;
  player = cmd.player;
  peer = cmd.peer;
  op = cmd.op;
  currency = cmd.currency;
  amount = cmd.amount;
  balance_after = res.balance_after;
  version = res.version;
  idempotency_key = cmd.idempotency_key;
  reason = cmd.reason;
  source = cmd.source;
  timestamp_ms = cmd.timestamp_ms;
}

abbrev pub mark_pending : EconomyResult → EconomyResult
mark_pending res = record res { ledger_pending = true }

abbrev pub appended :
    EconomySystem → EconomyResult → Ledger × Result (Unit {0}) → EconomySystem × EconomyResult
appended s res (l, ok _) = (record s { ledger = some l }, res)
appended s res (l, err _) = (count_pending (record s { ledger = some l }), mark_pending res)

unfoldable pub post_to_ledger :
    EconomySystem → EconomyCommand → EconomyResult → ℤ → EconomySystem × EconomyResult
post_to_ledger s cmd res delta = elim (s.ledger) [
  | none ↦ (s, res)
  | some l ↦ appended s res (append_entry l (ledger_entry cmd res delta))
]

-- What Commit answers: a failure leaves the change of the balances in force.
abbrev pub committed : EconomySystem → EconomyResult → Idem × Result (Unit {0}) → Outcome
committed s res (idem, ok _) = (with_idem s idem, ok res)
committed s res (idem, err _) = (count_fail (with_idem s idem), err internal_error)

abbrev pub remember : EconomySystem → EconomyCommand → EconomyResult → EconomySystem
remember s cmd res = elim (find_key cmd.idempotency_key s.idempotency) [
  | some _ ↦ s
  | none ↦ record s { idempotency = put_key cmd.idempotency_key res s.idempotency }
]

unfoldable pub keep_result : EconomySystem → EconomyCommand → EconomyResult → Outcome
keep_result s cmd res = elim (s.idem) [
  | none ↦ (remember s cmd res, ok res)
  | some idem ↦ committed s res (commit idem cmd.idempotency_key res)
]

-- QueryByKey: only what was flushed to the store is found.
abbrev pub in_ledger : EconomySystem → Bytes → Option LedgerEntry
in_ledger s key = elim (s.ledger) [
  | none ↦ none
  | some l ↦ elim (load_by_key l.store key) [ err _ ↦ none | ok found ↦ found ]
]

abbrev pub recovered : LedgerEntry → EconomyResult
recovered e = record {
  applied = true;
  deduplicated = true;
  code = ok_code;
  created_guids = [];
  balance_after = e.balance_after;
  version = e.version;
  ledger_pending = false;
}

module _ (accepts : List SinkEntry → SinkEntry → Bool) where
  abbrev pub enqueued :
      EconomySystem → EconomyResult → List SinkEntry → SinkEntry → EconomySystem × EconomyResult
  enqueued s res given e =
      if accepts given e
      then (record s { sink = some (given ++ (e ∷ [])) }, res)
      else (count_pending s, mark_pending res)

  abbrev pub post_to_sink :
      EconomyCommand → EconomySystem × EconomyResult → EconomySystem × EconomyResult
  post_to_sink cmd (s, res) = elim (s.sink) [
    | none ↦ (s, res)
    | some given ↦ enqueued s res given (sink_entry cmd res)
  ]

  -- PostLedger
  unfoldable pub post_ledger :
      EconomySystem → EconomyCommand → EconomyResult → ℤ → EconomySystem × EconomyResult
  post_ledger s cmd res delta = post_to_sink cmd (post_to_ledger s cmd res delta)

  -- What Execute does with an operation that took effect.
  unfoldable pub conclude : EconomySystem → EconomyCommand → EconomyResult → ℤ → Outcome
  conclude s cmd res before =
      let (s', res') = post_ledger (count_applied s) cmd res (res.balance_after -ℤ before) in
      keep_result s' cmd res'

  abbrev pub settle : EconomyCommand → ℤ → Outcome → Outcome
  settle cmd before (s, err code) = (abort_key cmd (count_fail s), err code)
  settle cmd before (s, ok res) =
      if res.applied then conclude s cmd res before else (abort_key cmd (count_fail s), ok res)

  unfoldable pub perform : EconomySystem → EconomyCommand → Outcome
  perform s cmd = settle cmd (value_or_zero (balance s cmd.player cmd.currency)) (dispatch s cmd)

  abbrev pub begun_again : EconomySystem → EconomyCommand → Idem × Result IdemStatus → Outcome
  begun_again s cmd (idem, ok fresh) = perform (with_idem s idem) cmd
  begun_again s cmd (idem, ok in_flight) = busy_answer (with_idem s idem) cmd
  begun_again s cmd (idem, ok completed) = busy_answer (with_idem s idem) cmd
  begun_again s cmd (idem, ok failed) = busy_answer (with_idem s idem) cmd
  begun_again s cmd (idem, err _) = busy_answer (with_idem s idem) cmd

  -- An operation that was not finished in time: TryRecoverFromLedger, else RebeginIdempotency.
  unfoldable pub recover : EconomySystem → ℕ → EconomyCommand → Idem → Outcome
  recover s later cmd idem = elim (in_ledger s cmd.idempotency_key) [
    | some e ↦ (
      count_dedup (with_idem s (commit idem cmd.idempotency_key (recovered e)).0),
      ok (recovered e),
    )
    | none ↦
        begun_again s cmd
          (try_begin (abort idem cmd.idempotency_key) later cmd.idempotency_key s.idem_ttl)
  ]

  abbrev pub replay : EconomySystem → EconomyCommand → Option EconomyResult → Outcome
  replay s cmd (some res) = (count_dedup s, ok (record res { deduplicated = true }))
  replay s cmd none = busy_answer s cmd

  abbrev pub begun : EconomySystem → ℕ → EconomyCommand → Idem × Result IdemStatus → Outcome
  begun s later cmd (idem, err code) = (count_fail (with_idem s idem), err code)
  begun s later cmd (idem, ok completed) =
      replay (with_idem s idem) cmd (lookup_result idem cmd.idempotency_key)
  begun s later cmd (idem, ok in_flight) = busy_answer (with_idem s idem) cmd
  begun s later cmd (idem, ok failed) = recover (with_idem s idem) later cmd idem
  begun s later cmd (idem, ok fresh) = perform (with_idem s idem) cmd

  -- Without a store for it the system keeps the first results itself.
  unfoldable pub perform_once : EconomySystem → EconomyCommand → Outcome
  perform_once s cmd = elim (find_key cmd.idempotency_key s.idempotency) [
    | some res ↦ (count_dedup s, ok (record res { deduplicated = true }))
    | none ↦ perform s cmd
  ]

  unfoldable pub execute_valid : EconomySystem → ℕ → ℕ → EconomyCommand → Outcome
  execute_valid s now later cmd = elim (s.idem) [
    | none ↦ perform_once s cmd
    | some idem ↦ begun s later cmd (try_begin idem now cmd.idempotency_key s.idem_ttl)
  ]

  unfoldable pub execute : EconomySystem → ℕ → ℕ → EconomyCommand → Outcome
  execute s now later cmd = elim (validate_command cmd) [
    | err code ↦ (count_fail (count_op s), err code)
    | ok _ ↦ execute_valid (count_op s) now later cmd
  ]
