-- ===== src/Economy/System/Tests.antt =====
-- server/gamenode/economy: concrete wallets and commands.
use cami.Economy.Idempotency.{EconomyResult, try_begin, begin_new, insert_if_absent, commit, update}
use cami.Economy.System.{applied_result}
use cami.Economy.Command.{remove_currency}
use cami.Economy.System.Replay.{replayed, counted}
use cami.Economy.System.Retries.{run-Once}
use cami.Common.{some}
use cami.Common.Errors.{ok}
use cami.Common.{ℕ, ◌≡◌, refl, List, [], ◌∷◌, Bool, true, none, arith, leb, if◌then◌else◌}
use cami.Common.Int.{pos, ◌-ℤ◌, ◌+ℤ◌}
use cami.Role.Attribute.{default_limits, default_formula}
use cami.Economy.Wallet.{max_balance}
use cami.Economy.Wallets.{init, rehash, index_owners, fetch, sum_all_balances}
use cami.Economy.Wallets.Rehash.{init-IsTable}
use cami.Economy.Wallets.Fetch.{Fetched, fetch-Fetched}
use cami.Economy.Wallets.Sum.{sum_all_balances-sum}
use cami.Economy.Command.{EconomyCommand, add_currency, transfer}
use cami.Economy.System.{EconomySystem, SinkEntry}
use cami.Economy.System.{balance, pay}
use cami.Economy.System.Operations.{do_currency}
use cami.Economy.System.Transfer.{trade_all, do_transfer, move_money}
use cami.Economy.Command.{
  validate_command, is_complete, currency_valid, transfer_valid, items_valid, grant_valid,
  validate_deltas,
}
use cami.Economy.Wallets.{find, grown, fetch_in, mix}
use cami.Economy.Ledger.{probe}
use cami.Common.Bytes.{bytes_eq}
use cami.Economy.Wallet.{get, add, refusal}
use cami.Economy.System.Execute.{
  execute, execute_valid, perform_once, perform, dispatch, conclude, post_ledger, post_to_ledger,
  keep_result, ledger_entry, sink_entry, reject_from_wallets,
}
use cami.Economy.System.Books.{IsSound, money}
use cami.Economy.System.Settling.{issued}
use cami.Economy.System.Conservation.{execute-Executed}
use cami.Economy.System.Unmoved.{Executed}
use cami.Economy.System.History.{Request, Balances, run, run-Balances, run-total_balance}

fetch-Fetched_example : Fetched init 7 (fetch init 7).0 (fetch init 7).1
fetch-Fetched_example = fetch-Fetched init 7 init-IsTable (omega arith)

abbrev new_system : EconomySystem
new_system = record {
  inventory = record {
    store = [];
    limits = default_limits;
    formula = default_formula;
    characters = [];
    inventories = [];
    counter = 1;
    events = [];
  };
  wallets = init;
  prices = [];
  stats = record {
    op_count = 0;
    applied_count = 0;
    dedup_count = 0;
    fail_count = 0;
    ledger_pending_count = 0;
    total_minted = pos 0;
    total_burned = pos 0;
  };
  idempotency = [];
  idem = none;
  idem_ttl = 60;
  ledger = none;
  sink = none;
  busy_count = 0;
  events = [];
}

abbrev any : List SinkEntry → SinkEntry → Bool
any given e = true

abbrev gold : ℕ → ℕ → ℕ → ℕ → EconomyCommand
gold op player peer key = record {
  transaction_id = key;
  request_id = key;
  idempotency_key = key ∷ [];
  player = player;
  peer = peer;
  op = op;
  currency = 1;
  amount = pos 50;
  item_deltas = [];
  reason = 113 ∷ [];
  source = 103 ∷ [];
  timestamp_ms = pos 1000;
  trace_id = 0;
}

new_wallets-IsSound : IsSound init
unfolding init rehash
new_wallets-IsSound = (init-IsTable, tt)

new_system-Balances : Balances new_system
unfolding init rehash ◌-ℤ◌
new_system-Balances = (new_wallets-IsSound, refl)

abbrev calls : List Request
calls =
    (record { now = 0; later = 1; command = gold add_currency 7 0 1 })
    ∷ (record { now = 2; later = 3; command = gold transfer 7 8 2 })
    ∷ []

execute-Executed_example :
    Executed new_system
      (gold add_currency 7 0 1)
      (execute any new_system 0 1 (gold add_currency 7 0 1))
execute-Executed_example =
    execute-Executed any new_system 0 1 (gold add_currency 7 0 1) new_wallets-IsSound

run-Balances_example : Balances (run any new_system calls)
run-Balances_example = run-Balances any calls new_system new_system-Balances

sum_all_balances-sum_example : sum_all_balances (run any new_system calls).wallets ≡ (
    if leb (money (run any new_system calls).wallets) max_balance
    then pos (money (run any new_system calls).wallets)
    else pos max_balance)
sum_all_balances-sum_example =
    sum_all_balances-sum (run any new_system calls).wallets
      (run-Balances any calls new_system new_system-Balances).0.1

after_calls : money (run any new_system calls).wallets ≡ 50
unfolding execute execute_valid perform_once perform dispatch validate_command is_complete
    currency_valid transfer_valid items_valid grant_valid validate_deltas balance find get
    do_currency do_transfer move_money pay add refusal fetch grown fetch_in init rehash index_owners
    mix conclude post_ledger post_to_ledger keep_result ledger_entry sink_entry reject_from_wallets
    ◌+ℤ◌ ◌-ℤ◌ probe bytes_eq trade_all
after_calls = refl

run-total_balance_example :
    sum_all_balances (run any new_system calls).wallets ≡ issued (run any new_system calls)
run-total_balance_example =
    run-total_balance any calls new_system new_system-Balances (omega (arith, after_calls))

-- With an idempotency store.
abbrev stored_system : EconomySystem
stored_system = record new_system {
  idem = some (record { rows = []; fail_next_inserts = 0; reaped = 0; busy = 0 });
}

abbrev fifty : EconomyResult
fifty = applied_result [] (pos 50) 1

fifty_given : (execute any stored_system 0 1 (gold add_currency 7 0 1)).1 ≡ ok fifty
unfolding execute execute_valid perform_once perform dispatch validate_command is_complete
    currency_valid transfer_valid items_valid grant_valid validate_deltas balance find get
    do_currency do_transfer move_money pay add refusal fetch grown fetch_in init rehash index_owners
    mix conclude post_ledger post_to_ledger keep_result ledger_entry sink_entry reject_from_wallets
    ◌+ℤ◌ ◌-ℤ◌ probe bytes_eq try_begin begin_new insert_if_absent commit update
fifty_given = refl

abbrev retry : Request
retry = record { now = 90; later = 91; command = gold remove_currency 7 0 1 }

retry_valid : validate_command retry.command ≡ ok tt
unfolding validate_command is_complete currency_valid transfer_valid items_valid grant_valid
retry_valid = refl

run-Once_example :
    execute any
      (run any (execute any stored_system 0 1 (gold add_currency 7 0 1)).0 calls)
      90
      91
      retry.command
    ≡ (
      counted (run any (execute any stored_system 0 1 (gold add_currency 7 0 1)).0 calls),
      ok (replayed fifty),
    )
run-Once_example =
    run-Once any stored_system 0 1 (gold add_currency 7 0 1) fifty calls retry new_wallets-IsSound
      (omega arith) fifty_given refl retry_valid refl
