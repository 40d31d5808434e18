-- ===== src/Economy/System/Transfer.antt =====
-- economy_system.cpp: DoTransfer. The money goes first, and then the items, one delta at a time.
use cami.Common.{ℕ, List, [], ◌∷◌, Option, none, some, if◌then◌else◌}
use cami.Common.Int.{ℤ, pos, ◌-ℤ◌, magnitude}
use cami.Common.Errors.{ErrorCode, Result, ok, err, internal_error}
use cami.Inventory.System.{World, add_item}
use cami.Economy.Entry.{ItemDelta}
use cami.Economy.Idempotency.{EconomyResult}
use cami.Economy.Command.{EconomyCommand, is_positive}
use cami.Economy.Items.{remove_delta}
use cami.Economy.System.{
  EconomySystem, item_traded, reject, applied_result, with_inventory, wallet, held, pay, publish,
  emit_currency,
}
use cami.Economy.System.Operations.{Outcome, fetched}

-- What the money part leaves: the balance and the version of the result, or an early answer.
pub data Moved : Type 0 where
  goes_on : EconomySystem → ℤ → ℕ → Moved
  stops : Outcome → Moved

abbrev pub money_back :
    EconomyCommand → ℕ → ErrorCode → ℤ → EconomySystem × Result (Unit {0}) → Moved
money_back cmd from code before (s, err _) = stops (s, err internal_error)
money_back cmd from code before (s, ok _) = stops (s, reject code before (wallet s from).version)

-- The peer is told the amount as his new balance.
abbrev pub money_in : EconomyCommand → ℕ → ℤ → EconomySystem × Result (Unit {0}) → Moved
money_in cmd from before (s, err code) =
    money_back cmd from code before (pay s from cmd.currency cmd.amount)
money_in cmd from before (s, ok _) =
    let after = held s from cmd.currency in
    let told = emit_currency cmd.player cmd.currency (pos 0 -ℤ cmd.amount) after cmd.trace_id s in
    goes_on (emit_currency cmd.peer cmd.currency cmd.amount cmd.amount cmd.trace_id told) after
      (wallet s from).version

abbrev pub money_out : EconomyCommand → ℕ → ℕ → ℤ → EconomySystem × Result (Unit {0}) → Moved
money_out cmd from to before (s, err code) = stops (s, reject code before (wallet s from).version)
money_out cmd from to before (s, ok _) = money_in cmd from before (pay s to cmd.currency cmd.amount)

unfoldable pub move_money : EconomySystem → EconomyCommand → ℕ → ℕ → Moved
move_money s cmd from to =
    let before = held s from cmd.currency in
    if is_positive cmd.amount
    then money_out cmd from to before (pay s from cmd.currency (pos 0 -ℤ cmd.amount))
    else goes_on s before 0

-- One turn of the loop over the items: `none` lets it go on.
abbrev pub Turn : Type 0
Turn = EconomySystem × Option (Result EconomyResult)

abbrev pub given_back : EconomySystem → ErrorCode → ℤ → ℕ → World × Result ℕ → Turn
given_back s code balance version (w, err _) = (with_inventory s w, some (err internal_error))
given_back s code balance version (w, ok _) =
    (with_inventory s w, some (reject code balance version))

abbrev pub trade_in :
    EconomySystem → EconomyCommand → ItemDelta → ℕ → ℤ → ℕ → World × Result ℕ → Turn
trade_in s cmd d n balance version (w, err code) =
    given_back s code balance version (add_item w cmd.player d.def_id n)
trade_in s cmd d n balance version (w, ok _) =
    (publish (item_traded cmd.player cmd.peer d.def_id n cmd.trace_id) (with_inventory s w), none)

abbrev pub trade_out :
    EconomySystem → EconomyCommand → ItemDelta → ℕ → ℤ → ℕ → World × Result ℕ → Turn
trade_out s cmd d n balance version (w, err code) =
    (with_inventory s w, some (reject code balance version))
trade_out s cmd d n balance version (w, ok _) =
    trade_in s cmd d n balance version (add_item w cmd.peer d.def_id n)

unfoldable pub trade : EconomySystem → EconomyCommand → ℕ → ℤ → ItemDelta → Turn
trade s cmd from balance d =
    let n = magnitude d.count in
    trade_out s cmd d n balance (wallet s from).version (remove_delta s.inventory cmd.player d n)

unfoldable pub trade_all : EconomySystem → EconomyCommand → ℕ → ℤ → ℕ → List ItemDelta → Outcome
trade_all s cmd from balance version [] = (s, ok (applied_result [] balance version))
trade_all s cmd from balance version (d ∷ ds) =
    let turn = trade s cmd from balance d in
    let rest = trade_all turn.0 cmd from balance version ds in
    elim (turn.1) [ some answer ↦ (turn.0, answer) | none ↦ rest ]

abbrev pub trade_after : EconomyCommand → ℕ → Moved → Outcome
trade_after cmd from (stops answer) = answer
trade_after cmd from (goes_on s balance version) =
    trade_all s cmd from balance version cmd.item_deltas

unfoldable pub do_transfer : EconomySystem → EconomyCommand → Outcome
do_transfer s cmd =
    let (s1, from) = fetched s cmd.player in
    let (s2, to) = fetched s1 cmd.peer in trade_after cmd from (move_money s2 cmd from to)
