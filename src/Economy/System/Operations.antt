-- ===== src/Economy/System/Operations.antt =====
-- economy_system.cpp: DoCurrency and DoItems.
use cami.Common.{ℕ, List, [], ◌==◌, if◌then◌else◌}
use cami.Common.Int.{ℤ, pos, ◌-ℤ◌}
use cami.Common.Errors.{Result, ok, err}
use cami.Inventory.System.{World}
use cami.Economy.Idempotency.{EconomyResult}
use cami.Economy.Wallets.{fetch}
use cami.Economy.Command.{EconomyCommand, add_currency, add_items}
use cami.Economy.Items.{snapshot_guids, diff_new, add_all, remove_all}
use cami.Economy.System.{
  EconomySystem, reject, applied_result, with_wallets, with_inventory, wallet, held, pay, mint,
  burn, emit_currency,
}

abbrev pub Outcome : Type 0
Outcome = EconomySystem × Result EconomyResult

-- The wallet of a player, made if he has none: the system with it, and its index.
abbrev pub fetched : EconomySystem → ℕ → EconomySystem × ℕ
fetched s player = let (t, i) = fetch s.wallets player in (with_wallets s t, i)

abbrev pub count_money : EconomyCommand → EconomySystem → EconomySystem
count_money cmd s = if cmd.op == add_currency then mint cmd.amount s else burn cmd.amount s

abbrev pub finish_currency :
    EconomyCommand → ℕ → ℤ → ℤ → EconomySystem × Result (Unit {0}) → Outcome
finish_currency cmd i delta before (s, err code) = (s, reject code before (wallet s i).version)
finish_currency cmd i delta before (s, ok _) =
    let after = held s i cmd.currency in
    (
      emit_currency cmd.player cmd.currency delta after cmd.trace_id (count_money cmd s),
      ok (applied_result [] after (wallet s i).version),
    )

unfoldable pub do_currency : EconomySystem → EconomyCommand → Outcome
do_currency s cmd =
    let (s', i) = fetched s cmd.player in
    let delta = if cmd.op == add_currency then cmd.amount else pos 0 -ℤ cmd.amount in
    finish_currency cmd i delta (held s' i cmd.currency) (pay s' i cmd.currency delta)

abbrev pub finish_items : EconomySystem → ℕ → ℤ → List ℕ → World × Result (Unit {0}) → Outcome
finish_items s i before guids (w, err code) =
    (with_inventory s w, reject code before (wallet s i).version)
finish_items s i before guids (w, ok _) =
    (with_inventory s w, ok (applied_result guids before (wallet s i).version))

unfoldable pub do_items : EconomySystem → EconomyCommand → Outcome
do_items s cmd =
    let (s', i) = fetched s cmd.player in
    let before = held s' i cmd.currency in
    if cmd.op == add_items
    then (let old = snapshot_guids s'.inventory cmd.player in
        let done = add_all s'.inventory cmd.player [] cmd.item_deltas in
        finish_items s' i before (diff_new old (snapshot_guids done.0 cmd.player)) done)
    else finish_items s' i before [] (remove_all s'.inventory cmd.player [] cmd.item_deltas)
