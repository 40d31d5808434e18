-- ===== src/Economy/System/Grants.antt =====
-- economy_system.cpp: DoPurchase, DoReward and DoRefund, which give items with or for money.
use cami.Common.{ℕ, List, [], ◌∷◌, not, none, some, if◌then◌else◌}
use cami.Common.Int.{ℤ, pos, ◌-ℤ◌}
use cami.Common.Errors.{
  ErrorCode, Result, ok, err, not_found, invalid_argument, busy, internal_error,
}
use cami.Inventory.System.{World}
use cami.Economy.Entry.{ItemDelta}
use cami.Economy.Prices.{PriceEntry, allows, total, find_price}
use cami.Economy.Command.{EconomyCommand, is_empty, is_positive}
use cami.Economy.Items.{snapshot_guids, diff_new, add_delta, added_count, add_all, refund_all}
use cami.Economy.System.{
  EconomySystem, purchase_completed, reject, applied_result, with_inventory, wallet, held, pay,
  mint, unmint, burn, publish, emit_currency,
}
use cami.Economy.System.Operations.{Outcome, fetched}

-- `item_deltas.front()`; ValidateCommand lets a purchase through with one delta only.
abbrev pub front : List ItemDelta → ItemDelta
front [] = record { def_id = 0; count = pos 0; guid = 0 }
front (d ∷ ds) = d

-- A refusal before anything is paid.
unfoldable pub refuse_purchase : EconomySystem → ℕ → ℕ → ErrorCode → Outcome
refuse_purchase s player currency code =
    let (s', i) = fetched s player in (s', reject code (held s' i currency) (wallet s' i).version)

abbrev pub paid_back : ℕ → ErrorCode → ℤ → EconomySystem × Result (Unit {0}) → Outcome
paid_back i code before (s, err _) = (s, err internal_error)
paid_back i code before (s, ok _) = (s, reject code before (wallet s i).version)

abbrev pub finish_purchase :
    EconomySystem → EconomyCommand → ItemDelta → ℕ → ℕ → ℤ → ℤ → List ℕ → World × Result ℕ → Outcome
finish_purchase s cmd d i currency price before old (w, err code) =
    paid_back i code before (pay (with_inventory s w) i currency price)
finish_purchase s cmd d i currency price before old (w, ok _) =
    let after = held s i currency in
    let paid = burn price (with_inventory s w) in
    let told = emit_currency cmd.player currency (pos 0 -ℤ price) after cmd.trace_id paid in
    (
      publish (purchase_completed cmd.player d.def_id (added_count d) currency price cmd.trace_id)
          told,
      ok (applied_result (diff_new old (snapshot_guids w cmd.player)) after (wallet s i).version),
    )

abbrev pub hand_over :
    EconomyCommand → ItemDelta → ℕ → ℕ → ℤ → ℤ → EconomySystem × Result (Unit {0}) → Outcome
hand_over cmd d i currency price before (s, err code) = (s, reject code before (wallet s i).version)
hand_over cmd d i currency price before (s, ok _) =
    finish_purchase s cmd d i currency price before (snapshot_guids s.inventory cmd.player)
      (add_delta s.inventory cmd.player d)

-- The payment, and what is bought.
unfoldable pub buy : EconomySystem → EconomyCommand → ItemDelta → ℕ → ℤ → Outcome
buy s cmd d currency price =
    let (s', i) = fetched s cmd.player in
    hand_over cmd d i currency price (held s' i currency) (pay s' i currency (pos 0 -ℤ price))

unfoldable pub buy_at : EconomySystem → EconomyCommand → ItemDelta → PriceEntry → Outcome
buy_at s cmd d p =
    if not (allows p (added_count d))
    then refuse_purchase s cmd.player p.currency invalid_argument
    else elim (total p (added_count d)) [
      | none ↦ refuse_purchase s cmd.player p.currency busy
      | some price ↦ buy s cmd d p.currency price
    ]

unfoldable pub do_purchase : EconomySystem → EconomyCommand → Outcome
do_purchase s cmd = elim (find_price s.prices (front cmd.item_deltas).def_id) [
  | none ↦ refuse_purchase s cmd.player cmd.currency not_found
  | some p ↦ buy_at s cmd (front cmd.item_deltas) p
]

-- The money that was given is taken back; `total_minted` follows only if that works.
abbrev pub take_back : ℤ → EconomySystem × Result (Unit {0}) → EconomySystem
take_back amount (s, err _) = s
take_back amount (s, ok _) = unmint amount s

unfoldable pub undo_money : EconomySystem → EconomyCommand → ℕ → EconomySystem
undo_money s cmd i =
    if is_positive cmd.amount
    then take_back cmd.amount (pay s i cmd.currency (pos 0 -ℤ cmd.amount))
    else s

abbrev pub announce : EconomyCommand → ℤ → EconomySystem → EconomySystem
announce cmd after s =
    if is_positive cmd.amount
    then emit_currency cmd.player cmd.currency cmd.amount after cmd.trace_id s
    else s

-- The end of both, when the loop over the deltas is done.
abbrev pub finish_grant :
    EconomySystem → EconomyCommand → ℕ → ℤ → List ℕ → World × Result (Unit {0}) → Outcome
finish_grant s cmd i before old (w, err code) =
    let s' = undo_money (with_inventory s w) cmd i in (s', reject code before (wallet s' i).version)
finish_grant s cmd i before old (w, ok _) =
    let after = held s i cmd.currency in
    let guids =
      if is_empty cmd.item_deltas then [] else diff_new old (snapshot_guids w cmd.player) in
    (announce cmd after (with_inventory s w), ok (applied_result guids after (wallet s i).version))

-- DoReward and DoRefund are one text but for what they do with the deltas.
abbrev pub Granting : Type 0
Granting = World → ℕ → List ItemDelta → List ItemDelta → World × Result (Unit {0})

unfoldable pub grant_items : Granting → EconomySystem → EconomyCommand → ℕ → ℤ → Outcome
grant_items all s cmd i before =
    finish_grant s cmd i before (snapshot_guids s.inventory cmd.player)
      (all s.inventory cmd.player [] cmd.item_deltas)

abbrev pub grant_rest :
    Granting → EconomyCommand → ℕ → ℤ → EconomySystem × Result (Unit {0}) → Outcome
grant_rest all cmd i before (s, err code) = (s, reject code before (wallet s i).version)
grant_rest all cmd i before (s, ok _) = grant_items all (mint cmd.amount s) cmd i before

unfoldable pub grant : Granting → EconomySystem → EconomyCommand → Outcome
grant all s cmd =
    let (s', i) = fetched s cmd.player in
    let before = held s' i cmd.currency in
    if is_positive cmd.amount
    then grant_rest all cmd i before (pay s' i cmd.currency cmd.amount)
    else grant_items all s' cmd i before

unfoldable pub do_reward : EconomySystem → EconomyCommand → Outcome
do_reward s cmd = grant add_all s cmd

unfoldable pub do_refund : EconomySystem → EconomyCommand → Outcome
do_refund s cmd = grant refund_all s cmd
