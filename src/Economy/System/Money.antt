-- ===== src/Economy/System/Money.antt =====
-- The switch of Execute: what each operation books.
use cami.Common.{
  ◌≡◌, refl, ◌≢◌, ◌⊎◌, inl, inr, List, [], ◌∷◌, true, false, arith, ◌||◌, ◌==◌, if◌then◌else◌,
  Bool-cases,
}
use cami.Common.Errors.{ok}
use cami.Economy.Command.{
  EconomyCommand, add_currency, remove_currency, add_items, remove_items, transfer, purchase,
  reward, refund, is_empty, is_complete, transfer_valid, validate_command,
}
use cami.Economy.Items.{add_all, refund_all}
use cami.Economy.System.{EconomySystem}
use cami.Economy.System.Operations.{Outcome, do_currency, do_items}
use cami.Economy.System.Transfer.{do_transfer}
use cami.Economy.System.Grants.{do_purchase, do_reward, do_refund}
use cami.Economy.System.Execute.{dispatch}
use cami.Economy.System.Books.{Charge, IsSound}
use cami.Economy.System.Effects.{charge, currency_delta, do_currency-Effect, do_items-Effect}
use cami.Economy.System.Settling.{Settled, Effect, took, Settled-none}
use cami.Economy.System.PurchaseEffects.{purchase_charges, do_purchase-Effect}
use cami.Economy.System.GrantEffects.{grant_charges, grant-Effect}
use cami.Economy.System.TransferEffects.{transfer_charges, TransferEffect, do_transfer-Effect}

-- What a command books if it takes effect.
abbrev pub charges_of : EconomySystem → EconomyCommand → List Charge
charges_of s cmd =
    if cmd.op == add_currency || cmd.op == remove_currency
    then charge cmd.player cmd.currency (currency_delta cmd) ∷ []
    else if cmd.op == add_items || cmd.op == remove_items
    then []
    else if cmd.op == transfer
    then transfer_charges cmd
    else if cmd.op == purchase
    then purchase_charges s cmd
    else if cmd.op == reward
    then grant_charges cmd
    else if cmd.op == refund
    then grant_charges cmd
    else []

-- A transfer of money with items.
abbrev pub IsMixed : EconomyCommand → Type 0
IsMixed cmd = (cmd.op ≡ transfer) × (is_empty cmd.item_deltas ≡ false)

abbrev pub Dispatched : EconomySystem → EconomyCommand → Outcome → List Charge → Type 0
Dispatched s cmd o es =
    ((took o.1 ≡ true) × Settled s o.0 es)
    ⊎ ((took o.1 ≡ false) × Settled s o.0 [])
    ⊎ ((took o.1 ≡ false) × Settled s o.0 es × IsMixed cmd)

simply :
    (s : EconomySystem) (cmd : EconomyCommand) (o : Outcome) (es : List Charge)
    → Effect s o es
    → Dispatched s cmd o es
simply s cmd o es (inl h) = inl h
simply s cmd o es (inr h) = inr (inl h)

mixed :
    (s : EconomySystem) (cmd : EconomyCommand) (o : Outcome)
    → cmd.op ≡ transfer
    → TransferEffect s cmd o
    → Dispatched s cmd o (transfer_charges cmd)
mixed s cmd o is (inl h) = inl h
mixed s cmd o is (inr (inl h)) = inr (inl h)
mixed s cmd o is (inr (inr (undone, settled, items))) = inr (inr (undone, settled, (is, items)))

valid_player : (cmd : EconomyCommand) → validate_command cmd ≡ ok tt → cmd.player ≢ 0
unfolding validate_command is_complete
valid_player cmd valid zero_player = ground (arith, valid, zero_player)

valid_peer :
    (cmd : EconomyCommand)
    → validate_command cmd ≡ ok tt
    → cmd.op ≡ transfer
    → (cmd.peer ≢ 0) × (cmd.peer ≢ cmd.player)
unfolding validate_command transfer_valid
valid_peer cmd valid is = ((λ e. ground (arith, valid, is, e)), (λ e. ground (arith, valid, is, e)))

pub dispatch-Dispatched :
    (s : EconomySystem) (cmd : EconomyCommand)
    → IsSound s.wallets
    → validate_command cmd ≡ ok tt
    → Dispatched s cmd (dispatch s cmd) (charges_of s cmd)
unfolding dispatch do_reward do_refund
dispatch-Dispatched s cmd sound valid =
    let real = valid_player cmd valid in
    elim (Bool-cases (cmd.op == add_currency || cmd.op == remove_currency)) [
      | inl is ↦ rw is (simply s cmd (do_currency s cmd) _ (do_currency-Effect s cmd sound real))
      | inr no1 ↦ rw no1 (elim (Bool-cases (cmd.op == add_items || cmd.op == remove_items)) [
        | inl is ↦ rw is (simply s cmd (do_items s cmd) [] (do_items-Effect s cmd sound real))
        | inr no2 ↦ rw no2 (elim (Bool-cases (cmd.op == transfer)) [
          | inl is ↦
              let op : cmd.op ≡ transfer = ground (arith, is) in
              let peer = valid_peer cmd valid op in
              rw is (
                mixed s cmd (do_transfer s cmd) op
                  (do_transfer-Effect s cmd sound real peer.0 peer.1))
          | inr no3 ↦ rw no3 (elim (Bool-cases (cmd.op == purchase)) [
            | inl is ↦
                rw is (simply s cmd (do_purchase s cmd) _ (do_purchase-Effect s cmd sound real))
            | inr no4 ↦ rw no4 (elim (Bool-cases (cmd.op == reward)) [
              | inl is ↦
                  rw is (simply s cmd (do_reward s cmd) _ (grant-Effect add_all s cmd sound real))
              | inr no5 ↦ rw no5 (elim (Bool-cases (cmd.op == refund)) [
                | inl is ↦
                    rw is
                      (simply s cmd (do_refund s cmd) _ (grant-Effect refund_all s cmd sound real))
                | inr no6 ↦ rw no6 (inr (inl (refl, Settled-none s sound)))
              ])
            ])
          ])
        ])
      ])
    ]
