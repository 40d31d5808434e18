-- ===== src/Economy/System/TransferEffects.antt =====
-- What DoTransfer does to the balances of all players.
use cami.Common.{
  ℕ, ◌≡◌, refl, sym, subst, ◌∙◌, ◌≢◌, ◌⊎◌, inl, inr, List, [], ◌∷◌, true, false, some,
  if◌then◌else◌, Bool-cases,
}
use cami.Common.Int.{ℤ, pos, ◌-ℤ◌}
use cami.Common.Errors.{Result, ok}
use cami.Economy.Entry.{ItemDelta}
use cami.Economy.Wallets.{WalletTable, find}
use cami.Economy.Wallets.Fetch.{fetch-Fetched}
use cami.Economy.Command.{EconomyCommand, is_empty, is_positive}
use cami.Economy.System.{EconomySystem, with_wallets, pay, held}
use cami.Economy.System.Operations.{Outcome, fetched}
use cami.Economy.System.Transfer.{
  Moved, goes_on, stops, trade_all, trade_after, money_back, money_in, money_out, move_money,
  do_transfer,
}
use cami.Economy.System.Books.{Charge, IsSound, Booked, add_zero}
use cami.Economy.System.Payments.{Booked-step, pay-cases}
use cami.Economy.System.Effects.{charge}
use cami.Economy.System.Settling.{
  Settled, took, issued, Settled-none, Settled-quiet, Settled-after, fetched-Settled,
}
use cami.Economy.System.Undo.{taken_back}
use cami.Economy.System.Trades.{back_inverse, nothing_issued, trade_all-Settled}

abbrev pub transfer_charges : EconomyCommand → List Charge
transfer_charges cmd =
    if is_positive cmd.amount
    then charge cmd.peer cmd.currency cmd.amount
      ∷ charge cmd.player cmd.currency (pos 0 -ℤ cmd.amount)
      ∷ []
    else []

-- The money is booked from the one to the other, or the command is refused and nothing is.
abbrev MoneyDone : EconomySystem → List Charge → Moved → Type 0
MoneyDone s es (goes_on u balance version) = Settled s u es
MoneyDone s es (stops o) = (took o.1 ≡ false) × Settled s o.0 []

module _ (s : EconomySystem) (cmd : EconomyCommand) (from to : ℕ) (before : ℤ)
    (sound : IsSound s.wallets) (payer : find s.wallets cmd.player ≡ some from)
    (payee : find s.wallets cmd.peer ≡ some to) where
  abbrev out : Charge
  out = charge cmd.player cmd.currency (pos 0 -ℤ cmd.amount)

  abbrev both : List Charge
  both = charge cmd.peer cmd.currency cmd.amount ∷ out ∷ []

  money_in-Done :
      (t : WalletTable)
      → pay s from cmd.currency (pos 0 -ℤ cmd.amount) ≡ (with_wallets s t, ok tt)
      → Booked s.wallets t (out ∷ [])
      → ((p : ℕ) → find t p ≡ find s.wallets p)
      → MoneyDone s both
          (money_in cmd from before (pay (with_wallets s t) to cmd.currency cmd.amount))
  money_in-Done t paid booked same =
      let u = with_wallets s t in
      let P : EconomySystem × Result (Unit {0}) → Type 0 =
        λ a. MoneyDone s both (money_in cmd from before a) in
      elim (pay-cases u to cmd.currency cmd.peer cmd.amount booked.sound (same cmd.peer ∙ payee)) [
        | inl (code, refused) ↦
            let (v, again, none_booked) =
              taken_back s u from cmd.currency cmd.player (pos 0 -ℤ cmd.amount) cmd.amount t sound
                payer paid booked (same cmd.player ∙ payer) refl (back_inverse cmd.amount) in
            subst P (sym refused) (
              subst (λ a. MoneyDone s both (money_back cmd from code before a)) (sym again)
                (
                  refl,
                  record {
                    booked = none_booked;
                    issue = sym (add_zero (issued s));
                    idem = refl;
                    results = refl;
                    ledger = refl;
                    ttl = refl;
                  },
                ))
        | inr (v, given, later, _) ↦ subst P (sym given) (record {
          booked =
              Booked-step s.wallets t v (out ∷ []) (charge cmd.peer cmd.currency cmd.amount) booked
                later;
          issue = nothing_issued (issued s) cmd.amount;
          idem = refl;
          results = refl;
          ledger = refl;
          ttl = refl;
        })
      ]

  money_out-Done :
      MoneyDone s both
        (money_out cmd from to before (pay s from cmd.currency (pos 0 -ℤ cmd.amount)))
  money_out-Done =
      let P : EconomySystem × Result (Unit {0}) → Type 0 =
        λ a. MoneyDone s both (money_out cmd from to before a) in
      elim (pay-cases s from cmd.currency cmd.player (pos 0 -ℤ cmd.amount) sound payer) [
        | inl (code, refused) ↦ subst P (sym refused) (refl, Settled-none s sound)
        | inr (t, paid, booked, same) ↦ subst P (sym paid) (money_in-Done t paid booked same)
      ]

move_money-Done :
    (s : EconomySystem) (cmd : EconomyCommand) (from to : ℕ)
    → IsSound s.wallets
    → find s.wallets cmd.player ≡ some from
    → find s.wallets cmd.peer ≡ some to
    → MoneyDone s (transfer_charges cmd) (move_money s cmd from to)
unfolding move_money
move_money-Done s cmd from to sound payer payee = elim (Bool-cases (is_positive cmd.amount)) [
  | inl rich ↦
      rw (rich, move_money, transfer_charges)
        (money_out-Done s cmd from to (held s from cmd.currency) sound payer payee)
  | inr broke ↦ rw (broke, move_money, transfer_charges) (Settled-none s sound)
]

-- A transfer took effect and booked the charges, or it did not and booked nothing; or it did not,
-- and the money had moved before an item could not.
abbrev pub TransferEffect : EconomySystem → EconomyCommand → Outcome → Type 0
TransferEffect s cmd o =
    ((took o.1 ≡ true) × Settled s o.0 (transfer_charges cmd))
    ⊎ ((took o.1 ≡ false) × Settled s o.0 [])
    ⊎ ((took o.1 ≡ false)
        × Settled s o.0 (transfer_charges cmd)
        × (is_empty cmd.item_deltas ≡ false))

trade_all-took :
    (s : EconomySystem) (cmd : EconomyCommand) (from : ℕ) (balance : ℤ) (version : ℕ)
    (ds : List ItemDelta)
    → (took (trade_all s cmd from balance version ds).1 ≡ true)
      ⊎ ((took (trade_all s cmd from balance version ds).1 ≡ false) × (is_empty ds ≡ false))
unfolding trade_all
trade_all-took s cmd from balance version [] = inl refl
trade_all-took s cmd from balance version (d ∷ ds) =
    elim (Bool-cases (took (trade_all s cmd from balance version (d ∷ ds)).1)) [
      | inl done ↦ inl done
      | inr undone ↦ inr (undone, refl)
    ]

trade_after-Effect :
    (s : EconomySystem) (cmd : EconomyCommand) (from : ℕ) (m : Moved)
    → MoneyDone s (transfer_charges cmd) m
    → TransferEffect s cmd (trade_after cmd from m)
trade_after-Effect s cmd from (stops o) (undone, settled) = inr (inl (undone, settled))
trade_after-Effect s cmd from (goes_on u balance version) settled =
    let o = trade_all u cmd from balance version cmd.item_deltas in
    let all =
      Settled-quiet s u o.0 (transfer_charges cmd) settled
        (trade_all-Settled u cmd from balance version cmd.item_deltas settled.booked.sound) in
    elim (trade_all-took u cmd from balance version cmd.item_deltas) [
      | inl done ↦ inl (done, all)
      | inr (undone, items) ↦ inr (inr (undone, all, items))
    ]

TransferEffect-from :
    (s t : EconomySystem) (cmd : EconomyCommand) (o : Outcome)
    → ((u : EconomySystem) (es : List Charge) → Settled t u es → Settled s u es)
    → TransferEffect t cmd o
    → TransferEffect s cmd o
TransferEffect-from s t cmd o lift (inl (done, later)) = inl (done, lift o.0 _ later)
TransferEffect-from s t cmd o lift (inr (inl (undone, later))) =
    inr (inl (undone, lift o.0 _ later))
TransferEffect-from s t cmd o lift (inr (inr (undone, later, items))) =
    inr (inr (undone, lift o.0 _ later, items))

-- DoTransfer between two players.
pub do_transfer-Effect :
    (s : EconomySystem) (cmd : EconomyCommand)
    → IsSound s.wallets
    → cmd.player ≢ 0
    → cmd.peer ≢ 0
    → cmd.peer ≢ cmd.player
    → TransferEffect s cmd (do_transfer s cmd)
unfolding do_transfer
do_transfer-Effect s cmd sound real peer_real apart =
    let f = fetched-Settled s cmd.player sound real in
    let (t, from) = fetched s cmd.player in
    let g = fetched-Settled t cmd.peer f.0.booked.sound peer_real in
    let (u, to) = fetched t cmd.peer in
    let payer : find u.wallets cmd.player ≡ some from =
      (fetch-Fetched t.wallets cmd.peer f.0.booked.sound.0 peer_real).others cmd.player apart
      ∙ f.1 in
    let steps = Settled-quiet s t u [] f.0 g.0 in
    TransferEffect-from s u cmd (trade_after cmd from (move_money u cmd from to))
      (λ v es later. Settled-after s u v es steps later)
      (trade_after-Effect u cmd from (move_money u cmd from to)
        (move_money-Done u cmd from to g.0.booked.sound payer g.1))
