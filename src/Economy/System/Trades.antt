-- ===== src/Economy/System/Trades.antt =====
-- The loop of DoTransfer over the items moves no money.
use cami.Common.{ℕ, ◌≡◌, refl, sym, inl, inr, List, [], ◌∷◌, Option-cases}
use cami.Common.Int.{ℤ, pos, ◌+ℤ◌, ◌-ℤ◌, magnitude, int_laws}
use cami.Common.Errors.{ErrorCode, Result, ok, err}
use cami.Inventory.System.{World, add_item}
use cami.Economy.Entry.{ItemDelta}
use cami.Economy.Command.{EconomyCommand}
use cami.Economy.Items.{remove_delta}
use cami.Economy.System.{EconomySystem, EconomyEvent, with_inventory, publish, wallet}
use cami.Economy.System.Transfer.{given_back, trade_in, trade_out, trade, trade_all}
use cami.Economy.System.Books.{IsSound, Booked-none, add_zero}
use cami.Economy.System.Settling.{Settled, issued, bag-Settled, Settled-none, Settled-quiet}

pub back_inverse : (a : ℤ) → a +ℤ (pos 0 -ℤ a) ≡ pos 0
back_inverse a = omega int_laws

pub nothing_issued : (m a : ℤ) → m ≡ m +ℤ (a +ℤ ((pos 0 -ℤ a) +ℤ pos 0))
nothing_issued m a = omega int_laws

told-Settled :
    (s : EconomySystem) (w : World) (e : EconomyEvent)
    → IsSound s.wallets
    → Settled s (publish e (with_inventory s w)) []
told-Settled s w e sound = record {
  booked = Booked-none s.wallets sound;
  issue = sym (add_zero (issued s));
  idem = refl;
  results = refl;
  ledger = refl;
  ttl = refl;
}

given_back-Settled :
    (s : EconomySystem) (code : ErrorCode) (balance : ℤ) (version : ℕ) (r : World × Result ℕ)
    → IsSound s.wallets
    → Settled s (given_back s code balance version r).0 []
given_back-Settled s code balance version (w, ok _) sound = bag-Settled s w sound
given_back-Settled s code balance version (w, err _) sound = bag-Settled s w sound

trade_in-Settled :
    (s : EconomySystem) (cmd : EconomyCommand) (d : ItemDelta) (n : ℕ) (balance : ℤ) (version : ℕ)
    (r : World × Result ℕ)
    → IsSound s.wallets
    → Settled s (trade_in s cmd d n balance version r).0 []
trade_in-Settled s cmd d n balance version (w, ok _) sound = told-Settled s w _ sound
trade_in-Settled s cmd d n balance version (w, err code) sound =
    given_back-Settled s code balance version (add_item w cmd.player d.def_id n) sound

trade_out-Settled :
    (s : EconomySystem) (cmd : EconomyCommand) (d : ItemDelta) (n : ℕ) (balance : ℤ) (version : ℕ)
    (r : World × Result ℕ)
    → IsSound s.wallets
    → Settled s (trade_out s cmd d n balance version r).0 []
trade_out-Settled s cmd d n balance version (w, err code) sound = bag-Settled s w sound
trade_out-Settled s cmd d n balance version (w, ok _) sound =
    trade_in-Settled s cmd d n balance version (add_item w cmd.peer d.def_id n) sound

trade-Settled :
    (s : EconomySystem) (cmd : EconomyCommand) (from : ℕ) (balance : ℤ) (d : ItemDelta)
    → IsSound s.wallets
    → Settled s (trade s cmd from balance d).0 []
unfolding trade
trade-Settled s cmd from balance d sound =
    trade_out-Settled s cmd d (magnitude d.count) balance (wallet s from).version
      (remove_delta s.inventory cmd.player d (magnitude d.count)) sound

pub trade_all-Settled :
    (s : EconomySystem) (cmd : EconomyCommand) (from : ℕ) (balance : ℤ) (version : ℕ)
    (ds : List ItemDelta)
    → IsSound s.wallets
    → Settled s (trade_all s cmd from balance version ds).0 []
unfolding trade_all
trade_all-Settled s cmd from balance version [] sound = Settled-none s sound
trade_all-Settled s cmd from balance version (d ∷ ds) sound =
    let one = trade-Settled s cmd from balance d sound in
    elim (Option-cases (trade s cmd from balance d).1) [
      | inl more ↦
          rw (more, trade_all)
            (Settled-quiet s (trade s cmd from balance d).0
              (trade_all (trade s cmd from balance d).0 cmd from balance version ds).0 [] one
              (trade_all-Settled (trade s cmd from balance d).0 cmd from balance version ds
                one.booked.sound))
      | inr (answer, over) ↦ rw (over, trade_all) one
    ]
