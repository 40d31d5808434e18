-- ===== src/Economy/System/History.antt =====
-- Calls of EconomySystem::Execute one after the other, and the balance of the books.
use cami.Common.{ℕ, ◌≡◌, ◌≤◌, sym, ap, ◌∙◌, inl, inr, List, [], ◌∷◌, Bool, true, leb, arith}
use cami.Common.Int.{pos, ◌+ℤ◌}
use cami.Economy.Wallet.{max_balance}
use cami.Economy.Wallets.{sum_all_balances}
use cami.Economy.Wallets.Sum.{sum_all_balances-sum}
use cami.Economy.Command.{EconomyCommand}
use cami.Economy.System.{EconomySystem, SinkEntry}
use cami.Economy.System.Execute.{execute}
use cami.Economy.System.Books.{Charge, sum_of, IsSound, money}
use cami.Economy.System.Settling.{issued}
use cami.Economy.System.Money.{charges_of}
use cami.Economy.System.Conservation.{execute-Executed}
use cami.Economy.System.Unmoved.{Changed}

-- A call of Execute with the two readings of the clock.
pub record Request : Type 0 where
  pub now : ℕ
  pub later : ℕ
  pub command : EconomyCommand

-- The wallets are in order, and hold together what was minted less what was burned.
abbrev pub Balances : EconomySystem → Type 0
Balances s = IsSound s.wallets × (pos (money s.wallets) ≡ issued s)

Changed-Balances :
    (s u : EconomySystem) (es : List Charge) → Changed s u es → Balances s → Balances u
Changed-Balances s u es (booked, grown) (sound, even) =
    (booked.sound, booked.total ∙ ap (λ m. m +ℤ sum_of es) even ∙ sym grown)

module _ (accepts : List SinkEntry → SinkEntry → Bool) where
  abbrev pub run : EconomySystem → List Request → EconomySystem
  run s [] = s
  run s (r ∷ rs) = run (execute accepts s r.now r.later r.command).0 rs

  execute-Balances :
      (s : EconomySystem) (now later : ℕ) (cmd : EconomyCommand)
      → Balances s
      → Balances (execute accepts s now later cmd).0
  execute-Balances s now later cmd even =
      let u = (execute accepts s now later cmd).0 in
      elim (execute-Executed accepts s now later cmd even.0) [
        | inl (none, answer) ↦ Changed-Balances s u [] none even
        | inr (all, answer) ↦ Changed-Balances s u (charges_of s cmd) all even
      ]

  -- The books stay even: over any calls of Execute, whatever they ask for and whatever the
  -- idempotency store, the ledger and the sink answer, a system whose wallets are in order and hold
  -- what was minted less what was burned keeps both, so that no balance is ever negative or above
  -- the bound and no money is made or lost.
  pub run-Balances : (rs : List Request) (s : EconomySystem) → Balances s → Balances (run s rs)
  run-Balances [] s even = even
  run-Balances (r ∷ rs) s even =
      run-Balances rs (execute accepts s r.now r.later r.command).0
        (execute-Balances s r.now r.later r.command even)

  -- What SumAllBalances is for: after any calls of Execute it answers exactly what was minted less
  -- what was burned, as long as all the money together is not above the bound of one balance.
  pub run-total_balance :
      (rs : List Request) (s : EconomySystem)
      → Balances s
      → money (run s rs).wallets ≤ max_balance
      → sum_all_balances (run s rs).wallets ≡ issued (run s rs)
  run-total_balance rs s even small =
      let (sound, balanced) = run-Balances rs s even in
      sum_all_balances-sum (run s rs).wallets sound.1
      ∙ rw
          (let yes : leb (money (run s rs).wallets) max_balance ≡ true = ground (arith, small) in
            yes)
          balanced
