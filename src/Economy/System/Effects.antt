-- ===== src/Economy/System/Effects.antt =====
-- What DoCurrency and DoItems do to the balances of all players, the money issued among them.
use cami.Common.{
  ℕ, ◌≡◌, refl, sym, subst, ◌≢◌, inl, inr, List, [], ◌∷◌, some, ◌==◌, if◌then◌else◌, Bool-cases,
}
use cami.Common.Int.{ℤ, pos, ◌+ℤ◌, ◌-ℤ◌, int_laws}
use cami.Common.Errors.{Result, ok, err}
use cami.Inventory.System.{World}
use cami.Economy.Wallets.{find}
use cami.Economy.Command.{EconomyCommand, add_currency, add_items}
use cami.Economy.System.{EconomySystem, with_wallets, with_inventory, pay, held}
use cami.Economy.System.Operations.{
  Outcome, fetched, count_money, finish_currency, finish_items, do_currency, do_items,
}
use cami.Economy.System.Books.{Charge, IsSound, Booked}
use cami.Economy.System.Payments.{pay-cases}
use cami.Economy.System.Settling.{
  issued, Settled, Effect, bag-Settled, Settled-none, fetched-Settled, Settled-quiet, Settled-after,
}

currency_mints : (m b a : ℤ) → (m +ℤ a) -ℤ b ≡ (m -ℤ b) +ℤ (a +ℤ pos 0)
currency_mints m b a = omega int_laws

currency_burns : (m b a : ℤ) → m -ℤ (b +ℤ a) ≡ (m -ℤ b) +ℤ ((pos 0 -ℤ a) +ℤ pos 0)
currency_burns m b a = omega int_laws

abbrev pub charge : ℕ → ℕ → ℤ → Charge
charge player currency amount = record { player = player; currency = currency; amount = amount }

abbrev pub currency_delta : EconomyCommand → ℤ
currency_delta cmd = if cmd.op == add_currency then cmd.amount else pos 0 -ℤ cmd.amount

count_money-issued :
    (cmd : EconomyCommand) (s : EconomySystem)
    → (issued (count_money cmd s) ≡ issued s +ℤ (currency_delta cmd +ℤ pos 0))
      × ((count_money cmd s).wallets ≡ s.wallets)
      × ((count_money cmd s).idem ≡ s.idem)
      × ((count_money cmd s).idempotency ≡ s.idempotency)
      × ((count_money cmd s).ledger ≡ s.ledger)
      × ((count_money cmd s).idem_ttl ≡ s.idem_ttl)
count_money-issued cmd s = elim (Bool-cases (cmd.op == add_currency)) [
  | inl add ↦ rw add (
    currency_mints s.stats.total_minted s.stats.total_burned cmd.amount,
    refl,
    refl,
    refl,
    refl,
    refl,
  )
  | inr remove ↦ rw remove (
    currency_burns s.stats.total_minted s.stats.total_burned cmd.amount,
    refl,
    refl,
    refl,
    refl,
    refl,
  )
]

finish_currency-Effect :
    (s : EconomySystem) (cmd : EconomyCommand) (i : ℕ) (before : ℤ)
    → IsSound s.wallets
    → find s.wallets cmd.player ≡ some i
    → Effect s
        (finish_currency cmd i
          (currency_delta cmd)
          before
          (pay s i cmd.currency (currency_delta cmd)))
        (charge cmd.player cmd.currency (currency_delta cmd) ∷ [])
finish_currency-Effect s cmd i before sound hers =
    let delta = currency_delta cmd in
    let es = charge cmd.player cmd.currency delta ∷ [] in
    let P : EconomySystem × Result (Unit {0}) → Type 0 =
      λ a. Effect s (finish_currency cmd i delta before a) es in
    elim (pay-cases s i cmd.currency cmd.player delta sound hers) [
      | inl (code, refused) ↦ subst P (sym refused) (inr (refl, Settled-none s sound))
      | inr (t, paid, booked, same) ↦
          let count = count_money-issued cmd (with_wallets s t) in
          subst P (sym paid) (
            inl (
              refl,
              record {
                booked = subst (λ v. Booked s.wallets v es) (sym count.1) booked;
                issue = count.0;
                idem = count.2;
                results = count.3;
                ledger = count.4;
                ttl = count.5;
              },
            ))
    ]

pub Effect-from :
    (s t : EconomySystem) (o : Outcome) (es : List Charge)
    → Settled s t []
    → Effect t o es
    → Effect s o es
Effect-from s t o es first (inl (done, later)) = inl (done, Settled-after s t o.0 es first later)
Effect-from s t o es first (inr (undone, later)) =
    inr (undone, Settled-after s t o.0 [] first later)

-- DoCurrency books the amount for the player, or refuses.
pub do_currency-Effect :
    (s : EconomySystem) (cmd : EconomyCommand)
    → IsSound s.wallets
    → cmd.player ≢ 0
    → Effect s (do_currency s cmd) (charge cmd.player cmd.currency (currency_delta cmd) ∷ [])
unfolding do_currency
do_currency-Effect s cmd sound real =
    let f = fetched-Settled s cmd.player sound real in
    let (t, i) = fetched s cmd.player in
    Effect-from s t
      (finish_currency cmd i (currency_delta cmd) (held t i cmd.currency)
        (pay t i cmd.currency (currency_delta cmd)))
      (charge cmd.player cmd.currency (currency_delta cmd) ∷ []) f.0
      (finish_currency-Effect t cmd i (held t i cmd.currency) f.0.booked.sound f.1)

finish_items-Effect :
    (s t : EconomySystem) (i : ℕ) (before : ℤ) (guids : List ℕ) (r : World × Result (Unit {0}))
    → Settled s t []
    → Effect s (finish_items t i before guids r) []
finish_items-Effect s t i before guids (w, ok _) settled =
    inl (
      refl,
      Settled-quiet s t (with_inventory t w) [] settled (bag-Settled t w settled.booked.sound),
    )
finish_items-Effect s t i before guids (w, err code) settled =
    inr (
      refl,
      Settled-quiet s t (with_inventory t w) [] settled (bag-Settled t w settled.booked.sound),
    )

-- DoItems books nothing.
pub do_items-Effect :
    (s : EconomySystem) (cmd : EconomyCommand)
    → IsSound s.wallets
    → cmd.player ≢ 0
    → Effect s (do_items s cmd) []
unfolding do_items
do_items-Effect s cmd sound real =
    let f = fetched-Settled s cmd.player sound real in
    let (t, i) = fetched s cmd.player in
    elim (Bool-cases (cmd.op == add_items)) [
      | inl add ↦ rw add (finish_items-Effect s t i _ _ _ f.0)
      | inr remove ↦ rw remove (finish_items-Effect s t i _ _ _ f.0)
    ]
