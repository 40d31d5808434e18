-- ===== src/Economy/System/GrantEffects.antt =====
-- What DoReward and DoRefund do to the balances of all players.
use cami.Common.{
  ℕ, ◌≡◌, refl, sym, subst, ◌∙◌, ◌≢◌, inl, inr, List, [], ◌∷◌, true, false, some, if◌then◌else◌,
  Bool-cases,
}
use cami.Common.Int.{ℤ, pos, ◌+ℤ◌, ◌-ℤ◌, int_laws}
use cami.Common.Errors.{Result, ok, err}
use cami.Inventory.System.{World}
use cami.Economy.Wallets.{WalletTable, find}
use cami.Economy.Command.{EconomyCommand, is_positive}
use cami.Economy.Items.{snapshot_guids}
use cami.Economy.System.{EconomySystem, with_wallets, with_inventory, pay, held, mint}
use cami.Economy.System.Operations.{fetched}
use cami.Economy.System.Grants.{Granting, undo_money, finish_grant, grant_items, grant_rest, grant}
use cami.Economy.System.Books.{Charge, IsSound, Booked}
use cami.Economy.System.Payments.{pay-cases}
use cami.Economy.System.Effects.{charge, Effect-from}
use cami.Economy.System.Settling.{Effect, bag-Settled, Settled-none, fetched-Settled}
use cami.Economy.System.Undo.{taken_back}

inverse : (a : ℤ) → (pos 0 -ℤ a) +ℤ a ≡ pos 0
inverse a = omega int_laws

mints : (m b a : ℤ) → (m +ℤ a) -ℤ b ≡ (m -ℤ b) +ℤ (a +ℤ pos 0)
mints m b a = omega int_laws

unmints : (m b a : ℤ) → ((m +ℤ a) -ℤ a) -ℤ b ≡ (m -ℤ b) +ℤ pos 0
unmints m b a = omega int_laws

abbrev pub grant_charge : EconomyCommand → Charge
grant_charge cmd = charge cmd.player cmd.currency cmd.amount

-- The money that the command names, if it names any.
abbrev pub grant_charges : EconomyCommand → List Charge
grant_charges cmd = if is_positive cmd.amount then grant_charge cmd ∷ [] else []

module _ (s : EconomySystem) (cmd : EconomyCommand) (i : ℕ) (before : ℤ) (sound : IsSound s.wallets)
    (hers : find s.wallets cmd.player ≡ some i) where
  -- The end, when no money was given.
  bare-Effect :
      (old : List ℕ) (r : World × Result (Unit {0}))
      → is_positive cmd.amount ≡ false
      → Effect s (finish_grant s cmd i before old r) []
  unfolding undo_money
  bare-Effect old (w, ok _) broke = rw broke (inl (refl, bag-Settled s w sound))
  bare-Effect old (w, err code) broke = rw broke (inr (refl, bag-Settled s w sound))

  -- The end, when money was given first.
  given-Effect :
      (t : WalletTable) (old : List ℕ) (r : World × Result (Unit {0}))
      → is_positive cmd.amount ≡ true
      → pay s i cmd.currency cmd.amount ≡ (with_wallets s t, ok tt)
      → Booked s.wallets t (grant_charge cmd ∷ [])
      → find t cmd.player ≡ some i
      → Effect s
          (finish_grant (mint cmd.amount (with_wallets s t)) cmd i before old r)
          (grant_charge cmd ∷ [])
  unfolding undo_money
  given-Effect t old (w, ok _) rich paid booked there = rw rich (
      inl (
        refl,
        record {
          booked = booked;
          issue = mints s.stats.total_minted s.stats.total_burned cmd.amount;
          idem = refl;
          results = refl;
          ledger = refl;
          ttl = refl;
        },
      ))
  given-Effect t old (w, err code) rich paid booked there =
      let u = with_inventory (mint cmd.amount (with_wallets s t)) w in
      let (v, again, none_booked) =
        taken_back s u i cmd.currency cmd.player cmd.amount (pos 0 -ℤ cmd.amount) t sound hers paid
          booked there refl (inverse cmd.amount) in
      rw rich (
        rw again (
          inr (
            refl,
            record {
              booked = none_booked;
              issue = unmints s.stats.total_minted s.stats.total_burned cmd.amount;
              idem = refl;
              results = refl;
              ledger = refl;
              ttl = refl;
            },
          )))

  rest-Effect :
      (all : Granting)
      → is_positive cmd.amount ≡ true
      → Effect s
          (grant_rest all cmd i before (pay s i cmd.currency cmd.amount))
          (grant_charge cmd ∷ [])
  unfolding grant_items
  rest-Effect all rich = elim (pay-cases s i cmd.currency cmd.player cmd.amount sound hers) [
    | inl (code, refused) ↦
        subst (λ a. Effect s (grant_rest all cmd i before a) (grant_charge cmd ∷ [])) (sym refused)
          (inr (refl, Settled-none s sound))
    | inr (t, paid, booked, same) ↦
        subst (λ a. Effect s (grant_rest all cmd i before a) (grant_charge cmd ∷ [])) (sym paid)
          (given-Effect t (snapshot_guids s.inventory cmd.player)
            (all s.inventory cmd.player [] cmd.item_deltas) rich paid booked
            (same cmd.player ∙ hers))
  ]

-- DoReward and DoRefund book the money that is named, or nothing.
pub grant-Effect :
    (all : Granting) (s : EconomySystem) (cmd : EconomyCommand)
    → IsSound s.wallets
    → cmd.player ≢ 0
    → Effect s (grant all s cmd) (grant_charges cmd)
unfolding grant grant_items
grant-Effect all s cmd sound real =
    let f = fetched-Settled s cmd.player sound real in
    let (t, i) = fetched s cmd.player in
    let before = held t i cmd.currency in
    elim (Bool-cases (is_positive cmd.amount)) [
      | inl rich ↦
          rw (rich, grant)
            (Effect-from s t (grant_rest all cmd i before (pay t i cmd.currency cmd.amount))
              (grant_charge cmd ∷ []) f.0
              (rest-Effect t cmd i before f.0.booked.sound f.1 all rich))
      | inr broke ↦
          rw (broke, grant)
            (Effect-from s t (grant_items all t cmd i before) [] f.0 (
              bare-Effect t cmd i before f.0.booked.sound f.1
                (snapshot_guids t.inventory cmd.player)
                (all t.inventory cmd.player [] cmd.item_deltas) broke))
    ]
