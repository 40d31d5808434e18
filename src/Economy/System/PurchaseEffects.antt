-- ===== src/Economy/System/PurchaseEffects.antt =====
-- What DoPurchase does to the balances of all players.
use cami.Common.{
  ℕ, ◌≡◌, refl, sym, subst, ◌∙◌, ◌≢◌, inl, inr, List, [], ◌∷◌, none, some, Bool-cases, Option-cases,
}
use cami.Common.Int.{ℤ, pos, ◌+ℤ◌, ◌-ℤ◌, int_laws}
use cami.Common.Errors.{ErrorCode, Result, ok, err, not_found, invalid_argument, busy}
use cami.Inventory.System.{World}
use cami.Economy.Entry.{ItemDelta}
use cami.Economy.Wallets.{WalletTable, find}
use cami.Economy.Prices.{PriceEntry, allows, total, find_price}
use cami.Economy.Command.{EconomyCommand}
use cami.Economy.Items.{snapshot_guids, add_delta, added_count}
use cami.Economy.System.{EconomySystem, with_wallets, with_inventory, pay, held}
use cami.Economy.System.Operations.{fetched}
use cami.Economy.System.Grants.{
  front, paid_back, refuse_purchase, finish_purchase, hand_over, buy, buy_at, do_purchase,
}
use cami.Economy.System.Books.{Charge, IsSound, Booked, add_zero}
use cami.Economy.System.Payments.{pay-cases}
use cami.Economy.System.Effects.{charge, Effect-from}
use cami.Economy.System.Settling.{Effect, issued, Settled-none, fetched-Settled}
use cami.Economy.System.Undo.{taken_back}

back_inverse : (a : ℤ) → a +ℤ (pos 0 -ℤ a) ≡ pos 0
back_inverse a = omega int_laws

burns : (m b a : ℤ) → m -ℤ (b +ℤ a) ≡ (m -ℤ b) +ℤ ((pos 0 -ℤ a) +ℤ pos 0)
burns m b a = omega int_laws

module _ (s : EconomySystem) (cmd : EconomyCommand) (d : ItemDelta) (i currency : ℕ)
    (price before : ℤ) (sound : IsSound s.wallets) (hers : find s.wallets cmd.player ≡ some i) where
  abbrev price_charge : Charge
  price_charge = charge cmd.player currency (pos 0 -ℤ price)

  bought-Effect :
      (t : WalletTable) (old : List ℕ) (r : World × Result ℕ)
      → pay s i currency (pos 0 -ℤ price) ≡ (with_wallets s t, ok tt)
      → Booked s.wallets t (price_charge ∷ [])
      → find t cmd.player ≡ some i
      → Effect s
          (finish_purchase (with_wallets s t) cmd d i currency price before old r)
          (price_charge ∷ [])
  bought-Effect t old (w, ok _) paid booked there = inl (
    refl,
    record {
      booked = booked;
      issue = burns s.stats.total_minted s.stats.total_burned price;
      idem = refl;
      results = refl;
      ledger = refl;
      ttl = refl;
    },
  )
  bought-Effect t old (w, err code) paid booked there =
      let u = with_inventory (with_wallets s t) w in
      let (v, again, none_booked) =
        taken_back s u i currency cmd.player (pos 0 -ℤ price) price t sound hers paid booked there
          refl (back_inverse price) in
      subst (λ a. Effect s (paid_back i code before a) (price_charge ∷ [])) (sym again)
        (inr (
          refl,
          record {
            booked = none_booked;
            issue = sym (add_zero (issued s));
            idem = refl;
            results = refl;
            ledger = refl;
            ttl = refl;
          },
        ))

  hand_over-Effect :
      Effect s
        (hand_over cmd d i currency price before (pay s i currency (pos 0 -ℤ price)))
        (price_charge ∷ [])
  hand_over-Effect = elim (pay-cases s i currency cmd.player (pos 0 -ℤ price) sound hers) [
    | inl (code, refused) ↦
        subst (λ a. Effect s (hand_over cmd d i currency price before a) (price_charge ∷ []))
          (sym refused) (inr (refl, Settled-none s sound))
    | inr (t, paid, booked, same) ↦
        subst (λ a. Effect s (hand_over cmd d i currency price before a) (price_charge ∷ []))
          (sym paid)
          (bought-Effect t (snapshot_guids s.inventory cmd.player)
            (add_delta s.inventory cmd.player d) paid booked (same cmd.player ∙ hers))
  ]

-- What a purchase costs, if there is a price for it.
abbrev pub cost : EconomyCommand → ItemDelta → PriceEntry → List Charge
cost cmd d p = elim (total p (added_count d)) [
  | none ↦ []
  | some price ↦ charge cmd.player p.currency (pos 0 -ℤ price) ∷ []
]

abbrev pub purchase_charges : EconomySystem → EconomyCommand → List Charge
purchase_charges s cmd = elim (find_price s.prices (front cmd.item_deltas).def_id) [
  | none ↦ []
  | some p ↦ cost cmd (front cmd.item_deltas) p
]

module _ (s : EconomySystem) (cmd : EconomyCommand) (sound : IsSound s.wallets)
    (real : cmd.player ≢ 0) where
  refuse-Effect :
      (currency : ℕ) (code : ErrorCode) (es : List Charge)
      → Effect s (refuse_purchase s cmd.player currency code) es
  unfolding refuse_purchase
  refuse-Effect currency code es = inr (refl, (fetched-Settled s cmd.player sound real).0)

  buy-Effect :
      (d : ItemDelta) (currency : ℕ) (price : ℤ)
      → Effect s (buy s cmd d currency price) (charge cmd.player currency (pos 0 -ℤ price) ∷ [])
  unfolding buy
  buy-Effect d currency price =
      let f = fetched-Settled s cmd.player sound real in
      let (t, i) = fetched s cmd.player in
      Effect-from s t
        (hand_over cmd d i currency price (held t i currency) (pay t i currency (pos 0 -ℤ price)))
        (charge cmd.player currency (pos 0 -ℤ price) ∷ []) f.0
        (hand_over-Effect t cmd d i currency price (held t i currency) f.0.booked.sound f.1)

  buy_at-Effect : (d : ItemDelta) (p : PriceEntry) → Effect s (buy_at s cmd d p) (cost cmd d p)
  unfolding buy_at
  buy_at-Effect d p = elim (Bool-cases (allows p (added_count d))) [
    | inr forbidden ↦ rw forbidden (refuse-Effect p.currency invalid_argument (cost cmd d p))
    | inl allowed ↦ elim (Option-cases (total p (added_count d))) [
      | inl too_much ↦ rw allowed (rw (too_much, cost, buy_at) (refuse-Effect p.currency busy []))
      | inr (price, is) ↦ rw allowed (rw (is, cost, buy_at) (buy-Effect d p.currency price))
    ]
  ]

  -- DoPurchase books the price of what is bought, or nothing.
  pub do_purchase-Effect : Effect s (do_purchase s cmd) (purchase_charges s cmd)
  unfolding do_purchase
  do_purchase-Effect = elim (Option-cases (find_price s.prices (front cmd.item_deltas).def_id)) [
    | inl missing ↦
        rw (missing, purchase_charges, do_purchase) (refuse-Effect cmd.currency not_found [])
    | inr (p, is) ↦ rw (is, purchase_charges, do_purchase) (buy_at-Effect (front cmd.item_deltas) p)
  ]
