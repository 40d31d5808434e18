-- ===== src/Economy/Wallets/Sum.antt =====
-- WalletTable::SumAllBalances against the sum of all balances.
use cami.Common.{
  ℕ, ◌+◌, ◌<◌, ◌≤◌, ◌≡◌, refl, sym, ap, subst, ◌⊎◌, inl, inr, List, [], ◌∷◌, true, false, arith,
  All, sum_by, Option, none, some, Bool-cases, leb, if◌then◌else◌,
}
use cami.Common.Int.{ℤ, pos, negsuc, pos_part, ◌+ℤ◌, ◌-ℤ◌, ltb_ℤ, +ℤ_parts, -ℤ_parts, int_laws}
use cami.Economy.Wallet.{Wallet, max_balance}
use cami.Economy.Wallet.Funds.{InRange, IsFunded, worth}
use cami.Economy.Wallets.{WalletTable, sum_wallet, sum_wallets, sum_all_balances}

-- What a loop over balances answers when they come to `n` in all.
abbrev Sums : ℕ → Option ℤ → Type 0
Sums n r = ((n ≤ max_balance) × (r ≡ some (pos n))) ⊎ ((max_balance < n) × (r ≡ none))

ends : (n : ℕ) → n ≤ max_balance → Sums (n + 0) (some (pos n))
ends n h = inl (omega (arith, h), ap (λ k. some (pos k)) (let e : n ≡ n + 0 = omega arith in e))

plus : (n p : ℕ) → pos n +ℤ pos p ≡ pos (n + p)
plus n p = omega (int_laws, +ℤ_parts (pos n) (pos p))

sum_wallet-Sums :
    (vs : List ℤ) (n : ℕ)
    → n ≤ max_balance
    → All InRange vs
    → Sums (n + sum_by pos_part vs) (sum_wallet (pos n) vs)
unfolding sum_wallet
sum_wallet-Sums [] n h all = ends n h
sum_wallet-Sums (negsuc m ∷ vs) n h (range, all) = absurd (omega (arith, range.0))
sum_wallet-Sums (pos p ∷ vs) n h (range, all) =
    elim (Bool-cases (ltb_ℤ (pos max_balance -ℤ pos n) (pos p))) [
      | inl over ↦ inr (ground (arith, over, -ℤ_parts (pos max_balance) (pos n)), rw over refl)
      | inr fits ↦
          let room : n + p ≤ max_balance =
            ground (arith, fits, h, -ℤ_parts (pos max_balance) (pos n)) in
          rw fits (
            subst (λ m. Sums (n + (p + sum_by pos_part vs)) (sum_wallet m vs)) (sym (plus n p))
              (subst (λ m. Sums m (sum_wallet (pos (n + p)) vs))
                (let e : (n + p) + sum_by pos_part vs ≡ n + (p + sum_by pos_part vs) =
                    omega arith in
                  e)
                (sum_wallet-Sums vs (n + p) room all)))
    ]

sum_wallets-Sums :
    (ws : List Wallet) (n : ℕ)
    → n ≤ max_balance
    → All IsFunded ws
    → Sums (n + sum_by worth ws) (sum_wallets (pos n) ws)
unfolding sum_wallets
sum_wallets-Sums [] n h all = ends n h
sum_wallets-Sums (w ∷ ws) n h (funded, all) = elim (sum_wallet-Sums w.balance n h funded.1) [
  | inr (over, stops) ↦ inr (omega (arith, over), rw (stops, sum_wallets) refl)
  | inl (fits, goes) ↦
      rw (goes, sum_wallets)
        (subst (λ m. Sums m (sum_wallets (pos (n + worth w)) ws))
          (let e : (n + worth w) + sum_by worth ws ≡ n + (worth w + sum_by worth ws) =
              omega arith in
            e)
          (sum_wallets-Sums ws (n + worth w) fits all))
]

-- With every balance in its range, SumAllBalances is the sum of all balances where that is at most
-- the bound of one balance, and that bound where it is more.
pub sum_all_balances-sum :
    (t : WalletTable)
    → All IsFunded t.wallets
    → sum_all_balances t ≡ (
        if leb (sum_by worth t.wallets) max_balance
        then pos (sum_by worth t.wallets)
        else pos max_balance)
unfolding sum_all_balances
sum_all_balances-sum t funded =
    elim (subst (λ n. Sums n (sum_wallets (pos 0) t.wallets))
      (let e : 0 + sum_by worth t.wallets ≡ sum_by worth t.wallets = omega arith in e)
      (sum_wallets-Sums t.wallets 0 (omega arith) funded)) [
        | inl (fits, goes) ↦
            rw
              (let yes : leb (sum_by worth t.wallets) max_balance ≡ true = ground (arith, fits) in
                yes)
              (rw (goes, sum_all_balances) refl)
        | inr (over, stops) ↦
            rw
              (let no : leb (sum_by worth t.wallets) max_balance ≡ false = ground (arith, over) in
                no)
              (rw (stops, sum_all_balances) refl)
      ]
