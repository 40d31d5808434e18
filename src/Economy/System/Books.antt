-- ===== src/Economy/System/Books.antt =====
-- The balances of all players as books: what each account holds, and what an operation books.
use cami.Common.{
  get_or-append_front, get_or-append_at, ℕ, ◌+◌, ◌<◌, ◌≡◌, refl, sym, ap, subst, ◌∙◌, ◌≢◌, ◌⊎◌, inl,
  inr, List, [], ◌∷◌, ◌++◌, Bool, true, false, ◌&&◌, none, some, arith, ◌==◌, if◌then◌else◌, length,
  get_or, All, sum_by, Option-cases, get_or-replicate, length-set, sum_by-set, sum_by-append,
  get_or-set_self, get_or-set_ne,
}
use native.Mathlib.Decide.{ℕ_discrete}
use cami.Common.Int.{ℤ, pos, pos_part, ◌+ℤ◌, +ℤ_parts, int_laws}
use cami.Economy.Wallet.{Wallet, empty_wallet, balance_of, write_balance}
use cami.Economy.Wallet.Funds.{IsFunded, worth}
use cami.Economy.Wallets.{WalletTable, find, fetch, wallet_at, set_wallet}
use cami.Economy.Wallets.Rehash.{IsTable}
use cami.Economy.Wallets.Fetch.{Fetched, fetch-Fetched}
use cami.Economy.Wallets.Find.{find_bound}

-- What is booked: an amount, for a player and a currency.
pub record Charge : Type 0 where
  pub player : ℕ
  pub currency : ℕ
  pub amount : ℤ

-- The account of a player; he has nothing without a wallet.
abbrev pub account : WalletTable → ℕ → ℕ → ℤ
account t p c = elim (find t p) [ none ↦ pos 0 | some i ↦ balance_of (wallet_at t i) c ]

abbrev pub concerns : Charge → ℕ → ℕ → Bool
concerns e p c = e.player == p && e.currency == c

-- What some charges come to for one account, and in all.
abbrev pub share : Charge → ℕ → ℕ → ℤ
share e p c = if concerns e p c then e.amount else pos 0

abbrev pub booked : List Charge → ℕ → ℕ → ℤ
booked [] p c = pos 0
booked (e ∷ es) p c = share e p c +ℤ booked es p c

abbrev pub sum_of : List Charge → ℤ
sum_of [] = pos 0
sum_of (e ∷ es) = e.amount +ℤ sum_of es

abbrev pub money : WalletTable → ℕ
money t = sum_by worth t.wallets

-- The wallets of a system in order: the index serves, and every balance is in its range.
abbrev pub IsSound : WalletTable → Type 0
IsSound t = IsTable t × All IsFunded t.wallets

-- From one table to another exactly the charges were booked.
pub record Booked (t u : WalletTable) (es : List Charge) : Type 0 where
  pub sound : IsSound u
  pub total : pos (money u) ≡ pos (money t) +ℤ sum_of es
  pub books : (p c : ℕ) → account u p c ≡ account t p c +ℤ booked es p c

pub add_zero : (a : ℤ) → a +ℤ pos 0 ≡ a
add_zero a = omega (int_laws, +ℤ_parts a (pos 0))

pub Booked-none : (t : WalletTable) → IsSound t → Booked t t []
Booked-none t sound = record {
  sound = sound;
  total = sym (add_zero (pos (money t)));
  books = λ p c. sym (add_zero (account t p c));
}

pub empty-IsFunded : IsFunded empty_wallet
empty-IsFunded = omega arith

All-append_one {ℓ κ} :
    {A : Type ℓ} (P : A → Type κ) (xs : List A) (y : A) → All P xs → P y → All P (xs ++ y ∷ [])
All-append_one P [] y all one = (one, tt)
All-append_one P (x ∷ xs) y all one = (all.0, All-append_one P xs y all.1 one)

-- A wallet that is made holds nothing.
wallet_kept :
    (t u : WalletTable) (j : ℕ)
    → u.wallets ≡ t.wallets ++ empty_wallet ∷ []
    → j < length t.wallets
    → wallet_at u j ≡ wallet_at t j
wallet_kept t u j longer h =
    ap (λ ws. get_or ws j empty_wallet) longer
    ∙ get_or-append_front t.wallets (empty_wallet ∷ []) j empty_wallet h

pub account_at :
    (t : WalletTable) (p c i : ℕ) → find t p ≡ some i → account t p c ≡ balance_of (wallet_at t i) c
account_at t p c i e = rw (e, account) refl

pub account-none : (t : WalletTable) (p c : ℕ) → find t p ≡ none → account t p c ≡ pos 0
account-none t p c e = rw (e, account) refl

all_kept :
    (t u : WalletTable) (j : ℕ)
    → (u.wallets ≡ t.wallets) ⊎ (u.wallets ≡ t.wallets ++ empty_wallet ∷ [])
    → j < length t.wallets
    → wallet_at u j ≡ wallet_at t j
all_kept t u j (inl same) h = ap (λ ws. get_or ws j empty_wallet) same
all_kept t u j (inr longer) h = wallet_kept t u j longer h

kept_by :
    (t u : WalletTable) (pid i : ℕ)
    → Fetched t pid u i
    → (u.wallets ≡ t.wallets) ⊎ (u.wallets ≡ t.wallets ++ empty_wallet ∷ [])
kept_by t u pid i f = elim (f.wallet) [
  | inl (had, same) ↦ inl same
  | inr (lacked, last, longer) ↦ inr longer
]

-- The player that is fetched.
own_account :
    (t u : WalletTable) (pid i c : ℕ) → Fetched t pid u i → account u pid c ≡ account t pid c
own_account t u pid i c f = account_at u pid c i f.found ∙ elim (f.wallet) [
  | inl (had, same) ↦
      ap (λ ws. balance_of (get_or ws i empty_wallet) c) same ∙ sym (account_at t pid c i had)
  | inr (lacked, last, longer) ↦
      let empty : wallet_at u i ≡ empty_wallet =
        ap (λ ws. get_or ws i empty_wallet) longer
        ∙ ap (λ k. get_or (t.wallets ++ empty_wallet ∷ []) k empty_wallet) last
        ∙ get_or-append_at t.wallets [] empty_wallet empty_wallet in
      ap (λ w. balance_of w c) empty
      ∙ get_or-replicate 17 c (pos 0)
      ∙ sym (account-none t pid c lacked)
]

account-Fetched :
    (t u : WalletTable) (pid i p c : ℕ)
    → IsTable t
    → Fetched t pid u i
    → account u p c ≡ account t p c
account-Fetched t u pid i p c table f = elim (ℕ_discrete pid p) [
  | yes same ↦ subst (λ q. account u q c ≡ account t q c) same (own_account t u pid i c f)
  | no apart ↦ elim (Option-cases (find t p)) [
    | inl lacks ↦ account-none u p c (f.others p apart ∙ lacks) ∙ sym (account-none t p c lacks)
    | inr (j, has) ↦
        account_at u p c j (f.others p apart ∙ has)
        ∙ ap (λ w. balance_of w c)
            (all_kept t u j (kept_by t u pid i f) (find_bound t p j table has).0)
        ∙ sym (account_at t p c j has)
  ]
]

pub sound_after :
    (t u : WalletTable)
    → All IsFunded t.wallets
    → (u.wallets ≡ t.wallets) ⊎ (u.wallets ≡ t.wallets ++ empty_wallet ∷ [])
    → All IsFunded u.wallets × (money u ≡ money t)
sound_after t u funded (inl same) = (subst (All IsFunded) (sym same) funded, ap (sum_by worth) same)
sound_after t u funded (inr longer) = (
  subst (All IsFunded) (sym longer)
      (All-append_one IsFunded t.wallets empty_wallet funded empty-IsFunded),
  ap (sum_by worth) longer ∙ sum_by-append worth t.wallets (empty_wallet ∷ []) ∙ omega arith,
)

-- Fetch books nothing.
pub fetch-Booked :
    (t : WalletTable) (pid : ℕ)
    → IsSound t
    → pid ≢ 0
    → Booked t (fetch t pid).0 [] × (find (fetch t pid).0 pid ≡ some (fetch t pid).1)
fetch-Booked t pid (table, funded) real =
    let u = (fetch t pid).0 in
    let i = (fetch t pid).1 in
    let f = fetch-Fetched t pid table real in
    let after = sound_after t u funded (kept_by t u pid i f) in
    (
      record {
        sound = (f.table, after.0);
        total = ap pos after.1 ∙ sym (add_zero (pos (money t)));
        books = λ p c. account-Fetched t u pid i p c table f ∙ sym (add_zero (account t p c));
      },
      f.found,
    )

-- A wallet that was written to is found where it was.
pub find-set_wallet :
    (t : WalletTable) (i p : ℕ) (w : Wallet) → find (set_wallet t i w) p ≡ find t p
unfolding find
find-set_wallet t i p w = refl

pub set_wallet-IsTable :
    (t : WalletTable) (i : ℕ) (w : Wallet) → IsTable t → IsTable (set_wallet t i w)
set_wallet-IsTable t i w table = record {
  indexes = table.indexes;
  are = table.are;
  stored = length-set t.wallets i w ∙ table.stored;
  counted = table.counted;
  wide = table.wide;
  room = table.room;
}

pub worth-write :
    (w : Wallet) (c : ℕ) (v : ℤ)
    → c < length w.balance
    → worth (write_balance w c v) + pos_part (balance_of w c) ≡ worth w + pos_part v
worth-write w c v h = sum_by-set pos_part w.balance c v (pos 0) h

pub balance-write :
    (w : Wallet) (c d : ℕ) (delta : ℤ)
    → c < length w.balance
    → balance_of (write_balance w c (balance_of w c +ℤ delta)) d
      ≡ (if c == d then balance_of w d +ℤ delta else balance_of w d)
balance-write w c d delta h = elim (ℕ_discrete c d) [
  | yes same ↦ rw (let hit : (c == d) ≡ true = ground (arith, same) in hit) (
      ap (λ k. balance_of (write_balance w c (balance_of w c +ℤ delta)) k) (sym same)
      ∙ get_or-set_self w.balance c (balance_of w c +ℤ delta) (pos 0) h
      ∙ ap (λ k. balance_of w k +ℤ delta) same)
  | no apart ↦
      rw (let miss : (c == d) ≡ false = ground (arith, apart) in miss)
        (get_or-set_ne w.balance c d (balance_of w c +ℤ delta) (pos 0) apart)
]
