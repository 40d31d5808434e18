-- ===== src/Economy/System/Payments.antt =====
-- What a payment books, and bookings one after another.
use cami.Common.{
  ℕ, ◌<◌, ◌≡◌, refl, sym, ap, subst, ◌∙◌, ◌≢◌, ◌⊎◌, inl, inr, List, [], ◌∷◌, Bool, true, false,
  some, arith, ◌==◌, if◌then◌else◌, length, get_or, Bool-cases, Option-cases, get_or-All,
  get_or-set_self, get_or-set_ne, sum_by-set, length-set,
}
use native.Mathlib.Decide.{ℕ_discrete}
use cami.Common.Int.{ℤ, pos, ◌+ℤ◌, +ℤ_parts, eq_of_parts, int_laws}
use cami.Common.Errors.{ErrorCode, ok, err}
use cami.Economy.Wallet.{Wallet, empty_wallet, balance_of, write_balance, add}
use cami.Economy.Wallet.Funds.{InRange, IsFunded, worth, All-set, set_same, add-cases, add_back}
use cami.Economy.Wallets.{WalletTable, find, wallet_at, set_wallet}
use cami.Economy.Wallets.Find.{find_bound}
use cami.Economy.System.{EconomySystem, with_wallets, pay, wallet}
use cami.Economy.System.Books.{
  Charge, share, account, account-none, empty-IsFunded, booked, sum_of, money, IsSound, Booked,
  account_at, find-set_wallet, set_wallet-IsTable, worth-write, balance-write, add_zero,
}

add_last : (z b a : ℤ) → (z +ℤ b) +ℤ (a +ℤ pos 0) ≡ z +ℤ (a +ℤ b)
add_last z b a = omega int_laws

add_nothing : (a : ℤ) → a ≡ a +ℤ (pos 0 +ℤ pos 0)
add_nothing a = omega int_laws

-- Bookings in a row; nothing more is booked by the second, or one charge.
pub Booked-quiet :
    (t u v : WalletTable) (es : List Charge) → Booked t u es → Booked u v [] → Booked t v es
Booked-quiet t u v es first second = record {
  sound = second.sound;
  total = second.total ∙ add_zero (pos (money u)) ∙ first.total;
  books = λ p c. second.books p c ∙ add_zero (account u p c) ∙ first.books p c;
}

pub one_more : (x y z a b : ℤ) → x ≡ y +ℤ (a +ℤ pos 0) → y ≡ z +ℤ b → x ≡ z +ℤ (a +ℤ b)
one_more x y z a b h k = h ∙ ap (λ v. v +ℤ (a +ℤ pos 0)) k ∙ add_last z b a

pub Booked-step :
    (t u v : WalletTable) (es : List Charge) (e : Charge)
    → Booked t u es
    → Booked u v (e ∷ [])
    → Booked t v (e ∷ es)
Booked-step t u v es e first second = record {
  sound = second.sound;
  total =
      one_more (pos (money v)) (pos (money u)) (pos (money t)) e.amount (sum_of es) second.total
        first.total;
  books = λ p c.
      one_more (account v p c) (account u p c) (account t p c) (share e p c) (booked es p c)
        (second.books p c) (first.books p c);
}

module _ (s : EconomySystem) (i c pid : ℕ) (delta : ℤ) (sound : IsSound s.wallets)
    (hers : find s.wallets pid ≡ some i) where
  abbrev pub paid_charge : Charge
  paid_charge = record { player = pid; currency = c; amount = delta }

  abbrev pub paid_wallet : Wallet
  paid_wallet = write_balance (wallet s i) c (balance_of (wallet s i) c +ℤ delta)

  abbrev pub paid_table : WalletTable
  paid_table = set_wallet s.wallets i paid_wallet

  hers_bound : (i < length s.wallets.wallets) × (get_or s.wallets.owners i 0 ≡ pid)
  hers_bound = find_bound s.wallets pid i sound.0 hers

  hers_IsFunded : IsFunded (wallet s i)
  hers_IsFunded = get_or-All IsFunded s.wallets.wallets i empty_wallet sound.1 empty-IsFunded

  abbrev branch : ℕ → Bool → ℤ
  branch d b = if b then balance_of (wallet s i) d +ℤ delta else balance_of (wallet s i) d

  -- What the payment does to one account.
  account_own :
      (d : ℕ)
      → c < 17
      → account paid_table pid d ≡ account s.wallets pid d +ℤ (share paid_charge pid d +ℤ pos 0)
  account_own d known =
      let old = account_at s.wallets pid d i hers in
      let new =
        account_at paid_table pid d i (find-set_wallet s.wallets i pid paid_wallet ∙ hers) in
      let own = get_or-set_self s.wallets.wallets i paid_wallet empty_wallet hers_bound.0 in
      let write = balance-write (wallet s i) c d delta (omega (arith, hers_IsFunded.0)) in
      let it : (pid == pid) ≡ true = ground arith in
      new ∙ ap (λ w. balance_of w d) own ∙ write ∙ elim (Bool-cases (c == d)) [
        | inl hit ↦
            let all : share paid_charge pid d ≡ delta = ground (arith, it, hit) in
            ap (branch d) hit
            ∙ ap (λ a. a +ℤ delta) (sym old)
            ∙ sym (ap (λ a. account s.wallets pid d +ℤ a) (add_zero delta))
            ∙ ap (λ a. account s.wallets pid d +ℤ (a +ℤ pos 0)) (sym all)
        | inr miss ↦
            let none_of : share paid_charge pid d ≡ pos 0 = ground (arith, it, miss) in
            ap (branch d) miss
            ∙ sym old
            ∙ add_nothing (account s.wallets pid d)
            ∙ ap (λ a. account s.wallets pid d +ℤ (a +ℤ pos 0)) (sym none_of)
      ]

  account_other :
      (p d : ℕ)
      → pid ≢ p
      → account paid_table p d ≡ account s.wallets p d +ℤ (share paid_charge p d +ℤ pos 0)
  account_other p d apart =
      let miss : (pid == p) ≡ false = ground (arith, apart) in
      let none_of : share paid_charge p d ≡ pos 0 = ground (arith, miss) in
      let same_find = find-set_wallet s.wallets i p paid_wallet in
      let same : account paid_table p d ≡ account s.wallets p d =
        elim (Option-cases (find s.wallets p)) [
          | inl lacks ↦
              account-none paid_table p d (same_find ∙ lacks)
              ∙ sym (account-none s.wallets p d lacks)
          | inr (j, has) ↦
              let other : i ≢ j = λ e. apart (
                sym hers_bound.1
                ∙ ap (λ k. get_or s.wallets.owners k 0) e
                ∙ (find_bound s.wallets p j sound.0 has).1) in
              account_at paid_table p d j (same_find ∙ has)
              ∙ ap (λ w. balance_of w d)
                  (get_or-set_ne s.wallets.wallets i j paid_wallet empty_wallet other)
              ∙ sym (account_at s.wallets p d j has)
        ] in
      same
      ∙ add_nothing (account s.wallets p d)
      ∙ ap (λ a. account s.wallets p d +ℤ (a +ℤ pos 0)) (sym none_of)

  paid_total :
      c < 17
      → InRange (balance_of (wallet s i) c +ℤ delta)
      → pos (money paid_table) ≡ pos (money s.wallets) +ℤ (delta +ℤ pos 0)
  paid_total known range =
      let v = balance_of (wallet s i) c +ℤ delta in
      let old : InRange (balance_of (wallet s i) c) =
        get_or-All InRange (wallet s i).balance c (pos 0) hers_IsFunded.1 (refl, omega arith) in
      let all = sum_by-set worth s.wallets.wallets i paid_wallet empty_wallet hers_bound.0 in
      let one = worth-write (wallet s i) c v (omega (arith, hers_IsFunded.0)) in
      eq_of_parts (pos (money paid_table)) (pos (money s.wallets) +ℤ (delta +ℤ pos 0)) (
        omega (
          arith,
          all,
          one,
          old.0,
          range.0,
          +ℤ_parts (balance_of (wallet s i) c) delta,
          +ℤ_parts (pos (money s.wallets)) (delta +ℤ pos 0),
          +ℤ_parts delta (pos 0),
        ))

  paid-Booked :
      c < 17
      → InRange (balance_of (wallet s i) c +ℤ delta)
      → Booked s.wallets paid_table (paid_charge ∷ [])
  paid-Booked known range = record {
    sound = (
      set_wallet-IsTable s.wallets i paid_wallet sound.0,
      All-set IsFunded s.wallets.wallets i paid_wallet sound.1 (
        length-set (wallet s i).balance c (balance_of (wallet s i) c +ℤ delta) ∙ hers_IsFunded.0,
        All-set InRange (wallet s i).balance c (balance_of (wallet s i) c +ℤ delta) hers_IsFunded.1
            range,
      ),
    );
    total = paid_total known range;
    books = λ p d. elim (ℕ_discrete pid p) [
      | yes same ↦
          subst
            (λ q.
              account paid_table q d ≡ account s.wallets q d +ℤ (share paid_charge q d +ℤ pos 0))
            same (account_own d known)
      | no apart ↦ account_other p d apart
    ];
  }

  -- A payment is refused, and nothing changes, or the charge is booked; whoever had a wallet has it
  -- at the same index.
  pub pay-cases :
      ((code : ErrorCode) × (pay s i c delta ≡ (s, err code)))
      ⊎ ((t : WalletTable) × (pay s i c delta ≡ (with_wallets s t, ok tt))
          × Booked s.wallets t (paid_charge ∷ [])
          × ((p : ℕ) → find t p ≡ find s.wallets p))
  unfolding pay
  pay-cases = elim (add-cases (wallet s i) c delta hers_IsFunded) [
    | inl (code, refused) ↦ inl (
      code,
      rw (refused, pay)
          (ap (λ ws. (with_wallets s (record s.wallets { wallets = ws }), err code))
            (set_same s.wallets.wallets i empty_wallet)),
    )
    | inr (passed, known, range, _, _) ↦ inr (
      paid_table,
      rw (passed, pay) refl,
      paid-Booked known range,
      λ p. find-set_wallet s.wallets i p paid_wallet,
    )
  ]

  -- A payment that was made can be taken back.
  pub pay_back :
      (s' : EconomySystem) (back : ℤ)
      → (pay s i c delta).1 ≡ ok tt
      → s'.wallets ≡ (pay s i c delta).0.wallets
      → delta +ℤ back ≡ pos 0
      → (pay s' i c back).1 ≡ ok tt
  unfolding pay
  pay_back s' back paid same inverse =
      let own =
        get_or-set_self s.wallets.wallets i (add (wallet s i) c delta).0 empty_wallet
          hers_bound.0 in
      ap (λ t. (add (wallet_at t i) c back).1) same
      ∙ ap (λ w. (add w c back).1) own
      ∙ add_back (wallet s i) c delta back hers_IsFunded paid inverse
