-- ===== src/Economy/System/Undo.antt =====
-- A payment that is taken back leaves the books as they were.
use cami.Common.{ℕ, ◌≡◌, sym, ap, subst, ◌∙◌, inl, inr, [], ◌∷◌, some, ◌==◌, Bool-cases}
use cami.Common.Int.{ℤ, pos, ◌+ℤ◌, int_laws}
use cami.Common.Errors.{ErrorCode, Result, ok, err}
use cami.Economy.Wallets.{WalletTable, find}
use cami.Economy.System.{EconomySystem, with_wallets, pay}
use cami.Economy.System.Books.{share, account, money, IsSound, Booked, add_zero}
use cami.Economy.System.Payments.{Booked-step, pay-cases, pay_back}
use cami.Economy.System.Effects.{charge}

cancel : (x a b : ℤ) → a +ℤ b ≡ pos 0 → x +ℤ (a +ℤ (b +ℤ pos 0)) ≡ x +ℤ pos 0
cancel x a b e = ap (λ v. x +ℤ v) (ap (λ v. a +ℤ v) (add_zero b) ∙ e)

share-cancel :
    (p c q d : ℕ) (a b : ℤ)
    → a +ℤ b ≡ pos 0
    → share (charge p c a) q d +ℤ share (charge p c b) q d ≡ pos 0
share-cancel p c q d a b e = elim (Bool-cases (p == q)) [
  | inr other ↦ rw other (add_zero (pos 0))
  | inl same ↦ elim (Bool-cases (c == d)) [
    | inr other ↦ rw same (rw other (add_zero (pos 0)))
    | inl hit ↦ rw same (rw hit e)
  ]
]

Booked-cancel :
    (t u : WalletTable) (p c : ℕ) (a b : ℤ)
    → a +ℤ b ≡ pos 0
    → Booked t u (charge p c a ∷ charge p c b ∷ [])
    → Booked t u []
Booked-cancel t u p c a b e both = record {
  sound = both.sound;
  total = both.total ∙ cancel (pos (money t)) a b e;
  books = λ q d.
      both.books q d
      ∙ cancel (account t q d) (share (charge p c a) q d) (share (charge p c b) q d)
          (share-cancel p c q d a b e);
}

comm : (a b : ℤ) → a +ℤ b ≡ b +ℤ a
comm a b = omega int_laws

flip : (a b : ℤ) → b +ℤ a ≡ pos 0 → a +ℤ b ≡ pos 0
flip a b e = comm a b ∙ e

contradiction : (code : ErrorCode) → ◌≡◌ {A = Result (Unit {0})} (err code) (ok tt) → ⊥
contradiction code e = cc

-- After a payment that was made, the opposite one is made, and nothing is booked in all.
pub taken_back :
    (s u : EconomySystem) (i c pid : ℕ) (delta back : ℤ) (t : WalletTable)
    → IsSound s.wallets
    → find s.wallets pid ≡ some i
    → pay s i c delta ≡ (with_wallets s t, ok tt)
    → Booked s.wallets t (charge pid c delta ∷ [])
    → find t pid ≡ some i
    → u.wallets ≡ t
    → back +ℤ delta ≡ pos 0
    → (v : WalletTable) × (pay u i c back ≡ (with_wallets u v, ok tt)) × Booked s.wallets v []
taken_back s u i c pid delta back t sound hers paid booked there same inverse =
    let u_sound : IsSound u.wallets = subst IsSound (sym same) booked.sound in
    let u_hers : find u.wallets pid ≡ some i = subst (λ v. find v pid ≡ some i) (sym same) there in
    let passed =
      pay_back s i c pid delta sound hers u back (ap (λ a. a.1) paid)
        (same ∙ sym (ap (λ a. a.0.wallets) paid)) (flip delta back inverse) in
    elim (pay-cases u i c pid back u_sound u_hers) [
      | inl (code, refused) ↦ absurd (contradiction code (sym (ap (λ a. a.1) refused) ∙ passed))
      | inr (v, again, later, _) ↦ (
        v,
        again,
        Booked-cancel s.wallets v pid c back delta inverse (
            Booked-step s.wallets t v (charge pid c delta ∷ []) (charge pid c back) booked
              (subst (λ w. Booked w v (charge pid c back ∷ [])) same later)),
      )
    ]
