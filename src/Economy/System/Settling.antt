-- ===== src/Economy/System/Settling.antt =====
-- What an operation does to the balances of all players and the money issued, and steps in a row.
use cami.Common.{ℕ, ◌≡◌, refl, sym, ap, ◌∙◌, ◌≢◌, ◌⊎◌, List, [], Bool, true, false, some}
use cami.Common.Int.{ℤ, pos, ◌+ℤ◌, ◌-ℤ◌}
use cami.Common.Errors.{Result, ok, err}
use cami.Inventory.System.{World}
use cami.Economy.Idempotency.{EconomyResult}
use cami.Economy.Wallets.{find}
use cami.Economy.System.{EconomySystem, with_inventory}
use cami.Economy.System.Operations.{Outcome, fetched}
use cami.Economy.System.Books
use cami.Economy.System.Books.{
  Charge, account, money, sum_of, IsSound, Booked, fetch-Booked, Booked-none, add_zero,
}
use cami.Economy.System.Payments.{Booked-quiet}

-- What was minted less what was burned.
abbrev pub issued : EconomySystem → ℤ
issued s = s.stats.total_minted -ℤ s.stats.total_burned

-- The charges were booked, the issue grew by their sum, and neither the memory of the results with
-- its time to live nor the ledger was touched.
pub record Settled (s u : EconomySystem) (es : List Charge) : Type 0 where
  pub booked : Booked s.wallets u.wallets es
  pub issue : issued u ≡ issued s +ℤ sum_of es
  pub idem : u.idem ≡ s.idem
  pub results : u.idempotency ≡ s.idempotency
  pub ledger : u.ledger ≡ s.ledger
  pub ttl : u.idem_ttl ≡ s.idem_ttl

abbrev pub took : Result EconomyResult → Bool
took (ok res) = res.applied
took (err code) = false

-- An operation took effect and booked the charges, or it did not and booked nothing.
abbrev pub Effect : EconomySystem → Outcome → List Charge → Type 0
Effect s o es = ((took o.1 ≡ true) × Settled s o.0 es) ⊎ ((took o.1 ≡ false) × Settled s o.0 [])

-- A change of the bags only.
pub bag-Settled :
    (s : EconomySystem) (w : World) → IsSound s.wallets → Settled s (with_inventory s w) []
bag-Settled s w sound = record {
  booked = Booked-none s.wallets sound;
  issue = sym (add_zero (issued s));
  idem = refl;
  results = refl;
  ledger = refl;
  ttl = refl;
}

pub Settled-none : (s : EconomySystem) → IsSound s.wallets → Settled s s []
Settled-none s sound = bag-Settled s s.inventory sound

-- The system after Fetch.
pub fetched-Settled :
    (s : EconomySystem) (player : ℕ)
    → IsSound s.wallets
    → player ≢ 0
    → Settled s (fetched s player).0 []
      × (find (fetched s player).0.wallets player ≡ some (fetched s player).1)
fetched-Settled s player sound real =
    let f = fetch-Booked s.wallets player sound real in
    (
      record {
        booked = f.0;
        issue = sym (add_zero (issued s));
        idem = refl;
        results = refl;
        ledger = refl;
        ttl = refl;
      },
      f.1,
    )

-- Steps in a row.
pub Settled-quiet :
    (s t u : EconomySystem) (es : List Charge) → Settled s t es → Settled t u [] → Settled s u es
Settled-quiet s t u es first second = record {
  booked = Booked-quiet s.wallets t.wallets u.wallets es first.booked second.booked;
  issue = second.issue ∙ add_zero (issued t) ∙ first.issue;
  idem = second.idem ∙ first.idem;
  results = second.results ∙ first.results;
  ledger = second.ledger ∙ first.ledger;
  ttl = second.ttl ∙ first.ttl;
}

from_zero : (x y z b : ℤ) → x ≡ y +ℤ b → y ≡ z +ℤ pos 0 → x ≡ z +ℤ b
from_zero x y z b h k = h ∙ ap (λ v. v +ℤ b) (k ∙ add_zero z)

pub Settled-after :
    (s t u : EconomySystem) (es : List Charge) → Settled s t [] → Settled t u es → Settled s u es
Settled-after s t u es first second = record {
  booked = record {
    sound = second.booked.sound;
    total =
        from_zero (pos (money u.wallets)) (pos (money t.wallets)) (pos (money s.wallets))
          (sum_of es) second.booked.total first.booked.total;
    books = λ p c.
        from_zero (account u.wallets p c) (account t.wallets p c) (account s.wallets p c)
          (Books.booked es p c) (second.booked.books p c) (first.booked.books p c);
  };
  issue = from_zero (issued u) (issued t) (issued s) (sum_of es) second.issue first.issue;
  idem = second.idem ∙ first.idem;
  results = second.results ∙ first.results;
  ledger = second.ledger ∙ first.ledger;
  ttl = second.ttl ∙ first.ttl;
}
