-- ===== src/Economy/System/Unmoved.antt =====
-- What Execute does besides its operation moves no money.
use cami.Common.{
  ◌≡◌, refl, sym, subst, ◌∙◌, ◌⊎◌, inl, inr, List, [], Bool, true, false, not, ◌&&◌, Option-cases,
}
use cami.Common.Int.{ℤ, ◌+ℤ◌}
use cami.Common.Errors.{Result, ok, err, internal_error}
use cami.Common.Bytes.{find_key}
use cami.Economy.Idempotency.{Idem, EconomyResult, commit}
use cami.Economy.Ledger.{Ledger}
use cami.Economy.Ledger.Operations.{append_entry}
use cami.Economy.Command.{EconomyCommand}
use cami.Economy.System.{EconomySystem}
use cami.Economy.System.Operations.{Outcome}
use cami.Economy.System.Execute.{
  count_fail, abort_key, ledger_entry, appended, post_to_ledger, committed, remember, keep_result,
}
use cami.Economy.System.Books.{Charge, sum_of, IsSound, Booked, Booked-none, add_zero}
use cami.Economy.System.Settling.{Settled, took, issued}
use cami.Economy.System.Money.{charges_of, IsMixed}

-- The charges were booked, and the issue of money grew by their sum.
abbrev pub Changed : EconomySystem → EconomySystem → List Charge → Type 0
Changed s u es = Booked s.wallets u.wallets es × (issued u ≡ issued s +ℤ sum_of es)

-- The wallets and the issue are the same.
abbrev pub Same : EconomySystem → EconomySystem → Type 0
Same s u = (u.wallets ≡ s.wallets) × (issued u ≡ issued s)

abbrev pub is_new : Result EconomyResult → Bool
is_new (ok res) = res.applied && not res.deduplicated
is_new (err code) = false

-- Either nothing was booked, and the answer is an error, a refusal or a first result again; or what
-- the command books was booked, and the answer says so, or says that the result could not be kept,
-- or is that of a transfer of which an item could not be moved.
abbrev pub Executed : EconomySystem → EconomyCommand → Outcome → Type 0
Executed s cmd o =
    (Changed s o.0 [] × (is_new o.1 ≡ false))
    ⊎ (Changed s o.0 (charges_of s cmd)
        × ((took o.1 ≡ true) ⊎ (o.1 ≡ err internal_error) ⊎ ((took o.1 ≡ false) × IsMixed cmd)))

pub Changed-Same :
    (s t u : EconomySystem) (es : List Charge) → Changed s t es → Same t u → Changed s u es
Changed-Same s t u es (booked, grown) (wallets, issue) =
    (subst (λ v. Booked s.wallets v es) (sym wallets) booked, issue ∙ grown)

pub Settled-Changed : (s u : EconomySystem) (es : List Charge) → Settled s u es → Changed s u es
Settled-Changed s u es settled = (settled.booked, settled.issue)

pub unchanged : (s u : EconomySystem) → IsSound s.wallets → Same s u → Changed s u []
unchanged s u sound same =
    Changed-Same s s u [] (Booked-none s.wallets sound, sym (add_zero (issued s))) same

pub abort_key-Same :
    (cmd : EconomyCommand) (s : EconomySystem) → Same s (abort_key cmd (count_fail s))
abort_key-Same cmd s = elim (Option-cases s.idem) [
  | inl lacks ↦ rw (lacks, abort_key) (refl, refl)
  | inr (idem, has) ↦ rw (has, abort_key) (refl, refl)
]

appended-Same :
    (s : EconomySystem) (res : EconomyResult) (r : Ledger × Result (Unit {0}))
    → Same s (appended s res r).0 × ((appended s res r).1.applied ≡ res.applied)
appended-Same s res (l, ok _) = ((refl, refl), refl)
appended-Same s res (l, err _) = ((refl, refl), refl)

pub post_to_ledger-Same :
    (s : EconomySystem) (cmd : EconomyCommand) (res : EconomyResult) (delta : ℤ)
    → Same s (post_to_ledger s cmd res delta).0
      × ((post_to_ledger s cmd res delta).1.applied ≡ res.applied)
unfolding post_to_ledger
post_to_ledger-Same s cmd res delta = elim (Option-cases s.ledger) [
  | inl lacks ↦ rw (lacks, post_to_ledger) ((refl, refl), refl)
  | inr (l, has) ↦
      rw (has, post_to_ledger) (appended-Same s res (append_entry l (ledger_entry cmd res delta)))
]

committed-Same :
    (s : EconomySystem) (res : EconomyResult) (r : Idem × Result (Unit {0}))
    → Same s (committed s res r).0
      × (((committed s res r).1 ≡ ok res) ⊎ ((committed s res r).1 ≡ err internal_error))
committed-Same s res (idem, ok _) = ((refl, refl), inl refl)
committed-Same s res (idem, err _) = ((refl, refl), inr refl)

pub and_false : (b : Bool) → (b && false) ≡ false
and_false true = refl
and_false false = refl

pub keep_result-Same :
    (s : EconomySystem) (cmd : EconomyCommand) (res : EconomyResult)
    → Same s (keep_result s cmd res).0
      × (((keep_result s cmd res).1 ≡ ok res) ⊎ ((keep_result s cmd res).1 ≡ err internal_error))
unfolding keep_result
keep_result-Same s cmd res = elim (Option-cases s.idem) [
  | inl lacks ↦ elim (Option-cases (find_key cmd.idempotency_key s.idempotency)) [
    | inl new ↦ rw (lacks, keep_result) (rw (new, remember) ((refl, refl), inl refl))
    | inr (old, known) ↦ rw (lacks, keep_result) (rw (known, remember) ((refl, refl), inl refl))
  ]
  | inr (idem, has) ↦
      rw (has, keep_result) (committed-Same s res (commit idem cmd.idempotency_key res))
]
