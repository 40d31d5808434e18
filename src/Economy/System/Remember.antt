-- ===== src/Economy/System/Remember.antt =====
-- EconomySystem::Execute: what an operation that took effect leaves behind for its key.
use cami.Common.{
  ℕ, ◌≡◌, refl, sym, ap, subst, ◌∙◌, ◌⊎◌, inl, inr, List, Bool, false, Option, none, some,
  if◌then◌else◌, Bool-cases, Option-cases,
}
use cami.Common.Bytes.{Bytes, find_key, put_key, find-put_self}
use cami.Common.Int.{ℤ, ◌-ℤ◌}
use cami.Common.Errors.{Result, ok, err}
use cami.Economy.Idempotency.{Idem, EconomyResult, commit}
use cami.Economy.Idempotency.Rows.{done_row, done_idem, commit-absent, commit-present}
use cami.Economy.Command.{EconomyCommand, validate_command}
use cami.Economy.System.{EconomySystem, SinkEntry, value_or_zero, balance}
use cami.Economy.System.Operations.{Outcome}
use cami.Economy.System.Execute.{
  dispatch, count_fail, count_applied, with_idem, abort_key, post_ledger, committed, remember,
  keep_result, conclude, settle, perform,
}
use cami.Economy.System.Books.{IsSound}
use cami.Economy.System.Settling.{took}
use cami.Economy.System.Memory.{kept_row, memory, memory-none, SameMemory}
use cami.Economy.System.Others.{dispatch-SameMemory, post_ledger-SameMemory}
use cami.Economy.System.Replay.{Holds, replayed}

-- An answer that says the operation took effect leaves a first result, which is the answer but for
-- the mark of a result that was given before.
abbrev pub Remembered : Bytes → ℕ → Outcome → Type 0
Remembered key ttl o =
    (took o.1 ≡ false)
    ⊎ ((first : EconomyResult) × (res : EconomyResult) × (o.1 ≡ ok res)
        × Holds o.0 key first
        × (replayed first ≡ replayed res)
        × (o.0.idem_ttl ≡ ttl))

-- The key is new to the system's own map, if it is that which remembers.
abbrev pub IsNew : EconomySystem → Bytes → Type 0
IsNew s key = s.idem ≡ none → find_key key s.idempotency ≡ none

pub done-Holds :
    (s : EconomySystem) (key : Bytes) (res : EconomyResult)
    → memory s key ≡ some (done_row res)
    → Holds s key res
done-Holds s key res at = (done_row res, at, refl, refl)

pub done_idem-Holds :
    (s : EconomySystem) (key : Bytes) (res : EconomyResult) (idem : Idem)
    → Holds (with_idem s (done_idem idem key res)) key res
done_idem-Holds s key res idem =
    done-Holds (with_idem s (done_idem idem key res)) key res
      (find-put_self key (done_row res) idem.rows)

committed-Remembered :
    (s : EconomySystem) (key : Bytes) (res : EconomyResult) (idem : Idem)
    → Remembered key s.idem_ttl (committed s res (commit idem key res))
committed-Remembered s key res idem =
    let P = λ (r : Idem × Result (Unit {0})). Remembered key s.idem_ttl (committed s res r) in
    elim (Option-cases (find_key key idem.rows)) [
      | inl absent ↦ subst P (sym (commit-absent idem key res absent)) (inl refl)
      | inr (row, present) ↦
          subst P (sym (commit-present idem key res row present))
            (inr (res, res, refl, done_idem-Holds s key res idem, refl, refl))
    ]

remember-Remembered :
    (s : EconomySystem) (cmd : EconomyCommand) (res : EconomyResult)
    → s.idem ≡ none
    → find_key cmd.idempotency_key s.idempotency ≡ none
    → Remembered cmd.idempotency_key s.idem_ttl (remember s cmd res, ok res)
remember-Remembered s cmd res lacks new =
    let key = cmd.idempotency_key in
    let u = record s { idempotency = put_key key res s.idempotency } in
    rw (new, remember)
      (inr (
        res,
        res,
        refl,
        done-Holds u key res
            (memory-none u key lacks ∙ ap kept_row (find-put_self key res s.idempotency)),
        refl,
        refl,
      ))

abbrev KeptAs : EconomySystem → EconomyCommand → EconomyResult → Option Idem → Type 0
KeptAs s cmd res m =
    let o : Outcome = elim m [
      | none ↦ (remember s cmd res, ok res)
      | some idem ↦ committed s res (commit idem cmd.idempotency_key res)
    ] in
    Remembered cmd.idempotency_key s.idem_ttl o

keep_result-Remembered :
    (s : EconomySystem) (cmd : EconomyCommand) (res : EconomyResult)
    → IsNew s cmd.idempotency_key
    → Remembered cmd.idempotency_key s.idem_ttl (keep_result s cmd res)
unfolding keep_result
keep_result-Remembered s cmd res new = elim (Option-cases s.idem) [
  | inl lacks ↦
      subst (KeptAs s cmd res) (sym lacks) (remember-Remembered s cmd res lacks (new lacks))
  | inr (idem, has) ↦
      subst (KeptAs s cmd res) (sym has) (committed-Remembered s cmd.idempotency_key res idem)
]

same-IsNew : (s u : EconomySystem) (key : Bytes) → SameMemory s u → IsNew s key → IsNew u key
same-IsNew s u key (idem, results, ttl) new lacks =
    ap (find_key key) results ∙ new (sym idem ∙ lacks)

Remembered-ttl :
    (key : Bytes) (a b : ℕ) (o : Outcome) → a ≡ b → Remembered key a o → Remembered key b o
Remembered-ttl key a b o same = subst (λ n. Remembered key n o) same

module _ (accepts : List SinkEntry → SinkEntry → Bool) where
  conclude-Remembered :
      (s : EconomySystem) (cmd : EconomyCommand) (res : EconomyResult) (before : ℤ)
      → IsNew s cmd.idempotency_key
      → Remembered cmd.idempotency_key s.idem_ttl (conclude accepts s cmd res before)
  unfolding conclude
  conclude-Remembered s cmd res before new =
      let t = count_applied s in
      let q = post_ledger accepts t cmd res (res.balance_after -ℤ before) in
      let same = post_ledger-SameMemory accepts t cmd res (res.balance_after -ℤ before) in
      let key = cmd.idempotency_key in
      Remembered-ttl key q.0.idem_ttl s.idem_ttl (keep_result q.0 cmd q.1) same.2
        (keep_result-Remembered q.0 cmd q.1 (same-IsNew t q.0 key same new))

  abbrev EndedAs : EconomySystem → EconomyCommand → EconomyResult → ℤ → Bool → Type 0
  EndedAs t cmd res before b =
      Remembered cmd.idempotency_key t.idem_ttl
        (if b then conclude accepts t cmd res before else (abort_key cmd (count_fail t), ok res))

  settle-Remembered :
      (cmd : EconomyCommand) (before : ℤ) (o : Outcome)
      → IsNew o.0 cmd.idempotency_key
      → Remembered cmd.idempotency_key o.0.idem_ttl (settle accepts cmd before o)
  settle-Remembered cmd before (t, err code) new = inl refl
  settle-Remembered cmd before (t, ok res) new = elim (Bool-cases res.applied) [
    | inl done ↦
        subst (EndedAs t cmd res before) (sym done) (conclude-Remembered t cmd res before new)
    | inr undone ↦ subst (EndedAs t cmd res before) (sym undone) (inl undone)
  ]

  pub perform-Remembered :
      (s : EconomySystem) (cmd : EconomyCommand)
      → IsSound s.wallets
      → validate_command cmd ≡ ok tt
      → IsNew s cmd.idempotency_key
      → Remembered cmd.idempotency_key s.idem_ttl (perform accepts s cmd)
  unfolding perform
  perform-Remembered s cmd sound valid new =
      let o = dispatch s cmd in
      let before = value_or_zero (balance s cmd.player cmd.currency) in
      let key = cmd.idempotency_key in
      let same = dispatch-SameMemory s cmd sound valid in
      Remembered-ttl key o.0.idem_ttl s.idem_ttl (settle accepts cmd before o) same.2
        (settle-Remembered cmd before o (same-IsNew s o.0 key same new))
