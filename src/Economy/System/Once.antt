-- ===== src/Economy/System/Once.antt =====
-- EconomySystem::Execute: an operation of one key takes effect once.
use cami.Common.{
  ℕ, ◌≡◌, refl, sym, ap, subst, ◌∙◌, inl, inr, List, Bool, Option, none, some, Option-cases,
}
use cami.Common.Bytes.{Bytes, find_key}
use cami.Common.Errors.{Result, ok, err, Result-cases}
use cami.Economy.Idempotency.{
  Idem, IdemRow, IdemStatus, fresh, in_flight, completed, failed, try_begin, abort, lookup_result,
}
use cami.Economy.Idempotency.Rows.{commit-present, lookup_result-some, HasRow, try_begin-HasRow}
use cami.Economy.Command.{EconomyCommand, validate_command}
use cami.Economy.System.{EconomySystem, SinkEntry}
use cami.Economy.System.Operations.{Outcome}
use cami.Economy.System.Execute.{
  busy_answer, count_op, count_dedup, with_idem, in_ledger, recovered, begun_again, recover, replay,
  begun, perform_once, execute_valid, execute, reject_from_wallets,
}
use cami.Economy.System.Books.{IsSound}
use cami.Economy.System.Memory.{kept_row, memory-none}
use cami.Economy.System.Remember.{
  done-Holds, Remembered, IsNew, done_idem-Holds, perform-Remembered,
}
use cami.Economy.System.Replay.{replayed}

module _ (accepts : List SinkEntry → SinkEntry → Bool) where
  busy-Remembered :
      (key : Bytes) (ttl : ℕ) (s : EconomySystem) (cmd : EconomyCommand)
      → Remembered key ttl (busy_answer s cmd)
  unfolding reject_from_wallets
  busy-Remembered key ttl s cmd = inl refl

  stored-IsNew : (s : EconomySystem) (idem : Idem) (key : Bytes) → IsNew (with_idem s idem) key
  stored-IsNew s idem key lacks = cc

  begun_again-Remembered :
      (s : EconomySystem) (cmd : EconomyCommand) (r : Idem × Result IdemStatus)
      → IsSound s.wallets
      → validate_command cmd ≡ ok tt
      → Remembered cmd.idempotency_key s.idem_ttl (begun_again accepts s cmd r)
  begun_again-Remembered s cmd (idem, ok fresh) sound valid =
      perform-Remembered accepts (with_idem s idem) cmd sound valid
        (stored-IsNew s idem cmd.idempotency_key)
  begun_again-Remembered s cmd (idem, ok in_flight) sound valid =
      busy-Remembered cmd.idempotency_key s.idem_ttl (with_idem s idem) cmd
  begun_again-Remembered s cmd (idem, ok completed) sound valid =
      busy-Remembered cmd.idempotency_key s.idem_ttl (with_idem s idem) cmd
  begun_again-Remembered s cmd (idem, ok failed) sound valid =
      busy-Remembered cmd.idempotency_key s.idem_ttl (with_idem s idem) cmd
  begun_again-Remembered s cmd (idem, err code) sound valid =
      busy-Remembered cmd.idempotency_key s.idem_ttl (with_idem s idem) cmd

  recover-Remembered :
      (s : EconomySystem) (later : ℕ) (cmd : EconomyCommand) (idem : Idem) (row : IdemRow)
      → find_key cmd.idempotency_key idem.rows ≡ some row
      → IsSound s.wallets
      → validate_command cmd ≡ ok tt
      → Remembered cmd.idempotency_key s.idem_ttl (recover accepts s later cmd idem)
  unfolding recover
  recover-Remembered s later cmd idem row present sound valid =
      let key = cmd.idempotency_key in
      elim (Option-cases (in_ledger s key)) [
        | inl missing ↦
            rw (missing, recover)
              (begun_again-Remembered s cmd (try_begin (abort idem key) later key s.idem_ttl) sound
                valid)
        | inr (e, found) ↦
            let res = recovered e in
            let P = λ (r : Idem × Result (Unit {0})).
              Remembered key s.idem_ttl (count_dedup (with_idem s r.0), ok res) in
            rw (found, recover)
              (subst P (sym (commit-present idem key res row present))
                (inr (res, res, refl, done_idem-Holds s key res idem, refl, refl)))
      ]

  replay-Remembered :
      (s : EconomySystem) (cmd : EconomyCommand) (idem : Idem)
      → Remembered cmd.idempotency_key s.idem_ttl
          (replay accepts (with_idem s idem) cmd (lookup_result idem cmd.idempotency_key))
  replay-Remembered s cmd idem =
      let key = cmd.idempotency_key in
      let t = with_idem s idem in
      elim (Option-cases (lookup_result idem key)) [
        | inl missing ↦ rw (missing, replay) (busy-Remembered key s.idem_ttl t cmd)
        | inr (res, found) ↦
            rw (found, replay)
              (inr (res, replayed res, refl, lookup_result-some idem key res found, refl, refl))
      ]

  begun-Remembered :
      (s : EconomySystem) (later : ℕ) (cmd : EconomyCommand) (r : Idem × Result IdemStatus)
      → HasRow cmd.idempotency_key r
      → IsSound s.wallets
      → validate_command cmd ≡ ok tt
      → Remembered cmd.idempotency_key s.idem_ttl (begun accepts s later cmd r)
  begun-Remembered s later cmd (idem, err code) row sound valid = inl refl
  begun-Remembered s later cmd (idem, ok completed) row sound valid = replay-Remembered s cmd idem
  begun-Remembered s later cmd (idem, ok in_flight) row sound valid =
      busy-Remembered cmd.idempotency_key s.idem_ttl (with_idem s idem) cmd
  begun-Remembered s later cmd (idem, ok failed) row sound valid =
      recover-Remembered (with_idem s idem) later cmd idem (row refl).0 (row refl).1 sound valid
  begun-Remembered s later cmd (idem, ok fresh) row sound valid =
      perform-Remembered accepts (with_idem s idem) cmd sound valid
        (stored-IsNew s idem cmd.idempotency_key)

  perform_once-Remembered :
      (s : EconomySystem) (cmd : EconomyCommand)
      → s.idem ≡ none
      → IsSound s.wallets
      → validate_command cmd ≡ ok tt
      → Remembered cmd.idempotency_key s.idem_ttl (perform_once accepts s cmd)
  unfolding perform_once
  perform_once-Remembered s cmd lacks sound valid =
      let key = cmd.idempotency_key in
      elim (Option-cases (find_key key s.idempotency)) [
        | inl new ↦ rw (new, perform_once) (perform-Remembered accepts s cmd sound valid (λ e. new))
        | inr (res, known) ↦
            rw (known, perform_once)
              (inr (
                res,
                replayed res,
                refl,
                done-Holds (count_dedup s) key res (memory-none s key lacks ∙ ap kept_row known),
                refl,
                refl,
              ))
      ]

  abbrev BegunAs : EconomySystem → ℕ → ℕ → EconomyCommand → Option Idem → Type 0
  BegunAs s now later cmd m =
      let o : Outcome = elim m [
        | none ↦ perform_once accepts s cmd
        | some idem ↦ begun accepts s later cmd (try_begin idem now cmd.idempotency_key s.idem_ttl)
      ] in
      Remembered cmd.idempotency_key s.idem_ttl o

  execute_valid-Remembered :
      (s : EconomySystem) (now later : ℕ) (cmd : EconomyCommand)
      → IsSound s.wallets
      → validate_command cmd ≡ ok tt
      → Remembered cmd.idempotency_key s.idem_ttl (execute_valid accepts s now later cmd)
  unfolding execute_valid
  execute_valid-Remembered s now later cmd sound valid = elim (Option-cases s.idem) [
    | inl lacks ↦
        subst (BegunAs s now later cmd) (sym lacks)
          (perform_once-Remembered s cmd lacks sound valid)
    | inr (idem, has) ↦
        let key = cmd.idempotency_key in
        subst (BegunAs s now later cmd) (sym has) (
          begun-Remembered s later cmd (try_begin idem now key s.idem_ttl)
            (try_begin-HasRow idem now key s.idem_ttl) sound valid)
  ]

  pub execute-Remembered :
      (s : EconomySystem) (now later : ℕ) (cmd : EconomyCommand)
      → IsSound s.wallets
      → Remembered cmd.idempotency_key s.idem_ttl (execute accepts s now later cmd)
  unfolding execute
  execute-Remembered s now later cmd sound = elim (Result-cases (validate_command cmd)) [
    | inr (code, bad) ↦ rw (bad, execute) (inl refl)
    | inl (u, valid) ↦
        rw (valid, execute) (execute_valid-Remembered (count_op s) now later cmd sound valid)
  ]
