-- ===== src/Economy/System/Conservation.antt =====
-- EconomySystem::Execute and the money of all players.
use cami.Common.{
  ℕ, ◌≡◌, refl, sym, ap, subst, ◌∙◌, ◌⊎◌, inl, inr, List, [], Bool, true, Option, none, some, not,
  ◌&&◌, if◌then◌else◌, Bool-cases, Option-cases,
}
use cami.Common.Int.{ℤ, ◌-ℤ◌}
use cami.Common.Errors.{Result, ok, err, internal_error, Result-cases}
use cami.Common.Bytes.{find_key}
use cami.Economy.Idempotency.{
  Idem, IdemStatus, EconomyResult, fresh, in_flight, completed, failed, try_begin, commit, abort,
  lookup_result,
}
use cami.Economy.Command.{EconomyCommand, validate_command}
use cami.Economy.System.{EconomySystem, SinkEntry, value_or_zero, balance}
use cami.Economy.System.Operations.{Outcome}
use cami.Economy.System.Execute.{
  dispatch, count_op, count_fail, count_applied, count_dedup, busy_answer, with_idem, abort_key,
  sink_entry, post_to_ledger, keep_result, in_ledger, recovered, post_to_sink, post_ledger,
  conclude, settle, perform, begun_again, recover, replay, begun, perform_once, execute_valid,
  execute, reject_from_wallets,
}
use cami.Economy.System.Books.{IsSound}
use cami.Economy.System.Settling.{took}
use cami.Economy.System.Money.{charges_of, Dispatched, dispatch-Dispatched}
use cami.Economy.System.Unmoved.{
  Same, Executed, Changed-Same, Settled-Changed, unchanged, abort_key-Same, post_to_ledger-Same,
  and_false, keep_result-Same,
}

module _ (accepts : List SinkEntry → SinkEntry → Bool) where
  post_to_sink-Same :
      (cmd : EconomyCommand) (s : EconomySystem) (res : EconomyResult)
      → Same s (post_to_sink accepts cmd (s, res)).0
        × ((post_to_sink accepts cmd (s, res)).1.applied ≡ res.applied)
  post_to_sink-Same cmd s res = elim (Option-cases s.sink) [
    | inl lacks ↦ rw (lacks, post_to_sink) ((refl, refl), refl)
    | inr (given, has) ↦ elim (Bool-cases (accepts given (sink_entry cmd res))) [
      | inl taken ↦ rw (has, post_to_sink) (rw taken ((refl, refl), refl))
      | inr refused ↦ rw (has, post_to_sink) (rw refused ((refl, refl), refl))
    ]
  ]

  conclude-Same :
      (s : EconomySystem) (cmd : EconomyCommand) (res : EconomyResult) (before : ℤ)
      → res.applied ≡ true
      → Same s (conclude accepts s cmd res before).0
        × ((took (conclude accepts s cmd res before).1 ≡ true)
            ⊎ ((conclude accepts s cmd res before).1 ≡ err internal_error))
  unfolding conclude post_ledger
  conclude-Same s cmd res before applied =
      let delta = res.balance_after -ℤ before in
      let p = post_to_ledger (count_applied s) cmd res delta in
      let q = post_to_sink accepts cmd p in
      let first = post_to_ledger-Same (count_applied s) cmd res delta in
      let second = post_to_sink-Same cmd p.0 p.1 in
      let third = keep_result-Same q.0 cmd q.1 in
      let same : Same s (keep_result q.0 cmd q.1).0 =
        (third.0.0 ∙ second.0.0 ∙ first.0.0, third.0.1 ∙ second.0.1 ∙ first.0.1) in
      (
        same,
        elim (third.1) [
          | inl kept ↦ inl (ap took kept ∙ second.1 ∙ first.1 ∙ applied)
          | inr lost ↦ inr lost
        ],
      )

  abbrev Concluded :
      EconomySystem → EconomySystem → EconomyCommand → EconomyResult → ℤ → Bool → Type 0
  Concluded s t cmd res before b =
      Executed s cmd
        (if b then conclude accepts t cmd res before else (abort_key cmd (count_fail t), ok res))

  settle-Executed :
      (s : EconomySystem) (cmd : EconomyCommand) (before : ℤ) (o : Outcome)
      → Dispatched s cmd o (charges_of s cmd)
      → Executed s cmd (settle accepts cmd before o)
  settle-Executed s cmd before (t, err code) (inl (done, settled)) = cc
  settle-Executed s cmd before (t, err code) (inr (inl (undone, settled))) = inl (
    Changed-Same s t (abort_key cmd (count_fail t)) [] (Settled-Changed s t [] settled)
        (abort_key-Same cmd t),
    refl,
  )
  settle-Executed s cmd before (t, err code) (inr (inr (undone, settled, partly))) = inr (
    Changed-Same s t (abort_key cmd (count_fail t)) (charges_of s cmd)
        (Settled-Changed s t (charges_of s cmd) settled) (abort_key-Same cmd t),
    inr (inr (refl, partly)),
  )
  settle-Executed s cmd before (t, ok res) (inl (done, settled)) =
      let c = conclude-Same t cmd res before done in
      subst (Concluded s t cmd res before) (sym done) (
        inr (
          Changed-Same s t (conclude accepts t cmd res before).0 (charges_of s cmd)
              (Settled-Changed s t (charges_of s cmd) settled) c.0,
          elim (c.1) [ inl told ↦ inl told | inr lost ↦ inr (inl lost) ],
        ))
  settle-Executed s cmd before (t, ok res) (inr (inl (undone, settled))) =
      subst (Concluded s t cmd res before) (sym undone) (
        inl (
          Changed-Same s t (abort_key cmd (count_fail t)) [] (Settled-Changed s t [] settled)
              (abort_key-Same cmd t),
          ap (λ b. b && not res.deduplicated) undone,
        ))
  settle-Executed s cmd before (t, ok res) (inr (inr (undone, settled, partly))) =
      subst (Concluded s t cmd res before) (sym undone) (
        inr (
          Changed-Same s t (abort_key cmd (count_fail t)) (charges_of s cmd)
              (Settled-Changed s t (charges_of s cmd) settled) (abort_key-Same cmd t),
          inr (inr (undone, partly)),
        ))

  perform-Executed :
      (s : EconomySystem) (cmd : EconomyCommand)
      → IsSound s.wallets
      → validate_command cmd ≡ ok tt
      → Executed s cmd (perform accepts s cmd)
  unfolding perform
  perform-Executed s cmd sound valid =
      settle-Executed s cmd (value_or_zero (balance s cmd.player cmd.currency)) (dispatch s cmd)
        (dispatch-Dispatched s cmd sound valid)

  busy-Executed :
      (s : EconomySystem) (cmd : EconomyCommand)
      → IsSound s.wallets
      → Executed s cmd (busy_answer s cmd)
  unfolding reject_from_wallets
  busy-Executed s cmd sound = inl (unchanged s (busy_answer s cmd).0 sound (refl, refl), refl)

  replay-Executed :
      (s : EconomySystem) (cmd : EconomyCommand) (found : Option EconomyResult)
      → IsSound s.wallets
      → Executed s cmd (replay accepts s cmd found)
  replay-Executed s cmd none sound = busy-Executed s cmd sound
  replay-Executed s cmd (some res) sound =
      inl (unchanged s (count_dedup s) sound (refl, refl), and_false res.applied)

  begun_again-Executed :
      (s : EconomySystem) (cmd : EconomyCommand) (r : Idem × Result IdemStatus)
      → IsSound s.wallets
      → validate_command cmd ≡ ok tt
      → Executed s cmd (begun_again accepts s cmd r)
  begun_again-Executed s cmd (idem, ok fresh) sound valid =
      perform-Executed (with_idem s idem) cmd sound valid
  begun_again-Executed s cmd (idem, ok in_flight) sound valid =
      busy-Executed (with_idem s idem) cmd sound
  begun_again-Executed s cmd (idem, ok completed) sound valid =
      busy-Executed (with_idem s idem) cmd sound
  begun_again-Executed s cmd (idem, ok failed) sound valid =
      busy-Executed (with_idem s idem) cmd sound
  begun_again-Executed s cmd (idem, err _) sound valid = busy-Executed (with_idem s idem) cmd sound

  recover-Executed :
      (s : EconomySystem) (later : ℕ) (cmd : EconomyCommand) (idem : Idem)
      → IsSound s.wallets
      → validate_command cmd ≡ ok tt
      → Executed s cmd (recover accepts s later cmd idem)
  unfolding recover
  recover-Executed s later cmd idem sound valid =
      elim (Option-cases (in_ledger s cmd.idempotency_key)) [
        | inr (e, found) ↦
            rw (found, recover)
              (inl (
                unchanged s (with_idem s (commit idem cmd.idempotency_key (recovered e)).0) sound
                    (refl, refl),
                refl,
              ))
        | inl missing ↦
            rw (missing, recover)
              (begun_again-Executed s cmd
                (try_begin (abort idem cmd.idempotency_key) later cmd.idempotency_key s.idem_ttl)
                sound valid)
      ]

  begun-Executed :
      (s : EconomySystem) (later : ℕ) (cmd : EconomyCommand) (r : Idem × Result IdemStatus)
      → IsSound s.wallets
      → validate_command cmd ≡ ok tt
      → Executed s cmd (begun accepts s later cmd r)
  begun-Executed s later cmd (idem, err code) sound valid =
      inl (unchanged s (count_fail (with_idem s idem)) sound (refl, refl), refl)
  begun-Executed s later cmd (idem, ok completed) sound valid =
      replay-Executed (with_idem s idem) cmd (lookup_result idem cmd.idempotency_key) sound
  begun-Executed s later cmd (idem, ok in_flight) sound valid =
      busy-Executed (with_idem s idem) cmd sound
  begun-Executed s later cmd (idem, ok failed) sound valid =
      recover-Executed (with_idem s idem) later cmd idem sound valid
  begun-Executed s later cmd (idem, ok fresh) sound valid =
      perform-Executed (with_idem s idem) cmd sound valid

  execute_valid-Executed :
      (s : EconomySystem) (now later : ℕ) (cmd : EconomyCommand)
      → IsSound s.wallets
      → validate_command cmd ≡ ok tt
      → Executed s cmd (execute_valid accepts s now later cmd)
  unfolding execute_valid perform_once
  execute_valid-Executed s now later cmd sound valid = elim (Option-cases s.idem) [
    | inr (idem, has) ↦
        rw (has, execute_valid)
          (begun-Executed s later cmd (try_begin idem now cmd.idempotency_key s.idem_ttl) sound
            valid)
    | inl lacks ↦
        rw (lacks, execute_valid)
          (elim (Option-cases (find_key cmd.idempotency_key s.idempotency)) [
            | inl new ↦ rw (new, perform_once) (perform-Executed s cmd sound valid)
            | inr (res, known) ↦
                rw (known, perform_once)
                  (inl (unchanged s (count_dedup s) sound (refl, refl), and_false res.applied))
          ])
  ]

  -- One Execute, on wallets in order and whatever the idempotency store, the ledger and the sink
  -- answer. Either nothing is booked for anyone, and the answer is an error, a refusal or the first
  -- result again; or exactly what the command stands for is booked, for its players and currency,
  -- with the money issued in step, and the answer is a result that took effect, or the error that
  -- the result could not be kept, or the refusal of a transfer of money with items.
  pub execute-Executed :
      (s : EconomySystem) (now later : ℕ) (cmd : EconomyCommand)
      → IsSound s.wallets
      → Executed s cmd (execute accepts s now later cmd)
  unfolding execute
  execute-Executed s now later cmd sound = elim (Result-cases (validate_command cmd)) [
    | inr (code, bad) ↦
        rw (bad, execute) (inl (unchanged s (count_fail (count_op s)) sound (refl, refl), refl))
    | inl (u, valid) ↦
        rw (valid, execute) (execute_valid-Executed (count_op s) now later cmd sound valid)
  ]
