-- ===== src/Economy/System/Retries.antt =====
-- Calls of EconomySystem::Execute that try a key again, with any other calls in between.
use cami.Common.{
  ℕ, ◌≡◌, sym, ap, subst, ◌∙◌, ◌≢◌, inl, inr, List, [], ◌∷◌, Bool, true, Bool-cases, arith,
}
use cami.Common.Bytes.{Bytes, bytes_eq, bytes_eq_sound, bytes_ne}
use cami.Common.Errors.{Result, ok, err, Result-cases}
use cami.Economy.Idempotency.{EconomyResult}
use cami.Economy.Command.{EconomyCommand, validate_command}
use cami.Economy.System.{EconomySystem, SinkEntry}
use cami.Economy.System.Operations.{Outcome}
use cami.Economy.System.Execute.{execute}
use cami.Economy.System.Books.{IsSound}
use cami.Economy.System.Settling.{took}
use cami.Economy.System.Conservation.{execute-Executed}
use cami.Economy.System.Others.{execute-Keeps}
use cami.Economy.System.Replay.{Holds, replayed, counted, execute-Holds}
use cami.Economy.System.Once.{execute-Remembered}
use cami.Economy.System.History.{Request, run}

abbrev value_or : EconomyResult → Result EconomyResult → EconomyResult
value_or other (ok res) = res
value_or other (err code) = other

-- The key has its first result, in a system in order.
abbrev Waits : Bytes → EconomyResult → EconomySystem → Type 0
Waits key first s = IsSound s.wallets × (s.idem_ttl ≢ 0) × Holds s key first

module _ (accepts : List SinkEntry → SinkEntry → Bool) where
  execute-IsSound :
      (s : EconomySystem) (now later : ℕ) (cmd : EconomyCommand)
      → IsSound s.wallets
      → IsSound (execute accepts s now later cmd).0.wallets
  execute-IsSound s now later cmd sound = elim (execute-Executed accepts s now later cmd sound) [
    | inl (none, answer) ↦ none.0.sound
    | inr (all, answer) ↦ all.0.sound
  ]

  own_key-Waits :
      (key : Bytes) (first : EconomyResult) (s : EconomySystem) (now later : ℕ)
      (cmd : EconomyCommand)
      → cmd.idempotency_key ≡ key
      → Waits key first s
      → Waits key first (execute accepts s now later cmd).0
  unfolding execute
  own_key-Waits key first s now later cmd is (sound, lasts, holds) =
      elim (Result-cases (validate_command cmd)) [
        | inr (code, bad) ↦ rw (bad, execute) (sound, lasts, holds)
        | inl (u, valid) ↦
            let again =
              execute-Holds accepts s now later cmd first valid lasts
                (subst (λ k. Holds s k first) (sym is) holds) in
            subst (λ (o : Outcome). Waits key first o.0) (sym again) (sound, lasts, holds)
      ]

  execute-Waits :
      (key : Bytes) (first : EconomyResult) (s : EconomySystem) (now later : ℕ)
      (cmd : EconomyCommand)
      → Waits key first s
      → Waits key first (execute accepts s now later cmd).0
  execute-Waits key first s now later cmd (sound, lasts, (row, at, is, has)) =
      elim (Bool-cases (bytes_eq cmd.idempotency_key key)) [
        | inl same ↦
            own_key-Waits key first s now later cmd (bytes_eq_sound cmd.idempotency_key key same)
              (sound, lasts, (row, at, is, has))
        | inr apart ↦
            let keeps =
              execute-Keeps accepts key s now later cmd sound
                (bytes_ne cmd.idempotency_key key apart) in
            (
              execute-IsSound s now later cmd sound,
              (λ z. lasts (sym keeps.1 ∙ z)),
              (row, keeps.0 ∙ at, is, has),
            )
      ]

  run-Waits :
      (rs : List Request) (key : Bytes) (first : EconomyResult) (s : EconomySystem)
      → Waits key first s
      → Waits key first (run accepts s rs)
  run-Waits [] key first s waits = waits
  run-Waits (r ∷ rs) key first s waits =
      run-Waits rs key first (execute accepts s r.now r.later r.command).0
        (execute-Waits key first s r.now r.later r.command waits)

  -- An operation takes effect once: when Execute has answered that a command took effect, then after
  -- any further calls, whatever they ask for and whenever they come, every command in order with the
  -- same key is answered with that same result, marked as given before, and changes nothing of the
  -- system but two counters. The wallets are in order, and the time to live is not 0.
  pub run-Once :
      (s : EconomySystem) (now later : ℕ) (cmd : EconomyCommand) (res : EconomyResult)
      (rs : List Request) (again : Request)
      → IsSound s.wallets
      → s.idem_ttl ≢ 0
      → (execute accepts s now later cmd).1 ≡ ok res
      → res.applied ≡ true
      → validate_command again.command ≡ ok tt
      → again.command.idempotency_key ≡ cmd.idempotency_key
      → execute accepts
          (run accepts (execute accepts s now later cmd).0 rs)
          again.now
          again.later
          again.command
        ≡ (counted (run accepts (execute accepts s now later cmd).0 rs), ok (replayed res))
  run-Once s now later cmd res rs again sound lasts answer done valid same =
      let key = cmd.idempotency_key in
      let o = execute accepts s now later cmd in
      elim (execute-Remembered accepts s now later cmd sound) [
        | inl undone ↦ absurd (ground (arith, undone, ap took answer, done))
        | inr (first, told, tells, holds, alike, ttl) ↦
            let waits =
              run-Waits rs key first o.0
                (execute-IsSound s now later cmd sound, (λ z. lasts (sym ttl ∙ z)), holds) in
            execute-Holds accepts (run accepts o.0 rs) again.now again.later again.command first
              valid waits.1 (subst (λ k. Holds (run accepts o.0 rs) k first) (sym same) waits.2)
            ∙ ap (λ r. (counted (run accepts o.0 rs), ok r))
                (alike ∙ ap replayed (ap (value_or res) (sym tells ∙ answer)))
      ]
