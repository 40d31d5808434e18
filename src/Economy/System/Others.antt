-- ===== src/Economy/System/Others.antt =====
-- EconomySystem::Execute leaves what is remembered of other keys.
use cami.Common.{
  ℕ, ◌≡◌, refl, sym, subst, ◌∙◌, ◌≢◌, inl, inr, List, Bool, Option, none, some, if◌then◌else◌,
  Bool-cases, Option-cases,
}
use cami.Common.Bytes.{Bytes, find_key, find-erase_ne}
use cami.Common.Int.{ℤ, ◌-ℤ◌}
use cami.Common.Errors.{Result, ok, err, Result-cases}
use cami.Economy.Idempotency.{
  Idem, IdemStatus, EconomyResult, fresh, in_flight, completed, failed, try_begin, commit, abort,
  lookup_result,
}
use cami.Economy.Idempotency.Once.{try_begin-Writes, commit-Writes}
use cami.Economy.Command.{EconomyCommand, validate_command}
use cami.Economy.System.{EconomySystem, SinkEntry, value_or_zero, balance}
use cami.Economy.System.Operations.{Outcome}
use cami.Economy.System.Execute.{
  dispatch, count_op, count_fail, count_applied, with_idem, abort_key, sink_entry, post_to_ledger,
  keep_result, in_ledger, recovered, post_to_sink, post_ledger, conclude, settle, perform,
  begun_again, recover, replay, begun, perform_once, execute_valid, execute,
}
use cami.Economy.System.Books.{IsSound}
use cami.Economy.System.Money.{dispatch-Dispatched}
use cami.Economy.System.Memory.{
  Keeps, Keeps-then, SameMemory, SameMemory-Keeps, with_idem-Keeps, abort_key-Keeps,
  post_to_ledger-SameMemory, keep_result-Keeps, memory-some,
}

pub dispatch-SameMemory :
    (s : EconomySystem) (cmd : EconomyCommand)
    → IsSound s.wallets
    → validate_command cmd ≡ ok tt
    → SameMemory s (dispatch s cmd).0
dispatch-SameMemory s cmd sound valid = elim (dispatch-Dispatched s cmd sound valid) [
  | inl (done, settled) ↦ (settled.idem, settled.results, settled.ttl)
  | inr (inl (undone, settled)) ↦ (settled.idem, settled.results, settled.ttl)
  | inr (inr (undone, settled, partly)) ↦ (settled.idem, settled.results, settled.ttl)
]

-- An abort of another key.
abort-Keeps :
    (k other : Bytes) (s : EconomySystem) (idem : Idem)
    → s.idem ≡ some idem
    → other ≢ k
    → Keeps k s (with_idem s (abort idem other))
unfolding abort
abort-Keeps k other s idem has apart =
    (find-erase_ne other k idem.rows apart ∙ sym (memory-some s idem k has), refl)

module _ (accepts : List SinkEntry → SinkEntry → Bool) where
  post_to_sink-SameMemory :
      (cmd : EconomyCommand) (s : EconomySystem) (res : EconomyResult)
      → SameMemory s (post_to_sink accepts cmd (s, res)).0
  post_to_sink-SameMemory cmd s res = elim (Option-cases s.sink) [
    | inl lacks ↦ rw (lacks, post_to_sink) (refl, refl, refl)
    | inr (given, has) ↦ elim (Bool-cases (accepts given (sink_entry cmd res))) [
      | inl taken ↦ rw (has, post_to_sink) (rw taken (refl, refl, refl))
      | inr refused ↦ rw (has, post_to_sink) (rw refused (refl, refl, refl))
    ]
  ]

  -- PostLedger touches no memory.
  pub post_ledger-SameMemory :
      (s : EconomySystem) (cmd : EconomyCommand) (res : EconomyResult) (delta : ℤ)
      → SameMemory s (post_ledger accepts s cmd res delta).0
  unfolding post_ledger
  post_ledger-SameMemory s cmd res delta =
      let p = post_to_ledger s cmd res delta in
      let first = post_to_ledger-SameMemory s cmd res delta in
      let second = post_to_sink-SameMemory cmd p.0 p.1 in
      (second.0 ∙ first.0, second.1 ∙ first.1, second.2 ∙ first.2)

  conclude-Keeps :
      (k : Bytes) (s : EconomySystem) (cmd : EconomyCommand) (res : EconomyResult) (before : ℤ)
      → cmd.idempotency_key ≢ k
      → Keeps k s (conclude accepts s cmd res before).0
  unfolding conclude
  conclude-Keeps k s cmd res before apart =
      let t = count_applied s in
      let delta = res.balance_after -ℤ before in
      let q = post_ledger accepts t cmd res delta in
      Keeps-then k s q.0 (keep_result q.0 cmd q.1).0
        (SameMemory-Keeps k t q.0 (post_ledger-SameMemory t cmd res delta))
        (keep_result-Keeps k q.0 cmd q.1 apart)

  abbrev Ended :
      Bytes → EconomySystem → EconomySystem → EconomyCommand → EconomyResult → ℤ → Bool → Type 0
  Ended k s t cmd res before b =
      let o : Outcome =
        if b then conclude accepts t cmd res before else (abort_key cmd (count_fail t), ok res) in
      Keeps k s o.0

  settle-Keeps :
      (k : Bytes) (s : EconomySystem) (cmd : EconomyCommand) (before : ℤ) (o : Outcome)
      → SameMemory s o.0
      → cmd.idempotency_key ≢ k
      → Keeps k s (settle accepts cmd before o).0
  settle-Keeps k s cmd before (t, err code) same apart =
      Keeps-then k s t (abort_key cmd (count_fail t)) (SameMemory-Keeps k s t same)
        (abort_key-Keeps k t cmd apart)
  settle-Keeps k s cmd before (t, ok res) same apart = elim (Bool-cases res.applied) [
    | inl done ↦ subst (Ended k s t cmd res before) (sym done) (
        Keeps-then k s t (conclude accepts t cmd res before).0 (SameMemory-Keeps k s t same)
          (conclude-Keeps k t cmd res before apart))
    | inr undone ↦ subst (Ended k s t cmd res before) (sym undone) (
        Keeps-then k s t (abort_key cmd (count_fail t)) (SameMemory-Keeps k s t same)
          (abort_key-Keeps k t cmd apart))
  ]

  perform-Keeps :
      (k : Bytes) (s : EconomySystem) (cmd : EconomyCommand)
      → IsSound s.wallets
      → validate_command cmd ≡ ok tt
      → cmd.idempotency_key ≢ k
      → Keeps k s (perform accepts s cmd).0
  unfolding perform
  perform-Keeps k s cmd sound valid apart =
      settle-Keeps k s cmd (value_or_zero (balance s cmd.player cmd.currency)) (dispatch s cmd)
        (dispatch-SameMemory s cmd sound valid) apart

  begun_again-Keeps :
      (k : Bytes) (b s : EconomySystem) (cmd : EconomyCommand) (r : Idem × Result IdemStatus)
      → IsSound s.wallets
      → validate_command cmd ≡ ok tt
      → cmd.idempotency_key ≢ k
      → Keeps k b (with_idem s r.0)
      → Keeps k b (begun_again accepts s cmd r).0
  begun_again-Keeps k b s cmd (idem, ok fresh) sound valid apart keeps =
      Keeps-then k b (with_idem s idem) (perform accepts (with_idem s idem) cmd).0 keeps
        (perform-Keeps k (with_idem s idem) cmd sound valid apart)
  begun_again-Keeps k b s cmd (idem, ok in_flight) sound valid apart keeps = keeps
  begun_again-Keeps k b s cmd (idem, ok completed) sound valid apart keeps = keeps
  begun_again-Keeps k b s cmd (idem, ok failed) sound valid apart keeps = keeps
  begun_again-Keeps k b s cmd (idem, err code) sound valid apart keeps = keeps

  recover-Keeps :
      (k : Bytes) (s : EconomySystem) (later : ℕ) (cmd : EconomyCommand) (idem : Idem)
      → s.idem ≡ some idem
      → IsSound s.wallets
      → validate_command cmd ≡ ok tt
      → cmd.idempotency_key ≢ k
      → Keeps k s (recover accepts s later cmd idem).0
  unfolding recover
  recover-Keeps k s later cmd idem has sound valid apart =
      let key = cmd.idempotency_key in
      let a = abort idem key in
      let again = try_begin a later key s.idem_ttl in
      elim (Option-cases (in_ledger s key)) [
        | inr (e, found) ↦
            rw (found, recover)
              (with_idem-Keeps k key s idem (commit idem key (recovered e)).0 has apart
                (commit-Writes idem key (recovered e)))
        | inl missing ↦
            rw (missing, recover)
              (begun_again-Keeps k s s cmd again sound valid apart (
                Keeps-then k s (with_idem s a) (with_idem s again.0)
                  (abort-Keeps k key s idem has apart)
                  (with_idem-Keeps k key (with_idem s a) a again.0 refl apart
                    (try_begin-Writes a later key s.idem_ttl))))
      ]

  begun-Keeps :
      (k : Bytes) (s : EconomySystem) (later : ℕ) (cmd : EconomyCommand)
      (r : Idem × Result IdemStatus)
      → IsSound s.wallets
      → validate_command cmd ≡ ok tt
      → cmd.idempotency_key ≢ k
      → Keeps k s (with_idem s r.0)
      → Keeps k s (begun accepts s later cmd r).0
  begun-Keeps k s later cmd (idem, err code) sound valid apart keeps = keeps
  begun-Keeps k s later cmd (idem, ok completed) sound valid apart keeps =
      elim (Option-cases (lookup_result idem cmd.idempotency_key)) [
        | inl missing ↦ rw (missing, replay) keeps
        | inr (res, found) ↦ rw (found, replay) keeps
      ]
  begun-Keeps k s later cmd (idem, ok in_flight) sound valid apart keeps = keeps
  begun-Keeps k s later cmd (idem, ok failed) sound valid apart keeps =
      Keeps-then k s (with_idem s idem) (recover accepts (with_idem s idem) later cmd idem).0 keeps
        (recover-Keeps k (with_idem s idem) later cmd idem refl sound valid apart)
  begun-Keeps k s later cmd (idem, ok fresh) sound valid apart keeps =
      Keeps-then k s (with_idem s idem) (perform accepts (with_idem s idem) cmd).0 keeps
        (perform-Keeps k (with_idem s idem) cmd sound valid apart)

  perform_once-Keeps :
      (k : Bytes) (s : EconomySystem) (cmd : EconomyCommand)
      → IsSound s.wallets
      → validate_command cmd ≡ ok tt
      → cmd.idempotency_key ≢ k
      → Keeps k s (perform_once accepts s cmd).0
  unfolding perform_once
  perform_once-Keeps k s cmd sound valid apart =
      elim (Option-cases (find_key cmd.idempotency_key s.idempotency)) [
        | inl new ↦ rw (new, perform_once) (perform-Keeps k s cmd sound valid apart)
        | inr (res, known) ↦ rw (known, perform_once) (refl, refl)
      ]

  abbrev Begun : Bytes → EconomySystem → ℕ → ℕ → EconomyCommand → Option Idem → Type 0
  Begun k s now later cmd m =
      let o : Outcome = elim m [
        | none ↦ perform_once accepts s cmd
        | some idem ↦ begun accepts s later cmd (try_begin idem now cmd.idempotency_key s.idem_ttl)
      ] in
      Keeps k s o.0

  execute_valid-Keeps :
      (k : Bytes) (s : EconomySystem) (now later : ℕ) (cmd : EconomyCommand)
      → IsSound s.wallets
      → validate_command cmd ≡ ok tt
      → cmd.idempotency_key ≢ k
      → Keeps k s (execute_valid accepts s now later cmd).0
  unfolding execute_valid
  execute_valid-Keeps k s now later cmd sound valid apart = elim (Option-cases s.idem) [
    | inl lacks ↦
        subst (Begun k s now later cmd) (sym lacks) (perform_once-Keeps k s cmd sound valid apart)
    | inr (idem, has) ↦
        let key = cmd.idempotency_key in
        let r = try_begin idem now key s.idem_ttl in
        subst (Begun k s now later cmd) (sym has) (
          begun-Keeps k s later cmd r sound valid apart
            (with_idem-Keeps k key s idem r.0 has apart (try_begin-Writes idem now key s.idem_ttl)))
  ]

  -- A command leaves what is remembered of every key but its own.
  pub execute-Keeps :
      (k : Bytes) (s : EconomySystem) (now later : ℕ) (cmd : EconomyCommand)
      → IsSound s.wallets
      → cmd.idempotency_key ≢ k
      → Keeps k s (execute accepts s now later cmd).0
  unfolding execute
  execute-Keeps k s now later cmd sound apart = elim (Result-cases (validate_command cmd)) [
    | inr (code, bad) ↦ rw (bad, execute) (refl, refl)
    | inl (u, valid) ↦
        rw (valid, execute) (execute_valid-Keeps k (count_op s) now later cmd sound valid apart)
  ]
