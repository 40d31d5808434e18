-- ===== src/Economy/System/Replay.antt =====
-- EconomySystem::Execute of a key with a first result: the result again, and nothing else.
use cami.Common.{
  ℕ, ◌≡◌, refl, sym, ap, subst, ◌∙◌, ◌≢◌, inl, inr, List, [], ◌∷◌, Bool, true, false, Option, none,
  some, arith, ◌==◌, Option-cases,
}
use cami.Common.Bytes.{Bytes, find_key}
use cami.Common.Errors.{ok}
use cami.Economy.Idempotency.{
  Idem, IdemRow, EconomyResult, completed, is_empty, try_begin, begin_on, lookup_result,
}
use cami.Economy.Command
use cami.Economy.Command.{EconomyCommand, is_complete, validate_command}
use cami.Economy.System.{EconomySystem, SinkEntry}
use cami.Economy.System.Operations.{Outcome}
use cami.Economy.System.Execute.{
  count_op, count_dedup, with_idem, replay, begun, perform_once, execute_valid, execute,
}
use cami.Economy.System.Memory.{kept_row, memory, memory-some, memory-none}

-- The key has this first result.
abbrev pub Holds : EconomySystem → Bytes → EconomyResult → Type 0
Holds s key res =
    (row : IdemRow) × (memory s key ≡ some row) × (row.status ≡ completed) × (row.result ≡ res)

abbrev pub replayed : EconomyResult → EconomyResult
replayed res = record res { deduplicated = true }

-- What is left of the system when a result is given again.
abbrev pub counted : EconomySystem → EconomySystem
counted s = count_dedup (count_op s)

-- An empty text has no bytes.
same_test : (key : Bytes) → Command.is_empty key ≡ false → is_empty key ≡ false
same_test [] h = h
same_test (b ∷ bs) h = refl

key_given :
    (cmd : EconomyCommand) → validate_command cmd ≡ ok tt → is_empty cmd.idempotency_key ≡ false
unfolding validate_command is_complete
key_given cmd valid = same_test cmd.idempotency_key (ground (arith, valid))

-- TryBegin of a completed row, and Lookup.
try_begin-completed :
    (idem : Idem) (now : ℕ) (key : Bytes) (ttl : ℕ) (row : IdemRow) (res : EconomyResult)
    → is_empty key ≡ false
    → ttl ≢ 0
    → find_key key idem.rows ≡ some row
    → row.status ≡ completed
    → row.result ≡ res
    → (try_begin idem now key ttl ≡ (idem, ok completed)) × (lookup_result idem key ≡ some res)
unfolding try_begin begin_on lookup_result
try_begin-completed idem now key ttl row res given lasts at is has = (
  (let not_never : (ttl == 0) ≡ false = ground (arith, lasts) in
      rw (given, not_never, at, try_begin) (rw is refl)),
  rw (at, lookup_result) (rw is (ap some has)),
)

abbrev result_of : Option IdemRow → Option EconomyResult
result_of none = none
result_of (some row) = some row.result

kept_row-some :
    (m : Option EconomyResult) (row : IdemRow) (res : EconomyResult)
    → kept_row m ≡ some row
    → row.result ≡ res
    → m ≡ some res
kept_row-some none row res is has = cc
kept_row-some (some first) row res is has = ap result_of is ∙ ap some has

module _ (accepts : List SinkEntry → SinkEntry → Bool) where
  abbrev Answers : EconomySystem → ℕ → ℕ → EconomyCommand → EconomyResult → Option Idem → Type 0
  Answers s now later cmd res m =
      let o : Outcome = elim m [
        | none ↦ perform_once accepts s cmd
        | some idem ↦ begun accepts s later cmd (try_begin idem now cmd.idempotency_key s.idem_ttl)
      ] in
      o ≡ (count_dedup s, ok (replayed res))

  execute_valid-Holds :
      (s : EconomySystem) (now later : ℕ) (cmd : EconomyCommand) (res : EconomyResult)
      → validate_command cmd ≡ ok tt
      → s.idem_ttl ≢ 0
      → Holds s cmd.idempotency_key res
      → execute_valid accepts s now later cmd ≡ (count_dedup s, ok (replayed res))
  unfolding execute_valid perform_once
  execute_valid-Holds s now later cmd res valid lasts (row, at, is, has) =
      let key = cmd.idempotency_key in
      elim (Option-cases s.idem) [
        | inl lacks ↦
            let known =
              kept_row-some (find_key key s.idempotency) row res
                (sym (memory-none s key lacks) ∙ at) has in
            subst (Answers s now later cmd res) (sym lacks) (rw (known, perform_once) refl)
        | inr (idem, stores) ↦
            let begins =
              try_begin-completed idem now key s.idem_ttl row res (key_given cmd valid) lasts
                (sym (memory-some s idem key stores) ∙ at) is has in
            subst (Answers s now later cmd res) (sym stores) (
              ap (begun accepts s later cmd) begins.0
              ∙ ap (replay accepts (with_idem s idem) cmd) begins.1
              ∙ ap (λ m. (count_dedup (record s { idem = m }), ok (replayed res))) (sym stores))
      ]

  -- The first result again, whatever the command asks for.
  pub execute-Holds :
      (s : EconomySystem) (now later : ℕ) (cmd : EconomyCommand) (res : EconomyResult)
      → validate_command cmd ≡ ok tt
      → s.idem_ttl ≢ 0
      → Holds s cmd.idempotency_key res
      → execute accepts s now later cmd ≡ (counted s, ok (replayed res))
  unfolding execute
  execute-Holds s now later cmd res valid lasts holds =
      rw (valid, execute) (execute_valid-Holds (count_op s) now later cmd res valid lasts holds)
