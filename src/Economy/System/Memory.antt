-- ===== src/Economy/System/Memory.antt =====
-- What the economy system remembers of a key, in the idempotency store or in its own map.
use cami.Common.{◌≡◌, refl, sym, ap, subst, ◌∙◌, ◌≢◌, inl, inr, Option, none, some, Option-cases}
use cami.Common.Bytes.{Bytes, KeyMap, find_key, put_key, find-put_ne, find-erase_ne}
use cami.Common.Int.{ℤ}
use cami.Common.Errors.{Result, ok, err, Result-cases}
use cami.Economy.Idempotency.{Idem, IdemRow, EconomyResult, commit, abort}
use cami.Economy.Idempotency.Once.{Writes, commit-Writes}
use cami.Economy.Idempotency.Rows.{done_row}
use cami.Economy.Ledger.Operations.{append_entry}
use cami.Economy.Command.{EconomyCommand}
use cami.Economy.System.{EconomySystem}
use cami.Economy.System.Operations.{Outcome}
use cami.Economy.System.Execute.{
  with_idem, abort_key, count_fail, ledger_entry, appended, post_to_ledger, committed, remember,
  keep_result,
}

abbrev pub kept_row : Option EconomyResult → Option IdemRow
kept_row none = none
kept_row (some res) = some (done_row res)

-- The row of a key. The system's own map has first results only.
abbrev memory_of : Option Idem → KeyMap EconomyResult → Bytes → Option IdemRow
memory_of none results key = kept_row (find_key key results)
memory_of (some idem) results key = find_key key idem.rows

abbrev pub memory : EconomySystem → Bytes → Option IdemRow
memory s key = memory_of s.idem s.idempotency key

pub memory-some :
    (s : EconomySystem) (idem : Idem) (k : Bytes)
    → s.idem ≡ some idem
    → memory s k ≡ find_key k idem.rows
memory-some s idem k has = ap (λ m. memory_of m s.idempotency k) has

pub memory-none :
    (s : EconomySystem) (k : Bytes)
    → s.idem ≡ none
    → memory s k ≡ kept_row (find_key k s.idempotency)
memory-none s k lacks = ap (λ m. memory_of m s.idempotency k) lacks

-- What is remembered of the key is the same, and so is the time to live.
abbrev pub Keeps : Bytes → EconomySystem → EconomySystem → Type 0
Keeps k s u = (memory u k ≡ memory s k) × (u.idem_ttl ≡ s.idem_ttl)

pub Keeps-then : (k : Bytes) (s t u : EconomySystem) → Keeps k s t → Keeps k t u → Keeps k s u
Keeps-then k s t u first second = (second.0 ∙ first.0, second.1 ∙ first.1)

-- The memory itself is the same.
abbrev pub SameMemory : EconomySystem → EconomySystem → Type 0
SameMemory s u = (u.idem ≡ s.idem) × (u.idempotency ≡ s.idempotency) × (u.idem_ttl ≡ s.idem_ttl)

pub SameMemory-Keeps : (k : Bytes) (s u : EconomySystem) → SameMemory s u → Keeps k s u
SameMemory-Keeps k s u (idem, results, ttl) =
    (ap (λ m. memory_of m u.idempotency k) idem ∙ ap (λ r. memory_of s.idem r k) results, ttl)

-- A write of another key, by the store.
pub with_idem-Keeps :
    (k other : Bytes) (s : EconomySystem) (idem idem' : Idem)
    → s.idem ≡ some idem
    → other ≢ k
    → Writes idem other idem'
    → Keeps k s (with_idem s idem')
with_idem-Keeps k other s idem idem' has apart (inl same) =
    (ap (find_key k) same ∙ sym (memory-some s idem k has), refl)
with_idem-Keeps k other s idem idem' has apart (inr (row, put, live)) = (
  ap (find_key k) put ∙ find-put_ne other k row idem.rows apart ∙ sym (memory-some s idem k has),
  refl,
)

abbrev Aborted : Bytes → EconomySystem → EconomyCommand → Option Idem → Type 0
Aborted k s cmd m = Keeps k s (elim m [
  | none ↦ count_fail s
  | some idem ↦ with_idem (count_fail s) (abort idem cmd.idempotency_key)
])

pub abort_key-Keeps :
    (k : Bytes) (s : EconomySystem) (cmd : EconomyCommand)
    → cmd.idempotency_key ≢ k
    → Keeps k s (abort_key cmd (count_fail s))
unfolding abort
abort_key-Keeps k s cmd apart = elim (Option-cases s.idem) [
  | inl lacks ↦ subst (Aborted k s cmd) (sym lacks) (refl, refl)
  | inr (idem, has) ↦
      subst (Aborted k s cmd) (sym has)
        (find-erase_ne cmd.idempotency_key k idem.rows apart ∙ sym (memory-some s idem k has), refl)
]

pub post_to_ledger-SameMemory :
    (s : EconomySystem) (cmd : EconomyCommand) (res : EconomyResult) (delta : ℤ)
    → SameMemory s (post_to_ledger s cmd res delta).0
unfolding post_to_ledger
post_to_ledger-SameMemory s cmd res delta = elim (Option-cases s.ledger) [
  | inl lacks ↦ rw (lacks, post_to_ledger) (refl, refl, refl)
  | inr (l, has) ↦ elim (Result-cases (append_entry l (ledger_entry cmd res delta)).1) [
    | inl (u, taken) ↦ rw (has, post_to_ledger) (rw (taken, appended) (refl, refl, refl))
    | inr (code, refused) ↦ rw (has, post_to_ledger) (rw (refused, appended) (refl, refl, refl))
  ]
]

committed-Keeps :
    (k : Bytes) (s : EconomySystem) (key : Bytes) (res : EconomyResult) (idem : Idem)
    (r : Idem × Result (Unit {0}))
    → s.idem ≡ some idem
    → key ≢ k
    → Writes idem key r.0
    → Keeps k s (committed s res r).0
committed-Keeps k s key res idem (idem', ok _) has apart writes =
    with_idem-Keeps k key s idem idem' has apart writes
committed-Keeps k s key res idem (idem', err _) has apart writes =
    with_idem-Keeps k key s idem idem' has apart writes

remember-Keeps :
    (k : Bytes) (s : EconomySystem) (cmd : EconomyCommand) (res : EconomyResult)
    → s.idem ≡ none
    → cmd.idempotency_key ≢ k
    → Keeps k s (remember s cmd res)
remember-Keeps k s cmd res lacks apart =
    elim (Option-cases (find_key cmd.idempotency_key s.idempotency)) [
      | inl new ↦
          let results = put_key cmd.idempotency_key res s.idempotency in
          rw (new, remember)
            (
              memory-none (record s { idempotency = results }) k lacks
                  ∙ ap kept_row (find-put_ne cmd.idempotency_key k res s.idempotency apart)
                  ∙ sym (memory-none s k lacks),
              refl,
            )
      | inr (old, known) ↦ rw (known, remember) (refl, refl)
    ]

abbrev Kept : Bytes → EconomySystem → EconomyCommand → EconomyResult → Option Idem → Type 0
Kept k s cmd res m =
    let o : Outcome = elim m [
      | none ↦ (remember s cmd res, ok res)
      | some idem ↦ committed s res (commit idem cmd.idempotency_key res)
    ] in
    Keeps k s o.0

pub keep_result-Keeps :
    (k : Bytes) (s : EconomySystem) (cmd : EconomyCommand) (res : EconomyResult)
    → cmd.idempotency_key ≢ k
    → Keeps k s (keep_result s cmd res).0
unfolding keep_result
keep_result-Keeps k s cmd res apart = elim (Option-cases s.idem) [
  | inl lacks ↦ subst (Kept k s cmd res) (sym lacks) (remember-Keeps k s cmd res lacks apart)
  | inr (idem, has) ↦ subst (Kept k s cmd res) (sym has) (
      committed-Keeps k s cmd.idempotency_key res idem (commit idem cmd.idempotency_key res) has
        apart (commit-Writes idem cmd.idempotency_key res))
]
