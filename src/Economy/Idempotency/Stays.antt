-- ===== src/Economy/Idempotency/Stays.antt =====
-- A committed result is what later calls get.
use cami.Common.{
  ℕ, ◌≡◌, refl, sym, ap, subst, ◌∙◌, ◌≢◌, inl, inr, List, [], ◌∷◌, false, some, arith, ◌==◌,
  Bool-cases, Option-cases,
}
use cami.Common.Bytes.{
  Bytes, find_key, bytes_eq, bytes_eq_sound, bytes_ne, find-put_self, find-put_ne, find-erase_ne,
}
use cami.Common.Errors.{ok}
use cami.Economy.Idempotency.{
  completed, EconomyResult, Idem, update, begin_on, is_empty, try_begin, commit, abort,
  lookup_result, Call, begins, commits, aborts, step, run,
}
use cami.Economy.Idempotency.Rows.{done_row}
use cami.Economy.Idempotency.Once.{Writes, try_begin-Writes, commit-Writes}

-- The key was committed with this result.
abbrev pub IsDone : Idem → Bytes → EconomyResult → Type 0
IsDone s key result = find_key key s.rows ≡ some (done_row result)

commit-IsDone :
    (s : Idem) (key : Bytes) (result : EconomyResult)
    → (commit s key result).1 ≡ ok tt
    → IsDone (commit s key result).0 key result
unfolding commit update
commit-IsDone s key result e = elim (Option-cases (find_key key s.rows)) [
  | inl absent ↦ absurd (ground (arith, absent))
  | inr (row, present) ↦ rw (present, commit, update) (find-put_self key (done_row result) s.rows)
]

-- TryBegin of a committed key answers Completed and writes nothing.
try_begin-IsDone :
    (s : Idem) (now : ℕ) (key : Bytes) (ttl : ℕ) (result : EconomyResult)
    → IsDone s key result
    → ((try_begin s now key ttl).0.rows ≡ s.rows)
      × (is_empty key ≡ false → ttl ≢ 0 → (try_begin s now key ttl).1 ≡ ok completed)
unfolding try_begin begin_on
try_begin-IsDone s now key ttl result at = elim (Bool-cases (is_empty key)) [
  | inl bad ↦ rw (bad, try_begin) (refl, λ good. absurd (ground (arith, good)))
  | inr good ↦ elim (Bool-cases (ttl == 0)) [
    | inl never ↦ rw (good, never, try_begin) (refl, λ z nz. absurd (ground (arith, never, nz)))
    | inr lasts ↦ rw (good, lasts, at, try_begin) (refl, λ z nz. refl)
  ]
]

-- A write of another key keeps the committed row.
Writes-IsDone :
    (s s' : Idem) (other key : Bytes) (result : EconomyResult)
    → other ≢ key
    → Writes s other s'
    → IsDone s key result
    → IsDone s' key result
Writes-IsDone s s' other key result apart (inl same) at = ap (find_key key) same ∙ at
Writes-IsDone s s' other key result apart (inr (row, put, live)) at =
    ap (find_key key) put ∙ find-put_ne other key row s.rows apart ∙ at

-- A call that neither aborts the key nor commits it again.
abbrev pub Leaves : Bytes → Call → Type 0
Leaves key (begins now k ttl) = Unit
Leaves key (commits k result) = k ≢ key
Leaves key (aborts k) = k ≢ key

step-IsDone :
    (s : Idem) (key : Bytes) (result : EconomyResult) (c : Call)
    → Leaves key c
    → IsDone s key result
    → IsDone (step s c) key result
unfolding step abort
step-IsDone s key result (begins now k ttl) h at = elim (Bool-cases (bytes_eq k key)) [
  | inl hit ↦
      let same = bytes_eq_sound k key hit in
      let kept = (try_begin-IsDone s now key ttl result at).0 in
      subst (λ j. IsDone (try_begin s now j ttl).0 key result) (sym same)
        (ap (find_key key) kept ∙ at)
  | inr miss ↦
      Writes-IsDone s (try_begin s now k ttl).0 k key result (bytes_ne k key miss)
        (try_begin-Writes s now k ttl) at
]
step-IsDone s key result (commits k r) h at =
    Writes-IsDone s (commit s k r).0 k key result h (commit-Writes s k r) at
step-IsDone s key result (aborts k) h at = find-erase_ne k key s.rows h ∙ at

abbrev pub AllLeave : Bytes → List Call → Type 0
AllLeave key [] = Unit
AllLeave key (c ∷ cs) = Leaves key c × AllLeave key cs

run-IsDone :
    (s : Idem) (key : Bytes) (result : EconomyResult) (cs : List Call)
    → AllLeave key cs
    → IsDone s key result
    → IsDone (run s cs) key result
unfolding run
run-IsDone s key result [] h at = at
run-IsDone s key result (c ∷ cs) h at =
    run-IsDone (step s c) key result cs h.1 (step-IsDone s key result c h.0 at)

-- After a Commit that answered ok, and any calls that neither abort the key nor commit it again,
-- Lookup gives the committed result, and TryBegin of the key, which is not empty, with a ttl above
-- zero, answers Completed at any time.
pub commit-Stays :
    (s : Idem) (key : Bytes) (result : EconomyResult) (cs : List Call) (now ttl : ℕ)
    → (commit s key result).1 ≡ ok tt
    → AllLeave key cs
    → is_empty key ≡ false
    → ttl ≢ 0
    → (lookup_result (run (commit s key result).0 cs) key ≡ some result)
      × ((try_begin (run (commit s key result).0 cs) now key ttl).1 ≡ ok completed)
unfolding lookup_result
commit-Stays s key result cs now ttl good leave real lasts =
    let s' = run (commit s key result).0 cs in
    let at : IsDone s' key result =
      run-IsDone (commit s key result).0 key result cs leave (commit-IsDone s key result good) in
    (rw (at, lookup_result) refl, (try_begin-IsDone s' now key ttl result at).1 real lasts)
