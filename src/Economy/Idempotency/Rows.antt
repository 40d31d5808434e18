-- ===== src/Economy/Idempotency/Rows.antt =====
-- What the answers of TryBegin, Commit and Lookup say of the row of the key.
use cami.Common.{
  ℕ, ◌≡◌, refl, ◌≢◌, inl, inr, none, some, arith, ltb, ◌==◌, Bool-cases, Option-cases,
}
use cami.Common.Bytes.{Bytes, find_key, put_key, find-put_self}
use cami.Common.Errors.{Result, ok, err, not_found}
use cami.Economy.Idempotency.{
  IdemStatus, fresh, in_flight, completed, failed, EconomyResult, IdemRow, Idem, insert_if_absent,
  update, begin_new, begin_on, is_empty, try_begin, commit, completed_result, lookup_result,
}

abbrev pub done_row : EconomyResult → IdemRow
done_row result = record { status = completed; deadline_ms = 0; result = result }

abbrev pub done_idem : Idem → Bytes → EconomyResult → Idem
done_idem idem key res = record idem { rows = put_key key (done_row res) idem.rows }

pub commit-absent :
    (idem : Idem) (key : Bytes) (res : EconomyResult)
    → find_key key idem.rows ≡ none
    → commit idem key res ≡ (idem, err not_found)
unfolding commit update
commit-absent idem key res absent = rw (absent, commit, update) refl

pub commit-present :
    (idem : Idem) (key : Bytes) (res : EconomyResult) (row : IdemRow)
    → find_key key idem.rows ≡ some row
    → commit idem key res ≡ (done_idem idem key res, ok tt)
unfolding commit update
commit-present idem key res row present = rw (present, commit, update) refl

completed_row :
    (status : IdemStatus) (row : IdemRow) (res : EconomyResult)
    → completed_result status row ≡ some res
    → (status ≡ completed) × (row.result ≡ res)
completed_row completed row res e = (refl, cc)
completed_row fresh row res e = cc
completed_row in_flight row res e = cc
completed_row failed row res e = cc

-- Lookup finds the result of a completed row.
pub lookup_result-some :
    (idem : Idem) (key : Bytes) (res : EconomyResult)
    → lookup_result idem key ≡ some res
    → (row : IdemRow) × (find_key key idem.rows ≡ some row)
      × (row.status ≡ completed)
      × (row.result ≡ res)
unfolding lookup_result
lookup_result-some idem key res e = elim (Option-cases (find_key key idem.rows)) [
  | inl absent ↦ absurd (ground (arith, absent))
  | inr (row, present) ↦
      let whole : completed_result row.status row ≡ some res = ground (arith, present) in
      let parts = completed_row row.status row res whole in (row, present, parts.0, parts.1)
]

begin_new_not_failed :
    (s : Idem) (now : ℕ) (key : Bytes) (ttl : ℕ) → (begin_new s now key ttl).1 ≢ ok failed
unfolding begin_new insert_if_absent
begin_new_not_failed s now key ttl = elim (Bool-cases (ltb 0 s.fail_next_inserts)) [
  | inl fails ↦ rw (fails, begin_new) (λ e. cc)
  | inr works ↦ elim (Option-cases (find_key key s.rows)) [
    | inl absent ↦ rw (works, absent, begin_new) (λ e. cc)
    | inr (row, present) ↦ rw (works, present, begin_new) (λ e. cc)
  ]
]

-- Failed is answered only about a row that is there.
abbrev pub HasRow : Bytes → Idem × Result IdemStatus → Type 0
HasRow key r = r.1 ≡ ok failed → (row : IdemRow) × (find_key key r.0.rows ≡ some row)

begin_on-HasRow :
    (status : IdemStatus) (s : Idem) (now : ℕ) (key : Bytes) (ttl : ℕ) (row : IdemRow)
    → find_key key s.rows ≡ some row
    → HasRow key (begin_on status s now key ttl row)
unfolding begin_on update
begin_on-HasRow completed s now key ttl row at = λ e. cc
begin_on-HasRow failed s now key ttl row at = λ e. (row, at)
begin_on-HasRow fresh s now key ttl row at = λ e. absurd (begin_new_not_failed s now key ttl e)
begin_on-HasRow in_flight s now key ttl row at = elim (Bool-cases (ltb now row.deadline_ms)) [
  | inl early ↦ rw early (λ e. cc)
  | inr late ↦
      rw (late, at, update)
        (λ e. (
          record row { status = failed },
          find-put_self key (record row { status = failed }) s.rows,
        ))
]

pub try_begin-HasRow :
    (idem : Idem) (now : ℕ) (key : Bytes) (ttl : ℕ) → HasRow key (try_begin idem now key ttl)
unfolding try_begin
try_begin-HasRow s now key ttl = elim (Bool-cases (is_empty key)) [
  | inl bad ↦ rw (bad, try_begin) (λ e. cc)
  | inr good ↦ elim (Bool-cases (ttl == 0)) [
    | inl bad ↦ rw (good, bad, try_begin) (λ e. cc)
    | inr lasts ↦ elim (Option-cases (find_key key s.rows)) [
      | inl absent ↦
          rw (good, lasts, absent, try_begin) (λ e. absurd (begin_new_not_failed s now key ttl e))
      | inr (row, present) ↦
          rw (good, lasts, present, try_begin)
            (begin_on-HasRow row.status s now key ttl row present)
    ]
  ]
]
