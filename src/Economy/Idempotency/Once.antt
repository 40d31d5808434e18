-- ===== src/Economy/Idempotency/Once.antt =====
-- A key is begun afresh once until it is aborted, and a committed result stays.
use cami.Common.{
  ℕ, ◌+◌, ◌≡◌, refl, ap, ◌∙◌, ◌≢◌, ◌⊎◌, inl, inr, List, [], ◌∷◌, some, arith, ltb, ◌==◌, Bool-cases,
  Option-cases,
}
use cami.Common.Bytes.{
  Bytes, find_key, put_key, bytes_eq, bytes_eq_sound, bytes_ne, find-put_self, find-put_ne,
  find-erase_ne,
}
use cami.Common.Errors.{ok}
use cami.Economy.Idempotency.{
  IdemStatus, fresh, in_flight, completed, failed, EconomyResult, empty_result, IdemRow, Idem,
  insert_if_absent, update, begin_new, begin_on, is_empty, try_begin, commit, abort, Call, begins,
  commits, aborts, step, run,
}

-- The row of a key, if the key was begun and not aborted.
abbrev pub IsHeld : Idem → Bytes → Type 0
IsHeld s key = (row : IdemRow) × (find_key key s.rows ≡ some row) × (row.status ≢ fresh)

-- A call writes the row of one key, or no row.
abbrev pub Writes : Idem → Bytes → Idem → Type 0
Writes s key s' =
    (s'.rows ≡ s.rows)
    ⊎ ((row : IdemRow) × (s'.rows ≡ put_key key row s.rows) × (row.status ≢ fresh))

abbrev claim : ℕ → ℕ → IdemRow
claim now ttl = record { status = in_flight; deadline_ms = now + ttl; result = empty_result }

begin_new-Writes :
    (s : Idem) (now : ℕ) (key : Bytes) (ttl : ℕ) → Writes s key (begin_new s now key ttl).0
unfolding begin_new insert_if_absent
begin_new-Writes s now key ttl = elim (Bool-cases (ltb 0 s.fail_next_inserts)) [
  | inl fails ↦ rw (fails, begin_new) (inl refl)
  | inr works ↦ elim (Option-cases (find_key key s.rows)) [
    | inl absent ↦ rw (works, absent, begin_new) (inr (claim now ttl, refl, λ e. cc))
    | inr (row, present) ↦ rw (works, present, begin_new) (inl refl)
  ]
]

pub begin_on-Writes :
    (status : IdemStatus) (s : Idem) (now : ℕ) (key : Bytes) (ttl : ℕ) (row : IdemRow)
    → find_key key s.rows ≡ some row
    → Writes s key (begin_on status s now key ttl row).0
unfolding begin_on update
begin_on-Writes completed s now key ttl row e = inl refl
begin_on-Writes failed s now key ttl row e = inl refl
begin_on-Writes fresh s now key ttl row e = begin_new-Writes s now key ttl
begin_on-Writes in_flight s now key ttl row e = elim (Bool-cases (ltb now row.deadline_ms)) [
  | inl early ↦ rw early (inl refl)
  | inr late ↦ rw (late, e, update) (inr (record row { status = failed }, refl, λ z. cc))
]

pub try_begin-Writes :
    (s : Idem) (now : ℕ) (key : Bytes) (ttl : ℕ) → Writes s key (try_begin s now key ttl).0
unfolding try_begin
try_begin-Writes s now key ttl = elim (Bool-cases (is_empty key)) [
  | inl bad ↦ rw (bad, try_begin) (inl refl)
  | inr good ↦ elim (Bool-cases (ttl == 0)) [
    | inl bad ↦ rw (good, bad, try_begin) (inl refl)
    | inr pos ↦ elim (Option-cases (find_key key s.rows)) [
      | inl absent ↦ rw (good, pos, absent, try_begin) (begin_new-Writes s now key ttl)
      | inr (row, present) ↦
          rw (good, pos, present, try_begin) (begin_on-Writes row.status s now key ttl row present)
    ]
  ]
]

pub commit-Writes :
    (s : Idem) (key : Bytes) (result : EconomyResult) → Writes s key (commit s key result).0
unfolding commit update
commit-Writes s key result = elim (Option-cases (find_key key s.rows)) [
  | inl absent ↦ rw (absent, commit, update) (inl refl)
  | inr (row, present) ↦
      rw (present, commit, update)
        (inr (record { status = completed; deadline_ms = 0; result = result }, refl, λ e. cc))
]

-- Writing one key's row, with a status that is not Fresh, lets go of no key.
Writes-IsHeld :
    (s s' : Idem) (key other : Bytes) → Writes s key s' → IsHeld s other → IsHeld s' other
Writes-IsHeld s s' key other (inl same) (row, at, live) = (row, ap (find_key other) same ∙ at, live)
Writes-IsHeld s s' key other (inr (row, put, new)) (old, at, live) =
    elim (Bool-cases (bytes_eq key other)) [
      | inl hit ↦
          let same = bytes_eq_sound key other hit in
          (
            row,
            ap (find_key other) put
                ∙ ap (λ k. find_key other (put_key k row s.rows)) same
                ∙ find-put_self other row s.rows,
            new,
          )
      | inr miss ↦ (
        old,
        ap (find_key other) put ∙ find-put_ne key other row s.rows (bytes_ne key other miss) ∙ at,
        live,
      )
    ]

abbrev pub Spares : Bytes → Call → Type 0
Spares key (begins now k ttl) = Unit
Spares key (commits k result) = Unit
Spares key (aborts k) = k ≢ key

step-IsHeld :
    (s : Idem) (key : Bytes) (c : Call) → Spares key c → IsHeld s key → IsHeld (step s c) key
unfolding step abort
step-IsHeld s key (begins now k ttl) h held =
    Writes-IsHeld s (try_begin s now k ttl).0 k key (try_begin-Writes s now k ttl) held
step-IsHeld s key (commits k result) h held =
    Writes-IsHeld s (commit s k result).0 k key (commit-Writes s k result) held
step-IsHeld s key (aborts k) h (row, at, live) = (row, find-erase_ne k key s.rows h ∙ at, live)

begin_on-live :
    (status : IdemStatus) (s : Idem) (now : ℕ) (key : Bytes) (ttl : ℕ) (row : IdemRow)
    → status ≢ fresh
    → (begin_on status s now key ttl row).1 ≢ ok fresh
unfolding begin_on
begin_on-live completed s now key ttl row live = λ e. cc
begin_on-live failed s now key ttl row live = λ e. cc
begin_on-live in_flight s now key ttl row live = λ e. ground arith
begin_on-live fresh s now key ttl row live = absurd (live refl)

held_not_fresh :
    (s : Idem) (now : ℕ) (key : Bytes) (ttl : ℕ)
    → IsHeld s key
    → (try_begin s now key ttl).1 ≢ ok fresh
unfolding try_begin
held_not_fresh s now key ttl (row, at, live) e =
    ground (arith, at, begin_on-live row.status s now key ttl row live)

begin_new-IsHeld :
    (s : Idem) (now : ℕ) (key : Bytes) (ttl : ℕ)
    → (begin_new s now key ttl).1 ≡ ok fresh
    → IsHeld (begin_new s now key ttl).0 key
unfolding begin_new insert_if_absent
begin_new-IsHeld s now key ttl e = elim (Bool-cases (ltb 0 s.fail_next_inserts)) [
  | inl fails ↦ absurd (ground (arith, fails))
  | inr works ↦ elim (Option-cases (find_key key s.rows)) [
    | inl absent ↦
        rw (works, absent, begin_new)
          (claim now ttl, find-put_self key (claim now ttl) s.rows, λ z. cc)
    | inr (row, present) ↦ absurd (ground (arith, works, present))
  ]
]

begin_on-IsHeld :
    (status : IdemStatus) (s : Idem) (now : ℕ) (key : Bytes) (ttl : ℕ) (row : IdemRow)
    → (begin_on status s now key ttl row).1 ≡ ok fresh
    → IsHeld (begin_on status s now key ttl row).0 key
unfolding begin_on
begin_on-IsHeld completed s now key ttl row e = absurd cc
begin_on-IsHeld failed s now key ttl row e = absurd cc
begin_on-IsHeld in_flight s now key ttl row e = absurd (ground arith)
begin_on-IsHeld fresh s now key ttl row e = begin_new-IsHeld s now key ttl e

-- A Fresh answer claims the key.
begin-IsHeld :
    (s : Idem) (now : ℕ) (key : Bytes) (ttl : ℕ)
    → (try_begin s now key ttl).1 ≡ ok fresh
    → IsHeld (try_begin s now key ttl).0 key
unfolding try_begin
begin-IsHeld s now key ttl e = elim (Bool-cases (is_empty key)) [
  | inl bad ↦ absurd (ground (arith, bad))
  | inr good ↦ elim (Bool-cases (ttl == 0)) [
    | inl bad ↦ absurd (ground (arith, good, bad))
    | inr pos ↦ elim (Option-cases (find_key key s.rows)) [
      | inl absent ↦
          rw (good, pos, absent, try_begin)
            (begin_new-IsHeld s now key ttl (ground (arith, good, pos, absent)))
      | inr (row, present) ↦
          rw (good, pos, present, try_begin)
            (begin_on-IsHeld row.status s now key ttl row (ground (arith, good, pos, present)))
    ]
  ]
]

abbrev pub AllSpare : Bytes → List Call → Type 0
AllSpare key [] = Unit
AllSpare key (c ∷ cs) = Spares key c × AllSpare key cs

run-IsHeld :
    (s : Idem) (key : Bytes) (cs : List Call)
    → AllSpare key cs
    → IsHeld s key
    → IsHeld (run s cs) key
unfolding run
run-IsHeld s key [] h held = held
run-IsHeld s key (c ∷ cs) h held = run-IsHeld (step s c) key cs h.1 (step-IsHeld s key c h.0 held)

-- Once TryBegin answers Fresh for a key, no later TryBegin of the key answers Fresh, whatever
-- calls come between and whatever the clock reads, as long as none of them aborts the key.
pub try_begin-Once :
    (s : Idem) (now later : ℕ) (key : Bytes) (ttl ttl' : ℕ) (cs : List Call)
    → (try_begin s now key ttl).1 ≡ ok fresh
    → AllSpare key cs
    → (try_begin (run (try_begin s now key ttl).0 cs) later key ttl').1 ≢ ok fresh
try_begin-Once s now later key ttl ttl' cs e spare =
    let held = run-IsHeld (try_begin s now key ttl).0 key cs spare (begin-IsHeld s now key ttl e) in
    held_not_fresh (run (try_begin s now key ttl).0 cs) later key ttl' held
