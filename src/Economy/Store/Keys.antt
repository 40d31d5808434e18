-- ===== src/Economy/Store/Keys.antt =====
-- InMemoryLedgerStore: the index of the keys agrees with the rows, and a key is stored once.
use cami.Common.{
  ℕ, ◌≡◌, refl, sym, ap, ◌∙◌, ◌⊎◌, inl, inr, List, [], ◌∷◌, ◌++◌, Bool, true, false, Option, none,
  some, arith, ltb, if◌then◌else◌, length, Bool-cases, Option-cases, not, ◌+◌,
}
use cami.Common.Bytes.{
  Bytes, bytes_eq, bytes_eq_refl, bytes_eq_sound, bytes_ne, find_key, put_key, find-put_self,
  find-put_ne,
}
use cami.Common.Errors.{Result, ok, err, timeout}
use cami.Economy.Entry.{LedgerEntry}
use cami.Economy.Store.{Store, LedgerAppendOutcome, append}

abbrev pub has_key : Bytes → List LedgerEntry → Bool
has_key key [] = false
has_key key (e ∷ es) =
    let rest = has_key key es in if bytes_eq e.idempotency_key key then true else rest

abbrev pub is_some : Option ℕ → Bool
is_some none = false
is_some (some i) = true

-- The index holds the keys of the rows and no other.
abbrev pub IsIndexed : Store → Type 0
IsIndexed s = (key : Bytes) → is_some (find_key key s.by_key) ≡ has_key key s.rows

pub has_key-append_left :
    (key : Bytes) (xs ys : List LedgerEntry) → has_key key xs ≡ true → has_key key (xs ++ ys) ≡ true
has_key-append_left key [] ys h = cc
has_key-append_left key (x ∷ xs) ys h = ground (arith, has_key-append_left key xs ys)

pub has_key-append_right :
    (key : Bytes) (xs ys : List LedgerEntry)
    → has_key key xs ≡ false
    → has_key key (xs ++ ys) ≡ has_key key ys
has_key-append_right key [] ys h = refl
has_key-append_right key (x ∷ xs) ys h = ground (arith, has_key-append_right key xs ys)

pub has_key-last :
    (key : Bytes) (xs : List LedgerEntry) (e : LedgerEntry)
    → e.idempotency_key ≡ key
    → has_key key (xs ++ (e ∷ [])) ≡ true
has_key-last key [] e h = ground (arith, ap (λ k. bytes_eq k key) h, bytes_eq_refl key)
has_key-last key (x ∷ xs) e h = ground (arith, has_key-last key xs e h)

pub has_key-append_ne :
    (key : Bytes) (xs : List LedgerEntry) (e : LedgerEntry)
    → bytes_eq e.idempotency_key key ≡ false
    → has_key key (xs ++ (e ∷ [])) ≡ has_key key xs
has_key-append_ne key [] e h = ground (arith, h)
has_key-append_ne key (x ∷ xs) e h = ground (arith, has_key-append_ne key xs e h)

-- What a write does to a store: it fails and keeps the rows, it finds the key among the rows, or it
-- puts the entry behind them. The first part holds the answer of the write.
abbrev pub Stored : Bool → Store → LedgerEntry → Store → Type 0
Stored false s e s' = s'.rows ≡ s.rows
Stored true s e s' =
    ((has_key e.idempotency_key s.rows ≡ true) × (s'.rows ≡ s.rows))
    ⊎ ((has_key e.idempotency_key s.rows ≡ false) × (s'.rows ≡ s.rows ++ (e ∷ [])))

abbrev pub is_ok {ℓ} : {A : Type ℓ} → Result A → Bool
is_ok (ok a) = true
is_ok (err e) = false

put_keys :
    (s : Store) (e : LedgerEntry)
    → IsIndexed s
    → find_key e.idempotency_key s.by_key ≡ none
    → has_key e.idempotency_key s.rows ≡ false
    → (key : Bytes)
    → is_some (find_key key (put_key e.idempotency_key (length s.rows) s.by_key))
      ≡ has_key key (s.rows ++ (e ∷ []))
put_keys s e indexed absent new key = elim (Bool-cases (bytes_eq e.idempotency_key key)) [
  | inl hit ↦
      let same = bytes_eq_sound e.idempotency_key key hit in
      ap (λ k. is_some (find_key key (put_key k (length s.rows) s.by_key))) same
      ∙ ap is_some (find-put_self key (length s.rows) s.by_key)
      ∙ sym (has_key-last key s.rows e same)
  | inr miss ↦
      ap is_some (
        find-put_ne e.idempotency_key key (length s.rows) s.by_key
          (bytes_ne e.idempotency_key key miss))
      ∙ indexed key
      ∙ sym (has_key-append_ne key s.rows e miss)
]

-- What Append does to the rows, by whether it answers.
pub append-Stored :
    (s : Store) (e : LedgerEntry)
    → IsIndexed s
    → Stored (is_ok (append s e).1) s e (append s e).0 × IsIndexed (append s e).0
unfolding append
append-Stored s e indexed = elim (Bool-cases (ltb 0 s.fail_next_appends)) [
  | inl fails ↦ rw (fails, append) (refl, indexed)
  | inr works ↦ elim (Option-cases (find_key e.idempotency_key s.by_key)) [
    | inr (i, found) ↦
        rw (works, found, append)
          (inl (sym (indexed e.idempotency_key) ∙ ap is_some found, refl), indexed)
    | inl absent ↦
        let new : has_key e.idempotency_key s.rows ≡ false =
          sym (indexed e.idempotency_key) ∙ ap is_some absent in
        rw (works, absent, append) (inr (new, refl), put_keys s e indexed absent new)
  ]
]

-- What a write answers and does: TIMEOUT while failures are set, and one less of them; a duplicate for
-- a key among the rows, which stay; else stored, with the entry behind the rows.
abbrev pub Answered : Store → LedgerEntry → Store × Result LedgerAppendOutcome → Type 0
Answered s e (s', err code) =
    (code ≡ timeout) × (s.fail_next_appends ≡ s'.fail_next_appends + 1) × (s'.rows ≡ s.rows)
Answered s e (s', ok outcome) =
    (s.fail_next_appends ≡ 0)
    × (outcome.duplicate ≡ has_key e.idempotency_key s.rows)
    × (outcome.stored ≡ not (has_key e.idempotency_key s.rows))
    × (s'.rows ≡ (if outcome.stored then s.rows ++ (e ∷ []) else s.rows))

-- Append to a store whose index agrees with its rows. While failures are set it answers TIMEOUT, uses
-- one of them up and keeps the rows. Otherwise it answers, with the flag of a duplicate exactly when
-- the key was among the rows and the flag of a stored entry exactly when it was not; in the latter
-- case the entry stands behind the rows, in the former the rows are as they were. The index agrees
-- with the rows afterwards, so that no key is stored twice.
pub append-Answered :
    (s : Store) (e : LedgerEntry)
    → IsIndexed s
    → Answered s e (append s e) × IsIndexed (append s e).0
unfolding append
append-Answered s e indexed =
    let key = e.idempotency_key in
    let kept = (append-Stored s e indexed).1 in
    (
      elim (Bool-cases (ltb 0 s.fail_next_appends)) [
        | inl fails ↦ rw (fails, append) (refl, ground (arith, fails), refl)
        | inr works ↦
            let calm : s.fail_next_appends ≡ 0 = ground (arith, works) in
            elim (Option-cases (find_key key s.by_key)) [
              | inr (i, found) ↦
                  let old : true ≡ has_key key s.rows = sym (ap is_some found) ∙ indexed key in
                  rw (works, found, append) (calm, old, ap not old, refl)
              | inl absent ↦
                  let new : false ≡ has_key key s.rows = sym (ap is_some absent) ∙ indexed key in
                  rw (works, absent, append) (calm, new, ap not new, refl)
            ]
      ],
      kept,
    )
