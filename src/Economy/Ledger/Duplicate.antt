-- ===== src/Economy/Ledger/Duplicate.antt =====
-- Flush of an entry whose key an earlier batch stored.
use cami.Common.{◌≤◌, ◌≡◌, refl, sym, subst, inl, inr, Bool, true, false, arith, ◌==◌, Bool-cases}
use cami.Common.Errors.{Result, ok, err}
use cami.Economy.Entry.{Hash256, LedgerEntry, compute_entry_hash}
use cami.Economy.Store.{Store}
use cami.Economy.Store.Keys.{has_key, IsIndexed, Stored}
use cami.Economy.Ledger.{Ledger, slot_at}
use cami.Economy.Ledger.Operations.{
  materialize, linked, Sink, write_one, flush_loop, finish_flush, flush,
}
use cami.Economy.Ledger.Write.{write_one-Stored}
use cami.Economy.Ledger.Retry.{flush-Works}

-- The entry that waits alone.
abbrev pub first_entry : Ledger → LedgerEntry
first_entry l = materialize l.arena (slot_at l 0)

duplicate_kept :
    (s s' : Store) (e : LedgerEntry)
    → has_key e.idempotency_key s.rows ≡ true
    → Stored true s e s'
    → s'.rows ≡ s.rows
duplicate_kept s s' e old (inl (there, keeps)) = keeps
duplicate_kept s s' e old (inr (absent, adds)) = absurd (ground (arith, old, absent))

abbrev Skips : Ledger → Hash256 → Ledger × Result (Unit {0}) → Type 0
Skips l h (l', ok done) =
    (l'.store.rows ≡ l.store.rows) × (l'.last_hash ≡ compute_entry_hash h (first_entry l))
Skips l h (l', err code) = Unit

finish-Skips :
    (l : Ledger) (h : Hash256) (r : Sink × Hash256 × Bool)
    → r.0.store.rows ≡ l.store.rows
    → (r.2 ≡ true → r.1 ≡ compute_entry_hash h (first_entry l))
    → Skips l h (finish_flush l r)
unfolding finish_flush
finish-Skips l h (k, last, true) rows moved = (rows, moved refl)
finish-Skips l h (k, last, false) rows moved = tt

one-Skips :
    (l : Ledger) (h : Hash256)
    → IsIndexed l.store
    → has_key (first_entry l).idempotency_key l.store.rows ≡ true
    → Skips l h (finish_flush l (flush_loop 1 0 l h (record { store = l.store; stats = l.stats })))
unfolding flush_loop
one-Skips l h indexed old =
    let start : Sink = record { store = l.store; stats = l.stats } in
    let next : LedgerEntry = linked h (first_entry l) in
    let answer : Sink × Bool = write_one l.config.max_retries start next in
    let wrote = write_one-Stored l.config.max_retries start next indexed in
    elim (Bool-cases answer.1) [
      | inl good ↦
          let stored = subst (λ b. Stored b l.store next answer.0.store) good wrote.0 in
          rw (good, flush_loop)
            (finish-Skips l h (answer.0, next.hash, true)
              (duplicate_kept l.store answer.0.store next old stored) (λ z. refl))
      | inr bad ↦
          let kept = subst (λ b. Stored b l.store next answer.0.store) bad wrote.0 in
          rw (bad, flush_loop) (finish-Skips l h (answer.0, h, false) kept (λ z. absurd cc))
    ]

skipped :
    (l : Ledger) (h : Hash256) (r : Ledger × Result (Unit {0}))
    → r.1 ≡ ok tt
    → Skips l h r
    → (r.0.store.rows ≡ l.store.rows) × (r.0.last_hash ≡ compute_entry_hash h (first_entry l))
skipped l h (l', ok done) good skips = skips
skipped l h (l', err code) good skips = cc

-- When one entry waits and its key is among the rows already, and the store fails no more often than
-- the retries allow, Flush answers ok and stores nothing, and yet the hash that the next entry will
-- link to becomes that of the entry that was not stored.
pub flush-Skips :
    (l : Ledger)
    → l.count ≡ 1
    → IsIndexed l.store
    → has_key (first_entry l).idempotency_key l.store.rows ≡ true
    → l.store.fail_next_appends ≤ l.config.max_retries
    → ((flush l).1 ≡ ok tt)
      × ((flush l).0.store.rows ≡ l.store.rows)
      × ((flush l).0.last_hash ≡ compute_entry_hash l.pending_base_hash (first_entry l))
unfolding flush
flush-Skips l one indexed old calm =
    let h = l.pending_base_hash in
    let start : Sink = record { store = l.store; stats = l.stats } in
    let all : Skips l h (finish_flush l (flush_loop l.count 0 l h start)) =
      subst (λ n. Skips l h (finish_flush l (flush_loop n 0 l h start))) (sym one)
        (one-Skips l h indexed old) in
    let waits : (l.count == 0) ≡ false = ground (arith, one) in
    let whole : Skips l h (flush l) = rw (waits, flush) all in
    let both = skipped l h (flush l) (flush-Works l calm) whole in
    (flush-Works l calm, both.0, both.1)
