-- ===== src/Economy/Ledger/Retry.antt =====
-- WriteOne retries: a store that fails no more often than the retries allow gets every entry.
use cami.Common.{
  ℕ, zero, suc, ◌+◌, ◌-◌, ◌<◌, ◌≤◌, ◌≡◌, refl, inl, inr, Bool, true, false, arith, ltb, ◌==◌,
  Bool-cases, Option-cases,
}
use cami.Common.Bytes.{find_key}
use cami.Common.Errors.{ok, err, timeout, is_retryable}
use cami.Economy.Entry.{Hash256, LedgerEntry}
use cami.Economy.Store.{Store, LedgerAppendOutcome, append}
use cami.Economy.Ledger.{Ledger, slot_at}
use cami.Economy.Ledger.Operations.{
  materialize, linked, Sink, write_attempts, write_one, flush_loop, finish_flush, flush,
}

append_fails :
    (s : Store) (e : LedgerEntry)
    → 0 < s.fail_next_appends
    → ((append s e).1 ≡ err timeout) × ((append s e).0.fail_next_appends ≡ s.fail_next_appends - 1)
unfolding append
append_fails s e h = elim (Bool-cases (ltb 0 s.fail_next_appends)) [
  | inl fails ↦ rw (fails, append) (refl, refl)
  | inr works ↦ absurd (ground arith)
]

append_works :
    (s : Store) (e : LedgerEntry)
    → s.fail_next_appends ≡ 0
    → (out : LedgerAppendOutcome) × ((append s e).1 ≡ ok out)
      × ((append s e).0.fail_next_appends ≡ 0)
unfolding append
append_works s e h = elim (Bool-cases (ltb 0 s.fail_next_appends)) [
  | inl fails ↦ absurd (ground arith)
  | inr works ↦ elim (Option-cases (find_key e.idempotency_key s.by_key)) [
    | inr (i, found) ↦
        rw (works, found, append) (record { stored = false; duplicate = true }, refl, h)
    | inl absent ↦ rw (works, absent, append) (record { stored = true; duplicate = false }, refl, h)
  ]
]

write_attempts-Works :
    (n : ℕ) (k : Sink) (e : LedgerEntry)
    → k.store.fail_next_appends < n
    → ((write_attempts n k e).1 ≡ true) × ((write_attempts n k e).0.store.fail_next_appends ≡ 0)
unfolding write_attempts is_retryable
write_attempts-Works zero k e h = absurd (omega arith)
write_attempts-Works (suc n) k e h = elim (Bool-cases (k.store.fail_next_appends == 0)) [
  | inl calm ↦
      let works = append_works k.store e (ground (arith, calm)) in
      rw (works.1, write_attempts) (refl, works.2)
  | inr rough ↦
      let fails = append_fails k.store e (ground (arith, rough)) in
      let k2 : Sink = record {
        store = (append k.store e).0;
        stats = record k.stats { retries = k.stats.retries + 1 };
      } in
      rw (fails.0, write_attempts) (write_attempts-Works n k2 e (ground (arith, fails.1, rough)))
]

flush_loop-Works :
    (n i : ℕ) (l : Ledger) (running : Hash256) (k : Sink)
    → k.store.fail_next_appends ≤ l.config.max_retries
    → (flush_loop n i l running k).2 ≡ true
unfolding flush_loop write_one
flush_loop-Works zero i l running k h = refl
flush_loop-Works (suc n) i l running k h =
    let e : LedgerEntry = linked running (materialize l.arena (slot_at l i)) in
    let works = write_attempts-Works (l.config.max_retries + 1) k e (omega arith) in
    rw (works.0, flush_loop)
      (flush_loop-Works n (suc i) l e.hash (write_attempts (l.config.max_retries + 1) k e).0
        (omega (arith, works.1)))

finish_flush_ok :
    (l : Ledger) (r : Sink × Hash256 × Bool) → r.2 ≡ true → (finish_flush l r).1 ≡ ok tt
unfolding finish_flush
finish_flush_ok l (k, running, true) h = refl
finish_flush_ok l (k, running, false) h = cc

-- Flush succeeds whenever the store fails at most max_retries times in a row from now on: the
-- retries of one entry outlast the failures, and there are none left for the next entries.
pub flush-Works :
    (l : Ledger) → l.store.fail_next_appends ≤ l.config.max_retries → (flush l).1 ≡ ok tt
unfolding flush
flush-Works l h = elim (Bool-cases (l.count == 0)) [
  | inl idle ↦ rw (idle, flush) refl
  | inr busy ↦
      let start : Sink = record { store = l.store; stats = l.stats } in
      rw (busy, flush)
        (finish_flush_ok l (flush_loop l.count 0 l l.pending_base_hash start)
          (flush_loop-Works l.count 0 l l.pending_base_hash start h))
]
