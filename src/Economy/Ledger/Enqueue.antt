-- ===== src/Economy/Ledger/Enqueue.antt =====
-- The end of Ledger::Append, where the table of fingerprints is asked.
use cami.Common.{
  ◌+◌, ◌^◌, ◌<◌, ◌≡◌, refl, sym, ap, subst, ◌∙◌, inl, inr, List, [], ◌∷◌, ◌++◌, Bool, true, false,
  arith, length, Bool-cases,
}
use cami.Common.Errors.{Result, ok, err, version_conflict}
use cami.Economy.Entry.{LedgerEntry}
use cami.Economy.Store.Keys.{has_key, has_key-append_right}
use cami.Economy.Ledger.{Ledger, key_fingerprint, pending_contains}
use cami.Economy.Ledger.Operations.{enqueue, enqueued, entry_cells}
use cami.Economy.Ledger.Chain.{link}
use cami.Economy.Ledger.Flush.{batch, IsSound}
use cami.Economy.Ledger.Prints.{has_print, not_waiting}
use cami.Economy.Ledger.Append.{IsFit, contains-has_print}
use cami.Economy.Ledger.History.{history, Keeps, next_entry, Appended, enqueue-Appended}

-- The ledger after a refusal, which only counts it.
abbrev pub refused : Ledger → Ledger
refused l = record l {
  stats = record l.stats { duplicates_rejected = l.stats.duplicates_rejected + 1 };
}

-- Some entry that waits has a key with the fingerprint of this entry's key.
abbrev pub collides : Ledger → LedgerEntry → Bool
collides l e = has_print (key_fingerprint e.idempotency_key) (batch l)

-- An entry that collides is refused, any other is taken on at the end of the history; a key of the
-- history collides.
abbrev pub Enqueued : Ledger → List LedgerEntry → LedgerEntry → Ledger × Result (Unit {0}) → Type 0
Enqueued l all e r =
    (collides l e ≡ true → (r ≡ (refused l, err version_conflict)) × Keeps r.0 all)
    × (collides l e ≡ false → (r.1 ≡ ok tt) × Keeps r.0 (all ++ (next_entry all e ∷ [])))
    × (has_key e.idempotency_key all ≡ true → collides l e ≡ true)

answered-Enqueued :
    (l : Ledger) (all : List LedgerEntry) (e : LedgerEntry)
    → pending_contains l.pend_hash (key_fingerprint e.idempotency_key) ≡ collides l e
    → (has_key e.idempotency_key all ≡ true → collides l e ≡ true)
    → Appended all e (enqueue l e)
    → Enqueued l all e (enqueue l e)
unfolding enqueue
answered-Enqueued l all e known waits kept = (
  (λ hits.
      let answer : enqueue l e ≡ (refused l, err version_conflict) =
        rw (known ∙ hits, enqueue) refl in
      (answer, subst (λ r. Keeps r.0 all) (sym answer) (subst (Appended all e) answer kept))),
  (λ fresh.
      let answer : enqueue l e ≡ (enqueued l e, ok tt) = rw (known ∙ fresh, enqueue) refl in
      (
        ap (λ r. r.1) answer,
        subst (λ r. Keeps r.0 (all ++ (next_entry all e ∷ []))) (sym answer)
            (subst (Appended all e) answer kept),
      )),
  waits,
)

-- The end of Append on a sound ledger with room in the ring and in 32-bit offsets, for a key that is
-- not among the settled rows. If the key of some entry that waits has the same 64-bit fingerprint, the
-- answer is VERSION_CONFLICT, the ledger changes in nothing but the count of refused duplicates, and
-- the history is as before; this is so whenever an entry with that very key waits. If none has, the
-- answer is a success and the entry stands, linked, at the end of the history. The ledger is sound
-- in both cases.
pub enqueue-Enqueued :
    (l : Ledger) (base : List LedgerEntry) (e : LedgerEntry)
    → IsSound l base
    → IsFit l
    → l.count < length l.ring
    → length l.arena + length (entry_cells e) < 2 ^ 32
    → has_key e.idempotency_key base ≡ false
    → Enqueued l (history l base) e (enqueue l e)
enqueue-Enqueued l base e sound fit room small new =
    let key = e.idempotency_key in
    let known = contains-has_print l (key_fingerprint key) fit (omega (arith, room)) in
    let split = has_key-append_right key base (link l.last_hash (batch l)) new in
    answered-Enqueued l (history l base) e known
      (λ waits. elim (Bool-cases (pending_contains l.pend_hash (key_fingerprint key))) [
        | inl is ↦ sym known ∙ is
        | inr absent ↦
            let none_waits = not_waiting l.pend_hash l.last_hash (batch l) key fit.listed absent in
            cc (waits, split, none_waits)
      ])
      (enqueue-Appended l base e sound fit room small new)
