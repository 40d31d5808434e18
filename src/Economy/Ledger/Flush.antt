-- ===== src/Economy/Ledger/Flush.antt =====
-- Flush: it ends with the whole batch behind the rows before it, or keeps the batch for another try.
use cami.Common.{
  ℕ, zero, suc, ◌+◌, ◌≡◌, refl, sym, ap, subst, ◌∙◌, inl, inr, List, [], ◌∷◌, ◌++◌, Bool, true,
  false, arith, ◌==◌, append_nil, Bool-cases, take_all,
}
use cami.Common.Errors.{Result, ok, err, timeout}
use cami.Economy.Entry.{Hash256, LedgerEntry, zero_hash}
use cami.Economy.Store.{Store}
use cami.Economy.Store.Keys.{IsIndexed, Stored}
use cami.Economy.Ledger.{Ledger, LedgerStats, slot_index, slot_at}
use cami.Economy.Ledger.Operations.{
  materialize, linked, Sink, write_one, flush_loop, finish_flush, flush, verify_chain_of,
}
use cami.Economy.Ledger.Chain.{link, chain_end, chain_end-append, verify_chain_of-append}
use cami.Economy.Ledger.Write.{
  write_one-Stored, pending_from, IsFresh, IsPrefix, Progress, Progress-next, placed,
}

abbrev Persists : List LedgerEntry → Hash256 → List LedgerEntry → Sink × Hash256 × Bool → Type 0
Persists base running es (k, last, done) =
    Progress done base running es last k.store × IsIndexed k.store

flush_loop-Persists :
    (n i : ℕ) (l : Ledger) (running : Hash256) (k : Sink) (base : List LedgerEntry)
    → IsIndexed k.store
    → IsFresh base running (pending_from n i l)
    → IsPrefix base running (pending_from n i l) k.store
    → Persists base running (pending_from n i l) (flush_loop n i l running k)
unfolding flush_loop
flush_loop-Persists zero i l running k base indexed fresh (j, rows) =
    ((rows ∙ ap (λ r. base ++ r) (take_all j [] (omega arith)), refl), indexed)
flush_loop-Persists (suc n) i l running k base indexed fresh prefix =
    let e : LedgerEntry = materialize l.arena (slot_at l i) in
    let es : List LedgerEntry = pending_from n (suc i) l in
    let next : LedgerEntry = linked running e in
    let answer : Sink × Bool = write_one l.config.max_retries k next in
    let wrote = write_one-Stored l.config.max_retries k next indexed in
    elim (Bool-cases answer.1) [
      | inl good ↦
          let stored = subst (λ b. Stored b k.store next answer.0.store) good wrote.0 in
          let rest = flush_loop n (suc i) l next.hash answer.0 in
          let prefix2 = placed base running e es k.store answer.0.store fresh.0 prefix stored in
          let all =
            flush_loop-Persists n (suc i) l next.hash answer.0 (base ++ (next ∷ [])) wrote.1 fresh.1
              prefix2 in
          rw (good, flush_loop)
            (Progress-next rest.2 base running e es rest.1 rest.0.store all.0, all.1)
      | inr bad ↦
          let kept = subst (λ b. Stored b k.store next answer.0.store) bad wrote.0 in
          rw (bad, flush_loop) ((prefix.0, kept ∙ prefix.1), wrote.1)
    ]

-- The entries that wait, as Append got them, oldest first.
abbrev pub batch : Ledger → List LedgerEntry
batch l = pending_from l.count 0 l

-- The rows base are a chain from the zero hash to the last hash, the store holds them and maybe a
-- part of the waiting batch behind them, and no key occurs twice among all these.
pub record IsSound (l : Ledger) (base : List LedgerEntry) : Type 0 where
  pub indexed : IsIndexed l.store
  pub chained : verify_chain_of base zero_hash ≡ true
  pub ends : chain_end zero_hash base ≡ l.last_hash
  pub bases : l.pending_base_hash ≡ l.last_hash
  pub fresh : IsFresh base l.last_hash (batch l)
  pub stored : IsPrefix base l.last_hash (batch l) l.store

-- A ledger that only wrote has the same batch.
pub pending_kept :
    (n i : ℕ) (l : Ledger) (store : Store) (stats : LedgerStats)
    → pending_from n i (record l { store = store; stats = stats }) ≡ pending_from n i l
unfolding slot_index
pending_kept zero i l store stats = refl
pending_kept (suc n) i l store stats =
    ap (λ es. materialize l.arena (slot_at l i) ∷ es) (pending_kept n (suc i) l store stats)

-- What Flush promises. On success the rows are those of before and then the whole batch, linked,
-- and nothing waits. On failure, which is a timeout, the same entries wait.
abbrev pub Flushed : Ledger → List LedgerEntry → Ledger × Result (Unit {0}) → Type 0
Flushed l base (l', ok done) =
    (l'.store.rows ≡ base ++ link l.last_hash (batch l))
    × (l'.count ≡ 0)
    × IsSound l' (base ++ link l.last_hash (batch l))
Flushed l base (l', err code) =
    (code ≡ timeout) × (l'.count ≡ l.count) × (batch l' ≡ batch l) × IsSound l' base

finish_flush-Flushed :
    (l : Ledger) (base : List LedgerEntry) (r : Sink × Hash256 × Bool)
    → IsSound l base
    → Persists base l.last_hash (batch l) r
    → Flushed l base (finish_flush l r)
unfolding finish_flush
finish_flush-Flushed l base (k, last, false) sound (prefix, indexed) =
    let stats2 = record k.stats {
      flush_failures = k.stats.flush_failures + 1;
      pending = l.count;
    } in
    let kept = pending_kept l.count 0 l k.store stats2 in
    (
      refl,
      refl,
      kept,
      record {
        indexed = indexed;
        chained = sound.chained;
        ends = sound.ends;
        bases = sound.bases;
        fresh = subst (IsFresh base l.last_hash) (sym kept) sound.fresh;
        stored = subst (λ es. IsPrefix base l.last_hash es k.store) (sym kept) prefix;
      },
    )
finish_flush-Flushed l base (k, last, true) sound ((rows, end), indexed) =
    let more = link l.last_hash (batch l) in
    (
      rows,
      refl,
      record {
        indexed = indexed;
        chained =
            subst (λ h. verify_chain_of (base ++ link h (batch l)) zero_hash ≡ true) sound.ends
              (verify_chain_of-append zero_hash base (batch l) sound.chained);
        ends =
            chain_end-append zero_hash base more ∙ ap (λ h. chain_end h more) sound.ends ∙ sym end;
        bases = refl;
        fresh = tt;
        stored = (0, rows ∙ sym (append_nil (base ++ more)));
      },
    )

nothing_waits :
    (l : Ledger) (base : List LedgerEntry) (n : ℕ)
    → n ≡ 0
    → IsPrefix base l.last_hash (pending_from n 0 l) l.store
    → (l.store.rows ≡ base) × (link l.last_hash (pending_from n 0 l) ≡ [])
nothing_waits l base zero e (j, rows) =
    (rows ∙ ap (λ r. base ++ r) (take_all j [] (omega arith)) ∙ append_nil base, refl)
nothing_waits l base (suc n) e prefix = absurd (omega arith)

-- Flush on a sound ledger. On success the store has the rows of before, then every entry that
-- waited, once and in order, linked to the chain; the chain from the zero hash verifies and
-- nothing waits. On failure the answer is a timeout, no entry that waited is lost, and the ledger
-- is sound as it was, so that a later Flush goes on with the entries that are not stored yet.
pub flush-Flushed :
    (l : Ledger) (base : List LedgerEntry) → IsSound l base → Flushed l base (flush l)
unfolding flush
flush-Flushed l base sound = elim (Bool-cases (l.count == 0)) [
  | inl idle ↦
      let empty = nothing_waits l base l.count (ground (arith, idle)) sound.stored in
      let same : base ++ link l.last_hash (batch l) ≡ base =
        ap (λ r. base ++ r) empty.1 ∙ append_nil base in
      rw (idle, flush)
        (empty.0 ∙ sym same, ground (arith, idle), subst (IsSound l) (sym same) sound)
  | inr busy ↦
      let start : Sink = record { store = l.store; stats = l.stats } in
      rw (busy, flush)
        (subst (λ h. Flushed l base (finish_flush l (flush_loop l.count 0 l h start)))
          (sym sound.bases)
          (finish_flush-Flushed l base (flush_loop l.count 0 l l.last_hash start) sound (
            flush_loop-Persists l.count 0 l l.last_hash start base sound.indexed sound.fresh
              sound.stored)))
]
