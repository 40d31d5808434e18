-- ===== src/Economy/Ledger/History.antt =====
-- Ledger as an append-only list: what it has taken on, stored or waiting, in order and linked.
use cami.Common.{
  ◌+◌, ◌^◌, ◌<◌, ◌≡◌, refl, sym, ap, subst, ◌∙◌, inl, inr, List, [], ◌∷◌, ◌++◌, true, false, arith,
  length, get_or, All, Bool-cases, append_assoc,
}
use cami.Common.Errors.{Result, ok, err}
use cami.Economy.Entry.{Hash256, LedgerEntry, zero_hash, compute_entry_hash, encode_fields}
use cami.Economy.Store.{Store}
use cami.Economy.Store.Keys.{has_key, has_key-append_right}
use cami.Economy.Ledger.{Ledger, LedgerStats, slot_index, key_fingerprint, pending_contains}
use cami.Economy.Ledger.Operations.{linked, enqueue, enqueued, entry_cells}
use cami.Economy.Ledger.Chain.{link, chain_end, chain_end-append}
use cami.Economy.Ledger.Write.{IsFresh, IsPrefix}
use cami.Economy.Ledger.Flush.{batch, IsSound, pending_kept}
use cami.Economy.Ledger.Materialize.{bare}
use cami.Economy.Ledger.Prints.{has_print, not_waiting}
use cami.Economy.Ledger.Append.{IsFit, enqueued-batch, IsFresh-more, prefix_more, enqueued-IsFit}

-- The rows that are settled, then the batch as it will be stored.
abbrev pub history : Ledger → List LedgerEntry → List LedgerEntry
history l base = base ++ link l.last_hash (batch l)

-- A sound ledger with its history.
abbrev pub Keeps : Ledger → List LedgerEntry → Type 0
Keeps l all = (base : List LedgerEntry) × IsSound l base × IsFit l × (history l base ≡ all)

-- The entry with the hashes that it gets behind a history.
abbrev pub next_entry : List LedgerEntry → LedgerEntry → LedgerEntry
next_entry all e = linked (chain_end zero_hash all) e

-- What an operation that takes on an entry promises: on success the history grows by that entry, on
-- failure it is as before, and the ledger is sound.
abbrev pub Appended : List LedgerEntry → LedgerEntry → Ledger × Result (Unit {0}) → Type 0
Appended all e (l, ok done) = Keeps l (all ++ (next_entry all e ∷ []))
Appended all e (l, err code) = Keeps l all

pub linked-bare : (running : Hash256) (e : LedgerEntry) → linked running (bare e) ≡ linked running e
unfolding compute_entry_hash encode_fields
linked-bare running e = refl

link_more :
    (running : Hash256) (es : List LedgerEntry) (e : LedgerEntry)
    → link running (es ++ (e ∷ []))
      ≡ link running es ++ (linked (chain_end running (link running es)) e ∷ [])
link_more running [] e = refl
link_more running (x ∷ es) e =
    ap (λ r. linked running x ∷ r) (link_more (linked running x).hash es e)

history_end :
    (l : Ledger) (base : List LedgerEntry)
    → IsSound l base
    → chain_end zero_hash (history l base) ≡ chain_end l.last_hash (link l.last_hash (batch l))
history_end l base sound =
    chain_end-append zero_hash base (link l.last_hash (batch l))
    ∙ ap (λ h. chain_end h (link l.last_hash (batch l))) sound.ends

history_more :
    (l : Ledger) (base : List LedgerEntry) (e : LedgerEntry)
    → IsSound l base
    → base ++ link l.last_hash (batch l ++ (bare e ∷ []))
      ≡ history l base ++ (next_entry (history l base) e ∷ [])
history_more l base e sound =
    let es = link l.last_hash (batch l) in
    let end = chain_end l.last_hash es in
    ap (λ r. base ++ r) (link_more l.last_hash (batch l) (bare e))
    ∙ ap (λ x. base ++ (es ++ (x ∷ []))) (linked-bare end e)
    ∙ sym (append_assoc base es (linked end e ∷ []))
    ∙ ap (λ h. (base ++ es) ++ (linked h e ∷ [])) (sym (history_end l base sound))

-- Statistics have no part in it.
counted-IsSound :
    (l : Ledger) (base : List LedgerEntry) (stats : LedgerStats)
    → IsSound l base
    → IsSound (record l { stats = stats }) base
counted-IsSound l base stats sound =
    let same = pending_kept l.count 0 l l.store stats in
    (record {
      indexed = sound.indexed;
      chained = sound.chained;
      ends = sound.ends;
      bases = sound.bases;
      fresh = subst (IsFresh base l.last_hash) (sym same) sound.fresh;
      stored = subst (λ es. IsPrefix base l.last_hash es l.store) (sym same) sound.stored;
    })

pub stored-IsFit :
    (l : Ledger) (store : Store) (stats : LedgerStats)
    → IsFit l
    → IsFit (record l { store = store; stats = stats })
unfolding slot_index
stored-IsFit l store stats fit = record {
  heads = fit.heads;
  room = fit.room;
  places = fit.places;
  loads = fit.loads;
  within = λ i h. fit.within i h;
  listed =
      subst (All (λ e. pending_contains l.pend_hash (key_fingerprint e.idempotency_key) ≡ true))
        (sym (pending_kept l.count 0 l store stats)) fit.listed;
  noted = λ p real.
      subst (λ es. has_print (get_or l.pend_hash p 0) es ≡ true)
        (sym (pending_kept l.count 0 l store stats)) (fit.noted p real);
}

enqueued-IsSound :
    (l : Ledger) (base : List LedgerEntry) (e : LedgerEntry)
    → IsSound l base
    → batch (enqueued l e) ≡ batch l ++ (bare e ∷ [])
    → has_key e.idempotency_key (history l base) ≡ false
    → IsSound (enqueued l e) base
enqueued-IsSound l base e sound grows new =
    let j = sound.stored.0 in
    let more = prefix_more l.last_hash (batch l) (bare e) j in
    (record {
      indexed = sound.indexed;
      chained = sound.chained;
      ends = sound.ends;
      bases = ground (arith, sound.bases);
      fresh =
          subst (IsFresh base l.last_hash) (sym grows)
            (IsFresh-more base l.last_hash (batch l) (bare e) sound.fresh new);
      stored =
          subst (λ es. IsPrefix base l.last_hash es l.store) (sym grows)
            (more.0, sound.stored.1 ∙ ap (λ r. base ++ r) more.1);
    })

-- The end of Append takes on the entry or leaves the history as it is.
pub enqueue-Appended :
    (l : Ledger) (base : List LedgerEntry) (e : LedgerEntry)
    → IsSound l base
    → IsFit l
    → l.count < length l.ring
    → length l.arena + length (entry_cells e) < 2 ^ 32
    → has_key e.idempotency_key base ≡ false
    → Appended (history l base) e (enqueue l e)
unfolding enqueue
enqueue-Appended l base e sound fit room small new =
    let stats2 = record l.stats { duplicates_rejected = l.stats.duplicates_rejected + 1 } in
    let grows = enqueued-batch l e fit room small in
    elim (Bool-cases (pending_contains l.pend_hash (key_fingerprint e.idempotency_key))) [
      | inl waits ↦
          rw (waits, enqueue)
            (
              base,
              counted-IsSound l base stats2 sound,
              stored-IsFit l l.store stats2 fit,
              ap (λ es. base ++ link l.last_hash es) (pending_kept l.count 0 l l.store stats2),
            )
      | inr fresh ↦
          let unseen =
            has_key-append_right e.idempotency_key base (link l.last_hash (batch l)) new
            ∙ not_waiting l.pend_hash l.last_hash (batch l) e.idempotency_key fit.listed fresh in
          rw (fresh, enqueue)
            (
              base,
              enqueued-IsSound l base e sound grows unseen,
              enqueued-IsFit l e fit room small,
              ap (λ es. base ++ link l.last_hash es) grows ∙ history_more l base e sound,
            )
    ]
