-- ===== src/Economy/Ledger/Runs.antt =====
-- Append's direct write, and what Flush leaves of the history.
use cami.Common.{
  ◌+◌, ◌^◌, ◌<◌, ◌≡◌, refl, sym, ap, subst, ◌∙◌, ◌⊎◌, inl, inr, List, [], ◌∷◌, ◌++◌, Bool, true,
  false, arith, ◌==◌, length, get_or, take, take_all, All, Bool-cases, append_nil,
}
use cami.Common.Errors.{Result, ok, err}
use cami.Economy.Entry.{Hash256, LedgerEntry, zero_hash}
use cami.Economy.Store.{Store}
use cami.Economy.Store.Keys.{has_key, IsIndexed, Stored}
use cami.Economy.Ledger.{Ledger, pending_contains, key_fingerprint}
use cami.Economy.Ledger.Operations.{
  linked, Sink, write_one, flush, finish_flush, flush_loop, entry_cells, write_direct,
  finish_direct, then_direct, verify_chain_of,
}
use cami.Economy.Ledger.Chain.{link, chain_end, chain_end-append, verify_chain_of-append}
use cami.Economy.Ledger.Write.{pending_from, IsFresh, write_one-Stored}
use cami.Economy.Ledger.Flush.{batch, IsSound, Flushed, flush-Flushed}
use cami.Economy.Ledger.Prints.{has_print}
use cami.Economy.Ledger.Append.{IsFit}
use cami.Economy.Ledger.Insert.{clear_load, clear_value}
use cami.Economy.Ledger.Table.{load}
use cami.Economy.Ledger.History.{history, Keeps, Appended, stored-IsFit}

finish_flush-IsFit : (l : Ledger) (r : Sink × Hash256 × Bool) → IsFit l → IsFit (finish_flush l r).0
unfolding finish_flush
finish_flush-IsFit l (k, last, false) fit =
    stored-IsFit l k.store
      (record k.stats { flush_failures = k.stats.flush_failures + 1; pending = l.count }) fit
finish_flush-IsFit l (k, last, true) fit =
    let cleared = clear_load l.pend_hash in
    (record {
      heads = refl;
      room = omega arith;
      places = omega (arith, cleared.1, fit.places);
      loads = omega (arith, cleared.0);
      within = λ i h. absurd (omega arith);
      listed = tt;
      noted = λ p real. absurd (real (clear_value l.pend_hash p));
    })

pub flush-IsFit : (l : Ledger) → IsFit l → IsFit (flush l).0
unfolding flush
flush-IsFit l fit = elim (Bool-cases (l.count == 0)) [
  | inl idle ↦ rw (idle, flush) fit
  | inr waits ↦
      let start : Sink = record { store = l.store; stats = l.stats } in
      rw (waits, flush)
        (finish_flush-IsFit l (flush_loop l.count 0 l l.pending_base_hash start) fit)
]

pub batch_nil : (l : Ledger) → l.count ≡ 0 → batch l ≡ []
batch_nil l e = ap (λ n. pending_from n 0 l) e

history_nil : (l : Ledger) (base : List LedgerEntry) → l.count ≡ 0 → history l base ≡ base
history_nil l base e = ap (λ es. base ++ link l.last_hash es) (batch_nil l e) ∙ append_nil base

-- A flush of a ledger: it keeps the history, and when it answers ok, nothing waits.
abbrev pub Settled : List LedgerEntry → Ledger × Result (Unit {0}) → Type 0
Settled all (l, ok done) = IsSound l all × IsFit l × (l.count ≡ 0)
Settled all (l, err code) = Keeps l all

settled :
    (l : Ledger) (base : List LedgerEntry) (r : Ledger × Result (Unit {0}))
    → Flushed l base r
    → IsFit r.0
    → r.0.last_hash ≡ l.last_hash ⊎ (r.1 ≡ ok tt)
    → Settled (history l base) r
settled l base (l', ok done) (rows, empty, sound) fit kept = (sound, fit, empty)
settled l base (l', err code) (at, counts, same, sound) fit (inr z) = cc
settled l base (l', err code) (at, counts, same, sound) fit (inl kept) = (
  base,
  sound,
  fit,
  ap (λ h. base ++ link h (batch l')) kept ∙ ap (λ es. base ++ link l.last_hash es) same,
)

finish_last :
    (l : Ledger) (r : Sink × Hash256 × Bool)
    → (finish_flush l r).0.last_hash ≡ l.last_hash ⊎ ((finish_flush l r).1 ≡ ok tt)
unfolding finish_flush
finish_last l (k, last, false) = inl refl
finish_last l (k, last, true) = inr refl

flush_last : (l : Ledger) → (flush l).0.last_hash ≡ l.last_hash ⊎ ((flush l).1 ≡ ok tt)
unfolding flush
flush_last l = elim (Bool-cases (l.count == 0)) [
  | inl idle ↦ rw (idle, flush) (inr refl)
  | inr waits ↦
      let start : Sink = record { store = l.store; stats = l.stats } in
      rw (waits, flush) (finish_last l (flush_loop l.count 0 l l.pending_base_hash start))
]

pub flush-Settled :
    (l : Ledger) (base : List LedgerEntry)
    → IsSound l base
    → IsFit l
    → Settled (history l base) (flush l)
flush-Settled l base sound fit =
    settled l base (flush l) (flush-Flushed l base sound) (flush-IsFit l fit) (flush_last l)

idle-IsSound :
    (l : Ledger) (base : List LedgerEntry)
    → l.count ≡ 0
    → IsIndexed l.store
    → verify_chain_of base zero_hash ≡ true
    → chain_end zero_hash base ≡ l.last_hash
    → l.pending_base_hash ≡ l.last_hash
    → l.store.rows ≡ base
    → IsSound l base
idle-IsSound l base empty indexed chained ends bases rows = record {
  indexed = indexed;
  chained = chained;
  ends = ends;
  bases = bases;
  fresh = subst (IsFresh base l.last_hash) (sym (batch_nil l empty)) tt;
  stored = (0, rows ∙ sym (append_nil base));
}

idle-IsFit :
    (l l' : Ledger)
    → IsFit l
    → l'.count ≡ 0
    → l'.head ≡ l.head
    → l'.count ≡ l.count
    → l'.ring ≡ l.ring
    → l'.pend_hash ≡ l.pend_hash
    → IsFit l'
idle-IsFit l l' fit empty head count ring table = record {
  heads = head ∙ fit.heads;
  room = omega (arith, empty);
  places = omega (arith, fit.places, ap length ring, ap length table);
  loads = omega (arith, fit.loads, ap load table, count);
  within = λ i h. absurd (omega arith);
  listed =
      subst (All (λ e. pending_contains l'.pend_hash (key_fingerprint e.idempotency_key) ≡ true))
        (sym (batch_nil l' empty)) tt;
  noted = λ p real.
      let none_waits = batch_nil l (sym count ∙ empty) in
      let same = ap (λ t. get_or t p 0) table in
      let old = fit.noted p (λ e. real (same ∙ e)) in
      absurd (ground (arith, ap (has_print (get_or l.pend_hash p 0)) none_waits, old));
}

idle_rows :
    (l : Ledger) (base : List LedgerEntry) → IsSound l base → l.count ≡ 0 → l.store.rows ≡ base
idle_rows l base sound empty =
    sound.stored.1
    ∙ ap (λ es. base ++ take sound.stored.0 (link l.last_hash es)) (batch_nil l empty)
    ∙ ap (λ r. base ++ r) (take_all sound.stored.0 [] (omega arith))
    ∙ append_nil base

direct_rows :
    (l : Ledger) (base : List LedgerEntry) (e : LedgerEntry) (s : Store)
    → l.store.rows ≡ base
    → has_key e.idempotency_key base ≡ false
    → Stored true l.store (linked l.last_hash e) s
    → s.rows ≡ base ++ (linked l.last_hash e ∷ [])
direct_rows l base e s rows new (inl (old, keeps)) =
    absurd (ground (arith, new, old, ap (has_key e.idempotency_key) rows))
direct_rows l base e s rows new (inr (absent, adds)) =
    adds ∙ ap (λ r. r ++ (linked l.last_hash e ∷ [])) rows

-- The direct write goes behind settled rows when nothing waits.
finish_direct-Appended :
    (l : Ledger) (base : List LedgerEntry) (e : LedgerEntry) (k : Sink) (b : Bool)
    → IsSound l base
    → IsFit l
    → l.count ≡ 0
    → has_key e.idempotency_key base ≡ false
    → Stored b l.store (linked l.last_hash e) k.store × IsIndexed k.store
    → Appended base e (finish_direct l (linked l.last_hash e) (k, b))
finish_direct-Appended l base e k false sound fit empty new (kept, indexed) =
    let l2 : Ledger = record l {
      store = k.store;
      stats = record k.stats { flush_failures = k.stats.flush_failures + 1 };
    } in
    (
      base,
      idle-IsSound l2 base empty indexed sound.chained sound.ends sound.bases
          (kept ∙ idle_rows l base sound empty),
      idle-IsFit l l2 fit empty refl refl refl refl,
      history_nil l2 base empty,
    )
finish_direct-Appended l base e k true sound fit empty new (stored, indexed) =
    let big = linked l.last_hash e in
    let l2 : Ledger = record l {
      store = k.store;
      last_hash = big.hash;
      pending_base_hash = big.hash;
      stats = record k.stats {
        appended = k.stats.appended + 1;
        big_entries_direct = k.stats.big_entries_direct + 1;
        pending = l.count;
      };
    } in
    let chained =
      subst (λ h. verify_chain_of (base ++ link h (e ∷ [])) zero_hash ≡ true) sound.ends
        (verify_chain_of-append zero_hash base (e ∷ []) sound.chained) in
    (
      base ++ (big ∷ []),
      idle-IsSound l2 (base ++ (big ∷ [])) empty indexed chained
          (chain_end-append zero_hash base (big ∷ [])) refl
          (direct_rows l base e k.store (idle_rows l base sound empty) new stored),
      idle-IsFit l l2 fit empty refl refl refl refl,
      history_nil l2 (base ++ (big ∷ [])) empty
          ∙ ap (λ h. base ++ (linked h e ∷ [])) (sym sound.ends),
    )

pub then_direct-Appended :
    (all : List LedgerEntry) (e : LedgerEntry) (r : Ledger × Result (Unit {0}))
    → has_key e.idempotency_key all ≡ false
    → Settled all r
    → Appended all e (then_direct e r)
unfolding write_direct
then_direct-Appended all e (l, err code) new keeps = keeps
then_direct-Appended all e (l, ok done) new (sound, fit, empty) =
    let start : Sink = record { store = l.store; stats = l.stats } in
    let answer = write_one l.config.max_retries start (linked l.last_hash e) in
    finish_direct-Appended l all e answer.0 answer.1 sound fit empty new
      (write_one-Stored l.config.max_retries start (linked l.last_hash e) sound.indexed)

-- Offsets and lengths of the arena stay below 4 GiB.
abbrev pub IsSmall : Ledger → LedgerEntry → Type 0
IsSmall l e = length l.arena + length (entry_cells e) < 2 ^ 32
