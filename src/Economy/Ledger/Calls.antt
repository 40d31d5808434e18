-- ===== src/Economy/Ledger/Calls.antt =====
-- Append and Flush in any order keep the ledger an append-only, verified chain.
use cami.Common.{
  ℕ, zero, suc, ◌+◌, ◌*◌, ◌<◌, ◌≤◌, ◌≡◌, refl, ap, subst, ◌∙◌, inl, inr, List, [], ◌∷◌, ◌++◌, Bool,
  true, false, arith, ◌==◌, ltb, if◌then◌else◌, length, get_or, Bool-cases, append_nil, replicate,
  length-replicate,
}
use cami.Common.Bytes.{Bytes}
use cami.Common.Errors.{Result, ok, err, Result-cases}
use cami.Economy.Entry.{Hash256, LedgerEntry, validate_ledger_entry}
use cami.Economy.Store.{empty_store}
use cami.Economy.Store.Keys.{has_key, has_key-append_left, is_ok}
use cami.Economy.Ledger.{Ledger, LedgerConfig, init, empty_slot, next_pow2, next_pow2_from}
use cami.Economy.Ledger.Operations.{
  Sink, flush, finish_flush, flush_loop, enqueue, then_enqueue, append_valid, append_entry,
  verify_chain_of, inline_item_deltas, u32_of, Call, appends, flushes, call,
}
use cami.Economy.Ledger.Chain.{link}
use cami.Economy.Ledger.Flush.{batch, IsSound}
use cami.Economy.Ledger.Append.{IsFit}
use cami.Economy.Ledger.Table.{load}
use cami.Economy.Ledger.History.{history, Keeps, next_entry, Appended, enqueue-Appended}
use cami.Economy.Ledger.Runs.{IsSmall, Settled, batch_nil, flush-Settled, then_direct-Appended}

finish_arena :
    (l : Ledger) (r : Sink × Hash256 × Bool) → length (finish_flush l r).0.arena ≤ length l.arena
unfolding finish_flush
finish_arena l (k, last, false) = omega arith
finish_arena l (k, last, true) = omega arith

flush_arena : (l : Ledger) → length (flush l).0.arena ≤ length l.arena
unfolding flush
flush_arena l = elim (Bool-cases (l.count == 0)) [
  | inl idle ↦ rw (idle, flush) (omega arith)
  | inr waits ↦
      rw (waits, flush)
        (finish_arena l (
          flush_loop l.count 0 l l.pending_base_hash (record { store = l.store; stats = l.stats })))
]

pub base_new :
    (l : Ledger) (base : List LedgerEntry) (key : Bytes)
    → has_key key (history l base) ≡ false
    → has_key key base ≡ false
base_new l base key new = elim (Bool-cases (has_key key base)) [
  | inl old ↦
      absurd (ground (arith, new, has_key-append_left key base (link l.last_hash (batch l)) old))
  | inr fresh ↦ fresh
]

then_enqueue-Appended :
    (all : List LedgerEntry) (e : LedgerEntry) (r : Ledger × Result (Unit {0}))
    → has_key e.idempotency_key all ≡ false
    → IsSmall r.0 e
    → Settled all r
    → Appended all e (then_enqueue e r)
then_enqueue-Appended all e (l, err code) new small keeps = keeps
then_enqueue-Appended all e (l, ok done) new small (sound, fit, empty) =
    let same : history l all ≡ all =
      ap (λ es. all ++ link l.last_hash es) (batch_nil l empty) ∙ append_nil all in
    elim (Bool-cases (l.count == length l.ring)) [
      | inl full ↦ rw full (all, sound, fit, same)
      | inr space ↦
          let room : l.count < length l.ring = ground (arith, space, fit.room) in
          rw space (
            subst (λ h. Appended h e (enqueue l e)) same
              (enqueue-Appended l all e sound fit room small new))
    ]

append_valid-Appended :
    (l : Ledger) (base : List LedgerEntry) (e : LedgerEntry)
    → IsSound l base
    → IsFit l
    → IsSmall l e
    → has_key e.idempotency_key (history l base) ≡ false
    → Appended (history l base) e (append_valid l e)
append_valid-Appended l base e sound fit small new =
    let after = flush-Settled l base sound fit in
    elim (Bool-cases (ltb inline_item_deltas (u32_of (length e.item_deltas)))) [
      | inl big ↦ rw big (then_direct-Appended (history l base) e (flush l) new after)
      | inr inline ↦ elim (Bool-cases (l.count == length l.ring)) [
        | inl full ↦
            rw (inline, full)
              (then_enqueue-Appended (history l base) e (flush l) new
                (omega (arith, flush_arena l, small)) after)
        | inr space ↦
            let room : l.count < length l.ring = ground (arith, space, fit.room) in
            rw (inline, space)
              (enqueue-Appended l base e sound fit room small
                (base_new l base e.idempotency_key new))
      ]
    ]

-- Append on a sound ledger, for an entry whose key is new to the history and whose bytes fit 32-bit
-- offsets. When it answers ok, by way of the ring or of a direct write, with or without a flush
-- before it, the history is as it was with the entry linked at its end. When it answers an error
-- (an invalid entry, a duplicate, back pressure, a failed write) the history is as it was. The
-- ledger is sound in either case.
pub append_entry-Appended :
    (l : Ledger) (base : List LedgerEntry) (e : LedgerEntry)
    → IsSound l base
    → IsFit l
    → IsSmall l e
    → has_key e.idempotency_key (history l base) ≡ false
    → Appended (history l base) e (append_entry l e)
unfolding append_entry
append_entry-Appended l base e sound fit small new = elim (Result-cases (validate_ledger_entry e)) [
  | inr (code, bad) ↦ rw (bad, append_entry) (base, sound, fit, refl)
  | inl (done, good) ↦ rw (good, append_entry) (append_valid-Appended l base e sound fit small new)
]

-- The history after a call: it grows by an entry that is taken on.
abbrev pub advance : List LedgerEntry → Call → Bool → List LedgerEntry
advance all (appends e) true = all ++ (next_entry all e ∷ [])
advance all (appends e) false = all
advance all flushes b = all

abbrev pub run : Ledger → List Call → Ledger
run l [] = l
run l (c ∷ cs) = run (call l c).0 cs

abbrev pub run_history : Ledger → List LedgerEntry → List Call → List LedgerEntry
run_history l all [] = all
run_history l all (c ∷ cs) = run_history (call l c).0 (advance all c (is_ok (call l c).1)) cs

abbrev pub IsFree : Ledger → List LedgerEntry → Call → Type 0
IsFree l all (appends e) = (has_key e.idempotency_key all ≡ false) × IsSmall l e
IsFree l all flushes = Unit

-- Each entry is appended under a key that the history at that time does not have.
abbrev pub AllFree : Ledger → List LedgerEntry → List Call → Type 0
AllFree l all [] = Unit
AllFree l all (c ∷ cs) =
    IsFree l all c × AllFree (call l c).0 (advance all c (is_ok (call l c).1)) cs

appended_keeps :
    (all : List LedgerEntry) (e : LedgerEntry) (r : Ledger × Result (Unit {0}))
    → Appended all e r
    → Keeps r.0 (advance all (appends e) (is_ok r.1))
appended_keeps all e (l, ok done) keeps = keeps
appended_keeps all e (l, err code) keeps = keeps

settled_keeps :
    (all : List LedgerEntry) (r : Ledger × Result (Unit {0})) → Settled all r → Keeps r.0 all
settled_keeps all (l, ok done) (sound, fit, empty) =
    (all, sound, fit, ap (λ es. all ++ link l.last_hash es) (batch_nil l empty) ∙ append_nil all)
settled_keeps all (l, err code) keeps = keeps

call-Keeps :
    (l : Ledger) (all : List LedgerEntry) (c : Call)
    → IsFree l all c
    → Keeps l all
    → Keeps (call l c).0 (advance all c (is_ok (call l c).1))
unfolding call
call-Keeps l all (appends e) (new, small) (base, sound, fit, same) =
    subst (λ h. Keeps (append_entry l e).0 (advance h (appends e) (is_ok (append_entry l e).1)))
      same
      (appended_keeps (history l base) e (append_entry l e) (
        append_entry-Appended l base e sound fit small (ap (has_key e.idempotency_key) same ∙ new)))
call-Keeps l all flushes free (base, sound, fit, same) =
    subst (Keeps (flush l).0) same
      (settled_keeps (history l base) (flush l) (flush-Settled l base sound fit))

pub run-Keeps :
    (l : Ledger) (all : List LedgerEntry) (cs : List Call)
    → AllFree l all cs
    → Keeps l all
    → Keeps (run l cs) (run_history l all cs)
run-Keeps l all [] free keeps = keeps
run-Keeps l all (c ∷ cs) free keeps =
    run-Keeps (call l c).0 (advance all c (is_ok (call l c).1)) cs free.1
      (call-Keeps l all c free.0 keeps)

next_pow2_bound : (n p v : ℕ) → 0 < p → v ≤ p + n → v ≤ next_pow2_from n p v
next_pow2_bound zero p v pos h = omega arith
next_pow2_bound (suc n) p v pos h = elim (Bool-cases (ltb p v)) [
  | inl more ↦ rw more (next_pow2_bound n (p * 2) v (omega arith) (omega arith))
  | inr enough ↦ rw enough (ground (arith, enough))
]

load-replicate : (n : ℕ) → load (replicate n 0) ≡ 0
load-replicate zero = refl
load-replicate (suc n) = omega (arith, load-replicate n)

-- A new ledger over an empty store has no history.
replicate_zero : (n p : ℕ) → get_or (replicate {A = ℕ} n 0) p 0 ≡ 0
replicate_zero zero p = refl
replicate_zero (suc n) zero = refl
replicate_zero (suc n) (suc p) = replicate_zero n p

pub init-Keeps : (config : LedgerConfig) → Keeps (init empty_store config) []
unfolding init next_pow2 verify_chain_of
init-Keeps config =
    let l = init empty_store config in
    let capacity = if config.capacity == 0 then 1 else config.capacity in
    (
      [],
      record {
        indexed = λ key. refl;
        chained = refl;
        ends = refl;
        bases = refl;
        fresh = tt;
        stored = (0, refl);
      },
      record {
        heads = refl;
        room = omega arith;
        places = omega (
          arith,
          length-replicate capacity empty_slot,
          length-replicate {A = ℕ} (next_pow2_from (capacity * 2) 1 (capacity * 2)) 0,
          next_pow2_bound (capacity * 2) 1 (capacity * 2) (omega arith) (omega arith),
        );
        loads = omega (arith, load-replicate (next_pow2_from (capacity * 2) 1 (capacity * 2)));
        within = λ i h. absurd (omega arith);
        listed = tt;
        noted = λ p real.
            absurd (real (replicate_zero (next_pow2_from (capacity * 2) 1 (capacity * 2)) p));
      },
      refl,
    )
