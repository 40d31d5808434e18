-- ===== src/Economy/Ledger/Tests.antt =====
-- class Ledger: concrete ledgers over a store that may fail.
use cami.Common.{
  Bool-cases, inl, inr, ℕ, ◌≡◌, refl, ◌≤◌, ◌<◌, List, [], ◌∷◌, ◌++◌, true, false, some, arith,
  length, sym, subst, All, replicate, zero, suc, ◌^◌,
}
use cami.Common.Bytes.{bytes_eq}
use cami.Common.Int.{pos, negsuc}
use cami.Common.Errors.{ok}
use cami.Economy.Entry.{LedgerEntry, zero_hash, validate_ledger_entry}
use cami.Economy.Store.{empty_store, append}
use cami.Economy.Store.Keys.{has_key, IsIndexed, Answered, append-Answered}
use cami.Economy.Sha256.Digest.{IsDigest}
use cami.Economy.Ledger.Chain.{link}
use cami.Economy.Ledger.Verify.{
  IsChain, HasDigests, compute_entry_hash-IsDigest, verify_chain_of-IsChain,
}
use cami.Economy.Ledger.Table.{find_place-some}
use cami.Economy.Ledger.Insert.{pending_insert-Tracks}
use cami.Economy.Ledger.{
  Ledger, LedgerConfig, init, slot_index, probe, find_place, pending_contains, pending_insert,
  pending_clear, key_fingerprint, next_pow2,
}
use cami.Economy.Ledger.Operations.{
  materialize, slot_of, entry_cells, enqueue, append_entry, flush, finish_flush, flush_loop,
  write_one, write_attempts, arena_room, Call, appends, flushes, call, verify_chain_of,
}
use cami.Economy.Ledger.Memory.{text_cells}
use cami.Economy.Ledger.Materialize.{bare, materialize-slot_of}
use cami.Economy.Ledger.Runs.{IsSmall}
use cami.Economy.Ledger.Flush.{Flushed, flush-Flushed}
use cami.Economy.Ledger.Retry.{flush-Works}
use cami.Economy.Ledger.Duplicate.{first_entry, flush-Skips}
use cami.Economy.Entry.{compute_entry_hash}
use cami.Economy.Ledger.History.{history, Keeps, Appended}
use cami.Economy.Ledger.Enqueue.{Enqueued, enqueue-Enqueued}
use cami.Economy.Ledger.Calls.{
  append_entry-Appended, run, run_history, AllFree, base_new, run-Keeps, init-Keeps,
}

abbrev config : LedgerConfig
config = record { capacity = 2; max_retries = 3 }

abbrev entry : ℕ → LedgerEntry
entry n = record {
  transaction_id = 11;
  request_id = 5;
  idempotency_key = 107 ∷ n ∷ [];
  player = 3;
  peer = 0;
  op = 2;
  currency = 1;
  delta = negsuc 4;
  balance_after = pos 95;
  item_deltas = (record { def_id = 7; count = pos 2; guid = 40 }) ∷ [];
  reason = 97 ∷ 98 ∷ [];
  source = [];
  timestamp_ms = pos 1000;
  version = 1;
  prev_hash = [];
  hash = [];
}

abbrev new_ledger : Ledger
new_ledger = init empty_store config

abbrev waiting : Ledger
waiting = (append_entry new_ledger (entry 49)).0

abbrev calls : List Call
calls = appends (entry 49) ∷ flushes ∷ appends (entry 50) ∷ []

abbrev start_sound : Keeps new_ledger []
start_sound = init-Keeps config

abbrev one_call : List Call
one_call = appends (entry 49) ∷ []

-- An entry waits, and the next two writes of the store fail.
abbrev troubled : Ledger
troubled = record (run new_ledger one_call) { store = record empty_store { fail_next_appends = 2 } }

troubled_calm : troubled.store.fail_next_appends ≤ troubled.config.max_retries
unfolding call append_entry validate_ledger_entry enqueue pending_contains probe init next_pow2
    key_fingerprint pending_insert slot_index arena_room
troubled_calm = omega arith

flush-Works_example : (flush troubled).1 ≡ ok tt
flush-Works_example = flush-Works troubled troubled_calm

one_call_free : AllFree new_ledger [] one_call
unfolding init
one_call_free = ((refl, omega arith), tt)

one_waits : Keeps (run new_ledger one_call) (run_history new_ledger [] one_call)
one_waits = run-Keeps new_ledger [] one_call one_call_free (init-Keeps config)

flush-Flushed_example :
    Flushed (run new_ledger one_call) one_waits.0 (flush (run new_ledger one_call))
flush-Flushed_example = flush-Flushed (run new_ledger one_call) one_waits.0 one_waits.1

materialize-slot_of_example :
    materialize (text_cells (1 ∷ 2 ∷ []) ++ entry_cells (entry 49)) (slot_of 2 (entry 49))
    ≡ bare (entry 49)
materialize-slot_of_example = materialize-slot_of (text_cells (1 ∷ 2 ∷ [])) (entry 49) (omega arith)

new_key : has_key (entry 49).idempotency_key (history new_ledger start_sound.0) ≡ false
unfolding init
new_key = subst (λ all. has_key (entry 49).idempotency_key all ≡ false) (sym start_sound.3) refl

IsSmall-entry : IsSmall new_ledger (entry 49)
unfolding init
IsSmall-entry = omega arith

append_entry-Appended_example :
    Appended (history new_ledger start_sound.0) (entry 49) (append_entry new_ledger (entry 49))
append_entry-Appended_example =
    append_entry-Appended new_ledger start_sound.0 (entry 49) start_sound.1 start_sound.2
      IsSmall-entry new_key

free_base : has_key (entry 49).idempotency_key start_sound.0 ≡ false
free_base = base_new new_ledger start_sound.0 (entry 49).idempotency_key new_key

roomy : new_ledger.count < length new_ledger.ring
unfolding init
roomy = omega arith

enqueue-Enqueued_example :
    Enqueued new_ledger
      (history new_ledger start_sound.0)
      (entry 49)
      (enqueue new_ledger (entry 49))
enqueue-Enqueued_example =
    enqueue-Enqueued new_ledger start_sound.0 (entry 49) start_sound.1 start_sound.2 roomy
      IsSmall-entry free_base

abbrev small_table : List ℕ
small_table = 0 ∷ 9 ∷ 0 ∷ 0 ∷ []

find_place-some_example : (i : ℕ) × (find_place small_table 5 ≡ some i)
find_place-some_example = find_place-some small_table 5 (omega arith)

nine_is_in : pending_contains small_table 9 ≡ true
unfolding pending_contains probe
nine_is_in = refl

-- 5 and 9 want the same place of the table.
pending_insert-Tracks_example :
    (pending_contains (pending_insert small_table 5) 5 ≡ true)
    × ((g : ℕ)
        → pending_contains small_table g ≡ true
        → pending_contains (pending_insert small_table 5) g ≡ true)
pending_insert-Tracks_example = pending_insert-Tracks small_table 5 (omega arith) (omega arith)

empty-IsIndexed : IsIndexed empty_store
empty-IsIndexed key = refl

append-Answered_example :
    Answered empty_store (entry 49) (append empty_store (entry 49))
    × IsIndexed (append empty_store (entry 49)).0
append-Answered_example = append-Answered empty_store (entry 49) empty-IsIndexed

zeros_small : (n : ℕ) → All (λ x. x < 2 ^ 8) (replicate n 0)
zeros_small zero = tt
zeros_small (suc n) = (omega arith, zeros_small n)

zero_hash-IsDigest : IsDigest zero_hash
zero_hash-IsDigest = (refl, zeros_small 32)

abbrev two_rows : List LedgerEntry
two_rows = link zero_hash (entry 49 ∷ entry 50 ∷ [])

two_rows-HaveDigests : All HasDigests two_rows
two_rows-HaveDigests =
    let first = compute_entry_hash-IsDigest zero_hash (entry 49) in
    let second = compute_entry_hash-IsDigest (compute_entry_hash zero_hash (entry 49)) (entry 50) in
    ((zero_hash-IsDigest, first), ((first, second), tt))

verify_chain_of-IsChain_example :
    (verify_chain_of two_rows zero_hash ≡ true → IsChain zero_hash two_rows)
    × (IsChain zero_hash two_rows → verify_chain_of two_rows zero_hash ≡ true)
verify_chain_of-IsChain_example =
    verify_chain_of-IsChain zero_hash two_rows zero_hash-IsDigest two_rows-HaveDigests

-- The key is stored by a flush, and appended again.
abbrev doubled : List Call
doubled = appends (entry 49) ∷ flushes ∷ appends (entry 49) ∷ []

abbrev doubled_ledger : Ledger
doubled_ledger = run new_ledger doubled

one_waits_again : doubled_ledger.count ≡ 1
unfolding call append_entry validate_ledger_entry enqueue pending_contains probe init next_pow2
    key_fingerprint flush finish_flush flush_loop write_one write_attempts append pending_insert
    pending_clear slot_index arena_room bytes_eq materialize slot_of
one_waits_again = refl

doubled_calm : doubled_ledger.store.fail_next_appends ≡ 0
unfolding call append_entry validate_ledger_entry enqueue pending_contains probe init next_pow2
    key_fingerprint flush finish_flush flush_loop write_one write_attempts append pending_insert
    pending_clear slot_index arena_room bytes_eq materialize slot_of
doubled_calm = refl

doubled_old : has_key (first_entry doubled_ledger).idempotency_key doubled_ledger.store.rows ≡ true
unfolding call append_entry validate_ledger_entry enqueue pending_contains probe init next_pow2
    key_fingerprint flush finish_flush flush_loop write_one write_attempts append pending_insert
    pending_clear slot_index arena_room bytes_eq materialize slot_of
doubled_old = refl

doubled-IsIndexed : IsIndexed doubled_ledger.store
unfolding call append_entry validate_ledger_entry enqueue pending_contains probe init next_pow2
    key_fingerprint flush finish_flush flush_loop write_one write_attempts append pending_insert
    pending_clear slot_index arena_room bytes_eq materialize slot_of
doubled-IsIndexed key = elim (Bool-cases (bytes_eq (107 ∷ 49 ∷ []) key)) [
  | inl same ↦ rw same refl
  | inr other ↦ rw other refl
]

flush-Skips_example :
    ((flush doubled_ledger).1 ≡ ok tt)
    × ((flush doubled_ledger).0.store.rows ≡ doubled_ledger.store.rows)
    × ((flush doubled_ledger).0.last_hash
        ≡ compute_entry_hash doubled_ledger.pending_base_hash (first_entry doubled_ledger))
flush-Skips_example =
    flush-Skips doubled_ledger one_waits_again doubled-IsIndexed doubled_old
      (omega (arith, doubled_calm))
