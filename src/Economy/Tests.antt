-- ===== src/Economy/Tests.antt =====
-- server/gamenode/economy: concrete digests, keys and ledgers.
use cami.Common.{some, ap, ◌≡◌, refl, ◌≢◌, [], ◌∷◌, ◌++◌, true, false, arith, replicate, All}
use cami.Common.Bytes.{bytes_eq, Bytes}
use cami.Common.Int.{ℤ, pos, negsuc}
use cami.Common.Errors.{ok, ok_code}
use cami.Economy.Idempotency.{
  EconomyResult, Idem, fresh, begins, commits, aborts, try_begin, begin_new, insert_if_absent, run,
  commit, lookup_result, completed,
}
use cami.Economy.Idempotency.Stays.{commit-Stays}
use cami.Economy.Idempotency.Once.{try_begin-Once}
use cami.Economy.Sha256.{reset, update, final, of, feed, whole_blocks, compress, padding}
use cami.Economy.Sha256.Stream.{IsPartial, update-append}
use cami.Economy.Entry.{unsigned_64, LedgerEntry, zero_hash, compute_entry_hash, hash_equal}
use cami.Economy.Entry.Canonical.{canonical}
use cami.Economy.Entry.Encoding.{compute_entry_hash-canonical}
use cami.Economy.Entry.Distinct.{IsSized, SameFields, compute_entry_hash-distinct}
use cami.Economy.Entry.Fields.{IsInt64}
use cami.Economy.Entry.Compare.{hash_equal_sound, IsOctet}

abbrev abc : Bytes
abc = 97 ∷ 98 ∷ 99 ∷ []

-- The digest of "abc" in FIPS 180-4.
sha256_abc :
    of abc
    ≡ 186 ∷ 120 ∷ 22 ∷ 191 ∷ 143 ∷ 1 ∷ 207 ∷ 234 ∷ 65 ∷ 65 ∷ 64 ∷ 222 ∷ 93 ∷ 174 ∷ 34 ∷ 35 ∷ 176 ∷ 3
      ∷ 97 ∷ 163 ∷ 150 ∷ 23 ∷ 122 ∷ 156 ∷ 180 ∷ 16 ∷ 255 ∷ 97 ∷ 242 ∷ 0 ∷ 21 ∷ 173 ∷ []
unfolding of final update reset feed whole_blocks compress padding
sha256_abc = refl

reset-IsPartial : IsPartial reset
unfolding reset
reset-IsPartial = omega arith

update-append_example :
    update (update reset abc) (replicate 100 7) ≡ update reset (abc ++ replicate 100 7)
update-append_example = update-append reset abc (replicate 100 7) reset-IsPartial

abbrev grant : LedgerEntry
grant = record {
  transaction_id = 11;
  request_id = 5;
  idempotency_key = 107 ∷ 49 ∷ [];
  player = 3;
  peer = 0;
  op = 2;
  currency = 1;
  delta = negsuc 4;
  balance_after = pos 95;
  item_deltas = (record { def_id = 7; count = pos 2; guid = 40 }) ∷ [];
  reason = abc;
  source = [];
  timestamp_ms = pos 1000;
  version = 1;
  prev_hash = [];
  hash = [];
}

compute_entry_hash-canonical_example :
    compute_entry_hash zero_hash grant ≡ of (canonical zero_hash grant)
compute_entry_hash-canonical_example = compute_entry_hash-canonical zero_hash grant

abbrev regrant : LedgerEntry
regrant = record grant { balance_after = pos 1000001 }

small_enough : (b : ℤ) → IsInt64 b → IsSized (record grant { balance_after = b })
small_enough b h = record {
  transaction = omega arith;
  request = omega arith;
  key = omega arith;
  player_id = omega arith;
  peer_id = omega arith;
  operation = omega arith;
  money = omega arith;
  change = omega arith;
  balance = h;
  schema = omega arith;
  time = omega arith;
  why = omega arith;
  whence = omega arith;
  few_items = omega arith;
  items = ((omega arith, omega arith, omega arith), tt);
}

regrant_differs : ¬ ((zero_hash ≡ zero_hash) × SameFields grant regrant)
regrant_differs (e, same) = omega (arith, ap unsigned_64 same.8)

compute_entry_hash-distinct_example :
    (compute_entry_hash zero_hash grant ≡ of (canonical zero_hash grant))
    × (compute_entry_hash zero_hash regrant ≡ of (canonical zero_hash regrant))
    × (canonical zero_hash grant ≢ canonical zero_hash regrant)
compute_entry_hash-distinct_example =
    compute_entry_hash-distinct zero_hash zero_hash grant regrant refl
      (small_enough (pos 95) (omega arith)) (small_enough (pos 1000001) (omega arith))
      regrant_differs

octets_small : All IsOctet abc
octets_small = (omega arith, (omega arith, (omega arith, tt)))

abc_equal : hash_equal abc abc ≡ true
unfolding hash_equal
abc_equal = refl

hash_equal_sound_example : abc ≡ abc
hash_equal_sound_example = hash_equal_sound abc abc refl octets_small octets_small abc_equal

abbrev no_idem : Idem
no_idem = record { rows = []; fail_next_inserts = 0; reaped = 0; busy = 0 }

abbrev paid : EconomyResult
paid = record {
  applied = true;
  deduplicated = false;
  code = ok_code;
  created_guids = [];
  balance_after = pos 95;
  version = 1;
  ledger_pending = true;
}

first_fresh : (try_begin no_idem 100 abc 30).1 ≡ ok fresh
unfolding try_begin begin_new insert_if_absent
first_fresh = refl

try_begin-Once_example :
    (try_begin
      (run (try_begin no_idem 100 abc 30).0 (begins 200 abc 30 ∷ commits abc paid ∷ aborts [] ∷ []))
      500
      abc
      30).1
    ≢ ok fresh
try_begin-Once_example =
    try_begin-Once no_idem 100 500 abc 30 30 (begins 200 abc 30 ∷ commits abc paid ∷ aborts [] ∷ [])
      first_fresh (tt, (tt, ((λ e. cc), tt)))

committed : (commit (try_begin no_idem 100 abc 30).0 abc paid).1 ≡ ok tt
unfolding try_begin begin_new insert_if_absent commit cami.Economy.Idempotency.update bytes_eq
committed = refl

commit-Stays_example :
    let s' =
      run
        (commit (try_begin no_idem 100 abc 30).0 abc paid).0
        (begins 900 abc 5 ∷ aborts [] ∷ []) in
    (lookup_result s' abc ≡ some paid) × ((try_begin s' 1000 abc 30).1 ≡ ok completed)
commit-Stays_example =
    commit-Stays (try_begin no_idem 100 abc 30).0 abc paid (begins 900 abc 5 ∷ aborts [] ∷ []) 1000
      30 committed (tt, ((λ e. cc), tt)) refl (λ e. omega arith)
