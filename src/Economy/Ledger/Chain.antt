-- ===== src/Economy/Ledger/Chain.antt =====
-- The hash chain: linking entries gives a chain that VerifyChainOf accepts.
use cami.Common.{◌≡◌, refl, ap, ◌∙◌, List, [], ◌∷◌, ◌++◌, true, arith}
use cami.Economy.Entry.{
  Hash256, LedgerEntry, compute_entry_hash, encode_fields, hash_equal, verify_entry_hash,
}
use cami.Economy.Entry.Compare.{hash_equal_refl}
use cami.Economy.Ledger.Operations.{linked, verify_chain_of}

-- The entries of a batch with the hashes that Flush gives them, from a base hash on.
abbrev pub link : Hash256 → List LedgerEntry → List LedgerEntry
link base [] = []
link base (e ∷ es) = let next = linked base e in next ∷ link next.hash es

-- The hash that a chain of entries ends with.
abbrev pub chain_end : Hash256 → List LedgerEntry → Hash256
chain_end base [] = base
chain_end base (e ∷ es) = chain_end e.hash es

-- The hash does not read the two hashes of the entry.
linked_same :
    (base : Hash256) (e : LedgerEntry)
    → compute_entry_hash base (linked base e) ≡ compute_entry_hash base e
unfolding compute_entry_hash encode_fields
linked_same base e = refl

linked_verifies : (base : Hash256) (e : LedgerEntry) → verify_entry_hash (linked base e) ≡ true
unfolding verify_entry_hash
linked_verifies base e =
    ap (hash_equal (compute_entry_hash base e)) (linked_same base e)
    ∙ hash_equal_refl (compute_entry_hash base e)

pub verify_chain_of-link :
    (base : Hash256) (es : List LedgerEntry) → verify_chain_of (link base es) base ≡ true
unfolding verify_chain_of
verify_chain_of-link base [] = refl
verify_chain_of-link base (e ∷ es) = ground (
  arith,
  hash_equal_refl base,
  linked_verifies base e,
  verify_chain_of-link (linked base e).hash es,
)

-- A chain that verifies and the linked entries that go on from its end verify together.
pub verify_chain_of-append :
    (base : Hash256) (rows es : List LedgerEntry)
    → verify_chain_of rows base ≡ true
    → verify_chain_of (rows ++ link (chain_end base rows) es) base ≡ true
unfolding verify_chain_of
verify_chain_of-append base [] es h = verify_chain_of-link base es
verify_chain_of-append base (r ∷ rows) es h = ground (arith, verify_chain_of-append r.hash rows es)

pub chain_end-append :
    (base : Hash256) (rows more : List LedgerEntry)
    → chain_end base (rows ++ more) ≡ chain_end (chain_end base rows) more
chain_end-append base [] more = refl
chain_end-append base (r ∷ rows) more = chain_end-append r.hash rows more
