-- ===== src/Economy/Ledger/Verify.antt =====
-- VerifyChainOf: it accepts the chains of linked entries and nothing else.
use cami.Common.{
  ◌≡◌, refl, sym, ap, subst, ◌∙◌, inl, inr, List, [], ◌∷◌, true, arith, All, Bool-cases,
}
use cami.Economy.Sha256.Digest.{IsDigest, final-IsDigest}
use cami.Economy.Entry.{Hash256, LedgerEntry, compute_entry_hash, hash_equal, verify_entry_hash}
use cami.Economy.Entry.Compare.{hash_equal_sound, hash_equal_refl}
use cami.Economy.Ledger.Operations.{verify_chain_of}

-- Every entry names the hash of the one before it, the first the base, and has the hash of its fields.
abbrev pub IsChain : Hash256 → List LedgerEntry → Type 0
IsChain base [] = Unit
IsChain base (e ∷ es) =
    (e.prev_hash ≡ base) × (e.hash ≡ compute_entry_hash base e) × IsChain e.hash es

-- The two hashes of an entry are arrays of 32 bytes.
abbrev pub HasDigests : LedgerEntry → Type 0
HasDigests e = IsDigest e.prev_hash × IsDigest e.hash

pub compute_entry_hash-IsDigest :
    (prev : Hash256) (e : LedgerEntry) → IsDigest (compute_entry_hash prev e)
unfolding compute_entry_hash
compute_entry_hash-IsDigest prev e = final-IsDigest _

equal_digests : (a b : Hash256) → IsDigest a → IsDigest b → hash_equal a b ≡ true → a ≡ b
equal_digests a b (len, small) (len', small') same =
    hash_equal_sound a b (omega (arith, len, len')) small small' same

equal_reflexive : (a b : Hash256) → a ≡ b → hash_equal a b ≡ true
equal_reflexive a b same = subst (λ c. hash_equal a c ≡ true) same (hash_equal_refl a)

accepted-IsChain :
    (base : Hash256) (es : List LedgerEntry)
    → IsDigest base
    → All HasDigests es
    → verify_chain_of es base ≡ true
    → IsChain base es
unfolding verify_chain_of verify_entry_hash
accepted-IsChain base [] whole all good = tt
accepted-IsChain base (e ∷ es) whole ((before, own), all) good =
    elim (Bool-cases (hash_equal e.prev_hash base)) [
      | inr apart ↦ absurd (ground (arith, apart, good))
      | inl next ↦ elim (Bool-cases (hash_equal e.hash (compute_entry_hash e.prev_hash e))) [
        | inr forged ↦ absurd (ground (arith, next, forged, good))
        | inl true_hash ↦
            let links = equal_digests e.prev_hash base before whole next in
            let hashed =
              equal_digests e.hash (compute_entry_hash e.prev_hash e) own
                (compute_entry_hash-IsDigest e.prev_hash e) true_hash in
            (
              links,
              hashed ∙ ap (λ h. compute_entry_hash h e) links,
              accepted-IsChain e.hash es own all (ground (arith, next, true_hash, good)),
            )
      ]
    ]

IsChain-accepted :
    (base : Hash256) (es : List LedgerEntry) → IsChain base es → verify_chain_of es base ≡ true
unfolding verify_chain_of verify_entry_hash
IsChain-accepted base [] chain = refl
IsChain-accepted base (e ∷ es) (links, hashed, chain) =
    let next = equal_reflexive e.prev_hash base links in
    let true_hash =
      equal_reflexive e.hash (compute_entry_hash e.prev_hash e)
        (hashed ∙ ap (λ h. compute_entry_hash h e) (sym links)) in
    ground (arith, next, true_hash, IsChain-accepted e.hash es chain)

-- For entries whose hashes are arrays of 32 bytes, VerifyChainOf answers true exactly when every entry
-- names the hash of the entry before it, the first one the base, and has as its own hash that of its
-- fields behind that one: a wrong link and a wrong hash are both refused, at any place.
pub verify_chain_of-IsChain :
    (base : Hash256) (es : List LedgerEntry)
    → IsDigest base
    → All HasDigests es
    → (verify_chain_of es base ≡ true → IsChain base es)
      × (IsChain base es → verify_chain_of es base ≡ true)
verify_chain_of-IsChain base es whole all =
    (accepted-IsChain base es whole all, IsChain-accepted base es)
