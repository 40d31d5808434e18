-- ===== src/Economy/Ledger/Prints.antt =====
-- The fingerprints of the keys of the entries that wait, and the table that notes them.
use cami.Common.{
  ℕ, ◌≡◌, refl, sym, ap, subst, ◌∙◌, ◌≢◌, inl, inr, List, [], ◌∷◌, ◌++◌, Bool, true, false,
  if◌then◌else◌, arith, ◌==◌, get_or, All, Bool-cases,
}
use cami.Common.Bytes.{Bytes, bytes_eq, bytes_eq_sound}
use cami.Economy.Entry.{Hash256, LedgerEntry}
use cami.Economy.Store.Keys.{has_key}
use cami.Economy.Ledger.{key_fingerprint, pending_contains, pending_insert}
use cami.Economy.Ledger.Operations.{linked}
use cami.Economy.Ledger.Chain.{link}
use cami.Economy.Ledger.Insert.{insert_keeps, insert_value}

-- Some entry has a key of the fingerprint.
abbrev pub has_print : ℕ → List LedgerEntry → Bool
has_print h [] = false
has_print h (e ∷ es) =
    let rest = has_print h es in if key_fingerprint e.idempotency_key == h then true else rest

-- A key whose fingerprint is not in the table is the key of no entry that waits.
pub not_waiting :
    (table : List ℕ) (running : Hash256) (es : List LedgerEntry) (key : Bytes)
    → All (λ e. pending_contains table (key_fingerprint e.idempotency_key) ≡ true) es
    → pending_contains table (key_fingerprint key) ≡ false
    → has_key key (link running es) ≡ false
not_waiting table running [] key listed absent = refl
not_waiting table running (e ∷ es) key listed absent =
    elim (Bool-cases (bytes_eq e.idempotency_key key)) [
      | inl same ↦ absurd (
          ground (
            arith,
            listed.0,
            absent,
            ap (λ k. pending_contains table (key_fingerprint k))
                (bytes_eq_sound e.idempotency_key key same),
          ))
      | inr other ↦
          ground (arith, other, not_waiting table (linked running e).hash es key listed.1 absent)
    ]

pub print_absent :
    (table : List ℕ) (h : ℕ) (es : List LedgerEntry)
    → All (λ e. pending_contains table (key_fingerprint e.idempotency_key) ≡ true) es
    → pending_contains table h ≡ false
    → has_print h es ≡ false
print_absent table h [] listed absent = refl
print_absent table h (e ∷ es) listed absent =
    elim (Bool-cases (key_fingerprint e.idempotency_key == h)) [
      | inl same ↦
          let is : key_fingerprint e.idempotency_key ≡ h = ground (arith, same) in
          absurd (ground (arith, listed.0, absent, ap (pending_contains table) is))
      | inr other ↦ ground (arith, other, print_absent table h es listed.1 absent)
    ]

pub key_fingerprint_real : (key : Bytes) → key_fingerprint key ≢ 0
unfolding key_fingerprint
key_fingerprint_real key = λ z. ground arith

pub listed_kept :
    (table : List ℕ) (h : ℕ) (es : List LedgerEntry) (e : LedgerEntry)
    → All (λ x. pending_contains table (key_fingerprint x.idempotency_key) ≡ true) es
    → pending_contains (pending_insert table h) (key_fingerprint e.idempotency_key) ≡ true
    → All
        (λ x. pending_contains (pending_insert table h) (key_fingerprint x.idempotency_key) ≡ true)
        (es ++ (e ∷ []))
listed_kept table h [] e listed new = (new, tt)
listed_kept table h (x ∷ es) e listed new = (
  insert_keeps table h (key_fingerprint x.idempotency_key) listed.0,
  listed_kept table h es e listed.1 new,
)

has_print-front :
    (h : ℕ) (es : List LedgerEntry) (e : LedgerEntry)
    → has_print h es ≡ true
    → has_print h (es ++ (e ∷ [])) ≡ true
has_print-front h [] e has = cc
has_print-front h (x ∷ es) e has = ground (arith, has_print-front h es e)

has_print-last :
    (h : ℕ) (es : List LedgerEntry) (e : LedgerEntry)
    → key_fingerprint e.idempotency_key ≡ h
    → has_print h (es ++ (e ∷ [])) ≡ true
has_print-last h [] e same = ground (arith, same)
has_print-last h (x ∷ es) e same = ground (arith, has_print-last h es e same)

pub noted_kept :
    (table : List ℕ) (h : ℕ) (es : List LedgerEntry) (e : LedgerEntry)
    → key_fingerprint e.idempotency_key ≡ h
    → ((p : ℕ) → get_or table p 0 ≢ 0 → has_print (get_or table p 0) es ≡ true)
    → (p : ℕ) → get_or (pending_insert table h) p 0 ≢ 0
    → has_print (get_or (pending_insert table h) p 0) (es ++ (e ∷ [])) ≡ true
noted_kept table h es e same noted p real = elim (insert_value table h p) [
  | inl old ↦ has_print-front (get_or (pending_insert table h) p 0) es e (
      subst (λ v. has_print v es ≡ true) (sym old)
        (noted p (λ none_there. real (old ∙ none_there))))
  | inr new ↦ has_print-last (get_or (pending_insert table h) p 0) es e (same ∙ sym new)
]
