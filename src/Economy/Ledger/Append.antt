-- ===== src/Economy/Ledger/Append.antt =====
-- The end of Append: the batch grows by the entry, or the key is found to wait already.
use cami.Common.{
  ℕ, zero, suc, ◌+◌, ◌*◌, ◌%◌, ◌^◌, ◌<◌, ◌≤◌, ◌≡◌, refl, sym, ap, subst, ◌∙◌, ◌≢◌, inl, inr, List,
  [], ◌∷◌, ◌++◌, true, false, arith, ◌==◌, length, get_or, take, All, Bool-cases, length-set,
  get_or-set_self, get_or-set_ne, append_nil, append_assoc, length-append,
}
use native.Mathlib.Nat.{mod-eq_of_lt}
use cami.Economy.Entry.{Hash256, LedgerEntry}
use cami.Economy.Store.Keys.{has_key}
use cami.Economy.Ledger.{
  Ledger, LedgerSlot, empty_slot, slot_index, slot_at, key_fingerprint, pending_contains,
}
use cami.Economy.Ledger.Operations.{materialize, linked, slot_of, entry_cells, enqueued}
use cami.Economy.Ledger.Chain.{link}
use cami.Economy.Ledger.Write.{pending_from, IsFresh}
use cami.Economy.Ledger.Flush.{batch}
use cami.Economy.Ledger.Materialize.{
  bare, IsWithin, materialize-slot_of, materialize_kept, slot_of-IsWithin,
}
use cami.Economy.Ledger.Prints.{
  has_print, print_absent, key_fingerprint_real, listed_kept, noted_kept,
}
use cami.Economy.Ledger.Table.{load}
use cami.Economy.Ledger.Insert.{insert_finds, insert_load, contains_value}

-- The ring, the arena and the table are as the batch needs them.
pub record IsFit (l : Ledger) : Type 0 where
  pub heads : l.head ≡ 0
  pub room : l.count ≤ length l.ring
  pub places : 2 * length l.ring ≤ length l.pend_hash
  pub loads : load l.pend_hash ≤ l.count
  pub within : (i : ℕ) → i < l.count → IsWithin (length l.arena) (slot_at l i)
  pub listed :
      All (λ e. pending_contains l.pend_hash (key_fingerprint e.idempotency_key) ≡ true) (batch l)
  pub noted :
      (p : ℕ) → get_or l.pend_hash p 0 ≢ 0 → has_print (get_or l.pend_hash p 0) (batch l) ≡ true

slot_index_plain : (l : Ledger) (i : ℕ) → l.head ≡ 0 → i < length l.ring → slot_index l i ≡ i
unfolding slot_index
slot_index_plain l i h less = ap (λ j. j % length l.ring) (omega arith) ∙ mod-eq_of_lt less

slot_index-enqueued :
    (l : Ledger) (e : LedgerEntry) (i : ℕ)
    → l.head ≡ 0
    → i < length l.ring
    → slot_index (enqueued l e) i ≡ i
slot_index-enqueued l e i h less =
    slot_index_plain (enqueued l e) i h
      (omega (arith, length-set l.ring (slot_index l l.count) (slot_of (length l.arena) e)))

old_slot :
    (l : Ledger) (e : LedgerEntry) (i : ℕ)
    → l.head ≡ 0
    → l.count < length l.ring
    → i < l.count
    → slot_at (enqueued l e) i ≡ slot_at l i
old_slot l e i h room less =
    let at = slot_index_plain l l.count h room in
    ap (λ j. get_or (enqueued l e).ring j empty_slot) (slot_index-enqueued l e i h (omega arith))
    ∙ get_or-set_ne l.ring (slot_index l l.count) i (slot_of (length l.arena) e) empty_slot
        (λ same. omega (arith, at, same))
    ∙ ap (λ j. get_or l.ring j empty_slot) (sym (slot_index_plain l i h (omega arith)))

new_slot :
    (l : Ledger) (e : LedgerEntry)
    → l.head ≡ 0
    → l.count < length l.ring
    → slot_at (enqueued l e) l.count ≡ slot_of (length l.arena) e
new_slot l e h room =
    let at = slot_index_plain l l.count h room in
    ap (λ j. get_or (enqueued l e).ring j empty_slot)
      (slot_index-enqueued l e l.count h room ∙ sym at)
    ∙ get_or-set_self l.ring (slot_index l l.count) (slot_of (length l.arena) e) empty_slot
        (omega (arith, at))

-- The old part of the batch is as it was, and the new entry stands behind it.
enqueued-batch_from :
    (n i : ℕ) (l : Ledger) (e : LedgerEntry)
    → IsFit l
    → l.count < length l.ring
    → length l.arena + length (entry_cells e) < 2 ^ 32
    → i + n ≡ l.count
    → pending_from (suc n) i (enqueued l e) ≡ pending_from n i l ++ (bare e ∷ [])
enqueued-batch_from zero i l e fit room small at =
    let here : slot_at (enqueued l e) i ≡ slot_of (length l.arena) e =
      ap (slot_at (enqueued l e)) (omega arith) ∙ new_slot l e fit.heads room in
    ap (λ s. materialize (l.arena ++ entry_cells e) s ∷ []) here
    ∙ ap (λ x. x ∷ []) (materialize-slot_of l.arena e small)
enqueued-batch_from (suc n) i l e fit room small at =
    ap (λ s. materialize (l.arena ++ entry_cells e) s ∷ pending_from (suc n) (suc i) (enqueued l e))
      (old_slot l e i fit.heads room (omega arith))
    ∙ ap (λ x. x ∷ pending_from (suc n) (suc i) (enqueued l e))
        (materialize_kept l.arena (entry_cells e) (slot_at l i) (fit.within i (omega arith)))
    ∙ ap (λ es. materialize l.arena (slot_at l i) ∷ es)
        (enqueued-batch_from n (suc i) l e fit room small (omega arith))

pub enqueued-batch :
    (l : Ledger) (e : LedgerEntry)
    → IsFit l
    → l.count < length l.ring
    → length l.arena + length (entry_cells e) < 2 ^ 32
    → batch (enqueued l e) ≡ batch l ++ (bare e ∷ [])
enqueued-batch l e fit room small =
    let next : l.count + 1 ≡ suc l.count = omega arith in
    ap (λ n. pending_from n 0 (enqueued l e)) next
    ∙ enqueued-batch_from l.count 0 l e fit room small (omega arith)

pub IsFresh-more :
    (rows : List LedgerEntry) (running : Hash256) (es : List LedgerEntry) (e : LedgerEntry)
    → IsFresh rows running es
    → has_key e.idempotency_key (rows ++ link running es) ≡ false
    → IsFresh rows running (es ++ (e ∷ []))
IsFresh-more rows running [] e fresh new =
    (ap (has_key e.idempotency_key) (sym (append_nil rows)) ∙ new, tt)
IsFresh-more rows running (x ∷ es) e fresh new =
    let next = linked running x in
    (
      fresh.0,
      IsFresh-more (rows ++ (next ∷ [])) next.hash es e fresh.1 (
          ap (has_key e.idempotency_key) (append_assoc rows (next ∷ []) (link next.hash es)) ∙ new),
    )

pub prefix_more :
    (running : Hash256) (es : List LedgerEntry) (e : LedgerEntry) (j : ℕ)
    → (j' : ℕ) × (take j (link running es) ≡ take j' (link running (es ++ (e ∷ []))))
prefix_more running [] e zero = (0, refl)
prefix_more running [] e (suc j) = (0, refl)
prefix_more running (x ∷ es) e zero = (0, refl)
prefix_more running (x ∷ es) e (suc j) =
    let rest = prefix_more (linked running x).hash es e j in
    (suc rest.0, ap (λ r. linked running x ∷ r) rest.1)

-- The table finds the fingerprints of the entries that wait and no other.
pub contains-has_print :
    (l : Ledger) (h : ℕ)
    → IsFit l
    → 0 < length l.ring
    → pending_contains l.pend_hash h ≡ has_print h (batch l)
contains-has_print l h fit some_room = elim (Bool-cases (pending_contains l.pend_hash h)) [
  | inl found ↦
      let (j, is, held) =
        contains_value l.pend_hash h (omega (arith, fit.places, some_room)) found in
      found ∙ sym (subst (λ v. has_print v (batch l) ≡ true) is (fit.noted j held))
  | inr absent ↦ absent ∙ sym (print_absent l.pend_hash h (batch l) fit.listed absent)
]

IsWithin-more :
    (used more : ℕ) (slot : LedgerSlot) → IsWithin used slot → IsWithin (used + more) slot
IsWithin-more used more slot (a, b, c, d) = (omega arith, omega arith, omega arith, omega arith)

enqueued-IsWithin :
    (l : Ledger) (e : LedgerEntry)
    → IsFit l
    → l.count < length l.ring
    → length l.arena + length (entry_cells e) < 2 ^ 32
    → (i : ℕ) → i < l.count + 1
    → IsWithin (length (enqueued l e).arena) (slot_at (enqueued l e) i)
enqueued-IsWithin l e fit room small i less = elim (Bool-cases (i == l.count)) [
  | inl last ↦
      let at : l.count ≡ i = ground (arith, last) in
      subst (λ j. IsWithin (length (enqueued l e).arena) (slot_at (enqueued l e) j)) at
        (subst (IsWithin (length (enqueued l e).arena)) (sym (new_slot l e fit.heads room))
          (slot_of-IsWithin l.arena e small))
  | inr before ↦
      let old : i < l.count = ground (arith, before) in
      subst (IsWithin (length (enqueued l e).arena)) (sym (old_slot l e i fit.heads room old)) (
        subst (λ n. IsWithin n (slot_at l i)) (sym (length-append l.arena (entry_cells e)))
          (IsWithin-more (length l.arena) (length (entry_cells e)) (slot_at l i)
            (fit.within i old)))
]

pub enqueued-IsFit :
    (l : Ledger) (e : LedgerEntry)
    → IsFit l
    → l.count < length l.ring
    → length l.arena + length (entry_cells e) < 2 ^ 32
    → IsFit (enqueued l e)
enqueued-IsFit l e fit room small =
    let idem = key_fingerprint e.idempotency_key in
    let space : load l.pend_hash < length l.pend_hash =
      omega (arith, fit.loads, fit.places, room) in
    let after = insert_load l.pend_hash idem space in
    let size = length-set l.ring (slot_index l l.count) (slot_of (length l.arena) e) in
    (record {
      heads = fit.heads;
      room = omega (arith, size, room);
      places = omega (arith, size, after.1, fit.places);
      loads = omega (arith, after.0, fit.loads);
      within = enqueued-IsWithin l e fit room small;
      listed =
          subst
            (All (λ x.
              pending_contains (enqueued l e).pend_hash (key_fingerprint x.idempotency_key) ≡ true))
            (sym (enqueued-batch l e fit room small))
            (listed_kept l.pend_hash idem (batch l) (bare e) fit.listed
              (insert_finds l.pend_hash idem space (key_fingerprint_real e.idempotency_key)));
      noted = λ p real.
          subst (λ es. has_print (get_or (enqueued l e).pend_hash p 0) es ≡ true)
            (sym (enqueued-batch l e fit room small))
            (noted_kept l.pend_hash idem (batch l) (bare e) refl fit.noted p real);
    })
