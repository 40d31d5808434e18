-- ===== src/Economy/Ledger/Insert.antt =====
-- PendingInsert and PendingContains: a fingerprint that is put in is found, and so are the others.
use cami.Common.{
  zero, suc, ◌⊎◌, ℕ, ◌+◌, ◌%◌, ◌<◌, ◌≤◌, ◌≡◌, refl, sym, ap, ◌∙◌, ◌≢◌, inl, inr, List, [], ◌∷◌,
  true, Option, some, arith, ◌==◌, length, get_or, set, Bool-cases, Option-cases, length-set,
  get_or-set_self, get_or-set_ne, sum_by-set,
}
use native.Mathlib.Nat.{mod-lt}
use cami.Economy.Ledger.{probe, find_place, pending_contains, pending_insert, pending_clear}
use cami.Economy.Ledger.Table.{
  load, occupied, find_place-some, probe_place, probe_kept, probe_filled,
}

abbrev place_after : List ℕ → ℕ → ℕ → ℕ → ℕ → Option ℕ
place_after table p x g len = probe len (set table p x) (g % len) g

resized :
    (table : List ℕ) (p x g : ℕ)
    → find_place (set table p x) g ≡ place_after table p x g (length table)
resized table p x g = ap (place_after table p x g) (length-set table p x)

contains_at :
    (table : List ℕ) (h : ℕ)
    → pending_contains table h ≡ true
    → (j : ℕ) × (find_place table h ≡ some j) × (get_or table j 0 ≢ 0)
unfolding pending_contains
contains_at table h e = elim (Option-cases (find_place table h)) [
  | inl lost ↦ absurd (ground (arith, lost))
  | inr (j, found) ↦ (j, found, λ z. ground (arith, found, z))
]

at_contains :
    (table : List ℕ) (h j : ℕ)
    → find_place table h ≡ some j
    → get_or table j 0 ≢ 0
    → pending_contains table h ≡ true
unfolding pending_contains
at_contains table h j found held = rw (found, pending_contains) (ground arith)

pub insert_keeps :
    (table : List ℕ) (h g : ℕ)
    → pending_contains table g ≡ true
    → pending_contains (pending_insert table h) g ≡ true
unfolding pending_insert
insert_keeps table h g e = elim (Option-cases (find_place table h)) [
  | inl lost ↦ rw (lost, pending_insert) e
  | inr (p, found) ↦ elim (Bool-cases (get_or table p 0 == 0)) [
    | inr full ↦ rw (found, full, pending_insert) e
    | inl empty ↦
        let free : get_or table p 0 ≡ 0 = ground (arith, empty) in
        let at = contains_at table g e in
        let apart : p ≢ at.0 = λ same. at.2 (ap (λ m. get_or table m 0) (sym same) ∙ free) in
        rw (found, empty, pending_insert)
          (at_contains (set table p h) g at.0
            (resized table p h g
              ∙ probe_kept (length table) table (g % length table) g at.0 p h free at.2 at.1)
            (λ z. at.2 (sym (get_or-set_ne table p at.0 h 0 apart) ∙ z)))
  ]
]

pub insert_finds :
    (table : List ℕ) (h : ℕ)
    → load table < length table
    → h ≢ 0
    → pending_contains (pending_insert table h) h ≡ true
unfolding pending_insert
insert_finds table h room real =
    let place = find_place-some table h room in
    let p = place.0 in
    let found = place.1 in
    let start = mod-lt h {m = length table} (omega arith) in
    let there = probe_place (length table) table (h % length table) h p start found in
    elim (Bool-cases (get_or table p 0 == 0)) [
      | inr full ↦
          rw (found, full, pending_insert)
            (at_contains table h p found (λ z. ground (arith, full, z)))
      | inl empty ↦
          let free : get_or table p 0 ≡ 0 = ground (arith, empty) in
          rw (found, empty, pending_insert)
            (at_contains (set table p h) h p
              (resized table p h h
                ∙ probe_filled (length table) table (h % length table) h p start free real found)
              (λ z. real (sym (get_or-set_self table p h 0 there.0) ∙ z)))
    ]

pub insert_load :
    (table : List ℕ) (h : ℕ)
    → load table < length table
    → (load (pending_insert table h) ≤ load table + 1)
      × (length (pending_insert table h) ≡ length table)
unfolding pending_insert
insert_load table h room =
    let place = find_place-some table h room in
    let p = place.0 in
    let start = mod-lt h {m = length table} (omega arith) in
    let there = probe_place (length table) table (h % length table) h p start place.1 in
    elim (Bool-cases (get_or table p 0 == 0)) [
      | inr full ↦ rw (place.1, full, pending_insert) (omega arith, refl)
      | inl empty ↦
          rw (place.1, empty, pending_insert)
            (ground (arith, sum_by-set occupied table p h 0 there.0), length-set table p h)
    ]

pub clear_load :
    (table : List ℕ)
    → (load (pending_clear table) ≡ 0) × (length (pending_clear table) ≡ length table)
unfolding pending_clear
clear_load [] = (refl, refl)
clear_load (x ∷ xs) = (omega (arith, (clear_load xs).0), omega (arith, (clear_load xs).1))

set_value :
    (xs : List ℕ) (q v p : ℕ)
    → (get_or (set xs q v) p 0 ≡ get_or xs p 0) ⊎ (get_or (set xs q v) p 0 ≡ v)
set_value [] q v p = inl refl
set_value (x ∷ xs) zero v zero = inr refl
set_value (x ∷ xs) zero v (suc p) = inl refl
set_value (x ∷ xs) (suc q) v zero = inl refl
set_value (x ∷ xs) (suc q) v (suc p) = set_value xs q v p

-- PendingInsert writes no other fingerprint.
pub insert_value :
    (table : List ℕ) (h p : ℕ)
    → (get_or (pending_insert table h) p 0 ≡ get_or table p 0)
      ⊎ (get_or (pending_insert table h) p 0 ≡ h)
unfolding pending_insert
insert_value table h p = elim (Option-cases (find_place table h)) [
  | inl lost ↦ rw (lost, pending_insert) (inl refl)
  | inr (q, found) ↦ elim (Bool-cases (get_or table q 0 == 0)) [
    | inr full ↦ rw (found, full, pending_insert) (inl refl)
    | inl empty ↦ rw (found, empty, pending_insert) (set_value table q h p)
  ]
]

pub clear_value : (table : List ℕ) (p : ℕ) → get_or (pending_clear table) p 0 ≡ 0
unfolding pending_clear
clear_value [] p = refl
clear_value (x ∷ xs) zero = refl
clear_value (x ∷ xs) (suc p) = clear_value xs p

-- A fingerprint that is found stands somewhere in the table.
pub contains_value :
    (table : List ℕ) (h : ℕ)
    → 0 < length table
    → pending_contains table h ≡ true
    → (j : ℕ) × (get_or table j 0 ≡ h) × (get_or table j 0 ≢ 0)
contains_value table h some_places e =
    let (j, found, held) = contains_at table h e in
    let start = mod-lt h {m = length table} some_places in
    elim (probe_place (length table) table (h % length table) h j start found).1 [
      | inl empty ↦ absurd (held empty)
      | inr is ↦ (j, is, held)
    ]

-- PendingInsert into a table that is not full, of a fingerprint that is not the mark of an empty
-- place: PendingContains then finds it, and still finds every fingerprint that it found before.
pub pending_insert-Tracks :
    (table : List ℕ) (h : ℕ)
    → load table < length table
    → h ≢ 0
    → (pending_contains (pending_insert table h) h ≡ true)
      × ((g : ℕ)
          → pending_contains table g ≡ true
          → pending_contains (pending_insert table h) g ≡ true)
pending_insert-Tracks table h room real =
    (insert_finds table h room real, λ g e. insert_keeps table h g e)
