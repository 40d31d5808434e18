-- ===== src/Economy/Ledger/Table.antt =====
-- The open-addressing table of fingerprints: probing ends, and an insertion loses nothing.
use cami.Common.{
  ℕ, zero, suc, ◌+◌, ◌-◌, ◌%◌, ◌<◌, ◌≡◌, refl, sym, ap, subst, ◌∙◌, ◌≢◌, ◌⊎◌, inl, inr, List, [],
  ◌∷◌, none, some, arith, ltb, ◌==◌, if◌then◌else◌, length, get_or, set, sum_by, Bool-cases,
  Option-cases, length-set, get_or-set_self, get_or-set_ne,
}
use native.Mathlib.Nat.{mod-eq_of_lt, mod-lt, mod-add-mod, add-mod_right}
use cami.Economy.Ledger.{probe, find_place}

-- Probing that does not end saw a fingerprint at each place.
pub probe-none :
    (n : ℕ) (table : List ℕ) (i h : ℕ)
    → probe n table i h ≡ none
    → (k : ℕ) → k < n
    → i < length table
    → get_or table ((i + k) % length table) 0 ≢ 0
unfolding probe
probe-none zero table i h e k less small = absurd (omega arith)
probe-none (suc n) table i h e zero less small =
    let here : (i + 0) % length table ≡ i =
      ap (λ j. j % length table) (omega arith) ∙ mod-eq_of_lt small in
    λ empty. ground (arith, subst (λ j. get_or table j 0 ≡ 0) here empty)
probe-none (suc n) table i h e (suc k) less small = elim (Bool-cases (get_or table i 0 == 0)) [
  | inl empty ↦ absurd (ground (arith, empty))
  | inr full ↦ elim (Bool-cases (get_or table i 0 == h)) [
    | inl hit ↦ absurd (ground (arith, full, hit))
    | inr other ↦
        let rest : probe n table ((i + 1) % length table) h ≡ none = ground (arith, full, other) in
        subst (λ j. get_or table j 0 ≢ 0)
          (mod-add-mod (i + 1) (length table) k ∙ ap (λ j. j % length table) (omega arith))
          (probe-none n table ((i + 1) % length table) h rest k (omega arith)
            (mod-lt (i + 1) (omega arith)))
  ]
]

-- Probing has been at every place after as many turns as there are places.
pub every_place : (len i j : ℕ) → i < len → j < len → (k : ℕ) × (k < len) × ((i + k) % len ≡ j)
every_place len i j hi hj = elim (Bool-cases (ltb j i)) [
  | inl before ↦ (
    j + len - i,
    ground (arith, before),
    ap (λ m. m % len) (ground (arith, before)) ∙ add-mod_right j len ∙ mod-eq_of_lt hj,
  )
  | inr after ↦
      (j - i, ground (arith, after), ap (λ m. m % len) (ground (arith, after)) ∙ mod-eq_of_lt hj)
]

abbrev pub occupied : ℕ → ℕ
occupied x = if x == 0 then 0 else 1

-- How many places of a table hold a fingerprint.
abbrev pub load : List ℕ → ℕ
load table = sum_by occupied table

pub empty_place :
    (table : List ℕ)
    → load table < length table
    → (i : ℕ) × (i < length table) × (get_or table i 0 ≡ 0)
empty_place [] h = absurd (omega arith)
empty_place (zero ∷ table) h = (0, omega arith, refl)
empty_place (suc x ∷ table) h =
    let rest = empty_place table (ground (arith, h)) in (suc rest.0, omega (arith, rest.1), rest.2)

-- The probing of PendingContains and PendingInsert ends, at some place, in every table that is not
-- full.
pub find_place-some :
    (table : List ℕ) (h : ℕ) → load table < length table → (i : ℕ) × (find_place table h ≡ some i)
find_place-some table h room = elim (Option-cases (find_place table h)) [
  | inr found ↦ found
  | inl lost ↦
      let free = empty_place table room in
      let start = mod-lt h {m = length table} (omega arith) in
      let turn = every_place (length table) (h % length table) free.0 start free.1 in
      absurd (
        probe-none (length table) table (h % length table) h lost turn.0 turn.1 start
          (ap (λ j. get_or table j 0) turn.2 ∙ free.2))
]

-- The place that probing ends at is a place of the table, and is empty or holds the fingerprint.
pub probe_place :
    (n : ℕ) (table : List ℕ) (i h j : ℕ)
    → i < length table
    → probe n table i h ≡ some j
    → (j < length table) × ((get_or table j 0 ≡ 0) ⊎ (get_or table j 0 ≡ h))
unfolding probe
probe_place zero table i h j small e = cc
probe_place (suc n) table i h j small e = elim (Bool-cases (get_or table i 0 == 0)) [
  | inl empty ↦
      let at : i ≡ j = ground (arith, empty) in
      subst (λ m. (m < length table) × ((get_or table m 0 ≡ 0) ⊎ (get_or table m 0 ≡ h))) at
        (small, inl (ground (arith, empty)))
  | inr full ↦ elim (Bool-cases (get_or table i 0 == h)) [
    | inl hit ↦
        let at : i ≡ j = ground (arith, full, hit) in
        subst (λ m. (m < length table) × ((get_or table m 0 ≡ 0) ⊎ (get_or table m 0 ≡ h))) at
          (small, inr (ground (arith, hit)))
    | inr other ↦
        probe_place n table ((i + 1) % length table) h j (mod-lt (i + 1) (omega arith))
          (ground (arith, full, other))
  ]
]

-- Filling an empty place does not change what probing finds in a full one.
pub probe_kept :
    (n : ℕ) (table : List ℕ) (i g j p x : ℕ)
    → get_or table p 0 ≡ 0
    → get_or table j 0 ≢ 0
    → probe n table i g ≡ some j
    → probe n (set table p x) i g ≡ some j
unfolding probe
probe_kept zero table i g j p x free held e = cc
probe_kept (suc n) table i g j p x free held e = elim (Bool-cases (get_or table i 0 == 0)) [
  | inl empty ↦
      let at : i ≡ j = ground (arith, empty) in
      absurd (held (ap (λ m. get_or table m 0) (sym at) ∙ ground (arith, empty)))
  | inr full ↦
      let apart : p ≢ i = λ same. ground (arith, full, ap (λ m. get_or table m 0) same, free) in
      let same = get_or-set_ne table p i x 0 apart in
      elim (Bool-cases (get_or table i 0 == g)) [
        | inl hit ↦ ground (arith, same, full, hit)
        | inr other ↦
            let rest =
              probe_kept n table ((i + 1) % length table) g j p x free held
                (ground (arith, full, other)) in
            ground (
              arith,
              same,
              full,
              other,
              ap (λ len. probe n (set table p x) ((i + 1) % len) g) (length-set table p x),
              rest,
            )
      ]
]

-- Filling the empty place that probing found is found again.
pub probe_filled :
    (n : ℕ) (table : List ℕ) (i h j : ℕ)
    → i < length table
    → get_or table j 0 ≡ 0
    → h ≢ 0
    → probe n table i h ≡ some j
    → probe n (set table j h) i h ≡ some j
unfolding probe
probe_filled zero table i h j small free real e = cc
probe_filled (suc n) table i h j small free real e = elim (Bool-cases (get_or table i 0 == 0)) [
  | inl empty ↦
      let at : i ≡ j = ground (arith, empty) in
      ground (
        arith,
        at,
        ap (λ m. get_or (set table m h) i 0) (sym at) ∙ get_or-set_self table i h 0 small,
      )
  | inr full ↦
      let apart : j ≢ i = λ same. ground (arith, full, ap (λ m. get_or table m 0) same, free) in
      let same = get_or-set_ne table j i h 0 apart in
      elim (Bool-cases (get_or table i 0 == h)) [
        | inl hit ↦ ground (arith, same, full, hit)
        | inr other ↦
            let rest =
              probe_filled n table ((i + 1) % length table) h j (mod-lt (i + 1) (omega arith)) free
                real (ground (arith, full, other)) in
            ground (
              arith,
              same,
              full,
              other,
              ap (λ len. probe n (set table j h) ((i + 1) % len) h) (length-set table j h),
              rest,
            )
      ]
]
