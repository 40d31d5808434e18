-- ===== src/Economy/Wallets/Find.antt =====
-- WalletTable::Find: a player with a wallet has it found, and one without has not.
use cami.Common.{
  ℕ, zero, suc, ◌<◌, ◌≡◌, sym, ap, subst, ◌∙◌, ◌≢◌, ◌⊎◌, inl, inr, List, [], ◌∷◌, none, some, arith,
  length, get_or,
}
use native.Mathlib.Decide.{ℕ_discrete}
use cami.Economy.Ledger.Table.{load}
use cami.Economy.Wallets.{WalletTable, mix, place_of, find}
use cami.Economy.Wallets.Places.{place_of-some}
use cami.Economy.Wallets.Rehash.{IsTable, Stranger, Stranger-place}

pub room_of : (t : WalletTable) → IsTable t → load t.keys < length t.keys
room_of t ok_table = omega (arith, ok_table.indexes.loaded, ok_table.counted, ok_table.room)

Stranger-to :
    (o : ℕ) (owners : List ℕ) (pid : ℕ) → o ≢ pid → Stranger pid owners → Stranger pid (o ∷ owners)
Stranger-to o owners pid apart stranger zero h = apart
Stranger-to o owners pid apart stranger (suc j) h = stranger j (omega arith)

pub owner_or_Stranger :
    (owners : List ℕ) (pid : ℕ)
    → ((j : ℕ) × (j < length owners) × (get_or owners j 0 ≡ pid)) ⊎ Stranger pid owners
owner_or_Stranger [] pid = inr (λ j h. absurd (omega (arith, h)))
owner_or_Stranger (o ∷ owners) pid = elim (ℕ_discrete o pid) [
  | yes e ↦ inl (0, omega arith, e)
  | no apart ↦ elim (owner_or_Stranger owners pid) [
    | inl (j, h, e) ↦ inl (suc j, omega (arith, h), e)
    | inr stranger ↦ inr (Stranger-to o owners pid apart stranger)
  ]
]

-- Find gives the index of an owner.
pub find-owner :
    (t : WalletTable) (j pid : ℕ)
    → IsTable t
    → j < length t.owners
    → get_or t.owners j 0 ≡ pid
    → find t pid ≡ some j
unfolding find
find-owner t j pid table h is =
    let r = table.indexes.reached j h in
    let real : pid ≢ 0 = λ z. table.are.real j h (is ∙ z) in
    let ends : place_of t.keys pid ≡ some r.place = ap (place_of t.keys) (sym is) ∙ r.ends in
    let held : get_or t.keys r.place 0 ≡ pid = r.key ∙ is in ground (arith, real, ends, held, r.val)

pub find-Stranger :
    (t : WalletTable) (pid : ℕ) → IsTable t → Stranger pid t.owners → find t pid ≡ none
unfolding find
find-Stranger t pid table stranger =
    let found = place_of-some t.keys pid (mix pid) (room_of t table) in
    let at =
      Stranger-place t.owners t.keys t.vals pid found.0 table.indexes stranger (room_of t table)
        found.1 in
    ground (arith, found.1, at.1)

-- An index that Find gives is that of an owner.
pub find_bound :
    (t : WalletTable) (pid i : ℕ)
    → IsTable t
    → find t pid ≡ some i
    → (i < length t.wallets) × (get_or t.owners i 0 ≡ pid)
find_bound t pid i table e = elim (owner_or_Stranger t.owners pid) [
  | inl (j, h, is) ↦
      let same : j ≡ i = ground (arith, find-owner t j pid table h is, e) in
      subst (λ k. (k < length t.wallets) × (get_or t.owners k 0 ≡ pid)) same
        (omega (arith, h, table.stored), is)
  | inr stranger ↦ absurd (ground (arith, find-Stranger t pid table stranger, e))
]

-- Two tables with the same owners have the same lookups.
pub find_same :
    (t u : WalletTable) (pid : ℕ)
    → IsTable t
    → IsTable u
    → t.owners ≡ u.owners
    → find t pid ≡ find u pid
find_same t u pid tt_ tu same = elim (owner_or_Stranger t.owners pid) [
  | inl (j, h, is) ↦
      let h' : j < length u.owners = subst (λ os. j < length os) same h in
      let is' : get_or u.owners j 0 ≡ pid = subst (λ os. get_or os j 0 ≡ pid) same is in
      find-owner t j pid tt_ h is ∙ sym (find-owner u j pid tu h' is')
  | inr stranger ↦
      find-Stranger t pid tt_ stranger
      ∙ sym (find-Stranger u pid tu (subst (Stranger pid) same stranger))
]
