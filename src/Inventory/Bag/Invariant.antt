-- ===== src/Inventory/Bag/Invariant.antt =====
-- What every call of class Inventory keeps true of the slots, the free stack and the counters.
use cami.Common.{
  ℕ, suc, ◌+◌, ◌≤◌, ◌<◌, ◌≡◌, ◌≢◌, ◌⊎◌, inl, inr, List, [], ◌∷◌, arith, ◌==◌, if◌then◌else◌, length,
  get_or, set, sum_by, get_or-set_self, get_or-set_ne, sym, ◌∙◌, ap,
}
use native.Mathlib.Decide.{ℕ_discrete}
use cami.Inventory.Item.{ItemStack, empty_stack}
use cami.Inventory.Bag.{Inventory, max_inventory_slots}

abbrev pub guid_of : ItemStack → ℕ
guid_of s = s.guid

abbrev pub guid_at : List ItemStack → ℕ → ℕ
guid_at bag i = (get_or bag i empty_stack).guid

abbrev pub count_at : List ItemStack → ℕ → ℕ
count_at bag i = (get_or bag i empty_stack).count

abbrev pub taken : ItemStack → ℕ
taken s = if s.guid == 0 then 0 else 1

abbrev pub Absent : ℕ → List ℕ → Type 0
Absent i [] = Unit
Absent i (j ∷ js) = (i ≢ j) × Absent i js

-- Recycled slots are empty, below `next`, and stand in the stack once.
abbrev pub Recycled : List ItemStack → ℕ → List ℕ → Type 0
Recycled bag next [] = Unit
Recycled bag next (i ∷ is) = (i < next) × (guid_at bag i ≡ 0) × Absent i is × Recycled bag next is

-- The part of the invariant that an allocation does not touch; `counter` is the next guid.
pub record IsSound (inv : Inventory) (counter : ℕ) : Type 0 where
  pub slots : length inv.bag ≡ max_inventory_slots
  pub next_bound : inv.next ≤ max_inventory_slots
  pub occupied : sum_by taken inv.bag ≡ inv.used
  pub recycled : Recycled inv.bag inv.next inv.free
  pub untouched : (i : ℕ) → inv.next ≤ i → guid_at inv.bag i ≡ 0
  pub issued : (i : ℕ) → guid_at inv.bag i < counter
  pub distinct : (i j : ℕ) → guid_at inv.bag i ≢ 0 → guid_at inv.bag i ≡ guid_at inv.bag j → i ≡ j
  pub stocked : (i : ℕ) → 0 < count_at inv.bag i

-- A read after a write.
pub set-cases :
    (bag : List ItemStack) (idx i : ℕ) (st : ItemStack)
    → idx < length bag
    → ((i ≡ idx) × (get_or (set bag idx st) i empty_stack ≡ st))
      ⊎ ((i ≢ idx) × (get_or (set bag idx st) i empty_stack ≡ get_or bag i empty_stack))
set-cases bag idx i st h = elim (ℕ_discrete i idx) [
  | yes e ↦ inl (e, rw e (get_or-set_self bag idx st empty_stack h))
  | no ne ↦ inr (ne, get_or-set_ne bag idx i st empty_stack (λ e. ne (sym e)))
]

-- Every slot below `next` is occupied or recycled.
pub record IsValid (inv : Inventory) (counter : ℕ) : Type 0 where
  pub sound : IsSound inv counter
  pub tally : inv.used + length inv.free ≡ inv.next

-- An allocated slot that nothing was written to yet.
pub record IsReady (inv : Inventory) (counter idx : ℕ) : Type 0 where
  pub sound : IsSound inv counter
  pub tally : suc (inv.used + length inv.free) ≡ inv.next
  pub below : idx < inv.next
  pub vacant : guid_at inv.bag idx ≡ 0
  pub withdrawn : Absent idx inv.free

abbrev pub place : Inventory → ℕ → ItemStack → Inventory
place inv idx st = record inv { bag = set inv.bag idx st; used = inv.used + 1 }

pub Absent-of_bound :
    (i : ℕ) (bag : List ItemStack) (next : ℕ) (free : List ℕ)
    → Recycled bag next free
    → next ≤ i
    → Absent i free
Absent-of_bound i bag next [] r h = tt
Absent-of_bound i bag next (j ∷ js) r h = ((λ e. omega arith), Absent-of_bound i bag next js r.3 h)

pub Recycled-mono :
    (bag : List ItemStack) (m n : ℕ) (free : List ℕ)
    → Recycled bag m free
    → m ≤ n
    → Recycled bag n free
Recycled-mono bag m n [] r h = tt
Recycled-mono bag m n (j ∷ js) r h = (omega arith, r.1, r.2, Recycled-mono bag m n js r.3 h)

pub Recycled-set :
    (bag : List ItemStack) (i next : ℕ) (st : ItemStack) (free : List ℕ)
    → Absent i free
    → Recycled bag next free
    → Recycled (set bag i st) next free
Recycled-set bag i next st [] a r = tt
Recycled-set bag i next st (j ∷ js) a r = (
  r.0,
  ap (λ s. s.guid) (get_or-set_ne bag i j st empty_stack a.0) ∙ r.1,
  r.2,
  Recycled-set bag i next st js a.1 r.3,
)
