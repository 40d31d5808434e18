-- ===== src/Gateway/Failover/Queue.antt =====
-- The loop of ReattachPlayers: the sessions of the node join the queue, none of them twice.
use cami.Common.{
  ℕ, ◌≡◌, refl, ap, ◌∙◌, inl, inr, List, [], ◌∷◌, false, arith, ◌==◌, ◌||◌, if◌then◌else◌,
  Bool-cases,
}
use cami.Gateway.Failover.{contains, enqueue}

abbrev pub Distinct : List ℕ → Type 0
Distinct [] = Unit
Distinct (x ∷ xs) = (contains x xs ≡ false) × Distinct xs

abbrev next : ℕ → List ℕ → List ℕ
next s queue = if contains s queue then queue else s ∷ queue

next-Distinct : (s : ℕ) (queue : List ℕ) → Distinct queue → Distinct (next s queue)
next-Distinct s queue once = elim (Bool-cases (contains s queue)) [
  | inl old ↦ rw old once
  | inr new ↦ rw new (new, once)
]

next-contains :
    (x s : ℕ) (queue : List ℕ) → contains x (next s queue) ≡ ((s == x) || contains x queue)
next-contains x s queue = elim (Bool-cases (s == x)) [
  | inl same ↦ elim (Bool-cases (contains s queue)) [
    | inl old ↦ ground (arith, same, old, ap (λ k. contains k queue) {x = s} {y = x})
    | inr new ↦ ground (arith, same, new)
  ]
  | inr other ↦ elim (Bool-cases (contains s queue)) [
    | inl old ↦ ground (arith, other, old)
    | inr new ↦ ground (arith, other, new)
  ]
]

-- A queue without repetitions stays so when the sessions of a node join it, although they may name a
-- session twice or one that waits already. It then has exactly the sessions that waited and those
-- of the node.
pub enqueue-Distinct :
    (sessions queue : List ℕ)
    → Distinct queue
    → Distinct (enqueue sessions queue)
      × ((x : ℕ) → contains x (enqueue sessions queue) ≡ (contains x sessions || contains x queue))
unfolding enqueue
enqueue-Distinct [] queue once = (once, λ x. refl)
enqueue-Distinct (s ∷ ss) queue once =
    let rest = enqueue-Distinct ss (next s queue) (next-Distinct s queue once) in
    (rest.0, λ x. rest.1 x ∙ shuffle x)
  where
    shuffle :
        (x : ℕ)
        → (contains x ss || contains x (next s queue)) ≡ (contains x (s ∷ ss) || contains x queue)
    shuffle x = ground (arith, next-contains x s queue)
