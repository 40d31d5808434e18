-- ===== src/Gateway/Store/Stale.antt =====
-- An id whose session was removed stays invalid, although its slot is used again.
use cami.Common.{
  get_or-append_front, ℕ, ◌+◌, ◌%◌, ◌^◌, ◌<◌, ◌≤◌, ◌≡◌, refl, ap, ◌∙◌, ◌≢◌, inl, inr, List, [], ◌∷◌,
  true, false, none, arith, leb, ◌==◌, length, get_or, set, Bool-cases, length-set, get_or-set_self,
  get_or-set_ne, length-append,
}
use cami.Gateway.Session.{Session, session_slot, session_generation}
use cami.Gateway.Store.{
  SessionStore, generation_at, slot_valid, take_slot, fill_slot, allocate, put, get, remove, Call,
  allocates, puts, removes, step, run,
}

-- A call moves the generation of a slot that exists on by one at most, and never back while there is
-- room in 32 bits.
abbrev Grows : SessionStore → SessionStore → ℕ → Type 0
Grows s s' i =
    (i < length s'.generations)
    × (generation_at s i ≤ generation_at s' i)
    × (generation_at s' i ≤ generation_at s i + 1)

fill_slot-Grows :
    (initial : Session) (free : List ℕ) (s : SessionStore) (i : ℕ)
    → i < length s.generations
    → Grows s (fill_slot initial (take_slot free s)).0 i
fill_slot-Grows initial [] s i h =
    let kept = get_or-append_front s.generations (1 ∷ []) i 0 h in
    (omega (arith, length-append s.generations (1 ∷ [])), omega (arith, kept), omega (arith, kept))
fill_slot-Grows initial (slot ∷ rest) s i h = (h, omega arith, omega arith)

step-Grows :
    (s : SessionStore) (c : Call) (i : ℕ)
    → i < length s.generations
    → generation_at s i + 1 < 2 ^ 32
    → Grows s (step s c) i
unfolding step allocate put remove
step-Grows s (allocates initial) i h room = elim (Bool-cases (leb s.max_sessions s.size)) [
  | inl full ↦ rw (full, step, allocate) (h, omega arith, omega arith)
  | inr space ↦ rw (space, step, allocate) (fill_slot-Grows initial s.free_slots s i h)
]
step-Grows s (puts session) i h room = elim (Bool-cases (slot_valid s session.session_id)) [
  | inl good ↦ rw (good, step, put) (h, omega arith, omega arith)
  | inr bad ↦ rw (bad, step, put) (h, omega arith, omega arith)
]
step-Grows s (removes id) i h room = elim (Bool-cases (slot_valid s id)) [
  | inr bad ↦ rw (bad, step, remove) (h, omega arith, omega arith)
  | inl good ↦ elim (Bool-cases (session_slot id == i)) [
    | inl same ↦
        let at : session_slot id ≡ i = ground (arith, same) in
        let next : ℕ = (generation_at s (session_slot id) + 1) % 2 ^ 32 in
        let read : get_or (set s.generations (session_slot id) next) i 0 ≡ generation_at s i + 1 =
          ap (λ j. get_or (set s.generations j ((generation_at s j + 1) % 2 ^ 32)) i 0) at
          ∙ get_or-set_self s.generations i ((generation_at s i + 1) % 2 ^ 32) 0 h
          ∙ omega (arith, room) in
        rw (good, step, remove)
          (
            omega (arith, length-set s.generations (session_slot id) next),
            omega (arith, read),
            omega (arith, read),
          )
    | inr other ↦
        let next : ℕ = (generation_at s (session_slot id) + 1) % 2 ^ 32 in
        let apart : session_slot id ≢ i = ground (arith, other) in
        let read = get_or-set_ne s.generations (session_slot id) i next 0 apart in
        rw (good, step, remove)
          (
            omega (arith, length-set s.generations (session_slot id) next),
            omega (arith, read),
            omega (arith, read),
          )
  ]
]

-- The id is of an earlier generation of its slot, and n more calls do not wrap the generation.
abbrev IsStale : SessionStore → ℕ → ℕ → Type 0
IsStale s id n =
    (session_slot id < length s.generations)
    × (session_generation id < generation_at s (session_slot id))
    × (generation_at s (session_slot id) + n < 2 ^ 32)

run-IsStale :
    (s : SessionStore) (id : ℕ) (cs : List Call)
    → IsStale s id (length cs)
    → IsStale (run s cs) id 0
run-IsStale s id [] stale = stale
run-IsStale s id (c ∷ cs) (there, older, room) =
    let grown = step-Grows s c (session_slot id) there (omega arith) in
    run-IsStale (step s c) id cs (grown.0, omega (arith, grown.1), omega (arith, grown.2))

invalid_stale : (s : SessionStore) (id : ℕ) → IsStale s id 0 → slot_valid s id ≡ false
unfolding slot_valid
invalid_stale s id (there, older, room) = ground (arith, older)

get_stale : (s : SessionStore) (id : ℕ) → IsStale s id 0 → get s id ≡ none
unfolding get
get_stale s id stale = rw (invalid_stale s id stale, get) refl

-- A valid id has a slot, and is of the slot's generation.
pub valid_id :
    (s : SessionStore) (id : ℕ)
    → slot_valid s id ≡ true
    → (session_slot id < length s.slots)
      × (generation_at s (session_slot id) ≡ session_generation id)
unfolding slot_valid
valid_id s id valid = elim (Bool-cases (leb (length s.slots) (session_slot id))) [
  | inl out ↦ absurd (ground (arith, out))
  | inr inside ↦ elim (Bool-cases (generation_at s (session_slot id) == session_generation id)) [
    | inr other ↦ absurd (ground (arith, inside, other))
    | inl same ↦ (ground (arith, inside), ground (arith, same))
  ]
]

-- After Remove of a valid id, and any calls of Allocate, Put and Remove, fewer than would wrap the
-- 32-bit generation of its slot, Get of the id finds nothing: the id is never taken for the session
-- that uses the slot next.
pub remove-Stale :
    (s : SessionStore) (id : ℕ) (cs : List Call)
    → length s.generations ≡ length s.slots
    → slot_valid s id ≡ true
    → session_generation id + 1 + length cs < 2 ^ 32
    → get (run (remove s id) cs) id ≡ none
unfolding remove
remove-Stale s id cs paired valid room =
    let at = valid_id s id valid in
    let slot : ℕ = session_slot id in
    let next : ℕ = (generation_at s slot + 1) % 2 ^ 32 in
    let read = get_or-set_self s.generations slot next 0 (omega (arith, paired, at.0)) in
    let stale : IsStale (remove s id) id (length cs) =
      rw (valid, remove)
        (
          omega (arith, length-set s.generations slot next, paired, at.0),
          omega (arith, read, at.1),
          omega (arith, read, at.1),
        ) in
    get_stale (run (remove s id) cs) id (run-IsStale (remove s id) id cs stale)
