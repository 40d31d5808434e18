-- ===== src/Gateway/Store/Invariant.antt =====
-- The slots, the free ones among them and the count of the live ones.
use cami.Common.{
  get_or-append_at, ℕ, ◌+◌, ◌%◌, ◌^◌, ◌<◌, ◌≤◌, ◌≡◌, refl, sym, ap, subst, ◌∙◌, ◌≢◌, inl, inr, List,
  [], ◌∷◌, ◌++◌, true, false, arith, leb, ◌==◌, if◌then◌else◌, length, get_or, set, sum_by,
  Bool-cases, length-set, get_or-set_self, get_or-set_ne, length-append, sum_by-set, sum_by-append,
}
use cami.Gateway.Session.{
  Session, empty_session, closed, is_terminal, make_session_id, session_slot, session_generation,
}
use cami.Gateway.Store.{
  SessionStore, slot_at, generation_at, slot_valid, take_slot, fill_slot, allocate, put, remove,
  Call, allocates, puts, removes, step,
}

abbrev pub live : Session → ℕ
live s = if is_terminal s.state then 0 else 1

abbrev Absent : ℕ → List ℕ → Type 0
Absent i [] = Unit
Absent i (j ∷ js) = (i ≢ j) × Absent i js

-- The free slots are slots, closed, and stand in the stack once.
abbrev pub Freed : List Session → List ℕ → Type 0
Freed slots [] = Unit
Freed slots (i ∷ free) =
    (i < length slots)
    × (is_terminal (get_or slots i empty_session).state ≡ true)
    × Absent i free
    × Freed slots free

-- Every slot holds a live session or is free, and there are no more slots than sessions allowed.
pub record IsValid (s : SessionStore) : Type 0 where
  pub paired : length s.generations ≡ length s.slots
  pub counted : sum_by live s.slots ≡ s.size
  pub freed : Freed s.slots s.free_slots
  pub complete : s.size + length s.free_slots ≡ length s.slots
  pub bounded : length s.slots ≤ s.max_sessions

Freed-set :
    (slots : List Session) (i : ℕ) (x : Session) (free : List ℕ)
    → Absent i free
    → Freed slots free
    → Freed (set slots i x) free
Freed-set slots i x [] absent freed = tt
Freed-set slots i x (j ∷ free) (apart, absent) (there, shut, once, rest) = (
  omega (arith, length-set slots i x),
  ap (λ (s : Session). is_terminal s.state) (get_or-set_ne slots i j x empty_session apart) ∙ shut,
  once,
  Freed-set slots i x free absent rest,
)

-- A slot that is not closed is not free.
live-Absent :
    (slots : List Session) (i : ℕ) (free : List ℕ)
    → is_terminal (get_or slots i empty_session).state ≡ false
    → Freed slots free
    → Absent i free
live-Absent slots i [] opened freed = tt
live-Absent slots i (j ∷ free) opened (there, shut, once, rest) = (
  (λ same.
      ground
        (arith, opened, shut, ap (λ k. is_terminal (get_or slots k empty_session).state) same)),
  live-Absent slots i free opened rest,
)

abbrev pub IsLive : Session → Type 0
IsLive s = is_terminal s.state ≡ false

live_one : (s : Session) → IsLive s → live s ≡ 1
live_one s alive = ground (arith, alive)

live_none : (s : Session) → is_terminal s.state ≡ true → live s ≡ 0
live_none s shut = ground (arith, shut)

fill_slot-IsValid :
    (initial : Session) (s : SessionStore) (free : List ℕ)
    → IsLive initial
    → s.size < s.max_sessions
    → s.free_slots ≡ free
    → IsValid s
    → IsValid (fill_slot initial (take_slot free s)).0
fill_slot-IsValid initial s [] alive room none_free valid =
    let more = s.slots ++ (empty_session ∷ []) in
    let n = length s.slots in
    let id = make_session_id n (get_or (s.generations ++ (1 ∷ [])) n 0) in
    let x = record initial { session_id = id } in
    let grown : length more ≡ n + 1 = length-append s.slots (empty_session ∷ []) in
    let last = ap live (get_or-append_at s.slots [] empty_session empty_session) in
    let len = ap length none_free in
    (record {
      paired =
          omega
            (arith, length-set more n x, grown, length-append s.generations (1 ∷ []), valid.paired);
      counted = omega (
        arith,
        sum_by-set live more n x empty_session (omega (arith, grown)),
        last,
        sum_by-append live s.slots (empty_session ∷ []),
        live_one x alive,
        valid.counted,
      );
      freed = subst (Freed (set more n x)) (sym none_free) tt;
      complete = omega (arith, length-set more n x, grown, valid.complete, len);
      bounded = omega (arith, length-set more n x, grown, valid.complete, len, room);
    })
fill_slot-IsValid initial s (slot ∷ rest) alive room some_free valid =
    let x = record initial { session_id = make_session_id slot (generation_at s slot) } in
    let freed : Freed s.slots (slot ∷ rest) = subst (Freed s.slots) some_free valid.freed in
    let len = ap length some_free in
    (record {
      paired = omega (arith, length-set s.slots slot x, valid.paired);
      counted = omega (
        arith,
        sum_by-set live s.slots slot x empty_session freed.0,
        live_none (get_or s.slots slot empty_session) freed.1,
        live_one x alive,
        valid.counted,
      );
      freed = Freed-set s.slots slot x rest freed.2 freed.3;
      complete = omega (arith, length-set s.slots slot x, valid.complete, len);
      bounded = omega (arith, length-set s.slots slot x, valid.bounded);
    })

-- A valid id has a slot whose session is live.
pub valid_slot :
    (s : SessionStore) (id : ℕ)
    → slot_valid s id ≡ true
    → (session_slot id < length s.slots) × IsLive (slot_at s (session_slot id))
unfolding slot_valid
valid_slot s id valid = elim (Bool-cases (leb (length s.slots) (session_slot id))) [
  | inl out ↦ absurd (ground (arith, out))
  | inr inside ↦ elim (Bool-cases (generation_at s (session_slot id) == session_generation id)) [
    | inr other ↦ absurd (ground (arith, inside, other))
    | inl same ↦ elim (Bool-cases (is_terminal (slot_at s (session_slot id)).state)) [
      | inl shut ↦ absurd (ground (arith, inside, same, shut))
      | inr alive ↦ (ground (arith, inside), alive)
    ]
  ]
]

-- The sessions that the program allocates and puts are not closed.
abbrev pub IsAllowed : Call → Type 0
IsAllowed (allocates initial) = IsLive initial
IsAllowed (puts session) = IsLive session
IsAllowed (removes id) = Unit

-- Allocate, Put and Remove, whether they succeed or fail, keep the store valid: the count is the
-- number of live sessions, which is at most the number allowed, every other slot is free, and no slot
-- is free twice. The sessions that are allocated and put are not closed.
pub step-IsValid : (s : SessionStore) (c : Call) → IsAllowed c → IsValid s → IsValid (step s c)
unfolding step allocate put remove
step-IsValid s (allocates initial) alive valid = elim (Bool-cases (leb s.max_sessions s.size)) [
  | inl full ↦ rw (full, step, allocate) valid
  | inr space ↦
      rw (space, step, allocate)
        (fill_slot-IsValid initial s s.free_slots alive (ground (arith, space)) refl valid)
]
step-IsValid s (puts session) alive valid =
    let slot : ℕ = session_slot session.session_id in
    elim (Bool-cases (slot_valid s session.session_id)) [
      | inr bad ↦ rw (bad, step, put) valid
      | inl good ↦
          let at = valid_slot s session.session_id good in
          let size = length-set s.slots slot session in
          rw (good, step, put)
            (record {
              paired = omega (arith, size, valid.paired);
              counted = omega (
                arith,
                sum_by-set live s.slots slot session empty_session at.0,
                live_one (slot_at s slot) at.1,
                live_one session alive,
                valid.counted,
              );
              freed =
                  Freed-set s.slots slot session s.free_slots
                    (live-Absent s.slots slot s.free_slots at.1 valid.freed) valid.freed;
              complete = omega (arith, size, valid.complete);
              bounded = omega (arith, size, valid.bounded);
            })
    ]
step-IsValid s (removes id) alive valid =
    let slot : ℕ = session_slot id in
    let shut : Session = record empty_session { state = closed } in
    elim (Bool-cases (slot_valid s id)) [
      | inr bad ↦ rw (bad, step, remove) valid
      | inl good ↦
          let at = valid_slot s id good in
          let size = length-set s.slots slot shut in
          let absent = live-Absent s.slots slot s.free_slots at.1 valid.freed in
          let change = sum_by-set live s.slots slot shut empty_session at.0 in
          let one = live_one (slot_at s slot) at.1 in
          rw (good, step, remove)
            (record {
              paired = omega (
                arith,
                size,
                valid.paired,
                length-set s.generations slot ((generation_at s slot + 1) % 2 ^ 32),
              );
              counted = omega (arith, change, one, valid.counted);
              freed = (
                omega (arith, size, at.0),
                ap (λ (x : Session). is_terminal x.state)
                    (get_or-set_self s.slots slot shut empty_session at.0),
                absent,
                Freed-set s.slots slot shut s.free_slots absent valid.freed,
              );
              complete = omega (arith, size, valid.complete, change, one, valid.counted);
              bounded = omega (arith, size, valid.bounded);
            })
    ]
