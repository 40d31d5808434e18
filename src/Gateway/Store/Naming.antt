-- ===== src/Gateway/Store/Naming.antt =====
-- A live session carries the id of its slot and generation.
use cami.Common.{
  ℕ, ◌^◌, ◌<◌, ◌≤◌, ◌≡◌, refl, sym, ap, ◌∙◌, inl, inr, true, false, Option, none, some, arith, leb,
  length, Bool-cases,
}
use cami.Gateway.Session.{
  Session, empty_session, is_terminal, make_session_id, session_slot, session_generation,
}
use cami.Gateway.Store.{SessionStore, slot_at, generation_at, slot_valid, get}
use cami.Gateway.Store.Invariant.{IsValid, IsLive, valid_slot}

pub record IsNamed (s : SessionStore) : Type 0 where
  pub small : s.max_sessions ≤ 2 ^ 32
  pub generations : (i : ℕ) → generation_at s i < 2 ^ 32
  pub named :
      (i : ℕ)
      → i < length s.slots
      → IsLive (slot_at s i)
      → (slot_at s i).session_id ≡ make_session_id i (generation_at s i)

-- The session that an id gives.
pub record Loaded (s : SessionStore) (id : ℕ) (x : Session) : Type 0 where
  pub there : session_slot id < length s.slots
  pub alive : IsLive x
  pub at : slot_at s (session_slot id) ≡ x
  pub valid : slot_valid s id ≡ true
  pub slot : session_slot x.session_id ≡ session_slot id
  pub own : slot_valid s x.session_id ≡ true
  pub name : x.session_id ≡ make_session_id (session_slot id) (generation_at s (session_slot id))

abbrev pub value_or : Session → Option Session → Session
value_or other none = other
value_or other (some x) = x

pub get-valid :
    (s : SessionStore) (id : ℕ) (x : Session)
    → get s id ≡ some x
    → (slot_valid s id ≡ true) × (slot_at s (session_slot id) ≡ x)
unfolding get
get-valid s id x e = elim (Bool-cases (slot_valid s id)) [
  | inl good ↦
      let gives : get s id ≡ some (slot_at s (session_slot id)) = rw (good, get) refl in
      (good, ap (value_or empty_session) (sym gives ∙ e))
  | inr bad ↦ absurd (ground (arith, bad))
]

pub own_slot : (i g : ℕ) → i < 2 ^ 32 → session_slot (make_session_id i g) ≡ i
own_slot i g h = omega (arith, h)

own_generation : (i g : ℕ) → i < 2 ^ 32 → g < 2 ^ 32 → session_generation (make_session_id i g) ≡ g
own_generation i g h k = omega (arith, h, k)

-- A live slot is valid under its own name.
pub name-valid :
    (s : SessionStore) (i : ℕ)
    → i < length s.slots
    → i < 2 ^ 32
    → generation_at s i < 2 ^ 32
    → IsLive (slot_at s i)
    → slot_valid s (make_session_id i (generation_at s i)) ≡ true
unfolding slot_valid
name-valid s i there small gen alive =
    let slot = own_slot i (generation_at s i) small in
    let g = own_generation i (generation_at s i) small gen in
    let inside : leb (length s.slots) i ≡ false = ground (arith, there) in
    rw (slot, g, inside, slot_valid) (ground (arith, alive))

pub get-Loaded :
    (s : SessionStore) (id : ℕ) (x : Session)
    → IsValid s
    → IsNamed s
    → get s id ≡ some x
    → Loaded s id x
get-Loaded s id x valid named e =
    let (good, at) = get-valid s id x e in
    let (there, alive) = valid_slot s id good in
    let i = session_slot id in
    let small : i < 2 ^ 32 = omega (arith, there, valid.bounded, named.small) in
    let name = sym (ap (λ (y : Session). y.session_id) at) ∙ named.named i there alive in
    record {
      there = there;
      alive = sym (ap (λ (y : Session). is_terminal y.state) at) ∙ alive;
      at = at;
      valid = good;
      slot = ap session_slot name ∙ own_slot i (generation_at s i) small;
      own = ap (slot_valid s) name ∙ name-valid s i there small (named.generations i) alive;
      name = name;
    }
