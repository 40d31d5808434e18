-- ===== src/Gateway/Store/Lasting.antt =====
-- What Put, Remove and Allocate leave of the session that an id gives.
use cami.Common.{
  ℕ, ◌+◌, ◌%◌, ◌^◌, ◌<◌, ◌≡◌, ◌≢◌, refl, sym, ap, subst, ◌∙◌, ◌⊎◌, inl, inr, List, [], ◌∷◌, ◌++◌,
  true, false, some, arith, leb, length, get_or, set, Bool-cases, length-set, length-append,
  get_or-set_self, get_or-set_ne, get_or-append_front,
}
use native.Mathlib.Decide.{ℕ_discrete}
use cami.Gateway.Session.{
  Session, empty_session, is_terminal, make_session_id, session_slot, session_generation,
}
use cami.Gateway.Store.{
  SessionStore, slot_at, generation_at, slot_valid, get, put, remove, take_slot, fill_slot,
  allocate,
}
use cami.Gateway.Store.Stale.{valid_id}
use cami.Gateway.Store.Invariant.{IsValid, IsLive, Freed, valid_slot}
use cami.Gateway.Store.Naming.{IsNamed, get-Loaded, get-valid}
use cami.Gateway.Store.Names.{shut}

-- The slot of the id holds the session, in the generation of the id.
pub record Holds (s : SessionStore) (id : ℕ) (x : Session) : Type 0 where
  pub there : session_slot id < length s.slots
  pub generation : generation_at s (session_slot id) ≡ session_generation id
  pub at : slot_at s (session_slot id) ≡ x
  pub alive : IsLive x

pub get-Holds : (s : SessionStore) (id : ℕ) (x : Session) → get s id ≡ some x → Holds s id x
get-Holds s id x has =
    let (good, at) = get-valid s id x has in
    record {
      there = (valid_id s id good).0;
      generation = (valid_id s id good).1;
      at = at;
      alive = sym (ap (λ (y : Session). is_terminal y.state) at) ∙ (valid_slot s id good).1;
    }

pub Holds-get : (s : SessionStore) (id : ℕ) (x : Session) → Holds s id x → get s id ≡ some x
unfolding get slot_valid
Holds-get s id x holds =
    let inside : leb (length s.slots) (session_slot id) ≡ false = ground (arith, holds.there) in
    let lives : is_terminal (slot_at s (session_slot id)).state ≡ false =
      ap (λ (y : Session). is_terminal y.state) holds.at ∙ holds.alive in
    let good : slot_valid s id ≡ true = ground (arith, inside, holds.generation, lives) in
    rw (good, get) (ap some holds.at)

-- A session is found under the id that it carries.
pub own-get :
    (s : SessionStore) (id : ℕ) (x : Session)
    → IsValid s
    → IsNamed s
    → get s id ≡ some x
    → get s x.session_id ≡ some x
unfolding get
own-get s id x valid named has =
    let loaded = get-Loaded s id x valid named has in
    rw (loaded.own, get) (ap some (ap (slot_at s) loaded.slot ∙ loaded.at))

-- What an id gives after Put is what it gave before, or the session that was put in place of one that
-- was found under both ids.
abbrev pub PutGives : SessionStore → Session → ℕ → Session → Type 0
PutGives s y id z =
    (get s id ≡ some z)
    ⊎ ((z ≡ y) × (x : Session) × (get s id ≡ some x) × (get s y.session_id ≡ some x))

put_at :
    (s : SessionStore) (y : Session) (id : ℕ) (z : Session)
    → slot_valid s y.session_id ≡ true
    → get (put s y).0 id ≡ some z
    → PutGives s y id z
unfolding put
put_at s y id z good has =
    let i = session_slot id in
    let j = session_slot y.session_id in
    let held = get-Holds (put s y).0 id z has in
    let slots : (put s y).0.slots ≡ set s.slots j y = rw (good, put) refl in
    let there : i < length s.slots =
      omega (arith, held.there, ap length slots, length-set s.slots j y) in
    let generation : generation_at s i ≡ session_generation id =
      (rw (good, put) refl) ∙ held.generation in
    let at : get_or (set s.slots j y) i empty_session ≡ z =
      sym (ap (λ ss. get_or ss i empty_session) slots) ∙ held.at in
    elim (ℕ_discrete j i) [
      | no apart ↦ inl (
          Holds-get s id z (record {
            there = there;
            generation = generation;
            at = sym (get_or-set_ne s.slots j i y empty_session apart) ∙ at;
            alive = held.alive;
          }))
      | yes is ↦
          let (own_there, own_generation) = valid_id s y.session_id good in
          let lives = (valid_slot s y.session_id good).1 in
          let written : z ≡ y =
            sym at
            ∙ subst (λ k. get_or (set s.slots j y) k empty_session ≡ y) is
                (get_or-set_self s.slots j y empty_session own_there) in
          inr (
            written,
            slot_at s j,
            Holds-get s id (slot_at s j) (record {
              there = there;
              generation = generation;
              at = ap (slot_at s) (sym is);
              alive = lives;
            }),
            Holds-get s y.session_id (slot_at s j) (record {
              there = own_there;
              generation = own_generation;
              at = refl;
              alive = lives;
            }),
          )
    ]

pub put-PutGives :
    (s : SessionStore) (y : Session) (id : ℕ) (z : Session)
    → get (put s y).0 id ≡ some z
    → PutGives s y id z
unfolding put
put-PutGives s y id z has = elim (Bool-cases (slot_valid s y.session_id)) [
  | inl good ↦ put_at s y id z good has
  | inr bad ↦
      let same : (put s y).0 ≡ s = rw (bad, put) refl in inl (sym (ap (λ t. get t id) same) ∙ has)
]

-- What an id gives after Remove it gave before.
pub remove-gives :
    (s : SessionStore) (removed id : ℕ) (z : Session)
    → IsValid s
    → get (remove s removed) id ≡ some z
    → get s id ≡ some z
unfolding remove
remove-gives s removed id z valid has = elim (Bool-cases (slot_valid s removed)) [
  | inr bad ↦
      let same : remove s removed ≡ s = rw (bad, remove) refl in sym (ap (λ t. get t id) same) ∙ has
  | inl good ↦
      let i = session_slot id in
      let j = session_slot removed in
      let next : ℕ = (generation_at s j + 1) % 2 ^ 32 in
      let held = get-Holds (remove s removed) id z has in
      let slots : (remove s removed).slots ≡ set s.slots j shut = rw (good, remove) refl in
      let generations : (remove s removed).generations ≡ set s.generations j next =
        rw (good, remove) refl in
      let at : get_or (set s.slots j shut) i empty_session ≡ z =
        sym (ap (λ ss. get_or ss i empty_session) slots) ∙ held.at in
      elim (ℕ_discrete j i) [
        | yes is ↦
            let closes : z ≡ shut =
              sym at
              ∙ subst (λ k. get_or (set s.slots j shut) k empty_session ≡ shut) is
                  (get_or-set_self s.slots j shut empty_session (valid_id s removed good).0) in
            absurd (ground (arith, ap (λ (y : Session). is_terminal y.state) closes, held.alive))
        | no apart ↦ Holds-get s id z (record {
          there = omega (arith, held.there, ap length slots, length-set s.slots j shut);
          generation =
              sym (get_or-set_ne s.generations j i next 0 apart)
              ∙ sym (ap (λ gs. get_or gs i 0) generations)
              ∙ held.generation;
          at = sym (get_or-set_ne s.slots j i shut empty_session apart) ∙ at;
          alive = held.alive;
        })
      ]
]

fill_slot-keeps :
    (s : SessionStore) (initial : Session) (free : List ℕ) (id : ℕ) (x : Session)
    → s.free_slots ≡ free
    → IsValid s
    → Holds s id x
    → Holds (fill_slot initial (take_slot free s)).0 id x
fill_slot-keeps s initial [] id x none_free valid held =
    let i = session_slot id in
    let more = s.slots ++ (empty_session ∷ []) in
    let y = record initial {
      session_id =
          make_session_id (length s.slots) (get_or (s.generations ++ (1 ∷ [])) (length s.slots) 0);
    } in
    record {
      there = omega (
        arith,
        held.there,
        length-append s.slots (empty_session ∷ []),
        length-set more (length s.slots) y,
      );
      generation =
          get_or-append_front s.generations (1 ∷ []) i 0 (omega (arith, held.there, valid.paired))
          ∙ held.generation;
      at =
          get_or-set_ne more (length s.slots) i y empty_session (ground (arith, held.there))
          ∙ get_or-append_front s.slots (empty_session ∷ []) i empty_session held.there
          ∙ held.at;
      alive = held.alive;
    }
fill_slot-keeps s initial (slot ∷ rest) id x some_free valid held =
    let i = session_slot id in
    let y = record initial { session_id = make_session_id slot (generation_at s slot) } in
    let freed : Freed s.slots (slot ∷ rest) = subst (Freed s.slots) some_free valid.freed in
    let apart : slot ≢ i = λ is. absurd (
      ground (
        arith,
        freed.1,
        held.alive,
        ap (λ (z : Session). is_terminal z.state) (ap (slot_at s) is ∙ held.at),
      )) in
    record {
      there = omega (arith, held.there, length-set s.slots slot y);
      generation = held.generation;
      at = get_or-set_ne s.slots slot i y empty_session apart ∙ held.at;
      alive = held.alive;
    }

-- Allocate touches no session that an id gives.
pub allocate-keeps :
    (s : SessionStore) (initial : Session) (id : ℕ) (x : Session)
    → IsValid s
    → get s id ≡ some x
    → get (allocate s initial).0 id ≡ some x
unfolding allocate
allocate-keeps s initial id x valid has = elim (Bool-cases (leb s.max_sessions s.size)) [
  | inl full ↦ rw (full, allocate) has
  | inr room ↦
      let filled : (allocate s initial).0 ≡ (fill_slot initial (take_slot s.free_slots s)).0 =
        rw (room, allocate) refl in
      ap (λ t. get t id) filled
      ∙ Holds-get (fill_slot initial (take_slot s.free_slots s)).0 id x
          (fill_slot-keeps s initial s.free_slots id x refl valid (get-Holds s id x has))
]
