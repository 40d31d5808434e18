-- ===== src/Gateway/Store/Entry.antt =====
-- Allocate: the session that enters the store, under the name of its slot.
use cami.Common.{
  get_or-append_front, get_or-append_at, ℕ, zero, suc, ◌+◌, ◌^◌, ◌<◌, ◌≤◌, ◌≡◌, refl, sym, ap,
  subst, ◌∙◌, ◌≢◌, ◌⊎◌, inl, inr, List, [], ◌∷◌, ◌++◌, true, some, arith, leb, length, get_or,
  sum_by, Bool-cases, length-set, get_or-set_self, get_or-set_ne, length-append, sum_by-set,
  sum_by-append,
}
use native.Mathlib.Decide.{ℕ_discrete}
use cami.Common.Errors.{ok, err, busy}
use cami.Gateway.Session.{Session, empty_session, is_terminal, make_session_id}
use cami.Gateway.Store.{
  SessionStore, slot_at, generation_at, slot_valid, get, take_slot, fill_slot, allocate, allocates,
  step,
}
use cami.Gateway.Store.Invariant.{IsValid, IsLive, Freed, step-IsValid}
use cami.Gateway.Store.Naming.{IsNamed, own_slot, name-valid}

-- The store with a slot to be filled: it is a slot, nobody else's name is touched, and what stands in
-- it does not count.
record Open (s : SessionStore) (slot : ℕ) (t : SessionStore) : Type 0 where
  there : slot < length t.slots
  fits : slot < 2 ^ 32
  small : t.max_sessions ≤ 2 ^ 32
  generations : (i : ℕ) → generation_at t i < 2 ^ 32
  named :
      (i : ℕ)
      → slot ≢ i
      → i < length t.slots
      → IsLive (slot_at t i)
      → (slot_at t i).session_id ≡ make_session_id i (generation_at t i)
  sums :
      (f : Session → ℕ)
      → f empty_session ≡ 0
      → ((z : Session) → is_terminal z.state ≡ true → f z ≡ 0)
      → sum_by f t.slots ≡ sum_by f s.slots + f (slot_at t slot)
  empty :
      (f : Session → ℕ)
      → f empty_session ≡ 0
      → ((z : Session) → is_terminal z.state ≡ true → f z ≡ 0)
      → f (slot_at t slot) ≡ 0

append_below :
    (xs : List ℕ) (i : ℕ) → ((k : ℕ) → get_or xs k 0 < 2 ^ 32) → get_or (xs ++ 1 ∷ []) i 0 < 2 ^ 32
append_below [] zero all = omega arith
append_below [] (suc i) all = omega arith
append_below (x ∷ xs) zero all = all zero
append_below (x ∷ xs) (suc i) all = append_below xs i (λ k. all (suc k))

take_slot-Open :
    (s : SessionStore) (free : List ℕ)
    → s.free_slots ≡ free
    → s.size < s.max_sessions
    → IsValid s
    → IsNamed s
    → Open s (take_slot free s).0 (take_slot free s).1
take_slot-Open s [] none_free room valid named =
    let n = length s.slots in
    let grown = length-append s.slots (empty_session ∷ []) in
    let last = get_or-append_at s.slots [] empty_session empty_session in
    record {
      there = omega (arith, grown);
      fits = omega (arith, valid.complete, ap length none_free, room, named.small);
      small = named.small;
      generations = λ i. append_below s.generations i named.generations;
      named = λ i apart h alive.
          let inside : i < n = ground (arith, h, apart, grown) in
          let kept = get_or-append_front s.slots (empty_session ∷ []) i empty_session inside in
          ap (λ (z : Session). z.session_id) kept
          ∙ named.named i inside (sym (ap (λ (z : Session). is_terminal z.state) kept) ∙ alive)
          ∙ ap (make_session_id i) (
              sym (
                get_or-append_front s.generations (1 ∷ []) i 0
                  (omega (arith, inside, valid.paired))));
      sums = λ f nothing shut.
          omega (arith, sum_by-append f s.slots (empty_session ∷ []), ap f last, nothing);
      empty = λ f nothing shut. ap f last ∙ nothing;
    }
take_slot-Open s (slot ∷ rest) some_free room valid named =
    let freed : Freed s.slots (slot ∷ rest) = subst (Freed s.slots) some_free valid.freed in
    record {
      there = freed.0;
      fits = omega (arith, freed.0, valid.bounded, named.small);
      small = named.small;
      generations = named.generations;
      named = λ i apart h alive. named.named i h alive;
      sums = λ f nothing shut. omega (arith, shut (slot_at s slot) freed.1);
      empty = λ f nothing shut. shut (slot_at s slot) freed.1;
    }

-- The session y was entered under the id.
pub record Entered (s s' : SessionStore) (id : ℕ) (y : Session) : Type 0 where
  pub valid : IsValid s'
  pub named : IsNamed s'
  pub found : get s' id ≡ some y
  pub sums :
      (f : Session → ℕ)
      → f empty_session ≡ 0
      → ((z : Session) → is_terminal z.state ≡ true → f z ≡ 0)
      → sum_by f s'.slots ≡ sum_by f s.slots + f y

abbrev name_at : SessionStore → ℕ → ℕ
name_at s i = let x : Session = slot_at s i in x.session_id

abbrev pub named_as : Session → ℕ → Session
named_as x id = record x { session_id = id }

fill_slot-Entered :
    (s t : SessionStore) (slot : ℕ) (initial : Session)
    → IsLive initial
    → Open s slot t
    → IsValid (fill_slot initial (slot, t)).0
    → Entered s
        (fill_slot initial (slot, t)).0
        (make_session_id slot (generation_at t slot))
        (named_as initial (make_session_id slot (generation_at t slot)))
unfolding get
fill_slot-Entered s t slot initial alive o valid =
    let id = make_session_id slot (generation_at t slot) in
    let y = named_as initial id in
    let u = (fill_slot initial (slot, t)).0 in
    let read : slot_at u slot ≡ y = get_or-set_self t.slots slot y empty_session o.there in
    let names : IsNamed u = record {
      small = o.small;
      generations = o.generations;
      named = λ j h lives. elim (ℕ_discrete slot j) [
        | yes is ↦
            subst (λ k. name_at u k ≡ make_session_id k (generation_at t k)) is
              (ap (λ (z : Session). z.session_id) read)
        | no apart ↦
            let kept = get_or-set_ne t.slots slot j y empty_session apart in
            ap (λ (z : Session). z.session_id) kept
            ∙ o.named j apart (omega (arith, h, length-set t.slots slot y))
                (sym (ap (λ (z : Session). is_terminal z.state) kept) ∙ lives)
      ];
    } in
    let good : slot_valid u id ≡ true =
      name-valid u slot (omega (arith, o.there, length-set t.slots slot y)) o.fits
        (o.generations slot) (ap (λ (z : Session). is_terminal z.state) read ∙ alive) in
    record {
      valid = valid;
      named = names;
      found =
          rw (good, get)
            (ap (λ k. some (slot_at u k)) (own_slot slot (generation_at t slot) o.fits)
              ∙ ap some read);
      sums = λ f nothing shut. omega (
        arith,
        sum_by-set f t.slots slot y empty_session o.there,
        o.sums f nothing shut,
        o.empty f nothing shut,
      );
    }

allocate-IsValid :
    (s : SessionStore) (initial : Session)
    → IsLive initial
    → IsValid s
    → IsValid (allocate s initial).0
unfolding step
allocate-IsValid s initial alive valid = step-IsValid s (allocates initial) alive valid

-- Allocate refuses when the store is full, and else enters the session under a new id.
pub allocate-Entered :
    (s : SessionStore) (initial : Session)
    → IsLive initial
    → IsValid s
    → IsNamed s
    → (allocate s initial ≡ (s, err busy))
      ⊎ ((id : ℕ) × (t : SessionStore) × (allocate s initial ≡ (t, ok id))
          × Entered s t id (named_as initial id))
unfolding allocate
allocate-Entered s initial alive valid named = elim (Bool-cases (leb s.max_sessions s.size)) [
  | inl full ↦ inl (rw (full, allocate) refl)
  | inr room ↦
      let (slot, t) = take_slot s.free_slots s in
      let filled = fill_slot initial (slot, t) in
      let enters : allocate s initial ≡ filled = rw (room, allocate) refl in
      inr (
        make_session_id slot (generation_at t slot),
        filled.0,
        enters,
        fill_slot-Entered s t slot initial alive
            (take_slot-Open s s.free_slots refl (ground (arith, room)) valid named)
            (subst (λ p. IsValid p.0) enters (allocate-IsValid s initial alive valid)),
      )
]
