-- ===== src/Gateway/Store/Names.antt =====
-- A live session carries the id of its slot: what a write of one slot does.
use cami.Common.{
  ℕ, zero, suc, ◌+◌, ◌%◌, ◌^◌, ◌<◌, ◌≡◌, refl, sym, ap, subst, ◌∙◌, List, [], ◌∷◌, true, false,
  some, arith, leb, ◌==◌, length, get_or, set, sum_by, length-set, get_or-set_self, get_or-set_ne,
  sum_by-set,
}
use native.Mathlib.Decide.{ℕ_discrete}
use cami.Common.Errors.{ok}
use cami.Common.Dict.{Dict}
use cami.Gateway.Session.{
  Session, empty_session, closed, is_terminal, make_session_id, session_slot, session_generation,
}
use cami.Gateway.Store.{
  SessionStore, generation_at, slot_valid, get, put, remove, puts, removes, step,
}
use cami.Gateway.Store.Stale.{valid_id}
use cami.Gateway.Store.Invariant.{IsValid, IsLive, step-IsValid}
use cami.Gateway.Store.Naming.{IsNamed, Loaded}

-- One slot was written, in the place of the session x.
pub record Written (s s' : SessionStore) (x y : Session) : Type 0 where
  pub valid : IsValid s'
  pub named : IsNamed s'
  pub sums : (f : Session → ℕ) → sum_by f s'.slots + f x ≡ sum_by f s.slots + f y

abbrev Sums : SessionStore → SessionStore → Session → Session → Type 0
Sums s s' x y = (f : Session → ℕ) → sum_by f s'.slots + f x ≡ sum_by f s.slots + f y

written_sums :
    (s : SessionStore) (id : ℕ) (x y : Session)
    → Loaded s id x
    → (f : Session → ℕ) → sum_by f (set s.slots (session_slot id) y) + f x ≡ sum_by f s.slots + f y
written_sums s id x y loaded f =
    omega
      (arith, sum_by-set f s.slots (session_slot id) y empty_session loaded.there, ap f loaded.at)

abbrev over : SessionStore → ℕ → Session → Dict ℕ → SessionStore
over s i y index = record s { slots = set s.slots i y; index_player = index }

abbrev named_at : Session → ℕ
named_at x = x.session_id

over-IsNamed :
    (s : SessionStore) (id : ℕ) (x y : Session) (index : Dict ℕ)
    → IsNamed s
    → Loaded s id x
    → y.session_id ≡ x.session_id
    → IsNamed (over s (session_slot id) y index)
over-IsNamed s id x y index named loaded same =
    let i = session_slot id in
    record {
      small = named.small;
      generations = named.generations;
      named = λ j h alive. elim (ℕ_discrete i j) [
        | yes is ↦
            subst
              (λ k.
                (named_at (get_or (set s.slots i y) k empty_session))
                ≡ make_session_id k (generation_at s k))
              is
              (ap (λ (z : Session). z.session_id)
                  (get_or-set_self s.slots i y empty_session loaded.there)
                ∙ same
                ∙ loaded.name)
        | no apart ↦
            let kept = get_or-set_ne s.slots i j y empty_session apart in
            ap (λ (z : Session). z.session_id) kept
            ∙ named.named j (omega (arith, h, length-set s.slots i y))
                (sym (ap (λ (z : Session). is_terminal z.state) kept) ∙ alive)
      ];
    }

over-valid :
    (s : SessionStore) (id : ℕ) (x y : Session) (index : Dict ℕ)
    → Loaded s id x
    → IsLive y
    → slot_valid (over s (session_slot id) y index) id ≡ true
unfolding slot_valid
over-valid s id x y index loaded alive =
    let i : ℕ = session_slot id in
    let read = get_or-set_self s.slots i y empty_session loaded.there in
    let inside : leb (length (set s.slots i y)) i ≡ false =
      ground (arith, length-set s.slots i y, loaded.there) in
    let same : (generation_at s i == session_generation id) ≡ true =
      ground (arith, (valid_id s id loaded.valid).1) in
    let lives : is_terminal (get_or (set s.slots i y) i empty_session).state ≡ false =
      ap (λ (z : Session). is_terminal z.state) read ∙ alive in
    rw (inside, same, slot_valid) (rw lives refl)

over-get :
    (s : SessionStore) (id : ℕ) (x y : Session) (index : Dict ℕ)
    → Loaded s id x
    → IsLive y
    → get (over s (session_slot id) y index) id ≡ some y
unfolding get
over-get s id x y index loaded alive =
    rw (over-valid s id x y index loaded alive, get)
      (ap some (get_or-set_self s.slots (session_slot id) y empty_session loaded.there))

put-IsValid : (s : SessionStore) (y : Session) → IsLive y → IsValid s → IsValid (put s y).0
unfolding step
put-IsValid s y alive valid = step-IsValid s (puts y) alive valid

put_lem :
    (s : SessionStore) (y : Session) (i : ℕ)
    → slot_valid s y.session_id ≡ true
    → session_slot y.session_id ≡ i
    → (index : Dict ℕ) × (put s y ≡ (over s i y index, ok tt))
unfolding put
put_lem s y i good at =
    subst (λ k. (index : Dict ℕ) × (put s y ≡ (over s k y index, ok tt))) at
      (rw (good, put) (_, refl))

-- Put of a live session under the name that was loaded.
pub put-Written :
    (s : SessionStore) (id : ℕ) (x y : Session)
    → IsValid s
    → IsNamed s
    → Loaded s id x
    → IsLive y
    → y.session_id ≡ x.session_id
    → Written s (put s y).0 x y × (get (put s y).0 id ≡ some y) × ((put s y).1 ≡ ok tt)
put-Written s id x y valid named loaded alive same =
    let (index, writes) =
      put_lem s y (session_slot id) (ap (slot_valid s) same ∙ loaded.own)
        (ap session_slot same ∙ loaded.slot) in
    let w = over s (session_slot id) y index in
    let stored : (put s y).0 ≡ w = ap (λ p. p.0) writes in
    (
      record {
        valid = put-IsValid s y alive valid;
        named = subst IsNamed (sym stored) (over-IsNamed s id x y index named loaded same);
        sums = λ f.
            subst (λ (t : SessionStore). sum_by f t.slots + f x ≡ sum_by f s.slots + f y)
              (sym stored) (written_sums s id x y loaded f);
      },
      ap (λ t. get t id) stored ∙ over-get s id x y index loaded alive,
      ap (λ p. p.1) writes,
    )

abbrev pub shut : Session
shut = record empty_session { state = closed }

set_below :
    (xs : List ℕ) (i j v b : ℕ)
    → v < b
    → ((k : ℕ) → get_or xs k 0 < b)
    → get_or (set xs i v) j 0 < b
set_below [] i j v b h all = all j
set_below (x ∷ xs) zero zero v b h all = h
set_below (x ∷ xs) zero (suc j) v b h all = all (suc j)
set_below (x ∷ xs) (suc i) zero v b h all = all zero
set_below (x ∷ xs) (suc i) (suc j) v b h all = set_below xs i j v b h (λ k. all (suc k))

remove-IsNamed :
    (s : SessionStore) (id : ℕ) (x : Session) → IsNamed s → Loaded s id x → IsNamed (remove s id)
unfolding remove
remove-IsNamed s id x named loaded =
    let i : ℕ = session_slot id in
    let next : ℕ = (generation_at s i + 1) % 2 ^ 32 in
    rw (loaded.valid, remove)
      (record {
        small = named.small;
        generations =
            λ j. set_below s.generations i j next (2 ^ 32) (omega arith) named.generations;
        named = λ j h alive. elim (ℕ_discrete i j) [
          | yes is ↦
              let closes : is_terminal (get_or (set s.slots i shut) j empty_session).state ≡ true =
                subst (λ k. is_terminal (get_or (set s.slots i shut) k empty_session).state ≡ true)
                  is
                  (ap (λ (z : Session). is_terminal z.state)
                    (get_or-set_self s.slots i shut empty_session loaded.there)) in
              absurd (ground (arith, closes, alive))
          | no apart ↦
              let kept = get_or-set_ne s.slots i j shut empty_session apart in
              ap (λ (z : Session). z.session_id) kept
              ∙ named.named j (omega (arith, h, length-set s.slots i shut))
                  (sym (ap (λ (z : Session). is_terminal z.state) kept) ∙ alive)
              ∙ ap (make_session_id j) (sym (get_or-set_ne s.generations i j next 0 apart))
        ];
      })

pub remove-slots :
    (s : SessionStore) (id : ℕ)
    → slot_valid s id ≡ true
    → (remove s id).slots ≡ set s.slots (session_slot id) shut
unfolding remove
remove-slots s id valid = rw (valid, remove) refl

remove-IsValid : (s : SessionStore) (id : ℕ) → IsValid s → IsValid (remove s id)
unfolding step
remove-IsValid s id valid = step-IsValid s (removes id) tt valid

-- Remove of a session that was loaded.
pub remove-Written :
    (s : SessionStore) (id : ℕ) (x : Session)
    → IsValid s
    → IsNamed s
    → Loaded s id x
    → Written s (remove s id) x (record empty_session { state = closed })
remove-Written s id x valid named loaded = record {
  valid = remove-IsValid s id valid;
  named = remove-IsNamed s id x named loaded;
  sums = λ f.
      subst (λ ss. sum_by f ss + f x ≡ sum_by f s.slots + f shut)
        (sym (remove-slots s id loaded.valid)) (written_sums s id x shut loaded f);
}
