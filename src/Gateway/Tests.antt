-- ===== src/Gateway/Tests.antt =====
-- server/gateway: concrete stores of sessions.
use cami.Common.{ℕ, ◌≡◌, refl, ◌^◌, List, [], ◌∷◌, Bool, true, none, arith, not, ◌==◌, ◌||◌}
use cami.Gateway.Session.{Session, empty_session, active}
use cami.Gateway.Store.{
  SessionStore, empty_store, allocate, remove, get, slot_valid, allocates, removes, step, run,
}
use cami.Gateway.Failover.{Rebind, init, enqueue, contains, reattach_players}
use cami.Gateway.Failover.Waves.{Served, reattach_players-Drains}
use cami.Gateway.Failover.Queue.{Distinct, enqueue-Distinct}
use cami.Gateway.Store.Stale.{remove-Stale}
use cami.Gateway.Store.Invariant.{IsValid, step-IsValid}

abbrev player_five : Session
player_five = record empty_session { player_id = 5; state = active }

abbrev one_session : SessionStore
one_session = step (empty_store 3) (allocates player_five)

empty-IsValid : IsValid (empty_store 3)
empty-IsValid = record {
  paired = refl;
  counted = refl;
  freed = tt;
  complete = refl;
  bounded = omega arith;
}

step-IsValid_example : IsValid one_session
step-IsValid_example = step-IsValid (empty_store 3) (allocates player_five) refl empty-IsValid

-- Slot 0 of generation 1.
first_valid : slot_valid one_session (2 ^ 32) ≡ true
unfolding step allocate slot_valid
first_valid = refl

remove-Stale_example :
    get (run (remove one_session (2 ^ 32)) (allocates player_five ∷ removes 7 ∷ [])) (2 ^ 32) ≡ none
remove-Stale_example =
    remove-Stale one_session (2 ^ 32) (allocates player_five ∷ removes 7 ∷ [])
      step-IsValid_example.paired first_valid (omega arith)

-- A rebinder that refuses session 9.
abbrev refuses_nine : List Rebind → ℕ → ℕ → Bool
refuses_nine calls s node = not (s == 9)

reattach_players-Drains_example :
    Served 2 4
      (init 2)
      (enqueue (7 ∷ 8 ∷ 7 ∷ 9 ∷ []) [])
      (reattach_players refuses_nine (init 2) (7 ∷ 8 ∷ 7 ∷ 9 ∷ []) 4)
    × ((reattach_players refuses_nine (init 2) (7 ∷ 8 ∷ 7 ∷ 9 ∷ []) 4).queue ≡ [])
    × ((reattach_players refuses_nine (init 2) (7 ∷ 8 ∷ 7 ∷ 9 ∷ []) 4).in_flight ≡ 0)
reattach_players-Drains_example =
    reattach_players-Drains refuses_nine (init 2) (7 ∷ 8 ∷ 7 ∷ 9 ∷ []) 4 (omega arith)

enqueue-Distinct_example :
    Distinct (enqueue (7 ∷ 8 ∷ 7 ∷ []) (8 ∷ []))
    × ((x : ℕ)
        → contains x (enqueue (7 ∷ 8 ∷ 7 ∷ []) (8 ∷ []))
          ≡ (contains x (7 ∷ 8 ∷ 7 ∷ []) || contains x (8 ∷ [])))
enqueue-Distinct_example = enqueue-Distinct (7 ∷ 8 ∷ 7 ∷ []) (8 ∷ []) (refl, tt)
