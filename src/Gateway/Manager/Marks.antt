-- ===== src/Gateway/Manager/Marks.antt =====
-- SessionManager::Tick: the loop over the slots lists every session that is to be closed.
use cami.Common.{
  ℕ, zero, suc, ◌-◌, ◌*◌, ◌≡◌, refl, sym, subst, ◌⊎◌, inl, inr, List, [], ◌∷◌, ◌++◌, Bool, true,
  false, ◌&&◌, ◌||◌, arith, ltb, if◌then◌else◌, Bool-cases, get_or,
}
use cami.Gateway.Session.{Session, empty_session, is_terminal}
use cami.Gateway.Store.Invariant.{IsLive}
use cami.Gateway.Manager.{Config}
use cami.Gateway.Manager.Calls.{is_active, is_suspended, nanoseconds, Scan, sweep, sweep_all}
use cami.Gateway.Manager.Sweep.{turn}

-- An active session without a heartbeat in time, or a suspended one past its grace.
abbrev pub overdue : Config → ℕ → Session → Bool
overdue config now s =
    (is_active s.state
      && ltb (nanoseconds (config.heartbeat_interval * config.max_missed)) (now - s.last_heartbeat))
    || (is_suspended s.state && ltb (nanoseconds config.suspend_grace) (now - s.last_heartbeat))

abbrev pub Listed : ℕ → List ℕ → Type 0
Listed id [] = true ≡ false
Listed id (j ∷ js) = (j ≡ id) ⊎ Listed id js

Listed-last : (id : ℕ) (js : List ℕ) → Listed id (js ++ id ∷ [])
Listed-last id [] = inl refl
Listed-last id (j ∷ js) = inr (Listed-last id js)

Listed-before : (id k : ℕ) (js : List ℕ) → Listed id js → Listed id (js ++ k ∷ [])
Listed-before id k [] listed = cc
Listed-before id k (j ∷ js) (inl is) = inl is
Listed-before id k (j ∷ js) (inr rest) = inr (Listed-before id k js rest)

-- A turn of the loop: a session that is still overdue is to be closed, and those that were to be
-- closed still are.
abbrev Marks : Config → ℕ → Scan → Session × Scan → Type 0
Marks config now a r =
    (overdue config now r.0 ≡ true → Listed r.0.session_id r.1.scratch)
    × ((id : ℕ) → Listed id a.scratch → Listed id r.1.scratch)

sweep-Marks :
    (config : Config) (now : ℕ) (s : Session) (a : Scan) → Marks config now a (sweep config now s a)
sweep-Marks config now s a =
    let late =
      ltb (nanoseconds (config.heartbeat_interval * config.max_missed)) (now - s.last_heartbeat) in
    let gone = ltb (nanoseconds config.suspend_grace) (now - s.last_heartbeat) in
    elim (Bool-cases (is_active s.state && late)) [
      | inl times_out ↦
          rw times_out ((λ over. absurd (ground (arith, over))), (λ id listed. listed))
      | inr on_time ↦ rw on_time (elim (Bool-cases (is_suspended s.state && gone)) [
        | inl expires ↦ rw expires (
          (λ over. Listed-last s.session_id a.scratch),
          (λ id listed. Listed-before id s.session_id a.scratch listed),
        )
        | inr stays ↦
            rw stays
              ((λ over. absurd (ground (arith, over, on_time, stays))), (λ id listed. listed))
      ])
    ]

abbrev pub name_of : Session → ℕ
name_of s = s.session_id

abbrev pub AllMark : Config → ℕ → Scan → List Session × Scan → Type 0
AllMark config now a r =
    ((i : ℕ)
      → IsLive (get_or r.0 i empty_session)
      → overdue config now (get_or r.0 i empty_session) ≡ true
      → Listed (name_of (get_or r.0 i empty_session)) r.1.scratch)
    × ((id : ℕ) → Listed id a.scratch → Listed id r.1.scratch)

-- The same, but for a closed slot.
abbrev TurnMarks : Config → ℕ → Scan → Session × Scan → Type 0
TurnMarks config now a r =
    (IsLive r.0 → overdue config now r.0 ≡ true → Listed r.0.session_id r.1.scratch)
    × ((id : ℕ) → Listed id a.scratch → Listed id r.1.scratch)

turn-Marks :
    (config : Config) (now : ℕ) (s : Session) (a : Scan)
    → TurnMarks config now a (turn config now s a)
turn-Marks config now s a =
    let P = λ (b : Bool).
      TurnMarks config now a (if◌then◌else◌ {A = Session × Scan} b (s, a) (sweep config now s a)) in
    elim (Bool-cases (is_terminal s.state)) [
      | inl ends ↦
          subst P (sym ends)
            ((λ alive over. absurd (ground (arith, ends, alive))), (λ id listed. listed))
      | inr lives ↦
          let marks = sweep-Marks config now s a in
          subst P (sym lives) ((λ alive over. marks.0 over), marks.1)
    ]

joined :
    (config : Config) (now : ℕ) (t : Session) (ts : List Session) (ids : List ℕ)
    → (IsLive t → overdue config now t ≡ true → Listed (name_of t) ids)
    → ((i : ℕ)
        → IsLive (get_or ts i empty_session)
        → overdue config now (get_or ts i empty_session) ≡ true
        → Listed (name_of (get_or ts i empty_session)) ids)
    → (i : ℕ) → IsLive (get_or (t ∷ ts) i empty_session)
    → overdue config now (get_or (t ∷ ts) i empty_session) ≡ true
    → Listed (name_of (get_or (t ∷ ts) i empty_session)) ids
joined config now t ts ids first later zero alive over = first alive over
joined config now t ts ids first later (suc i) alive over = later i alive over

pub sweep_all-AllMark :
    (config : Config) (now : ℕ) (ss : List Session) (a : Scan)
    → AllMark config now a (sweep_all config now ss a)
unfolding sweep_all
sweep_all-AllMark config now [] a = ((λ i alive over. cc), (λ id listed. listed))
sweep_all-AllMark config now (s ∷ ss) a =
    let one = turn config now s a in
    let first = turn-Marks config now s a in
    let later = sweep_all-AllMark config now ss one.1 in
    (
      joined config now one.0 (sweep_all config now ss one.1).0
          (sweep_all config now ss one.1).1.scratch
          (λ alive over. later.1 one.0.session_id (first.0 alive over)) later.0,
      (λ id listed. later.1 id (first.1 id listed)),
    )
