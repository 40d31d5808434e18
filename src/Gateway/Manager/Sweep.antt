-- ===== src/Gateway/Manager/Sweep.antt =====
-- SessionManager::Tick: the loop over the slots keeps the store in order and the counts true.
use cami.Common.{
  ℕ, zero, suc, ◌+◌, ◌-◌, ◌*◌, ◌%◌, ◌^◌, ◌≡◌, refl, sym, ap, subst, ◌∙◌, inl, inr, List, [], ◌∷◌,
  Bool, true, false, ◌&&◌, arith, ltb, if◌then◌else◌, sum_by, Bool-cases, length, get_or,
}
use cami.Gateway.Session.{
  Session, SessionState, empty_session, connecting, authenticating, active, suspended, closing,
  closed, is_terminal,
}
use cami.Gateway.Store.{SessionStore}
use cami.Gateway.Store.Invariant.{IsValid, Freed, live}
use cami.Gateway.Store.Naming.{IsNamed}
use cami.Gateway.Manager.{Config, Manager}
use cami.Gateway.Manager.Calls.{
  is_active, is_suspended, nanoseconds, Scan, sweep, sweep_all, swept, scan_of,
}
use cami.Gateway.Manager.Counts.{active_one, suspended_one, weights, IsCounted}

-- The same session, in a state that is closed or not as before.
abbrev pub Alike : Session → Session → Type 0
Alike s s' = (is_terminal s'.state ≡ is_terminal s.state) × (s'.session_id ≡ s.session_id)

-- The counts follow the sessions, beside k others.
abbrev Follows : Session → Session → Scan → Scan → Type 0
Follows s s' a a' =
    ((k : ℕ)
      → a.active_count ≡ (k + active_one s) % 2 ^ 64
      → a'.active_count ≡ (k + active_one s') % 2 ^ 64)
    × ((k : ℕ)
        → a.suspended_count ≡ (k + suspended_one s) % 2 ^ 64
        → a'.suspended_count ≡ (k + suspended_one s') % 2 ^ 64)

active_state : (st : SessionState) → is_active st ≡ true → st ≡ active
active_state active h = refl
active_state suspended h = cc
active_state connecting h = cc
active_state authenticating h = cc
active_state closing h = cc
active_state closed h = cc

both : (a b : Bool) → (a && b) ≡ true → a ≡ true
both true b h = refl
both false b h = cc

abbrev Sweeps : Session → Scan → Session × Scan → Type 0
Sweeps s a r = Alike s r.0 × Follows s r.0 a r.1

same-Sweeps : (s : Session) (a : Scan) → Sweeps s a (s, a)
same-Sweeps s a = ((refl, refl), ((λ k h. h), (λ k h. h)))

sweep-Sweeps :
    (config : Config) (now : ℕ) (s : Session) (a : Scan) → Sweeps s a (sweep config now s a)
sweep-Sweeps config now s a =
    let late =
      ltb (nanoseconds (config.heartbeat_interval * config.max_missed)) (now - s.last_heartbeat) in
    let gone = ltb (nanoseconds config.suspend_grace) (now - s.last_heartbeat) in
    elim (Bool-cases (is_active s.state && late)) [
      | inl times_out ↦
          let is : s.state ≡ active =
            active_state s.state (both (is_active s.state) late times_out) in
          let one = weights s active is in
          rw times_out (
            (sym (ap is_terminal is), refl),
            ((λ k h. omega (arith, h, one.0)), (λ k h. omega (arith, h, one.1))),
          )
      | inr on_time ↦ rw on_time (elim (Bool-cases (is_suspended s.state && gone)) [
        | inl expires ↦ rw expires ((refl, refl), ((λ k h. h), (λ k h. h)))
        | inr stays ↦ rw stays (same-Sweeps s a)
      ])
    ]

-- One turn of the loop, which passes over a closed slot.
abbrev pub turn : Config → ℕ → Session → Scan → Session × Scan
turn config now s a = if is_terminal s.state then (s, a) else sweep config now s a

turn-Sweeps :
    (config : Config) (now : ℕ) (s : Session) (a : Scan) → Sweeps s a (turn config now s a)
turn-Sweeps config now s a =
    let P = λ (b : Bool).
      Sweeps s a (if◌then◌else◌ {A = Session × Scan} b (s, a) (sweep config now s a)) in
    elim (Bool-cases (is_terminal s.state)) [
      | inl shut ↦ subst P (sym shut) (same-Sweeps s a)
      | inr lives ↦ subst P (sym lives) (sweep-Sweeps config now s a)
    ]

-- The loop, for a whole list.
abbrev pub AllAlike : List Session → List Session → Type 0
AllAlike [] [] = Unit
AllAlike [] (t ∷ ts) = true ≡ false
AllAlike (s ∷ ss) [] = true ≡ false
AllAlike (s ∷ ss) (t ∷ ts) = Alike s t × AllAlike ss ts

pub sweep_all-AllAlike :
    (config : Config) (now : ℕ) (ss : List Session) (a : Scan)
    → AllAlike ss (sweep_all config now ss a).0
unfolding sweep_all
sweep_all-AllAlike config now [] a = tt
sweep_all-AllAlike config now (s ∷ ss) a =
    ((turn-Sweeps config now s a).0, sweep_all-AllAlike config now ss (turn config now s a).1)

abbrev AllFollow : List Session → Scan → List Session × Scan → Type 0
AllFollow ss a r =
    ((k : ℕ)
      → a.active_count ≡ (k + sum_by active_one ss) % 2 ^ 64
      → r.1.active_count ≡ (k + sum_by active_one r.0) % 2 ^ 64)
    × ((k : ℕ)
        → a.suspended_count ≡ (k + sum_by suspended_one ss) % 2 ^ 64
        → r.1.suspended_count ≡ (k + sum_by suspended_one r.0) % 2 ^ 64)

regroup : (c k x y : ℕ) → c ≡ (k + (x + y)) % 2 ^ 64 → c ≡ ((k + y) + x) % 2 ^ 64
regroup c k x y h = omega (arith, h)

shift : (c k x y : ℕ) → c ≡ ((k + y) + x) % 2 ^ 64 → c ≡ ((k + x) + y) % 2 ^ 64
shift c k x y h = omega (arith, h)

join : (c k x y : ℕ) → c ≡ ((k + x) + y) % 2 ^ 64 → c ≡ (k + (x + y)) % 2 ^ 64
join c k x y h = omega (arith, h)

then-AllFollow :
    (s : Session) (ss : List Session) (a : Scan) (one : Session × Scan) (rest : List Session × Scan)
    → Follows s one.0 a one.1
    → AllFollow ss one.1 rest
    → AllFollow (s ∷ ss) a (one.0 ∷ rest.0, rest.1)
then-AllFollow s ss a one rest first later = (
  (λ k h. join rest.1.active_count k (active_one one.0) (sum_by active_one rest.0) (
      later.0 (k + active_one one.0) (
        shift one.1.active_count k (active_one one.0) (sum_by active_one ss) (
          first.0 (k + sum_by active_one ss)
            (regroup a.active_count k (active_one s) (sum_by active_one ss) h))))),
  (λ k h. join rest.1.suspended_count k (suspended_one one.0) (sum_by suspended_one rest.0) (
      later.1 (k + suspended_one one.0) (
        shift one.1.suspended_count k (suspended_one one.0) (sum_by suspended_one ss) (
          first.1 (k + sum_by suspended_one ss)
            (regroup a.suspended_count k (suspended_one s) (sum_by suspended_one ss) h))))),
)

sweep_all-AllFollow :
    (config : Config) (now : ℕ) (ss : List Session) (a : Scan)
    → AllFollow ss a (sweep_all config now ss a)
unfolding sweep_all
sweep_all-AllFollow config now [] a = ((λ k h. h), (λ k h. h))
sweep_all-AllFollow config now (s ∷ ss) a =
    let one = turn config now s a in
    then-AllFollow s ss a one (sweep_all config now ss one.1) (turn-Sweeps config now s a).1
      (sweep_all-AllFollow config now ss one.1)

pub AllAlike-length : (ss ts : List Session) → AllAlike ss ts → length ts ≡ length ss
AllAlike-length [] [] all = refl
AllAlike-length [] (t ∷ ts) all = cc
AllAlike-length (s ∷ ss) [] all = cc
AllAlike-length (s ∷ ss) (t ∷ ts) all = omega (arith, AllAlike-length ss ts all.1)

pub AllAlike-get :
    (ss ts : List Session) (i : ℕ)
    → AllAlike ss ts
    → Alike (get_or ss i empty_session) (get_or ts i empty_session)
AllAlike-get [] [] i all = (refl, refl)
AllAlike-get [] (t ∷ ts) i all = cc
AllAlike-get (s ∷ ss) [] i all = cc
AllAlike-get (s ∷ ss) (t ∷ ts) zero all = all.0
AllAlike-get (s ∷ ss) (t ∷ ts) (suc i) all = AllAlike-get ss ts i all.1

AllAlike-live : (ss ts : List Session) → AllAlike ss ts → sum_by live ts ≡ sum_by live ss
AllAlike-live [] [] all = refl
AllAlike-live [] (t ∷ ts) all = cc
AllAlike-live (s ∷ ss) [] all = cc
AllAlike-live (s ∷ ss) (t ∷ ts) all =
    let one : live t ≡ live s = ap (λ b. if b then 0 else 1) all.0.0 in
    omega (arith, one, AllAlike-live ss ts all.1)

AllAlike-Freed :
    (ss ts : List Session) (free : List ℕ) → AllAlike ss ts → Freed ss free → Freed ts free
AllAlike-Freed ss ts [] all freed = tt
AllAlike-Freed ss ts (i ∷ free) all (there, shut, once, rest) = (
  omega (arith, there, AllAlike-length ss ts all),
  (AllAlike-get ss ts i all).0 ∙ shut,
  once,
  AllAlike-Freed ss ts free all rest,
)

swept-IsValid :
    (s : SessionStore) (ts : List Session)
    → AllAlike s.slots ts
    → IsValid s
    → IsValid (record s { slots = ts })
swept-IsValid s ts all valid =
    let size = AllAlike-length s.slots ts all in
    record {
      paired = omega (arith, size, valid.paired);
      counted = AllAlike-live s.slots ts all ∙ valid.counted;
      freed = AllAlike-Freed s.slots ts s.free_slots all valid.freed;
      complete = omega (arith, size, valid.complete);
      bounded = omega (arith, size, valid.bounded);
    }

swept-IsNamed :
    (s : SessionStore) (ts : List Session)
    → AllAlike s.slots ts
    → IsNamed s
    → IsNamed (record s { slots = ts })
swept-IsNamed s ts all names = record {
  small = names.small;
  generations = names.generations;
  named = λ i h lives.
      let same = AllAlike-get s.slots ts i all in
      same.1
      ∙ names.named i (omega (arith, h, AllAlike-length s.slots ts all)) (sym same.0 ∙ lives);
}

-- The manager after the loop of Tick.
pub swept-IsCounted :
    (m : Manager) (now : ℕ)
    → IsCounted m
    → IsCounted (swept m (sweep_all m.config now m.store.slots (scan_of m)))
swept-IsCounted m now counted =
    let all = sweep_all-AllAlike m.config now m.store.slots (scan_of m) in
    let ts = (sweep_all m.config now m.store.slots (scan_of m)).0 in
    let follow = sweep_all-AllFollow m.config now m.store.slots (scan_of m) in
    record {
      valid = swept-IsValid m.store ts all counted.valid;
      named = swept-IsNamed m.store ts all counted.named;
      active = omega (arith, follow.0 0 (omega (arith, counted.active)));
      suspended = omega (arith, follow.1 0 (omega (arith, counted.suspended)));
    }
