-- ===== src/Gateway/Manager/Counts.antt =====
-- SessionManager: the counts of active and suspended sessions.
use cami.Common.{
  ℕ, ◌+◌, ◌%◌, ◌^◌, ◌<◌, ◌≡◌, refl, sym, ap, subst, inl, inr, Bool, some, arith, if◌then◌else◌,
  sum_by, Bool-cases, Option-cases,
}
use cami.Gateway.Session.{
  Session, SessionState, empty_session, connecting, authenticating, active, suspended, closing,
  closed,
}
use cami.Gateway.Store.{SessionStore, put, get, remove}
use cami.Gateway.Store.Invariant.{IsValid, IsLive}
use cami.Gateway.Store.Names.{Written, put-Written, remove-Written}
use cami.Gateway.Store.Naming.{IsNamed, Loaded, get-Loaded}
use cami.Gateway.Manager.{
  Manager, drop_session, publish_closed, CloseReason, uncount, close_and_remove,
}
use cami.Gateway.Manager.Calls.{is_active, is_suspended, saved, on_heartbeat}

abbrev pub active_one : Session → ℕ
active_one s = if is_active s.state then 1 else 0

abbrev pub suspended_one : Session → ℕ
suspended_one s = if is_suspended s.state then 1 else 0

abbrev pub actives : SessionStore → ℕ
actives s = sum_by active_one s.slots

abbrev pub suspendeds : SessionStore → ℕ
suspendeds s = sum_by suspended_one s.slots

-- The store is in order, and the counts are those of its slots, as 64-bit numbers.
pub record IsCounted (m : Manager) : Type 0 where
  pub valid : IsValid m.store
  pub named : IsNamed m.store
  pub active : m.active_count ≡ actives m.store % 2 ^ 64
  pub suspended : m.suspended_count ≡ suspendeds m.store % 2 ^ 64

-- A session y was written in the place of x, and the counts follow.
pub Written-IsCounted :
    (m u : Manager) (x y : Session)
    → IsCounted m
    → Written m.store u.store x y
    → (u.active_count + active_one x) % 2 ^ 64 ≡ (m.active_count + active_one y) % 2 ^ 64
    → (u.suspended_count + suspended_one x) % 2 ^ 64
      ≡ (m.suspended_count + suspended_one y) % 2 ^ 64
    → u.active_count < 2 ^ 64
    → u.suspended_count < 2 ^ 64
    → IsCounted u
Written-IsCounted m u x y counted written a b small_a small_b = record {
  valid = written.valid;
  named = written.named;
  active = omega (arith, a, counted.active, written.sums active_one, small_a);
  suspended = omega (arith, b, counted.suspended, written.sums suspended_one, small_b);
}

abbrev pub one_if : Bool → ℕ
one_if b = if b then 1 else 0

-- A session in a known state.
pub weights :
    (x : Session) (st : SessionState)
    → x.state ≡ st
    → (active_one x ≡ one_if (is_active st)) × (suspended_one x ≡ one_if (is_suspended st))
weights x st is = (ap (λ t. one_if (is_active t)) is, ap (λ t. one_if (is_suspended t)) is)

abbrev pub Small : Manager → Type 0
Small m = (m.active_count < 2 ^ 64) × (m.suspended_count < 2 ^ 64)

pub counted-Small : (m : Manager) → IsCounted m → Small m
counted-Small m counted = (omega (arith, counted.active), omega (arith, counted.suspended))

-- The counts without one session of the state.
uncount_lem :
    (st : SessionState) (m : Manager)
    → Small m
    → ((uncount st m).store ≡ m.store)
      × (((uncount st m).active_count + one_if (is_active st)) % 2 ^ 64 ≡ m.active_count)
      × (((uncount st m).suspended_count + one_if (is_suspended st)) % 2 ^ 64 ≡ m.suspended_count)
      × Small (uncount st m)
uncount_lem active m (a, b) = (refl, omega (arith, a), omega (arith, b), (omega arith, b))
uncount_lem suspended m (a, b) = (refl, omega (arith, a), omega (arith, b), (a, omega arith))
uncount_lem connecting m (a, b) = (refl, omega (arith, a), omega (arith, b), (a, b))
uncount_lem authenticating m (a, b) = (refl, omega (arith, a), omega (arith, b), (a, b))
uncount_lem closing m (a, b) = (refl, omega (arith, a), omega (arith, b), (a, b))
uncount_lem closed m (a, b) = (refl, omega (arith, a), omega (arith, b), (a, b))

pub loaded :
    (m : Manager) (id : ℕ) (x : Session)
    → IsCounted m
    → get m.store id ≡ some x
    → Loaded m.store id x
loaded m id x counted has = get-Loaded m.store id x counted.valid counted.named has

-- CloseAndRemove
pub close_and_remove-IsCounted :
    (m : Manager) (id : ℕ) (reason : CloseReason)
    → IsCounted m
    → IsCounted (close_and_remove m id reason)
unfolding close_and_remove
close_and_remove-IsCounted m id reason counted = elim (Option-cases (get m.store id)) [
  | inl gone ↦ rw (gone, close_and_remove) counted
  | inr (x, has) ↦
      let less = uncount_lem x.state m (counted-Small m counted) in
      let shut : Session = record empty_session { state = closed } in
      rw (has, close_and_remove)
        (Written-IsCounted m (drop_session id (publish_closed x reason (uncount x.state m))) x shut
          counted
          (subst (λ t. Written m.store (remove t id) x shut) (sym less.0)
            (remove-Written m.store id x counted.valid counted.named (loaded m id x counted has)))
          (omega (arith, less.1)) (omega (arith, less.2)) less.3.0 less.3.1)
]

-- A session is saved in another state, and the counts are set.
pub saved-IsCounted :
    (m u : Manager) (id : ℕ) (x y : Session)
    → IsCounted m
    → get m.store id ≡ some x
    → IsLive y
    → y.session_id ≡ x.session_id
    → u.store ≡ (put m.store y).0
    → (u.active_count + active_one x) % 2 ^ 64 ≡ (m.active_count + active_one y) % 2 ^ 64
    → (u.suspended_count + suspended_one x) % 2 ^ 64
      ≡ (m.suspended_count + suspended_one y) % 2 ^ 64
    → Small u
    → IsCounted u
saved-IsCounted m u id x y counted has alive same stored a b small =
    Written-IsCounted m u x y counted
      (subst (λ t. Written m.store t x y) (sym stored)
        (put-Written m.store id x y counted.valid counted.named (loaded m id x counted has) alive
          same).0)
      a b small.0 small.1

pub on_heartbeat-IsCounted :
    (m : Manager) (now id : ℕ) → IsCounted m → IsCounted (on_heartbeat m now id).0
unfolding on_heartbeat
on_heartbeat-IsCounted m now id counted = elim (Option-cases (get m.store id)) [
  | inl gone ↦ rw (gone, on_heartbeat) counted
  | inr (x, has) ↦ elim (Bool-cases (is_active x.state)) [
    | inr other ↦ rw (has, on_heartbeat) (rw other counted)
    | inl is ↦
        let y : Session = record x { last_heartbeat = now } in
        rw (has, on_heartbeat)
          (rw is (
            saved-IsCounted m (saved m (put m.store y)).0 id x y counted has
              (loaded m id x counted has).alive refl refl refl refl (counted-Small m counted)))
  ]
]
