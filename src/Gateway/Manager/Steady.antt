-- ===== src/Gateway/Manager/Steady.antt =====
-- SessionManager: each call keeps the counts of active and suspended sessions.
use cami.Common.{
  ℕ, ◌+◌, ◌-◌, ◌%◌, ◌^◌, ◌≡◌, refl, inl, inr, some, arith, ltb, ◌==◌, Bool-cases, Option-cases,
}
use cami.Common.Errors.{Result, ok, err}
use cami.Gateway.Session.{
  Session, SessionState, connecting, authenticating, active, suspended, closing, closed,
}
use cami.Gateway.Store.{put, get}
use cami.Gateway.Store.Invariant.{IsLive}
use cami.Gateway.Manager.{
  Manager, publish_closed, CloseReason, rejected, up, down, save, activate, activated, answered,
  authenticate_in, on_authenticate,
}
use cami.Gateway.Manager.Calls.{
  is_active, is_suspended, suspend, disconnect_in, on_disconnected, resume, resumed, reattach_in,
  reattach, nanoseconds,
}
use cami.Gateway.Manager.Counts.{
  IsCounted, one_if, weights, Small, counted-Small, close_and_remove-IsCounted, saved-IsCounted,
}

-- A session of the state st is saved in the state st', and one count is moved along.
moved-IsCounted :
    (m u : Manager) (id : ℕ) (x y : Session) (st st' : SessionState)
    → IsCounted m
    → get m.store id ≡ some x
    → x.state ≡ st
    → y.state ≡ st'
    → IsLive y
    → y.session_id ≡ x.session_id
    → u.store ≡ (put m.store y).0
    → (u.active_count + one_if (is_active st)) % 2 ^ 64
      ≡ (m.active_count + one_if (is_active st')) % 2 ^ 64
    → (u.suspended_count + one_if (is_suspended st)) % 2 ^ 64
      ≡ (m.suspended_count + one_if (is_suspended st')) % 2 ^ 64
    → Small u
    → IsCounted u
moved-IsCounted m u id x y st st' counted has is is' alive same stored a b small =
    let (ax, sx) = weights x st is in
    let (ay, sy) = weights y st' is' in
    saved-IsCounted m u id x y counted has alive same stored (omega (arith, a, ax, ay))
      (omega (arith, b, sx, sy)) small

disconnect_in-IsCounted :
    (st : SessionState) (m : Manager) (now id : ℕ) (x : Session) (reason : CloseReason)
    → IsCounted m
    → get m.store id ≡ some x
    → x.state ≡ st
    → IsCounted (disconnect_in st m now id x reason)
disconnect_in-IsCounted active m now id x reason counted has is =
    let small = counted-Small m counted in
    let y : Session = record x { state = suspended; last_heartbeat = now } in
    moved-IsCounted m (suspend m now x reason) id x y active suspended counted has is refl refl refl
      refl (omega (arith, small.0)) (omega (arith, small.1)) (omega arith, omega arith)
disconnect_in-IsCounted connecting m now id x reason counted has is =
    close_and_remove-IsCounted m id reason counted
disconnect_in-IsCounted authenticating m now id x reason counted has is =
    close_and_remove-IsCounted m id reason counted
disconnect_in-IsCounted suspended m now id x reason counted has is = counted
disconnect_in-IsCounted closing m now id x reason counted has is = counted
disconnect_in-IsCounted closed m now id x reason counted has is = counted

pub on_disconnected-IsCounted :
    (m : Manager) (now id : ℕ) (reason : CloseReason)
    → IsCounted m
    → IsCounted (on_disconnected m now id reason)
unfolding on_disconnected
on_disconnected-IsCounted m now id reason counted = elim (Option-cases (get m.store id)) [
  | inl gone ↦ rw (gone, on_disconnected) counted
  | inr (x, has) ↦
      rw (has, on_disconnected) (disconnect_in-IsCounted x.state m now id x reason counted has refl)
]

reattach_in-IsCounted :
    (st : SessionState) (m : Manager) (now later id conn : ℕ) (x : Session)
    → IsCounted m
    → get m.store id ≡ some x
    → x.state ≡ st
    → IsCounted (reattach_in st m now later conn x).0
reattach_in-IsCounted suspended m now later id conn x counted has is =
    elim (Bool-cases (ltb (nanoseconds m.config.suspend_grace) (now - x.last_heartbeat))) [
      | inl late ↦ rw late counted
      | inr early ↦
          let small = counted-Small m counted in
          let t : Manager = record m {
            suspended_count = down m.suspended_count;
            active_count = up m.active_count;
          } in
          rw early (
            moved-IsCounted m (resume t later conn x).0 id x (resumed x later conn) suspended active
              counted has is refl refl refl refl (omega (arith, small.0)) (omega (arith, small.1))
              (omega arith, omega arith))
    ]
reattach_in-IsCounted active m now later id conn x counted has is =
    moved-IsCounted m (resume (publish_closed x rejected m) later conn x).0 id x
      (resumed x later conn) active active counted has is refl refl refl refl refl refl
      (counted-Small m counted)
reattach_in-IsCounted connecting m now later id conn x counted has is = counted
reattach_in-IsCounted authenticating m now later id conn x counted has is = counted
reattach_in-IsCounted closing m now later id conn x counted has is = counted
reattach_in-IsCounted closed m now later id conn x counted has is = counted

pub reattach-IsCounted :
    (m : Manager) (now later id conn version : ℕ)
    → IsCounted m
    → IsCounted (reattach m now later id conn version).0
unfolding reattach
reattach-IsCounted m now later id conn version counted = elim (Option-cases (get m.store id)) [
  | inl gone ↦ rw (gone, reattach) counted
  | inr (x, has) ↦ elim (Bool-cases (x.version == version)) [
    | inr other ↦
        rw (has, reattach)
          (rw other (record {
            valid = counted.valid;
            named = counted.named;
            active = counted.active;
            suspended = counted.suspended;
          }))
    | inl same ↦
        rw (has, reattach)
          (rw same (reattach_in-IsCounted x.state m now later id conn x counted has refl))
  ]
]

activate-IsCounted :
    (st : SessionState) (m : Manager) (now id player : ℕ) (x : Session)
    → IsCounted m
    → get m.store id ≡ some x
    → x.state ≡ st
    → IsCounted (activate st m now player x).0
activate-IsCounted authenticating m now id player x counted has is =
    let small = counted-Small m counted in
    moved-IsCounted m (activate authenticating m now player x).0 id x (activated x now player)
      authenticating active counted has is refl refl refl refl (omega (arith, small.0)) refl
      (omega arith, small.1)
activate-IsCounted connecting m now id player x counted has is = counted
activate-IsCounted active m now id player x counted has is = counted
activate-IsCounted suspended m now id player x counted has is = counted
activate-IsCounted closing m now id player x counted has is = counted
activate-IsCounted closed m now id player x counted has is = counted

answered-IsCounted :
    (m : Manager) (now id player : ℕ) (answer : Result ℕ)
    → IsCounted m
    → IsCounted (answered m now id player answer).0
answered-IsCounted m now id player (err code) counted =
    close_and_remove-IsCounted m id rejected counted
answered-IsCounted m now id player (ok owner) counted = elim (Bool-cases (owner == player)) [
  | inr other ↦ rw other (close_and_remove-IsCounted m id rejected counted)
  | inl same ↦ rw same (elim (Option-cases (get m.store id)) [
    | inl gone ↦ rw gone counted
    | inr (x, has) ↦ rw has (activate-IsCounted x.state m now id player x counted has refl)
  ])
]

-- The state Authenticating is written before the provider is asked.
pub asked-IsCounted :
    (m : Manager) (id : ℕ) (x : Session) (st : SessionState)
    → IsCounted m
    → get m.store id ≡ some x
    → x.state ≡ st
    → one_if (is_active st) ≡ 0
    → one_if (is_suspended st) ≡ 0
    → IsCounted (save (record x { state = authenticating }) m)
asked-IsCounted m id x st counted has is none_active none_suspended =
    moved-IsCounted m (save (record x { state = authenticating }) m) id x
      (record x { state = authenticating }) st authenticating counted has is refl refl refl refl
      (omega (arith, none_active)) (omega (arith, none_suspended)) (counted-Small m counted)

authenticate_in-IsCounted :
    (st : SessionState) (m : Manager) (now id player : ℕ) (answer : Result ℕ) (x : Session)
    → IsCounted m
    → get m.store id ≡ some x
    → x.state ≡ st
    → IsCounted (authenticate_in st m now id player answer x).0
authenticate_in-IsCounted connecting m now id player answer x counted has is =
    answered-IsCounted (save (record x { state = authenticating }) m) now id player answer
      (asked-IsCounted m id x connecting counted has is refl refl)
authenticate_in-IsCounted authenticating m now id player answer x counted has is =
    answered-IsCounted (save (record x { state = authenticating }) m) now id player answer
      (asked-IsCounted m id x authenticating counted has is refl refl)
authenticate_in-IsCounted active m now id player answer x counted has is = counted
authenticate_in-IsCounted suspended m now id player answer x counted has is = counted
authenticate_in-IsCounted closing m now id player answer x counted has is = counted
authenticate_in-IsCounted closed m now id player answer x counted has is = counted

pub on_authenticate-IsCounted :
    (m : Manager) (now id player : ℕ) (answer : Result ℕ)
    → IsCounted m
    → IsCounted (on_authenticate m now id player answer).0
unfolding on_authenticate
on_authenticate-IsCounted m now id player answer counted = elim (Bool-cases (player == 0)) [
  | inl nobody ↦ rw (nobody, on_authenticate) counted
  | inr real ↦ elim (Option-cases (get m.store id)) [
    | inl gone ↦ rw (real, on_authenticate) (rw gone counted)
    | inr (x, has) ↦
        rw (real, on_authenticate)
          (rw has (authenticate_in-IsCounted x.state m now id player answer x counted has refl))
  ]
]
