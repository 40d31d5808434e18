-- ===== src/Gateway/Manager/Kept.antt =====
-- OnHeartbeat, OnDisconnected and OnAuthenticate leave the versions of all sessions alone.
use cami.Common.{ℕ, ◌≡◌, refl, inl, inr, some, ◌==◌, Bool-cases, Option-cases}
use cami.Common.Errors.{Result, ok, err}
use cami.Gateway.Session.{
  Session, SessionState, connecting, authenticating, active, suspended, closing, closed,
}
use cami.Gateway.Store.{get}
use cami.Gateway.Manager.{
  Manager, CloseReason, rejected, save, activated, activate, answered, authenticate_in,
  on_authenticate,
}
use cami.Gateway.Manager.Calls.{is_active, on_heartbeat, disconnect_in, on_disconnected}
use cami.Gateway.Manager.Counts.{IsCounted}
use cami.Gateway.Manager.Steady.{asked-IsCounted}
use cami.Gateway.Manager.Versions.{
  KeepsVersions, same-KeepsVersions, KeepsVersions-then, put-KeepsVersions,
  close_and_remove-KeepsVersions,
}

pub on_heartbeat-KeepsVersions :
    (m : Manager) (now found : ℕ)
    → IsCounted m
    → KeepsVersions m.store (on_heartbeat m now found).0.store
unfolding on_heartbeat
on_heartbeat-KeepsVersions m now found counted = elim (Option-cases (get m.store found)) [
  | inl gone ↦ rw (gone, on_heartbeat) (same-KeepsVersions m.store)
  | inr (y, at) ↦ elim (Bool-cases (is_active y.state)) [
    | inr other ↦ rw (at, on_heartbeat) (rw other (same-KeepsVersions m.store))
    | inl is ↦
        rw (at, on_heartbeat)
          (rw is
            (put-KeepsVersions m found y (record y { last_heartbeat = now }) counted at refl refl))
  ]
]

disconnect_in-KeepsVersions :
    (st : SessionState) (m : Manager) (now found : ℕ) (y : Session) (reason : CloseReason)
    → IsCounted m
    → get m.store found ≡ some y
    → KeepsVersions m.store (disconnect_in st m now found y reason).store
disconnect_in-KeepsVersions active m now found y reason counted at =
    put-KeepsVersions m found y (record y { state = suspended; last_heartbeat = now }) counted at
      refl refl
disconnect_in-KeepsVersions connecting m now found y reason counted at =
    close_and_remove-KeepsVersions m found reason counted
disconnect_in-KeepsVersions authenticating m now found y reason counted at =
    close_and_remove-KeepsVersions m found reason counted
disconnect_in-KeepsVersions suspended m now found y reason counted at = same-KeepsVersions m.store
disconnect_in-KeepsVersions closing m now found y reason counted at = same-KeepsVersions m.store
disconnect_in-KeepsVersions closed m now found y reason counted at = same-KeepsVersions m.store

pub on_disconnected-KeepsVersions :
    (m : Manager) (now found : ℕ) (reason : CloseReason)
    → IsCounted m
    → KeepsVersions m.store (on_disconnected m now found reason).store
unfolding on_disconnected
on_disconnected-KeepsVersions m now found reason counted = elim (Option-cases (get m.store found)) [
  | inl gone ↦ rw (gone, on_disconnected) (same-KeepsVersions m.store)
  | inr (y, at) ↦
      rw (at, on_disconnected) (disconnect_in-KeepsVersions y.state m now found y reason counted at)
]

activate-KeepsVersions :
    (st : SessionState) (m : Manager) (now found player : ℕ) (y : Session)
    → IsCounted m
    → get m.store found ≡ some y
    → KeepsVersions m.store (activate st m now player y).0.store
activate-KeepsVersions authenticating m now found player y counted at =
    put-KeepsVersions m found y (activated y now player) counted at refl refl
activate-KeepsVersions connecting m now found player y counted at = same-KeepsVersions m.store
activate-KeepsVersions active m now found player y counted at = same-KeepsVersions m.store
activate-KeepsVersions suspended m now found player y counted at = same-KeepsVersions m.store
activate-KeepsVersions closing m now found player y counted at = same-KeepsVersions m.store
activate-KeepsVersions closed m now found player y counted at = same-KeepsVersions m.store

answered-KeepsVersions :
    (m : Manager) (now found player : ℕ) (answer : Result ℕ)
    → IsCounted m
    → KeepsVersions m.store (answered m now found player answer).0.store
answered-KeepsVersions m now found player (err code) counted =
    close_and_remove-KeepsVersions m found rejected counted
answered-KeepsVersions m now found player (ok owner) counted = elim (Bool-cases (owner == player)) [
  | inr other ↦ rw other (close_and_remove-KeepsVersions m found rejected counted)
  | inl same ↦ rw same (elim (Option-cases (get m.store found)) [
    | inl gone ↦ rw gone (same-KeepsVersions m.store)
    | inr (y, at) ↦ rw at (activate-KeepsVersions y.state m now found player y counted at)
  ])
]

-- The provider is asked in the state Authenticating.
asked-KeepsVersions :
    (m : Manager) (now found player : ℕ) (answer : Result ℕ) (y : Session)
    → IsCounted m
    → get m.store found ≡ some y
    → IsCounted (save (record y { state = authenticating }) m)
    → KeepsVersions m.store
        (answered (save (record y { state = authenticating }) m) now found player answer).0.store
asked-KeepsVersions m now found player answer y counted at between =
    let u = save (record y { state = authenticating }) m in
    KeepsVersions-then m.store u.store (answered u now found player answer).0.store
      (put-KeepsVersions m found y (record y { state = authenticating }) counted at refl refl)
      (answered-KeepsVersions u now found player answer between)

authenticate_in-KeepsVersions :
    (st : SessionState) (m : Manager) (now found player : ℕ) (answer : Result ℕ) (y : Session)
    → IsCounted m
    → get m.store found ≡ some y
    → y.state ≡ st
    → KeepsVersions m.store (authenticate_in st m now found player answer y).0.store
authenticate_in-KeepsVersions connecting m now found player answer y counted at is =
    asked-KeepsVersions m now found player answer y counted at
      (asked-IsCounted m found y connecting counted at is refl refl)
authenticate_in-KeepsVersions authenticating m now found player answer y counted at is =
    asked-KeepsVersions m now found player answer y counted at
      (asked-IsCounted m found y authenticating counted at is refl refl)
authenticate_in-KeepsVersions active m now found player answer y counted at is =
    same-KeepsVersions m.store
authenticate_in-KeepsVersions suspended m now found player answer y counted at is =
    same-KeepsVersions m.store
authenticate_in-KeepsVersions closing m now found player answer y counted at is =
    same-KeepsVersions m.store
authenticate_in-KeepsVersions closed m now found player answer y counted at is =
    same-KeepsVersions m.store

pub on_authenticate-KeepsVersions :
    (m : Manager) (now found player : ℕ) (answer : Result ℕ)
    → IsCounted m
    → KeepsVersions m.store (on_authenticate m now found player answer).0.store
unfolding on_authenticate
on_authenticate-KeepsVersions m now found player answer counted = elim (Bool-cases (player == 0)) [
  | inl nobody ↦ rw (nobody, on_authenticate) (same-KeepsVersions m.store)
  | inr real ↦ elim (Option-cases (get m.store found)) [
    | inl gone ↦ rw (real, on_authenticate) (rw gone (same-KeepsVersions m.store))
    | inr (y, at) ↦
        rw (real, on_authenticate)
          (rw at
            (authenticate_in-KeepsVersions y.state m now found player answer y counted at refl))
  ]
]
