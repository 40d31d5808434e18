-- ===== src/Gateway/Manager/Advances.antt =====
-- SessionManager: what a call does to the version of a session that is there before and after it.
use cami.Common.{
  ℕ, ◌+◌, ◌-◌, ◌%◌, ◌^◌, ◌≡◌, refl, sym, ap, subst, ◌∙◌, ◌⊎◌, inl, inr, some, ltb, leb, ◌==◌,
  Bool-cases, Option-cases,
}
use cami.Common.Errors.{Result, ok}
use cami.Gateway.Session.{
  Session, SessionState, connecting, authenticating, active, suspended, closing, closed,
}
use cami.Gateway.Store.{SessionStore, put, get}
use cami.Gateway.Store.Entry.{allocate-Entered, named_as}
use cami.Gateway.Store.Lasting.{put-PutGives, allocate-keeps}
use cami.Gateway.Manager.{
  Manager, new_session, name_session, connected, on_connected, on_authenticate,
}
use cami.Gateway.Manager.Calls.{
  nanoseconds, on_heartbeat, on_disconnected, resumed, reattach_in, reattach, tick, Call, connects,
  authenticates, beats, disconnects, reattaches, ticks, step,
}
use cami.Gateway.Manager.Counts.{IsCounted}
use cami.Gateway.Manager.Kept.{
  on_heartbeat-KeepsVersions, on_disconnected-KeepsVersions, on_authenticate-KeepsVersions,
}
use cami.Gateway.Manager.Versions.{
  KeepsVersions, version_of, one_session, same-KeepsVersions, put-found, tick-KeepsVersions,
}

-- A session that is there before and after keeps its version, or n is 1 and the version is the next.
abbrev pub Advances : ℕ → SessionStore → SessionStore → Type 0
Advances n s t =
    (id : ℕ) (x z : Session)
    → get s id ≡ some x
    → get t id ≡ some z
    → (z.version ≡ x.version) ⊎ ((n ≡ 1) × (z.version ≡ (x.version + 1) % 2 ^ 32))

KeepsVersions-Advances : (n : ℕ) (s t : SessionStore) → KeepsVersions s t → Advances n s t
KeepsVersions-Advances n s t keeps id x z has gives =
    let (y, found, same) = keeps id z gives in inl (same ∙ one_session s id y x found has)

resumed-Advances :
    (m : Manager) (later found conn : ℕ) (y : Session)
    → IsCounted m
    → get m.store found ≡ some y
    → Advances 1 m.store (put m.store (resumed y later conn)).0
resumed-Advances m later found conn y counted at id x z has gives =
    elim (put-found m found y (resumed y later conn) counted at refl id z gives) [
      | inl before ↦ inl (one_session m.store id z x before has)
      | inr (is, w, there, alike) ↦
          let same = sym alike ∙ one_session m.store id w x there has in
          inr (refl, ap version_of is ∙ ap (λ v. (v + 1) % 2 ^ 32) same)
    ]

reattach_in-Advances :
    (st : SessionState) (m : Manager) (now later found conn : ℕ) (y : Session)
    → IsCounted m
    → get m.store found ≡ some y
    → Advances 1 m.store (reattach_in st m now later conn y).0.store
reattach_in-Advances suspended m now later found conn y counted at =
    elim (Bool-cases (ltb (nanoseconds m.config.suspend_grace) (now - y.last_heartbeat))) [
      | inl late ↦ rw late (KeepsVersions-Advances 1 m.store m.store (same-KeepsVersions m.store))
      | inr early ↦ rw early (resumed-Advances m later found conn y counted at)
    ]
reattach_in-Advances active m now later found conn y counted at =
    resumed-Advances m later found conn y counted at
reattach_in-Advances connecting m now later found conn y counted at =
    KeepsVersions-Advances 1 m.store m.store (same-KeepsVersions m.store)
reattach_in-Advances authenticating m now later found conn y counted at =
    KeepsVersions-Advances 1 m.store m.store (same-KeepsVersions m.store)
reattach_in-Advances closing m now later found conn y counted at =
    KeepsVersions-Advances 1 m.store m.store (same-KeepsVersions m.store)
reattach_in-Advances closed m now later found conn y counted at =
    KeepsVersions-Advances 1 m.store m.store (same-KeepsVersions m.store)

reattach-Advances :
    (m : Manager) (now later found conn version : ℕ)
    → IsCounted m
    → Advances 1 m.store (reattach m now later found conn version).0.store
unfolding reattach
reattach-Advances m now later found conn version counted =
    let stays = KeepsVersions-Advances 1 m.store m.store (same-KeepsVersions m.store) in
    elim (Option-cases (get m.store found)) [
      | inl gone ↦ rw (gone, reattach) stays
      | inr (y, at) ↦ elim (Bool-cases (y.version == version)) [
        | inr other ↦ rw (at, reattach) (rw other stays)
        | inl same ↦
            rw (at, reattach)
              (rw same (reattach_in-Advances y.state m now later found conn y counted at))
      ]
    ]

connected-Advances :
    (m : Manager) (s : Session) (new : ℕ) (t : SessionStore)
    → ((id : ℕ) (x : Session) → get m.store id ≡ some x → get t id ≡ some x)
    → get t new ≡ some (named_as s new)
    → Advances 0 m.store (connected m s (t, ok new)).0.store
connected-Advances m s new t kept entered id x z has gives =
    elim (put-PutGives t (name_session s new) id z gives) [
      | inl before ↦ inl (one_session t id z x before (kept id x has))
      | inr (is, w, at, own) ↦ inl (
          ap version_of is
          ∙ one_session t new (named_as s new) w entered own
          ∙ one_session t id w x at (kept id x has))
    ]

on_connected-Advances :
    (m : Manager) (now conn : ℕ)
    → IsCounted m
    → Advances 0 m.store (on_connected m now conn).0.store
unfolding on_connected
on_connected-Advances m now conn counted =
    let s = new_session conn now in
    let stays = KeepsVersions-Advances 0 m.store m.store (same-KeepsVersions m.store) in
    let P = λ (r : SessionStore × Result ℕ). Advances 0 m.store (connected m s r).0.store in
    elim (Bool-cases (leb m.config.max_sessions m.store.size)) [
      | inl full ↦ rw (full, on_connected) stays
      | inr room ↦
          rw (room, on_connected)
            (elim (allocate-Entered m.store s refl counted.valid counted.named) [
              | inl refused ↦ subst P (sym refused) stays
              | inr (new, t, allocated, entered) ↦ subst P (sym allocated) (
                  connected-Advances m s new t
                    (λ id x has.
                      sym (ap (λ r. get r.0 id) allocated)
                      ∙ allocate-keeps m.store s id x counted.valid has)
                    entered.found)
            ])
    ]

-- The calls of Reattach.
abbrev pub one_reattach : Call → ℕ
one_reattach (connects now conn) = 0
one_reattach (authenticates now id player answer) = 0
one_reattach (beats now id) = 0
one_reattach (disconnects now id reason) = 0
one_reattach (reattaches now later id conn version) = 1
one_reattach (ticks now) = 0

pub step-Advances :
    (m : Manager) (c : Call) → IsCounted m → Advances (one_reattach c) m.store (step m c).store
unfolding step
step-Advances m (connects now conn) counted = on_connected-Advances m now conn counted
step-Advances m (authenticates now id player answer) counted =
    KeepsVersions-Advances 0 m.store (on_authenticate m now id player answer).0.store
      (on_authenticate-KeepsVersions m now id player answer counted)
step-Advances m (beats now id) counted =
    KeepsVersions-Advances 0 m.store (on_heartbeat m now id).0.store
      (on_heartbeat-KeepsVersions m now id counted)
step-Advances m (disconnects now id reason) counted =
    KeepsVersions-Advances 0 m.store (on_disconnected m now id reason).store
      (on_disconnected-KeepsVersions m now id reason counted)
step-Advances m (reattaches now later id conn version) counted =
    reattach-Advances m now later id conn version counted
step-Advances m (ticks now) counted =
    KeepsVersions-Advances 0 m.store (tick m now).store (tick-KeepsVersions m now counted)
