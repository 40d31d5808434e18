-- ===== src/Gateway/Manager/History.antt =====
-- SessionManager: calls one after the other.
use cami.Common.{
  ℕ, ◌≡◌, refl, sym, ap, subst, inl, inr, List, [], ◌∷◌, true, arith, leb, Bool-cases,
}
use cami.Common.Errors.{Result, ok}
use cami.Gateway.Session.{
  Session, SessionState, connecting, authenticating, active, suspended, closing, closed,
  is_terminal,
}
use cami.Gateway.Store.{SessionStore}
use cami.Gateway.Store.Entry.{Entered, allocate-Entered, named_as}
use cami.Gateway.Manager.{
  Manager, timeout, new_session, name_session, connected, on_connected, close_and_remove,
}
use cami.Gateway.Manager.Calls.{
  is_active, is_suspended, close_all, tick, scan_of, sweep_all, swept, Call, connects,
  authenticates, beats, disconnects, reattaches, ticks, step, run,
}
use cami.Gateway.Manager.Counts.{
  active_one, suspended_one, one_if, IsCounted, counted-Small, close_and_remove-IsCounted,
  saved-IsCounted, on_heartbeat-IsCounted,
}
use cami.Gateway.Manager.Steady.{
  on_disconnected-IsCounted, reattach-IsCounted, on_authenticate-IsCounted,
}
use cami.Gateway.Manager.Sweep.{swept-IsCounted}

shut_counts :
    (st : SessionState)
    → is_terminal st ≡ true
    → (one_if (is_active st) ≡ 0) × (one_if (is_suspended st) ≡ 0)
shut_counts closed h = (refl, refl)
shut_counts connecting h = cc
shut_counts authenticating h = cc
shut_counts active h = cc
shut_counts suspended h = cc
shut_counts closing h = cc

Entered-IsCounted :
    (m : Manager) (t : SessionStore) (id : ℕ) (y : Session)
    → IsCounted m
    → Entered m.store t id y
    → y.state ≡ connecting
    → IsCounted (record m { store = t })
Entered-IsCounted m t id y counted entered is = record {
  valid = entered.valid;
  named = entered.named;
  active = omega (
    arith,
    counted.active,
    entered.sums active_one refl (λ z shut. (shut_counts z.state shut).0),
    ap (λ st. one_if (is_active st)) is,
  );
  suspended = omega (
    arith,
    counted.suspended,
    entered.sums suspended_one refl (λ z shut. (shut_counts z.state shut).1),
    ap (λ st. one_if (is_suspended st)) is,
  );
}

connected-IsCounted :
    (m : Manager) (s : Session) (id : ℕ) (t : SessionStore)
    → IsCounted m
    → s.state ≡ connecting
    → Entered m.store t id (named_as s id)
    → IsCounted (connected m s (t, ok id)).0
connected-IsCounted m s id t counted is entered =
    let u : Manager = record m { store = t } in
    let between = Entered-IsCounted m t id (named_as s id) counted entered is in
    saved-IsCounted u (connected m s (t, ok id)).0 id (named_as s id) (name_session s id) between
      entered.found (ap is_terminal is) refl refl refl refl (counted-Small u between)

on_connected-IsCounted :
    (m : Manager) (now conn : ℕ) → IsCounted m → IsCounted (on_connected m now conn).0
unfolding on_connected
on_connected-IsCounted m now conn counted =
    let s = new_session conn now in
    let P = λ (r : SessionStore × Result ℕ). IsCounted (connected m s r).0 in
    elim (Bool-cases (leb m.config.max_sessions m.store.size)) [
      | inl full ↦ rw (full, on_connected) counted
      | inr room ↦
          rw (room, on_connected)
            (elim (allocate-Entered m.store s refl counted.valid counted.named) [
              | inl refused ↦ subst P (sym refused) counted
              | inr (id, t, allocated, entered) ↦
                  subst P (sym allocated) (connected-IsCounted m s id t counted refl entered)
            ])
    ]

pub close_all-IsCounted : (ids : List ℕ) (m : Manager) → IsCounted m → IsCounted (close_all m ids)
unfolding close_all
close_all-IsCounted [] m counted = counted
close_all-IsCounted (id ∷ ids) m counted =
    close_all-IsCounted ids (close_and_remove m id timeout)
      (close_and_remove-IsCounted m id timeout counted)

pub step-IsCounted : (m : Manager) (c : Call) → IsCounted m → IsCounted (step m c)
unfolding step tick
step-IsCounted m (connects now conn) counted = on_connected-IsCounted m now conn counted
step-IsCounted m (authenticates now id player answer) counted =
    on_authenticate-IsCounted m now id player answer counted
step-IsCounted m (beats now id) counted = on_heartbeat-IsCounted m now id counted
step-IsCounted m (disconnects now id reason) counted =
    on_disconnected-IsCounted m now id reason counted
step-IsCounted m (reattaches now later id conn version) counted =
    reattach-IsCounted m now later id conn version counted
step-IsCounted m (ticks now) counted =
    let done = sweep_all m.config now m.store.slots (scan_of m) in
    close_all-IsCounted done.1.scratch (swept m done) (swept-IsCounted m now counted)

-- Any calls of the session manager, whatever they are and whatever they answer, keep the store of the
-- sessions in order, the name of every live session that of its slot, and the two counters equal to
-- the numbers of active and of suspended sessions in the store, as 64-bit numbers.
pub run-IsCounted : (cs : List Call) (m : Manager) → IsCounted m → IsCounted (run m cs)
run-IsCounted [] m counted = counted
run-IsCounted (c ∷ cs) m counted = run-IsCounted cs (step m c) (step-IsCounted m c counted)
