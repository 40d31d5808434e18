-- ===== src/Gateway/Manager/Calls.antt =====
-- session_manager.cpp: OnHeartbeat, OnDisconnected, Reattach and Tick.
use cami.Common.{
  ℕ, ◌+◌, ◌-◌, ◌*◌, ◌%◌, ◌^◌, List, [], ◌∷◌, ◌++◌, Bool, true, false, ◌&&◌, Option, none, some, ltb,
  ◌==◌, if◌then◌else◌,
}
use cami.Common.Errors
use cami.Common.Errors.{ErrorCode, Result, ok, err, not_found, invalid_argument, version_conflict}
use cami.Gateway.Session.{
  Session, SessionState, connecting, authenticating, active, suspended, closing, closed,
  is_terminal,
}
use cami.Gateway.Store.{SessionStore, put, get}
use cami.Gateway.Manager.{
  CloseReason, timeout, rejected, SessionEvent, session_suspended, session_resumed, Config, Manager,
  up, down, publish_to, publish, save, publish_closed, close_and_remove, on_connected,
  on_authenticate,
}

abbrev pub is_active : SessionState → Bool
is_active active = true
is_active suspended = false
is_active connecting = false
is_active authenticating = false
is_active closing = false
is_active closed = false

abbrev pub is_suspended : SessionState → Bool
is_suspended suspended = true
is_suspended active = false
is_suspended connecting = false
is_suspended authenticating = false
is_suspended closing = false
is_suspended closed = false

-- `return Save(s)`
abbrev pub saved : Manager → SessionStore × Result (Unit {0}) → Manager × Result (Unit {0})
saved m (store, r) = (record m { store = store }, r)

unfoldable pub on_heartbeat : Manager → ℕ → ℕ → Manager × Result (Unit {0})
on_heartbeat m now id = elim (get m.store id) [
  | none ↦ (m, err not_found)
  | some s ↦
      if is_active s.state
      then saved m (put m.store (record s { last_heartbeat = now }))
      else (m, err invalid_argument)
]

-- An active session becomes suspended.
abbrev pub suspend : Manager → ℕ → Session → CloseReason → Manager
suspend m now s reason = publish (session_suspended s.session_id s.player_id reason s.version) (
    save (record s { state = suspended; last_heartbeat = now })
      (record m { active_count = down m.active_count; suspended_count = up m.suspended_count }))

abbrev pub disconnect_in : SessionState → Manager → ℕ → ℕ → Session → CloseReason → Manager
disconnect_in active m now id s reason = suspend m now s reason
disconnect_in connecting m now id s reason = close_and_remove m id reason
disconnect_in authenticating m now id s reason = close_and_remove m id reason
disconnect_in suspended m now id s reason = m
disconnect_in closing m now id s reason = m
disconnect_in closed m now id s reason = m

-- OnDisconnected, which always succeeds.
unfoldable pub on_disconnected : Manager → ℕ → ℕ → CloseReason → Manager
on_disconnected m now id reason = elim (get m.store id) [
  | none ↦ m
  | some s ↦ disconnect_in s.state m now id s reason
]

-- The nanoseconds of a number of milliseconds.
abbrev pub nanoseconds : ℕ → ℕ
nanoseconds ms = ms * 1000000

abbrev pub resumed : Session → ℕ → ℕ → Session
resumed s now conn = record s {
  conn_id = conn;
  version = (s.version + 1) % 2 ^ 32;
  state = active;
  last_heartbeat = now;
}

abbrev pub resume : Manager → ℕ → ℕ → Session → Manager × Result (Unit {0})
resume m now conn s = (
  publish (session_resumed s.session_id s.player_id ((s.version + 1) % 2 ^ 32) s.version)
      (save (resumed s now conn) m),
  ok tt,
)

-- Reattach of a session whose version is the expected one. The clock is read at `now` for the grace
-- and at `later` for the new heartbeat. A difference that is negative is no more than the grace.
abbrev pub reattach_in : SessionState → Manager → ℕ → ℕ → ℕ → Session → Manager × Result (Unit {0})
reattach_in suspended m now later conn s =
    if ltb (nanoseconds m.config.suspend_grace) (now - s.last_heartbeat)
    then (m, err Errors.timeout)
    else resume
        (record m { suspended_count = down m.suspended_count; active_count = up m.active_count })
        later conn s
reattach_in active m now later conn s = resume (publish_closed s rejected m) later conn s
reattach_in connecting m now later conn s = (m, err invalid_argument)
reattach_in authenticating m now later conn s = (m, err invalid_argument)
reattach_in closing m now later conn s = (m, err invalid_argument)
reattach_in closed m now later conn s = (m, err invalid_argument)

unfoldable pub reattach : Manager → ℕ → ℕ → ℕ → ℕ → ℕ → Manager × Result (Unit {0})
reattach m now later id conn expected_version = elim (get m.store id) [
  | none ↦ (m, err not_found)
  | some s ↦
      if s.version == expected_version
      then reattach_in s.state m now later conn s
      else (record m { rejected_reattach = up m.rejected_reattach }, err version_conflict)
]

-- What the loop of Tick changes besides the slots: `scratch` has the sessions to be closed.
pub record Scan : Type 0 where
  pub bus : Option (List SessionEvent)
  pub active_count : ℕ
  pub suspended_count : ℕ
  pub timed_out : ℕ
  pub scratch : List ℕ

-- The callback of Tick.
abbrev pub sweep : Config → ℕ → Session → Scan → Session × Scan
sweep config now s a =
    let elapsed = now - s.last_heartbeat in
    if is_active s.state
      && ltb (nanoseconds (config.heartbeat_interval * config.max_missed)) elapsed
    then (
      record s { state = suspended; last_heartbeat = now },
      record a {
        bus = publish_to a.bus (session_suspended s.session_id s.player_id timeout s.version);
        active_count = down a.active_count;
        suspended_count = up a.suspended_count;
        timed_out = up a.timed_out;
      },
    )
    else if is_suspended s.state && ltb (nanoseconds config.suspend_grace) elapsed
    then (s, record a { scratch = a.scratch ++ (s.session_id ∷ []) })
    else (s, a)

-- ForEachMutable with that callback, which always goes on.
unfoldable pub sweep_all : Config → ℕ → List Session → Scan → List Session × Scan
sweep_all config now [] a = ([], a)
sweep_all config now (s ∷ ss) a =
    let one = if is_terminal s.state then (s, a) else sweep config now s a in
    let rest = sweep_all config now ss one.1 in (one.0 ∷ rest.0, rest.1)

unfoldable pub close_all : Manager → List ℕ → Manager
close_all m [] = m
close_all m (id ∷ ids) = close_all (close_and_remove m id timeout) ids

abbrev pub swept : Manager → List Session × Scan → Manager
swept m (slots, a) =
    let store : SessionStore = m.store in
    record m {
      store = record store { slots = slots };
      bus = a.bus;
      active_count = a.active_count;
      suspended_count = a.suspended_count;
      timed_out = a.timed_out;
    }

abbrev pub scan_of : Manager → Scan
scan_of m = record {
  bus = m.bus;
  active_count = m.active_count;
  suspended_count = m.suspended_count;
  timed_out = m.timed_out;
  scratch = [];
}

unfoldable pub tick : Manager → ℕ → Manager
tick m now =
    let done = sweep_all m.config now m.store.slots (scan_of m) in
    close_all (swept m done) done.1.scratch

pub data Call : Type 0 where
  connects : ℕ → ℕ → Call
  authenticates : ℕ → ℕ → ℕ → Result ℕ → Call
  beats : ℕ → ℕ → Call
  disconnects : ℕ → ℕ → CloseReason → Call
  reattaches : ℕ → ℕ → ℕ → ℕ → ℕ → Call
  ticks : ℕ → Call

unfoldable pub step : Manager → Call → Manager
step m (connects now conn) = (on_connected m now conn).0
step m (authenticates now id player answer) = (on_authenticate m now id player answer).0
step m (beats now id) = (on_heartbeat m now id).0
step m (disconnects now id reason) = on_disconnected m now id reason
step m (reattaches now later id conn version) = (reattach m now later id conn version).0
step m (ticks now) = tick m now

abbrev pub run : Manager → List Call → Manager
run m [] = m
run m (c ∷ cs) = run (step m c) cs
