-- ===== src/Gateway/Manager.antt =====
-- server/gateway/src/session/session_manager.cpp: class SessionManager. A reading of the steady clock
-- is an argument, in nanoseconds; the durations of the configuration are milliseconds. What the
-- authentication provider answers is a parameter. The bus is the list of what was published, newest
-- first; there may be none.
pub mod Calls
pub mod Counts
pub mod Steady
pub mod Sweep
pub mod History
pub mod Versions
pub mod Kept
pub mod Advances
pub mod Fences
pub mod Marks
pub mod Retention
mod Tests
use cami.Common.{
  ℕ, ◌+◌, ◌-◌, ◌*◌, ◌%◌, ◌^◌, List, [], ◌∷◌, ◌++◌, Bool, true, false, not, ◌&&◌, Option, none, some,
  ltb, leb, ◌==◌, if◌then◌else◌,
}
use cami.Common.Errors
use cami.Common.Errors.{
  ErrorCode, Result, ok, err, busy, not_found, invalid_argument, unauthorized, version_conflict,
}
use cami.Gateway.Session.{
  Session, SessionState, empty_session, connecting, authenticating, active, suspended, closing,
  closed, is_terminal,
}
use cami.Gateway.Store.{SessionStore, allocate, put, get, remove}

pub data CloseReason : Type 0 where
  graceful peer_closed error timeout rejected : CloseReason

pub data SessionEvent : Type 0 where
  session_created : ℕ → ℕ → ℕ → SessionEvent
  session_authenticated : ℕ → ℕ → ℕ → ℕ → SessionEvent
  session_suspended : ℕ → ℕ → CloseReason → ℕ → SessionEvent
  session_resumed : ℕ → ℕ → ℕ → ℕ → SessionEvent
  session_closed : ℕ → ℕ → CloseReason → ℕ → SessionEvent

pub record Config : Type 0 where
  pub heartbeat_interval : ℕ
  pub max_missed : ℕ
  pub suspend_grace : ℕ
  pub max_sessions : ℕ

pub record Manager : Type 0 where
  pub store : SessionStore
  pub config : Config
  pub bus : Option (List SessionEvent)
  pub active_count : ℕ
  pub suspended_count : ℕ
  pub rejected_reattach : ℕ
  pub timed_out : ℕ

-- ++ and -- of a size_t
abbrev pub up : ℕ → ℕ
up n = (n + 1) % 2 ^ 64

abbrev pub down : ℕ → ℕ
down n = (n + 18446744073709551615) % 2 ^ 64

abbrev pub publish_to : Option (List SessionEvent) → SessionEvent → Option (List SessionEvent)
publish_to none e = none
publish_to (some es) e = some (e ∷ es)

abbrev pub publish : SessionEvent → Manager → Manager
publish e m = record m { bus = publish_to m.bus e }

-- Save, where its answer is not looked at.
abbrev pub save : Session → Manager → Manager
save s m = record m { store = (put m.store s).0 }

abbrev pub uncount : SessionState → Manager → Manager
uncount active m = record m { active_count = down m.active_count }
uncount suspended m = record m { suspended_count = down m.suspended_count }
uncount connecting m = m
uncount authenticating m = m
uncount closing m = m
uncount closed m = m

-- PublishClosed
abbrev pub publish_closed : Session → CloseReason → Manager → Manager
publish_closed s reason = publish (session_closed s.session_id s.player_id reason s.version)

abbrev pub drop_session : ℕ → Manager → Manager
drop_session id m = record m { store = remove m.store id }

-- CloseAndRemove
unfoldable pub close_and_remove : Manager → ℕ → CloseReason → Manager
close_and_remove m id reason = elim (get m.store id) [
  | none ↦ m
  | some s ↦ drop_session id (publish_closed s reason (uncount s.state m))
]

abbrev pub new_session : ℕ → ℕ → Session
new_session conn now = record empty_session { conn_id = conn; last_heartbeat = now }

abbrev pub name_session : Session → ℕ → Session
name_session s id = record s { session_id = id; trace_id = id }

abbrev pub connected : Manager → Session → SessionStore × Result ℕ → Manager × Result ℕ
connected m s (store, err code) = (record m { store = store }, err code)
connected m s (store, ok id) = (
  publish (session_created id s.conn_id id) (save (name_session s id) (record m { store = store })),
  ok id,
)

unfoldable pub on_connected : Manager → ℕ → ℕ → Manager × Result ℕ
on_connected m now conn =
    if leb m.config.max_sessions m.store.size
    then (m, err busy)
    else connected m (new_session conn now) (allocate m.store (new_session conn now))

abbrev pub activated : Session → ℕ → ℕ → Session
activated s now player = record s { player_id = player; state = active; last_heartbeat = now }

-- The end of OnAuthenticate, on the session that was loaded again.
abbrev pub activate : SessionState → Manager → ℕ → ℕ → Session → Manager × Result (Unit {0})
activate authenticating m now player s = (
  publish (session_authenticated s.session_id player s.version s.trace_id)
      (save (activated s now player) (record m { active_count = up m.active_count })),
  ok tt,
)
activate connecting m now player s = (m, err invalid_argument)
activate active m now player s = (m, err invalid_argument)
activate suspended m now player s = (m, err invalid_argument)
activate closing m now player s = (m, err invalid_argument)
activate closed m now player s = (m, err invalid_argument)

abbrev pub activate_loaded : Manager → ℕ → ℕ → Option Session → Manager × Result (Unit {0})
activate_loaded m now player none = (m, err not_found)
activate_loaded m now player (some s) = activate s.state m now player s

-- What the provider's answer leads to.
abbrev pub answered : Manager → ℕ → ℕ → ℕ → Result ℕ → Manager × Result (Unit {0})
answered m now id player (err code) = (close_and_remove m id rejected, err code)
answered m now id player (ok owner) =
    if owner == player
    then activate_loaded m now player (get m.store id)
    else (close_and_remove m id rejected, err unauthorized)

abbrev pub authenticate_in :
    SessionState → Manager → ℕ → ℕ → ℕ → Result ℕ → Session → Manager × Result (Unit {0})
authenticate_in connecting m now id player answer s =
    answered (save (record s { state = authenticating }) m) now id player answer
authenticate_in authenticating m now id player answer s =
    answered (save (record s { state = authenticating }) m) now id player answer
authenticate_in active m now id player answer s = (m, err invalid_argument)
authenticate_in suspended m now id player answer s = (m, err invalid_argument)
authenticate_in closing m now id player answer s = (m, err invalid_argument)
authenticate_in closed m now id player answer s = (m, err invalid_argument)

-- OnAuthenticate, with the answer of the provider to the token.
unfoldable pub on_authenticate : Manager → ℕ → ℕ → ℕ → Result ℕ → Manager × Result (Unit {0})
on_authenticate m now id player answer =
    if player == 0 then (m, err invalid_argument) else elim (get m.store id) [
      | none ↦ (m, err not_found)
      | some s ↦ authenticate_in s.state m now id player answer s
    ]
