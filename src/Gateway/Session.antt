-- ===== src/Gateway/Session.antt =====
-- server/gateway/include/mmo/gateway/session/session.h: sessions and their ids. A time of the steady
-- clock is a number.
use cami.Common.{ℕ, ◌+◌, ◌*◌, ◌/◌, ◌%◌, ◌^◌, Bool, true, false}

pub data SessionState : Type 0 where
  connecting authenticating active suspended closing closed : SessionState

pub record Session : Type 0 where
  pub session_id : ℕ
  pub player_id : ℕ
  pub last_heartbeat : ℕ
  pub conn_id : ℕ
  pub trace_id : ℕ
  pub gateway_id : ℕ
  pub game_node_id : ℕ
  pub scene_id : ℕ
  pub version : ℕ
  pub state : SessionState

abbrev pub empty_session : Session
empty_session = record {
  session_id = 0;
  player_id = 0;
  last_heartbeat = 0;
  conn_id = 0;
  trace_id = 0;
  gateway_id = 0;
  game_node_id = 0;
  scene_id = 0;
  version = 0;
  state = connecting;
}

abbrev pub is_terminal : SessionState → Bool
is_terminal closed = true
is_terminal connecting = false
is_terminal authenticating = false
is_terminal active = false
is_terminal suspended = false
is_terminal closing = false

-- The id packs a slot and the generation of the slot, of 32 bits each.
abbrev pub make_session_id : ℕ → ℕ → ℕ
make_session_id slot generation = generation * 2 ^ 32 + slot

abbrev pub session_slot : ℕ → ℕ
session_slot id = id % 2 ^ 32

abbrev pub session_generation : ℕ → ℕ
session_generation id = id / 2 ^ 32 % 2 ^ 32
