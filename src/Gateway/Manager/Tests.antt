-- ===== src/Gateway/Manager/Tests.antt =====
-- server/gateway: a concrete session manager.
use cami.Common.{false}
use cami.Gateway.Session.{Session, empty_session, suspended}
use cami.Gateway.Manager.Calls.{tick, sweep_all, close_all}
use cami.Gateway.Manager.Marks.{overdue}
use cami.Gateway.Manager.Retention.{tick-Retains}
use cami.Common.{◌≡◌, refl, ◌^◌, List, [], ◌∷◌, arith, some, ◌++◌}
use cami.Common.Errors.{ok}
use cami.Gateway.Store.{empty_store, allocate, put, get, slot_valid}
use cami.Gateway.Manager.{Manager, graceful, peer_closed, on_connected, on_authenticate}
use cami.Gateway.Manager.Calls.{
  Call, connects, authenticates, beats, disconnects, reattaches, ticks, step, run, on_heartbeat,
  on_disconnected, reattach,
}
use cami.Gateway.Manager.Counts.{IsCounted}
use cami.Gateway.Manager.History.{run-IsCounted}
use cami.Gateway.Manager.Fences.{Resumed, Lives, conflict, reattach-Fenced}

abbrev new_manager : Manager
new_manager = record {
  store = empty_store 3;
  config = record {
    heartbeat_interval = 5000;
    max_missed = 3;
    suspend_grace = 30000;
    max_sessions = 3;
  };
  bus = some [];
  active_count = 0;
  suspended_count = 0;
  rejected_reattach = 0;
  timed_out = 0;
}

new_manager-IsCounted : IsCounted new_manager
new_manager-IsCounted = record {
  valid = record {
    paired = refl;
    counted = refl;
    freed = tt;
    complete = refl;
    bounded = omega arith;
  };
  named = record {
    small = omega arith;
    generations = λ i. omega arith;
    named = λ i h alive. absurd (omega (arith, h));
  };
  active = refl;
  suspended = refl;
}

-- Player 5 connects, is let in and loses the connection.
abbrev lost : List Call
lost =
    connects 0 70
    ∷ authenticates 1 (2 ^ 32) 5 (ok 5)
    ∷ beats 2 (2 ^ 32)
    ∷ disconnects 3 (2 ^ 32) graceful
    ∷ []

run-IsCounted_example : IsCounted (run new_manager (lost ++ (ticks 40000000000 ∷ [])))
run-IsCounted_example =
    run-IsCounted (lost ++ (ticks 40000000000 ∷ [])) new_manager new_manager-IsCounted

comes_back : (reattach (run new_manager lost) 4 5 (2 ^ 32) 71 0).1 ≡ ok tt
unfolding step on_connected on_authenticate on_heartbeat on_disconnected reattach allocate put get
    slot_valid
comes_back = refl

abbrev back : Manager
back = (reattach (run new_manager lost) 4 5 (2 ^ 32) 71 0).0

-- The connection is lost again and the session taken over once more, with the version 1.
abbrev moves_on : List Call
moves_on = disconnects 6 (2 ^ 32) peer_closed ∷ reattaches 7 8 (2 ^ 32) 72 1 ∷ []

moves_on-Lives : Lives back (2 ^ 32) moves_on
unfolding step on_connected on_authenticate on_heartbeat on_disconnected reattach allocate put get
    slot_valid
moves_on-Lives = ((_, refl), ((_, refl), tt))

reattach-Fenced_example :
    Resumed (run new_manager lost) (2 ^ 32) 71 0 back
    × (reattach (run back moves_on) 9 10 (2 ^ 32) 70 0 ≡ conflict (run back moves_on))
reattach-Fenced_example =
    reattach-Fenced (run new_manager lost) 4 5 (2 ^ 32) 71 0 moves_on 9 10 70
      (run-IsCounted lost new_manager new_manager-IsCounted) comes_back moves_on-Lives (omega arith)

-- The session is suspended at time 3, and may stay until its grace is over.
abbrev waiting : Session
waiting = record empty_session {
  session_id = 2 ^ 32;
  trace_id = 2 ^ 32;
  player_id = 5;
  conn_id = 70;
  last_heartbeat = 3;
  state = suspended;
}

stays : get (tick (run new_manager lost) 10).store (2 ^ 32) ≡ some waiting
unfolding step on_connected on_authenticate on_heartbeat on_disconnected tick sweep_all close_all
    allocate put get slot_valid
stays = refl

tick-Retains_example : overdue (run new_manager lost).config 10 waiting ≡ false
tick-Retains_example =
    tick-Retains (run new_manager lost) 10 (2 ^ 32) waiting
      (run-IsCounted lost new_manager new_manager-IsCounted) stays
