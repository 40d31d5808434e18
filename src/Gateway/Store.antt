-- ===== src/Gateway/Store.antt =====
-- server/gateway/src/session/in_memory_session_store.cpp: class InMemorySessionStore. The back of
-- free_slots_ is the head of the list.
pub mod Stale
pub mod Invariant
pub mod Naming
pub mod Names
pub mod Entry
pub mod Lasting
use cami.Common.{
  ℕ, ◌+◌, ◌-◌, ◌%◌, ◌^◌, List, [], ◌∷◌, ◌++◌, Bool, true, false, not, Option, none, some, leb, ◌==◌,
  if◌then◌else◌, ◌||◌, length, get_or, set,
}
use cami.Common.Dict.{Dict, lookup, insert, erase}
use cami.Common.Errors.{Result, ok, err, busy, invalid_argument}
use cami.Gateway.Session.{
  Session, empty_session, closed, is_terminal, make_session_id, session_slot, session_generation,
}

pub record SessionStore : Type 0 where
  pub max_sessions : ℕ
  pub slots : List Session
  pub generations : List ℕ
  pub free_slots : List ℕ
  pub index_player : Dict ℕ
  pub size : ℕ

abbrev pub empty_store : ℕ → SessionStore
empty_store max = record {
  max_sessions = max;
  slots = [];
  generations = [];
  free_slots = [];
  index_player = [];
  size = 0;
}

abbrev pub slot_at : SessionStore → ℕ → Session
slot_at s i = get_or s.slots i empty_session

abbrev pub generation_at : SessionStore → ℕ → ℕ
generation_at s i = get_or s.generations i 0

unfoldable pub slot_valid : SessionStore → ℕ → Bool
slot_valid s id =
    if leb (length s.slots) (session_slot id)
    then false
    else if not (generation_at s (session_slot id) == session_generation id)
    then false
    else not (is_terminal (slot_at s (session_slot id)).state)

-- The slot that Allocate takes, with the store in which it is there to be written.
abbrev pub take_slot : List ℕ → SessionStore → ℕ × SessionStore
take_slot (slot ∷ rest) s = (slot, record s { free_slots = rest })
take_slot [] s = (
  length s.slots,
  record s { slots = s.slots ++ (empty_session ∷ []); generations = s.generations ++ (1 ∷ []) },
)

abbrev pub fill_slot : Session → ℕ × SessionStore → SessionStore × Result ℕ
fill_slot initial (slot, s) =
    let id = make_session_id slot (generation_at s slot) in
    (
      record s {
        slots = set s.slots slot (record initial { session_id = id });
        size = s.size + 1;
        index_player =
            if initial.player_id == 0
            then s.index_player
            else insert initial.player_id slot s.index_player;
      },
      ok id,
    )

unfoldable pub allocate : SessionStore → Session → SessionStore × Result ℕ
allocate s initial =
    if leb s.max_sessions s.size
    then (s, err busy)
    else fill_slot initial (take_slot s.free_slots s)

-- The two parts of Put that keep the index of the players.
abbrev rebind : ℕ → ℕ → ℕ → Dict ℕ → Dict ℕ
rebind previous player slot index =
    if previous == player
    then index
    else (let cleaned = if previous == 0 then index else erase previous index in
        if player == 0 then cleaned else insert player slot cleaned)

unfoldable pub put : SessionStore → Session → SessionStore × Result (Unit {0})
put s session =
    let slot = session_slot session.session_id in
    if slot_valid s session.session_id
    then (
      record s {
        slots = set s.slots slot session;
        index_player = rebind (slot_at s slot).player_id session.player_id slot s.index_player;
      },
      ok tt,
    )
    else (s, err invalid_argument)

unfoldable pub get : SessionStore → ℕ → Option Session
get s id = if slot_valid s id then some (slot_at s (session_slot id)) else none

unfoldable pub find_by_player : SessionStore → ℕ → Option Session
find_by_player s player = elim (lookup player s.index_player) [
  | none ↦ none
  | some slot ↦
      let session = slot_at s slot in
      if not (session.player_id == player) || is_terminal session.state then none else some session
]

unfoldable pub remove : SessionStore → ℕ → SessionStore
remove s id =
    let slot = session_slot id in
    let player = (slot_at s slot).player_id in
    if slot_valid s id
    then record s {
      index_player = if player == 0 then s.index_player else erase player s.index_player;
      slots = set s.slots slot (record empty_session { state = closed });
      generations = set s.generations slot ((generation_at s slot + 1) % 2 ^ 32);
      free_slots = slot ∷ s.free_slots;
      size = s.size - 1;
    }
    else s

pub data Call : Type 0 where
  allocates : Session → Call
  puts : Session → Call
  removes : ℕ → Call

unfoldable pub step : SessionStore → Call → SessionStore
step s (allocates initial) = (allocate s initial).0
step s (puts session) = (put s session).0
step s (removes id) = remove s id

abbrev pub run : SessionStore → List Call → SessionStore
run s [] = s
run s (c ∷ cs) = run (step s c) cs
