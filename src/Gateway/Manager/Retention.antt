-- ===== src/Gateway/Manager/Retention.antt =====
-- SessionManager::Tick: no session is kept past its time.
use cami.Common.{
  ℕ, ◌<◌, ◌≡◌, ◌≢◌, refl, sym, ap, subst, ◌∙◌, inl, inr, List, [], ◌∷◌, true, false, none, some,
  arith, Bool-cases, Option-cases, length, get_or, set, length-set, get_or-set_self, get_or-set_ne,
}
use native.Mathlib.Decide.{ℕ_discrete}
use cami.Gateway.Session.{
  Session, SessionState, empty_session, connecting, authenticating, active, suspended, closing,
  closed, is_terminal, session_slot,
}
use cami.Gateway.Store.{SessionStore, slot_at, generation_at, slot_valid, get, remove}
use cami.Gateway.Store.Invariant.{IsValid, IsLive}
use cami.Gateway.Store.Names.{shut, remove-slots}
use cami.Gateway.Store.Naming.{IsNamed, get-Loaded, name-valid, own_slot}
use cami.Gateway.Manager.{uncount, Config, Manager, CloseReason, timeout, close_and_remove}
use cami.Gateway.Manager.Calls.{sweep_all, close_all, swept, scan_of, tick}
use cami.Gateway.Manager.Counts.{IsCounted, close_and_remove-IsCounted}
use cami.Gateway.Manager.History.{close_all-IsCounted}
use cami.Gateway.Manager.Sweep.{swept-IsCounted}
use cami.Gateway.Manager.Marks.{overdue, Listed, name_of, sweep_all-AllMark}

-- Every session that is overdue is still to be closed.
abbrev AllListed : Config → ℕ → SessionStore → List ℕ → Type 0
AllListed config now s ids =
    (i : ℕ)
    → i < length s.slots
    → IsLive (slot_at s i)
    → overdue config now (slot_at s i) ≡ true
    → Listed (name_of (slot_at s i)) ids

uncount_store : (st : SessionState) (m : Manager) → (uncount st m).store ≡ m.store
uncount_store active m = refl
uncount_store suspended m = refl
uncount_store connecting m = refl
uncount_store authenticating m = refl
uncount_store closing m = refl
uncount_store closed m = refl

pub close_store :
    (m : Manager) (id : ℕ) (reason : CloseReason) (x : Session)
    → get m.store id ≡ some x
    → (close_and_remove m id reason).store ≡ remove m.store id
unfolding close_and_remove
close_store m id reason x has =
    rw (has, close_and_remove) (ap (λ t. remove t id) (uncount_store x.state m))

pub close_none :
    (m : Manager) (id : ℕ) (reason : CloseReason)
    → get m.store id ≡ none
    → (close_and_remove m id reason).store ≡ m.store
unfolding close_and_remove
close_none m id reason gone = rw (gone, close_and_remove) refl

-- The session of an id that gives nothing is no live one.
unlisted :
    (s : SessionStore) (id i : ℕ)
    → IsValid s
    → IsNamed s
    → i < length s.slots
    → IsLive (slot_at s i)
    → get s id ≡ none
    → id ≢ name_of (slot_at s i)
unfolding get
unlisted s id i valid named h alive gone same =
    let name = named.named i h alive in
    let good : slot_valid s id ≡ true =
      ap (slot_valid s) (same ∙ name)
      ∙ name-valid s i h (omega (arith, h, valid.bounded, named.small)) (named.generations i)
          alive in
    ground (arith, good, gone)

removed-AllListed :
    (config : Config) (now : ℕ) (s : SessionStore) (id : ℕ) (ids : List ℕ) (x : Session)
    → IsValid s
    → IsNamed s
    → get s id ≡ some x
    → AllListed config now s (id ∷ ids)
    → AllListed config now (remove s id) ids
removed-AllListed config now s id ids x valid named has all =
    let loaded = get-Loaded s id x valid named has in
    let k = session_slot id in
    subst
      (λ ss.
        (i : ℕ)
        → i < length ss
        → IsLive (get_or ss i empty_session)
        → overdue config now (get_or ss i empty_session) ≡ true
        → Listed (name_of (get_or ss i empty_session)) ids)
      (sym (remove-slots s id loaded.valid))
      (λ i h alive over. elim (ℕ_discrete k i) [
        | yes is ↦
            let read : is_terminal (get_or (set s.slots k shut) i empty_session).state ≡ true =
              subst (λ j. is_terminal (get_or (set s.slots k shut) j empty_session).state ≡ true) is
                (ap (λ (z : Session). is_terminal z.state)
                  (get_or-set_self s.slots k shut empty_session loaded.there)) in
            absurd (ground (arith, read, alive))
        | no apart ↦
            let kept = get_or-set_ne s.slots k i shut empty_session apart in
            let inside : i < length s.slots = omega (arith, h, length-set s.slots k shut) in
            let lives = sym (ap (λ (z : Session). is_terminal z.state) kept) ∙ alive in
            elim (all i inside lives (sym (ap (overdue config now) kept) ∙ over)) [
              | inl same ↦ absurd (
                  apart (
                    ap session_slot (same ∙ named.named i inside lives)
                    ∙ own_slot i (generation_at s i)
                        (omega (arith, inside, valid.bounded, named.small))))
              | inr rest ↦ subst (λ z. Listed (name_of z) ids) (sym kept) rest
            ]
      ])

close-AllListed :
    (config : Config) (now : ℕ) (m : Manager) (id : ℕ) (ids : List ℕ)
    → IsCounted m
    → AllListed config now m.store (id ∷ ids)
    → AllListed config now (close_and_remove m id timeout).store ids
close-AllListed config now m id ids counted all = elim (Option-cases (get m.store id)) [
  | inl gone ↦
      subst (λ t. AllListed config now t ids) (sym (close_none m id timeout gone))
        (λ i h alive over. elim (all i h alive over) [
          | inl same ↦ absurd (unlisted m.store id i counted.valid counted.named h alive gone same)
          | inr rest ↦ rest
        ])
  | inr (x, has) ↦
      subst (λ t. AllListed config now t ids) (sym (close_store m id timeout x has))
        (removed-AllListed config now m.store id ids x counted.valid counted.named has all)
]

close_all-AllListed :
    (config : Config) (now : ℕ) (ids : List ℕ) (m : Manager)
    → IsCounted m
    → AllListed config now m.store ids
    → AllListed config now (close_all m ids).store []
unfolding close_all
close_all-AllListed config now [] m counted all = all
close_all-AllListed config now (id ∷ ids) m counted all =
    close_all-AllListed config now ids (close_and_remove m id timeout)
      (close_and_remove-IsCounted m id timeout counted)
      (close-AllListed config now m id ids counted all)

-- After Tick no session is kept past its time: whatever an id gives then is neither an active session
-- whose last heartbeat is longer ago than the interval times the heartbeats that may be missed, nor a
-- suspended one that is longer without a connection than the grace. The manager is in order before.
pub tick-Retains :
    (m : Manager) (now id : ℕ) (x : Session)
    → IsCounted m
    → get (tick m now).store id ≡ some x
    → overdue m.config now x ≡ false
unfolding tick
tick-Retains m now id x counted has =
    let done = sweep_all m.config now m.store.slots (scan_of m) in
    let between = swept-IsCounted m now counted in
    let marks = sweep_all-AllMark m.config now m.store.slots (scan_of m) in
    let ends =
      close_all-AllListed m.config now done.1.scratch (swept m done) between
        (λ i h alive over. marks.0 i alive over) in
    let after = close_all-IsCounted done.1.scratch (swept m done) between in
    let loaded = get-Loaded (tick m now).store id x after.valid after.named has in
    let read = ap (overdue m.config now) loaded.at in
    elim (Bool-cases (overdue m.config now x)) [
      | inr on_time ↦ on_time
      | inl over ↦
          let none_left : true ≡ false =
            ends (session_slot id) loaded.there
              (ap (λ (z : Session). is_terminal z.state) loaded.at ∙ loaded.alive) (read ∙ over) in
          cc
    ]
