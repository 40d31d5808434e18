-- ===== src/Gateway/Failover.antt =====
-- server/gateway/src/resilience/failover_coordinator.cpp: class FailoverCoordinator. What the
-- rebinder answers is a parameter, which may depend on every call that was made of it before. The
-- back of queue_ is the head of the list. The duration is not modelled.
pub mod Waves
pub mod Queue
use cami.Common.{
  ℕ, zero, suc, ◌+◌, ◌-◌, List, [], ◌∷◌, ◌++◌, Bool, true, false, Option, none, some, ltb, ◌==◌,
  if◌then◌else◌, length, take, drop,
}

-- A call of Rebind, with the number of sessions in flight at that time.
pub record Rebind : Type 0 where
  pub session : ℕ
  pub node : ℕ
  pub in_flight : ℕ

pub record FailoverStats : Type 0 where
  pub detected : ℕ
  pub reattached : ℕ
  pub failed : ℕ

pub record Coordinator : Type 0 where
  pub max_concurrent : ℕ
  pub queue : List ℕ
  pub in_flight : ℕ
  pub current_to : ℕ
  pub stats : FailoverStats
  pub calls : List Rebind

-- The constructor.
abbrev pub init : ℕ → Coordinator
init max = record {
  max_concurrent = if ltb 0 max then max else 1;
  queue = [];
  in_flight = 0;
  current_to = 0;
  stats = record { detected = 0; reattached = 0; failed = 0 };
  calls = [];
}

abbrev pub contains : ℕ → List ℕ → Bool
contains s [] = false
contains s (x ∷ xs) = let rest = contains s xs in if x == s then true else rest

-- The loop of ReattachPlayers over the sessions of the node.
unfoldable pub enqueue : List ℕ → List ℕ → List ℕ
enqueue [] queue = queue
enqueue (s ∷ ss) queue = enqueue ss (if contains s queue then queue else s ∷ queue)

module _ (rebinds : List Rebind → ℕ → ℕ → Bool) where
  -- One turn of the loop over a batch.
  unfoldable pub rebind : Coordinator → ℕ → Coordinator
  rebind c s =
      let call : Rebind = record { session = s; node = c.current_to; in_flight = c.in_flight } in
      record c {
        calls = c.calls ++ (call ∷ []);
        stats =
            if rebinds c.calls s c.current_to
            then record c.stats { reattached = c.stats.reattached + 1 }
            else record c.stats { failed = c.stats.failed + 1 };
      }

  unfoldable pub rebind_batch : Coordinator → List ℕ → Coordinator
  rebind_batch c [] = c
  rebind_batch c (s ∷ ss) = rebind_batch (rebind c s) ss

  -- One wave of Drain.
  unfoldable pub wave : Coordinator → Coordinator
  wave c =
      let batch = take c.max_concurrent c.queue in
      let started = record c {
        queue = drop c.max_concurrent c.queue;
        in_flight = c.in_flight + length batch;
      } in
      let done = rebind_batch started batch in
      record done { in_flight = done.in_flight - length batch }

  -- The loop of Drain, on fuel: a wave takes a session at least.
  unfoldable pub drain_loop : ℕ → Coordinator → Coordinator
  drain_loop zero c = c
  drain_loop (suc n) c = elim (length c.queue == 0) [ true ↦ c | false ↦ drain_loop n (wave c) ]

  unfoldable pub drain : Coordinator → Coordinator
  drain c = drain_loop (length c.queue) c

  unfoldable pub reattach_players : Coordinator → List ℕ → ℕ → Coordinator
  reattach_players c sessions to =
      drain (record c { current_to = to; queue = enqueue sessions c.queue })

  -- OnNodeDead, on the node that FindReplacement gives, 0 if none, and the sessions of the dead node.
  unfoldable pub on_node_dead : Coordinator → ℕ → List ℕ → Coordinator
  on_node_dead c to sessions =
      let seen = record c { stats = record c.stats { detected = c.stats.detected + 1 } } in
      if to == 0 then seen else reattach_players seen sessions to
