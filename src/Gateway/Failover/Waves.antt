-- ===== src/Gateway/Failover/Waves.antt =====
-- Drain: every session that waits is rebound once, in waves of bounded size.
use cami.Common.{
  ℕ, zero, suc, ◌+◌, ◌<◌, ◌≤◌, ◌≡◌, refl, sym, ap, subst, ◌∙◌, ◌≢◌, inl, inr, List, [], ◌∷◌, ◌++◌,
  Bool, arith, ◌==◌, length, take, drop, All, Bool-cases, take-drop, append_nil, append_assoc,
  length-take_le, length-drop_lt, length-append, nil_of_length,
}
use cami.Gateway.Failover.{
  Rebind, Coordinator, rebind, rebind_batch, wave, drain_loop, drain, reattach_players, enqueue,
}

abbrev pub sessions_of : List Rebind → List ℕ
sessions_of [] = []
sessions_of (r ∷ rs) = r.session ∷ sessions_of rs

-- The calls that were added are of these sessions in this order, each to one node and with no more
-- than so many in flight, and each was counted as reattached or as failed.
abbrev pub Served : ℕ → ℕ → Coordinator → List ℕ → Coordinator → Type 0
Served bound node c ss c' =
    (new : List Rebind) × (c'.calls ≡ c.calls ++ new)
    × (sessions_of new ≡ ss)
    × All (λ r. (r.node ≡ node) × (r.in_flight ≤ bound)) new
    × (c'.stats.reattached + c'.stats.failed ≡ c.stats.reattached + c.stats.failed + length ss)

sessions_of-append :
    (xs ys : List Rebind) → sessions_of (xs ++ ys) ≡ sessions_of xs ++ sessions_of ys
sessions_of-append [] ys = refl
sessions_of-append (x ∷ xs) ys = ap (λ r. x.session ∷ r) (sessions_of-append xs ys)

All-append : (P : Rebind → Type 0) (xs ys : List Rebind) → All P xs → All P ys → All P (xs ++ ys)
All-append P [] ys hx hy = hy
All-append P (x ∷ xs) ys hx hy = (hx.0, All-append P xs ys hx.1 hy)

Served-weaker :
    (low high node : ℕ) (c : Coordinator) (ss : List ℕ) (c' : Coordinator)
    → low ≤ high
    → Served low node c ss c'
    → Served high node c ss c'
Served-weaker low high node c ss c' h (new, calls, same, small, counts) =
    (new, calls, same, weaken new small, counts)
  where
    weaken :
        (rs : List Rebind)
        → All (λ r. (r.node ≡ node) × (r.in_flight ≤ low)) rs
        → All (λ r. (r.node ≡ node) × (r.in_flight ≤ high)) rs
    weaken [] small = tt
    weaken (r ∷ rs) ((at, few), rest) = ((at, omega arith), weaken rs rest)

Served-append :
    (bound node : ℕ) (c c' c2 : Coordinator) (xs ys : List ℕ)
    → Served bound node c xs c'
    → Served bound node c' ys c2
    → Served bound node c (xs ++ ys) c2
Served-append bound node c c' c2 xs ys (n1, calls1, same1, all1, counts1)
      (n2, calls2, same2, all2, counts2) =
    (
      n1 ++ n2,
      calls2 ∙ ap (λ r. r ++ n2) calls1 ∙ append_assoc c.calls n1 n2,
      sessions_of-append n1 n2 ∙ ap (λ r. r ++ sessions_of n2) same1 ∙ ap (λ r. xs ++ r) same2,
      All-append (λ r. (r.node ≡ node) × (r.in_flight ≤ bound)) n1 n2 all1 all2,
      omega (arith, counts1, counts2, length-append xs ys),
    )

shorter :
    (xs : List ℕ) (m n : ℕ) → length xs ≤ suc n → 0 < m → length xs ≢ 0 → length (drop m xs) ≤ n
shorter [] m n h some full = absurd (full refl)
shorter (x ∷ xs) m n h some full = omega (arith, length-drop_lt m x xs some)

-- What batches and waves leave alone.
abbrev Keeps : Coordinator → Coordinator → Type 0
Keeps c c' =
    (c'.queue ≡ c.queue)
    × (c'.in_flight ≡ c.in_flight)
    × (c'.current_to ≡ c.current_to)
    × (c'.max_concurrent ≡ c.max_concurrent)

module _ (rebinds : List Rebind → ℕ → ℕ → Bool) where
  rebind_counts :
      (c : Coordinator) (s : ℕ)
      → (rebind rebinds c s).stats.reattached + (rebind rebinds c s).stats.failed
        ≡ c.stats.reattached + c.stats.failed + 1
  unfolding rebind
  rebind_counts c s = elim (Bool-cases (rebinds c.calls s c.current_to)) [
    | inl good ↦ rw (good, rebind) (omega arith)
    | inr bad ↦ rw (bad, rebind) (omega arith)
  ]

  rebind_batch-Keeps : (c : Coordinator) (ss : List ℕ) → Keeps c (rebind_batch rebinds c ss)
  unfolding rebind_batch rebind
  rebind_batch-Keeps c [] = (refl, refl, refl, refl)
  rebind_batch-Keeps c (s ∷ ss) = rebind_batch-Keeps (rebind rebinds c s) ss

  rebind_batch-Served :
      (bound : ℕ) (c : Coordinator) (ss : List ℕ)
      → c.in_flight ≤ bound
      → Served bound c.current_to c ss (rebind_batch rebinds c ss)
  unfolding rebind_batch rebind
  rebind_batch-Served bound c [] h = ([], sym (append_nil c.calls), refl, tt, omega arith)
  rebind_batch-Served bound c (s ∷ ss) h =
      let call : Rebind = record { session = s; node = c.current_to; in_flight = c.in_flight } in
      let rest = rebind_batch-Served bound (rebind rebinds c s) ss h in
      (
        call ∷ rest.0,
        rest.1 ∙ append_assoc c.calls (call ∷ []) rest.0,
        ap (λ r. s ∷ r) rest.2,
        ((refl, h), rest.3),
        omega (arith, rest.4, rebind_counts c s),
      )

  wave-Served :
      (c : Coordinator)
      → Served
          (c.in_flight + length (take c.max_concurrent c.queue))
          c.current_to
          c
          (take c.max_concurrent c.queue)
          (wave rebinds c)
  unfolding wave
  wave-Served c =
      let batch : List ℕ = take c.max_concurrent c.queue in
      let started : Coordinator = record c {
        queue = drop c.max_concurrent c.queue;
        in_flight = c.in_flight + length batch;
      } in
      rebind_batch-Served (c.in_flight + length batch) started batch (omega arith)

  wave_leaves :
      (c : Coordinator)
      → ((wave rebinds c).queue ≡ drop c.max_concurrent c.queue)
        × ((wave rebinds c).in_flight ≡ c.in_flight)
        × ((wave rebinds c).current_to ≡ c.current_to)
        × ((wave rebinds c).max_concurrent ≡ c.max_concurrent)
  unfolding wave
  wave_leaves c =
      let batch : List ℕ = take c.max_concurrent c.queue in
      let started : Coordinator = record c {
        queue = drop c.max_concurrent c.queue;
        in_flight = c.in_flight + length batch;
      } in
      let kept = rebind_batch-Keeps started batch in (kept.0, omega (arith, kept.1), kept.2, kept.3)

  drain_loop-Served :
      (n : ℕ) (c : Coordinator)
      → length c.queue ≤ n
      → 0 < c.max_concurrent
      → Served (c.in_flight + c.max_concurrent) c.current_to c c.queue (drain_loop rebinds n c)
        × ((drain_loop rebinds n c).queue ≡ [])
        × ((drain_loop rebinds n c).in_flight ≡ c.in_flight)
  unfolding drain_loop
  drain_loop-Served zero c h some =
      let empty = nil_of_length c.queue (omega arith) in
      (([], sym (append_nil c.calls), sym empty, tt, omega (arith, ap length empty)), empty, refl)
  drain_loop-Served (suc n) c h some = elim (Bool-cases (length c.queue == 0)) [
    | inl idle ↦
        let empty = nil_of_length c.queue (ground (arith, idle)) in
        rw (idle, drain_loop)
          (
            ([], sym (append_nil c.calls), sym empty, tt, omega (arith, ap length empty)),
            empty,
            refl,
          )
    | inr busy ↦
        let next = wave rebinds c in
        let left = wave_leaves c in
        let batch = take c.max_concurrent c.queue in
        let fewer : length (drop c.max_concurrent c.queue) ≤ n =
          shorter c.queue c.max_concurrent n h some (ground (arith, busy)) in
        let rest =
          drain_loop-Served n next (omega (arith, ap length left.0, fewer))
            (omega (arith, left.3)) in
        let first =
          Served-weaker (c.in_flight + length batch) (c.in_flight + c.max_concurrent) c.current_to c
            batch next (omega (arith, length-take_le c.max_concurrent c.queue)) (wave-Served c) in
        let last = drain_loop rebinds n next in
        let second : Served (c.in_flight + c.max_concurrent) c.current_to next
            (drop c.max_concurrent c.queue) last =
          subst (λ q. Served (c.in_flight + c.max_concurrent) c.current_to next q last) left.0
            (subst (λ b. Served b c.current_to next next.queue last) (omega (arith, left.1, left.3))
              (subst (λ m. Served (next.in_flight + next.max_concurrent) m next next.queue last)
                left.2 rest.0)) in
        rw (busy, drain_loop)
          (
            subst (λ q. Served (c.in_flight + c.max_concurrent) c.current_to c q last)
                (take-drop c.max_concurrent c.queue)
                (Served-append (c.in_flight + c.max_concurrent) c.current_to c next last batch
                  (drop c.max_concurrent c.queue) first second),
            rest.1,
            rest.2 ∙ left.1,
          )
  ]

  -- ReattachPlayers, with a limit above zero and whatever the rebinder answers, calls Rebind once for
  -- every session that waits, those of the dead node included, to the new node, and never with more
  -- sessions in flight than before and the limit. Each call is counted as reattached or failed.
  -- Nothing waits at the end, and as many are in flight as before.
  pub reattach_players-Drains :
      (c : Coordinator) (sessions : List ℕ) (to : ℕ)
      → 0 < c.max_concurrent
      → Served
          (c.in_flight + c.max_concurrent)
          to
          c
          (enqueue sessions c.queue)
          (reattach_players rebinds c sessions to)
        × ((reattach_players rebinds c sessions to).queue ≡ [])
        × ((reattach_players rebinds c sessions to).in_flight ≡ c.in_flight)
  unfolding reattach_players drain
  reattach_players-Drains c sessions to some =
      let start : Coordinator = record c { current_to = to; queue = enqueue sessions c.queue } in
      drain_loop-Served (length start.queue) start (omega arith) some
