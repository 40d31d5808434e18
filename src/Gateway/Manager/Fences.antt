-- ===== src/Gateway/Manager/Fences.antt =====
-- SessionManager::Reattach: the version keeps out the connection that was replaced.
use cami.Common.{
  ℕ, ◌+◌, ◌-◌, ◌%◌, ◌^◌, ◌≡◌, ◌≢◌, ◌≤◌, ◌<◌, List, [], ◌∷◌, refl, sym, ap, subst, ◌∙◌, inl, inr,
  false, some, arith, ltb, ◌==◌, Bool-cases, Option-cases,
}
use cami.Common.Errors.{Result, ok, err, version_conflict}
use cami.Gateway.Session.{
  Session, SessionState, connecting, authenticating, active, suspended, closing, closed,
}
use cami.Gateway.Store.{put, get}
use cami.Gateway.Store.Names.{put-Written}
use cami.Gateway.Manager.{Manager, up}
use cami.Gateway.Manager.Calls.{nanoseconds, resumed, reattach_in, reattach, Call, step, run}
use cami.Gateway.Manager.Steady.{reattach-IsCounted}
use cami.Gateway.Manager.History.{step-IsCounted}
use cami.Gateway.Manager.Advances.{one_reattach, step-Advances}
use cami.Gateway.Manager.Counts.{IsCounted, loaded}

-- The session of the id that a successful Reattach with version v finds, and the one that it leaves.
abbrev pub Resumed : Manager → ℕ → ℕ → ℕ → Manager → Type 0
Resumed m id conn v u =
    (x : Session) × (get m.store id ≡ some x)
    × (x.version ≡ v)
    × (y : Session) × (get u.store id ≡ some y)
    × (y.version ≡ (v + 1) % 2 ^ 32)
    × (y.state ≡ active)
    × (y.conn_id ≡ conn)
    × (y.player_id ≡ x.player_id)

-- The answer to a version that is not the session's.
abbrev pub conflict : Manager → Manager × Result (Unit {0})
conflict m = (record m { rejected_reattach = up m.rejected_reattach }, err version_conflict)

-- The id gives a session after each of the calls.
abbrev pub Lives : Manager → ℕ → List Call → Type 0
Lives m id [] = Unit
Lives m id (c ∷ cs) = ((x : Session) × (get (step m c).store id ≡ some x)) × Lives (step m c) id cs

abbrev pub reattach_count : List Call → ℕ
reattach_count [] = 0
reattach_count (c ∷ cs) = one_reattach c + reattach_count cs

resumed-get :
    (m : Manager) (id later conn : ℕ) (x : Session)
    → IsCounted m
    → get m.store id ≡ some x
    → get (put m.store (resumed x later conn)).0 id ≡ some (resumed x later conn)
resumed-get m id later conn x counted has =
    (put-Written m.store id x (resumed x later conn) counted.valid counted.named
      (loaded m id x counted has) refl refl).1

reattach_in-Resumed :
    (st : SessionState) (m : Manager) (now later id conn : ℕ) (x : Session)
    → IsCounted m
    → get m.store id ≡ some x
    → (reattach_in st m now later conn x).1 ≡ ok tt
    → get (reattach_in st m now later conn x).0.store id ≡ some (resumed x later conn)
reattach_in-Resumed suspended m now later id conn x counted has done =
    elim (Bool-cases (ltb (nanoseconds m.config.suspend_grace) (now - x.last_heartbeat))) [
      | inl late ↦ absurd (ground (arith, late, done))
      | inr early ↦ rw early (resumed-get m id later conn x counted has)
    ]
reattach_in-Resumed active m now later id conn x counted has done =
    resumed-get m id later conn x counted has
reattach_in-Resumed connecting m now later id conn x counted has done = cc
reattach_in-Resumed authenticating m now later id conn x counted has done = cc
reattach_in-Resumed closing m now later id conn x counted has done = cc
reattach_in-Resumed closed m now later id conn x counted has done = cc

-- A version that is not the session's is refused, and only counted.
reattach-refuses :
    (u : Manager) (now later id other v : ℕ) (y : Session)
    → get u.store id ≡ some y
    → y.version ≢ v
    → reattach u now later id other v ≡ conflict u
unfolding reattach
reattach-refuses u now later id other v y has apart =
    let no : (y.version == v) ≡ false = ground (arith, apart) in rw (has, reattach) (rw no refl)

-- The session that the id gives has gone from version v by k steps, k at most n.
abbrev Behind : Manager → ℕ → ℕ → ℕ → Type 0
Behind m id v n =
    (x : Session) × (get m.store id ≡ some x) × (k : ℕ) × (k ≤ n) × (x.version ≡ (v + k) % 2 ^ 32)

step-Behind :
    (m : Manager) (c : Call) (id v n : ℕ) (z : Session)
    → IsCounted m
    → Behind m id v n
    → get (step m c).store id ≡ some z
    → (k : ℕ) × (k ≤ n + one_reattach c) × (z.version ≡ (v + k) % 2 ^ 32)
step-Behind m c id v n z counted (x, has, k, le, is) gives =
    elim (step-Advances m c counted id x z has gives) [
      | inl same ↦ (k, omega (arith, le), same ∙ is)
      | inr (one, next) ↦ (k + 1, omega (arith, le, one), omega (arith, next, is))
    ]

run-Behind :
    (cs : List Call) (m : Manager) (id v n : ℕ)
    → IsCounted m
    → Lives m id cs
    → Behind m id v n
    → Behind (run m cs) id v (n + reattach_count cs)
run-Behind [] m id v n counted lives (x, has, k, le, is) = (x, has, k, omega (arith, le), is)
run-Behind (c ∷ cs) m id v n counted ((z, gives), lives) behind =
    let (k, le, is) = step-Behind m c id v n z counted behind gives in
    let (w, later, j, bound, far) =
      run-Behind cs (step m c) id v (n + one_reattach c) (step-IsCounted m c counted) lives
        (z, gives, k, le, is) in
    (w, later, j, omega (arith, bound), far)

reattach-Resumed :
    (m : Manager) (now later id conn v : ℕ)
    → IsCounted m
    → (reattach m now later id conn v).1 ≡ ok tt
    → Resumed m id conn v (reattach m now later id conn v).0
unfolding reattach
reattach-Resumed m now later id conn v counted done = elim (Option-cases (get m.store id)) [
  | inl gone ↦ absurd (ground (arith, gone, done))
  | inr (x, has) ↦ elim (Bool-cases (x.version == v)) [
    | inr other ↦ absurd (ground (arith, has, other, done))
    | inl same ↦
        let is : x.version ≡ v = ground (arith, same) in
        let r = reattach_in x.state m now later conn x in
        let goes : reattach m now later id conn v ≡ r = rw (has, reattach) (rw same refl) in
        let y = resumed x later conn in
        let found =
          reattach_in-Resumed x.state m now later id conn x counted has
            (sym (ap (λ p. p.1) goes) ∙ done) in
        let next : y.version ≡ (v + 1) % 2 ^ 32 = ap (λ k. (k + 1) % 2 ^ 32) is in
        subst (λ (p : Manager × Result (Unit {0})). Resumed m id conn v p.0) (sym goes)
          (x, has, is, y, found, next, refl, refl, refl)
  ]
]

-- When Reattach with version v succeeds, the session had version v, and is now active on the new
-- connection with the version after v (modulo 2 ^ 32), for the same player. After any further calls
-- of the manager through which the session is kept, among them fewer than 2 ^ 32 - 1 of Reattach, a
-- Reattach of the session with version v, from whatever connection, is refused with VERSION_CONFLICT
-- and changes nothing but the count of such refusals. The manager is in order before.
pub reattach-Fenced :
    (m : Manager) (now later id conn v : ℕ) (cs : List Call) (now' later' other : ℕ)
    → IsCounted m
    → (reattach m now later id conn v).1 ≡ ok tt
    → Lives (reattach m now later id conn v).0 id cs
    → reattach_count cs + 1 < 2 ^ 32
    → let u = (reattach m now later id conn v).0 in
      let w = run u cs in Resumed m id conn v u × (reattach w now' later' id other v ≡ conflict w)
reattach-Fenced m now later id conn v cs now' later' other counted done lives few =
    let u = (reattach m now later id conn v).0 in
    let resumes = reattach-Resumed m now later id conn v counted done in
    let (_, _, _, y, found, next, _, _, _) = resumes in
    let (z, there, k, bound, far) =
      run-Behind cs u id (v + 1) 0 (reattach-IsCounted m now later id conn v counted) lives
        (y, found, 0, omega arith, omega (arith, next)) in
    (
      resumes,
      reattach-refuses (run u cs) now' later' id other v z there
          (λ e. omega (arith, far, bound, few, e)),
    )
