-- ===== src/Gateway/Manager/Versions.antt =====
-- SessionManager: each call leaves the version of a session alone, but for Reattach, which moves it on.
use cami.Common.{
  ℕ, zero, suc, ◌≡◌, refl, sym, ap, subst, ◌∙◌, ◌⊎◌, inl, inr, List, [], ◌∷◌, Option, none, some,
  arith, Option-cases, get_or,
}
use cami.Gateway.Session.{Session, empty_session, is_terminal, session_slot}
use cami.Gateway.Store.{SessionStore, slot_at, put, get}
use cami.Gateway.Store.Lasting.{get-Holds, Holds-get, own-get, put-PutGives, remove-gives}
use cami.Gateway.Manager.{Manager, Config, CloseReason, timeout, close_and_remove}
use cami.Gateway.Manager.Calls.{Scan, sweep_all, close_all, swept, scan_of, tick}
use cami.Gateway.Manager.Counts.{IsCounted, close_and_remove-IsCounted}
use cami.Gateway.Manager.Sweep.{
  turn, sweep_all-AllAlike, AllAlike-get, AllAlike-length, swept-IsCounted,
}
use cami.Gateway.Manager.Retention.{close_store, close_none}

abbrev pub version_of : Session → ℕ
version_of s = s.version

-- Every session that is found afterwards was found before, with the same version.
abbrev pub KeepsVersions : SessionStore → SessionStore → Type 0
KeepsVersions s t =
    (id : ℕ) (z : Session)
    → get t id ≡ some z
    → (x : Session) × (get s id ≡ some x) × (z.version ≡ x.version)

pub same-KeepsVersions : (s : SessionStore) → KeepsVersions s s
same-KeepsVersions s id z has = (z, has, refl)

pub KeepsVersions-then :
    (s t u : SessionStore) → KeepsVersions s t → KeepsVersions t u → KeepsVersions s u
KeepsVersions-then s t u first later id z has =
    let (y, found, same) = later id z has in
    let (x, before, alike) = first id y found in (x, before, same ∙ alike)

-- Two sessions that one id gives are one.
pub one_session :
    (s : SessionStore) (id : ℕ) (x y : Session)
    → get s id ≡ some x
    → get s id ≡ some y
    → x.version ≡ y.version
one_session s id x y hx hy =
    let both : some x ≡ some y = sym hx ∙ hy in ap (λ (o : Option Session). version_in o) both
  where
    version_in : Option Session → ℕ
    version_in none = 0
    version_in (some z) = z.version

-- A session is saved in place of the one that was found under its id.
pub put-found :
    (m : Manager) (found : ℕ) (x y : Session)
    → IsCounted m
    → get m.store found ≡ some x
    → y.session_id ≡ x.session_id
    → (id : ℕ) (z : Session) → get (put m.store y).0 id ≡ some z
    → (get m.store id ≡ some z)
      ⊎ ((z ≡ y) × (w : Session) × (get m.store id ≡ some w) × (w.version ≡ x.version))
put-found m found x y counted has same id z gives = elim (put-PutGives m.store y id z gives) [
  | inl before ↦ inl before
  | inr (is, w, at, own) ↦
      let here = own-get m.store found x counted.valid counted.named has in
      inr (is, w, at, one_session m.store x.session_id w x (sym (ap (get m.store) same) ∙ own) here)
]

pub put-KeepsVersions :
    (m : Manager) (found : ℕ) (x y : Session)
    → IsCounted m
    → get m.store found ≡ some x
    → y.session_id ≡ x.session_id
    → y.version ≡ x.version
    → KeepsVersions m.store (put m.store y).0
put-KeepsVersions m found x y counted has same version id z gives =
    elim (put-found m found x y counted has same id z gives) [
      | inl before ↦ (z, before, refl)
      | inr (is, w, at, alike) ↦ (w, at, ap version_of is ∙ version ∙ sym alike)
    ]

pub close_and_remove-KeepsVersions :
    (m : Manager) (id : ℕ) (reason : CloseReason)
    → IsCounted m
    → KeepsVersions m.store (close_and_remove m id reason).store
close_and_remove-KeepsVersions m id reason counted = elim (Option-cases (get m.store id)) [
  | inl gone ↦
      subst (KeepsVersions m.store) (sym (close_none m id reason gone)) (same-KeepsVersions m.store)
  | inr (x, has) ↦
      subst (KeepsVersions m.store) (sym (close_store m id reason x has))
        (λ other z gives. (z, remove-gives m.store id other z counted.valid gives, refl))
]

close_all-KeepsVersions :
    (ids : List ℕ) (m : Manager) → IsCounted m → KeepsVersions m.store (close_all m ids).store
unfolding close_all
close_all-KeepsVersions [] m counted = same-KeepsVersions m.store
close_all-KeepsVersions (id ∷ ids) m counted =
    let u = close_and_remove m id timeout in
    KeepsVersions-then m.store u.store (close_all u ids).store
      (close_and_remove-KeepsVersions m id timeout counted)
      (close_all-KeepsVersions ids u (close_and_remove-IsCounted m id timeout counted))

sweep_version :
    (config : Config) (now : ℕ) (s : Session) (a : Scan)
    → version_of (turn config now s a).0 ≡ s.version
sweep_version config now s a = ground arith

swept_version :
    (config : Config) (now : ℕ) (ss : List Session) (a : Scan) (i : ℕ)
    → version_of (get_or (sweep_all config now ss a).0 i empty_session)
      ≡ version_of (get_or ss i empty_session)
unfolding sweep_all
swept_version config now [] a i = refl
swept_version config now (s ∷ ss) a zero = sweep_version config now s a
swept_version config now (s ∷ ss) a (suc i) = swept_version config now ss (turn config now s a).1 i

swept-KeepsVersions :
    (m : Manager) (now : ℕ)
    → KeepsVersions m.store (swept m (sweep_all m.config now m.store.slots (scan_of m))).store
swept-KeepsVersions m now id z has =
    let i = session_slot id in
    let r = sweep_all m.config now m.store.slots (scan_of m) in
    let all = sweep_all-AllAlike m.config now m.store.slots (scan_of m) in
    let held = get-Holds (swept m r).store id z has in
    let alike = AllAlike-get m.store.slots r.0 i all in
    let lives = ap (λ (y : Session). is_terminal y.state) held.at ∙ held.alive in
    (
      slot_at m.store i,
      Holds-get m.store id (slot_at m.store i) (record {
        there = omega (arith, held.there, AllAlike-length m.store.slots r.0 all);
        generation = held.generation;
        at = refl;
        alive = sym alike.0 ∙ lives;
      }),
      sym (ap version_of held.at) ∙ swept_version m.config now m.store.slots (scan_of m) i,
    )

pub tick-KeepsVersions :
    (m : Manager) (now : ℕ) → IsCounted m → KeepsVersions m.store (tick m now).store
unfolding tick
tick-KeepsVersions m now counted =
    let r = sweep_all m.config now m.store.slots (scan_of m) in
    KeepsVersions-then m.store (swept m r).store (tick m now).store (swept-KeepsVersions m now)
      (close_all-KeepsVersions r.1.scratch (swept m r) (swept-IsCounted m now counted))
