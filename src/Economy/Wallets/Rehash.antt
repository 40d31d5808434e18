-- ===== src/Economy/Wallets/Rehash.antt =====
-- Rehash of class WalletTable: the index of all owners is built again.
use cami.Common.{
  get_or-append_front, get_or-append_at, ℕ, zero, suc, ◌+◌, ◌*◌, ◌%◌, ◌<◌, ◌≤◌, ◌≡◌, refl, sym,
  subst, ◌∙◌, ◌≢◌, inl, inr, List, [], ◌∷◌, ◌++◌, some, arith, length, get_or, replicate,
  length-set, length-append, append_assoc, append_nil, get_or-replicate, length-replicate,
}
use native.Mathlib.Nat.{mod-lt}
use cami.Economy.Ledger.Table.{load, probe_place}
use cami.Economy.Wallets.{
  WalletTable, Index, mix, place_of, index_owner, index_owners, rehash, init,
}
use cami.Economy.Wallets.Places.{Indexes, AreOwners, place_of-some, probe_empty, put-Indexes}

abbrev pub Stranger : ℕ → List ℕ → Type 0
Stranger pid owners = (j : ℕ) → j < length owners → get_or owners j 0 ≢ pid

-- The place of a player without a wallet is empty.
pub Stranger-place :
    (owners keys vals : List ℕ) (pid place : ℕ)
    → Indexes owners keys vals
    → Stranger pid owners
    → load keys < length keys
    → place_of keys pid ≡ some place
    → (place < length keys) × (get_or keys place 0 ≡ 0)
Stranger-place owners keys vals pid place indexes stranger room ends =
    let at =
      probe_place (length keys) keys (mix pid % length keys) pid place
        (mod-lt (mix pid) (omega arith)) ends in
    (
      at.0,
      elim (at.1) [
        | inl empty ↦ empty
        | inr hers ↦ elim (indexes.owned place at.0) [
          | inl empty ↦ empty
          | inr (low, whose) ↦ absurd (stranger (get_or vals place 0) low (whose ∙ hers))
        ]
      ],
    )

-- One turn of Rehash.
index_owner-Indexes :
    (done : List ℕ) (t : Index) (pid : ℕ)
    → Indexes done t.keys t.vals
    → AreOwners done
    → pid ≢ 0
    → Stranger pid done
    → length done < length t.keys
    → Indexes
        (done ++ pid ∷ [])
        (index_owner t pid (length done)).keys
        (index_owner t pid (length done)).vals
      × (length (index_owner t pid (length done)).keys ≡ length t.keys)
unfolding index_owner
index_owner-Indexes done t pid indexes are real stranger room =
    let full : load t.keys < length t.keys = omega (arith, indexes.loaded) in
    let found = place_of-some t.keys pid (mix pid) full in
    let at = Stranger-place done t.keys t.vals pid found.0 indexes stranger full found.1 in
    rw
      (
        probe_empty (length t.keys) t.keys (mix pid % length t.keys) pid found.0 at.1 real found.1,
        index_owner,
      )
      (
        put-Indexes done t.keys t.vals pid found.0 indexes are real at.0 found.1 at.1,
        length-set t.keys found.0 pid,
      )

front-AreOwners : (done rest : List ℕ) → AreOwners (done ++ rest) → AreOwners done
front-AreOwners done rest are =
    let longer = length-append done rest in
    let same = λ (i : ℕ) (h : i < length done). get_or-append_front done rest i 0 h in
    (record {
      real = λ j h z. are.real j (omega (arith, longer)) (same j h ∙ z);
      apart = λ i j hi hj e.
          are.apart i j (omega (arith, longer)) (omega (arith, longer))
            (same i hi ∙ e ∙ sym (same j hj));
    })

next-Stranger :
    (done rest : List ℕ) (pid : ℕ) → AreOwners (done ++ pid ∷ rest) → (pid ≢ 0) × Stranger pid done
next-Stranger done rest pid are =
    let longer = length-append done (pid ∷ rest) in
    let at = get_or-append_at done rest pid 0 in
    (
      (λ z. are.real (length done) (omega (arith, longer)) (at ∙ z)),
      (λ j h e.
          let same = get_or-append_front done (pid ∷ rest) j 0 h in
          let both =
            are.apart j (length done) (omega (arith, longer)) (omega (arith, longer))
              (same ∙ e ∙ sym at) in
          absurd (omega (arith, both, h))),
    )

-- The loop of Rehash.
index_owners-Indexes :
    (done rest : List ℕ) (t : Index)
    → Indexes done t.keys t.vals
    → AreOwners (done ++ rest)
    → length done + length rest < length t.keys
    → Indexes
        (done ++ rest)
        (index_owners t (length done) rest).keys
        (index_owners t (length done) rest).vals
      × (length (index_owners t (length done) rest).keys ≡ length t.keys)
unfolding index_owners
index_owners-Indexes done [] t indexes are room =
    (subst (λ os. Indexes os t.keys t.vals) (sym (append_nil done)) indexes, refl)
index_owners-Indexes done (pid ∷ rest) t indexes are room =
    let next = next-Stranger done rest pid are in
    let one =
      index_owner-Indexes done t pid indexes (front-AreOwners done (pid ∷ rest) are) next.0 next.1
        (omega arith) in
    let t' = index_owner t pid (length done) in
    let assoc : (done ++ pid ∷ []) ++ rest ≡ done ++ pid ∷ rest =
      append_assoc done (pid ∷ []) rest in
    let n : length (done ++ pid ∷ []) ≡ length done + 1 = length-append done (pid ∷ []) in
    let all =
      index_owners-Indexes (done ++ pid ∷ []) rest t' one.0 (subst AreOwners (sym assoc) are)
        (omega (arith, n, one.1)) in
    let shape : List ℕ → ℕ → Type 0 = λ os k.
      Indexes os (index_owners t' k rest).keys (index_owners t' k rest).vals
      × (length (index_owners t' k rest).keys ≡ length t.keys) in
    subst (λ k. shape (done ++ pid ∷ rest) k) n
      (subst (λ os. shape os (length (done ++ pid ∷ []))) assoc (all.0, all.1 ∙ one.1))

load-replicate : (n : ℕ) → load (replicate n 0) ≡ 0
load-replicate zero = refl
load-replicate (suc n) = omega (arith, load-replicate n)

empty-Indexes : (cap : ℕ) → Indexes [] (replicate cap 0) (replicate cap 0)
empty-Indexes cap = record {
  paired = refl;
  reached = λ j h. absurd (omega (arith, h));
  owned = λ i h. inl (get_or-replicate cap i 0);
  loaded = load-replicate cap;
}

pub record IsTable (t : WalletTable) : Type 0 where
  pub indexes : Indexes t.owners t.keys t.vals
  pub are : AreOwners t.owners
  pub stored : length t.wallets ≡ length t.owners
  pub counted : t.used ≡ length t.owners
  pub wide : 1024 ≤ length t.keys
  pub room : t.used * 10 < length t.keys * 7

pub rehash-IsTable :
    (t : WalletTable) (cap : ℕ)
    → AreOwners t.owners
    → length t.wallets ≡ length t.owners
    → t.used ≡ length t.owners
    → 1024 ≤ cap
    → t.used * 10 < cap * 7
    → IsTable (rehash t cap) × (length (rehash t cap).keys ≡ cap)
unfolding rehash
rehash-IsTable t cap are stored counted wide room =
    let fresh : Index = record { keys = replicate cap 0; vals = replicate cap 0 } in
    let n : length (replicate cap 0) ≡ cap = length-replicate cap 0 in
    let all = index_owners-Indexes [] t.owners fresh (empty-Indexes cap) are (omega (arith, n)) in
    let len = all.1 ∙ n in
    (
      record {
        indexes = all.0;
        are = are;
        stored = stored;
        counted = counted;
        wide = omega (arith, len);
        room = omega (arith, len);
      },
      len,
    )

pub init-IsTable : IsTable init
unfolding init
init-IsTable =
    (rehash-IsTable (record { wallets = []; owners = []; keys = []; vals = []; used = 0 }) 1024
      (record {
        real = λ j h. absurd (omega (arith, h));
        apart = λ i j h. absurd (omega (arith, h));
      })
      refl refl (omega arith) (omega arith)).0
