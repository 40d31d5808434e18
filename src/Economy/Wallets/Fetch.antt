-- ===== src/Economy/Wallets/Fetch.antt =====
-- Fetch of class WalletTable, as a map from players to wallets.
use cami.Common.{
  get_or-append_front, get_or-append_at, ℕ, ◌+◌, ◌*◌, ◌<◌, ◌≡◌, refl, sym, ap, subst, ◌∙◌, ◌≢◌, ◌⊎◌,
  inl, inr, List, [], ◌∷◌, ◌++◌, false, none, some, arith, leb, ◌==◌, length, get_or, set,
  Bool-cases, length-set, length-append,
}
use native.Mathlib.Decide.{dec_lt}
use cami.Economy.Wallet.{empty_wallet}
use cami.Economy.Wallets.{
  WalletTable, mix, place_of, rehash, find, fetch_in, grown, fetch, put_wallet,
}
use cami.Economy.Wallets.Places.{Indexes, AreOwners, place_of-some, put-Indexes}
use cami.Economy.Wallets.Rehash.{IsTable, Stranger, Stranger-place, rehash-IsTable}
use cami.Economy.Wallets.Find.{room_of, owner_or_Stranger, find-owner, find-Stranger, find_same}

Stranger-append :
    (owners : List ℕ) (pid q : ℕ) → Stranger q owners → pid ≢ q → Stranger q (owners ++ pid ∷ [])
Stranger-append owners pid q stranger apart j h = elim (dec_lt j (length owners)) [
  | yes old ↦ λ e. stranger j old (sym (get_or-append_front owners (pid ∷ []) j 0 old) ∙ e)
  | no new ↦ λ e.
      let last : j ≡ length owners = omega (arith, length-append owners (pid ∷ [])) in
      apart (
        sym (get_or-append_at owners [] pid 0)
        ∙ ap (λ k. get_or (owners ++ pid ∷ []) k 0) (sym last)
        ∙ e)
]

append-AreOwners :
    (owners : List ℕ) (pid : ℕ)
    → AreOwners owners
    → pid ≢ 0
    → Stranger pid owners
    → AreOwners (owners ++ pid ∷ [])
append-AreOwners owners pid are real stranger =
    let longer = length-append owners (pid ∷ []) in
    let front = λ (j : ℕ) (h : j < length owners). get_or-append_front owners (pid ∷ []) j 0 h in
    let back = λ (j : ℕ) (e : j ≡ length owners).
      ap (λ k. get_or (owners ++ pid ∷ []) k 0) e ∙ get_or-append_at owners [] pid 0 in
    (record {
      real = λ j h z. elim (dec_lt j (length owners)) [
        | yes old ↦ are.real j old (sym (front j old) ∙ z)
        | no new ↦ real (sym (back j (omega (arith, longer, h))) ∙ z)
      ];
      apart = λ i j hi hj e. elim (dec_lt i (length owners)) [
        | yes i_old ↦ elim (dec_lt j (length owners)) [
          | yes j_old ↦ are.apart i j i_old j_old (sym (front i i_old) ∙ e ∙ front j j_old)
          | no new ↦
              absurd
                (stranger i i_old (sym (front i i_old) ∙ e ∙ back j (omega (arith, longer, hj))))
        ]
        | no i_new ↦ elim (dec_lt j (length owners)) [
          | yes j_old ↦
              absurd (
                stranger j j_old (sym (front j j_old) ∙ sym e ∙ back i (omega (arith, longer, hi))))
          | no j_new ↦ omega (arith, longer, hi, hj)
        ]
      ];
    })

-- What Fetch makes of a table: the player has a wallet, his own or a new empty one behind the
-- others, and nothing else changes for anyone.
pub record Fetched (t : WalletTable) (pid : ℕ) (u : WalletTable) (i : ℕ) : Type 0 where
  pub table : IsTable u
  pub found : find u pid ≡ some i
  pub within : i < length u.wallets
  pub others : (q : ℕ) → pid ≢ q → find u q ≡ find t q
  pub wallet :
      ((find t pid ≡ some i) × (u.wallets ≡ t.wallets))
      ⊎ ((find t pid ≡ none)
          × (i ≡ length t.wallets)
          × (u.wallets ≡ t.wallets ++ empty_wallet ∷ []))

-- Growing leaves room for one more.
grown_lem :
    (t : WalletTable)
    → IsTable t
    → IsTable (grown t)
      × ((grown t).owners ≡ t.owners)
      × ((grown t).wallets ≡ t.wallets)
      × (((grown t).used + 1) * 10 < length (grown t).keys * 7)
unfolding grown rehash
grown_lem t table = elim (Bool-cases (leb (length t.keys * 7) ((t.used + 1) * 10))) [
  | inl full ↦
      let again =
        rehash-IsTable t (length t.keys * 2) table.are table.stored table.counted
          (omega (arith, table.wide)) (omega (arith, table.room)) in
      rw full (again.0, refl, refl, omega (arith, again.1, table.room, table.wide))
  | inr fits ↦ rw fits (table, refl, refl, ground (arith, fits))
]

put-Fetched :
    (t : WalletTable) (pid place : ℕ)
    → IsTable t
    → (t.used + 1) * 10 < length t.keys * 7
    → pid ≢ 0
    → Stranger pid t.owners
    → place_of t.keys pid ≡ some place
    → (place < length t.keys) × (get_or t.keys place 0 ≡ 0)
    → Fetched t pid (put_wallet t pid place) (length t.wallets)
put-Fetched t pid place table room real stranger ends at =
    let u = put_wallet t pid place in
    let longer = length-append t.owners (pid ∷ []) in
    let more = length-append t.wallets (empty_wallet ∷ []) in
    let put : Indexes u.owners u.keys u.vals =
      subst (λ n. Indexes (t.owners ++ pid ∷ []) (set t.keys place pid) (set t.vals place n))
        (sym table.stored)
        (put-Indexes t.owners t.keys t.vals pid place table.indexes table.are real at.0 ends
          at.1) in
    let table' : IsTable u = record {
      indexes = put;
      are = append-AreOwners t.owners pid table.are real stranger;
      stored = omega (arith, more, longer, table.stored);
      counted = omega (arith, longer, table.counted);
      wide = omega (arith, length-set t.keys place pid, table.wide);
      room = omega (arith, length-set t.keys place pid, room);
    } in
    let others : (q : ℕ) → pid ≢ q → find u q ≡ find t q = λ q apart.
      elim (owner_or_Stranger t.owners q) [
        | inl (j, h, is) ↦
            find-owner u j q table' (omega (arith, longer, h))
              (get_or-append_front t.owners (pid ∷ []) j 0 h ∙ is)
            ∙ sym (find-owner t j q table h is)
        | inr other ↦
            find-Stranger u q table' (Stranger-append t.owners pid q other apart)
            ∙ sym (find-Stranger t q table other)
      ] in
    (record {
      table = table';
      found = find-owner u (length t.wallets) pid table' (omega (arith, longer, table.stored)) (
          ap (λ k. get_or (t.owners ++ pid ∷ []) k 0) table.stored
          ∙ get_or-append_at t.owners [] pid 0);
      within = omega (arith, more);
      others = others;
      wallet = inr (find-Stranger t pid table stranger, refl, refl);
    })

fetch_in-Fetched :
    (t : WalletTable) (pid : ℕ)
    → IsTable t
    → (t.used + 1) * 10 < length t.keys * 7
    → pid ≢ 0
    → Fetched t pid (fetch_in t pid).0 (fetch_in t pid).1
unfolding fetch_in
fetch_in-Fetched t pid table room real = elim (owner_or_Stranger t.owners pid) [
  | inl (j, h, is) ↦
      let r = table.indexes.reached j h in
      let ends : place_of t.keys pid ≡ some r.place = ap (place_of t.keys) (sym is) ∙ r.ends in
      let hers : get_or t.keys r.place 0 ≡ pid = r.key ∙ is in
      let held : (get_or t.keys r.place 0 == 0) ≡ false = ground (arith, hers, real) in
      rw (ends, fetch_in)
        (rw held (
          rw r.val (record {
            table = table;
            found = find-owner t j pid table h is;
            within = omega (arith, h, table.stored);
            others = λ q apart. refl;
            wallet = inl (find-owner t j pid table h is, refl);
          })))
  | inr stranger ↦
      let found = place_of-some t.keys pid (mix pid) (room_of t table) in
      let at =
        Stranger-place t.owners t.keys t.vals pid found.0 table.indexes stranger (room_of t table)
          found.1 in
      rw (found.1, fetch_in)
        (rw at.1 (put-Fetched t pid found.0 table room real stranger found.1 at))
]

-- Fetch of a player, in a table that Fetch has built, is the update of a map: Find then gives the
-- wallet that Fetch gave, which is the player's own if he had one and else a new empty one behind
-- the others; no other wallet is touched, and every other player is found as before, also when the
-- table was built again in twice the size. The table stays in order, so that Find and Fetch always
-- end.
pub fetch-Fetched :
    (t : WalletTable) (pid : ℕ)
    → IsTable t
    → pid ≢ 0
    → Fetched t pid (fetch t pid).0 (fetch t pid).1
unfolding fetch
fetch-Fetched t pid table real =
    let big = grown_lem t table in
    let f = fetch_in-Fetched (grown t) pid big.0 big.3 real in
    let same = λ (q : ℕ). find_same (grown t) t q big.0 table big.1 in
    rw (let no : (pid == 0) ≡ false = ground (arith, real) in no) (record {
      table = f.table;
      found = f.found;
      within = f.within;
      others = λ q apart. f.others q apart ∙ same q;
      wallet = elim (f.wallet) [
        | inl (had, kept) ↦ inl (sym (same pid) ∙ had, kept ∙ big.2)
        | inr (lacked, last, longer) ↦ inr (
          sym (same pid) ∙ lacked,
          last ∙ ap length big.2,
          longer ∙ ap (λ ws. ws ++ empty_wallet ∷ []) big.2,
        )
      ];
    })
