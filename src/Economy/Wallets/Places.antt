-- ===== src/Economy/Wallets/Places.antt =====
-- The open-addressing index of class WalletTable: where a player's place is, and what one more
-- player changes.
use cami.Common.{
  get_or-append_front, get_or-append_at, ℕ, zero, suc, ◌+◌, ◌%◌, ◌<◌, ◌≡◌, sym, ap, subst, ◌∙◌, ◌≢◌,
  ◌⊎◌, inl, inr, List, [], ◌∷◌, ◌++◌, Option, some, arith, ◌==◌, length, get_or, set, Bool-cases,
  Option-cases, length-set, length-append, get_or-set_self, get_or-set_ne, sum_by-set,
}
use native.Mathlib.Nat.{mod-lt}
use native.Mathlib.Decide.{ℕ_discrete, dec_lt}
use cami.Economy.Ledger.{probe}
use cami.Economy.Ledger.Table.{
  load, occupied, probe-none, every_place, empty_place, probe_kept, probe_filled,
}
use cami.Economy.Wallets.{mix, place_of}

-- Player j of the owners has a place where his probing ends.
pub record Reached (owners keys vals : List ℕ) (j : ℕ) : Type 0 where
  pub place : ℕ
  pub there : place < length keys
  pub ends : place_of keys (get_or owners j 0) ≡ some place
  pub key : get_or keys place 0 ≡ get_or owners j 0
  pub val : get_or vals place 0 ≡ j

-- A place is empty, or belongs to the owner that it names.
abbrev pub Owned : List ℕ → List ℕ → List ℕ → ℕ → Type 0
Owned owners keys vals i =
    (get_or keys i 0 ≡ 0)
    ⊎ ((get_or vals i 0 < length owners) × (get_or owners (get_or vals i 0) 0 ≡ get_or keys i 0))

pub record Indexes (owners keys vals : List ℕ) : Type 0 where
  pub paired : length vals ≡ length keys
  pub reached : (j : ℕ) → j < length owners → Reached owners keys vals j
  pub owned : (i : ℕ) → i < length keys → Owned owners keys vals i
  pub loaded : load keys ≡ length owners

-- No owner is player 0 or stands twice.
pub record AreOwners (owners : List ℕ) : Type 0 where
  pub real : (j : ℕ) → j < length owners → get_or owners j 0 ≢ 0
  pub apart :
      (i j : ℕ)
      → i < length owners
      → j < length owners
      → get_or owners i 0 ≡ get_or owners j 0
      → i ≡ j

-- Probing ends in a table that is not full.
pub place_of-some :
    (keys : List ℕ) (pid start : ℕ)
    → load keys < length keys
    → (i : ℕ) × (probe (length keys) keys (start % length keys) pid ≡ some i)
place_of-some keys pid start room =
    let begin : start % length keys < length keys = mod-lt start (omega arith) in
    elim (Option-cases (probe (length keys) keys (start % length keys) pid)) [
      | inr found ↦ found
      | inl lost ↦
          let free = empty_place keys room in
          let turn = every_place (length keys) (start % length keys) free.0 begin free.1 in
          absurd (
            probe-none (length keys) keys (start % length keys) pid lost turn.0 turn.1 begin
              (ap (λ j. get_or keys j 0) turn.2 ∙ free.2))
    ]

-- Looking for an empty place ends where looking for a player ends that has none.
pub probe_empty :
    (n : ℕ) (keys : List ℕ) (i pid j : ℕ)
    → get_or keys j 0 ≡ 0
    → pid ≢ 0
    → probe n keys i pid ≡ some j
    → probe n keys i 0 ≡ some j
unfolding probe
probe_empty zero keys i pid j free real e = cc
probe_empty (suc n) keys i pid j free real e = elim (Bool-cases (get_or keys i 0 == 0)) [
  | inl empty ↦ ground (arith, empty)
  | inr full ↦ elim (Bool-cases (get_or keys i 0 == pid)) [
    | inl hit ↦
        let at : i ≡ j = ground (arith, full, hit) in
        absurd (ground (arith, full, ap (λ m. get_or keys m 0) at, free))
    | inr other ↦ ground (
      arith,
      full,
      other,
      probe_empty n keys ((i + 1) % length keys) pid j free real (ground (arith, full, other)),
    )
  ]
]

abbrev place_in : List ℕ → ℕ → ℕ → Option ℕ
place_in keys pid len = probe len keys (mix pid % len) pid

place_of-set :
    (keys : List ℕ) (p x pid : ℕ)
    → place_of (set keys p x) pid ≡ place_in (set keys p x) pid (length keys)
place_of-set keys p x pid = ap (place_in (set keys p x) pid) (length-set keys p x)

-- One more player, put into the empty place that his probing ends at.
module _ (owners keys vals : List ℕ) (pid place : ℕ) (indexes : Indexes owners keys vals)
    (are : AreOwners owners) (real : pid ≢ 0) (there : place < length keys)
    (ends : place_of keys pid ≡ some place) (free : get_or keys place 0 ≡ 0) where
  more : List ℕ
  more = owners ++ pid ∷ []

  more_keys : List ℕ
  more_keys = set keys place pid

  more_vals : List ℕ
  more_vals = set vals place (length owners)

  more_there : place < length more_keys
  unfolding more_keys
  more_there = omega (arith, length-set keys place pid)

  Reached-old : (j : ℕ) → j < length owners → Reached more more_keys more_vals j
  unfolding more more_keys more_vals
  Reached-old j old =
      let r = indexes.reached j old in
      let same = get_or-append_front owners (pid ∷ []) j 0 old in
      let held : get_or keys r.place 0 ≢ 0 = λ z. are.real j old (sym r.key ∙ z) in
      let apart : place ≢ r.place = λ e. held (ap (λ i. get_or keys i 0) (sym e) ∙ free) in
      let start = mix (get_or owners j 0) % length keys in
      (record {
        place = r.place;
        there = omega (arith, length-set keys place pid, r.there);
        ends =
            ap (place_of (set keys place pid)) same
            ∙ place_of-set keys place pid (get_or owners j 0)
            ∙ probe_kept (length keys) keys start (get_or owners j 0) r.place place pid free held
                r.ends;
        key = get_or-set_ne keys place r.place pid 0 apart ∙ r.key ∙ sym same;
        val = get_or-set_ne vals place r.place (length owners) 0 apart ∙ r.val;
      })

  Reached-new : Reached more more_keys more_vals (length owners)
  unfolding more more_keys more_vals
  Reached-new =
      let last = get_or-append_at owners [] pid 0 in
      let start = mix pid % length keys in
      (record {
        place = place;
        there = omega (arith, length-set keys place pid, there);
        ends =
            ap (place_of (set keys place pid)) last
            ∙ place_of-set keys place pid pid
            ∙ probe_filled (length keys) keys start pid place (mod-lt (mix pid) (omega arith)) free
                real ends;
        key = get_or-set_self keys place pid 0 there ∙ sym last;
        val = get_or-set_self vals place (length owners) 0 (omega (arith, indexes.paired, there));
      })

  Owned-more : (i : ℕ) → i < length keys → Owned more more_keys more_vals i
  unfolding more more_keys more_vals
  Owned-more i small = elim (ℕ_discrete place i) [
    | yes e ↦
        let val =
          get_or-set_self vals place (length owners) 0 (omega (arith, indexes.paired, there)) in
        subst (Owned (owners ++ pid ∷ []) (set keys place pid) (set vals place (length owners))) e (
          inr (
            omega (arith, val, length-append owners (pid ∷ [])),
            ap (λ j. get_or (owners ++ pid ∷ []) j 0) val
                ∙ get_or-append_at owners [] pid 0
                ∙ sym (get_or-set_self keys place pid 0 there),
          ))
    | no apart ↦
        let key = get_or-set_ne keys place i pid 0 apart in
        let val = get_or-set_ne vals place i (length owners) 0 apart in
        elim (indexes.owned i small) [
          | inl empty ↦ inl (key ∙ empty)
          | inr (low, whose) ↦ inr (
            omega (arith, val, low, length-append owners (pid ∷ [])),
            ap (λ j. get_or (owners ++ pid ∷ []) j 0) val
                ∙ get_or-append_front owners (pid ∷ []) (get_or vals i 0) 0 low
                ∙ whose
                ∙ sym key,
          )
        ]
  ]

  pub put-Indexes :
      Indexes (owners ++ pid ∷ []) (set keys place pid) (set vals place (length owners))
  unfolding more more_keys more_vals
  put-Indexes = record {
    paired =
        length-set vals place (length owners) ∙ indexes.paired ∙ sym (length-set keys place pid);
    reached = λ j small. elim (dec_lt j (length owners)) [
      | yes old ↦ Reached-old j old
      | no new ↦
          let last : length owners ≡ j = omega (arith, length-append owners (pid ∷ [])) in
          subst (Reached (owners ++ pid ∷ []) (set keys place pid) (set vals place (length owners)))
            last Reached-new
    ];
    owned = λ i small. Owned-more i (omega (arith, length-set keys place pid));
    loaded = ground (
      arith,
      sum_by-set occupied keys place pid 0 there,
      free,
      indexes.loaded,
      length-append owners (pid ∷ []),
    );
  }
