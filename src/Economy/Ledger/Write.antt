-- ===== src/Economy/Ledger/Write.antt =====
-- WriteOne and the loop of Flush: what they leave in the store, whether they fail or not.
use cami.Common.{
  ℕ, zero, suc, ◌+◌, ◌≡◌, refl, sym, ap, subst, ◌∙◌, inl, inr, List, [], ◌∷◌, ◌++◌, Bool, true,
  false, arith, take, append_nil, append_assoc, Bool-cases,
}
use cami.Common.Errors.{is_retryable, Result-cases}
use cami.Economy.Entry.{Hash256, LedgerEntry}
use cami.Economy.Store.{Store, append}
use cami.Economy.Store.Keys.{
  has_key, IsIndexed, Stored, is_ok, append-Stored, has_key-append_left, has_key-append_right,
  has_key-last,
}
use cami.Economy.Ledger.{Ledger, slot_at}
use cami.Economy.Ledger.Operations.{materialize, linked, Sink, write_attempts, write_one}
use cami.Economy.Ledger.Chain.{link, chain_end}

-- A failed write comes before another one without a trace.
Stored-after :
    (b : Bool) (s s' s2 : Store) (e : LedgerEntry)
    → s'.rows ≡ s.rows
    → Stored b s' e s2
    → Stored b s e s2
Stored-after false s s' s2 e same stored = stored ∙ same
Stored-after true s s' s2 e same (inl (old, keeps)) =
    inl (ap (has_key e.idempotency_key) (sym same) ∙ old, keeps ∙ same)
Stored-after true s s' s2 e same (inr (new, adds)) =
    inr (ap (has_key e.idempotency_key) (sym same) ∙ new, adds ∙ ap (λ r. r ++ (e ∷ [])) same)

write_attempts-Stored :
    (n : ℕ) (k : Sink) (e : LedgerEntry)
    → IsIndexed k.store
    → Stored (write_attempts n k e).1 k.store e (write_attempts n k e).0.store
      × IsIndexed (write_attempts n k e).0.store
unfolding write_attempts
write_attempts-Stored zero k e indexed = (refl, indexed)
write_attempts-Stored (suc n) k e indexed =
    let sound = append-Stored k.store e indexed in
    elim (Result-cases (append k.store e).1) [
      | inl (out, good) ↦
          rw (good, write_attempts)
            (subst (λ b. Stored b k.store e (append k.store e).0) (ap is_ok good) sound.0, sound.1)
      | inr (code, bad) ↦
          let same = subst (λ b. Stored b k.store e (append k.store e).0) (ap is_ok bad) sound.0 in
          elim (Bool-cases (is_retryable code)) [
            | inl again ↦
                let k2 : Sink = record {
                  store = (append k.store e).0;
                  stats = record k.stats { retries = k.stats.retries + 1 };
                } in
                let rest = write_attempts-Stored n k2 e sound.1 in
                rw (bad, again, write_attempts)
                  (
                    Stored-after (write_attempts n k2 e).1 k.store k2.store
                        (write_attempts n k2 e).0.store e same rest.0,
                    rest.1,
                  )
            | inr never ↦ rw (bad, never, write_attempts) (same, sound.1)
          ]
    ]

pub write_one-Stored :
    (max_retries : ℕ) (k : Sink) (e : LedgerEntry)
    → IsIndexed k.store
    → Stored (write_one max_retries k e).1 k.store e (write_one max_retries k e).0.store
      × IsIndexed (write_one max_retries k e).0.store
unfolding write_one
write_one-Stored max_retries k e indexed = write_attempts-Stored (max_retries + 1) k e indexed

-- The entries of the slots from the i-th on, n of them.
abbrev pub pending_from : ℕ → ℕ → Ledger → List LedgerEntry
pending_from zero i l = []
pending_from (suc n) i l = materialize l.arena (slot_at l i) ∷ pending_from n (suc i) l

-- No entry's key is among the rows before it.
abbrev pub IsFresh : List LedgerEntry → Hash256 → List LedgerEntry → Type 0
IsFresh rows running [] = Unit
IsFresh rows running (e ∷ es) =
    (has_key e.idempotency_key rows ≡ false)
    × IsFresh (rows ++ (linked running e ∷ [])) (linked running e).hash es

-- The rows are those before a batch and the first entries of the batch, linked.
abbrev pub IsPrefix : List LedgerEntry → Hash256 → List LedgerEntry → Store → Type 0
IsPrefix base running es s = (j : ℕ) × (s.rows ≡ base ++ take j (link running es))

-- A flush that ends well has stored the whole batch; one that fails, a part of it.
abbrev pub Progress :
    Bool → List LedgerEntry → Hash256 → List LedgerEntry → Hash256 → Store → Type 0
Progress true base running es last s =
    (s.rows ≡ base ++ link running es) × (last ≡ chain_end running (link running es))
Progress false base running es last s = IsPrefix base running es s

-- After one entry is in its place the rest goes on behind it.
pub Progress-next :
    (b : Bool) (base : List LedgerEntry) (running : Hash256) (e : LedgerEntry)
    (es : List LedgerEntry) (last : Hash256) (s : Store)
    → Progress b (base ++ (linked running e ∷ [])) (linked running e).hash es last s
    → Progress b base running (e ∷ es) last s
Progress-next true base running e es last s (rows, end) =
    (rows ∙ append_assoc base (linked running e ∷ []) (link (linked running e).hash es), end)
Progress-next false base running e es last s (j, rows) = (
  suc j,
  rows ∙ append_assoc base (linked running e ∷ []) (take j (link (linked running e).hash es)),
)

-- A write of the first entry that is left puts it in its place, if it was not there.
pub placed :
    (base : List LedgerEntry) (running : Hash256) (e : LedgerEntry) (es : List LedgerEntry)
    (s s' : Store)
    → has_key e.idempotency_key base ≡ false
    → IsPrefix base running (e ∷ es) s
    → Stored true s (linked running e) s'
    → IsPrefix (base ++ (linked running e ∷ [])) (linked running e).hash es s'
placed base running e es s s' new (zero, rows) (inl (old, keeps)) =
    absurd (ground (arith, new, old, ap (has_key e.idempotency_key) (rows ∙ append_nil base)))
placed base running e es s s' new (zero, rows) (inr (absent, adds)) = (
  0,
  adds
      ∙ ap (λ r. r ++ (linked running e ∷ [])) (rows ∙ append_nil base)
      ∙ sym (append_nil (base ++ (linked running e ∷ []))),
)
placed base running e es s s' new (suc j, rows) (inl (old, keeps)) = (
  j,
  keeps
      ∙ rows
      ∙ sym (append_assoc base (linked running e ∷ []) (take j (link (linked running e).hash es))),
)
placed base running e es s s' new (suc j, rows) (inr (absent, adds)) =
    let tail = take j (link (linked running e).hash es) in
    let there : has_key e.idempotency_key (base ++ (linked running e ∷ tail)) ≡ true =
      has_key-append_right e.idempotency_key base (linked running e ∷ tail) new
      ∙ has_key-append_left e.idempotency_key (linked running e ∷ []) tail
          (has_key-last e.idempotency_key [] (linked running e) refl) in
    absurd (ground (arith, absent, there, ap (has_key e.idempotency_key) rows))
