-- ===== src/Economy/Entry/Distinct.antt =====
-- The string that ComputeEntryHash hashes, read back field by field.
use cami.Common.{
  ◌^◌, ◌<◌, ◌≡◌, refl, sym, ap, ◌∙◌, List, [], ◌∷◌, ◌++◌, arith, length, append_assoc, append_nil,
  ◌≢◌, All,
}
use cami.Common.Bytes.{Bytes}
use cami.Economy.Sha256.{big_endian, of}
use cami.Economy.Entry.{ItemDelta, Hash256, LedgerEntry, unsigned_64, compute_entry_hash}
use cami.Economy.Entry.Canonical.{text, item_bytes, canonical}
use cami.Economy.Entry.Encoding.{compute_entry_hash-canonical}
use cami.Economy.Entry.Fields.{front, number_field, text_field, IsInt64, signed_field}

item_flat :
    (d : ItemDelta) (ds : List ItemDelta)
    → item_bytes (d ∷ ds)
      ≡ big_endian 8 d.def_id
        ++ big_endian 8 (unsigned_64 d.count)
        ++ big_endian 8 d.guid
        ++ item_bytes ds
item_flat d ds =
    let a = big_endian 8 d.def_id in
    let b = big_endian 8 (unsigned_64 d.count) in
    let c = big_endian 8 d.guid in
    append_assoc a (b ++ c) (item_bytes ds) ∙ ap (λ r. a ++ r) (append_assoc b c (item_bytes ds))

item_same : (d y : ItemDelta) → d.def_id ≡ y.def_id → d.count ≡ y.count → d.guid ≡ y.guid → d ≡ y
item_same d y same_id same_count same_guid =
    ap {B = ItemDelta} (λ i. record { def_id = i; count = d.count; guid = d.guid }) same_id
    ∙ ap {B = ItemDelta} (λ n. record { def_id = y.def_id; count = n; guid = d.guid }) same_count
    ∙ ap {B = ItemDelta} (λ g. record { def_id = y.def_id; count = y.count; guid = g }) same_guid

-- The items, each of whose fields has a fixed width.
abbrev pub IsItem : ItemDelta → Type 0
IsItem d = (d.def_id < 2 ^ 64) × IsInt64 d.count × (d.guid < 2 ^ 64)

item_bytes_injective :
    (ds es : List ItemDelta)
    → length ds ≡ length es
    → All IsItem ds
    → All IsItem es
    → item_bytes ds ≡ item_bytes es
    → ds ≡ es
item_bytes_injective [] [] len hd he e = refl
item_bytes_injective [] (y ∷ es) len hd he e = absurd (omega (arith, len))
item_bytes_injective (d ∷ ds) [] len hd he e = absurd (omega (arith, len))
item_bytes_injective (d ∷ ds) (y ∷ es) len (hd, hds) (he, hes) e =
    let flat = sym (item_flat d ds) ∙ e ∙ item_flat y es in
    let def_ids = number_field 8 d.def_id y.def_id _ _ hd.0 he.0 flat in
    let counts = signed_field d.count y.count _ _ hd.1 he.1 def_ids.1 in
    let guids = number_field 8 d.guid y.guid _ _ hd.2 he.2 counts.1 in
    let rest = item_bytes_injective ds es (omega (arith, len)) hds hes guids.1 in
    let same : d ≡ y = item_same d y def_ids.0 counts.0 guids.0 in
    ap (λ z. z ∷ ds) same ∙ ap (λ zs. y ∷ zs) rest

-- The values that the fields' types hold, and texts and items that 32 bits count.
pub record IsSized (e : LedgerEntry) : Type 0 where
  pub transaction : e.transaction_id < 2 ^ 64
  pub request : e.request_id < 2 ^ 64
  pub key : length e.idempotency_key < 2 ^ 32
  pub player_id : e.player < 2 ^ 64
  pub peer_id : e.peer < 2 ^ 64
  pub operation : e.op < 2 ^ 8
  pub money : e.currency < 2 ^ 32
  pub change : IsInt64 e.delta
  pub balance : IsInt64 e.balance_after
  pub schema : e.version < 2 ^ 32
  pub time : IsInt64 e.timestamp_ms
  pub why : length e.reason < 2 ^ 32
  pub whence : length e.source < 2 ^ 32
  pub few_items : length e.item_deltas < 2 ^ 32
  pub items : All IsItem e.item_deltas

-- The two entries agree in every field but the two hashes.
abbrev pub SameFields : LedgerEntry → LedgerEntry → Type 0
SameFields e f =
    (e.transaction_id ≡ f.transaction_id)
    × (e.request_id ≡ f.request_id)
    × (e.idempotency_key ≡ f.idempotency_key)
    × (e.player ≡ f.player)
    × (e.peer ≡ f.peer)
    × (e.op ≡ f.op)
    × (e.currency ≡ f.currency)
    × (e.delta ≡ f.delta)
    × (e.balance_after ≡ f.balance_after)
    × (e.version ≡ f.version)
    × (e.timestamp_ms ≡ f.timestamp_ms)
    × (e.reason ≡ f.reason)
    × (e.source ≡ f.source)
    × (e.item_deltas ≡ f.item_deltas)

-- The fields as a list of strings.
abbrev fields : LedgerEntry → List Bytes
fields e =
    big_endian 8 e.transaction_id
    ∷ big_endian 8 e.request_id
    ∷ text e.idempotency_key
    ∷ big_endian 8 e.player
    ∷ big_endian 8 e.peer
    ∷ big_endian 1 e.op
    ∷ big_endian 4 e.currency
    ∷ big_endian 8 (unsigned_64 e.delta)
    ∷ big_endian 8 (unsigned_64 e.balance_after)
    ∷ big_endian 4 e.version
    ∷ big_endian 8 (unsigned_64 e.timestamp_ms)
    ∷ text e.reason
    ∷ text e.source
    ∷ big_endian 4 (length e.item_deltas)
    ∷ item_bytes e.item_deltas
    ∷ []

abbrev join : List Bytes → Bytes
join [] = []
join (xs ∷ xss) = xs ++ join xss

abbrev join_onto : Bytes → List Bytes → Bytes
join_onto out [] = out
join_onto out (xs ∷ xss) = join_onto (out ++ xs) xss

join_onto_lem : (out : Bytes) (xss : List Bytes) → join_onto out xss ≡ out ++ join xss
join_onto_lem out [] = sym (append_nil out)
join_onto_lem out (xs ∷ xss) = join_onto_lem (out ++ xs) xss ∙ append_assoc out xs (join xss)

canonical-join : (prev : Hash256) (e : LedgerEntry) → canonical prev e ≡ prev ++ join (fields e)
canonical-join prev e = join_onto_lem prev (fields e)

join-fields_injective :
    (e f : LedgerEntry) → IsSized e → IsSized f → join (fields e) ≡ join (fields f) → SameFields e f
join-fields_injective e f he hf same =
    let p1 =
      number_field 8 e.transaction_id f.transaction_id _ _ he.transaction hf.transaction same in
    let p2 = number_field 8 e.request_id f.request_id _ _ he.request hf.request p1.1 in
    let p3 = text_field e.idempotency_key f.idempotency_key _ _ he.key hf.key p2.1 in
    let p4 = number_field 8 e.player f.player _ _ he.player_id hf.player_id p3.1 in
    let p5 = number_field 8 e.peer f.peer _ _ he.peer_id hf.peer_id p4.1 in
    let p6 = number_field 1 e.op f.op _ _ he.operation hf.operation p5.1 in
    let p7 = number_field 4 e.currency f.currency _ _ he.money hf.money p6.1 in
    let p8 = signed_field e.delta f.delta _ _ he.change hf.change p7.1 in
    let p9 = signed_field e.balance_after f.balance_after _ _ he.balance hf.balance p8.1 in
    let p10 = number_field 4 e.version f.version _ _ he.schema hf.schema p9.1 in
    let p11 = signed_field e.timestamp_ms f.timestamp_ms _ _ he.time hf.time p10.1 in
    let p12 = text_field e.reason f.reason _ _ he.why hf.why p11.1 in
    let p13 = text_field e.source f.source _ _ he.whence hf.whence p12.1 in
    let n = length e.item_deltas in
    let p14 = number_field 4 n (length f.item_deltas) _ _ he.few_items hf.few_items p13.1 in
    let items = item_bytes_injective e.item_deltas f.item_deltas p14.0 he.items hf.items (
      sym (append_nil (item_bytes e.item_deltas))
      ∙ p14.1
      ∙ append_nil (item_bytes f.item_deltas)) in
    (p1.0, p2.0, p3.0, p4.0, p5.0, p6.0, p7.0, p8.0, p9.0, p10.0, p11.0, p12.0, p13.0, items)

-- For two entries whose values fit their types, with texts and items that 32 bits count, and
-- previous hashes of one length: when the entries differ in a field other than their own hashes, or
-- the previous hashes differ, ComputeEntryHash gives the digests of two different strings.
pub compute_entry_hash-distinct :
    (prev prev2 : Hash256) (e f : LedgerEntry)
    → length prev ≡ length prev2
    → IsSized e
    → IsSized f
    → ¬ ((prev ≡ prev2) × SameFields e f)
    → (compute_entry_hash prev e ≡ of (canonical prev e))
      × (compute_entry_hash prev2 f ≡ of (canonical prev2 f))
      × (canonical prev e ≢ canonical prev2 f)
compute_entry_hash-distinct prev prev2 e f len he hf differ = (
  compute_entry_hash-canonical prev e,
  compute_entry_hash-canonical prev2 f,
  (λ same.
      let parts =
        front prev prev2 _ _ len (sym (canonical-join prev e) ∙ same ∙ canonical-join prev2 f) in
      differ (parts.0, join-fields_injective e f he hf parts.1)),
)
