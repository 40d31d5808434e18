-- ===== src/Economy/Ledger/Memory.antt =====
-- ledger.cpp: the arena's cells, and what memcpy writes and reads there. A text is its bytes. An
-- item delta is copied as the 24 bytes of its object representation, the n-th of which is known
-- only as that.
use cami.Common.{ℕ, zero, suc, List, [], ◌∷◌, ◌++◌, take, drop}
use cami.Common.Bytes.{Bytes}
use cami.Common.Int.{pos}
use cami.Economy.Entry.{ItemDelta}

pub data Cell : Type 0 where
  octet : ℕ → Cell
  fragment : ItemDelta → ℕ → Cell

abbrev pub item_size : ℕ
item_size = 24

abbrev pub text_cells : Bytes → List Cell
text_cells [] = []
text_cells (x ∷ xs) = octet x ∷ text_cells xs

-- The bytes of one item delta from the n-th on, k of them.
abbrev pub fragments : ℕ → ℕ → ItemDelta → List Cell
fragments zero n d = []
fragments (suc k) n d = fragment d n ∷ fragments k (suc n) d

abbrev pub item_cells : List ItemDelta → List Cell
item_cells [] = []
item_cells (d ∷ ds) = fragments item_size 0 d ++ item_cells ds

abbrev octet_of : Cell → ℕ
octet_of (octet x) = x
octet_of (fragment d n) = 0

abbrev pub octets : List Cell → Bytes
octets [] = []
octets (c ∷ cs) = octet_of c ∷ octets cs

-- A text of len bytes at an offset.
abbrev pub read_text : List Cell → ℕ → ℕ → Bytes
read_text arena off len = octets (take len (drop off arena))

abbrev pub item_of : List Cell → ItemDelta
item_of (fragment d n ∷ cs) = d
item_of (octet x ∷ cs) = record { def_id = 0; count = pos 0; guid = 0 }
item_of [] = record { def_id = 0; count = pos 0; guid = 0 }

-- The item deltas from an offset on, n of them.
abbrev pub items_from : ℕ → List Cell → List ItemDelta
items_from zero cs = []
items_from (suc n) cs = item_of cs ∷ items_from n (drop item_size cs)

abbrev pub read_items : List Cell → ℕ → ℕ → List ItemDelta
read_items arena off n = items_from n (drop off arena)
