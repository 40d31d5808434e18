-- ===== src/Economy/Ledger/Cells.antt =====
-- What is read from the cells of the arena, and that more cells behind them do not change it.
use cami.Common.{
  ℕ, zero, suc, ◌+◌, ◌*◌, ◌≤◌, ◌≡◌, refl, sym, ap, ◌∙◌, List, [], ◌∷◌, ◌++◌, arith, length, take,
  drop, length-append,
}
use cami.Common.Bytes.{Bytes}
use cami.Economy.Entry.{ItemDelta}
use cami.Economy.Ledger.Memory.{
  Cell, octet, fragment, text_cells, item_cells, fragments, octets, read_text, items_from, item_of,
  item_size,
}

pub length-text_cells : (xs : Bytes) → length (text_cells xs) ≡ length xs
length-text_cells [] = refl
length-text_cells (x ∷ xs) = ap suc (length-text_cells xs)

length-fragments : (k n : ℕ) (d : ItemDelta) → length (fragments k n d) ≡ k
length-fragments zero n d = refl
length-fragments (suc k) n d = ap suc (length-fragments k (suc n) d)

pub length-item_cells : (ds : List ItemDelta) → length (item_cells ds) ≡ item_size * length ds
length-item_cells [] = refl
length-item_cells (d ∷ ds) = omega (
  arith,
  length-append (fragments item_size 0 d) (item_cells ds),
  length-fragments item_size 0 d,
  length-item_cells ds,
)

module _ {ℓ} {A : Type ℓ} where
  pub drop_past : (xs ys : List A) (n : ℕ) → n ≡ length xs → drop n (xs ++ ys) ≡ ys
  drop_past [] ys zero h = refl
  drop_past [] ys (suc n) h = absurd (omega arith)
  drop_past (x ∷ xs) ys zero h = absurd (omega arith)
  drop_past (x ∷ xs) ys (suc n) h = drop_past xs ys n (omega arith)

  take_front : (xs ys : List A) (n : ℕ) → n ≡ length xs → take n (xs ++ ys) ≡ xs
  take_front [] ys zero h = refl
  take_front [] ys (suc n) h = absurd (omega arith)
  take_front (x ∷ xs) ys zero h = absurd (omega arith)
  take_front (x ∷ xs) ys (suc n) h = ap (λ r. x ∷ r) (take_front xs ys n (omega arith))

  pub drop_in : (n : ℕ) (xs ys : List A) → n ≤ length xs → drop n (xs ++ ys) ≡ drop n xs ++ ys
  drop_in zero xs ys h = refl
  drop_in (suc n) [] ys h = absurd (omega arith)
  drop_in (suc n) (x ∷ xs) ys h = drop_in n xs ys (omega arith)

  take_in : (n : ℕ) (xs ys : List A) → n ≤ length xs → take n (xs ++ ys) ≡ take n xs
  take_in zero xs ys h = refl
  take_in (suc n) [] ys h = absurd (omega arith)
  take_in (suc n) (x ∷ xs) ys h = ap (λ r. x ∷ r) (take_in n xs ys (omega arith))

  pub length-drop_in : (n m : ℕ) (xs : List A) → n + m ≤ length xs → m ≤ length (drop n xs)
  length-drop_in zero m xs h = omega arith
  length-drop_in (suc n) m [] h = absurd (omega arith)
  length-drop_in (suc n) m (x ∷ xs) h = length-drop_in n m xs (omega arith)

octets-text_cells : (xs : Bytes) → octets (text_cells xs) ≡ xs
octets-text_cells [] = refl
octets-text_cells (x ∷ xs) = ap (λ r. x ∷ r) (octets-text_cells xs)

-- A text that stands behind some cells and before others is read back.
pub read_back :
    (before after : List Cell) (xs : Bytes) (off len : ℕ)
    → off ≡ length before
    → len ≡ length xs
    → read_text (before ++ (text_cells xs ++ after)) off len ≡ xs
read_back before after xs off len hoff hlen =
    ap (λ r. octets (take len r)) (drop_past before (text_cells xs ++ after) off hoff)
    ∙ ap octets (take_front (text_cells xs) after len (omega (arith, length-text_cells xs)))
    ∙ octets-text_cells xs

pub items_back : (ds : List ItemDelta) (n : ℕ) → n ≡ length ds → items_from n (item_cells ds) ≡ ds
items_back [] zero h = refl
items_back [] (suc n) h = absurd (omega arith)
items_back (d ∷ ds) zero h = absurd (omega arith)
items_back (d ∷ ds) (suc n) h =
    ap (λ r. d ∷ items_from n r)
      (drop_past (fragments item_size 0 d) (item_cells ds) item_size
        (sym (length-fragments item_size 0 d)))
    ∙ ap (λ r. d ∷ r) (items_back ds n (omega arith))

-- Cells that are put behind the used ones do not change a text or items that are read below.
pub read_text_kept :
    (arena more : List Cell) (off len : ℕ)
    → off + len ≤ length arena
    → read_text (arena ++ more) off len ≡ read_text arena off len
read_text_kept arena more off len h =
    ap (λ r. octets (take len r)) (drop_in off arena more (omega arith))
    ∙ ap octets (take_in len (drop off arena) more (length-drop_in off len arena h))

item_of_head : (c : Cell) (xs ys : List Cell) → item_of (c ∷ xs) ≡ item_of (c ∷ ys)
item_of_head (octet x) xs ys = refl
item_of_head (fragment d n) xs ys = refl

pub items_kept :
    (n : ℕ) (cells more : List Cell)
    → item_size * n ≤ length cells
    → items_from n (cells ++ more) ≡ items_from n cells
items_kept zero cells more h = refl
items_kept (suc n) [] more h = absurd (omega arith)
items_kept (suc n) (c ∷ cells) more h =
    ap (λ d. d ∷ items_from n (drop item_size ((c ∷ cells) ++ more)))
      (item_of_head c (cells ++ more) cells)
    ∙ ap (λ r. item_of (c ∷ cells) ∷ r)
        (ap (items_from n) (drop_in item_size (c ∷ cells) more (omega arith))
          ∙ items_kept n (drop item_size (c ∷ cells)) more
              (length-drop_in item_size (item_size * n) (c ∷ cells) (omega arith)))
