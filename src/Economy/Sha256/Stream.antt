-- ===== src/Economy/Sha256/Stream.antt =====
-- class Sha256: Update takes bytes one by one, however they are cut into calls.
use cami.Common.{
  ℕ, zero, suc, ◌+◌, ◌%◌, ◌^◌, ◌-◌, ◌<◌, ◌≤◌, ◌≡◌, inl, inr, refl, sym, ap, subst, ◌∙◌, [], ◌∷◌,
  ◌++◌, true, false, arith, ltb, ◌==◌, if◌then◌else◌, Bool-cases, length, take, drop, take-drop,
  length-take, take_all, drop_all, length-drop, append_nil, append_assoc, length-append,
}
use cami.Common.Bytes.{Bytes}
use cami.Economy.Sha256.{Words, Sha256, update, compress, whole_blocks, feed, drain, block_bytes}

-- One byte more: a buffer that is full is compressed.
abbrev pub push : Words × Bytes → ℕ → Words × Bytes
push (s, buffer) x =
    let buffer' = buffer ++ (x ∷ []) in
    if length buffer' == block_bytes then (compress s buffer', []) else (s, buffer')

abbrev pub absorb : Words × Bytes → Bytes → Words × Bytes
absorb st [] = st
absorb st (x ∷ xs) = absorb (push st x) xs

pub absorb-append :
    (st : Words × Bytes) (xs ys : Bytes) → absorb st (xs ++ ys) ≡ absorb (absorb st xs) ys
absorb-append st [] ys = refl
absorb-append st (x ∷ xs) ys = absorb-append (push st x) xs ys

push_short :
    (s : Words) (buffer : Bytes) (x : ℕ)
    → suc (length buffer) < block_bytes
    → push (s, buffer) x ≡ (s, buffer ++ (x ∷ []))
push_short s buffer x h = ground (arith, length-append buffer (x ∷ []))

push_full :
    (s : Words) (buffer : Bytes) (x : ℕ)
    → suc (length buffer) ≡ block_bytes
    → push (s, buffer) x ≡ (compress s (buffer ++ (x ∷ [])), [])
push_full s buffer x h = ground (arith, length-append buffer (x ∷ []))

absorb_short :
    (s : Words) (buffer xs : Bytes)
    → length buffer + length xs < block_bytes
    → absorb (s, buffer) xs ≡ (s, buffer ++ xs)
absorb_short s buffer [] h = ap (λ r. (s, r)) (sym (append_nil buffer))
absorb_short s buffer (x ∷ xs) h =
    let more : length (buffer ++ (x ∷ [])) + length xs < block_bytes =
      omega (arith, length-append buffer (x ∷ []), h) in
    ap (λ st. absorb st xs) (push_short s buffer x (omega arith))
    ∙ absorb_short s (buffer ++ (x ∷ [])) xs more
    ∙ ap (λ r. (s, r)) (append_assoc buffer (x ∷ []) xs)

absorb_block :
    (s : Words) (buffer xs : Bytes)
    → length buffer < block_bytes
    → length buffer + length xs ≡ block_bytes
    → absorb (s, buffer) xs ≡ (compress s (buffer ++ xs), [])
absorb_block s buffer [] h e = absurd (omega arith)
absorb_block s buffer (x ∷ []) h e = push_full s buffer x (omega arith)
absorb_block s buffer (x ∷ y ∷ xs) h e =
    let len : length (buffer ++ (x ∷ [])) ≡ length buffer + 1 = length-append buffer (x ∷ []) in
    ap (λ st. absorb st (y ∷ xs)) (push_short s buffer x (omega arith))
    ∙ absorb_block s (buffer ++ (x ∷ [])) (y ∷ xs) (omega (arith, len)) (omega (arith, len))
    ∙ ap (λ r. (compress s r, [])) (append_assoc buffer (x ∷ []) (y ∷ xs))

-- Whole blocks, with enough fuel, are the same bytes one by one.
whole_blocks-absorb :
    (n : ℕ) (s : Words) (xs : Bytes) → length xs ≤ n → whole_blocks n s xs ≡ absorb (s, []) xs
unfolding whole_blocks
whole_blocks-absorb zero s [] h = refl
whole_blocks-absorb zero s (x ∷ xs) h = absurd (omega arith)
whole_blocks-absorb (suc n) s xs h = elim (Bool-cases (ltb (length xs) block_bytes)) [
  | inl short ↦ rw (short, whole_blocks) (sym (absorb_short s [] xs (ground arith)))
  | inr long ↦
      let enough : block_bytes ≤ length xs = ground arith in
      rw (long, whole_blocks)
        (whole_blocks-absorb n (compress s (take block_bytes xs)) (drop block_bytes xs)
            (omega (arith, length-drop block_bytes xs enough))
          ∙ ap (λ st. absorb st (drop block_bytes xs))
              (sym (
                absorb_block s [] (take block_bytes xs) (omega arith)
                  (omega (arith, length-take block_bytes xs enough))))
          ∙ sym (absorb-append (s, []) (take block_bytes xs) (drop block_bytes xs))
          ∙ ap (absorb (s, [])) (take-drop block_bytes xs))
]

-- Update on the words and the buffer, whose three loops are the bytes one by one.
pub feed-absorb :
    (s : Words) (buffer xs : Bytes)
    → length buffer < block_bytes
    → feed (s, buffer) xs ≡ absorb (s, buffer) xs
unfolding feed whole_blocks
feed-absorb s [] xs h = whole_blocks-absorb (length xs) s xs (omega arith)
feed-absorb s (b ∷ bs) xs h =
    let buffer : Bytes = b ∷ bs in
    let need : ℕ = block_bytes - length buffer in
    let filled : Bytes = buffer ++ take need xs in
    let full : Words × Bytes × Bytes = (compress s filled, [], drop need xs) in
    let part : Words × Bytes × Bytes = (s, filled, drop need xs) in
    elim (Bool-cases (ltb (length xs) need)) [
      | inl few ↦
          let less : length buffer + length xs < block_bytes = ground arith in
          let all : take need xs ≡ xs = take_all need xs (omega arith) in
          let none_left : drop need xs ≡ [] = drop_all need xs (omega arith) in
          let test : (length filled == block_bytes) ≡ false =
            ground (arith, length-append buffer (take need xs), ap length all) in
          ap (λ t. drain (if t then full else part)) test
          ∙ ap (λ r. drain (s, buffer ++ r, drop need xs)) all
          ∙ ap (λ r. drain (s, buffer ++ xs, r)) none_left
          ∙ ap (λ r. (s, r)) (append_nil (buffer ++ xs))
          ∙ sym (absorb_short s buffer xs less)
      | inr many ↦
          let enough : need ≤ length xs = ground arith in
          let took : length (take need xs) ≡ need = length-take need xs enough in
          let test : (length filled == block_bytes) ≡ true =
            ground (arith, length-append buffer (take need xs), took) in
          ap (λ t. drain (if t then full else part)) test
          ∙ whole_blocks-absorb (length (drop need xs)) (compress s filled) (drop need xs)
              (omega arith)
          ∙ ap (λ st. absorb st (drop need xs))
              (sym (absorb_block s buffer (take need xs) h (omega (arith, took))))
          ∙ sym (absorb-append (s, buffer) (take need xs) (drop need xs))
          ∙ ap (absorb (s, buffer)) (take-drop need xs)
    ]

push_partial :
    (s : Words) (buffer : Bytes) (x : ℕ)
    → length buffer < block_bytes
    → length (push (s, buffer) x).1 < block_bytes
push_partial s buffer x h = ground (arith, length-append buffer (x ∷ []))

pub absorb_partial :
    (st : Words × Bytes) (xs : Bytes)
    → length st.1 < block_bytes
    → length (absorb st xs).1 < block_bytes
absorb_partial st [] h = h
absorb_partial (s, buffer) (x ∷ xs) h =
    absorb_partial (push (s, buffer) x) xs (push_partial s buffer x h)

-- A hasher between two calls never holds a whole block.
abbrev pub IsPartial : Sha256 → Type 0
IsPartial h = length h.buffer < block_bytes

feed_partial :
    (s : Words) (buffer xs : Bytes)
    → length buffer < block_bytes
    → length (feed (s, buffer) xs).1 < block_bytes
feed_partial s buffer xs h =
    subst (λ st. length st.1 < block_bytes) (sym (feed-absorb s buffer xs h))
      (absorb_partial (s, buffer) xs h)

pub update-IsPartial : (h : Sha256) (xs : Bytes) → IsPartial h → IsPartial (update h xs)
unfolding update
update-IsPartial h xs p = feed_partial h.words h.buffer xs p

feed-append :
    (s : Words) (buffer xs ys : Bytes)
    → length buffer < block_bytes
    → feed (feed (s, buffer) xs) ys ≡ feed (s, buffer) (xs ++ ys)
feed-append s buffer xs ys h =
    let mid : Words × Bytes = feed (s, buffer) xs in
    feed-absorb mid.0 mid.1 ys (feed_partial s buffer xs h)
    ∙ ap (λ st. absorb st ys) (feed-absorb s buffer xs h)
    ∙ sym (absorb-append (s, buffer) xs ys)
    ∙ sym (feed-absorb s buffer (xs ++ ys) h)

abbrev pub hasher_of : Words × Bytes → ℕ → Sha256
hasher_of st n = record { words = st.0; buffer = st.1; total_bytes = n }

abbrev hasher : Words × Bytes → ℕ → Sha256
hasher st n = hasher_of st (n % 2 ^ 64)

-- Update in two calls is Update in one call on the bytes of both: the words, the buffer and the
-- count of bytes modulo 2 ^ 64 are the same, for any hasher whose buffer is shorter than a block.
pub update-append :
    (h : Sha256) (xs ys : Bytes) → IsPartial h → update (update h xs) ys ≡ update h (xs ++ ys)
unfolding update
update-append h xs ys p =
    let fed : feed (feed (h.words, h.buffer) xs) ys ≡ feed (h.words, h.buffer) (xs ++ ys) =
      feed-append h.words h.buffer xs ys p in
    let total : ((h.total_bytes + length xs) % 2 ^ 64 + length ys) % 2 ^ 64
        ≡ (h.total_bytes + length (xs ++ ys)) % 2 ^ 64 =
      omega (arith, length-append xs ys) in
    ap (λ r. hasher r ((h.total_bytes + length xs) % 2 ^ 64 + length ys)) fed
    ∙ ap (λ n. hasher_of (feed (h.words, h.buffer) (xs ++ ys)) n) total
