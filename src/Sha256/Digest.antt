-- ===== src/Sha256/Digest.antt =====
-- sha256.c, `sha256_final`: the digest of a message that was fed in pieces is that of FIPS 180-4.
use win_dv.Prelude.{
  dec_lt, ℕ, zero, suc, ◌+◌, ◌-◌, ◌*◌, ◌/◌, ◌%◌, ◌^◌, ◌<◌, ◌≤◌, ◌≡◌, refl, ap, sym, ◌∙◌, subst,
  List, [], ◌∷◌, ◌++◌, length, length-append, get_or, arith, ltb, ◌==◌, if-cases, append-nil,
  append_assoc,
}
use win_dv.Prelude.Loops.{fold_from_inv}
use win_dv.Queue.{update}
use win_dv.Sha256.{Hash, Context, transform, sha256_init, sha256_update}
use win_dv.Sha256.Bytes.{
  finish, sha256_final, hash_bytes, clear, put_length, marked_to, lo_bits, hi_bits,
}
use win_dv.Sha256.Padding.{
  compress, compress-congr, compress-suc, transform-congr, block_at, get_or-append_left,
  get_or-append_right, get_or-zeros, length-zeros, padded, reference, reference-compress,
  length_bytes, fill, zeros,
}
use win_dv.Sha256.Streaming.{Fed, sha256_update-Fed, sha256_init-Fed}

-- The bytes that a loop of zeros writes, and those that it leaves.
clear-inside : (n a : ℕ) (d : ℕ → ℕ) (j : ℕ) → a ≤ j → j < a + n → clear n a d j ≡ 0
clear-inside n a d j lo hi =
    fold_from_inv (λ i (e : ℕ → ℕ). a ≤ j → j < i → e j ≡ 0) n a (λ i d. update d i 0)
      (λ i p q e keep r s. ground arith) d (λ r s. absurd (omega arith)) lo hi

clear-before : (n a : ℕ) (d : ℕ → ℕ) (j : ℕ) → j < a → clear n a d j ≡ d j
clear-before n a d j lt =
    fold_from_inv (λ i (e : ℕ → ℕ). e j ≡ d j) n a (λ i d. update d i 0)
      (λ i p q e keep. ground arith) d refl

put_length-before : (hi lo : ℕ) (d : ℕ → ℕ) (j : ℕ) → j < 56 → put_length hi lo d j ≡ d j
put_length-before hi lo d j lt = ground arith

put_length-after :
    (hi lo l : ℕ) (d : ℕ → ℕ) (j : ℕ)
    → hi * 2 ^ 32 + lo ≡ l % 2 ^ 64
    → lo < 2 ^ 32
    → j < 8
    → put_length hi lo d (56 + j) ≡ get_or (length_bytes l) j 0
put_length-after hi lo l d zero e small lt = omega (arith, e, small)
put_length-after hi lo l d (suc zero) e small lt = omega (arith, e, small)
put_length-after hi lo l d (suc (suc zero)) e small lt = omega (arith, e, small)
put_length-after hi lo l d (suc (suc (suc zero))) e small lt = omega (arith, e, small)
put_length-after hi lo l d (suc (suc (suc (suc zero)))) e small lt = omega (arith, e, small)
put_length-after hi lo l d (suc (suc (suc (suc (suc zero))))) e small lt = omega (arith, e, small)
put_length-after hi lo l d (suc (suc (suc (suc (suc (suc zero)))))) e small lt =
    omega (arith, e, small)
put_length-after hi lo l d (suc (suc (suc (suc (suc (suc (suc zero))))))) e small lt =
    omega (arith, e, small)
put_length-after hi lo l d (suc (suc (suc (suc (suc (suc (suc (suc j)))))))) e small lt =
    absurd (omega (arith, lt))

-- The padded message, read in its four parts.
length-padded : (m : List ℕ) → length (padded m) ≡ length m + 9 + fill (length m)
unfolding padded
length-padded m = omega (
  arith,
  length-append m (128 ∷ zeros (fill (length m)) ++ length_bytes (length m * 8)),
  length-append (zeros (fill (length m))) (length_bytes (length m * 8)),
  length-zeros (fill (length m)),
)

padded-message : (m : List ℕ) (i : ℕ) → i < length m → get_or (padded m) i 0 ≡ get_or m i 0
unfolding padded
padded-message m i lt = get_or-append_left m _ i lt

padded-mark : (m : List ℕ) (i : ℕ) → i ≡ length m → get_or (padded m) i 0 ≡ 128
unfolding padded
padded-mark m i e = get_or-append_right m _ 0 i (omega (arith, e))

padded-zeros :
    (m : List ℕ) (i j : ℕ) → i ≡ length m + 1 + j → j < fill (length m) → get_or (padded m) i 0 ≡ 0
unfolding padded
padded-zeros m i j e lt =
    get_or-append_right m _ (suc j) i (omega (arith, e))
    ∙ get_or-append_left (zeros (fill (length m))) _ j
        (omega (arith, lt, length-zeros (fill (length m))))
    ∙ get_or-zeros (fill (length m)) j

padded-length :
    (m : List ℕ) (i j : ℕ)
    → i ≡ length m + 1 + fill (length m) + j
    → get_or (padded m) i 0 ≡ get_or (length_bytes (length m * 8)) j 0
unfolding padded
padded-length m i j e =
    get_or-append_right m _ (suc (fill (length m) + j)) i (omega (arith, e))
    ∙ get_or-append_right (zeros (fill (length m))) _ j (fill (length m) + j)
        (omega (arith, length-zeros (fill (length m))))

-- The length in bits, in the two halves that `sha256_final` writes.
bits_split :
    (c : Context) (m : List ℕ) (f : Fed c m)
    → hi_bits c * 2 ^ 32 + lo_bits c ≡ length m * 8 % 2 ^ 64
bits_split c m f = ground (arith, f.size, f.room, f.low, f.count)

-- The buffer with the mark, against the block that the message ends in.
marked :
    (c : Context) (m : List ℕ) (f : Fed c m) (j : ℕ)
    → j < c.datalen + 1
    → update c.buffer c.datalen 128 j ≡ block_at (padded m) f.blocks j
marked c m f j lt =
    if-cases (λ (x : ℕ). x ≡ block_at (padded m) f.blocks j) (c.datalen == j) 128 (c.buffer j)
      (λ here. sym (padded-mark m (f.blocks * 64 + j) (ground (arith, f.size))))
      (λ there.
        let before : j < c.datalen = ground arith in
        f.rest j before ∙ sym (padded-message m (f.blocks * 64 + j) (omega (arith, f.size))))

-- The mark and the zeros up to `to`.
marked_clear :
    (c : Context) (m : List ℕ) (f : Fed c m) (to j : ℕ)
    → c.datalen + 1 ≤ to
    → j < to
    → f.blocks * 64 + to ≤ length m + 1 + fill (length m)
    → marked_to to c j ≡ block_at (padded m) f.blocks j
marked_clear c m f to j le lt within = elim (dec_lt j (c.datalen + 1)) [
  | yes before ↦
      clear-before (to - (c.datalen + 1)) (c.datalen + 1) _ j before ∙ marked c m f j before
  | no after ↦
      clear-inside (to - (c.datalen + 1)) (c.datalen + 1) _ j (omega arith) (omega arith)
      ∙ sym (
          padded-zeros m (f.blocks * 64 + j) (j - (c.datalen + 1)) (omega (arith, f.size))
            (omega (arith, f.size)))
]

-- The last block, whose first 56 bytes are settled.
last_block :
    (c : Context) (m : List ℕ) (f : Fed c m) (n hi lo : ℕ) (d : ℕ → ℕ)
    → n * 64 + 56 ≡ length m + 1 + fill (length m)
    → hi * 2 ^ 32 + lo ≡ length m * 8 % 2 ^ 64
    → lo < 2 ^ 32
    → ((j : ℕ) → j < 56 → d j ≡ block_at (padded m) n j)
    → (j : ℕ) → j < 64
    → put_length hi lo d j ≡ block_at (padded m) n j
last_block c m f n hi lo d at bits small start j lt = elim (dec_lt j 56) [
  | yes before ↦ put_length-before hi lo d j before ∙ start j before
  | no after ↦
      ap (put_length hi lo d) {x = j} {y = 56 + (j - 56)} (omega arith)
      ∙ put_length-after hi lo (length m * 8) d (j - 56) bits small (omega arith)
      ∙ sym (padded-length m (n * 64 + j) (j - 56) (omega arith))
]

-- The whole blocks that were hashed are those of the padded message.
whole_blocks : (c : Context) (m : List ℕ) (f : Fed c m) → c.state ≡ compress f.blocks (padded m)
whole_blocks c m f =
    f.hashed
    ∙ compress-congr f.blocks m (padded m)
        (λ i lt. sym (padded-message m i (omega (arith, f.size))))

-- One block more.
compress_one :
    (n : ℕ) (m : List ℕ) (s : Hash) (block : ℕ → ℕ)
    → s ≡ compress n m
    → ((j : ℕ) → j < 64 → block j ≡ block_at m n j)
    → transform s block ≡ compress (suc n) m
compress_one n m s block e same =
    ap (λ r. transform r block) e
    ∙ transform-congr (compress n m) block (block_at m n) same
    ∙ sym (compress-suc n m)

finish-padded :
    (c : Context) (m : List ℕ) → Fed c m → finish c ≡ compress (length (padded m) / 64) (padded m)
unfolding finish
finish-padded c m f =
    if-cases (λ (r : Hash). r ≡ compress (length (padded m) / 64) (padded m))
      (ltb 56 (c.datalen + 1)) _ _
      (λ long.
        let over : 56 < c.datalen + 1 = ground arith in
        let filled = marked_clear c m f 64 in
        compress_one (suc f.blocks) (padded m) _ _
          (compress_one f.blocks (padded m) _ _ (whole_blocks c m f)
            (λ j lt. filled j (omega (arith, f.room)) lt (omega (arith, f.size))))
          (last_block c m f (suc f.blocks) (hi_bits c) (lo_bits c) _ (omega (arith, f.size, f.room))
            (bits_split c m f) (omega arith)
            (λ j lt.
              clear-inside 56 0 _ j (omega arith) lt
              ∙ sym (
                  padded-zeros m (suc f.blocks * 64 + j) (63 - c.datalen + j)
                    (omega (arith, f.size, f.room)) (omega (arith, f.size, f.room)))))
        ∙ ap (λ n. compress n (padded m)) (omega (arith, length-padded m, f.size, f.room)))
      (λ short.
        let under : c.datalen + 1 ≤ 56 = ground arith in
        compress_one f.blocks (padded m) _ _ (whole_blocks c m f) (
          last_block c m f f.blocks (hi_bits c) (lo_bits c) _ (omega (arith, f.size))
            (bits_split c m f) (omega arith)
            (λ j lt. marked_clear c m f 56 j under lt (omega (arith, f.size))))
        ∙ ap (λ n. compress n (padded m)) (omega (arith, length-padded m, f.size)))

-- A message is fed to a context in pieces.
unfoldable pub update_all : Context → List (List ℕ) → Context
update_all c [] = c
update_all c (piece ∷ pieces) = update_all (sha256_update c piece) pieces

abbrev pub joined : List (List ℕ) → List ℕ
joined [] = []
joined (piece ∷ pieces) = piece ++ joined pieces

update_all-Fed :
    (pieces : List (List ℕ)) (c : Context) (m : List ℕ)
    → Fed c m
    → Fed (update_all c pieces) (m ++ joined pieces)
unfolding update_all
update_all-Fed [] c m f = subst (Fed c) (sym (append-nil m)) f
update_all-Fed (piece ∷ pieces) c m f =
    subst (Fed (update_all (sha256_update c piece) pieces)) (append_assoc m piece (joined pieces))
      (update_all-Fed pieces (sha256_update c piece) (m ++ piece) (sha256_update-Fed piece c m f))

-- A message that is fed to a new context in any pieces, over a buffer with any bytes, has the
-- digest of FIPS 180-4: that of the message padded with a mark, zeros and its length in 64 bits,
-- each block of which is hashed with the functions of the standard and with constants that are
-- computed from the square and cube roots of the first primes.
pub sha256_final-reference :
    (memory : ℕ → ℕ) (pieces : List (List ℕ))
    → sha256_final (update_all (sha256_init memory) pieces) ≡ reference (joined pieces)
unfolding sha256_final
sha256_final-reference memory pieces =
    ap hash_bytes (
      finish-padded (update_all (sha256_init memory) pieces) (joined pieces)
        (update_all-Fed pieces (sha256_init memory) [] (sha256_init-Fed memory)))
    ∙ reference-compress (joined pieces)
