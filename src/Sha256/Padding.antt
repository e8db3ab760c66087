-- ===== src/Sha256/Padding.antt =====
-- The message that SHA-256 hashes, as FIPS 180-4 pads it, its blocks and its digest: the description
-- that sha256.c is compared with.
use win_dv.Prelude.{
  ℕ, zero, suc, ◌+◌, ◌-◌, ◌*◌, ◌/◌, ◌%◌, ◌^◌, ◌<◌, ◌≡◌, refl, ap, sym, ◌∙◌, List, [], ◌∷◌, ◌++◌,
  length, get_or, arith,
}
use win_dv.Prelude.Loops.{fold_from, fold_from-congr, fold_from-add}
use win_dv.Sha256.{Hash, transform, schedule, first_words, block_word, initial_hash}
use win_dv.Sha256.Bytes.{hash_bytes}
use win_dv.Sha256.Standard.{
  next_hash, initial_words, digest, initial_hash-words, hash_bytes-digest, transform-next_hash,
}

abbrev pub zeros : ℕ → List ℕ
zeros zero = []
zeros (suc n) = 0 ∷ zeros n

-- A length in bits as a 64-bit number in big-endian order.
abbrev pub length_bytes : ℕ → List ℕ
length_bytes l =
    l / 2 ^ 56 % 256
    ∷ l / 2 ^ 48 % 256
    ∷ l / 2 ^ 40 % 256
    ∷ l / 2 ^ 32 % 256
    ∷ l / 2 ^ 24 % 256
    ∷ l / 2 ^ 16 % 256
    ∷ l / 2 ^ 8 % 256
    ∷ l % 256
    ∷ []

-- How many zeros bring the length to 56 modulo 64.
abbrev pub fill : ℕ → ℕ
fill size = (119 - size % 64) % 64

unfoldable pub padded : List ℕ → List ℕ
padded m = m ++ (128 ∷ zeros (fill (length m)) ++ length_bytes (length m * 8))

-- Block `n` of a message.
abbrev pub block_at : List ℕ → ℕ → ℕ → ℕ
block_at m n j = get_or m (n * 64 + j) 0

-- The first `n` blocks of a message, compressed.
unfoldable pub compress : ℕ → List ℕ → Hash
compress n m = fold_from n 0 (λ i s. transform s (block_at m i)) initial_hash

-- The digest of a message as the standard computes it.
unfoldable pub reference : List ℕ → List ℕ
reference m = digest (
    fold_from (length (padded m) / 64) 0 (λ i s. next_hash s (block_at (padded m) i)) initial_words)

-- It is that of the blocks as sha256.c compresses them.
pub reference-compress :
    (m : List ℕ) → hash_bytes (compress (length (padded m) / 64) (padded m)) ≡ reference m
unfolding reference compress
reference-compress m =
    hash_bytes-digest _
    ∙ ap digest (
        ap (fold_from (length (padded m) / 64) 0 (λ i s. transform s (block_at (padded m) i)))
          initial_hash-words
        ∙ fold_from-congr (length (padded m) / 64) 0 _ _
            (λ i lo hi s. transform-next_hash s (block_at (padded m) i)) initial_words)

block_word-congr :
    (f g : ℕ → ℕ) (i : ℕ)
    → ((j : ℕ) → j < 64 → f j ≡ g j)
    → i < 16
    → block_word f i ≡ block_word g i
unfolding block_word
block_word-congr f g i same lt =
    rw
      (
        same (i * 4) (omega arith),
        same (i * 4 + 1) (omega arith),
        same (i * 4 + 2) (omega arith),
        same (i * 4 + 3) (omega arith),
      )
      refl

first_words-congr : (f g : ℕ → ℕ) → ((j : ℕ) → j < 64 → f j ≡ g j) → first_words f ≡ first_words g
unfolding first_words
first_words-congr f g same =
    fold_from-congr 16 0 _ _
      (λ i lo hi w. ap (λ x. w ++ (x ∷ [])) (block_word-congr f g i same (omega arith))) []

-- A block is read at its 64 bytes only.
pub transform-congr :
    (s : Hash) (f g : ℕ → ℕ) → ((j : ℕ) → j < 64 → f j ≡ g j) → transform s f ≡ transform s g
unfolding transform schedule
transform-congr s f g same = rw (first_words-congr f g same) refl

pub compress-congr :
    (n : ℕ) (m m' : List ℕ)
    → ((i : ℕ) → i < n * 64 → get_or m i 0 ≡ get_or m' i 0)
    → compress n m ≡ compress n m'
unfolding compress
compress-congr n m m' same =
    fold_from-congr n 0 _ _
      (λ i lo hi s.
        transform-congr s (block_at m i) (block_at m' i) (λ j lt. same (i * 64 + j) (omega arith)))
      initial_hash

pub compress-suc :
    (n : ℕ) (m : List ℕ) → compress (suc n) m ≡ transform (compress n m) (block_at m n)
unfolding compress fold_from
compress-suc n m = sym (
    fold_from-add n 1 (suc n) 0 n (λ i s. transform s (block_at m i)) initial_hash (omega arith)
      (omega arith))

-- Where a byte of an appended list is read.
pub get_or-append_left :
    (xs ys : List ℕ) (i : ℕ) → i < length xs → get_or (xs ++ ys) i 0 ≡ get_or xs i 0
get_or-append_left [] ys i lt = absurd (omega arith)
get_or-append_left (x ∷ xs) ys zero lt = refl
get_or-append_left (x ∷ xs) ys (suc i) lt = get_or-append_left xs ys i (omega (arith, lt))

pub get_or-append_right :
    (xs ys : List ℕ) (i j : ℕ) → j ≡ length xs + i → get_or (xs ++ ys) j 0 ≡ get_or ys i 0
get_or-append_right [] ys i j e = ap (λ n. get_or ys n 0) (omega (arith, e))
get_or-append_right (x ∷ xs) ys i zero e = absurd (omega (arith, e))
get_or-append_right (x ∷ xs) ys i (suc j) e = get_or-append_right xs ys i j (omega (arith, e))

pub length-zeros : (n : ℕ) → length (zeros n) ≡ n
length-zeros zero = refl
length-zeros (suc n) = ap suc (length-zeros n)

pub get_or-zeros : (n i : ℕ) → get_or (zeros n) i 0 ≡ 0
get_or-zeros zero i = refl
get_or-zeros (suc n) zero = refl
get_or-zeros (suc n) (suc i) = get_or-zeros n i
