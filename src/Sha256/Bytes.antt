-- ===== src/Sha256/Bytes.antt =====
-- sha256.c, `sha256_final` and `sha256_hex`: the last blocks, the digest and its text.
use win_dv.Prelude.{ℕ, ◌+◌, ◌-◌, ◌*◌, ◌%◌, ltb, if◌then◌else◌, List, [], ◌∷◌, ◌++◌, add32, shr}
use win_dv.Prelude.Loops.{fold_from}
use win_dv.Queue.{update}
use win_dv.Sha256.{Hash, Context, transform}

-- `while (padindex < from + n) data[padindex++] = 0`, and `memset(data, 0, n)`.
abbrev pub clear : ℕ → ℕ → (ℕ → ℕ) → ℕ → ℕ
clear n from bytes = fold_from n from (λ i d. update d i 0) bytes

-- `(unsigned char)(x >> k)`.
abbrev pub byte_of : ℕ → ℕ → ℕ
byte_of x n = shr x n % 256

-- The length in bits, in the last eight bytes of the block.
abbrev pub put_length : ℕ → ℕ → (ℕ → ℕ) → ℕ → ℕ
put_length hi lo d =
    update
      (update
        (update
          (update
            (update
              (update (update (update d 56 (byte_of hi 24)) 57 (byte_of hi 16)) 58 (byte_of hi 8))
              59 (byte_of hi 0))
            60 (byte_of lo 24))
          61 (byte_of lo 16))
        62 (byte_of lo 8))
      63 (byte_of lo 0)

-- The length in bits: `lo_bits` and `hi_bits`.
abbrev pub lo_bits : Context → ℕ
lo_bits c = add32 c.bitlen0 (c.datalen * 8)

abbrev pub hi_bits : Context → ℕ
hi_bits c = if ltb (lo_bits c) c.bitlen0 then add32 c.bitlen1 1 else c.bitlen1

-- The buffer with the mark and the zeros after it, up to `to`.
abbrev pub marked_to : ℕ → Context → ℕ → ℕ
marked_to to c = clear (to - (c.datalen + 1)) (c.datalen + 1) (update c.buffer c.datalen 128)

-- The state after the last blocks are hashed.
unfoldable pub finish : Context → Hash
finish c =
    if ltb 56 (c.datalen + 1)
    then transform (transform c.state (marked_to 64 c))
        (put_length (hi_bits c) (lo_bits c) (clear 56 0 (marked_to 64 c)))
    else transform c.state (put_length (hi_bits c) (lo_bits c) (marked_to 56 c))

-- A word in big-endian order.
abbrev pub word_bytes : ℕ → List ℕ
word_bytes x = byte_of x 24 ∷ byte_of x 16 ∷ byte_of x 8 ∷ byte_of x 0 ∷ []

unfoldable pub hash_bytes : Hash → List ℕ
hash_bytes s =
    word_bytes s.h0
    ++ (word_bytes s.h1
        ++ (word_bytes s.h2
            ++ (word_bytes s.h3
                ++ (word_bytes s.h4 ++ (word_bytes s.h5 ++ (word_bytes s.h6 ++ word_bytes s.h7))))))

unfoldable pub sha256_final : Context → List ℕ
sha256_final c = hash_bytes (finish c)

-- `hex[d]`, of a number below 16.
abbrev pub hex_digit : ℕ → ℕ
hex_digit d = if ltb d 10 then 48 + d else 87 + d

-- `sha256_hex`, without the NUL at the end.
unfoldable pub sha256_hex : List ℕ → List ℕ
sha256_hex [] = []
sha256_hex (b ∷ bs) = hex_digit (shr b 4 % 16) ∷ hex_digit (b % 16) ∷ sha256_hex bs
