-- ===== src/Sha256.antt =====
-- sha256.c, sha256.h: the hash function, fed in pieces. A byte is a number below 256 and an
-- `unsigned int` one below 2^32; the buffer `data` is a function of its index.
pub mod Bytes
pub mod Digest
pub mod Standard
pub mod Padding
pub mod Streaming
use Prim.Native.Nat.{bit_and, bit_or, bit_xor}
use win_dv.Prelude.{
  ℕ, ◌+◌, ◌-◌, ◌*◌, ◌%◌, ◌^◌, zero, suc, ltb, leb, ◌==◌, if◌then◌else◌, List, [], ◌∷◌, ◌++◌, add32,
  shr, u32_mod, get_or,
}
use win_dv.Prelude.Loops.{fold_from}
use win_dv.Queue.{update}

-- Left shift of an `unsigned int`.
abbrev pub shl : ℕ → ℕ → ℕ
shl x n = (x * 2 ^ n) % u32_mod

unfoldable pub rotr : ℕ → ℕ → ℕ
rotr x n = bit_or (shr x n) (shl x (32 - n))

unfoldable pub ch : ℕ → ℕ → ℕ → ℕ
ch x y z = bit_xor (bit_and x y) (bit_and (u32_mod - 1 - x) z)

unfoldable pub maj : ℕ → ℕ → ℕ → ℕ
maj x y z = bit_xor (bit_xor (bit_and x y) (bit_and x z)) (bit_and y z)

unfoldable pub ep0 : ℕ → ℕ
ep0 x = bit_xor (bit_xor (rotr x 2) (rotr x 13)) (rotr x 22)

unfoldable pub ep1 : ℕ → ℕ
ep1 x = bit_xor (bit_xor (rotr x 6) (rotr x 11)) (rotr x 25)

unfoldable pub sig0 : ℕ → ℕ
sig0 x = bit_xor (bit_xor (rotr x 7) (rotr x 18)) (shr x 3)

unfoldable pub sig1 : ℕ → ℕ
sig1 x = bit_xor (bit_xor (rotr x 17) (rotr x 19)) (shr x 10)

abbrev pub k : List ℕ
k =
    0x428a_2f98 ∷ 0x7137_4491 ∷ 0xb5c0_fbcf ∷ 0xe9b5_dba5 ∷ 0x3956_c25b ∷ 0x59f1_11f1 ∷ 0x923f_82a4
    ∷ 0xab1c_5ed5 ∷ 0xd807_aa98 ∷ 0x1283_5b01 ∷ 0x2431_85be ∷ 0x550c_7dc3 ∷ 0x72be_5d74
    ∷ 0x80de_b1fe ∷ 0x9bdc_06a7 ∷ 0xc19b_f174 ∷ 0xe49b_69c1 ∷ 0xefbe_4786 ∷ 0x0fc1_9dc6
    ∷ 0x240c_a1cc ∷ 0x2de9_2c6f ∷ 0x4a74_84aa ∷ 0x5cb0_a9dc ∷ 0x76f9_88da ∷ 0x983e_5152
    ∷ 0xa831_c66d ∷ 0xb003_27c8 ∷ 0xbf59_7fc7 ∷ 0xc6e0_0bf3 ∷ 0xd5a7_9147 ∷ 0x06ca_6351
    ∷ 0x1429_2967 ∷ 0x27b7_0a85 ∷ 0x2e1b_2138 ∷ 0x4d2c_6dfc ∷ 0x5338_0d13 ∷ 0x650a_7354
    ∷ 0x766a_0abb ∷ 0x81c2_c92e ∷ 0x9272_2c85 ∷ 0xa2bf_e8a1 ∷ 0xa81a_664b ∷ 0xc24b_8b70
    ∷ 0xc76c_51a3 ∷ 0xd192_e819 ∷ 0xd699_0624 ∷ 0xf40e_3585 ∷ 0x106a_a070 ∷ 0x19a4_c116
    ∷ 0x1e37_6c08 ∷ 0x2748_774c ∷ 0x34b0_bcb5 ∷ 0x391c_0cb3 ∷ 0x4ed8_aa4a ∷ 0x5b9c_ca4f
    ∷ 0x682e_6ff3 ∷ 0x748f_82ee ∷ 0x78a5_636f ∷ 0x84c8_7814 ∷ 0x8cc7_0208 ∷ 0x90be_fffa
    ∷ 0xa450_6ceb ∷ 0xbef9_a3f7 ∷ 0xc671_78f2 ∷ []

-- `state[0..7]`, and the working variables `a` to `h`.
pub record Hash : Type 0 where
  pub h0 : ℕ
  pub h1 : ℕ
  pub h2 : ℕ
  pub h3 : ℕ
  pub h4 : ℕ
  pub h5 : ℕ
  pub h6 : ℕ
  pub h7 : ℕ

-- A word of the block, its bytes in big-endian order.
unfoldable pub block_word : (ℕ → ℕ) → ℕ → ℕ
block_word block i =
    bit_or
      (bit_or (bit_or (shl (block (i * 4)) 24) (shl (block (i * 4 + 1)) 16))
        (shl (block (i * 4 + 2)) 8))
      (block (i * 4 + 3))

-- The message schedule: the words of the block, and those computed from them.
unfoldable pub first_words : (ℕ → ℕ) → List ℕ
first_words block = fold_from 16 0 (λ i w. w ++ (block_word block i ∷ [])) []

unfoldable pub schedule : (ℕ → ℕ) → List ℕ
schedule block =
    fold_from 48 16
      (λ i w.
        w
        ++ (add32
              (add32 (add32 (sig1 (get_or w (i - 2) 0)) (get_or w (i - 7) 0))
                (sig0 (get_or w (i - 15) 0)))
              (get_or w (i - 16) 0)
            ∷ []))
      (first_words block)

-- One round of compression.
unfoldable pub round : ℕ → ℕ → Hash → Hash
round ki wi v =
    let t1 = add32 (add32 (add32 (add32 v.h7 (ep1 v.h4)) (ch v.h4 v.h5 v.h6)) ki) wi in
    let t2 = add32 (ep0 v.h0) (maj v.h0 v.h1 v.h2) in
    record {
      h0 = add32 t1 t2;
      h1 = v.h0;
      h2 = v.h1;
      h3 = v.h2;
      h4 = add32 v.h3 t1;
      h5 = v.h4;
      h6 = v.h5;
      h7 = v.h6;
    }

abbrev pub add_hash : Hash → Hash → Hash
add_hash s v = record {
  h0 = add32 s.h0 v.h0;
  h1 = add32 s.h1 v.h1;
  h2 = add32 s.h2 v.h2;
  h3 = add32 s.h3 v.h3;
  h4 = add32 s.h4 v.h4;
  h5 = add32 s.h5 v.h5;
  h6 = add32 s.h6 v.h6;
  h7 = add32 s.h7 v.h7;
}

-- `sha256_transform`, on `state` and a block of 64 bytes.
unfoldable pub transform : Hash → (ℕ → ℕ) → Hash
transform s block =
    let w = schedule block in
    add_hash s (fold_from 64 0 (λ i v. round (get_or k i 0) (get_or w i 0) v) s)

-- `SHA256_CTX`.
pub record Context : Type 0 where
  pub buffer : ℕ → ℕ
  pub datalen : ℕ
  pub bitlen0 : ℕ
  pub bitlen1 : ℕ
  pub state : Hash

abbrev pub initial_hash : Hash
initial_hash = record {
  h0 = 0x6a09_e667;
  h1 = 0xbb67_ae85;
  h2 = 0x3c6e_f372;
  h3 = 0xa54f_f53a;
  h4 = 0x510e_527f;
  h5 = 0x9b05_688c;
  h6 = 0x1f83_d9ab;
  h7 = 0x5be0_cd19;
}

-- `sha256_init`, on a context that holds any bytes.
unfoldable pub sha256_init : (ℕ → ℕ) → Context
sha256_init memory = record {
  buffer = memory;
  datalen = 0;
  bitlen0 = 0;
  bitlen1 = 0;
  state = initial_hash;
}

-- The buffer is full: it is hashed, and 512 bits are counted.
abbrev pub flush : Context → Context
flush c =
    let low = add32 c.bitlen0 512 in
    record c {
      datalen = 0;
      bitlen0 = low;
      bitlen1 = if ltb low 512 then add32 c.bitlen1 1 else c.bitlen1;
      state = transform c.state c.buffer;
    }

-- One round of the loop of `sha256_update`.
unfoldable pub feed_byte : Context → ℕ → Context
feed_byte c byte =
    let c' = record c { buffer = update c.buffer c.datalen byte; datalen = c.datalen + 1 } in
    if c'.datalen == 64 then flush c' else c'

unfoldable pub sha256_update : Context → List ℕ → Context
sha256_update c [] = c
sha256_update c (byte ∷ bytes) = sha256_update (feed_byte c byte) bytes
