-- ===== src/Sha256/Standard.antt =====
-- SHA-256 as FIPS 180-4 defines it: the functions of section 4.1.2, the constants of 4.2.2 and 5.3.3
-- as the first 32 bits of the fractional parts of roots of primes, and the computation of 6.2.2.
-- Of sha256.c it has the record of eight words alone. `x ⊞ y` is the sum modulo 2^32.
use Prim.Native.Nat.{bit_and, bit_or, bit_xor}
use win_dv.Prelude.{
  true, false, ℕ, zero, suc, ◌+◌, ◌-◌, ◌*◌, ◌/◌, ◌%◌, ◌^◌, ◌≤◌, ◌<◌, ◌≡◌, refl, ap, ap₂, ◌∙◌, sym,
  ltb, leb, if◌then◌else◌, List, [], ◌∷◌, ◌++◌, map, get_or, arith,
}
use win_dv.Prelude.Loops.{fold_from, fold_from-congr, fold_from-add}
use win_dv.Sha256.{
  Hash, transform, schedule, first_words, block_word, round, rotr, ch, maj, ep0, ep1, sig0, sig1, k,
  initial_hash, add_hash,
}
use win_dv.Sha256.Bytes.{hash_bytes}

infixl 65 ◌⊞◌
abbrev pub ◌⊞◌ : ℕ → ℕ → ℕ
x ⊞ y = (x + y) % 2 ^ 32

-- ROTR^n(x), and the exclusive sum of three words.
abbrev rotate_right : ℕ → ℕ → ℕ
rotate_right n x = bit_or (x / 2 ^ n) (x * 2 ^ (32 - n) % 2 ^ 32)

abbrev xor3 : ℕ → ℕ → ℕ → ℕ
xor3 x y z = bit_xor (bit_xor x y) z

abbrev choose : ℕ → ℕ → ℕ → ℕ
choose x y z = bit_xor (bit_and x y) (bit_and (2 ^ 32 - 1 - x) z)

abbrev majority : ℕ → ℕ → ℕ → ℕ
majority x y z = xor3 (bit_and x y) (bit_and x z) (bit_and y z)

abbrev big_sigma0 : ℕ → ℕ
big_sigma0 x = xor3 (rotate_right 2 x) (rotate_right 13 x) (rotate_right 22 x)

abbrev big_sigma1 : ℕ → ℕ
big_sigma1 x = xor3 (rotate_right 6 x) (rotate_right 11 x) (rotate_right 25 x)

abbrev small_sigma0 : ℕ → ℕ
small_sigma0 x = xor3 (rotate_right 7 x) (rotate_right 18 x) (x / 2 ^ 3)

abbrev small_sigma1 : ℕ → ℕ
small_sigma1 x = xor3 (rotate_right 17 x) (rotate_right 19 x) (x / 2 ^ 10)

-- The greatest `r` of `bits` bits above `from` of which the power `e` is at most `n`.
unfoldable pub root : ℕ → ℕ → ℕ → ℕ → ℕ
root e n zero from = from
root e n (suc bits) from =
    root e n bits (if leb ((from + 2 ^ bits) ^ e) n then from + 2 ^ bits else from)

-- The first 32 bits of the fractional part of the root of degree `e` of a number below 2^40.
abbrev pub fraction : ℕ → ℕ → ℕ
fraction e p = root e (p * 2 ^ (32 * e)) 40 0 % 2 ^ 32

abbrev pub primes : List ℕ
primes =
    2 ∷ 3 ∷ 5 ∷ 7 ∷ 11 ∷ 13 ∷ 17 ∷ 19 ∷ 23 ∷ 29 ∷ 31 ∷ 37 ∷ 41 ∷ 43 ∷ 47 ∷ 53 ∷ 59 ∷ 61 ∷ 67 ∷ 71
    ∷ 73 ∷ 79 ∷ 83 ∷ 89 ∷ 97 ∷ 101 ∷ 103 ∷ 107 ∷ 109 ∷ 113 ∷ 127 ∷ 131 ∷ 137 ∷ 139 ∷ 149 ∷ 151 ∷ 157
    ∷ 163 ∷ 167 ∷ 173 ∷ 179 ∷ 181 ∷ 191 ∷ 193 ∷ 197 ∷ 199 ∷ 211 ∷ 223 ∷ 227 ∷ 229 ∷ 233 ∷ 239 ∷ 241
    ∷ 251 ∷ 257 ∷ 263 ∷ 269 ∷ 271 ∷ 277 ∷ 281 ∷ 283 ∷ 293 ∷ 307 ∷ 311 ∷ []

-- The constants K: cube roots of the first 64 primes.
unfoldable pub constants : List ℕ
constants = map (fraction 3) primes

-- H(0): square roots of the first eight primes.
unfoldable pub initial_words : Hash
initial_words = record {
  h0 = fraction 2 2;
  h1 = fraction 2 3;
  h2 = fraction 2 5;
  h3 = fraction 2 7;
  h4 = fraction 2 11;
  h5 = fraction 2 13;
  h6 = fraction 2 17;
  h7 = fraction 2 19;
}

-- Word `t` of a block, of which the bytes are in big-endian order.
abbrev message_word : (ℕ → ℕ) → ℕ → ℕ
message_word block t =
    bit_or
      (bit_or (bit_or (block (t * 4) * 2 ^ 24 % 2 ^ 32) (block (t * 4 + 1) * 2 ^ 16 % 2 ^ 32))
        (block (t * 4 + 2) * 2 ^ 8 % 2 ^ 32))
      (block (t * 4 + 3))

-- W_t, from the words before it.
abbrev scheduled : (ℕ → ℕ) → ℕ → List ℕ → ℕ
scheduled block t w =
    if ltb t 16
    then message_word block t
    else small_sigma1 (get_or w (t - 2) 0)
      ⊞ get_or w (t - 7) 0
      ⊞ small_sigma0 (get_or w (t - 15) 0)
      ⊞ get_or w (t - 16) 0

abbrev next_word : (ℕ → ℕ) → ℕ → List ℕ → List ℕ
next_word block t w = w ++ (scheduled block t w ∷ [])

unfoldable pub words : (ℕ → ℕ) → List ℕ
words block = fold_from 64 0 (next_word block) []

-- Step 3 of 6.2.2, on the working variables a, …, h.
abbrev step : ℕ → ℕ → Hash → Hash
step kt wt v =
    let record { h0 = a; h1 = b; h2 = c; h3 = d; h4 = e; h5 = f; h6 = g; h7 = h } = v in
    let t1 = h ⊞ big_sigma1 e ⊞ choose e f g ⊞ kt ⊞ wt in
    let t2 = big_sigma0 a ⊞ majority a b c in
    record { h0 = t1 ⊞ t2; h1 = a; h2 = b; h3 = c; h4 = d ⊞ t1; h5 = e; h6 = f; h7 = g }

-- The intermediate hash value after a block.
unfoldable pub next_hash : Hash → (ℕ → ℕ) → Hash
next_hash s block =
    let v = fold_from 64 0 (λ t v. step (get_or constants t 0) (get_or (words block) t 0) v) s in
    record {
      h0 = s.h0 ⊞ v.h0;
      h1 = s.h1 ⊞ v.h1;
      h2 = s.h2 ⊞ v.h2;
      h3 = s.h3 ⊞ v.h3;
      h4 = s.h4 ⊞ v.h4;
      h5 = s.h5 ⊞ v.h5;
      h6 = s.h6 ⊞ v.h6;
      h7 = s.h7 ⊞ v.h7;
    }

abbrev big_endian : ℕ → List ℕ
big_endian x = x / 2 ^ 24 % 256 ∷ x / 2 ^ 16 % 256 ∷ x / 2 ^ 8 % 256 ∷ x / 2 ^ 0 % 256 ∷ []

-- H0 || H1 || … || H7.
unfoldable pub digest : Hash → List ℕ
digest s =
    let record { h0 = a; h1 = b; h2 = c; h3 = d; h4 = e; h5 = f; h6 = g; h7 = h } = s in
    big_endian a
    ++ (big_endian b
        ++ (big_endian c
            ++ (big_endian d
                ++ (big_endian e ++ (big_endian f ++ (big_endian g ++ big_endian h))))))

-- sha256.c has these.
k-constants : k ≡ constants
unfolding constants root
k-constants = refl

pub initial_hash-words : initial_hash ≡ initial_words
unfolding initial_words root
initial_hash-words = refl

pub hash_bytes-digest : (s : Hash) → hash_bytes s ≡ digest s
unfolding hash_bytes digest
hash_bytes-digest s = refl

scheduled-first :
    (block : ℕ → ℕ) (t : ℕ) (w : List ℕ) → t < 16 → scheduled block t w ≡ message_word block t
scheduled-first block t w lt = let first : ltb t 16 ≡ true = ground (arith, lt) in rw first refl

scheduled-later :
    (block : ℕ → ℕ) (t : ℕ) (w : List ℕ)
    → 16 ≤ t
    → scheduled block t w
      ≡ small_sigma1 (get_or w (t - 2) 0)
        ⊞ get_or w (t - 7) 0
        ⊞ small_sigma0 (get_or w (t - 15) 0)
        ⊞ get_or w (t - 16) 0
scheduled-later block t w le = let later : ltb t 16 ≡ false = ground (arith, le) in rw later refl

schedule-words : (block : ℕ → ℕ) → schedule block ≡ words block
unfolding schedule first_words words block_word sig0 sig1 rotr
schedule-words block =
    ap (fold_from 48 16 _) (
      fold_from-congr 16 0 _ (next_word block)
        (λ t lo hi w. ap (λ x. w ++ (x ∷ [])) (sym (scheduled-first block t w (omega (arith, hi)))))
        [])
    ∙ fold_from-congr 48 16 _ (next_word block)
        (λ t lo hi w. ap (λ x. w ++ (x ∷ [])) (sym (scheduled-later block t w lo)))
        (fold_from 16 0 (next_word block) [])
    ∙ fold_from-add 16 48 64 0 16 (next_word block) [] refl refl

round-step : (kt wt : ℕ) (v : Hash) → round kt wt v ≡ step kt wt v
unfolding round ch maj ep0 ep1 rotr
round-step kt wt v = refl

-- The compression of sha256.c is that of the standard.
pub transform-next_hash : (s : Hash) (block : ℕ → ℕ) → transform s block ≡ next_hash s block
unfolding transform next_hash
transform-next_hash s block =
    ap (λ v. add_hash s v)
      (fold_from-congr 64 0 _ _
        (λ t lo hi v.
          ap₂ (λ kt wt. round kt wt v) (ap (λ c. get_or c t 0) k-constants)
            (ap (λ w. get_or w t 0) (schedule-words block))
          ∙ round-step (get_or constants t 0) (get_or (words block) t 0) v)
        s)
