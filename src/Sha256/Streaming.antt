-- ===== src/Sha256/Streaming.antt =====
-- sha256.c, `sha256_update`: what the context holds once a message is fed to it.
use win_dv.Prelude.{
  ℕ, ◌+◌, ◌*◌, ◌%◌, ◌^◌, ◌<◌, ◌≡◌, refl, ap, sym, ◌∙◌, subst, List, [], ◌∷◌, ◌++◌, length,
  length-append, get_or, arith, ltb, ◌==◌, if◌then◌else◌, if-cases, add32, append-nil, append_assoc,
}
use win_dv.Prelude.Loops.{fold_from}
use win_dv.Queue.{update}
use win_dv.Sha256.{Context, transform, sha256_init, sha256_update, feed_byte, flush}
use win_dv.Sha256.Padding.{
  compress, compress-congr, compress-suc, transform-congr, block_at, get_or-append_left,
  get_or-append_right,
}

-- A context that a message was fed to: its whole blocks are hashed and counted, and the rest is in
-- the buffer.
pub record Fed (c : Context) (m : List ℕ) : Type 0 where
  pub blocks : ℕ
  pub size : length m ≡ blocks * 64 + c.datalen
  pub room : c.datalen < 64
  pub rest : (j : ℕ) → j < c.datalen → c.buffer j ≡ get_or m (blocks * 64 + j) 0
  pub hashed : c.state ≡ compress blocks m
  pub low : c.bitlen0 < 2 ^ 32
  pub count : c.bitlen1 * 2 ^ 32 + c.bitlen0 ≡ blocks * 512 % 2 ^ 64

-- The buffer after one byte more.
rest_one :
    (c : Context) (m : List ℕ) (byte : ℕ) (f : Fed c m) (j : ℕ)
    → j < c.datalen + 1
    → update c.buffer c.datalen byte j ≡ get_or (m ++ (byte ∷ [])) (f.blocks * 64 + j) 0
rest_one c m byte f j lt =
    if-cases (λ (x : ℕ). x ≡ get_or (m ++ (byte ∷ [])) (f.blocks * 64 + j) 0) (c.datalen == j) byte
      (c.buffer j)
      (λ here.
        sym (get_or-append_right m (byte ∷ []) 0 (f.blocks * 64 + j) (ground (arith, f.size))))
      (λ there.
        let before : j < c.datalen = ground arith in
        f.rest j before
        ∙ sym (get_or-append_left m (byte ∷ []) (f.blocks * 64 + j) (omega (arith, f.size))))

size_one : (m : List ℕ) (byte n : ℕ) → length m ≡ n → length (m ++ (byte ∷ [])) ≡ n + 1
size_one m byte n e = omega (arith, length-append m (byte ∷ []), e)

hashed_one :
    (c : Context) (m : List ℕ) (byte : ℕ) (f : Fed c m)
    → c.state ≡ compress f.blocks (m ++ (byte ∷ []))
hashed_one c m byte f =
    f.hashed
    ∙ compress-congr f.blocks m (m ++ (byte ∷ []))
        (λ i lt. sym (get_or-append_left m (byte ∷ []) i (omega (arith, f.size))))

-- 512 added to the two halves of the counter.
count_block :
    (lo hi n : ℕ)
    → lo < 2 ^ 32
    → hi * 2 ^ 32 + lo ≡ n * 512 % 2 ^ 64
    → (if ltb (add32 lo 512) 512 then add32 hi 1 else hi) * 2 ^ 32 + add32 lo 512
      ≡ (n + 1) * 512 % 2 ^ 64
count_block lo hi n lt e = ground arith

pub feed_byte-Fed :
    (c : Context) (m : List ℕ) (byte : ℕ) → Fed c m → Fed (feed_byte c byte) (m ++ (byte ∷ []))
unfolding feed_byte
feed_byte-Fed c m byte f =
    let c' = record c { buffer = update c.buffer c.datalen byte; datalen = c.datalen + 1 } in
    if-cases (λ (r : Context). Fed r (m ++ (byte ∷ []))) (c'.datalen == 64) (flush c') c'
      (λ full.
        let whole : c.datalen + 1 ≡ 64 = ground arith in
        record {
          blocks = f.blocks + 1;
          size = omega (arith, size_one m byte _ f.size, whole);
          room = omega arith;
          rest = λ j lt. absurd (omega arith);
          hashed =
              ap (λ s. transform s c'.buffer) (hashed_one c m byte f)
              ∙ transform-congr _ c'.buffer (block_at (m ++ (byte ∷ [])) f.blocks)
                  (λ j lt. rest_one c m byte f j (omega (arith, whole, lt)))
              ∙ sym (compress-suc f.blocks (m ++ (byte ∷ [])))
              ∙ ap (λ n. compress n (m ++ (byte ∷ []))) (omega arith);
          low = omega arith;
          count = count_block c.bitlen0 c.bitlen1 f.blocks f.low f.count;
        })
      (λ some_room. record {
        blocks = f.blocks;
        size = omega (arith, size_one m byte _ f.size);
        room = ground (arith, f.room);
        rest = rest_one c m byte f;
        hashed = hashed_one c m byte f;
        low = f.low;
        count = f.count;
      })

pub sha256_update-Fed :
    (bytes : List ℕ) (c : Context) (m : List ℕ) → Fed c m → Fed (sha256_update c bytes) (m ++ bytes)
unfolding sha256_update
sha256_update-Fed [] c m f = subst (Fed c) (sym (append-nil m)) f
sha256_update-Fed (byte ∷ bytes) c m f =
    subst (Fed (sha256_update (feed_byte c byte) bytes)) (append_assoc m (byte ∷ []) bytes)
      (sha256_update-Fed bytes (feed_byte c byte) (m ++ (byte ∷ [])) (feed_byte-Fed c m byte f))

pub sha256_init-Fed : (memory : ℕ → ℕ) → Fed (sha256_init memory) []
unfolding sha256_init compress fold_from
sha256_init-Fed memory = record {
  blocks = 0;
  size = refl;
  room = omega arith;
  rest = λ j lt. absurd (omega arith);
  hashed = refl;
  low = omega arith;
  count = refl;
}
