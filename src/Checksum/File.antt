-- ===== src/Checksum/File.antt =====
-- DShow.cpp, `ComputeFileSHA256`: the digest of what was read.
use win_dv.Prelude.{ℕ, ◌≡◌, refl, ap, ◌∙◌, List, [], ◌∷◌, none, some}
use win_dv.Sha256.{Context, sha256_init, sha256_update}
use win_dv.Sha256.Bytes.{sha256_final, sha256_hex}
use win_dv.Sha256.Padding.{reference}
use win_dv.Sha256.Digest.{update_all, joined, sha256_final-reference}
use win_dv.Checksum.{Reads, read_loop, compute_file_sha256}

-- The pieces that are read before a call fails or reads nothing.
unfoldable pub pieces_read : Reads → List (List ℕ)
pieces_read [] = []
pieces_read (none ∷ rs) = []
pieces_read (some [] ∷ rs) = []
pieces_read (some (b ∷ bs) ∷ rs) = (b ∷ bs) ∷ pieces_read rs

read_loop-update_all : (rs : Reads) (c : Context) → read_loop rs c ≡ update_all c (pieces_read rs)
unfolding read_loop update_all pieces_read
read_loop-update_all [] c = refl
read_loop-update_all (none ∷ rs) c = refl
read_loop-update_all (some [] ∷ rs) c = refl
read_loop-update_all (some (b ∷ bs) ∷ rs) c = read_loop-update_all rs (sha256_update c (b ∷ bs))

-- A file that opens gets the SHA-256 digest, in hexadecimal, of the bytes that were read before a
-- call of `ReadFile` failed or read nothing, in whatever pieces they came; also after a failure.
pub compute_file_sha256-reference :
    (memory : ℕ → ℕ) (rs : Reads)
    → compute_file_sha256 memory (some rs) ≡ some (sha256_hex (reference (joined (pieces_read rs))))
unfolding compute_file_sha256
compute_file_sha256-reference memory rs =
    ap (λ c. some (sha256_hex (sha256_final c))) (read_loop-update_all rs (sha256_init memory))
    ∙ ap (λ d. some (sha256_hex d)) (sha256_final-reference memory (pieces_read rs))
