-- ===== src/Dv/Subcode.antt =====
-- DV.cpp, `GetSSYBPack`: which pack the scan finds, and which bytes it reads.
use native.Mathlib.Nat.{add-zero}
use win_dv.Prelude.{
  ℕ, dec_lt, Option-cases, ◌+◌, ◌≤◌, ◌<◌, ◌≡◌, ◌≢◌, refl, sym, subst, ◌⊎◌, inl, inr, some, none,
  arith,
}
use win_dv.Prelude.Loops.{first_from-none, first_from-some, first_from-congr}
use win_dv.Dv.{
  Bytes, Pack, pack_at, packet, seq_count, match_packet, scan_block, scan_seq, get_ssyb_pack,
}

-- An address at which a packet of one of the first `n` sequences has its payload.
pub record IsPacket (n o : ℕ) : Type 0 where
  pub seq : ℕ
  pub block : ℕ
  pub sync : ℕ
  pub seq_in : seq < n
  pub block_in : block < 2
  pub sync_in : sync < 6
  pub addr : o ≡ packet seq block sync

match_packet-some :
    (s : Bytes) (num o : ℕ) (p : Pack)
    → match_packet s num o ≡ some p
    → (s o ≡ num) × (p ≡ pack_at s o)
match_packet-some s num o p e = ground arith

match_packet-none : (s : Bytes) (num o : ℕ) → match_packet s num o ≡ none → s o ≢ num
match_packet-none s num o e = ground arith

-- No pack is returned only if no packet has the ID byte looked for.
pub get_ssyb_pack-none :
    (s : Bytes) (len num o : ℕ)
    → get_ssyb_pack s len num ≡ none
    → IsPacket (seq_count len) o
    → s o ≢ num
unfolding get_ssyb_pack
get_ssyb_pack-none s len num o e at = λ hit. match_packet-none s num (packet i j k) missed (cc)
  where
    open at use {seq as i, block as j, sync as k}

    in_seq : scan_seq s num i ≡ none
    in_seq = first_from-none (seq_count len) 0 (scan_seq s num) i e (omega arith) (omega arith)

    in_block : scan_block s num i j ≡ none
    in_block = first_from-none 2 0 (scan_block s num i) j in_seq (omega arith) (omega arith)

    missed : match_packet s num (packet i j k) ≡ none
    missed =
        first_from-none 6 0 (λ n. match_packet s num (packet i j n)) k in_block (omega arith)
          (omega arith)

-- Where the three loops stand when a pack is found.
record Found (s : Bytes) (len num : ℕ) (p : Pack) : Type 0 where
  i : ℕ
  j : ℕ
  k : ℕ
  i_in : i < seq_count len
  j_in : j < 2
  k_in : k < 6
  hit : match_packet s num (packet i j k) ≡ some p
  seqs : (i' : ℕ) → i' < i → scan_seq s num i' ≡ none
  blocks : (j' : ℕ) → j' < j → scan_block s num i j' ≡ none
  syncs : (k' : ℕ) → k' < k → match_packet s num (packet i j k') ≡ none

get_ssyb_pack-Found :
    (s : Bytes) (len num : ℕ) (p : Pack) → get_ssyb_pack s len num ≡ some p → Found s len num p
unfolding get_ssyb_pack
get_ssyb_pack-Found s len num p e =
    let (i, at_i) = first_from-some (seq_count len) 0 (scan_seq s num) p e in
    let (j, at_j) = first_from-some 2 0 (scan_block s num i) p at_i.2 in
    let (k, at_k) = first_from-some 6 0 (λ n. match_packet s num (packet i j n)) p at_j.2 in
    record {
      i = i;
      j = j;
      k = k;
      i_in = omega arith;
      j_in = at_j.1;
      k_in = at_k.1;
      hit = at_k.2;
      seqs = λ i' h. at_i.3 i' (omega arith) h;
      blocks = λ j' h. at_j.3 j' (omega arith) h;
      syncs = λ k' h. at_k.3 k' (omega arith) h;
    }

-- Packet addresses are ordered as the three loops are nested.
packet-lt_cases :
    (i j k i' j' k' : ℕ)
    → j < 2
    → k < 6
    → j' < 2
    → k' < 6
    → packet i j k < packet i' j' k'
    → (i < i') ⊎ ((i ≡ i') × (j < j')) ⊎ ((i ≡ i') × ((j ≡ j') × (k < k')))
packet-lt_cases i j k i' j' k' hj hk hj' hk' h = elim (dec_lt i i') [
  | yes lo ↦ inl lo
  | no hi ↦ elim (dec_lt j j') [
    | yes lo ↦ inr (inl (omega arith, lo))
    | no same ↦ inr (inr (omega arith, (omega arith, omega arith)))
  ]
]

-- A packet at a lower address than the one found was looked at before, and passed over.
earlier-ne :
    (s : Bytes) (len num : ℕ) (p : Pack) (f : Found s len num p) (o : ℕ)
    → IsPacket (seq_count len) o
    → o < packet f.i f.j f.k
    → s o ≢ num
earlier-ne s len num p f o at h hit = elim (before) [
  | inl lo ↦
      match_packet-none s num (packet i j k)
        (first_from-none 6 0 (λ n. match_packet s num (packet i j n)) k
          (first_from-none 2 0 (scan_block s num i) j (f.seqs i lo) (omega arith) (omega arith))
          (omega arith) (omega arith))
        (cc)
  | inr (inl (e, lo)) ↦
      match_packet-none s num (packet i j k)
        (first_from-none 6 0 (λ n. match_packet s num (packet i j n)) k
          (subst (λ n. scan_block s num n j ≡ none) (sym e) (f.blocks j lo)) (omega arith)
          (omega arith))
        (cc)
  | inr (inr (e, (e', lo))) ↦
      match_packet-none s num (packet i j k) (rw (e, e') (f.syncs k lo)) (cc)
]
  where
    open at use {seq as i, block as j, sync as k}

    before : (i < f.i) ⊎ ((i ≡ f.i) × (j < f.j)) ⊎ ((i ≡ f.i) × ((j ≡ f.j) × (k < f.k)))
    before = packet-lt_cases i j k f.i f.j f.k at.block_in at.sync_in f.j_in f.k_in (omega arith)

-- A pack that is returned is the one at the lowest packet address whose ID byte is the one looked
-- for.
pub get_ssyb_pack-some :
    (s : Bytes) (len num : ℕ) (p : Pack)
    → get_ssyb_pack s len num ≡ some p
    → (o : ℕ) × IsPacket (seq_count len) o
      × (s o ≡ num)
      × (p ≡ pack_at s o)
      × ((o' : ℕ) → IsPacket (seq_count len) o' → o' < o → s o' ≢ num)
get_ssyb_pack-some s len num p e =
    let f = get_ssyb_pack-Found s len num p e in
    let here = match_packet-some s num (packet f.i f.j f.k) p f.hit in
    (
      packet f.i f.j f.k,
      record {
        seq = f.i;
        block = f.j;
        sync = f.k;
        seq_in = f.i_in;
        block_in = f.j_in;
        sync_in = f.k_in;
        addr = refl;
      },
      here.0,
      here.1,
      earlier-ne s len num p f,
    )

match_packet-congr :
    (s t : Bytes) (num o : ℕ)
    → ((d : ℕ) → d < 5 → s (o + d) ≡ t (o + d))
    → match_packet s num o ≡ match_packet t num o
match_packet-congr s t num o same = ground (
  arith,
  first,
  same 1 (omega arith),
  same 2 (omega arith),
  same 3 (omega arith),
  same 4 (omega arith),
)
  where
    first : s o ≡ t o
    first = rw add-zero at (same 0 (omega arith))

-- Every byte of every packet lies in the frame.
in_frame :
    (len i j k d : ℕ)
    → 120000 ≤ len
    → i < seq_count len
    → j < 2
    → k < 6
    → d < 5
    → packet i j k + d < len
in_frame len i j k d size hi hj hk hd = ground arith

-- In a frame of a valid size the scan reads inside the frame only: it depends on nothing else.
pub get_ssyb_pack-congr :
    (s t : Bytes) (len num : ℕ)
    → 120000 ≤ len
    → ((o : ℕ) → o < len → s o ≡ t o)
    → get_ssyb_pack s len num ≡ get_ssyb_pack t len num
unfolding get_ssyb_pack
get_ssyb_pack-congr s t len num size same =
    first_from-congr (seq_count len) 0 (scan_seq s num) (scan_seq t num) λ i lo hi.
      first_from-congr 2 0 (scan_block s num i) (scan_block t num i) λ j lo' hj.
        first_from-congr 6 0 (λ k. match_packet s num (packet i j k))
          (λ k. match_packet t num (packet i j k))
          λ k lo'' hk.
            match_packet-congr s t num (packet i j k)
              λ d hd. same _ (in_frame len i j k d size (omega arith) hj hk hd)

-- The lowest packet address whose ID byte is `num`.
pub record IsFirst (s : Bytes) (len num o : ℕ) : Type 0 where
  pub packet_addr : IsPacket (seq_count len) o
  pub id_byte : s o ≡ num
  pub lowest : (o' : ℕ) → IsPacket (seq_count len) o' → o' < o → s o' ≢ num

-- The pack at that address is the one returned.
pub get_ssyb_pack_first :
    (s : Bytes) (len num o : ℕ) → IsFirst s len num o → get_ssyb_pack s len num ≡ some (pack_at s o)
get_ssyb_pack_first s len num o f = elim (Option-cases (get_ssyb_pack s len num)) [
  | inl missing ↦ absurd (get_ssyb_pack-none s len num o missing f.packet_addr f.id_byte)
  | inr (p, found) ↦
      let (o', at, id, pack, lowest) = get_ssyb_pack-some s len num p found in
      elim (dec_lt o o') [
        | yes lo ↦ absurd (lowest o f.packet_addr lo f.id_byte)
        | no hi ↦ elim (dec_lt o' o) [
          | yes lo ↦ absurd (f.lowest o' at lo id)
          | no hi' ↦ let same : o' ≡ o = omega arith in ground arith
        ]
      ]
]
