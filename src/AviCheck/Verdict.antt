-- ===== src/AviCheck/Verdict.antt =====
-- AVICheck.cpp, `CheckAVIIntegrity` and `FormatCheckResult`: that the check ends, and its verdict.
use win_dv.Prelude.{
  ℕ, zero, suc, ◌+◌, ◌≤◌, ◌<◌, ◌≡◌, ◌≢◌, refl, Bool, true, false, not, ◌&&◌, ◌||◌, ltb, leb, ◌==◌,
  [], ◌∷◌, none, some, min, arith, Ensures, ensured, if-cases, Bool-cases, Option-cases, inl, inr,
}
use win_dv.AviCheck.{AviFile, Problem, CheckResult, read_exact, fcc_at, dword_at, Scan, no_scan}
use win_dv.AviCheck.Walk.{
  walk_round, walk, avix_round, walk_avix, finish, refuse, early_return, check_avi_integrity, is_ok,
}

-- A round that goes on moves on by 8 bytes at least.
walk_round-moves :
    (f : AviFile) (p : ℕ) (s : Scan) (r : ℕ × Scan) → walk_round f p s ≡ some r → p + 8 ≤ r.0
walk_round-moves f p s r e = ground (arith, e)

avix_round-moves : (f : AviFile) (p q : ℕ) → avix_round f p ≡ some q → p + 8 ≤ q
avix_round-moves f p q e = ground (arith, e)

-- With fuel for one round in every byte that is left, a walk ends.
walk-ends :
    (fuel : ℕ) (f : AviFile) (riff_end p : ℕ) (s : Scan)
    → 0 < fuel
    → riff_end < p + fuel
    → (r : ℕ × Scan) × (walk fuel f riff_end p s ≡ some r)
unfolding walk
walk-ends zero f riff_end p s some_fuel h = absurd (omega arith)
walk-ends (suc fuel) f riff_end p s some_fuel h = elim (Bool-cases (leb (p + 8) riff_end)) [
  | inr done ↦ ((p, s), rw done refl)
  | inl more ↦ elim (Option-cases (walk_round f p s)) [
    | inl stop ↦ ((p, s), rw (more, stop) refl)
    | inr (r, e) ↦
        let on = walk_round-moves f p s r e in
        let (r', e') = walk-ends fuel f riff_end r.0 r.1 (ground arith) (ground arith) in
        (r', rw (more, e) e')
  ]
]

walk_avix-ends :
    (fuel : ℕ) (f : AviFile) (p : ℕ)
    → 0 < fuel
    → f.size < p + fuel
    → (q : ℕ) × (walk_avix fuel f p ≡ some q)
unfolding walk_avix
walk_avix-ends zero f p some_fuel h = absurd (omega arith)
walk_avix-ends (suc fuel) f p some_fuel h = elim (Bool-cases (leb (p + 12) f.size)) [
  | inr done ↦ (p, rw done refl)
  | inl more ↦ elim (Option-cases (avix_round f p)) [
    | inl stop ↦ (p, rw (more, stop) refl)
    | inr (q, e) ↦
        let on = avix_round-moves f p q e in
        let (q', e') = walk_avix-ends fuel f q (ground arith) (ground arith) in
        (q', rw (more, e) e')
  ]
]

check-returned :
    (fuel : ℕ) (f : AviFile) (r : CheckResult)
    → early_return f ≡ some r
    → check_avi_integrity fuel f ≡ some r
unfolding check_avi_integrity
check-returned fuel f r e = ground (arith, e)

check-walked :
    (fuel : ℕ) (f : AviFile) (p : ℕ) (s : Scan) (q : ℕ)
    → early_return f ≡ none
    → walk fuel f (min (8 + dword_at f.bytes 4) f.size) 12 no_scan ≡ some (p, s)
    → walk_avix fuel f p ≡ some q
    → check_avi_integrity fuel f ≡ some (finish f.size s)
unfolding check_avi_integrity
check-walked fuel f p s q e walked walked' = ground (arith, e, walked, walked')

-- The check of any file whatever, however the calls of Windows answer, ends within as many rounds
-- of each walk as the file has bytes, and one more.
pub check_avi_integrity-ends :
    (f : AviFile) → (r : CheckResult) × (check_avi_integrity (f.size + 1) f ≡ some r)
unfolding check_avi_integrity
check_avi_integrity-ends f = elim (Option-cases (early_return f)) [
  | inr (r, e) ↦ (r, check-returned (f.size + 1) f r e)
  | inl e ↦
      let riff_end = min (8 + dword_at f.bytes 4) f.size in
      let (at, walked) =
        walk-ends (f.size + 1) f riff_end 12 no_scan (omega arith) (ground arith) in
      let (q, walked') = walk_avix-ends (f.size + 1) f at.0 (omega arith) (omega arith) in
      (finish f.size at.1, check-walked (f.size + 1) f at.0 at.1 q e walked walked')
]

-- What the line printed for a result says, and the problems beside it.
pub data Verdict (r : CheckResult) : Type 0 where
  ok : is_ok r ≡ true → r.problems ≡ [] → Verdict r
  ok_but_mismatch :
      is_ok r ≡ true
      → r.problems ≡ Problem.count_mismatch r.frame_count r.index_entries ∷ []
      → Verdict r
  fail : is_ok r ≡ false → r.problems ≢ [] → Verdict r

finish-Verdict : (size : ℕ) (s : Scan) → Verdict (finish size s)
unfolding finish
finish-Verdict size s = elim (Bool-cases (is_ok (finish size s))) [
  | inr bad ↦ fail bad (ground (arith, bad))
  | inl good ↦ elim (Bool-cases mismatch) [
    | inl differ ↦ ok_but_mismatch good (ground (arith, good, differ))
    | inr agree ↦ ok good (ground (arith, good, agree))
  ]
]
  where
    frames : ℕ
    frames = (finish size s).frame_count

    mismatch : Bool
    mismatch = ltb 0 s.entries && ltb 0 frames && not (s.entries == frames)

refuse-Verdict : (size : ℕ) (p : Problem) → Verdict (refuse size p)
refuse-Verdict size p = fail refl (λ e. cc)

early_return-Verdict : (f : AviFile) → Ensures Verdict (early_return f)
unfolding early_return
early_return-Verdict f =
    if-cases (Ensures Verdict) (not f.opened) _ _ (λ h. refuse-Verdict _ _)
      λ h.
        if-cases (Ensures Verdict) (not f.size_known) _ _ (λ h. refuse-Verdict _ _)
          λ h.
            if-cases (Ensures Verdict) (f.size == 0) _ _ (λ h. refuse-Verdict _ _)
              λ h.
                if-cases (Ensures Verdict) (ltb f.size 12) _ _ (λ h. refuse-Verdict _ _)
                  λ h.
                    if-cases (Ensures Verdict) (not (read_exact f 0 12)) _ _
                      (λ h. refuse-Verdict _ _)
                      λ h.
                        if-cases (Ensures Verdict)
                          (not (fcc_at f 0 82 73 70 70) || not (fcc_at f 8 65 86 73 32)) _ _
                          (λ h. refuse-Verdict _ _) (λ h. record {})

check-out :
    (fuel : ℕ) (f : AviFile)
    → early_return f ≡ none
    → walk fuel f (min (8 + dword_at f.bytes 4) f.size) 12 no_scan ≡ none
    → check_avi_integrity fuel f ≡ none
unfolding check_avi_integrity
check-out fuel f e out = ground (arith, e, out)

check-out_later :
    (fuel : ℕ) (f : AviFile) (p : ℕ) (s : Scan)
    → early_return f ≡ none
    → walk fuel f (min (8 + dword_at f.bytes 4) f.size) 12 no_scan ≡ some (p, s)
    → walk_avix fuel f p ≡ none
    → check_avi_integrity fuel f ≡ none
unfolding check_avi_integrity
check-out_later fuel f p s e walked out = ground (arith, e, walked, out)

check-Verdict : (fuel : ℕ) (f : AviFile) → Ensures Verdict (check_avi_integrity fuel f)
check-Verdict fuel f = elim (Option-cases (early_return f)) [
  | inr (r, e) ↦ rw (check-returned fuel f r e) (ensured Verdict (early_return-Verdict f) e)
  | inl e ↦ elim (Option-cases (walk fuel f (min (8 + dword_at f.bytes 4) f.size) 12 no_scan)) [
    | inl out ↦ rw (check-out fuel f e out) (record {})
    | inr ((p, s), walked) ↦ elim (Option-cases (walk_avix fuel f p)) [
      | inl out ↦ rw (check-out_later fuel f p s e walked out) (record {})
      | inr (q, walked') ↦ rw (check-walked fuel f p s q e walked walked') (finish-Verdict f.size s)
    ]
  ]
]

-- A line "FAIL" of a check always has a problem to report; a line "OK" has none, but that the
-- frame count of the header and the entries of the index may differ.
pub check_avi_integrity-Verdict :
    (fuel : ℕ) (f : AviFile) (r : CheckResult) → check_avi_integrity fuel f ≡ some r → Verdict r
check_avi_integrity-Verdict fuel f r e = ensured Verdict (check-Verdict fuel f) e
