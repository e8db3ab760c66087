-- ===== src/FileList/Played.antt =====
-- WinDV.cpp, DropFilesEdit.cpp, DVToolsDlg.cpp and DShow.cpp: the files that are chosen are those
-- that the joiner plays.
use win_dv.Prelude.{
  ℕ, ◌≡◌, ◌≢◌, refl, ap, sym, ◌∙◌, Bool, true, false, not, ◌==◌, List, [], ◌∷◌, ◌++◌, none, some,
  arith, append_assoc, append-nil, Each, Each-append,
}
use win_dv.Joiner.{tokens, is_space, trim_left, trim_right, found, expand, sort, insert}
use win_dv.FileList.{extended, gather, on_drop_files, bar, select_files, command_files, record_text}

-- All tokens of a text.
abbrev pub all_tokens : List ℕ → List (List ℕ)
all_tokens text = let (token, more) = tokens text in token ∷ more

tokens-append :
    (x y : List ℕ) → tokens (x ++ (124 ∷ y)) ≡ ((tokens x).0, (tokens x).1 ++ all_tokens y)
tokens-append [] y = refl
tokens-append (c ∷ x) y = ground (arith, tokens-append x y)

tokens-plain : (x : List ℕ) → Each (λ c. c ≢ 124) x → tokens x ≡ (x, [])
tokens-plain [] clean = refl
tokens-plain (c ∷ x) clean =
    let differs : (c == 124) ≡ false = ground (arith, clean.0) in
    rw (differs, tokens-plain x clean.1) refl

-- A token without a bar, before one.
tokens-bar : (x y : List ℕ) → Each (λ c. c ≢ 124) x → all_tokens (x ++ (124 ∷ y)) ≡ x ∷ all_tokens y
tokens-bar x y clean =
    ap (λ (s : List ℕ × List (List ℕ)). s.0 ∷ s.1) (tokens-append x y)
    ∙ ap (λ (s : List ℕ × List (List ℕ)). s.0 ∷ (s.1 ++ all_tokens y)) (tokens-plain x clean)

abbrev solid_start : List ℕ → Bool
solid_start [] = false
solid_start (c ∷ cs) = not (is_space c)

-- A name as the dialogs deliver it, of a file that is there: it has no bar, and no white space at
-- its ends.
pub record IsName (find : List ℕ → List (List ℕ)) (p : List ℕ) : Type 0 where
  pub solid : solid_start p ≡ true
  pub ends_solid : trim_right p ≡ p
  pub no_bar : Each (λ c. c ≢ 124) p
  pub there : find p ≡ p ∷ []

trim_right-space : (xs : List ℕ) → trim_right (xs ++ (32 ∷ [])) ≡ trim_right xs
trim_right-space [] = refl
trim_right-space (x ∷ xs) = rw (trim_right-space xs) refl

trim_left-solid : (p r : List ℕ) → solid_start p ≡ true → trim_left (p ++ r) ≡ p ++ r
trim_left-solid [] r e = cc
trim_left-solid (c ∷ p) r e = ground (arith, e)

-- A token that names a file, or none.
expand-name :
    (find : List ℕ → List (List ℕ)) (token p : List ℕ) (rest : List (List ℕ))
    (files : List (List ℕ))
    → IsName find p
    → trim_right (trim_left token) ≡ p
    → expand find rest ≡ found files
    → expand find (token ∷ rest) ≡ found (p ∷ files)
unfolding expand sort insert
expand-name find token [] rest files n e more = absurd (let s = n.solid in cc)
expand-name find token (c ∷ cs) rest files n e more = ground (arith, e, more, n.there)

expand-nothing :
    (find : List ℕ → List (List ℕ)) (token : List ℕ) (rest : List (List ℕ))
    → trim_right (trim_left token) ≡ []
    → expand find (token ∷ rest) ≡ expand find rest
unfolding expand
expand-nothing find token rest e = ground (arith, e)

-- An empty token at the end.
expand-end :
    (find : List ℕ → List (List ℕ)) (ts : List (List ℕ))
    → expand find (ts ++ ([] ∷ [])) ≡ expand find ts
unfolding expand
expand-end find [] = refl
expand-end find (t ∷ ts) = ground (arith, expand-end find ts)

-- White space before a name, or none.
abbrev lead : Bool → List ℕ
lead true = 32 ∷ []
lead false = []

lead-clean : (b : Bool) → Each (λ c. c ≢ 124) (lead b)
lead-clean true = (omega arith, record {})
lead-clean false = record {}

trim_lead : (b : Bool) (xs : List ℕ) → trim_left (lead b ++ xs) ≡ trim_left xs
trim_lead true xs = refl
trim_lead false xs = refl

trim-lead : (b : Bool) → trim_right (trim_left (lead b)) ≡ []
trim-lead true = refl
trim-lead false = refl

-- A name with white space around it.
trim-name :
    (find : List ℕ → List (List ℕ)) (b b' : Bool) (p : List ℕ)
    → IsName find p
    → trim_right (trim_left (lead b ++ (p ++ lead b'))) ≡ p
trim-name find b true p n =
    ap trim_right (trim_lead b (p ++ (32 ∷ [])) ∙ trim_left-solid p (32 ∷ []) n.solid)
    ∙ trim_right-space p
    ∙ n.ends_solid
trim-name find b false p n =
    ap trim_right (trim_lead b (p ++ []) ∙ trim_left-solid p [] n.solid ∙ append-nil p)
    ∙ n.ends_solid

abbrev pub AllNames : (List ℕ → List (List ℕ)) → List (List ℕ) → Type 0
AllNames find = Each (IsName find)

-- The first of several names, up to its bar.
first_token :
    (b : Bool) (p s y : List ℕ)
    → lead b ++ ((p ++ (bar ++ s)) ++ y)
      ≡ (lead b ++ (p ++ lead true)) ++ (124 ∷ lead true ++ (s ++ y))
first_token b p s y =
    ap (λ r. lead b ++ r)
      (append_assoc p (bar ++ s) y ∙ sym (append_assoc p (lead true) (124 ∷ lead true ++ (s ++ y))))
    ∙ sym (append_assoc (lead b) (p ++ lead true) (124 ∷ lead true ++ (s ++ y)))

-- The names of a list, before a bar.
expand-select_files :
    (find : List ℕ → List (List ℕ)) (b : Bool) (ps : List (List ℕ)) (y : List ℕ)
    (files : List (List ℕ))
    → AllNames find ps
    → expand find (all_tokens y) ≡ found files
    → expand find (all_tokens (lead b ++ (select_files ps ++ (124 ∷ y)))) ≡ found (ps ++ files)
unfolding select_files
expand-select_files find b [] y files names more =
    ap (expand find) (tokens-bar (lead b) y (lead-clean b))
    ∙ expand-nothing find (lead b) (all_tokens y) (trim-lead b)
    ∙ more
expand-select_files find b (p ∷ []) y files names more =
    ap (expand find) (
      ap all_tokens (sym (append_assoc (lead b) p (124 ∷ y)))
      ∙ tokens-bar (lead b ++ p) y (Each-append _ (lead b) p (lead-clean b) names.0.no_bar))
    ∙ expand-name find (lead b ++ p) p (all_tokens y) files names.0
        (ap (λ q. trim_right (trim_left (lead b ++ q))) (sym (append-nil p))
          ∙ trim-name find b false p names.0)
        more
expand-select_files find b (p ∷ q ∷ ps) y files names more =
    let after = select_files (q ∷ ps) ++ (124 ∷ y) in
    ap (expand find) (
      ap all_tokens (first_token b p (select_files (q ∷ ps)) (124 ∷ y))
      ∙ tokens-bar (lead b ++ (p ++ lead true)) (lead true ++ after) (
          Each-append _ (lead b) (p ++ lead true) (lead-clean b)
            (Each-append _ p (lead true) names.0.no_bar (lead-clean true))))
    ∙ expand-name find (lead b ++ (p ++ lead true)) p (all_tokens (lead true ++ after))
        ((q ∷ ps) ++ files) names.0 (trim-name find b true p names.0)
        (expand-select_files find true (q ∷ ps) y files names.1 more)

-- The last list, which no bar follows.
expand-last :
    (find : List ℕ → List (List ℕ)) (ps : List (List ℕ))
    → AllNames find ps
    → expand find (all_tokens (select_files ps)) ≡ found ps
unfolding expand
expand-last find ps names =
    sym (expand-end find (all_tokens (select_files ps)))
    ∙ ap (expand find)
        (sym (ap (λ (s : List ℕ × List (List ℕ)). s.0 ∷ s.1) (tokens-append (select_files ps) [])))
    ∙ expand-select_files find false ps [] [] names refl
    ∙ ap found (append-nil ps)

-- Names with a bar before each.
bars : List (List ℕ) → List ℕ
bars [] = []
bars (p ∷ ps) = bar ++ (p ++ bars ps)

select_files-bars : (p : List ℕ) (ps : List (List ℕ)) → select_files (p ∷ ps) ≡ p ++ bars ps
unfolding select_files bars
select_files-bars p [] = sym (append-nil p)
select_files-bars p (q ∷ ps) = ap (λ r. p ++ (bar ++ r)) (select_files-bars q ps)

-- A text that has begun grows by bars.
gather-bars :
    (c : ℕ) (text : List ℕ) (ps : List (List ℕ))
    → gather bar some ps (c ∷ text) ≡ (c ∷ text) ++ bars ps
unfolding gather bars
gather-bars c text [] = sym (append-nil (c ∷ text))
gather-bars c text (p ∷ ps) =
    gather-bars c (text ++ (bar ++ p)) ps ∙ append_assoc (c ∷ text) (bar ++ p) (bars ps)

command_files-gather :
    (ps : List (List ℕ)) (text : List ℕ) → command_files ps text ≡ gather bar some ps text
unfolding command_files gather
command_files-gather [] text = refl
command_files-gather (p ∷ ps) text = command_files-gather ps (extended bar text p)

gather-select_files :
    (p : List ℕ) (ps : List (List ℕ))
    → solid_start p ≡ true
    → gather bar some (p ∷ ps) [] ≡ select_files (p ∷ ps)
unfolding gather
gather-select_files [] ps e = absurd (cc)
gather-select_files (c ∷ p) ps e = gather-bars c p ps ∙ sym (select_files-bars (c ∷ p) ps)

select_files-nonempty :
    (p : List ℕ) (ps : List (List ℕ)) (text : List ℕ)
    → solid_start p ≡ true
    → gather bar some (p ∷ ps) [] ≡ text
    → on_drop_files bar some (p ∷ ps) ≡ some text
unfolding on_drop_files gather bars
select_files-nonempty [] ps text s e = absurd (cc)
select_files-nonempty (c ∷ p) ps text s e =
    ap (λ r. elim r [ [] ↦ none | d ∷ ds ↦ some (d ∷ ds) ]) (gather-bars c p ps)
    ∙ ap some (sym (gather-bars c p ps) ∙ e)

expand-record_text :
    (find : List ℕ → List (List ℕ)) (ps fs ss : List (List ℕ))
    → AllNames find ps
    → AllNames find fs
    → AllNames find ss
    → expand find (all_tokens (record_text (select_files ps) (select_files fs) (select_files ss)))
      ≡ found (ps ++ (fs ++ ss))
expand-record_text find ps fs ss p f s =
    expand-select_files find false ps (select_files fs ++ (124 ∷ select_files ss)) (fs ++ ss) p
      (expand-select_files find false fs (select_files ss) ss f (expand-last find ss s))

-- Files that are chosen in the dialog, dropped on the control or given to the command "record" make
-- the same text; and of this text, between those of a prefix and a suffix, the joiner plays the
-- files of the prefix, the files chosen and the files of the suffix, in that order. Each name is
-- that of one file that is there, and has no bar and no white space at its ends.
pub chosen_files_played :
    (find : List ℕ → List (List ℕ)) (ps : List (List ℕ)) (f : List ℕ) (fs ss : List (List ℕ))
    → AllNames find ps
    → AllNames find (f ∷ fs)
    → AllNames find ss
    → (on_drop_files bar some (f ∷ fs) ≡ some (select_files (f ∷ fs)))
      × (command_files (f ∷ fs) [] ≡ select_files (f ∷ fs))
      × (expand find
            (all_tokens (record_text (select_files ps) (select_files (f ∷ fs)) (select_files ss)))
          ≡ found (ps ++ ((f ∷ fs) ++ ss)))
chosen_files_played find ps f fs ss p names s =
    let first = names.0 in
    let same = gather-select_files f fs first.solid in
    (
      select_files-nonempty f fs (select_files (f ∷ fs)) first.solid same,
      command_files-gather (f ∷ fs) [] ∙ same,
      expand-record_text find ps (f ∷ fs) ss p names s,
    )
