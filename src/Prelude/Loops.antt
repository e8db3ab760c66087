-- ===== src/Prelude/Loops.antt =====
-- The counted loops of the frame scanners: `for (i = a; i < a + n; ++i)`, as a search that returns
-- at the first hit, and as a fold over a state.
use Prim.Native.Nat.{ℕ, zero, suc, ◌+◌, ◌≤◌, ◌<◌}
use mathlib.Core.Path.{◌≡◌, refl, ap, ap₂, sym, ◌∙◌, subst}
use mathlib.Core.Bool.{Bool}
use mathlib.Core.Option.{Option, none, some}
use native.Mathlib.Omega.{arith}
use native.Mathlib.Decide.{ℕ_discrete}
use win_dv.Prelude.Tests.{Option-cases, if◌then◌else◌}
use mathlib.Core.Logic.{inl, inr}

-- `for (i = a; i < a + n; ++i) { if (...) return ...; }`
unfoldable pub first_from {ℓ} : {A : Type ℓ} → ℕ → ℕ → (ℕ → Option A) → Option A
first_from zero a f = none
first_from (suc n) a f = elim (f a) [ some x ↦ some x | none ↦ first_from n (suc a) f ]

-- `for (i = a; i < a + n; ++i) s = body(i, s);`
unfoldable pub fold_from {ℓ} : {S : Type ℓ} → ℕ → ℕ → (ℕ → S → S) → S → S
fold_from zero a body s = s
fold_from (suc n) a body s = fold_from n (suc a) body (body a s)

module _ {ℓ} {A : Type ℓ} where
  pub first_from-congr :
      (n a : ℕ) (f g : ℕ → Option A)
      → ((i : ℕ) → a ≤ i → i < a + n → f i ≡ g i)
      → first_from n a f ≡ first_from n a g
  unfolding first_from
  first_from-congr zero a f g h = refl
  first_from-congr (suc n) a f g h = ground (
    arith,
    h a (omega arith) (omega arith),
    first_from-congr n (suc a) f g (λ i p q. h i (omega arith) (omega arith)),
  )

  -- A search that fails has failed in every round.
  pub first_from-none :
      (n a : ℕ) (f : ℕ → Option A) (i : ℕ)
      → first_from n a f ≡ none
      → a ≤ i
      → i < a + n
      → f i ≡ none
  unfolding first_from
  first_from-none zero a f i e lo hi = absurd (omega arith)
  first_from-none (suc n) a f i e lo hi = elim (ℕ_discrete a i) [
    | yes same ↦ subst (λ k. f k ≡ none) same (ground arith)
    | no other ↦ first_from-none n (suc a) f i (ground arith) (omega arith) (omega arith)
  ]

  -- The round at which a search succeeds.
  abbrev pub FoundAt : ℕ → ℕ → (ℕ → Option A) → A → ℕ → Type ℓ
  FoundAt n a f x i =
      (a ≤ i) × (i < a + n) × (f i ≡ some x) × ((j : ℕ) → a ≤ j → j < i → f j ≡ none)

  pub first_from-some :
      (n a : ℕ) (f : ℕ → Option A) (x : A) → first_from n a f ≡ some x → (i : ℕ) × FoundAt n a f x i
  unfolding first_from
  first_from-some zero a f x e = cc
  first_from-some (suc n) a f x e = elim (Option-cases (f a)) [
    | inr (y, hit) ↦ (a, (omega arith, omega arith, ground arith, λ j lo hi. absurd (omega arith)))
    | inl miss ↦
        let (i, found) = first_from-some n (suc a) f x (ground arith) in
        (
          i,
          (
            omega arith,
            omega arith,
            found.2,
            λ j lo hi. elim (ℕ_discrete a j) [
              | yes same ↦ subst (λ k. f k ≡ none) same miss
              | no other ↦ found.3 j (omega arith) hi
            ],
          ),
        )
  ]

pub fold_from-congr {ℓ} :
    {S : Type ℓ} (n a : ℕ) (f g : ℕ → S → S)
    → ((i : ℕ) → a ≤ i → i < a + n → (s : S) → f i s ≡ g i s)
    → (s : S) → fold_from n a f s ≡ fold_from n a g s
unfolding fold_from
fold_from-congr zero a f g h s = refl
fold_from-congr (suc n) a f g h s =
    rw (h a (omega arith) (omega arith) s)
      (fold_from-congr n (suc a) f g (λ i p q. h i (omega arith) (omega arith)) (g a s))

-- An invariant indexed by the counter.
pub fold_from_inv {ℓ κ} :
    {S : Type ℓ} (P : ℕ → S → Type κ) (n a : ℕ) (body : ℕ → S → S)
    → ((i : ℕ) → a ≤ i → i < a + n → (s : S) → P i s → P (suc i) (body i s))
    → (s : S) → P a s
    → P (a + n) (fold_from n a body s)
unfolding fold_from
fold_from_inv P zero a body keep s p = subst (λ k. P k s) (omega arith) p
fold_from_inv P (suc n) a body keep s p =
    subst (λ k. P k (fold_from n (suc a) body (body a s))) (omega arith)
      (fold_from_inv P n (suc a) body (λ i lo hi. keep i (omega arith) (omega arith)) (body a s)
        (keep a (omega arith) (omega arith) s p))

-- How many numbers of `a, …, a + n - 1` pass a test.
unfoldable pub count_from : ℕ → ℕ → (ℕ → Bool) → ℕ
count_from zero a p = 0
count_from (suc n) a p = (if p a then 1 else 0) + count_from n (suc a) p

module _ {ℓ} {S : Type ℓ} where
  -- A loop in two parts.
  pub fold_from-add :
      (m n k a b : ℕ) (body : ℕ → S → S) (s : S)
      → b ≡ a + m
      → k ≡ m + n
      → fold_from n b body (fold_from m a body s) ≡ fold_from k a body s
  unfolding fold_from
  fold_from-add zero n k a b body s eb ek =
      let size : n ≡ k = omega (arith, ek) in
      let from : b ≡ a = omega (arith, eb) in ap₂ (λ k' b'. fold_from k' b' body s) size from
  fold_from-add (suc m) n zero a b body s eb ek = absurd (omega (arith, ek))
  fold_from-add (suc m) n (suc k) a b body s eb ek =
      fold_from-add m n k (suc a) b body (body a s) (omega (arith, eb)) (omega (arith, ek))

  -- A loop with another counter, `d` ahead.
  pub fold_from-shift :
      (n a b d : ℕ) (g h : ℕ → S → S)
      → b ≡ a + d
      → ((i : ℕ) (s : S) → g i s ≡ h (i + d) s)
      → (s : S) → fold_from n a g s ≡ fold_from n b h s
  unfolding fold_from
  fold_from-shift zero a b d g h e same s = refl
  fold_from-shift (suc n) a b d g h e same s =
      fold_from-shift n (suc a) (suc b) d g h (omega (arith, e)) same (g a s)
      ∙ ap (fold_from n (suc b) h) (same a s ∙ ap (λ i. h i s) (sym e))
