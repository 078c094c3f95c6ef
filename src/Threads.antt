-- ===== src/Threads.antt =====
-- What a number of threads do together: the place of each as a function of its index, and how often
-- a kind of place occurs among them.
use pa.Prelude.{
  ◌*◌, ℕ, zero, suc, ◌+◌, ◌≤◌, ◌<◌, ◌≡◌, ◌≢◌, refl, ◌⊎◌, inl, inr, arith, ◌==◌, if◌then◌else◌,
  Bool-cases,
}

-- Thread `i` moves to `p`.
abbrev pub moved {ℓ} : {A : Type ℓ} → (ℕ → A) → ℕ → A → ℕ → A
moved at i p j = if i == j then p else at j

pub moved-cases {ℓ} :
    {A : Type ℓ} (at : ℕ → A) (i : ℕ) (p : A) (j : ℕ)
    → ((i ≡ j) × (moved at i p j ≡ p)) ⊎ ((i ≢ j) × (moved at i p j ≡ at j))
moved-cases at i p j = elim (Bool-cases (i == j)) [
  | inl same ↦ inl (ground arith, rw same refl)
  | inr other ↦ inr (ground arith, rw other refl)
]

pub zero_or_pos : (n : ℕ) → (n ≡ 0) ⊎ (1 ≤ n)
zero_or_pos zero = inl refl
zero_or_pos (suc n) = inr (omega arith)

module _ {ℓ} {A : Type ℓ} (weight : A → ℕ) where
  -- The weights of the first `n` threads.
  pub tally : ℕ → (ℕ → A) → ℕ
  tally zero at = 0
  tally (suc n) at = weight (at n) + tally n at

  pub tally-moved_outside :
      (n : ℕ) (at : ℕ → A) (i : ℕ) (p : A) → n ≤ i → tally n (moved at i p) ≡ tally n at
  unfolding tally
  tally-moved_outside zero at i p h = refl
  tally-moved_outside (suc n) at i p h = ground (arith, tally-moved_outside n at i p)

  -- A move changes the tally by the weights of the two places.
  pub tally-moved :
      (n : ℕ) (at : ℕ → A) (i : ℕ) (p : A)
      → i < n
      → weight (at i) + tally n (moved at i p) ≡ weight p + tally n at
  unfolding tally
  tally-moved zero at i p h = absurd (omega arith)
  tally-moved (suc n) at i p h = ground (arith, tally-moved n at i p, tally-moved_outside n at i p)

  pub weight-le-tally : (n : ℕ) (at : ℕ → A) (i : ℕ) → i < n → weight (at i) ≤ tally n at
  unfolding tally
  weight-le-tally zero at i h = absurd (omega arith)
  weight-le-tally (suc n) at i h = ground (arith, weight-le-tally n at i)

  -- Two threads count both.
  pub weights-le-tally :
      (n : ℕ) (at : ℕ → A) (i j : ℕ)
      → i < n
      → j < n
      → i ≢ j
      → weight (at i) + weight (at j) ≤ tally n at
  unfolding tally
  weights-le-tally zero at i j hi hj ne = absurd (omega arith)
  weights-le-tally (suc n) at i j hi hj ne =
      ground (arith, weights-le-tally n at i j, weight-le-tally n at i, weight-le-tally n at j)

  pub tally-zero : (n : ℕ) (at : ℕ → A) → ((i : ℕ) → weight (at i) ≡ 0) → tally n at ≡ 0
  unfolding tally
  tally-zero zero at h = refl
  tally-zero (suc n) at h = omega (arith, h n, tally-zero n at h)

  pub tally-le :
      (bound n : ℕ) (at : ℕ → A) → ((i : ℕ) → weight (at i) ≤ bound) → tally n at ≤ bound * n
  unfolding tally
  tally-le bound zero at h = omega arith
  tally-le bound (suc n) at h = grind (arith, h n, tally-le bound n at h)

  -- Where a tally is positive, one of the threads counts.
  pub of_tally : (n : ℕ) (at : ℕ → A) → 1 ≤ tally n at → (i : ℕ) × (i < n) × (1 ≤ weight (at i))
  unfolding tally
  of_tally zero at h = absurd (omega arith)
  of_tally (suc n) at h = elim (zero_or_pos (weight (at n))) [
    | inl empty ↦ let (i, lt, counts) = of_tally n at (omega arith) in (i, omega arith, counts)
    | inr counts ↦ (n, omega arith, counts)
  ]
