-- ===== src/Lookup/Family.antt =====
-- Families of threads: a change at one index, and sums over the first `n`.
use mathlib.Core.Path.{subst}
use model_lib.Prelude.{
  sym, ℕ, zero, suc, ◌+◌, ◌≤◌, ◌<◌, ◌≡◌, ◌≢◌, refl, ◌∙◌, ap, ap₂, arith, ℕ_discrete, ◌==◌,
  if◌then◌else◌,
}

-- The family `f` with `a` at index `i`.
abbrev pub put {ℓ} : {A : Type ℓ} → ℕ → A → (ℕ → A) → ℕ → A
put i a f j = if i == j then a else f j

module _ {ℓ} {A : Type ℓ} (i : ℕ) (a : A) (f : ℕ → A) where
  put_self : put i a f i ≡ a
  put_self = ground arith

  pub put_ne : (k : ℕ) → k ≢ i → put i a f k ≡ f k
  put_ne k ne = ground arith

-- What holds of the new value at its index and of the old ones elsewhere holds of the family.
pub put-all {ℓ κ} :
    {A : Type ℓ} (i : ℕ) (a : A) (f : ℕ → A) (P : ℕ → A → Type κ)
    → P i a
    → ((k : ℕ) → k ≢ i → P k (f k))
    → (k : ℕ) → P k (put i a f k)
put-all i a f P here away k = elim (ℕ_discrete k i) [
  | yes e ↦ subst (λ x. P x (put i a f x)) (sym e) (subst (P i) (sym (put_self i a f)) here)
  | no ne ↦ subst (P k) (sym (put_ne i a f k ne)) (away k ne)
]

pub sum_below : ℕ → (ℕ → ℕ) → ℕ
sum_below zero f = 0
sum_below (suc n) f = f n + sum_below n f

pub sum_below-same :
    (n : ℕ) (f g : ℕ → ℕ) → ((j : ℕ) → j < n → f j ≡ g j) → sum_below n f ≡ sum_below n g
unfolding sum_below
sum_below-same zero f g h = refl
sum_below-same (suc n) f g h =
    ap₂ ◌+◌ (h n (omega arith)) (sum_below-same n f g (λ j lt. h j (omega arith)))

pub sum_below-suc : (n : ℕ) (f : ℕ → ℕ) → sum_below (suc n) f ≡ f 0 + sum_below n (λ i. f (suc i))
unfolding sum_below
sum_below-suc zero f = omega arith
sum_below-suc (suc n) f = omega (arith, sum_below-suc n f)

-- Two families that differ at one index.
sum_below-change :
    (n i : ℕ) (f g : ℕ → ℕ)
    → i < n
    → ((j : ℕ) → j ≢ i → f j ≡ g j)
    → sum_below n g + f i ≡ sum_below n f + g i
unfolding sum_below
sum_below-change zero i f g lt h = absurd (omega arith)
sum_below-change (suc n) i f g lt h = elim (ℕ_discrete i n) [
  | yes e ↦ omega (arith, sum_below-same n f g (λ j below. h j (omega arith)), ap f e, ap g e)
  | no ne ↦ omega (arith, sum_below-change n i f g (omega arith) h, h n (omega arith))
]

sum_below-zero : (n : ℕ) (f : ℕ → ℕ) → sum_below n f ≡ 0 → (j : ℕ) → j < n → f j ≡ 0
unfolding sum_below
sum_below-zero zero f e j lt = absurd (omega arith)
sum_below-zero (suc n) f e j lt = elim (ℕ_discrete j n) [
  | yes last ↦ rw last (omega arith)
  | no ne ↦ sum_below-zero n f (omega arith) j (omega arith)
]

pub sum_below-all_zero : (n : ℕ) (f : ℕ → ℕ) → ((j : ℕ) → j < n → f j ≡ 0) → sum_below n f ≡ 0
unfolding sum_below
sum_below-all_zero zero f h = refl
sum_below-all_zero (suc n) f h =
    omega (arith, h n (omega arith), sum_below-all_zero n f (λ j lt. h j (omega arith)))

pub le-sum_below : (n : ℕ) (f : ℕ → ℕ) (j : ℕ) → j < n → f j ≤ sum_below n f
unfolding sum_below
le-sum_below zero f j lt = absurd (omega arith)
le-sum_below (suc n) f j lt = elim (ℕ_discrete j n) [
  | yes last ↦ omega (arith, ap f last)
  | no ne ↦ omega (arith, le-sum_below n f j (omega arith))
]

-- The sum over a family with a new value at one index.
pub sum_below-put {ℓ} :
    {A : Type ℓ} (w : A → ℕ) (n i : ℕ) (a : A) (f : ℕ → A)
    → i < n
    → sum_below n (λ j. w (put i a f j)) + w (f i) ≡ sum_below n (λ j. w (f j)) + w a
sum_below-put w n i a f lt = omega (
  arith,
  sum_below-change n i (λ j. w (f j)) (λ j. w (put i a f j)) lt
      (λ j ne. ap w (sym (put_ne i a f j ne))),
  ap w (put_self i a f),
)

pub sum_below-le : (n : ℕ) (f g : ℕ → ℕ) → ((j : ℕ) → f j ≤ g j) → sum_below n f ≤ sum_below n g
unfolding sum_below
sum_below-le zero f g h = omega arith
sum_below-le (suc n) f g h = omega (arith, h n, sum_below-le n f g h)

sum_below-last : (n : ℕ) (f : ℕ → ℕ) → sum_below (suc n) f ≡ f n + sum_below n f
unfolding sum_below
sum_below-last n f = refl

-- Zeros at the end add nothing.
pub sum_below-extend :
    (n k : ℕ) (f : ℕ → ℕ) → ((j : ℕ) → n ≤ j → f j ≡ 0) → sum_below (k + n) f ≡ sum_below n f
sum_below-extend n zero f h = ap (λ x. sum_below x f) (omega arith)
sum_below-extend n (suc k) f h =
    ap (λ x. sum_below x f) (omega arith)
    ∙ sum_below-last (k + n) f
    ∙ omega (arith, h (k + n) (omega arith), sum_below-extend n k f h)

pub sum_below-le_count : (n : ℕ) (f : ℕ → ℕ) → ((j : ℕ) → f j ≤ 1) → sum_below n f ≤ n
unfolding sum_below
sum_below-le_count zero f h = omega arith
sum_below-le_count (suc n) f h = omega (arith, h n, sum_below-le_count n f h)
