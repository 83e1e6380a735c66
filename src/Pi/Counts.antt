-- ===== src/Pi/Counts.antt =====
-- What the loop of lab4/pi.c and lab4/pi-sched.c counts.
use model_lib.Prelude.{
  ℕ, zero, suc, ◌+◌, ◌≤◌, ◌≡◌, refl, ◌∙◌, ap, Bool, true, Option, none, some, List, [], ◌∷◌, arith,
  if◌then◌else◌, get_elem?, Bool-cases, inl, inr,
}
use model_lib.Prelude.Int.{ℤ, pos, eq_ℤ}
use model_lib.Prelude.Text.{Text}
use model_lib.Pi.{
  Double, Generator, Samples, inside, sample, sample_loop, pi_calc, no_samples, iterations, count,
  returned, pi_main, pi_sched_main, printed, policy_argument, Policy,
}

-- Integers up to this one are exact in a `double`, 2 to the power 53.
abbrev pub exact_limit : ℕ
exact_limit = 9007199254740992

-- The first pairs of numbers that the generator gives, and the state behind them.
unfoldable pub draws : {R : Type 0} → Generator R → ℕ → R → List (ℕ × ℕ)
draws g zero r = []
draws g (suc n) r = let (a, r') = g.random r in let (b, r'') = g.random r' in (a, b) ∷ draws g n r''

unfoldable pub behind : {R : Type 0} → Generator R → ℕ → R → R
behind g zero r = r
behind g (suc n) r = behind g n (g.random (g.random r).1).1

-- How many of them pass a test.
unfoldable pub hits : (ℕ → ℕ → Bool) → List (ℕ × ℕ) → ℕ
hits p [] = 0
hits p ((a, b) ∷ rest) = let k = hits p rest in if p a b then k + 1 else k

abbrev pub estimate : {F : Type 0} → Double F → ℕ → ℕ → F
estimate double k n =
    double.mul (double.div (double.of_int (pos k)) (double.of_int (pos n))) (double.of_int (pos 4))

iterations-count :
    (atol : Text → ℤ) (a : Option Text) (i : ℤ) → iterations atol a ≡ some i → 1 ≤ count i
unfolding iterations
iterations-count atol none i e = ground arith
iterations-count atol (some text) i e = ground arith

-- Counting up by one is exact below the limit, and 0 times a quotient of such numbers is 0.
pub record Counting {F : Type 0} (double : Double F) : Type 0 where
  pub increments :
      (n : ℕ)
      → n + 1 ≤ exact_limit
      → double.add (double.of_int (pos n)) (double.of_int (pos 1)) ≡ double.of_int (pos (n + 1))
  pub vanishes :
      (k n : ℕ)
      → 1 ≤ n
      → double.to_int (double.mul (double.of_int (pos 0)) (estimate double k n)) ≡ pos 0

module _ {F R : Type 0} (double : Double F) (generator : Generator R)
    (exact : Counting double) where
  -- The samples after `n` rounds, with `c` and `q` points counted before.
  abbrev after : ℕ → ℕ → ℕ → R → Samples F R
  after c q n r = record {
    in_circle = double.of_int (pos (c + hits (inside double generator) (draws generator n r)));
    in_square = double.of_int (pos (q + n));
    seed = behind generator n r;
  }

  same_counts :
      (c c' q q' : ℕ) (r : R)
      → c ≡ c'
      → q ≡ q'
      → ◌≡◌ {A = Samples F R}
          (record {
            in_circle = double.of_int (pos c);
            in_square = double.of_int (pos q);
            seed = r;
          })
          (record {
            in_circle = double.of_int (pos c');
            in_square = double.of_int (pos q');
            seed = r;
          })
  same_counts c c' q q' r e f = cc

  hits-le : (p : ℕ → ℕ → Bool) (n : ℕ) (r : R) → hits p (draws generator n r) ≤ n
  unfolding hits draws
  hits-le p zero r = omega arith
  hits-le p (suc n) r = ground (arith, hits-le p n (generator.random (generator.random r).1).1)

  loop_counts :
      (n c q : ℕ) (r : R)
      → c ≤ q
      → q + n ≤ exact_limit
      → sample_loop double generator n (record {
        in_circle = double.of_int (pos c);
        in_square = double.of_int (pos q);
        seed = r;
      })
        ≡ after c q n r
  unfolding sample_loop sample draws behind hits
  loop_counts zero c q r few fits = ground arith
  loop_counts (suc n) c q r few fits =
      let a = (generator.random r).0 in
      let b = (generator.random (generator.random r).1).0 in
      let r2 = (generator.random (generator.random r).1).1 in
      elim (Bool-cases (inside double generator a b)) [
        | inl hit ↦
            rw
              (
                sample_loop,
                sample,
                draws,
                behind,
                hits,
                hit,
                exact.increments c (omega arith),
                exact.increments q (omega arith),
              )
              (loop_counts n (c + 1) (q + 1) r2 (omega arith) (omega arith)
                ∙ same_counts _ _ _ _ _ (omega arith) (omega arith))
        | inr miss ↦
            rw (sample_loop, sample, draws, behind, hits, miss, exact.increments q (omega arith))
              (loop_counts n c (q + 1) r2 (omega arith) (omega arith)
                ∙ same_counts _ _ _ _ _ refl (omega arith))
      ]

  -- The samples after `n` rounds from the start.
  abbrev pub counted : ℕ → R → Samples F R
  counted n r = record {
    in_circle = double.of_int (pos (hits (inside double generator) (draws generator n r)));
    in_square = double.of_int (pos n);
    seed = behind generator n r;
  }

  from_start :
      (n : ℕ) (r : R)
      → n ≤ exact_limit
      → sample_loop double generator n (no_samples double generator r) ≡ counted n r
  unfolding no_samples
  from_start n r fits =
      loop_counts n 0 0 r (omega arith) (omega arith)
      ∙ same_counts _ _ _ _ _ (omega arith) (omega arith)

  -- With a number of iterations that is accepted and that a `double` can count, and on pi-sched.c an
  -- accepted policy that the system sets: both programs take two random numbers for each iteration,
  -- `inSquare` is the number of iterations, and `inCircle` the number of the points that pass the
  -- test, no more than that; pi.c returns 0, and pi-sched.c prints four times their quotient.
  pub estimates :
      (atol : Text → ℤ) (set_scheduler : Policy → ℤ) (argv : List Text) (r : R) (i : ℤ) (p : Policy)
      → iterations atol (get_elem? argv 0) ≡ some i
      → count i ≤ exact_limit
      → policy_argument (get_elem? argv 1) ≡ some p
      → eq_ℤ (set_scheduler p) (pos 0) ≡ true
      → (pi_main double generator atol argv r ≡ returned (pos 0) (counted (count i) r))
        × (pi_sched_main double generator atol set_scheduler argv r
            ≡ printed
                (estimate double
                  (hits (inside double generator) (draws generator (count i) r))
                  (count i))
                (counted (count i) r))
        × (hits (inside double generator) (draws generator (count i) r) ≤ count i)
        × (1 ≤ count i)
  unfolding pi_main pi_sched_main pi_calc
  estimates atol set_scheduler argv r i p e fits f set = (
    rw (pi_main, e, from_start (count i) r fits)
        (ap (λ x. returned x (counted (count i) r)) (exact.vanishes _ (count i) some_round)),
    rw (pi_sched_main, e, f, set, from_start (count i) r fits) refl,
    hits-le (inside double generator) (count i) r,
    some_round,
  )
    where
      some_round : 1 ≤ count i
      some_round = iterations-count atol (get_elem? argv 0) i e
