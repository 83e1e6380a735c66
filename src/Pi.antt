-- ===== src/Pi.antt =====
-- lab4/pi.c and lab4/pi-sched.c: pi from random points. The arithmetic on `double` and the
-- generator behind `random` are parameters.
pub mod Counts
pub mod Tests
use model_lib.Prelude.{
  ℕ, zero, suc, ◌*◌, ◌/◌, ◌%◌, Bool, Option, none, some, List, [], ◌∷◌, get_elem?, if◌then◌else◌,
}
use model_lib.Prelude.Int.{ℤ, pos, negsuc, sub_ℕ, ltb_ℤ, eq_ℤ}
use model_lib.Prelude.Text.{Text, same}

-- What the programs use of `double` and <math.h>; `square` is `pow(·, 2)`.
pub record Double (F : Type 0) : Type 0 where
  pub of_int : ℤ → F
  pub to_int : F → ℤ
  pub add : F → F → F
  pub sub : F → F → F
  pub mul : F → F → F
  pub div : F → F → F
  pub square : F → F
  pub sqrt : F → F
  pub lt : F → F → Bool

-- `random()` and RAND_MAX.
pub record Generator (R : Type 0) : Type 0 where
  pub rand_max : ℕ
  pub random : R → ℕ × R

-- `inCircle`, `inSquare` and the state of the generator.
pub record Samples (F R : Type 0) : Type 0 where
  pub in_circle : F
  pub in_square : F
  pub seed : R

-- DEFAULT_ITERATIONS.
abbrev pub default_iterations : ℤ
default_iterations = pos 1000000

module _ {F R : Type 0} (double : Double F) (generator : Generator R) where
  -- RADIUS.
  unfoldable pub radius : ℕ
  radius = generator.rand_max / 2

  unfoldable pub dist : F → F → F → F → F
  dist x0 y0 x1 y1 =
      double.sqrt (double.add (double.square (double.sub x1 x0)) (double.square (double.sub y1 y0)))

  unfoldable pub zero_dist : F → F → F
  zero_dist x y = dist (double.of_int (pos 0)) (double.of_int (pos 0)) x y

  -- A coordinate from a random number.
  unfoldable pub coordinate : ℕ → F
  coordinate n = double.of_int (sub_ℕ (n % (radius * 2)) radius)

  -- The test of a point.
  unfoldable pub inside : ℕ → ℕ → Bool
  inside m n = double.lt (zero_dist (coordinate m) (coordinate n)) (double.of_int (pos radius))

  -- The body of the loop.
  unfoldable pub sample : Samples F R → Samples F R
  sample s =
      let (m, r) = generator.random s.seed in
      let (n, r') = generator.random r in
      record {
        in_circle =
            if inside m n then double.add s.in_circle (double.of_int (pos 1)) else s.in_circle;
        in_square = double.add s.in_square (double.of_int (pos 1));
        seed = r';
      }

  -- The loop, whose bound is at least 1.
  unfoldable pub sample_loop : ℕ → Samples F R → Samples F R
  sample_loop zero s = s
  sample_loop (suc n) s = sample_loop n (sample s)

  unfoldable pub pi_calc : Samples F R → F
  pi_calc s = double.mul (double.div s.in_circle s.in_square) (double.of_int (pos 4))

  -- The counts at the start.
  unfoldable pub no_samples : R → Samples F R
  no_samples r = record {
    in_circle = double.of_int (pos 0);
    in_square = double.of_int (pos 0);
    seed = r;
  }

-- `iterations` from an argument, or the default; `none` is "Bad iterations value".
unfoldable pub iterations : (Text → ℤ) → Option Text → Option ℤ
iterations atol none = some default_iterations
iterations atol (some text) = if ltb_ℤ (atol text) (pos 1) then none else some (atol text)

-- How `main` of pi.c ends: EXIT_FAILURE, or what it returns and the samples.
pub data PiEnd (F R : Type 0) : Type 0 where
  bad_iterations : PiEnd F R
  returned : ℤ → Samples F R → PiEnd F R

abbrev pub count : ℤ → ℕ
count (pos n) = n
count (negsuc n) = 0

unfoldable pub pi_main :
    {F R : Type 0} → Double F → Generator R → (Text → ℤ) → List Text → R → PiEnd F R
pi_main double generator atol argv r = elim (iterations atol (get_elem? argv 0)) [
  | none ↦ bad_iterations
  | some n ↦
      let s = sample_loop double generator (count n) (no_samples double generator r) in
      returned (double.to_int (double.mul (double.of_int (pos 0)) (pi_calc double generator s))) s
]

-- The policies of <sched.h>.
pub data Policy : Type 0 where
  sched_other : Policy
  sched_fifo : Policy
  sched_rr : Policy

-- "SCHED_OTHER", "SCHED_FIFO" and "SCHED_RR".
abbrev pub name_other : Text
name_other = 83 ∷ 67 ∷ 72 ∷ 69 ∷ 68 ∷ 95 ∷ 79 ∷ 84 ∷ 72 ∷ 69 ∷ 82 ∷ []

abbrev pub name_fifo : Text
name_fifo = 83 ∷ 67 ∷ 72 ∷ 69 ∷ 68 ∷ 95 ∷ 70 ∷ 73 ∷ 70 ∷ 79 ∷ []

abbrev pub name_rr : Text
name_rr = 83 ∷ 67 ∷ 72 ∷ 69 ∷ 68 ∷ 95 ∷ 82 ∷ 82 ∷ []

-- The policy in an argument, or the default; `none` is "Unhandeled scheduling policy".
unfoldable pub policy_argument : Option Text → Option Policy
policy_argument none = some sched_other
policy_argument (some text) =
    if same text name_other
    then some sched_other
    else if same text name_fifo
    then some sched_fifo
    else if same text name_rr
    then some sched_rr
    else none

-- How `main` of pi-sched.c ends: at one of its three failures, or with the value that it prints.
pub data SchedEnd (F R : Type 0) : Type 0 where
  bad_iterations : SchedEnd F R
  unhandled_policy : SchedEnd F R
  not_set : SchedEnd F R
  printed : F → Samples F R → SchedEnd F R

-- `set_scheduler` is `sched_setscheduler` on this process with the greatest priority of the policy.
unfoldable pub pi_sched_main :
    {F R : Type 0}
    → Double F
    → Generator R
    → (Text → ℤ)
    → (Policy → ℤ)
    → List Text
    → R
    → SchedEnd F R
pi_sched_main double generator atol set_scheduler argv r =
    elim (iterations atol (get_elem? argv 0)) [
      | none ↦ bad_iterations
      | some n ↦ elim (policy_argument (get_elem? argv 1)) [
        | none ↦ unhandled_policy
        | some policy ↦
            let s = sample_loop double generator (count n) (no_samples double generator r) in
            if eq_ℤ (set_scheduler policy) (pos 0)
            then printed (pi_calc double generator s) s
            else not_set
      ]
    ]
