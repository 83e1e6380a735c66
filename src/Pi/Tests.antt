-- ===== src/Pi/Tests.antt =====
-- lab4/pi.c and lab4/pi-sched.c with numbers in place of `double`, all points in the square counted.
use model_lib.Prelude.{ℕ, ◌+◌, ◌*◌, ◌/◌, ◌≡◌, ◌≤◌, refl, ap, true, List, [], ◌∷◌, arith}
use model_lib.Prelude.Int.{ℤ, pos, pos_part}
use model_lib.Prelude.Text.{Text, same}
use model_lib.Pi.{
  iterations, policy_argument, Double, Generator, inside, pi_main, pi_sched_main, returned, printed,
  sched_rr, name_rr,
}
use model_lib.Pi.Counts.{Counting, draws, hits, counted, estimate, estimates}

abbrev pub double : Double ℕ
double = record {
  of_int = pos_part;
  to_int = λ n. pos n;
  add = λ a b. a + b;
  sub = λ a b. a;
  mul = λ a b. a * b;
  div = λ a b. a / b;
  square = λ a. a * a;
  sqrt = λ a. a;
  lt = λ a b. true;
}

abbrev pub generator : Generator ℕ
generator = record { rand_max = 10; random = λ r. (r + 3, r + 1) }

double-Counting : Counting double
double-Counting = record {
  increments = λ n fits. refl;
  vanishes = λ k n some_round. ap pos (omega arith);
}

abbrev atol : Text → ℤ
atol text = pos 2

abbrev argv : List Text
argv = (50 ∷ []) ∷ name_rr ∷ []

estimates_example :
    (pi_main double generator atol argv 0
      ≡ returned (pos 0) (counted double generator double-Counting 2 0))
    × (pi_sched_main double generator atol (λ p. pos 0) argv 0
        ≡ printed
            (estimate double (hits (inside double generator) (draws generator 2 0)) 2)
            (counted double generator double-Counting 2 0))
    × (hits (inside double generator) (draws generator 2 0) ≤ 2)
    × ◌≤◌ 1 2
unfolding iterations policy_argument same
estimates_example =
    estimates double generator double-Counting atol (λ p. pos 0) argv 0 (pos 2) sched_rr refl
      (omega arith) refl refl
