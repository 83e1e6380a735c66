-- ===== src/Lookup/Setup.antt =====
-- `main` of lab3/multi-lookup.c up to its waits: what it sets up, and the threads that it starts.
use model_lib.Prelude.{
  ℕ, zero, suc, ◌+◌, ◌*◌, ◌%◌, Bool, not, Option, List, [], ◌∷◌, length, ltb, ◌==◌, if◌then◌else◌,
}
use model_lib.Prelude.Int.{ℤ, pos, negsuc, pos_part, ltb_ℤ, eq_ℤ}
use model_lib.Queue.{Queue, Payload, queue_init}
use model_lib.Lookup.{Name}

-- The failures that end the program, in the order of the tests.
pub data SetupError : Type 0 where
  no_queue : SetupError
  few_arguments : SetupError
  output_not_opened : SetupError
  no_mutex : SetupError
  no_condition : SetupError
  no_core_count : SetupError
  no_memory : SetupError
  no_thread : SetupError

-- A value, a failure, or `core_assignment % 0`, which is undefined.
pub data Begun (A : Type 0) : Type 0 where
  ok : A → Begun A
  fails : SetupError → Begun A
  undefined : Begun A

unfoldable pub and_then : {A B : Type 0} → Begun A → (A → Begun B) → Begun B
and_then (ok a) f = f a
and_then (fails e) f = fails e
and_then undefined f = undefined

-- The calls of the system, in their order; `create` is `pthread_create`.
pub record Calls (W : Type 0) : Type 0 where
  pub queue_malloc : ℕ → Option (List Payload)
  pub fopen : W → Name → Bool × W
  pub mutex_init : W → ℤ × W
  pub cond_init : W → ℤ × W
  pub processors : W → ℤ × W
  pub malloc : W → Bool × W
  pub create : W → ℤ × W

-- What `main` has started: the cores of the resolvers, and the files and the cores of the requesters.
pub record Team : Type 0 where
  pub queue : Queue
  pub output_file : Name
  pub cores : ℕ
  pub resolvers : List ℕ
  pub requesters : List (Name × ℕ)

-- The arguments but the last, and the last.
unfoldable pub input_files : List Name → List Name
input_files [] = []
input_files (a ∷ []) = []
input_files (a ∷ b ∷ rest) = a ∷ input_files (b ∷ rest)

unfoldable pub output_file : List Name → Name
output_file [] = []
output_file (a ∷ []) = a
output_file (a ∷ b ∷ rest) = output_file (b ∷ rest)

module _ {W : Type 0} (calls : Calls W) where
  -- Calls that must give 0, one after the other.
  unfoldable pub all_zero : (W → ℤ × W) → ℕ → SetupError → W → Begun W
  all_zero call zero error w = ok w
  all_zero call (suc n) error w =
      let (rc, w') = call w in
      let rest = all_zero call n error w' in if eq_ℤ rc (pos 0) then rest else fails error

  -- Calls of `malloc` that must give memory.
  unfoldable pub memories : ℕ → W → Begun W
  memories zero w = ok w
  memories (suc n) w =
      let (given, w') = calls.malloc w in
      let rest = memories n w' in if given then rest else fails no_memory

  -- The arguments of a thread, and the thread; `core` is `core_assignment`.
  unfoldable pub start_thread : ℕ → ℕ → W → Begun (ℕ × W)
  start_thread cores core w =
      let (given, w1) = calls.malloc w in
      let (rc, w2) = calls.create w1 in
      if not given
      then fails no_memory
      else if cores == 0
      then undefined
      else if eq_ℤ rc (pos 0)
      then ok (core % cores, w2)
      else fails no_thread

  unfoldable pub start_resolvers : ℕ → ℕ → ℕ → W → Begun (List ℕ × W)
  start_resolvers cores zero core w = ok ([], w)
  start_resolvers cores (suc n) core w =
      and_then (start_thread cores core w)
        (λ r. and_then (start_resolvers cores n (core + 1) r.1) (λ rest. ok (r.0 ∷ rest.0, rest.1)))

  unfoldable pub start_requesters : ℕ → List Name → ℕ → W → Begun (List (Name × ℕ) × W)
  start_requesters cores [] core w = ok ([], w)
  start_requesters cores (file ∷ files) core w = and_then (start_thread cores core w) (λ r.
      and_then (start_requesters cores files (core + 1) r.1)
        (λ rest. ok ((file, r.0) ∷ rest.0, rest.1)))

  -- With the number of cores: the three arrays, and the threads.
  unfoldable pub start_threads : Queue → List Name → ℕ → W → Begun (Team × W)
  start_threads q argv cores w = and_then (memories 3 w) (λ w1.
      and_then (start_resolvers cores (4 * cores) 0 w1) (λ r.
        and_then (start_requesters cores (input_files argv) (4 * cores) r.1) (λ s. ok (
          record {
            queue = q;
            output_file = output_file argv;
            cores = cores;
            resolvers = r.0;
            requesters = s.0;
          },
          s.1,
        ))))

  -- The arguments behind the name of the program. `before` is what is in `qt`.
  unfoldable pub set_up : Queue → List Name → W → Begun (Team × W)
  set_up before argv w =
      let (size, q) = queue_init calls.queue_malloc before (negsuc 0) in
      let (opens, w1) = calls.fopen w (output_file argv) in
      let run = and_then (all_zero calls.mutex_init 4 no_mutex w1) (λ w2.
        and_then (all_zero calls.cond_init 2 no_condition w2) (λ w3.
          let (cores, w4) = calls.processors w3 in
          let more = start_threads q argv (pos_part cores) w4 in
          if ltb_ℤ cores (pos 0) then fails no_core_count else more)) in
      if ltb_ℤ size (pos 0)
      then fails no_queue
      else if ltb (length argv) 2
      then fails few_arguments
      else if opens
      then run
      else fails output_not_opened
