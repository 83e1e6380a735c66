-- ===== src/Lookup/TeamTests.antt =====
-- The set-up of lab3/multi-lookup.c on one core with one input file.
use model_lib.Prelude.{
  ℕ, ◌+◌, ◌≤◌, ◌≡◌, refl, true, false, some, none, List, [], ◌∷◌, length, replicate,
}
use model_lib.Prelude.Int.{pos, negsuc, ltb_ℤ}
use model_lib.Queue.{Queue, queue_init, clear_from}
use model_lib.Lookup.{Name}
use model_lib.Lookup.Setup.{
  and_then, Calls, Team, input_files, output_file, all_zero, memories, start_thread,
  start_resolvers, start_requesters, start_threads, set_up,
}
use model_lib.Lookup.Team.{Started, set_up_lem}

abbrev calls : Calls ℕ
calls = record {
  queue_malloc = λ n. some (replicate n none);
  fopen = λ w name. (true, w);
  mutex_init = λ w. (pos 0, w);
  cond_init = λ w. (pos 0, w);
  processors = λ w. (pos 1, w);
  malloc = λ w. (true, w + 1);
  create = λ w. (pos 0, w);
}

abbrev before : Queue
before = record { array = []; front = 0; rear = 0; max_size = 0 }

abbrev argv : List Name
argv = (97 ∷ []) ∷ (111 ∷ []) ∷ []

abbrev team : Team
team = record {
  queue = (queue_init calls.queue_malloc before (negsuc 0)).1;
  output_file = 111 ∷ [];
  cores = 1;
  resolvers = 0 ∷ 0 ∷ 0 ∷ 0 ∷ [];
  requesters = (97 ∷ [], 0) ∷ [];
}

set_up_lem_example :
    (2 ≤ length argv)
    × (ltb_ℤ (queue_init calls.queue_malloc before (negsuc 0)).0 (pos 0) ≡ false)
    × (team.queue ≡ (queue_init calls.queue_malloc before (negsuc 0)).1)
    × Started calls argv team 8
unfolding set_up and_then all_zero memories start_thread start_resolvers start_requesters
    start_threads input_files output_file queue_init clear_from
set_up_lem_example = set_up_lem calls before argv 0 (team, 8) refl
