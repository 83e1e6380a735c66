-- ===== src/Queue/Tests.antt =====
-- Concrete queues: runs of lab3/queue.c, and the theorems at inputs that meet their hypotheses.
use model_lib.Prelude.{
  ℕ, zero, suc, ◌+◌, ◌^◌, ◌<◌, ◌≡◌, refl, true, Option, none, some, List, [], ◌∷◌, arith, get_elem?,
}
use model_lib.Prelude.Int.{pos, negsuc}
use model_lib.Queue.{
  Payload, Queue, payload_at, Call, push, pop, ask_empty, ask_full, status, popped, answer, run,
  left_by, clear_from, queue_init, queue_push, queue_pop, queue_is_empty, queue_is_full,
  queue_cleanup, drain, print_queue, print_slots, state_label, arrow_after, newline, queue_failure,
}
use model_lib.Queue.Fifo
use model_lib.Queue.Shape.{Holds, slot}
use model_lib.Queue.Refine.{run_refines}
use model_lib.Queue.Life.{queue_init_fresh, queue_cleanup_ends}
use model_lib.Queue.Bounds.{queue_bounds}

-- Two slots, with items 8 and 9 round the end of the array.
abbrev wrapped : Queue
wrapped = record { array = some 9 ∷ none ∷ some 8 ∷ []; front = 2; rear = 1; max_size = 3 }

abbrev empty : Queue
empty = record { array = none ∷ none ∷ []; front = 1; rear = 1; max_size = 2 }

abbrev script : List Call
script = push 1 ∷ push 2 ∷ ask_full ∷ pop ∷ pop ∷ pop ∷ pop ∷ ask_empty ∷ []

-- Memory that was used before.
abbrev dirty : ℕ → Option (List Payload)
dirty n = some (some 4 ∷ some 5 ∷ [])

wrapped-Holds : Holds wrapped (8 ∷ 9 ∷ [])
wrapped-Holds = record {
  positive = omega arith;
  sized = refl;
  front_in = omega arith;
  few = omega arith;
  rear_at = refl;
  cells = cell;
}
  where
    cell : (k : ℕ) → k < 3 → payload_at wrapped (slot wrapped k) ≡ get_elem? (8 ∷ 9 ∷ []) k
    cell zero lt = refl
    cell (suc zero) lt = refl
    cell (suc (suc zero)) lt = refl
    cell (suc (suc (suc k))) lt = absurd (omega arith)

empty-Holds : Holds empty []
empty-Holds = record {
  positive = omega arith;
  sized = refl;
  front_in = omega arith;
  few = omega arith;
  rear_at = refl;
  cells = cell;
}
  where
    cell : (k : ℕ) → k < 2 → payload_at empty (slot empty k) ≡ none
    cell zero lt = refl
    cell (suc zero) lt = refl
    cell (suc (suc k)) lt = absurd (omega arith)

run-wrapped :
    run wrapped script
    ≡ status (pos 0)
      ∷ status (negsuc 0)
      ∷ answer true
      ∷ popped (some 8)
      ∷ popped (some 9)
      ∷ popped (some 1)
      ∷ popped none
      ∷ answer true
      ∷ []
unfolding run queue_push queue_pop queue_is_full queue_is_empty
run-wrapped = refl

-- A size that is not positive gives 50 slots; a failed `malloc` gives QUEUE_FAILURE.
init_sizes :
    ((queue_init (λ n. some []) empty (negsuc 0)).0 ≡ pos 50)
    × ((queue_init (λ n. none) empty (pos 7)).0 ≡ queue_failure)
unfolding queue_init
init_sizes = (refl, refl)

cleanup_wrapped :
    queue_cleanup wrapped ≡ some (record { array = []; front = 1; rear = 1; max_size = 3 })
unfolding queue_cleanup drain queue_pop queue_is_empty
cleanup_wrapped = refl

print_wrapped :
    print_queue wrapped
    ≡ state_label ∷ arrow_after (some 9) ∷ arrow_after none ∷ arrow_after (some 8) ∷ newline ∷ []
unfolding print_queue print_slots
print_wrapped = refl

run_refines_example : run wrapped script ≡ Fifo.serve 3 (8 ∷ 9 ∷ []) script
run_refines_example = run_refines script wrapped-Holds

queue_init_fresh_example :
    Holds (queue_init dirty wrapped (pos 2)).1 []
    × ((queue_init dirty wrapped (pos 2)).0 ≡ pos (queue_init dirty wrapped (pos 2)).1.max_size)
    × (0 < 2 → (queue_init dirty wrapped (pos 2)).1.max_size ≡ 2)
    × (◌≡◌ {A = ℕ} 2 0 → (queue_init dirty wrapped (pos 2)).1.max_size ≡ 50)
queue_init_fresh_example = queue_init_fresh dirty wrapped (pos 2) (some 4 ∷ some 5 ∷ []) refl refl

queue_cleanup_ends_example :
    (q' : Queue) × (drain (3 + 1) wrapped ≡ some q')
    × Holds q' []
    × (queue_cleanup wrapped ≡ some (record q' { array = [] }))
queue_cleanup_ends_example = queue_cleanup_ends wrapped-Holds

-- A queue of two slots after four calls: the second slot is the front and the rear.
queue_bounds_example : (1 < 2) × (1 < 2) × (1 + 1 < 2 ^ 31) × (1 + 1 < 2 ^ 31)
unfolding left_by queue_init clear_from queue_push queue_pop queue_is_empty queue_is_full
queue_bounds_example =
    queue_bounds dirty wrapped (pos 2) (some 4 ∷ some 5 ∷ []) refl refl (omega arith)
      (push 1 ∷ ask_full ∷ pop ∷ ask_empty ∷ [])
