-- ===== src/Queue/Bounds.antt =====
-- The indices of a queue of lab3/queue.c, from `queue_init` through any calls.
use model_lib.Prelude.{ℕ, ◌+◌, ◌^◌, ◌<◌, ◌≡◌, refl, ◌∙◌, Option, some, List, [], ◌∷◌, arith, length}
use model_lib.Prelude.Int.{ℤ, pos_part}
use model_lib.Queue.{
  Payload, Queue, Call, push, pop, ask_empty, ask_full, left_by, queue_init, chosen_size,
  queue_max_size,
}
use model_lib.Queue.Shape.{Holds, rear_in}
use model_lib.Queue.Refine.{queue_push_refines, queue_pop_refines}
use model_lib.Queue.Life.{queue_init_fresh}

-- The calls leave a live queue of the same capacity.
left_by-Holds :
    (calls : List Call) {q : Queue} {items : List ℕ}
    → Holds q items
    → (items' : List ℕ) × Holds (left_by q calls) items' × ((left_by q calls).max_size ≡ q.max_size)
unfolding left_by
left_by-Holds [] {q} {items} h = (items, h, refl)
left_by-Holds (push p ∷ calls) h =
    let (same, held, cap) = queue_push_refines p h in
    let (items', live, size) = left_by-Holds calls held in (items', live, size ∙ cap)
left_by-Holds (pop ∷ calls) h =
    let (same, held, cap) = queue_pop_refines h in
    let (items', live, size) = left_by-Holds calls held in (items', live, size ∙ cap)
left_by-Holds (ask_empty ∷ calls) h = left_by-Holds calls h
left_by-Holds (ask_full ∷ calls) h = left_by-Holds calls h

fits_int :
    (max size : ℕ)
    → size < 2 ^ 31
    → (0 < size → max ≡ size)
    → (size ≡ 0 → max ≡ queue_max_size)
    → max < 2 ^ 31
fits_int max size small asked default = ground arith

-- Where `malloc` gives the cells that `queue_init` asks for, whatever is in them, and the size fits an
-- `int`: after any pushes of payloads that are not NULL, pops and tests, both indices are inside the
-- array, and their increments in `queue_pop` and `queue_push` do not overflow an `int`.
pub queue_bounds :
    (malloc : ℕ → Option (List Payload)) (before : Queue) (size : ℤ) (cells : List Payload)
    → malloc (chosen_size size) ≡ some cells
    → length cells ≡ chosen_size size
    → pos_part size < 2 ^ 31
    → (calls : List Call)
    → let q = left_by (queue_init malloc before size).1 calls in
      (q.front < length q.array)
      × (q.rear < length q.array)
      × (q.front + 1 < 2 ^ 31)
      × (q.rear + 1 < 2 ^ 31)
queue_bounds malloc before size cells e sized small calls =
    let (h, same, asked, default) = queue_init_fresh malloc before size cells e sized in
    let (items, live, kept) = left_by-Holds calls h in
    omega (arith, rear_in live, live.front_in, live.sized, kept, fits_int _ _ small asked default)
