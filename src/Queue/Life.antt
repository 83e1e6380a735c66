-- ===== src/Queue/Life.antt =====
-- `queue_init` and `queue_cleanup` of lab3/queue.c, and a push of NULL.
use model_lib.Prelude.{
  ℕ, zero, suc, ◌+◌, ◌%◌, ◌≤◌, ◌<◌, ◌≡◌, refl, sym, ◌∙◌, false, Option, none, some, List, [], ◌∷◌,
  arith, length, length-set, get_or, set, get_or-set_self, get_or-set_ne, ℕ_discrete,
}
use native.Mathlib.Nat.{mod-lt}
use model_lib.Prelude.Modular.{add-mod-zero, add-mod-ne}
use model_lib.Prelude.Int.{ℤ, pos, pos_part}
use model_lib.Queue.{
  Payload, Queue, queue_is_empty, queue_is_full, queue_pop, queue_push, queue_failure,
  queue_success, queue_max_size, clear_from, chosen_size, queue_init, drain, queue_cleanup,
}
use model_lib.Queue.Shape.{Holds, slot-zero, queue_is_empty_lem, queue_is_empty-cons, front_cell}
use model_lib.Queue.Steps.{queue_pop-item, shifted-Holds}

length-clear_from : (n i : ℕ) (cells : List Payload) → length (clear_from n i cells) ≡ length cells
unfolding clear_from
length-clear_from zero i cells = refl
length-clear_from (suc n) i cells = length-clear_from n (i + 1) _ ∙ length-set cells i none

-- The loop leaves NULL in every cell that it has reached, and in those that were NULL.
clear_from-null :
    (n i k : ℕ) (cells : List Payload)
    → i + n ≡ length cells
    → ((j : ℕ) → j < i → get_or cells j none ≡ none)
    → k < length cells
    → get_or (clear_from n i cells) k none ≡ none
unfolding clear_from
clear_from-null zero i k cells e before lt = before k (omega arith)
clear_from-null (suc n) i k cells e before lt =
    clear_from-null n (i + 1) k (set cells i none) (omega (arith, length-set cells i none)) keep
      (omega (arith, length-set cells i none))
  where
    keep : (j : ℕ) → j < i + 1 → get_or (set cells i none) j none ≡ none
    keep j hj = elim (ℕ_discrete i j) [
      | yes here ↦ rw (← here) (get_or-set_self cells i none none (omega arith))
      | no ne ↦ rw (get_or-set_ne cells i j none none ne) (before j (omega arith))
    ]

fresh-Holds :
    (n : ℕ) (cells : List Payload)
    → 0 < n
    → length cells ≡ n
    → Holds (record { array = clear_from n 0 cells; front = 0; rear = 0; max_size = n }) []
fresh-Holds n cells some_room sized = record {
  positive = some_room;
  sized = length-clear_from n 0 cells ∙ sized;
  front_in = some_room;
  few = omega arith;
  rear_at = sym (add-mod-zero n 0 some_room);
  cells = λ k lt.
      clear_from-null n 0 ((0 + k) % n) cells (omega arith) (λ j below. absurd (omega arith))
        (omega (arith, mod-lt (0 + k) some_room));
}

-- Where `malloc` gives the cells that were asked for, whatever is in them, `queue_init` returns the
-- capacity and leaves a live queue with no items; the capacity is the requested size if that is
-- positive, and 50 otherwise.
pub queue_init_fresh :
    (malloc : ℕ → Option (List Payload)) (q : Queue) (size : ℤ) (cells : List Payload)
    → malloc (chosen_size size) ≡ some cells
    → length cells ≡ chosen_size size
    → Holds (queue_init malloc q size).1 []
      × ((queue_init malloc q size).0 ≡ pos (queue_init malloc q size).1.max_size)
      × (0 < pos_part size → (queue_init malloc q size).1.max_size ≡ pos_part size)
      × (pos_part size ≡ 0 → (queue_init malloc q size).1.max_size ≡ queue_max_size)
unfolding queue_init
queue_init_fresh malloc q size cells e sized =
    rw (e, queue_init)
      (fresh-Holds (chosen_size size) cells positive sized, refl, ground arith, ground arith)
  where
    positive : 0 < chosen_size size
    positive = ground arith

-- Where `malloc` fails, `queue_init` returns QUEUE_FAILURE.
queue_init_oom :
    (malloc : ℕ → Option (List Payload)) (q : Queue) (size : ℤ)
    → malloc (chosen_size size) ≡ none
    → (queue_init malloc q size).0 ≡ queue_failure
unfolding queue_init
queue_init_oom malloc q size e = rw (e, queue_init)

drain-empty :
    (fuel : ℕ) {q : Queue} {items : List ℕ}
    → length items < fuel
    → Holds q items
    → (q' : Queue) × (drain fuel q ≡ some q') × Holds q' []
unfolding drain
drain-empty zero lt h = absurd (omega arith)
drain-empty (suc fuel) {q} {items = []} lt h = (q, rw (queue_is_empty_lem q [] h), h)
drain-empty (suc fuel) {q} {items = x ∷ items} lt h =
    let (q', done, held) = drain-empty fuel (omega arith) (shifted-Holds h) in
    (q', rw (queue_is_empty-cons h, queue_pop-item h) done, held)

-- `queue_cleanup` of a live queue ends: its loop empties the queue within `maxSize` rounds, and the
-- array is freed.
pub queue_cleanup_ends :
    {q : Queue} {items : List ℕ}
    → Holds q items
    → (q' : Queue) × (drain (q.max_size + 1) q ≡ some q')
      × Holds q' []
      × (queue_cleanup q ≡ some (record q' { array = [] }))
unfolding queue_cleanup
queue_cleanup_ends {q} h =
    let (q', done, held) = drain-empty (q.max_size + 1) (omega (arith, h.few)) h in
    (q', done, held, rw (done, queue_cleanup))

-- A NULL payload is accepted by an empty queue of two or more slots, which then reports neither
-- empty nor full; the next pop returns NULL, as from an empty queue.
queue_push_null :
    {q : Queue}
    → Holds q []
    → 2 ≤ q.max_size
    → let (r, q') = queue_push q none in
      (r ≡ queue_success)
      × (queue_is_empty q' ≡ false)
      × (queue_is_full q' ≡ false)
      × ((queue_pop q').0 ≡ none)
unfolding queue_push queue_pop queue_is_empty queue_is_full
queue_push_null {q} h two = ground (
  arith,
  slot-zero h,
  h.rear_at,
  h.front_in,
  front_cell h,
  get_or-set_self q.array q.rear none none,
  add-mod-ne q.max_size q.front 0 1 h.front_in,
)
