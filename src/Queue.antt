-- ===== src/Queue.antt =====
-- lab3/queue.c and lab3/queue.h: the circular FIFO of payload pointers.
-- A payload is a pointer: `none` is NULL. A `Queue` is what `queue* q` points to, and a function
-- that changes `*q` returns the new one. An access outside `array` is undefined in C and reads NULL
-- here; `Queue.Shape` has the invariant under which none happens.
pub mod Fifo
pub mod Shape
pub mod Steps
pub mod Refine
pub mod Bounds
pub mod Life
mod Tests
use model_lib.Prelude.{
  ℕ, zero, suc, ◌+◌, ◌%◌, Bool, true, false, ◌&&◌, not, Option, none, some, List, [], ◌∷◌, ◌==◌,
  if◌then◌else◌, get_or, set,
}
use model_lib.Prelude.Int.{ℤ, pos, negsuc, pos_part, ltb_ℤ}

-- `void* payload`
abbrev pub Payload : Type 0
Payload = Option ℕ

-- `struct queue_s`; `array` is `[]` while it is NULL.
pub record Queue : Type 0 where
  pub array : List Payload
  pub front : ℕ
  pub rear : ℕ
  pub max_size : ℕ

-- `QUEUEMAXSIZE`, `QUEUE_FAILURE`, `QUEUE_SUCCESS`
abbrev pub queue_max_size : ℕ
queue_max_size = 50

abbrev pub queue_failure : ℤ
queue_failure = negsuc 0

abbrev pub queue_success : ℤ
queue_success = pos 0

-- The test `payload == NULL`.
abbrev pub is_null : Payload → Bool
is_null none = true
is_null (some p) = false

abbrev pub payload_at : Queue → ℕ → Payload
payload_at q i = get_or q.array i none

-- The loop `for (i = 0; i < maxSize; ++i) array[i].payload = NULL`, with the rounds left.
unfoldable pub clear_from : ℕ → ℕ → List Payload → List Payload
clear_from zero i cells = cells
clear_from (suc n) i cells = clear_from n (i + 1) (set cells i none)

abbrev pub chosen_size : ℤ → ℕ
chosen_size size = if ltb_ℤ (pos 0) size then pos_part size else queue_max_size

-- `malloc` gives the cells with whatever was in them, or NULL. Its argument counts the nodes.
-- Where it fails `front` and `rear` keep their old values.
unfoldable pub queue_init : (ℕ → Option (List Payload)) → Queue → ℤ → ℤ × Queue
queue_init malloc q size =
    let n = chosen_size size in
    elim (malloc n) [
      | none ↦ (queue_failure, record q { array = []; max_size = n })
      | some cells ↦
          (pos n, record { array = clear_from n 0 cells; front = 0; rear = 0; max_size = n })
    ]

unfoldable pub queue_is_empty : Queue → Bool
queue_is_empty q = q.front == q.rear && is_null (payload_at q q.front)

unfoldable pub queue_is_full : Queue → Bool
queue_is_full q = q.front == q.rear && not (is_null (payload_at q q.front))

unfoldable pub queue_pop : Queue → Payload × Queue
queue_pop q = if queue_is_empty q then (none, q) else (
  payload_at q q.front,
  record q { array = set q.array q.front none; front = (q.front + 1) % q.max_size },
)

unfoldable pub queue_push : Queue → Payload → ℤ × Queue
queue_push q new_payload = if queue_is_full q then (queue_failure, q) else (
  queue_success,
  record q { array = set q.array q.rear new_payload; rear = (q.rear + 1) % q.max_size },
)

-- What `printQueue` writes: the payloads of all slots from the first, with its fixed texts.
pub data Printed : Type 0 where
  state_label : Printed
  arrow_after : Payload → Printed
  newline : Printed

unfoldable pub print_slots : Queue → ℕ → ℕ → List Printed
print_slots q zero i = newline ∷ []
print_slots q (suc n) i = arrow_after (payload_at q i) ∷ print_slots q n (i + 1)

unfoldable pub print_queue : Queue → List Printed
print_queue q = state_label ∷ print_slots q q.max_size 0

-- The loop of `queue_cleanup` on fuel; `none` means that the fuel ran out.
unfoldable pub drain : ℕ → Queue → Option Queue
drain zero q = none
drain (suc fuel) q =
    let rest = drain fuel (queue_pop q).1 in if queue_is_empty q then some q else rest

-- `free(q->array)` leaves no cell that may be read.
unfoldable pub queue_cleanup : Queue → Option Queue
queue_cleanup q = elim (drain (q.max_size + 1) q) [
  | none ↦ none
  | some q' ↦ some (record q' { array = [] })
]

-- A client's calls in order, and what each returns.
pub data Call : Type 0 where
  push : ℕ → Call
  pop : Call
  ask_empty : Call
  ask_full : Call

pub data Reply : Type 0 where
  status : ℤ → Reply
  popped : Payload → Reply
  answer : Bool → Reply

unfoldable pub run : Queue → List Call → List Reply
run q [] = []
run q (push p ∷ calls) = let (r, q') = queue_push q (some p) in status r ∷ run q' calls
run q (pop ∷ calls) = let (p, q') = queue_pop q in popped p ∷ run q' calls
run q (ask_empty ∷ calls) = answer (queue_is_empty q) ∷ run q calls
run q (ask_full ∷ calls) = answer (queue_is_full q) ∷ run q calls

-- The queue after the calls.
unfoldable pub left_by : Queue → List Call → Queue
left_by q [] = q
left_by q (push p ∷ calls) = left_by (queue_push q (some p)).1 calls
left_by q (pop ∷ calls) = left_by (queue_pop q).1 calls
left_by q (ask_empty ∷ calls) = left_by q calls
left_by q (ask_full ∷ calls) = left_by q calls
