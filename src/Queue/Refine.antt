-- ===== src/Queue/Refine.antt =====
-- Each operation of a live queue against the bounded FIFO, and every sequence of calls.
use model_lib.Prelude.{
  ℕ, ◌<◌, ◌≡◌, ◌≢◌, refl, ◌∙◌, ap, ap₂, some, List, [], ◌∷◌, arith, length, ℕ_discrete,
}
use model_lib.Queue.{
  Queue, queue_pop, queue_push, Call, push, pop, ask_empty, ask_full, run, popped, status, answer,
}
use model_lib.Queue.Fifo
use model_lib.Queue.Shape.{Holds, queue_is_empty_lem, queue_is_full_lem}
use model_lib.Queue.Steps.{
  pushed-Holds, shifted-Holds, queue_push-room, queue_push-full, queue_pop-empty, queue_pop-item,
}

-- `queue_push` of a payload that is not NULL returns the FIFO's status, and leaves a queue of the
-- same capacity that holds the FIFO's items.
pub queue_push_refines :
    {q : Queue} {items : List ℕ} (p : ℕ)
    → Holds q items
    → ((queue_push q (some p)).0 ≡ (Fifo.add q.max_size items p).0)
      × Holds (queue_push q (some p)).1 (Fifo.add q.max_size items p).1
      × ((queue_push q (some p)).1.max_size ≡ q.max_size)
queue_push_refines {q} {items} p h = elim (ℕ_discrete (length items) q.max_size) [
  | yes full ↦ rw (queue_push-full h p full, Fifo.add-full q.max_size items p full) (refl, h, refl)
  | no ne ↦
      rw (queue_push-room h p ne, Fifo.add-room q.max_size items p ne)
        (refl, pushed-Holds h p (room ne), refl)
]
  where
    room : length items ≢ q.max_size → length items < q.max_size
    room ne = omega (arith, h.few)

-- `queue_pop` returns the FIFO's payload, NULL from an empty queue, and leaves a queue of the same
-- capacity that holds the FIFO's items.
pub queue_pop_refines :
    {q : Queue} {items : List ℕ}
    → Holds q items
    → ((queue_pop q).0 ≡ (Fifo.remove items).0)
      × Holds (queue_pop q).1 (Fifo.remove items).1
      × ((queue_pop q).1.max_size ≡ q.max_size)
unfolding Fifo.remove
queue_pop_refines {items = []} h = rw (queue_pop-empty h) (refl, h, refl)
queue_pop_refines {items = x ∷ items} h = rw (queue_pop-item h) (refl, shifted-Holds h, refl)

-- No sequence of pushes (of payloads that are not NULL), pops and tests tells a live queue from the
-- bounded FIFO of the items that it holds: every reply is the same.
pub run_refines :
    (calls : List Call) {q : Queue} {items : List ℕ}
    → Holds q items
    → run q calls ≡ Fifo.serve q.max_size items calls
unfolding run Fifo.serve
run_refines [] h = refl
run_refines (push p ∷ calls) {q} {items} h =
    let (same, held, cap) = queue_push_refines p h in
    ap₂ ◌∷◌ (ap status same)
      (run_refines calls held ∙ ap (λ c. Fifo.serve c (Fifo.add q.max_size items p).1 calls) cap)
run_refines (pop ∷ calls) {q} {items} h =
    let (same, held, cap) = queue_pop_refines h in
    ap₂ ◌∷◌ (ap popped same)
      (run_refines calls held ∙ ap (λ c. Fifo.serve c (Fifo.remove items).1 calls) cap)
run_refines (ask_empty ∷ calls) {q} {items} h =
    ap₂ ◌∷◌ (ap answer (queue_is_empty_lem q items h)) (run_refines calls h)
run_refines (ask_full ∷ calls) {q} {items} h =
    ap₂ ◌∷◌ (ap answer (queue_is_full_lem q items h)) (run_refines calls h)
