-- ===== src/Queue/Fifo.antt =====
-- What queue.h promises: a first-in first-out queue of at most `cap` payloads, oldest first.
use model_lib.Prelude.{
  ℕ, none, some, List, [], ◌∷◌, ◌++◌, ◌==◌, if◌then◌else◌, length, ◌≡◌, ◌≢◌, arith,
}
use model_lib.Prelude.Int.{ℤ}
use model_lib.Queue.{
  Payload, queue_failure, queue_success, Call, push, pop, ask_empty, ask_full, Reply, status,
  popped, answer,
}

abbrev pub Fifo : Type 0
Fifo = List ℕ

unfoldable pub add : ℕ → Fifo → ℕ → ℤ × Fifo
add cap items p =
    if length items == cap then (queue_failure, items) else (queue_success, items ++ (p ∷ []))

unfoldable pub remove : Fifo → Payload × Fifo
remove [] = (none, [])
remove (p ∷ items) = (some p, items)

unfoldable pub serve : ℕ → Fifo → List Call → List Reply
serve cap items [] = []
serve cap items (push p ∷ calls) =
    let (r, items') = add cap items p in status r ∷ serve cap items' calls
serve cap items (pop ∷ calls) = let (p, items') = remove items in popped p ∷ serve cap items' calls
serve cap items (ask_empty ∷ calls) = answer (length items == 0) ∷ serve cap items calls
serve cap items (ask_full ∷ calls) = answer (length items == cap) ∷ serve cap items calls

module _ (cap : ℕ) (items : List ℕ) (p : ℕ) where
  pub add-full : length items ≡ cap → add cap items p ≡ (queue_failure, items)
  unfolding add
  add-full e = ground arith

  pub add-room : length items ≢ cap → add cap items p ≡ (queue_success, items ++ (p ∷ []))
  unfolding add
  add-room ne = ground arith
