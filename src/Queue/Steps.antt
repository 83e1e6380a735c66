-- ===== src/Queue/Steps.antt =====
-- What `queue_push` and `queue_pop` do to the items that a queue holds.
use native.Mathlib.Nat.{mod-add-mod, mod-lt}
use model_lib.Prelude.{
  ℕ, suc, ◌+◌, ◌%◌, ◌<◌, ◌≡◌, ◌≢◌, sym, ◌∙◌, ap, none, some, List, [], ◌∷◌, ◌++◌, arith, length,
  set, get_elem?, length-set, get_or-set_self, get_or-set_ne, length-append, get_elem?-append_ne,
  get_elem?-append_end, get_elem?_of_le, ℕ_discrete,
}
use model_lib.Prelude.Modular.{add-mod-ne, add-mod-step, add-mod_self}
use model_lib.Queue.{Queue, payload_at, queue_pop, queue_push, queue_failure, queue_success}
use model_lib.Queue.Shape.{
  Holds, slot, slot-zero, rear_in, front_cell, queue_is_empty_lem, queue_is_full_lem,
}

-- The queue after a push that finds room, and after a pop that finds an item.
abbrev pub pushed : Queue → ℕ → Queue
pushed q p = record q { array = set q.array q.rear (some p); rear = (q.rear + 1) % q.max_size }

abbrev pub shifted : Queue → Queue
shifted q = record q { array = set q.array q.front none; front = (q.front + 1) % q.max_size }

module _ {q : Queue} {items : List ℕ} (h : Holds q items) (p : ℕ)
    (room : length items < q.max_size) where
  open h use {positive, sized, front_in, rear_at, cells}

  in_array : q.rear < length q.array
  in_array = omega (arith, rear_in h)

  pushed_cells :
      (k : ℕ)
      → k < q.max_size
      → payload_at (pushed q p) (slot q k) ≡ get_elem? (items ++ (p ∷ [])) k
  pushed_cells k lt = elim (ℕ_discrete k (length items)) [
    | yes e ↦
        rw (e, ← rear_at, get_or-set_self q.array q.rear (some p) none in_array)
          (sym (get_elem?-append_end items p))
    | no ne ↦
        rw (get_or-set_ne q.array q.rear (slot q k) (some p) none (apart ne)) (cells k lt ∙ rest ne)
  ]
    where
      apart : k ≢ length items → q.rear ≢ slot q k
      apart ne e =
          add-mod-ne q.max_size q.front k (length items) front_in lt room ne (sym e ∙ rear_at)

      rest : k ≢ length items → get_elem? items k ≡ get_elem? (items ++ (p ∷ [])) k
      rest ne = get_elem?-append_ne items p k ne

  pub pushed-Holds : Holds (pushed q p) (items ++ (p ∷ []))
  pushed-Holds = record {
    positive = positive;
    sized = length-set q.array q.rear (some p) ∙ sized;
    front_in = front_in;
    few = omega (arith, length-append items (p ∷ []));
    rear_at =
        rw (rear_at, mod-add-mod)
          (ap (λ t. t % q.max_size) (omega (arith, length-append items (p ∷ []))));
    cells = pushed_cells;
  }

module _ {q : Queue} {x : ℕ} {items : List ℕ} (h : Holds q (x ∷ items)) where
  open h use {positive, sized, front_in, few, rear_at, cells}

  shifted_cells :
      (k : ℕ) → k < q.max_size → payload_at (shifted q) (slot (shifted q) k) ≡ get_elem? items k
  shifted_cells k lt = elim (ℕ_discrete (suc k) q.max_size) [
    | yes last ↦
        rw
          (
            add-mod-step q.max_size q.front k,
            last,
            add-mod_self q.max_size q.front front_in,
            get_or-set_self q.array q.front none none (omega arith),
          )
          (sym (get_elem?_of_le items k (omega arith)))
    | no ne ↦
        rw
          (
            add-mod-step q.max_size q.front k,
            get_or-set_ne q.array q.front (slot q (suc k)) none none (apart ne),
          )
          (cells (suc k) (omega arith))
  ]
    where
      apart : suc k ≢ q.max_size → q.front ≢ slot q (suc k)
      apart ne e =
          add-mod-ne q.max_size q.front 0 (suc k) front_in positive (omega arith) (omega arith)
            (slot-zero h ∙ e)

  pub shifted-Holds : Holds (shifted q) items
  shifted-Holds = record {
    positive = positive;
    sized = length-set q.array q.front none ∙ sized;
    front_in = mod-lt (q.front + 1) positive;
    few = omega arith;
    rear_at = rear_at ∙ sym (add-mod-step q.max_size q.front (length items));
    cells = shifted_cells;
  }

module _ {q : Queue} {items : List ℕ} (h : Holds q items) where
  -- A push into a queue with room succeeds.
  pub queue_push-room :
      (p : ℕ) → length items ≢ q.max_size → queue_push q (some p) ≡ (queue_success, pushed q p)
  unfolding queue_push
  queue_push-room p ne = ground (arith, queue_is_full_lem q items h)

  pub queue_push-full :
      (p : ℕ) → length items ≡ q.max_size → queue_push q (some p) ≡ (queue_failure, q)
  unfolding queue_push
  queue_push-full p e = ground (arith, queue_is_full_lem q items h)

pub queue_pop-empty : {q : Queue} → Holds q [] → queue_pop q ≡ (none, q)
unfolding queue_pop
queue_pop-empty {q} h = ground (arith, queue_is_empty_lem q [] h)

pub queue_pop-item :
    {q : Queue} {x : ℕ} {items : List ℕ} → Holds q (x ∷ items) → queue_pop q ≡ (some x, shifted q)
unfolding queue_pop
queue_pop-item {q} {x} {items} h = ground (arith, queue_is_empty_lem q (x ∷ items) h, front_cell h)
