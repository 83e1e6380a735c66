-- ===== src/Queue/Shape.antt =====
-- The shape of a live queue, and the items that it holds.
use model_lib.Prelude.{
  ℕ, ◌+◌, ◌%◌, ◌≤◌, ◌<◌, ◌≡◌, ◌⊎◌, inl, inr, sym, ◌∙◌, ap, false, List, [], ◌∷◌, arith, length,
  get_elem?, ◌==◌, ℕ_discrete,
}
use mathlib.Core.Path.{subst}
use model_lib.Prelude.Modular.{add-mod-ne, add-mod-zero, add-mod_self}
use model_lib.Queue.{Queue, payload_at, queue_is_empty, queue_is_full}

-- The `k`-th slot from the front, going round.
abbrev pub slot : Queue → ℕ → ℕ
slot q k = (q.front + k) % q.max_size

-- The cells from `front` on hold `items` in order, and every other cell is NULL.
pub record Holds (q : Queue) (items : List ℕ) : Type 0 where
  pub positive : 0 < q.max_size
  pub sized : length q.array ≡ q.max_size
  pub front_in : q.front < q.max_size
  pub few : length items ≤ q.max_size
  pub rear_at : q.rear ≡ slot q (length items)
  pub cells : (k : ℕ) → k < q.max_size → payload_at q (slot q k) ≡ get_elem? items k

module _ {q : Queue} {items : List ℕ} (h : Holds q items) where
  open h use {positive, sized, front_in, few, rear_at, cells}

  pub slot-zero : slot q 0 ≡ q.front
  slot-zero = add-mod-zero q.max_size q.front front_in

  pub rear_in : q.rear < q.max_size
  rear_in = omega arith

  pub front_cell : payload_at q q.front ≡ get_elem? items 0
  front_cell = subst (λ i. payload_at q i ≡ get_elem? items 0) slot-zero (cells 0 positive)

  -- The two indices meet only in an empty or a full queue.
  length_of_meet : q.front ≡ q.rear → (length items ≡ 0) ⊎ (length items ≡ q.max_size)
  length_of_meet e = elim (ℕ_discrete (length items) q.max_size) [
    | yes full ↦ inr full
    | no part ↦ elim (ℕ_discrete (length items) 0) [
      | yes none_left ↦ inl none_left
      | no some_left ↦ absurd (
          add-mod-ne q.max_size q.front (length items) 0 front_in (omega arith) positive some_left
            (sym rear_at ∙ sym e ∙ sym slot-zero))
    ]
  ]

  meet_of_full : length items ≡ q.max_size → q.front ≡ q.rear
  meet_of_full e = sym (rear_at ∙ ap (slot q) e ∙ add-mod_self q.max_size q.front front_in)

pub queue_is_empty_lem :
    (q : Queue) (items : List ℕ) → Holds q items → queue_is_empty q ≡ (length items == 0)
unfolding queue_is_empty
queue_is_empty_lem q [] h = ground (arith, front_cell h, h.rear_at, slot-zero h)
queue_is_empty_lem q (x ∷ items) h = ground (arith, front_cell h)

pub queue_is_full_lem :
    (q : Queue) (items : List ℕ) → Holds q items → queue_is_full q ≡ (length items == q.max_size)
unfolding queue_is_full
queue_is_full_lem q [] h = ground (arith, front_cell h, h.positive)
queue_is_full_lem q (x ∷ items) h = ground (arith, front_cell h, length_of_meet h, meet_of_full h)

pub queue_is_empty-cons :
    {q : Queue} {x : ℕ} {items : List ℕ} → Holds q (x ∷ items) → queue_is_empty q ≡ false
queue_is_empty-cons {q} {x} {items} h = queue_is_empty_lem q (x ∷ items) h ∙ ground arith
