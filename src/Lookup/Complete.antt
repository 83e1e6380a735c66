-- ===== src/Lookup/Complete.antt =====
-- The reachable states of lab3/multi-lookup.c: the numbers of names, the calls of the queue, and the
-- states behind the waits of `main`.
use model_lib.Prelude.{
  ℕ, ◌+◌, ◌%◌, ◌≤◌, ◌<◌, ◌≡◌, ◌≢◌, inl, inr, refl, ◌∙◌, ap, true, false, Option, none, List, [],
  arith, length, length-replicate, get_or-replicate,
}
use model_lib.Prelude.Int.{pos_part, neg_part}
use model_lib.Queue.{Payload, queue_is_empty, queue_is_full, queue_max_size}
use model_lib.Queue.Shape.{Holds, queue_is_empty_lem, queue_is_full_lem}
use model_lib.Lookup.{Name}
use model_lib.Lookup.Family.{sum_below, sum_below-same, sum_below-all_zero, sum_below-le}
use model_lib.Lookup.Requester.{Requester, ReqPc, Returned, pushing, wild, names}
use model_lib.Lookup.Resolver.{ResPc, crashed}
use model_lib.Lookup.Owners.{Reach-Owners}
use model_lib.Lookup.Effects.{uncounted}
use model_lib.Lookup.Takes.{holding, unwritten}
use model_lib.Lookup.Counts.{
  Counts, Step-Counts, all_uncounted, all_pushes, all_holding, all_unwritten,
}
use model_lib.Lookup.Progress.{Progress, Reach-Progress, at_end, unpushed}
use model_lib.Lookup.Joined.{Joined, Step-Joined, waited, joining-injective}
use model_lib.Lookup.System.{System, Reach, begin, next, start}

unwritten-le : (p : ResPc) → unwritten p ≤ holding p
unwritten-le p = ground arith

all_pushed :
    (file : Option (List Name)) (r : Requester)
    → Progress file r
    → r.pc ≢ wild
    → unpushed r.pc ≡ 0
    → at_end r.pc ≡ true
    → r.pushes ≡ length (names file)
all_pushed file r v tame none_between end =
    omega (arith, v.given, v.balanced tame, none_between, ap length (v.exhausted end))

-- A requester that has returned has pushed every name of its file.
finished_pushes :
    (file : Option (List Name)) (r : Requester)
    → Progress file r
    → Returned r.pc
    → r.pushes ≡ length (names file)
finished_pushes file r v (inl e) = all_pushed file r v (λ w. cc) (ap unpushed e) (ap at_end e)
finished_pushes file r v (inr e) = all_pushed file r v (λ w. cc) (ap unpushed e) (ap at_end e)

returned_counted : (p : ReqPc) → Returned p → uncounted p ≡ 0
returned_counted p (inl e) = ap uncounted e
returned_counted p (inr e) = ap uncounted e

module _ (ip_of : Name → Name) (n m : ℕ) (files : ℕ → Option (List Name)) where
  start-Holds : Holds (start files).shared.queue []
  start-Holds = record {
    positive = omega arith;
    sized = length-replicate {A = Payload} queue_max_size none;
    front_in = omega arith;
    few = omega arith;
    rear_at = refl;
    cells = λ k lt. get_or-replicate {A = Payload} queue_max_size ((0 + k) % queue_max_size) none;
  }

  start-Counts : Counts n m (start files) []
  start-Counts = record {
    sound = record { queue = start-Holds; cap = refl; nonneg = refl };
    balance = omega (
      arith,
      sum_below-all_zero n (λ i. uncounted ((start files).requesters i).pc) (λ i lt. refl),
      sum_below-all_zero m (λ j. holding ((start files).resolvers j)) (λ j lt. refl),
    );
    accounted = omega (
      arith,
      sum_below-all_zero n (λ i. ((start files).requesters i).pushes) (λ i lt. refl),
      sum_below-all_zero m (λ j. unwritten ((start files).resolvers j)) (λ j lt. refl),
    );
    rooms = λ i h. cc;
    some_item = λ j h. cc;
    none_crashed = λ j h. cc;
  }

  start-Joined : Joined n (start files)
  start-Joined = record {
    before = λ i k h lt. absurd (omega (arith, joining-injective 0 i h));
    after = λ h. cc;
    none_left = λ h. cc;
    all_returned = λ h. cc;
  }

  Reach-Inv :
      {s : System}
      → Reach ip_of n m files s
      → record { items : List ℕ; counts : Counts n m s items; joined : Joined n s }
  Reach-Inv begin = record { items = []; counts = start-Counts; joined = start-Joined }
  Reach-Inv (next {s} {t} r st) =
      let inv = Reach-Inv r in
      let o = Reach-Owners ip_of n m files r in
      let (items', c) = Step-Counts ip_of n m s t inv.items o inv.counts st in
      record {
        items = items';
        counts = c;
        joined = Step-Joined ip_of n m s t inv.items o inv.counts inv.joined st;
      }

  -- In every reachable state the queue is a live queue of `items`; the number of names pushed is that
  -- of the items, of the names that resolvers have taken and not written, and of the lines of the
  -- output together; and `hostnameLeft`, which is not negative, is short of the number of items and
  -- of names that resolvers have not settled by the number of those pushed and not counted yet.
  pub names_accounted :
      {s : System}
      → Reach ip_of n m files s
      → (items : List ℕ) × Holds s.shared.queue items
        × (all_pushes n m s ≡ length items + all_unwritten n m s + length s.shared.output)
        × (pos_part s.shared.hostname_left + all_uncounted n m s ≡ length items + all_holding n m s)
        × (neg_part s.shared.hostname_left ≡ 0)
  names_accounted r =
      let inv = Reach-Inv r in
      (
        inv.items, inv.counts.sound.queue, inv.counts.accounted, inv.counts.balance,
        inv.counts.sound.nonneg,
      )

  -- In every reachable state a requester at `queue_push` finds room, so that no push is lost though
  -- the code ignores its result, and no resolver has copied a name from NULL, though the code does
  -- not test the pointer that it pops.
  pub queue_calls_succeed :
      {s : System}
      → Reach ip_of n m files s
      → ((i : ℕ) → (s.requesters i).pc ≡ pushing → queue_is_full s.shared.queue ≡ false)
        × ((j : ℕ) → s.resolvers j ≢ crashed)
  queue_calls_succeed {s} r =
      let inv = Reach-Inv r in
      (
        λ i e. ground (
          arith,
          queue_is_full_lem s.shared.queue inv.items inv.counts.sound.queue,
          inv.counts.sound.cap,
          inv.counts.rooms i e,
        ),
        inv.counts.none_crashed,
      )

  -- When `main` has seen all requesters end and `hostnameLeft` reach 0, every requester has returned or
  -- has exited before it read a name, the queue is empty, no resolver holds a name, and the output has
  -- exactly as many lines as there are names in the files of the requesters that came to read. This
  -- stays so until `main` returns.
  pub complete_output :
      {s : System}
      → Reach ip_of n m files s
      → waited s.main_pc ≡ true
      → (length s.shared.output ≡ sum_below n (λ i. length (names (files i))))
        × (queue_is_empty s.shared.queue ≡ true)
        × (all_holding n m s ≡ 0)
        × ((i : ℕ) → i < n → Returned (s.requesters i).pc)
  complete_output {s} r w = (
    omega (
      arith,
      inv.counts.accounted,
      idle,
      sum_below-le m _ _ (λ j. unwritten-le (s.resolvers j)),
      sum_below-same n _ _ whole_files,
    ),
    queue_is_empty_lem s.shared.queue inv.items inv.counts.sound.queue ∙ ground (arith, idle),
    omega (arith, idle),
    ended,
  )
    where
      inv : record { items : List ℕ; counts : Counts n m s items; joined : Joined n s }
      inv = Reach-Inv r

      ended : (i : ℕ) → i < n → Returned (s.requesters i).pc
      ended = inv.joined.all_returned w

      idle : length inv.items + all_holding n m s ≡ 0
      idle = omega (
        arith,
        inv.counts.balance,
        inv.joined.none_left w,
        sum_below-all_zero n (λ i. uncounted (s.requesters i).pc)
            (λ i lt. returned_counted (s.requesters i).pc (ended i lt)),
      )

      whole_files : (i : ℕ) → i < n → (s.requesters i).pushes ≡ length (names (files i))
      whole_files i lt =
          finished_pushes (files i) (s.requesters i) (Reach-Progress ip_of n m files r i)
            (ended i lt)
