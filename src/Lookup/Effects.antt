-- ===== src/Lookup/Effects.antt =====
-- What one step of a requester does to the queue, the count of host names left and the output.
use model_lib.Prelude.{
  ℕ, ◌+◌, ◌≤◌, ◌≡◌, ◌≢◌, ◌⊎◌, inl, inr, refl, sym, ◌∙◌, ap, false, some, List, [], ◌∷◌, ◌++◌, arith,
  length, length-append,
}
use model_lib.Prelude.Int.{pos, pos_part, neg_part, ◌+ℤ◌, +ℤ-one}
use model_lib.Queue.{queue_is_full, queue_push, queue_max_size}
use model_lib.Queue.Shape.{Holds, queue_is_full_lem}
use model_lib.Queue.Steps.{pushed, pushed-Holds, queue_push-room}
use model_lib.Lookup.{Shared, address}
use model_lib.Lookup.Requester.{
  Requester, ReqPc, reading, pushing, counting, numbering, left_early, ReqMove, open_ok,
  fails_early, scan, scan_wild, scan_end, lock, full, room, push, push_wild, count, number, store,
  grow, grow_oom, release, drained,
}

-- 1 while a name is pushed and not yet counted.
abbrev pub uncounted : ReqPc → ℕ
uncounted counting = 1
uncounted _ = 0

-- The queue holds `items`, and the count of names left is not negative.
pub record Sound (sh : Shared) (items : List ℕ) : Type 0 where
  pub queue : Holds sh.queue items
  pub cap : sh.queue.max_size ≡ queue_max_size
  pub nonneg : neg_part sh.hostname_left ≡ 0

-- `queue` grows by what is pushed, and the count by what is counted.
pub record ReqEffect (sh sh' : Shared) (r r' : Requester) (items items' : List ℕ) : Type 0 where
  pub sound : Sound sh' items'
  pub grown : length items' + r.pushes ≡ length items + r'.pushes
  pub counted :
      pos_part sh'.hostname_left + uncounted r'.pc + length items
      ≡ pos_part sh.hostname_left + uncounted r.pc + length items'
  pub same_output : sh'.output ≡ sh.output
  pub same_running : sh'.running ≡ sh.running
  pub room_left : r'.pc ≡ pushing → length items' ≢ queue_max_size
  pub moved : (items' ≡ items) ⊎ (r.pc ≡ pushing)
  pub no_fewer : length items ≤ length items'

module _ (n i : ℕ) (sh : Shared) (r : Requester) (items : List ℕ) (s : Sound sh items) where
  -- A step that touches neither the queue nor the count.
  ReqEffect-quiet :
      (sh' : Shared) (r' : Requester)
      → sh'.queue ≡ sh.queue
      → sh'.hostname_left ≡ sh.hostname_left
      → sh'.output ≡ sh.output
      → sh'.running ≡ sh.running
      → r'.pushes ≡ r.pushes
      → uncounted r'.pc ≡ uncounted r.pc
      → (r'.pc ≡ pushing → length items ≢ queue_max_size)
      → ReqEffect sh sh' r r' items items
  ReqEffect-quiet sh' r' q l o a p u ok = record {
    sound = record { queue = rw q s.queue; cap = rw q s.cap; nonneg = rw l s.nonneg };
    grown = omega arith;
    counted = rw (l, u);
    same_output = o;
    same_running = a;
    room_left = ok;
    moved = inl refl;
    no_fewer = omega arith;
  }

  ReqEffect-push :
      (k : ℕ)
      → r.pc ≡ pushing
      → length items ≢ queue_max_size
      → ReqEffect sh
          (record sh { queue = (queue_push sh.queue (some (address n i k))).1 })
          r
          (record r { pc = counting; pushes = r.pushes + 1 })
          items
          (items ++ (address n i k ∷ []))
  ReqEffect-push k e ok = record {
    sound = record {
      queue =
          rw (ap (λ x. x.1) done)
            (pushed-Holds s.queue (address n i k) (omega (arith, s.cap, s.queue.few)));
      cap = rw (ap (λ x. x.1) done) s.cap;
      nonneg = s.nonneg;
    };
    grown = omega (arith, longer);
    counted = omega (arith, longer, ap uncounted e);
    same_output = refl;
    same_running = refl;
    room_left = λ h. cc;
    moved = inr e;
    no_fewer = omega (arith, longer);
  }
    where
      longer : length (items ++ (address n i k ∷ [])) ≡ length items + 1
      longer = length-append items (address n i k ∷ [])

      done : queue_push sh.queue (some (address n i k)) ≡ (pos 0, pushed sh.queue (address n i k))
      done = queue_push-room s.queue (address n i k) (λ e. ok (e ∙ s.cap))

  ReqEffect-count :
      r.pc ≡ counting
      → ReqEffect sh
          (record sh { hostname_left = sh.hostname_left +ℤ pos 1 })
          r
          (record r { pc = numbering })
          items
          items
  ReqEffect-count e = record {
    sound = record { queue = s.queue; cap = s.cap; nonneg = (+ℤ-one sh.hostname_left s.nonneg).0 };
    grown = omega arith;
    counted = omega (arith, +ℤ-one sh.hostname_left s.nonneg, ap uncounted e);
    same_output = refl;
    same_running = refl;
    room_left = λ h. cc;
    moved = inl refl;
    no_fewer = omega arith;
  }

  not_full : queue_is_full sh.queue ≡ false → length items ≢ queue_max_size
  not_full f e = ground (arith, queue_is_full_lem sh.queue items s.queue, s.cap)

  pub ReqMove-effect :
      (sh' : Shared) (r' : Requester)
      → (r.pc ≡ pushing → length items ≢ queue_max_size)
      → ReqMove n i sh r sh' r'
      → (items' : List ℕ) × ReqEffect sh sh' r r' items items'
  ReqMove-effect _ _ ok (open_ok ns e f) = (
    items,
    ReqEffect-quiet sh (record r { pc = reading }) refl refl refl refl refl (ap uncounted (sym e))
        (λ h. cc),
  )
  ReqMove-effect _ _ ok (fails_early e f) = (
    items,
    ReqEffect-quiet sh (record r { pc = left_early }) refl refl refl refl refl
        (ap uncounted (sym e)) (λ h. cc),
  )
  ReqMove-effect _ r' ok (scan k name rest e f h) =
      (items, ReqEffect-quiet sh r' refl refl refl refl refl (ap uncounted (sym e)) (λ h. cc))
  ReqMove-effect _ r' ok (scan_wild k name rest e f h) =
      (items, ReqEffect-quiet sh r' refl refl refl refl refl (ap uncounted (sym e)) (λ h. cc))
  ReqMove-effect _ r' ok (scan_end e f) =
      (items, ReqEffect-quiet sh r' refl refl refl refl refl (ap uncounted (sym e)) (λ h. cc))
  ReqMove-effect sh' r' ok (lock e free) =
      (items, ReqEffect-quiet sh' r' refl refl refl refl refl (ap uncounted (sym e)) (λ h. cc))
  ReqMove-effect sh' r' ok (full e f) =
      (items, ReqEffect-quiet sh' r' refl refl refl refl refl (ap uncounted (sym e)) (λ h. cc))
  ReqMove-effect sh' r' ok (room e f) = (
    items,
    ReqEffect-quiet sh' r' refl refl refl refl refl (ap uncounted (sym e)) (λ h. not_full f),
  )
  ReqMove-effect sh' r' ok (push k e f) = (_, ReqEffect-push k e (ok e))
  ReqMove-effect sh' r' ok (push_wild k e f) =
      (items, ReqEffect-quiet sh' r' refl refl refl refl refl (ap uncounted (sym e)) (λ h. cc))
  ReqMove-effect sh' r' ok (count e) = (items, ReqEffect-count e)
  ReqMove-effect sh' r' ok (number e) =
      (items, ReqEffect-quiet sh' r' refl refl refl refl refl (ap uncounted (sym e)) (λ h. cc))
  ReqMove-effect sh' r' ok (store e) =
      (items, ReqEffect-quiet sh' r' refl refl refl refl refl (ap uncounted (sym e)) (λ h. cc))
  ReqMove-effect sh' r' ok (grow e) =
      (items, ReqEffect-quiet sh' r' refl refl refl refl refl (ap uncounted (sym e)) (λ h. cc))
  ReqMove-effect sh' r' ok (grow_oom e f g) =
      (items, ReqEffect-quiet sh' r' refl refl refl refl refl (ap uncounted (sym e)) (λ h. cc))
  ReqMove-effect sh' r' ok (release e) =
      (items, ReqEffect-quiet sh' r' refl refl refl refl refl (ap uncounted (sym e)) (λ h. cc))
  ReqMove-effect sh' r' ok (drained e f g) =
      (items, ReqEffect-quiet sh' r' refl refl refl refl refl (ap uncounted (sym e)) (λ h. cc))
