-- ===== src/Lookup/Takes.antt =====
-- What one step of a resolver does to the queue, the count of host names left and the output.
use model_lib.Prelude.{
  ℕ, ◌+◌, ◌≤◌, ◌<◌, ◌≡◌, ◌≢◌, ◌⊎◌, inl, inr, refl, sym, ◌∙◌, ap, true, false, Option, none, some,
  List, [], ◌∷◌, ◌++◌, arith, length, length-append,
}
use model_lib.Prelude.Int.{pos, pos_part, ◌-ℤ◌, -ℤ-one}
use model_lib.Queue.{Queue, queue_is_empty}
use model_lib.Queue.Shape.{queue_is_empty_lem}
use model_lib.Queue.Steps.{shifted, shifted-Holds, queue_pop-item}
use model_lib.Lookup.{Name, Shared}
use model_lib.Lookup.Effects.{Sound}
use model_lib.Lookup.Resolver.{
  ResPc, top, probing, sleeping, deciding, resolving, writing, relocking, settling, crashed, stale,
  ResMove, leave, lock, sleep, wake, pass, pass_stopped, stop, take, take_freed, take_null, unlock,
  append, relock, settle,
}

-- 1 from the pop of a name until its count is taken off, and until its line is written.
abbrev pub holding : ResPc → ℕ
holding (resolving name) = 1
holding (writing name) = 1
holding relocking = 1
holding settling = 1
holding stale = 1
holding _ = 0

abbrev pub unwritten : ResPc → ℕ
unwritten (resolving name) = 1
unwritten (writing name) = 1
unwritten stale = 1
unwritten _ = 0

pub record ResEffect (j : ℕ) (sh sh' : Shared) (p p' : ResPc) (items items' : List ℕ) : Type 0 where
  pub sound : Sound sh' items'
  pub counted :
      pos_part sh'.hostname_left + length items + holding p
      ≡ pos_part sh.hostname_left + length items' + holding p'
  pub written :
      length items' + unwritten p' + length sh'.output
      ≡ length items + unwritten p + length sh.output
  pub same_running : sh'.running ≡ sh.running
  pub item_left : p' ≡ deciding → sh'.running j ≡ true → 0 < length items'
  pub moved : (items' ≡ items) ⊎ (p ≡ deciding)
  pub no_more : length items' ≤ length items
  pub alive : p' ≢ crashed

module _ (ip_of : Name → Name) (mem : ℕ → Option Name) (j : ℕ) (sh : Shared) (p : ResPc) where
  ResEffect-quiet :
      (items : List ℕ) (q : ResPc) (sh' : Shared) (p' : ResPc)
      → Sound sh items
      → p ≡ q
      → sh'.queue ≡ sh.queue
      → sh'.hostname_left ≡ sh.hostname_left
      → sh'.running ≡ sh.running
      → holding p' ≡ holding q
      → unwritten p' + length sh'.output ≡ unwritten q + length sh.output
      → (p' ≡ deciding → sh'.running j ≡ true → 0 < length items)
      → p' ≢ crashed
      → ResEffect j sh sh' p p' items items
  ResEffect-quiet items q sh' p' s e qu l a h w ok up = record {
    sound = record { queue = rw qu s.queue; cap = rw qu s.cap; nonneg = rw l s.nonneg };
    counted = rw (l, e, h);
    written = omega (arith, w, ap unwritten e);
    same_running = a;
    item_left = ok;
    moved = inl refl;
    no_more = omega arith;
    alive = up;
  }

  ResEffect-take :
      (x : ℕ) (rest : List ℕ) (p' : ResPc)
      → Sound sh (x ∷ rest)
      → p ≡ deciding
      → holding p' ≡ 1
      → unwritten p' ≡ 1
      → p' ≢ deciding
      → p' ≢ crashed
      → ResEffect j sh (record sh { queue = shifted sh.queue }) p p' (x ∷ rest) rest
  ResEffect-take x rest p' s e held kept ne up = record {
    sound = record { queue = shifted-Holds s.queue; cap = s.cap; nonneg = s.nonneg };
    counted = omega (arith, ap holding e, held);
    written = omega (arith, ap unwritten e, kept);
    same_running = refl;
    item_left = λ h. absurd (ne h);
    moved = inr e;
    no_more = omega arith;
    alive = up;
  }

  ResEffect-settle :
      (items : List ℕ)
      → Sound sh items
      → p ≡ settling
      → 1 ≤ pos_part sh.hostname_left
      → ResEffect j sh
          (record sh { owner = none; hostname_left = sh.hostname_left -ℤ pos 1 })
          p
          top
          items
          items
  ResEffect-settle items s e some_left = record {
    sound = record {
      queue = s.queue;
      cap = s.cap;
      nonneg = (-ℤ-one sh.hostname_left s.nonneg some_left).0;
    };
    counted = omega (arith, -ℤ-one sh.hostname_left s.nonneg some_left, ap holding e);
    written = omega (arith, ap unwritten e);
    same_running = refl;
    item_left = λ h. cc;
    moved = inl refl;
    no_more = omega arith;
    alive = λ h. cc;
  }

  not_empty : (items : List ℕ) → Sound sh items → queue_is_empty sh.queue ≡ false → 0 < length items
  not_empty [] s e = ground (arith, queue_is_empty_lem sh.queue [] s.queue)
  not_empty (x ∷ items) s e = omega arith

  pub ResMove-effect :
      (items : List ℕ) (sh' : Shared) (p' : ResPc)
      → Sound sh items
      → (p ≡ deciding → sh.running j ≡ true → 0 < length items)
      → (p ≡ settling → 1 ≤ pos_part sh.hostname_left)
      → ResMove ip_of mem j sh p sh' p'
      → (items' : List ℕ) × ResEffect j sh sh' p p' items items'
  ResMove-effect items sh' p' s ok some_left (leave e f) =
      (items, ResEffect-quiet items top sh' p' s e refl refl refl refl refl (λ h. cc) (λ h. cc))
  ResMove-effect items sh' p' s ok some_left (lock e f free) =
      (items, ResEffect-quiet items top sh' p' s e refl refl refl refl refl (λ h. cc) (λ h. cc))
  ResMove-effect items sh' p' s ok some_left (sleep e f h) =
      (items, ResEffect-quiet items probing sh' p' s e refl refl refl refl refl (λ h. cc) (λ h. cc))
  ResMove-effect items sh' p' s ok some_left (wake e free) = (
    items,
    ResEffect-quiet items sleeping sh' p' s e refl refl refl refl refl (λ h. cc) (λ h. cc),
  )
  ResMove-effect items sh' p' s ok some_left (pass e f) = (
    items,
    ResEffect-quiet items probing sh' p' s e refl refl refl refl refl (λ h k. not_empty items s f)
        (λ h. cc),
  )
  ResMove-effect items sh' p' s ok some_left (pass_stopped e f) = (
    items,
    ResEffect-quiet items probing sh' p' s e refl refl refl refl refl (λ h k. cc) (λ h. cc),
  )
  ResMove-effect items sh' p' s ok some_left (stop e f) = (
    items,
    ResEffect-quiet items deciding sh' p' s e refl refl refl refl refl (λ h. cc) (λ h. cc),
  )
  ResMove-effect [] _ _ s ok some_left (take a q name e f h g) = absurd (omega (arith, ok e f))
  ResMove-effect [] _ _ s ok some_left (take_freed a q e f h g) = absurd (omega (arith, ok e f))
  ResMove-effect (x ∷ rest) _ _ s ok some_left (take a q name e f h g) = (
    rest,
    rw (ap (λ y. y.1) (sym h ∙ queue_pop-item s.queue))
        (ResEffect-take x rest (resolving name) s e refl refl (λ h. cc) (λ h. cc)),
  )
  ResMove-effect (x ∷ rest) _ _ s ok some_left (take_freed a q e f h g) = (
    rest,
    rw (ap (λ y. y.1) (sym h ∙ queue_pop-item s.queue))
        (ResEffect-take x rest stale s e refl refl (λ h. cc) (λ h. cc)),
  )
  ResMove-effect [] _ _ s ok some_left (take_null q e f h) = absurd (omega (arith, ok e f))
  ResMove-effect (x ∷ rest) _ _ s ok some_left (take_null q e f h) =
      absurd (clash (sym h ∙ queue_pop-item s.queue))
    where
      clash : ◌≡◌ {A = Option ℕ × Queue} (none, q) (some x, shifted sh.queue) → ⊥
      clash k = cc
  ResMove-effect items sh' p' s ok some_left (unlock name e) = (
    items,
    ResEffect-quiet items (resolving name) sh' p' s e refl refl refl refl refl (λ h. cc) (λ h. cc),
  )
  ResMove-effect items sh' p' s ok some_left (append name e) = (
    items,
    ResEffect-quiet items (writing name) sh' p' s e refl refl refl refl (longer name) (λ h. cc)
        (λ h. cc),
  )
    where
      longer :
          (name : Name)
          → 0 + length (sh.output ++ (record { hostname = name; ipstring = ip_of name } ∷ []))
            ≡ 1 + length sh.output
      longer name =
          omega (
            arith,
            length-append sh.output (record { hostname = name; ipstring = ip_of name } ∷ []),
          )
  ResMove-effect items sh' p' s ok some_left (relock e free) = (
    items,
    ResEffect-quiet items relocking sh' p' s e refl refl refl refl refl (λ h. cc) (λ h. cc),
  )
  ResMove-effect items sh' p' s ok some_left (settle e) =
      (items, ResEffect-settle items s e (some_left e))
