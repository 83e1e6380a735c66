-- ===== src/Lookup/Counts.antt =====
-- What `hostnameLeft` counts, and how many names are pushed.
use model_lib.Prelude.{
  ℕ, ◌+◌, ◌≤◌, ◌<◌, ◌≡◌, ◌≢◌, inl, inr, refl, sym, ◌∙◌, ap, true, false, some, List, arith, length,
}
use model_lib.Prelude.Int.{pos_part}
use model_lib.Queue.{queue_max_size}
use model_lib.Lookup.{Name, Line, resolver, Shared}
use model_lib.Lookup.Family.{
  put, put-all, sum_below, sum_below-same, sum_below-put, sum_below-all_zero, le-sum_below,
}
use model_lib.Lookup.Requester.{Requester, pushing, Detect, detect, take_off}
use model_lib.Lookup.Resolver.{ResPc, deciding, settling, crashed}
use model_lib.Lookup.Effects.{uncounted, Sound, ReqEffect, ReqMove-effect}
use model_lib.Lookup.Takes.{holding, unwritten, ResEffect, ResMove-effect}
use model_lib.Lookup.Fair.{req_in, res_in}
use model_lib.Lookup.Owners.{Owners}
use model_lib.Lookup.System
use model_lib.Lookup.System.{
  System, MainMove, MainPc, Step, main_step, requester_step, helper_step, resolver_step, memory,
}

module _ (n m : ℕ) (s : System) where
  -- The sums over all requesters and resolvers.
  abbrev pub all_uncounted : ℕ
  all_uncounted = sum_below n (λ i. uncounted (s.requesters i).pc)

  abbrev pub all_pushes : ℕ
  all_pushes = sum_below n (λ i. (s.requesters i).pushes)

  abbrev pub all_holding : ℕ
  all_holding = sum_below m (λ j. holding (s.resolvers j))

  abbrev pub all_unwritten : ℕ
  all_unwritten = sum_below m (λ j. unwritten (s.resolvers j))

-- The queue holds `items`. The count of names left, with the names that are pushed and not counted
-- yet, is the number of those in the queue and of those that resolvers have not finished with. The
-- number of names pushed is that of those in the queue, of those with a resolver and of the lines.
pub record Counts (n m : ℕ) (s : System) (items : List ℕ) : Type 0 where
  pub sound : Sound s.shared items
  pub balance :
      pos_part s.shared.hostname_left + all_uncounted n m s ≡ length items + all_holding n m s
  pub accounted : all_pushes n m s ≡ length items + all_unwritten n m s + length s.shared.output
  pub rooms : (i : ℕ) → (s.requesters i).pc ≡ pushing → length items ≢ queue_max_size
  pub some_item : (j : ℕ) → s.resolvers j ≡ deciding → s.shared.running j ≡ true → 0 < length items
  pub none_crashed : (j : ℕ) → s.resolvers j ≢ crashed

Detect-same :
    {output : List Line} {r r' : Requester}
    → Detect output r r'
    → (r'.pc ≡ r.pc) × (r'.pushes ≡ r.pushes)
Detect-same (detect k at l e b f g h j o) = (refl, refl)
Detect-same (take_off k left e) = (refl, refl)

module _ (n m : ℕ) (s : System) (items : List ℕ) (o : Owners s) (c : Counts n m s items) where
  one_requester :
      (i k : ℕ) → req_in (s.requesters i).pc ≡ true → req_in (s.requesters k).pc ≡ true → i ≡ k
  one_requester i k hi hk = ground (arith, o.of_requester i hi, o.of_requester k hk)

  one_resolver : (i k : ℕ) → res_in (s.resolvers i) ≡ true → res_in (s.resolvers k) ≡ true → i ≡ k
  one_resolver i k hi hk = ground (arith, o.of_resolver i hi, o.of_resolver k hk)

  -- While a resolver settles, no requester is counting, and the count of names left is positive.
  pub left_of_settling :
      (j : ℕ) → j < m → s.resolvers j ≡ settling → 1 ≤ pos_part s.shared.hostname_left
  left_of_settling j lt e = omega (
    arith,
    c.balance,
    sum_below-all_zero n (λ i. uncounted (s.requesters i).pc) (λ i below. quiet i),
    le-sum_below m (λ k. holding (s.resolvers k)) j lt,
    ap holding e,
  )
    where
      mine : s.shared.owner ≡ some (resolver j)
      mine = o.of_resolver j (ap res_in e)

      quiet : (i : ℕ) → uncounted (s.requesters i).pc ≡ 0
      quiet i = ground (arith, o.of_requester i, mine)

  requester_Counts :
      (i : ℕ) (sh : Shared) (r : Requester) (items' : List ℕ)
      → i < n
      → ReqEffect s.shared sh (s.requesters i) r items items'
      → Counts n m (record s { shared = sh; requesters = put i r s.requesters }) items'
  requester_Counts i sh r items' lt f = record {
    sound = f.sound;
    balance =
        omega
          (arith, c.balance, f.counted, sum_below-put (λ x. uncounted x.pc) n i r s.requesters lt);
    accounted = omega (
      arith,
      c.accounted,
      f.grown,
      ap length f.same_output,
      sum_below-put (λ x. x.pushes) n i r s.requesters lt,
    );
    rooms =
        put-all i r s.requesters (λ k x. x.pc ≡ pushing → length items' ≢ queue_max_size)
          f.room_left away;
    some_item = λ j e run.
        omega (arith, c.some_item j e (ap (λ g. g j) (sym f.same_running) ∙ run), f.no_fewer);
    none_crashed = c.none_crashed;
  }
    where
      away : (k : ℕ) → k ≢ i → (s.requesters k).pc ≡ pushing → length items' ≢ queue_max_size
      away k ne e = elim f.moved [
        | inl same ↦ λ h. c.rooms k e (ap length (sym same) ∙ h)
        | inr here ↦ absurd (ne (one_requester k i (ap req_in e) (ap req_in here)))
      ]

  resolver_Counts :
      (j : ℕ) (sh : Shared) (p : ResPc) (items' : List ℕ)
      → j < m
      → ResEffect j s.shared sh (s.resolvers j) p items items'
      → Counts n m (record s { shared = sh; resolvers = put j p s.resolvers }) items'
  resolver_Counts j sh p items' lt f = record {
    sound = f.sound;
    balance = omega (arith, c.balance, f.counted, sum_below-put holding m j p s.resolvers lt);
    accounted = omega (arith, c.accounted, f.written, sum_below-put unwritten m j p s.resolvers lt);
    rooms = λ i e h. c.rooms i e (omega (arith, f.no_more, c.sound.queue.few, c.sound.cap));
    some_item =
        put-all j p s.resolvers (λ k x. x ≡ deciding → sh.running k ≡ true → 0 < length items')
          f.item_left away;
    none_crashed = put-all j p s.resolvers (λ k x. x ≢ crashed) f.alive (λ k ne. c.none_crashed k);
  }
    where
      away : (k : ℕ) → k ≢ j → s.resolvers k ≡ deciding → sh.running k ≡ true → 0 < length items'
      away k ne e run = elim f.moved [
        | inl same ↦ rw same (c.some_item k e (ap (λ g. g k) (sym f.same_running) ∙ run))
        | inr here ↦ absurd (ne (one_resolver k j (ap res_in e) (ap res_in here)))
      ]

  -- A step that changes the owner, the flags (only off) or the helper's part of a requester.
  quiet_Counts :
      (t : System)
      → t.shared.queue ≡ s.shared.queue
      → t.shared.hostname_left ≡ s.shared.hostname_left
      → t.shared.output ≡ s.shared.output
      → ((j : ℕ) → t.shared.running j ≡ true → s.shared.running j ≡ true)
      → t.resolvers ≡ s.resolvers
      → ((i : ℕ) → (t.requesters i).pc ≡ (s.requesters i).pc)
      → ((i : ℕ) → (t.requesters i).pushes ≡ (s.requesters i).pushes)
      → Counts n m t items
  quiet_Counts t q l out run res pc pushes = record {
    sound = record {
      queue = rw q c.sound.queue;
      cap = rw q c.sound.cap;
      nonneg = rw l c.sound.nonneg;
    };
    balance =
        rw (l, res) (omega (arith, c.balance, sum_below-same n _ _ (λ i lt. ap uncounted (pc i))));
    accounted = rw (out, res) (omega (arith, c.accounted, sum_below-same n _ _ (λ i lt. pushes i)));
    rooms = λ i e. c.rooms i (sym (pc i) ∙ e);
    some_item = λ j e on. c.some_item j (ap (λ g. g j) (sym res) ∙ e) (run j on);
    none_crashed = λ j e. c.none_crashed j (ap (λ g. g j) (sym res) ∙ e);
  }

  main_Counts :
      (sh : Shared) (p : MainPc)
      → MainMove n m s sh p
      → Counts n m (record s { shared = sh; main_pc = p }) items
  main_Counts sh p (System.stop j e lt) =
      quiet_Counts (record s { shared = sh; main_pc = p }) refl refl refl off refl (λ i. refl)
        (λ i. refl)
    where
      off : (k : ℕ) → put j false s.shared.running k ≡ true → s.shared.running k ≡ true
      off k h = ground arith
  main_Counts sh p (System.join i e lt f) =
      quiet_Counts (record s { shared = sh; main_pc = p }) refl refl refl (λ j h. h) refl
        (λ i. refl) (λ i. refl)
  main_Counts sh p mv =
      quiet_Counts (record s { shared = sh; main_pc = p }) refl refl refl (λ j h. h) refl
        (λ i. refl) (λ i. refl)

pub Step-Counts :
    (ip_of : Name → Name) (n m : ℕ) (s t : System) (items : List ℕ)
    → Owners s
    → Counts n m s items
    → Step ip_of n m s t
    → (items' : List ℕ) × Counts n m t items'
Step-Counts ip_of n m s _ items o c (main_step {sh} {p} mv) =
    (items, main_Counts n m s items o c sh p mv)
Step-Counts ip_of n m s _ items o c (requester_step i {sh} {r} lt mv) =
    let (items', f) =
      ReqMove-effect n i s.shared (s.requesters i) items c.sound sh r (c.rooms i) mv in
    (items', requester_Counts n m s items o c i sh r items' lt f)
Step-Counts ip_of n m s _ items o c (helper_step i {r} lt mv) = (
  items,
  quiet_Counts n m s items o c (record s { requesters = put i r s.requesters }) refl refl refl
      (λ j h. h) refl
      (put-all i r s.requesters (λ k x. x.pc ≡ (s.requesters k).pc) (Detect-same mv).0
        (λ k ne. refl))
      (put-all i r s.requesters (λ k x. x.pushes ≡ (s.requesters k).pushes) (Detect-same mv).1
        (λ k ne. refl)),
)
Step-Counts ip_of n m s _ items o c (resolver_step j {sh} {p} lt mv) =
    let (items', f) =
      ResMove-effect ip_of (memory n s) j s.shared (s.resolvers j) items sh p c.sound
        (c.some_item j) (left_of_settling n m s items o c j lt) mv in
    (items', resolver_Counts n m s items o c j sh p items' lt f)
