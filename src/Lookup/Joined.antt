-- ===== src/Lookup/Joined.antt =====
-- What `main` knows of the threads that it has joined and of the count that it has waited for.
use mathlib.Core.Path.{subst}
use model_lib.Prelude.{
  ℕ, ◌+◌, ◌<◌, ◌≡◌, ◌≢◌, ◌⊎◌, inl, inr, refl, sym, ◌∙◌, ap, Bool, true, false, Option, some, List,
  arith, ℕ_discrete,
}
use model_lib.Prelude.Int.{pos_part}
use model_lib.Lookup.{Name, Line, Thread, main_thread, requester, Shared}
use model_lib.Lookup.Family.{put, put-all}
use model_lib.Lookup.Requester.{
  Requester, ReqPc, Returned, Ended, ReqMove, Detect, open_ok, fails_early, scan, scan_wild,
  scan_end, lock, full, room, push, push_wild, count, number, store, grow, grow_oom, release,
  drained, detect, take_off,
}
use model_lib.Lookup.Resolver
use model_lib.Lookup.Resolver.{ResPc, settling, ResMove}
use model_lib.Lookup.Fair.{req_in, main_in}
use model_lib.Lookup.Owners.{Owners}
use model_lib.Lookup.Counts.{Counts, left_of_settling}
use model_lib.Lookup.System
use model_lib.Lookup.System.{
  System, MainPc, joining, main_testing, stopping, announcing, broadcasting, joining_resolver, done,
  MainMove, Step, main_step, requester_step, helper_step, resolver_step, memory,
}

pub joining-injective : (i a : ℕ) → joining i ≡ joining a → i ≡ a
joining-injective i a h = cc

-- `main` is past its joins of the requesters, and past its wait for the count.
abbrev pub joined_all : MainPc → Bool
joined_all (joining i) = false
joined_all _ = true

abbrev pub waited : MainPc → Bool
waited (stopping j) = true
waited (announcing j) = true
waited (broadcasting j) = true
waited (joining_resolver j) = true
waited done = true
waited _ = false

pub record Joined (n : ℕ) (s : System) : Type 0 where
  pub before : (i k : ℕ) → s.main_pc ≡ joining i → k < i → Ended (s.requesters k).pc
  pub after : joined_all s.main_pc ≡ true → (k : ℕ) → k < n → Ended (s.requesters k).pc
  pub none_left : waited s.main_pc ≡ true → pos_part s.shared.hostname_left ≡ 0
  pub all_returned : waited s.main_pc ≡ true → (k : ℕ) → k < n → Returned (s.requesters k).pc

-- A thread that has ended makes no step.
ReqMove-not-Ended :
    (n i : ℕ) (sh sh' : Shared) (r r' : Requester) → ReqMove n i sh r sh' r' → ¬ (Ended r.pc)
ReqMove-not-Ended n i sh _ r _ (open_ok ns e f) h = ground arith
ReqMove-not-Ended n i sh _ r _ (fails_early e f) h = ground arith
ReqMove-not-Ended n i sh _ r _ (scan k name rest e f g) h = ground arith
ReqMove-not-Ended n i sh _ r _ (scan_wild k name rest e f g) h = ground arith
ReqMove-not-Ended n i sh _ r _ (scan_end e f) h = ground arith
ReqMove-not-Ended n i sh _ r _ (lock e f) h = ground arith
ReqMove-not-Ended n i sh _ r _ (full e f) h = ground arith
ReqMove-not-Ended n i sh _ r _ (room e f) h = ground arith
ReqMove-not-Ended n i sh _ r _ (push k e f) h = ground arith
ReqMove-not-Ended n i sh _ r _ (push_wild k e f) h = ground arith
ReqMove-not-Ended n i sh _ r _ (count e) h = ground arith
ReqMove-not-Ended n i sh _ r _ (number e) h = ground arith
ReqMove-not-Ended n i sh _ r _ (store e) h = ground arith
ReqMove-not-Ended n i sh _ r _ (grow e) h = ground arith
ReqMove-not-Ended n i sh _ r _ (grow_oom e f g) h = ground arith
ReqMove-not-Ended n i sh _ r _ (release e) h = ground arith
ReqMove-not-Ended n i sh _ r _ (drained e f g) h = ground arith

-- Of a resolver's steps only `settle` changes the count.
ResMove-left :
    (ip_of : Name → Name) (mem : ℕ → Option Name) (j : ℕ) (sh sh' : Shared) (p p' : ResPc)
    → ResMove ip_of mem j sh p sh' p'
    → (sh'.hostname_left ≡ sh.hostname_left) ⊎ (p ≡ settling)
ResMove-left ip_of mem j sh _ p _ (Resolver.settle e) = inr e
ResMove-left ip_of mem j sh _ p _ (Resolver.leave e f) = inl refl
ResMove-left ip_of mem j sh _ p _ mv = inl refl

Detect-pc : {output : List Line} {r r' : Requester} → Detect output r r' → r.pc ≡ r'.pc
Detect-pc (detect k at l e b f g h j o) = refl
Detect-pc (take_off k left e) = refl

module _ (n m : ℕ) (s : System) (v : Joined n s) where
  -- Requesters that have ended stay so through a step of requester `i` or its helper.
  still :
      (P : ReqPc → Type 0) (i : ℕ) (r : Requester)
      → (P (s.requesters i).pc → P r.pc)
      → (k : ℕ) → P (s.requesters k).pc
      → P (put i r s.requesters k).pc
  still P i r here =
      put-all i r s.requesters (λ k x. P (s.requesters k).pc → P x.pc) here (λ k ne h. h)

  changed :
      (i : ℕ) (r : Requester)
      → (Ended (s.requesters i).pc → (s.requesters i).pc ≡ r.pc)
      → (sh : Shared) → (waited s.main_pc ≡ true → pos_part sh.hostname_left ≡ 0)
      → Joined n (record s { shared = sh; requesters = put i r s.requesters })
  changed i r same sh left = record {
    before = λ a k e lt. still Ended i r (λ h. subst Ended (same h) h) k (v.before a k e lt);
    after = λ e k lt. still Ended i r (λ h. subst Ended (same h) h) k (v.after e k lt);
    none_left = left;
    all_returned = λ e k lt.
        still Returned i r (λ h. subst Returned (same (inl h)) h) k (v.all_returned e k lt);
  }

  -- `main` behind its joins.
  later :
      (sh : Shared) (p : MainPc)
      → ((a : ℕ) → p ≢ joining a)
      → joined_all s.main_pc ≡ true
      → (waited p ≡ true
          → (pos_part sh.hostname_left ≡ 0) × ((k : ℕ) → k < n → Returned (s.requesters k).pc))
      → Joined n (record s { shared = sh; main_pc = p })
  later sh p behind e clear = record {
    before = λ a k h. absurd (behind a h);
    after = λ h. v.after e;
    none_left = λ h. (clear h).0;
    all_returned = λ h. (clear h).1;
  }

  -- `main` has the lock, so no requester has exited with it.
  unlocked : Owners s → s.main_pc ≡ main_testing → (k : ℕ) → k < n → Returned (s.requesters k).pc
  unlocked o e k lt = elim (v.after (ap joined_all e) k lt) [
    | inl done_k ↦ done_k
    | inr gone ↦ absurd (clash (sym (o.of_main (ap main_in e)) ∙ o.of_requester k (ap req_in gone)))
  ]
    where
      clash : ◌≡◌ {A = Option Thread} (some main_thread) (some (requester k)) → ⊥
      clash h = cc

  main_Joined :
      (sh : Shared) (p : MainPc)
      → Owners s
      → MainMove n m s sh p
      → Joined n (record s { shared = sh; main_pc = p })
  main_Joined _ _ o (System.join i e lt f) = record {
    before =
        λ a k h below. first k (subst (λ x. k < x) (sym (joining-injective (i + 1) a h)) below);
    after = λ h. cc;
    none_left = λ h. cc;
    all_returned = λ h. cc;
  }
    where
      first : (k : ℕ) → k < i + 1 → Ended (s.requesters k).pc
      first k below = elim (ℕ_discrete k i) [
        | yes last ↦ subst (λ x. Ended (s.requesters x).pc) (sym last) f
        | no ne ↦ v.before i k e (omega arith)
      ]
  main_Joined _ _ o (System.joined e) = record {
    before = λ a k h. cc;
    after = λ h k. v.before n k e;
    none_left = λ h. cc;
    all_returned = λ h. cc;
  }
  main_Joined sh p o (System.lock e free) = later sh p (λ a h. cc) (ap joined_all e) (λ h. cc)
  main_Joined sh p o (System.sleep e f) = later sh p (λ a h. cc) (ap joined_all e) (λ h. cc)
  main_Joined sh p o (System.wake e free) = later sh p (λ a h. cc) (ap joined_all e) (λ h. cc)
  main_Joined sh p o (System.pass e f) =
      later sh p (λ a h. cc) (ap joined_all e) (λ h. (ap pos_part f, unlocked o e))
  main_Joined sh p o (System.stop j e lt) =
      later sh p (λ a h. cc) (ap joined_all e)
        (λ h. (v.none_left (ap waited e), v.all_returned (ap waited e)))
  main_Joined sh p o (System.announce j e free) =
      later sh p (λ a h. cc) (ap joined_all e)
        (λ h. (v.none_left (ap waited e), v.all_returned (ap waited e)))
  main_Joined sh p o (System.broadcast j e) =
      later sh p (λ a h. cc) (ap joined_all e)
        (λ h. (v.none_left (ap waited e), v.all_returned (ap waited e)))
  main_Joined sh p o (System.join_resolver j e f) =
      later sh p (λ a h. cc) (ap joined_all e)
        (λ h. (v.none_left (ap waited e), v.all_returned (ap waited e)))
  main_Joined sh p o (System.finish e) =
      later sh p (λ a h. cc) (ap joined_all e)
        (λ h. (v.none_left (ap waited e), v.all_returned (ap waited e)))

pub Step-Joined :
    (ip_of : Name → Name) (n m : ℕ) (s t : System) (items : List ℕ)
    → Owners s
    → Counts n m s items
    → Joined n s
    → Step ip_of n m s t
    → Joined n t
Step-Joined ip_of n m s _ items o c v (main_step {sh} {p} mv) = main_Joined n m s v sh p o mv
Step-Joined ip_of n m s _ items o c v (requester_step i {sh} {r} lt mv) =
    changed n m s v i r (λ h. absurd (moves h)) sh
      (λ w. absurd (moves (inl (v.all_returned w i lt))))
  where
    moves : ¬ (Ended (s.requesters i).pc)
    moves = ReqMove-not-Ended n i s.shared sh (s.requesters i) r mv
Step-Joined ip_of n m s _ items o c v (helper_step i {r} lt mv) =
    changed n m s v i r (λ h. Detect-pc mv) s.shared v.none_left
Step-Joined ip_of n m s _ items o c v (resolver_step j {sh} {p} lt mv) = record {
  before = v.before;
  after = v.after;
  none_left = λ w. elim (ResMove-left ip_of (memory n s) j s.shared sh (s.resolvers j) p mv) [
    | inl same ↦ rw same (v.none_left w)
    | inr settles ↦
        absurd (omega (arith, left_of_settling n m s items o c j lt settles, v.none_left w))
  ];
  all_returned = v.all_returned;
}
