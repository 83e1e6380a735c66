-- ===== src/Lookup/Owners.antt =====
-- Who holds `qlock`: a thread that stands between a lock and an unlock is its owner.
use model_lib.Prelude.{ℕ, ◌≡◌, sym, ◌∙◌, Bool, true, Option, some, List, ap}
use model_lib.Lookup.{Name, Thread, main_thread, requester, resolver}
use model_lib.Lookup.Family.{put-all}
use model_lib.Lookup.System.{
  System, Step, main_step, requester_step, helper_step, resolver_step, Reach, begin, next, memory,
}
use model_lib.Lookup.Fair.{
  req_in, res_in, main_in, Guards, Fair, ReqMove-Fair, ResMove-Fair, MainMove-Fair, Detect-pc,
  owner_unique,
}

-- Every thread that stands in the lock is its owner.
pub record Owners (s : System) : Type 0 where
  pub of_main : Guards s.shared main_thread (main_in s.main_pc)
  pub of_requester : (i : ℕ) → Guards s.shared (requester i) (req_in (s.requesters i).pc)
  pub of_resolver : (j : ℕ) → Guards s.shared (resolver j) (res_in (s.resolvers j))

requester-injective : (i k : ℕ) → requester i ≡ requester k → i ≡ k
requester-injective i k e = cc

resolver-injective : (i k : ℕ) → resolver i ≡ resolver k → i ≡ k
resolver-injective i k e = cc

Step-Owners :
    (ip_of : Name → Name) (n m : ℕ) (s t : System) → Step ip_of n m s t → Owners s → Owners t
Step-Owners ip_of n m s _ (main_step {sh} {p} mv) o = record {
  of_main = fair.own;
  of_requester = λ i h. fair.others (requester i) (λ e. cc) (o.of_requester i h);
  of_resolver = λ j h. fair.others (resolver j) (λ e. cc) (o.of_resolver j h);
}
  where
    fair : Fair main_thread (main_in p) s.shared sh
    fair = MainMove-Fair n m s o.of_main sh p mv
Step-Owners ip_of n m s _ (requester_step i {sh} {r} lt mv) o = record {
  of_main = λ h. fair.others main_thread (λ e. cc) (o.of_main h);
  of_requester =
      put-all i r s.requesters (λ k x. Guards sh (requester k) (req_in x.pc)) fair.own
        (λ k ne h.
          fair.others (requester k) (λ e. ne (requester-injective k i e)) (o.of_requester k h));
  of_resolver = λ j h. fair.others (resolver j) (λ e. cc) (o.of_resolver j h);
}
  where
    fair : Fair (requester i) (req_in r.pc) s.shared sh
    fair = ReqMove-Fair n i s.shared (s.requesters i) (o.of_requester i) sh r mv
Step-Owners ip_of n m s _ (helper_step i {r} lt mv) o = record {
  of_main = o.of_main;
  of_requester =
      put-all i r s.requesters (λ k x. Guards s.shared (requester k) (req_in x.pc))
        (λ h.
          o.of_requester i (ap req_in (sym (Detect-pc s.shared.output (s.requesters i) r mv)) ∙ h))
        (λ k ne. o.of_requester k);
  of_resolver = o.of_resolver;
}
Step-Owners ip_of n m s _ (resolver_step j {sh} {p} lt mv) o = record {
  of_main = λ h. fair.others main_thread (λ e. cc) (o.of_main h);
  of_requester = λ i h. fair.others (requester i) (λ e. cc) (o.of_requester i h);
  of_resolver =
      put-all j p s.resolvers (λ k x. Guards sh (resolver k) (res_in x)) fair.own
        (λ k ne h.
          fair.others (resolver k) (λ e. ne (resolver-injective k j e)) (o.of_resolver k h));
}
  where
    fair : Fair (resolver j) (res_in p) s.shared sh
    fair = ResMove-Fair ip_of (memory n s) j s.shared (s.resolvers j) (o.of_resolver j) sh p mv

pub Reach-Owners :
    (ip_of : Name → Name) (n m : ℕ) (files : ℕ → Option (List Name)) {s : System}
    → Reach ip_of n m files s
    → Owners s
Reach-Owners ip_of n m files begin = record {
  of_main = λ h. cc;
  of_requester = λ i h. cc;
  of_resolver = λ j h. cc;
}
Reach-Owners ip_of n m files (next {s} {t} r st) =
    Step-Owners ip_of n m s t st (Reach-Owners ip_of n m files r)

-- What a thread is doing with `qlock`.
abbrev pub inside : System → Thread → Bool
inside s main_thread = main_in s.main_pc
inside s (requester i) = req_in (s.requesters i).pc
inside s (resolver j) = res_in (s.resolvers j)

owner_of_inside :
    {s : System} → Owners s → (t : Thread) → inside s t ≡ true → s.shared.owner ≡ some t
owner_of_inside o main_thread h = o.of_main h
owner_of_inside o (requester i) h = o.of_requester i h
owner_of_inside o (resolver j) h = o.of_resolver j h

-- In every reachable state at most one thread, of main, the requesters and the resolvers, is between
-- a lock and an unlock of `qlock`, which guards the queue and the count of host names left.
pub mutual_exclusion :
    (ip_of : Name → Name) (n m : ℕ) (files : ℕ → Option (List Name)) {s : System}
    → Reach ip_of n m files s
    → (t u : Thread) → inside s t ≡ true
    → inside s u ≡ true
    → t ≡ u
mutual_exclusion ip_of n m files {s} r t u in_t in_u =
    owner_unique t u (sym (owner_of_inside o t in_t) ∙ owner_of_inside o u in_u)
  where
    o : Owners s
    o = Reach-Owners ip_of n m files r
