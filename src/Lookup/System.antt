-- ===== src/Lookup/System.antt =====
-- `main` of lab3/multi-lookup.c, and all threads together, interleaved in any order.
use model_lib.Prelude.{
  ℕ, ◌+◌, ◌/◌, ◌%◌, ◌<◌, ◌≡◌, ◌≢◌, Bool, true, false, ltb, if◌then◌else◌, Option, none, some, List,
  [], replicate,
}
use model_lib.Prelude.Int.{pos}
use model_lib.Queue.{queue_max_size}
use model_lib.Lookup.{Name, main_thread, Shared}
use model_lib.Lookup.Family.{put}
use model_lib.Lookup.Requester.{
  Requester, ReqPc, finished, Ended, sbufsize, start_requester, ReqMove, Detect,
}
use model_lib.Lookup.Resolver.{ResPc, top, exited, ResMove}

-- Where `main` stands after it has started the threads.
pub data MainPc : Type 0 where
  joining : ℕ → MainPc  -- at `pthread_join(request_t[i],NULL)`
  main_locking : MainPc
  main_testing : MainPc  -- at `while(hostnameLeft)`
  main_sleeping : MainPc  -- in `pthread_cond_wait(&allDone, &qlock)`
  stopping : ℕ → MainPc  -- at `resolve_q[i] = 0`
  announcing : ℕ → MainPc  -- before the second `pthread_mutex_lock(&qlock)`
  broadcasting : ℕ → MainPc  -- at `pthread_cond_broadcast(&lookupCond)`
  joining_resolver : ℕ → MainPc
  done : MainPc

pub record System : Type 0 where
  pub shared : Shared
  pub main_pc : MainPc
  pub requesters : ℕ → Requester
  pub resolvers : ℕ → ResPc

-- One step of `main`, with `n` requesters and `m` resolvers.
pub data MainMove (n m : ℕ) (s : System) : Shared → MainPc → Type 0 where
  join :
      (i : ℕ)
      → s.main_pc ≡ joining i
      → i < n
      → Ended (s.requesters i).pc
      → MainMove n m s s.shared (joining (i + 1))
  joined : s.main_pc ≡ joining n → MainMove n m s s.shared main_locking
  lock :
      s.main_pc ≡ main_locking
      → s.shared.owner ≡ none
      → MainMove n m s (record s.shared { owner = some main_thread }) main_testing
  sleep :
      s.main_pc ≡ main_testing
      → s.shared.hostname_left ≢ pos 0
      → MainMove n m s (record s.shared { owner = none }) main_sleeping
  wake :
      s.main_pc ≡ main_sleeping
      → s.shared.owner ≡ none
      → MainMove n m s (record s.shared { owner = some main_thread }) main_testing
  pass :
      s.main_pc ≡ main_testing
      → s.shared.hostname_left ≡ pos 0
      → MainMove n m s (record s.shared { owner = none }) (stopping 0)
  stop :
      (j : ℕ)
      → s.main_pc ≡ stopping j
      → j < m
      → MainMove n m s (record s.shared { running = put j false s.shared.running }) (announcing j)
  announce :
      (j : ℕ)
      → s.main_pc ≡ announcing j
      → s.shared.owner ≡ none
      → MainMove n m s (record s.shared { owner = some main_thread }) (broadcasting j)
  broadcast :
      (j : ℕ)
      → s.main_pc ≡ broadcasting j
      → MainMove n m s (record s.shared { owner = none }) (joining_resolver j)
  join_resolver :
      (j : ℕ)
      → s.main_pc ≡ joining_resolver j
      → s.resolvers j ≡ exited
      → MainMove n m s s.shared (stopping (j + 1))
  finish : s.main_pc ≡ stopping m → MainMove n m s s.shared done

-- A requester that has returned has freed its first SBUFSIZE buffers.
abbrev pub freed : ReqPc → ℕ → Bool
freed finished k = ltb k sbufsize
freed _ k = false

-- The bytes behind a pointer to a requester's buffer.
abbrev pub memory : ℕ → System → ℕ → Option Name
memory n s a =
    if freed (s.requesters (a % n)).pc (a / n)
    then none
    else some ((s.requesters (a % n)).buffers (a / n))

module _ (ip_of : Name → Name) (n m : ℕ) where
  pub data Step (s : System) : System → Type 0 where
    main_step :
        {sh : Shared} {p : MainPc}
        → MainMove n m s sh p
        → Step s (record s { shared = sh; main_pc = p })
    requester_step :
        (i : ℕ) {sh : Shared} {r : Requester}
        → i < n
        → ReqMove n i s.shared (s.requesters i) sh r
        → Step s (record s { shared = sh; requesters = put i r s.requesters })
    helper_step :
        (i : ℕ) {r : Requester}
        → i < n
        → Detect s.shared.output (s.requesters i) r
        → Step s (record s { requesters = put i r s.requesters })
    resolver_step :
        (j : ℕ) {sh : Shared} {p : ResPc}
        → j < m
        → ResMove ip_of (memory n s) j s.shared (s.resolvers j) sh p
        → Step s (record s { shared = sh; resolvers = put j p s.resolvers })

-- `main` after its set-up: the queue of 50 slots, empty, every thread at its start.
abbrev pub start : (ℕ → Option (List Name)) → System
start files = record {
  shared = record {
    queue = record {
      array = replicate queue_max_size none;
      front = 0;
      rear = 0;
      max_size = queue_max_size;
    };
    owner = none;
    hostname_left = pos 0;
    output = [];
    running = λ j. true;
  };
  main_pc = joining 0;
  requesters = λ i. start_requester (files i);
  resolvers = λ j. top;
}

module _ (ip_of : Name → Name) (n m : ℕ) (files : ℕ → Option (List Name)) where
  pub data Reach : System → Type 0 where
    begin : Reach (start files)
    next : {s t : System} → Reach s → Step ip_of n m s t → Reach t
