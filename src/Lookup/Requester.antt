-- ===== src/Lookup/Requester.antt =====
-- `doRequest` of lab3/multi-lookup.c and its helper thread, `checkFunction`.
use Prim.Native.Nat.{max}
use model_lib.Prelude.{
  ℕ, ◌+◌, ◌*◌, ◌≤◌, ◌<◌, ◌≡◌, ◌≢◌, ◌⊎◌, Bool, true, false, Option, none, some, List, [], ◌∷◌,
  get_elem?, if◌then◌else◌,
}
use model_lib.Prelude.Int.{ℤ, pos, negsuc, ◌+ℤ◌, ◌-ℤ◌, ltb_ℤ}
use model_lib.Queue.{queue_is_full, queue_push}
use model_lib.Lookup.{Name, Line, printed, host_field, requester, Shared, address}
use model_lib.Lookup.Family.{put}

-- Where a requester stands. A value of `numHostsInDat` is read and written in two steps, since the
-- helper may come between them.
pub data ReqPc : Type 0 where
  opening : ReqPc  -- before `pthread_mutex_init`, `malloc` and `fopen` of its file
  left_early : ReqPc  -- one of these failed, and it has exited
  reading : ReqPc  -- at `fscanf` in the head of the loop
  locking : ReqPc  -- at `pthread_mutex_lock(&qlock)`
  testing : ReqPc  -- at `while(queue_is_full(&qt))`
  pushing : ReqPc  -- at `queue_push`
  counting : ReqPc  -- at `hostnameLeft += 1`
  numbering : ReqPc  -- at `numHostsInDat += 1`
  storing : ReqPc  -- in it, with the old value read
  sizing : ReqPc  -- at `if (numHostsInDat >= curr_size)`
  releasing : ReqPc  -- at the broadcast and the unlock
  draining : ReqPc  -- at `while(numHostsInDat)`
  finished : ReqPc  -- its helper is joined, and it has returned
  aborted : ReqPc  -- `realloc` failed, and it has exited
  wild : ReqPc  -- it used `payload_in` at a negative index, which is undefined

-- `sbufsize` buffers at first.
abbrev pub sbufsize : ℕ
sbufsize = 1025

-- The locals of `doRequest`: the names that `fscanf` has still to give, the buffers of `payload_in`,
-- `numHostsInDat`, `curr_size`, and the value that it has read to add 1 to it; the helper's array
-- `done` (true where it holds 1), and the index and the value that it has read to take 1 off. The last
-- three fields are no part of the program: the names read, those pushed, and one more than the
-- highest index that a name was read into.
pub record Requester : Type 0 where
  pub pc : ReqPc
  pub file : Option (List Name)
  pub remaining : List Name
  pub buffers : ℕ → Name
  pub num_hosts : ℤ
  pub curr_size : ℕ
  pub counter : ℤ
  pub unfound : ℕ → Bool
  pub helper : Option (ℕ × ℤ)
  pub reads : ℕ
  pub pushes : ℕ
  pub high : ℕ

-- The thread has returned, or has exited before it read a name.
abbrev pub Returned : ReqPc → Type 0
Returned p = (p ≡ finished) ⊎ (p ≡ left_early)

-- The thread is no more.
abbrev pub Ended : ReqPc → Type 0
Ended p = Returned p ⊎ (p ≡ aborted)

-- The names of a file; `none` is one that cannot be opened, or a failure before that.
abbrev pub names : Option (List Name) → List Name
names none = []
names (some ns) = ns

-- A requester at the start. The helper of a thread that exits before it reads runs on with pointers into
-- its stack, which is undefined: it has no step here.
abbrev pub start_requester : Option (List Name) → Requester
start_requester file = record {
  pc = opening;
  file = file;
  remaining = names file;
  buffers = λ k. [];
  num_hosts = pos 0;
  curr_size = sbufsize;
  counter = pos 0;
  unfound = λ k. true;
  helper = none;
  reads = 0;
  pushes = 0;
  high = 0;
}

-- `if (numHostsInDat >= curr_size) … curr_size *= 2`, at the new number of hosts.
abbrev pub next_size : ℤ → ℕ → ℕ
next_size num size = if ltb_ℤ num (pos size) then size else size * 2

-- One step of requester `i` of `n`, from the shared state and its own to the new ones.
pub data ReqMove (n i : ℕ) (sh : Shared) (r : Requester) : Shared → Requester → Type 0 where
  open_ok :
      (ns : List Name)
      → r.pc ≡ opening
      → r.file ≡ some ns
      → ReqMove n i sh r sh (record r { pc = reading })
  fails_early : r.pc ≡ opening → r.file ≡ none → ReqMove n i sh r sh (record r { pc = left_early })
  scan :
      (k : ℕ) (name : Name) (rest : List Name)
      → r.pc ≡ reading
      → r.num_hosts ≡ pos k
      → r.remaining ≡ name ∷ rest
      → ReqMove n i sh r sh (record r {
        pc = locking;
        remaining = rest;
        buffers = put k name r.buffers;
        reads = r.reads + 1;
        high = max r.high (k + 1);
      })
  scan_wild :
      (k : ℕ) (name : Name) (rest : List Name)
      → r.pc ≡ reading
      → r.num_hosts ≡ negsuc k
      → r.remaining ≡ name ∷ rest
      → ReqMove n i sh r sh (record r { pc = wild })
  scan_end : r.pc ≡ reading → r.remaining ≡ [] → ReqMove n i sh r sh (record r { pc = draining })
  lock :
      r.pc ≡ locking
      → sh.owner ≡ none
      → ReqMove n i sh r (record sh { owner = some (requester i) }) (record r { pc = testing })
  full :
      r.pc ≡ testing
      → queue_is_full sh.queue ≡ true
      → ReqMove n i sh r (record sh { owner = none }) (record r { pc = locking })
  room :
      r.pc ≡ testing
      → queue_is_full sh.queue ≡ false
      → ReqMove n i sh r sh (record r { pc = pushing })
  push :
      (k : ℕ)
      → r.pc ≡ pushing
      → r.num_hosts ≡ pos k
      → ReqMove n i sh r
          (record sh { queue = (queue_push sh.queue (some (address n i k))).1 })
          (record r { pc = counting; pushes = r.pushes + 1 })
  push_wild :
      (k : ℕ)
      → r.pc ≡ pushing
      → r.num_hosts ≡ negsuc k
      → ReqMove n i sh r sh (record r { pc = wild })
  count :
      r.pc ≡ counting
      → ReqMove n i sh r
          (record sh { hostname_left = sh.hostname_left +ℤ pos 1 })
          (record r { pc = numbering })
  number : r.pc ≡ numbering → ReqMove n i sh r sh (record r { pc = storing; counter = r.num_hosts })
  store :
      r.pc ≡ storing
      → ReqMove n i sh r sh (record r { pc = sizing; num_hosts = r.counter +ℤ pos 1 })
  grow :
      r.pc ≡ sizing
      → ReqMove n i sh r sh
          (record r { pc = releasing; curr_size = next_size r.num_hosts r.curr_size })
  -- The helper is joined; the exit of the thread does not give `qlock` back.
  grow_oom :
      r.pc ≡ sizing
      → ltb_ℤ r.num_hosts (pos r.curr_size) ≡ false
      → r.helper ≡ none
      → ReqMove n i sh r sh (record r { pc = aborted })
  release :
      r.pc ≡ releasing → ReqMove n i sh r (record sh { owner = none }) (record r { pc = reading })
  -- The helper is joined between two of its finds, and what it does behind the wait is read by none.
  drained :
      r.pc ≡ draining
      → r.num_hosts ≡ pos 0
      → r.helper ≡ none
      → ReqMove n i sh r sh (record r { pc = finished })

-- A find by the helper of a requester, in two steps: a line of the output has the name in a buffer
-- that it has not found yet, and it reads `numHostsInDat`; then it writes one less. It comes to buffer
-- `k` past buffers that hold names. `ownChecker` does not keep it apart from the requester, since
-- `args -> check` is a copy of the mutex.
pub data Detect (output : List Line) (r : Requester) : Requester → Type 0 where
  detect :
      (k at : ℕ) (l : Line)
      → ¬ (Ended r.pc)
      → r.helper ≡ none
      → k < r.curr_size
      → ((j : ℕ) → j ≤ k → r.buffers j ≢ [])
      → get_elem? output at ≡ some l
      → host_field (printed l) ≡ r.buffers k
      → r.unfound k ≡ true
      → Detect output r (record r { helper = some (k, r.num_hosts) })
  take_off :
      (k : ℕ) (left : ℤ)
      → r.helper ≡ some (k, left)
      → Detect output r
          (record r { num_hosts = left -ℤ pos 1; unfound = put k false r.unfound; helper = none })
