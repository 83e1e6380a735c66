-- ===== src/Lookup.antt =====
-- lab3/multi-lookup.c: requester threads that read host names and push them, resolver threads that
-- pop them, look them up and write lines, and `main`, which waits for both. Here is what they share:
-- what `qlock` protects, the output file and the resolvers' flags. An append to the file is
-- one step.
pub mod Family
pub mod Requester
pub mod Resolver
pub mod System
pub mod Fair
pub mod Effects
pub mod Takes
pub mod Counts
pub mod Progress
pub mod Joined
pub mod Complete
pub mod Setup
pub mod Team
pub mod Output
pub mod Exclusion
pub mod Owners
pub mod Tests
mod TeamTests
mod OutputTests
use model_lib.Prelude.{ℕ, Bool, Option, List, ◌++◌, [], ◌∷◌, ◌==◌, if◌then◌else◌, ◌*◌, ◌+◌}
use model_lib.Prelude.Int.{ℤ}
use model_lib.Queue.{Queue}

-- The bytes of a host name or an address, without the NUL.
abbrev pub Name : Type 0
Name = List ℕ

-- A line of the output file: what `fprintf(outputfp, "%s,%s\n", hostname, ipstring)` writes.
pub record Line : Type 0 where
  pub hostname : Name
  pub ipstring : Name

abbrev pub comma : ℕ
comma = 44

abbrev pub printed : Line → List ℕ
printed l = l.hostname ++ (comma ∷ l.ipstring)

-- What `checkFunction` copies of such a line: the bytes before the first comma.
unfoldable pub host_field : List ℕ → Name
host_field [] = []
host_field (b ∷ bs) = if b == comma then [] else b ∷ host_field bs

-- The holder of `qlock`.
pub data Thread : Type 0 where
  main_thread : Thread
  requester : ℕ → Thread
  resolver : ℕ → Thread

-- `qt`, `qlock`, `hostnameLeft`, the output file, and `resolve_q` (true while the flag is 1).
pub record Shared : Type 0 where
  pub queue : Queue
  pub owner : Option Thread
  pub hostname_left : ℤ
  pub output : List Line
  pub running : ℕ → Bool

-- `payload_in[k]` of requester `i`, among `n` requesters: distinct buffers at distinct addresses.
abbrev pub address : ℕ → ℕ → ℕ → ℕ
address n i k = k * n + i
