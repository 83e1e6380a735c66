-- ===== src/Parent.antt =====
-- lab4/parent.c: a process that sets its policy, starts children that run one of the benchmarks, and
-- waits for all of them. The process and its children are a step relation over all their orders.
pub mod Ends
mod Tests
use model_lib.Prelude.{ℕ, ◌+◌, ◌<◌, ◌≤◌, ◌≡◌, Bool, true, List, [], ◌∷◌, ◌++◌, if◌then◌else◌}
use model_lib.Prelude.Int.{ℤ, pos_part}
use model_lib.Prelude.Text.{Text, same}
use model_lib.Pi.{Policy, sched_other, sched_fifo, sched_rr, name_fifo, name_rr}

-- "pi", "rw" and "mixed".
abbrev pub name_pi : Text
name_pi = 112 ∷ 105 ∷ []

abbrev pub name_rw : Text
name_rw = 114 ∷ 119 ∷ []

abbrev name_mixed : Text
name_mixed = 109 ∷ 105 ∷ 120 ∷ 101 ∷ 100 ∷ []

-- "PROC_CPU" and "PROC_IO".
abbrev proc_cpu : Text
proc_cpu = 80 ∷ 82 ∷ 79 ∷ 67 ∷ 95 ∷ 67 ∷ 80 ∷ 85 ∷ []

abbrev proc_io : Text
proc_io = 80 ∷ 82 ∷ 79 ∷ 67 ∷ 95 ∷ 73 ∷ 79 ∷ []

-- The chain of tests of `schedPol`.
unfoldable pub scheduling : Text → Policy
scheduling sched_pol =
    if same name_fifo sched_pol
    then sched_fifo
    else if same name_rr sched_pol
    then sched_rr
    else sched_other

-- What a call of `doCpu`, `doIo` or `doMixed` works with: the policy, `numChildren`, and the file and
-- the arguments of `execve`.
pub record Job : Type 0 where
  pub policy : Policy
  pub num_children : ℤ
  pub program : Text
  pub new_argv : List Text

unfoldable pub do_cpu : Text → ℤ → Text → Job
do_cpu sched_pol num_children iterations = record {
  policy = scheduling sched_pol;
  num_children = num_children;
  program = name_pi;
  new_argv = name_pi ∷ iterations ∷ [];
}

unfoldable do_io : Text → ℤ → Text → Text → Job
do_io sched_pol num_children bytes_to_copy block_size = record {
  policy = scheduling sched_pol;
  num_children = num_children;
  program = name_rw;
  new_argv = name_rw ∷ bytes_to_copy ∷ block_size ∷ [];
}

unfoldable do_mixed : Text → ℤ → Text → Text → Text → Job
do_mixed sched_pol num_children bytes_to_copy block_size iterations = record {
  policy = scheduling sched_pol;
  num_children = num_children;
  program = name_mixed;
  new_argv = name_rw ∷ bytes_to_copy ∷ block_size ∷ iterations ∷ [];
}

-- What `main` makes of its arguments behind the name of the program: a message and `exit(0)`, a call,
-- or a use of an argument that is not there.
data Plan : Type 0 where
  too_few : Plan
  undefined : Plan
  calls : Job → Plan

unfoldable cpu_plan : (Text → ℤ) → List Text → Plan
cpu_plan atoi (a2 ∷ a3 ∷ a4 ∷ rest) = calls (do_cpu a4 (atoi a3) a2)
cpu_plan atoi _ = undefined

unfoldable io_plan : (Text → ℤ) → List Text → Plan
io_plan atoi (a2 ∷ a3 ∷ a4 ∷ a5 ∷ rest) = calls (do_io a5 (atoi a2) a3 a4)
io_plan atoi _ = undefined

unfoldable mixed_plan : (Text → ℤ) → List Text → Plan
mixed_plan atoi (a2 ∷ a3 ∷ a4 ∷ a5 ∷ a6 ∷ rest) = calls (do_mixed a6 (atoi a2) a3 a4 a5)
mixed_plan atoi _ = undefined

unfoldable plan : (Text → ℤ) → List Text → Plan
plan atoi [] = too_few
plan atoi (p_type ∷ rest) =
    if same proc_cpu p_type
    then cpu_plan atoi rest
    else if same proc_io p_type
    then io_plan atoi rest
    else mixed_plan atoi rest

-- A child: before `execve`; in the program, which comes to its end or not; or at its end, which it
-- also comes to by `exit(1)` where `execve` fails.
pub data Child : Type 0 where
  starting : Child
  running : Bool → Child
  exited : Child

-- The process: in the loop of `fork` at `i`, in the loop of `waitpid`, or behind it.
pub data Place : Type 0 where
  forking : ℕ → Place
  waiting : Place
  finished : Place

-- The process and its children that it has not waited for. The last two fields are no part of the
-- program: how many children it has waited for, and how many calls of `fork` have failed.
pub record State : Type 0 where
  pub pc : Place
  pub children : List Child
  pub reaped : ℕ
  pub failures : ℕ

abbrev pub start : State
start = record { pc = forking 0; children = []; reaped = 0; failures = 0 }

-- One step of the process or of a child. Whether the program that a child runs comes to its end is not
-- in the hands of the launcher: one that does not, such as lab4/rw.c on an input that is shorter than a
-- block, has no step here. `waitpid` takes any child that has ended, waits while there
-- are only others, and fails where there is none.
pub data Step (job : Job) : State → State → Type 0 where
  fork :
      {s : State} (i : ℕ)
      → s.pc ≡ forking i
      → i < pos_part job.num_children
      → Step job s (record s { pc = forking (i + 1); children = starting ∷ s.children })
  fork_fails :
      {s : State} (i : ℕ)
      → s.pc ≡ forking i
      → i < pos_part job.num_children
      → Step job s (record s { pc = forking (i + 1); failures = s.failures + 1 })
  all_forked :
      {s : State} (i : ℕ)
      → s.pc ≡ forking i
      → pos_part job.num_children ≤ i
      → Step job s (record s { pc = waiting })
  exec :
      {s : State} (ends : Bool) (before after : List Child)
      → s.children ≡ before ++ (starting ∷ after)
      → Step job s (record s { children = before ++ (running ends ∷ after) })
  exec_fails :
      {s : State} (before after : List Child)
      → s.children ≡ before ++ (starting ∷ after)
      → Step job s (record s { children = before ++ (exited ∷ after) })
  program_ends :
      {s : State} (before after : List Child)
      → s.children ≡ before ++ (running true ∷ after)
      → Step job s (record s { children = before ++ (exited ∷ after) })
  wait_one :
      {s : State} (before after : List Child)
      → s.pc ≡ waiting
      → s.children ≡ before ++ (exited ∷ after)
      → Step job s (record s { children = before ++ after; reaped = s.reaped + 1 })
  wait_none :
      {s : State} → s.pc ≡ waiting → s.children ≡ [] → Step job s (record s { pc = finished })

-- The states after a number of steps.
pub data Run (job : Job) : ℕ → State → Type 0 where
  begin : Run job 0 start
  next : {k : ℕ} {s t : State} → Run job k s → Step job s t → Run job (k + 1) t
