-- ===== src/Parent/Tests.antt =====
-- lab4/parent.c with one child, to its end.
use model_lib.Prelude.{◌+◌, ◌*◌, ◌≤◌, ◌≡◌, ◌≢◌, ◌⊎◌, true, refl, [], ◌∷◌, arith}
use model_lib.Prelude.Int.{pos, pos_part}
use model_lib.Pi.{name_rr}
use model_lib.Parent.{
  Job, do_cpu, State, Step, fork, all_forked, exec, program_ends, wait_one, wait_none, Run, begin,
  next, waiting, finished,
}
use model_lib.Parent.Ends.{AllHung, runs_bounded}

abbrev job : Job
job = do_cpu name_rr (pos 1) (49 ∷ [])

abbrev last : State
last = record { pc = finished; children = []; reaped = 1; failures = 0 }

run : Run job 6 last
unfolding do_cpu
run =
    next
      (next
        (next
          (next
            (next (next ((begin)) (fork 0 refl (omega arith))) (all_forked 1 refl (omega arith)))
            (exec true [] [] refl))
          (program_ends [] [] refl))
        (wait_one [] [] refl refl))
      (wait_none refl refl)

runs_bounded_example :
    (6 ≤ 4 * pos_part job.num_children + 2)
    × (last.pc ≢ finished
        → ((t : State) × Step job last t)
          ⊎ ((last.pc ≡ waiting) × (last.children ≢ []) × AllHung last.children))
    × (last.pc ≡ finished
        → (last.children ≡ []) × (last.reaped + last.failures ≡ pos_part job.num_children))
runs_bounded_example = runs_bounded job run
