-- ===== src/Lookup/OutputTests.antt =====
-- A helper of lab3/multi-lookup.c comes to read the output file.
use model_lib.Prelude.{ℕ, ◌≤◌, ◌<◌, ◌≡◌, ◌≢◌, refl, arith}
use model_lib.Prelude.Int.{pos, ◌+ℤ◌}
use model_lib.Lookup.Family.{sum_below}
use model_lib.Lookup.Output.{FileLocks, Reach, begin, read_step, first, enter, reading, writing}
use model_lib.Lookup.Output
use model_lib.Lookup.Exclusion.{counted, writes, file_exclusion}

abbrev Place : Type 0
Place = record { state : FileLocks; path : Reach 1 1 state }

reader_inside : Place
unfolding ◌+ℤ◌
reader_inside = record {
  state = _;
  path =
      read_step 0
        (read_step 0
          (read_step 0
            (read_step 0
              (read_step 0 (read_step 0 ((begin)) (omega arith) refl (Output.block refl))
                (omega arith) refl (Output.lock refl))
              (omega arith) refl (first refl refl))
            (omega arith) refl enter)
          (omega arith) refl Output.unlock)
        (omega arith) refl Output.unblock;
}

file_exclusion_example :
    (reader_inside.state.read_count
      ≡ pos (sum_below 1 (λ i. counted (reader_inside.state.readers i))))
    × (sum_below 1 (λ j. writes (reader_inside.state.writers j)) ≤ 1)
    × ((i j : ℕ)
        → i < 1
        → j < 1
        → reader_inside.state.readers i ≡ reading
        → reader_inside.state.writers j ≢ writing)
file_exclusion_example = file_exclusion 1 1 reader_inside.path
