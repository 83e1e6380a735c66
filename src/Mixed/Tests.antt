-- ===== src/Mixed/Tests.antt =====
-- lab4/mixed.c on the files of the runs of lab4/rw.c.
use model_lib.Prelude.{◌≡◌, refl, true, length, take}
use model_lib.Prelude.Int.{pos}
use model_lib.Transfer.{rw_main}
use model_lib.Transfer.Tests.{disk_files, five, fresh, arguments, pid}
use model_lib.Pi.Tests.{double, generator}
use model_lib.Mixed.{mixed_main, round_iterations}
use model_lib.Mixed.Forget.{as_run, over, over?, without_code, mixed_as_rw}

mixed_as_rw_example :
    over? (over without_code) (
      mixed_main
        (disk_files five)
        double
        generator
        6
        (λ text. pos (length text))
        true
        pid
        arguments
        fresh
        0)
    ≡ over? as_run
        (rw_main (disk_files five) 6 (λ text. pos (length text)) true pid (take 2 arguments) fresh)
unfolding round_iterations
mixed_as_rw_example =
    mixed_as_rw (disk_files five) double generator (λ text. pos (length text)) arguments 1 refl 6
      true pid fresh 0
