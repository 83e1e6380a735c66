-- ===== src/Console/Tests.antt =====
-- A session of lab2/lab2_test.c on a new device: a line is written and read.
use model_lib.Prelude.{◌≡◌, true, List, [], ◌∷◌, arith}
use model_lib.Driver.{Driver}
use model_lib.Driver.Log.{Stores}
use model_lib.Driver.Tests.{plain, plain-Copies, device, zeros, length-zeros, fresh-Stores}
use model_lib.Console.{session, left}
use model_lib.Console.Typed.{Command, reads, writes, typed, expected, held}
use model_lib.Console.Shows.{session_shows}

abbrev commands : List Command
commands = writes (104 ∷ 105 ∷ []) ∷ reads ∷ []

session_shows_example :
    (d' : Driver) × (session plain zeros true 2 3 (typed commands) (device zeros)
      ≡ left (expected [] commands) d')
    × Stores d' (held [] commands)
session_shows_example =
    session_shows plain plain-Copies zeros (omega (arith, length-zeros)) 0 3 commands (device zeros)
      [] fresh-Stores (omega arith) (omega arith)
