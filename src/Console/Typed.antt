-- ===== src/Console/Typed.antt =====
-- Commands as they are typed to lab2/lab2_test.c, and the lines that `fgets` gives of them.
use model_lib.Prelude.{ℕ, zero, suc, ◌≤◌, ◌<◌, ◌≡◌, refl, List, [], ◌∷◌, ◌++◌, length, arith}
use model_lib.Prelude.Text.{NoNewline, Text, IsText}
use model_lib.Driver.Run.{kept}
use model_lib.Console.{fgets, Shown, data_read, bye}

-- A command as it is typed.
pub data Command : Type 0 where
  reads : Command
  writes : Text → Command

abbrev pub newline : List ℕ → List ℕ
newline rest = 10 ∷ rest

unfoldable pub typed : List Command → List ℕ
typed [] = 101 ∷ newline []
typed (reads ∷ cs) = 114 ∷ newline (typed cs)
typed (writes t ∷ cs) = 119 ∷ newline (t ++ newline (typed cs))

-- The lines have no newline and no NUL, and fit the array.
abbrev pub AllLines : List Command → Type 0
AllLines [] = Unit {0}
AllLines (reads ∷ cs) = AllLines cs
AllLines (writes t ∷ cs) = NoNewline t × IsText t × (length t ≤ 126) × AllLines cs

-- What a log shows that keeps the first 1024 bytes of what is written to it.
unfoldable pub expected : List ℕ → List Command → List Shown
expected bytes [] = bye ∷ []
expected bytes (reads ∷ cs) = data_read bytes ∷ expected bytes cs
expected bytes (writes t ∷ cs) = expected (kept bytes (t ++ newline [])) cs

unfoldable pub held : List ℕ → List Command → List ℕ
held bytes [] = bytes
held bytes (reads ∷ cs) = held bytes cs
held bytes (writes t ∷ cs) = held (kept bytes (t ++ newline [])) cs

pub fgets-line :
    (n : ℕ) (t rest : List ℕ)
    → NoNewline t
    → length t < n
    → fgets n (t ++ newline rest) ≡ (t ++ newline [], rest)
unfolding fgets
fgets-line zero t rest one lt = absurd (omega arith)
fgets-line (suc n) [] rest one lt = (refl)
fgets-line (suc n) (b ∷ t) rest (ne, one) lt =
    rw (fgets, fgets-line n t rest one (omega arith)) (ground arith)

pub line-IsText : (t : Text) → IsText t → IsText (t ++ newline [])
line-IsText [] h = (omega arith, tt)
line-IsText (b ∷ t) (ne, h) = (ne, line-IsText t h)
