-- ===== src/Sequential.antt =====
-- lab3/lookup.c: the look-up without threads. The files are a parameter: what `fscanf` gives of an
-- input file, or `none` where it cannot be opened.
pub mod Agreement
mod Tests
use model_lib.Prelude.{Bool, Option, none, some, List, [], ◌∷◌, ◌++◌, length, ltb, if◌then◌else◌}
use model_lib.Prelude.Text.{Text}
use model_lib.Dns.{Result, failure, found, wild}
use model_lib.Lookup.{Line}

-- How `main` ends, with the lines of the output file; `undefined` where a look-up overflows.
pub data Outcome : Type 0 where
  usage : Outcome
  no_output_file : Outcome
  written : List Line → Outcome
  undefined : Outcome

module _ (ip_of : Text → Result) (open_input : Text → Option (List Text)) where
  -- The line of a host name; where the look-up fails the address is empty.
  unfoldable pub line_of : Text → Option Line
  line_of hostname = elim (ip_of hostname) [
    | failure ↦ some (record { hostname = hostname; ipstring = [] })
    | found ip ↦ some (record { hostname = hostname; ipstring = ip })
    | wild ↦ none
  ]

  -- The loop over the names of a file.
  unfoldable pub name_lines : List Text → Option (List Line)
  name_lines [] = some []
  name_lines (hostname ∷ rest) = elim (line_of hostname) [
    | none ↦ none
    | some line ↦ elim (name_lines rest) [ none ↦ none | some lines ↦ some (line ∷ lines) ]
  ]

  -- The loop over the files: it ends at the first that cannot be opened.
  unfoldable pub file_lines : List Text → Option (List Line)
  file_lines [] = some []
  file_lines (file ∷ rest) = elim (open_input file) [
    | none ↦ some []
    | some names ↦ elim (name_lines names) [
      | none ↦ none
      | some lines ↦ elim (file_lines rest) [ none ↦ none | some more ↦ some (lines ++ more) ]
    ]
  ]

  -- The loop takes the arguments but the last, which is the output file.
  unfoldable pub but_last : List Text → List Text
  but_last [] = []
  but_last (a ∷ []) = []
  but_last (a ∷ b ∷ rest) = a ∷ but_last (b ∷ rest)

  -- `main`, with the arguments behind the name of the program; `opens` tells whether the output file
  -- can be opened.
  unfoldable pub lookup_main : Bool → List Text → Outcome
  lookup_main opens argv =
      if ltb (length argv) 2
      then usage
      else if opens
      then elim (file_lines (but_last argv)) [ none ↦ undefined | some lines ↦ written lines ]
      else no_output_file
