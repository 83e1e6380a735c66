-- ===== src/Sequential/Tests.antt =====
-- lab3/lookup.c and a run of lab3/multi-lookup.c to its end on one file with the name "a".
use mathlib.Core.Path.{subst, fun_ext}
use model_lib.Prelude.{
  ℕ, zero, suc, ◌≡◌, ◌≢◌, refl, true, Option, some, List, [], ◌∷◌, ◌++◌, arith, length, map,
}
use model_lib.Prelude.Text.{Text}
use model_lib.Dns.{Result, found, wild}
use model_lib.Lookup.System.{Reach}
use model_lib.Lookup.Tests.{ip_of, name_a, files, over, over_waited}
use model_lib.Sequential.{lookup_main, written}
use model_lib.Sequential.Agreement.{line, all_names, file_at, lookup_agrees}

abbrev look_up : Text → Result
look_up h = found (ip_of h)

abbrev inputs : List Text
inputs = (102 ∷ []) ∷ []

abbrev open_input : Text → Option (List Text)
open_input file = some (name_a ∷ [])

same_files : (i : ℕ) → files [] i ≡ file_at open_input inputs i
same_files zero = refl
same_files (suc i) = refl

defined : (t : Text) → look_up t ≢ wild
defined t h = cc

lookup_agrees_example :
    (lookup_main look_up open_input true (inputs ++ ((111 ∷ []) ∷ []))
      ≡ written (map (line look_up) (all_names open_input inputs)))
    × (length over.state.shared.output ≡ length (map (line look_up) (all_names open_input inputs)))
lookup_agrees_example =
    lookup_agrees look_up defined open_input 1 inputs (111 ∷ []) (omega arith)
      (λ h. cc, omega arith)
      (subst (λ fs. Reach ip_of 1 1 fs over.state) (fun_ext same_files) over.path) over_waited
