-- ===== src/Crypt/Tool.antt =====
-- lab5/aes-crypt-util.c: `do_crypt` from the command line.
use model_lib.Prelude.{ℕ, not, Option, none, some, List, [], ◌∷◌, if◌then◌else◌}
use model_lib.Prelude.Int.{ℤ, pos, negsuc}
use model_lib.Prelude.Text.{Text, same}
use model_lib.Crypt.{Streams, Evp}
use model_lib.Crypt.Files.{Stdio, crypt_files}

-- `action`, `key_str` and the arguments at `ifarg` and `ofarg`.
pub record Task : Type 0 where
  pub action : ℤ
  pub key_str : Option Text
  pub in_path : Text
  pub out_path : Text

-- "-e", "-d" and "-c".
abbrev pub option_e : Text
option_e = 45 ∷ 101 ∷ []

abbrev pub option_d : Text
option_d = 45 ∷ 100 ∷ []

abbrev pub option_c : Text
option_c = 45 ∷ 99 ∷ []

-- The arguments behind the first, where the action is encryption or decryption.
unfoldable pub keyed_task : ℤ → List Text → Option Task
keyed_task action (key ∷ in_path ∷ out_path ∷ []) =
    some (record { action = action; key_str = some key; in_path = in_path; out_path = out_path })
keyed_task action _ = none

unfoldable pub copy_task : List Text → Option Task
copy_task (in_path ∷ out_path ∷ []) =
    some (record { action = negsuc 0; key_str = none; in_path = in_path; out_path = out_path })
copy_task _ = none

-- The arguments behind the name of the program; each `none` is a message and EXIT_FAILURE.
unfoldable pub task : List Text → Option Task
task [] = none
task (a ∷ []) = none
task (a ∷ b ∷ rest) =
    if same a option_e
    then keyed_task (pos 1) (b ∷ rest)
    else if same a option_d
    then keyed_task (pos 0) (b ∷ rest)
    else if same a option_c
    then copy_task (b ∷ rest)
    else none

pub data Exit : Type 0 where
  exit_failure : Exit
  exit_success : Exit

module _ {W In Out Ctx : Type 0} (stdio : Stdio W In Out) (streams : Streams In Out)
    (evp : Evp Ctx) where
  -- `main`; the result of `do_crypt` makes a message only. `none` means that its fuel ran out.
  unfoldable pub aes_main : ℕ → List Text → W → Option (Exit × W)
  aes_main fuel argv w = elim (task argv) [
    | none ↦ some (exit_failure, w)
    | some t ↦
        let (opens, w') = stdio.open_write w t.out_path in
        if not (stdio.open_read w t.in_path)
        then some (exit_failure, w)
        else if not opens
        then some (exit_failure, w')
        else elim (crypt_files stdio streams evp fuel w' t.in_path t.out_path t.action t.key_str) [
          | none ↦ none
          | some (code, w'') ↦ some (exit_success, w'')
        ]
  ]
