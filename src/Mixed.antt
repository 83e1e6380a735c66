-- ===== src/Mixed.antt =====
-- lab4/mixed.c: lab4/rw.c with the points of lab4/pi.c behind each read.
pub mod Forget
mod Tests
use model_lib.Prelude.{
  ℕ, zero, suc, ◌+◌, Bool, not, Option, none, some, List, [], ◌∷◌, get_elem?, if◌then◌else◌,
}
use model_lib.Prelude.Int.{ℤ, pos, pos_part, ◌+ℤ◌, ltb_ℤ, eq_ℤ}
use model_lib.Pi.{
  Double, Generator, Samples, default_iterations, sample_loop, no_samples, pi_calc, count,
}
use model_lib.Transfer.{
  Name, Error, Checked, ok, exits, and_then, bad_transfersize, bad_blocksize, input_name_too_long,
  output_base_too_long, no_buffer, input_not_opened, output_not_opened, read_failed, write_failed,
  reset_failed, default_input_filename, default_output_filename_base, default_blocksize,
  default_transfersize, Settings, size_argument, name_argument, sizes_match, output_filename, Files,
  Totals, no_totals, close_files,
}

-- How a part of `main` ends: with a value, by `exit(EXIT_FAILURE)` behind a message of rw.c or
-- behind "Bad iterations value", or at `argv[3]` where this is NULL or no argument: `atol` of it is
-- undefined.
pub data Run (A : Type 0) : Type 0 where
  goes : A → Run A
  fails : Error → Run A
  bad_iterations : Run A
  undefined : Run A

-- The arguments, in the order in which they are looked at; the file names are the defaults.
unfoldable pub mixed_settings : (Name → ℤ) → List Name → Checked Settings
mixed_settings atol argv =
    and_then (size_argument atol (get_elem? argv 0) default_transfersize bad_transfersize)
      (λ transfersize.
        and_then (size_argument atol (get_elem? argv 1) default_blocksize bad_blocksize)
          (λ blocksize.
            and_then (name_argument none default_input_filename input_name_too_long) (λ input.
              and_then (name_argument none default_output_filename_base output_base_too_long)
                (λ base. sizes_match (record {
                  transfersize = transfersize;
                  blocksize = blocksize;
                  input_filename = input;
                  output_filename_base = base;
                })))))

-- `iterations`, which each round sets. With one or two arguments there is no `argv[3]`: it is NULL, or
-- behind the end of the array, where Linux has the environment.
unfoldable pub round_iterations : (Name → ℤ) → List Name → Run ℕ
round_iterations atol [] = goes (count default_iterations)
round_iterations atol (a ∷ rest) = elim (get_elem? rest 1) [
  | none ↦ undefined
  | some text ↦ if ltb_ℤ (atol text) (pos 1) then bad_iterations else goes (count (atol text))
]

-- The files, the totals, the samples over all rounds, and `piCalc`.
pub record State (W F R : Type 0) : Type 0 where
  pub files : W
  pub totals : Totals
  pub samples : Samples F R
  pub pi : F

module _ {W F R : Type 0} (files : Files W) (double : Double F) (generator : Generator R) where
  -- The body of the loop.
  unfoldable pub mixed_block : (Name → ℤ) → List Name → Settings → State W F R → Run (State W F R)
  mixed_block atol argv s st =
      let (bytes_read, buffer, w') = files.read st.files (pos_part s.blocksize) in
      let t' = record st.totals {
        bytes_read = st.totals.bytes_read +ℤ bytes_read;
        reads = st.totals.reads + 1;
      } in
      if ltb_ℤ bytes_read (pos 0) then fails read_failed else elim (round_iterations atol argv) [
        | undefined ↦ undefined
        | bad_iterations ↦ bad_iterations
        | fails e ↦ fails e
        | goes n ↦
            let samples = sample_loop double generator n st.samples in
            let pi = pi_calc double generator samples in
            if eq_ℤ bytes_read s.blocksize
            then (let (bytes_written, w'') = files.write w' buffer in
                if ltb_ℤ bytes_written (pos 0)
                then fails write_failed
                else goes (record {
                  files = w'';
                  totals = record t' {
                    bytes_written = t'.bytes_written +ℤ bytes_written;
                    writes = t'.writes + 1;
                  };
                  samples = samples;
                  pi = pi;
                }))
            else (let (at, w'') = files.rewind w' in
                if eq_ℤ at (pos 0)
                then goes (record {
                  files = w'';
                  totals = record t' { resets = t'.resets + 1 };
                  samples = samples;
                  pi = pi;
                })
                else fails reset_failed)
      ]

  -- `do … while(totalBytesWritten < transfersize)` on fuel; `none` means that the fuel ran out.
  unfoldable pub mixed_loop :
      ℕ → (Name → ℤ) → List Name → Settings → State W F R → Option (Run (State W F R))
  mixed_loop zero atol argv s st = none
  mixed_loop (suc fuel) atol argv s st = elim (mixed_block atol argv s st) [
    | fails e ↦ some (fails e)
    | bad_iterations ↦ some bad_iterations
    | undefined ↦ some undefined
    | goes st' ↦
        let rest = mixed_loop fuel atol argv s st' in
        if ltb_ℤ st'.totals.bytes_written s.transfersize then rest else some (goes st')
  ]

  -- What `main` returns, `EXIT_SUCCESS + (0* piCalc)`.
  unfoldable pub exit_code : F → ℤ
  exit_code pi =
      double.to_int (double.add (double.of_int (pos 0)) (double.mul (double.of_int (pos 0)) pi))

  -- What follows the loop: the files are closed.
  unfoldable pub mixed_end : State W F R → Run (ℤ × W × Totals)
  mixed_end st = elim (close_files files st.files st.totals) [
    | exits e ↦ fails e
    | ok (w, t) ↦ goes (exit_code st.pi, w, t)
  ]

  -- From the settings on.
  unfoldable pub mixed_copy :
      ℕ → (Name → ℤ) → Bool → Name → List Name → Settings → W → R → Option (Run (ℤ × W × Totals))
  mixed_copy fuel atol malloc pid argv s w r =
      let (input, w1) = files.open_input w s.input_filename in
      if not malloc
      then some (fails no_buffer)
      else if ltb_ℤ input (pos 0)
      then some (fails input_not_opened)
      else elim (output_filename s.output_filename_base pid) [
        | exits e ↦ some (fails e)
        | ok name ↦
            let (output, w2) = files.open_output w1 name in
            if ltb_ℤ output (pos 0)
            then some (fails output_not_opened)
            else elim (mixed_loop fuel atol argv s (record {
              files = w2;
              totals = no_totals;
              samples = no_samples double generator r;
              pi = double.of_int (pos 0);
            })) [
              | none ↦ none
              | some (fails e) ↦ some (fails e)
              | some bad_iterations ↦ some bad_iterations
              | some undefined ↦ some undefined
              | some (goes st) ↦ some (mixed_end st)
            ]
      ]

  unfoldable pub mixed_main :
      ℕ → (Name → ℤ) → Bool → Name → List Name → W → R → Option (Run (ℤ × W × Totals))
  mixed_main fuel atol malloc pid argv w r = elim (mixed_settings atol argv) [
    | exits e ↦ some (fails e)
    | ok s ↦ mixed_copy fuel atol malloc pid argv s w r
  ]
