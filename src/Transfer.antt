-- ===== src/Transfer.antt =====
-- lab4/rw.c: copies N bytes from an input file to an output file, in blocks, and reads the input file
-- again when it ends.
pub mod Arguments
pub mod Cycle
pub mod Whole
pub mod Success
pub mod Tests
use model_lib.Prelude.{
  ℕ, zero, suc, ◌+◌, ◌-◌, ◌*◌, ◌%◌, Bool, not, Option, none, some, List, [], ◌∷◌, ◌++◌, min, length,
  leb, ltb, ◌==◌, if◌then◌else◌, get_elem?, take,
}
use model_lib.Prelude.Int.{ℤ, pos, pos_part, ◌+ℤ◌, ltb_ℤ, eq_ℤ}

abbrev pub Name : Type 0
Name = List ℕ

-- The messages of the failures, in the order of the tests.
pub data Error : Type 0 where
  bad_transfersize : Error
  bad_blocksize : Error
  input_name_too_long : Error
  output_base_too_long : Error
  blocksize_exceeds : Error
  not_a_multiple : Error
  no_buffer : Error
  input_not_opened : Error
  output_name_too_long : Error
  output_not_opened : Error
  read_failed : Error
  write_failed : Error
  reset_failed : Error
  output_not_closed : Error
  input_not_closed : Error

-- A value, or the failure that `exit(EXIT_FAILURE)` follows.
pub data Checked (A : Type 0) : Type 0 where
  ok : A → Checked A
  exits : Error → Checked A

unfoldable pub and_then : {A B : Type 0} → Checked A → (A → Checked B) → Checked B
and_then (ok a) f = f a
and_then (exits e) f = exits e

abbrev pub max_filename_length : ℕ
max_filename_length = 80

-- "rwinput" and "rwoutput".
abbrev pub default_input_filename : Name
default_input_filename = 114 ∷ 119 ∷ 105 ∷ 110 ∷ 112 ∷ 117 ∷ 116 ∷ []

abbrev pub default_output_filename_base : Name
default_output_filename_base = 114 ∷ 119 ∷ 111 ∷ 117 ∷ 116 ∷ 112 ∷ 117 ∷ 116 ∷ []

abbrev pub default_blocksize : ℤ
default_blocksize = pos 1024

abbrev pub default_transfersize : ℤ
default_transfersize = pos (1024 * 100)

pub record Settings : Type 0 where
  pub transfersize : ℤ
  pub blocksize : ℤ
  pub input_filename : Name
  pub output_filename_base : Name

-- The size in an argument, if there is one; `atol` is the library's.
unfoldable pub size_argument : (Name → ℤ) → Option Name → ℤ → Error → Checked ℤ
size_argument atol none default error = ok default
size_argument atol (some text) default error =
    if ltb_ℤ (atol text) (pos 1) then exits error else ok (atol text)

-- The name in an argument, or the default, where `strnlen` of it is below the limit.
unfoldable pub name_argument : Option Name → Name → Error → Checked Name
name_argument argument default error =
    let name : Name = elim argument [ none ↦ default | some text ↦ text ] in
    if leb max_filename_length (min (length name) max_filename_length) then exits error else ok name

-- The two sizes against each other; `%` on positive sizes.
unfoldable pub sizes_match : Settings → Checked Settings
sizes_match s =
    if ltb_ℤ s.transfersize s.blocksize
    then exits blocksize_exceeds
    else if not (pos_part s.transfersize % pos_part s.blocksize == 0)
    then exits not_a_multiple
    else ok s

-- The arguments `argv[1]` to `argv[argc - 1]`, in the order in which they are looked at.
unfoldable pub settings : (Name → ℤ) → List Name → Checked Settings
settings atol argv =
    and_then (size_argument atol (get_elem? argv 0) default_transfersize bad_transfersize)
      (λ transfersize.
        and_then (size_argument atol (get_elem? argv 1) default_blocksize bad_blocksize)
          (λ blocksize.
            and_then (name_argument (get_elem? argv 2) default_input_filename input_name_too_long)
              (λ input.
                and_then
                  (name_argument (get_elem? argv 3) default_output_filename_base
                    output_base_too_long)
                  (λ base. sizes_match (record {
                    transfersize = transfersize;
                    blocksize = blocksize;
                    input_filename = input;
                    output_filename_base = base;
                  })))))

-- `snprintf(outputFilename, 80, "%s-%d", base, getpid())` with the text of the process id: it returns
-- the length of the whole text, and stores at most 79 bytes of it.
unfoldable pub output_filename : Name → Name → Checked Name
output_filename base pid =
    let text = base ++ (45 ∷ pid) in
    if ltb max_filename_length (length text)
    then exits output_name_too_long
    else ok (take (max_filename_length - 1) text)

-- The system calls, on the state of the files. `read` gives what it stores with its result.
pub record Files (W : Type 0) : Type 0 where
  pub open_input : W → Name → ℤ × W
  pub open_output : W → Name → ℤ × W
  pub read : W → ℕ → ℤ × List ℕ × W
  pub write : W → List ℕ → ℤ × W
  pub rewind : W → ℤ × W
  pub close_output : W → ℤ × W
  pub close_input : W → ℤ × W

pub record Totals : Type 0 where
  pub bytes_read : ℤ
  pub reads : ℕ
  pub bytes_written : ℤ
  pub writes : ℕ
  pub resets : ℕ

abbrev pub no_totals : Totals
no_totals = record { bytes_read = pos 0; reads = 0; bytes_written = pos 0; writes = 0; resets = 0 }

module _ {W : Type 0} (files : Files W) where
  -- The body of the loop.
  unfoldable pub transfer_block : Settings → W → Totals → Checked (W × Totals)
  transfer_block s w t =
      let (bytes_read, buffer, w') = files.read w (pos_part s.blocksize) in
      let t' = record t { bytes_read = t.bytes_read +ℤ bytes_read; reads = t.reads + 1 } in
      if ltb_ℤ bytes_read (pos 0)
      then exits read_failed
      else if eq_ℤ bytes_read s.blocksize
      then (let (bytes_written, w'') = files.write w' buffer in
          if ltb_ℤ bytes_written (pos 0)
          then exits write_failed
          else ok (
            w'',
            record t' { bytes_written = t.bytes_written +ℤ bytes_written; writes = t.writes + 1 },
          ))
      else (let (at, w'') = files.rewind w' in
          if eq_ℤ at (pos 0)
          then ok (w'', record t' { resets = t.resets + 1 })
          else exits reset_failed)

  -- `do … while(totalBytesWritten < transfersize)` on fuel; `none` means that the fuel ran out.
  unfoldable pub transfer : ℕ → Settings → W → Totals → Option (Checked (W × Totals))
  transfer zero s w t = none
  transfer (suc fuel) s w t = elim (transfer_block s w t) [
    | exits e ↦ some (exits e)
    | ok (w', t') ↦
        let rest = transfer fuel s w' t' in
        if ltb_ℤ t'.bytes_written s.transfersize then rest else some (ok (w', t'))
  ]

  -- The ends of `main`: the buffer is freed and the files are closed.
  unfoldable pub close_files : W → Totals → Checked (W × Totals)
  close_files w t =
      let (out, w') = files.close_output w in
      let (inp, w'') = files.close_input w' in
      if not (eq_ℤ out (pos 0))
      then exits output_not_closed
      else if not (eq_ℤ inp (pos 0))
      then exits input_not_closed
      else ok (w'', t)

  -- From the settings on: the buffer (`malloc` gives one or not), the files, the loop.
  unfoldable pub copy_files : ℕ → Bool → Name → Settings → W → Option (Checked (W × Totals))
  copy_files fuel malloc pid s w =
      let (input, w1) = files.open_input w s.input_filename in
      if not malloc
      then some (exits no_buffer)
      else if ltb_ℤ input (pos 0)
      then some (exits input_not_opened)
      else elim (output_filename s.output_filename_base pid) [
        | exits e ↦ some (exits e)
        | ok name ↦
            let (output, w2) = files.open_output w1 name in
            if ltb_ℤ output (pos 0)
            then some (exits output_not_opened)
            else elim (transfer fuel s w2 no_totals) [
              | none ↦ none
              | some (exits e) ↦ some (exits e)
              | some (ok (w3, t)) ↦ some (close_files w3 t)
            ]
      ]

  unfoldable pub rw_main :
      ℕ → (Name → ℤ) → Bool → Name → List Name → W → Option (Checked (W × Totals))
  rw_main fuel atol malloc pid argv w = elim (settings atol argv) [
    | exits e ↦ some (exits e)
    | ok s ↦ copy_files fuel malloc pid s w
  ]
