-- ===== src/Transfer/Tests.antt =====
-- lab4/rw.c on files that are lists of bytes.
use model_lib.Prelude.{
  ℕ, ◌+◌, ◌-◌, ◌≡◌, refl, none, List, [], ◌∷◌, ◌++◌, arith, length, take, drop, min, replicate,
}
use model_lib.Prelude.Int.{pos}
use model_lib.Prelude.{true, false}
use model_lib.Prelude.Int.{ltb_ℤ, ◌+ℤ◌}
use model_lib.Transfer.Success.{rw_main_written}
use model_lib.Transfer.{
  rw_main, copy_files, close_files, transfer_block, Name, Settings, settings, Files, transfer,
  no_totals, ok, output_filename, size_argument, name_argument, sizes_match, and_then,
}
use model_lib.Transfer.Arguments.{Accepted, settings-Accepted}
use model_lib.Transfer.Cycle.{Regular, Ends, cycled}
use model_lib.Transfer.Whole.{transfer_copies, transfer_never_ends}

-- The place of the input and the text of the output.
pub record Disk : Type 0 where
  pub place : ℕ
  pub text : List ℕ

abbrev pub disk_files : List ℕ → Files Disk
disk_files content = record {
  open_input = λ d name. (pos 3, d);
  open_output = λ d name. (pos 4, d);
  read = λ d n. (
    pos (min n (length content - d.place)),
    take n (drop d.place content),
    record d { place = d.place + min n (length content - d.place) },
  );
  write = λ d b. (pos (length b), record d { text = d.text ++ b });
  rewind = λ d. (pos 0, record d { place = 0 });
  close_output = λ d. (pos 0, d);
  close_input = λ d. (pos 0, d);
}

disk-Regular :
    (content : List ℕ) → Regular (disk_files content) content (λ d. d.place) (λ d. d.text)
disk-Regular content = record {
  read_count = λ d n. refl;
  read_bytes = λ d n. refl;
  read_moves = λ d n. refl;
  read_keeps = λ d n. refl;
  write_count = λ d b. refl;
  write_text = λ d b. refl;
  write_keeps = λ d b. refl;
  rewind_start = λ d. refl;
  rewind_moves = λ d. refl;
  rewind_keeps = λ d. refl;
}

abbrev pub fresh : Disk
fresh = record { place = 0; text = [] }

abbrev pub five : List ℕ
five = 97 ∷ 98 ∷ 99 ∷ 100 ∷ 101 ∷ []

-- Six bytes in blocks of two; here `atol` is the length of the text.
abbrev six : Settings
six = record {
  transfersize = pos 6;
  blocksize = pos 2;
  input_filename = 97 ∷ [];
  output_filename_base = 98 ∷ [];
}

abbrev pub arguments : List Name
arguments = replicate 6 49 ∷ replicate 2 49 ∷ (97 ∷ []) ∷ (98 ∷ []) ∷ []

settings-Accepted_example : Accepted six
unfolding settings size_argument name_argument sizes_match and_then
settings-Accepted_example = settings-Accepted (λ text. pos (length text)) arguments six refl

six-Accepted : Accepted six
six-Accepted = record {
  natural = refl;
  some_block = omega arith;
  whole = refl;
  one_block = omega arith;
  input_fits = omega arith;
  base_fits = omega arith;
}

transfer_copies_example :
    Ends (λ d. d.text) (transfer (disk_files five) 6 six fresh no_totals) 6 (cycled five 2 3 0)
transfer_copies_example =
    transfer_copies (disk_files five) five (λ d. d.place) (λ d. d.text) (disk-Regular five) six
      six-Accepted 6 fresh (omega arith) (omega arith)

cycled-five : cycled five 2 3 0 ≡ 97 ∷ 98 ∷ 99 ∷ 100 ∷ 97 ∷ 98 ∷ []
unfolding cycled
cycled-five = refl

transfer_never_ends_example : transfer (disk_files (97 ∷ [])) 100 six fresh no_totals ≡ none
transfer_never_ends_example =
    transfer_never_ends (disk_files (97 ∷ [])) (97 ∷ []) (λ d. d.place) (λ d. d.text)
      (disk-Regular (97 ∷ [])) six six-Accepted 100 fresh (omega arith)

abbrev base : Name
base = replicate 77 98

abbrev pub pid : Name
pid = 52 ∷ 50 ∷ []

rw_main_written_example :
    (s : Settings) × (settings (λ text. pos (length text)) arguments ≡ ok s)
    × Accepted s
    × (ltb_ℤ (pos 6) s.transfersize ≡ false)
unfolding rw_main copy_files close_files transfer transfer_block output_filename settings
    size_argument name_argument sizes_match and_then ◌+ℤ◌
rw_main_written_example =
    rw_main_written (disk_files five) 6 (λ text. pos (length text)) true (55 ∷ []) arguments fresh
      (record { place = 2; text = 97 ∷ 98 ∷ 99 ∷ 100 ∷ 97 ∷ 98 ∷ [] })
      (record { bytes_read = pos 7; reads = 4; bytes_written = pos 6; writes = 3; resets = 1 }) refl
