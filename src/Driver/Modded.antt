-- ===== src/Driver/Modded.antt =====
-- lab2/module/modded_simple_char_driver.c: the driver that also asks a process for an
-- acknowledgement through two files. Its `open`, `release`, `init` and `exit` are those of
-- simple_char_driver.c, word for word, and so is the copying part of its `read`.
-- The kernel's file calls are a parameter, `Files`.
use model_lib.Prelude.{ℕ, Bool, ◌||◌, Option, none, some, List, [], ◌∷◌, ◌++◌, if◌then◌else◌}
use model_lib.Prelude.Int.{ℤ, pos, negsuc, ◌+ℤ◌, eq_ℤ}
use model_lib.Prelude.Machine.{to_int, to_size}
use model_lib.Driver.{
  UserAccess, Driver, buffer_size, read_size, write_size, copy_out, inside, index, store_at,
  bytes_written,
}

-- Whether `filp_open` gave NULL for each file, and what `vfs_read` leaves in the buffer and as the
-- position. The position that `vfs_write` leaves is overwritten.
pub record Files : Type 0 where
  pub infile_null : Bool
  pub outfile_null : Bool
  pub read_into : List ℕ → ℤ → List ℕ × ℤ

-- The calls on the two files, in order, and the line printed of the answer.
pub data FileCall : Type 0 where
  open_infile open_outfile write_request read_answer close_infile close_outfile : FileCall
  print_answer : List ℕ → FileCall

pub record Modded : Type 0 where
  pub device : Driver
  pub disk_buffer : List ℕ
  pub position : ℤ
  pub calls : List FileCall

module _ (u : UserAccess) where
  -- `read` has no test of the offset: only `eof == -1` ends it early.
  unfoldable pub read_modded : Driver → List ℕ → ℕ → ℤ → Option (ℤ × List ℕ × ℤ × Driver)
  read_modded d buffer size offset =
      if eq_ℤ d.eof (negsuc 0)
      then some (pos 0, buffer, offset, d)
      else copy_out u d buffer offset (read_size d size offset)

  -- `copy_from_user` and `eof += length`, which adds the size that was asked for.
  unfoldable pub copy_in_modded : Driver → List ℕ → ℕ → ℤ → Option Driver
  copy_in_modded d buffer size bwrite =
      let n = to_size bwrite in
      if inside d d.eof n
      then some (record d {
        device_buffer = store_at d.device_buffer (index d.eof) (u.from_user n buffer);
        eof = to_int (d.eof +ℤ pos size);
        bwrite = bwrite;
        log = d.log ++ (bytes_written bwrite ∷ []);
      })
      else none

-- The exchange over the two files, after the copy.
unfoldable pub ask : Files → Modded → Modded
ask f m =
    let opened = record m {
      position = pos 0;
      calls = m.calls ++ (open_infile ∷ open_outfile ∷ []);
    } in
    if f.infile_null || f.outfile_null
    then opened
    else (let (answer, end) = f.read_into m.disk_buffer (pos 0) in
        record opened {
          disk_buffer = answer;
          position = end;
          calls =
              opened.calls
              ++ (write_request
                  ∷ read_answer
                  ∷ print_answer answer
                  ∷ close_infile
                  ∷ close_outfile
                  ∷ []);
        })

-- Every path but that of a full device returns the size that was asked for.
unfoldable pub write_modded : UserAccess → Files → Modded → List ℕ → ℕ → Option (ℤ × Modded)
write_modded u f m buffer size =
    if eq_ℤ m.device.eof (pos buffer_size)
    then some (negsuc 0, m)
    else elim (copy_in_modded u m.device buffer size (write_size m.device size)) [
      | none ↦ none
      | some d ↦ some (pos size, ask f (record m { device = d }))
    ]
