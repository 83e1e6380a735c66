-- ===== src/Driver.antt =====
-- lab2/module/simple_char_driver.c: a character device over one kernel buffer.
-- User space is reached by `copy_to_user` and `copy_from_user`, which are the kernel's: a parameter.
-- `none` is an access outside `device_buffer`.
pub mod Log
pub mod Read
pub mod Run
pub mod Modded
pub mod Overrun
pub mod Tests
use model_lib.Prelude.{
  ℕ, ◌+◌, ◌-◌, ◌≤◌, ◌≡◌, Bool, ◌||◌, Option, none, some, List, [], ◌∷◌, ◌++◌, ltb, leb, ◌==◌,
  if◌then◌else◌, length, take, drop,
}
use model_lib.Prelude.Int.{ℤ, pos, negsuc, ◌+ℤ◌, ◌-ℤ◌, ltb_ℤ, eq_ℤ}
use model_lib.Prelude.Machine.{to_int, to_size}

-- `copy_to_user` leaves what stands in the user's buffer afterwards; `copy_from_user` gives the
-- bytes that it puts into the kernel's memory.
pub record UserAccess : Type 0 where
  pub to_user : ℕ → List ℕ → List ℕ → List ℕ
  pub from_user : ℕ → List ℕ → List ℕ

-- What the kernel documents of a copy with no fault. A copy into the kernel fills what it cannot
-- read with zeros, so it always writes as many bytes as were asked for.
pub record Copies (u : UserAccess) : Type 0 where
  pub to_user_all :
      (n : ℕ) (kernel user : List ℕ)
      → n ≤ length kernel
      → n ≤ length user
      → u.to_user n kernel user ≡ take n kernel ++ drop n user
  pub from_user_all : (n : ℕ) (user : List ℕ) → n ≤ length user → u.from_user n user ≡ take n user

-- `BUFFER_SIZE`
abbrev pub buffer_size : ℕ
buffer_size = 1024

-- What `printk` writes to the kernel's log, and the calls that register the device.
pub data Logged : Type 0 where
  bytes_read : ℤ → Logged
  bytes_written : ℤ → Logged
  device_opened : ℤ → Logged
  device_closed : ℤ → Logged
  function_called : Logged
  register_chrdev : ℕ → Logged
  unregister_chrdev : ℕ → Logged

-- The module's globals, and its log. `i` is never used.
pub record Driver : Type 0 where
  pub device_buffer : List ℕ
  pub opencount : ℤ
  pub closecount : ℤ
  pub eof : ℤ
  pub bread : ℤ
  pub bwrite : ℤ
  pub log : List Logged

-- Bytes written over a buffer from index `i` on.
abbrev pub store_at : List ℕ → ℕ → List ℕ → List ℕ
store_at cells i bytes = take i cells ++ (bytes ++ drop (i + length bytes) cells)

-- Whether `n` bytes from index `i` on lie in the buffer. `i` is an `int` that indexes it.
abbrev pub inside : Driver → ℤ → ℕ → Bool
inside d (pos i) n = n == 0 || leb (i + n) (length d.device_buffer)
inside d (negsuc i) n = n == 0

abbrev pub index : ℤ → ℕ
index (pos i) = i
index (negsuc i) = 0

-- `bread`: the difference is taken in 64 bits, compared as a `size_t` and kept in an `int`.
unfoldable pub read_size : Driver → ℕ → ℤ → ℤ
read_size d size offset =
    let left = to_size (d.eof -ℤ offset) in
    if ltb size left then to_int (pos size) else to_int (pos left)

-- `bwrite`, likewise.
unfoldable pub write_size : Driver → ℕ → ℤ
write_size d size =
    let room = to_size (pos buffer_size -ℤ d.eof) in
    if ltb size room then to_int (pos size) else to_int (pos room)

module _ (u : UserAccess) where
  -- The result, the user's buffer, `*offset` and the driver.
  unfoldable pub copy_out : Driver → List ℕ → ℤ → ℤ → Option (ℤ × List ℕ × ℤ × Driver)
  copy_out d buffer offset bread =
      let n = to_size bread in
      if inside d (pos 0) n
      then some (
        bread,
        u.to_user n d.device_buffer buffer,
        offset +ℤ bread,
        record d { bread = bread; log = d.log ++ (bytes_read bread ∷ []) },
      )
      else none

  -- `size` is a `size_t` and `offset` the `loff_t` that the pointer leads to.
  unfoldable pub read : Driver → List ℕ → ℕ → ℤ → Option (ℤ × List ℕ × ℤ × Driver)
  read d buffer size offset =
      if ltb_ℤ d.eof offset
      then some (pos 0, buffer, offset, d)
      else copy_out d buffer offset (read_size d size offset)

  unfoldable pub copy_in : Driver → List ℕ → ℤ → Option (ℤ × Driver)
  copy_in d buffer bwrite =
      let n = to_size bwrite in
      if inside d d.eof n
      then some (
        bwrite,
        record d {
          device_buffer = store_at d.device_buffer (index d.eof) (u.from_user n buffer);
          eof = to_int (d.eof +ℤ bwrite);
          bwrite = bwrite;
          log = d.log ++ (bytes_written bwrite ∷ []);
        },
      )
      else none

  -- The offset is not used, and a full device gives -1.
  unfoldable pub write : Driver → List ℕ → ℕ → Option (ℤ × Driver)
  write d buffer size =
      if eq_ℤ d.eof (pos buffer_size)
      then some (negsuc 0, d)
      else copy_in d buffer (write_size d size)

unfoldable pub open_device : Driver → ℤ × Driver
open_device d =
    let n = to_int (d.opencount +ℤ pos 1) in
    (pos 0, record d { opencount = n; log = d.log ++ (device_opened n ∷ []) })

unfoldable pub close_device : Driver → ℤ × Driver
close_device d =
    let n = to_int (d.closecount +ℤ pos 1) in
    (pos 0, record d { closecount = n; log = d.log ++ (device_closed n ∷ []) })

unfoldable pub init_module : Driver → ℤ × Driver
init_module d = (pos 0, record d { log = d.log ++ (function_called ∷ register_chrdev 150 ∷ []) })

unfoldable pub exit_module : Driver → ℤ × Driver
exit_module d = (pos 0, record d { log = d.log ++ (function_called ∷ unregister_chrdev 150 ∷ []) })

-- The calls that reach the device through `simple_char_driver_file_operations`, in order.
pub data Request : Type 0 where
  open_request : Request
  close_request : Request
  read_request : (buffer : List ℕ) (size : ℕ) (offset : ℕ) → Request
  write_request : (buffer : List ℕ) (size : ℕ) → Request

unfoldable pub handle : UserAccess → Driver → Request → Option Driver
handle u d open_request = some (open_device d).1
handle u d close_request = some (close_device d).1
handle u d (read_request buffer size offset) = elim (read u d buffer size (pos offset)) [
  | none ↦ none
  | some (r, buffer', offset', d') ↦ some d'
]
handle u d (write_request buffer size) = elim (write u d buffer size) [
  | none ↦ none
  | some (r, d') ↦ some d'
]

unfoldable pub handle_all : UserAccess → Driver → List Request → Option Driver
handle_all u d [] = some d
handle_all u d (r ∷ rs) = elim (handle u d r) [ none ↦ none | some d' ↦ handle_all u d' rs ]
