-- ===== src/Driver/Read.antt =====
-- What simple_char_driver_read gives, and where it starts.
use model_lib.Prelude.{
  ℕ, ◌+◌, ◌-◌, ◌≤◌, ◌<◌, ◌≡◌, sym, ◌∙◌, ap, some, List, [], ◌∷◌, ◌++◌, length, take, drop, arith,
  min, take-take, append-nil, drop_of_le,
}
use model_lib.Prelude.Int.{pos, +ℤ-pos, -ℤ-pos}
use model_lib.Prelude.Machine.{to_int-pos, to_size-pos}
use model_lib.Driver.{
  UserAccess, Copies, Driver, buffer_size, read, read_size, copy_out, bytes_read,
}
use model_lib.Driver.Log.{Stores}

read_size_lem :
    (d : Driver) (n size offset : ℕ)
    → d.eof ≡ pos n
    → n ≤ buffer_size
    → offset ≤ n
    → read_size d size (pos offset) ≡ pos (min size (n - offset))
unfolding read_size
read_size_lem d n size offset e fits h =
    rw (e, -ℤ-pos n offset h, to_size-pos (n - offset) (omega arith))
      (ground (arith, to_int-pos size, to_int-pos (n - offset)))

-- The device after a read of `r` bytes.
abbrev noted : Driver → ℕ → Driver
noted d r = record d { bread = pos r; log = d.log ++ (bytes_read (pos r) ∷ []) }

noted-Stores : (d : Driver) (bytes : List ℕ) (r : ℕ) → Stores d bytes → Stores (noted d r) bytes
noted-Stores d bytes r s = record {
  sized = s.sized;
  fits = s.fits;
  end = s.end;
  content = s.content;
}

-- A prefix of the buffer no longer than the bytes held is a prefix of those.
take-held :
    (d : Driver) (bytes : List ℕ) (r : ℕ)
    → Stores d bytes
    → r ≤ length bytes
    → take r d.device_buffer ≡ take r bytes
take-held d bytes r s h =
    ap (λ k. take k d.device_buffer) (omega arith)
    ∙ sym (take-take r (length bytes) d.device_buffer)
    ∙ ap (take r) s.content

module _ (u : UserAccess) (c : Copies u) where
  copy_out_lem :
      (d : Driver) (bytes user : List ℕ) (offset r : ℕ)
      → Stores d bytes
      → r ≤ length bytes
      → r ≤ length user
      → copy_out u d user (pos offset) (pos r)
        ≡ some (pos r, take r bytes ++ drop r user, pos (offset + r), noted d r)
  unfolding copy_out
  copy_out_lem d bytes user offset r s short room = ground (
    arith,
    s.sized,
    s.fits,
    to_size-pos r,
    +ℤ-pos offset r,
    c.to_user_all r d.device_buffer user,
    take-held d bytes r s short,
  )

  read-within :
      (d : Driver) (bytes user : List ℕ) (size offset : ℕ)
      → Stores d bytes
      → size ≤ length user
      → offset ≤ length bytes
      → let r = min size (length bytes - offset) in
        read u d user size (pos offset)
        ≡ some (pos r, take r bytes ++ drop r user, pos (offset + r), noted d r)
  unfolding read
  read-within d bytes user size offset s h within = ground (
    arith,
    s.end,
    read_size_lem d (length bytes) size offset s.end s.fits within,
    copy_out_lem d bytes user offset (min size (length bytes - offset)) s (omega arith)
        (omega arith),
  )

  -- A read at an offset that is not behind the end returns the number of bytes from there to the
  -- end, or the size of the user's buffer if that is less, and moves the offset on by it; but the
  -- bytes that it gives are the device's first ones. Behind the end it returns 0 and gives nothing.
  -- Either way the device holds what it held.
  pub read_lem :
      (d : Driver) (bytes user : List ℕ) (size offset : ℕ)
      → Stores d bytes
      → size ≤ length user
      → (offset ≤ length bytes
          → let r = min size (length bytes - offset) in
            (d' : Driver) × (read u d user size (pos offset)
              ≡ some (pos r, take r bytes ++ drop r user, pos (offset + r), d'))
            × Stores d' bytes)
        × (length bytes < offset
            → read u d user size (pos offset) ≡ some (pos 0, user, pos offset, d))
  unfolding read
  read_lem d bytes user size offset s h = (
    λ within. (
      noted d (min size (length bytes - offset)),
      read-within d bytes user size offset s h within,
      noted-Stores d bytes (min size (length bytes - offset)) s,
    ),
    λ beyond. ground (arith, s.end),
  )

  -- A read whose buffer is filled.
  read-filled :
      (d : Driver) (bytes user : List ℕ) (n offset : ℕ)
      → Stores d bytes
      → length user ≡ n
      → offset + n ≤ length bytes
      → read u d user n (pos offset) ≡ some (pos n, take n bytes, pos (offset + n), noted d n)
  read-filled d bytes user n offset s h room =
      read-within d bytes user n offset s (omega arith) (omega arith)
      ∙ rw (size, drop_of_le n user (omega arith), append-nil)
    where
      size : min n (length bytes - offset) ≡ n
      size = omega arith

  -- Two reads of `n` bytes, one after the other at the offset that the first leaves, give the same
  -- first `n` bytes of the device twice.
  read_twice_repeats :
      (d : Driver) (bytes user : List ℕ) (n : ℕ)
      → Stores d bytes
      → length user ≡ n
      → n + n ≤ length bytes
      → (d' : Driver) × (read u d user n (pos 0) ≡ some (pos n, take n bytes, pos n, d'))
        × (d'' : Driver) × (read u d' user n (pos n) ≡ some (pos n, take n bytes, pos (n + n), d''))
  read_twice_repeats d bytes user n s h room = (
    noted d n,
    read-filled d bytes user n 0 s h (omega arith)
        ∙ ap (λ k. some (pos n, take n bytes, pos k, noted d n)) (omega arith),
    noted (noted d n) n,
    read-filled (noted d n) bytes user n n (noted-Stores d bytes n s) h room,
  )
